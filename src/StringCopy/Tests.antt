-- ===== src/StringCopy/Tests.antt =====
-- strcpy/strcpy.cpp: the arrays `a` and `b` of `main`, one behind the other.
use learning_c.Common.{ℕ, ◌≡◌, refl, inr, some, List, [], ◌∷◌, suc, zero, ok, fault, arith}
use learning_c.StringCopy.{strcpy, copy_from}
use learning_c.StringCopy.Copies.{IsString, Copied, strcpy_total}
use learning_c.StringCopy.Overlap.{NoEnd, strcpy-fault}

-- "adfbcd" and "abcdef"
abbrev memory : List ℕ
memory = 97 ∷ 100 ∷ 102 ∷ 98 ∷ 99 ∷ 100 ∷ 0 ∷ 97 ∷ 98 ∷ 99 ∷ 100 ∷ 101 ∷ 102 ∷ 0 ∷ []

a-IsString : IsString memory 0 6
a-IsString = (
  97,
  refl,
  refl,
  (100, refl, refl, (102, refl, refl, (98, refl, refl, (99, refl, refl, (100, refl, refl, refl))))),
)

strcpy_total_example : Copied memory 7 0 6 (strcpy memory (some 7) (some 0))
strcpy_total_example = strcpy_total 6 memory 7 0 a-IsString (ground arith) (inr (omega arith))

copied_b :
    strcpy memory (some 7) (some 0)
    ≡ ok (97 ∷ 100 ∷ 102 ∷ 98 ∷ 99 ∷ 100 ∷ 0 ∷ 97 ∷ 100 ∷ 102 ∷ 98 ∷ 99 ∷ 100 ∷ 0 ∷ [])
unfolding strcpy copy_from
copied_b = refl

no_end : NoEnd memory 0 2
no_end zero b from to read = ground arith
no_end (suc zero) b from to read = ground arith
no_end (suc (suc i)) b from to read = absurd (omega arith)

strcpy-fault_example : strcpy memory (some 2) (some 0) ≡ fault
strcpy-fault_example = strcpy-fault memory 2 0 (omega arith) (omega arith) no_end
