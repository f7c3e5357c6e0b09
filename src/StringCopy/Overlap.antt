-- ===== src/StringCopy/Overlap.antt =====
-- strcpy/strcpy.cpp: a destination inside of the source.
use learning_c.Common.{
  ℕ, zero, suc, ◌+◌, ◌≤◌, ◌<◌, ◌≡◌, inl, inr, false, some, List, ◌==◌, length, length-set,
  get_elem?, get_elem?-lt, get_elem?-set, set, fault, arith, Option-cases,
}
use learning_c.StringCopy.{copy_from, strcpy}

-- no terminator stands at `src` or before `dest`
abbrev pub NoEnd : List ℕ → ℕ → ℕ → Type 0
NoEnd memory src dest =
    (i b : ℕ) → src ≤ i → i < dest → get_elem? memory i ≡ some b → (b == 0) ≡ false

copy_from-fault :
    (fuel : ℕ) (memory : List ℕ) (dest src : ℕ)
    → src < dest
    → src ≤ length memory
    → length memory < src + fuel
    → NoEnd memory src dest
    → copy_from fuel memory dest src ≡ fault
unfolding copy_from
copy_from-fault zero memory dest src lt le enough nonzero = absurd (omega arith)
copy_from-fault (suc fuel) memory dest src lt le enough nonzero =
    elim (Option-cases (get_elem? memory src)) [
      | inl past ↦ ground (arith, past)
      | inr (b, here) ↦ elim (Option-cases (get_elem? memory dest)) [
        | inl past ↦ ground (arith, here, past)
        | inr (old, there) ↦
            let more : (b == 0) ≡ false = nonzero src b (omega arith) lt here in
            let size : length (set memory dest b) ≡ length memory = length-set memory dest b in
            let in_src : src < length memory = get_elem?-lt memory src here in
            let in_dest : dest < length memory = get_elem?-lt memory dest there in
            let rest : copy_from fuel (set memory dest b) (suc dest) (suc src) ≡ fault =
              copy_from-fault fuel (set memory dest b) (suc dest) (suc src) (omega arith)
                (omega (arith, size, in_src)) (omega (arith, size))
                (λ i c from to read.
                  let cell = get_elem?-set memory dest i b in_dest in
                  ground (arith, cell, read, nonzero i c, more)) in
            ground (arith, here, there, more, rest)
      ]
    ]

-- When `dest` stands after `src` and no terminator between them, as where it points into the string
-- that is copied, `strcpy` overwrites the terminator before it gets there: it runs past the memory.
pub strcpy-fault :
    (memory : List ℕ) (dest src : ℕ)
    → src < dest
    → src ≤ length memory
    → NoEnd memory src dest
    → strcpy memory (some dest) (some src) ≡ fault
unfolding strcpy
strcpy-fault memory dest src lt le nonzero =
    copy_from-fault (suc (length memory)) memory dest src lt le (omega arith) nonzero
