-- ===== src/StringCopy.antt =====
-- strcpy/strcpy.cpp: `strcpy` over one memory of bytes, so that source and destination may overlap. A
-- null pointer is `none`, and a failed `assert` is a `fault`, as is an access past the memory. The loop
-- runs on fuel, one more than the size of the memory, since each round reads one byte further on.
pub mod Copies
pub mod Overlap
mod Tests
use learning_c.Common.{
  ℕ, zero, suc, Bool, true, false, Option, none, some, List, ◌==◌, length, get_elem?, set, Run, ok,
  fault, out_of_fuel, ◌>>=◌, access,
}

-- `*dest = b`
abbrev pub store : List ℕ → ℕ → ℕ → Run (List ℕ)
store memory dest b = do old ← access (get_elem? memory dest); ok (set memory dest b)

-- the loop, and the write of the terminator after it
unfoldable pub copy_from : ℕ → List ℕ → ℕ → ℕ → Run (List ℕ)
copy_from zero memory dest src = out_of_fuel
copy_from (suc fuel) memory dest src = do
  b ← access (get_elem? memory src)
  written ← store memory dest b
  elim (b == 0) [ true ↦ ok written | false ↦ copy_from fuel written (suc dest) (suc src) ]

unfoldable pub strcpy : List ℕ → Option ℕ → Option ℕ → Run (List ℕ)
strcpy memory none src = fault
strcpy memory (some dest) none = fault
strcpy memory (some dest) (some src) = copy_from (suc (length memory)) memory dest src
