-- ===== src/StringCopy/Copies.antt =====
-- strcpy/strcpy.cpp: source and destination apart.
use learning_c.Common.{
  ℕ, zero, suc, ◌+◌, ◌-◌, ◌<◌, ◌≡◌, ◌⊎◌, ap, ◌∙◌, inl, inr, false, Option, some, List, ◌==◌, leb,
  ◌&&◌, if◌then◌else◌, length, length-set, get_elem?, get_elem?-set, get_elem?-set_other,
  get_elem?_total, set, Run, ok, arith, Bool-cases,
}
use learning_c.StringCopy.{copy_from, strcpy}

-- A string of `n` bytes stands at `src`.
abbrev pub IsString : List ℕ → ℕ → ℕ → Type 0
IsString memory src zero = get_elem? memory src ≡ some 0
IsString memory src (suc n) =
    (b : ℕ) × (get_elem? memory src ≡ some b) × ((b == 0) ≡ false) × IsString memory (suc src) n

-- the two places, with the terminators, have no byte in common
abbrev pub IsApart : ℕ → ℕ → ℕ → Type 0
IsApart dest src n = (dest + n < src) ⊎ (src + n < dest)

-- A write elsewhere leaves a string.
IsString-set :
    (memory : List ℕ) (src n k v : ℕ)
    → (k < src) ⊎ (src + n < k)
    → IsString memory src n
    → IsString (set memory k v) src n
IsString-set memory src zero k v out here =
    get_elem?-set_other memory k src v
      (elim out [ inl below ↦ ground arith | inr above ↦ ground arith ])
    ∙ here
IsString-set memory src (suc n) k v out (b, here, nonzero, rest) =
    let other : (k == src) ≡ false = elim out [
      | inl below ↦ ground arith
      | inr above ↦ ground arith
    ] in
    let out_rest : (k < suc src) ⊎ (suc src + n < k) = elim out [
      | inl below ↦ inl (omega arith)
      | inr above ↦ inr (omega arith)
    ] in
    (
      b,
      get_elem?-set_other memory k src v other ∙ here,
      nonzero,
      IsString-set memory (suc src) n k v out_rest rest,
    )

-- what stands at `j` after a copy of `n` bytes and the terminator
abbrev pub copied : List ℕ → ℕ → ℕ → ℕ → ℕ → Option ℕ
copied memory dest src n j =
    if leb dest j && leb j (dest + n)
    then get_elem? memory (src + (j - dest))
    else get_elem? memory j

-- The first byte copied by itself.
copied-set :
    (memory : List ℕ) (dest src n j b : ℕ)
    → get_elem? memory src ≡ some b
    → dest < length memory
    → IsApart dest src (suc n)
    → copied (set memory dest b) (suc dest) (suc src) n j ≡ copied memory dest src (suc n) j
copied-set memory dest src n j b here lt apart = elim (Bool-cases (dest == j)) [
  | inl first ↦
      let start : src + (j - dest) ≡ src = ground (arith, first) in
      let read : get_elem? memory (src + (j - dest)) ≡ some b =
        ap (get_elem? memory) start ∙ here in
      ground (arith, first, read, get_elem?-set memory dest j b lt)
  | inr other ↦ elim (Bool-cases (leb (suc dest) j && leb j (suc dest + n))) [
    | inl inside ↦
        let place : suc src + (j - suc dest) ≡ src + (j - dest) = ground (arith, inside) in
        let elsewhere : (dest == (suc src + (j - suc dest))) ≡ false = elim apart [
          | inl below ↦ ground (arith, inside)
          | inr above ↦ ground (arith, inside)
        ] in
        let read : get_elem? (set memory dest b) (suc src + (j - suc dest))
            ≡ get_elem? memory (src + (j - dest)) =
          get_elem?-set_other memory dest (suc src + (j - suc dest)) b elsewhere
          ∙ ap (get_elem? memory) place in
        ground (arith, inside, read)
    | inr outside ↦
        let read : get_elem? (set memory dest b) j ≡ get_elem? memory j =
          get_elem?-set_other memory dest j b other in
        ground (arith, outside, other, read)
  ]
]

abbrev pub Copied : List ℕ → ℕ → ℕ → ℕ → Run (List ℕ) → Type 0
Copied memory dest src n result =
    (after : List ℕ) × (result ≡ ok after)
    × (length after ≡ length memory)
    × ((j : ℕ) → get_elem? after j ≡ copied memory dest src n j)

copy_from_total :
    (n fuel : ℕ) (memory : List ℕ) (dest src : ℕ)
    → IsString memory src n
    → dest + n < length memory
    → IsApart dest src n
    → n < fuel
    → Copied memory dest src n (copy_from fuel memory dest src)
unfolding copy_from
copy_from_total n zero memory dest src s room apart enough = absurd (omega arith)
copy_from_total zero (suc fuel) memory dest src s room apart enough =
    let (old, there) = get_elem?_total memory dest (omega arith) in
    (
      set memory dest 0,
      ground (arith, s, there),
      length-set memory dest 0,
      λ j. ground (arith, get_elem?-set memory dest j 0, s),
    )
copy_from_total (suc n) (suc fuel) memory dest src (b, here, nonzero, rest) room apart enough =
    let (old, there) = get_elem?_total memory dest (omega arith) in
    let out : (dest < suc src) ⊎ (suc src + n < dest) = elim apart [
      | inl below ↦ inl (omega arith)
      | inr above ↦ inr (omega arith)
    ] in
    let apart_rest : IsApart (suc dest) (suc src) n = elim apart [
      | inl below ↦ inl (omega arith)
      | inr above ↦ inr (omega arith)
    ] in
    let written = set memory dest b in
    let (after, ran, size, cells) =
      copy_from_total n fuel written (suc dest) (suc src)
        (IsString-set memory (suc src) n dest b out rest) (omega (arith, length-set memory dest b))
        apart_rest (omega arith) in
    (
      after,
      ground (arith, here, there, nonzero, ran),
      size ∙ length-set memory dest b,
      λ j. cells j ∙ copied-set memory dest src n j b here (omega arith) apart,
    )

-- When a string of `n` bytes stands at `src`, and `n` bytes with the terminator fit at `dest` in the
-- memory and are apart from it, `strcpy` returns: the bytes and the terminator stand at `dest`, and
-- every other byte is as before.
pub strcpy_total :
    (n : ℕ) (memory : List ℕ) (dest src : ℕ)
    → IsString memory src n
    → dest + n < length memory
    → IsApart dest src n
    → Copied memory dest src n (strcpy memory (some dest) (some src))
unfolding strcpy
strcpy_total n memory dest src s room apart =
    copy_from_total n (suc (length memory)) memory dest src s room apart (omega arith)
