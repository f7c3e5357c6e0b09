-- ===== src/Protobuf/Fields.antt =====
-- protobuf/probuf.cpp: one field, as it is written, read and assigned.
use learning_c.Common.{
  ℕ, ◌+◌, ◌<◌, ◌≡◌, refl, Bool, true, false, some, List, [], ◌∷◌, ◌++◌, length, length-append, ok,
  arith, ◌==◌, update, All,
}
use mathlib.Core.List.{append_assoc}
use learning_c.Protobuf.{
  FieldType, int32, string, MetaField, Slot, number, text, Object, bytes_of, int32_size,
  negative_from, encode, decode, read_text, assign,
}
use learning_c.Protobuf.Bytes.{read_int32-append, slice-append}

abbrev pub kind_of : Slot → FieldType
kind_of (number v) = int32
kind_of (text s) = string

-- A number is an `int32_t`, and a text has a length that one can hold.
abbrev pub Fits : Slot → Type 0
Fits (number v) = v < 4294967296
Fits (text s) = length s < negative_from

-- An object has a value of the right type for each field.
abbrev pub Typed : List (List ℕ × MetaField) → Object → Type 0
Typed fields object =
    All (λ nf. (old : Slot) × (object nf.1.offset ≡ some old) × (kind_of old ≡ nf.1.kind)) fields

pub encode-kind_of :
    (k : FieldType) (s : Slot) (bytes : List ℕ) → encode k s ≡ ok bytes → kind_of s ≡ k
encode-kind_of int32 (number v) bytes h = refl
encode-kind_of int32 (text s) bytes h = absurd (ground arith)
encode-kind_of string (number v) bytes h = absurd (ground arith)
encode-kind_of string (text s) bytes h = refl

read_text-append :
    (pre s post : List ℕ)
    → length s < negative_from
    → read_text (pre ++ (s ++ post)) (length pre) (length s) ≡ ok s
unfolding read_text
read_text-append pre s post h = ground (arith, slice-append pre s post)

decode-number :
    (pre post : List ℕ) (v : ℕ)
    → v < 4294967296
    → decode int32 (pre ++ (bytes_of int32_size v ++ post)) (length pre)
      ≡ ok (number v, length pre + int32_size)
unfolding decode
decode-number pre post v h = ground (arith, read_int32-append pre post v h)

decode-text :
    (pre post s : List ℕ)
    → length s < negative_from
    → decode string (pre ++ ((bytes_of int32_size (length s) ++ s) ++ post)) (length pre)
      ≡ ok (text s, length pre + int32_size + length s)
unfolding decode
decode-text pre post s h =
    let head = bytes_of int32_size (length s) in
    let first = read_int32-append pre (s ++ post) (length s) (omega (arith, h)) in
    let second = read_text-append (pre ++ head) s post h in
    let regroup = append_assoc head s post in
    let regroup₂ = append_assoc pre head (s ++ post) in
    let size : length (pre ++ head) ≡ length pre + int32_size = length-append pre head in
    ground (arith, first, second, regroup, regroup₂, size)

-- What `encode` wrote, `decode` reads, and it stops right after it.
pub decode-encode :
    (k : FieldType) (s : Slot) (bytes pre post : List ℕ)
    → Fits s
    → encode k s ≡ ok bytes
    → decode k (pre ++ (bytes ++ post)) (length pre) ≡ ok (s, length pre + length bytes)
decode-encode int32 (number v) bytes pre post fits h = ground (arith, decode-number pre post v fits)
decode-encode int32 (text s) bytes pre post fits h = absurd (ground arith)
decode-encode string (number v) bytes pre post fits h = absurd (ground arith)
decode-encode string (text s) bytes pre post fits h =
    ground (arith, decode-text pre post s fits, length-append (bytes_of int32_size (length s)) s)

pub assign_total :
    (object : Object) (at : ℕ) (old new : Slot)
    → kind_of old ≡ kind_of new
    → assign object at (some old) new ≡ ok (update object at (some new))
assign_total object at (number a) (number b) h = refl
assign_total object at (number a) (text b) h = absurd (ground arith)
assign_total object at (text a) (number b) h = absurd (ground arith)
assign_total object at (text a) (text b) h = refl

pub Typed-update :
    (fields : List (List ℕ × MetaField)) (object : Object) (at : ℕ) (old new : Slot)
    → Typed fields object
    → object at ≡ some old
    → kind_of old ≡ kind_of new
    → Typed fields (update object at (some new))
Typed-update [] object at old new typed here same = tt
Typed-update ((name, f) ∷ fields) object at old new ((s, there, kind), rest) here same =
    (typed_at (at == f.offset) refl, Typed-update fields object at old new rest here same)
  where
    typed_at :
        (b : Bool)
        → (at == f.offset) ≡ b
        → (o : Slot) × (update object at (some new) f.offset ≡ some o) × (kind_of o ≡ f.kind)
    typed_at true e = (new, ground (arith, e), ground (arith, e))
    typed_at false e = (s, ground (arith, e), kind)
