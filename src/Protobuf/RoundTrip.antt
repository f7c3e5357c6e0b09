-- ===== src/Protobuf/RoundTrip.antt =====
-- protobuf/probuf.cpp: `serializeObject`, then `deserializeObject`.
use mathlib.Core.List.{append_assoc}
use learning_c.Common.{
  ℕ, ◌≡◌, refl, sym, Bool, false, ◌||◌, some, List, [], ◌∷◌, ◌++◌, length, length-append, ok, arith,
  ◌==◌, if◌then◌else◌, update, >>=-eq-ok, access, ◌∙◌,
}
use learning_c.Protobuf.{
  MetaField, Slot, Object, encode, serialize_object, deserialize_from, deserialize_object,
}
use learning_c.Protobuf.Fields.{
  kind_of, Fits, Typed, encode-kind_of, decode-encode, assign_total, Typed-update,
}

-- Every value of an object fits.
abbrev pub AllFit : Object → Type 0
AllFit object = (o : ℕ) (s : Slot) → object o ≡ some s → Fits s

-- whether a field stands at an offset
abbrev pub described : List (List ℕ × MetaField) → ℕ → Bool
described [] o = false
described ((name, f) ∷ fields) o = (f.offset == o) || described fields o

-- The parts of a serialization that returned.
pub serialize_object-eq-ok :
    (object : Object) (name : List ℕ) (f : MetaField) (fields : List (List ℕ × MetaField))
    (out : List ℕ)
    → serialize_object object ((name, f) ∷ fields) ≡ ok out
    → (slot : Slot) × (bytes : List ℕ) × (rest : List ℕ) × (object f.offset ≡ some slot)
      × (encode f.kind slot ≡ ok bytes)
      × (serialize_object object fields ≡ ok rest)
      × (out ≡ bytes ++ rest)
unfolding serialize_object
serialize_object-eq-ok object name f fields out h =
    let (slot, a, h₁) = >>=-eq-ok (access (object f.offset)) _ h in
    let (bytes, b, h₂) = >>=-eq-ok (encode f.kind slot) _ h₁ in
    let (rest, c, d) = >>=-eq-ok (serialize_object object fields) _ h₂ in
    (slot, bytes, rest, ground (arith, a), b, c, ground (arith, d))

deserialize_from-serialize :
    (fields : List (List ℕ × MetaField)) (object target : Object) (pre out : List ℕ)
    → AllFit object
    → Typed fields target
    → serialize_object object fields ≡ ok out
    → (result : Object) × (deserialize_from target fields (pre ++ out) (length pre) ≡ ok result)
      × ((o : ℕ) → result o ≡ (if described fields o then object o else target o))
unfolding deserialize_from
deserialize_from-serialize [] object target pre out fit typed h = (target, refl, λ o. refl)
deserialize_from-serialize ((name, f) ∷ fields) object target pre out fit
      ((old, there, kind), typed) h =
    let (slot, bytes, rest, here, enc, ser, whole) =
      serialize_object-eq-ok object name f fields out h in
    let same : kind_of old ≡ kind_of slot = kind ∙ sym (encode-kind_of f.kind slot bytes enc) in
    let changed : Object = update target f.offset (some slot) in
    let typed' = Typed-update fields target f.offset old slot typed there same in
    let (result, run, is) =
      deserialize_from-serialize fields object changed (pre ++ bytes) rest fit typed' ser in
    let first = decode-encode f.kind slot bytes pre rest (fit f.offset slot here) enc in
    let write = assign_total target f.offset old slot same in
    (
      result,
      ground (
        arith,
        first,
        write,
        run,
        append_assoc pre bytes rest,
        length-append pre bytes,
        there,
        whole,
      ),
      λ o. ground (arith, is o, here),
    )

-- When `serializeObject` returns for an object whose numbers and lengths fit in an `int32_t`, then
-- `deserializeObject` of its result, into any object with a value of the right type for each field,
-- returns, gives each field the value of the first object and leaves all else as it was.
pub deserialize_object-serialize_object :
    (fields : List (List ℕ × MetaField)) (object target : Object) (out : List ℕ)
    → AllFit object
    → Typed fields target
    → serialize_object object fields ≡ ok out
    → (result : Object) × (deserialize_object target fields out ≡ ok result)
      × ((o : ℕ) → result o ≡ (if described fields o then object o else target o))
deserialize_object-serialize_object fields object target out fit typed h =
    deserialize_from-serialize fields object target [] out fit typed h
