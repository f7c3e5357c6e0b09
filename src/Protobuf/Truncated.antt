-- ===== src/Protobuf/Truncated.antt =====
-- protobuf/probuf.cpp: `deserializeObject` of data that ends early.
use mathlib.Core.List.{append_assoc}
use learning_c.Common.{
  ℕ, ◌+◌, ◌-◌, ◌<◌, ◌≡◌, sym, inl, inr, some, List, [], ◌∷◌, ◌++◌, length, length-append, take,
  take-append-le, take-append-ge, length-take, ok, fault, arith, ltb, update, ◌∙◌, Bool-cases,
}
use learning_c.Protobuf.{
  FieldType, int32, string, MetaField, Slot, number, text, Object, encode, decode, serialize_object,
  deserialize_from, deserialize_object, bytes_of, int32_size, negative_from, read_int32, read_text,
}
use learning_c.Protobuf.Bytes.{slice-fault, read_int32-append}
use learning_c.Protobuf.Fields.{
  kind_of, Fits, Typed, encode-kind_of, decode-encode, assign_total, Typed-update,
}
use learning_c.Protobuf.RoundTrip.{AllFit, serialize_object-eq-ok}

read_int32-fault :
    (pre s : List ℕ) → length s < int32_size → read_int32 (pre ++ s) (length pre) ≡ fault
unfolding read_int32
read_int32-fault pre s h = ground (arith, slice-fault pre s int32_size h)

read_text-fault :
    (pre s : List ℕ) (n : ℕ) → length s < n → read_text (pre ++ s) (length pre) n ≡ fault
unfolding read_text
read_text-fault pre s n h = ground (arith, slice-fault pre s n h)

decode-short_number :
    (k : FieldType) (pre s : List ℕ)
    → length s < int32_size
    → decode k (pre ++ s) (length pre) ≡ fault
unfolding decode
decode-short_number int32 pre s h = ground (arith, read_int32-fault pre s h)
decode-short_number string pre s h = ground (arith, read_int32-fault pre s h)

decode-short_text :
    (pre s t : List ℕ)
    → length s < negative_from
    → length t < length s
    → decode string (pre ++ (bytes_of int32_size (length s) ++ t)) (length pre) ≡ fault
unfolding decode
decode-short_text pre s t fits h =
    let head = bytes_of int32_size (length s) in
    let first = read_int32-append pre t (length s) (omega (arith, fits)) in
    let second = read_text-fault (pre ++ head) t (length s) h in
    let regroup = append_assoc pre head t in
    let size : length (pre ++ head) ≡ length pre + int32_size = length-append pre head in
    ground (arith, first, second, regroup, size)

-- A proper part of what `encode` wrote cannot be decoded.
decode-encode-fault :
    (k : FieldType) (s : Slot) (bytes pre : List ℕ) (n : ℕ)
    → Fits s
    → encode k s ≡ ok bytes
    → n < length bytes
    → decode k (pre ++ take n bytes) (length pre) ≡ fault
decode-encode-fault int32 (number v) bytes pre n fits h lt =
    let size : length bytes ≡ int32_size = ground arith in
    decode-short_number int32 pre (take n bytes)
      (omega (arith, length-take n bytes (omega arith), size))
decode-encode-fault int32 (text s) bytes pre n fits h lt = absurd (ground arith)
decode-encode-fault string (number v) bytes pre n fits h lt = absurd (ground arith)
decode-encode-fault string (text s) bytes pre n fits h lt =
    let head = bytes_of int32_size (length s) in
    let whole : bytes ≡ head ++ s = ground arith in
    let size = length-append head s in
    elim (Bool-cases (ltb n int32_size)) [
      | inl few ↦
          decode-short_number string pre (take n bytes)
            (ground (arith, few, length-take n bytes (omega (arith, lt))))
      | inr more ↦
          let k = n - int32_size in
          let part : take n (head ++ s) ≡ head ++ take k s =
            take-append-ge n k head s (ground (arith, more)) in
          let short : length (take k s) < length s = ground (
            arith,
            length-take k s (ground (arith, lt, whole, size, more)),
            lt,
            whole,
            size,
            more,
          ) in
          ground (arith, decode-short_text pre s (take k s) fits short, part, whole)
    ]

deserialize_from-fault :
    (fields : List (List ℕ × MetaField)) (object target : Object) (pre out : List ℕ) (n : ℕ)
    → AllFit object
    → Typed fields target
    → serialize_object object fields ≡ ok out
    → n < length out
    → deserialize_from target fields (pre ++ take n out) (length pre) ≡ fault
unfolding deserialize_from serialize_object
deserialize_from-fault [] object target pre out n fit typed h lt = absurd (ground arith)
deserialize_from-fault ((name, f) ∷ fields) object target pre out n fit ((old, there, kind), typed)
      h lt =
    let (slot, bytes, rest, here, enc, ser, whole) =
      serialize_object-eq-ok object name f fields out h in
    let fits = fit f.offset slot here in
    let size = length-append bytes rest in
    elim (Bool-cases (ltb n (length bytes))) [
      | inl few ↦
          let part = take-append-le n bytes rest (ground (arith, few)) in
          ground (
            arith,
            decode-encode-fault f.kind slot bytes pre n fits enc (ground (arith, few)),
            part,
            whole,
          )
      | inr more ↦
          let k = n - length bytes in
          let part : take n (bytes ++ rest) ≡ bytes ++ take k rest =
            take-append-ge n k bytes rest (ground (arith, more)) in
          let same : kind_of old ≡ kind_of slot =
            kind ∙ sym (encode-kind_of f.kind slot bytes enc) in
          let changed : Object = update target f.offset (some slot) in
          let typed' = Typed-update fields target f.offset old slot typed there same in
          let first = decode-encode f.kind slot bytes pre (take k rest) fits enc in
          let write = assign_total target f.offset old slot same in
          let run =
            deserialize_from-fault fields object changed (pre ++ bytes) rest k fit typed' ser
              (ground (arith, lt, whole, size, more)) in
          ground (
            arith,
            first,
            write,
            run,
            append_assoc pre bytes (take k rest),
            length-append pre bytes,
            there,
            whole,
            part,
          )
    ]

-- No proper prefix of a serialization is accepted: for an object whose numbers and lengths fit in
-- an `int32_t`, `deserializeObject` reads past the end of every one.
pub deserialize_object_truncated :
    (fields : List (List ℕ × MetaField)) (object target : Object) (out : List ℕ) (n : ℕ)
    → AllFit object
    → Typed fields target
    → serialize_object object fields ≡ ok out
    → n < length out
    → deserialize_object target fields (take n out) ≡ fault
deserialize_object_truncated fields object target out n fit typed h lt =
    deserialize_from-fault fields object target [] out n fit typed h lt
