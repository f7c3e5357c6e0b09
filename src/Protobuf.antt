-- ===== src/Protobuf.antt =====
-- protobuf/probuf.cpp: an object is written field by field, as its description says, and read back.
-- An object is what stands at each of its offsets. A field read or written with the wrong type, and
-- a read past the end of the data, is a `fault`. An `int32_t` is its residue modulo 2 ^ 32, and the
-- machine stores its low byte first.
pub mod Bytes
pub mod Fields
pub mod RoundTrip
pub mod Truncated
pub mod Copy
mod Tests
use learning_c.Common.{
  ℕ, zero, suc, ◌+◌, ◌*◌, ◌/◌, ◌%◌, Bool, true, false, Option, none, some, List, [], ◌∷◌, ◌++◌, ltb,
  leb, ◌==◌, ◌&&◌, ◌||◌, if◌then◌else◌, length, take, drop, update, Run, ok, fault, ◌>>=◌, access,
}

-- `enum Type` of `MetaField`
pub data FieldType : Type 0 where
  int32 string : FieldType

pub record MetaField : Type 0 where
  pub kind : FieldType
  pub offset : ℕ

-- what may stand at an offset
pub data Slot : Type 0 where
  number : ℕ → Slot
  text : List ℕ → Slot

abbrev pub Object : Type 0
Object = ℕ → Option Slot

-- `sizeof(int32_t)`, and the least length that is negative as an `int32_t`
abbrev pub int32_size : ℕ
int32_size = 4

abbrev pub negative_from : ℕ
negative_from = 2147483648

-- the low `n` bytes of a number, low byte first, and the number that bytes stand for
abbrev pub bytes_of : ℕ → ℕ → List ℕ
bytes_of zero v = []
bytes_of (suc n) v = v % 256 ∷ bytes_of n (v / 256)

abbrev pub number_of : List ℕ → ℕ
number_of [] = 0
number_of (b ∷ bs) = b + 256 * number_of bs

-- `data.begin() + offset` up to `n` bytes further
abbrev pub slice : List ℕ → ℕ → ℕ → Run (List ℕ)
slice input offset n =
    if leb (offset + n) (length input) then ok (take n (drop offset input)) else fault

-- `*reinterpret_cast<const int32_t*>(&data[offset])`
unfoldable pub read_int32 : List ℕ → ℕ → Run ℕ
read_int32 input offset = do bs ← slice input offset int32_size; ok (number_of bs)

-- the body of the loop in `serializeObject`
abbrev pub encode : FieldType → Slot → Run (List ℕ)
encode int32 (number v) = ok (bytes_of int32_size v)
encode int32 (text s) = fault
encode string (number v) = fault
encode string (text s) = ok (bytes_of int32_size (length s) ++ s)

unfoldable pub serialize_object : Object → List (List ℕ × MetaField) → Run (List ℕ)
serialize_object object [] = ok []
serialize_object object ((name, field) ∷ fields) = do
  slot ← access (object field.offset)
  bytes ← encode field.kind slot
  rest ← serialize_object object fields
  ok (bytes ++ rest)

-- a value takes the place of one of the same type
abbrev pub assign : Object → ℕ → Option Slot → Slot → Run Object
assign object at none v = fault
assign object at (some (number old)) (number v) = ok (update object at (some (number v)))
assign object at (some (number old)) (text s) = fault
assign object at (some (text old)) (number v) = fault
assign object at (some (text old)) (text s) = ok (update object at (some (text s)))

-- `std::string value(data.begin() + offset, data.begin() + offset + length)`
unfoldable pub read_text : List ℕ → ℕ → ℕ → Run (List ℕ)
read_text input offset n = if ltb n negative_from then slice input offset n else fault

-- what is read for a field, and the offset after it
unfoldable pub decode : FieldType → List ℕ → ℕ → Run (Slot × ℕ)
decode int32 input offset = do
  value ← read_int32 input offset
  ok (number value, offset + int32_size)
decode string input offset = do
  n ← read_int32 input offset
  value ← read_text input (offset + int32_size) n
  ok (text value, offset + int32_size + n)

-- the loop of `deserializeObject` at an offset into the data
unfoldable pub deserialize_from : Object → List (List ℕ × MetaField) → List ℕ → ℕ → Run Object
deserialize_from object [] input offset = ok object
deserialize_from object ((name, field) ∷ fields) input offset = do
  (value, next) ← decode field.kind input offset
  changed ← assign object field.offset (object field.offset) value
  deserialize_from changed fields input next

abbrev pub deserialize_object : Object → List (List ℕ × MetaField) → List ℕ → Run Object
deserialize_object object fields input = deserialize_from object fields input 0

-- `MetaClass`: the fields with their names, in the order in which the `unordered_map` gives them
abbrev pub MetaClass : Type 0
MetaClass = List (List ℕ × MetaField)

abbrev pub same_name : List ℕ → List ℕ → Bool
same_name [] [] = true
same_name [] (y ∷ ys) = false
same_name (x ∷ xs) [] = false
same_name (x ∷ xs) (y ∷ ys) = x == y && same_name xs ys

abbrev pub has_name : List ℕ → MetaClass → Bool
has_name name [] = false
has_name name ((other, f) ∷ fields) = same_name other name || has_name name fields

abbrev pub replace_field : List ℕ → MetaField → MetaClass → MetaClass
replace_field name f [] = []
replace_field name f ((other, g) ∷ fields) =
    (other, if same_name other name then f else g) ∷ replace_field name f fields

abbrev pub insert_at : ℕ → List ℕ × MetaField → MetaClass → MetaClass
insert_at zero x fields = x ∷ fields
insert_at (suc place) x [] = x ∷ []
insert_at (suc place) x (y ∷ fields) = y ∷ insert_at place x fields

-- `fields[name] = ...`: a name that is new comes to a `place` that the map chooses
abbrev pub add_field : ℕ → List ℕ → FieldType → ℕ → MetaClass → MetaClass
add_field place name kind offset fields =
    let f : MetaField = record { kind = kind; offset = offset } in
    if has_name name fields then replace_field name f fields else insert_at place (name, f) fields

pub record Person : Type 0 where
  pub id : ℕ
  pub name : List ℕ
  pub email : List ℕ

-- the names of the fields, as the codes of their letters
abbrev pub id_name : List ℕ
id_name = 105 ∷ 100 ∷ []

abbrev pub name_name : List ℕ
name_name = 110 ∷ 97 ∷ 109 ∷ 101 ∷ []

abbrev pub email_name : List ℕ
email_name = 101 ∷ 109 ∷ 97 ∷ 105 ∷ 108 ∷ []

abbrev pub number_at : Option Slot → Run ℕ
number_at none = fault
number_at (some (number v)) = ok v
number_at (some (text s)) = fault

abbrev pub text_at : Option Slot → Run (List ℕ)
text_at none = fault
text_at (some (number v)) = fault
text_at (some (text s)) = ok s

-- The compiler chooses the offsets of the members.
module _ (id_at name_at email_at : ℕ) where
  unfoldable pub create_person_meta_class : ℕ → ℕ → ℕ → MetaClass
  create_person_meta_class i j k =
      add_field k email_name string email_at
        (add_field j name_name string name_at (add_field i id_name int32 id_at []))

  -- a `Person` as what stands at its offsets, and back
  abbrev pub object_of : Person → Object
  object_of p =
      update (update (update (λ o. none) id_at (some (number p.id))) name_at (some (text p.name)))
        email_at (some (text p.email))

  unfoldable pub person_of : Object → Run Person
  person_of object = do
    i ← number_at (object id_at)
    n ← text_at (object name_at)
    e ← text_at (object email_at)
    ok (record { id = i; name = n; email = e })

  -- the part of `main` that writes a person and reads it into a blank one
  unfoldable pub copy_person : MetaClass → Person → Run Person
  copy_person fields p = do
    out ← serialize_object (object_of p) fields
    object ← deserialize_object (object_of (record { id = 0; name = []; email = [] })) fields out
    person_of object
