-- ===== src/Protobuf/Copy.antt =====
-- protobuf/probuf.cpp: the description of `Person` and the copy of one that `main` makes.
use learning_c.Common.{
  ℕ, zero, suc, ◌<◌, ◌≡◌, ◌≢◌, refl, sym, ap, subst, false, ◌||◌, some, List, [], ◌∷◌, ◌++◌, length,
  ok, arith, ◌==◌, ◌∙◌, Bool-cases, inl, inr,
}
use learning_c.Protobuf.{
  FieldType, int32, string, MetaField, Slot, number, text, Object, encode, serialize_object,
  negative_from, MetaClass, same_name, has_name, insert_at, add_field, Person, id_name, name_name,
  email_name, create_person_meta_class, object_of, person_of, copy_person,
}
use learning_c.Protobuf.Fields.{kind_of, Fits, Typed}
use learning_c.Protobuf.RoundTrip.{AllFit, described, deserialize_object-serialize_object}

encode_total :
    (k : FieldType) (s : Slot) → kind_of s ≡ k → (bytes : List ℕ) × (encode k s ≡ ok bytes)
encode_total int32 (number v) h = (_, refl)
encode_total int32 (text s) h = absurd (ground arith)
encode_total string (number v) h = absurd (ground arith)
encode_total string (text s) h = (_, refl)

-- An object that has the fields is serialized.
pub serialize_object_total :
    (fields : MetaClass) (object : Object)
    → Typed fields object
    → (out : List ℕ) × (serialize_object object fields ≡ ok out)
unfolding serialize_object
serialize_object_total [] object typed = ([], refl)
serialize_object_total ((name, f) ∷ fields) object ((s, here, kind), typed) =
    let (bytes, e) = encode_total f.kind s kind in
    let (rest, r) = serialize_object_total fields object typed in
    (bytes ++ rest, ground (arith, here, e, r))

Typed-insert_at :
    (place : ℕ) (name : List ℕ) (f : MetaField) (fields : MetaClass) (object : Object)
    → (s : Slot) × (object f.offset ≡ some s) × (kind_of s ≡ f.kind)
    → Typed fields object
    → Typed (insert_at place (name, f) fields) object
Typed-insert_at zero name f fields object here typed = (here, typed)
Typed-insert_at (suc place) name f [] object here typed = (here, tt)
Typed-insert_at (suc place) name f (y ∷ fields) object here (first, typed) =
    (first, Typed-insert_at place name f fields object here typed)

described-insert_at :
    (place : ℕ) (name : List ℕ) (f : MetaField) (fields : MetaClass) (o : ℕ)
    → described (insert_at place (name, f) fields) o ≡ ((f.offset == o) || described fields o)
described-insert_at zero name f fields o = refl
described-insert_at (suc place) name f [] o = refl
described-insert_at (suc place) name f ((other, g) ∷ fields) o =
    ground (arith, described-insert_at place name f fields o)

has_name-insert_at :
    (place : ℕ) (name other : List ℕ) (f : MetaField) (fields : MetaClass)
    → has_name other (insert_at place (name, f) fields)
      ≡ (same_name name other || has_name other fields)
has_name-insert_at zero name other f fields = refl
has_name-insert_at (suc place) name other f [] = refl
has_name-insert_at (suc place) name other f ((n, g) ∷ fields) =
    ground (arith, has_name-insert_at place name other f fields)

-- A field with a new name: what `addField` does to the description.
add_field-insert :
    (place : ℕ) (name : List ℕ) (kind : FieldType) (offset : ℕ) (fields : MetaClass)
    → has_name name fields ≡ false
    → add_field place name kind offset fields
      ≡ insert_at place (name, record { kind = kind; offset = offset }) fields
add_field-insert place name kind offset fields h = ground arith

-- Where the members of a person stand, apart from one another, and the order of the map.
module _ (id_at name_at email_at i j k : ℕ) where
  abbrev id_field : List ℕ × MetaField
  id_field = (id_name, record { kind = int32; offset = id_at })

  abbrev name_field : List ℕ × MetaField
  name_field = (name_name, record { kind = string; offset = name_at })

  abbrev email_field : List ℕ × MetaField
  email_field = (email_name, record { kind = string; offset = email_at })

  abbrev pub class : MetaClass
  class = create_person_meta_class id_at name_at email_at i j k

  class-eq : class ≡ insert_at k email_field (insert_at j name_field (insert_at i id_field []))
  unfolding create_person_meta_class
  class-eq =
      let two = insert_at i id_field [] in
      let new_name : has_name name_name two ≡ false =
        has_name-insert_at i id_name name_name id_field.1 [] in
      let three = insert_at j name_field two in
      let new_email : has_name email_name three ≡ false =
        has_name-insert_at j name_name email_name name_field.1 two
        ∙ has_name-insert_at i id_name email_name id_field.1 [] in
      ap (add_field k email_name string email_at)
        (add_field-insert j name_name string name_at two new_name)
      ∙ add_field-insert k email_name string email_at three new_email

  class-described :
      (o : ℕ) → described class o ≡ ((email_at == o) || ((name_at == o) || ((id_at == o) || false)))
  class-described o =
      let two = insert_at i id_field [] in
      ap (λ l. described l o) class-eq
      ∙ described-insert_at k email_name email_field.1 (insert_at j name_field two) o
      ∙ ap (λ b. (email_at == o) || b)
          (described-insert_at j name_name name_field.1 two o
            ∙ ap (λ b. (name_at == o) || b) (described-insert_at i id_name id_field.1 [] o))

  module _ (apart₁ : id_at ≢ name_at) (apart₂ : id_at ≢ email_at) (apart₃ : name_at ≢ email_at)
      (p : Person) where
    abbrev pub object : Object
    object = object_of id_at name_at email_at p

    id_there : object id_at ≡ some (number p.id)
    id_there = ground (arith, apart₁, apart₂)

    name_there : object name_at ≡ some (text p.name)
    name_there = ground (arith, apart₃)

    email_there : object email_at ≡ some (text p.email)
    email_there = ground arith

    pub class-Typed : Typed class object
    class-Typed =
        let two = insert_at i id_field [] in
        let typed₁ =
          Typed-insert_at i id_name id_field.1 [] object (number p.id, id_there, refl) tt in
        let typed₂ =
          Typed-insert_at j name_name name_field.1 two object (text p.name, name_there, refl)
            typed₁ in
        subst (λ l. Typed l object) (sym class-eq)
          (Typed-insert_at k email_name email_field.1 (insert_at j name_field two) object
            (text p.email, email_there, refl) typed₂)

    pub object-AllFit :
        p.id < 4294967296
        → length p.name < negative_from
        → length p.email < negative_from
        → AllFit object
    object-AllFit small short₁ short₂ o s h = elim (Bool-cases (email_at == o)) [
      | inl email ↦ let e : text p.email ≡ s = ground (arith, h, email) in subst Fits e short₂
      | inr other ↦ elim (Bool-cases (name_at == o)) [
        | inl name ↦ let e : text p.name ≡ s = ground (arith, h, other, name) in subst Fits e short₁
        | inr rest ↦ elim (Bool-cases (id_at == o)) [
          | inl id ↦
              let e : number p.id ≡ s = ground (arith, h, other, rest, id) in subst Fits e small
          | inr nothing ↦ absurd (ground (arith, h, other, rest, nothing))
        ]
      ]
    ]

-- A person whose id is an `int32_t` and whose texts have lengths that one can hold is read back as
-- it was written, wherever the compiler puts the members and in whatever order the map gives them.
pub copy_person_lem :
    (id_at name_at email_at i j k : ℕ) (p : Person)
    → id_at ≢ name_at
    → id_at ≢ email_at
    → name_at ≢ email_at
    → p.id < 4294967296
    → length p.name < negative_from
    → length p.email < negative_from
    → copy_person id_at name_at email_at (create_person_meta_class id_at name_at email_at i j k) p
      ≡ ok p
unfolding copy_person person_of
copy_person_lem id_at name_at email_at i j k p apart₁ apart₂ apart₃ small short₁ short₂ =
    let blank : Person = record { id = 0; name = []; email = [] } in
    let fields = create_person_meta_class id_at name_at email_at i j k in
    let typed = class-Typed id_at name_at email_at i j k apart₁ apart₂ apart₃ p in
    let fit =
      object-AllFit id_at name_at email_at i j k apart₁ apart₂ apart₃ p small short₁ short₂ in
    let (out, ser) = serialize_object_total fields (object_of id_at name_at email_at p) typed in
    let (result, run, is) =
      deserialize_object-serialize_object fields (object_of id_at name_at email_at p)
        (object_of id_at name_at email_at blank) out fit
        (class-Typed id_at name_at email_at i j k apart₁ apart₂ apart₃ blank) ser in
    let described_at = class-described id_at name_at email_at i j k in
    let i_there : result id_at ≡ some (number p.id) =
      ground (arith, is id_at, described_at id_at, apart₁, apart₂) in
    let n_there : result name_at ≡ some (text p.name) =
      ground (arith, is name_at, described_at name_at, apart₃) in
    let e_there : result email_at ≡ some (text p.email) =
      ground (arith, is email_at, described_at email_at) in
    ground (arith, ser, run, i_there, n_there, e_there)
