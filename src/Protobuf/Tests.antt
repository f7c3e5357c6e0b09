-- ===== src/Protobuf/Tests.antt =====
-- protobuf/probuf.cpp: the person of `main`, with the layout of a 64-bit machine.
use learning_c.Common.{ℕ, ◌≡◌, refl, List, [], ◌∷◌, take, ok, fault, arith, if◌then◌else◌}
use learning_c.Protobuf.{
  Object, serialize_object, deserialize_object, MetaClass, Person, create_person_meta_class,
  object_of,
}
use learning_c.Protobuf.Fields.{Typed}
use learning_c.Protobuf.RoundTrip.{AllFit, described, deserialize_object-serialize_object}
use learning_c.Protobuf.Truncated.{deserialize_object_truncated}
use learning_c.Protobuf.Copy.{class-Typed, object-AllFit}

abbrev person : Person
person = record { id = 123; name = 74 ∷ 111 ∷ []; email = 106 ∷ 64 ∷ 101 ∷ [] }

abbrev blank : Object
blank = object_of 0 8 40 (record { id = 0; name = []; email = [] })

abbrev fields : MetaClass
fields = create_person_meta_class 0 8 40 0 0 1

abbrev john : Object
john = object_of 0 8 40 person

abbrev written : List ℕ
written = 2 ∷ 0 ∷ 0 ∷ 0 ∷ 74 ∷ 111 ∷ 3 ∷ 0 ∷ 0 ∷ 0 ∷ 106 ∷ 64 ∷ 101 ∷ 123 ∷ 0 ∷ 0 ∷ 0 ∷ []

serialized : serialize_object john fields ≡ ok written
unfolding serialize_object create_person_meta_class
serialized = refl

john-AllFit : AllFit john
john-AllFit =
    object-AllFit 0 8 40 0 0 1 (ground arith) (ground arith) (ground arith) person (omega arith)
      (omega arith) (omega arith)

blank-Typed : Typed fields blank
blank-Typed =
    class-Typed 0 8 40 0 0 1 (ground arith) (ground arith) (ground arith)
      (record { id = 0; name = []; email = [] })

deserialize_object-serialize_object_example :
    (result : Object) × (deserialize_object blank fields written ≡ ok result)
    × ((o : ℕ) → result o ≡ (if described fields o then john o else blank o))
deserialize_object-serialize_object_example =
    deserialize_object-serialize_object fields john blank written john-AllFit blank-Typed serialized

deserialize_object_truncated_example : deserialize_object blank fields (take 12 written) ≡ fault
deserialize_object_truncated_example =
    deserialize_object_truncated fields john blank written 12 john-AllFit blank-Typed serialized
      (omega arith)
