-- ===== src/Examples/Objects.antt =====
-- The theorems on BSONObj and its iterator at a concrete object.
use streamsx_mongo_db.Wire.Appends.{Appends, header_bytes}
use streamsx_mongo_db.Bson.Types.{type_byte}
use streamsx_mongo_db.Prelude.{
  ℕ, ◌+◌, ◌≡◌, ◌≤◌, refl, some, [], ◌∷◌, ◌++◌, List, Bytes, bytes, length, arith, if◌then◌else◌,
}
use streamsx_mongo_db.Prelude.Int.{negsuc, pos}
use streamsx_mongo_db.Bson.Document
use streamsx_mongo_db.Bson.Document.{Fields, field}
use streamsx_mongo_db.Wire.Numbers.{read_le, write_le, write_signed}
use streamsx_mongo_db.Wire.Elements.{object_bytes, value_bytes}
use streamsx_mongo_db.Wire.Nested.{nested_object, nested_array, nested-Appends}
use streamsx_mongo_db.Bson.Types.{BsonType}
use streamsx_mongo_db.Wire.Reader.{field_name_size, field_name, value_at, is_type, eoo, c_string}
use streamsx_mongo_db.Wire.Opened.{object_at}
use streamsx_mongo_db.Wire.Iteration.{for_each, iterator_of}
use streamsx_mongo_db.Wire.Visited.{SizesElements, visit, for_each-visits}
use streamsx_mongo_db.Examples.WireBytes.{a_date_writer, a_date_writer-WritesDates}

abbrev a_person : Fields
a_person =
    field (bytes "id") (Document.number_int (negsuc 4))
      (field (bytes "name") (Document.string (bytes "ada")) Document.nil)

-- The sizes of numbers and texts.
unfoldable size_of_some : Bytes → ℕ
unfolding field_name_size is_type value_at read_le
size_of_some raw =
    1 + field_name_size raw + (if is_type (pos 2) raw then 4 + read_le 4 (value_at raw) else 4)

size_of_some-SizesElements : SizesElements size_of_some a_person (bytes "x")
unfolding size_of_some field_name_size is_type value_at read_le write_signed write_le eoo c_string
    type_byte
size_of_some-SizesElements = (refl, (refl, tt))

abbrev collect : Bytes → List Bytes → List Bytes
collect e names = field_name e ∷ names

person_is_small : length (object_bytes a_person) ≤ 1000
unfolding write_signed write_le
person_is_small = omega arith

for_each-visits_example :
    for_each size_of_some collect 3 (iterator_of (object_at a_person (bytes "x"))) []
    ≡ some (visit collect a_person (bytes "x") [])
for_each-visits_example =
    for_each-visits size_of_some collect a_person (bytes "x") [] (omega (arith, person_is_small))
      size_of_some-SizesElements

nested-Appends_example :
    Appends
      (header_bytes BsonType.object (bytes "who") ++ value_bytes (Document.object a_person))
      (nested_object a_date_writer (bytes "who") a_person)
    × Appends
        (header_bytes BsonType.array (bytes "who") ++ value_bytes (Document.array a_person))
        (nested_array a_date_writer (bytes "who") a_person)
nested-Appends_example =
    nested-Appends a_date_writer (bytes "who") a_person a_date_writer-WritesDates refl
      (refl, tt, (refl, tt, tt))
