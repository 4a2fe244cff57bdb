-- ===== src/Examples/WireBytes.antt =====
-- The theorems on the bytes of documents at concrete elements.
use streamsx_mongo_db.Wire.Typed.{element_at-IsCheckedBack}
use streamsx_mongo_db.Wire.Checked.{check_type, wrong_type, mismatch_text, string_of, found}
use streamsx_mongo_db.Prelude.{
  ℕ, ◌+◌, true, drop, length, ◌≡◌, refl, ◌++◌, ◌≤◌, Bytes, bytes, [], ◌∷◌, arith,
}
use streamsx_mongo_db.Prelude.Int.{ℤ, negsuc, pos}
use streamsx_mongo_db.Bson.Types.{BsonType, type_byte}
use streamsx_mongo_db.Bson.Document
use streamsx_mongo_db.Bson.Document.{type_of, field}
use streamsx_mongo_db.Wire.Numbers.{write_signed}
use streamsx_mongo_db.Wire.Buffer.{
  Buffer, new_buffer, written, grow_reallocate, append_buf, append_num_long_long, buffer_max_size,
}
use streamsx_mongo_db.Wire.Growth.{IsRoomy, grow_reallocate_lem, append_buf_lem}
use streamsx_mongo_db.Wire.Writer.{Writer, ◌>=>◌, checked, write_header}
use streamsx_mongo_db.Wire.Appends.{
  Appends, Appends-then, Appends-checked, write_header-Appends, append_num_long_long-Appends,
  header_bytes,
}
use streamsx_mongo_db.Wire.Elements.{
  value_bytes, write_value, WritesDates, write_value-Appends, object_bytes,
}
use streamsx_mongo_db.Wire.Frame.{build_object}
use streamsx_mongo_db.Wire.Framed.{build_object-eq-object_bytes}
use streamsx_mongo_db.Wire.Reader.{field_name}
use streamsx_mongo_db.Wire.Readback.{element_at}
use streamsx_mongo_db.Wire.Accessors.{IsReadBack, element_at-IsReadBack}

abbrev pub a_date_writer : Bytes → ℤ → Writer
a_date_writer n ms = checked n (write_header BsonType.date n >=> append_num_long_long ms)

pub a_date_writer-WritesDates : WritesDates a_date_writer
a_date_writer-WritesDates n ms nul =
    Appends-checked n nul
      (Appends-then (write_header-Appends BsonType.date n) (append_num_long_long-Appends ms))

abbrev a_value : Document.BsonValue
a_value = Document.object (
    field (bytes "id") (Document.number_int (negsuc 4))
      (field (bytes "name") (Document.string (bytes "ada")) Document.nil))

write_value-Appends_example :
    Appends
      (header_bytes (type_of a_value) (bytes "who") ++ value_bytes a_value)
      (write_value a_date_writer (bytes "who") a_value)
write_value-Appends_example =
    write_value-Appends a_date_writer (bytes "who") a_value a_date_writer-WritesDates refl tt

element_at-IsReadBack_example :
    (field_name (element_at (bytes "name") (Document.string (bytes "ada")) (0 ∷ [])) ≡ bytes "name")
    × IsReadBack
        (Document.string (bytes "ada"))
        (0 ∷ [])
        (element_at (bytes "name") (Document.string (bytes "ada")) (0 ∷ []))
element_at-IsReadBack_example =
    element_at-IsReadBack (bytes "name") (Document.string (bytes "ada")) (0 ∷ []) refl
      (omega arith, omega arith)

grow_reallocate_lem_example :
    (a : ℕ) × (grow_reallocate 700 (new_buffer 512)
      ≡ written (record (new_buffer 512) { size = a }))
    × (700 ≤ a)
    × (a ≤ buffer_max_size)
grow_reallocate_lem_example = grow_reallocate_lem 700 (new_buffer 512) (omega arith)

append_buf_lem_example :
    (b' : Buffer) × (append_buf (bytes "abc") (new_buffer 2) ≡ written b')
    × (b'.data_bytes ≡ (new_buffer 2).data_bytes ++ bytes "abc")
    × (b'.reserved_bytes ≡ (new_buffer 2).reserved_bytes)
    × IsRoomy b'
unfolding new_buffer
append_buf_lem_example =
    append_buf_lem (bytes "abc") (new_buffer 2) (omega arith, omega arith) (omega arith)

abbrev a_document : Document.Fields
a_document =
    field (bytes "ok") (Document.bool true)
      (field (bytes "n") (Document.number_int (pos 7)) Document.nil)

small : (bs : Bytes) → length bs ≡ 17 → 4 + length bs ≤ buffer_max_size
small bs e = omega (arith, e)

build_object-eq-object_bytes_example :
    (b : Buffer) × (build_object a_date_writer 4 512 a_document ≡ written b)
    × (drop 4 b.data_bytes ≡ object_bytes a_document)
unfolding write_signed
build_object-eq-object_bytes_example =
    build_object-eq-object_bytes a_date_writer 4 512 a_document a_date_writer-WritesDates
      (refl, tt, (refl, tt, tt)) (omega arith) (small (object_bytes a_document) refl)

element_at-IsCheckedBack_example :
    (check_type (pos 16) (element_at (bytes "name") (Document.string (bytes "ada")) (0 ∷ []))
      ≡ wrong_type (
          mismatch_text
            (pos 16)
            (element_at (bytes "name") (Document.string (bytes "ada")) (0 ∷ []))))
    × (string_of (element_at (bytes "name") (Document.string (bytes "ada")) (0 ∷ []))
        ≡ found (bytes "ada"))
unfolding type_byte
element_at-IsCheckedBack_example =
    element_at-IsCheckedBack (pos 16) (bytes "name") (Document.string (bytes "ada")) (0 ∷ []) refl
      (omega arith, omega arith)
