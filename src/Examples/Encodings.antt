-- ===== src/Examples/Encodings.antt =====
-- The bytes of a concrete value.
use streamsx_mongo_db.Prelude.{◌≡◌, refl, bytes, arith, decimal}
use streamsx_mongo_db.Bson.Document
use streamsx_mongo_db.Bson.Document.{field}
use streamsx_mongo_db.Examples.{a_runtime, shelf_type, a_shelf, a_shelf-IsBuildable}
use streamsx_mongo_db.Examples.WireBytes.{a_date_writer, a_date_writer-WritesDates}
use streamsx_mongo_db.BsonCommon.Reference.{document}
use streamsx_mongo_db.BsonCommon.OnBytes.{run, write_bson_object_with_key}
use streamsx_mongo_db.BsonCommon.Encoded.{write_bson_object_with_key-eq-object_bytes}
use streamsx_mongo_db.Bson.Builder.{num_str}
use streamsx_mongo_db.Wire.Numbers.{write_signed}
use streamsx_mongo_db.Wire.Buffer.{written}
use streamsx_mongo_db.Wire.Elements.{object_bytes}

write_bson_object_with_key-eq-object_bytes_example :
    write_bson_object_with_key a_date_writer 8 a_runtime shelf_type (bytes "shelf") a_shelf
    ≡ run (
        written (
          object_bytes
            (field (bytes "shelf") (document a_runtime shelf_type a_shelf) Document.nil)))
unfolding document write_signed num_str decimal
write_bson_object_with_key-eq-object_bytes_example =
    write_bson_object_with_key-eq-object_bytes a_date_writer 8 a_runtime a_date_writer-WritesDates
      (omega arith) shelf_type (bytes "shelf") a_shelf refl a_shelf-IsBuildable (omega arith)
