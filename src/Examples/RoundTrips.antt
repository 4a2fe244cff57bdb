-- ===== src/Examples/RoundTrips.antt =====
-- The theorems on documents at concrete values.
use streamsx_mongo_db.Bson.Document.{Fields}
use streamsx_mongo_db.Prelude.{◌≡◌, refl, true, false, some, [], ◌∷◌, bytes, arith, ◌/◌, ◌*◌}
use streamsx_mongo_db.Examples.{
  a_runtime, a_runtime-AddsFresh, a_library, a_library-FindsFields, a_conversion, order_type,
  an_order, an_order-IsBuildable, pos, shelf_type, a_shelf, a_shelf-IsBuildable, a_shelf-IsReadable,
  zero_time,
}
use streamsx_mongo_db.Spl.Types.{prim, Primitive}
use streamsx_mongo_db.Bson.Builder.{ok, stored}
use streamsx_mongo_db.BsonCommon.{build_bson_object, build_bson_object_with_key, Built}
use streamsx_mongo_db.QueryCommon.{handle_bson_object, handle_named}
use streamsx_mongo_db.BsonCommon.Reference.{document}
use streamsx_mongo_db.RoundTrip.Pruned.{pruned}
use streamsx_mongo_db.Spl.Runtime.{initial}
use streamsx_mongo_db.BsonCommon.Total.{build_bson_object-eq-document}
use streamsx_mongo_db.RoundTrip.Stored.{read-stored}
use streamsx_mongo_db.RoundTrip.Losses.{timestamp_to_millisecond}

build_bson_object-eq-document_example :
    (b : Built) × (build_bson_object a_runtime order_type an_order ≡ ok b)
    × (stored b.1 ≡ document a_runtime order_type an_order)
build_bson_object-eq-document_example =
    build_bson_object-eq-document a_runtime order_type an_order an_order-IsBuildable

read-stored_example :
    (fs : Fields) × (build_bson_object_with_key a_runtime shelf_type (some (bytes "shelf")) a_shelf
      ≡ ok fs)
    × (handle_named a_library fs
          (bytes "shelf")
          (handle_bson_object a_conversion a_library a_runtime shelf_type)
          (initial a_runtime shelf_type)
          false
        ≡ ((a_shelf.0, (a_shelf.1.0, ((bytes "net", bytes "a" ∷ []) ∷ [], tt))), true))
unfolding pruned
read-stored_example =
    read-stored a_conversion a_library a_runtime shelf_type (bytes "shelf") a_shelf
      a_library-FindsFields a_runtime-AddsFresh refl a_shelf-IsBuildable a_shelf-IsReadable

timestamp_to_millisecond_example :
    (fs : Fields) × (build_bson_object_with_key a_runtime
        (prim Primitive.timestamp)
        (some (bytes "at"))
        (record { seconds = pos 5; nanoseconds = 123_456_789; machine_id = pos 0 })
      ≡ ok fs)
    × (handle_named a_library fs
          (bytes "at")
          (handle_bson_object a_conversion a_library a_runtime (prim Primitive.timestamp))
          zero_time
          false
        ≡ (a_runtime.create_timestamp (pos 5) (pos (123_456_789 / 1_000_000 * 1_000_000)), true))
timestamp_to_millisecond_example =
    timestamp_to_millisecond a_conversion a_library a_runtime (bytes "at") 5 123_456_789 (pos 0)
      zero_time a_library-FindsFields refl (omega arith) (omega arith)
