-- ===== src/RoundTrip/Rows.antt =====
-- A document as a row of the Query operator (Query/Query_cpp.cgt, the loop over the attributes).
use streamsx_mongo_db.Prelude.{◌≡◌, refl, ap, ◌∙◌, Bool, true, false, none, Bytes}
use streamsx_mongo_db.Spl.Types.{Attributes, Record, tuple}
use streamsx_mongo_db.Spl.Runtime.{Runtime, initial}
use streamsx_mongo_db.Bson.Document
use streamsx_mongo_db.Bson.Document.{Fields, append_fields, first_field, field}
use streamsx_mongo_db.Bson.Builder.{ok}
use streamsx_mongo_db.Bson.Element.{Conversions, Library, FindsFields}
use streamsx_mongo_db.BsonCommon.{build_bson_object, build_bson_object_with_key}
use streamsx_mongo_db.BsonCommon.Reference.{document, attributes, IsBuildable}
use streamsx_mongo_db.BsonCommon.Total.{build_attributes_lem}
use streamsx_mongo_db.QueryCommon.{handle_bson_object}
use streamsx_mongo_db.QueryCommon.Row.{read_attribute}
use streamsx_mongo_db.RoundTrip.Pruned.{pruned, AddsFresh, IsReadable}
use streamsx_mongo_db.RoundTrip.Loops.{outcome-false}
use streamsx_mongo_db.RoundTrip.Values.{handle_bson_object-Reads, handle_named-first}

module _ (C : Conversions) (L : Library) (R : Runtime) where
  -- A tuple that is stored as a document of its own, without a key, is read back, pruned, into a
  -- default-constructed attribute by QueryDocumentMultipleFields, whatever the attribute's name.
  -- The value must be one that can be built and read: no complex number and no blob, which is stored but
  -- never read; timestamps that their milliseconds determine; float32, decimal, ustring and xml values
  -- that come back from the conversion to a double or a byte string; integers and enumeration values in
  -- range; maps with byte strings as keys, without a zero byte and each once; sets whose members stay
  -- distinct; bounded collections within their bound; and attribute names without a zero byte, each once
  -- in its tuple. The runtime's `add` and the driver's look-up of a field behave as documented.
  pub read_attribute-stored_tuple :
      (ats : Attributes) (name : Bytes) (v : Record ats)
      → FindsFields L
      → AddsFresh R
      → IsBuildable (tuple ats) v
      → IsReadable R (tuple ats) v
      → (fs : Fields) × (build_bson_object_with_key R (tuple ats) none v ≡ ok fs)
        × (read_attribute C L R true none name (tuple ats) fs (initial R (tuple ats))
            ≡ (pruned (tuple ats) v).0)
  unfolding build_bson_object_with_key build_bson_object read_attribute document append_fields
      first_field
  read_attribute-stored_tuple ats name v finds adds h k = (
    attributes R ats v,
    rw (build_attributes_lem R ats v Document.nil h),
    ap (λ (x : Record ats × Bool). x.0)
        (handle_named-first C L R finds adds Document.nil name (document R (tuple ats) v)
            Document.nil (handle_bson_object C L R (tuple ats)) (initial R (tuple ats)) false refl
          ∙ handle_bson_object-Reads C L R finds adds (tuple ats) v false k
          ∙ outcome-false (pruned (tuple ats) v)),
  )
