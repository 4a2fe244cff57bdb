-- ===== src/RoundTrip/Stored.antt =====
-- A value stored under a key (buildBSONObjectWithKey) and read back under that name
-- (handleBSONObject).
use streamsx_mongo_db.Prelude.{◌≡◌, refl, ◌∙◌, false, some, Bytes, has_nul}
use streamsx_mongo_db.Spl.Types.{SplType, Value}
use streamsx_mongo_db.Spl.Runtime.{Runtime, initial}
use streamsx_mongo_db.Bson.Document
use streamsx_mongo_db.Bson.Document.{Fields, append_fields, first_field, field}
use streamsx_mongo_db.Bson.Builder.{ok}
use streamsx_mongo_db.Bson.Element.{Conversions, Library, FindsFields}
use streamsx_mongo_db.BsonCommon.{build_bson_object_with_key}
use streamsx_mongo_db.BsonCommon.Reference.{document, IsBuildable}
use streamsx_mongo_db.BsonCommon.Total.{build_bson_object-Builds}
use streamsx_mongo_db.QueryCommon.{handle_bson_object, handle_named}
use streamsx_mongo_db.RoundTrip.Pruned.{pruned, AddsFresh, IsReadable}
use streamsx_mongo_db.RoundTrip.Loops.{outcome-false}
use streamsx_mongo_db.RoundTrip.Lossless.{IsFull, is_kept, pruned_lem}
use streamsx_mongo_db.RoundTrip.Values.{handle_bson_object-Reads, handle_named-first}

-- A value that can be built is stored under a key with no zero byte, as an object whose one field
-- is the reference document.
pub build_bson_object_with_key-eq-document :
    (R : Runtime) (t : SplType) (key : Bytes) (v : Value t)
    → has_nul key ≡ false
    → IsBuildable t v
    → build_bson_object_with_key R t (some key) v ≡ ok (field key (document R t v) Document.nil)
unfolding build_bson_object_with_key append_fields
build_bson_object_with_key-eq-document R t key v nul h =
    let (b, e, s, w) = build_bson_object-Builds R t v h in rw (e, w key Document.nil nul)

-- A value stored under a key without a zero byte, and read back under that name into a
-- default-constructed attribute, comes back pruned: the same but for the empty collections inside its
-- collections. The flag says whether anything was read.
-- The value must be one that can be built and read: no complex number and no blob, which is stored but
-- never read; timestamps that their milliseconds determine; float32, decimal, ustring and xml values
-- that come back from the conversion to a double or a byte string; integers and enumeration values in
-- range; maps with byte strings as keys, without a zero byte and each once; sets whose members stay
-- distinct; bounded collections within their bound; and attribute names without a zero byte, each once
-- in its tuple. The runtime's `add` and the driver's look-up of a field behave as documented.
pub read-stored :
    (C : Conversions) (L : Library) (R : Runtime) (t : SplType) (key : Bytes) (v : Value t)
    → FindsFields L
    → AddsFresh R
    → has_nul key ≡ false
    → IsBuildable t v
    → IsReadable R t v
    → (fs : Fields) × (build_bson_object_with_key R t (some key) v ≡ ok fs)
      × (handle_named L fs key (handle_bson_object C L R t) (initial R t) false ≡ pruned t v)
unfolding append_fields first_field
read-stored C L R t key v finds adds nul h k = (
  field key (document R t v) Document.nil,
  build_bson_object_with_key-eq-document R t key v nul h,
  handle_named-first C L R finds adds Document.nil key (document R t v) Document.nil
        (handle_bson_object C L R t) (initial R t) false refl
      ∙ handle_bson_object-Reads C L R finds adds t v false k
      ∙ outcome-false (pruned t v),
)

-- So a value with no empty collection inside a collection comes back itself.
read-stored_exact :
    (C : Conversions) (L : Library) (R : Runtime) (t : SplType) (key : Bytes) (v : Value t)
    → FindsFields L
    → AddsFresh R
    → has_nul key ≡ false
    → IsBuildable t v
    → IsReadable R t v
    → IsFull t v
    → (fs : Fields) × (build_bson_object_with_key R t (some key) v ≡ ok fs)
      × (handle_named L fs key (handle_bson_object C L R t) (initial R t) false ≡ (v, is_kept t v))
read-stored_exact C L R t key v finds adds nul h k full =
    let (fs, built, back) = read-stored C L R t key v finds adds nul h k in
    (fs, built, back ∙ pruned_lem t v full)
