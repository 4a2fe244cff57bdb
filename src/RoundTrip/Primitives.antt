-- ===== src/RoundTrip/Primitives.antt =====
-- Primitive values survive the way into a document and back.
use streamsx_mongo_db.Prelude.{◌≡◌, refl, ap, ◌∙◌, Bool, true}
use streamsx_mongo_db.Prelude.Words.{
  w8, w16, w32, w64, wrap_signed, wrap_signed_id, wrap_unsigned_id, wrap_unsigned-wrap_signed,
}
use streamsx_mongo_db.Spl.Types.{
  Primitive, PrimValue, float32, float64, decimal, complex, timestamp, rstring, ustring, blob, xml,
  «enum», signed, unsigned,
}
use streamsx_mongo_db.Spl.Runtime.{Runtime}
use streamsx_mongo_db.Bson.Element.{Conversions}
use streamsx_mongo_db.BsonCommon.Reference.{primitive_document}
use streamsx_mongo_db.QueryCommon.{handle_primitive}
use streamsx_mongo_db.RoundTrip.Pruned.{Survives}

pub handle_primitive-document :
    (C : Conversions) (R : Runtime) (p : Primitive) (v attr : PrimValue p) (applied : Bool)
    → Survives R p v
    → handle_primitive C R p (primitive_document R p v) attr applied ≡ (v, true)
unfolding handle_primitive primitive_document
handle_primitive-document C R Primitive.boolean v attr applied h = refl
handle_primitive-document C R float64 v attr applied h = refl
handle_primitive-document C R rstring v attr applied h = refl
handle_primitive-document C R float32 v attr applied h = rw h
handle_primitive-document C R decimal v attr applied h = rw h
handle_primitive-document C R ustring v attr applied h = rw h
handle_primitive-document C R xml v attr applied h = rw h
handle_primitive-document C R («enum» names) v attr applied h = rw h
handle_primitive-document C R timestamp v attr applied h = rw h
handle_primitive-document C R complex v attr applied h = absurd h
handle_primitive-document C R blob v attr applied h = absurd h
handle_primitive-document C R (signed w8) v attr applied h = rw (wrap_signed_id w8 v h)
handle_primitive-document C R (signed w16) v attr applied h = rw (wrap_signed_id w16 v h)
handle_primitive-document C R (signed w32) v attr applied h = rw (wrap_signed_id w32 v h)
handle_primitive-document C R (signed w64) v attr applied h =
    rw (ap (wrap_signed w64) (wrap_signed_id w64 v h) ∙ wrap_signed_id w64 v h)
handle_primitive-document C R (unsigned w8) v attr applied h = rw (wrap_unsigned_id w8 v h)
handle_primitive-document C R (unsigned w16) v attr applied h = rw (wrap_unsigned_id w16 v h)
handle_primitive-document C R (unsigned w32) v attr applied h =
    rw (wrap_unsigned-wrap_signed w32 v h)
handle_primitive-document C R (unsigned w64) v attr applied h =
    rw (wrap_unsigned-wrap_signed w64 v h)
