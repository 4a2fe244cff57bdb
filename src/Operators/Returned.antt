-- ===== src/Operators/Returned.antt =====
-- The tuples that a Query operator makes of the documents that an Insert operator stored
-- (Insert/Insert_cpp.cgt and Query/Query_cpp.cgt).
use streamsx_mongo_db.Prelude.{
  ℕ, ◌≡◌, refl, ◌∙◌, ap, Bool, false, not, none, List, [], ◌∷◌, ◌++◌, map, All, ◌==◌, keep_if,
  bytes,
}
use streamsx_mongo_db.Spl.Types.{SplType, Value, Attributes, Record, nil, attribute}
use streamsx_mongo_db.Spl.Runtime.{Runtime, initial}
use streamsx_mongo_db.Bson.Document
use streamsx_mongo_db.Bson.Document.{Fields, append_fields, first_field, BsonValue, field}
use streamsx_mongo_db.Bson.Element.{Conversions, Library, FindsFields}
use streamsx_mongo_db.BsonCommon.Reference.{document}
use streamsx_mongo_db.QueryCommon.{handle_bson_object}
use streamsx_mongo_db.QueryCommon.Row.{Fillings, reading, read_attribute, fill, fill_row}
use streamsx_mongo_db.RoundTrip.Pruned.{pruned, AddsFresh, IsReadable}
use streamsx_mongo_db.RoundTrip.Loops.{outcome-false}
use streamsx_mongo_db.RoundTrip.Values.{handle_bson_object-Reads, handle_named-first}
use streamsx_mongo_db.Operators.Driver.{Driver}
use streamsx_mongo_db.Operators.Queries.{Emitted, emit_tuple, window_marker, QueryParameters}
use streamsx_mongo_db.Operators.Emissions.{emissions, query_of}
use streamsx_mongo_db.Operators.Inserts.{Insertion, IsKeyed, stored}

-- The stored documents come back as they were inserted, each behind the `_id` that it was given.
abbrev pub AreReturned : List Fields → List Fields → Type 0
AreReturned [] [] = Unit
AreReturned (doc ∷ docs) (found ∷ founds) =
    ((id : BsonValue) × (found ≡ field (bytes "_id") id doc)) × AreReturned docs founds
AreReturned _ _ = ⊥

-- The server hands out these documents to the operator's query, whatever the query object.
abbrev pub HandsOut : Driver → QueryParameters → List Fields → Type 0
HandsOut D p docs =
    (q fields : Fields) (w : D.World)
    → AreReturned docs (D.documents (D.respond (query_of p q fields) w).1)

module _ (C : Conversions) (L : Library) (R : Runtime) (o : Insertion) (t : SplType) where
  -- The output type: the one attribute is named by the key and read from the document.
  abbrev pub found_type : Attributes
  found_type = attribute o.key t nil

  abbrev pub found_fillings : Fillings found_type
  found_fillings = (reading false none, tt)

  abbrev pub empty_tuple : Record found_type
  empty_tuple = (initial R t, tt)

  abbrev pub pruned_tuple : Value t → Record found_type
  pruned_tuple v = ((pruned t v).0, tt)

  -- What values make the Query operator submit: the tuples with the pruned values whose hash is not
  -- the empty tuple's, and a window marker; the empty tuple for none.
  abbrev pub emitted_values :
      (Record found_type → ℕ) → List (Value t) → List (Emitted (Record found_type))
  emitted_values hash_code [] = emit_tuple empty_tuple ∷ []
  emitted_values hash_code (v ∷ vs) =
      map emit_tuple
        (keep_if (λ r. not (hash_code r == hash_code empty_tuple)) (map pruned_tuple (v ∷ vs)))
      ++ (window_marker ∷ [])

  module _ (finds : FindsFields L) (adds : AddsFresh R) (keyed : IsKeyed o) where
    no_key_in_id : (id : BsonValue) → first_field (field (bytes "_id") id Document.nil) o.key ≡ none
    unfolding first_field
    no_key_in_id id = rw keyed.no_id

    fill_row-stored :
        (v : Value t) (id : BsonValue)
        → IsReadable R t v
        → fill_row C L R found_type found_fillings
            (field (bytes "_id") id (stored L R o t v))
            empty_tuple
          ≡ pruned_tuple v
    unfolding fill_row fill read_attribute append_fields
    fill_row-stored v id h =
        ap (λ (x : Value t × Bool). (x.0, tt))
          (handle_named-first C L R finds adds (field (bytes "_id") id Document.nil) o.key
              (document R t v) Document.nil (handle_bson_object C L R t) (initial R t) false
              (no_key_in_id id)
            ∙ handle_bson_object-Reads C L R finds adds t v false h
            ∙ outcome-false (pruned t v))

    rows-stored :
        (vs : List (Value t)) (founds : List Fields)
        → All (IsReadable R t) vs
        → AreReturned (map (stored L R o t) vs) founds
        → map (λ doc. fill_row C L R found_type found_fillings doc empty_tuple) founds
          ≡ map pruned_tuple vs
    rows-stored [] [] h r = refl
    rows-stored [] (found ∷ founds) h r = absurd r
    rows-stored (v ∷ vs) [] h r = absurd r
    rows-stored (v ∷ vs) (found ∷ founds) h ((id, e), r) =
        ap
          (λ doc.
            fill_row C L R found_type found_fillings doc empty_tuple
            ∷ map (λ d. fill_row C L R found_type found_fillings d empty_tuple) founds)
          e
        ∙ ap (λ x. x ∷ map (λ d. fill_row C L R found_type found_fillings d empty_tuple) founds)
            (fill_row-stored v id h.0)
        ∙ ap (λ rs. pruned_tuple v ∷ rs) (rows-stored vs founds h.1 r)

    pub emissions-stored :
        (hash_code : Record found_type → ℕ) (vs : List (Value t)) (founds : List Fields)
        → All (IsReadable R t) vs
        → AreReturned (map (stored L R o t) vs) founds
        → emissions C L R found_type hash_code found_fillings empty_tuple founds
          ≡ emitted_values hash_code vs
    emissions-stored hash_code [] [] h r = refl
    emissions-stored hash_code [] (found ∷ founds) h r = absurd r
    emissions-stored hash_code (v ∷ vs) [] h r = absurd r
    emissions-stored hash_code (v ∷ vs) (found ∷ founds) h r =
        ap
          (λ rs.
            map emit_tuple (keep_if (λ x. not (hash_code x == hash_code empty_tuple)) rs)
            ++ (window_marker ∷ []))
          (rows-stored (v ∷ vs) (found ∷ founds) h r)
