-- ===== src/Operators/Steps.antt =====
-- The requests that the output attributes of Insert, Update and Delete stand for.
use streamsx_mongo_db.Prelude.{
  ℕ, ◌≡◌, refl, Bool, true, false, Option, some, List, [], ◌∷◌, map, Bytes, All, has_nul,
  if◌then◌else◌,
}
use streamsx_mongo_db.Spl.Types.{SplType, Value}
use streamsx_mongo_db.Spl.Runtime.{Runtime}
use streamsx_mongo_db.Bson.Document
use streamsx_mongo_db.Bson.Document.{Fields, field}
use streamsx_mongo_db.Bson.Builder.{Result, ok, err}
use streamsx_mongo_db.Bson.Element.{Library}
use streamsx_mongo_db.BsonCommon.Reference.{document, IsBuildable}
use streamsx_mongo_db.RoundTrip.Stored.{build_bson_object_with_key-eq-document}
use streamsx_mongo_db.Operators.Driver
use streamsx_mongo_db.Operators.Driver.{Driver, State}
use streamsx_mongo_db.Operators.Connection.{build_db_collection}
use streamsx_mongo_db.Operators.Process.{Step, skip, operation}
use streamsx_mongo_db.Operators.Requests.{IsPlainWrite}
use streamsx_mongo_db.Operators.Writes.{
  FindQuery, Assignment, store, Removal, remove_from, is_json, is_upsert, is_multi, document_of,
  insert_request, update_request, remove_request, port_matches, build_find_query_bo, insert_step,
  update_step, delete_step,
}

-- No `AsIs`.
abbrev pub IsOperation : Assignment → Type 0
IsOperation (Assignment.as_is_value n v) = ⊥
IsOperation _ = Unit

abbrev pub IsRemoval : Removal → Type 0
IsRemoval (Removal.as_is_value n v) = ⊥
IsRemoval _ = Unit

IsPlainWrite-if : (b : Bool) (st : Step) → IsPlainWrite st → IsPlainWrite (if b then st else skip)
IsPlainWrite-if true st h = h
IsPlainWrite-if false st h = tt

IsPlainWrite-insert_request :
    (n db ns : Bytes) (r : Result Fields) → IsPlainWrite (operation n db (insert_request ns r))
unfolding insert_request
IsPlainWrite-insert_request n db ns (ok d) = refl
IsPlainWrite-insert_request n db ns (err e) = tt

IsPlainWrite-update_request :
    (n db name ns : Bytes) (r q : Result Fields)
    → IsPlainWrite (operation n db (update_request name ns r q))
unfolding update_request
IsPlainWrite-update_request n db name ns (ok d) (ok q) = refl
IsPlainWrite-update_request n db name ns (ok d) (err e) = tt
IsPlainWrite-update_request n db name ns (err e) q = tt

IsPlainWrite-remove_request :
    (n db name ns : Bytes) (q : Result Fields)
    → IsPlainWrite (operation n db (remove_request name ns q))
unfolding remove_request
IsPlainWrite-remove_request n db name ns (ok q) = refl
IsPlainWrite-remove_request n db name ns (err e) = tt

module _ (L : Library) (R : Runtime) where
  pub insert_step-IsPlainWrite :
      (port : ℕ) (ats : List Assignment)
      → All IsOperation ats
      → All IsPlainWrite (map (insert_step L R port) ats)
  unfolding insert_step
  insert_step-IsPlainWrite port [] h = tt
  insert_step-IsPlainWrite port (Assignment.no_function ∷ ats) h =
      (tt, insert_step-IsPlainWrite port ats h.1)
  insert_step-IsPlainWrite port (Assignment.as_is_value n v ∷ ats) h = absurd h.0
  insert_step-IsPlainWrite port (store n name db collection key ports t v ∷ ats) h = (
    IsPlainWrite-if (port_matches port ports) _ (IsPlainWrite-insert_request n db _ _),
    insert_step-IsPlainWrite port ats h.1,
  )

  pub update_step-IsPlainWrite :
      (fq : FindQuery) (port : ℕ) (ats : List Assignment)
      → All IsOperation ats
      → All IsPlainWrite (map (update_step L R fq port) ats)
  unfolding update_step
  update_step-IsPlainWrite fq port [] h = tt
  update_step-IsPlainWrite fq port (Assignment.no_function ∷ ats) h =
      (tt, update_step-IsPlainWrite fq port ats h.1)
  update_step-IsPlainWrite fq port (Assignment.as_is_value n v ∷ ats) h = absurd h.0
  update_step-IsPlainWrite fq port (store n name db collection key ports t v ∷ ats) h = (
    IsPlainWrite-if (port_matches port ports) _ (IsPlainWrite-update_request n db name _ _ _),
    update_step-IsPlainWrite fq port ats h.1,
  )

  pub delete_step-IsPlainWrite :
      (fq : FindQuery) (rs : List Removal)
      → All IsRemoval rs
      → All IsPlainWrite (map (delete_step L R fq) rs)
  unfolding delete_step
  delete_step-IsPlainWrite fq [] h = tt
  delete_step-IsPlainWrite fq (Removal.no_function ∷ rs) h =
      (tt, delete_step-IsPlainWrite fq rs h.1)
  delete_step-IsPlainWrite fq (Removal.as_is_value n v ∷ rs) h = absurd h.0
  delete_step-IsPlainWrite fq (remove_from n name db collection ∷ rs) h =
      (IsPlainWrite-remove_request n db name _ _, delete_step-IsPlainWrite fq rs h.1)

  document_of-reference :
      (name key : Bytes) (t : SplType) (v : Value t)
      → is_json name ≡ false
      → has_nul key ≡ false
      → IsBuildable t v
      → document_of L R name (some key) t v ≡ ok (field key (document R t v) Document.nil)
  unfolding document_of
  document_of-reference name key t v json nul h =
      rw (json, build_bson_object_with_key-eq-document R t key v nul h)

  -- An Insert attribute whose guard holds inserts, into the named collection, the object with the
  -- key and the reference document of its value.
  pub insert_step-reference :
      (port : ℕ) (n name db collection key : Bytes) (ports : Option (List Bool)) (t : SplType)
      (v : Value t)
      → port_matches port ports ≡ true
      → is_json name ≡ false
      → has_nul key ≡ false
      → IsBuildable t v
      → insert_step L R port (store n name db collection (some key) ports t v)
        ≡ operation n db (
            ok (
              Driver.insert
                (build_db_collection db collection)
                (field key (document R t v) Document.nil)))
  unfolding insert_step insert_request
  insert_step-reference port n name db collection key ports t v guard json nul h =
      rw (guard, document_of-reference name key t v json nul h)

  -- An Update attribute whose guard holds updates the documents that the built query selects, with
  -- the reference document under its key; the operation's name decides upsert and multi.
  update_step-reference :
      (fq : FindQuery) (q : Fields) (port : ℕ) (n name db collection key : Bytes)
      (ports : Option (List Bool)) (t : SplType) (v : Value t)
      → build_find_query_bo L R fq ≡ ok q
      → port_matches port ports ≡ true
      → is_json name ≡ false
      → has_nul key ≡ false
      → IsBuildable t v
      → update_step L R fq port (store n name db collection (some key) ports t v)
        ≡ operation n db (
            ok (
              Driver.update
                (build_db_collection db collection)
                q
                (field key (document R t v) Document.nil)
                (is_upsert name)
                (is_multi name)))
  unfolding update_step update_request
  update_step-reference fq q port n name db collection key ports t v query guard json nul h =
      rw (guard, query, document_of-reference name key t v json nul h)
