-- ===== src/Operators/Inserts.antt =====
-- A stream of tuples of an Insert operator with one operation under a key (Insert/Insert_cpp.cgt): the
-- documents that it makes the server insert.
use streamsx_mongo_db.Operators.Reports.{sent_before}
use mathlib.Core.Path.{subst, sym}
use mathlib.Core.List.{append-nil}
use streamsx_mongo_db.Prelude.{
  ◌≡◌, refl, ◌∙◌, ap, false, none, some, List, [], ◌∷◌, ◌++◌, map, Bytes, All, has_nul, bytes_eq,
  bytes_eq_refl, if◌then◌else◌, ◌⊎◌, inl, inr, length, arith, bytes,
}
use streamsx_mongo_db.Spl.Types.{SplType, Value}
use streamsx_mongo_db.Spl.Runtime.{Runtime}
use streamsx_mongo_db.Bson.Document
use streamsx_mongo_db.Bson.Document.{Fields, field}
use streamsx_mongo_db.Bson.Builder
use streamsx_mongo_db.Bson.Element.{Library}
use streamsx_mongo_db.BsonCommon.Reference.{document, IsBuildable}
use streamsx_mongo_db.Operators.Driver
use streamsx_mongo_db.Operators.Driver.{
  Request, Driver, State, Outcome, done, thrown, fault, M, continue_with,
}
use streamsx_mongo_db.Operators.Connection.{Config, build_db_collection}
use streamsx_mongo_db.Operators.Process.{Output, Step, operation, process_steps, process_all}
use streamsx_mongo_db.Operators.Requests.{writes}
use streamsx_mongo_db.Operators.Writes.{store, is_json, insert_step, port_matches}
use streamsx_mongo_db.Operators.Steps.{insert_step-reference}
use streamsx_mongo_db.Operators.Accounts.{ProcessedResult, process_steps-ProcessedResult}

-- The documents that the requests, the latest first, insert into the collection, the earliest first.
abbrev pub inserted_onto : Bytes → List Request → List Fields → List Fields
inserted_onto ns [] docs = docs
inserted_onto ns (Driver.insert ns' d ∷ qs) docs =
    inserted_onto ns qs (if bytes_eq ns' ns then d ∷ docs else docs)
inserted_onto ns (_ ∷ qs) docs = inserted_onto ns qs docs

-- The output attribute of an operator that inserts documents under a key.
pub record Insertion : Type 0 where
  pub attribute_name : Bytes
  pub operation_name : Bytes
  pub db : Bytes
  pub collection : Bytes
  pub key : Bytes

-- Its operation stores no JSON text, and its key has no zero byte and is not `_id`.
pub record IsKeyed (o : Insertion) : Type 0 where
  pub no_json : is_json o.operation_name ≡ false
  pub clean_key : has_nul o.key ≡ false
  pub no_id : bytes_eq (bytes "_id") o.key ≡ false

first_of_one :
    {A : Type 0} (a : A) (first rest : List A)
    → a ∷ [] ≡ first ++ rest
    → (first ≡ []) ⊎ (first ≡ a ∷ [])
first_of_one a [] rest e = inl refl
first_of_one a (x ∷ []) rest e = inr (cc)
first_of_one a (x ∷ y ∷ first) rest e = absurd (ground (arith, ap length e))

module _ (L : Library) (R : Runtime) (o : Insertion) (t : SplType) where
  abbrev pub namespace_of : Bytes
  namespace_of = build_db_collection o.db o.collection

  -- The document that a value is stored as.
  abbrev pub stored : Value t → Fields
  stored v = field o.key (document R t v) Document.nil

  -- One tuple for each value.
  abbrev pub insert_stream : List (Value t) → List (List Step)
  insert_stream vs =
      map
        (λ v.
          insert_step L R 0
            (store o.attribute_name o.operation_name o.db o.collection (some o.key) none t v)
          ∷ [])
        vs

  abbrev sent_values : List Request → List (Value t) → List Request
  sent_values earlier [] = earlier
  sent_values earlier (v ∷ vs) = sent_values (Driver.insert namespace_of (stored v) ∷ earlier) vs

  inserted_onto-sent_values :
      (vs : List (Value t)) (earlier : List Request) (docs : List Fields)
      → inserted_onto namespace_of (sent_values earlier vs) docs
        ≡ inserted_onto namespace_of earlier (map stored vs ++ docs)
  inserted_onto-sent_values [] earlier docs = refl
  inserted_onto-sent_values (v ∷ vs) earlier docs =
      inserted_onto-sent_values vs (Driver.insert namespace_of (stored v) ∷ earlier) docs
      ∙ ap
          (λ b.
            inserted_onto namespace_of earlier
              (if b then stored v ∷ (map stored vs ++ docs) else map stored vs ++ docs))
          (bytes_eq_refl namespace_of)

  -- Nothing is left of the stream if it came to its end; a null pointer is not followed.
  abbrev pub Leaves : Outcome (Unit {0}) → List (Value t) → Type 0
  Leaves (done u) rest = rest ≡ []
  Leaves (thrown x) rest = Unit
  Leaves fault rest = ⊥

  -- The values of a beginning of the stream were sent, and all of them if it came to its end.
  abbrev Sent :
      {D : Driver} → List (Value t) → State D Output → Outcome (Unit {0}) × State D Output → Type 0
  Sent vs s r =
      (kept : List (Value t)) × (rest : List (Value t)) × (vs ≡ kept ++ rest)
      × Leaves r.0 rest
      × (writes r.1.requests ≡ sent_values (writes s.requests) kept)

  abbrev step_of : Value t → Step
  step_of v = operation o.attribute_name o.db (Builder.ok (Driver.insert namespace_of (stored v)))

  module _ {D : Driver} (cfg : Config) where
    Sent-continue :
        (v : Value t) (vs : List (Value t)) (s : State D Output)
        (r : Outcome (Unit {0}) × State D Output) (k : M D Output (Unit {0}))
        → ProcessedResult ((o.attribute_name, Driver.insert namespace_of (stored v)) ∷ []) s r
        → ((s' : State D Output) → Sent vs s' (k s'))
        → Sent (v ∷ vs) s (continue_with r λ u. k)
    Sent-continue v vs s (done u, s') k (rs, a, g, m, b, w) ih =
        let (kept, rest, e, l, w') = ih s' in
        (v ∷ kept, rest, ap (λ xs. v ∷ xs) e, l, w' ∙ ap (λ qs. sent_values qs kept) w)
    Sent-continue v vs s (thrown x, s') k (first, rest, e, b, w) ih =
        elim (first_of_one _ first rest e) [
          | inl h ↦ ([], v ∷ vs, refl, tt, w ∙ ap (sent_before (writes s.requests)) h)
          | inr h ↦ (v ∷ [], vs, refl, tt, w ∙ ap (sent_before (writes s.requests)) h)
        ]
    Sent-continue v vs s (fault, s') k h ih = absurd h

    process_all-Sent :
        (vs : List (Value t)) (s : State D Output)
        → IsKeyed o
        → All (IsBuildable t) vs
        → Sent vs s (process_all cfg (insert_stream vs) s)
    unfolding process_all port_matches
    process_all-Sent [] s keyed h = ([], [], refl, refl, refl)
    process_all-Sent (v ∷ vs) s keyed h =
        let rest = process_all cfg (insert_stream vs) in
        subst (λ st. Sent (v ∷ vs) s (continue_with (process_steps cfg (st ∷ []) s) λ u. rest))
          (sym (
            insert_step-reference L R 0 o.attribute_name o.operation_name o.db o.collection o.key
              none t v refl keyed.no_json keyed.clean_key h.0))
          (Sent-continue v vs s (process_steps cfg (step_of v ∷ []) s) rest
            (process_steps-ProcessedResult cfg (step_of v ∷ []) s (refl, tt))
            λ s'. process_all-Sent vs s' keyed h.1)

    -- A thread that has written nothing inserts, in order, the reference documents of the values of
    -- a beginning of the stream, of all if the stream came to its end; a null pointer is not
    -- followed.
    pub process_all-Inserts :
        (vs : List (Value t)) (s : State D Output)
        → IsKeyed o
        → All (IsBuildable t) vs
        → writes s.requests ≡ []
        → let r = process_all cfg (insert_stream vs) s in
          (kept : List (Value t)) × (rest : List (Value t)) × (vs ≡ kept ++ rest)
          × Leaves r.0 rest
          × (inserted_onto namespace_of (writes r.1.requests) [] ≡ map stored kept)
    process_all-Inserts vs s keyed h fresh =
        let (kept, rest, e, l, w) = process_all-Sent vs s keyed h in
        (
          kept,
          rest,
          e,
          l,
          ap (λ qs. inserted_onto namespace_of qs []) (w ∙ ap (λ qs. sent_values qs kept) fresh)
              ∙ inserted_onto-sent_values kept [] []
              ∙ append-nil (map stored kept),
        )
