-- ===== src/Operators/Retrieval.antt =====
-- An Insert operator and a Query operator (Insert/Insert_cpp.cgt and Query/Query_cpp.cgt) on one
-- collection: what was inserted comes back as tuples.
use mathlib.Core.Path.{subst}
use streamsx_mongo_db.Prelude.{
  ℕ, ◌+◌, ◌≡◌, ◌∙◌, ap, none, List, [], ◌∷◌, ◌++◌, All, if◌then◌else◌, is_empty, reverse_onto,
}
use streamsx_mongo_db.Spl.Types.{SplType, Value, Record}
use streamsx_mongo_db.Spl.Runtime.{Runtime}
use streamsx_mongo_db.Bson.Document.{Fields}
use streamsx_mongo_db.Bson.Element.{Conversions, Library, FindsFields}
use streamsx_mongo_db.BsonCommon.Reference.{IsBuildable}
use streamsx_mongo_db.QueryCommon.Row.{set_expressions, set_expression}
use streamsx_mongo_db.RoundTrip.Pruned.{AddsFresh, IsReadable}
use streamsx_mongo_db.Operators.Driver.{Driver, State, Outcome, done, thrown, fault, get_last_error}
use streamsx_mongo_db.Operators.Process.{Output, process_all}
use streamsx_mongo_db.Operators.Connection.{Config, build_db_collection, prepare}
use streamsx_mongo_db.Operators.Requests.{writes, text_of}
use streamsx_mongo_db.Operators.Queries.{Emitted, QueryParameters, get_output_tuple, query_process}
use streamsx_mongo_db.Operators.Emissions.{emissions, query_of}
use streamsx_mongo_db.Operators.Answers.{AnsweredResult, query_process-AnsweredResult}
use streamsx_mongo_db.Operators.Inserts.{
  Insertion, IsKeyed, inserted_onto, namespace_of, insert_stream, Leaves, process_all-Inserts,
}
use streamsx_mongo_db.Operators.Returned.{
  AreReturned, HandsOut, found_type, found_fillings, empty_tuple, emitted_values, emissions-stored,
}

All-beginning {ℓ κ} : {A : Type ℓ} (P : A → Type κ) (xs ys : List A) → All P (xs ++ ys) → All P xs
All-beginning P [] ys h = tt
All-beginning P (x ∷ xs) ys h = (h.0, All-beginning P xs ys h.1)

module _ (C : Conversions) (L : Library) (R : Runtime) (o : Insertion) (t : SplType) where
  -- What the query leaves of the values: it is sent once, after the connection was prepared, which
  -- led to the state `s1`, and getLastError after it; after a last error nothing is counted or
  -- submitted, and so after an exception; else the query is counted and the values are submitted.
  abbrev pub RetrievedResult :
      {D : Driver}
      → Config
      → QueryParameters
      → (Record (found_type C L R o t) → ℕ)
      → List (Value t)
      → State D (Emitted (Record (found_type C L R o t)))
      → Outcome (Record (found_type C L R o t)) × State D (Emitted (Record (found_type C L R o t)))
      → Type 0
  RetrievedResult {D} cfg p hash_code vs s (done r, s') =
      (fields : Fields) × (q : Fields) × (s1 : State D (Emitted (Record (found_type C L R o t))))
      × (prepare cfg p.db_name s ≡ (done tt, s1))
      × (let asked = query_of p q fields in
          let e = text_of (D.respond get_last_error (D.respond asked s1.world).1).0 in
          (s'.requests ≡ get_last_error ∷ asked ∷ s1.requests)
          × (s'.metric ≡ (if is_empty e then s.metric + 1 else s.metric))
          × (s'.submitted ≡ (
              if is_empty e
              then reverse_onto (emitted_values C L R o t hash_code vs) s.submitted
              else s.submitted)))
  RetrievedResult cfg p hash_code vs s (thrown x, s') =
      (s'.metric ≡ s.metric) × (s'.submitted ≡ s.submitted)
  RetrievedResult cfg p hash_code vs s (fault, s') = ⊥

  Retrieved-answered :
      {D : Driver} (cfg : Config) (p : QueryParameters)
      (hash_code : Record (found_type C L R o t) → ℕ) (vs : List (Value t))
      (s : State D (Emitted (Record (found_type C L R o t))))
      (r : Outcome (Record (found_type C L R o t))
        × State D (Emitted (Record (found_type C L R o t))))
      → ((q fields : Fields) (w : D.World)
          → emissions C L R
              (found_type C L R o t)
              hash_code
              (found_fillings C L R o t)
              (empty_tuple C L R o t)
              (D.documents (D.respond (query_of p q fields) w).1)
            ≡ emitted_values C L R o t hash_code vs)
      → AnsweredResult C L R
          (found_type C L R o t)
          hash_code
          cfg
          p
          (found_fillings C L R o t)
          (empty_tuple C L R o t)
          s
          r
      → RetrievedResult cfg p hash_code vs s r
  Retrieved-answered {D} cfg p hash_code vs s (done r, s') emits
        (fields, q, s1, bf, bq, ran, (same, sent, world, m, sub)) =
      let e = text_of (D.respond get_last_error (D.respond (query_of p q fields) s1.world).1).0 in
      (
        fields,
        q,
        s1,
        ran,
        (
          sent,
          m,
          sub
              ∙ ap (λ xs. if is_empty e then reverse_onto xs s.submitted else s.submitted)
                  (emits q fields s1.world),
        ),
      )
  Retrieved-answered cfg p hash_code vs s (thrown x, s') emits h = h
  Retrieved-answered cfg p hash_code vs s (fault, s') emits h = h

-- Values of a stream are inserted under a key, which has no zero byte and is not `_id`, by one operator
-- by an operation that stores no JSON text, from a state in which nothing was written; and another
-- operator, whose query the server answers with all that was inserted, each document behind an `_id`,
-- reads the collection. Then the values of a beginning of the stream come back, of all if the stream
-- came to its end: each as the tuple with the pruned value, in order, less those whose hash is the
-- empty tuple's, and a window marker after them (the empty tuple for no value). With a last error or
-- after an exception the query counts and submits nothing; neither operator follows a null pointer.
-- Each value must be one that can be built and read: no complex number and no blob, which is stored but
-- never read; timestamps that their milliseconds determine; float32, decimal, ustring and xml values
-- that come back from the conversion to a double or a byte string; integers and enumeration values in
-- range; maps with byte strings as keys, without a zero byte and each once; sets whose members stay
-- distinct; bounded collections within their bound; and attribute names without a zero byte, each once
-- in its tuple. The runtime's `add` and the driver's look-up of a field behave as documented.
pub process_all-query_process :
    {D₁ D₂ : Driver} (C : Conversions) (L : Library) (R : Runtime) (o : Insertion) (t : SplType)
    (cfg₁ cfg₂ : Config) (p : QueryParameters) (hash_code : Record (found_type C L R o t) → ℕ)
    (vs : List (Value t)) (s₁ : State D₁ Output)
    (s₂ : State D₂ (Emitted (Record (found_type C L R o t))))
    → FindsFields L
    → AddsFresh R
    → IsKeyed o
    → All (IsBuildable t) vs
    → All (IsReadable R t) vs
    → writes s₁.requests ≡ []
    → build_db_collection p.db_name p.collection ≡ namespace_of L R o t
    → let after = process_all cfg₁ (insert_stream L R o t vs) s₁ in
      HandsOut D₂ p
        (inserted_onto (build_db_collection p.db_name p.collection) (writes after.1.requests) [])
      → (kept : List (Value t)) × (rest : List (Value t)) × (vs ≡ kept ++ rest)
        × Leaves L R o t after.0 rest
        × RetrievedResult C L R o t cfg₂ p hash_code kept s₂ (
            query_process C L R
              (found_type C L R o t)
              hash_code
              cfg₂
              p
              (found_fillings C L R o t)
              none
              s₂)
unfolding get_output_tuple set_expressions set_expression
process_all-query_process {D₂ = D₂} C L R o t cfg₁ cfg₂ p hash_code vs s₁ s₂ finds adds keyed
      buildable readable fresh same hands =
    let after = process_all cfg₁ (insert_stream L R o t vs) s₁ in
    let (kept, rest, e, l, docs) = process_all-Inserts L R o t cfg₁ vs s₁ keyed buildable fresh in
    (
      kept,
      rest,
      e,
      l,
      Retrieved-answered C L R o t cfg₂ p hash_code kept s₂ _
          (λ q fields w.
            emissions-stored C L R o t finds adds keyed hash_code kept _
              (All-beginning (IsReadable R t) kept rest (subst (All (IsReadable R t)) e readable))
              (subst (λ ds. AreReturned ds (D₂.documents (D₂.respond (query_of p q fields) w).1))
                (ap (λ ns. inserted_onto ns (writes after.1.requests) []) same ∙ docs)
                (hands q fields w)))
          (query_process-AnsweredResult C L R (found_type C L R o t) hash_code cfg₂ p
            (found_fillings C L R o t) none s₂),
    )
