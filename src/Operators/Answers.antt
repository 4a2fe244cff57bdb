-- ===== src/Operators/Answers.antt =====
-- What a call of the Query operator's process leaves (Query/Query_cpp.cgt).
use streamsx_mongo_db.Operators.Requests.{text_of}
use mathlib.Core.Path.{subst, sym}
use streamsx_mongo_db.Prelude.{
  ℕ, ◌+◌, ◌≡◌, refl, ◌∙◌, ap, Option, [], ◌∷◌, Bytes, if◌then◌else◌, is_empty, reverse_onto, List,
}
use streamsx_mongo_db.Spl.Types.{Attributes, Record}
use streamsx_mongo_db.Spl.Runtime.{Runtime}
use streamsx_mongo_db.Bson.Document.{Fields}
use streamsx_mongo_db.Bson.Builder
use streamsx_mongo_db.Bson.Builder.{Result}
use streamsx_mongo_db.Bson.Element.{Conversions, Library}
use streamsx_mongo_db.QueryCommon.Row.{Fillings, set_expressions}
use streamsx_mongo_db.Operators.Driver.{
  Driver, State, Outcome, done, thrown, fault, M, continue_with, get_last_error, built, write_log,
  pure, Reply, returned, refused, raised, raise_reply, gets, perform, ask, ◌>>=◌, ◌>>◌, Request,
}
use streamsx_mongo_db.Operators.Connection.{Config, prepare}
use streamsx_mongo_db.Operators.Quiet.{Silent, QuietResult, Quiet-prepare}
use streamsx_mongo_db.Operators.Writes.{build_find_query_bo}
use streamsx_mongo_db.Operators.Queries.{
  Emitted, QueryParameters, build_find_fields_bo, get_output_tuple, answer, query_process,
}
use streamsx_mongo_db.Operators.Emissions.{query_of, emissions, answer_lem}

module _ {D : Driver} (C : Conversions) (L : Library) (R : Runtime) (ats : Attributes)
    (hash_code : Record ats → ℕ) (cfg : Config) where
  -- What a call of `process` leaves. It returned: the query and the fields could be built, the
  -- connection was prepared, which led to the state `s1`, and from there the query was sent once and
  -- then `getLastError`, and nothing else; the documents that the query led to and the text of the last
  -- error decide about the metric and what is submitted. An exception left it: nothing is counted or
  -- submitted. No null pointer is followed.
  abbrev pub AnsweredResult :
      QueryParameters
      → Fillings ats
      → Record ats
      → State D (Emitted (Record ats))
      → Outcome (Record ats) × State D (Emitted (Record ats))
      → Type 0
  AnsweredResult p fs base s (done r, s') =
      (fields : Fields) × (q : Fields) × (s1 : State D (Emitted (Record ats)))
      × (build_find_fields_bo R p.find_fields ≡ Builder.ok fields)
      × (build_find_query_bo L R p.find_query ≡ Builder.ok q)
      × (prepare cfg p.db_name s ≡ (done tt, s1))
      × (let asked = query_of p q fields in
          let found = (D.respond asked s1.world).1 in
          let told = D.respond get_last_error found in
          let e = text_of told.0 in
          (r ≡ base)
          × (s'.requests ≡ get_last_error ∷ asked ∷ s1.requests)
          × (s'.world ≡ told.1)
          × (s'.metric ≡ (if is_empty e then s.metric + 1 else s.metric))
          × (s'.submitted ≡ (
              if is_empty e
              then reverse_onto (emissions C L R ats hash_code fs base (D.documents found))
                  s.submitted
              else s.submitted)))
  AnsweredResult p fs base s (thrown x, s') = (s'.metric ≡ s.metric) × (s'.submitted ≡ s.submitted)
  AnsweredResult p fs base s (fault, s') = ⊥

  Answered-continue :
      {A : Type 0} (p : QueryParameters) (fs : Fillings ats) (base : Record ats)
      (s : State D (Emitted (Record ats))) (r : Outcome A × State D (Emitted (Record ats)))
      (f : A → M D (Emitted (Record ats)) (Record ats))
      → QuietResult s r
      → ((a : A) (s' : State D (Emitted (Record ats)))
          → r ≡ (done a, s')
          → Silent s s'
          → AnsweredResult p fs base s (f a s'))
      → AnsweredResult p fs base s (continue_with r f)
  Answered-continue p fs base s (done a, s') f h k = k a s' refl h
  Answered-continue p fs base s (thrown x, s') f (m, t, w) k = (m, t)
  Answered-continue p fs base s (fault, s') f h k = absurd h

  -- A document or query that must be built first.
  Answered-built :
      (p : QueryParameters) (fs : Fillings ats) (base : Record ats)
      (s : State D (Emitted (Record ats))) (b : Result Fields)
      (f : Fields → M D (Emitted (Record ats)) (Record ats))
      → ((d : Fields) → b ≡ Builder.ok d → AnsweredResult p fs base s (f d s))
      → AnsweredResult p fs base s (continue_with (built b s) f)
  Answered-built p fs base s (Builder.ok d) f k = k d refl
  Answered-built p fs base s (Builder.err x) f k = (refl, refl)

  module _ (p : QueryParameters) (fs : Fillings ats) (base : Record ats)
      (s : State D (Emitted (Record ats))) (fields q : Fields)
      (built_fields : build_find_fields_bo R p.find_fields ≡ Builder.ok fields)
      (built_query : build_find_query_bo L R p.find_query ≡ Builder.ok q)
      (s1 : State D (Emitted (Record ats))) (prepared : prepare cfg p.db_name s ≡ (done tt, s1))
      (silent : Silent s s1) where
    abbrev asked : Request
    asked = query_of p q fields

    abbrev found : D.World
    found = (D.respond asked s1.world).1

    abbrev told : Reply × D.World
    told = D.respond get_last_error found

    -- The state after the query and `getLastError`.
    abbrev after_both : State D (Emitted (Record ats))
    after_both = record s1 { world = told.1; requests = get_last_error ∷ asked ∷ s1.requests }

    -- What is submitted if the last error's text is this.
    abbrev submitted_at : Bytes → List (Emitted (Record ats))
    submitted_at e =
        if is_empty e
        then reverse_onto (emissions C L R ats hash_code fs base (D.documents found)) s.submitted
        else s.submitted

    -- The answer, given the text of the last error.
    Answered-answer :
        (e : Bytes)
        → text_of told.0 ≡ e
        → AnsweredResult p fs base s (
            continue_with
              (answer C L R ats hash_code cfg fs base (D.documents found) e after_both)
              λ _. pure base)
    unfolding write_log answer
    Answered-answer [] text =
        let docs = D.documents found in
        subst (λ r. AnsweredResult p fs base s (continue_with r λ _. pure base))
          (sym (answer_lem C L R ats hash_code cfg fs base docs after_both))
          (
            fields,
            q,
            s1,
            built_fields,
            built_query,
            prepared,
            (
              refl,
              refl,
              refl,
              (ap (λ n. n + 1) silent.0
                  ∙ ap (λ e. if is_empty e then s.metric + 1 else s.metric) (sym text)),
              (ap (reverse_onto (emissions C L R ats hash_code fs base docs)) silent.1
                  ∙ ap submitted_at (sym text)),
            ),
          )
    Answered-answer (c ∷ e) text = (
      fields,
      q,
      s1,
      built_fields,
      built_query,
      prepared,
      (
        refl,
        refl,
        refl,
        (silent.0 ∙ ap (λ e. if is_empty e then s.metric + 1 else s.metric) (sym text)),
        (silent.1 ∙ ap submitted_at (sym text)),
      ),
    )

    -- The reply to `getLastError`.
    Answered-told :
        (reply : Reply)
        → told.0 ≡ reply
        → AnsweredResult p fs base s (
            continue_with (raise_reply reply after_both) λ e s''.
              continue_with
                (answer C L R ats hash_code cfg fs base (D.documents found) e s'')
                λ _. pure base)
    unfolding raise_reply
    Answered-told (returned t) e = Answered-answer t (ap text_of e)
    Answered-told (refused t) e = Answered-answer t (ap text_of e)
    Answered-told (raised x) e = (silent.0, silent.1)

    -- The reply to the query.
    Answered-asked :
        (reply : Reply)
        → AnsweredResult p fs base s (
            continue_with
              (raise_reply reply (record s1 { world = found; requests = asked ∷ s1.requests }))
              λ r. gets (λ x. D.documents x.world) >>= λ docs. perform get_last_error >>= λ e.
                answer C L R ats hash_code cfg fs base docs e >> pure base)
    unfolding raise_reply perform ask
    Answered-asked (returned t) = Answered-told told.0 refl
    Answered-asked (refused t) = Answered-told told.0 refl
    Answered-asked (raised x) = (silent.0, silent.1)

  pub query_process-AnsweredResult :
      (p : QueryParameters) (fs : Fillings ats) (thread_tuple : Option (Record ats))
      (s : State D (Emitted (Record ats)))
      → AnsweredResult p fs
          (set_expressions ats fs (get_output_tuple R ats thread_tuple))
          s
          (query_process C L R ats hash_code cfg p fs thread_tuple s)
  unfolding query_process perform ask
  query_process-AnsweredResult p fs thread_tuple s =
      let base = set_expressions ats fs (get_output_tuple R ats thread_tuple) in
      Answered-built p fs base s (build_find_fields_bo R p.find_fields) _ λ fields bf.
        Answered-built p fs base s (build_find_query_bo L R p.find_query) _ λ q bq.
          Answered-continue p fs base s _ _ ((Quiet-prepare cfg p.db_name).run s)
            λ u s1 ran silent. Answered-asked p fs base s fields q bf bq s1 ran silent _
