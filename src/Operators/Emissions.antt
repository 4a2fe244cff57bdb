-- ===== src/Operators/Emissions.antt =====
-- What the Query operator submits for the documents of its query (Query/Query_cpp.cgt).
use mathlib.Core.Path.{sym}
use streamsx_mongo_db.Prelude.{
  ℕ, ◌+◌, ◌≡◌, refl, ◌∙◌, ap, Bool, true, false, not, List, [], ◌∷◌, ◌++◌, map, ◌==◌, if◌then◌else◌,
  reverse_onto, reverse_onto-append, keep_if,
}
use streamsx_mongo_db.Spl.Types.{Attributes, Record}
use streamsx_mongo_db.Spl.Runtime.{Runtime}
use streamsx_mongo_db.Bson.Document.{Fields}
use streamsx_mongo_db.Bson.Element.{Conversions, Library}
use streamsx_mongo_db.QueryCommon.Row.{Fillings, fill_row}
use streamsx_mongo_db.Operators.Driver.{
  Driver, State, done, M, continue_with, query, increment, submit, pure, Request,
}
use streamsx_mongo_db.Operators.Connection.{Config, build_db_collection}
use streamsx_mongo_db.Operators.Queries.{
  Emitted, emit_tuple, window_marker, QueryParameters, submit_changed, submit_rows, submit_end,
  answer,
}

-- The query that the parameters ask for.
abbrev pub query_of : QueryParameters → Fields → Fields → Request
query_of p q fields = query (build_db_collection p.db_name p.collection) q p.n_to_return fields

module _ (C : Conversions) (L : Library) (R : Runtime) (ats : Attributes)
    (hash_code : Record ats → ℕ) where
  -- What the documents make the operator submit, in order: the rows whose hash differs from that of
  -- the expressions' tuple, and a window marker; without documents, the expressions' tuple.
  abbrev pub rows : Fillings ats → Record ats → List Fields → List (Emitted (Record ats))
  rows fs base docs = map emit_tuple (
      keep_if (λ r. not (hash_code r == hash_code base))
        (map (λ doc. fill_row C L R ats fs doc base) docs))

  abbrev pub emissions : Fillings ats → Record ats → List Fields → List (Emitted (Record ats))
  emissions fs base [] = emit_tuple base ∷ []
  emissions fs base (doc ∷ docs) = rows fs base (doc ∷ docs) ++ (window_marker ∷ [])

module _ {D : Driver} (C : Conversions) (L : Library) (R : Runtime) (ats : Attributes)
    (hash_code : Record ats → ℕ) (cfg : Config) where
  abbrev pub emitted :
      State D (Emitted (Record ats)) → List (Emitted (Record ats)) → State D (Emitted (Record ats))
  emitted s xs = record s { submitted = reverse_onto xs s.submitted }

  one_row :
      (b : Bool) (r : Record ats) (xs : List (Record ats))
      (rest : M D (Emitted (Record ats)) (Unit {0})) (s : State D (Emitted (Record ats)))
      → ((s' : State D (Emitted (Record ats)))
          → rest s' ≡ (done tt, emitted s' (map emit_tuple xs)))
      → continue_with ((if b then pure tt else submit (emit_tuple r)) s) (λ _. rest)
        ≡ (done tt, emitted s (map emit_tuple (if not b then r ∷ xs else xs)))
  unfolding submit
  one_row true r xs rest s h = h s
  one_row false r xs rest s h = h (record s { submitted = emit_tuple r ∷ s.submitted })

  submit_rows_lem :
      (fs : Fillings ats) (base : Record ats) (docs : List Fields)
      (s : State D (Emitted (Record ats)))
      → submit_rows C L R ats hash_code cfg fs base docs s
        ≡ (done tt, emitted s (rows C L R ats hash_code fs base docs))
  unfolding submit_rows submit_changed
  submit_rows_lem fs base [] s = refl
  submit_rows_lem fs base (doc ∷ docs) s =
      let r = fill_row C L R ats fs doc base in
      one_row (hash_code r == hash_code base) r _ (submit_rows C L R ats hash_code cfg fs base docs)
        s (λ s'. submit_rows_lem fs base docs s')

  -- An answer without an error counts one query and submits the emissions, in order.
  pub answer_lem :
      (fs : Fillings ats) (base : Record ats) (docs : List Fields)
      (s : State D (Emitted (Record ats)))
      → answer C L R ats hash_code cfg fs base docs [] s ≡ (
        done tt,
        emitted (record s { metric = s.metric + 1 }) (emissions C L R ats hash_code fs base docs),
      )
  unfolding answer increment submit_end submit submit_rows
  answer_lem fs base [] s = refl
  answer_lem fs base (doc ∷ docs) s =
      ap (λ r. continue_with r (λ _. submit_end C L R ats hash_code cfg true base))
        (submit_rows_lem fs base (doc ∷ docs) (record s { metric = s.metric + 1 }))
      ∙ ap (λ xs. (done tt, record s { metric = s.metric + 1; submitted = xs }))
          (sym (
            reverse_onto-append (rows C L R ats hash_code fs base (doc ∷ docs)) (window_marker ∷ [])
              s.submitted))
