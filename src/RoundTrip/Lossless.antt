-- ===== src/RoundTrip/Lossless.antt =====
-- When the pruned value is the value.
use streamsx_mongo_db.Prelude.{
  ◌≡◌, refl, ap, ◌∙◌, All-map, Bool, true, not, List, [], ◌∷◌, All, is_empty, if◌then◌else◌,
  All-map,
}
use streamsx_mongo_db.Spl.Types.{
  SplType, Attributes, Value, Record, prim, list, blist, set, bset, map, bmap, tuple, nil,
  attribute,
}
use streamsx_mongo_db.RoundTrip.Pruned.{collect, collect_values, pruned, pruned_record, or_nothing}

-- Whether the value counts as read when it stands in a collection: no collection is empty.
abbrev pub is_kept : (t : SplType) → Value t → Bool
is_kept (list t) vs = not (is_empty vs)
is_kept (blist b t) vs = not (is_empty vs)
is_kept (set t) vs = not (is_empty vs)
is_kept (bset b t) vs = not (is_empty vs)
is_kept (map k t) m = not (is_empty m)
is_kept (bmap b k t) m = not (is_empty m)
is_kept (prim p) v = true
is_kept (tuple ats) v = true

-- No collection holds an empty collection, at any depth.
abbrev mutual
  pub IsFull : (t : SplType) → Value t → Type 0
  IsFull (list t) vs = All (λ (v : Value t). (is_kept t v ≡ true) × IsFull t v) vs
  IsFull (blist b t) vs = All (λ (v : Value t). (is_kept t v ≡ true) × IsFull t v) vs
  IsFull (set t) vs = All (λ (v : Value t). (is_kept t v ≡ true) × IsFull t v) vs
  IsFull (bset b t) vs = All (λ (v : Value t). (is_kept t v ≡ true) × IsFull t v) vs
  IsFull (map k t) m = All (λ (e : Value k × Value t). (is_kept t e.1 ≡ true) × IsFull t e.1) m
  IsFull (bmap b k t) m = All (λ (e : Value k × Value t). (is_kept t e.1 ≡ true) × IsFull t e.1) m
  IsFull (tuple ats) r = AreFull ats r
  IsFull _ v = Unit

  pub AreFull : (ats : Attributes) → Record ats → Type 0
  AreFull nil r = Unit
  AreFull (attribute n t ats) (v, r) = IsFull t v × AreFull ats r

collect_id {ℓ} :
    {A : Type ℓ} (f : A → A × Bool) (xs : List A)
    → All (λ x. f x ≡ (x, true)) xs
    → collect f xs ≡ xs
unfolding collect
collect_id f [] h = refl
collect_id {A = A} f (x ∷ xs) (e, h) =
    ap (λ (r : A × Bool). let rest = collect f xs in if r.1 then r.0 ∷ rest else rest) e
    ∙ ap (λ rest. x ∷ rest) (collect_id f xs h)

collect_values_id {ℓ κ} :
    {K : Type ℓ} {V : Type κ} (f : V → V × Bool) (m : List (K × V))
    → All (λ (e : K × V). f e.1 ≡ (e.1, true)) m
    → collect_values f m ≡ m
unfolding collect_values
collect_values_id f [] h = refl
collect_values_id {V = V} f ((k, v) ∷ m) (e, h) =
    ap (λ (r : V × Bool). let rest = collect_values f m in if r.1 then (k, r.0) ∷ rest else rest) e
    ∙ ap (λ rest. (k, v) ∷ rest) (collect_values_id f m h)

-- Items, or a map's values, that are all kept as they are.
or_nothing-collect {ℓ} :
    {A : Type ℓ} (f : A → A × Bool) (Full : A → Type 0) (kept : A → Bool) (xs : List A)
    → ((x : A) → Full x → f x ≡ (x, kept x))
    → All (λ (x : A). (kept x ≡ true) × Full x) xs
    → or_nothing (collect f xs) ≡ (xs, not (is_empty xs))
or_nothing-collect f Full kept xs full h =
    ap or_nothing (collect_id f xs (All-map _ _ xs (λ x hx. full x hx.1 ∙ ap (λ b. (x, b)) hx.0) h))

or_nothing-collect_values {ℓ κ} :
    {K : Type ℓ} {V : Type κ} (f : V → V × Bool) (Full : V → Type 0) (kept : V → Bool)
    (m : List (K × V))
    → ((v : V) → Full v → f v ≡ (v, kept v))
    → All (λ (e : K × V). (kept e.1 ≡ true) × Full e.1) m
    → or_nothing (collect_values f m) ≡ (m, not (is_empty m))
or_nothing-collect_values f Full kept m full h =
    ap or_nothing
      (collect_values_id f m (All-map _ _ m (λ e he. full e.1 he.1 ∙ ap (λ b. (e.1, b)) he.0) h))

mutual
  unfolding pruned

  pruned_full : (t : SplType) (v : Value t) → IsFull t v → pruned t v ≡ (v, is_kept t v)
  pruned_full (prim p) v h = refl
  pruned_full (list t) vs h =
      or_nothing-collect (pruned t) (IsFull t) (is_kept t) vs (pruned_full t) h
  pruned_full (blist b t) vs h =
      or_nothing-collect (pruned t) (IsFull t) (is_kept t) vs (pruned_full t) h
  pruned_full (set t) vs h =
      or_nothing-collect (pruned t) (IsFull t) (is_kept t) vs (pruned_full t) h
  pruned_full (bset b t) vs h =
      or_nothing-collect (pruned t) (IsFull t) (is_kept t) vs (pruned_full t) h
  pruned_full (map k t) m h =
      or_nothing-collect_values (pruned t) (IsFull t) (is_kept t) m (pruned_full t) h
  pruned_full (bmap b k t) m h =
      or_nothing-collect_values (pruned t) (IsFull t) (is_kept t) m (pruned_full t) h
  pruned_full (tuple ats) r h = ap (λ (x : Record ats). (x, true)) (pruned_record_full ats r h)

  pruned_record_full : (ats : Attributes) (r : Record ats) → AreFull ats r → pruned_record ats r ≡ r
  pruned_record_full nil r h = refl
  pruned_record_full (attribute n t ats) (v, r) (hv, hr) =
      ap (λ (x : Value t × Bool). (x.0, pruned_record ats r)) (pruned_full t v hv)
      ∙ ap (λ (y : Record ats). (v, y)) (pruned_record_full ats r hr)

-- A value with no empty collection inside a collection is left as it is.
pub pruned_lem : (t : SplType) (v : Value t) → IsFull t v → pruned t v ≡ (v, is_kept t v)
pruned_lem t v h = pruned_full t v h
