-- ===== src/RoundTrip/Values.antt =====
-- Reading the document of a value gives the pruned value.
use streamsx_mongo_db.Prelude.{
  ◌≡◌, refl, sym, ap, ◌∙◌, Bool, true, false, none, some, [], Bytes, All-map, bytes_eq_refl, ◌++◌,
  ◌∷◌, List, length, ℕ, ◌<◌, All, arith, ◌≤◌,
}
use streamsx_mongo_db.Spl.Types.{
  SplType, Attributes, Value, Record, rstring, prim, list, map, tuple, nil, attribute, blist, set,
  bset, bmap,
}
use streamsx_mongo_db.Spl.Runtime.{Runtime, initial, initial_record}
use streamsx_mongo_db.Bson.Document
use streamsx_mongo_db.Bson.Document.{
  BsonValue, Fields, field, first_field, append_fields, append_fields-snoc,
}
use streamsx_mongo_db.Bson.Element.{Conversions, Library, FindsFields, embedded_object}
use streamsx_mongo_db.BsonCommon.Reference.{document, attributes, items, pairs}
use streamsx_mongo_db.QueryCommon.{
  handle_bson_object, handle_attributes, handle_named, applied_if_any, if_found, handle_bson_array,
  handle_bson_object_as_map,
}
use streamsx_mongo_db.RoundTrip.Pruned.{
  collect, collect_values, pruned, pruned_record, IsFreshName, AddsFresh, IsReadable, AreReadable,
  IsFreshKey, AreEntries, Joins, IsNew, or_nothing,
}
use streamsx_mongo_db.RoundTrip.Primitives.{handle_primitive-document}
use streamsx_mongo_db.RoundTrip.Loops.{
  outcome, outcome-false, read_fields-items, read_fields-pairs, AreNew-nil, first_field-append,
  applied_if_any-outcome, Anything, Joins-Anything,
}

-- No attribute's name is taken in `fs`.
abbrev AreAbsent : Attributes → Fields → Type 0
AreAbsent nil fs = Unit
AreAbsent (attribute n t ats) fs = (first_field fs n ≡ none) × AreAbsent ats fs

AreAbsent-nil : (ats : Attributes) → AreAbsent ats Document.nil
unfolding first_field
AreAbsent-nil nil = tt
AreAbsent-nil (attribute n t ats) = (refl, AreAbsent-nil ats)

AreAbsent-snoc :
    (ats : Attributes) (fs : Fields) (n : Bytes) (v : BsonValue)
    → AreAbsent ats fs
    → IsFreshName n ats
    → AreAbsent ats (append_fields fs (field n v Document.nil))
unfolding first_field
AreAbsent-snoc nil fs n v h e = tt
AreAbsent-snoc (attribute m t ats) fs n v (absent, h) (ne, e) =
    (first_field-append fs (field n v Document.nil) m absent ∙ rw ne, AreAbsent-snoc ats fs n v h e)

pub first_field-here :
    (n : Bytes) (v : BsonValue) (fs : Fields) → first_field (field n v fs) n ≡ some v
unfolding first_field
first_field-here n v fs = rw (bytes_eq_refl n)

module _ (C : Conversions) (L : Library) (R : Runtime) (finds : FindsFields L)
    (adds : AddsFresh R) where
  abbrev pub ReadsType : SplType → Type 0
  ReadsType t =
      (v : Value t) (applied : Bool)
      → IsReadable R t v
      → handle_bson_object C L R t (document R t v) (initial R t) applied
        ≡ outcome (pruned t v) applied

  pub handle_named-first :
      {A : Type 0} (pre : Fields) (n : Bytes) (v : BsonValue) (fs : Fields)
      (read : BsonValue → A → Bool → A × Bool) (a : A) (applied : Bool)
      → first_field pre n ≡ none
      → handle_named L (append_fields pre (field n v fs)) n read a applied ≡ read v a applied
  unfolding handle_named first_field
  handle_named-first pre n v fs read a applied absent =
      ap (λ found. if_found found read a applied)
        (finds (append_fields pre (field n v fs)) n
          ∙ first_field-append pre (field n v fs) n absent
          ∙ first_field-here n v fs)

  -- An array written from items that are read back one by one, by an `add` that appends them.
  read_array {κ} :
      (t : SplType) (P : List (Value t) → Value t → Type κ)
      (add : List (Value t) → Value t → List (Value t)) (limit : ℕ)
      → ((xs : List (Value t)) (v : Value t)
          → P xs v
          → length xs < limit
          → add xs v ≡ xs ++ (v ∷ []))
      → ReadsType t
      → (vs : List (Value t)) (applied : Bool) → All (IsReadable R t) vs
      → Joins P [] (collect (pruned t) vs)
      → length vs ≤ limit
      → handle_bson_array
          (λ v. handle_bson_object C L R t v (initial R t) false)
          (λ xs n v. add xs v)
          (Document.array (items (document R t) 0 vs))
          []
          applied
        ≡ outcome (or_nothing (collect (pruned t) vs)) applied
  unfolding handle_bson_array embedded_object
  read_array t P add limit appends ih vs applied h j l =
      ap (λ xs. applied_if_any xs applied)
        (read_fields-items P _ add limit (document R t) (pruned t) appends 0 vs []
          (All-map _ _ vs (λ v hv. ih v false hv ∙ outcome-false (pruned t v)) h) j (omega arith))
      ∙ applied_if_any-outcome (collect (pruned t) vs) applied

  read_map :
      (t : SplType) (add : List (Bytes × Value t) → Bytes → Value t → List (Bytes × Value t))
      (limit : ℕ)
      → ((m : List (Bytes × Value t)) (n : Bytes) (v : Value t)
          → IsFreshKey n m
          → length m < limit
          → add m n v ≡ m ++ ((n, v) ∷ []))
      → ReadsType t
      → (m : List (Bytes × Value t)) (applied : Bool) → AreEntries (IsReadable R t) m
      → length m ≤ limit
      → handle_bson_object_as_map
          (λ v. handle_bson_object C L R t v (initial R t) false)
          add
          (Document.object (pairs (λ k. k) (document R t) m))
          []
          applied
        ≡ outcome (or_nothing (collect_values (pruned t) m)) applied
  unfolding handle_bson_object_as_map embedded_object
  read_map t add limit appends ih m applied h l =
      ap (λ xs. applied_if_any xs applied)
        (read_fields-pairs (IsReadable R t) _ add limit (document R t) (pruned t) appends
          (λ v hv. ih v false hv ∙ outcome-false (pruned t v)) m [] h (AreNew-nil m) (omega arith))
      ∙ applied_if_any-outcome (collect_values (pruned t) m) applied

  mutual
    unfolding handle_bson_object document pruned initial append_fields

    pub handle_bson_object-Reads : (t : SplType) → ReadsType t
    handle_bson_object-Reads (prim p) v applied h = handle_primitive-document C R p v _ applied h
    handle_bson_object-Reads (list t) vs applied h =
        read_array t Anything (λ xs v. xs ++ (v ∷ [])) (length vs) (λ xs v p l. refl)
          (handle_bson_object-Reads t) vs applied h (Joins-Anything [] (collect (pruned t) vs))
          (omega arith)
    handle_bson_object-Reads (blist b t) vs applied (h, l) =
        read_array t Anything (R.bounded_add b t) b (λ xs v p. adds.blist_adds b t xs v)
          (handle_bson_object-Reads t) vs applied h (Joins-Anything [] (collect (pruned t) vs))
          (omega arith)
    handle_bson_object-Reads (set t) vs applied (h, j) =
        read_array t IsNew (R.set_add t) (length vs) (λ xs v p l. adds.set_adds t xs v p)
          (handle_bson_object-Reads t) vs applied h j (omega arith)
    handle_bson_object-Reads (bset b t) vs applied (h, j, l) =
        read_array t IsNew (R.bounded_set_add b t) b (adds.bset_adds b t)
          (handle_bson_object-Reads t) vs applied h j (omega arith)
    handle_bson_object-Reads (map (prim rstring) t) m applied h =
        read_map t (R.map_add t) (length m) (λ m' n v p l. adds.map_adds t m' n v p)
          (handle_bson_object-Reads t) m applied h (omega arith)
    handle_bson_object-Reads (bmap b (prim rstring) t) m applied (h, l) =
        read_map t (R.bounded_map_add b t) b (adds.bmap_adds b t) (handle_bson_object-Reads t) m
          applied h (omega arith)
    handle_bson_object-Reads (tuple ats) r applied h =
        ap (λ (x : Record ats). (x, true))
          (handle_attributes-Reads ats r Document.nil applied h (AreAbsent-nil ats))
    handle_bson_object-Reads (map _ t) v applied h = absurd h
    handle_bson_object-Reads (bmap b _ t) v applied h = absurd h

    handle_attributes-Reads :
        (ats : Attributes) (r : Record ats) (pre : Fields) (applied : Bool)
        → AreReadable R ats r
        → AreAbsent ats pre
        → (handle_attributes C L R ats
            (append_fields pre (attributes R ats r))
            (initial_record R ats)
            applied).0
          ≡ pruned_record ats r
    handle_attributes-Reads nil r pre applied h absent = refl
    handle_attributes-Reads (attribute n t ats) (v, r) pre applied (hv, hn, hr) (an, absent) =
        let d = document R t v in
        let rest = attributes R ats r in
        let here =
          handle_named-first pre n d rest (handle_bson_object C L R t) (initial R t) applied an
          ∙ handle_bson_object-Reads t v applied hv in
        let there : (flag : Bool)
            → (handle_attributes C L R ats (append_fields pre (field n d rest))
                (initial_record R ats) flag).0
              ≡ pruned_record ats r =
          λ flag.
            ap (λ fs. (handle_attributes C L R ats fs (initial_record R ats) flag).0)
              (sym (append_fields-snoc pre n d rest))
            ∙ handle_attributes-Reads ats r (append_fields pre (field n d Document.nil)) flag hr
                (AreAbsent-snoc ats pre n d absent hn) in
        ap
          (λ (x : Value t × Bool). (
            x.0,
            (handle_attributes C L R ats (append_fields pre (field n d rest)) (initial_record R ats)
                x.1).0,
          ))
          here
        ∙ ap (λ (y : Record ats). ((pruned t v).0, y)) (there _)
