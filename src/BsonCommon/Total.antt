-- ===== src/BsonCommon/Total.antt =====
-- The generated code builds the reference document, at every value that it can build at all.
use native.Mathlib.Nat.{add-zero, add-suc, suc-add}
use streamsx_mongo_db.Prelude.{
  [], ◌∷◌, ◌≡◌, refl, false, Bytes, has_nul, All, ◌+◌, length, ◌∙◌, ap, All-map,
}
use streamsx_mongo_db.Prelude.Words.{w8}
use streamsx_mongo_db.Spl.Types.{
  Primitive, SplType, Attributes, Value, Record, PrimValue, complex, rstring, ustring, «enum»,
  signed, unsigned, prim, list, blist, set, bset, map, bmap, tuple, nil, attribute,
}
use streamsx_mongo_db.Spl.Runtime.{Runtime}
use streamsx_mongo_db.Bson.Document
use streamsx_mongo_db.Bson.Document.{
  BsonValue, Fields, field, append_fields, append_fields-nil, append_fields-snoc,
}
use streamsx_mongo_db.Bson.Builder.{
  ◌>>=◌, Result, ok, Argument, stored, ArrayBuilder, has_nul-num_str, empty_array,
}
use streamsx_mongo_db.BsonCommon.{
  append, append_array, Built, call_append, handle_primitive, from_primitive, append_items,
  append_pairs, List, key_bytes, from_list, SplType, build_bson_object, Value, prim, enum, list,
  blist, set, bset, map, bmap, tuple, Attributes, Record, build_attributes, from_object,
}
use streamsx_mongo_db.BsonCommon.Reference.{
  primitive_document, IsPrimitive, pairs, items, key_name, document, IsBuildable, IsKey,
  AreBuildable, attributes,
}

-- The built argument stores `d`, whether it is appended to an array or under a name.
abbrev pub Builds : Result Built → BsonValue → Type 0
Builds r d =
    (b : Built) × (r ≡ ok b)
    × (stored b.1 ≡ d)
    × ((n : Bytes) (fs : Fields)
        → has_nul n ≡ false
        → call_append b.0 n b.1 fs ≡ ok (append_fields fs (field n d Document.nil)))

-- A call of plain `append` writes what the argument stores.
append-Builds : (a : Argument) → Builds (ok (append, a)) (stored a)
unfolding call_append
append-Builds a = ((append, a), refl, refl, λ n fs h. rw h)

append_array-Builds :
    (fs : Fields) → Builds (ok (append_array, Argument.bson_array fs)) (BsonValue.array fs)
unfolding call_append
append_array-Builds fs = ((append_array, Argument.bson_array fs), refl, refl, λ n gs h. rw h)

handle_primitive-Builds :
    (R : Runtime) (p : Primitive) (v : PrimValue p)
    → IsPrimitive p
    → Builds (from_primitive (handle_primitive R p v)) (primitive_document R p v)
unfolding handle_primitive primitive_document from_primitive stored
handle_primitive-Builds R complex v h = absurd h
handle_primitive-Builds R (signed w8) v h = append-Builds _
handle_primitive-Builds R (signed _) v h = append-Builds _
handle_primitive-Builds R (unsigned w8) v h = append-Builds _
handle_primitive-Builds R (unsigned _) v h = append-Builds _
handle_primitive-Builds R _ v h = append-Builds _

append_items_lem {ℓ} :
    {A : Type ℓ} (f : A → Result Built) (g : A → BsonValue) (xs : List A) (b : ArrayBuilder)
    → All (λ x. Builds (f x) (g x)) xs
    → append_items f xs b
      ≡ ok (record {
        index = b.index + length xs;
        builder = append_fields b.builder (items g b.index xs);
      })
unfolding append_items items
append_items_lem f g [] b h = rw (append_fields-nil, add-zero)
append_items_lem f g (x ∷ xs) b ((built, e, s, w), h) =
    rw (e, has_nul-num_str, s)
      (append_items_lem f g xs _ h ∙ ap ok (simp (append_fields-snoc, add-suc, suc-add)))

append_pairs_lem {ℓ κ} :
    {K : Type ℓ} {V : Type κ} (key : K → Result Bytes) (name : K → Bytes) (f : V → Result Built)
    (g : V → BsonValue) (kvs : List (K × V)) (fs : Fields)
    → All
        (λ (e : K × V).
          (key e.0 ≡ ok (name e.0)) × (has_nul (name e.0) ≡ false) × Builds (f e.1) (g e.1))
        kvs
    → append_pairs key f kvs fs ≡ ok (append_fields fs (pairs name g kvs))
unfolding append_pairs pairs
append_pairs_lem key name f g [] fs h = rw append_fields-nil
append_pairs_lem key name f g ((k, v) ∷ kvs) fs ((ek, nul, (built, e, s, w)), h) =
    rw (ek, e, w (name k) fs nul)
      (append_pairs_lem key name f g kvs _ h ∙ ap ok (append_fields-snoc fs _ _ _))

pub key_bytes_lem :
    (k : SplType) (v : Value k)
    → IsKey k v
    → (key_bytes k v ≡ ok (key_name k v)) × (has_nul (key_name k v) ≡ false)
unfolding key_bytes key_name
key_bytes_lem (prim rstring) v h = (refl, h)
key_bytes_lem (prim ustring) v h = absurd h
key_bytes_lem (prim (signed w)) v h = absurd h
key_bytes_lem (prim (unsigned w)) v h = absurd h
key_bytes_lem (prim («enum» names)) v h = absurd h
key_bytes_lem (prim _) v h = absurd h
key_bytes_lem (list t) v h = absurd h
key_bytes_lem _ v h = absurd h

-- The call of `append` for one attribute, and what follows it.
bind-Builds :
    (r : Result Built) (d : BsonValue) (n : Bytes) (fs : Fields) (k : Fields → Result Fields)
    → has_nul n ≡ false
    → Builds r d
    → (r >>= λ built. (call_append built.0 n built.1 fs >>= k))
      ≡ k (append_fields fs (field n d Document.nil))
bind-Builds r d n fs k nul (built, e, s, w) = rw (e, w n fs nul)

module _ (R : Runtime) where
  abbrev pub BuildsType : SplType → Type 0
  BuildsType t = (v : Value t) → IsBuildable t v → Builds (build_bson_object R t v) (document R t v)

  from_list-Builds :
      {A : Type 0} (f : A → Result Built) (g : A → BsonValue) (P : A → Type 0) (xs : List A)
      → ((x : A) → P x → Builds (f x) (g x))
      → All P xs
      → Builds (from_list (append_items f xs empty_array)) (BsonValue.array (items g 0 xs))
  unfolding from_list append_fields
  from_list-Builds f g P xs ih h =
      rw (append_items_lem f g xs empty_array (All-map P (λ x. Builds (f x) (g x)) xs ih h))
        (append_array-Builds _)

  from_object-Builds :
      (r : Result Fields) (fs : Fields) → r ≡ ok fs → Builds (from_object r) (BsonValue.object fs)
  unfolding from_object stored
  from_object-Builds r fs e = rw e (append-Builds _)

  append_pairs-Builds :
      (k t : SplType) (m : List (Value k × Value t))
      → BuildsType t
      → All (λ (e : Value k × Value t). IsKey k e.0 × IsBuildable t e.1) m
      → append_pairs (key_bytes k) (build_bson_object R t) m Document.nil
        ≡ ok (pairs (key_name k) (document R t) m)
  unfolding append_fields
  append_pairs-Builds k t m ih h =
      append_pairs_lem (key_bytes k) (key_name k) (build_bson_object R t) (document R t) m
        Document.nil
        (All-map _ _ m
          (λ e he. ((key_bytes_lem k e.0 he.0).0, (key_bytes_lem k e.0 he.0).1, ih e.1 he.1)) h)

  mutual
    unfolding build_bson_object document append_fields

    pub build_bson_object-Builds : (t : SplType) → BuildsType t
    build_bson_object-Builds (prim p) v h = handle_primitive-Builds R p v h
    build_bson_object-Builds (list t) v h = from_list-Builds _ _ _ v (build_bson_object-Builds t) h
    build_bson_object-Builds (blist b t) v h =
        from_list-Builds _ _ _ v (build_bson_object-Builds t) h
    build_bson_object-Builds (set t) v h = from_list-Builds _ _ _ v (build_bson_object-Builds t) h
    build_bson_object-Builds (bset b t) v h =
        from_list-Builds _ _ _ v (build_bson_object-Builds t) h
    build_bson_object-Builds (map k t) v h =
        from_object-Builds _ _ (append_pairs-Builds k t v (build_bson_object-Builds t) h)
    build_bson_object-Builds (bmap b k t) v h =
        from_object-Builds _ _ (append_pairs-Builds k t v (build_bson_object-Builds t) h)
    build_bson_object-Builds (tuple ats) v h =
        from_object-Builds _ _ (build_attributes_lem ats v Document.nil h)

    pub build_attributes_lem :
        (ats : Attributes) (r : Record ats) (fs : Fields)
        → AreBuildable ats r
        → build_attributes R ats r fs ≡ ok (append_fields fs (attributes R ats r))
    build_attributes_lem nil r fs h = rw append_fields-nil
    build_attributes_lem (attribute n t ats) (v, r) fs (nul, hv, hr) =
        bind-Builds _ _ n fs _ nul (build_bson_object-Builds t v hv)
        ∙ build_attributes_lem ats r _ hr
        ∙ ap ok (append_fields-snoc fs n _ _)

  -- Every value without a complex number, with byte strings without a zero byte as the keys of its maps
  -- and no zero byte in an attribute's name, is built, and the built argument stores the reference
  -- document.
  pub build_bson_object-eq-document :
      (t : SplType) (v : Value t)
      → IsBuildable t v
      → (b : Built) × (build_bson_object R t v ≡ ok b) × (stored b.1 ≡ document R t v)
  build_bson_object-eq-document t v h =
      let (b, e, s, _) = build_bson_object-Builds t v h in (b, e, s)
