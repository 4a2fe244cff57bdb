-- ===== src/Generator/Accepted.antt =====
-- What the generators accept can be built at every value, and has the shape of its type.
use streamsx_mongo_db.Prelude.{
  ◌≡◌, refl, ap, false, List, [], ◌∷◌, ◌++◌, All, All-map, has_nul, is_empty,
}
use mathlib.Core.Bool.{false≢true}
use streamsx_mongo_db.Spl.Types.{
  Primitive, SplType, Attributes, Value, Record, complex, prim, list, blist, set, bset, map, bmap,
  tuple, nil, attribute,
}
use streamsx_mongo_db.Spl.Runtime.{Runtime}
use streamsx_mongo_db.BsonCommon.Reference.{IsKey, IsPrimitive, IsBuildable, AreBuildable}
use streamsx_mongo_db.Generator.Checks.{
  type_errors, attribute_errors, primitive_errors, map_key_errors,
}

-- Names of fields without zero bytes, and byte strings for the keys of maps.
abbrev mutual
  pub HasCleanNames : (t : SplType) → Value t → Type 0
  HasCleanNames (prim p) v = Unit
  HasCleanNames (list t) vs = All (HasCleanNames t) vs
  HasCleanNames (blist b t) vs = All (HasCleanNames t) vs
  HasCleanNames (set t) vs = All (HasCleanNames t) vs
  HasCleanNames (bset b t) vs = All (HasCleanNames t) vs
  HasCleanNames (map k t) m = All (λ (e : Value k × Value t). IsKey k e.0 × HasCleanNames t e.1) m
  HasCleanNames (bmap b k t) m =
      All (λ (e : Value k × Value t). IsKey k e.0 × HasCleanNames t e.1) m
  HasCleanNames (tuple ats) r = HaveCleanNames ats r

  pub HaveCleanNames : (ats : Attributes) → Record ats → Type 0
  HaveCleanNames nil r = Unit
  HaveCleanNames (attribute n t ats) (v, r) =
      (has_nul n ≡ false) × HasCleanNames t v × HaveCleanNames ats r

both_empty {ℓ} : {A : Type ℓ} (xs ys : List A) → xs ++ ys ≡ [] → (xs ≡ []) × (ys ≡ [])
both_empty [] ys h = (refl, h)
both_empty (x ∷ xs) ys h = absurd (false≢true (ap is_empty h))

accepted_primitive : (p : Primitive) → primitive_errors p ≡ [] → IsPrimitive p
unfolding primitive_errors
accepted_primitive complex h = absurd (false≢true (ap is_empty h))
accepted_primitive _ h = tt

mutual
  unfolding type_errors

  accepted-IsBuildable :
      (t : SplType) (v : Value t) → type_errors t ≡ [] → HasCleanNames t v → IsBuildable t v
  accepted-IsBuildable (prim p) v h clean = accepted_primitive p h
  accepted-IsBuildable (list t) vs h clean =
      All-map (HasCleanNames t) (IsBuildable t) vs (λ v. accepted-IsBuildable t v h) clean
  accepted-IsBuildable (blist b t) vs h clean =
      All-map (HasCleanNames t) (IsBuildable t) vs (λ v. accepted-IsBuildable t v h) clean
  accepted-IsBuildable (set t) vs h clean =
      All-map (HasCleanNames t) (IsBuildable t) vs (λ v. accepted-IsBuildable t v h) clean
  accepted-IsBuildable (bset b t) vs h clean =
      All-map (HasCleanNames t) (IsBuildable t) vs (λ v. accepted-IsBuildable t v h) clean
  accepted-IsBuildable (map k t) m h clean =
      All-map _ _ m
        (λ e c.
          (c.0, accepted-IsBuildable t e.1 (both_empty (map_key_errors k) (type_errors t) h).1 c.1))
        clean
  accepted-IsBuildable (bmap b k t) m h clean =
      All-map _ _ m
        (λ e c.
          (c.0, accepted-IsBuildable t e.1 (both_empty (map_key_errors k) (type_errors t) h).1 c.1))
        clean
  accepted-IsBuildable (tuple ats) r h clean = accepted-AreBuildable ats r h clean

  accepted-AreBuildable :
      (ats : Attributes) (r : Record ats)
      → attribute_errors ats ≡ []
      → HaveCleanNames ats r
      → AreBuildable ats r
  accepted-AreBuildable nil r h clean = tt
  accepted-AreBuildable (attribute n t ats) (v, r) h (nul, clean, cleans) =
      let (here, later) = both_empty (type_errors t) (attribute_errors ats) h in
      (nul, accepted-IsBuildable t v here clean, accepted-AreBuildable ats r later cleans)
