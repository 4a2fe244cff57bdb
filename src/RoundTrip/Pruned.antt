-- ===== src/RoundTrip/Pruned.antt =====
-- The value that is read back: the same, less the collections inside collections that hold nothing.
use streamsx_mongo_db.Prelude.{
  ◌≡◌, Bool, true, false, not, List, [], ◌∷◌, ◌++◌, Bytes, All, bytes_eq, is_empty, if◌then◌else◌,
  ℕ, ◌≢◌, length, ◌≤◌, ◌<◌,
}
use streamsx_mongo_db.Prelude.Words.{InSigned, InUnsigned}
use streamsx_mongo_db.Prelude.Int.{pos, ◌*ℤ◌}
use streamsx_mongo_db.Spl.Types.{
  Primitive, SplType, Attributes, Value, Record, PrimValue, float32, float64, decimal, complex,
  timestamp, rstring, ustring, blob, xml, «enum», signed, unsigned, prim, list, map, tuple, nil,
  attribute, blist, set, bset, bmap,
}
use streamsx_mongo_db.Spl.Runtime.{Runtime}
use streamsx_mongo_db.BsonCommon.{millis_of}
use streamsx_mongo_db.QueryCommon.{contains, quot, rem}

-- What is kept of the items.
unfoldable pub collect {ℓ} : {A : Type ℓ} → (A → A × Bool) → List A → List A
collect f [] = []
collect f (x ∷ xs) = let rest = collect f xs in if (f x).1 then (f x).0 ∷ rest else rest

unfoldable pub collect_values {ℓ κ} :
    {K : Type ℓ} {V : Type κ} → (V → V × Bool) → List (K × V) → List (K × V)
collect_values f [] = []
collect_values f ((k, v) ∷ m) =
    let rest = collect_values f m in if (f v).1 then (k, (f v).0) ∷ rest else rest

abbrev pub or_nothing {ℓ} : {A : Type ℓ} → List A → List A × Bool
or_nothing xs = (xs, not (is_empty xs))

-- The value that is left, and whether anything is.
unfoldable mutual
  unfolding collect collect_values

  pub pruned : (t : SplType) → Value t → Value t × Bool
  pruned (prim p) v = (v, true)
  pruned (list t) vs = or_nothing (collect (pruned t) vs)
  pruned (blist b t) vs = or_nothing (collect (pruned t) vs)
  pruned (set t) vs = or_nothing (collect (pruned t) vs)
  pruned (bset b t) vs = or_nothing (collect (pruned t) vs)
  pruned (map k t) m = or_nothing (collect_values (pruned t) m)
  pruned (bmap b k t) m = or_nothing (collect_values (pruned t) m)
  pruned (tuple ats) r = (pruned_record ats r, true)

  pub pruned_record : (ats : Attributes) → Record ats → Record ats
  pruned_record nil r = r
  pruned_record (attribute n t ats) (v, r) = ((pruned t v).0, pruned_record ats r)

abbrev pub IsFreshKey {ℓ} : {V : Type ℓ} → Bytes → List (Bytes × V) → Type 0
IsFreshKey n [] = Unit
IsFreshKey n ((k, v) ∷ m) = (bytes_eq n k ≡ false) × IsFreshKey n m

abbrev pub IsFreshName : Bytes → Attributes → Type 0
IsFreshName n nil = Unit
IsFreshName n (attribute m t ats) = (bytes_eq n m ≡ false) × IsFreshName n ats

-- A member that a set lacks.
abbrev pub IsNew {ℓ} : {A : Type ℓ} → List A → A → Type ℓ
IsNew xs x = All (λ y. x ≢ y) xs

-- What the SPL collections' `add` is documented to do: a list grows at its end; a set gains a member
-- that it lacks and a map an entry whose key it lacks; and a bounded collection does so below its
-- bound.
pub record AddsFresh (R : Runtime) : Type 0 where
  pub blist_adds :
      (b : ℕ) (t : SplType) (vs : List (Value t)) (v : Value t)
      → length vs < b
      → R.bounded_add b t vs v ≡ vs ++ (v ∷ [])
  pub set_adds :
      (t : SplType) (vs : List (Value t)) (v : Value t)
      → IsNew vs v
      → R.set_add t vs v ≡ vs ++ (v ∷ [])
  pub bset_adds :
      (b : ℕ) (t : SplType) (vs : List (Value t)) (v : Value t)
      → IsNew vs v
      → length vs < b
      → R.bounded_set_add b t vs v ≡ vs ++ (v ∷ [])
  pub map_adds :
      (t : SplType) (m : List (Bytes × Value t)) (n : Bytes) (v : Value t)
      → IsFreshKey n m
      → R.map_add t m n v ≡ m ++ ((n, v) ∷ [])
  pub bmap_adds :
      (b : ℕ) (t : SplType) (m : List (Bytes × Value t)) (n : Bytes) (v : Value t)
      → IsFreshKey n m
      → length m < b
      → R.bounded_map_add b t m n v ≡ m ++ ((n, v) ∷ [])

-- The values of a primitive type that survive. Integers must lie in their type's range and an
-- enumeration's value in its list; a conversion must lose nothing on the way there and back.
abbrev pub Survives : Runtime → (p : Primitive) → PrimValue p → Type 0
Survives R Primitive.boolean v = Unit
Survives R float64 v = Unit
Survives R rstring v = Unit
Survives R float32 v = R.float32_of_double (R.double_of_float32 v) ≡ v
Survives R decimal v = R.decimal_of_double (R.double_of_decimal v) ≡ v
Survives R ustring v = R.ustring_of_string (R.rstring_of_ustring v) ≡ v
Survives R xml v = R.xml_of_string (R.rstring_of_xml v) ≡ v
Survives R («enum» names) v = contains names v ≡ true
Survives R (signed w) v = InSigned w v
Survives R (unsigned w) v = InUnsigned w v
Survives R timestamp v =
    R.create_timestamp (quot (millis_of v) 1000) (rem (millis_of v) 1000 *ℤ pos 1_000_000) ≡ v
Survives R complex v = ⊥
Survives R blob v = ⊥

-- Every value of a map is as wanted, and no key comes twice.
abbrev pub AreEntries {ℓ} : {V : Type ℓ} → (V → Type 0) → List (Bytes × V) → Type 0
AreEntries P [] = Unit
AreEntries P ((k, v) ∷ m) = P v × IsFreshKey k m × AreEntries P m

-- The items `ys` may join the list `xs` one after the other.
abbrev pub Joins {ℓ κ} : {A : Type ℓ} → (List A → A → Type κ) → List A → List A → Type κ
Joins P xs [] = Unit
Joins P xs (y ∷ ys) = P xs y × Joins P (xs ++ (y ∷ [])) ys

-- Values whose primitive parts survive, with byte strings for a map's keys. A set's members stay
-- distinct when they are pruned, a map holds a key once, and a tuple type an attribute's name; a
-- bounded collection keeps to its bound.
module _ (R : Runtime) where
  abbrev mutual
    pub IsReadable : (t : SplType) → Value t → Type 0
    IsReadable (prim p) v = Survives R p v
    IsReadable (list t) vs = All (IsReadable t) vs
    IsReadable (blist b t) vs = All (IsReadable t) vs × (length vs ≤ b)
    IsReadable (set t) vs = All (IsReadable t) vs × Joins IsNew [] (collect (pruned t) vs)
    IsReadable (bset b t) vs =
        All (IsReadable t) vs × Joins IsNew [] (collect (pruned t) vs) × (length vs ≤ b)
    IsReadable (map (prim rstring) t) m = AreEntries (IsReadable t) m
    IsReadable (bmap b (prim rstring) t) m = AreEntries (IsReadable t) m × (length m ≤ b)
    IsReadable (tuple ats) r = AreReadable ats r
    IsReadable _ v = ⊥

    pub AreReadable : (ats : Attributes) → Record ats → Type 0
    AreReadable nil r = Unit
    AreReadable (attribute n t ats) (v, r) = IsReadable t v × IsFreshName n ats × AreReadable ats r
