-- ===== src/RoundTrip/Loops.antt =====
-- The generated loops of the reader (Common/QueryCommon.pm, handleBSONArray and
-- handleBSONObjectAsMap) over the fields that the builder's loops wrote.
use streamsx_mongo_db.Prelude.{
  length-append, length, ◌≡◌, refl, ap, ◌∙◌, Bool, true, false, none, List, [], ◌∷◌, ◌++◌, Bytes,
  All, bytes_eq, bytes_eq_comm, ℕ, suc, arith, if◌then◌else◌, ◌≤◌, ◌<◌, ◌+◌,
}
use mathlib.Core.List.{append-nil, append_assoc}
use streamsx_mongo_db.Bson.Document
use streamsx_mongo_db.Bson.Document.{
  BsonValue, Fields, field, first_field, append_fields, append_fields-snoc,
}
use streamsx_mongo_db.BsonCommon.Reference.{items, pairs}
use streamsx_mongo_db.QueryCommon.{read_fields, applied_if_any}
use streamsx_mongo_db.RoundTrip.Pruned.{
  collect, collect_values, or_nothing, IsFreshKey, AreEntries, Joins,
}

-- What a reader makes of a kept or dropped value: the flag is raised, or left alone.
abbrev pub outcome {ℓ} : {A : Type ℓ} → A × Bool → Bool → A × Bool
outcome (a, kept) applied = (a, if kept then true else applied)

pub outcome-false {ℓ} : {A : Type ℓ} (r : A × Bool) → outcome r false ≡ r
outcome-false (a, true) = refl
outcome-false (a, false) = refl

-- Anything may join.
abbrev pub Anything {ℓ} : {A : Type ℓ} → List A → A → Type 0
Anything xs x = Unit

pub Joins-Anything {ℓ} : {A : Type ℓ} (xs ys : List A) → Joins Anything xs ys
Joins-Anything xs [] = tt
Joins-Anything xs (y ∷ ys) = (tt, Joins-Anything (xs ++ (y ∷ [])) ys)

-- The loop over an array adds what is kept of its items, where `add` appends an item that may join
-- the list, below the limit.
module _ {ℓ κ} {A : Type ℓ} (P : List A → A → Type κ) (step : BsonValue → A × Bool)
    (add : List A → A → List A) (limit : ℕ) (g : A → BsonValue) (f : A → A × Bool)
    (adds : (xs : List A) (x : A) → P xs x → length xs < limit → add xs x ≡ xs ++ (x ∷ [])) where
  abbrev added : Fields → List A → List A
  added fs acc = read_fields step (λ vs n v. add vs v) fs acc

  keep_or_drop :
      (r : A × Bool) (k : ℕ) (fs : Fields) (acc rest : List A)
      → ((acc' : List A)
          → Joins P acc' rest
          → length acc' + k ≤ limit
          → added fs acc' ≡ acc' ++ rest)
      → Joins P acc (if r.1 then r.0 ∷ rest else rest)
      → length acc + suc k ≤ limit
      → added fs (if r.1 then add acc r.0 else acc) ≡ acc ++ (if r.1 then r.0 ∷ rest else rest)
  keep_or_drop (a, true) k fs acc rest ih (here, later) h =
      ap (added fs) (adds acc a here (omega arith))
      ∙ ih (acc ++ (a ∷ [])) later (omega (arith, length-append acc (a ∷ [])))
      ∙ append_assoc acc (a ∷ []) rest
  keep_or_drop (a, false) k fs acc rest ih later h = ih acc later (omega arith)

  pub read_fields-items :
      (i : ℕ) (xs acc : List A)
      → All (λ x. step (g x) ≡ f x) xs
      → Joins P acc (collect f xs)
      → length acc + length xs ≤ limit
      → added (items g i xs) acc ≡ acc ++ collect f xs
  unfolding read_fields items collect
  read_fields-items i [] acc h j l = rw append-nil
  read_fields-items i (x ∷ xs) acc (e, h) j l =
      ap (λ (r : A × Bool). added (items g (suc i) xs) (if r.1 then add acc r.0 else acc)) e
      ∙ keep_or_drop (f x) (length xs) (items g (suc i) xs) acc (collect f xs)
          (λ acc' j' l'. read_fields-items (suc i) xs acc' h j' l') j l

keep_or_drop_pair {ℓ κ} :
    {K : Type ℓ} {V : Type κ} (k : K) (r : V × Bool) (acc rest : List (K × V))
    → (if r.1 then acc ++ ((k, r.0) ∷ []) else acc) ++ rest
      ≡ acc ++ (if r.1 then (k, r.0) ∷ rest else rest)
keep_or_drop_pair k (v, true) acc rest = append_assoc acc ((k, v) ∷ []) rest
keep_or_drop_pair k (v, false) acc rest = refl

-- Every key of `m` is fresh in `acc`.
abbrev pub AreNew {ℓ} : {V : Type ℓ} → List (Bytes × V) → List (Bytes × V) → Type 0
AreNew [] acc = Unit
AreNew ((k, v) ∷ m) acc = IsFreshKey k acc × AreNew m acc

IsFreshKey-snoc {ℓ} :
    {V : Type ℓ} (n k : Bytes) (v : V) (acc : List (Bytes × V))
    → IsFreshKey n acc
    → bytes_eq n k ≡ false
    → IsFreshKey n (acc ++ ((k, v) ∷ []))
IsFreshKey-snoc n k v [] h e = (e, tt)
IsFreshKey-snoc n k v ((j, w) ∷ acc) h e = (h.0, IsFreshKey-snoc n k v acc h.1 e)

AreNew-snoc {ℓ} :
    {V : Type ℓ} (k : Bytes) (v : V) (m acc : List (Bytes × V))
    → AreNew m acc
    → IsFreshKey k m
    → AreNew m (acc ++ ((k, v) ∷ []))
AreNew-snoc k v [] acc h e = tt
AreNew-snoc k v ((j, w) ∷ m) acc h e =
    (IsFreshKey-snoc j k v acc h.0 (bytes_eq_comm j k ∙ e.0), AreNew-snoc k v m acc h.1 e.1)

AreNew-keep {ℓ} :
    {V : Type ℓ} (k : Bytes) (r : V × Bool) (m acc : List (Bytes × V))
    → AreNew m acc
    → IsFreshKey k m
    → AreNew m (if r.1 then acc ++ ((k, r.0) ∷ []) else acc)
AreNew-keep k (v, true) m acc h e = AreNew-snoc k v m acc h e
AreNew-keep k (v, false) m acc h e = h

pub AreNew-nil {ℓ} : {V : Type ℓ} (m : List (Bytes × V)) → AreNew m []
AreNew-nil [] = tt
AreNew-nil ((k, v) ∷ m) = (tt, AreNew-nil m)

length-keep {ℓ} :
    {A : Type ℓ} (b : Bool) (a : A) (acc : List A)
    → length (if b then acc ++ (a ∷ []) else acc) ≤ suc (length acc)
length-keep true a acc = omega (arith, length-append acc (a ∷ []))
length-keep false a acc = omega arith

-- The loop over an object adds what is kept of its entries, under their keys, where `add` appends an
-- entry with a fresh key, below the limit.
pub read_fields-pairs {ℓ} :
    {V : Type ℓ} (P : V → Type 0) (step : BsonValue → V × Bool)
    (add : List (Bytes × V) → Bytes → V → List (Bytes × V)) (limit : ℕ) (g : V → BsonValue)
    (f : V → V × Bool)
    → ((m : List (Bytes × V)) (n : Bytes) (v : V)
        → IsFreshKey n m
        → length m < limit
        → add m n v ≡ m ++ ((n, v) ∷ []))
    → ((v : V) → P v → step (g v) ≡ f v)
    → (m acc : List (Bytes × V)) → AreEntries P m
    → AreNew m acc
    → length acc + length m ≤ limit
    → read_fields step add (pairs (λ k. k) g m) acc ≡ acc ++ collect_values f m
unfolding read_fields pairs collect_values
read_fields-pairs P step add limit g f fresh ih [] acc h new l = rw append-nil
read_fields-pairs {V = V} P step add limit g f fresh ih ((k, v) ∷ m) acc (hv, hk, h) new l =
    ap
      (λ (r : V × Bool).
        read_fields step add (pairs (λ k. k) g m) (if r.1 then add acc k r.0 else acc))
      (ih v hv)
    ∙ ap
        (λ (added : List (Bytes × V)).
          read_fields step add (pairs (λ k. k) g m) (if (f v).1 then added else acc))
        (fresh acc k (f v).0 new.0 (omega arith))
    ∙ read_fields-pairs P step add limit g f fresh ih m
        (if (f v).1 then acc ++ ((k, (f v).0) ∷ []) else acc) h (AreNew-keep k (f v) m acc new.1 hk)
        (omega (arith, length-keep (f v).1 (k, (f v).0) acc))
    ∙ keep_or_drop_pair k (f v) acc (collect_values f m)

pub first_field-append :
    (fs gs : Fields) (n : Bytes)
    → first_field fs n ≡ none
    → first_field (append_fields fs gs) n ≡ first_field gs n
unfolding first_field append_fields
first_field-append Document.nil gs n h = refl
first_field-append (field m v fs) gs n h = ground (arith, first_field-append fs gs n)

pub applied_if_any-outcome {ℓ} :
    {A : Type ℓ} (xs : List A) (applied : Bool)
    → applied_if_any xs applied ≡ outcome (or_nothing xs) applied
unfolding applied_if_any
applied_if_any-outcome [] applied = refl
applied_if_any-outcome (x ∷ xs) applied = refl
