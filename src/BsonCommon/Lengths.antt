-- ===== src/BsonCommon/Lengths.antt =====
-- The lengths of the elements of a reference document (BsonCommon/Reference) and of what they hold.
use streamsx_mongo_db.Prelude.{
  ℕ, suc, ◌≤◌, List, [], ◌∷◌, ◌++◌, Bytes, All, length, length-append, arith,
}
use streamsx_mongo_db.Bson.Document.{BsonValue, Fields, field, type_of}
use streamsx_mongo_db.Bson.Builder.{num_str}
use streamsx_mongo_db.BsonCommon.Reference.{items, pairs}
use streamsx_mongo_db.Wire.Appends.{header_bytes}
use streamsx_mongo_db.Wire.Elements.{value_bytes, elements_bytes}

pub length-field :
    (n : Bytes) (v : BsonValue) (fs : Fields) (k : ℕ)
    → length (elements_bytes (field n v fs)) ≤ k
    → (length (value_bytes v) ≤ k) × (length (elements_bytes fs) ≤ k)
length-field n v fs k h =
    let head = header_bytes (type_of v) n in
    let total = length-append (head ++ value_bytes v) (elements_bytes fs) in
    let first = length-append head (value_bytes v) in
    (omega (arith, h, total, first), omega (arith, h, total, first))

-- The value of each item, or of each entry, is no longer than the elements.
pub items_within {ℓ κ} :
    {A : Type ℓ} (P : A → Type κ) (g : A → BsonValue) (i : ℕ) (xs : List A) (k : ℕ)
    → All P xs
    → length (elements_bytes (items g i xs)) ≤ k
    → All (λ x. P x × (length (value_bytes (g x)) ≤ k)) xs
unfolding items
items_within P g i [] k h l = tt
items_within P g i (x ∷ xs) k (hx, h) l =
    let (here, later) = length-field (num_str i) (g x) (items g (suc i) xs) k l in
    ((hx, here), items_within P g (suc i) xs k h later)

pub pairs_within {ℓ κ μ} :
    {K : Type ℓ} {V : Type κ} (P : K × V → Type μ) (name : K → Bytes) (g : V → BsonValue)
    (kvs : List (K × V)) (k : ℕ)
    → All P kvs
    → length (elements_bytes (pairs name g kvs)) ≤ k
    → All (λ (e : K × V). P e × (length (value_bytes (g e.1)) ≤ k)) kvs
unfolding pairs
pairs_within P name g [] k h l = tt
pairs_within P name g ((key, v) ∷ kvs) k (hx, h) l =
    let (here, later) = length-field (name key) (g v) (pairs name g kvs) k l in
    ((hx, here), pairs_within P name g kvs k h later)
