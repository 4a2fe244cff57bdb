-- ===== src/Bson/Directions.antt =====
-- What an Ordering made from a key pattern says of each key.
use streamsx_mongo_db.Prelude.{
  ltb, ◌%◌, ℕ, zero, suc, ◌+◌, ◌/◌, ◌≡◌, ◌≤◌, ◌<◌, ◌⊎◌, inl, inr, refl, ap, ◌∙◌, Bool, true, false,
  ◌&&◌, Option, none, some, arith, leb, ◌==◌, if◌then◌else◌, Bool-cases, Bytes,
}
use streamsx_mongo_db.Prelude.Int.{ℤ, pos, negsuc, ltb_ℤ}
use streamsx_mongo_db.Bson.Document.{
  Fields, nil, field, BsonValue, number_double, number_int, number_long,
}
use streamsx_mongo_db.Bson.Element.{Conversions, number}
use streamsx_mongo_db.Bson.Ordering.{
  is_negative_double, test_bit, set_bit, and_bits, Ordering, get, descending, make_from, make,
}

-- Whether a key descends, by its value: a double by sign and magnitude, which is neither zero nor
-- beyond infinity; an integer by its sign; and no other value.
abbrev pub is_descending : BsonValue → Bool
is_descending (number_double d) =
    (d / 9_223_372_036_854_775_808 == 1)
    && (ltb 0 (d % 9_223_372_036_854_775_808)
        && leb (d % 9_223_372_036_854_775_808) 9_218_868_437_227_405_312)
is_descending (number_int z) = ltb_ℤ z (pos 0)
is_descending (number_long z) = ltb_ℤ z (pos 0)
is_descending _ = false

-- The direction of a key; a key that the pattern does not have ascends.
abbrev pub key_direction : Fields → ℕ → ℤ
key_direction nil i = pos 1
key_direction (field name v fs) zero = if is_descending v then negsuc 0 else pos 1
key_direction (field name v fs) (suc i) = key_direction fs i

unfoldable pub count_keys : Fields → ℕ
count_keys nil = 0
count_keys (field name v fs) = suc (count_keys fs)

-- C++'s conversion of an integer to a double keeps its sign.
abbrev pub KeepsSign : Conversions → Type 0
KeepsSign C = (z : ℤ) → is_negative_double (C.to_double z) ≡ ltb_ℤ z (pos 0)

is_negative_double-number :
    (C : Conversions) (v : BsonValue)
    → KeepsSign C
    → is_negative_double (number C v) ≡ is_descending v
unfolding is_negative_double number
is_negative_double-number C (number_double d) keeps = ground arith
is_negative_double-number C (number_int z) keeps = keeps z
is_negative_double-number C (number_long z) keeps = keeps z
is_negative_double-number C _ keeps = refl

test_bit-set_bit : (i b : ℕ) → test_bit i (set_bit i b) ≡ true
unfolding test_bit set_bit
test_bit-set_bit zero b = ground arith
test_bit-set_bit (suc i) b = ap (test_bit i) (omega arith) ∙ test_bit-set_bit i (b / 2)

-- The bits of other places stay.
test_bit-set_bit_other : (i j b : ℕ) → (i == j) ≡ false → test_bit i (set_bit j b) ≡ test_bit i b
unfolding test_bit set_bit
test_bit-set_bit_other zero zero b h = ground arith
test_bit-set_bit_other zero (suc j) b h = ground arith
test_bit-set_bit_other (suc i) zero b h = ap (test_bit i) (omega arith)
test_bit-set_bit_other (suc i) (suc j) b h =
    ap (test_bit i) (omega arith) ∙ test_bit-set_bit_other i j (b / 2) (ground (arith, h))

test_bit-zero : (i : ℕ) → test_bit i 0 ≡ false
unfolding test_bit
test_bit-zero zero = refl
test_bit-zero (suc i) = test_bit-zero i

test_bit-and_bits :
    (w i a b : ℕ) → i < w → test_bit i (and_bits w a b) ≡ (test_bit i a && test_bit i b)
unfolding test_bit and_bits
test_bit-and_bits zero i a b h = ground arith
test_bit-and_bits (suc w) zero a b h = ground arith
test_bit-and_bits (suc w) (suc i) a b h =
    ap (test_bit i) (ground arith) ∙ test_bit-and_bits w i (a / 2) (b / 2) (omega arith)

-- What the loop of `make` does: the bits of the keys before stay, and those from `n` on are the
-- keys that are left.
abbrev Directs : Fields → ℕ → ℕ → Ordering → Type 0
Directs fs n b o =
    ((i : ℕ) → i < n → test_bit i o.bits ≡ test_bit i b)
    × ((i j : ℕ) → i ≡ n + j → (if test_bit i o.bits then negsuc 0 else pos 1) ≡ key_direction fs j)

abbrev IsClearFrom : ℕ → ℕ → Type 0
IsClearFrom n b = (i : ℕ) → n ≤ i → test_bit i b ≡ false

set_bit-IsClearFrom : (n b : ℕ) → IsClearFrom n b → IsClearFrom (suc n) (set_bit n b)
set_bit-IsClearFrom n b c i h = test_bit-set_bit_other i n b (ground arith) ∙ c i (omega arith)

abbrev next_bits : Bool → ℕ → ℕ → ℕ
next_bits neg n b = if neg then set_bit n b else b

next_bits-IsClearFrom :
    (neg : Bool) (n b : ℕ) → IsClearFrom n b → IsClearFrom (suc n) (next_bits neg n b)
next_bits-IsClearFrom true n b c = set_bit-IsClearFrom n b c
next_bits-IsClearFrom false n b c = λ i h. c i (omega arith)

test_bit-next_bits_below :
    (neg : Bool) (n b i : ℕ) → i < n → test_bit i (next_bits neg n b) ≡ test_bit i b
test_bit-next_bits_below true n b i h = test_bit-set_bit_other i n b (ground arith)
test_bit-next_bits_below false n b i h = refl

test_bit-next_bits : (neg : Bool) (n b : ℕ) → IsClearFrom n b → test_bit n (next_bits neg n b) ≡ neg
test_bit-next_bits true n b c = test_bit-set_bit n b
test_bit-next_bits false n b c = c n (omega arith)

get-first :
    (name : Bytes) (v : BsonValue) (fs : Fields) (n b : ℕ)
    → IsClearFrom n b
    → (o : Ordering)
    → ((i : ℕ) → i < suc n → test_bit i o.bits ≡ test_bit i (next_bits (is_descending v) n b))
    → ((i j : ℕ)
        → i ≡ suc n + j
        → (if test_bit i o.bits then negsuc 0 else pos 1) ≡ key_direction fs j)
    → (i j : ℕ) → i ≡ n + j
    → (if test_bit i o.bits then negsuc 0 else pos 1) ≡ key_direction (field name v fs) j
get-first name v fs n b c o below above i zero e =
    let same : i ≡ n = omega arith in
    ap (λ t. if t then negsuc 0 else pos 1)
      (ap (λ k. test_bit k o.bits) same
        ∙ below n (omega arith)
        ∙ test_bit-next_bits (is_descending v) n b c)
get-first name v fs n b c o below above i (suc j) e = above i j (omega arith)

make_from_step :
    (C : Conversions) (name : Bytes) (v : BsonValue) (fs : Fields) (n b : ℕ)
    → KeepsSign C
    → n ≤ 31
    → make_from C (field name v fs) n b ≡ make_from C fs (suc n) (next_bits (is_descending v) n b)
unfolding make_from
make_from_step C name v fs n b keeps h =
    let few : leb n 31 ≡ true = ground (arith, h) in
    rw (few)
      (ap (λ neg. make_from C fs (suc n) (next_bits neg n b)) (is_negative_double-number C v keeps))

make_from-Directs :
    (C : Conversions) (fs : Fields) (n b : ℕ)
    → KeepsSign C
    → IsClearFrom n b
    → n + count_keys fs ≤ 32
    → (o : Ordering) × (make_from C fs n b ≡ some o) × Directs fs n b o
unfolding make_from count_keys
make_from-Directs C nil n b keeps c h = (
  record { bits = b },
  refl,
  ((λ i l. refl), λ i j e. ap (λ t. if t then negsuc 0 else pos 1) (c i (omega arith))),
)
make_from-Directs C (field name v fs) n b keeps c h =
    let neg = is_descending v in
    let (o, e, (below, above)) =
      make_from-Directs C fs (suc n) (next_bits neg n b) keeps (next_bits-IsClearFrom neg n b c)
        (omega arith) in
    (
      o,
      make_from_step C name v fs n b keeps (omega arith) ∙ e,
      (
        (λ i l. below i (omega arith) ∙ test_bit-next_bits_below neg n b i l),
        get-first name v fs n b c o below above,
      ),
    )

make_from-too_many :
    (C : Conversions) (fs : Fields) (n b : ℕ)
    → n ≤ 32
    → 32 < n + count_keys fs
    → make_from C fs n b ≡ none
unfolding make_from count_keys
make_from-too_many C nil n b l h = ground arith
make_from-too_many C (field name v fs) n b l h =
    ground
      (arith, make_from-too_many C fs (suc n) (next_bits (is_negative_double (number C v)) n b))

masked :
    (a m : Bool)
    → (if a && m then negsuc 0 else pos 1) ≡ (if m then (if a then negsuc 0 else pos 1) else pos 1)
masked a m = ground arith

-- What `make` answers for a pattern: with at most 32 keys an ordering whose `get` gives each key's
-- direction, as do the bits that `descending` keeps, and with more an error.
abbrev pub IsOrdered : Fields → Option Ordering → Type 0
IsOrdered fs r =
    ((count_keys fs ≤ 32)
      × (o : Ordering) × (r ≡ some o)
      × ((i : ℕ) → get o i ≡ (if ltb i 32 then some (key_direction fs i) else none))
      × ((mask i : ℕ)
          → i < 32
          → (if test_bit i (descending o mask) then negsuc 0 else pos 1)
            ≡ (if test_bit i mask then key_direction fs i else pos 1)))
    ⊎ ((32 < count_keys fs) × (r ≡ none))

-- From a key pattern, `make` fails exactly if there are more than 32 keys. Else `get` of a place
-- below 32 (the shift is undefined from there on) is -1 for a key whose value is a double below zero
-- or a negative integer and 1 for every other, and of the bits below 32 `descending` keeps those that
-- its mask selects and whose key's value is such a number. C++'s conversion of an integer to a double
-- keeps the sign.
pub make-IsOrdered : (C : Conversions) (fs : Fields) → KeepsSign C → IsOrdered fs (make C fs)
unfolding make get descending
make-IsOrdered C fs keeps = elim (Bool-cases (leb (count_keys fs) 32)) [
  | inl few ↦
      let (o, e, (below, ordered)) =
        make_from-Directs C fs 0 0 keeps (λ i l. test_bit-zero i) (ground arith) in
      inl (
        (ground arith),
        o,
        e,
        (λ i. ap (λ d. if ltb i 32 then some d else none) (ordered i i (omega arith))),
        λ mask i l.
            ap (λ t. if t then negsuc 0 else pos 1) (test_bit-and_bits 32 i o.bits mask l)
            ∙ masked (test_bit i o.bits) (test_bit i mask)
            ∙ ap (λ k. if test_bit i mask then k else pos 1) (ordered i i (omega arith)),
      )
  | inr many ↦ inr ((ground arith), make_from-too_many C fs 0 0 (ground arith) (ground arith))
]
