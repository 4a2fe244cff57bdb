-- ===== src/Bson/Canonical.antt =====
-- The order of types (`canonicalizeBSONType`, com.ibm.streamsx.mongodb/impl/include/mongo/bson/
-- bsontypes.h), the order of elements and their truth (bson/bsonelement.h).
use mathlib.Core.Bool.{false≢true}
use streamsx_mongo_db.Prelude.{
  ℕ, ◌==◌, not, ◌≡◌, refl, ◌∙◌, ap, sym, Bool, true, false, if◌then◌else◌, arith,
}
use streamsx_mongo_db.Prelude.Int.{ℤ, pos, negsuc, ltb_ℤ}
use streamsx_mongo_db.Bson.Types.{BsonType}
use streamsx_mongo_db.Bson.Document
use streamsx_mongo_db.Bson.Document.{BsonValue, type_of}

-- Min and max keys stand for their own type bytes.
unfoldable pub canonicalize_bson_type : BsonType → ℤ
canonicalize_bson_type BsonType.min_key = negsuc 0
canonicalize_bson_type BsonType.max_key = pos 127
canonicalize_bson_type BsonType.eoo = pos 0
canonicalize_bson_type BsonType.undefined = pos 0
canonicalize_bson_type BsonType.jst_null = pos 5
canonicalize_bson_type BsonType.number_double = pos 10
canonicalize_bson_type BsonType.number_int = pos 10
canonicalize_bson_type BsonType.number_long = pos 10
canonicalize_bson_type BsonType.string = pos 15
canonicalize_bson_type BsonType.symbol = pos 15
canonicalize_bson_type BsonType.object = pos 20
canonicalize_bson_type BsonType.array = pos 25
canonicalize_bson_type BsonType.bin_data = pos 30
canonicalize_bson_type BsonType.jst_oid = pos 35
canonicalize_bson_type BsonType.bool = pos 40
canonicalize_bson_type BsonType.date = pos 45
canonicalize_bson_type BsonType.timestamp = pos 47
canonicalize_bson_type BsonType.reg_ex = pos 50
canonicalize_bson_type BsonType.db_ref = pos 55
canonicalize_bson_type BsonType.code = pos 60
canonicalize_bson_type BsonType.code_w_scope = pos 65

-- `operator<`: the values are compared where the types do not decide, by compiled code.
unfoldable pub element_less : (BsonValue → BsonValue → ℤ) → BsonValue → BsonValue → Bool
unfolding canonicalize_bson_type
element_less compare_values a b =
    let x = canonicalize_bson_type (type_of a) in
    let y = canonicalize_bson_type (type_of b) in
    if ltb_ℤ x y then true else if ltb_ℤ y x then false else ltb_ℤ (compare_values a b) (pos 0)

-- The pattern of the double 0 or of -0.
abbrev pub is_zero_double : ℕ → Bool
is_zero_double d = if d == 0 then true else d == 9_223_372_036_854_775_808

unfoldable pub is_zero_int : ℤ → Bool
is_zero_int (pos n) = n == 0
is_zero_int (negsuc n) = false

unfoldable pub true_value : BsonValue → Bool
unfolding is_zero_int
true_value (Document.number_long n) = not (is_zero_int n)
true_value (Document.number_double d) = not (is_zero_double d)
true_value (Document.number_int n) = not (is_zero_int n)
true_value (Document.bool b) = b
true_value Document.jst_null = false
true_value Document.undefined = false
true_value _ = true

less_by :
    (p q c d : Bool)
    → (p ≡ true → q ≡ false)
    → (c ≡ true → d ≡ false)
    → (if p then true else (if q then false else c)) ≡ true
    → (if q then true else (if p then false else d)) ≡ false
less_by true true c d pq h l = absurd (false≢true (sym (pq refl)))
less_by true false c d pq h l = refl
less_by false true c d pq h l = absurd (false≢true l)
less_by false false c d pq h l = h l

ltb_ℤ-asymmetric : (x y : ℤ) → ltb_ℤ x y ≡ true → ltb_ℤ y x ≡ false
ltb_ℤ-asymmetric x y h = ground arith

-- The order of elements is asymmetric where the comparison of two values is.
pub element_less-asymmetric :
    (compare_values : BsonValue → BsonValue → ℤ) (a b : BsonValue)
    → (ltb_ℤ (compare_values a b) (pos 0) ≡ true → ltb_ℤ (compare_values b a) (pos 0) ≡ false)
    → element_less compare_values a b ≡ true
    → element_less compare_values b a ≡ false
unfolding element_less
element_less-asymmetric compare_values a b h l =
    let x = canonicalize_bson_type (type_of a) in
    let y = canonicalize_bson_type (type_of b) in
    less_by (ltb_ℤ x y) (ltb_ℤ y x) (ltb_ℤ (compare_values a b) (pos 0))
      (ltb_ℤ (compare_values b a) (pos 0)) (ltb_ℤ-asymmetric x y) h l

-- The classes of types whose elements are compared by value.
pub data TypeClass : Type 0 where
  no_value null number text : TypeClass
  single : BsonType → TypeClass

abbrev class_of : BsonType → TypeClass
class_of BsonType.eoo = no_value
class_of BsonType.undefined = no_value
class_of BsonType.jst_null = null
class_of BsonType.number_double = number
class_of BsonType.number_int = number
class_of BsonType.number_long = number
class_of BsonType.string = text
class_of BsonType.symbol = text
class_of t = single t

-- The class that a canonical number stands for.
class_at : ℤ → TypeClass
class_at (negsuc n) = single BsonType.min_key
class_at (pos n) =
    if n == 0
    then no_value
    else if n == 5
    then null
    else if n == 10
    then number
    else if n == 15
    then text
    else if n == 20
    then single BsonType.object
    else if n == 25
    then single BsonType.array
    else if n == 30
    then single BsonType.bin_data
    else if n == 35
    then single BsonType.jst_oid
    else if n == 40
    then single BsonType.bool
    else if n == 45
    then single BsonType.date
    else if n == 47
    then single BsonType.timestamp
    else if n == 50
    then single BsonType.reg_ex
    else if n == 55
    then single BsonType.db_ref
    else if n == 60
    then single BsonType.code
    else if n == 65
    then single BsonType.code_w_scope
    else single BsonType.max_key

class_at-canonicalize_bson_type : (t : BsonType) → class_at (canonicalize_bson_type t) ≡ class_of t
unfolding canonicalize_bson_type class_at
class_at-canonicalize_bson_type BsonType.min_key = refl
class_at-canonicalize_bson_type _ = refl

-- Types with the same canonical number are of one class: both numbers, both texts, both without a
-- value, or the same type.
class_of-canonicalize_bson_type :
    (s t : BsonType) → canonicalize_bson_type s ≡ canonicalize_bson_type t → class_of s ≡ class_of t
class_of-canonicalize_bson_type s t e =
    sym (class_at-canonicalize_bson_type s) ∙ ap class_at e ∙ class_at-canonicalize_bson_type t
