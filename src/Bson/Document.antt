-- ===== src/Bson/Document.antt =====
-- BSON documents as data: an element's value with its type, and the fields of an object in order.
-- A double is its 64-bit pattern, which no operator looks into; a date is its millisecond count.
use streamsx_mongo_db.Prelude.{
  ℕ, ◌≡◌, refl, ap, Bool, Option, none, some, Bytes, bytes_eq, if◌then◌else◌,
}
use streamsx_mongo_db.Prelude.Int.{ℤ}
use streamsx_mongo_db.Bson.Types.{BsonType}

mutual
  pub data BsonValue : Type 0 where
    number_double : ℕ → BsonValue
    string : Bytes → BsonValue
    object array : Fields → BsonValue
    bin_data : ℕ → Bytes → BsonValue
    jst_oid : Bytes → BsonValue
    bool : Bool → BsonValue
    date : ℤ → BsonValue
    undefined jst_null min_key max_key : BsonValue
    reg_ex : Bytes → Bytes → BsonValue
    db_ref : Bytes → Bytes → BsonValue
    code symbol : Bytes → BsonValue
    code_w_scope : Bytes → Fields → BsonValue
    number_int : ℤ → BsonValue
    timestamp : ℕ → ℕ → BsonValue
    number_long : ℤ → BsonValue

  pub data Fields : Type 0 where
    nil : Fields
    field : Bytes → BsonValue → Fields → Fields

-- `BSONElement::type`.
abbrev pub type_of : BsonValue → BsonType
type_of (number_double d) = BsonType.number_double
type_of (string s) = BsonType.string
type_of (object fs) = BsonType.object
type_of (array fs) = BsonType.array
type_of (bin_data k bs) = BsonType.bin_data
type_of (jst_oid o) = BsonType.jst_oid
type_of (bool b) = BsonType.bool
type_of (date ms) = BsonType.date
type_of undefined = BsonType.undefined
type_of jst_null = BsonType.jst_null
type_of min_key = BsonType.min_key
type_of max_key = BsonType.max_key
type_of (reg_ex p f) = BsonType.reg_ex
type_of (db_ref n o) = BsonType.db_ref
type_of (code c) = BsonType.code
type_of (symbol s) = BsonType.symbol
type_of (code_w_scope c s) = BsonType.code_w_scope
type_of (number_int n) = BsonType.number_int
type_of (timestamp s i) = BsonType.timestamp
type_of (number_long n) = BsonType.number_long

-- What a look-up by name promises: the first field that bears it.
unfoldable pub first_field : Fields → Bytes → Option BsonValue
first_field nil n = none
first_field (field m v fs) n = if bytes_eq m n then some v else first_field fs n

unfoldable pub append_fields : Fields → Fields → Fields
append_fields nil gs = gs
append_fields (field n v fs) gs = field n v (append_fields fs gs)

pub append_fields-nil : (fs : Fields) → append_fields fs nil ≡ fs
unfolding append_fields
append_fields-nil nil = refl
append_fields-nil (field n v fs) = ap (field n v) (append_fields-nil fs)

pub append_fields_assoc :
    (fs gs hs : Fields)
    → append_fields (append_fields fs gs) hs ≡ append_fields fs (append_fields gs hs)
unfolding append_fields
append_fields_assoc nil gs hs = refl
append_fields_assoc (field n v fs) gs hs = ap (field n v) (append_fields_assoc fs gs hs)

-- A field that was appended last stands in front of what is appended next.
pub append_fields-snoc :
    (fs : Fields) (n : Bytes) (v : BsonValue) (gs : Fields)
    → append_fields (append_fields fs (field n v nil)) gs ≡ append_fields fs (field n v gs)
unfolding append_fields
append_fields-snoc nil n v gs = refl
append_fields-snoc (field m w fs) n v gs = ap (field m w) (append_fields-snoc fs n v gs)
