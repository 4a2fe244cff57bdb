-- ===== src/BsonCommon.antt =====
-- Common/BSONCommon.pm (under com.ibm.streamsx.mongodb/com.ibm.streamsx.mongodb): from an SPL value
-- to a BSON document. The Perl functions recur on the type of an expression and print C++ that
-- recurs on its value; a definition here is the two together, and returns what the printed code
-- computes.
pub mod Reference
pub mod Total
pub mod OnBytes
pub mod Runs
pub mod Lengths
pub mod Encoded
use streamsx_mongo_db.Prelude.{◌/◌, Bool, true, false, Option, none, some, List, [], ◌∷◌, Bytes}
use streamsx_mongo_db.Prelude.Int.{ℤ, pos, ◌+ℤ◌, ◌*ℤ◌}
use streamsx_mongo_db.Prelude.Words.{w8, w16, w32, w64, wrap_signed}
use streamsx_mongo_db.Spl.Types.{
  Primitive, SplType, Attributes, Value, Record, PrimValue, SplTimestamp, boolean, float32, float64,
  decimal, complex, timestamp, rstring, ustring, blob, xml, «enum», signed, unsigned, prim, list,
  blist, set, bset, map, bmap, tuple, nil, attribute,
}
use streamsx_mongo_db.Spl.Runtime.{Runtime}
use streamsx_mongo_db.Bson.Document.{Fields}
use streamsx_mongo_db.Bson.Document
use streamsx_mongo_db.Bson.Builder
use streamsx_mongo_db.Bson.Builder.{
  Result, ok, err, unsupported_type, key_not_string, no_overload, ◌>>=◌, Argument, sub_object,
  bson_array, bool_arg, int_arg, unsigned_arg, long_long_arg, double_arg, date_arg, string_arg,
  bin_data_arg, ArrayBuilder, empty_array, append_item,
}
use streamsx_mongo_db.Bson.Element.{Library}

-- The name of the builder's method that the caller is to use.
pub data AppendFunction : Type 0 where
  append append_array : AppendFunction

-- Milliseconds, in the 64-bit arithmetic of the printed expression.
unfoldable pub millis_of : SplTimestamp → ℤ
unfolding wrap_signed ◌+ℤ◌ ◌*ℤ◌
millis_of t = wrap_signed w64 (t.seconds *ℤ pos 1000 +ℤ pos (t.nanoseconds / 1_000_000))

-- Integers below 32 bits are promoted to `int`.
unfoldable pub handle_primitive : Runtime → (p : Primitive) → PrimValue p → Result Argument
unfolding millis_of wrap_signed
handle_primitive R complex v = err unsupported_type
handle_primitive R blob v = ok (bin_data_arg 0 v)
handle_primitive R decimal v = ok (double_arg (R.double_of_decimal v))
handle_primitive R («enum» names) v = ok (string_arg v)
handle_primitive R (signed w64) v = ok (long_long_arg (wrap_signed w64 v))
handle_primitive R (unsigned w64) v = ok (long_long_arg (wrap_signed w64 v))
handle_primitive R timestamp v = ok (date_arg (millis_of v))
handle_primitive R ustring v = ok (string_arg (R.rstring_of_ustring v))
handle_primitive R xml v = ok (string_arg (R.rstring_of_xml v))
handle_primitive R boolean v = ok (bool_arg v)
handle_primitive R float32 v = ok (double_arg (R.double_of_float32 v))
handle_primitive R float64 v = ok (double_arg v)
handle_primitive R rstring v = ok (string_arg v)
handle_primitive R (signed w32) v = ok (int_arg v)
handle_primitive R (signed w16) v = ok (int_arg v)
handle_primitive R (signed w8) v = ok (int_arg v)
handle_primitive R (unsigned w32) v = ok (unsigned_arg v)
handle_primitive R (unsigned w16) v = ok (int_arg v)
handle_primitive R (unsigned w8) v = ok (int_arg v)

abbrev pub Built : Type 0
Built = AppendFunction × Argument

-- `b.$appendFunction(name, value);`
unfoldable pub call_append : AppendFunction → Bytes → Argument → Fields → Result Fields
unfolding Builder.append_argument Builder.append_array
call_append append n a b = Builder.append_argument n a b
call_append append_array n (sub_object fs) b = Builder.append_array n fs b
call_append append_array n (bson_array fs) b = Builder.append_array n fs b
call_append append_array n _ b = err no_overload

-- The loop over a list or a set: the array builder's own `append`, whichever method was returned.
unfoldable pub append_items {ℓ} :
    {A : Type ℓ} → (A → Result Built) → List A → ArrayBuilder → Result ArrayBuilder
unfolding append_item
append_items f [] b = ok b
append_items f (x ∷ xs) b = do built ← f x; b' ← append_item built.1 b; append_items f xs b'

-- The key of a map in a call of `append`: a byte string.
unfoldable pub key_bytes : (k : SplType) → Value k → Result Bytes
key_bytes (prim rstring) v = ok v
key_bytes (prim ustring) v = err no_overload
key_bytes _ v = err key_not_string

-- The loop over a map.
unfoldable pub append_pairs {ℓ κ} :
    {K : Type ℓ} {V : Type κ}
    → (K → Result Bytes)
    → (V → Result Built)
    → List (K × V)
    → Fields
    → Result Fields
unfolding call_append
append_pairs g f [] b = ok b
append_pairs g f ((k, v) ∷ kvs) b = do
  n ← g k
  built ← f v
  b' ← call_append built.0 n built.1 b
  append_pairs g f kvs b'

unfoldable pub from_list : Result ArrayBuilder → Result Built
from_list r = do b ← r; ok (append_array, bson_array b.builder)

unfoldable pub from_object : Result Fields → Result Built
from_object r = do b ← r; ok (append, sub_object b)

unfoldable pub from_primitive : Result Argument → Result Built
from_primitive r = do a ← r; ok (append, a)

module _ (R : Runtime) where
  unfoldable mutual
    unfolding handle_primitive append_items append_pairs key_bytes call_append from_list from_object
        from_primitive

    pub build_bson_object : (t : SplType) → Value t → Result Built
    build_bson_object (prim p) v = from_primitive (handle_primitive R p v)
    build_bson_object (list t) vs = from_list (append_items (build_bson_object t) vs empty_array)
    build_bson_object (blist b t) vs = from_list (append_items (build_bson_object t) vs empty_array)
    build_bson_object (set t) vs = from_list (append_items (build_bson_object t) vs empty_array)
    build_bson_object (bset b t) vs = from_list (append_items (build_bson_object t) vs empty_array)
    build_bson_object (map k t) m =
        from_object (append_pairs (key_bytes k) (build_bson_object t) m Document.nil)
    build_bson_object (bmap b k t) m =
        from_object (append_pairs (key_bytes k) (build_bson_object t) m Document.nil)
    build_bson_object (tuple ats) r = from_object (build_attributes ats r Document.nil)

    -- The loop over a tuple's attributes.
    pub build_attributes : (ats : Attributes) → Record ats → Fields → Result Fields
    build_attributes nil r b = ok b
    build_attributes (attribute n t ats) (v, r) b = do
      built ← build_bson_object t v
      b' ← call_append built.0 n built.1 b
      build_attributes ats r b'

-- A document or an array where a document is wanted; C++ refuses any other argument.
unfoldable pub as_object : Argument → Result Fields
as_object (sub_object fs) = ok fs
as_object (bson_array fs) = ok fs
as_object _ = err no_overload

-- With a key the value is wrapped in an object with that one field.
unfoldable pub with_key : Option Bytes → Result Built → Result Fields
unfolding call_append as_object
with_key (some key) r = do built ← r; call_append built.0 key built.1 Document.nil
with_key none r = do built ← r; as_object built.1

unfoldable pub build_bson_object_from_json : Library → Bytes → Option Built
build_bson_object_from_json L text = elim (L.from_json text) [
  | none ↦ none
  | some fs ↦ some (append, sub_object fs)
]

unfoldable pub build_bson_object_with_key :
    Runtime → (t : SplType) → Option Bytes → Value t → Result Fields
unfolding with_key build_bson_object
build_bson_object_with_key R t key v = with_key key (build_bson_object R t v)

unfoldable pub key_less : SplType → Bool
key_less (map k t) = false
key_less (bmap b k t) = false
key_less (tuple ats) = false
key_less _ = true
