-- ===== src/Wire/Buffer.antt =====
-- bson/util/builder.h: `_BufBuilder`, a buffer that grows by doubling up to 64 MB. The bytes that
-- were written stand for `data` and `l`; lengths and sizes are natural numbers, and a doubling that
-- would overflow a 32-bit `int` is an error of its own.
use streamsx_mongo_db.Prelude.{
  ℕ, zero, suc, ◌+◌, ◌-◌, ◌*◌, Bool, true, false, Option, none, some, [], ◌∷◌, ◌++◌, Bytes, ltb,
  leb, length, if◌then◌else◌,
}
use streamsx_mongo_db.Prelude.Int.{ℤ}
use streamsx_mongo_db.Prelude.Words.{w8, w32, w64}
use streamsx_mongo_db.Wire.Numbers.{write_le, write_signed}

pub data BufferFailure : Type 0 where
  past_limit int_overflow not_reserved null_in_field_name null_in_regex element_eoo bad_size :
      BufferFailure

pub data Written {ℓ} (A : Type ℓ) : Type ℓ where
  written : A → Written A
  failed : BufferFailure → Written A

abbrev pub ◌>>=◌ {ℓ κ} : {A : Type ℓ} {B : Type κ} → Written A → (A → Written B) → Written B
failed failure >>= next = failed failure
written value >>= next = next value

abbrev pub ◌>>◌ {κ} : {B : Type κ} → Written (Unit {0}) → Written B → Written B
first >> second = first >>= λ _. second

infixl 5 ◌>>=◌ ◌>>◌
pub record Buffer : Type 0 where
  pub data_bytes : Bytes
  pub size : ℕ
  pub reserved_bytes : ℕ

-- `l`.
abbrev pub len : Buffer → ℕ
len b = length b.data_bytes

abbrev pub buffer_max_size : ℕ
buffer_max_size = 67_108_864

unfoldable pub new_buffer : ℕ → Buffer
new_buffer init_size = record { data_bytes = []; size = init_size; reserved_bytes = 0 }

unfoldable pub reset : Buffer → Buffer
reset b = record b { data_bytes = []; reserved_bytes = 0 }

unfoldable pub reset_max : ℕ → Buffer → Buffer
reset_max zero b = record b { data_bytes = []; reserved_bytes = 0 }
reset_max (suc m) b = record {
  data_bytes = [];
  size = if ltb (suc m) b.size then suc m else b.size;
  reserved_bytes = 0;
}

-- The loop `while (a < minSize) a = a * 2;`, on fuel; none at an overflow of `int`.
unfoldable pub double_until : ℕ → ℕ → ℕ → Option ℕ
double_until zero a min_size = none
double_until (suc fuel) a min_size =
    let rest = double_until fuel (a * 2) min_size in
    if ltb a min_size then (if ltb a 1_073_741_824 then rest else none) else some a

unfoldable pub checked_size : Option ℕ → Written ℕ
checked_size none = failed int_overflow
checked_size (some a) = if ltb buffer_max_size a then failed past_limit else written a

-- From 64, twenty-five doublings pass the range of `int`.
unfoldable pub grow_reallocate : ℕ → Buffer → Written Buffer
unfolding double_until checked_size
grow_reallocate min_size b = do
  a ← checked_size (double_until 32 64 min_size)
  written (record b { size = a })

unfoldable pub ensure : ℕ → Buffer → Written Buffer
unfolding grow_reallocate
ensure min_size b = if ltb b.size min_size then grow_reallocate min_size b else written b

-- `grow`, and the copy into the room that it returns.
unfoldable pub append_buf : Bytes → Buffer → Written Buffer
unfolding ensure
append_buf bs b = do
  b' ← ensure (len b + length bs + b.reserved_bytes) b
  written (record b' { data_bytes = b'.data_bytes ++ bs })

unfoldable pub reserve_bytes : ℕ → Buffer → Written Buffer
unfolding ensure
reserve_bytes n b = do
  b' ← ensure (len b + b.reserved_bytes + n) b
  written (record b' { reserved_bytes = b'.reserved_bytes + n })

unfoldable pub claim_reserved_bytes : ℕ → Buffer → Written Buffer
claim_reserved_bytes n b =
    if leb n b.reserved_bytes
    then written (record b { reserved_bytes = b.reserved_bytes - n })
    else failed not_reserved

unfoldable pub append_str : Bytes → Bool → Buffer → Written Buffer
unfolding append_buf
append_str s true b = append_buf (s ++ (0 ∷ [])) b
append_str s false b = append_buf s b

-- `appendNum` at each of its types; a double is its pattern.
unfoldable pub append_num_char : ℤ → Buffer → Written Buffer
unfolding append_buf write_signed
append_num_char z = append_buf (write_signed w8 z)

unfoldable pub append_num_int : ℤ → Buffer → Written Buffer
unfolding append_buf write_signed
append_num_int z = append_buf (write_signed w32 z)

unfoldable pub append_num_long_long : ℤ → Buffer → Written Buffer
unfolding append_buf write_signed
append_num_long_long z = append_buf (write_signed w64 z)

unfoldable pub append_num_unsigned : ℕ → Buffer → Written Buffer
unfolding append_buf write_le
append_num_unsigned n = append_buf (write_le 4 n)

unfoldable pub append_num_unsigned_long_long : ℕ → Buffer → Written Buffer
unfolding append_buf write_le
append_num_unsigned_long_long n = append_buf (write_le 8 n)

unfoldable pub append_num_double : ℕ → Buffer → Written Buffer
unfolding append_buf write_le
append_num_double d = append_buf (write_le 8 d)
