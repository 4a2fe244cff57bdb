-- ===== src/Prelude/Words.antt =====
-- Machine integers: the four widths, and C++'s conversions to a signed or an unsigned type of one,
-- which keep the low bits.
use streamsx_mongo_db.Prelude.Tests.{ltb, if◌then◌else◌}
use streamsx_mongo_db.Prelude.Int.{ℤ, pos, negsuc, pos_part, neg_part}
use Prim.Native.Nat.{ℕ, ◌-◌, ◌%◌, ◌≤◌, ◌<◌}
use mathlib.Core.Path.{◌≡◌}
use native.Mathlib.Omega.{arith}

pub data Width : Type 0 where
  w8 w16 w32 w64 : Width

-- 2 ^ w, and 2 ^ (w - 1).
abbrev pub modulus : Width → ℕ
modulus w8 = 256
modulus w16 = 65536
modulus w32 = 4294967296
modulus w64 = 18446744073709551616

abbrev pub half_modulus : Width → ℕ
half_modulus w8 = 128
half_modulus w16 = 32768
half_modulus w32 = 2147483648
half_modulus w64 = 9223372036854775808

-- The low bits of an integer in two's complement, as a number below the modulus.
abbrev pub residue : ℕ → ℤ → ℕ
residue m (pos n) = n % m
residue m (negsuc n) = m - 1 - n % m

unfoldable pub wrap_unsigned : Width → ℤ → ℤ
wrap_unsigned w z = pos (residue (modulus w) z)

unfoldable pub wrap_signed : Width → ℤ → ℤ
wrap_signed w z =
    let r = residue (modulus w) z in
    if ltb r (half_modulus w) then pos r else negsuc (modulus w - 1 - r)

abbrev pub InSigned : Width → ℤ → Type 0
InSigned w z = (pos_part z < half_modulus w) × (neg_part z ≤ half_modulus w)

abbrev pub InUnsigned : Width → ℤ → Type 0
InUnsigned w z = (pos_part z < modulus w) × (neg_part z ≡ 0)

pub wrap_signed_id : (w : Width) (z : ℤ) → InSigned w z → wrap_signed w z ≡ z
unfolding wrap_signed
wrap_signed_id w8 z h = ground arith
wrap_signed_id _ z h = ground arith

pub wrap_unsigned_id : (w : Width) (z : ℤ) → InUnsigned w z → wrap_unsigned w z ≡ z
unfolding wrap_unsigned
wrap_unsigned_id w8 z h = ground arith
wrap_unsigned_id _ z h = ground arith

-- A detour through the signed type of the same width loses nothing.
pub wrap_unsigned-wrap_signed :
    (w : Width) (z : ℤ) → InUnsigned w z → wrap_unsigned w (wrap_signed w z) ≡ z
unfolding wrap_unsigned wrap_signed
wrap_unsigned-wrap_signed w8 z h = ground arith
wrap_unsigned-wrap_signed _ z h = ground arith

pub wrap_signed-InSigned : (w : Width) (z : ℤ) → InSigned w (wrap_signed w z)
unfolding wrap_signed
wrap_signed-InSigned w8 z = ground arith
wrap_signed-InSigned _ z = ground arith
