-- ===== src/Wire/Numbers.antt =====
-- base/data_view.h and platform/endian.h: numbers in little-endian bytes.
use streamsx_mongo_db.Prelude.{
  ℕ, zero, suc, ◌+◌, ◌*◌, ◌/◌, ◌%◌, ◌<◌, ◌≡◌, refl, ◌∙◌, ap, [], ◌∷◌, ◌++◌, Bytes, length, arith,
}
use streamsx_mongo_db.Prelude.Int.{ℤ, pos}
use streamsx_mongo_db.Prelude.Words.{
  Width, w8, w16, w32, w64, modulus, residue, wrap_signed, InSigned,
}

abbrev pub byte_count : Width → ℕ
byte_count w8 = 1
byte_count w16 = 2
byte_count w32 = 4
byte_count w64 = 8

-- `writeLE` of the low bytes.
unfoldable pub write_le : ℕ → ℕ → Bytes
write_le zero n = []
write_le (suc k) n = n % 256 ∷ write_le k (n / 256)

-- `readLE`; bytes beyond the end read as 0.
unfoldable pub read_le : ℕ → Bytes → ℕ
read_le zero bs = 0
read_le (suc k) [] = 0
read_le (suc k) (b ∷ bs) = b + 256 * read_le k bs

-- 256 ^ k.
abbrev pub byte_range : ℕ → ℕ
byte_range zero = 1
byte_range (suc k) = 256 * byte_range k

pub read_le-write_le :
    (k n : ℕ) (rest : Bytes) → n < byte_range k → read_le k (write_le k n ++ rest) ≡ n
unfolding read_le write_le
read_le-write_le zero n rest h = omega (arith, h)
read_le-write_le (suc k) n rest h =
    ap (λ x. n % 256 + 256 * x) (read_le-write_le k (n / 256) rest (omega (arith, h))) ∙ omega arith

pub length-write_le : (k n : ℕ) → length (write_le k n) ≡ k
unfolding write_le
length-write_le zero n = refl
length-write_le (suc k) n = omega (arith, length-write_le k (n / 256))

-- A signed number in two's complement.
unfoldable pub write_signed : Width → ℤ → Bytes
unfolding write_le
write_signed w z = write_le (byte_count w) (residue (modulus w) z)

unfoldable pub read_signed : Width → Bytes → ℤ
unfolding read_le wrap_signed
read_signed w bs = wrap_signed w (pos (read_le (byte_count w) bs))

pub residue-lt-byte_range : (w : Width) (z : ℤ) → residue (modulus w) z < byte_range (byte_count w)
residue-lt-byte_range w8 z = ground arith
residue-lt-byte_range _ z = ground arith

wrap_signed-residue :
    (w : Width) (z : ℤ) → InSigned w z → wrap_signed w (pos (residue (modulus w) z)) ≡ z
unfolding wrap_signed
wrap_signed-residue w8 z h = ground arith
wrap_signed-residue _ z h = ground arith

-- A number in the range of the width is read back from its bytes, whatever follows them.
pub read_signed-write_signed :
    (w : Width) (z : ℤ) (rest : Bytes) → InSigned w z → read_signed w (write_signed w z ++ rest) ≡ z
unfolding read_signed write_signed
read_signed-write_signed w z rest h =
    ap (λ n. wrap_signed w (pos n))
      (read_le-write_le (byte_count w) (residue (modulus w) z) rest (residue-lt-byte_range w z))
    ∙ wrap_signed-residue w z h
