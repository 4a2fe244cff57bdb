-- ===== src/Wire/Appends.antt =====
-- Writers that append given bytes to any buffer in which they fit.
use streamsx_mongo_db.Prelude.{
  ℕ, ◌+◌, ◌≤◌, ◌≡◌, ◌∙◌, ap, true, false, [], ◌∷◌, ◌++◌, Bytes, length, length-append, has_nul,
  arith,
}
use mathlib.Core.List.{append_assoc}
use streamsx_mongo_db.Prelude.Int.{ℤ, pos}
use streamsx_mongo_db.Prelude.Words.{w8, w32, w64}
use streamsx_mongo_db.Bson.Types.{BsonType, type_byte}
use streamsx_mongo_db.Wire.Numbers.{write_le, write_signed}
use streamsx_mongo_db.Wire.Buffer.{
  Buffer, written, len, buffer_max_size, ◌>>=◌, append_buf, append_str, append_num_char,
  append_num_int, append_num_long_long, append_num_unsigned, append_num_double,
}
use streamsx_mongo_db.Wire.Growth.{IsRoomy, append_buf_lem}
use streamsx_mongo_db.Wire.Writer.{Writer, ◌>=>◌, checked, write_header, write_counted}

abbrev pub Fits : Bytes → Buffer → Type 0
Fits bs b = IsRoomy b × (len b + length bs + b.reserved_bytes ≤ buffer_max_size)

pub record Appends (bs : Bytes) (write : Writer) : Type 0 where
  pub run :
      (b : Buffer)
      → Fits bs b
      → (b' : Buffer) × (write b ≡ written b')
        × (b'.data_bytes ≡ b.data_bytes ++ bs)
        × (b'.reserved_bytes ≡ b.reserved_bytes)
        × IsRoomy b'

pub append_buf-Appends : (bs : Bytes) → Appends bs (append_buf bs)
append_buf-Appends bs = record { run = λ b h. append_buf_lem bs b h.0 h.1 }

pub Appends-then :
    {bs cs : Bytes} {first second : Writer}
    → Appends bs first
    → Appends cs second
    → Appends (bs ++ cs) (first >=> second)
Appends-then {bs = bs} {cs = cs} {first = first} {second = second} h k = record {
  run = λ b f.
      let lens = length-append bs cs in
      let (b1, e1, d1, r1, room1) = h.run b (f.0, omega (arith, f.1, lens)) in
      let len1 = ap length d1 ∙ length-append b.data_bytes bs in
      let (b2, e2, d2, r2, room2) = k.run b1 (room1, omega (arith, f.1, lens, len1, r1)) in
      (
        b2,
        ap (λ r. r >>= second) e1 ∙ e2,
        d2 ∙ ap (λ x. x ++ cs) d1 ∙ append_assoc b.data_bytes bs cs,
        r2 ∙ r1,
        room2,
      );
}

checked-no_nul :
    (n : Bytes) (write : Writer) (b : Buffer) → has_nul n ≡ false → checked n write b ≡ write b
unfolding checked
checked-no_nul n write b nul = rw nul

pub Appends-checked :
    {bs : Bytes} {write : Writer} (n : Bytes)
    → has_nul n ≡ false
    → Appends bs write
    → Appends bs (checked n write)
Appends-checked {write = write} n nul h = record {
  run = λ b f.
      let (b', e, d, r, room) = h.run b f in (b', checked-no_nul n write b nul ∙ e, d, r, room);
}

-- The bytes of an element: its type, its name with a zero byte, and its value.
abbrev pub header_bytes : BsonType → Bytes → Bytes
header_bytes t n = write_signed w8 (type_byte t) ++ (n ++ (0 ∷ []))

abbrev pub counted_bytes : Bytes → Bytes
counted_bytes s = write_signed w32 (pos (length s + 1)) ++ (s ++ (0 ∷ []))

pub append_str-Appends : (s : Bytes) → Appends (s ++ (0 ∷ [])) (append_str s true)
unfolding append_str
append_str-Appends s = append_buf-Appends (s ++ (0 ∷ []))

pub append_num_char-Appends : (z : ℤ) → Appends (write_signed w8 z) (append_num_char z)
unfolding append_num_char
append_num_char-Appends z = append_buf-Appends (write_signed w8 z)

pub append_num_int-Appends : (z : ℤ) → Appends (write_signed w32 z) (append_num_int z)
unfolding append_num_int
append_num_int-Appends z = append_buf-Appends (write_signed w32 z)

pub append_num_long_long-Appends : (z : ℤ) → Appends (write_signed w64 z) (append_num_long_long z)
unfolding append_num_long_long
append_num_long_long-Appends z = append_buf-Appends (write_signed w64 z)

pub append_num_unsigned-Appends : (n : ℕ) → Appends (write_le 4 n) (append_num_unsigned n)
unfolding append_num_unsigned
append_num_unsigned-Appends n = append_buf-Appends (write_le 4 n)

pub append_num_double-Appends : (d : ℕ) → Appends (write_le 8 d) (append_num_double d)
unfolding append_num_double
append_num_double-Appends d = append_buf-Appends (write_le 8 d)

pub write_header-Appends :
    (t : BsonType) (n : Bytes) → Appends (header_bytes t n) (write_header t n)
unfolding write_header
write_header-Appends t n =
    Appends-then (append_num_char-Appends (type_byte t)) (append_str-Appends n)

pub write_counted-Appends : (s : Bytes) → Appends (counted_bytes s) (write_counted s)
unfolding write_counted
write_counted-Appends s =
    Appends-then (append_num_int-Appends (pos (length s + 1))) (append_str-Appends s)
