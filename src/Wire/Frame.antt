-- ===== src/Wire/Frame.antt =====
-- bson/bsonobjbuilder.h: the frame of an object, from the constructor, which leaves room for a
-- holder and the length and reserves the last byte, to `_done`, which fills them in. What `skip`
-- leaves in the buffer is taken to be zero bytes; `_done` overwrites the length.
use mathlib.Core.List.{append-nil}
use streamsx_mongo_db.Prelude.{
  ℕ, zero, suc, ◌+◌, ◌-◌, ◌≡◌, ◌≤◌, refl, sym, ap, arith, false, [], ◌∷◌, ◌++◌, Bytes, drop, length,
  has_nul,
}
use streamsx_mongo_db.Prelude.Int.{ℤ, pos}
use streamsx_mongo_db.Prelude.Words.{w32}
use streamsx_mongo_db.Bson.Document
use streamsx_mongo_db.Bson.Document.{Fields}
use streamsx_mongo_db.Wire.Numbers.{write_signed}
use streamsx_mongo_db.Wire.Buffer.{
  Buffer, Written, written, len, new_buffer, append_buf, reserve_bytes, claim_reserved_bytes,
  append_num_char, ◌>>=◌,
}
use streamsx_mongo_db.Wire.Reader.{take_bytes}
use streamsx_mongo_db.Wire.Writer.{Writer}
use streamsx_mongo_db.Wire.Appends.{Appends, Appends-then}
use streamsx_mongo_db.Wire.Elements.{
  elements_bytes, write_value, write_value-Appends, WritesDates, IsWritable,
}

unfoldable pub zeros : ℕ → Bytes
zeros zero = []
zeros (suc k) = 0 ∷ zeros k

unfoldable pub skip : ℕ → Writer
unfolding zeros append_buf
skip k = append_buf (zeros k)

-- The constructor that owns its buffer: a holder's size, and a hint of the object's.
unfoldable pub start_object : ℕ → ℕ → Written Buffer
unfolding new_buffer skip reserve_bytes
start_object holder init_size = do
  b ← skip holder (new_buffer (holder + init_size))
  b' ← skip 4 b
  reserve_bytes 1 b'

-- The bytes of a view after a `memcpy` into it at an offset. What the copy writes past the end lies
-- outside of the view.
unfoldable pub overwrite : ℕ → Bytes → Bytes → Bytes
overwrite offset xs [] = []
overwrite zero [] (b ∷ bs) = b ∷ bs
overwrite zero (x ∷ xs) (b ∷ bs) = x ∷ overwrite zero xs bs
overwrite (suc offset) xs (b ∷ bs) = b ∷ overwrite offset xs bs

pub overwrite-split :
    (offset : ℕ) (xs bs : Bytes)
    → overwrite offset xs bs ≡ take_bytes offset bs ++ overwrite 0 xs (drop offset bs)
unfolding overwrite take_bytes
overwrite-split zero xs bs = refl
overwrite-split (suc offset) xs [] = refl
overwrite-split (suc offset) xs (b ∷ bs) = ap (λ zs. b ∷ zs) (overwrite-split offset xs bs)

pub overwrite-start :
    (xs bs : Bytes) → length xs ≤ length bs → overwrite 0 xs bs ≡ xs ++ drop (length xs) bs
unfolding overwrite
overwrite-start [] [] h = refl
overwrite-start [] (b ∷ bs) h = refl
overwrite-start (x ∷ xs) [] h = ground arith
overwrite-start (x ∷ xs) (b ∷ bs) h = ap (λ zs. x ∷ zs) (overwrite-start xs bs (omega (arith, h)))

unfoldable pub set_length : ℕ → Buffer → Buffer
unfolding overwrite write_signed
set_length offset b = record b {
  data_bytes = overwrite offset (write_signed w32 (pos (len b - offset))) b.data_bytes;
}

-- `_done`, where it was not called before.
unfoldable pub finish_object : ℕ → Writer
unfolding claim_reserved_bytes append_num_char set_length
finish_object offset b = do
  b' ← claim_reserved_bytes 1 b
  b'' ← append_num_char (pos 0) b'
  written (set_length offset b'')

unfoldable pub write_elements : (Bytes → ℤ → Writer) → Fields → Writer
unfolding write_value
write_elements append_date Document.nil b = written b
write_elements append_date (Document.field n v fs) b = do
  b' ← write_value append_date n v b
  write_elements append_date fs b'

unfoldable pub build_object : (Bytes → ℤ → Writer) → ℕ → ℕ → Fields → Written Buffer
unfolding start_object write_elements finish_object
build_object append_date holder init_size fs = do
  b ← start_object holder init_size
  b' ← write_elements append_date fs b
  finish_object holder b'

-- No field name has a zero byte, nor a regular expression.
abbrev pub AreWritable : Fields → Type 0
AreWritable Document.nil = Unit
AreWritable (Document.field n v fs) = (has_nul n ≡ false) × IsWritable v × AreWritable fs

pub write_nothing-Appends : Appends [] (λ b. written b)
write_nothing-Appends = record { run = λ b f. (b, refl, sym (append-nil b.data_bytes), refl, f.0) }

pub write_elements-Appends :
    (append_date : Bytes → ℤ → Writer) (fs : Fields)
    → WritesDates append_date
    → AreWritable fs
    → Appends (elements_bytes fs) (write_elements append_date fs)
unfolding write_elements
write_elements-Appends append_date Document.nil dates w = write_nothing-Appends
write_elements-Appends append_date (Document.field n v fs) dates (nul, hv, w) =
    Appends-then (write_value-Appends append_date n v dates nul hv)
      (write_elements-Appends append_date fs dates w)
