-- ===== src/Wire/Nested.antt =====
-- bson/bsonobjbuilder.h: a builder in the buffer of another one, from `subobjStart` or `subarrayStart`
-- to `_done`.
use mathlib.Core.List.{append_assoc}
use streamsx_mongo_db.Prelude.{
  ℕ, ◌+◌, ◌-◌, ◌≤◌, ◌≡◌, refl, ◌∙◌, ap, false, [], ◌∷◌, ◌++◌, Bytes, drop, length, length-append,
  arith, has_nul, leb, true,
}
use streamsx_mongo_db.Prelude.Int.{ℤ, pos}
use streamsx_mongo_db.Prelude.Words.{w32}
use streamsx_mongo_db.Bson.Types.{BsonType}
use streamsx_mongo_db.Bson.Document
use streamsx_mongo_db.Bson.Document.{Fields}
use streamsx_mongo_db.Wire.Numbers.{write_le, write_signed}
use streamsx_mongo_db.Wire.Buffer.{
  Buffer, written, len, buffer_max_size, reserve_bytes, claim_reserved_bytes, append_num_char,
  ◌>>=◌,
}
use streamsx_mongo_db.Wire.Growth.{IsRoomy, append_buf_lem, reserve_bytes_lem}
use streamsx_mongo_db.Wire.Readback.{take_bytes-append, drop-append}
use streamsx_mongo_db.Wire.Writer.{Writer, ◌>=>◌, subobj_start, subarray_start}
use streamsx_mongo_db.Wire.Appends.{
  Appends, Appends-then, Appends-checked, write_header-Appends, header_bytes,
}
use streamsx_mongo_db.Wire.Elements.{elements_bytes, object_bytes, WritesDates, value_bytes}
use streamsx_mongo_db.Wire.Frame.{
  zeros, skip, overwrite, overwrite-split, overwrite-start, set_length, finish_object,
  write_elements, AreWritable, write_elements-Appends,
}
use streamsx_mongo_db.Wire.Framed.{
  length-zeros, length-write_signed, length-object_bytes, size_of_frame,
}

-- The constructor on another builder's buffer: room for the length, and a reservation.
unfoldable pub start_sub_object : Writer
unfolding skip reserve_bytes
start_sub_object b = do b' ← skip 4 b; reserve_bytes 1 b'

-- The fields, and `_done`, which the destructor calls too.
unfoldable pub build_sub_object : (Bytes → ℤ → Writer) → Fields → Writer
unfolding start_sub_object write_elements finish_object
build_sub_object append_date fs b = do
  b1 ← start_sub_object b
  b2 ← write_elements append_date fs b1
  finish_object (len b) b2

unfoldable pub nested_object : (Bytes → ℤ → Writer) → Bytes → Fields → Writer
unfolding subobj_start build_sub_object
nested_object append_date n fs = subobj_start n >=> build_sub_object append_date fs

unfoldable pub nested_array : (Bytes → ℤ → Writer) → Bytes → Fields → Writer
unfolding subarray_start build_sub_object
nested_array append_date n fs = subarray_start n >=> build_sub_object append_date fs

drop-four : (xs body : Bytes) → length xs ≡ 4 → drop (length xs) (zeros 4 ++ body) ≡ body
unfolding zeros
drop-four xs body e = ap (λ k. drop k (zeros 4 ++ body)) e

overwrite-at :
    (before xs body : Bytes)
    → length xs ≡ 4
    → overwrite (length before) xs (before ++ (zeros 4 ++ body)) ≡ before ++ (xs ++ body)
overwrite-at before xs body e =
    overwrite-split (length before) xs (before ++ (zeros 4 ++ body))
    ∙ ap (λ t. t ++ overwrite 0 xs (drop (length before) (before ++ (zeros 4 ++ body))))
        (take_bytes-append before (zeros 4 ++ body))
    ∙ ap (λ t. before ++ overwrite 0 xs t) (drop-append before (zeros 4 ++ body))
    ∙ ap (λ t. before ++ t)
        (overwrite-start xs (zeros 4 ++ body)
          (omega (arith, e, length-append (zeros 4) body, length-zeros 4)))
    ∙ ap (λ t. before ++ (xs ++ t)) (drop-four xs body e)

one_there : (r : ℕ) → leb 1 (r + 1) ≡ true
one_there r = ground arith

one_less_left : (r : ℕ) → r + 1 - 1 ≡ r
one_less_left r = omega arith

claimed_one :
    (r : ℕ) (b : Buffer)
    → b.reserved_bytes ≡ r + 1
    → claim_reserved_bytes 1 b ≡ written (record b { reserved_bytes = r })
unfolding claim_reserved_bytes
claimed_one r b h = rw (h, one_there r, one_less_left r)

finished_at :
    (offset r : ℕ) (b : Buffer)
    → IsRoomy b
    → b.reserved_bytes ≡ r + 1
    → (b' : Buffer) × (finish_object offset b ≡ written (set_length offset b'))
      × (b'.data_bytes ≡ b.data_bytes ++ (0 ∷ []))
      × (b'.reserved_bytes ≡ r)
      × IsRoomy b'
unfolding finish_object append_num_char write_signed write_le
finished_at offset r b (room, lim) h =
    let (b1, e1, d1, r1, room1) =
      append_buf_lem (0 ∷ []) (record b { reserved_bytes = r }) (omega (arith, room, h), lim)
        (omega (arith, room, lim, h)) in
    (
      b1,
      ap (λ r. r >>= λ b'. append_num_char (pos 0) b' >>= λ b''. written (set_length offset b''))
            (claimed_one r b h)
          ∙ ap (λ r. r >>= λ b''. written (set_length offset b'')) e1,
      d1,
      r1,
      room1,
    )

-- Four zero bytes for the length, and a reservation of one.
started_at :
    (b : Buffer)
    → IsRoomy b
    → len b + 5 + b.reserved_bytes ≤ buffer_max_size
    → (b' : Buffer) × (start_sub_object b ≡ written b')
      × (b'.data_bytes ≡ b.data_bytes ++ zeros 4)
      × (b'.reserved_bytes ≡ b.reserved_bytes + 1)
      × IsRoomy b'
unfolding start_sub_object skip
started_at b room h =
    let four = length-zeros 4 in
    let (b1, e1, d1, r1, room1) = append_buf_lem (zeros 4) b room (omega (arith, four, h)) in
    let l1 = ap length d1 ∙ length-append b.data_bytes (zeros 4) in
    let (b2, e2, d2, r2, room2) = reserve_bytes_lem 1 b1 room1 (omega (arith, four, h, l1, r1)) in
    (b2, ap (λ r. r >>= reserve_bytes 1) e1 ∙ e2, d2 ∙ d1, r2 ∙ ap (λ n. n + 1) r1, room2)

length-framed :
    (before xs body : Bytes)
    → length xs ≡ 4
    → length (before ++ (xs ++ body)) ≡ length before + (4 + length body)
length-framed before xs body e =
    omega (arith, e, length-append before (xs ++ body), length-append xs body)

-- A builder in the buffer of another appends the bytes of its object, for field names without zero
-- bytes and an object that fits.
pub build_sub_object-Appends :
    (append_date : Bytes → ℤ → Writer) (fs : Fields)
    → WritesDates append_date
    → AreWritable fs
    → Appends (object_bytes fs) (build_sub_object append_date fs)
unfolding build_sub_object set_length
build_sub_object-Appends append_date fs dates w = record {
  run = λ b f.
      let els = elements_bytes fs in
      let size = write_signed w32 (pos (length els + 5)) in
      let total = length-object_bytes fs in
      let (b1, e1, d1, r1, room1) = started_at b f.0 (omega (arith, f.1, total)) in
      let l1 = ap length d1 ∙ length-append b.data_bytes (zeros 4) in
      let (b2, e2, d2, r2, room2) =
        (write_elements-Appends append_date fs dates w).run b1
          (room1, omega (arith, f.1, total, l1, r1, length-zeros 4)) in
      let (b3, e3, d3, r3, room3) = finished_at (len b) b.reserved_bytes b2 room2 (r2 ∙ r1) in
      let l2 = ap length d2 ∙ length-append b1.data_bytes els in
      let l3 = ap length d3 ∙ length-append b2.data_bytes (0 ∷ []) in
      let all =
        d3
        ∙ ap (λ x. x ++ (0 ∷ [])) (d2 ∙ ap (λ x. x ++ els) d1)
        ∙ append_assoc (b.data_bytes ++ zeros 4) els (0 ∷ [])
        ∙ append_assoc b.data_bytes (zeros 4) (els ++ (0 ∷ [])) in
      let whole =
        ap (λ n. overwrite (len b) (write_signed w32 (pos n)) b3.data_bytes)
          (size_of_frame (len b) (len b3) (len b) (length (zeros 4)) (length els) refl
            (length-zeros 4) (omega (arith, l1, l2, l3)))
        ∙ ap (overwrite (len b) size) all
        ∙ overwrite-at b.data_bytes size (els ++ (0 ∷ []))
            (length-write_signed (pos (length els + 5))) in
      let same =
        ap length whole
        ∙ length-framed b.data_bytes size (els ++ (0 ∷ []))
            (length-write_signed (pos (length els + 5))) in
      (
        set_length (len b) b3,
        ap (λ r. r >>= λ b1. write_elements append_date fs b1 >>= finish_object (len b)) e1
            ∙ ap (λ r. r >>= finish_object (len b)) e2
            ∙ e3,
        whole,
        r3,
        (
          omega (arith, room3.0, same, l1, l2, l3, length-append els (0 ∷ []), length-zeros 4),
          room3.1,
        ),
      );
}

-- A nested object or array that is built field by field in its parent's buffer appends the same bytes
-- as the method that appends a finished one: the type, the name and the object of the format.
pub nested-Appends :
    (append_date : Bytes → ℤ → Writer) (n : Bytes) (fs : Fields)
    → WritesDates append_date
    → has_nul n ≡ false
    → AreWritable fs
    → Appends
        (header_bytes BsonType.object n ++ value_bytes (Document.object fs))
        (nested_object append_date n fs)
      × Appends
          (header_bytes BsonType.array n ++ value_bytes (Document.array fs))
          (nested_array append_date n fs)
unfolding nested_object nested_array subobj_start subarray_start
nested-Appends append_date n fs dates nul w = (
  Appends-then (Appends-checked n nul (write_header-Appends BsonType.object n))
      (build_sub_object-Appends append_date fs dates w),
  Appends-then (Appends-checked n nul (write_header-Appends BsonType.array n))
      (build_sub_object-Appends append_date fs dates w),
)
