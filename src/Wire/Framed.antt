-- ===== src/Wire/Framed.antt =====
-- The object that the builder of bson/bsonobjbuilder.h leaves behind.
use streamsx_mongo_db.Wire.Appends.{Appends}
use mathlib.Core.List.{append_assoc}
use streamsx_mongo_db.Prelude.{
  ℕ, zero, suc, ◌+◌, ◌-◌, ◌≤◌, ◌≡◌, refl, ◌∙◌, ap, [], ◌∷◌, ◌++◌, Bytes, drop, length,
  length-append, arith,
}
use streamsx_mongo_db.Prelude.Int.{ℤ, pos}
use streamsx_mongo_db.Prelude.Words.{w32, residue, modulus}
use streamsx_mongo_db.Bson.Document.{Fields}
use streamsx_mongo_db.Wire.Numbers.{write_le, write_signed, length-write_le}
use streamsx_mongo_db.Wire.Buffer.{
  Buffer, written, len, buffer_max_size, new_buffer, append_buf, reserve_bytes,
  claim_reserved_bytes, append_num_char, ◌>>=◌,
}
use streamsx_mongo_db.Wire.Growth.{IsRoomy, append_buf_lem, reserve_bytes_lem}
use streamsx_mongo_db.Wire.Writer.{Writer}
use streamsx_mongo_db.Wire.Elements.{elements_bytes, object_bytes, WritesDates, framed}
use streamsx_mongo_db.Wire.Frame.{
  zeros, skip, start_object, overwrite, overwrite-start, set_length, finish_object, write_elements,
  build_object, AreWritable, write_elements-Appends,
}

pub length-zeros : (k : ℕ) → length (zeros k) ≡ k
unfolding zeros
length-zeros zero = refl
length-zeros (suc k) = omega (arith, length-zeros k)

suc_plus : (k j : ℕ) → suc k + j ≡ suc (k + j)
suc_plus k j = omega arith

drop_later : (k j : ℕ) (x : ℕ) (bs : Bytes) → drop (suc k + j) (x ∷ bs) ≡ drop (k + j) bs
drop_later k j x bs = ap (λ i. drop i (x ∷ bs)) (suc_plus k j)

zero_plus : (k : ℕ) → k ≡ 4 → 0 + k ≡ 4
zero_plus k e = omega (arith, e)

-- Overwriting the length leaves the holder and what follows the length.
overwrite-frame :
    (h : ℕ) (xs body : Bytes)
    → length xs ≡ 4
    → drop h (overwrite h xs ((zeros h ++ zeros 4) ++ body)) ≡ xs ++ body
unfolding overwrite zeros
overwrite-frame zero xs body e =
    overwrite-start xs (zeros 4 ++ body) (omega (arith, e, length-append (zeros 4) body))
    ∙ ap (λ k. xs ++ drop k (zeros 4 ++ body)) e
overwrite-frame (suc h) xs body e = overwrite-frame h xs body e

started :
    (holder init_size : ℕ)
    → holder + init_size ≤ buffer_max_size
    → holder + 5 ≤ buffer_max_size
    → (b : Buffer) × (start_object holder init_size ≡ written b)
      × (b.data_bytes ≡ zeros holder ++ zeros 4)
      × (b.reserved_bytes ≡ 1)
      × IsRoomy b
unfolding start_object skip new_buffer
started holder init_size hs h =
    let lens = length-zeros holder in
    let four = length-zeros 4 in
    let (b1, e1, d1, r1, room1) =
      append_buf_lem (zeros holder) (new_buffer (holder + init_size)) (omega arith, hs)
        (omega (arith, lens, h)) in
    let l1 = ap length d1 in
    let (b2, e2, d2, r2, room2) =
      append_buf_lem (zeros 4) b1 room1 (omega (arith, lens, four, h, l1, r1)) in
    let l2 = ap length d2 ∙ length-append b1.data_bytes (zeros 4) in
    let (b3, e3, d3, r3, room3) =
      reserve_bytes_lem 1 b2 room2 (omega (arith, lens, four, h, l1, l2, r1, r2)) in
    (
      b3,
      ap (λ r. r >>= λ b. append_buf (zeros 4) b >>= reserve_bytes 1) e1
          ∙ ap (λ r. r >>= reserve_bytes 1) e2
          ∙ e3,
      d3 ∙ d2 ∙ ap (λ x. x ++ zeros 4) d1,
      omega (arith, r1, r2, r3),
      room3,
    )

claimed :
    (b : Buffer)
    → b.reserved_bytes ≡ 1
    → claim_reserved_bytes 1 b ≡ written (record b { reserved_bytes = 0 })
unfolding claim_reserved_bytes
claimed b h = rw h

finished :
    (holder : ℕ) (b : Buffer)
    → IsRoomy b
    → b.reserved_bytes ≡ 1
    → (b' : Buffer) × (finish_object holder b ≡ written (set_length holder b'))
      × (b'.data_bytes ≡ b.data_bytes ++ (0 ∷ []))
unfolding finish_object append_num_char write_signed write_le
finished holder b (room, lim) h =
    let (b1, e1, d1, _, _) =
      append_buf_lem (0 ∷ []) (record b { reserved_bytes = 0 }) (omega (arith, room), lim)
        (omega (arith, room, lim, h)) in
    (
      b1,
      ap (λ r. r >>= λ b'. append_num_char (pos 0) b' >>= λ b''. written (set_length holder b''))
            (claimed b h)
          ∙ ap (λ r. r >>= λ b''. written (set_length holder b'')) e1,
      d1,
    )

pub length-write_signed : (z : ℤ) → length (write_signed w32 z) ≡ 4
unfolding write_signed
length-write_signed z = length-write_le 4 (residue (modulus w32) z)

pub length-framed : (els : Bytes) → length (framed els) ≡ length els + 5
length-framed els =
    let size = write_signed w32 (pos (length els + 5)) in
    omega (
      arith,
      length-append size (els ++ (0 ∷ [])),
      length-append els (0 ∷ []),
      length-write_signed (pos (length els + 5)),
    )

pub length-object_bytes : (fs : Fields) → length (object_bytes fs) ≡ length (elements_bytes fs) + 5
length-object_bytes fs = length-framed (elements_bytes fs)

pub size_of_frame : (h k : ℕ) (z f e : ℕ) → z ≡ h → f ≡ 4 → k ≡ z + f + e + 1 → k - h ≡ e + 5
size_of_frame h k z f e hz hf hk = omega (arith, hz, hf, hk)

-- A body that appends `els`, between the constructor and `_done`, makes the frame of `els`.
pub build-framed :
    (holder init_size : ℕ) (els : Bytes) (body : Writer)
    → Appends els body
    → holder + init_size ≤ buffer_max_size
    → holder + length (framed els) ≤ buffer_max_size
    → (b : Buffer) × ((start_object holder init_size >>= λ b'. body b' >>= finish_object holder)
        ≡ written b)
      × (drop holder b.data_bytes ≡ framed els)
unfolding set_length
build-framed holder init_size els body appends hs h =
    let size = write_signed w32 (pos (length els + 5)) in
    let total = length-framed els in
    let (b3, e3, d3, r3, room3) = started holder init_size hs (omega (arith, h, total)) in
    let l3 = ap length d3 ∙ length-append (zeros holder) (zeros 4) in
    let (b4, e4, d4, r4, room4) =
      appends.run b3
        (room3, omega (arith, h, total, l3, r3, length-zeros holder, length-zeros 4)) in
    let (b5, e5, d5) = finished holder b4 room4 (r4 ∙ r3) in
    let l4 = ap length d4 ∙ length-append b3.data_bytes els in
    let l5 = ap length d5 ∙ length-append b4.data_bytes (0 ∷ []) in
    let all =
      d5
      ∙ ap (λ x. x ++ (0 ∷ [])) (d4 ∙ ap (λ x. x ++ els) d3)
      ∙ append_assoc (zeros holder ++ zeros 4) els (0 ∷ []) in
    (
      set_length holder b5,
      ap (λ r. r >>= λ b. body b >>= finish_object holder) e3
          ∙ ap (λ r. r >>= finish_object holder) e4
          ∙ e5,
      ap (λ n. drop holder (overwrite holder (write_signed w32 (pos n)) b5.data_bytes))
            (size_of_frame holder (len b5) (length (zeros holder)) (length (zeros 4)) (length els)
              (length-zeros holder) (length-zeros 4) (omega (arith, l3, l4, l5)))
          ∙ ap (λ x. drop holder (overwrite holder size x)) all
          ∙ overwrite-frame holder size (els ++ (0 ∷ []))
              (length-write_signed (pos (length els + 5))),
    )

-- An object that the builder makes, field by field, is the object of the format: its size, its
-- elements and the end, after the room for the holder; given field names and patterns of regular
-- expressions without zero bytes and room below 64 MB. The compiled appendDate appends the format.
pub build_object-eq-object_bytes :
    (append_date : Bytes → ℤ → Writer) (holder init_size : ℕ) (fs : Fields)
    → WritesDates append_date
    → AreWritable fs
    → holder + init_size ≤ buffer_max_size
    → holder + length (object_bytes fs) ≤ buffer_max_size
    → (b : Buffer) × (build_object append_date holder init_size fs ≡ written b)
      × (drop holder b.data_bytes ≡ object_bytes fs)
unfolding build_object
build_object-eq-object_bytes append_date holder init_size fs dates w hs h =
    build-framed holder init_size (elements_bytes fs) (write_elements append_date fs)
      (write_elements-Appends append_date fs dates w) hs h
