-- ===== src/Net/Overwrites.antt =====
-- What is read where a view was written, before it and after it; and the fields of a message's header.
use streamsx_mongo_db.Prelude.{
  ℕ, zero, suc, ◌+◌, ◌*◌, ◌≤◌, ◌≡◌, refl, sym, ap, ◌∙◌, [], ◌∷◌, ◌++◌, Bytes, drop, length, arith,
  inl, ◌⊎◌, ◌-◌, inr,
}
use streamsx_mongo_db.Prelude.Int.{ℤ, pos}
use streamsx_mongo_db.Prelude.Words.{w32, wrap_signed, InSigned}
use streamsx_mongo_db.Wire.Numbers.{read_le, read_signed, write_signed, read_signed-write_signed}
use streamsx_mongo_db.Wire.Frame.{overwrite, overwrite-split}
use streamsx_mongo_db.Wire.Framed.{length-write_signed}
use streamsx_mongo_db.Wire.Reader.{take_bytes}
use streamsx_mongo_db.Wire.Views.{drop-overwrite}
use streamsx_mongo_db.Wire.Visited.{drop-drop}
use streamsx_mongo_db.Wire.Readback.{drop-append}
use streamsx_mongo_db.Net.Headers.{
  message_length, request_id, response_to, op_code, set_message_length, set_request_id,
  set_response_to, set_op_code, data_of, header_size,
}

pub length-take_bytes : (k : ℕ) (bs : Bytes) → k ≤ length bs → length (take_bytes k bs) ≡ k
unfolding take_bytes
length-take_bytes zero bs h = refl
length-take_bytes (suc k) [] h = absurd (omega (arith, h))
length-take_bytes (suc k) (b ∷ bs) h = ap suc (length-take_bytes k bs (omega (arith, h)))

length-drop : (k : ℕ) (bs : Bytes) → k ≤ length bs → length (drop k bs) + k ≡ length bs
length-drop zero bs h = omega arith
length-drop (suc k) [] h = absurd (omega (arith, h))
length-drop (suc k) (b ∷ bs) h = omega (arith, length-drop k bs (omega (arith, h)))

pub length-overwrite :
    (i : ℕ) (xs bs : Bytes) → i + length xs ≤ length bs → length (overwrite i xs bs) ≡ length bs
unfolding overwrite
length-overwrite i xs [] h = refl
length-overwrite zero [] (b ∷ bs) h = refl
length-overwrite zero (x ∷ xs) (b ∷ bs) h = ap suc (length-overwrite zero xs bs (omega (arith, h)))
length-overwrite (suc i) xs (b ∷ bs) h = ap suc (length-overwrite i xs bs (omega (arith, h)))

-- A number that lies in the first bytes is read from them.
pub read_le-take_bytes :
    (k i : ℕ) (bs r : Bytes)
    → k ≤ i
    → i ≤ length bs
    → read_le k (take_bytes i bs ++ r) ≡ read_le k bs
unfolding read_le take_bytes
read_le-take_bytes zero i bs r h h' = refl
read_le-take_bytes (suc k) zero bs r h h' = absurd (omega (arith, h))
read_le-take_bytes (suc k) (suc i) [] r h h' = absurd (omega (arith, h'))
read_le-take_bytes (suc k) (suc i) (b ∷ bs) r h h' =
    ap (λ n. b + 256 * n) (read_le-take_bytes k i bs r (omega (arith, h)) (omega (arith, h')))

read_le-before :
    (j k i : ℕ) (bs r : Bytes)
    → j + k ≤ i
    → i ≤ length bs
    → read_le k (drop j (take_bytes i bs ++ r)) ≡ read_le k (drop j bs)
unfolding take_bytes
read_le-before zero k i bs r h h' = read_le-take_bytes k i bs r (omega (arith, h)) h'
read_le-before (suc j) k zero bs r h h' = absurd (omega (arith, h))
read_le-before (suc j) k (suc i) [] r h h' = absurd (omega (arith, h'))
read_le-before (suc j) k (suc i) (b ∷ bs) r h h' =
    read_le-before j k i bs r (omega (arith, h)) (omega (arith, h'))

pub read-overwrite_before :
    (j i : ℕ) (xs bs : Bytes)
    → j + 4 ≤ i
    → i ≤ length bs
    → read_signed w32 (drop j (overwrite i xs bs)) ≡ read_signed w32 (drop j bs)
unfolding read_signed
read-overwrite_before j i xs bs h h' =
    ap (λ bs'. read_signed w32 (drop j bs')) (overwrite-split i xs bs)
    ∙ ap (λ n. wrap_signed w32 (pos n)) (read_le-before j 4 i bs _ h h')

drop-overwrite_later :
    (d i : ℕ) (xs bs : Bytes)
    → i + length xs ≤ length bs
    → drop (i + (length xs + d)) (overwrite i xs bs) ≡ drop (i + length xs + d) bs
drop-overwrite_later d i xs bs h =
    drop-drop i (length xs + d) (overwrite i xs bs)
    ∙ ap (drop (length xs + d)) (drop-overwrite i xs bs h)
    ∙ drop-drop (length xs) d (xs ++ drop (i + length xs) bs)
    ∙ ap (drop d) (drop-append xs (drop (i + length xs) bs))
    ∙ sym (drop-drop (i + length xs) d bs)

split_after : (i k j : ℕ) → i + k ≤ j → j ≡ i + (k + (j - i - k))
split_after i k j h = omega (arith, h)

split_after' : (i k j : ℕ) → i + k ≤ j → i + k + (j - i - k) ≡ j
split_after' i k j h = omega (arith, h)

pub drop-overwrite_after :
    (j i : ℕ) (xs bs : Bytes)
    → i + length xs ≤ j
    → i + length xs ≤ length bs
    → drop j (overwrite i xs bs) ≡ drop j bs
drop-overwrite_after j i xs bs h h' =
    ap (λ n. drop n (overwrite i xs bs)) (split_after i (length xs) j h)
    ∙ drop-overwrite_later (j - i - length xs) i xs bs h'
    ∙ ap (λ n. drop n bs) (split_after' i (length xs) j h)

pub read-overwrite :
    (i : ℕ) (z : ℤ) (bs : Bytes)
    → InSigned w32 z
    → i + 4 ≤ length bs
    → read_signed w32 (drop i (overwrite i (write_signed w32 z) bs)) ≡ z
read-overwrite i z bs h h' =
    ap (read_signed w32)
      (drop-overwrite i (write_signed w32 z) bs (omega (arith, h', length-write_signed z)))
    ∙ read_signed-write_signed w32 z _ h

-- A write of four bytes at an offset, and a read of four at another one.
pub read-overwrite_apart :
    (j i : ℕ) (z : ℤ) (bs : Bytes)
    → (j + 4 ≤ i) ⊎ (i + 4 ≤ j)
    → i + 4 ≤ length bs
    → read_signed w32 (drop j (overwrite i (write_signed w32 z) bs)) ≡ read_signed w32 (drop j bs)
read-overwrite_apart j i z bs (inl h) h' = read-overwrite_before j i _ bs h (omega (arith, h'))
read-overwrite_apart j i z bs (inr h) h' = ap (read_signed w32) (
    drop-overwrite_after j i (write_signed w32 z) bs (omega (arith, h, length-write_signed z))
      (omega (arith, h', length-write_signed z)))

pub length-written :
    (i : ℕ) (z : ℤ) (bs : Bytes)
    → i + 4 ≤ length bs
    → length (overwrite i (write_signed w32 z) bs) ≡ length bs
length-written i z bs h =
    length-overwrite i (write_signed w32 z) bs (omega (arith, h, length-write_signed z))

abbrev pub with_header : ℤ → ℤ → ℤ → ℤ → Bytes → Bytes
with_header len id to code bs =
    set_op_code code (set_response_to to (set_request_id id (set_message_length len bs)))

-- The four numbers of a header, set one after the other in a message that has room for it, are each
-- read back, for numbers of 32 bits, and the data are as they were.
pub header_read_back :
    (len id to code : ℤ) (bs : Bytes)
    → InSigned w32 len
    → InSigned w32 id
    → InSigned w32 to
    → InSigned w32 code
    → header_size ≤ length bs
    → (message_length (with_header len id to code bs) ≡ len)
      × (request_id (with_header len id to code bs) ≡ id)
      × (response_to (with_header len id to code bs) ≡ to)
      × (op_code (with_header len id to code bs) ≡ code)
      × (data_of (with_header len id to code bs) ≡ data_of bs)
unfolding message_length request_id response_to op_code set_message_length set_request_id
    set_response_to set_op_code data_of
header_read_back len id to code bs hl hi ht hc room =
    let b1 = overwrite 0 (write_signed w32 len) bs in
    let b2 = overwrite 4 (write_signed w32 id) b1 in
    let b3 = overwrite 8 (write_signed w32 to) b2 in
    let l1 = length-written 0 len bs (omega (arith, room)) in
    let l2 = length-written 4 id b1 (omega (arith, room, l1)) in
    let l3 = length-written 8 to b2 (omega (arith, room, l1, l2)) in
    (
      read-overwrite_apart 0 12 code b3 (inl (omega arith)) (omega (arith, room, l1, l2, l3))
          ∙ read-overwrite_apart 0 8 to b2 (inl (omega arith)) (omega (arith, room, l1, l2))
          ∙ read-overwrite_apart 0 4 id b1 (inl (omega arith)) (omega (arith, room, l1))
          ∙ read-overwrite 0 len bs hl (omega (arith, room)),
      read-overwrite_apart 4 12 code b3 (inl (omega arith)) (omega (arith, room, l1, l2, l3))
          ∙ read-overwrite_apart 4 8 to b2 (inl (omega arith)) (omega (arith, room, l1, l2))
          ∙ read-overwrite 4 id b1 hi (omega (arith, room, l1)),
      read-overwrite_apart 8 12 code b3 (inl (omega arith)) (omega (arith, room, l1, l2, l3))
          ∙ read-overwrite 8 to b2 ht (omega (arith, room, l1, l2)),
      read-overwrite 12 code b3 hc (omega (arith, room, l1, l2, l3)),
      after 12 code b3 (omega arith) (omega (arith, room, l1, l2, l3))
          ∙ after 8 to b2 (omega arith) (omega (arith, room, l1, l2))
          ∙ after 4 id b1 (omega arith) (omega (arith, room, l1))
          ∙ after 0 len bs (omega arith) (omega (arith, room)),
    )
  where
    after :
        (i : ℕ) (z : ℤ) (bs : Bytes)
        → i + 4 ≤ 16
        → i + 4 ≤ length bs
        → drop 16 (overwrite i (write_signed w32 z) bs) ≡ drop 16 bs
    after i z bs h h' =
        drop-overwrite_after 16 i (write_signed w32 z) bs (omega (arith, h, length-write_signed z))
          (omega (arith, h', length-write_signed z))
