-- ===== src/Net/Contents.antt =====
-- What a message holds: after setData, and after concat.
use mathlib.Core.List.{append-nil, append_assoc}
use mathlib.Core.Path.{subst}
use streamsx_mongo_db.Wire.Reader.{take_bytes}
use streamsx_mongo_db.Wire.Readback.{take_bytes-append, drop-append}
use streamsx_mongo_db.Prelude.{
  ℕ, ◌+◌, ◌≤◌, ◌≡◌, refl, ap, sym, All, length-append, ◌∙◌, true, some, none, List, [], ◌∷◌, ◌++◌,
  Bytes, drop, length, arith, inl,
}
use streamsx_mongo_db.Prelude.Int.{ℤ, pos, pos_part}
use streamsx_mongo_db.Prelude.Words.{w32, InSigned, wrap_signed}
use streamsx_mongo_db.Wire.Numbers.{write_signed, read_signed}
use streamsx_mongo_db.Wire.Frame.{overwrite}
use streamsx_mongo_db.Wire.Framed.{length-write_signed}
use streamsx_mongo_db.Wire.Views.{drop-overwrite}
use streamsx_mongo_db.Net.Headers.{
  get_len, set_len, get_operation, set_operation, data_of, header_size, message_length,
  set_message_length, op_code, set_op_code,
}
use streamsx_mongo_db.Net.Messages.{
  Message, is_empty_message, message_size, header_of, operation_of, set_data_bytes, single_data,
  put_data, concat, joined, reset_message,
}
use streamsx_mongo_db.Net.Overwrites.{
  read-overwrite, read-overwrite_apart, drop-overwrite_after, length-written, length-overwrite,
  read_le-take_bytes, length-take_bytes,
}
use streamsx_mongo_db.Net.Sizes.{PiecesCounted}

drop-length : (bs : Bytes) → drop (length bs) bs ≡ []
drop-length [] = refl
drop-length (b ∷ bs) = drop-length bs

-- The buffer that setData fills in.
abbrev pub filled : Bytes → ℤ → Bytes → Bytes
filled fresh op text =
    set_operation op (set_len (pos (length text + header_size)) (overwrite header_size text fresh))

filled_lem :
    (fresh : Bytes) (op : ℤ) (text : Bytes)
    → length fresh ≡ length text + header_size
    → InSigned w32 op
    → InSigned w32 (pos (length text + header_size))
    → (get_len (filled fresh op text) ≡ pos (length text + header_size))
      × (get_operation (filled fresh op text) ≡ op)
      × (data_of (filled fresh op text) ≡ text)
unfolding get_len get_operation data_of set_len set_operation message_length op_code
    set_message_length set_op_code
filled_lem fresh op text room ho hl =
    let b0 = overwrite 16 text fresh in
    let b1 = overwrite 0 (write_signed w32 (pos (length text + header_size))) b0 in
    let l0 = length-overwrite 16 text fresh (omega (arith, room)) in
    let l1 = length-written 0 (pos (length text + header_size)) b0 (omega (arith, room, l0)) in
    (
      read-overwrite_apart 0 12 op b1 (inl (omega arith)) (omega (arith, room, l0, l1))
          ∙ read-overwrite 0 (pos (length text + header_size)) b0 hl (omega (arith, room, l0)),
      read-overwrite 12 op b1 ho (omega (arith, room, l0, l1)),
      drop-overwrite_after 16 12 (write_signed w32 op) b1 (omega (arith, length-write_signed op))
            (omega (arith, room, l0, l1, length-write_signed op))
          ∙ drop-overwrite_after 16 0 (write_signed w32 (pos (length text + header_size))) b0
              (omega (arith, length-write_signed (pos (length text + header_size))))
              (omega (arith, room, l0, length-write_signed (pos (length text + header_size))))
          ∙ drop-overwrite 16 text fresh (omega (arith, room))
          ∙ ap (λ n. text ++ drop n fresh) (total_room (length text) (length fresh) room)
          ∙ ap (λ bs. text ++ bs) (drop-length fresh)
          ∙ append-nil text,
    )
  where
    total_room : (k n : ℕ) → n ≡ k + 16 → 16 + k ≡ n
    total_room k n h = omega (arith, h)

-- setData with an operation and a text fills an empty message: its size is the text's and the
-- header's, its operation the one given and its data the text, for memory of the size that is asked
-- for, an operation of 32 bits and a size of 31 bits.
pub set_data_bytes-filled :
    (fresh : Bytes) (op : ℤ) (text : Bytes) (m : Message)
    → is_empty_message m ≡ true
    → length fresh ≡ length text + header_size
    → InSigned w32 op
    → InSigned w32 (pos (length text + header_size))
    → (m' : Message) × (set_data_bytes fresh op text m ≡ some m')
      × (message_size m' ≡ pos (length text + header_size))
      × (operation_of m' ≡ some op)
      × (data_of (filled fresh op text) ≡ text)
      × (single_data m' ≡ some (filled fresh op text))
unfolding set_data_bytes message_size operation_of header_of put_data single_data
set_data_bytes-filled fresh op text m e room ho hl =
    let (len, operation, content) = filled_lem fresh op text room ho hl in
    (put_data (filled fresh op text) true m, rw e, len, ap some operation, content, refl)

get_len-joined :
    (p : Bytes × ℤ) (ps : List (Bytes × ℤ))
    → 4 ≤ pos_part p.1
    → pos_part p.1 ≤ length p.0
    → get_len (joined (p ∷ ps)) ≡ get_len p.0
unfolding get_len message_length read_signed joined
get_len-joined p ps h h' =
    ap (λ n. wrap_signed w32 (pos n)) (read_le-take_bytes 4 (pos_part p.1) p.0 (joined ps) h h')

-- Every buffer has the bytes that its size says.
abbrev pub AreWhole : List (Bytes × ℤ) → Type 0
AreWhole ps = All (λ p. pos_part p.1 ≤ length p.0) ps

-- The buffers' bytes, as many of each as its size says, stand in the bytes one after the other from
-- this place on, and nothing follows them.
abbrev pub StandsFrom : ℕ → List (Bytes × ℤ) → Bytes → Type 0
StandsFrom i [] bs = length bs ≡ i
StandsFrom i (p ∷ ps) bs =
    (take_bytes (pos_part p.1) (drop i bs) ≡ take_bytes (pos_part p.1) p.0)
    × StandsFrom (i + pos_part p.1) ps bs

take_bytes-of : (k : ℕ) (xs ys : Bytes) → length xs ≡ k → take_bytes k (xs ++ ys) ≡ xs
take_bytes-of k xs ys h = sym (ap (λ m. take_bytes m (xs ++ ys)) h) ∙ take_bytes-append xs ys

joined-StandsFrom :
    (before : Bytes) (ps : List (Bytes × ℤ)) (i : ℕ)
    → AreWhole ps
    → length before ≡ i
    → StandsFrom i ps (before ++ joined ps)
unfolding joined
joined-StandsFrom before [] i whole l = ap length (append-nil before) ∙ l
joined-StandsFrom before (p ∷ ps) i whole l =
    let n = pos_part p.1 in
    let piece = take_bytes n p.0 in
    let long : length piece ≡ n = length-take_bytes n p.0 whole.0 in
    (
      ap (λ k. take_bytes n (drop k (before ++ (piece ++ joined ps)))) (sym l)
          ∙ ap (take_bytes n) (drop-append before (piece ++ joined ps))
          ∙ take_bytes-of n piece (joined ps) long,
      subst (StandsFrom (i + n) ps) (append_assoc before piece (joined ps)) (
          joined-StandsFrom (before ++ piece) ps (i + n) whole.1
            (omega (arith, l, long, length-append before piece))),
    )

-- concat of a sequence of owned buffers whose header counts them, each with the bytes that its size
-- says and the first with four at least, leaves one buffer: the buffers' bytes one after the other in
-- order, and no others; and the size is as it was.
pub concat-joined :
    (p : Bytes × ℤ) (ps : List (Bytes × ℤ))
    → PiecesCounted (p ∷ ps)
    → 4 ≤ pos_part p.1
    → AreWhole (p ∷ ps)
    → (m' : Message) × (bs : Bytes) × (concat
          (record { buffer = none; pieces = p ∷ ps; free_it = true })
        ≡ some m')
      × (single_data m' ≡ some bs)
      × StandsFrom 0 (p ∷ ps) bs
      × (message_size m' ≡ message_size (record { buffer = none; pieces = p ∷ ps; free_it = true }))
unfolding concat single_data message_size put_data reset_message
concat-joined p ps counted h whole = (
  _,
  joined (p ∷ ps),
  refl,
  refl,
  joined-StandsFrom [] (p ∷ ps) 0 whole refl,
  get_len-joined p ps h whole.0 ∙ counted.1,
)
