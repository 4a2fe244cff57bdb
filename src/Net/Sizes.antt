-- ===== src/Net/Sizes.antt =====
-- The sizes of messages: what setData makes, and that the header's length counts all buffers.
use mathlib.Core.Path.{subst}
use streamsx_mongo_db.Net.Overwrites.{read-overwrite, length-written}
use streamsx_mongo_db.Prelude.{
  ◌≡◌, refl, sym, ap, ◌∙◌, Bool, true, false, Option, some, none, List, [], ◌∷◌, ◌++◌, Bytes,
  is_empty, arith, ◌⊎◌, Bool-cases, inl, inr, ◌≤◌, length,
}
use streamsx_mongo_db.Prelude.Int.{ℤ, pos, ◌+ℤ◌, ltb_ℤ}
use mathlib.Core.Bool.{false≢true}
use streamsx_mongo_db.Prelude.Words.{w32, InSigned}
use streamsx_mongo_db.Net.Headers.{get_len, set_len, message_length, set_message_length}
use streamsx_mongo_db.Net.Messages.{
  Message, is_empty_message, message_size, append_data, sum_sizes, grow_header, as_pieces, put_data,
}

-- The first buffer has room for the length in its header, which is the sum of the buffers' sizes, and
-- a message with a buffer of its own has no sequence.
abbrev pub PiecesCounted : List (Bytes × ℤ) → Type 0
PiecesCounted [] = Unit
PiecesCounted (p ∷ ps) = (4 ≤ length p.0) × (get_len p.0 ≡ sum_sizes (pos 0) (p ∷ ps))

abbrev pub IsWellCounted : Message → Type 0
IsWellCounted m = elim m.buffer [
  | none ↦ PiecesCounted m.pieces
  | some b ↦ (4 ≤ length b) × (m.pieces ≡ [])
]

pub get_len-set_len :
    (z : ℤ) (bs : Bytes) → InSigned w32 z → 4 ≤ length bs → get_len (set_len z bs) ≡ z
unfolding get_len set_len message_length set_message_length
get_len-set_len z bs h room = read-overwrite 0 z bs h (omega (arith, room))

length-set_len : (z : ℤ) (bs : Bytes) → 4 ≤ length bs → length (set_len z bs) ≡ length bs
unfolding set_len set_message_length
length-set_len z bs room = length-written 0 z bs (omega (arith, room))

sum_sizes-snoc :
    (acc : ℤ) (ps : List (Bytes × ℤ)) (p : Bytes × ℤ)
    → sum_sizes acc (ps ++ (p ∷ [])) ≡ sum_sizes acc ps +ℤ p.1
unfolding sum_sizes
sum_sizes-snoc acc [] p = refl
sum_sizes-snoc acc (q ∷ ps) p = sum_sizes-snoc (acc +ℤ q.1) ps p

sum_sizes-grow_header :
    (size acc : ℤ) (ps : List (Bytes × ℤ)) → sum_sizes acc (grow_header size ps) ≡ sum_sizes acc ps
unfolding sum_sizes grow_header
sum_sizes-grow_header size acc [] = refl
sum_sizes-grow_header size acc (p ∷ ps) = refl

-- Another buffer at the end.
grown :
    (ps : List (Bytes × ℤ)) (d : Bytes) (size : ℤ)
    → PiecesCounted ps
    → is_empty ps ≡ false
    → InSigned w32 (sum_sizes (pos 0) ps +ℤ size)
    → PiecesCounted (grow_header size (ps ++ ((d, size) ∷ [])))
unfolding grow_header sum_sizes
grown [] d size c nonempty h = absurd (false≢true (sym nonempty))
grown (p ∷ ps) d size (room, c) nonempty h = (
  omega (arith, room, length-set_len (get_len p.0 +ℤ size) p.0 room),
  get_len-set_len (get_len p.0 +ℤ size) p.0 (subst (λ z. InSigned w32 (z +ℤ size)) (sym c) h) room
      ∙ ap (λ z. z +ℤ size) c
      ∙ sym (sum_sizes-snoc (pos 0 +ℤ p.1) ps (d, size)),
)

zero_add : (z : ℤ) → pos 0 +ℤ z ≡ z
unfolding ◌+ℤ◌
zero_add z = ground arith

-- What is counted before another buffer is added.
pieces_before :
    (buffer : Option Bytes) (ps : List (Bytes × ℤ)) (free : Bool)
    → IsWellCounted (record { buffer = buffer; pieces = ps; free_it = free })
    → is_empty_message (record { buffer = buffer; pieces = ps; free_it = free }) ≡ false
    → (PiecesCounted (as_pieces (record { buffer = buffer; pieces = ps; free_it = free })))
      × (is_empty (as_pieces (record { buffer = buffer; pieces = ps; free_it = free })) ≡ false)
      × (sum_sizes (pos 0) (as_pieces (record { buffer = buffer; pieces = ps; free_it = free }))
          ≡ message_size (record { buffer = buffer; pieces = ps; free_it = free }))
unfolding as_pieces is_empty_message message_size
pieces_before none ps free c nonempty = (c, nonempty, refl)
pieces_before (some b) [] free c nonempty =
    ((c.0, sym (zero_add (get_len b))), refl, zero_add (get_len b))
pieces_before (some b) (p ∷ ps) free c nonempty = absurd (false≢true (ap is_empty c.1))

appended_first :
    (d : Bytes) (size : ℤ) (m : Message)
    → ltb_ℤ (pos 0) size ≡ true
    → is_empty_message m ≡ true
    → append_data d size m ≡ some (put_data (set_len size d) true m)
unfolding append_data
appended_first d size m positive e = rw (positive, e)

appended_later :
    (d : Bytes) (size : ℤ) (m : Message)
    → ltb_ℤ (pos 0) size ≡ true
    → is_empty_message m ≡ false
    → m.free_it ≡ true
    → append_data d size m
      ≡ some
          (record m { buffer = none; pieces = grow_header size (as_pieces m ++ ((d, size) ∷ [])) })
unfolding append_data
appended_later d size m positive e free = rw (positive, e, free)

empty_size :
    (buffer : Option Bytes) (ps : List (Bytes × ℤ)) (free : Bool)
    → is_empty_message (record { buffer = buffer; pieces = ps; free_it = free }) ≡ true
    → (ps ≡ []) × (message_size (record { buffer = buffer; pieces = ps; free_it = free }) ≡ pos 0)
unfolding is_empty_message message_size sum_sizes
empty_size none [] free e = (refl, refl)
empty_size none (p ∷ ps) free e = absurd (false≢true e)
empty_size (some b) ps free e = absurd (false≢true e)

-- The size of a message that became a sequence.
later_size :
    (m : Message) (d : Bytes) (size : ℤ)
    → IsWellCounted m
    → is_empty_message m ≡ false
    → sum_sizes (pos 0) (grow_header size (as_pieces m ++ ((d, size) ∷ [])))
      ≡ message_size m +ℤ size
later_size m d size c nonempty =
    let (counted, some_pieces, total) = pieces_before m.buffer m.pieces m.free_it c nonempty in
    sum_sizes-grow_header size (pos 0) (as_pieces m ++ ((d, size) ∷ []))
    ∙ sum_sizes-snoc (pos 0) (as_pieces m) (d, size)
    ∙ ap (λ z. z +ℤ size) total

owned_if_not_empty :
    (m : Message)
    → is_empty_message m ≡ false
    → (is_empty_message m ≡ true) ⊎ (m.free_it ≡ true)
    → m.free_it ≡ true
owned_if_not_empty m e (inl e') = absurd (false≢true (sym e ∙ e'))
owned_if_not_empty m e (inr free) = free

-- A buffer of positive size with room for a length that is appended to a well counted message that is
-- empty or owns its buffers gives a well counted message that owns them, whose size is the sum, below
-- 2 ^ 31.
pub append_data-IsWellCounted :
    (d : Bytes) (size : ℤ) (m : Message)
    → IsWellCounted m
    → 4 ≤ length d
    → (is_empty_message m ≡ true) ⊎ (m.free_it ≡ true)
    → ltb_ℤ (pos 0) size ≡ true
    → InSigned w32 (message_size m +ℤ size)
    → (m' : Message) × (append_data d size m ≡ some m')
      × IsWellCounted m'
      × (m'.free_it ≡ true)
      × (message_size m' ≡ message_size m +ℤ size)
unfolding put_data message_size
append_data-IsWellCounted d size m c room owner positive small =
    elim (Bool-cases (is_empty_message m)) [
      | inl e ↦
          let (no_pieces, zero_size) = empty_size m.buffer m.pieces m.free_it e in
          let total = ap (λ z. z +ℤ size) zero_size ∙ zero_add size in
          (
            put_data (set_len size d) true m,
            appended_first d size m positive e,
            (omega (arith, room, length-set_len size d room), no_pieces),
            refl,
            get_len-set_len size d (subst (InSigned w32) total small) room ∙ sym total,
          )
      | inr e ↦
          let (counted, some_pieces, total) = pieces_before m.buffer m.pieces m.free_it c e in
          (
            record m { buffer = none; pieces = grow_header size (as_pieces m ++ ((d, size) ∷ [])) },
            appended_later d size m positive e (owned_if_not_empty m e owner),
            grown (as_pieces m) d size counted some_pieces
                (subst (λ z. InSigned w32 (z +ℤ size)) (sym total) small),
            owned_if_not_empty m e owner,
            later_size m d size c e,
          )
    ]
