-- ===== src/Net/Messages.antt =====
-- util/net/message.h: Message, which holds one buffer or a sequence of them. A pointer stands for the
-- bytes from it on; what `free` does is not modelled, and a message is what remains of the object.
use streamsx_mongo_db.Prelude.{
  ◌+◌, Bool, true, false, not, ◌&&◌, Option, none, some, List, [], ◌∷◌, ◌++◌, Bytes, length,
  is_empty, if◌then◌else◌,
}
use streamsx_mongo_db.Prelude.Int.{ℤ, pos, ◌+ℤ◌, ◌-ℤ◌, ltb_ℤ, pos_part}
use streamsx_mongo_db.Wire.Frame.{overwrite}
use streamsx_mongo_db.Wire.Reader.{take_bytes}
use streamsx_mongo_db.Net.Headers.{get_len, set_len, get_operation, set_operation, header_size}

-- `_buf`, `_data` and `_freeIt`.
pub record Message : Type 0 where
  pub buffer : Option Bytes
  pub pieces : List (Bytes × ℤ)
  pub free_it : Bool

unfoldable pub empty_message : Message
empty_message = record { buffer = none; pieces = []; free_it = false }

unfoldable pub is_empty_message : Message → Bool
is_empty_message m = elim m.buffer [ none ↦ is_empty m.pieces | some b ↦ false ]

-- None where `verify(!empty())` fails.
unfoldable pub header_of : Message → Option Bytes
header_of m = first m.buffer m.pieces
  where
    first : Option Bytes → List (Bytes × ℤ) → Option Bytes
    first (some b) ps = some b
    first none [] = none
    first none (p ∷ ps) = some p.0

unfoldable pub operation_of : Message → Option ℤ
unfolding header_of get_operation
operation_of m = elim (header_of m) [ none ↦ none | some h ↦ some (get_operation h) ]

-- None where `massert` throws.
unfoldable pub single_data : Message → Option Bytes
single_data m = m.buffer

unfoldable pub sum_sizes : ℤ → List (Bytes × ℤ) → ℤ
unfolding ◌+ℤ◌
sum_sizes res [] = res
sum_sizes res (p ∷ ps) = sum_sizes (res +ℤ p.1) ps

unfoldable pub message_size : Message → ℤ
unfolding get_len sum_sizes
message_size m = elim m.buffer [ none ↦ sum_sizes (pos 0) m.pieces | some b ↦ get_len b ]

unfoldable pub data_size : Message → ℤ
unfolding message_size ◌-ℤ◌
data_size m = message_size m -ℤ pos header_size

unfoldable pub reset_message : Message → Message
reset_message m = record { buffer = none; pieces = []; free_it = false }

-- `_setData`.
unfoldable pub put_data : Bytes → Bool → Message → Message
put_data d owned m = record m { buffer = some d; free_it = owned }

-- `memcpy` of each piece.
unfoldable pub joined : List (Bytes × ℤ) → Bytes
unfolding take_bytes
joined [] = []
joined (p ∷ ps) = take_bytes (pos_part p.1) p.0 ++ joined ps

-- None where `verify` fails.
unfoldable pub concat : Message → Option Message
unfolding is_empty_message joined reset_message put_data
concat m = elim m.buffer [
  | some b ↦ some m
  | none ↦
      if is_empty m.pieces
      then some m
      else if m.free_it
      then some (put_data (joined m.pieces) true (reset_message m))
      else none
]

-- `operator=`: this message and the other one afterwards.
unfoldable pub take_over : Message → Message → Option (Message × Message)
unfolding is_empty_message
take_over m r =
    if is_empty_message m && r.free_it
    then some (
      record m { buffer = r.buffer; pieces = r.pieces; free_it = true },
      record r { buffer = none; pieces = m.pieces; free_it = false },
    )
    else none

-- The length in the header, which is the first buffer's, grows.
unfoldable pub grow_header : ℤ → List (Bytes × ℤ) → List (Bytes × ℤ)
unfolding set_len get_len ◌+ℤ◌
grow_header size [] = []
grow_header size (p ∷ ps) = (set_len (get_len p.0 +ℤ size) p.0, p.1) ∷ ps

-- The buffers as a sequence, before another is added.
unfoldable pub as_pieces : Message → List (Bytes × ℤ)
unfolding get_len
as_pieces m = elim m.buffer [ none ↦ m.pieces | some b ↦ m.pieces ++ ((b, get_len b) ∷ []) ]

unfoldable pub append_data : Bytes → ℤ → Message → Option Message
unfolding is_empty_message set_len put_data as_pieces grow_header
append_data d size m =
    if not (ltb_ℤ (pos 0) size)
    then some m
    else if is_empty_message m
    then some (put_data (set_len size d) true m)
    else if m.free_it
    then some
        (record m { buffer = none; pieces = grow_header size (as_pieces m ++ ((d, size) ∷ [])) })
    else none

unfoldable pub set_data : Bytes → Bool → Message → Option Message
unfolding is_empty_message put_data
set_data d owned m = if is_empty_message m then some (put_data d owned m) else none

-- What `malloc` returns is the argument `fresh`.
unfoldable pub set_data_bytes : Bytes → ℤ → Bytes → Message → Option Message
unfolding is_empty_message set_len set_operation put_data overwrite
set_data_bytes fresh op text m =
    if is_empty_message m
    then some (
        put_data
          (set_operation op
            (set_len (pos (length text + header_size)) (overwrite header_size text fresh)))
          true m)
    else none

-- The text with its zero byte.
unfoldable pub set_data_text : Bytes → ℤ → Bytes → Message → Option Message
unfolding set_data_bytes
set_data_text fresh op text m = set_data_bytes fresh op (text ++ (0 ∷ [])) m
