-- ===== src/Examples/Messages.antt =====
-- The theorems on messages at concrete buffers.
use streamsx_mongo_db.Prelude.{◌≡◌, refl, true, some, none, inr, [], ◌∷◌, Bytes, bytes, arith}
use streamsx_mongo_db.Prelude.Int.{pos, negsuc, ◌+ℤ◌}
use streamsx_mongo_db.Prelude.Words.{w32, InSigned}
use streamsx_mongo_db.Wire.Numbers.{read_signed, read_le}
use streamsx_mongo_db.Net.Headers.{
  message_length, request_id, response_to, op_code, data_of, get_len,
}
use streamsx_mongo_db.Net.Overwrites.{with_header, header_read_back}
use streamsx_mongo_db.Net.Messages.{
  Message, empty_message, message_size, append_data, set_data_bytes, operation_of, single_data,
  is_empty_message, concat, sum_sizes,
}
use streamsx_mongo_db.Net.Sizes.{IsWellCounted, PiecesCounted, append_data-IsWellCounted}
use streamsx_mongo_db.Net.Contents.{filled, StandsFrom, set_data_bytes-filled, concat-joined}

-- A header for 20 bytes, and its data.
abbrev a_buffer : Bytes
a_buffer = 20 ∷ 0 ∷ 0 ∷ 0 ∷ 7 ∷ 0 ∷ 0 ∷ 0 ∷ 0 ∷ 0 ∷ 0 ∷ 0 ∷ 210 ∷ 7 ∷ 0 ∷ 0 ∷ 1 ∷ 2 ∷ 3 ∷ 4 ∷ []

abbrev a_message : Message
a_message = record { buffer = some a_buffer; pieces = []; free_it = true }

header_read_back_example :
    (message_length (with_header (pos 20) (pos 8) (negsuc 0) (pos 2004) a_buffer) ≡ pos 20)
    × (request_id (with_header (pos 20) (pos 8) (negsuc 0) (pos 2004) a_buffer) ≡ pos 8)
    × (response_to (with_header (pos 20) (pos 8) (negsuc 0) (pos 2004) a_buffer) ≡ negsuc 0)
    × (op_code (with_header (pos 20) (pos 8) (negsuc 0) (pos 2004) a_buffer) ≡ pos 2004)
    × (data_of (with_header (pos 20) (pos 8) (negsuc 0) (pos 2004) a_buffer) ≡ data_of a_buffer)
header_read_back_example =
    header_read_back (pos 20) (pos 8) (negsuc 0) (pos 2004) a_buffer (omega arith, omega arith)
      (omega arith, omega arith) (omega arith, omega arith) (omega arith, omega arith) (omega arith)

small_sum : InSigned w32 (message_size a_message +ℤ pos 4)
unfolding message_size get_len message_length read_signed read_le ◌+ℤ◌
small_sum = (omega arith, omega arith)

append_data-IsWellCounted_example :
    (m' : Message) × (append_data (bytes "abcd") (pos 4) a_message ≡ some m')
    × IsWellCounted m'
    × (m'.free_it ≡ true)
    × (message_size m' ≡ message_size a_message +ℤ pos 4)
append_data-IsWellCounted_example =
    append_data-IsWellCounted (bytes "abcd") (pos 4) a_message ((omega arith), refl) (omega arith)
      (inr refl) refl small_sum

nothing_there : is_empty_message empty_message ≡ true
unfolding is_empty_message empty_message
nothing_there = refl

set_data_bytes-filled_example :
    (m' : Message) × (set_data_bytes a_buffer (pos 1000) (bytes "ping") empty_message ≡ some m')
    × (message_size m' ≡ pos 20)
    × (operation_of m' ≡ some (pos 1000))
    × (data_of (filled a_buffer (pos 1000) (bytes "ping")) ≡ bytes "ping")
    × (single_data m' ≡ some (filled a_buffer (pos 1000) (bytes "ping")))
set_data_bytes-filled_example =
    set_data_bytes-filled a_buffer (pos 1000) (bytes "ping") empty_message nothing_there refl
      (omega arith, omega arith) (omega arith, omega arith)

counted : PiecesCounted ((a_buffer, pos 16) ∷ (bytes "abcd", pos 4) ∷ [])
unfolding get_len message_length read_signed read_le sum_sizes ◌+ℤ◌
counted = ((omega arith), refl)

concat-joined_example :
    (m' : Message) × (bs : Bytes) × (concat (record {
      buffer = none;
      pieces = (a_buffer, pos 16) ∷ (bytes "abcd", pos 4) ∷ [];
      free_it = true;
    })
      ≡ some m')
    × (single_data m' ≡ some bs)
    × StandsFrom 0 ((a_buffer, pos 16) ∷ (bytes "abcd", pos 4) ∷ []) bs
    × (message_size m'
        ≡ message_size (record {
          buffer = none;
          pieces = (a_buffer, pos 16) ∷ (bytes "abcd", pos 4) ∷ [];
          free_it = true;
        }))
concat-joined_example =
    concat-joined (a_buffer, pos 16) ((bytes "abcd", pos 4) ∷ []) counted (omega arith)
      ((omega arith), ((omega arith), tt))
