-- ===== src/Net/Headers.antt =====
-- util/net/message.h and operation.h: operation codes, and the views of a message's header and data on
-- the bytes from its start.
use streamsx_mongo_db.Prelude.{
  ℕ, zero, Bool, true, false, not, ◌&&◌, ◌||◌, Option, none, some, Bytes, bytes, drop, ◌==◌,
  if◌then◌else◌, ◌*◌,
}
use streamsx_mongo_db.Prelude.Int.{ℤ, pos, negsuc, ltb_ℤ, ◌-ℤ◌}
use streamsx_mongo_db.Prelude.Words.{w32, w64, wrap_signed, wrap_unsigned}
use streamsx_mongo_db.Wire.Numbers.{read_signed, write_signed}
use streamsx_mongo_db.Wire.Frame.{overwrite}
use streamsx_mongo_db.Wire.Objects.{object_max_size}

pub data Operation : Type 0 where
  op_reply db_msg db_update db_insert db_query db_get_more db_delete db_kill_cursors : Operation

unfoldable pub code_of : Operation → ℕ
code_of op_reply = 1
code_of db_msg = 1000
code_of db_update = 2001
code_of db_insert = 2002
code_of db_query = 2004
code_of db_get_more = 2005
code_of db_delete = 2006
code_of db_kill_cursors = 2007

unfoldable pub operation_of_code : ℤ → Option Operation
unfolding code_of
operation_of_code (negsuc k) = none
operation_of_code (pos n) =
    if n == code_of op_reply
    then some op_reply
    else if n == code_of db_msg
    then some db_msg
    else if n == code_of db_update
    then some db_update
    else if n == code_of db_insert
    then some db_insert
    else if n == code_of db_query
    then some db_query
    else if n == code_of db_get_more
    then some db_get_more
    else if n == code_of db_delete
    then some db_delete
    else if n == code_of db_kill_cursors
    then some db_kill_cursors
    else none

unfoldable pub name_of_operation : Operation → Bytes
name_of_operation op_reply = bytes "reply"
name_of_operation db_msg = bytes "msg"
name_of_operation db_update = bytes "update"
name_of_operation db_insert = bytes "insert"
name_of_operation db_query = bytes "query"
name_of_operation db_get_more = bytes "getmore"
name_of_operation db_delete = bytes "remove"
name_of_operation db_kill_cursors = bytes "killcursors"

-- None where `massert` throws.
unfoldable pub op_to_string : ℤ → Option Bytes
unfolding operation_of_code name_of_operation
op_to_string (pos zero) = some (bytes "none")
op_to_string op = elim (operation_of_code op) [ none ↦ none | some o ↦ some (name_of_operation o) ]

unfoldable pub is_write : Operation → Bool
is_write db_update = true
is_write db_insert = true
is_write db_delete = true
is_write _ = false

-- None where `verify(0)` fails.
unfoldable pub op_is_write : ℤ → Option Bool
unfolding operation_of_code is_write
op_is_write (pos zero) = some false
op_is_write op = elim (operation_of_code op) [ none ↦ none | some o ↦ some (is_write o) ]

-- `MSGHEADER::ConstView`: four numbers of 32 bits.
unfoldable pub message_length : Bytes → ℤ
unfolding read_signed
message_length bs = read_signed w32 bs

unfoldable pub request_id : Bytes → ℤ
unfolding read_signed
request_id bs = read_signed w32 (drop 4 bs)

unfoldable pub response_to : Bytes → ℤ
unfolding read_signed
response_to bs = read_signed w32 (drop 8 bs)

unfoldable pub op_code : Bytes → ℤ
unfolding read_signed
op_code bs = read_signed w32 (drop 12 bs)

unfoldable pub set_message_length : ℤ → Bytes → Bytes
unfolding overwrite write_signed
set_message_length value bs = overwrite 0 (write_signed w32 value) bs

unfoldable pub set_request_id : ℤ → Bytes → Bytes
unfolding overwrite write_signed
set_request_id value bs = overwrite 4 (write_signed w32 value) bs

unfoldable pub set_response_to : ℤ → Bytes → Bytes
unfolding overwrite write_signed
set_response_to value bs = overwrite 8 (write_signed w32 value) bs

unfoldable pub set_op_code : ℤ → Bytes → Bytes
unfolding overwrite write_signed
set_op_code value bs = overwrite 12 (write_signed w32 value) bs

-- `MsgData`: the header, then the data. Its identifiers are unsigned.
unfoldable pub get_len : Bytes → ℤ
unfolding message_length
get_len bs = message_length bs

unfoldable pub get_id : Bytes → ℤ
unfolding request_id wrap_unsigned
get_id bs = wrap_unsigned w32 (request_id bs)

unfoldable pub get_response_to : Bytes → ℤ
unfolding response_to wrap_unsigned
get_response_to bs = wrap_unsigned w32 (response_to bs)

unfoldable pub get_operation : Bytes → ℤ
unfolding op_code
get_operation bs = op_code bs

abbrev pub header_size : ℕ
header_size = 16

unfoldable pub data_of : Bytes → Bytes
data_of bs = drop header_size bs

unfoldable pub is_valid_message : Bytes → Bool
unfolding get_len get_operation
is_valid_message bs =
    if not (ltb_ℤ (pos 0) (get_len bs)) || ltb_ℤ (pos (4 * object_max_size)) (get_len bs)
    then false
    else if ltb_ℤ (get_operation bs) (pos 0) || ltb_ℤ (pos 30_000) (get_operation bs)
    then false
    else true

-- None where a `verify` fails.
unfoldable pub get_cursor : Bytes → Option ℤ
unfolding get_response_to operation_of_code get_operation data_of read_signed code_of
get_cursor bs =
    let is_reply =
      not (ltb_ℤ (get_operation bs) (pos (code_of op_reply)))
      && not (ltb_ℤ (pos (code_of op_reply)) (get_operation bs)) in
    if not (ltb_ℤ (pos 0) (get_response_to bs))
    then none
    else if is_reply
    then some (read_signed w64 (drop 4 (data_of bs)))
    else none

unfoldable pub data_len : Bytes → ℤ
unfolding get_len ◌-ℤ◌
data_len bs = get_len bs -ℤ pos header_size

unfoldable pub set_len : ℤ → Bytes → Bytes
unfolding set_message_length
set_len value bs = set_message_length value bs

unfoldable pub set_id : ℤ → Bytes → Bytes
unfolding set_request_id wrap_signed
set_id value bs = set_request_id (wrap_signed w32 value) bs

unfoldable pub set_response_id : ℤ → Bytes → Bytes
unfolding set_response_to wrap_signed
set_response_id value bs = set_response_to (wrap_signed w32 value) bs

unfoldable pub set_operation : ℤ → Bytes → Bytes
unfolding set_op_code
set_operation value bs = set_op_code value bs
