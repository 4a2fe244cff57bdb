-- ===== src/Client/Connections.antt =====
-- client/dbclientinterface.h: DBClientBase and DBClientConnection. The socket, its port and the
-- connecting to a host are compiled elsewhere, parameters.
use streamsx_mongo_db.Prelude.{
  ℕ, Bool, true, Option, none, some, [], ◌++◌, Bytes, bytes, is_empty, if◌then◌else◌, ◌⊎◌, inl, inr,
}
use streamsx_mongo_db.Prelude.Int.{ℤ, ◌-ℤ◌, pos}
use streamsx_mongo_db.Client.Servers.{HostAndPort, ConnectionType, master}

pub record ClientBase {ℓ} (WriteConcern : Type ℓ) : Type ℓ where
  pub connection_id : ℤ
  pub write_concern : WriteConcern
  pub min_wire_version : ℤ
  pub max_wire_version : ℤ
  pub max_bson_object_size : ℤ
  pub max_message_size_bytes : ℤ
  pub max_write_batch_size : ℤ

module _ {ℓ} {WriteConcern : Type ℓ} where
  unfoldable pub set_write_concern :
      WriteConcern → ClientBase WriteConcern → ClientBase WriteConcern
  set_write_concern wc c = record c { write_concern = wc }

  unfoldable pub set_wire_versions : ℤ → ℤ → ClientBase WriteConcern → ClientBase WriteConcern
  set_wire_versions low high c = record c { min_wire_version = low; max_wire_version = high }

-- The port is none before the first `connect`.
pub record ClientConnection {ℓ} (Port : Type ℓ) : Type ℓ where
  pub messaging_port : Option Port
  pub has_failed : Bool
  pub server_host : HostAndPort
  pub server_string : Bytes
  pub server_addr_string : Bytes

-- What `connect` to a text ends in: an answer with the message, or an exception with its code.
pub data Connecting {ℓ} (World : Type ℓ) : Type ℓ where
  answered : Bool → Bytes → World → Connecting World
  threw_exception : ℕ → Bytes → World → Connecting World

-- `HostAndPort(text)`, which throws on a text that is no host, and `connect` to a host.
module _ {ℓ} {World : Type ℓ} (host_of_text : Bytes → Bytes ⊎ HostAndPort)
    (connect_host : HostAndPort → World → Bool × (Bytes × World)) (bad_host_code : ℕ) where
  unfoldable pub connect_text : Bytes → World → Connecting World
  connect_text server w = elim (host_of_text server) [
    | inl message ↦ threw_exception bad_host_code message w
    | inr host ↦ let (ok, (message, w')) = connect_host host w in answered ok message w'
  ]

  -- ConnectException has the code 9000.
  unfoldable pub connect_or_throw : Bytes → World → Connecting World
  connect_or_throw server w = elim (host_of_text server) [
    | inl message ↦ threw_exception bad_host_code message w
    | inr host ↦
        let (ok, (message, w')) = connect_host host w in
        if ok
        then answered true message w'
        else threw_exception 9000 (bytes "can't connect " ++ message) w'
  ]

module _ {ℓ} {Port : Type ℓ} where
  unfoldable pub is_failed_connection : ClientConnection Port → Bool
  is_failed_connection c = c.has_failed

  unfoldable pub is_still_connected : (Port → Bool) → ClientConnection Port → Bool
  is_still_connected port_connected c = elim c.messaging_port [
    | none ↦ true
    | some p ↦ port_connected p
  ]

  -- None where `verify` fails.
  unfoldable pub port_of : ClientConnection Port → Option Port
  port_of c = c.messaging_port

  unfoldable pub connection_text : ClientConnection Port → Bytes
  connection_text c =
      (c.server_string
        ++ (if is_empty c.server_addr_string
            then []
            else bytes " (" ++ (c.server_addr_string ++ bytes ")")))
      ++ (if c.has_failed then bytes " failed" else [])

  -- `_checkConnection`, which reconnects, is compiled elsewhere.
  unfoldable pub check_connected :
      (ClientConnection Port → ClientConnection Port)
      → ClientConnection Port
      → ClientConnection Port
  check_connected reconnect c = if c.has_failed then reconnect c else c

  unfoldable pub type_of_connection : ClientConnection Port → ConnectionType
  type_of_connection c = master

-- The number of connections, after one is destroyed.
unfoldable pub connection_destroyed : ℤ → ℤ
unfolding ◌-ℤ◌
connection_destroyed n = n -ℤ pos 1
