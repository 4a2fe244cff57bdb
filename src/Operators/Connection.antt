-- ===== src/Operators/Connection.antt =====
-- Common/MongoInclude_h.cgt, Common/MongoOperator_cpp.cgt and Common/ThreadCommon_cpp.cgt (under
-- com.ibm.streamsx.mongodb/com.ibm.streamsx.mongodb): names, start-up, and the connection that each
-- thread opens once.
use streamsx_mongo_db.Prelude.{
  ℕ, Bool, true, false, not, Option, none, some, ◌++◌, Bytes, bytes, decimal, if◌then◌else◌,
}
use streamsx_mongo_db.Bson.Document.{Fields}
use streamsx_mongo_db.Operators.Driver.{
  Profiling, connect, auth_document, auth_password, is_still_connected, set_profiling, Reply,
  returned, refused, raised, Driver, operator_error, M, ◌>>=◌, ◌>>◌, pure, throw, gets, modify,
  when, ask, perform, write_log,
}

-- The `authentication` parameter's document, or the `username` and `password` parameters.
pub data Credentials : Type 0 where
  no_credentials : Credentials
  authentication : Fields → Credentials
  user : Bytes → Bytes → Credentials

-- The operator's parameters, evaluated.
pub record Config : Type 0 where
  pub db_host : Bytes
  pub db_port : ℕ
  pub auto_reconnect : Bool
  pub credentials : Credentials
  pub profiling : Option Profiling

unfoldable pub build_conn_url : Bytes → ℕ → Bytes
build_conn_url host port = host ++ (bytes ":" ++ decimal port)

unfoldable pub build_db_collection : Bytes → Bytes → Bytes
build_db_collection db collection = db ++ (bytes "." ++ collection)

-- The message of an exception.
unfoldable pub failure_of : Reply → Option Bytes
failure_of (returned t) = none
failure_of (refused e) = none
failure_of (raised e) = some e

-- `auth` with a user name throws by hand where the driver returns false.
unfoldable pub failure_of_user : Reply → Option Bytes
failure_of_user (returned t) = none
failure_of_user (refused e) = some e
failure_of_user (raised e) = some e

module _ {D : Driver} {T : Type 0} (cfg : Config) where
  -- The handler of a failure to connect, in a thread and at start-up.
  unfoldable pub connect_failed : Option Bytes → M D T (Unit {0})
  unfolding write_log
  connect_failed none = pure tt
  connect_failed (some e) = if cfg.auto_reconnect then write_log e else throw (operator_error e)

  unfoldable pub authenticate : Bytes → Credentials → M D T (Option Bytes)
  unfolding ask failure_of failure_of_user
  authenticate db no_credentials = pure none
  authenticate db (authentication d) = do r ← ask (auth_document d); pure (failure_of r)
  authenticate db (user name password) = do
    r ← ask (auth_password db name password)
    pure (failure_of_user r)

  unfoldable pub connected : Bytes → Reply → M D T (Option Bytes)
  unfolding authenticate
  connected db (returned t) = authenticate db cfg.credentials
  connected db (refused e) = authenticate db cfg.credentials
  connected db (raised e) = pure (some e)

  -- The body of the `try`, with the message of the exception that ends it.
  unfoldable pub try_connect : Bytes → M D T (Option Bytes)
  unfolding ask connected build_conn_url
  try_connect db = do r ← ask (connect (build_conn_url cfg.db_host cfg.db_port)); connected db r

  -- `connPtr_.reset(new DBClientConnection(…))` comes before the attempt.
  unfoldable pub open_connection : Bytes → M D T (Unit {0})
  unfolding try_connect connect_failed
  open_connection db = do
    modify (λ s. record s { has_connection = true })
    failure ← try_connect db
    connect_failed failure

  unfoldable pub get_db_client_connection : Bytes → M D T (Unit {0})
  unfolding open_connection
  get_db_client_connection db = do
    have ← gets (λ s. s.has_connection)
    when (not have) (open_connection db)

  -- The code of `process` for a connection that has failed, by the parameter `autoReconnect`.
  unfoldable pub reconnect_or_abort : Bool → M D T (Unit {0})
  unfolding ask write_log build_conn_url
  reconnect_or_abort true = do
    write_log (bytes "Trying to reconnect to " ++ build_conn_url cfg.db_host cfg.db_port)
    r ← ask is_still_connected
    pure tt
  reconnect_or_abort false = throw (
      operator_error
        (bytes "Connection to " ++ (build_conn_url cfg.db_host cfg.db_port ++ bytes " aborted")))

  unfoldable pub connection_lost : M D T (Unit {0})
  unfolding reconnect_or_abort
  connection_lost = reconnect_or_abort cfg.auto_reconnect

  unfoldable pub check_connection : M D T (Unit {0})
  unfolding connection_lost
  check_connection = do failed ← gets (λ s. D.is_failed s.world); when failed connection_lost

  unfoldable pub profile : Bytes → Option Profiling → M D T (Unit {0})
  unfolding perform
  profile db none = pure tt
  profile db (some level) = do r ← perform (set_profiling db level); pure tt

  -- What every operation does before its own call.
  unfoldable pub prepare : Bytes → M D T (Unit {0})
  unfolding get_db_client_connection check_connection profile
  prepare db = do get_db_client_connection db; check_connection; profile db cfg.profiling

  -- `allPortsReady` tries a connection of its own.
  unfoldable pub all_ports_ready : M D T (Unit {0})
  unfolding ask failure_of connect_failed build_conn_url
  all_ports_ready = do
    r ← ask (connect (build_conn_url cfg.db_host cfg.db_port))
    connect_failed (failure_of r)
