-- ===== src/Client/Servers.antt =====
-- client/dbclientinterface.h: ConnectionString. `_fillServers`, which splits the text, `_finishInit`,
-- which makes the string, and a host's `toString` are compiled elsewhere, parameters.
use streamsx_mongo_db.Prelude.{
  Bool, true, false, not, ◌&&◌, Option, none, some, List, [], ◌∷◌, Bytes, length, is_empty, ltb,
  leb, ◌==◌, if◌then◌else◌, ◌≡◌, ◌<◌, ◌⊎◌,
}
use streamsx_mongo_db.Prelude.Int.{ℤ}
use streamsx_mongo_db.Bson.Document
use streamsx_mongo_db.Bson.Document.{Fields}

pub data ConnectionType : Type 0 where
  invalid master pair set custom : ConnectionType

-- `_port` is -1 where none was given.
pub record HostAndPort : Type 0 where
  pub host_name : Bytes
  pub port_number : ℤ

pub record ConnectionString : Type 0 where
  pub connection_type : ConnectionType
  pub servers : List HostAndPort
  pub string : Bytes
  pub set_name : Bytes
  pub user_name : Bytes
  pub user_password : Bytes
  pub database : Bytes
  pub options : Fields

-- The default constructor.
unfoldable pub invalid_string : ConnectionString
invalid_string = record {
  connection_type = invalid;
  servers = [];
  string = [];
  set_name = [];
  user_name = [];
  user_password = [];
  database = [];
  options = Document.nil;
}

-- The `switch` of two constructors: whether every `verify` holds.
unfoldable pub servers_suffice : ConnectionType → List HostAndPort → Bytes → Bool
servers_suffice master hosts name = length hosts == 1
servers_suffice set hosts name = not (is_empty name) && leb 1 (length hosts)
servers_suffice pair hosts name = length hosts == 2
servers_suffice invalid hosts name = ltb 0 (length hosts)
servers_suffice custom hosts name = ltb 0 (length hosts)

unfoldable pub has_servers : ConnectionString → Bool
unfolding servers_suffice
has_servers c = servers_suffice c.connection_type c.servers c.set_name

unfoldable pub is_set_type : ConnectionType → Bool
is_set_type set = true
is_set_type _ = false

unfoldable pub is_valid_string : ConnectionString → Bool
is_valid_string c = by_type c.connection_type
  where
    by_type : ConnectionType → Bool
    by_type invalid = false
    by_type _ = true

-- `operator<` of `std::string`.
unfoldable pub bytes_less : Bytes → Bytes → Bool
bytes_less xs [] = false
bytes_less [] (y ∷ ys) = true
bytes_less (x ∷ xs) (y ∷ ys) = let rest = bytes_less xs ys in if x == y then rest else ltb x y

unfoldable pub less_string : ConnectionString → ConnectionString → Bool
unfolding bytes_less
less_string c other = bytes_less c.string other.string

-- What the initializer lists of two constructors set.
abbrev pub with_parts : ConnectionType → Bytes → Bytes → Bytes → Bytes → Fields → ConnectionString
with_parts t user password database_name name option_fields = record {
  connection_type = t;
  servers = [];
  string = [];
  set_name = name;
  user_name = user;
  user_password = password;
  database = database_name;
  options = option_fields;
}

module _ (finish_init : ConnectionString → ConnectionString) where
  unfoldable pub string_of_server : HostAndPort → ConnectionString
  unfolding invalid_string
  string_of_server server =
      finish_init (record invalid_string { connection_type = master; servers = server ∷ [] })

  -- `_fillServers` takes the text and whether it is of the legacy form. None where a `verify` fails.
  module _ (fill_servers : Bytes → Bool → ConnectionString → ConnectionString) where
    unfoldable pub string_of_type : ConnectionType → Bytes → Bytes → Option ConnectionString
    unfolding has_servers
    string_of_type t s name =
        let filled = fill_servers s true (with_parts t [] [] [] name Document.nil) in
        if has_servers filled then some (finish_init filled) else none

    -- The private constructor, for the parts of a URL.
    unfoldable pub string_of_url :
        ConnectionType → Bytes → Bytes → Bytes → Bytes → Bytes → Fields → Option ConnectionString
    unfolding has_servers
    string_of_url t user password server_list database_name name option_fields =
        let filled =
          fill_servers server_list false
            (with_parts t user password database_name name option_fields) in
        if has_servers filled then some (finish_init filled) else none

    -- The type that is chosen where the servers did not give one.
    unfoldable pub string_of_multiple : Bytes → ConnectionType → Option ConnectionString
    unfolding is_valid_string invalid_string is_set_type
    string_of_multiple s favored =
        let filled = fill_servers s true invalid_string in
        if is_valid_string filled
        then some (finish_init filled)
        else if length filled.servers == 1
        then some (finish_init (record filled { connection_type = master }))
        else if is_set_type favored
        then some (finish_init (record filled { connection_type = favored }))
        else none

unfoldable pub mock_string : (HostAndPort → Bytes) → HostAndPort → ConnectionString
unfolding invalid_string
mock_string host_text server = record invalid_string {
  servers = server ∷ [];
  string = host_text server;
}

-- What a connection string of each type needs: the number of its servers, and a set's name.
abbrev pub HasServers : ConnectionType → List HostAndPort → Bytes → Type 0
HasServers master hosts name = length hosts ≡ 1
HasServers set hosts name = (is_empty name ≡ false) × (0 < length hosts)
HasServers pair hosts name = length hosts ≡ 2
HasServers invalid hosts name = 0 < length hosts
HasServers custom hosts name = 0 < length hosts

-- What a constructor makes of what `_fillServers` left: the finished string if there are the servers
-- that its type needs, and else nothing.
abbrev pub IsMadeOf :
    (ConnectionString → ConnectionString) → ConnectionString → Option ConnectionString → Type 0
IsMadeOf finish_init filled r =
    (HasServers filled.connection_type filled.servers filled.set_name
      × (r ≡ some (finish_init filled)))
    ⊎ ((¬ HasServers filled.connection_type filled.servers filled.set_name) × (r ≡ none))
