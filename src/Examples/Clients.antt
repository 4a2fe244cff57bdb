-- ===== src/Examples/Clients.antt =====
-- The theorems on the client's inline code at concrete hosts.
use streamsx_mongo_db.Prelude.{Bool, ◌≡◌, refl, some, [], ◌∷◌, Bytes, bytes, false}
use streamsx_mongo_db.Prelude.Int.{pos}
use streamsx_mongo_db.Bson.Document
use streamsx_mongo_db.Client.Servers.{
  ConnectionString, HostAndPort, set, string_of_type, has_servers, servers_suffice, with_parts,
}

abbrev a_host : HostAndPort
a_host = record { host_name = bytes "a"; port_number = pos 27_017 }

abbrev another_host : HostAndPort
another_host = record { host_name = bytes "b"; port_number = pos 27_017 }

abbrev fill_two : Bytes → Bool → ConnectionString → ConnectionString
fill_two s legacy c = record c { servers = a_host ∷ another_host ∷ [] }

abbrev name_it : ConnectionString → ConnectionString
name_it c = record c { string = bytes "rs/a,b" }

abbrev a_set : ConnectionString
a_set = name_it (fill_two (bytes "a,b") false (with_parts set [] [] [] (bytes "rs") Document.nil))

a_set_is_made : string_of_type name_it fill_two set (bytes "a,b") (bytes "rs") ≡ some a_set
unfolding string_of_type has_servers servers_suffice
a_set_is_made = refl
