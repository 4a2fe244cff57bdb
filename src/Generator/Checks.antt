-- ===== src/Generator/Checks.antt =====
-- The errors that the Perl code reports with `errorln`, as a list: none means that code is generated.
use streamsx_mongo_db.Prelude.{
  Bool, true, false, not, ◌&&◌, ◌≡◌, refl, Option, none, some, List, [], ◌∷◌, ◌++◌, Bytes,
  if◌then◌else◌, ◌⊎◌, inl, inr,
}
use mathlib.Core.Bool.{false≢true}
use streamsx_mongo_db.Prelude.{ap, is_empty}
use streamsx_mongo_db.Spl.Types.{
  Primitive, SplType, Attributes, complex, rstring, ustring, prim, list, blist, set, bset, map,
  bmap, tuple, nil, attribute,
}
use streamsx_mongo_db.Bson.Document.{Fields}
use streamsx_mongo_db.BsonCommon.{key_less}
use streamsx_mongo_db.Operators.Connection.{Credentials, no_credentials, authentication, user}

pub data GenerationError : Type 0 where
  complex_not_supported password_missing username_missing : GenerationError
  key_type_not_string find_query_type key_required : SplType → GenerationError

-- `SPL::CodeGen::Type::isString`: byte strings and Unicode strings.
unfoldable pub is_string_type : SplType → Bool
is_string_type (prim rstring) = true
is_string_type (prim ustring) = true
is_string_type _ = false

unfoldable pub primitive_errors : Primitive → List GenerationError
primitive_errors complex = complex_not_supported ∷ []
primitive_errors _ = []

unfoldable pub map_key_errors : SplType → List GenerationError
unfolding is_string_type
map_key_errors k = if is_string_type k then [] else key_type_not_string k ∷ []

-- The recursion of `buildBSONObject` on a type.
unfoldable mutual
  unfolding primitive_errors map_key_errors

  pub type_errors : SplType → List GenerationError
  type_errors (prim p) = primitive_errors p
  type_errors (list t) = type_errors t
  type_errors (blist b t) = type_errors t
  type_errors (set t) = type_errors t
  type_errors (bset b t) = type_errors t
  type_errors (map k t) = map_key_errors k ++ type_errors t
  type_errors (bmap b k t) = map_key_errors k ++ type_errors t
  type_errors (tuple ats) = attribute_errors ats

  pub attribute_errors : Attributes → List GenerationError
  attribute_errors nil = []
  attribute_errors (attribute n t ats) = type_errors t ++ attribute_errors ats

-- The parameters, evaluated: `authentication` is the document that its value stands for.
pub record AuthParameters : Type 0 where
  pub authentication_document : Option Fields
  pub username : Option Bytes
  pub password : Option Bytes

unfoldable pub credential_errors : AuthParameters → List GenerationError
credential_errors p = errors p.authentication_document p.username p.password
  where
    errors : Option Fields → Option Bytes → Option Bytes → List GenerationError
    errors none (some u) none = password_missing ∷ []
    errors none none (some w) = username_missing ∷ []
    errors _ _ _ = []

-- Which call of `auth` is generated; none where what is generated does not compile, a call whose
-- password is missing.
unfoldable pub credentials_of : AuthParameters → Option Credentials
credentials_of p = choose p.authentication_document p.username p.password
  where
    choose : Option Fields → Option Bytes → Option Bytes → Option Credentials
    choose (some d) u w = some (authentication d)
    choose none (some u) (some w) = some (user u w)
    choose none (some u) none = none
    choose none none w = some no_credentials

-- The check of the type of `findQuery`, where it is given.
unfoldable pub find_query_errors : Option SplType → List GenerationError
unfolding key_less is_string_type
find_query_errors none = []
find_query_errors (some t) =
    if key_less t && not (is_string_type t) then find_query_type t ∷ [] else []

-- The check of a value that is written: with a key or without, as JSON or not.
unfoldable pub value_errors : Bool → Bool → SplType → List GenerationError
unfolding key_less type_errors
value_errors key_assigned is_json t =
    (if not key_assigned && (not is_json && key_less t) then key_required t ∷ [] else [])
    ++ (if is_json then [] else type_errors t)

-- The `authentication` document or both a user name and a password or neither are given, and they are
-- what the generated code logs in with.
abbrev pub LogsInAsAsked : AuthParameters → Type 0
LogsInAsAsked p =
    ((d : Fields) × (p.authentication_document ≡ some d)
      × (credentials_of p ≡ some (authentication d)))
    ⊎ (((u : Bytes) × (w : Bytes) × (p.username ≡ some u)
          × (p.password ≡ some w)
          × (credentials_of p ≡ some (user u w)))
        ⊎ ((p.username ≡ none) × (p.password ≡ none) × (credentials_of p ≡ some no_credentials)))

login_parts :
    (d : Option Fields) (u w : Option Bytes)
    → credential_errors (record { authentication_document = d; username = u; password = w }) ≡ []
    → LogsInAsAsked (record { authentication_document = d; username = u; password = w })
unfolding credential_errors credentials_of
login_parts (some d) u w h = inl (d, refl, refl)
login_parts none (some u) (some w) h = inr (inl (u, w, refl, refl, refl))
login_parts none none none h = inr (inr (refl, refl, refl))
login_parts none (some u) none h = absurd (false≢true (ap is_empty h))
login_parts none none (some w) h = absurd (false≢true (ap is_empty h))

-- Parameters for logging in that the generators accept are used as they are given: the document, or the
-- user name with the password, or nothing where nothing was given.
pub credential_errors-LogsInAsAsked :
    (p : AuthParameters) → credential_errors p ≡ [] → LogsInAsAsked p
credential_errors-LogsInAsAsked p h = login_parts p.authentication_document p.username p.password h
