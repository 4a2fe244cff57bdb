-- ===== src/Examples/Generators.antt =====
-- The theorems on what the generators accept, at a concrete type and concrete parameters.
use streamsx_mongo_db.Prelude.{◌≡◌, refl, some, none, [], bytes}
use streamsx_mongo_db.Generator.Checks.{
  AuthParameters, credential_errors, LogsInAsAsked, credential_errors-LogsInAsAsked,
}

abbrev a_login : AuthParameters
a_login = record {
  authentication_document = none;
  username = some (bytes "me");
  password = some (bytes "secret");
}

a_login_accepted : credential_errors a_login ≡ []
unfolding credential_errors
a_login_accepted = refl

credential_errors-LogsInAsAsked_example : LogsInAsAsked a_login
credential_errors-LogsInAsAsked_example = credential_errors-LogsInAsAsked a_login a_login_accepted
