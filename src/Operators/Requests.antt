-- ===== src/Operators/Requests.antt =====
-- The requests that write documents, those that connect or authenticate, and the steps whose own
-- request writes.
use mathlib.Core.Bool.{false≢true}
use streamsx_mongo_db.Prelude.{
  ℕ, suc, ◌≡◌, Bool, true, false, List, [], ◌∷◌, if◌then◌else◌, refl, Bytes,
}
use streamsx_mongo_db.Bson.Builder
use streamsx_mongo_db.Operators.Driver.{
  Request, connect, auth_document, auth_password, Reply, returned, refused, raised,
}
use streamsx_mongo_db.Operators.Driver
use streamsx_mongo_db.Operators.Process.{Step, as_is, operation}

abbrev pub is_login : Request → Bool
is_login (connect url) = true
is_login (auth_document d) = true
is_login (auth_password db n p) = true
is_login _ = false

-- How often a connection or a login was asked for.
abbrev pub logins : List Request → ℕ
logins [] = 0
logins (q ∷ qs) = if is_login q then suc (logins qs) else logins qs

abbrev pub is_write : Request → Bool
is_write (Driver.insert ns d) = true
is_write (Driver.update ns q d upsert multi) = true
is_write (Driver.remove ns q just_one) = true
is_write _ = false

abbrev pub writes : List Request → List Request
writes [] = []
writes (q ∷ qs) = if is_write q then q ∷ writes qs else writes qs

pub is_login-is_write : (q : Request) → is_write q ≡ true → is_login q ≡ false
is_login-is_write (Driver.insert ns d) h = refl
is_login-is_write (Driver.update ns q d u m) h = refl
is_login-is_write (Driver.remove ns q j) h = refl
is_login-is_write (connect u) h = absurd (false≢true h)
is_login-is_write (auth_document d) h = absurd (false≢true h)
is_login-is_write (auth_password db n p) h = absurd (false≢true h)
is_login-is_write Driver.is_still_connected h = refl
is_login-is_write (Driver.set_profiling db p) h = refl
is_login-is_write (Driver.query ns q n f) h = refl
is_login-is_write Driver.get_last_error h = refl

-- The step's own request, if it has one, writes.
abbrev pub IsWrite : Step → Type 0
IsWrite (operation n db (Builder.ok q)) = is_write q ≡ true
IsWrite _ = Unit

-- Moreover it is no `AsIs`.
abbrev pub IsPlainWrite : Step → Type 0
IsPlainWrite (as_is n v) = ⊥
IsPlainWrite (operation n db (Builder.ok q)) = is_write q ≡ true
IsPlainWrite _ = Unit

-- The text of a reply that is no exception.
abbrev pub text_of : Reply → Bytes
text_of (returned t) = t
text_of (refused t) = t
text_of (raised e) = []
