-- ===== src/Config/Store.antt =====
-- `InMemorySessionStore`, `validate_profile` and the errors of the crate.
pub mod Laws
use cross_scp.Base.{ℕ, List, [], ◌∷◌, ◌++◌, Option, none, some, Bool, true, false, is_empty}
use cross_scp.Base.Result.{Result, ok, err, ◌>>=◌, ◌>>◌}
use cross_scp.Base.Text.{Text, codes, trim}
use cross_scp.Base.Order.{text_order}
use cross_scp.Base.OrdMap
use cross_scp.Session.{
  SessionProtocol, sftp, scp, ftp, ftps, web_dav, s3, local, as_str, SessionProfile,
}

-- `Io` carries what the operating system says.
pub data ConfigError : Type 0 where
  empty_profile_name : ConfigError
  missing_required_field : Text → Text → ConfigError
  invalid_record : Text → ConfigError
  invalid_protocol : Text → ConfigError
  io : Text → ConfigError

-- `Display` of an error.
unfoldable pub error_message : ConfigError → Text
error_message empty_profile_name = codes "session profile name cannot be empty"
error_message (missing_required_field protocol field) =
    protocol ++ codes " profile requires " ++ field
error_message (invalid_record line) = codes "invalid session record: " ++ line
error_message (invalid_protocol protocol) = codes "invalid session protocol: " ++ protocol
error_message (io error) = codes "config I/O error: " ++ error

unfoldable pub require_non_empty : Text → SessionProtocol → Text → Result ConfigError (Unit {0})
require_non_empty value protocol field = elim (is_empty (trim value)) [
  | true ↦ err (missing_required_field (as_str protocol) field)
  | false ↦ ok tt
]

unfoldable pub require_port : Option ℕ → SessionProtocol → Result ConfigError (Unit {0})
require_port none protocol = err (missing_required_field (as_str protocol) (codes "port"))
require_port (some port) protocol = ok tt

-- The `match` of `validate_profile`.
unfoldable pub validate_protocol : SessionProtocol → Text → Option ℕ → Result ConfigError (Unit {0})
unfolding require_non_empty require_port
validate_protocol web_dav host port = require_non_empty host web_dav (codes "base URL/host")
validate_protocol s3 host port = require_non_empty host s3 (codes "endpoint or bucket")
validate_protocol local host port = ok tt
validate_protocol p host port = do require_non_empty host p (codes "host"); require_port port p

unfoldable pub validate_profile : SessionProfile → Result ConfigError (Unit {0})
unfolding validate_protocol
validate_profile profile = elim (is_empty (trim profile.name)) [
  | true ↦ err empty_profile_name
  | false ↦ validate_protocol profile.protocol profile.host profile.port
]

-- `profiles`, a `BTreeMap` from names.
abbrev pub SessionStore : Type 0
SessionStore = List (Text × SessionProfile)

-- A method with `&mut self` returns the store behind the call.
unfoldable pub save : SessionStore → SessionProfile → SessionStore × Result ConfigError (Unit {0})
unfolding validate_profile
save store profile = elim (validate_profile profile) [
  | ok _ ↦ (OrdMap.insert profile.name profile store, ok tt)
  | err e ↦ (store, err e)
]

unfoldable pub get : SessionStore → Text → Result ConfigError (Option SessionProfile)
get store name = ok (OrdMap.get name store)

unfoldable pub list : SessionStore → Result ConfigError (List SessionProfile)
list store = ok (OrdMap.values store)

unfoldable pub is_some {ℓ} : {A : Type ℓ} → Option A → Bool
is_some none = false
is_some (some a) = true

unfoldable pub remove : SessionStore → Text → SessionStore × Result ConfigError Bool
unfolding is_some
remove store name = (OrdMap.remove name store, ok (is_some (OrdMap.get name store)))
