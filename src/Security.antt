-- ===== src/Security.antt =====
-- crates/crossscp-security/src/lib.rs: references to secrets, redaction, the vault and the service.
pub mod Laws
mod Examples
use cross_scp.Base.{
  List, [], ◌∷◌, ◌++◌, Option, none, some, Bool, true, false, if◌then◌else◌, is_empty,
}
use cross_scp.Base.Result.{Result, ok, err}
use cross_scp.Base.Text.{Text, codes, trim}
use cross_scp.Base.Order.{text_order}
use cross_scp.Base.OrdMap

pub data SecurityError : Type 0 where
  invalid_credential_ref empty_secret backend_unavailable access_denied vault_locked : SecurityError

-- `Display` of an error.
unfoldable pub error_message : SecurityError → Text
error_message invalid_credential_ref = codes "credential reference cannot be empty"
error_message empty_secret = codes "secret cannot be empty"
error_message backend_unavailable = codes "credential backend unavailable"
error_message access_denied = codes "credential access denied"
error_message vault_locked = codes "credential vault is locked"

pub record CredentialRef : Type 0 where
  pub as_str : Text

-- `CredentialRef::new`
unfoldable pub new_ref : Text → Result SecurityError CredentialRef
unfolding trim
new_ref value =
    if is_empty (trim value) then err invalid_credential_ref else ok (record { as_str = value })

pub record SecretString : Type 0 where
  pub expose : Text

-- `SecretString::new`
unfoldable pub new_secret : Text → Result SecurityError SecretString
new_secret value = if is_empty value then err empty_secret else ok (record { expose = value })

unfoldable pub debug_secret : SecretString → Text
debug_secret secret = codes "SecretString(REDACTED)"

unfoldable pub display_secret : SecretString → Text
display_secret secret = codes "REDACTED"

pub data CredentialSecret : Type 0 where
  password : SecretString → CredentialSecret
  private_key : Text → Option SecretString → CredentialSecret
  private_key_passphrase : SecretString → CredentialSecret
  token : SecretString → CredentialSecret

-- The derived `Debug`; `debug_str` is that of the standard library for a text.
module _ (debug_str : Text → Text) where
  debug_option : Option SecretString → Text
  unfolding debug_secret
  debug_option none = codes "None"
  debug_option (some secret) = codes "Some(" ++ debug_secret secret ++ codes ")"

  unfoldable pub debug : CredentialSecret → Text
  unfolding debug_secret debug_option
  debug (password secret) = codes "Password(" ++ debug_secret secret ++ codes ")"
  debug (private_key path passphrase) =
      codes "PrivateKey { private_key_path: "
      ++ debug_str path
      ++ codes ", passphrase: "
      ++ debug_option passphrase
      ++ codes " }"
  debug (private_key_passphrase secret) =
      codes "PrivateKeyPassphrase(" ++ debug_secret secret ++ codes ")"
  debug (token secret) = codes "Token(" ++ debug_secret secret ++ codes ")"

pub record MasterPasswordVault : Type 0 where
  pub master : Option SecretString

abbrev pub locked : MasterPasswordVault
locked = record { master = none }

unfoldable pub unlock : SecretString → MasterPasswordVault → MasterPasswordVault
unlock master vault = record vault { master = some master }

unfoldable pub lock : MasterPasswordVault → MasterPasswordVault
lock vault = record vault { master = none }

unfoldable pub is_unlocked : MasterPasswordVault → Bool
is_unlocked vault = elim vault.master [ none ↦ false | some secret ↦ true ]

unfoldable pub require_unlocked : MasterPasswordVault → Result SecurityError (Unit {0})
unfolding is_unlocked
require_unlocked vault = if is_unlocked vault then ok tt else err vault_locked

-- `InMemoryCredentialService`: the texts of the references order its map.
pub record CredentialService : Type 0 where
  pub secrets : List (Text × CredentialSecret)

abbrev pub new_service : CredentialService
new_service = record { secrets = [] }

unfoldable pub store :
    CredentialRef
    → CredentialSecret
    → CredentialService
    → CredentialService × Result SecurityError (Unit {0})
unfolding OrdMap.insert
store reference secret service =
    (record service { secrets = OrdMap.insert reference.as_str secret service.secrets }, ok tt)

unfoldable pub load :
    CredentialRef → CredentialService → Result SecurityError (Option CredentialSecret)
unfolding OrdMap.get
load reference service = ok (OrdMap.get reference.as_str service.secrets)

unfoldable pub delete :
    CredentialRef → CredentialService → CredentialService × Result SecurityError Bool
unfolding OrdMap.get OrdMap.remove
delete reference service = (
  record service { secrets = OrdMap.remove reference.as_str service.secrets },
  ok (elim (OrdMap.get reference.as_str service.secrets) [ none ↦ false | some secret ↦ true ]),
)
