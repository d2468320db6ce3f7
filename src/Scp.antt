-- ===== src/Scp.antt =====
-- crates/crossscp-protocol-scp/src/lib.rs: the settings of a connection, its credentials and errors.
pub mod Adapter
pub mod Transfer
use cross_scp.Base.{
  ℕ, List, [], ◌∷◌, ◌++◌, Option, none, some, Bool, true, false, ◌||◌, not, is_empty, if◌then◌else◌,
}
use cross_scp.Base.Result.{Result, ok, err, ◌>>=◌, ◌>>◌, fail_if, ok_or, map_err, transpose}
use cross_scp.Base.Text.{Text, codes, trim, starts_with, to_ascii_lowercase}
use cross_scp.Session.{SessionProtocol, scp, SessionProfile, protocol_eq, as_str}
use cross_scp.Security.{SecurityError, CredentialRef, CredentialSecret, new_ref}
use cross_scp.Security
use cross_scp.Protocol.Capabilities.{ProtocolCapabilities, scp_transfer_only}
use cross_scp.Machine.{IoError, Ssh2Error}

pub data ScpError : Type 0 where
  invalid_protocol : SessionProtocol → ScpError
  missing_host missing_username missing_credential_ref : ScpError
  credential_not_found unsupported_auth_method : Text → ScpError
  authentication_failed not_connected : ScpError
  security : SecurityError → ScpError
  backend io unsupported_operation : Text → ScpError

-- `Display` of an error; that of a protocol is its name.
unfoldable pub error_message : ScpError → Text
unfolding as_str Security.error_message
error_message (invalid_protocol protocol) = codes "SCP adapter cannot use " ++ as_str protocol
error_message missing_host = codes "SCP host is required"
error_message missing_username = codes "SCP username is required"
error_message missing_credential_ref = codes "SCP credential reference is required"
error_message (credential_not_found reference) = codes "SCP credential not found: " ++ reference
error_message (unsupported_auth_method message) = codes "unsupported SCP auth method: " ++ message
error_message authentication_failed = codes "SCP authentication failed"
error_message not_connected = codes "SCP backend is not connected"
error_message (security error) = codes "SCP credential error: " ++ Security.error_message error
error_message (backend message) = codes "SCP backend error: " ++ message
error_message (io message) = codes "SCP I/O error: " ++ message
error_message (unsupported_operation operation) =
    codes "SCP operation is not supported: " ++ operation

abbrev pub default_scp_port : ℕ
default_scp_port = 22

pub record ScpConnectionConfig : Type 0 where
  pub host : Text
  pub port : ℕ
  pub username : Option Text
  pub initial_remote_path : Option Text
  pub credential_ref : Option CredentialRef

-- `.map(CredentialRef::new)`
abbrev pub ref_of : Option Text → Option (Result SecurityError CredentialRef)
unfolding new_ref
ref_of none = none
ref_of (some reference) = some (new_ref reference)

abbrev pub configured : SessionProfile → Option CredentialRef → ScpConnectionConfig
configured profile credential_ref = record {
  host = profile.host;
  port = elim profile.port [ some port ↦ port | none ↦ default_scp_port ];
  username = profile.username;
  initial_remote_path = profile.initial_remote_path;
  credential_ref = credential_ref;
}

unfoldable pub from_profile : SessionProfile → Result ScpError ScpConnectionConfig
unfolding protocol_eq trim ref_of
from_profile profile =
    fail_if (not (protocol_eq profile.protocol scp)) (invalid_protocol profile.protocol)
    >> fail_if (is_empty (trim profile.host)) missing_host
    >> map_err security (transpose (ref_of profile.credential_ref))
    >>= λ credential_ref. ok (configured profile credential_ref)

pub record ScpAuthMaterial : Type 0 where
  pub username : Option Text
  pub secret : CredentialSecret

unfoldable pub resolve_scp_credentials :
    ScpConnectionConfig
    → (CredentialRef → Result SecurityError (Option CredentialSecret))
    → Result ScpError ScpAuthMaterial
resolve_scp_credentials config load =
    ok_or config.credential_ref missing_credential_ref >>= λ reference.
    map_err security (load reference) >>= λ found.
    ok_or found (credential_not_found reference.as_str) >>= λ secret.
    ok (record { username = config.username; secret = secret })

unfoldable pub capabilities : ProtocolCapabilities
unfolding scp_transfer_only
capabilities = scp_transfer_only

-- `str::contains`
unfoldable pub contains : Text → Text → Bool
unfolding starts_with
contains [] part = is_empty part
contains (c ∷ s) part = starts_with (c ∷ s) part || contains s part

-- `impl From<ssh2::Error> for ScpError`
unfoldable pub from_ssh2 : Ssh2Error → ScpError
unfolding to_ascii_lowercase contains
from_ssh2 error =
    if contains (to_ascii_lowercase error.message) (codes "auth")
    then authentication_failed
    else backend error.message

-- `impl From<std::io::Error> for ScpError`
abbrev pub from_io : IoError → ScpError
from_io error = io error.message
