-- ===== src/Ftp.antt =====
-- crates/crossscp-protocol-ftp/src/lib.rs: the settings of a connection, its credentials, its errors,
-- and paths on the server. The adapter is in Ftp/Adapter.antt.
pub mod Adapter
pub mod Config
pub mod Paths
pub mod Join
pub mod Listing
pub mod Upload
pub mod Recursive
mod Examples
use cross_scp.Base.{
  ℕ, List, [], ◌∷◌, ◌++◌, Option, none, some, Bool, true, false, ◌||◌, not, if◌then◌else◌, is_empty,
  any,
}
use cross_scp.Base.Result.{Result, ok, err, ◌>>=◌, ◌>>◌, fail_if, ok_or, map_err, transpose}
use cross_scp.Base.Text.{
  Text, codes, text_eq, trim, trim_end_matches, is_control, to_ascii_lowercase, starts_with,
}
use cross_scp.Base.Paths.{rsplit_once, ends_with}
use cross_scp.Base.Decimal.{to_string}
use cross_scp.Session.{SessionProtocol, ftp, ftps, protocol_eq, SessionProfile}
use cross_scp.Session
use cross_scp.Security
use cross_scp.Security.{
  SecurityError, CredentialRef, SecretString, CredentialSecret, password, private_key,
  private_key_passphrase, token,
}
use cross_scp.Protocol.{RemoteFile}
use cross_scp.Protocol.Capabilities.{ProtocolCapabilities, ftp_like}

abbrev pub default_ftp_port : ℕ
default_ftp_port = 21

pub data FtpsMode : Type 0 where
  explicit implicit : FtpsMode

pub data FtpError : Type 0 where
  invalid_protocol : SessionProtocol → FtpError
  missing_host missing_username missing_credential_ref : FtpError
  credential_not_found unsupported_auth_method invalid_remote_path : Text → FtpError
  authentication_failed not_connected : FtpError
  security : SecurityError → FtpError
  tls backend io unsupported_operation : Text → FtpError

-- `Display` of an error.
unfoldable pub error_message : FtpError → Text
unfolding Session.as_str Security.error_message
error_message (invalid_protocol protocol) =
    codes "FTP/FTPS adapter cannot use " ++ Session.as_str protocol
error_message missing_host = codes "FTP/FTPS host is required"
error_message missing_username = codes "FTP/FTPS username is required"
error_message missing_credential_ref = codes "FTP/FTPS credential reference is required"
error_message (credential_not_found reference) =
    codes "FTP/FTPS credential not found: " ++ reference
error_message (unsupported_auth_method message) =
    codes "unsupported FTP/FTPS auth method: " ++ message
error_message (invalid_remote_path path) =
    codes "FTP/FTPS remote paths cannot contain control characters"
error_message authentication_failed = codes "FTP/FTPS authentication failed"
error_message not_connected = codes "FTP/FTPS backend is not connected"
error_message (security error) = codes "FTP/FTPS credential error: " ++ Security.error_message error
error_message (tls message) = codes "FTPS TLS error: " ++ message
error_message (backend message) = codes "FTP/FTPS backend error: " ++ message
error_message (io message) = codes "FTP/FTPS I/O error: " ++ message
error_message (unsupported_operation operation) =
    codes "FTP/FTPS operation is not supported: " ++ operation

-- `contains` of a text in a text
contains : Text → Text → Bool
contains part [] = is_empty part
contains part (c ∷ s) = starts_with (c ∷ s) part || contains part s

-- `From<suppaftp::FtpError>`, on the text of the error.
unfoldable pub from_backend : Text → FtpError
unfolding contains to_ascii_lowercase starts_with
from_backend message =
    if contains (codes "login") (to_ascii_lowercase message) || contains (codes "530") message
    then authentication_failed
    else backend message

pub record FtpConnectionConfig : Type 0 where
  pub protocol : SessionProtocol
  pub host : Text
  pub port : ℕ
  pub username : Option Text
  pub passive_mode : Bool
  pub ftps_mode : Option FtpsMode
  pub initial_remote_path : Option Text
  pub credential_ref : Option CredentialRef

abbrev pub unwrap_or : Option ℕ → ℕ → ℕ
unwrap_or none d = d
unwrap_or (some n) d = n

abbrev pub ref_of : Option Text → Option (Result SecurityError CredentialRef)
unfolding Security.new_ref
ref_of none = none
ref_of (some reference) = some (Security.new_ref reference)

unfoldable pub is_ftp : SessionProtocol → Bool
unfolding protocol_eq
is_ftp protocol = protocol_eq protocol ftp || protocol_eq protocol ftps

unfoldable pub configured : SessionProfile → Option CredentialRef → FtpConnectionConfig
unfolding protocol_eq
configured profile reference = record {
  protocol = profile.protocol;
  host = profile.host;
  port = unwrap_or profile.port default_ftp_port;
  username = profile.username;
  passive_mode = true;
  ftps_mode = if protocol_eq profile.protocol ftps then some explicit else none;
  initial_remote_path = profile.initial_remote_path;
  credential_ref = reference;
}

unfoldable pub from_profile : SessionProfile → Result FtpError FtpConnectionConfig
unfolding is_ftp configured trim Security.new_ref
from_profile profile = do
  fail_if (not (is_ftp profile.protocol)) (invalid_protocol profile.protocol)
  fail_if (is_empty (trim profile.host)) missing_host
  reference ← map_err security (transpose (ref_of profile.credential_ref))
  ok (configured profile reference)

unfoldable pub address : FtpConnectionConfig → Text
unfolding to_string
address config = config.host ++ b':' ∷ to_string config.port

pub record FtpAuthMaterial : Type 0 where
  pub username : Text
  pub password : Text

abbrev password_of : CredentialSecret → Result FtpError Text
password_of (password secret) = ok secret.expose
password_of (token secret) = ok secret.expose
password_of _ =
    err (unsupported_auth_method (codes "FTP/FTPS supports password or token credentials only"))

-- The service is any; `load` answers as its trait says.
unfoldable pub resolve_ftp_credentials :
    FtpConnectionConfig
    → (CredentialRef → Result SecurityError (Option CredentialSecret))
    → Result FtpError FtpAuthMaterial
resolve_ftp_credentials config load = do
  reference ← ok_or config.credential_ref missing_credential_ref
  found ← map_err security (load reference)
  secret ← ok_or found (credential_not_found reference.as_str)
  exposed ← password_of secret
  username ← ok_or config.username missing_username
  ok (record { username = username; password = exposed })

unfoldable pub capabilities : SessionProtocol → ProtocolCapabilities
unfolding ftp_like protocol_eq
capabilities protocol = ftp_like (protocol_eq protocol ftps)

-- The end of `join_remote_path`, for the base that is left.
unfoldable pub join_to : Text → Text → Text
unfolding text_eq ends_with
join_to base name =
    if text_eq base (codes "/")
    then b'/' ∷ name
    else if ends_with base b'/'
    then base ++ name
    else base ++ b'/' ∷ name

unfoldable pub join_remote_path : Text → Text → Text
unfolding trim join_to
join_remote_path base name = join_to (if is_empty (trim base) then codes "/" else trim base) name

unfoldable pub parent_of : Text → Option (Text × Text) → Text × Text
parent_of trimmed (some ([], name)) = (codes "/", name)
parent_of trimmed (some (c ∷ parent, name)) = (c ∷ parent, name)
parent_of trimmed none = (codes "/", trimmed)

unfoldable pub split_remote_parent : Text → Text × Text
unfolding trim trim_end_matches rsplit_once parent_of
split_remote_parent path =
    let trimmed = trim_end_matches b'/' (trim path) in parent_of trimmed (rsplit_once b'/' trimmed)

unfoldable pub validate_ftp_path : Text → Result FtpError (Unit {0})
unfolding any is_control
validate_ftp_path path = if any is_control path then err (invalid_remote_path path) else ok tt

pub record FtpTransferSummary : Type 0 where
  pub source : Text
  pub destination : Text
  pub bytes_done : ℕ
  pub bytes_total : Option ℕ
