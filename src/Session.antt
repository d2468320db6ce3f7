-- ===== src/Session.antt =====
-- crates/crossscp-core/src/session.rs: the protocols, their names and ports, and the profile.
pub mod Names
mod Examples
use cross_scp.Base.{
  ℕ, List, [], ◌∷◌, ◌++◌, Option, none, some, Bool, true, false, ◌||◌, if◌then◌else◌,
}
use cross_scp.Base.Result.{Result, ok, err}
use cross_scp.Base.Text.{Text, codes, text_eq, trim, to_ascii_lowercase}

pub data SessionProtocol : Type 0 where
  sftp scp ftp ftps web_dav s3 local : SessionProtocol

unfoldable pub as_str : SessionProtocol → Text
as_str sftp = codes "sftp"
as_str scp = codes "scp"
as_str ftp = codes "ftp"
as_str ftps = codes "ftps"
as_str web_dav = codes "webdav"
as_str s3 = codes "s3"
as_str local = codes "local"

unfoldable pub display_name : SessionProtocol → Text
display_name sftp = codes "SFTP"
display_name scp = codes "SCP"
display_name ftp = codes "FTP"
display_name ftps = codes "FTPS"
display_name web_dav = codes "WebDAV"
display_name s3 = codes "S3"
display_name local = codes "Local"

-- The derived `Debug`.
unfoldable pub debug_protocol : SessionProtocol → Text
debug_protocol sftp = codes "Sftp"
debug_protocol scp = codes "Scp"
debug_protocol ftp = codes "Ftp"
debug_protocol ftps = codes "Ftps"
debug_protocol web_dav = codes "WebDav"
debug_protocol s3 = codes "S3"
debug_protocol local = codes "Local"

unfoldable pub default_port : SessionProtocol → Option ℕ
default_port sftp = some 22
default_port scp = some 22
default_port ftp = some 21
default_port ftps = some 21
default_port web_dav = some 443
default_port s3 = some 443
default_port local = none

abbrev pub all : List SessionProtocol
all = sftp ∷ scp ∷ ftp ∷ ftps ∷ web_dav ∷ s3 ∷ local ∷ []

-- The derived `==`.
unfoldable pub protocol_eq : SessionProtocol → SessionProtocol → Bool
protocol_eq sftp sftp = true
protocol_eq scp scp = true
protocol_eq ftp ftp = true
protocol_eq ftps ftps = true
protocol_eq web_dav web_dav = true
protocol_eq s3 s3 = true
protocol_eq local local = true
protocol_eq _ _ = false

pub data ParseSessionProtocolError : Type 0 where
  unsupported : Text → ParseSessionProtocolError

-- The text of the error, as `Display` writes it.
pub error_message : ParseSessionProtocolError → Text
error_message (unsupported value) = codes "unsupported session protocol: " ++ value

-- The `match` of `from_str`, on the trimmed value in lower case.
protocol_named : Text → Option SessionProtocol
protocol_named name =
    if text_eq name (codes "sftp")
    then some sftp
    else if text_eq name (codes "scp")
    then some scp
    else if text_eq name (codes "ftp")
    then some ftp
    else if text_eq name (codes "ftps")
    then some ftps
    else if text_eq name (codes "webdav") || text_eq name (codes "web-dav")
    then some web_dav
    else if text_eq name (codes "s3")
    then some s3
    else if text_eq name (codes "local")
    then some local
    else none

read_as : Text → Option SessionProtocol → Result ParseSessionProtocolError SessionProtocol
read_as value none = err (unsupported value)
read_as value (some protocol) = ok protocol

unfoldable pub from_str : Text → Result ParseSessionProtocolError SessionProtocol
unfolding read_as protocol_named trim to_ascii_lowercase text_eq
from_str value = read_as value (protocol_named (to_ascii_lowercase (trim value)))

pub record SessionProfile : Type 0 where
  pub name : Text
  pub protocol : SessionProtocol
  pub host : Text
  pub port : Option ℕ
  pub username : Option Text
  pub initial_remote_path : Option Text
  pub credential_ref : Option Text

-- `SessionProfile::local`
unfoldable pub local_profile : Text → SessionProfile
local_profile name = record {
  name = name;
  protocol = local;
  host = [];
  port = none;
  username = none;
  initial_remote_path = none;
  credential_ref = none;
}
