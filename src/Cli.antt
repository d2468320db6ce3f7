-- ===== src/Cli.antt =====
-- crates/crossscp-cli/src/main.rs: the options of the remote commands, and what is read of the
-- environment.
pub mod Remote
pub mod Capable
pub mod Connect
pub mod Dial
pub mod Sessions
mod Examples
use cross_scp.Base.{
  ℕ, List, [], ◌∷◌, ◌++◌, Option, none, some, Bool, true, false, ◌||◌, ltb, ◌^◌, if◌then◌else◌,
  is_empty,
}
use cross_scp.Base.Result.{Result, ok, err, ◌>>=◌, ok_or, map_err, transpose}
use cross_scp.Base.Text.{Text, codes, text_eq, trim}
use cross_scp.Base.Decimal.{parse, to_string}
use cross_scp.Session.{
  SessionProtocol, sftp, scp, ftp, ftps, web_dav, s3, local, from_str, default_port,
}
use cross_scp.Protocol.{FileConflictPolicy, keep_existing, replace_existing, keep_both}
use cross_scp.Protocol.Capabilities.{ProtocolCapabilities, scp_transfer_only, ftp_like, empty}
use cross_scp.Protocol.Capabilities
use cross_scp.Transfer.{OverwriteMode, ask, always, never, if_newer, resume}

pub record RemoteCommandArgs : Type 0 where
  pub protocol : Option SessionProtocol
  pub host : Option Text
  pub port : Option Text
  pub username : Option Text
  pub path : Option Text
  pub local_path : Option Text
  pub remote_path : Option Text
  pub conflict : Option FileConflictPolicy
  pub from : Option Text
  pub to : Option Text

abbrev pub no_args : RemoteCommandArgs
no_args = record {
  protocol = none;
  host = none;
  port = none;
  username = none;
  path = none;
  local_path = none;
  remote_path = none;
  conflict = none;
  from = none;
  to = none;
}

unfoldable pub parse_overwrite_mode : Text → Result Text OverwriteMode
unfolding text_eq
parse_overwrite_mode value =
    if text_eq value (codes "ask")
    then ok ask
    else if text_eq value (codes "always")
    then ok always
    else if text_eq value (codes "never")
    then ok never
    else if text_eq value (codes "if-newer")
    then ok if_newer
    else if text_eq value (codes "resume")
    then ok resume
    else err (codes "unknown overwrite mode: " ++ value)

unfoldable pub parse_file_conflict_policy : Text → Result Text FileConflictPolicy
unfolding text_eq
parse_file_conflict_policy value =
    if text_eq value (codes "keep-existing")
    then ok keep_existing
    else if text_eq value (codes "replace")
    then ok replace_existing
    else if text_eq value (codes "keep-both")
    then ok keep_both
    else err (codes "unknown file conflict policy: " ++ value)

abbrev with_protocol : Text → RemoteCommandArgs → Result Text RemoteCommandArgs
unfolding from_str
with_protocol value parsed =
    map_err (λ e. codes "unsupported protocol: " ++ value) (from_str value) >>= λ protocol.
    ok (record parsed { protocol = some protocol })

abbrev with_conflict : Text → RemoteCommandArgs → Result Text RemoteCommandArgs
unfolding parse_file_conflict_policy
with_conflict value parsed =
    parse_file_conflict_policy value >>= λ policy. ok (record parsed { conflict = some policy })

-- `flag` is one of the names.
abbrev is_one_of : Text → List Text → Bool
unfolding text_eq
is_one_of flag [] = false
is_one_of flag (name ∷ names) = text_eq flag name || is_one_of flag names

-- The `match` on a flag.
unfoldable pub set_option : (flag value : Text) → RemoteCommandArgs → Result Text RemoteCommandArgs
unfolding text_eq is_one_of with_protocol with_conflict
set_option flag value parsed =
    if text_eq flag (codes "--protocol")
    then with_protocol value parsed
    else if is_one_of flag (codes "--host" ∷ codes "--url" ∷ codes "--endpoint" ∷ [])
    then ok (record parsed { host = some value })
    else if text_eq flag (codes "--port")
    then ok (record parsed { port = some value })
    else if text_eq flag (codes "--username")
    then ok (record parsed { username = some value })
    else if text_eq flag (codes "--path")
    then ok (record parsed { path = some value })
    else if text_eq flag (codes "--local")
    then ok (record parsed { local_path = some value })
    else if text_eq flag (codes "--remote")
    then ok (record parsed { remote_path = some value })
    else if text_eq flag (codes "--conflict")
    then with_conflict value parsed
    else if text_eq flag (codes "--from")
    then ok (record parsed { from = some value })
    else if text_eq flag (codes "--to")
    then ok (record parsed { to = some value })
    else if is_one_of flag
        (codes "--bucket" ∷ codes "--region" ∷ codes "--root" ∷ codes "--prefix" ∷ [])
    then ok parsed
    else err (codes "unknown remote option: " ++ flag)

-- The loop over the arguments.
unfoldable pub parse_pairs : List Text → RemoteCommandArgs → Result Text RemoteCommandArgs
unfolding set_option
parse_pairs [] parsed = ok parsed
parse_pairs (flag ∷ []) parsed = err (codes "missing value for " ++ flag)
parse_pairs (flag ∷ value ∷ args) parsed =
    set_option flag value parsed >>= λ next. parse_pairs args next

unfoldable pub parse_remote_args : List Text → Result Text RemoteCommandArgs
unfolding parse_pairs
parse_remote_args args = parse_pairs args no_args

unfoldable pub remote_protocol : RemoteCommandArgs → Result Text SessionProtocol
remote_protocol args = ok_or args.protocol (codes "--protocol is required")

-- `args.port`, or else the default of the protocol.
abbrev port_or_default : Option Text → Option ℕ → Option Text
unfolding to_string
port_or_default (some port) default = some port
port_or_default none (some port) = some (to_string port)
port_or_default none none = none

-- Host, port and user name.
unfoldable pub remote_host_port_username : RemoteCommandArgs → Result Text (Text × Text × Text)
unfolding remote_protocol port_or_default default_port
remote_host_port_username args = do
  protocol ← remote_protocol args
  host ← ok_or args.host (codes "--host is required")
  port ← ok_or (port_or_default args.port (default_port protocol)) (codes "--port is required")
  username ← ok_or args.username (codes "--username is required")
  ok (host, port, username)

unfoldable pub capabilities_for : SessionProtocol → ProtocolCapabilities
unfolding Capabilities.sftp scp_transfer_only ftp_like Capabilities.webdav Capabilities.s3
capabilities_for sftp = Capabilities.sftp
capabilities_for scp = scp_transfer_only
capabilities_for ftp = ftp_like false
capabilities_for ftps = ftp_like true
capabilities_for web_dav = Capabilities.webdav
capabilities_for s3 = Capabilities.s3
capabilities_for local = empty

unfoldable pub protocol_label : SessionProtocol → Text
protocol_label sftp = codes "sftp"
protocol_label scp = codes "scp"
protocol_label ftp = codes "ftp"
protocol_label ftps = codes "ftps"
protocol_label web_dav = codes "webdav"
protocol_label s3 = codes "s3"
protocol_label local = codes "local"

unfoldable pub non_empty : Text → Option Text
unfolding trim
non_empty value = if is_empty (trim value) then none else some value
