-- ===== src/Cli/Remote.antt =====
-- The remote commands: what is run for which arguments, and with which code the program ends
-- otherwise.
use cross_scp.Base.{List, [], ◌∷◌, ◌++◌, Option, none, some, Bool, true}
use cross_scp.Base.Result.{Result, ok, err, ◌>>=◌, map_err}
use cross_scp.Base.Text.{Text, codes}
use cross_scp.Session.{SessionProtocol, sftp, scp, ftp, ftps, display_name}
use cross_scp.Protocol.{FileConflictPolicy, replace_existing}
use cross_scp.Cli.{RemoteCommandArgs, parse_remote_args, remote_protocol, remote_host_port_username}
use cross_scp.Base.{ℕ}

-- `exit_error`
pub record Exit : Type 0 where
  pub message : Text
  pub code : ℕ

-- `SftpTransferKind`
pub data TransferKind : Type 0 where
  uploading downloading : TransferKind

-- The function that a command ends in, with its arguments.
pub data RemoteAction : Type 0 where
  run_sftp_list run_sftp_mkdir run_sftp_delete : List Text → RemoteAction
  run_sftp_transfer : List Text → TransferKind → FileConflictPolicy → (exact : Bool) → RemoteAction
  run_ftp_list run_ftp_mkdir run_ftp_delete :
      SessionProtocol → (host port username path : Text) → RemoteAction
  run_ftp_transfer :
      SessionProtocol
      → (host port username from_local remote : Text) → Option FileConflictPolicy
      → TransferKind
      → RemoteAction
  run_ftp_rename : SessionProtocol → (host port username from to : Text) → RemoteAction
  run_scp_transfer :
      (host port username from_local remote : Text)
      → TransferKind
      → FileConflictPolicy
      → RemoteAction

-- `unwrap_or_else(|message| exit_error(&message, code))`
abbrev pub or_exit : {A : Type 0} → ℕ → Result Text A → Result Exit A
or_exit code = map_err (λ message. record { message = message; code = code })

abbrev pub exit_error : {A : Type 0} → Text → ℕ → Result Exit A
exit_error message code = err (record { message = message; code = code })

-- What each command reads first.
pub record Target : Type 0 where
  pub parsed : RemoteCommandArgs
  pub protocol : SessionProtocol
  pub host : Text
  pub port : Text
  pub username : Text

unfoldable pub remote_target : List Text → Result Exit Target
unfolding parse_remote_args remote_protocol remote_host_port_username
remote_target args = do
  parsed ← or_exit 2 (parse_remote_args args)
  protocol ← or_exit 2 (remote_protocol parsed)
  (host, port, username) ← or_exit 2 (remote_host_port_username parsed)
  ok (record {
    parsed = parsed;
    protocol = protocol;
    host = host;
    port = port;
    username = username;
  })

unfoldable pub unsupported_live_protocol : SessionProtocol → Result Exit RemoteAction
unfolding display_name
unsupported_live_protocol protocol =
    exit_error
      (display_name protocol
        ++ codes
            " adapter is not implemented yet; currently SFTP, SCP, FTP, and explicit FTPS are live")
      1

-- `unwrap_or_else(|| exit_error(..., 2))`
abbrev pub required : {A : Type 0} → Option A → Text → Result Exit A
required none message = exit_error message 2
required (some a) message = ok a

-- The first four arguments of a command of SFTP.
abbrev at_path : Target → Text → List Text
at_path t path = t.host ∷ t.port ∷ t.username ∷ path ∷ []

-- The `match` on the protocol, in each of the commands.
unfoldable pub list_action : SessionProtocol → Target → Text → Result Exit RemoteAction
unfolding unsupported_live_protocol
list_action sftp t path = ok (run_sftp_list (at_path t path))
list_action ftp t path = ok (run_ftp_list ftp t.host t.port t.username path)
list_action ftps t path = ok (run_ftp_list ftps t.host t.port t.username path)
list_action scp t path = exit_error (codes "SCP is transfer-only; remote-list is unsupported") 1
list_action other t path = unsupported_live_protocol other

unfoldable pub run_remote_list : List Text → Result Exit RemoteAction
unfolding remote_target list_action
run_remote_list args = do
  t ← remote_target args
  list_action t.protocol t (elim t.parsed.path [ some path ↦ path | none ↦ codes "/" ])

unfoldable pub mkdir_action : SessionProtocol → Target → Text → Result Exit RemoteAction
unfolding unsupported_live_protocol
mkdir_action sftp t path = ok (run_sftp_mkdir (at_path t path))
mkdir_action ftp t path = ok (run_ftp_mkdir ftp t.host t.port t.username path)
mkdir_action ftps t path = ok (run_ftp_mkdir ftps t.host t.port t.username path)
mkdir_action scp t path = exit_error (codes "SCP is transfer-only; remote-mkdir is unsupported") 1
mkdir_action other t path = unsupported_live_protocol other

unfoldable pub run_remote_mkdir : List Text → Result Exit RemoteAction
unfolding remote_target mkdir_action
run_remote_mkdir args = do
  t ← remote_target args
  path ← required t.parsed.path (codes "--path is required")
  mkdir_action t.protocol t path

unfoldable pub delete_action : SessionProtocol → Target → Text → Result Exit RemoteAction
unfolding unsupported_live_protocol
delete_action sftp t path = ok (run_sftp_delete (at_path t path))
delete_action ftp t path = ok (run_ftp_delete ftp t.host t.port t.username path)
delete_action ftps t path = ok (run_ftp_delete ftps t.host t.port t.username path)
delete_action scp t path = exit_error (codes "SCP is transfer-only; remote-delete is unsupported") 1
delete_action other t path = unsupported_live_protocol other

unfoldable pub run_remote_delete : List Text → Result Exit RemoteAction
unfolding remote_target delete_action
run_remote_delete args = do
  t ← remote_target args
  path ← required t.parsed.path (codes "--path is required")
  delete_action t.protocol t path

unfoldable pub rename_action :
    SessionProtocol → Target → (from to : Text) → Result Exit RemoteAction
unfolding unsupported_live_protocol
rename_action ftp t from to = ok (run_ftp_rename ftp t.host t.port t.username from to)
rename_action ftps t from to = ok (run_ftp_rename ftps t.host t.port t.username from to)
rename_action sftp t from to = exit_error (codes "remote-rename is not available for SFTP yet") 1
rename_action other t from to = unsupported_live_protocol other

unfoldable pub run_remote_rename : List Text → Result Exit RemoteAction
unfolding remote_target rename_action
run_remote_rename args = do
  t ← remote_target args
  from ← required t.parsed.from (codes "--from is required")
  to ← required t.parsed.to (codes "--to is required")
  rename_action t.protocol t from to

-- `unwrap_or_default`
abbrev pub policy_or_default : Option FileConflictPolicy → FileConflictPolicy
policy_or_default none = replace_existing
policy_or_default (some policy) = policy

-- The arguments of a transfer over SFTP, source first.
abbrev sftp_args : TransferKind → Target → (from_local remote : Text) → List Text
sftp_args uploading t from_local remote = t.host ∷ t.port ∷ t.username ∷ from_local ∷ remote ∷ []
sftp_args downloading t from_local remote = t.host ∷ t.port ∷ t.username ∷ remote ∷ from_local ∷ []

unfoldable pub scp_action :
    TransferKind
    → FileConflictPolicy
    → Target
    → (from_local remote : Text) → Result Exit RemoteAction
scp_action downloading policy t from_local remote =
    ok (run_scp_transfer t.host t.port t.username from_local remote downloading policy)
scp_action uploading replace_existing t from_local remote =
    ok (run_scp_transfer t.host t.port t.username from_local remote uploading replace_existing)
scp_action uploading _ t from_local remote =
    exit_error
      (codes "SCP cannot inspect remote conflicts; use SFTP for keep-existing or keep-both") 1

unfoldable pub transfer_action :
    SessionProtocol → TransferKind → Target → (from_local remote : Text) → Result Exit RemoteAction
unfolding unsupported_live_protocol scp_action
transfer_action sftp kind t from_local remote = ok (
    run_sftp_transfer (sftp_args kind t from_local remote) kind
      (policy_or_default t.parsed.conflict) true)
transfer_action ftp kind t from_local remote =
    ok (run_ftp_transfer ftp t.host t.port t.username from_local remote t.parsed.conflict kind)
transfer_action ftps kind t from_local remote =
    ok (run_ftp_transfer ftps t.host t.port t.username from_local remote t.parsed.conflict kind)
transfer_action scp kind t from_local remote =
    scp_action kind (policy_or_default t.parsed.conflict) t from_local remote
transfer_action other kind t from_local remote = unsupported_live_protocol other

unfoldable pub run_remote_transfer : TransferKind → List Text → Result Exit RemoteAction
unfolding remote_target transfer_action
run_remote_transfer kind args = do
  t ← remote_target args
  from_local ← required t.parsed.local_path (codes "--local is required")
  remote ← required t.parsed.remote_path (codes "--remote is required")
  transfer_action t.protocol kind t from_local remote
