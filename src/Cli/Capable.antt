-- ===== src/Cli/Capable.antt =====
-- No remote command runs what the capabilities of its protocol exclude.
use cross_scp.Base.{◌≡◌, refl, ap, ◌∙◌, List, some, Bool, true}
use mathlib.Core.Path.{subst}
use cross_scp.Base.Result.{Result, ok, err, >>=-eq-ok, ok_or-eq-ok, map_err-eq-ok}
use cross_scp.Base.Text.{Text, codes}
use cross_scp.Session.{SessionProtocol, sftp, scp, ftp, ftps}
use cross_scp.Protocol.{FileConflictPolicy, replace_existing}
use cross_scp.Protocol.Capabilities.{ProtocolCapabilities}
use cross_scp.Cli.{
  RemoteCommandArgs, parse_remote_args, remote_protocol, remote_host_port_username,
  capabilities_for,
}
use cross_scp.Cli.Remote.{
  Exit, TransferKind, uploading, downloading, RemoteAction, run_sftp_list, run_sftp_mkdir,
  run_sftp_delete, run_sftp_transfer, run_ftp_list, run_ftp_mkdir, run_ftp_delete, run_ftp_transfer,
  run_ftp_rename, run_scp_transfer, Target, or_exit, required, remote_target, list_action,
  run_remote_list, mkdir_action, run_remote_mkdir, delete_action, run_remote_delete, rename_action,
  run_remote_rename, scp_action, transfer_action, run_remote_transfer,
}

-- The remote commands by their names.
pub data RemoteCommand : Type 0 where
  remote_list remote_mkdir remote_delete remote_rename : RemoteCommand
  remote_transfer : TransferKind → RemoteCommand

abbrev pub run_remote : RemoteCommand → List Text → Result Exit RemoteAction
run_remote remote_list = run_remote_list
run_remote remote_mkdir = run_remote_mkdir
run_remote remote_delete = run_remote_delete
run_remote remote_rename = run_remote_rename
run_remote (remote_transfer kind) = run_remote_transfer kind

-- Over which protocol an action goes; those of FTP name it.
abbrev pub speaks : RemoteAction → SessionProtocol
speaks (run_sftp_list _) = sftp
speaks (run_sftp_mkdir _) = sftp
speaks (run_sftp_delete _) = sftp
speaks (run_sftp_transfer _ _ _ _) = sftp
speaks (run_ftp_list protocol _ _ _ _) = protocol
speaks (run_ftp_mkdir protocol _ _ _ _) = protocol
speaks (run_ftp_delete protocol _ _ _ _) = protocol
speaks (run_ftp_transfer protocol _ _ _ _ _ _ _) = protocol
speaks (run_ftp_rename protocol _ _ _ _ _) = protocol
speaks (run_scp_transfer _ _ _ _ _ _ _) = scp

abbrev can_transfer : TransferKind → ProtocolCapabilities → Bool
can_transfer uploading caps = caps.can_upload
can_transfer downloading caps = caps.can_download

-- What a protocol must be able to do for an action.
abbrev pub can_do : RemoteAction → ProtocolCapabilities → Bool
can_do (run_sftp_list _) caps = caps.can_list
can_do (run_ftp_list _ _ _ _ _) caps = caps.can_list
can_do (run_sftp_mkdir _) caps = caps.can_mkdir
can_do (run_ftp_mkdir _ _ _ _ _) caps = caps.can_mkdir
can_do (run_sftp_delete _) caps = caps.can_delete
can_do (run_ftp_delete _ _ _ _ _) caps = caps.can_delete
can_do (run_ftp_rename _ _ _ _ _ _) caps = caps.can_rename
can_do (run_sftp_transfer _ kind _ _) caps = can_transfer kind caps
can_do (run_ftp_transfer _ _ _ _ _ _ _ kind) caps = can_transfer kind caps
can_do (run_scp_transfer _ _ _ _ _ kind _) caps = can_transfer kind caps

-- The action goes over the protocol, which can do it.
abbrev pub IsAble : SessionProtocol → RemoteAction → Type 0
IsAble protocol action =
    (speaks action ≡ protocol) × (can_do action (capabilities_for protocol) ≡ true)

-- An outcome is an exit, or the action of an able protocol.
AllAble : SessionProtocol → Result Exit RemoteAction → Type 0
AllAble protocol (ok action) = IsAble protocol action
AllAble protocol (err exit) = Unit

AllAble-ok :
    (protocol : SessionProtocol) (r : Result Exit RemoteAction) {action : RemoteAction}
    → AllAble protocol r
    → r ≡ ok action
    → IsAble protocol action
unfolding AllAble
AllAble-ok protocol (ok a) able h =
    let same : a ≡ _ = ok_same h in subst (IsAble protocol) same able
  where
    ok_same : {a b : RemoteAction} → ◌≡◌ {A = Result Exit RemoteAction} (ok a) (ok b) → a ≡ b
    ok_same q = cc
AllAble-ok protocol (err e) able h = cc

list_action-AllAble :
    (p : SessionProtocol) (t : Target) (path : Text) → AllAble p (list_action p t path)
unfolding AllAble list_action capabilities_for
list_action-AllAble sftp t path = (refl, refl)
list_action-AllAble ftp t path = (refl, refl)
list_action-AllAble ftps t path = (refl, refl)
list_action-AllAble _ t path = tt

mkdir_action-AllAble :
    (p : SessionProtocol) (t : Target) (path : Text) → AllAble p (mkdir_action p t path)
unfolding AllAble mkdir_action capabilities_for
mkdir_action-AllAble sftp t path = (refl, refl)
mkdir_action-AllAble ftp t path = (refl, refl)
mkdir_action-AllAble ftps t path = (refl, refl)
mkdir_action-AllAble _ t path = tt

delete_action-AllAble :
    (p : SessionProtocol) (t : Target) (path : Text) → AllAble p (delete_action p t path)
unfolding AllAble delete_action capabilities_for
delete_action-AllAble sftp t path = (refl, refl)
delete_action-AllAble ftp t path = (refl, refl)
delete_action-AllAble ftps t path = (refl, refl)
delete_action-AllAble _ t path = tt

rename_action-AllAble :
    (p : SessionProtocol) (t : Target) (from to : Text) → AllAble p (rename_action p t from to)
unfolding AllAble rename_action capabilities_for
rename_action-AllAble ftp t from to = (refl, refl)
rename_action-AllAble ftps t from to = (refl, refl)
rename_action-AllAble _ t from to = tt

scp_action-AllAble :
    (kind : TransferKind) (policy : FileConflictPolicy) (t : Target) (l r : Text)
    → AllAble scp (scp_action kind policy t l r)
unfolding AllAble scp_action capabilities_for
scp_action-AllAble downloading policy t l r = (refl, refl)
scp_action-AllAble uploading replace_existing t l r = (refl, refl)
scp_action-AllAble uploading _ t l r = tt

transfer_action-AllAble :
    (p : SessionProtocol) (kind : TransferKind) (t : Target) (l r : Text)
    → AllAble p (transfer_action p kind t l r)
unfolding AllAble transfer_action capabilities_for
transfer_action-AllAble sftp uploading t l r = (refl, refl)
transfer_action-AllAble sftp downloading t l r = (refl, refl)
transfer_action-AllAble ftp uploading t l r = (refl, refl)
transfer_action-AllAble ftp downloading t l r = (refl, refl)
transfer_action-AllAble ftps uploading t l r = (refl, refl)
transfer_action-AllAble ftps downloading t l r = (refl, refl)
transfer_action-AllAble scp kind t l r = scp_action-AllAble kind _ t l r
transfer_action-AllAble _ kind t l r = tt

-- The protocol is the one that the arguments name.
abbrev pub Names : List Text → SessionProtocol → Type 0
Names args protocol =
    (parsed : RemoteCommandArgs) × (parse_remote_args args ≡ ok parsed)
    × (parsed.protocol ≡ some protocol)

target-Names : (args : List Text) {t : Target} → remote_target args ≡ ok t → Names args t.protocol
unfolding remote_target remote_protocol
target-Names args {t = t} h =
    let (parsed, a, h1) = >>=-eq-ok (or_exit 2 (parse_remote_args args)) _ h in
    let (protocol, b, h2) = >>=-eq-ok (or_exit 2 (remote_protocol parsed)) _ h1 in
    let (rest, c, h3) = >>=-eq-ok (or_exit 2 (remote_host_port_username parsed)) _ h2 in
    let made : Target = record {
      parsed = parsed;
      protocol = protocol;
      host = rest.0;
      port = rest.1;
      username = rest.2;
    } in
    let same : made ≡ t = cc in
    let named : parsed.protocol ≡ some protocol =
      ok_or-eq-ok parsed.protocol (codes "--protocol is required") (map_err-eq-ok _ _ b) in
    (parsed, map_err-eq-ok _ _ a, named ∙ ap (λ u. some u.protocol) same)

-- A remote command that does not end with an error runs an action over the protocol that its arguments
-- name, and the capabilities of that protocol include it.
pub run_remote-IsAble :
    (command : RemoteCommand) (args : List Text) {action : RemoteAction}
    → run_remote command args ≡ ok action
    → (protocol : SessionProtocol) × Names args protocol × IsAble protocol action
unfolding run_remote_list run_remote_mkdir run_remote_delete run_remote_rename run_remote_transfer
run_remote-IsAble remote_list args h =
    let (t, a, k) = >>=-eq-ok (remote_target args) _ h in
    (
      t.protocol,
      target-Names args a,
      AllAble-ok t.protocol _ (list_action-AllAble t.protocol t _) k,
    )
run_remote-IsAble remote_mkdir args h =
    let (t, a, k) = >>=-eq-ok (remote_target args) _ h in
    let (path, b, l) = >>=-eq-ok (required t.parsed.path (codes "--path is required")) _ k in
    (
      t.protocol,
      target-Names args a,
      AllAble-ok t.protocol _ (mkdir_action-AllAble t.protocol t path) l,
    )
run_remote-IsAble remote_delete args h =
    let (t, a, k) = >>=-eq-ok (remote_target args) _ h in
    let (path, b, l) = >>=-eq-ok (required t.parsed.path (codes "--path is required")) _ k in
    (
      t.protocol,
      target-Names args a,
      AllAble-ok t.protocol _ (delete_action-AllAble t.protocol t path) l,
    )
run_remote-IsAble remote_rename args h =
    let (t, a, k) = >>=-eq-ok (remote_target args) _ h in
    let (from, b, l) = >>=-eq-ok (required t.parsed.from (codes "--from is required")) _ k in
    let (to, c, m) = >>=-eq-ok (required t.parsed.to (codes "--to is required")) _ l in
    (
      t.protocol,
      target-Names args a,
      AllAble-ok t.protocol _ (rename_action-AllAble t.protocol t from to) m,
    )
run_remote-IsAble (remote_transfer kind) args h =
    let (t, a, k) = >>=-eq-ok (remote_target args) _ h in
    let (l, b, h1) = >>=-eq-ok (required t.parsed.local_path (codes "--local is required")) _ k in
    let (r, c, h2) =
      >>=-eq-ok (required t.parsed.remote_path (codes "--remote is required")) _ h1 in
    (
      t.protocol,
      target-Names args a,
      AllAble-ok t.protocol _ (transfer_action-AllAble t.protocol kind t l r) h2,
    )
