-- ===== src/Ssh2/Session.antt =====
-- `Ssh2Backend`: its session, how it is opened, and the methods that need it. Sockets and sessions
-- are a `Network`.
use cross_scp.Base.{ℕ, List, [], ◌∷◌, ◌++◌, Option, none, some, Bool, false, not, if◌then◌else◌}
use cross_scp.Base.Result.{ok_or}
use cross_scp.Base.Text.{Text, codes}
use cross_scp.Base.Decimal.{to_string}
use cross_scp.Base.Order.{text_lt}
use cross_scp.Protocol.{FileConflictPolicy}
use cross_scp.Security.{CredentialSecret, password, private_key}
use cross_scp.Machine.{FileStat, Machine, Sftp}
use cross_scp.Machine.Network.{Network, or, first_of, exposed}
use cross_scp.Machine.Call.{Call, ◌>>=◌, ◌>>◌, return, when, throw, from_result, calling, change}
use cross_scp.Sftp.Errors.{
  SftpError, backend, missing_username, unsupported_auth_method, authentication_failed,
  not_connected,
}
use cross_scp.Sftp.Settings.{SftpConnectionConfig, SftpAuthMaterial}
use cross_scp.Sftp.Backend.{SftpRemoteFile, SftpFileProgress}
use cross_scp.Ssh2.Paths.{
  is_directory_perm, is_symlink_perm, is_some_and, is_dots, entry_name, remote_child_path,
}
use cross_scp.Ssh2.Copy.{from_io}
use cross_scp.Ssh2.Remote.{from_ssh2, ensure_remote_directory, delete_remote_path_recursive}
use cross_scp.Ssh2.Upload.{normalize_remote_path}
use cross_scp.Ssh2.Progress.{upload_path, upload_plain}
use cross_scp.Ssh2.Download.{download_path}

pub record Ssh2Backend (S : Type 0) : Type 0 where
  pub auth : SftpAuthMaterial
  pub timeout : ℕ
  pub session : Option S

abbrev pub new : {S : Type 0} → SftpAuthMaterial → Ssh2Backend S
new auth = record { auth = auth; timeout = 300000; session = none }

abbrev pub with_timeout : {S : Type 0} → ℕ → Ssh2Backend S → Ssh2Backend S
with_timeout timeout ssh2 = record ssh2 { timeout = timeout }

module _ {W H S T : Type 0} (machine : Machine W H) (network : Network W H S T) where
  -- The `match` on the secret.
  unfoldable pub authenticate : S → Text → CredentialSecret → Call W SftpError (Unit {0})
  authenticate session username (password secret) =
      calling from_ssh2 (network.userauth_password session username secret.expose)
  authenticate session username (private_key path passphrase) =
      calling from_ssh2 (network.userauth_pubkey_file session username path (exposed passphrase))
  authenticate session username _ = throw (
      unsupported_auth_method (
        codes
          "ssh2 backend supports password auth or private-key auth with an optional passphrase"))

  abbrev no_address : SftpConnectionConfig → SftpError
  unfolding to_string
  no_address config =
      backend (codes "no socket address for " ++ config.host ++ b':' ∷ to_string config.port)

  -- The socket and the handshake.
  unfoldable pub open_transport : Ssh2Backend S → SftpConnectionConfig → Call W SftpError S
  unfolding no_address
  open_transport ssh2 config = do
    addresses ← calling from_io (network.to_socket_addrs config.host config.port)
    address ← from_result (ok_or (first_of addresses) (no_address config))
    tcp ← calling from_io (network.connect_timeout address ssh2.timeout)
    calling from_io (network.set_read_timeout tcp ssh2.timeout)
    calling from_io (network.set_write_timeout tcp ssh2.timeout)
    session ← calling from_ssh2 network.new_session
    change (network.set_tcp_stream session tcp)
    calling from_ssh2 (network.handshake session)
    return session

  unfoldable pub require_authenticated : S → Call W SftpError (Unit {0})
  require_authenticated session w =
      when (not (network.authenticated session w)) (throw authentication_failed) w

  unfoldable pub log_in : Ssh2Backend S → SftpConnectionConfig → S → Call W SftpError (Unit {0})
  unfolding authenticate require_authenticated
  log_in ssh2 config session = do
    username ← from_result (ok_or (or ssh2.auth.username config.username) missing_username)
    authenticate session username ssh2.auth.secret
    require_authenticated session

  -- The session stays as it was where one cannot be opened.
  unfoldable pub connect : SftpConnectionConfig → Ssh2Backend S → Call W SftpError (Ssh2Backend S)
  unfolding open_transport log_in
  connect config ssh2 = do
    session ← open_transport ssh2 config
    log_in ssh2 config session
    return (record ssh2 { session = some session })

  -- `take` leaves no session, also where the call fails.
  unfoldable pub disconnect : Ssh2Backend S → Ssh2Backend S × Call W SftpError (Unit {0})
  disconnect ssh2 = (
    record ssh2 { session = none },
    elim ssh2.session [
      | none ↦ return tt
      | some session ↦ calling from_ssh2 (network.disconnect session (codes "CrossSCP disconnect"))
    ],
  )

  unfoldable pub is_connected : Ssh2Backend S → W → Bool
  is_connected ssh2 w = elim ssh2.session [
    | none ↦ false
    | some session ↦ network.authenticated session w
  ]

  -- `self.session.as_ref().ok_or(SftpError::NotConnected)?`
  unfoldable pub in_session :
      {A : Type 0} → Ssh2Backend S → (S → Call W SftpError A) → Call W SftpError A
  in_session ssh2 next = from_result (ok_or ssh2.session not_connected) >>= next

  abbrev pub in_sftp :
      {A : Type 0} → Ssh2Backend S → (Sftp W H → Call W SftpError A) → Call W SftpError A
  unfolding in_session
  in_sftp ssh2 next = in_session ssh2 (λ session. calling from_ssh2 (network.sftp session) >>= next)

  unfoldable pub listed_entries : Text → List (Text × FileStat) → List SftpRemoteFile
  unfolding entry_name is_dots remote_child_path is_directory_perm is_symlink_perm
  listed_entries path [] = []
  listed_entries path ((entry_path, stat) ∷ entries) =
      let rest = listed_entries path entries in
      let name = entry_name machine.paths.file_name entry_path in
      if is_dots name
      then rest
      else record {
        name = name;
        path = remote_child_path machine.paths.file_name path entry_path;
        size = stat.size;
        is_directory = is_some_and is_directory_perm stat.perm;
        is_symlink = is_some_and is_symlink_perm stat.perm;
        permissions = stat.perm;
      }
        ∷ rest

  -- `sort_by` the names, as a sort by insertion: both are stable. Names are compared by their bytes,
  -- which is by their code points.
  unfoldable pub place : SftpRemoteFile → List SftpRemoteFile → List SftpRemoteFile
  unfolding text_lt
  place file [] = file ∷ []
  place file (other ∷ files) =
      let rest = place file files in
      if text_lt other.name file.name then other ∷ rest else file ∷ other ∷ files

  unfoldable pub sorted_by_name : List SftpRemoteFile → List SftpRemoteFile
  unfolding place
  sorted_by_name [] = []
  sorted_by_name (file ∷ files) = place file (sorted_by_name files)

  unfoldable pub list_directory : Text → Ssh2Backend S → Call W SftpError (List SftpRemoteFile)
  unfolding in_sftp normalize_remote_path listed_entries sorted_by_name
  list_directory path ssh2 = in_sftp ssh2 (λ sftp. do
    normalized ← normalize_remote_path machine sftp path
    entries ← calling from_ssh2 (sftp.readdir normalized)
    return (sorted_by_name (listed_entries normalized entries)))

  unfoldable pub create_directory : Text → Ssh2Backend S → Call W SftpError (Unit {0})
  unfolding in_sftp normalize_remote_path ensure_remote_directory
  create_directory remote_path ssh2 = in_sftp ssh2 (λ sftp.
      normalize_remote_path machine sftp remote_path >>= ensure_remote_directory machine.paths sftp)

  unfoldable pub delete_path : ℕ → Text → Ssh2Backend S → Call W SftpError (Unit {0})
  unfolding in_sftp normalize_remote_path delete_remote_path_recursive
  delete_path fuel remote_path ssh2 = in_sftp ssh2 (λ sftp.
      normalize_remote_path machine sftp remote_path
      >>= delete_remote_path_recursive machine.paths sftp fuel)

  module _ (fuel rounds : ℕ) where
    -- `upload_file_with_progress_policy_impl`, and with `false` or `true` the two methods that call it.
    unfoldable pub upload_file_with_progress_policy_impl :
        (local_path remote_path : Text)
        → FileConflictPolicy
        → (exact_destination : Bool) → Ssh2Backend S
        → Call W SftpError SftpFileProgress
    unfolding in_session upload_path
    upload_file_with_progress_policy_impl local_path remote_path policy exact_destination ssh2 =
        in_session ssh2 (λ session. do
          metadata ← calling from_io (machine.metadata local_path)
          sftp ← calling from_ssh2 (network.sftp session)
          upload_path machine sftp rounds fuel local_path remote_path policy exact_destination
              metadata)

    unfoldable pub upload_file :
        (local_path remote_path : Text) → Ssh2Backend S → Call W SftpError SftpFileProgress
    unfolding in_session upload_plain
    upload_file local_path remote_path ssh2 = in_session ssh2 (λ session. do
      metadata ← calling from_io (machine.metadata local_path)
      sftp ← calling from_ssh2 (network.sftp session)
      upload_plain machine sftp rounds fuel local_path remote_path metadata)

    unfoldable pub download_file_with_progress_policy :
        (remote_path local_path : Text)
        → FileConflictPolicy
        → Ssh2Backend S
        → Call W SftpError SftpFileProgress
    unfolding in_sftp download_path
    download_file_with_progress_policy remote_path local_path policy ssh2 =
        in_sftp ssh2 (λ sftp. download_path machine sftp rounds fuel remote_path local_path policy)
