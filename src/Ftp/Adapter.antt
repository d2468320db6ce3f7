-- ===== src/Ftp/Adapter.antt =====
-- The adapter over an open connection. The connection is a `Server`: each call of the FTP library
-- answers with its value or with the text of its error, and leaves a connection.
use cross_scp.Base.{
  ℕ, zero, suc, ◌+◌, List, [], ◌∷◌, ◌++◌, Option, none, some, Bool, ◌||◌, ◌&&◌, not, if◌then◌else◌,
  find, retain,
}
use cross_scp.Base.Result.{Result, ok, err, map_err}
use cross_scp.Base.Text.{Text, codes, text_eq, to_ascii_lowercase, starts_with}
use cross_scp.Session.{ftp, ftps}
use cross_scp.Protocol.{
  RemoteFile, FileConflictPolicy, keep_existing, replace_existing, keep_both,
  numbered_conflict_path,
}
use cross_scp.Ftp.{
  FtpError, invalid_protocol, not_connected, backend, tls, unsupported_operation, from_backend,
  implicit, FtpConnectionConfig, FtpAuthMaterial, address, join_remote_path, split_remote_parent,
  validate_ftp_path,
}

-- What the library reads off a line of a listing.
pub record ListedFile : Type 0 where
  pub name : Text
  pub size : ℕ
  pub is_directory : Bool
  pub is_symlink : Bool

pub record Server (S : Type 0) : Type 0 where
  pub connect : Text → Result Text S
  pub new_tls_connector : Result Text (Unit {0})
  pub connect_secure : Text → Result Text S
  pub into_secure : Text → S → Result Text S
  pub login : Text → Text → S → S × Result Text (Unit {0})
  pub quit : S → Result Text (Unit {0})
  pub list : Text → S → S × Result Text (List Text)
  pub list_fallback : Text → S → S × Result Text (List Text)
  pub mkdir : Text → S → S × Result Text (Unit {0})
  pub rm : Text → S → S × Result Text (Unit {0})
  pub rmdir : Text → S → S × Result Text (Unit {0})
  pub rename : Text → Text → S → S × Result Text (Unit {0})
  pub from_mlsx_line : Text → Result Text ListedFile
  pub from_str : Text → Result Text ListedFile

pub record FtpAdapter (S : Type 0) : Type 0 where
  pub config : FtpConnectionConfig
  pub auth : FtpAuthMaterial
  pub session : Option S

-- A method on `&mut self` that may fail.
abbrev pub Method : Type 0 → Type 0 → Type 0
Method S A = FtpAdapter S → FtpAdapter S × Result FtpError A

module _ {S A B : Type 0} where
  abbrev pub and_then :
      FtpAdapter S × Result FtpError A → (A → Method S B) → FtpAdapter S × Result FtpError B
  and_then (adapter, err e) next = (adapter, err e)
  and_then (adapter, ok a) next = next a adapter

  infixl 5 ◌>>=◌
  abbrev pub ◌>>=◌ : Method S A → (A → Method S B) → Method S B
  (method >>= next) adapter = and_then (method adapter) next

module _ {S A : Type 0} where
  infixl 5 ◌>>◌
  abbrev pub ◌>>◌ : Method S (Unit {0}) → Method S A → Method S A
  method >> next = method >>= λ done. next

  abbrev pub lift : Result FtpError A → Method S A
  lift result adapter = (adapter, result)

  abbrev pub in_session : FtpAdapter S → S × Result Text A → FtpAdapter S × Result FtpError A
  in_session adapter (session, result) =
      (record adapter { session = some session }, map_err from_backend result)

  -- `self.session_mut()?.call(...)?`
  unfoldable pub with_session : (S → S × Result Text A) → Method S A
  with_session call adapter = elim adapter.session [
    | none ↦ (adapter, err not_connected)
    | some session ↦ in_session adapter (call session)
  ]

-- `map(parse).collect::<Result<Vec<_>, _>>()?`
unfoldable pub parse_listing :
    Text → (Text → Result Text ListedFile) → List Text → Result FtpError (List ListedFile)
parse_listing message parse [] = ok []
parse_listing message parse (line ∷ lines) =
    let rest = parse_listing message parse lines in
    elim (parse line) [
      | err error ↦ err (backend (message ++ error))
      | ok file ↦ elim rest [ err e ↦ err e | ok files ↦ ok (file ∷ files) ]
    ]

unfoldable pub is_entry : Text → Bool
unfolding starts_with to_ascii_lowercase
is_entry line =
    let normalized = to_ascii_lowercase line in
    not (starts_with normalized (codes "type=cdir;"))
    && not (starts_with normalized (codes "type=pdir;"))

unfoldable pub is_dots : Text → Bool
unfolding text_eq
is_dots name = text_eq name (codes ".") || text_eq name (codes "..")

unfoldable pub remote_file_from_listing : Text → ListedFile → Option RemoteFile
unfolding is_dots join_remote_path
remote_file_from_listing parent file =
    if is_dots file.name
    then none
    else some (record {
      path = join_remote_path parent file.name;
      name = file.name;
      size = some file.size;
      is_directory = file.is_directory;
      is_symlink = file.is_symlink;
      permissions = none;
    })

unfoldable pub remote_files : Text → List ListedFile → List RemoteFile
unfolding remote_file_from_listing
remote_files parent [] = []
remote_files parent (file ∷ files) =
    let rest = remote_files parent files in
    elim (remote_file_from_listing parent file) [ none ↦ rest | some entry ↦ entry ∷ rest ]

module _ {S : Type 0} (server : Server S) where
  abbrev pub logged_in :
      FtpAdapter S → S × Result Text (Unit {0}) → FtpAdapter S × Result FtpError (Unit {0})
  logged_in adapter (session, err e) = (adapter, err (from_backend e))
  logged_in adapter (session, ok _) = (record adapter { session = some session }, ok tt)

  connect_plain : Method S (Unit {0})
  connect_plain adapter = elim (server.connect (address adapter.config)) [
    | err e ↦ (adapter, err (from_backend e))
    | ok session ↦
        logged_in adapter (server.login adapter.auth.username adapter.auth.password session)
  ]

  connect_tls : Method S (Unit {0})
  connect_tls adapter = elim server.new_tls_connector [
    | err e ↦ (adapter, err (tls e))
    | ok _ ↦ elim (server.connect_secure (address adapter.config)) [
      | err e ↦ (adapter, err (from_backend e))
      | ok stream ↦ elim (server.into_secure adapter.config.host stream) [
        | err e ↦ (adapter, err (from_backend e))
        | ok session ↦
            logged_in adapter (server.login adapter.auth.username adapter.auth.password session)
      ]
    ]
  ]

  unfoldable pub connect : Method S (Unit {0})
  unfolding connect_plain connect_tls
  connect adapter = elim adapter.config.protocol [
    | ftp ↦ connect_plain adapter
    | ftps ↦ elim adapter.config.ftps_mode [
      | some implicit ↦ (
        adapter,
        err (
            unsupported_operation
              (codes "implicit FTPS is not supported by the selected backend yet")),
      )
      | _ ↦ connect_tls adapter
    ]
    | protocol ↦ (adapter, err (invalid_protocol protocol))
  ]

  -- `take` leaves no session, also when `quit` fails.
  unfoldable pub disconnect : Method S (Unit {0})
  disconnect adapter = elim adapter.session [
    | none ↦ (adapter, ok tt)
    | some session ↦ (record adapter { session = none }, map_err from_backend (server.quit session))
  ]

  unfoldable pub listed :
      Text
      → FtpAdapter S
      → S × Result Text (List Text)
      → FtpAdapter S × Result FtpError (List ListedFile)
  unfolding parse_listing is_entry with_session retain
  listed path adapter (session, ok lines) = (
    record adapter { session = some session },
    parse_listing (codes "could not parse FTP MLSD response: ") server.from_mlsx_line
        (retain is_entry lines),
  )
  listed path adapter (session, err _) =
      and_then
        (with_session (server.list_fallback path) (record adapter { session = some session }))
        (λ lines.
          lift (parse_listing (codes "could not parse FTP LIST response: ") server.from_str lines))

  unfoldable pub list_files : Text → Method S (List ListedFile)
  unfolding listed
  list_files path adapter = elim adapter.session [
    | none ↦ (adapter, err not_connected)
    | some session ↦ listed path adapter (server.list path session)
  ]

  unfoldable pub list_directory : Text → Method S (List RemoteFile)
  unfolding validate_ftp_path list_files remote_files
  list_directory path = do
    lift (validate_ftp_path path)
    files ← list_files path
    lift (ok (remote_files path files))

  unfoldable pub create_directory : Text → Method S (Unit {0})
  unfolding validate_ftp_path with_session
  create_directory path = do lift (validate_ftp_path path); with_session (server.mkdir path)

  -- The error of `rm` is what is told when `rmdir` fails as well.
  unfoldable pub or_directory :
      Text → FtpAdapter S → S × Result Text (Unit {0}) → FtpAdapter S × Result FtpError (Unit {0})
  or_directory path adapter (session, ok _) = (record adapter { session = some session }, ok tt)
  or_directory path adapter (session, err file_error) =
      let (after, removed) = server.rmdir path session in
      (record adapter { session = some after }, map_err (λ _. backend file_error) removed)

  unfoldable pub delete_path : Text → Method S (Unit {0})
  unfolding validate_ftp_path or_directory
  delete_path path = do
    lift (validate_ftp_path path)
    λ adapter. elim adapter.session [
      | none ↦ (adapter, err not_connected)
      | some session ↦ or_directory path adapter (server.rm path session)
    ]

  unfoldable pub rename : Text → Text → Method S (Unit {0})
  unfolding validate_ftp_path with_session
  rename source target = do
    lift (validate_ftp_path source)
    lift (validate_ftp_path target)
    with_session (server.rename source target)

  unfoldable pub remote_entry : Text → Method S (Option RemoteFile)
  unfolding validate_ftp_path split_remote_parent list_directory text_eq find
  remote_entry path = do
    lift (validate_ftp_path path)
    entries ← list_directory (split_remote_parent path).0
    lift (ok (find (λ entry. text_eq entry.name (split_remote_parent path).1) entries))

  -- The `for` loop over the copy numbers from `copy_number` on, `rounds` of them.
  unfoldable pub next_available_from : (rounds copy_number : ℕ) → Text → Bool → Method S Text
  unfolding remote_entry numbered_conflict_path
  next_available_from zero copy_number path is_directory =
      lift
        (err (backend (codes "could not create a unique upload name for '" ++ path ++ codes "'")))
  next_available_from (suc rounds) copy_number path is_directory = do
    let candidate = numbered_conflict_path path copy_number is_directory
    found ← remote_entry candidate
    elim found [
      | none ↦ lift (ok candidate)
      | some entry ↦ next_available_from rounds (copy_number + 1) path is_directory
    ]

  -- `1..=u32::MAX`
  unfoldable pub next_available_remote_path : Text → Bool → Method S Text
  unfolding next_available_from
  next_available_remote_path = next_available_from 4294967295 1

  abbrev pub resolve_existing :
      Text → Bool → FileConflictPolicy → RemoteFile → Method S (Option Text)
  resolve_existing path source_is_directory replace_existing existing = lift (ok (some path))
  resolve_existing path source_is_directory keep_existing existing =
      if source_is_directory && existing.is_directory then lift (ok (some path)) else lift (ok none)
  resolve_existing path source_is_directory keep_both existing = do
    renamed ← next_available_remote_path path source_is_directory
    lift (ok (some renamed))

  unfoldable pub resolve_upload_conflict_destination :
      Text → Bool → FileConflictPolicy → Method S (Option Text)
  unfolding remote_entry
  resolve_upload_conflict_destination path source_is_directory policy = do
    found ← remote_entry path
    elim found [
      | none ↦ lift (ok (some path))
      | some existing ↦ resolve_existing path source_is_directory policy existing
    ]
