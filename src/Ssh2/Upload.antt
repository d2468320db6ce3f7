-- ===== src/Ssh2/Upload.antt =====
-- Where an upload goes, how its file is made, and the upload without progress. A recursion into
-- directories has `fuel` for its depth.
use cross_scp.Base.{
  ℕ, zero, suc, ◌+◌, ◌%◌, ◌^◌, List, [], ◌∷◌, Option, none, some, Bool, true, false, ◌&&◌, ◌||◌,
  if◌then◌else◌, is_empty, drop,
}
use cross_scp.Base.Result.{Result, ok, err}
use cross_scp.Base.Text.{Text, codes, text_eq, trim, starts_with}
use cross_scp.Protocol.{
  FileConflictPolicy, replace_existing, keep_existing, keep_both, numbered_conflict_path,
}
use cross_scp.Machine.{IoError, Ssh2Error, DirEntry, FileStat, Machine, Sftp}
use cross_scp.Machine.Call.{Call, ◌>>=◌, ◌>>◌, return, throw, exhausted, calling, looking}
use cross_scp.Sftp.Errors.{SftpError}
use cross_scp.Ssh2.Paths.{
  is_directory, is_some_directory, remote_join, resolve_upload_destination_for_type,
}
use cross_scp.Ssh2.Copy.{from_io}
use cross_scp.Ssh2.Remote.{
  from_ssh2, is_already_exists_error, remote_stat, ensure_remote_directory_for_replace,
  create_remote_file_exclusive, create_remote_file_for_replace, no_name, next_available_remote_path,
}

-- `DirectoryUploadProgress` without what does not change: the bytes that were sent, and those that
-- were sent or passed over.
pub record Counts : Type 0 where
  pub transferred : ℕ
  pub processed : ℕ

-- `+=` on a `u64`
infixl 60 ◌+64◌
abbrev pub ◌+64◌ : ℕ → ℕ → ℕ
a +64 b = (a + b) % 2 ^ 64

module _ {W H : Type 0} (machine : Machine W H) (sftp : Sftp W H) where
  home_or_dot : Result Ssh2Error Text → Text
  home_or_dot (ok path) = path
  home_or_dot (err _) = codes "."

  unfoldable pub normalize_remote_path : Text → Call W SftpError Text
  unfolding home_or_dot trim text_eq starts_with remote_join
  normalize_remote_path path =
      let trimmed = trim path in
      if is_empty trimmed || text_eq trimmed (codes ".") || text_eq trimmed (codes "~")
      then looking (sftp.realpath (codes ".")) (λ home. return (home_or_dot home))
      else if starts_with trimmed (codes "~/")
      then looking (sftp.realpath (codes "."))
          (λ home. return (remote_join (home_or_dot home) (drop 2 trimmed)))
      else return trimmed

  unfoldable pub resolve_upload_destination :
      (local_path remote_path : Text) → Bool → Call W SftpError Text
  unfolding remote_stat resolve_upload_destination_for_type trim
  resolve_upload_destination local_path remote_path local_is_directory = do
    found ← remote_stat machine.paths sftp (trim remote_path)
    return (
        resolve_upload_destination_for_type machine.paths.file_name local_path remote_path
          local_is_directory (is_some_directory found))

  abbrev pub resolve_existing :
      Text → Bool → FileStat → FileConflictPolicy → Call W SftpError (Option Text)
  unfolding next_available_remote_path
  resolve_existing remote_path source_is_directory existing replace_existing =
      return (some remote_path)
  resolve_existing remote_path source_is_directory existing keep_existing =
      if source_is_directory && is_directory existing
      then return (some remote_path)
      else return none
  resolve_existing remote_path source_is_directory existing keep_both =
      next_available_remote_path machine.paths sftp remote_path source_is_directory >>= λ name.
      return (some name)

  unfoldable pub resolve_upload_conflict_destination :
      Text → Bool → FileConflictPolicy → Call W SftpError (Option Text)
  unfolding remote_stat resolve_existing
  resolve_upload_conflict_destination remote_path source_is_directory policy =
      remote_stat machine.paths sftp remote_path >>= λ found. elim found [
        | none ↦ return (some remote_path)
        | some existing ↦ resolve_existing remote_path source_is_directory existing policy
      ]

  -- A file is created where nothing is; `otherwise` follows where something was there first.
  abbrev pub created_or :
      Text
      → Call W SftpError (Option (Text × H))
      → Result Ssh2Error H
      → Call W SftpError (Option (Text × H))
  created_or path otherwise (ok file) = return (some (path, file))
  created_or path otherwise (err error) = elim (is_already_exists_error error) [
    | true ↦ otherwise
    | false ↦ throw (from_ssh2 error)
  ]

  abbrev pub create_or :
      Text → Call W SftpError (Option (Text × H)) → Call W SftpError (Option (Text × H))
  create_or path otherwise =
      looking (create_remote_file_exclusive machine.paths sftp path) (created_or path otherwise)

  abbrev pub candidate_name : Text → ℕ → Text
  unfolding numbered_conflict_path
  candidate_name remote_path zero = remote_path
  candidate_name remote_path (suc n) = numbered_conflict_path remote_path (suc n) false

  -- The `for` loop over the copy numbers from `copy_number` on, `tries` of them.
  unfoldable pub create_numbered :
      (tries copy_number : ℕ) → Text → Call W SftpError (Option (Text × H))
  unfolding remote_stat create_remote_file_exclusive candidate_name
  create_numbered zero copy_number remote_path = no_name machine.paths sftp remote_path
  create_numbered (suc tries) copy_number remote_path = do
    let candidate = candidate_name remote_path copy_number
    found ← remote_stat machine.paths sftp candidate
    elim found [
      | some stat ↦ create_numbered tries (copy_number + 1) remote_path
      | none ↦ create_or candidate (λ w. create_numbered tries (copy_number + 1) remote_path w)
    ]

  unfoldable pub create_remote_file_for_policy :
      Text → FileConflictPolicy → Call W SftpError (Option (Text × H))
  unfolding remote_stat create_remote_file_exclusive create_remote_file_for_replace create_numbered
  create_remote_file_for_policy remote_path replace_existing = do
    file ← create_remote_file_for_replace machine.paths sftp remote_path
    return (some (remote_path, file))
  create_remote_file_for_policy remote_path keep_existing = do
    found ← remote_stat machine.paths sftp remote_path
    elim found [ some stat ↦ return none | none ↦ create_or remote_path (return none) ]
  create_remote_file_for_policy remote_path keep_both = create_numbered 4294967296 0 remote_path

  -- The loop over the entries of a directory; `again` is the function itself.
  unfoldable pub size_entries :
      (Text → Call W SftpError ℕ) → List (Result IoError DirEntry) → ℕ → Call W SftpError ℕ
  size_entries again [] bytes_total = return bytes_total
  size_entries again (err error ∷ entries) bytes_total = throw (from_io error)
  size_entries again (ok entry ∷ entries) bytes_total = do
    metadata ← calling from_io (machine.symlink_metadata entry.path)
    size ← elim metadata.is_dir [
      | true ↦ again entry.path
      | false ↦ return (if metadata.is_file then metadata.len else 0)
    ]
    size_entries again entries (bytes_total +64 size)

  unfoldable pub local_directory_size : ℕ → Text → Call W SftpError ℕ
  unfolding size_entries
  local_directory_size zero local_dir = exhausted
  local_directory_size (suc fuel) local_dir = do
    entries ← calling from_io (machine.read_dir local_dir)
    size_entries (λ path. local_directory_size fuel path) entries 0

  -- `std::io::copy` of the file, in the version without progress.
  unfoldable pub upload_plain_file : (local_path remote_path : Text) → Call W SftpError ℕ
  unfolding create_remote_file_for_replace
  upload_plain_file local_path remote_path = do
    remote_file ← create_remote_file_for_replace machine.paths sftp remote_path
    local_file ← calling from_io (machine.open_file local_path)
    calling from_io (machine.copy local_file remote_file)

  unfoldable pub upload_entries :
      (Text → Text → Call W SftpError ℕ)
      → Text
      → List (Result IoError DirEntry)
      → ℕ
      → Call W SftpError ℕ
  unfolding remote_join upload_plain_file
  upload_entries again remote_dir [] bytes_done = return bytes_done
  upload_entries again remote_dir (err error ∷ entries) bytes_done = throw (from_io error)
  upload_entries again remote_dir (ok entry ∷ entries) bytes_done = do
    let remote_path = remote_join remote_dir entry.file_name
    metadata ← calling from_io (machine.symlink_metadata entry.path)
    sent ← elim metadata.is_dir [
      | true ↦ again entry.path remote_path
      | false ↦ elim metadata.is_file [
        | true ↦ upload_plain_file entry.path remote_path
        | false ↦ return 0
      ]
    ]
    upload_entries again remote_dir entries (bytes_done +64 sent)

  unfoldable pub upload_directory_recursive : ℕ → (local_dir remote_dir : Text) → Call W SftpError ℕ
  unfolding ensure_remote_directory_for_replace upload_entries
  upload_directory_recursive zero local_dir remote_dir = exhausted
  upload_directory_recursive (suc fuel) local_dir remote_dir = do
    ensure_remote_directory_for_replace machine.paths sftp remote_dir
    entries ← calling from_io (machine.read_dir local_dir)
    upload_entries (λ path remote. upload_directory_recursive fuel path remote) remote_dir entries 0
