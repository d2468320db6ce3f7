-- ===== src/Ssh2/Progress.antt =====
-- The upload that reports its progress. A recursion into directories has `fuel` for its depth, and each
-- copy of a file `rounds` for its reads.
use cross_scp.Base.{
  ℕ, zero, suc, List, [], ◌∷◌, Option, none, some, Bool, true, false, if◌then◌else◌,
}
use cross_scp.Base.Result.{Result, ok, err}
use cross_scp.Base.Text.{Text}
use cross_scp.Protocol.{FileConflictPolicy, replace_existing}
use cross_scp.Machine.{IoError, DirEntry, Metadata, Machine, Sftp}
use cross_scp.Machine.Call.{Call, ◌>>=◌, ◌>>◌, return, throw, exhausted, calling, change}
use cross_scp.Sftp.Errors.{SftpError}
use cross_scp.Sftp.Backend.{SftpFileProgress}
use cross_scp.Ssh2.Paths.{remote_join}
use cross_scp.Ssh2.Copy.{from_io, copy_with_progress}
use cross_scp.Ssh2.Remote.{ensure_remote_directory, ensure_remote_directory_for_replace}
use cross_scp.Ssh2.Upload.{
  Counts, ◌+64◌, normalize_remote_path, resolve_upload_destination,
  resolve_upload_conflict_destination, create_remote_file_for_policy, local_directory_size,
  upload_plain_file, upload_directory_recursive,
}

module _ {W H : Type 0} (machine : Machine W H) (sftp : Sftp W H) (rounds : ℕ) where
  module _ (bytes_total : ℕ) where
    -- `*progress.bytes_processed += ...; (progress.report)(...)`
    abbrev processed : ℕ → Counts → Call W SftpError Counts
    processed bytes counts =
        let done = counts.processed +64 bytes in
        change (machine.report done (some bytes_total))
        >> return (record counts { processed = done })

    abbrev sent : ℕ → Counts → Call W SftpError Counts
    sent bytes counts =
        processed bytes (record counts { transferred = counts.transferred +64 bytes })

    unfoldable pub upload_file_entry :
        Text → ℕ → (remote_path : Text) → FileConflictPolicy → Counts → Call W SftpError Counts
    unfolding create_remote_file_for_policy copy_with_progress
    upload_file_entry local_path len remote_path policy counts = do
      created ← create_remote_file_for_policy machine sftp remote_path policy
      elim created [
        | none ↦ processed len counts
        | some (_, remote_file) ↦ do
          local_file ← calling from_io (machine.open_file local_path)
          bytes ←
              copy_with_progress machine local_file remote_file
                (λ file_bytes_done. (counts.processed +64 file_bytes_done, some bytes_total)) rounds
          sent bytes counts
      ]

    unfoldable pub upload_progress_entries :
        (Text → Text → Counts → Call W SftpError Counts)
        → (destination : Text) → FileConflictPolicy
        → List (Result IoError DirEntry)
        → Counts
        → Call W SftpError Counts
    unfolding remote_join upload_file_entry
    upload_progress_entries again destination policy [] counts = return counts
    upload_progress_entries again destination policy (err error ∷ entries) counts =
        throw (from_io error)
    upload_progress_entries again destination policy (ok entry ∷ entries) counts = do
      let remote_path = remote_join destination entry.file_name
      metadata ← calling from_io (machine.symlink_metadata entry.path)
      next ← elim metadata.is_dir [
        | true ↦ again entry.path remote_path counts
        | false ↦ elim metadata.is_file [
          | true ↦ upload_file_entry entry.path metadata.len remote_path policy counts
          | false ↦ return counts
        ]
      ]
      upload_progress_entries again destination policy entries next

    abbrev ensure_for : FileConflictPolicy → Text → Call W SftpError (Unit {0})
    unfolding ensure_remote_directory ensure_remote_directory_for_replace
    ensure_for replace_existing = ensure_remote_directory_for_replace machine.paths sftp
    ensure_for _ = ensure_remote_directory machine.paths sftp

    unfoldable pub upload_directory_recursive_with_progress :
        ℕ → (local_dir remote_dir : Text) → FileConflictPolicy → Counts → Call W SftpError Counts
    unfolding resolve_upload_conflict_destination local_directory_size ensure_for
        upload_progress_entries
    upload_directory_recursive_with_progress zero local_dir remote_dir policy counts = exhausted
    upload_directory_recursive_with_progress (suc fuel) local_dir remote_dir policy counts = do
      resolved ← resolve_upload_conflict_destination machine sftp remote_dir true policy
      elim resolved [
        | none ↦ do
          size ← local_directory_size machine sftp (suc fuel) local_dir
          processed size counts
        | some destination ↦ do
          ensure_for policy destination
          entries ← calling from_io (machine.read_dir local_dir)
          upload_progress_entries
              (λ path remote next.
                upload_directory_recursive_with_progress fuel path remote policy next)
              destination policy entries counts
      ]

  abbrev pub summary : (source destination : Text) → ℕ → Option ℕ → SftpFileProgress
  summary source destination bytes_done bytes_total = record {
    source = source;
    destination = destination;
    bytes_done = bytes_done;
    bytes_total = bytes_total;
  }

  abbrev pub requested : (local_path remote_path : Text) → Bool → Bool → Call W SftpError Text
  unfolding resolve_upload_destination
  requested local_path remote_path is_dir exact_destination =
      if exact_destination
      then return remote_path
      else resolve_upload_destination machine sftp local_path remote_path is_dir

  -- The branch of a directory.
  unfoldable pub upload_directory_to :
      ℕ → (local_path destination : Text) → FileConflictPolicy → Call W SftpError SftpFileProgress
  unfolding local_directory_size resolve_upload_conflict_destination
      upload_directory_recursive_with_progress
  upload_directory_to fuel local_path requested_destination policy = do
    bytes_total ← local_directory_size machine sftp fuel local_path
    resolved ← resolve_upload_conflict_destination machine sftp requested_destination true policy
    elim resolved [
      | none ↦ do
        change (machine.report bytes_total (some bytes_total))
        return (summary local_path requested_destination 0 (some bytes_total))
      | some destination ↦ do
        change (machine.report 0 (some bytes_total))
        counts ←
            upload_directory_recursive_with_progress bytes_total fuel local_path destination policy
              (record { transferred = 0; processed = 0 })
        return (summary local_path destination counts.transferred (some bytes_total))
    ]

  -- The branch of a file.
  unfoldable pub upload_file_to :
      (local_path : Text)
      → ℕ
      → (destination : Text) → FileConflictPolicy
      → Call W SftpError SftpFileProgress
  unfolding create_remote_file_for_policy copy_with_progress
  upload_file_to local_path bytes_total requested_destination policy = do
    created ← create_remote_file_for_policy machine sftp requested_destination policy
    elim created [
      | none ↦ do
        change (machine.report bytes_total (some bytes_total))
        return (summary local_path requested_destination 0 (some bytes_total))
      | some (destination, remote_file) ↦ do
        local_file ← calling from_io (machine.open_file local_path)
        bytes_done ←
            copy_with_progress machine local_file remote_file (λ done. (done, some bytes_total))
              rounds
        return (summary local_path destination bytes_done (some bytes_total))
    ]

  -- `upload_file_with_progress_policy_impl`, once the session is open and the metadata is read.
  unfoldable pub upload_path :
      ℕ
      → (local_path remote_path : Text) → FileConflictPolicy
      → (exact_destination : Bool) → Metadata
      → Call W SftpError SftpFileProgress
  unfolding normalize_remote_path requested upload_directory_to upload_file_to
  upload_path fuel local_path remote_path policy exact_destination metadata = do
    normalized ← normalize_remote_path machine sftp remote_path
    destination ← requested local_path normalized metadata.is_dir exact_destination
    elim metadata.is_dir [
      | true ↦ upload_directory_to fuel local_path destination policy
      | false ↦ upload_file_to local_path metadata.len destination policy
    ]

  -- `SftpBackend::upload_file`, in the same way.
  unfoldable pub upload_plain :
      ℕ → (local_path remote_path : Text) → Metadata → Call W SftpError SftpFileProgress
  unfolding normalize_remote_path resolve_upload_destination upload_directory_recursive
      upload_plain_file
  upload_plain fuel local_path remote_path metadata = do
    normalized ← normalize_remote_path machine sftp remote_path
    destination ← resolve_upload_destination machine sftp local_path normalized metadata.is_dir
    elim metadata.is_dir [
      | true ↦ do
        bytes_done ← upload_directory_recursive machine sftp fuel local_path destination
        return (summary local_path destination bytes_done (some bytes_done))
      | false ↦ do
        bytes_done ← upload_plain_file machine sftp local_path destination
        return (summary local_path destination bytes_done (some metadata.len))
    ]
