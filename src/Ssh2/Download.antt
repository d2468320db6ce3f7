-- ===== src/Ssh2/Download.antt =====
-- Files and directories are fetched from the server. A recursion into directories has `fuel` for its
-- depth, and each copy of a file `rounds` for its reads.
use cross_scp.Base.{
  ℕ, zero, suc, ◌+◌, List, [], ◌∷◌, Option, none, some, Bool, true, false, ◌&&◌, if◌then◌else◌,
  is_empty,
}
use cross_scp.Base.Result.{Result, ok, err}
use cross_scp.Base.Text.{Text, codes}
use cross_scp.Protocol.{FileConflictPolicy, replace_existing, keep_existing, keep_both}
use cross_scp.Machine.{Metadata, FileStat, Machine, Sftp}
use cross_scp.Machine.Call.{Call, ◌>>=◌, ◌>>◌, return, throw, exhausted, calling, looking, change}
use cross_scp.Machine.Names.{numbered_local_conflict_path}
use cross_scp.Sftp.Errors.{SftpError, backend}
use cross_scp.Sftp.Backend.{SftpFileProgress}
use cross_scp.Ssh2.Paths.{is_directory, is_some_directory, remote_join, is_dots, entry_name}
use cross_scp.Ssh2.Copy.{from_io, copy_with_progress}
use cross_scp.Ssh2.Remote.{from_ssh2}
use cross_scp.Ssh2.Upload.{◌+64◌, normalize_remote_path}
use cross_scp.Ssh2.Progress.{summary}

module _ {W H : Type 0} (machine : Machine W H) where
  unfoldable pub remove_local_path : Text → Metadata → Call W SftpError (Unit {0})
  remove_local_path path metadata =
      if metadata.is_dir
      then calling from_io (machine.remove_dir_all path)
      else calling from_io (machine.remove_file path)

  -- The `for` loop over the copy numbers from `copy_number` on, `tries` of them.
  unfoldable pub free_local_name :
      (tries copy_number : ℕ) → Text → Bool → Call W SftpError (Option Text)
  unfolding numbered_local_conflict_path
  free_local_name zero copy_number local_path is_dir =
      throw (backend (codes "could not allocate a numbered local destination"))
  free_local_name (suc tries) copy_number local_path is_dir =
      let candidate = numbered_local_conflict_path machine.paths local_path copy_number is_dir in
      looking (machine.symlink_metadata candidate) (λ found. elim found [
        | err error ↦ if error.not_found then return (some candidate) else throw (from_io error)
        | ok metadata ↦ λ w. free_local_name tries (copy_number + 1) local_path is_dir w
      ])

  unfoldable pub resolve_existing_local :
      Text → Bool → FileConflictPolicy → Metadata → Call W SftpError (Option Text)
  unfolding remove_local_path free_local_name
  resolve_existing_local local_path source_is_directory keep_existing metadata =
      if source_is_directory && metadata.is_dir then return (some local_path) else return none
  resolve_existing_local local_path source_is_directory replace_existing metadata =
      if source_is_directory && metadata.is_dir
      then return (some local_path)
      else remove_local_path local_path metadata >> return (some local_path)
  resolve_existing_local local_path source_is_directory keep_both metadata =
      free_local_name 4294967295 1 local_path source_is_directory

  unfoldable pub resolve_local_download_destination :
      Text → Bool → FileConflictPolicy → Call W SftpError (Option Text)
  unfolding resolve_existing_local
  resolve_local_download_destination local_path source_is_directory policy =
      looking (machine.symlink_metadata local_path) (λ found. elim found [
        | ok metadata ↦ resolve_existing_local local_path source_is_directory policy metadata
        | err error ↦ if error.not_found then return (some local_path) else throw (from_io error)
      ])

  module _ (sftp : Sftp W H) where
    -- The loop over the entries of a directory; `again` is the function itself.
    unfoldable pub remote_size_entries :
        (Text → Call W SftpError ℕ) → Text → List (Text × FileStat) → ℕ → Call W SftpError ℕ
    unfolding entry_name is_dots remote_join
    remote_size_entries again remote_dir [] bytes_total = return bytes_total
    remote_size_entries again remote_dir ((entry_path, stat) ∷ entries) bytes_total = do
      let name = entry_name machine.paths.file_name entry_path
      size ← elim (is_dots name) [
        | true ↦ return 0
        | false ↦ elim (is_directory stat) [
          | true ↦ again (remote_join remote_dir name)
          | false ↦ return (elim stat.size [ some size ↦ size | none ↦ 0 ])
        ]
      ]
      remote_size_entries again remote_dir entries (bytes_total +64 size)

    unfoldable pub remote_directory_size : ℕ → Text → Call W SftpError ℕ
    unfolding remote_size_entries
    remote_directory_size zero remote_dir = exhausted
    remote_directory_size (suc fuel) remote_dir = do
      entries ← calling from_ssh2 (sftp.readdir remote_dir)
      remote_size_entries (λ path. remote_directory_size fuel path) remote_dir entries 0

    module _ (rounds : ℕ) where
      -- The remote file is opened, and the local one is made.
      abbrev pub fetch : (remote_path local_path : Text) → (ℕ → ℕ × Option ℕ) → Call W SftpError ℕ
      unfolding copy_with_progress
      fetch remote_path local_path shown = do
        remote_file ← calling from_ssh2 (sftp.open_read remote_path)
        local_file ← calling from_io (machine.create_file local_path)
        copy_with_progress machine remote_file local_file shown rounds

      abbrev pub make_parent : Text → Call W SftpError (Unit {0})
      make_parent path = elim (machine.paths.parent path) [
        | some parent ↦ calling from_io (machine.create_dir_all parent)
        | none ↦ return tt
      ]

      -- An entry whose destination is resolved.
      unfoldable pub download_entry :
          (Text → Text → ℕ → Call W SftpError ℕ)
          → (remote_path local_path : Text) → Bool
          → (bytes_total bytes_done : ℕ) → Call W SftpError ℕ
      unfolding fetch
      download_entry again remote_path local_path source_is_directory bytes_total bytes_done =
          elim source_is_directory [
            | true ↦ again remote_path local_path bytes_done
            | false ↦ do
              make_parent local_path
              bytes ←
                  fetch remote_path local_path
                    (λ file_bytes_done. (bytes_done +64 file_bytes_done, some bytes_total))
              change (machine.report (bytes_done +64 bytes) (some bytes_total))
              return (bytes_done +64 bytes)
          ]

      unfoldable pub download_entries :
          (Text → Text → ℕ → Call W SftpError ℕ)
          → (remote_dir local_dir : Text) → FileConflictPolicy
          → ℕ
          → List (Text × FileStat)
          → ℕ
          → Call W SftpError ℕ
      unfolding entry_name is_dots remote_join resolve_local_download_destination download_entry
      download_entries again remote_dir local_dir policy bytes_total [] bytes_done =
          return bytes_done
      download_entries again remote_dir local_dir policy bytes_total ((path, stat) ∷ entries)
            bytes_done =
          do
            let name = entry_name machine.paths.file_name path
            next ← elim (is_dots name) [
              | true ↦ return bytes_done
              | false ↦ do
                resolved ←
                    resolve_local_download_destination (machine.paths.join local_dir name)
                      (is_directory stat) policy
                elim resolved [
                  | none ↦ return bytes_done
                  | some local_path ↦
                      download_entry again (remote_join remote_dir name) local_path
                        (is_directory stat) bytes_total bytes_done
                ]
            ]
            download_entries again remote_dir local_dir policy bytes_total entries next

      unfoldable pub download_directory_recursive_with_progress :
          ℕ
          → (remote_dir local_dir : Text) → FileConflictPolicy
          → (bytes_total bytes_done : ℕ) → Call W SftpError ℕ
      unfolding download_entries
      download_directory_recursive_with_progress zero remote_dir local_dir policy bytes_total
            bytes_done =
          exhausted
      download_directory_recursive_with_progress (suc fuel) remote_dir local_dir policy bytes_total
            bytes_done =
          do
            calling from_io (machine.create_dir_all local_dir)
            entries ← calling from_ssh2 (sftp.readdir remote_dir)
            download_entries
                (λ remote path done.
                  download_directory_recursive_with_progress fuel remote path policy bytes_total
                    done)
                remote_dir local_dir policy bytes_total entries bytes_done

      -- The branch of a directory.
      unfoldable pub download_directory_to :
          ℕ
          → (remote_path local_path : Text) → FileConflictPolicy
          → Option Text
          → Call W SftpError SftpFileProgress
      unfolding remote_directory_size download_directory_recursive_with_progress
      download_directory_to fuel remote_path local_path policy destination = do
        bytes_total ← remote_directory_size fuel remote_path
        elim destination [
          | none ↦ return (summary machine sftp rounds remote_path local_path 0 (some bytes_total))
          | some target ↦ do
            change (machine.report 0 (some bytes_total))
            bytes_done ←
                download_directory_recursive_with_progress fuel remote_path target policy
                  bytes_total 0
            return (summary machine sftp rounds remote_path target bytes_done (some bytes_total))
        ]

      abbrev make_named_parent : Text → Call W SftpError (Unit {0})
      make_named_parent path = elim (machine.paths.parent path) [
        | some parent ↦
            if is_empty parent then return tt else calling from_io (machine.create_dir_all parent)
        | none ↦ return tt
      ]

      -- The branch of a file.
      unfoldable pub download_file_to :
          (remote_path local_path : Text)
          → Option ℕ
          → Option Text
          → Call W SftpError SftpFileProgress
      unfolding fetch
      download_file_to remote_path local_path bytes_total none =
          return (summary machine sftp rounds remote_path local_path 0 bytes_total)
      download_file_to remote_path local_path bytes_total (some target) = do
        make_named_parent target
        bytes_done ← fetch remote_path target (λ done. (done, bytes_total))
        return (summary machine sftp rounds remote_path target bytes_done bytes_total)

      abbrev size_of : Option FileStat → Option ℕ
      size_of none = none
      size_of (some stat) = stat.size

      -- `.ok()`
      abbrev ok_of : {E A : Type 0} → Result E A → Option A
      ok_of (ok a) = some a
      ok_of (err e) = none

      -- `download_file_with_progress_policy`, once the session is open.
      unfoldable pub download_path :
          ℕ
          → (remote_path local_path : Text) → FileConflictPolicy
          → Call W SftpError SftpFileProgress
      unfolding normalize_remote_path resolve_local_download_destination download_directory_to
          download_file_to
      download_path fuel remote_path local_path policy = do
        normalized ← normalize_remote_path machine sftp remote_path
        remote_stat ← looking (sftp.stat normalized) (λ found. return (ok_of found))
        let remote_is_directory = is_some_directory remote_stat
        destination ← resolve_local_download_destination local_path remote_is_directory policy
        elim remote_is_directory [
          | true ↦ download_directory_to fuel normalized local_path policy destination
          | false ↦ download_file_to normalized local_path (size_of remote_stat) destination
        ]
