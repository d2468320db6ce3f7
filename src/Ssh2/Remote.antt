-- ===== src/Ssh2/Remote.antt =====
-- Files and directories on the server: what is there, how it is made, and how it is removed.
use cross_scp.Base.{
  ℕ, zero, suc, ◌+◌, ◌==◌, List, [], ◌∷◌, ◌++◌, Option, none, some, Bool, true, false, ◌&&◌, ◌||◌,
  not, if◌then◌else◌, is_empty, retain,
}
use cross_scp.Base.Result.{Result, ok, err}
use cross_scp.Base.Text.{Text, codes, text_eq, trim, starts_with, split}
use cross_scp.Protocol.{numbered_conflict_path}
use cross_scp.Machine.{Ssh2Error, FileStat, Paths, Sftp, exclusive, truncate}
use cross_scp.Machine.Call.{Call, ◌>>=◌, ◌>>◌, return, when, throw, exhausted, calling, looking}
use cross_scp.Sftp.Errors.{SftpError, backend}
use cross_scp.Ssh2.Paths.{is_directory, is_some_directory, remote_join, is_dots, entry_name}

-- `impl From<ssh2::Error> for SftpError`
abbrev pub from_ssh2 : Ssh2Error → SftpError
from_ssh2 error = backend error.message

-- `{before}'{path}'{between}{error}`
abbrev pub complaint : (before path between : Text) → Ssh2Error → SftpError
complaint before path between error =
    backend (before ++ b'\'' ∷ path ++ b'\'' ∷ between ++ error.message)

-- `ssh2::ErrorCode::SFTP(2 | 10)`
abbrev pub is_missing : Ssh2Error → Bool
is_missing error = elim error.sftp_code [ some code ↦ code == 2 || code == 10 | none ↦ false ]

-- `ssh2::ErrorCode::SFTP(11)`
abbrev pub is_already_exists_error : Ssh2Error → Bool
is_already_exists_error error = elim error.sftp_code [ some code ↦ code == 11 | none ↦ false ]

module _ {W H : Type 0} (paths : Paths) (sftp : Sftp W H) where
  abbrev pub stat_of : Result Ssh2Error FileStat → Call W SftpError (Option FileStat)
  stat_of (ok stat) = return (some stat)
  stat_of (err error) = if is_missing error then return none else throw (from_ssh2 error)

  unfoldable pub remote_stat : Text → Call W SftpError (Option FileStat)
  remote_stat remote_path = looking (sftp.stat remote_path) stat_of

  -- The path behind one more part.
  abbrev pub extended : (whole current part : Text) → Text
  unfolding starts_with remote_join
  extended whole current part =
      if starts_with whole (codes "/") && is_empty current
      then b'/' ∷ part
      else if is_empty current
      then part
      else remote_join current part

  -- The loop over the parts.
  unfoldable pub make_parts : (whole current : Text) → List Text → Call W SftpError (Unit {0})
  unfolding remote_stat starts_with remote_join
  make_parts whole current [] = return tt
  make_parts whole current (part ∷ parts) = do
    let next = extended whole current part
    found ← remote_stat next
    elim found [
      | some stat ↦ return tt
      | none ↦
          calling (complaint (codes "remote mkdir failed for ") next (codes ": "))
            (sftp.mkdir next 493)
    ]
    make_parts whole next parts

  unfoldable pub ensure_remote_directory : Text → Call W SftpError (Unit {0})
  unfolding remote_stat make_parts split retain
  ensure_remote_directory remote_path = do
    found ← remote_stat remote_path
    when (not (is_some_directory found))
        (make_parts remote_path [] (retain (λ part. not (is_empty part)) (split b'/' remote_path)))

  unfoldable pub ensure_remote_directory_for_replace : Text → Call W SftpError (Unit {0})
  unfolding remote_stat ensure_remote_directory
  ensure_remote_directory_for_replace remote_path = remote_stat remote_path >>= λ found.
      elim found [
        | none ↦ ensure_remote_directory remote_path
        | some stat ↦
            if is_directory stat
            then return tt
            else (calling
                  (complaint (codes "could not replace remote file ") remote_path
                    (codes " with a directory: "))
                  (sftp.unlink remote_path)
                >> ensure_remote_directory remote_path)
      ]

  -- The loop over the entries of a directory; `again` is the function itself.
  unfoldable pub delete_entries :
      (Text → Call W SftpError (Unit {0}))
      → Text
      → List (Text × FileStat)
      → Call W SftpError (Unit {0})
  unfolding entry_name is_dots remote_join
  delete_entries again remote_path [] = return tt
  delete_entries again remote_path ((entry_path, _) ∷ entries) = do
    let name = entry_name paths.file_name entry_path
    elim (is_dots name) [ true ↦ return tt | false ↦ again (remote_join remote_path name) ]
    delete_entries again remote_path entries

  unfoldable pub delete_found :
      (Text → Call W SftpError (Unit {0})) → Text → FileStat → Call W SftpError (Unit {0})
  unfolding delete_entries
  delete_found again remote_path stat = elim (is_directory stat) [
    | true ↦ do
      entries ← calling from_ssh2 (sftp.readdir remote_path)
      delete_entries again remote_path entries
      calling (complaint (codes "remote rmdir failed for ") remote_path (codes ": "))
          (sftp.rmdir remote_path)
    | false ↦
        calling (complaint (codes "remote delete failed for ") remote_path (codes ": "))
          (sftp.unlink remote_path)
  ]

  unfoldable pub delete_remote_path_recursive : ℕ → Text → Call W SftpError (Unit {0})
  unfolding delete_found trim text_eq
  delete_remote_path_recursive zero remote_path = exhausted
  delete_remote_path_recursive (suc fuel) remote_path =
      elim (is_empty (trim remote_path) || text_eq remote_path (codes "/")) [
        | true ↦ throw (backend (codes "refusing to delete empty path or remote root"))
        | false ↦
            calling from_ssh2 (sftp.stat remote_path)
            >>= delete_found (λ path. delete_remote_path_recursive fuel path) remote_path
      ]

  unfoldable pub create_remote_file_exclusive : Text → W → W × Result Ssh2Error H
  create_remote_file_exclusive remote_path = sftp.open_mode remote_path exclusive 420

  -- `or_else`, once creating and truncating has failed.
  abbrev pub replace_failed : Text → Ssh2Error → Call W SftpError H
  replace_failed remote_path first_error = looking (sftp.stat remote_path) (λ found. elim found [
    | ok stat ↦ looking (sftp.unlink remote_path) (λ _.
        calling
          (λ second_error. backend (
            codes "upload replace failed for '"
            ++ remote_path
            ++ codes "': "
            ++ second_error.message
            ++ codes "; initial create/truncate error: "
            ++ first_error.message))
          (sftp.create remote_path))
    | err _ ↦ throw (
        backend (
          codes "upload create failed for '"
          ++ remote_path
          ++ codes "': "
          ++ first_error.message
          ++ codes ". Check the remote directory exists and is writable."))
  ])

  unfoldable pub create_remote_file_for_replace : Text → Call W SftpError H
  unfolding remote_stat
  create_remote_file_for_replace remote_path = do
    found ← remote_stat remote_path
    if is_some_directory found
        then throw (
            backend (
              codes "upload target '"
              ++ remote_path
              ++ codes "' is a directory; choose a filename inside it"))
        else looking (sftp.open_mode remote_path truncate 420) (λ opened. elim opened [
          | ok file ↦ return file
          | err first_error ↦ replace_failed remote_path first_error
        ])

  abbrev pub no_name : {A : Type 0} → Text → Call W SftpError A
  no_name remote_path =
      throw
        (backend (codes "could not create a unique upload name for '" ++ remote_path ++ codes "'"))

  -- The `for` loop over the copy numbers from `copy_number` on, `rounds` of them.
  unfoldable pub next_available_from :
      (rounds copy_number : ℕ) → Text → Bool → Call W SftpError Text
  unfolding remote_stat numbered_conflict_path
  next_available_from zero copy_number remote_path is_directory = no_name remote_path
  next_available_from (suc rounds) copy_number remote_path is_directory = do
    let candidate = numbered_conflict_path remote_path copy_number is_directory
    found ← remote_stat candidate
    elim found [
      | none ↦ return candidate
      | some stat ↦ next_available_from rounds (copy_number + 1) remote_path is_directory
    ]

  -- `1..=u32::MAX`
  unfoldable pub next_available_remote_path : Text → Bool → Call W SftpError Text
  unfolding next_available_from
  next_available_remote_path = next_available_from 4294967295 1
