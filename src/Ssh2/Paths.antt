-- ===== src/Ssh2/Paths.antt =====
-- Paths on the server, and the bits of its permissions.
use cross_scp.Base.{
  ℕ, ◌*◌, ◌/◌, ◌%◌, ◌∷◌, ◌++◌, Option, none, some, Bool, false, ◌&&◌, ◌||◌, ◌==◌, if◌then◌else◌,
  is_empty,
}
use cross_scp.Base.Text.{Text, codes, text_eq, trim, trim_end_matches}
use cross_scp.Base.Paths.{rsplit_once, ends_with}
use cross_scp.Machine.{FileStat}

-- `perm & 0o170000`: the four bits from the twelfth on.
abbrev pub file_type : ℕ → ℕ
file_type perm = perm / 4096 % 16 * 4096

-- 16384 is 0o040000.
unfoldable pub is_directory_perm : ℕ → Bool
is_directory_perm perm = file_type perm == 16384

-- 40960 is 0o120000.
unfoldable pub is_symlink_perm : ℕ → Bool
is_symlink_perm perm = file_type perm == 40960

-- `is_some_and`
abbrev pub is_some_and : {A : Type 0} → (A → Bool) → Option A → Bool
is_some_and p none = false
is_some_and p (some a) = p a

-- `.perm.is_some_and(is_directory_perm)`
abbrev pub is_directory : FileStat → Bool
is_directory stat = is_some_and is_directory_perm stat.perm

-- The same behind an `Option`.
abbrev pub is_some_directory : Option FileStat → Bool
is_some_directory = is_some_and is_directory

unfoldable pub remote_join : (parent child : Text) → Text
unfolding text_eq trim_end_matches
remote_join parent child =
    if text_eq parent (codes "/")
    then b'/' ∷ child
    else trim_end_matches b'/' parent ++ b'/' ∷ child

-- `rsplit('/').next()`
abbrev last_part : Text → Option (Text × Text) → Text
last_part whole none = whole
last_part whole (some (before, name)) = name

unfoldable pub remote_basename : Text → Text
unfolding trim_end_matches rsplit_once
remote_basename remote_path =
    let whole = trim_end_matches b'/' remote_path in
    let name = last_part whole (rsplit_once b'/' whole) in
    if is_empty name then codes "download" else name

-- `name == "." || name == ".."`
unfoldable pub is_dots : Text → Bool
unfolding text_eq
is_dots name = text_eq name (codes ".") || text_eq name (codes "..")

-- `Path::file_name` of the platform is a parameter.
module _ (file_name : Text → Option Text) where
  unfoldable pub entry_name : Text → Text
  entry_name path = elim (file_name path) [ some name ↦ name | none ↦ path ]

  unfoldable pub remote_child_path : (parent entry_path : Text) → Text
  unfolding entry_name trim text_eq trim_end_matches
  remote_child_path parent entry_path =
      let name = entry_name entry_path in
      let clean_parent = trim parent in
      if is_empty clean_parent || text_eq clean_parent (codes ".")
      then name
      else if text_eq clean_parent (codes "/")
      then b'/' ∷ name
      else trim_end_matches b'/' clean_parent ++ b'/' ∷ name

  abbrev pub local_name : Text → Text
  local_name local_path = elim (file_name local_path) [
    | some name ↦ name
    | none ↦ codes "upload.bin"
  ]

  unfoldable pub resolve_upload_destination_for_type :
      (local_path remote_path : Text) → (local_is_directory remote_is_directory : Bool) → Text
  unfolding trim text_eq ends_with trim_end_matches remote_basename remote_join
  resolve_upload_destination_for_type local_path remote_path local_is_directory
        remote_is_directory =
      let trimmed_remote = trim remote_path in
      let name = local_name local_path in
      if is_empty trimmed_remote || text_eq trimmed_remote (codes ".")
      then name
      else if text_eq trimmed_remote (codes "/")
      then b'/' ∷ name
      else if ends_with trimmed_remote b'/'
      then (let directory_path = trim_end_matches b'/' trimmed_remote in
          if local_is_directory && text_eq (remote_basename directory_path) name
          then directory_path
          else trimmed_remote ++ name)
      else if remote_is_directory
      then (if local_is_directory && text_eq (remote_basename trimmed_remote) name
          then trimmed_remote
          else remote_join trimmed_remote name)
      else trimmed_remote
