-- ===== src/Ftp/Listing.antt =====
-- What a listing holds, and what a path with control characters can reach.
use cross_scp.Base.{
  ℕ, suc, some, ◌++◌, ◌≢◌, ◌≡◌, refl, List, [], ◌∷◌, Bool, true, false, any, All, Bool-cases, inl,
  inr,
}
use mathlib.Core.Path.{subst}
use cross_scp.Base.Result.{ok, err}
use cross_scp.Base.Text.{Text, codes, text_eq, is_control}
use cross_scp.Protocol.{RemoteFile, FileConflictPolicy}
use cross_scp.Ftp.{invalid_remote_path, validate_ftp_path}
use cross_scp.Ftp.Paths.{directory_of}
use cross_scp.Ftp.Join.{with_slash, join_remote_path-eq}
use cross_scp.Ftp.Recursive.{delete_path_recursive}
use cross_scp.Ftp.Adapter.{
  ListedFile, Server, FtpAdapter, is_dots, remote_file_from_listing, remote_files, list_files,
  list_directory, create_directory, delete_path, rename, remote_entry,
  resolve_upload_conflict_destination,
}
use cross_scp.Ftp.Upload.{and_then-eq-ok, ok-eq}

-- The path of the entry is the directory, one slash and the name of the entry. White space at the
-- ends of the path that is listed is not part of the directory; a blank path stands for the root.
abbrev pub IsChild : Text → RemoteFile → Type 0
IsChild parent entry =
    (entry.path ≡ with_slash (directory_of parent) ++ entry.name)
    × (entry.name ≢ codes ".")
    × (entry.name ≢ codes "..")

no_dots : (name : Text) → is_dots name ≡ false → (name ≢ codes ".") × (name ≢ codes "..")
unfolding is_dots text_eq
no_dots name h = (
  λ same. let e : is_dots (codes ".") ≡ false = subst (λ n. is_dots n ≡ false) same h in cc,
  λ same. let e : is_dots (codes "..") ≡ false = subst (λ n. is_dots n ≡ false) same h in cc,
)

remote_files-IsChild :
    (parent : Text) (files : List ListedFile) → All (IsChild parent) (remote_files parent files)
unfolding remote_files remote_file_from_listing
remote_files-IsChild parent [] = tt
remote_files-IsChild parent (file ∷ files) = elim (Bool-cases (is_dots file.name)) [
  | inl e ↦ rw (e, remote_files, remote_file_from_listing, All) (remote_files-IsChild parent files)
  | inr e ↦
      rw (e, remote_files, remote_file_from_listing, All)
        (
          (join_remote_path-eq parent file.name, (no_dots file.name e).0, (no_dots file.name e).1),
          remote_files-IsChild parent files,
        )
]

module _ {S : Type 0} (server : Server S) where
  -- The path of every entry of a listing is the listed directory, one slash and the name of the entry,
  -- which is neither `.` nor `..`. White space at the ends of the path that is listed is not part of
  -- the directory.
  pub list_directory-IsChild :
      (path : Text) (adapter : FtpAdapter S) {after : FtpAdapter S} {entries : List RemoteFile}
      → list_directory server path adapter ≡ (after, ok entries)
      → All (IsChild path) entries
  unfolding list_directory
  list_directory-IsChild path adapter h =
      let (_, _, valid) = and_then-eq-ok (adapter, validate_ftp_path path) _ h in
      let (files, _, k) = and_then-eq-ok (list_files server path adapter) _ valid in
      subst (All (IsChild path)) (ok-eq k).1 (remote_files-IsChild path files)

  -- Whatever the server does: each operation that is given a path with a control character, a line
  -- break among them, refuses it with `invalid_remote_path` and leaves the adapter as it was, the
  -- recursive deletion too. Of the paths that the recursive deletion finds in a listing nothing is said.
  pub control_is_refused :
      (path other : Text) (is_directory : Bool) (policy : FileConflictPolicy) (fuel : ℕ)
      (adapter : FtpAdapter S)
      → any is_control path ≡ true
      → (list_directory server path adapter ≡ (adapter, err (invalid_remote_path path)))
        × (create_directory server path adapter ≡ (adapter, err (invalid_remote_path path)))
        × (delete_path server path adapter ≡ (adapter, err (invalid_remote_path path)))
        × (delete_path_recursive server (suc fuel) path adapter
            ≡ (adapter, some (err (invalid_remote_path path))))
        × (remote_entry server path adapter ≡ (adapter, err (invalid_remote_path path)))
        × (resolve_upload_conflict_destination server path is_directory policy adapter
            ≡ (adapter, err (invalid_remote_path path)))
        × (rename server path other adapter ≡ (adapter, err (invalid_remote_path path)))
        × (any is_control other ≡ false
            → rename server other path adapter ≡ (adapter, err (invalid_remote_path path)))
  unfolding list_directory create_directory delete_path delete_path_recursive remote_entry rename
      validate_ftp_path resolve_upload_conflict_destination
  control_is_refused path other d policy fuel adapter h = (
    rw h refl,
    rw h refl,
    rw h refl,
    rw (h, delete_path_recursive, h) refl,
    rw h refl,
    rw h refl,
    rw h refl,
    λ k. rw (k, h) refl,
  )
