-- ===== src/Ssh2/Delete.antt =====
-- What a recursive deletion can reach, and that it ends.
use cross_scp.Base.{
  ℕ, zero, suc, ◌≡◌, ◌⊎◌, inl, inr, refl, sym, ap, ◌∙◌, List, [], ◌∷◌, ◌++◌, Bool, ◌||◌, ◌==◌,
  is_empty, append_assoc, Bool-cases,
}
use mathlib.Core.Path.{subst}
use cross_scp.Base.Text.{Text, codes, text_eq, text_eq_iff, trim, trim_end_by, trim_end_matches}
use cross_scp.Machine.{FileStat, Paths, Sftp}
use cross_scp.Machine.Call.{Call, calling, Keeps, after-Keeps, >>=-Keeps, calling-Keeps}
use cross_scp.Sftp.Errors.{SftpError}
use cross_scp.Ssh2.Paths.{is_directory, remote_join, is_dots, entry_name}
use cross_scp.Ssh2.Remote.{from_ssh2, delete_entries, delete_found, delete_remote_path_recursive}

-- The path itself, or a path behind it and a slash.
abbrev pub IsBelow : (root path : Text) → Type 0
IsBelow root path =
    (path ≡ root) ⊎ ((rest : Text) × (path ≡ trim_end_matches b'/' root ++ b'/' ∷ rest))

-- A list is empty or not.
split_list : (s : Text) → (s ≡ []) ⊎ ((c : ℕ) × (t : Text) × (s ≡ c ∷ t))
split_list [] = inl refl
split_list (c ∷ t) = inr (c, t, refl)

module _ (p : ℕ → Bool) where
  trim_end_by_idem : (s : Text) → trim_end_by p (trim_end_by p s) ≡ trim_end_by p s
  unfolding trim_end_by
  trim_end_by_idem [] = refl
  trim_end_by_idem (c ∷ s) = elim (split_list (trim_end_by p s)) [
    | inl e ↦ elim (Bool-cases (p c)) [ inl f ↦ rw (e, f) refl | inr f ↦ rw (e, f, f) refl ]
    | inr (d, t, e) ↦ rw (e, rw e at (trim_end_by_idem s)) refl
  ]

  trim_end_by-append_nil :
      (a b : Text) → trim_end_by p b ≡ [] → trim_end_by p (a ++ b) ≡ trim_end_by p a
  unfolding trim_end_by
  trim_end_by-append_nil [] b h = h
  trim_end_by-append_nil (c ∷ a) b h = rw (trim_end_by-append_nil a b h) refl

  trim_end_by-append_cons :
      (a b : Text) {d : ℕ} {t : Text}
      → trim_end_by p b ≡ d ∷ t
      → trim_end_by p (a ++ b) ≡ a ++ d ∷ t
  unfolding trim_end_by
  trim_end_by-append_cons [] b h = h
  trim_end_by-append_cons (c ∷ []) b h = rw h refl
  trim_end_by-append_cons (c ∷ x ∷ a) b h = rw (trim_end_by-append_cons (x ∷ a) b h) refl

pub remote_join_lem :
    (path name : Text) → remote_join path name ≡ trim_end_matches b'/' path ++ b'/' ∷ name
unfolding remote_join trim_end_matches trim_end_by
remote_join_lem path name = elim (Bool-cases (text_eq path (codes "/"))) [
  | inl e ↦
      let same : path ≡ codes "/" = (text_eq_iff path (codes "/")).0 e in
      subst (λ q. remote_join q name ≡ trim_end_matches b'/' q ++ b'/' ∷ name) (sym same)
        (unfold text_eq in refl)
  | inr e ↦ rw e refl
]

-- Below a root, the slashes at the end of a path are dropped down to the root at most.
trim_end-below :
    (base rest : Text)
    → trim_end_matches b'/' base ≡ base
    → (trim_end_matches b'/' (base ++ b'/' ∷ rest) ≡ base)
      ⊎ ((left : Text) × (trim_end_matches b'/' (base ++ b'/' ∷ rest) ≡ base ++ b'/' ∷ left))
unfolding trim_end_matches trim_end_by
trim_end-below base rest h = elim (split_list (trim_end_by (λ d. d == b'/') rest)) [
  | inl e ↦ inl (trim_end_by-append_nil (λ d. d == b'/') base (b'/' ∷ rest) (rw e refl) ∙ h)
  | inr (d, t, e) ↦
      inr (d ∷ t, trim_end_by-append_cons (λ d. d == b'/') base (b'/' ∷ rest) (rw e refl))
]

-- What is joined to a path below the root is below it.
remote_join-IsBelow :
    (root path name : Text) → IsBelow root path → IsBelow root (remote_join path name)
remote_join-IsBelow root path name (inl same) =
    inr (name, remote_join_lem path name ∙ ap (λ q. trim_end_matches b'/' q ++ b'/' ∷ name) same)
remote_join-IsBelow root path name (inr (rest, same)) =
    let base = trim_end_matches b'/' root in
    let whole : remote_join path name ≡ trim_end_matches b'/' (base ++ b'/' ∷ rest) ++ b'/' ∷ name =
      remote_join_lem path name ∙ ap (λ q. trim_end_matches b'/' q ++ b'/' ∷ name) same in
    elim (trim_end-below base rest
      (unfold trim_end_matches in trim_end_by_idem (λ d. d == b'/') root)) [
        | inl e ↦ inr (name, whole ∙ ap (λ q. q ++ b'/' ∷ name) e)
        | inr (left, e) ↦ inr (
          left ++ b'/' ∷ name,
          whole ∙ ap (λ q. q ++ b'/' ∷ name) e ∙ append_assoc base (b'/' ∷ left) (b'/' ∷ name),
        )
      ]

module _ {W H : Type 0} (paths : Paths) (sftp : Sftp W H) (P : W → Type 0) where
  -- The calls that look keep it, and those that remove keep it if what they remove is below the root.
  pub record IsConfined (root : Text) : Type 0 where
    pub stat-keeps : (path : Text) (w : W) → P w → P (sftp.stat path w).0
    pub readdir-keeps : (path : Text) (w : W) → P w → P (sftp.readdir path w).0
    pub unlink-keeps : (path : Text) (w : W) → IsBelow root path → P w → P (sftp.unlink path w).0
    pub rmdir-keeps : (path : Text) (w : W) → IsBelow root path → P w → P (sftp.rmdir path w).0

  delete_entries-Keeps :
      (root path : Text) (again : Text → Call W SftpError (Unit {0}))
      (entries : List (Text × FileStat))
      → IsBelow root path
      → ((child : Text) → IsBelow root child → Keeps P (again child))
      → Keeps P (delete_entries paths sftp again path entries)
  unfolding delete_entries
  delete_entries-Keeps root path again [] b k w p = p
  delete_entries-Keeps root path again ((entry, stat) ∷ entries) b k w p =
      let name = entry_name paths.file_name entry in
      let rest = delete_entries-Keeps root path again entries b k in
      elim (Bool-cases (is_dots name)) [
        | inl e ↦ rw e (rest w p)
        | inr e ↦ rw e (
            after-Keeps P (again (remote_join path name) w) _
              (k (remote_join path name) (remote_join-IsBelow root path name b) w p) (λ _. rest))
      ]

  delete_found-Keeps :
      (root path : Text) (again : Text → Call W SftpError (Unit {0})) (stat : FileStat)
      → IsConfined root
      → IsBelow root path
      → ((child : Text) → IsBelow root child → Keeps P (again child))
      → Keeps P (delete_found paths sftp again path stat)
  unfolding delete_found
  delete_found-Keeps root path again stat c b k w p = elim (Bool-cases (is_directory stat)) [
    | inl e ↦
        rw (e, delete_found)
          (>>=-Keeps P (calling from_ssh2 (sftp.readdir path)) _
            (calling-Keeps P from_ssh2 (sftp.readdir path) (c.readdir-keeps path))
            (λ entries.
              >>=-Keeps P (delete_entries paths sftp again path entries) _
                (delete_entries-Keeps root path again entries b k)
                (λ _. calling-Keeps P _ (sftp.rmdir path) (λ v q. c.rmdir-keeps path v b q)))
            w p)
    | inr e ↦
        rw (e, delete_found)
          (calling-Keeps P _ (sftp.unlink path) (λ v q. c.unlink-keeps path v b q) w p)
  ]

  delete_below-Keeps :
      (root : Text) (fuel : ℕ) (path : Text)
      → IsConfined root
      → IsBelow root path
      → Keeps P (delete_remote_path_recursive paths sftp fuel path)
  unfolding delete_remote_path_recursive
  delete_below-Keeps root zero path c b w p = p
  delete_below-Keeps root (suc fuel) path c b w p =
      let again : Text → Call W SftpError (Unit {0}) =
        λ child. delete_remote_path_recursive paths sftp fuel child in
      elim (Bool-cases (is_empty (trim path) || text_eq path (codes "/"))) [
        | inl e ↦ rw (e, delete_remote_path_recursive) p
        | inr e ↦
            rw (e, delete_remote_path_recursive)
              (>>=-Keeps P (calling from_ssh2 (sftp.stat path)) (delete_found paths sftp again path)
                (calling-Keeps P from_ssh2 (sftp.stat path) (c.stat-keeps path))
                (λ stat.
                  delete_found-Keeps root path again stat c b
                    (λ child d. delete_below-Keeps root fuel child c d))
                w p)
      ]

  -- A recursive deletion, however it ends, keeps whatever is kept by each removal of the path itself
  -- or of a path that has it and a slash in front: it removes nothing else.
  pub delete-Keeps :
      (fuel : ℕ) (path : Text) (w : W)
      → IsConfined path
      → P w
      → P (delete_remote_path_recursive paths sftp fuel path w).0
  delete-Keeps fuel path w c p = delete_below-Keeps path fuel path c (inl refl) w p
