-- ===== src/Ssh2/DeleteEnds.antt =====
-- A recursive deletion ends, since the server has a longest path.
use cross_scp.Base.{
  ℕ, zero, suc, ◌+◌, ◌≤◌, ◌<◌, ◌≡◌, ◌≢◌, inl, inr, refl, sym, ap, ◌∙◌, arith, List, [], ◌∷◌, ◌++◌,
  false, append_assoc, ◌||◌, is_empty, Bool-cases, length, length-append, All,
}
use mathlib.Core.Path.{subst}
use cross_scp.Base.Result.{Result, ok, err}
use cross_scp.Base.Text.{Text, codes, text_eq, trim, trim_end_matches}
use cross_scp.Base.TextLaws.{Lacks}
use cross_scp.Base.Paths.{trim_end-append}
use cross_scp.Machine.{FileStat, Paths, Sftp}
use cross_scp.Machine.Call.{Stop, out_of_fuel, Call, after, converted, calling, Ends}
use cross_scp.Sftp.Errors.{SftpError}
use cross_scp.Ssh2.Paths.{is_directory, remote_join, is_dots, entry_name}
use cross_scp.Ssh2.Remote.{from_ssh2, delete_entries, delete_found, delete_remote_path_recursive}
use cross_scp.Ssh2.Delete.{remote_join_lem}

module _ {W E A B : Type 0} where
  -- A chain of methods that end ends.
  after-Ends :
      (first : W × Result (Stop E) A) (next : A → Call W E B)
      → first.1 ≢ err out_of_fuel
      → ((a : A) → first.1 ≡ ok a → (next a first.0).1 ≢ err out_of_fuel)
      → (after first next).1 ≢ err out_of_fuel
  after-Ends (w, err e) next n k h = let same : e ≡ out_of_fuel = cc in n (ap err same)
  after-Ends (w, ok a) next n k h = k a refl h

module _ {W E F A : Type 0} where
  converted-Ends : (from : F → E) (r : W × Result F A) → (converted from r).1 ≢ err out_of_fuel
  converted-Ends from (w, ok a) h = cc
  converted-Ends from (w, err e) h = cc

  converted-eq-ok :
      (from : F → E) (r : W × Result F A) {a : A} → (converted from r).1 ≡ ok a → r.1 ≡ ok a
  converted-eq-ok from (w, ok a) h = cc
  converted-eq-ok from (w, err e) h = cc

-- The name of an entry: not empty, and without a slash.
abbrev pub IsName : Text → Type 0
IsName name = (is_empty name ≡ false) × Lacks b'/' name

-- A path that ends in the name of an entry.
abbrev EndsInName : Text → Type 0
EndsInName path =
    (before : Text) × (c : ℕ) × (name : Text) × Lacks b'/' (c ∷ name)
    × (path ≡ before ++ b'/' ∷ c ∷ name)

join-EndsInName : (path name : Text) → IsName name → EndsInName (remote_join path name)
join-EndsInName path [] (n, l) = cc
join-EndsInName path (c ∷ name) (n, l) =
    (trim_end_matches b'/' path, c, name, l, remote_join_lem path (c ∷ name))

-- Nothing is trimmed off such a path, so that what is joined to it is longer.
join-longer : (path name : Text) → EndsInName path → length path < length (remote_join path name)
join-longer path name (before, c, part, (n, l), e) =
    let kept : trim_end_matches b'/' path ≡ path =
      subst (λ q. trim_end_matches b'/' q ≡ q) (append_assoc before (codes "/") (c ∷ part) ∙ sym e)
        (trim_end-append b'/' c (before ++ codes "/") part (n, l)) in
    let joined = ap length (remote_join_lem path name ∙ ap (λ q. q ++ b'/' ∷ name) kept) in
    omega (arith, joined, length-append path (b'/' ∷ name))

join-nonempty : (path name : Text) → 0 < length (remote_join path name)
join-nonempty path name = omega (
  arith,
  ap length (remote_join_lem path name),
  length-append (trim_end_matches b'/' path) (b'/' ∷ name),
)

module _ {W H : Type 0} (paths : Paths) (sftp : Sftp W H) where
  -- A listing gives names, and no path longer than the bound is there.
  pub record IsBounded (bound : ℕ) : Type 0 where
    pub readdir-names :
        (path : Text) (w : W) {entries : List (Text × FileStat)}
        → (sftp.readdir path w).1 ≡ ok entries
        → All (λ e. IsName (entry_name paths.file_name e.0)) entries
    pub stat-bound :
        (path : Text) (w : W) {stat : FileStat}
        → (sftp.stat path w).1 ≡ ok stat
        → length path ≤ bound

  delete_entries-Ends :
      (path : Text) (again : Text → Call W SftpError (Unit {0})) (entries : List (Text × FileStat))
      → All (λ e. IsName (entry_name paths.file_name e.0)) entries
      → ((name : Text) → IsName name → Ends (again (remote_join path name)))
      → Ends (delete_entries paths sftp again path entries)
  unfolding delete_entries
  delete_entries-Ends path again [] _ k w = λ h. cc
  delete_entries-Ends path again ((entry, stat) ∷ entries) (n, ns) k w =
      let name = entry_name paths.file_name entry in
      let rest = delete_entries-Ends path again entries ns k in
      elim (Bool-cases (is_dots name)) [
        | inl e ↦ rw (e, delete_entries) (rest w)
        | inr e ↦
            rw (e, delete_entries)
              (after-Ends (again (remote_join path name) w) _ (k name n w) (λ _ q. rest _))
      ]

  delete_found-Ends :
      (path : Text) (again : Text → Call W SftpError (Unit {0})) (stat : FileStat) {bound : ℕ}
      → IsBounded bound
      → ((name : Text) → IsName name → Ends (again (remote_join path name)))
      → Ends (delete_found paths sftp again path stat)
  unfolding delete_found
  delete_found-Ends path again stat b k w = elim (Bool-cases (is_directory stat)) [
    | inl e ↦
        rw (e, delete_found)
          (after-Ends (calling from_ssh2 (sftp.readdir path) w) _
            (converted-Ends from_ssh2 (sftp.readdir path w))
            (λ entries q.
              after-Ends (delete_entries paths sftp again path entries _) _
                (delete_entries-Ends path again entries
                  (b.readdir-names path w (converted-eq-ok from_ssh2 (sftp.readdir path w) q)) k _)
                (λ _ r. converted-Ends _ (sftp.rmdir path _))))
    | inr e ↦ rw (e, delete_found) (converted-Ends _ (sftp.unlink path w))
  ]

  -- The step of the recursion, whatever the children need.
  delete_step-Ends :
      (fuel : ℕ) (path : Text) {bound : ℕ}
      → IsBounded bound
      → (length path ≤ bound
          → (name : Text) → IsName name
          → Ends (delete_remote_path_recursive paths sftp fuel (remote_join path name)))
      → Ends (delete_remote_path_recursive paths sftp (suc fuel) path)
  unfolding delete_remote_path_recursive
  delete_step-Ends fuel path b k w =
      let again : Text → Call W SftpError (Unit {0}) =
        λ child. delete_remote_path_recursive paths sftp fuel child in
      let looked = calling from_ssh2 (sftp.stat path) w in
      elim (Bool-cases (is_empty (trim path) || text_eq path (codes "/"))) [
        | inl e ↦ rw (e, delete_remote_path_recursive) (λ h. cc)
        | inr e ↦
            rw (e, delete_remote_path_recursive)
              (after-Ends looked (delete_found paths sftp again path)
                (converted-Ends from_ssh2 (sftp.stat path w))
                (λ stat q.
                  delete_found-Ends path again stat b
                    (k (b.stat-bound path w (converted-eq-ok from_ssh2 (sftp.stat path w) q)))
                    looked.0))
      ]

  delete_named-Ends :
      (bound fuel : ℕ) (path : Text)
      → IsBounded bound
      → EndsInName path
      → bound + 1 < length path + fuel
      → 0 < fuel
      → Ends (delete_remote_path_recursive paths sftp fuel path)
  delete_named-Ends bound zero path b n l p = absurd (omega arith)
  delete_named-Ends bound (suc fuel) path b n l _ = delete_step-Ends fuel path b (λ short name m.
      let longer = join-longer path name n in
      delete_named-Ends bound fuel (remote_join path name) b (join-EndsInName path name m)
        (omega (arith, longer)) (omega (arith, longer)))

  -- A recursive deletion does not run out of fuel where the fuel is two more than the length of the
  -- longest path that the server has, if its listings give names.
  pub delete-Ends :
      (bound : ℕ) (path : Text) (w : W)
      → IsBounded bound
      → (delete_remote_path_recursive paths sftp (suc (suc bound)) path w).1 ≢ err out_of_fuel
  delete-Ends bound path w b =
      delete_step-Ends (suc bound) path b
        (λ short name m.
          delete_named-Ends bound (suc bound) (remote_join path name) b
            (join-EndsInName path name m) (omega (arith, join-nonempty path name)) (omega arith))
        w
