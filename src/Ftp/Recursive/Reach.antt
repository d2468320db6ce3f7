-- ===== src/Ftp/Recursive/Reach.antt =====
-- What a recursive deletion can reach.
use cross_scp.Base.{
  ℕ, zero, suc, ◌≡◌, refl, sym, List, [], ◌∷◌, Option, none, some, Option-cases, Bool-cases, Bool,
  true, false, inl, inr, All,
}
use mathlib.Core.Path.{subst}
use cross_scp.Base.Result.{Result, ok, err}
use cross_scp.Base.Text.{Text}
use cross_scp.Protocol.{RemoteFile}
use cross_scp.Ftp.{FtpError, validate_ftp_path}
use cross_scp.Ftp.Adapter.{
  Server, FtpAdapter, and_then, with_session, listed, list_files, list_directory, or_directory,
  delete_path, is_dots,
}
use cross_scp.Ftp.Recursive.Below.{IsBelow, IsTight, child-IsBelow}
use cross_scp.Ftp.Listing.{IsChild, list_directory-IsChild}
use cross_scp.Ftp.Recursive.{
  Stopped, then_next, remove_entry, remove_entries, delete_listed, delete_path_recursive,
}

module _ {S : Type 0} (server : Server S) (P : S → Type 0) where
  -- The connection, if there is one, has the property.
  abbrev pub OfSession : Option S → Type 0
  OfSession none = Unit {0}
  OfSession (some session) = P session

  -- Listings keep it, and removals keep it if what they remove is the root or behind it.
  pub record IsConfined (root : Text) : Type 0 where
    pub list-keeps : (path : Text) (s : S) → P s → P (server.list path s).0
    pub fallback-keeps : (path : Text) (s : S) → P s → P (server.list_fallback path s).0
    pub rm-keeps : (path : Text) (s : S) → IsBelow root path → P s → P (server.rm path s).0
    pub rmdir-keeps : (path : Text) (s : S) → IsBelow root path → P s → P (server.rmdir path s).0

  with_session-keeps :
      {A : Type 0} (call : S → S × Result Text A) (adapter : FtpAdapter S)
      → ((s : S) → P s → P (call s).0)
      → OfSession adapter.session
      → OfSession (with_session call adapter).0.session
  unfolding with_session
  with_session-keeps call adapter k p = elim (Option-cases adapter.session) [
    | inl e ↦ rw (e, with_session) p
    | inr (s, e) ↦ rw (e, with_session) (k s (rw e at p))
  ]

  then_next-keeps :
      (first : Stopped S) (next : FtpAdapter S → Stopped S)
      → OfSession first.0.session
      → ((adapter : FtpAdapter S) → OfSession adapter.session → OfSession (next adapter).0.session)
      → OfSession (then_next first next).0.session
  then_next-keeps (adapter, some (ok u)) next p k = k adapter p
  then_next-keeps (adapter, some (err e)) next p k = p
  then_next-keeps (adapter, none) next p k = p

  and_then-keeps :
      {A B : Type 0} (first : FtpAdapter S × Result FtpError A)
      (next : A → FtpAdapter S → FtpAdapter S × Result FtpError B)
      → OfSession first.0.session
      → ((a : A) (adapter : FtpAdapter S)
          → OfSession adapter.session
          → OfSession (next a adapter).0.session)
      → OfSession (and_then first next).0.session
  and_then-keeps (adapter, ok a) next p k = k a adapter p
  and_then-keeps (adapter, err e) next p k = p

  module _ {root : Text} (tight : IsTight root) (c : IsConfined root) where
    listed-keeps :
        (path : Text) (adapter : FtpAdapter S) (r : S × Result Text (List Text))
        → P r.0
        → OfSession (listed server path adapter r).0.session
    unfolding listed
    listed-keeps path adapter (s, ok lines) p = p
    listed-keeps path adapter (s, err e) p =
        let before = record adapter { session = some s } in
        and_then-keeps (with_session (server.list_fallback path) before) _
          (with_session-keeps (server.list_fallback path) before (c.fallback-keeps path) p)
          (λ lines after q. q)

    list_files-keeps :
        (path : Text) (adapter : FtpAdapter S)
        → OfSession adapter.session
        → OfSession (list_files server path adapter).0.session
    unfolding list_files
    list_files-keeps path adapter p = elim (Option-cases adapter.session) [
      | inl e ↦ rw (e, list_files) p
      | inr (s, e) ↦
          rw (e, list_files)
            (listed-keeps path adapter (server.list path s) (c.list-keeps path s (rw e at p)))
    ]

    list_directory-keeps :
        (path : Text) (adapter : FtpAdapter S)
        → OfSession adapter.session
        → OfSession (list_directory server path adapter).0.session
    unfolding list_directory
    list_directory-keeps path adapter p =
        and_then-keeps (adapter, validate_ftp_path path) _ p
          (λ _ before q.
            and_then-keeps (list_files server path before) _ (list_files-keeps path before q)
              (λ files after r. r))

    or_directory-keeps :
        (path : Text) (adapter : FtpAdapter S) (r : S × Result Text (Unit {0}))
        → IsBelow root path
        → P r.0
        → OfSession (or_directory server path adapter r).0.session
    unfolding or_directory
    or_directory-keeps path adapter (s, ok u) reached p = p
    or_directory-keeps path adapter (s, err e) reached p = c.rmdir-keeps path s reached p

    removed-keeps :
        (path : Text) (adapter : FtpAdapter S)
        → IsBelow root path
        → OfSession adapter.session
        → OfSession (delete_path server path adapter).0.session
    unfolding delete_path
    removed-keeps path adapter reached p =
        and_then-keeps (adapter, validate_ftp_path path) _ p
          (λ _ before q. elim (Option-cases before.session) [
            | inl e ↦ rw e q
            | inr (s, e) ↦ rw e (
                or_directory-keeps path before (server.rm path s) reached
                  (c.rm-keeps path s reached (rw e at q)))
          ])

    remove_dots :
        (again : Text → FtpAdapter S → Stopped S) (entry : RemoteFile) (entries : List RemoteFile)
        (adapter : FtpAdapter S)
        → is_dots entry.name ≡ true
        → remove_entries server again (entry ∷ entries) adapter
          ≡ remove_entries server again entries adapter
    unfolding remove_entries
    remove_dots again entry entries adapter h = rw (h, remove_entries) refl

    remove_named :
        (again : Text → FtpAdapter S → Stopped S) (entry : RemoteFile) (entries : List RemoteFile)
        (adapter : FtpAdapter S)
        → is_dots entry.name ≡ false
        → remove_entries server again (entry ∷ entries) adapter
          ≡ then_next
              (remove_entry server again entry.is_directory entry.path adapter)
              (remove_entries server again entries)
    unfolding remove_entries
    remove_named again entry entries adapter h = rw (h, remove_entries) refl

    module _ (again : Text → FtpAdapter S → Stopped S)
        (k : (path : Text) (adapter : FtpAdapter S)
          → IsBelow root path
          → OfSession adapter.session
          → OfSession (again path adapter).0.session) where
      remove_entry-keeps :
          (is_directory : Bool) (path : Text) (adapter : FtpAdapter S)
          → IsBelow root path
          → OfSession adapter.session
          → OfSession (remove_entry server again is_directory path adapter).0.session
      remove_entry-keeps true path adapter reached p = k path adapter reached p
      remove_entry-keeps false path adapter reached p =
          with_session-keeps (server.rm path) adapter (λ s. c.rm-keeps path s reached) p

      remove_entries-keeps :
          (parent : Text) (entries : List RemoteFile) (adapter : FtpAdapter S)
          → IsBelow root parent
          → All (IsChild parent) entries
          → OfSession adapter.session
          → OfSession (remove_entries server again entries adapter).0.session
      unfolding remove_entries
      remove_entries-keeps parent [] adapter reached a p = p
      remove_entries-keeps parent (entry ∷ entries) adapter reached (first, rest) p =
          elim (Bool-cases (is_dots entry.name)) [
            | inl e ↦
                subst (λ r. OfSession r.0.session) (sym (remove_dots again entry entries adapter e))
                  (remove_entries-keeps parent entries adapter reached rest p)
            | inr e ↦
                subst (λ r. OfSession r.0.session)
                  (sym (remove_named again entry entries adapter e))
                  (then_next-keeps (remove_entry server again entry.is_directory entry.path adapter)
                    _
                    (remove_entry-keeps entry.is_directory entry.path adapter
                      (child-IsBelow root tight parent entry reached first) p)
                    (λ after q. remove_entries-keeps parent entries after reached rest q))
          ]

      delete_listed-keeps :
          (path : Text) (before : FtpAdapter S)
          (r : FtpAdapter S × Result FtpError (List RemoteFile))
          → list_directory server path before ≡ r
          → IsBelow root path
          → OfSession r.0.session
          → OfSession (delete_listed server again path r).0.session
      unfolding delete_listed
      delete_listed-keeps path before (adapter, err e) h reached p =
          removed-keeps path adapter reached p
      delete_listed-keeps path before (adapter, ok entries) h reached p =
          then_next-keeps (remove_entries server again entries adapter) _
            (remove_entries-keeps path entries adapter reached
              (list_directory-IsChild server path before h) p)
            (λ after q.
              with_session-keeps (server.rmdir path) after (λ s. c.rmdir-keeps path s reached) q)

  delete_below-keeps :
      {root : Text}
      → IsTight root
      → IsConfined root
      → (fuel : ℕ) (path : Text) (adapter : FtpAdapter S) → IsBelow root path
      → OfSession adapter.session
      → OfSession (delete_path_recursive server fuel path adapter).0.session
  unfolding delete_path_recursive
  delete_below-keeps tight c zero path adapter reached p = p
  delete_below-keeps tight c (suc fuel) path adapter reached p =
      delete_listed-keeps tight c (delete_path_recursive server fuel)
        (delete_below-keeps tight c fuel) path adapter (list_directory server path adapter) refl
        reached (list_directory-keeps tight c path adapter p)

  -- For a path that neither is empty nor begins or ends with white space: at every moment of a
  -- recursive deletion, also where it stops early, the connection keeps whatever is kept by listings
  -- and by each removal of the path itself or of a path that has it and one slash in front. Nothing
  -- else is removed.
  pub delete_path_recursive-keeps :
      (root : Text) (fuel : ℕ) (adapter : FtpAdapter S)
      → IsTight root
      → IsConfined root
      → OfSession adapter.session
      → OfSession (delete_path_recursive server fuel root adapter).0.session
  delete_path_recursive-keeps root fuel adapter tight c p =
      delete_below-keeps tight c fuel root adapter (inl refl) p
