-- ===== src/Ftp/Upload.antt =====
-- Where an upload goes when there may be something at its destination.
use cross_scp.Base.{List, ◌∷◌, ◌++◌, ◌≢◌, All, ◌≡◌, ◌⊎◌, refl, ap, Bool, true}
use cross_scp.Base.Result.{Result, ok, err}
use cross_scp.Base.Text.{Text}
use cross_scp.Protocol.{RemoteFile, FileConflictPolicy, keep_existing, replace_existing}
use cross_scp.Ftp.{FtpError}
use cross_scp.Ftp.Join.{Divides}
use cross_scp.Ftp.Adapter.{Server, FtpAdapter, Method, and_then, list_directory}

module _ {S A B : Type 0} where
  -- A chain of methods that succeeds did so at its first link, and went on from there.
  pub and_then-eq-ok :
      (first : FtpAdapter S × Result FtpError A) (next : A → Method S B) {last : FtpAdapter S}
      {b : B}
      → and_then first next ≡ (last, ok b)
      → (a : A) × (first ≡ (first.0, ok a)) × (next a first.0 ≡ (last, ok b))
  and_then-eq-ok (adapter, err e) next h = cc
  and_then-eq-ok (adapter, ok a) next h = (a, refl, h)

pub ok-eq :
    {S A : Type 0} {a b : A} {s t : FtpAdapter S}
    → ◌≡◌ {A = FtpAdapter S × Result FtpError A} (s, ok a) (t, ok b)
    → (s ≡ t) × (a ≡ b)
ok-eq h = (ap (λ r. r.0) h, cc)

module _ {S : Type 0} (server : Server S) where
  -- The last listing: that of the parent of the path, under the given name; nothing was called behind it.
  abbrev pub Listed : (path name : Text) → List RemoteFile → FtpAdapter S → Type 0
  Listed path name entries after =
      (before : FtpAdapter S) × (parent : Text) × Divides path parent name
      × (list_directory server parent before ≡ (after, ok entries))

  -- The last listing of the parent of the path holds no entry with its name.
  abbrev pub WasFree : Text → FtpAdapter S → Type 0
  WasFree path after =
      (name : Text) × (entries : List RemoteFile) × Listed path name entries after
      × All (λ entry. entry.name ≢ name) entries

  -- It holds the entry, with its name.
  abbrev pub WasFound : Text → RemoteFile → FtpAdapter S → Type 0
  WasFound path entry after =
      (name : Text) × (ahead rest : List RemoteFile) × Listed path name (ahead ++ entry ∷ rest)
        after
      × (entry.name ≡ name)

  -- Both the source and what stands at the path are directories.
  abbrev pub MergesAt : Text → Bool → FtpAdapter S → Type 0
  MergesAt path d after =
      (d ≡ true) × ((entry : RemoteFile) × WasFound path entry after × (entry.is_directory ≡ true))

  abbrev pub IsSafe : Text → Bool → FileConflictPolicy → FtpAdapter S → Text → Type 0
  IsSafe path d policy after destination =
      WasFree destination after
      ⊎ ((destination ≡ path)
          × ((policy ≡ replace_existing) ⊎ ((policy ≡ keep_existing) × MergesAt path d after)))
