-- ===== src/Ftp/Recursive.antt =====
-- `delete_path_recursive`, on fuel: one round for each level of directories. Without fuel it stops with
-- no result, on the connection as it is then.
pub mod Below
pub mod Reach
use cross_scp.Base.{ℕ, zero, suc, List, [], ◌∷◌, Option, none, some, Bool, true, false}
use cross_scp.Base.Result.{Result, ok, err}
use cross_scp.Base.Text.{Text}
use cross_scp.Protocol.{RemoteFile}
use cross_scp.Ftp.{FtpError}
use cross_scp.Ftp.Adapter.{Server, FtpAdapter, with_session, list_directory, delete_path, is_dots}

abbrev pub Stopped : Type 0 → Type 0
Stopped S = FtpAdapter S × Option (Result FtpError (Unit {0}))

module _ {S : Type 0} where
  abbrev pub ended : FtpAdapter S × Result FtpError (Unit {0}) → Stopped S
  ended (adapter, result) = (adapter, some result)

  -- `first?; next`
  abbrev pub then_next : Stopped S → (FtpAdapter S → Stopped S) → Stopped S
  then_next (adapter, some (ok _)) next = next adapter
  then_next (adapter, other) next = (adapter, other)

module _ {S : Type 0} (server : Server S) where
  abbrev pub remove_entry :
      (again : Text → FtpAdapter S → Stopped S) → Bool → Text → FtpAdapter S → Stopped S
  remove_entry again true path adapter = again path adapter
  remove_entry again false path adapter = ended (with_session (server.rm path) adapter)

  -- The `for` loop over the entries.
  unfoldable pub remove_entries :
      (again : Text → FtpAdapter S → Stopped S) → List RemoteFile → FtpAdapter S → Stopped S
  unfolding with_session is_dots
  remove_entries again [] adapter = (adapter, some (ok tt))
  remove_entries again (entry ∷ entries) adapter = elim (is_dots entry.name) [
    | true ↦ remove_entries again entries adapter
    | false ↦
        then_next (remove_entry again entry.is_directory entry.path adapter)
          (remove_entries again entries)
  ]

  -- The `match` on the listing.
  unfoldable pub delete_listed :
      (again : Text → FtpAdapter S → Stopped S)
      → Text
      → FtpAdapter S × Result FtpError (List RemoteFile)
      → Stopped S
  unfolding remove_entries with_session delete_path
  delete_listed again path (adapter, err _) = ended (delete_path server path adapter)
  delete_listed again path (adapter, ok entries) =
      then_next (remove_entries again entries adapter)
        (λ after. ended (with_session (server.rmdir path) after))

  unfoldable pub delete_path_recursive : ℕ → Text → FtpAdapter S → Stopped S
  unfolding delete_listed list_directory
  delete_path_recursive zero path adapter = (adapter, none)
  delete_path_recursive (suc fuel) path adapter =
      delete_listed (delete_path_recursive fuel) path (list_directory server path adapter)
