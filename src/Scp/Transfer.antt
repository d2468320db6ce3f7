-- ===== src/Scp/Transfer.antt =====
-- The copy with progress, and the two transfers. A copy has `rounds` for its reads.
use cross_scp.Base.{
  ℕ, zero, suc, ◌+◌, ◌*◌, ◌%◌, ◌^◌, List, [], ◌∷◌, Option, none, some, false, if◌then◌else◌,
  is_empty, length,
}
use cross_scp.Base.Result.{ok, err, ok_or}
use cross_scp.Base.Text.{Text, codes}
use cross_scp.Protocol.{FileConflictPolicy, replace_existing, keep_existing, keep_both}
use cross_scp.Machine.{Metadata, Machine}
use cross_scp.Machine.Network.{ScpChannels}
use cross_scp.Machine.Names.{numbered_local_conflict_path}
use cross_scp.Machine.Call.{
  Call, ◌>>=◌, ◌>>◌, return, when, throw, exhausted, from_result, calling, looking, change,
}
use cross_scp.Scp.{ScpError, io, not_connected, unsupported_operation, from_ssh2, from_io}
use cross_scp.Scp.Adapter.{ScpAdapter}

pub record ScpTransferSummary : Type 0 where
  pub source : Text
  pub destination : Text
  pub bytes_done : ℕ
  pub bytes_total : Option ℕ

module _ {W H : Type 0} (machine : Machine W H) where
  -- The `for` loop over the copy numbers from `copy_number` on, `tries` of them.
  unfoldable pub free_local_name : (tries copy_number : ℕ) → Text → Call W ScpError (Option Text)
  unfolding numbered_local_conflict_path
  free_local_name zero copy_number local_path =
      throw (io (codes "could not allocate a numbered local destination"))
  free_local_name (suc tries) copy_number local_path =
      let candidate = numbered_local_conflict_path machine.paths local_path copy_number false in
      looking (machine.symlink_metadata candidate) (λ found. elim found [
        | err error ↦ if error.not_found then return (some candidate) else throw (from_io error)
        | ok metadata ↦ λ w. free_local_name tries (copy_number + 1) local_path w
      ])

  abbrev pub resolve_existing_local :
      Text → FileConflictPolicy → Metadata → Call W ScpError (Option Text)
  unfolding free_local_name
  resolve_existing_local local_path keep_existing metadata = return none
  resolve_existing_local local_path replace_existing metadata =
      (if metadata.is_dir
        then calling from_io (machine.remove_dir_all local_path)
        else calling from_io (machine.remove_file local_path))
      >> return (some local_path)
  resolve_existing_local local_path keep_both metadata = free_local_name 4294967295 1 local_path

  unfoldable pub resolve_local_download_file_destination :
      Text → FileConflictPolicy → Call W ScpError (Option Text)
  unfolding resolve_existing_local
  resolve_local_download_file_destination local_path policy =
      looking (machine.symlink_metadata local_path) (λ found. elim found [
        | ok metadata ↦ resolve_existing_local local_path policy metadata
        | err error ↦ if error.not_found then return (some local_path) else throw (from_io error)
      ])

  module _ (reader writer : H) (bytes_total : Option ℕ) where
    -- What follows a read: the loop ends where nothing was read, and is `again` otherwise.
    unfoldable pub copy_next : (ℕ → Call W ScpError ℕ) → ℕ → List ℕ → Call W ScpError ℕ
    copy_next again bytes_done [] = return bytes_done
    copy_next again bytes_done (b ∷ chunk) = do
      calling from_io (machine.write_all writer (b ∷ chunk))
      let done = (bytes_done + length (b ∷ chunk)) % 2 ^ 64
      change (machine.report done bytes_total)
      again done

    unfoldable pub copy_chunks : ℕ → ℕ → Call W ScpError ℕ
    unfolding copy_next
    copy_chunks zero bytes_done = exhausted
    copy_chunks (suc rounds) bytes_done =
        calling from_io (machine.read reader (64 * 1024))
        >>= copy_next (λ done. copy_chunks rounds done) bytes_done

    unfoldable pub copy_with_progress : ℕ → Call W ScpError ℕ
    unfolding copy_chunks
    copy_with_progress rounds = change (machine.report 0 bytes_total) >> copy_chunks rounds 0

module _ {W S : Type 0} where
  -- `self.session.as_ref().ok_or(ScpError::NotConnected)?`
  unfoldable pub in_session :
      {A : Type 0} → ScpAdapter S → (S → Call W ScpError A) → Call W ScpError A
  in_session scp next = from_result (ok_or scp.session not_connected) >>= next

module _ {W H S : Type 0} (machine : Machine W H) (channels : ScpChannels W H S) (rounds : ℕ) where
  abbrev finish : H → Call W ScpError (Unit {0})
  unfolding from_ssh2
  finish remote = do
    calling from_ssh2 (channels.send_eof remote)
    calling from_ssh2 (channels.wait_eof remote)
    calling from_ssh2 (channels.close remote)
    calling from_ssh2 (channels.wait_close remote)

  abbrev summary : (source destination : Text) → ℕ → Option ℕ → ScpTransferSummary
  summary source destination bytes_done bytes_total = record {
    source = source;
    destination = destination;
    bytes_done = bytes_done;
    bytes_total = bytes_total;
  }

  -- 420 is 0o644.
  abbrev send : (local_path remote_path : Text) → ℕ → S → Call W ScpError ScpTransferSummary
  unfolding from_ssh2 copy_with_progress finish
  send local_path remote_path bytes_total session = do
    remote ← calling from_ssh2 (channels.scp_send session remote_path 420 bytes_total)
    local ← calling from_io (machine.open_file local_path)
    bytes_done ← copy_with_progress machine local remote (some bytes_total) rounds
    finish remote
    return (summary local_path remote_path bytes_done (some bytes_total))

  unfoldable pub upload_file_with_progress :
      (local_path remote_path : Text) → ScpAdapter S → Call W ScpError ScpTransferSummary
  unfolding in_session send
  upload_file_with_progress local_path remote_path scp = in_session scp (λ session. do
    metadata ← calling from_io (machine.metadata local_path)
    when metadata.is_dir (
        throw (
          unsupported_operation
            (codes "recursive SCP upload is not implemented yet; use SFTP for folders")))
    send local_path remote_path metadata.len session)

  abbrev make_named_parent : Text → Call W ScpError (Unit {0})
  make_named_parent path = elim (machine.paths.parent path) [
    | some parent ↦
        if is_empty parent then return tt else calling from_io (machine.create_dir_all parent)
    | none ↦ return tt
  ]

  abbrev receive : (remote_path destination : Text) → S → Call W ScpError ScpTransferSummary
  unfolding from_ssh2 copy_with_progress finish
  receive remote_path destination session = do
    make_named_parent destination
    opened ← calling from_ssh2 (channels.scp_recv session remote_path)
    local ← calling from_io (machine.create_file destination)
    bytes_done ← copy_with_progress machine opened.0 local (some opened.1) rounds
    finish opened.0
    return (summary remote_path destination bytes_done (some opened.1))

  unfoldable pub download_file_with_progress_policy :
      (remote_path local_path : Text)
      → FileConflictPolicy
      → ScpAdapter S
      → Call W ScpError ScpTransferSummary
  unfolding in_session resolve_local_download_file_destination receive
  download_file_with_progress_policy remote_path local_path policy scp = in_session scp (λ session.
      do
        resolved ← resolve_local_download_file_destination machine local_path policy
        elim resolved [
          | none ↦ return (summary remote_path local_path 0 none)
          | some destination ↦ receive remote_path destination session
        ])

  unfoldable pub download_file_with_progress :
      (remote_path local_path : Text) → ScpAdapter S → Call W ScpError ScpTransferSummary
  unfolding download_file_with_progress_policy
  download_file_with_progress remote_path local_path =
      download_file_with_progress_policy remote_path local_path replace_existing
