-- ===== src/Local.antt =====
-- crates/crossscp-protocol-local/src/lib.rs: copies on the local file system and the execution of
-- queued jobs. The file system is a `Files`: what each call of `std::fs` and `std::path` answers, and
-- the files that it leaves. A path is its text.
mod Errors
unfoldable pub use Errors.*
pub mod Queue
pub mod Copies
mod Examples
use cross_scp.Base.{
  ℕ, ◌+◌, List, [], ◌∷◌, ◌++◌, Option, none, some, Bool, true, false, not, ◌&&◌, if◌then◌else◌,
  length,
}
use cross_scp.Base.Result.{Result, ok, err, map_err}
use cross_scp.Base.Text.{Text, codes}
use cross_scp.Session.{
  SessionProtocol, sftp, scp, ftp, ftps, web_dav, s3, local, protocol_eq, SessionProfile,
}
use cross_scp.Prompts.{
  PromptError, unavailable, prompt_cancelled, prompt_message, PromptBroker, PromptRequest,
  ask_overwrite, PromptResponse, accept, reject, cancel, accept_all, reject_all, remember_accepted,
}
use cross_scp.Protocol.Capabilities.{ProtocolCapabilities}
use cross_scp.Transfer
use cross_scp.Transfer.{
  OverwriteMode, ask, always, never, if_newer, resume, TransferFileMetadata, OverwriteDecision,
  copy_from_start, resume_from, skip, prompt, unsupported, decide_overwrite, upload, download,
  local_copy, TransferDirection, TransferState, completed, failed, TransferJob, TransferProgress,
  TransferQueue, TransferQueueError, unknown_job, start_next, set_state,
}

pub record LocalFileSystem : Type 0 where
  pub root : Option Text
  pub connected : Bool

-- The successive reads of an open file are a list of chunks or errors.
pub record Files (D : Type 0) : Type 0 where
  pub is_absolute : Text → Bool
  pub join : Text → Text → Text
  pub parent : Text → Option Text
  pub exists : Text → D → Bool
  pub metadata : Text → D → Result Text TransferFileMetadata
  pub symlink_is_dir : Text → D → Result Text Bool
  pub create_dir_all : Text → D → D × Result Text (Unit {0})
  pub create_dir : Text → D → D × Result Text (Unit {0})
  pub copy : Text → Text → D → D × Result Text ℕ
  pub reads : Text → ℕ → D → Result Text (List (Result Text (List ℕ)))
  pub open_append : Text → D → Result Text (Unit {0})
  pub append : Text → List ℕ → D → D × Result Text (Unit {0})
  pub remove_dir_all : Text → D → D × Result Text (Unit {0})
  pub remove_dir : Text → D → D × Result Text (Unit {0})
  pub remove_file : Text → D → D × Result Text (Unit {0})
  pub rename : Text → Text → D → D × Result Text (Unit {0})

-- The method `connect` of the adapter.
unfoldable pub connect :
    SessionProfile → LocalFileSystem → LocalFileSystem × Result LocalFsError (Unit {0})
unfolding protocol_eq
connect profile fs =
    if not (protocol_eq profile.protocol local)
    then (fs, err (invalid_protocol profile.protocol))
    else (record fs { connected = true }, ok tt)

unfoldable pub disconnect : LocalFileSystem → LocalFileSystem × Result LocalFsError (Unit {0})
disconnect fs = (record fs { connected = false }, ok tt)

abbrev pub question :
    Text → Text → TransferFileMetadata → Option TransferFileMetadata → PromptRequest
question source destination from_file to_file = ask_overwrite (record {
  source = source;
  destination = destination;
  source_size = some from_file.size;
  destination_size = elim to_file [ none ↦ none | some metadata ↦ some metadata.size ];
})

module _ {D : Type 0} (files : Files D) where
  unfoldable pub resolve : LocalFileSystem → Text → Text
  resolve fs path =
      if files.is_absolute path
      then path
      else elim fs.root [ some root ↦ files.join root path | none ↦ path ]

  -- A call of `std::fs` with `?`, and what follows it.
  abbrev pub and_then :
      {A B : Type 0}
      → D × Result Text A
      → (A → D → D × Result LocalFsError B)
      → D × Result LocalFsError B
  and_then (disk, err e) next = (disk, err (io e))
  and_then (disk, ok a) next = next a disk

  -- The loop of `resume_copy` over the reads.
  unfoldable pub append_reads :
      Text → ℕ → List (Result Text (List ℕ)) → D → D × Result LocalFsError ℕ
  append_reads destination written [] disk = (disk, ok written)
  append_reads destination written (err e ∷ reads) disk = (disk, err (io e))
  append_reads destination written (ok [] ∷ reads) disk = (disk, ok written)
  append_reads destination written (ok (b ∷ chunk) ∷ reads) disk =
      and_then (files.append destination (b ∷ chunk) disk)
        (λ _. append_reads destination (written + length (b ∷ chunk)) reads)

  unfoldable pub resume_copy : Text → Text → ℕ → D → D × Result LocalFsError ℕ
  unfolding append_reads
  resume_copy source destination offset disk =
      and_then (disk, files.reads source offset disk)
        (λ reads disk.
          and_then (disk, files.open_append destination disk)
            (λ _. append_reads destination 0 reads))

  abbrev pub copy_whole : Text → Text → D → D × Result LocalFsError ℕ
  copy_whole source destination disk =
      and_then (files.copy source destination disk) (λ bytes disk. (disk, ok bytes))

  abbrev pub answered :
      Text → Text → Result PromptError PromptResponse → D → D × Result LocalFsError ℕ
  answered source destination (err e) disk = (disk, err (prompt_error e))
  answered source destination (ok accept) disk = copy_whole source destination disk
  answered source destination (ok accept_all) disk = copy_whole source destination disk
  answered source destination (ok remember_accepted) disk = copy_whole source destination disk
  answered source destination (ok reject) disk = (disk, ok 0)
  answered source destination (ok reject_all) disk = (disk, ok 0)
  answered source destination (ok cancel) disk = (disk, err (prompt_error prompt_cancelled))

  -- The `match` on the decision.
  unfoldable pub carry_out :
      OverwriteMode
      → Option PromptBroker
      → Text
      → Text
      → TransferFileMetadata
      → Option TransferFileMetadata
      → OverwriteDecision
      → D
      → D × Result LocalFsError ℕ
  unfolding resume_copy
  carry_out mode broker source destination from_file to_file copy_from_start disk =
      copy_whole source destination disk
  carry_out mode broker source destination from_file to_file (resume_from offset) disk =
      resume_copy source destination offset disk
  carry_out mode broker source destination from_file to_file skip disk = (disk, ok 0)
  carry_out mode none source destination from_file to_file prompt disk =
      (disk, err (prompt_error unavailable))
  carry_out mode (some broker) source destination from_file to_file prompt disk =
      answered source destination (broker (question source destination from_file to_file)) disk
  carry_out mode broker source destination from_file to_file unsupported disk =
      (disk, err (unsupported_overwrite_mode mode))

  abbrev pub create_parent : Bool → Option Text → D → D × Result Text (Unit {0})
  create_parent true (some parent) disk = files.create_dir_all parent disk
  create_parent true none disk = (disk, ok tt)
  create_parent false parent disk = (disk, ok tt)

  abbrev pub destination_metadata : Text → D → Result Text (Option TransferFileMetadata)
  destination_metadata destination disk =
      if files.exists destination disk
      then elim (files.metadata destination disk) [ err e ↦ err e | ok m ↦ ok (some m) ]
      else ok none

  abbrev progress_of :
      TransferJob → Text → TransferFileMetadata → ℕ → D → D × Result LocalFsError TransferProgress
  progress_of job destination from_file bytes disk = (
    disk,
    ok (record {
      job_id = job.id;
      bytes_done = bytes;
      bytes_total = some from_file.size;
      current_file = some destination;
    }),
  )

  abbrev pub with_bytes :
      {B : Type 0}
      → D × Result LocalFsError ℕ
      → (ℕ → D → D × Result LocalFsError B)
      → D × Result LocalFsError B
  with_bytes (disk, err e) next = (disk, err e)
  with_bytes (disk, ok bytes) next = next bytes disk

  unfoldable pub copy_between :
      TransferJob → Option PromptBroker → Text → Text → D → D × Result LocalFsError TransferProgress
  unfolding decide_overwrite carry_out
  copy_between job broker source destination disk =
      and_then (disk, files.metadata source disk)
        (λ from_file disk.
          and_then (disk, destination_metadata destination disk)
            (λ to_file disk.
              and_then
                (create_parent job.options.create_missing_directories (files.parent destination)
                  disk)
                (λ _ disk.
                  with_bytes
                    (carry_out job.options.overwrite_mode broker source destination from_file
                      to_file (decide_overwrite job.options.overwrite_mode from_file to_file) disk)
                    (progress_of job destination from_file))))

  unfoldable pub execute_local_copy_job :
      LocalFileSystem
      → TransferJob
      → Option PromptBroker
      → D
      → D × Result LocalFsError TransferProgress
  unfolding resolve copy_between
  execute_local_copy_job fs job broker disk = elim job.direction [
    | local_copy ↦ copy_between job broker (resolve fs job.source) (resolve fs job.destination) disk
    | _ ↦ (disk, err (invalid_protocol local))
  ]

  abbrev pub remove_at : Text → Bool → Bool → D → D × Result Text (Unit {0})
  remove_at path true true disk = files.remove_dir_all path disk
  remove_at path true false disk = files.remove_dir path disk
  remove_at path false recursive disk = files.remove_file path disk

  unfoldable pub remove : LocalFileSystem → Text → Bool → D → D × Result LocalFsError (Unit {0})
  unfolding resolve
  remove fs path recursive disk =
      and_then (disk, files.symlink_is_dir (resolve fs path) disk)
        (λ is_dir disk.
          and_then (remove_at (resolve fs path) is_dir recursive disk) (λ _ disk. (disk, ok tt)))

  abbrev pub make_room : Bool → Text → D → D × Result Text (Unit {0})
  make_room true target disk = elim (files.symlink_is_dir target disk) [
    | err e ↦ (disk, err e)
    | ok is_dir ↦ remove_at target is_dir true disk
  ]
  make_room false target disk = (disk, ok tt)

  unfoldable pub rename :
      LocalFileSystem → Text → Text → Bool → D → D × Result LocalFsError (Unit {0})
  unfolding resolve
  rename fs source target overwrite disk =
      let to = resolve fs target in
      let there = files.exists to disk in
      if not overwrite && there
      then (disk, err (destination_exists to))
      else and_then (make_room (overwrite && there) to disk)
          (λ _ disk. and_then (files.rename (resolve fs source) to disk) (λ _ disk. (disk, ok tt)))

  unfoldable pub copy_file : LocalFileSystem → Text → Text → Bool → D → D × Result LocalFsError ℕ
  unfolding resolve
  copy_file fs source destination create_missing_directories disk =
      let to = resolve fs destination in
      and_then (create_parent create_missing_directories (files.parent to) disk)
        (λ _. copy_whole (resolve fs source) to)

  unfoldable pub create_directory :
      LocalFileSystem → Text → Bool → D → D × Result LocalFsError (Unit {0})
  unfolding resolve
  create_directory fs path create_parents disk =
      let at = resolve fs path in
      and_then (if create_parents then files.create_dir_all at disk else files.create_dir at disk)
        (λ _ disk. (disk, ok tt))

-- `cfg!(unix)` is a parameter.
unfoldable pub capabilities : Bool → ProtocolCapabilities
capabilities unix = record {
  can_list = true;
  can_upload = true;
  can_download = true;
  can_delete = true;
  can_mkdir = true;
  can_rename = true;
  can_recursive_transfer = true;
  can_resume_upload = true;
  can_resume_download = true;
  can_preserve_timestamps = true;
  can_preserve_permissions = unix;
  can_chmod = unix;
  can_symlink = true;
  can_hash = false;
  can_server_side_copy = true;
  supports_random_access = true;
  uses_real_directories = true;
  uses_object_prefixes = false;
  requires_bucket = false;
  supports_tls_policy = false;
  supports_http_version_policy = false;
}
