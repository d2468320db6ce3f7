-- ===== src/Local/Examples.antt =====
-- Runs against a file system on which every call succeeds and nothing is kept but a count of copies.
use cross_scp.Base.{
  ℕ, ◌+◌, ◌≡◌, ◌⊎◌, refl, arith, [], ◌∷◌, none, some, true, false, ◌==◌, if◌then◌else◌,
}
use cross_scp.Base.Result.{ok}
use cross_scp.Base.Text.{codes}
use cross_scp.Prompts.{answer, rejecting}
use cross_scp.Transfer
use cross_scp.Transfer.{
  TransferState, ask, prompt, running, TransferJob, TransferFileMetadata, TransferQueue, local_copy,
  default_options, new_job, next_queued,
}
use cross_scp.Transfer.Valid.{IsValid}
use cross_scp.Transfer.Lookup.{with_state}
use cross_scp.Local.{Files, LocalFileSystem, execute_local_copy_job, carry_out}
use cross_scp.Local.Queue.{execute_next_local_copy, Ends, get-execute_next}
use cross_scp.Local.Copies.{carry_out-keeps}

abbrev small : TransferFileMetadata
small = record { size = 3; modified = none }

abbrev counted : Files ℕ
counted = record {
  is_absolute = λ p. true;
  join = λ p q. q;
  parent = λ p. none;
  exists = λ p d. false;
  metadata = λ p d. ok small;
  symlink_is_dir = λ p d. ok false;
  create_dir_all = λ p d. (d, ok tt);
  create_dir = λ p d. (d, ok tt);
  copy = λ p q d. (d + 1, ok 3);
  reads = λ p o d. ok [];
  open_append = λ p d. ok tt;
  append = λ p b d. (d, ok tt);
  remove_dir_all = λ p d. (d, ok tt);
  remove_dir = λ p d. (d, ok tt);
  remove_file = λ p d. (d, ok tt);
  rename = λ p q d. (d, ok tt);
}

abbrev fs : LocalFileSystem
fs = record { root = none; connected = true }

abbrev waiting : TransferJob
waiting = new_job 1 local_copy (codes "a") (codes "b") default_options

abbrev queue : TransferQueue
queue = record { next_id = 2; jobs = waiting ∷ [] }

queue-IsValid : IsValid queue
queue-IsValid = record { ascending = (tt, tt); below = (omega arith, tt) }

copies_once : (execute_next_local_copy counted fs none queue 0).disk ≡ 1
unfolding execute_next_local_copy
copies_once = refl

get-execute_next_example :
    let end = execute_next_local_copy counted fs none queue 0 in
    ((next_queued queue ≡ none) × (end.queue ≡ queue) × (end.disk ≡ 0) × (end.result ≡ ok none))
    ⊎ ((job : TransferJob) × (next_queued queue ≡ some job)
        × (let run = execute_local_copy_job counted fs (with_state running job) none 0 in
            (end.disk ≡ run.0)
            × ((state : TransferState) × Ends run.1 end.result state
                × (Transfer.get end.queue 1 ≡ (
                    if job.id == 1 then some (with_state state job) else Transfer.get queue 1)))))
get-execute_next_example = get-execute_next counted fs none queue 0 1 queue-IsValid

carry_out-keeps_example :
    (carry_out counted ask
      (some (answer rejecting))
      (codes "a")
      (codes "b")
      small
      (some small)
      prompt
      0).0
    ≡ 0
carry_out-keeps_example =
    carry_out-keeps counted ask (some (answer rejecting)) (codes "a") (codes "b") small (some small)
      prompt 0 refl
