-- ===== src/Transfer.antt =====
-- crates/crossscp-transfer/src/lib.rs: the FIFO queue of transfer jobs, and the decision about a
-- destination that exists. A method with `&mut self` returns the new queue. `TransferJobId` is its
-- number. `next_id += 1` wraps around, as in a release build. A `SystemTime` is its number of ticks.
pub mod Overwrite
mod Jobs
pub mod Valid
pub mod Lookup
pub mod Fifo
mod Examples
use cross_scp.Base.{
  ℕ, ◌+◌, ◌-◌, ◌%◌, ◌^◌, List, [], ◌∷◌, ◌++◌, Option, none, some, Bool, true, false, not, ltb, ◌==◌,
  if◌then◌else◌, length, find, retain,
}
use cross_scp.Base.Result.{Result, ok, err}
use cross_scp.Base.Text.{Text}

pub data TransferDirection : Type 0 where
  upload download local_copy : TransferDirection

pub data OverwriteMode : Type 0 where
  ask always never if_newer resume : OverwriteMode

pub record TransferOptions : Type 0 where
  pub overwrite_mode : OverwriteMode
  pub preserve_timestamps : Bool
  pub preserve_permissions : Bool
  pub create_missing_directories : Bool

abbrev pub default_options : TransferOptions
default_options = record {
  overwrite_mode = ask;
  preserve_timestamps = true;
  preserve_permissions = false;
  create_missing_directories = true;
}

pub record TransferFileMetadata : Type 0 where
  pub size : ℕ
  pub modified : Option ℕ

pub data OverwriteDecision : Type 0 where
  copy_from_start : OverwriteDecision
  resume_from : ℕ → OverwriteDecision
  skip prompt unsupported : OverwriteDecision

decide_if_newer : Option ℕ → Option ℕ → OverwriteDecision
decide_if_newer (some s) (some d) = if ltb d s then copy_from_start else skip
decide_if_newer (some s) none = unsupported
decide_if_newer none d = unsupported

decide_resume : ℕ → ℕ → OverwriteDecision
decide_resume source_size destination_size =
    if ltb destination_size source_size
    then resume_from destination_size
    else if destination_size == source_size
    then skip
    else unsupported

unfoldable pub decide_overwrite :
    OverwriteMode → TransferFileMetadata → Option TransferFileMetadata → OverwriteDecision
unfolding decide_if_newer decide_resume
decide_overwrite mode source none = copy_from_start
decide_overwrite ask source (some destination) = prompt
decide_overwrite always source (some destination) = copy_from_start
decide_overwrite never source (some destination) = skip
decide_overwrite if_newer source (some destination) =
    decide_if_newer source.modified destination.modified
decide_overwrite resume source (some destination) = decide_resume source.size destination.size

pub data TransferState : Type 0 where
  queued running paused completed : TransferState
  failed : Text → TransferState
  cancelled : TransferState

pub record TransferJob : Type 0 where
  pub id : ℕ
  pub direction : TransferDirection
  pub source : Text
  pub destination : Text
  pub options : TransferOptions
  pub state : TransferState

pub record TransferProgress : Type 0 where
  pub job_id : ℕ
  pub bytes_done : ℕ
  pub bytes_total : Option ℕ
  pub current_file : Option Text

pub record TransferQueue : Type 0 where
  pub next_id : ℕ
  pub jobs : List TransferJob

pub data TransferQueueError : Type 0 where
  unknown_job : ℕ → TransferQueueError

abbrev pub new : TransferQueue
new = record { next_id = 1; jobs = [] }

abbrev pub new_job : ℕ → TransferDirection → Text → Text → TransferOptions → TransferJob
new_job id direction source destination options = record {
  id = id;
  direction = direction;
  source = source;
  destination = destination;
  options = options;
  state = queued;
}

unfoldable pub enqueue :
    TransferQueue → TransferDirection → Text → Text → TransferOptions → TransferQueue × ℕ
enqueue q direction source destination options =
    let id = q.next_id in
    (
      record {
        next_id = (q.next_id + 1) % 2 ^ 64;
        jobs = q.jobs ++ new_job id direction source destination options ∷ [];
      },
      id,
    )

unfoldable pub len : TransferQueue → ℕ
len q = length q.jobs

abbrev pub has_id : ℕ → TransferJob → Bool
has_id id job = job.id == id

abbrev pub is_queued_state : TransferState → Bool
is_queued_state queued = true
is_queued_state _ = false

abbrev pub is_queued : TransferJob → Bool
is_queued job = is_queued_state job.state

abbrev pub is_finished_state : TransferState → Bool
is_finished_state completed = true
is_finished_state (failed message) = true
is_finished_state cancelled = true
is_finished_state _ = false

abbrev pub is_finished : TransferJob → Bool
is_finished job = is_finished_state job.state

unfoldable pub get : TransferQueue → ℕ → Option TransferJob
unfolding find
get q id = find (has_id id) q.jobs

unfoldable pub next_queued : TransferQueue → Option TransferJob
unfolding find
next_queued q = find is_queued q.jobs

-- `iter_mut().find(p)` and then `job.state = state`: the jobs behind the assignment.
unfoldable pub set_first :
    (TransferJob → Bool) → TransferState → List TransferJob → List TransferJob
set_first p state [] = []
set_first p state (job ∷ jobs) =
    if p job then record job { state = state } ∷ jobs else job ∷ set_first p state jobs

unfoldable pub start_next : TransferQueue → TransferQueue × Option ℕ
unfolding find set_first
start_next q = elim (find is_queued q.jobs) [
  | none ↦ (q, none)
  | some job ↦ (record q { jobs = set_first is_queued running q.jobs }, some job.id)
]

unfoldable pub set_state :
    TransferQueue → ℕ → TransferState → TransferQueue × Result TransferQueueError (Unit {0})
unfolding find set_first
set_state q id state = elim (find (has_id id) q.jobs) [
  | none ↦ (q, err (unknown_job id))
  | some job ↦ (record q { jobs = set_first (has_id id) state q.jobs }, ok tt)
]

unfoldable pub remove_finished : TransferQueue → TransferQueue × ℕ
unfolding retain
remove_finished q =
    let jobs = retain (λ job. not (is_finished job)) q.jobs in
    (record q { jobs = jobs }, length q.jobs - length jobs)
