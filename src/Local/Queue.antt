-- ===== src/Local/Queue.antt =====
-- `execute_next_local_copy_with_prompt`: a queued job is started, executed, and its end is noted in
-- the queue.
use cross_scp.Base.{
  ℕ, ◌≡◌, ◌⊎◌, inl, inr, refl, sym, ◌∙◌, arith, Option, none, some, Bool, true, false, ◌==◌,
  if◌then◌else◌, some_eq,
}
use mathlib.Core.Path.{subst}
use cross_scp.Base.Result.{Result, ok, err}
use cross_scp.Prompts.{PromptBroker}
use cross_scp.Transfer.{
  TransferState, running, completed, failed, TransferJob, TransferProgress, TransferQueue,
  TransferQueueError, unknown_job, start_next, set_state, next_queued,
}
use cross_scp.Transfer
use cross_scp.Transfer.Valid.{IsValid}
use cross_scp.Transfer.Lookup.{with_state, get-start_next, get-set_state}
use cross_scp.Local.{LocalFsError, error_message, LocalFileSystem, Files, execute_local_copy_job}

pub data LocalTransferQueueError : Type 0 where
  of_copy : LocalFsError → LocalTransferQueueError
  of_queue : TransferQueueError → LocalTransferQueueError

-- The queue, the files and the result behind a call.
abbrev pub Outcome : Type 0 → Type 0
Outcome D = record {
  queue : TransferQueue;
  disk : D;
  result : Result LocalTransferQueueError (Option TransferProgress);
}

-- `queue.set_state(...)?` before the result is returned.
abbrev pub after_set :
    {D : Type 0}
    → TransferQueue × Result TransferQueueError (Unit {0})
    → D
    → Result LocalTransferQueueError (Option TransferProgress)
    → Outcome D
after_set (queue, err e) disk result = record {
  queue = queue;
  disk = disk;
  result = err (of_queue e);
}
after_set (queue, ok _) disk result = record { queue = queue; disk = disk; result = result }

-- The state in which an executed job ends, and what the caller is told.
unfoldable pub end_state : Result LocalFsError TransferProgress → TransferState
unfolding error_message
end_state (ok progress) = completed
end_state (err error) = failed (error_message error)

unfoldable pub told :
    Result LocalFsError TransferProgress → Result LocalTransferQueueError (Option TransferProgress)
told (ok progress) = ok (some progress)
told (err error) = err (of_copy error)

-- How a job ends, what the caller is told of it, and in which state the job is then: it is completed and
-- the caller has the progress, or it has failed with the text of the error that the caller has.
abbrev pub Ends :
    Result LocalFsError TransferProgress
    → Result LocalTransferQueueError (Option TransferProgress)
    → TransferState
    → Type 0
Ends copied result state =
    ((progress : TransferProgress) × (copied ≡ ok progress)
      × (result ≡ ok (some progress))
      × (state ≡ completed))
    ⊎ ((error : LocalFsError) × (copied ≡ err error)
        × (result ≡ err (of_copy error))
        × (state ≡ failed (error_message error)))

told-Ends :
    (copied : Result LocalFsError TransferProgress) → Ends copied (told copied) (end_state copied)
unfolding told end_state
told-Ends (ok progress) = inl (progress, refl, refl, refl)
told-Ends (err error) = inr (error, refl, refl, refl)

module _ {D : Type 0} (files : Files D) (fs : LocalFileSystem) (broker : Option PromptBroker) where
  abbrev pub execute_started : TransferQueue → D → Option ℕ → Outcome D
  execute_started queue disk none = record { queue = queue; disk = disk; result = ok none }
  execute_started queue disk (some id) = elim (Transfer.get queue id) [
    | none ↦ record { queue = queue; disk = disk; result = err (of_queue (unknown_job id)) }
    | some job ↦
        let (after, copied) = execute_local_copy_job files fs job broker disk in
        after_set (set_state queue id (end_state copied)) after (told copied)
  ]

  unfoldable pub execute_next_local_copy : TransferQueue → D → Outcome D
  unfolding Transfer.get start_next set_state end_state told execute_local_copy_job
  execute_next_local_copy queue disk =
      execute_started (start_next queue).0 disk (start_next queue).1

  below :
      {A : Type 0} (b : Bool) (x y z w : A)
      → z ≡ (if b then w else y)
      → (if b then x else z) ≡ (if b then x else y)
  below true x y z w h = refl
  below false x y z w h = h

  after_set-ok :
      (r : TransferQueue × Result TransferQueueError (Unit {0})) (disk : D)
      (result : Result LocalTransferQueueError (Option TransferProgress))
      → r.1 ≡ ok tt
      → after_set r disk result ≡ record { queue = r.0; disk = disk; result = result }
  after_set-ok (queue, err e) disk result h = cc
  after_set-ok (queue, ok tt) disk result h = refl

  -- The lookups behind the start of a job both find it.
  started-get :
      (queue : TransferQueue) (job : TransferJob)
      → IsValid queue
      → next_queued queue ≡ some job
      → Transfer.get (start_next queue).0 job.id ≡ some (with_state running job)
  started-get queue job v e = elim (get-start_next queue job.id v) [
    | inl (none_waits, _) ↦ cc
    | inr (other, f, _, g) ↦
        let same : other ≡ job = some_eq (sym f ∙ e) in (rw same at g) ∙ if_same job
  ]
    where
      if_same :
          (x : TransferJob)
          → (if x.id == x.id then some (with_state running x) else Transfer.get queue x.id)
            ≡ some (with_state running x)
      if_same x = ground arith

  execute_started-set :
      (queue : TransferQueue) (disk : D) (id j : ℕ) (job : TransferJob)
      → Transfer.get queue id ≡ some job
      → (let run = execute_local_copy_job files fs job broker disk in
          let end = execute_started queue disk (some id) in
          (end.disk ≡ run.0)
          × (end.result ≡ told run.1)
          × (Transfer.get end.queue j ≡ (
              if id == j then some (with_state (end_state run.1) job) else Transfer.get queue j)))
  execute_started-set queue disk id j job e =
      let run = execute_local_copy_job files fs job broker disk in
      elim (get-set_state queue id j (end_state run.1)) [
        | inl (missing, _) ↦ cc
        | inr (found, f, done, g) ↦
            let same : found ≡ job = some_eq (sym f ∙ e) in
            let end = after_set-ok (set_state queue id (end_state run.1)) run.0 (told run.1) done in
            rw (e, execute_started, end) (refl, refl, rw same at g)
      ]

  -- A valid queue in which nothing waits is left as it is, and nothing is executed. Otherwise the
  -- first waiting job is executed as a running one and ends as completed, or as failed with the text
  -- of the error that the caller is told; every other job stays, and no error of the queue arises.
  pub get-execute_next :
      (queue : TransferQueue) (disk : D) (j : ℕ)
      → IsValid queue
      → (let end = execute_next_local_copy queue disk in
          ((next_queued queue ≡ none)
            × (end.queue ≡ queue)
            × (end.disk ≡ disk)
            × (end.result ≡ ok none))
          ⊎ ((job : TransferJob) × (next_queued queue ≡ some job)
              × (let run = execute_local_copy_job files fs (with_state running job) broker disk in
                  (end.disk ≡ run.0)
                  × ((state : TransferState) × Ends run.1 end.result state
                      × (Transfer.get end.queue j ≡ (
                          if job.id == j
                          then some (with_state state job)
                          else Transfer.get queue j))))))
  unfolding execute_next_local_copy
  get-execute_next queue disk j v = elim (get-start_next queue j v) [
    | inl (e, idle) ↦ inl (
      e,
      rw (idle, execute_next_local_copy) refl,
      rw (idle, execute_next_local_copy) refl,
      rw (idle, execute_next_local_copy) refl,
    )
    | inr (job, e, started, g) ↦
        let (a, b, c) =
          execute_started-set (start_next queue).0 disk job.id j (with_state running job)
            (started-get queue job v e) in
        let run = execute_local_copy_job files fs (with_state running job) broker disk in
        inr (
          job,
          e,
          rw (started, execute_next_local_copy)
              (
                a,
                (
                  end_state run.1,
                  subst (λ r. Ends run.1 r (end_state run.1)) (sym b) (told-Ends run.1),
                  c ∙ below (job.id == j) _ _ _ _ g,
                ),
              ),
        )
  ]
