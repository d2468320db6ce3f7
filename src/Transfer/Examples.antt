-- ===== src/Transfer/Examples.antt =====
-- Runs of the queue, those of the crate's tests among them, and the theorems at concrete data.
use cross_scp.Base.{
  List, ◌+◌, [], ◌∷◌, ◌++◌, none, some, ◌≡◌, ◌↔◌, ◌⊎◌, refl, arith, ◌==◌, if◌then◌else◌, take,
}
use cross_scp.Base.Result.{ok, err}
use cross_scp.Base.Text.{codes}
use cross_scp.Transfer.{
  upload, download, default_options, OverwriteMode, if_newer, always, TransferFileMetadata,
  copy_from_start, decide_overwrite, running, completed, cancelled, TransferJob, TransferQueue, new,
  new_job, enqueue, len, get, start_next, set_state, remove_finished, unknown_job,
}
use cross_scp.Transfer.Overwrite.{IsNewer, decide_overwrite-copy_iff}
use cross_scp.Transfer.Valid.{IsValid, Reach, created, next, enqueued, started, Reach-IsValid}
use cross_scp.Transfer.Lookup.{with_state, unless_ended, get-set_state, get-remove_finished}
use cross_scp.Transfer.Fifo.{
  queued_ids, queued_ids-enqueue, start_many, Request, enqueue_many, start_many-enqueue_many,
}

abbrev one_job : TransferQueue
one_job = record {
  next_id = 2;
  jobs = new_job 1 upload (codes "a") (codes "b") default_options ∷ [];
}

one_job-enqueue : (enqueue new upload (codes "a") (codes "b") default_options).0 ≡ one_job
unfolding enqueue
one_job-enqueue = refl

abbrev two_jobs : TransferQueue
two_jobs = record {
  next_id = 3;
  jobs =
      new_job 1 upload (codes "a") (codes "b") default_options
      ∷ new_job 2 download (codes "c") (codes "d") default_options
      ∷ [];
}

two_jobs-IsValid : IsValid two_jobs
two_jobs-IsValid = record { ascending = omega arith; below = omega arith }

two_jobs-enqueue : enqueue one_job download (codes "c") (codes "d") default_options ≡ (two_jobs, 2)
unfolding enqueue
two_jobs-enqueue = refl

first_is_started : (start_next two_jobs).1 ≡ some 1
unfolding start_next
first_is_started = refl

finished_goes : (remove_finished (set_state two_jobs 1 completed).0).1 ≡ 1
unfolding remove_finished set_state
finished_goes = refl

unknown_fails : (set_state two_jobs 42 cancelled).1 ≡ err (unknown_job 42)
unfolding set_state
unknown_fails = refl

abbrev old : TransferFileMetadata
old = record { size = 4; modified = some 1 }

abbrev newer : TransferFileMetadata
newer = record { size = 10; modified = some 2 }

newer_is_copied : decide_overwrite if_newer newer (some old) ≡ copy_from_start
unfolding decide_overwrite
newer_is_copied = refl

decide_overwrite-copy_iff_example :
    (decide_overwrite if_newer newer (some old) ≡ copy_from_start) ↔ (
      ◌≡◌ {A = OverwriteMode} if_newer always
      ⊎ (◌≡◌ {A = OverwriteMode} if_newer if_newer × IsNewer newer old))
decide_overwrite-copy_iff_example = decide_overwrite-copy_iff if_newer newer old

two_jobs-Reach : Reach two_jobs
unfolding enqueue
two_jobs-Reach =
    next (next created (enqueued upload (codes "a") (codes "b") default_options (omega arith)))
      (enqueued download (codes "c") (codes "d") default_options (omega arith))

Reach-IsValid_example : IsValid (start_next two_jobs).0
Reach-IsValid_example = Reach-IsValid (next two_jobs-Reach started)

get-set_state_example :
    ((get two_jobs 2 ≡ none) × (set_state two_jobs 2 running ≡ (two_jobs, err (unknown_job 2))))
    ⊎ ((job : TransferJob) × (get two_jobs 2 ≡ some job)
        × ((set_state two_jobs 2 running).1 ≡ ok tt)
        × (get (set_state two_jobs 2 running).0 1
            ≡ (if 2 == 1 then some (with_state running job) else get two_jobs 1)))
get-set_state_example = get-set_state two_jobs 2 1 running

get-remove_finished_example :
    (get (remove_finished two_jobs).0 1 ≡ unless_ended (get two_jobs 1))
    × (len (remove_finished two_jobs).0 + (remove_finished two_jobs).1 ≡ len two_jobs)
get-remove_finished_example = get-remove_finished two_jobs 1 two_jobs-IsValid

queued_ids-enqueue_example :
    let r = enqueue two_jobs upload (codes "e") (codes "f") default_options in
    queued_ids r.0 ≡ queued_ids two_jobs ++ r.1 ∷ []
queued_ids-enqueue_example =
    queued_ids-enqueue two_jobs upload (codes "e") (codes "f") default_options

abbrev requests : List Request
requests =
    (record {
      direction = upload;
      source = codes "e";
      destination = codes "f";
      options = default_options;
    })
    ∷ (record {
      direction = download;
      source = codes "g";
      destination = codes "h";
      options = default_options;
    })
    ∷ []

start_many-enqueue_many_example :
    start_many 3 (enqueue_many requests two_jobs).0
    ≡ take 3 (queued_ids two_jobs ++ (enqueue_many requests two_jobs).1)
start_many-enqueue_many_example = start_many-enqueue_many 3 requests two_jobs
