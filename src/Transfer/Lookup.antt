-- ===== src/Transfer/Lookup.antt =====
-- What `get` returns after each method, for every number.
use mathlib.Core.Option
use cross_scp.Base.{
  ℕ, ◌+◌, ◌≤◌, ◌<◌, List, [], ◌∷◌, ◌++◌, Option, none, some, Bool, true, false, not, ◌≡◌, ◌≢◌, refl,
  arith, ◌==◌, if◌then◌else◌, length, find, retain, All, ◌⊎◌, inl, inr, Option-cases, Bool-cases,
  some_eq,
}
use cross_scp.Base.Result.{ok, err}
use cross_scp.Base.Text.{Text}
use cross_scp.Transfer.{
  TransferDirection, TransferOptions, TransferState, queued, running, paused, completed, failed,
  cancelled, is_finished_state, TransferJob, TransferQueue, new_job, enqueue, has_id, is_queued,
  is_finished, get, next_queued, set_first, start_next, set_state, remove_finished, unknown_job,
  len,
}
use cross_scp.Transfer.Jobs.{IsAscending, find-has_id-none, All-ne_of_lt, All-ne_of_Below}
use cross_scp.Transfer.Valid.{IsValid}

abbrev pub with_state : TransferState → TransferJob → TransferJob
with_state s job = record job { state = s }

length-retain :
    (p : TransferJob → Bool) (jobs : List TransferJob) → length (retain p jobs) ≤ length jobs
unfolding retain
length-retain p [] = omega arith
length-retain p (job ∷ jobs) = ground (arith, length-retain p jobs)

find-append :
    (j : ℕ) (jobs : List TransferJob) (job : TransferJob)
    → All (λ other. other.id ≢ job.id) jobs
    → find (has_id j) (jobs ++ job ∷ []) ≡ (if job.id == j then some job else find (has_id j) jobs)
unfolding find
find-append j [] job _ = refl
find-append j (x ∷ jobs) job (h, hs) = ground (arith, find-append j jobs job hs)

-- After `enqueue` the new number leads to the new job, and all other numbers to what they did.
get-enqueue :
    (q : TransferQueue) (d : TransferDirection) (source destination : Text) (o : TransferOptions)
    (j : ℕ)
    → IsValid q
    → get (enqueue q d source destination o).0 j ≡ (
        if (enqueue q d source destination o).1 == j
        then some (new_job q.next_id d source destination o)
        else get q j)
unfolding get enqueue
get-enqueue q d source destination o j v =
    find-append j q.jobs _ (All-ne_of_Below q.next_id q.jobs v.below)

find-set_first :
    (i j : ℕ) (s : TransferState) (jobs : List TransferJob)
    → find (has_id j) (set_first (has_id i) s jobs)
      ≡ (if i == j then Option.map (with_state s) (find (has_id i) jobs) else find (has_id j) jobs)
unfolding find set_first
find-set_first i j s [] = ground arith
find-set_first i j s (job ∷ jobs) = ground (arith, find-set_first i j s jobs)

-- `set_state` fails exactly for a number that no job has, and changes nothing then. Otherwise the job
-- of the number has the new state, and no other job has changed.
pub get-set_state :
    (q : TransferQueue) (i j : ℕ) (s : TransferState)
    → ((get q i ≡ none) × (set_state q i s ≡ (q, err (unknown_job i))))
      ⊎ ((job : TransferJob) × (get q i ≡ some job)
          × ((set_state q i s).1 ≡ ok tt)
          × (get (set_state q i s).0 j ≡ (if i == j then some (with_state s job) else get q j)))
unfolding get set_state
get-set_state q i j s = elim (Option-cases (find (has_id i) q.jobs)) [
  | inl e ↦ inl (e, rw (e, set_state))
  | inr (job, e) ↦
      inr (job, e, rw (e, set_state), rw (e, set_state) (rw e at (find-set_first i j s q.jobs)))
]

find-All {κ} :
    (P : TransferJob → Type κ) (p : TransferJob → Bool) (jobs : List TransferJob)
    {job : TransferJob}
    → All P jobs
    → find p jobs ≡ some job
    → P job × (p job ≡ true)
unfolding find
find-All P p [] _ e = cc
find-All P p (x ∷ jobs) {job} (h, hs) e = elim (Bool-cases (p x)) [
  | inl t ↦ let k : x ≡ job = some_eq (rw t at e) in rw (← k) (h, t)
  | inr f ↦ find-All P p jobs hs (rw f at e)
]

find-start :
    (j : ℕ) (jobs : List TransferJob) (job : TransferJob)
    → IsAscending jobs
    → find is_queued jobs ≡ some job
    → find (has_id j) (set_first is_queued running jobs)
      ≡ (if job.id == j then some (with_state running job) else find (has_id j) jobs)
unfolding find set_first
find-start j [] job a e = cc
find-start j (x ∷ jobs) job (h, a) e = elim (Bool-cases (is_queued x)) [
  | inl t ↦ let k : x ≡ job = some_eq (rw t at e) in rw (← k, t) (ground arith)
  | inr f ↦
      let e' : find is_queued jobs ≡ some job = rw f at e in
      let l = (find-All (λ other. x.id < other.id) is_queued jobs h e').0 in
      rw f (ground (arith, find-start j jobs job a e'))
]

-- `start_next` returns the job that `next_queued` shows. That job runs, and no other has changed.
-- Where there is none, the queue is left as it is.
pub get-start_next :
    (q : TransferQueue) (j : ℕ)
    → IsValid q
    → ((next_queued q ≡ none) × (start_next q ≡ (q, none)))
      ⊎ ((job : TransferJob) × (next_queued q ≡ some job)
          × ((start_next q).1 ≡ some job.id)
          × (get (start_next q).0 j
              ≡ (if job.id == j then some (with_state running job) else get q j)))
unfolding get start_next next_queued
get-start_next q j v = elim (Option-cases (find is_queued q.jobs)) [
  | inl e ↦ inl (e, rw (e, start_next))
  | inr (job, e) ↦
      inr (job, e, rw (e, start_next), rw (e, start_next) (find-start j q.jobs job v.ascending e))
]

abbrev pub unfinished : TransferJob → Bool
unfinished job = not (is_finished job)

-- The states from which a job does not go on.
abbrev has_ended : TransferState → Bool
has_ended queued = false
has_ended running = false
has_ended paused = false
has_ended completed = true
has_ended (failed message) = true
has_ended cancelled = true

is_finished-has_ended : (job : TransferJob) → is_finished job ≡ has_ended job.state
is_finished-has_ended job = of_state job.state
  where
    of_state : (state : TransferState) → is_finished_state state ≡ has_ended state
    of_state queued = refl
    of_state running = refl
    of_state paused = refl
    of_state completed = refl
    of_state (failed message) = refl
    of_state cancelled = refl

-- The job, unless it has ended.
abbrev pub unless_ended : Option TransferJob → Option TransferJob
unless_ended none = none
unless_ended (some job) = if has_ended job.state then none else some job

find-retain :
    (j : ℕ) (jobs : List TransferJob)
    → IsAscending jobs
    → find (has_id j) (retain unfinished jobs) ≡ unless_ended (find (has_id j) jobs)
unfolding find retain
find-retain j [] _ = refl
find-retain j (x ∷ jobs) (h, a) =
    let ih = find-retain j jobs a in
    let same = is_finished-has_ended x in
    elim (Bool-cases (x.id == j)) [
      | inl e ↦
          let k : x.id ≡ j = ground arith in
          let absent : find (has_id j) jobs ≡ none =
            find-has_id-none j jobs (rw k at (All-ne_of_lt x.id jobs h)) in
          ground arith
      | inr e ↦ ground arith
    ]

-- `remove_finished` forgets the jobs that are completed, failed or cancelled and no other, and returns
-- how many they were.
pub get-remove_finished :
    (q : TransferQueue) (j : ℕ)
    → IsValid q
    → (get (remove_finished q).0 j ≡ unless_ended (get q j))
      × (len (remove_finished q).0 + (remove_finished q).1 ≡ len q)
unfolding get remove_finished len
get-remove_finished q j v =
    (find-retain j q.jobs v.ascending, omega (arith, length-retain unfinished q.jobs))
