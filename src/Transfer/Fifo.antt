-- ===== src/Transfer/Fifo.antt =====
-- The abstract view of the queue: the numbers of the jobs that wait, first in first out.
use mathlib.Core.List.{head?, tail, append-nil}
use mathlib.Core.Option
use cross_scp.Base.{
  zero, suc, take, ℕ, sym, ap, ◌∙◌, append_assoc, Bool, false, List, [], ◌∷◌, ◌++◌, none, some,
  true, not, ◌≡◌, refl, arith, inl, inr, if◌then◌else◌, find, retain, Option-cases, Bool-cases,
}
use cross_scp.Base.Text.{Text}
use cross_scp.Transfer.{
  TransferDirection, TransferOptions, TransferState, queued, running, paused, completed, failed,
  cancelled, is_finished_state, TransferJob, TransferQueue, enqueue, is_queued, is_finished,
  set_first, start_next, remove_finished,
}

abbrev waits : TransferState → Bool
waits queued = true
waits running = false
waits paused = false
waits completed = false
waits (failed message) = false
waits cancelled = false

abbrev waiting : List TransferJob → List ℕ
waiting [] = []
waiting (job ∷ jobs) = if waits job.state then job.id ∷ waiting jobs else waiting jobs

finished_waits_not : (state : TransferState) → is_finished_state state ≡ true → waits state ≡ false
finished_waits_not queued h = cc
finished_waits_not running h = cc
finished_waits_not paused h = cc
finished_waits_not completed h = refl
finished_waits_not (failed message) h = refl
finished_waits_not cancelled h = refl

abbrev pub queued_ids : TransferQueue → List ℕ
queued_ids q = waiting q.jobs

tail_of_none : (ids : List ℕ) → none ≡ head? ids → ids ≡ tail ids
tail_of_none [] h = refl
tail_of_none (id ∷ ids) h = cc

waiting-append :
    (jobs : List TransferJob) (job : TransferJob)
    → waits job.state ≡ true
    → waiting (jobs ++ job ∷ []) ≡ waiting jobs ++ job.id ∷ []
waiting-append [] job h = rw h
waiting-append (x ∷ jobs) job h = ground (arith, waiting-append jobs job h)

waiting-start :
    (jobs : List TransferJob)
    → (Option.map (λ (job : TransferJob). job.id) (find is_queued jobs) ≡ head? (waiting jobs))
      × (waiting (set_first is_queued running jobs) ≡ tail (waiting jobs))
unfolding find set_first
waiting-start [] = (refl, refl)
waiting-start (x ∷ jobs) =
    let (h, t) = waiting-start jobs in
    elim (Bool-cases (is_queued x)) [ inl e ↦ (rw e, rw e) | inr e ↦ (rw e h, rw (e, e) t) ]

waiting-retain :
    (jobs : List TransferJob) → waiting (retain (λ job. not (is_finished job)) jobs) ≡ waiting jobs
unfolding retain
waiting-retain [] = refl
waiting-retain (x ∷ jobs) = elim (Bool-cases (is_finished x)) [
  | inl e ↦ rw (e, finished_waits_not x.state e) (waiting-retain jobs)
  | inr e ↦ rw (e, waiting-retain jobs) refl
]

-- A new job waits behind all others.
pub queued_ids-enqueue :
    (q : TransferQueue) (d : TransferDirection) (source destination : Text) (o : TransferOptions)
    → let r = enqueue q d source destination o in queued_ids r.0 ≡ queued_ids q ++ r.1 ∷ []
unfolding enqueue
queued_ids-enqueue q d source destination o = waiting-append q.jobs _ refl

-- `start_next` returns the number that has waited longest, if there is one, and takes it off.
queued_ids-start_next :
    (q : TransferQueue)
    → ((start_next q).1 ≡ head? (queued_ids q))
      × (queued_ids (start_next q).0 ≡ tail (queued_ids q))
unfolding start_next
queued_ids-start_next q =
    let (h, t) = waiting-start q.jobs in
    elim (Option-cases (find is_queued q.jobs)) [
      | inl e ↦ (rw (e, start_next) (rw e at h), rw (e, start_next) (tail_of_none _ (rw e at h)))
      | inr (job, e) ↦ (rw (e, start_next) (rw e at h), rw (e, start_next) t)
    ]

-- Finished jobs do not wait.
pub queued_ids-remove_finished :
    (q : TransferQueue) → queued_ids (remove_finished q).0 ≡ queued_ids q
unfolding remove_finished
queued_ids-remove_finished q = waiting-retain q.jobs

-- The numbers that `n` calls of `start_next` return.
pub start_many : ℕ → TransferQueue → List ℕ
start_many zero q = []
start_many (suc n) q = elim (start_next q).1 [
  | none ↦ []
  | some id ↦ id ∷ start_many n (start_next q).0
]

take_cons :
    (n : ℕ) (ids : List ℕ) (id : ℕ)
    → some id ≡ head? ids
    → id ∷ take n (tail ids) ≡ take (suc n) ids
take_cons n [] id h = cc
take_cons n (x ∷ ids) id h = cc

take-none : (n : ℕ) (ids : List ℕ) → none ≡ head? ids → [] ≡ take (suc n) ids
take-none n [] h = refl
take-none n (x ∷ ids) h = cc

-- As many calls of `start_next` answer with the numbers that have waited longest.
start_many-eq-take : (n : ℕ) (q : TransferQueue) → start_many n q ≡ take n (queued_ids q)
unfolding start_many
start_many-eq-take zero q = refl
start_many-eq-take (suc n) q =
    let (h, t) = queued_ids-start_next q in
    let ih = start_many-eq-take n (start_next q).0 in
    elim (Option-cases (start_next q).1) [
      | inl e ↦ rw (e, start_many) (take-none n (queued_ids q) (rw e at h))
      | inr (id, e) ↦ rw (e, start_many, ih, t) (take_cons n (queued_ids q) id (rw e at h))
    ]

pub record Request : Type 0 where
  pub direction : TransferDirection
  pub source : Text
  pub destination : Text
  pub options : TransferOptions

-- Calls of `enqueue` in a row: the queue behind them, and the numbers that they return in this order.
pub enqueue_many : List Request → TransferQueue → TransferQueue × List ℕ
enqueue_many [] q = (q, [])
enqueue_many (r ∷ requests) q =
    let added = enqueue q r.direction r.source r.destination r.options in
    let rest = enqueue_many requests added.0 in (rest.0, added.1 ∷ rest.1)

queued_ids-enqueue_many :
    (requests : List Request) (q : TransferQueue)
    → queued_ids (enqueue_many requests q).0 ≡ queued_ids q ++ (enqueue_many requests q).1
unfolding enqueue_many
queued_ids-enqueue_many [] q = sym (append-nil (queued_ids q))
queued_ids-enqueue_many (r ∷ requests) q =
    let added = enqueue q r.direction r.source r.destination r.options in
    queued_ids-enqueue_many requests added.0
    ∙ ap (λ ids. ids ++ (enqueue_many requests added.0).1)
        (queued_ids-enqueue q r.direction r.source r.destination r.options)
    ∙ append_assoc (queued_ids q) (added.1 ∷ []) (enqueue_many requests added.0).1

-- Behind calls of `enqueue` in a row, calls of `start_next` in a row answer first with the numbers of
-- the jobs that are queued already, in the order of the queue, and then with the numbers that the calls
-- of `enqueue` returned, in the order of these calls.
pub start_many-enqueue_many :
    (n : ℕ) (requests : List Request) (q : TransferQueue)
    → start_many n (enqueue_many requests q).0
      ≡ take n (queued_ids q ++ (enqueue_many requests q).1)
start_many-enqueue_many n requests q =
    start_many-eq-take n (enqueue_many requests q).0
    ∙ ap (take n) (queued_ids-enqueue_many requests q)
