-- ===== src/Transfer/Valid.antt =====
-- The invariant of the queue: numbers ascend in the order of the jobs, below the next number.
use cross_scp.Base.{ℕ, ◌+◌, ◌^◌, ◌%◌, inl, inr, ◌<◌, not, ◌≡◌, arith, find, Option-cases}
use cross_scp.Base.Text.{Text}
use cross_scp.Transfer.{
  TransferDirection, TransferOptions, TransferState, running, TransferQueue, new, enqueue, has_id,
  is_queued, is_finished, start_next, set_state, remove_finished,
}
use cross_scp.Transfer.Jobs.{
  IsAscending, Below, Below-mono, IsAscending-append, Below-append, Below-set_first,
  IsAscending-set_first, All-retain, IsAscending-retain,
}

pub record IsValid (q : TransferQueue) : Type 0 where
  pub ascending : IsAscending q.jobs
  pub below : Below q.next_id q.jobs

-- A new job gets the next number. The counter must not wrap around.
pub enqueue-IsValid :
    (q : TransferQueue) (d : TransferDirection) (source destination : Text) (o : TransferOptions)
    → q.next_id + 1 < 2 ^ 64
    → IsValid q
    → IsValid (enqueue q d source destination o).0
unfolding enqueue
enqueue-IsValid q d source destination o room v =
    let e : (q.next_id + 1) % 2 ^ 64 ≡ q.next_id + 1 = omega arith in
    record {
      ascending = IsAscending-append q.jobs _ v.below v.ascending;
      below = rw e (
          Below-append (q.next_id + 1) q.jobs _
            (Below-mono q.next_id _ q.jobs (omega arith) v.below) (omega arith));
    }

pub start_next-IsValid : (q : TransferQueue) → IsValid q → IsValid (start_next q).0
unfolding start_next
start_next-IsValid q v = elim (Option-cases (find is_queued q.jobs)) [
  | inl e ↦ rw (e, start_next) v
  | inr (job, e) ↦
      rw (e, start_next)
        (record {
          ascending = IsAscending-set_first is_queued running q.jobs v.ascending;
          below = Below-set_first is_queued running q.next_id q.jobs v.below;
        })
]

pub set_state-IsValid :
    (q : TransferQueue) (id : ℕ) (s : TransferState) → IsValid q → IsValid (set_state q id s).0
unfolding set_state
set_state-IsValid q id s v = elim (Option-cases (find (has_id id) q.jobs)) [
  | inl e ↦ rw (e, set_state) v
  | inr (job, e) ↦
      rw (e, set_state)
        (record {
          ascending = IsAscending-set_first (has_id id) s q.jobs v.ascending;
          below = Below-set_first (has_id id) s q.next_id q.jobs v.below;
        })
]

pub remove_finished-IsValid : (q : TransferQueue) → IsValid q → IsValid (remove_finished q).0
unfolding remove_finished
remove_finished-IsValid q v = record {
  ascending = IsAscending-retain (λ job. not (is_finished job)) q.jobs v.ascending;
  below = All-retain (λ job. not (is_finished job)) (λ job. job.id < q.next_id) q.jobs v.below;
}

-- One call of a method that changes the queue.
pub data Step (q : TransferQueue) : TransferQueue → Type 0 where
  enqueued :
      (d : TransferDirection) (source destination : Text) (o : TransferOptions)
      → q.next_id + 1 < 2 ^ 64
      → Step q (enqueue q d source destination o).0
  started : Step q (start_next q).0
  changed : (id : ℕ) (s : TransferState) → Step q (set_state q id s).0
  removed : Step q (remove_finished q).0

pub data Reach : TransferQueue → Type 0 where
  created : Reach new
  next : {q r : TransferQueue} → Reach q → Step q r → Reach r

Step-IsValid : {q r : TransferQueue} → Step q r → IsValid q → IsValid r
Step-IsValid {q} (enqueued d source destination o room) v =
    enqueue-IsValid q d source destination o room v
Step-IsValid {q} started v = start_next-IsValid q v
Step-IsValid {q} (changed id s) v = set_state-IsValid q id s v
Step-IsValid {q} removed v = remove_finished-IsValid q v

-- Whatever methods have been called, the numbers of the jobs ascend below the next number, as long
-- as the counter has not wrapped around.
pub Reach-IsValid : {q : TransferQueue} → Reach q → IsValid q
Reach-IsValid created = record { ascending = tt; below = tt }
Reach-IsValid (next r s) = Step-IsValid s (Reach-IsValid r)
