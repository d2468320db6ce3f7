-- ===== src/Transfer/Jobs.antt =====
-- Lemmas on the lists of jobs: the first job with a property, one that is changed, those retained.
use cross_scp.Base.{
  ℕ, ◌≤◌, ◌<◌, List, [], ◌∷◌, ◌++◌, none, Bool, ◌≡◌, ◌≢◌, refl, inl, inr, arith, length, find,
  retain, All, Bool-cases,
}
use cross_scp.Transfer.{TransferJob, TransferState, has_id, set_first}

-- The jobs stand in the order of their numbers, and no number stands twice.
abbrev pub IsAscending : List TransferJob → Type 0
IsAscending [] = Unit
IsAscending (job ∷ jobs) = All (λ other. job.id < other.id) jobs × IsAscending jobs

abbrev pub Below : ℕ → List TransferJob → Type 0
Below n = All (λ job. job.id < n)

pub Below-mono : (n m : ℕ) (jobs : List TransferJob) → n ≤ m → Below n jobs → Below m jobs
Below-mono n m [] l _ = tt
Below-mono n m (job ∷ jobs) l (h, hs) = (omega arith, Below-mono n m jobs l hs)

-- A job behind all others.
pub IsAscending-append :
    (jobs : List TransferJob) (job : TransferJob)
    → Below job.id jobs
    → IsAscending jobs
    → IsAscending (jobs ++ job ∷ [])
IsAscending-append [] job _ _ = (tt, tt)
IsAscending-append (x ∷ jobs) job (l, b) (h, a) = (All-snoc jobs h, IsAscending-append jobs job b a)
  where
    All-snoc :
        (js : List TransferJob)
        → All (λ other. x.id < other.id) js
        → All (λ other. x.id < other.id) (js ++ job ∷ [])
    All-snoc [] _ = (l, tt)
    All-snoc (j ∷ js) (g, gs) = (g, All-snoc js gs)

pub Below-append :
    (n : ℕ) (jobs : List TransferJob) (job : TransferJob)
    → Below n jobs
    → job.id < n
    → Below n (jobs ++ job ∷ [])
Below-append n [] job _ l = (l, tt)
Below-append n (x ∷ jobs) job (h, b) l = (h, Below-append n jobs job b l)

module _ (p : TransferJob → Bool) (state : TransferState) where
  -- A bound on the numbers does not read the states.
  All-set_first :
      (P : ℕ → Type 0) (jobs : List TransferJob)
      → All (λ job. P job.id) jobs
      → All (λ job. P job.id) (set_first p state jobs)
  unfolding set_first
  All-set_first P [] _ = tt
  All-set_first P (job ∷ jobs) (h, hs) = elim (Bool-cases (p job)) [
    | inl e ↦ rw e (h, hs)
    | inr e ↦ rw e (h, All-set_first P jobs hs)
  ]

  pub Below-set_first :
      (n : ℕ) (jobs : List TransferJob) → Below n jobs → Below n (set_first p state jobs)
  Below-set_first n jobs h = All-set_first (λ i. i < n) jobs h

  pub IsAscending-set_first :
      (jobs : List TransferJob) → IsAscending jobs → IsAscending (set_first p state jobs)
  unfolding set_first
  IsAscending-set_first [] _ = tt
  IsAscending-set_first (job ∷ jobs) (h, a) = elim (Bool-cases (p job)) [
    | inl e ↦ rw e (h, a)
    | inr e ↦ rw e (All-set_first (λ i. job.id < i) jobs h, IsAscending-set_first jobs a)
  ]

  pub length-set_first : (jobs : List TransferJob) → length (set_first p state jobs) ≡ length jobs
  unfolding set_first
  length-set_first [] = refl
  length-set_first (job ∷ jobs) = ground (arith, length-set_first jobs)

module _ (p : TransferJob → Bool) where
  pub All-retain {κ} :
      (P : TransferJob → Type κ) (jobs : List TransferJob) → All P jobs → All P (retain p jobs)
  unfolding retain
  All-retain P [] _ = tt
  All-retain P (job ∷ jobs) (h, hs) = elim (Bool-cases (p job)) [
    | inl e ↦ rw e (h, All-retain P jobs hs)
    | inr e ↦ rw e (All-retain P jobs hs)
  ]

  pub IsAscending-retain :
      (jobs : List TransferJob) → IsAscending jobs → IsAscending (retain p jobs)
  unfolding retain
  IsAscending-retain [] _ = tt
  IsAscending-retain (job ∷ jobs) (h, a) = elim (Bool-cases (p job)) [
    | inl e ↦ rw e (All-retain (λ other. job.id < other.id) jobs h, IsAscending-retain jobs a)
    | inr e ↦ rw e (IsAscending-retain jobs a)
  ]

-- A number below all of the jobs, or that none of them has, is not found.
pub find-has_id-none :
    (id : ℕ) (jobs : List TransferJob)
    → All (λ job. job.id ≢ id) jobs
    → find (has_id id) jobs ≡ none
unfolding find
find-has_id-none id [] _ = refl
find-has_id-none id (job ∷ jobs) (h, hs) = ground (arith, find-has_id-none id jobs hs)

pub All-ne_of_lt :
    (id : ℕ) (jobs : List TransferJob)
    → All (λ job. id < job.id) jobs
    → All (λ job. job.id ≢ id) jobs
All-ne_of_lt id [] _ = tt
All-ne_of_lt id (job ∷ jobs) (h, hs) = (omega arith, All-ne_of_lt id jobs hs)

pub All-ne_of_Below :
    (id : ℕ) (jobs : List TransferJob) → Below id jobs → All (λ job. job.id ≢ id) jobs
All-ne_of_Below id [] _ = tt
All-ne_of_Below id (job ∷ jobs) (h, hs) = (omega arith, All-ne_of_Below id jobs hs)
