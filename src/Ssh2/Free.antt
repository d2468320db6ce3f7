-- ===== src/Ssh2/Free.antt =====
-- A free name is found, and without the policy to replace nothing is overwritten.
use cross_scp.Base.{
  ℕ, zero, suc, ◌+◌, ◌≤◌, ◌<◌, ◌≡◌, ◌≢◌, ◌⊎◌, inl, inr, refl, sym, ap, ◌∙◌, arith, List, [], ◌∷◌,
  none, Bool, true, if◌then◌else◌, Bool-cases, length,
}
use cross_scp.Base.Result.{Result, ok, err}
use cross_scp.Base.Text.{Text, text_eq, text_eq_iff}
use cross_scp.Protocol.{
  FileConflictPolicy, replace_existing, keep_existing, keep_both, numbered_conflict_path,
}
use cross_scp.Protocol.Numbered.{numbered_conflict_path-injective}
use cross_scp.Machine.{Ssh2Error, FileStat, Paths, Machine, Sftp, exclusive}
use cross_scp.Machine.Call.{
  Stop, Call, return, throw, Keeps, >>=-Keeps, looking-Keeps, option-Keeps, bool-Keeps,
}
use cross_scp.Sftp.Errors.{SftpError}
use cross_scp.Ssh2.Remote.{
  from_ssh2, stat_of, is_missing, is_already_exists_error, remote_stat,
  create_remote_file_exclusive, next_available_from, next_available_remote_path,
}
use cross_scp.Ssh2.Upload.{
  candidate_name, create_numbered, created_or, create_or, create_remote_file_for_policy,
}

abbrev pub In : Text → List Text → Type 0
In x [] = ⊥
In x (y ∷ ys) = (x ≡ y) ⊎ In x ys

-- A list without the first occurrence of a text.
abbrev without : Text → List Text → List Text
unfolding text_eq
without x [] = []
without x (y ∷ ys) = if text_eq x y then ys else y ∷ without x ys

length-without : (x : Text) (ys : List Text) → In x ys → length ys ≡ suc (length (without x ys))
unfolding without
length-without x [] i = absurd i
length-without x (y ∷ ys) i = elim (Bool-cases (text_eq x y)) [
  | inl e ↦ rw e refl
  | inr e ↦ elim i [
    | inl same ↦ cc ((text_eq_iff x y).1 same)
    | inr j ↦ rw e (ap suc (length-without x ys j))
  ]
]

In-without : (x z : Text) (ys : List Text) → In z ys → z ≢ x → In z (without x ys)
unfolding without
In-without x z [] i n = i
In-without x z (y ∷ ys) i n = elim (Bool-cases (text_eq x y)) [
  | inl e ↦ elim i [
    | inl same ↦ absurd (n (same ∙ sym ((text_eq_iff x y).0 e)))
    | inr j ↦ rw (e, without) j
  ]
  | inr e ↦ elim i [
    | inl same ↦ rw (e, without) (inl same)
    | inr j ↦ rw (e, without) (inr (In-without x z ys j n))
  ]
]

numbered-ne :
    (path : Text) (d : Bool) (n m : ℕ)
    → 1 ≤ n
    → n < m
    → numbered_conflict_path path m d ≢ numbered_conflict_path path n d
numbered-ne path d n m l k e =
    let same = numbered_conflict_path-injective path d m n e in ground (arith, same)

module _ {W H : Type 0} (paths : Paths) (sftp : Sftp W H) where
  -- Nothing stands at the path in some state, which the look at it leaves.
  abbrev pub WasMissing : Text → W → Type 0
  WasMissing path after =
      (before : W) × (e : Ssh2Error) × (sftp.stat path before ≡ (after, err e))
      × (is_missing e ≡ true)

  -- Each look at a path finds something, and then it is in the list, or finds it missing.
  abbrev pub IsAnswered : List Text → Type 0
  IsAnswered listed =
      (path : Text) (w : W)
      → ((stat : FileStat) × ((sftp.stat path w).1 ≡ ok stat) × In path listed)
        ⊎ ((e : Ssh2Error) × ((sftp.stat path w).1 ≡ err e) × (is_missing e ≡ true))

  -- The same for the numbered names from a number on.
  IsAnsweredFrom : ℕ → Text → Bool → List Text → Type 0
  IsAnsweredFrom n path d listed =
      (m : ℕ) (w : W)
      → n ≤ m
      → ((stat : FileStat) × ((sftp.stat (numbered_conflict_path path m d) w).1 ≡ ok stat)
          × In (numbered_conflict_path path m d) listed)
        ⊎ ((e : Ssh2Error) × ((sftp.stat (numbered_conflict_path path m d) w).1 ≡ err e)
            × (is_missing e ≡ true))

  answered_behind :
      (n : ℕ) (path : Text) (d : Bool) (listed : List Text)
      → 1 ≤ n
      → IsAnsweredFrom n path d listed
      → IsAnsweredFrom (n + 1) path d (without (numbered_conflict_path path n d) listed)
  unfolding IsAnsweredFrom
  answered_behind n path d listed l a m w k = elim (a m w (omega arith)) [
    | inr missing ↦ inr missing
    | inl (stat, e, i) ↦ inl (
      stat,
      e,
      In-without (numbered_conflict_path path n d) (numbered_conflict_path path m d) listed i
          (numbered-ne path d n m l (omega arith)),
    )
  ]

  -- The name that is found has a number from `n` on, at most the length of the list beyond it.
  abbrev IsFound : ℕ → List Text → Text → Bool → W × Result (Stop SftpError) Text → Type 0
  IsFound n listed path d r =
      (m : ℕ) × (n ≤ m)
      × (m ≤ n + length listed)
      × (r.1 ≡ ok (numbered_conflict_path path m d))
      × WasMissing (numbered_conflict_path path m d) r.0

  next_available_from-finds :
      (rounds n : ℕ) (path : Text) (d : Bool) (listed : List Text) (w : W)
      → 1 ≤ n
      → length listed < rounds
      → IsAnsweredFrom n path d listed
      → IsFound n listed path d (next_available_from paths sftp rounds n path d w)
  unfolding next_available_from remote_stat IsAnsweredFrom
  next_available_from-finds zero n path d listed w l r a = absurd (omega arith)
  next_available_from-finds (suc rounds) n path d listed w l r a =
      let name = numbered_conflict_path path n d in
      elim (a n w (omega arith)) [
        | inr (e, q, missing) ↦
            rw (q, missing, next_available_from, remote_stat)
              (
                n,
                omega arith,
                omega arith,
                refl,
                (w, e, ap (λ r. ((sftp.stat name w).0, r)) q, missing),
              )
        | inl (stat, q, i) ↦
            let shorter = length-without name listed i in
            let (m, low, high, found, missing) =
              next_available_from-finds rounds (n + 1) path d (without name listed)
                (sftp.stat name w).0 (omega arith) (omega (arith, shorter))
                (answered_behind n path d listed l a) in
            rw (q, next_available_from, remote_stat)
              (m, omega arith, omega (arith, shorter), found, missing)
      ]

  -- Where each look at a path either finds something that is in a list or finds it missing, and the
  -- list is shorter than the numbers of a `u32`, keeping both files comes to an end: the name is the
  -- numbered sibling for a number that is at most one more than the length of the list, and was
  -- missing at the last look.
  pub next_available-finds :
      (listed : List Text) (path : Text) (is_directory : Bool) (w : W)
      → IsAnswered listed
      → length listed < 4294967295
      → (m : ℕ) × (1 ≤ m)
        × (m ≤ 1 + length listed)
        × ((next_available_remote_path paths sftp path is_directory w).1
            ≡ ok (numbered_conflict_path path m is_directory))
        × WasMissing
            (numbered_conflict_path path m is_directory)
            (next_available_remote_path paths sftp path is_directory w).0
  unfolding next_available_remote_path IsAnsweredFrom
  next_available-finds listed path d w a l =
      next_available_from-finds 4294967295 1 path d listed w (omega arith) l (λ m v _. a _ v)

module _ {W H : Type 0} (machine : Machine W H) (sftp : Sftp W H) (P : W → Type 0) where
  -- Kept by a look and by making a file where nothing is.
  pub record IsGentle : Type 0 where
    pub stat-keeps : (path : Text) (w : W) → P w → P (sftp.stat path w).0
    pub exclusive-keeps :
        (path : Text) (mode : ℕ) (w : W) → P w → P (sftp.open_mode path exclusive mode w).0

  remote_stat-Keeps : (path : Text) → IsGentle → Keeps P (remote_stat machine.paths sftp path)
  unfolding remote_stat
  remote_stat-Keeps path g =
      looking-Keeps P (sftp.stat path) (stat_of machine.paths sftp) (g.stat-keeps path) looked
    where
      looked : (r : Result Ssh2Error FileStat) → Keeps P (stat_of machine.paths sftp r)
      looked (ok stat) w p = p
      looked (err error) w p = elim (Bool-cases (is_missing error)) [
        | inl e ↦ rw e p
        | inr e ↦ rw e p
      ]

  create_or-Keeps :
      (path : Text) (otherwise : Call W SftpError _)
      → IsGentle
      → Keeps P otherwise
      → Keeps P (create_or machine sftp path otherwise)
  unfolding create_remote_file_exclusive
  create_or-Keeps path otherwise g k =
      looking-Keeps P (create_remote_file_exclusive machine.paths sftp path)
        (created_or machine sftp path otherwise) (g.exclusive-keeps path 420) made
    where
      made : (r : Result Ssh2Error H) → Keeps P (created_or machine sftp path otherwise r)
      made (ok file) = λ w p. p
      made (err error) =
          bool-Keeps P (is_already_exists_error error) otherwise (throw (from_ssh2 error)) k
            (λ w p. p)

  create_numbered-Keeps :
      (tries n : ℕ) (path : Text) → IsGentle → Keeps P (create_numbered machine sftp tries n path)
  unfolding create_numbered
  create_numbered-Keeps zero n path g = λ w p. p
  create_numbered-Keeps (suc tries) n path g =
      let again = create_numbered machine sftp tries (n + 1) path in
      let name = candidate_name machine sftp path n in
      >>=-Keeps P (remote_stat machine.paths sftp name) _ (remote_stat-Keeps name g) (λ found.
        option-Keeps P found (λ stat. again) (create_or machine sftp name again)
          (λ stat. create_numbered-Keeps tries (n + 1) path g)
          (create_or-Keeps name again g (create_numbered-Keeps tries (n + 1) path g)))

  -- Unless the policy is to replace, the file of an upload is made in such a way that whatever a look
  -- and making a file where nothing is keep is kept, however it ends: nothing is truncated, removed or
  -- overwritten.
  pub create-Keeps :
      (path : Text) (policy : FileConflictPolicy) (w : W)
      → IsGentle
      → policy ≢ replace_existing
      → P w
      → P (create_remote_file_for_policy machine sftp path policy w).0
  unfolding create_remote_file_for_policy
  create-Keeps path replace_existing w g n = absurd (n refl)
  create-Keeps path keep_both w g n = create_numbered-Keeps 4294967296 0 path g w
  create-Keeps path keep_existing w g n =
      >>=-Keeps P (remote_stat machine.paths sftp path) _ (remote_stat-Keeps path g)
        (λ found.
          option-Keeps P found (λ stat. return none) (create_or machine sftp path (return none))
            (λ stat w p. p) (create_or-Keeps path (return none) g (λ w p. p)))
        w
