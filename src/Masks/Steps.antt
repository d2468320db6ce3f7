-- ===== src/Masks/Steps.antt =====
-- One invariant rule for the loop of `wildcard_match`, and the three invariants: the fuel left, what
-- an answer `true` shows, and, for a text without `*`, what an answer `false` shows.
use cross_scp.Base.{
  ℕ, zero, suc, ◌+◌, ◌≤◌, ◌<◌, List, [], ◌∷◌, Option, none, some, true, ◌||◌, ◌≡◌, ◌≢◌, ◌⊎◌, inl,
  inr, refl, arith, ◌==◌, if_cases, ==_iff, length, get_elem?, drop, drop-get_elem?,
  drop-get_elem?-none, All,
}
use cross_scp.Masks.{
  Bytes, Cursor, Round, continue, rejected, ended, retry, advance, step, follow, scan,
}
use cross_scp.Masks.Matches.{star, any_byte}

-- A property of what a round leads to, and of what the loop ends with.
abbrev pub Leads : (Cursor → Type 0) → Type 0 → (ℕ → Type 0) → Round → Type 0
Leads I R E (continue s) = I s
Leads I R E rejected = R
Leads I R E (ended p) = E p

abbrev pub Ends : Type 0 → (ℕ → Type 0) → Option (Option ℕ) → Type 0
Ends R E none = Unit
Ends R E (some none) = R
Ends R E (some (some p)) = E p

pub All-get_elem? :
    (P : ℕ → Type 0) (xs : List ℕ) (i : ℕ) {x : ℕ} → All P xs → get_elem? xs i ≡ some x → P x
All-get_elem? P [] i h e = cc
All-get_elem? P (y ∷ ys) zero (h, _) e = rw (← (Some-eq e)) h
  where
    Some-eq : {a b : ℕ} → some a ≡ some b → a ≡ b
    Some-eq q = cc
All-get_elem? P (y ∷ ys) (suc i) (_, hs) e = All-get_elem? P ys i hs e

or_cases : (x y : ℕ) → (x == b'?' || x == y) ≡ true → (x ≡ any_byte) ⊎ (x ≡ y)
or_cases x y h = ground arith

follow-Ends :
    (I : Cursor → Type 0) (R : Type 0) (E : ℕ → Type 0) (rounds : Cursor → Option (Option ℕ))
    → ((s : Cursor) → I s → Ends R E (rounds s))
    → (r : Round) → Leads I R E r
    → Ends R E (follow rounds r)
unfolding follow
follow-Ends I R E rounds next (continue s) h = next s h
follow-Ends I R E rounds next rejected h = h
follow-Ends I R E rounds next (ended p) h = h

module _ (P T : Bytes) where
  pub scan-Ends :
      (I : Cursor → Type 0) (R : Type 0) (E : ℕ → Type 0)
      → ((s : Cursor) → I s → Leads I R E (step P T s))
      → (fuel : ℕ) (s : Cursor) → I s
      → Ends R E (scan fuel P T s)
  unfolding scan
  scan-Ends I R E keep zero s i = tt
  scan-Ends I R E keep (suc fuel) s i =
      follow-Ends I R E (scan fuel P T) (scan-Ends I R E keep fuel) (step P T s) (keep s i)

  -- A round proved by the three kinds of branches: the text has ended, a byte is taken, a star is
  -- marked, or the search goes back.
  pub step-Leads :
      (I : Cursor → Type 0) (R : Type 0) (E : ℕ → Type 0) (s : Cursor)
      → (drop s.t T ≡ [] → length T ≤ s.t → E s.p)
      → ((x y : ℕ)
          → get_elem? T s.t ≡ some y
          → drop s.p P ≡ x ∷ drop (s.p + 1) P
          → s.p < length P
          → (x ≡ any_byte) ⊎ (x ≡ y)
          → I (record s { p = s.p + 1; t = s.t + 1 }))
      → ((y : ℕ)
          → get_elem? T s.t ≡ some y
          → drop s.p P ≡ star ∷ drop (s.p + 1) P
          → s.p < length P
          → I (record s { p = s.p + 1; star = some s.p; star_text = s.t }))
      → ((y : ℕ)
          → get_elem? T s.t ≡ some y
          → (drop s.p P ≡ [])
            ⊎ ((x : ℕ) × (drop s.p P ≡ x ∷ drop (s.p + 1) P)
                × (x ≢ star)
                × (x ≢ any_byte)
                × (x ≢ y))
          → Leads I R E (retry s.star s))
      → Leads I R E (step P T s)
  unfolding step
  step-Leads I R E s at_end byte mark back = go (get_elem? T s.t) (get_elem? P s.p) refl refl
    where
      go :
          (ty px : Option ℕ)
          → get_elem? T s.t ≡ ty
          → get_elem? P s.p ≡ px
          → Leads I R E (advance ty px s)
      go none px et ep = let (e, l) = drop-get_elem?-none T s.t et in unfold advance in at_end e l
      go (some y) none et ep = unfold advance in back y et (inl (drop-get_elem?-none P s.p ep).0)
      go (some y) (some x) et ep =
          let (e, l) = drop-get_elem? P s.p ep in
          unfold advance in
          if_cases (Leads I R E) (x == b'?' || x == y) _ _ (λ h. byte x y et e l (or_cases x y h))
            (λ h.
              if_cases (Leads I R E) (x == b'*') _ _
                (λ k. mark y et (rw (← (==_iff x b'*').0 k) e) l)
                (λ k. back y et (inr (x, e, ground arith, ground arith, ground arith))))
