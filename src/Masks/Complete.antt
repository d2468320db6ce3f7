-- ===== src/Masks/Complete.antt =====
-- An answer `false` of the loop of `wildcard_match` is right where the text holds no `*`.
use cross_scp.Base.{
  ℕ, ◌+◌, ◌≤◌, ◌<◌, List, [], ◌∷◌, Option, none, some, ◌≡◌, ◌≢◌, ◌⊎◌, inl, inr, refl, arith, length,
  drop, drop-get_elem?, drop_below,
}
use cross_scp.Masks.{Bytes, Cursor, retry, scan, step, start}
use cross_scp.Masks.Steps.{Leads, Ends, scan-Ends, step-Leads, All-get_elem?}
use cross_scp.Masks.Matches.{
  star, any_byte, Matches, leave, NoStar, star_at_end, two_stars, must_take, item_inv, drop_item,
}

neither : {x y : ℕ} → x ≢ any_byte → x ≢ y → ¬ ((x ≡ any_byte) ⊎ (x ≡ y))
neither k m (inl h) = k h
neither k m (inr h) = m h

nil_inv : {c : ℕ} {s : List ℕ} → ¬ Matches [] (c ∷ s)
nil_inv d = elim d [ ]

item_ne_star : {x y : ℕ} → (x ≡ any_byte) ⊎ (x ≡ y) → y ≢ star → x ≢ star
item_ne_star (inl e) n = omega arith
item_ne_star (inr e) n = omega arith

-- A byte of the pattern that the first two branches do not take does not stand for this byte.
stuck :
    {y : ℕ} {p q s : List ℕ}
    → (p ≡ []) ⊎ ((x : ℕ) × (p ≡ x ∷ q) × (x ≢ star) × (x ≢ any_byte) × (x ≢ y))
    → ¬ Matches p (y ∷ s)
stuck (inl e) d = nil_inv (rw e at d)
stuck (inr (x, e, n, k, m)) d = neither k m (item_inv n (rw e at d)).1

module _ (P T : Bytes) (G : Type 0) where
  -- What the saved star position means for the question `G`.
  abbrev CompleteAt : Option ℕ → ℕ → ℕ → List ℕ → Type 0
  CompleteAt none st t rest = G → Matches rest (drop t T)
  CompleteAt (some i) st t rest =
      (G → Matches (star ∷ drop (i + 1) P) (drop st T))
      × (Matches (drop (i + 1) P) (drop st T) → Matches rest (drop t T))
      × (st ≤ t)
      × (i < length P)

  record IsComplete (s : Cursor) : Type 0 where
    later : G → Matches (star ∷ drop s.p P) (drop s.t T)
    saved : CompleteAt s.star s.star_text s.t (drop s.p P)
    p_bound : s.p ≤ length P

  abbrev pub CompleteEnd : ℕ → Type 0
  CompleteEnd p = (G → Matches (drop p P) []) × (p ≤ length P)

  byte-CompleteAt :
      (o : Option ℕ) (st t x y : ℕ) (p : List ℕ)
      → x ≢ star
      → drop t T ≡ y ∷ drop (t + 1) T
      → CompleteAt o st t (x ∷ p)
      → CompleteAt o st (t + 1) p
  byte-CompleteAt none st t x y p n e h = λ g. (item_inv n (rw e at (h g))).0
  byte-CompleteAt (some i) st t x y p n e (h, k, l, b) =
      (h, λ d. (item_inv n (rw e at (k d))).0, omega arith, b)

  retry-IsComplete :
      (s : Cursor) (o : Option ℕ) (rest : List ℕ)
      → s.t < length T
      → ¬ Matches rest (drop s.t T)
      → CompleteAt o s.star_text s.t rest
      → Leads IsComplete (¬ G) CompleteEnd (retry o s)
  unfolding retry
  retry-IsComplete s none rest l n h = λ g. n (h g)
  retry-IsComplete s (some i) rest l n (h, k, le, b) =
      let (y, e) = drop_below T s.star_text s.t le l in
      let again : G → Matches (star ∷ drop (i + 1) P) (drop (s.star_text + 1) T) =
        λ g. must_take (rw e at (h g)) (λ d. n (k (rw e d))) in
      record { later = again; saved = (again, λ d. d, omega arith, b); p_bound = omega arith }

  step-IsComplete :
      NoStar T → (s : Cursor) → IsComplete s → Leads IsComplete (¬ G) CompleteEnd (step P T s)
  step-IsComplete plain s i =
      step-Leads P T IsComplete (¬ G) CompleteEnd s
        (λ e _. (λ g. star_at_end refl (rw e at (i.later g)), i.p_bound))
        (λ x y et e l same.
          let f = (drop-get_elem? T s.t et).0 in
          let n = item_ne_star same (All-get_elem? (λ c. c ≢ star) T s.t plain et) in
          record {
            later = λ g. drop_item _ n (rw (e, f) at (i.later g));
            saved =
                byte-CompleteAt s.star s.star_text s.t x y (drop (s.p + 1) P) n f (rw e at i.saved);
            p_bound = omega arith;
          })
        (λ y et e l.
          let again : G → Matches (star ∷ drop (s.p + 1) P) (drop s.t T) =
            λ g. two_stars (rw e at (i.later g)) in
          record { later = again; saved = (again, λ d. d, omega arith, l); p_bound = omega arith })
        (λ y et h.
          let (f, l) = drop-get_elem? T s.t et in
          retry-IsComplete s s.star (drop s.p P) l (λ d. stuck h (rw f at d)) i.saved)

  pub scan_complete :
      NoStar T → (fuel : ℕ) → (G → Matches P T) → Ends (¬ G) CompleteEnd (scan fuel P T start)
  scan_complete plain fuel q =
      scan-Ends P T IsComplete (¬ G) CompleteEnd (step-IsComplete plain) fuel start
        (record { later = λ g. leave refl (q g); saved = q; p_bound = omega arith })
