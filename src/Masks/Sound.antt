-- ===== src/Masks/Sound.antt =====
-- An answer `true` of the loop of `wildcard_match` is right.
use cross_scp.Base.{
  ℕ, ◌+◌, ◌≤◌, ◌<◌, List, [], ◌∷◌, Option, none, some, ◌≡◌, ◌⊎◌, inl, inr, refl, arith, ◌==◌,
  length, drop, drop-get_elem?, Bool-cases, drop_below,
}
use cross_scp.Masks.{Bytes, Cursor, retry, scan, step, start}
use cross_scp.Masks.Steps.{Leads, Ends, scan-Ends, step-Leads}
use cross_scp.Masks.Matches.{star, any_byte, Matches, literal, one, leave, take}

module _ (P T : Bytes) where
  abbrev SoundAt : Option ℕ → ℕ → ℕ → Type 0
  SoundAt none st t = Unit
  SoundAt (some i) st t = (Matches (star ∷ drop (i + 1) P) (drop st T) → Matches P T) × (st ≤ t)

  record IsSound (s : Cursor) : Type 0 where
    now : Matches (drop s.p P) (drop s.t T) → Matches P T
    saved : SoundAt s.star s.star_text s.t

  abbrev pub SoundEnd : ℕ → Type 0
  SoundEnd p = Matches (drop p P) [] → Matches P T

  byte-Matches :
      {x y : ℕ} {p s : List ℕ} → (x ≡ any_byte) ⊎ (x ≡ y) → Matches p s → Matches (x ∷ p) (y ∷ s)
  byte-Matches (inl e) d = one e d
  byte-Matches {x} (inr e) d = elim (Bool-cases (x == b'*')) [
    | inl h ↦ take (ground arith) (leave (ground arith) d)
    | inr h ↦ elim (Bool-cases (x == b'?')) [
      | inl k ↦ one (ground arith) d
      | inr k ↦ rw (← e) (literal (ground arith) (ground arith) d)
    ]
  ]

  byte-SoundAt : (o : Option ℕ) (st t : ℕ) → SoundAt o st t → SoundAt o st (t + 1)
  byte-SoundAt none st t h = tt
  byte-SoundAt (some i) st t (h, l) = (h, omega arith)

  retry-IsSound :
      (s : Cursor) (o : Option ℕ)
      → s.t < length T
      → SoundAt o s.star_text s.t
      → Leads IsSound Unit SoundEnd (retry o s)
  unfolding retry
  retry-IsSound s none l h = tt
  retry-IsSound s (some i) l (h, le) =
      let (y, e) = drop_below T s.star_text s.t le l in
      record {
        now = λ d. h (rw e (take refl (leave refl d)));
        saved = (λ d. h (rw e (take refl d)), omega arith);
      }

  step-IsSound : (s : Cursor) → IsSound s → Leads IsSound Unit SoundEnd (step P T s)
  step-IsSound s i =
      step-Leads P T IsSound Unit SoundEnd s (λ e _ d. i.now (rw e d))
        (λ x y et e l same. record {
          now = λ d. i.now (rw (e, (drop-get_elem? T s.t et).0) (byte-Matches same d));
          saved = byte-SoundAt s.star s.star_text s.t i.saved;
        })
        (λ y et e l. record {
          now = λ d. i.now (rw e (leave refl d));
          saved = (λ d. i.now (rw e d), omega arith);
        })
        (λ y et _. retry-IsSound s s.star (drop-get_elem? T s.t et).1 i.saved)

  pub scan_sound : (fuel : ℕ) → Ends Unit SoundEnd (scan fuel P T start)
  scan_sound fuel =
      scan-Ends P T IsSound Unit SoundEnd step-IsSound fuel start
        (record { now = λ d. d; saved = tt })
