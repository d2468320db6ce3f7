-- ===== src/Masks/Fuel.antt =====
-- The fuel of `wildcard_match` is enough.
use cross_scp.Base.{
  ℕ, zero, suc, ◌+◌, ◌-◌, ◌*◌, ◌≤◌, ◌<◌, Option, none, some, ◌≡◌, ◌≢◌, refl, arith, length,
  drop-get_elem?,
}
use cross_scp.Masks.{
  Bytes, Cursor, retry, scan, follow, step, start, scan_fuel, Round, continue, rejected, ended,
}
use cross_scp.Masks.Steps.{Leads, step-Leads}

module _ (P T : Bytes) where
  abbrev KeptAt : ℕ → ℕ → ℕ → Option ℕ → Type 0
  KeptAt m t st none = length T ≤ t + m
  KeptAt m t st (some i) = (st ≤ t) × (length T ≤ st + m) × (i < length P)

  -- `m` bounds the bytes at which the saved star can begin again.
  record InFuel (fuel m : ℕ) (s : Cursor) : Type 0 where
    kept : KeptAt m s.t s.star_text s.star
    p_bound : s.p ≤ length P
    fuel_bound : m * (length P + 1) + (length P - s.p) < fuel

  byte-KeptAt : (m t st : ℕ) (o : Option ℕ) → KeptAt m t st o → KeptAt m (t + 1) st o
  byte-KeptAt m t st none h = omega arith
  byte-KeptAt m t st (some i) h = omega arith

  mark-bound : (m t st : ℕ) (o : Option ℕ) → KeptAt m t st o → length T ≤ t + m
  mark-bound m t st none h = h
  mark-bound m t st (some i) h = omega arith

  abbrev Fueled : ℕ → Cursor → Type 0
  Fueled fuel s = (m : ℕ) × InFuel fuel m s

  retry-Fueled :
      (fuel m : ℕ) (s : Cursor) (o : Option ℕ)
      → s.star ≡ o
      → s.t < length T
      → InFuel (suc fuel) m s
      → Leads (Fueled fuel) Unit (λ _. Unit) (retry o s)
  unfolding retry
  retry-Fueled fuel m s none e l i = tt
  retry-Fueled fuel zero s (some star_index) e l i =
      let k = i.kept in absurd (omega (arith, KeptAt-some s.t s.star_text star_index (rw e at k)))
    where
      KeptAt-some : (t st j : ℕ) → KeptAt 0 t st (some j) → length T ≤ t
      KeptAt-some t st j h = omega arith
  retry-Fueled fuel (suc m) s (some star_index) e l i =
      let k : KeptAt (suc m) s.t s.star_text (some star_index) = rw e at i.kept in
      (
        m,
        record {
          kept = (omega arith, omega arith, omega arith);
          p_bound = omega arith;
          fuel_bound = omega arith;
        },
      )

  step-Fueled :
      (fuel m : ℕ) (s : Cursor)
      → InFuel (suc fuel) m s
      → Leads (Fueled fuel) Unit (λ _. Unit) (step P T s)
  step-Fueled fuel m s i =
      step-Leads P T (Fueled fuel) Unit (λ _. Unit) s (λ _ _. tt)
        (λ x y et e l _. (
          m,
          record {
            kept = byte-KeptAt m s.t s.star_text s.star i.kept;
            p_bound = omega arith;
            fuel_bound = omega arith;
          },
        ))
        (λ y et e l. (
          m,
          record {
            kept = (omega arith, mark-bound m s.t s.star_text s.star i.kept, l);
            p_bound = omega arith;
            fuel_bound = omega arith;
          },
        ))
        (λ y et _. retry-Fueled fuel m s s.star refl (drop-get_elem? T s.t et).1 i)

  follow-ne-none :
      (I : Cursor → Type 0) (rounds : Cursor → Option (Option ℕ))
      → ((s : Cursor) → I s → rounds s ≢ none)
      → (r : Round) → Leads I Unit (λ _. Unit) r
      → follow rounds r ≢ none
  unfolding follow
  follow-ne-none I rounds next (continue s) h = next s h
  follow-ne-none I rounds next rejected h = cc
  follow-ne-none I rounds next (ended p) h = cc

  scan-ne-none : (fuel : ℕ) (s : Cursor) → Fueled fuel s → scan fuel P T s ≢ none
  unfolding scan
  scan-ne-none zero s (m, i) = absurd (omega arith)
  scan-ne-none (suc fuel) s (m, i) =
      follow-ne-none (Fueled fuel) (scan fuel P T) (scan-ne-none fuel) (step P T s)
        (step-Fueled fuel m s i)

-- The loop of `wildcard_match` ends within `(text.len() + 1) * (pattern.len() + 1)` rounds.
pub scan_terminates : (P T : Bytes) → scan (scan_fuel P T) P T start ≢ none
scan_terminates P T =
    scan-ne-none P T _ start
      (length T, record { kept = omega arith; p_bound = omega arith; fuel_bound = omega arith })
