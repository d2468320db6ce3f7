-- ===== src/Masks/Correct.antt =====
-- `wildcard_match` against the relation `Matches`: it always stops within its fuel, an answer `true`
-- is always right, and an answer `false` is right for a text that holds no `*`.
use cross_scp.Base.{
  ℕ, zero, suc, ◌+◌, ◌*◌, ◌≤◌, List, [], ◌∷◌, Option, none, some, true, false, ◌≡◌, ◌≢◌, ◌↔◌, inl,
  inr, refl, arith, ◌==◌, length, get_elem?, drop, drop-get_elem?, drop-get_elem?-none, Bool-cases,
  All-append, if_cases, ltb, ◌++◌,
}
use cross_scp.Base.Text.{Text, as_bytes, utf8}
use cross_scp.Masks.{Bytes, past_star, wildcard_match, skip_stars, finish, scan_fuel, match_bytes}
use cross_scp.Masks.Fuel.{scan_terminates}
use cross_scp.Masks.Sound.{scan_sound, SoundEnd}
use cross_scp.Masks.Complete.{scan_complete, CompleteEnd}
use cross_scp.Masks.Steps.{Ends}
use cross_scp.Masks.Matches.{star, Matches, empty, literal, one, leave, take, NoStar}

-- The second loop and the final test: only stars are left of the pattern.
module _ (P : Bytes) where
  drop_all : (xs : Bytes) → drop (length xs) xs ≡ []
  drop_all [] = refl
  drop_all (x ∷ xs) = drop_all xs

  past_star→Matches :
      (o : Option ℕ) (p rest : ℕ)
      → get_elem? P p ≡ o
      → (rest ≡ length P → Matches (drop (p + 1) P) [])
      → past_star o p rest ≡ length P
      → Matches (drop p P) []
  unfolding past_star
  past_star→Matches none p rest e next h = rw (drop-get_elem?-none P p e).0 empty
  past_star→Matches (some x) p rest e next h =
      let (f, l) = drop-get_elem? P p e in
      elim (Bool-cases (x == b'*')) [
        | inl k ↦ rw f (leave (ground arith) (next (rw k at h)))
        | inr k ↦ absurd (ground arith)
      ]

  skip_stars→Matches : (rounds p : ℕ) → skip_stars rounds P p ≡ length P → Matches (drop p P) []
  unfolding skip_stars
  skip_stars→Matches zero p h = rw (h, drop_all P) empty
  skip_stars→Matches (suc rounds) p h =
      past_star→Matches (get_elem? P p) p _ refl (skip_stars→Matches rounds (p + 1)) h

  stars_left : {x : ℕ} {p s : List ℕ} → s ≡ [] → Matches (x ∷ p) s → (x ≡ star) × Matches p s
  stars_left e (literal h k d) = cc
  stars_left e (one x d) = cc
  stars_left e (leave x d) = (x, d)
  stars_left e (take x d) = cc

  Matches→past_star :
      (o : Option ℕ) (p rest : ℕ)
      → get_elem? P p ≡ o
      → p ≤ length P
      → (p + 1 ≤ length P → Matches (drop (p + 1) P) [] → rest ≡ length P)
      → Matches (drop p P) []
      → past_star o p rest ≡ length P
  unfolding past_star
  Matches→past_star none p rest e l next d = omega (arith, (drop-get_elem?-none P p e).1)
  Matches→past_star (some x) p rest e l next d =
      let (f, b) = drop-get_elem? P p e in
      let (k, d') = stars_left refl (rw f at d) in let r = next (omega arith) d' in ground arith

  Matches→skip_stars :
      (rounds p : ℕ)
      → p ≤ length P
      → length P ≤ p + rounds
      → Matches (drop p P) []
      → skip_stars rounds P p ≡ length P
  unfolding skip_stars
  Matches→skip_stars zero p l f d = omega arith
  Matches→skip_stars (suc rounds) p l f d =
      Matches→past_star (get_elem? P p) p _ refl l
        (λ b d'. Matches→skip_stars rounds (p + 1) b (omega arith) d') d

finish_sound :
    (P T : Bytes) (r : Option (Option ℕ))
    → Ends Unit (SoundEnd P T) r
    → finish P r ≡ true
    → Matches P T
unfolding finish
finish_sound P T none h e = cc
finish_sound P T (some none) h e = cc
finish_sound P T (some (some p)) h e = h (skip_stars→Matches P (length P) p (ground arith))

finish_complete :
    (P T : Bytes) (G : Type 0) (r : Option (Option ℕ))
    → Ends (¬ G) (CompleteEnd P T G) r
    → r ≢ none
    → G
    → finish P r ≡ true
unfolding finish
finish_complete P T G none h n g = absurd (n refl)
finish_complete P T G (some none) h n g = absurd (h g)
finish_complete P T G (some (some p)) (h, l) n g =
    let e = Matches→skip_stars P (length P) p l (omega arith) (h g) in ground arith

pub match_bytes_sound : (P T : Bytes) → match_bytes P T ≡ true → Matches P T
unfolding match_bytes
match_bytes_sound P T h = finish_sound P T _ (scan_sound P T (scan_fuel P T)) h

pub match_bytes_complete : (P T : Bytes) → NoStar T → Matches P T → match_bytes P T ≡ true
unfolding match_bytes
match_bytes_complete P T plain d =
    finish_complete P T (Matches P T) _ (scan_complete P T _ plain (scan_fuel P T) (λ d. d))
      (scan_terminates P T) d

utf8-NoStar : (c : ℕ) → c ≢ star → NoStar (utf8 c)
utf8-NoStar c n = ground arith

-- The bytes of a text hold the byte `*` only where the text holds the character.
as_bytes-NoStar : (s : Text) → NoStar s → NoStar (as_bytes s)
unfolding as_bytes
as_bytes-NoStar [] _ = tt
as_bytes-NoStar (c ∷ s) (n, h) =
    All-append (λ d. d ≢ star) (utf8 c) (as_bytes s) (utf8-NoStar c n) (as_bytes-NoStar s h)

-- Whatever the texts, an answer `true` means that the bytes of the path match those of the mask.
wildcard_match_sound :
    (pattern text : Text)
    → wildcard_match pattern text ≡ true
    → Matches (as_bytes pattern) (as_bytes text)
unfolding wildcard_match
wildcard_match_sound pattern text h = match_bytes_sound (as_bytes pattern) (as_bytes text) h

-- On a path that holds no `*`, the answer is `true` exactly if the bytes match.
pub wildcard_match_iff :
    (pattern text : Text)
    → NoStar text
    → (wildcard_match pattern text ≡ true) ↔ Matches (as_bytes pattern) (as_bytes text)
unfolding wildcard_match
wildcard_match_iff pattern text plain =
    (match_bytes_sound _ _, match_bytes_complete _ _ (as_bytes-NoStar text plain))

star_mask_bytes : (y : ℕ) (r : Bytes) → match_bytes (star ∷ []) (star ∷ y ∷ r) ≡ false
unfolding match_bytes
star_mask_bytes y r =
    let e : scan_fuel (star ∷ []) (star ∷ y ∷ r) ≡ suc (suc (2 * length r + 4)) = omega arith in
    rw e

star_mask_matches : (s : Bytes) → Matches (star ∷ []) s
star_mask_matches [] = leave refl empty
star_mask_matches (c ∷ s) = take refl (star_mask_matches s)

utf8-cons : (c : ℕ) → (y : ℕ) × (r : Bytes) × (utf8 c ≡ y ∷ r)
utf8-cons c =
    if_cases Cons (ltb c 0x80) _ _ (λ _. (_, _, refl))
      (λ _.
        if_cases Cons (ltb c 0x800) _ _ (λ _. (_, _, refl))
          (λ _. if_cases Cons (ltb c 0x10000) _ _ (λ _. (_, _, refl)) (λ _. (_, _, refl))))
  where
    Cons : Bytes → Type 0
    Cons l = (y : ℕ) × (r : Bytes) × (l ≡ y ∷ r)

-- A path that begins with `*` and goes on is refused by the mask `*`, which it matches: the first
-- branch takes the star of the mask for a plain byte, and no star is marked to go back to.
pub star_mask_refuses :
    (c : ℕ) (s : Text)
    → (wildcard_match (star ∷ []) (star ∷ c ∷ s) ≡ false)
      × Matches (as_bytes (star ∷ [])) (as_bytes (star ∷ c ∷ s))
unfolding wildcard_match
star_mask_refuses c s =
    let (y, r, e) = utf8-cons c in (rw e (star_mask_bytes y (r ++ as_bytes s)), star_mask_matches _)
