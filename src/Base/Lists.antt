-- ===== src/Base/Lists.antt =====
-- Lists measured by native numbers, a predicate on every element, and the searches of a slice.
use Prim.Native.Nat.{ℕ, zero, suc, ◌+◌, ◌≤◌, ◌<◌}
use mathlib.Core.Path.{◌≡◌, refl}
use mathlib.Core.Bool.{Bool, true, false, ◌||◌}
use mathlib.Core.List.{List, [], ◌∷◌, ◌++◌}
use mathlib.Core.Option.{Option, none, some}
use native.Mathlib.Omega.{arith}
use native.Mathlib.Numerals.{add-one}
use cross_scp.Base.Tests.{if◌then◌else◌}

module _ {ℓ} {A : Type ℓ} where
  abbrev pub length : List A → ℕ
  length [] = 0
  length (x ∷ xs) = suc (length xs)

  pub length-append : (xs ys : List A) → length (xs ++ ys) ≡ length xs + length ys
  length-append [] ys = omega arith
  length-append (x ∷ xs) ys = omega (arith, length-append xs ys)

  abbrev pub is_empty : List A → Bool
  is_empty [] = true
  is_empty (x ∷ xs) = false

  -- `iter().any`, `iter().find` and `retain`.
  unfoldable pub any : (A → Bool) → List A → Bool
  any p [] = false
  any p (x ∷ xs) = p x || any p xs

  unfoldable pub find : (A → Bool) → List A → Option A
  find p [] = none
  find p (x ∷ xs) = if p x then some x else find p xs

  unfoldable pub retain : (A → Bool) → List A → List A
  retain p [] = []
  retain p (x ∷ xs) = if p x then x ∷ retain p xs else retain p xs

module _ {ℓ} {A : Type ℓ} where
  abbrev pub get_elem? : List A → ℕ → Option A
  get_elem? [] i = none
  get_elem? (x ∷ xs) zero = some x
  get_elem? (x ∷ xs) (suc i) = get_elem? xs i

  abbrev pub drop : ℕ → List A → List A
  drop zero xs = xs
  drop (suc n) [] = []
  drop (suc n) (x ∷ xs) = drop n xs

  abbrev pub take : ℕ → List A → List A
  take zero xs = []
  take (suc n) [] = []
  take (suc n) (x ∷ xs) = x ∷ take n xs

  -- What stands behind an index, from what stands at it.
  pub drop-get_elem? :
      (xs : List A) (i : ℕ) {x : A}
      → get_elem? xs i ≡ some x
      → (drop i xs ≡ x ∷ drop (i + 1) xs) × (i < length xs)
  drop-get_elem? [] i h = cc
  drop-get_elem? (x ∷ xs) zero h = (cc, omega arith)
  drop-get_elem? (x ∷ xs) (suc i) h =
      let (e, l) = drop-get_elem? xs i h in (rw add-one (rw add-one at e), omega arith)

  pub drop-get_elem?-none :
      (xs : List A) (i : ℕ) → get_elem? xs i ≡ none → (drop i xs ≡ []) × (length xs ≤ i)
  drop-get_elem?-none [] zero h = (refl, omega arith)
  drop-get_elem?-none [] (suc i) h = (refl, omega arith)
  drop-get_elem?-none (x ∷ xs) zero h = cc
  drop-get_elem?-none (x ∷ xs) (suc i) h =
      let (e, l) = drop-get_elem?-none xs i h in (e, omega arith)

  -- A position up to one that holds a byte holds one too.
  pub drop_below :
      (xs : List A) (i j : ℕ) → i ≤ j → j < length xs → (y : A) × (drop i xs ≡ y ∷ drop (i + 1) xs)
  drop_below [] i j h l = absurd (omega arith)
  drop_below (x ∷ xs) zero j h l = (x, cc)
  drop_below (x ∷ xs) (suc i) zero h l = absurd (omega arith)
  drop_below (x ∷ xs) (suc i) (suc j) h l =
      let (y, e) = drop_below xs i j (omega arith) (omega arith) in
      (y, rw add-one (rw add-one at e))

module _ {ℓ κ} {A : Type ℓ} (P : A → Type κ) where
  abbrev pub All : List A → Type κ
  All [] = Unit
  All (x ∷ xs) = P x × All xs

  pub All-append : (xs ys : List A) → All xs → All ys → All (xs ++ ys)
  All-append [] ys _ hy = hy
  All-append (x ∷ xs) ys (px, hx) hy = (px, All-append xs ys hx hy)

-- A predicate that implies another one implies it of all elements.
pub All-map {ℓ κ μ} :
    {A : Type ℓ} (P : A → Type κ) (Q : A → Type μ) (xs : List A)
    → ((x : A) → P x → Q x)
    → All P xs
    → All Q xs
All-map P Q [] f _ = tt
All-map P Q (x ∷ xs) f (px, hx) = (f x px, All-map P Q xs f hx)
