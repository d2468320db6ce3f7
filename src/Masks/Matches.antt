-- ===== src/Masks/Matches.antt =====
-- What it means for a mask to match, with no order of search in it: `*` stands for any run of bytes,
-- `?` for one byte, any other byte for itself.
use cross_scp.Base.{ℕ, List, [], ◌∷◌, ◌≡◌, ◌≢◌, ◌⊎◌, inl, inr, refl, arith, All}

abbrev pub star : ℕ
star = b'*'

abbrev pub any_byte : ℕ
any_byte = b'?'

pub data Matches : List ℕ → List ℕ → Type 0 where
  empty : Matches [] []
  literal : {x : ℕ} {p s : List ℕ} → x ≢ star → x ≢ any_byte → Matches p s → Matches (x ∷ p) (x ∷ s)
  one : {x c : ℕ} {p s : List ℕ} → x ≡ any_byte → Matches p s → Matches (x ∷ p) (c ∷ s)
  leave : {x : ℕ} {p s : List ℕ} → x ≡ star → Matches p s → Matches (x ∷ p) s
  take : {x c : ℕ} {p s : List ℕ} → x ≡ star → Matches (x ∷ p) s → Matches (x ∷ p) (c ∷ s)

abbrev pub NoStar : List ℕ → Type 0
NoStar = All (λ c. c ≢ star)

-- Behind a star, everything that the rest matches further on is matched.
pub must_take :
    {p s : List ℕ} {c : ℕ} → Matches (star ∷ p) (c ∷ s) → ¬ Matches p (c ∷ s) → Matches (star ∷ p) s
must_take (take x more) fails = more
must_take (leave x rest) fails = absurd (fails rest)
must_take (literal h k rest) fails = absurd (h refl)
must_take (one x rest) fails = absurd (omega arith)

pub two_stars : {p s : List ℕ} → Matches (star ∷ star ∷ p) s → Matches (star ∷ p) s
two_stars (take x more) = take refl (two_stars more)
two_stars (leave x rest) = rest
two_stars (literal h k rest) = absurd (h refl)
two_stars (one x rest) = absurd (omega arith)

pub star_at_end : {p s : List ℕ} → s ≡ [] → Matches (star ∷ p) s → Matches p s
star_at_end e (take x more) = cc
star_at_end e (leave x rest) = rest
star_at_end e (literal h k rest) = absurd (h refl)
star_at_end e (one x rest) = absurd (omega arith)

-- An item other than a star takes exactly one byte.
pub item_inv :
    {x c : ℕ} {p s : List ℕ}
    → x ≢ star
    → Matches (x ∷ p) (c ∷ s)
    → Matches p s × ((x ≡ any_byte) ⊎ (x ≡ c))
item_inv n (literal h k d) = (d, inr refl)
item_inv n (one x d) = (d, inl x)
item_inv n (leave x d) = absurd (n x)
item_inv n (take x d) = absurd (n x)

pub item_at_end : {x : ℕ} {p s : List ℕ} → x ≢ star → s ≡ [] → ¬ Matches (x ∷ p) s
item_at_end n e (literal h k d) = cc
item_at_end n e (one x d) = cc
item_at_end n e (leave x d) = n x
item_at_end n e (take x d) = n x

-- Why the greedy choice loses nothing: where the item stands for the first byte, whatever follows
-- it begins behind that byte at the earliest.
pub drop_item :
    {x c : ℕ} {p : List ℕ} (s : List ℕ)
    → x ≢ star
    → Matches (star ∷ x ∷ p) (c ∷ s)
    → Matches (star ∷ p) s
drop_item s n (literal h k d) = absurd (h refl)
drop_item s n (one x d) = absurd (omega arith)
drop_item s n (leave x d) = leave refl (item_inv n d).0
drop_item [] n (take x d) = absurd (item_at_end n refl (star_at_end refl d))
drop_item (c ∷ s) n (take x d) = take refl (drop_item s n d)
