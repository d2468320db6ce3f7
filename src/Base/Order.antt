-- ===== src/Base/Order.antt =====
-- The orders of the keys of maps: texts, and pairs of a text and a number.
use Prim.Native.Nat.{ℕ}
use mathlib.Core.Path.{◌≡◌, refl}
use mathlib.Core.Logic.{◌↔◌, inl, inr}
use mathlib.Core.Bool.{Bool, true, false, ◌&&◌, ◌||◌}
use mathlib.Core.List.{[], ◌∷◌}
use native.Mathlib.Omega.{arith}
use cross_scp.Base.Tests.{ltb, ◌==◌, Bool-cases}
use cross_scp.Base.Text.{Text, text_eq, text_eq_iff}

unfoldable pub text_lt : Text → Text → Bool
text_lt [] [] = false
text_lt [] (d ∷ t) = true
text_lt (c ∷ s) [] = false
text_lt (c ∷ s) (d ∷ t) = ltb c d || (c == d && text_lt s t)

pub text_lt_trans : (s t u : Text) → text_lt s t ≡ true → text_lt t u ≡ true → text_lt s u ≡ true
unfolding text_lt
text_lt_trans [] [] u h k = cc
text_lt_trans [] (d ∷ t) [] h k = cc
text_lt_trans [] (d ∷ t) (e ∷ u) h k = refl
text_lt_trans (c ∷ s) [] u h k = cc
text_lt_trans (c ∷ s) (d ∷ t) [] h k = cc
text_lt_trans (c ∷ s) (d ∷ t) (e ∷ u) h k = ground (arith, text_lt_trans s t u)

pub text_lt_irrefl : (s : Text) → text_lt s s ≡ false
unfolding text_lt
text_lt_irrefl [] = refl
text_lt_irrefl (c ∷ s) = ground (arith, text_lt_irrefl s)

-- Of two different texts one comes first.
pub text_lt_total : (s t : Text) → text_eq s t ≡ false → text_lt s t ≡ false → text_lt t s ≡ true
unfolding text_lt text_eq
text_lt_total [] [] h k = cc
text_lt_total [] (d ∷ t) h k = cc
text_lt_total (c ∷ s) [] h k = refl
text_lt_total (c ∷ s) (d ∷ t) h k = ground (arith, text_lt_total s t)

pub text_eq_comm : (s t : Text) → text_eq s t ≡ false → text_eq t s ≡ false
text_eq_comm s t h = ground (arith, text_eq_iff s t, text_eq_iff t s)

pub text_eq_refl : (s : Text) → text_eq s s ≡ true
text_eq_refl s = (text_eq_iff s s).1 refl

-- Of two texts, one in front of the other, none is the other.
pub text_lt-ne : (s t : Text) → text_lt s t ≡ true → text_eq s t ≡ false
text_lt-ne s t h = elim (Bool-cases (text_eq s t)) [
  | inl e ↦ let k : text_lt t t ≡ true = rw ((text_eq_iff s t).0 e) at h in cc (text_lt_irrefl t)
  | inr e ↦ e
]

-- A total order with its equality, as `Ord` of a key asks.
pub record Order {ℓ} (K : Type ℓ) : Type ℓ where
  pub lt : K → K → Bool
  pub eq : K → K → Bool
  pub eq_iff : (a b : K) → (eq a b ≡ true) ↔ (a ≡ b)
  pub trans : (a b c : K) → lt a b ≡ true → lt b c ≡ true → lt a c ≡ true
  pub irrefl : (a : K) → lt a a ≡ false
  pub total : (a b : K) → eq a b ≡ false → lt a b ≡ false → lt b a ≡ true

instance abbrev pub text_order : Order Text
text_order = record {
  lt = text_lt;
  eq = text_eq;
  eq_iff = text_eq_iff;
  trans = text_lt_trans;
  irrefl = text_lt_irrefl;
  total = text_lt_total;
}

-- The derived order of a struct of a text and a number.
unfoldable pub pair_lt : Text × ℕ → Text × ℕ → Bool
pair_lt (s, m) (t, n) = text_lt s t || (text_eq s t && ltb m n)

unfoldable pub pair_eq : Text × ℕ → Text × ℕ → Bool
pair_eq (s, m) (t, n) = text_eq s t && m == n

pub pair_eq_iff : (a b : Text × ℕ) → (pair_eq a b ≡ true) ↔ (a ≡ b)
unfolding pair_eq
pair_eq_iff (s, m) (t, n) = ground (arith, text_eq_iff s t)

pub pair_lt_trans :
    (a b c : Text × ℕ) → pair_lt a b ≡ true → pair_lt b c ≡ true → pair_lt a c ≡ true
unfolding pair_lt
pair_lt_trans (s, m) (t, n) (u, k) h l =
    ground (arith, text_eq_iff s t, text_eq_iff t u, text_eq_iff s u, text_lt_trans s t u)

pub pair_lt_irrefl : (a : Text × ℕ) → pair_lt a a ≡ false
unfolding pair_lt
pair_lt_irrefl (s, m) = ground (arith, text_lt_irrefl s)

pub pair_lt_total :
    (a b : Text × ℕ) → pair_eq a b ≡ false → pair_lt a b ≡ false → pair_lt b a ≡ true
unfolding pair_lt pair_eq
pair_lt_total (s, m) (t, n) h l =
    ground (arith, text_lt_total s t, text_eq_iff s t, text_eq_iff t s)

instance abbrev pub pair_order : Order (Text × ℕ)
pair_order = record {
  lt = pair_lt;
  eq = pair_eq;
  eq_iff = pair_eq_iff;
  trans = pair_lt_trans;
  irrefl = pair_lt_irrefl;
  total = pair_lt_total;
}
