-- ===== src/Base/Decimal.antt =====
-- Decimal print (`to_string`) and read (`str::parse`) of unsigned integers.
use Prim.Native.Nat.{ℕ, zero, suc, ◌+◌, ◌-◌, ◌*◌, ◌/◌, ◌%◌, ◌≤◌, ◌<◌}
use mathlib.Core.Path.{◌≡◌, refl, sym}
use mathlib.Core.Logic.{◌≢◌, inl, inr}
use mathlib.Core.Bool.{Bool, ◌&&◌}
use mathlib.Core.List.{[], ◌∷◌}
use mathlib.Core.Option.{Option, none, some}
use native.Mathlib.Omega.{arith}
use cross_scp.Base.Tests.{ltb, leb, ◌==◌, if◌then◌else◌, Bool-cases, some_eq}
use cross_scp.Base.Lists.{All}
use cross_scp.Base.Text.{Text}

-- The digits of `n` in front of `out`, with fuel above `n`.
digits : ℕ → ℕ → Text → Text
digits zero n out = out
digits (suc fuel) n out =
    let rest = digits fuel (n / 10) ((b'0' + n % 10) ∷ out) in
    if ltb n 10 then (b'0' + n) ∷ out else rest

unfoldable pub to_string : ℕ → Text
unfolding digits
to_string n = digits (suc n) n []

abbrev pub is_digit : ℕ → Bool
is_digit c = leb b'0' c && leb c b'9'

-- Reads digits behind the number `n`, with an error where the value reaches `bound`.
scan : ℕ → Text → ℕ → Option ℕ
scan bound [] n = some n
scan bound (c ∷ s) n =
    let m = n * 10 + (c - b'0') in
    let rest = scan bound s m in if is_digit c then (if ltb m bound then rest else none) else none

-- `parse` of an unsigned type whose values lie below `bound`: one `+` may stand in front.
unfoldable pub parse : ℕ → Text → Option ℕ
unfolding scan
parse bound [] = none
parse bound (c ∷ []) = scan bound (c ∷ []) 0
parse bound (c ∷ d ∷ s) = if c == b'+' then scan bound (d ∷ s) 0 else scan bound (c ∷ d ∷ s) 0

abbrev pub IsDigit : ℕ → Type 0
IsDigit c = (b'0' ≤ c) × (c ≤ b'9')

scan-digits :
    (bound fuel n : ℕ) (out : Text)
    → n < fuel
    → n < bound
    → scan bound (digits fuel n out) 0 ≡ scan bound out n
unfolding digits scan
scan-digits bound zero n out h b = absurd (omega arith)
scan-digits bound (suc fuel) n out h b = elim (Bool-cases (ltb n 10)) [
  | inl e ↦ rw e (ground arith)
  | inr e ↦ rw (e, scan-digits bound fuel (n / 10) _ (ground arith) (ground arith)) (ground arith)
]

digits-IsDigit : (fuel n : ℕ) (out : Text) → All IsDigit out → All IsDigit (digits fuel n out)
unfolding digits
digits-IsDigit zero n out h = h
digits-IsDigit (suc fuel) n out h = elim (Bool-cases (ltb n 10)) [
  | inl e ↦ rw e (ground arith, h)
  | inr e ↦ rw e (digits-IsDigit fuel (n / 10) _ (omega arith, h))
]

pub to_string-IsDigit : (n : ℕ) → All IsDigit (to_string n)
unfolding to_string
to_string-IsDigit n = digits-IsDigit (suc n) n [] tt

digits-ne-nil : (fuel n : ℕ) (out : Text) → n < fuel → digits fuel n out ≢ []
unfolding digits
digits-ne-nil zero n out h = absurd (omega arith)
digits-ne-nil (suc fuel) n out h = elim (Bool-cases (ltb n 10)) [
  | inl e ↦ rw e (cc)
  | inr e ↦ rw e (digits-ne-nil fuel (n / 10) _ (ground arith))
]

pub to_string-ne-nil : (n : ℕ) → to_string n ≢ []
unfolding to_string
to_string-ne-nil n = digits-ne-nil (suc n) n [] (omega arith)

parse-scan : (bound : ℕ) (s : Text) → s ≢ [] → All IsDigit s → parse bound s ≡ scan bound s 0
unfolding parse
parse-scan bound [] n h = absurd (n refl)
parse-scan bound (c ∷ []) n h = refl
parse-scan bound (c ∷ d ∷ s) n (h, _) = ground arith

-- A printed number is read back.
pub parse-to_string : (bound n : ℕ) → n < bound → parse bound (to_string n) ≡ some n
unfolding to_string scan
parse-to_string bound n h =
    rw (parse-scan bound _ (to_string-ne-nil n) (to_string-IsDigit n))
      (scan-digits bound (suc n) n [] (omega arith) h)

-- Different numbers are printed differently.
pub to_string-injective : (n m : ℕ) → to_string n ≡ to_string m → n ≡ m
to_string-injective n m e = some_eq (
    rw (e, parse-to_string (n + m + 1) m (omega arith)) at
      (sym (parse-to_string (n + m + 1) n (omega arith))))

scan-bound : (bound n : ℕ) (s : Text) {m : ℕ} → n < bound → scan bound s n ≡ some m → m < bound
unfolding scan
scan-bound bound n [] b h = let e = some_eq h in omega (arith, e)
scan-bound bound n (c ∷ s) b h = elim (Bool-cases (is_digit c)) [
  | inr e ↦ cc (rw e at h)
  | inl e ↦ elim (Bool-cases (ltb (n * 10 + (c - b'0')) bound)) [
    | inr f ↦ cc (rw (e, f) at h)
    | inl f ↦ scan-bound bound (n * 10 + (c - b'0')) s (ground arith) (rw (e, f) at h)
  ]
]

-- What is read fits the type.
pub parse-bound : (bound : ℕ) (s : Text) {m : ℕ} → 0 < bound → parse bound s ≡ some m → m < bound
unfolding parse
parse-bound bound [] b h = cc
parse-bound bound (c ∷ []) b h = scan-bound bound 0 (c ∷ []) b h
parse-bound bound (c ∷ d ∷ s) b h = elim (Bool-cases (c == b'+')) [
  | inl e ↦ scan-bound bound 0 (d ∷ s) b (rw e at h)
  | inr e ↦ scan-bound bound 0 (c ∷ d ∷ s) b (rw e at h)
]
