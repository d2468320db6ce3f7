-- ===== src/Base/Result.antt =====
-- `Result<T, E>` with the `?` operator as its bind.
use mathlib.Core.Path.{◌≡◌, refl}
use mathlib.Core.Logic.{◌⊎◌, inl, inr}
use mathlib.Core.Bool.{Bool, true, false}
use mathlib.Core.Option.{Option, none, some}

pub data Result {ℓ κ} (E : Type ℓ) (A : Type κ) : Type (ℓ ⊔ κ) where
  ok : A → Result E A
  err : E → Result E A

module _ {ℓ κ μ} {Error : Type μ} {Value : Type κ} where
  -- `?` hands the error on and goes on with the value.
  infixl 5 ◌>>=◌
  abbrev pub ◌>>=◌ :
      {Input : Type ℓ} → Result Error Input → (Input → Result Error Value) → Result Error Value
  err why >>= rest = err why
  ok value >>= rest = rest value

module _ {κ μ} {Error : Type μ} {Value : Type κ} where
  infixl 5 ◌>>◌
  abbrev pub ◌>>◌ : Result Error (Unit {0}) → Result Error Value → Result Error Value
  first >> rest = first >>= λ done. rest

-- `if condition { return Err(e) }`.
abbrev pub fail_if {ℓ} : {E : Type ℓ} → Bool → E → Result E (Unit {0})
fail_if true e = err e
fail_if false e = ok tt

-- `ok_or`
abbrev pub ok_or {ℓ κ} : {E : Type ℓ} {A : Type κ} → Option A → E → Result E A
ok_or none e = err e
ok_or (some a) e = ok a

-- `map_err`
abbrev pub map_err {ℓ κ μ} :
    {E : Type ℓ} {F : Type κ} {A : Type μ} → (E → F) → Result E A → Result F A
map_err f (ok a) = ok a
map_err f (err e) = err (f e)

-- `transpose` of an optional result.
abbrev pub transpose {ℓ κ} : {E : Type ℓ} {A : Type κ} → Option (Result E A) → Result E (Option A)
transpose none = ok none
transpose (some (ok a)) = ok (some a)
transpose (some (err e)) = err e

-- A chain that succeeds did so at its first link.
module _ {ℓ κ μ} {Error : Type μ} {Input : Type ℓ} {Value : Type κ} {result : Value} where
  pub >>=-eq-ok :
      (first : Result Error Input) (rest : Input → Result Error Value)
      → first >>= rest ≡ ok result
      → (input : Input) × (first ≡ ok input) × (rest input ≡ ok result)
  >>=-eq-ok (err why) rest chain = cc
  >>=-eq-ok (ok input) rest chain = (input, refl, chain)

pub Result-cases {ℓ κ} :
    {E : Type ℓ} {A : Type κ} (r : Result E A) → ((a : A) × (r ≡ ok a)) ⊎ ((e : E) × (r ≡ err e))
Result-cases (ok a) = inl (a, refl)
Result-cases (err e) = inr (e, refl)

-- Inversion of the smaller steps of a chain.
pub fail_if-eq-ok {ℓ} :
    {E : Type ℓ} (b : Bool) (e : E) {u : Unit {0}} → fail_if b e ≡ ok u → b ≡ false
fail_if-eq-ok true e h = cc
fail_if-eq-ok false e h = refl

pub ok_or-eq-ok {ℓ κ} :
    {E : Type ℓ} {A : Type κ} (o : Option A) (e : E) {a : A} → ok_or o e ≡ ok a → o ≡ some a
ok_or-eq-ok none e h = cc
ok_or-eq-ok (some a) e h = cc

pub map_err-eq-ok {ℓ κ μ} :
    {E : Type ℓ} {F : Type κ} {A : Type μ} (f : E → F) (r : Result E A) {a : A}
    → map_err f r ≡ ok a
    → r ≡ ok a
map_err-eq-ok f (ok a) h = cc
map_err-eq-ok f (err e) h = cc
