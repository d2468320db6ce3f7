-- ===== src/Machine/Call.antt =====
-- A method that changes the state of the machine and may fail, as the `?` operator chains them. A
-- loop or a recursion on fuel stops with `out_of_fuel` where the source would go on.
use cross_scp.Base.{◌≡◌, refl, ap, not, Option, none, some, Bool, true, false}
use cross_scp.Base.Result.{Result, ok, err}

pub data Stop (E : Type 0) : Type 0 where
  fail : E → Stop E
  out_of_fuel : Stop E

abbrev pub Call : Type 0 → Type 0 → Type 0 → Type 0
Call W E A = W → W × Result (Stop E) A

module _ {W E : Type 0} where
  abbrev pub after :
      {A B : Type 0} → W × Result (Stop E) A → (A → Call W E B) → W × Result (Stop E) B
  after (w, err e) next = (w, err e)
  after (w, ok a) next = next a w

  infixl 5 ◌>>=◌
  abbrev pub ◌>>=◌ : {A B : Type 0} → Call W E A → (A → Call W E B) → Call W E B
  (method >>= next) w = after (method w) next

  infixl 5 ◌>>◌
  abbrev pub ◌>>◌ : {A : Type 0} → Call W E (Unit {0}) → Call W E A → Call W E A
  method >> next = method >>= λ done. next

  abbrev pub return : {A : Type 0} → A → Call W E A
  return a w = (w, ok a)

  -- `if condition { ... }`
  abbrev pub when : Bool → Call W E (Unit {0}) → Call W E (Unit {0})
  when true method w = method w
  when false method w = (w, ok tt)

  abbrev pub throw : {A : Type 0} → E → Call W E A
  throw e w = (w, err (fail e))

  abbrev pub exhausted : {A : Type 0} → Call W E A
  exhausted w = (w, err out_of_fuel)

  -- A result that is there already, with `?`.
  abbrev pub from_result : {A : Type 0} → Result E A → Call W E A
  from_result (ok a) w = (w, ok a)
  from_result (err e) w = (w, err (fail e))

  abbrev pub converted : {F A : Type 0} → (F → E) → W × Result F A → W × Result (Stop E) A
  converted from (w, ok a) = (w, ok a)
  converted from (w, err e) = (w, err (fail (from e)))

  -- A call of a library, its error turned into one of `E`.
  abbrev pub calling : {F A : Type 0} → (F → E) → (W → W × Result F A) → Call W E A
  calling from method w = converted from (method w)

  -- A call whose result is looked at.
  abbrev pub looking :
      {F A B : Type 0} → (W → W × Result F A) → (Result F A → Call W E B) → Call W E B
  looking method next w = let (v, r) = method w in next r v

  abbrev pub reading : {A B : Type 0} → (W → W × A) → (A → Call W E B) → Call W E B
  reading method next w = let (v, a) = method w in next a v

  abbrev pub change : (W → W) → Call W E (Unit {0})
  change f w = (f w, ok tt)

module _ {W E : Type 0} where
  -- A chain that succeeds did so at its first link.
  pub after-eq-ok :
      {A B : Type 0} (first : W × Result (Stop E) A) (next : A → Call W E B) {last : W} {b : B}
      → after first next ≡ (last, ok b)
      → (a : A) × (first ≡ (first.0, ok a)) × (next a first.0 ≡ (last, ok b))
  after-eq-ok (w, err e) next h = cc
  after-eq-ok (w, ok a) next h = (a, refl, h)

module _ {W E A B : Type 0} where
  pub >>=-eq-ok :
      (method : Call W E A) (next : A → Call W E B) (w : W) {last : W} {b : B}
      → (method >>= next) w ≡ (last, ok b)
      → (a : A) × (v : W) × (method w ≡ (v, ok a)) × (next a v ≡ (last, ok b))
  >>=-eq-ok method next w h =
      let (a, e, k) = after-eq-ok (method w) next h in (a, (method w).0, e, k)

module _ {W E : Type 0} where
  pub from_result-eq-ok :
      {A : Type 0} (r : Result E A) (w : W) {a : A} {v : W}
      → ◌≡◌ {A = W × Result (Stop E) A} (from_result r w) (v, ok a)
      → (r ≡ ok a) × (w ≡ v)
  from_result-eq-ok (ok b) w h = (cc, ap (λ r. r.0) h)
  from_result-eq-ok (err e) w h = cc

  converted-eq-ok :
      {F : Type 0} (from : F → E) (r : W × Result F (Unit {0})) {v : W}
      → converted from r ≡ (v, ok tt)
      → r ≡ (v, ok tt)
  converted-eq-ok from (w, ok _) h = ap (λ r. (r.0, ok tt)) h
  converted-eq-ok from (w, err e) h = cc

  pub calling-eq-ok :
      {F : Type 0} (from : F → E) (method : W → W × Result F (Unit {0})) (w : W) {v : W}
      → calling from method w ≡ (v, ok tt)
      → method w ≡ (v, ok tt)
  calling-eq-ok from method w h = converted-eq-ok from (method w) h

  pub when-throw-eq-ok :
      (b : Bool) (e : E) (w : W) {u : Unit {0}} {v : W}
      → ◌≡◌ {A = W × Result (Stop E) (Unit {0})} (when (not b) (throw e) w) (v, ok u)
      → (b ≡ true) × (w ≡ v)
  when-throw-eq-ok true e w h = (refl, ap (λ r. r.0) h)
  when-throw-eq-ok false e w h = cc

  pub return-eq-ok :
      {A : Type 0} {a b : A} {w v : W}
      → ◌≡◌ {A = W × Result (Stop E) A} (w, ok a) (v, ok b)
      → (w ≡ v) × (a ≡ b)
  return-eq-ok h = (ap (λ r. r.0) h, cc)

-- What a method keeps, however it ends.
abbrev pub Keeps : {W E A : Type 0} → (W → Type 0) → Call W E A → Type 0
Keeps {W} P method = (w : W) → P w → P (method w).0

module _ {W E : Type 0} (P : W → Type 0) where
  pub after-Keeps :
      {A B : Type 0} (first : W × Result (Stop E) A) (next : A → Call W E B)
      → P first.0
      → ((a : A) → Keeps P (next a))
      → P (after first next).0
  after-Keeps (w, err e) next p k = p
  after-Keeps (w, ok a) next p k = k a w p

  pub >>=-Keeps :
      {A B : Type 0} (method : Call W E A) (next : A → Call W E B)
      → Keeps P method
      → ((a : A) → Keeps P (next a))
      → Keeps P (method >>= next)
  >>=-Keeps method next k l w p = after-Keeps (method w) next (k w p) l

  pub converted-Keeps :
      {F A : Type 0} (from : F → E) (r : W × Result F A) → P r.0 → P (converted from r).0
  converted-Keeps from (w, ok a) p = p
  converted-Keeps from (w, err e) p = p

  pub calling-Keeps :
      {F A : Type 0} (from : F → E) (method : W → W × Result F A)
      → ((w : W) → P w → P (method w).0)
      → Keeps P (calling from method)
  calling-Keeps from method k w p = converted-Keeps from (method w) (k w p)

  pub looking-Keeps :
      {F A B : Type 0} (method : W → W × Result F A) (next : Result F A → Call W E B)
      → ((w : W) → P w → P (method w).0)
      → ((r : Result F A) → Keeps P (next r))
      → Keeps P (looking method next)
  looking-Keeps method next k l w p = l (method w).1 (method w).0 (k w p)

module _ {W E A : Type 0} (P : W → Type 0) where
  -- A case that is split keeps what all its branches keep.
  pub option-Keeps :
      {B : Type 0} (o : Option B) (f : B → Call W E A) (m : Call W E A)
      → ((b : B) → Keeps P (f b))
      → Keeps P m
      → Keeps P (elim o as (λ _. Call W E A) [ some b ↦ f b | none ↦ m ])
  option-Keeps none f m k l = l
  option-Keeps (some b) f m k l = k b

  pub result-Keeps :
      {F B : Type 0} (r : Result F B) (f : B → Call W E A) (m : F → Call W E A)
      → ((b : B) → Keeps P (f b))
      → ((e : F) → Keeps P (m e))
      → Keeps P (elim r as (λ _. Call W E A) [ ok b ↦ f b | err e ↦ m e ])
  result-Keeps (ok b) f m k l = k b
  result-Keeps (err e) f m k l = l e

  pub bool-Keeps :
      (b : Bool) (m n : Call W E A)
      → Keeps P m
      → Keeps P n
      → Keeps P (elim b as (λ _. Call W E A) [ true ↦ m | false ↦ n ])
  bool-Keeps true m n k l = k
  bool-Keeps false m n k l = l

-- A method does not run out of fuel.
abbrev pub Ends : {W E A : Type 0} → Call W E A → Type 0
Ends {W} method = (w : W) → (method w).1 ≡ err out_of_fuel → ⊥
