-- ===== src/Base/OrdMap.antt =====
-- `BTreeMap<K, V>`: the entries in the order of their keys. The order of strings is that of
-- their UTF-8 bytes, which is that of their scalar values.
use mathlib.Core.Path.{◌≡◌, refl}
use mathlib.Core.Logic.{inl, inr}
use mathlib.Core.Bool.{true, false}
use mathlib.Core.List.{List, [], ◌∷◌, ◌++◌}
use mathlib.Core.Option.{Option, none, some}
use native.Mathlib.Omega.{arith}
use cross_scp.Base.Tests.{if◌then◌else◌, Bool-cases}
use cross_scp.Base.Lists.{All}
use cross_scp.Base.Order.{Order}

module _ {ℓ} {K : Type ℓ} ⦃o : Order K⦄ where
  eq_comm : (a b : K) → o.eq a b ≡ false → o.eq b a ≡ false
  eq_comm a b h = ground (arith, o.eq_iff a b, o.eq_iff b a)

  -- Of two keys, one in front of the other, none is the other.
  lt-ne : (a b : K) → o.lt a b ≡ true → o.eq a b ≡ false
  lt-ne a b h = elim (Bool-cases (o.eq a b)) [
    | inl e ↦ let k : o.lt b b ≡ true = rw ((o.eq_iff a b).0 e) at h in cc (o.irrefl b)
    | inr e ↦ e
  ]

module _ {ℓ κ} {K : Type κ} {V : Type ℓ} where
  unfoldable pub values : List (K × V) → List V
  values [] = []
  values ((k, v) ∷ m) = v ∷ values m

module _ {ℓ κ} {K : Type κ} {V : Type ℓ} ⦃o : Order K⦄ where
  unfoldable pub get : K → List (K × V) → Option V
  get k [] = none
  get k ((j, v) ∷ m) = if o.eq j k then some v else get k m

  unfoldable pub insert : K → V → List (K × V) → List (K × V)
  insert k v [] = (k, v) ∷ []
  insert k v ((j, w) ∷ m) =
      if o.eq j k
      then (k, v) ∷ m
      else if o.lt k j
      then (k, v) ∷ (j, w) ∷ m
      else (j, w) ∷ insert k v m

  unfoldable pub remove : K → List (K × V) → List (K × V)
  remove k [] = []
  remove k ((j, v) ∷ m) = if o.eq j k then m else (j, v) ∷ remove k m

  abbrev pub KeysAbove : K → List (K × V) → Type 0
  KeysAbove k [] = Unit
  KeysAbove k ((j, v) ∷ m) = (o.lt k j ≡ true) × KeysAbove k m

  -- The keys ascend, so that no key stands twice.
  abbrev pub IsSorted : List (K × V) → Type 0
  IsSorted [] = Unit
  IsSorted ((k, v) ∷ m) = KeysAbove k m × IsSorted m

  KeysAbove-trans : (j k : K) (m : List (K × V)) → o.lt j k ≡ true → KeysAbove k m → KeysAbove j m
  KeysAbove-trans j k [] h _ = tt
  KeysAbove-trans j k ((i, v) ∷ m) h (l, a) = (o.trans j k i h l, KeysAbove-trans j k m h a)

  KeysAbove-insert :
      (j k : K) (v : V) (m : List (K × V))
      → o.lt j k ≡ true
      → KeysAbove j m
      → KeysAbove j (insert k v m)
  unfolding insert
  KeysAbove-insert j k v [] h _ = (h, tt)
  KeysAbove-insert j k v ((i, w) ∷ m) h (l, a) = elim (Bool-cases (o.eq i k)) [
    | inl e ↦ rw e (h, a)
    | inr e ↦ elim (Bool-cases (o.lt k i)) [
      | inl f ↦ rw (e, f) (h, (l, a))
      | inr f ↦ rw (e, f) (l, KeysAbove-insert j k v m h a)
    ]
  ]

  pub insert-IsSorted : (k : K) (v : V) (m : List (K × V)) → IsSorted m → IsSorted (insert k v m)
  unfolding insert
  insert-IsSorted k v [] _ = (tt, tt)
  insert-IsSorted k v ((i, w) ∷ m) (a, s) = elim (Bool-cases (o.eq i k)) [
    | inl e ↦ rw e (rw ((o.eq_iff i k).0 e) at a, s)
    | inr e ↦ elim (Bool-cases (o.lt k i)) [
      | inl f ↦ rw (e, f) ((f, KeysAbove-trans k i m f a), (a, s))
      | inr f ↦
          rw (e, f)
            (KeysAbove-insert i k v m (o.total k i (eq_comm i k e) f) a, insert-IsSorted k v m s)
    ]
  ]

  KeysAbove-remove : (j k : K) (m : List (K × V)) → KeysAbove j m → KeysAbove j (remove k m)
  unfolding remove
  KeysAbove-remove j k [] _ = tt
  KeysAbove-remove j k ((i, w) ∷ m) (l, a) = elim (Bool-cases (o.eq i k)) [
    | inl e ↦ rw e a
    | inr e ↦ rw e (l, KeysAbove-remove j k m a)
  ]

  pub remove-IsSorted : (k : K) (m : List (K × V)) → IsSorted m → IsSorted (remove k m)
  unfolding remove
  remove-IsSorted k [] _ = tt
  remove-IsSorted k ((i, w) ∷ m) (a, s) = elim (Bool-cases (o.eq i k)) [
    | inl e ↦ rw e s
    | inr e ↦ rw e (KeysAbove-remove i k m a, remove-IsSorted k m s)
  ]

  pub get-insert :
      (k j : K) (v : V) (m : List (K × V))
      → get j (insert k v m) ≡ (if o.eq k j then some v else get j m)
  unfolding get insert
  get-insert k j v [] = refl
  get-insert k j v ((i, w) ∷ m) =
      ground (arith, o.eq_iff k j, o.eq_iff i k, o.eq_iff i j, get-insert k j v m)

  get-KeysAbove : (k : K) (m : List (K × V)) → KeysAbove k m → get k m ≡ none
  unfolding get
  get-KeysAbove k [] _ = refl
  get-KeysAbove k ((i, w) ∷ m) (l, a) = rw (eq_comm k i (lt-ne k i l)) (get-KeysAbove k m a)

  pub get-remove :
      (k j : K) (m : List (K × V))
      → IsSorted m
      → get j (remove k m) ≡ (if o.eq k j then none else get j m)
  unfolding get remove
  get-remove k j [] _ = ground arith
  get-remove k j ((i, w) ∷ m) (a, s) = elim (Bool-cases (o.eq i k)) [
    | inl e ↦
        let q : i ≡ k = (o.eq_iff i k).0 e in
        elim (Bool-cases (o.eq k j)) [
          | inl f ↦
              let r : k ≡ j = (o.eq_iff k j).0 f in
              let absent : get j m ≡ none = rw (q, r) at (get-KeysAbove i m a) in rw (e, f) absent
          | inr f ↦ rw (e, f, q, f)
        ]
    | inr e ↦ ground (arith, o.eq_iff k j, o.eq_iff i k, o.eq_iff i j, get-remove k j m s)
  ]

  pub remove_absent : (k : K) (m : List (K × V)) → get k m ≡ none → remove k m ≡ m
  unfolding get remove
  remove_absent k [] h = refl
  remove_absent k ((i, w) ∷ m) h = ground (arith, remove_absent k m)

  abbrev pub KeysBelow : K → List (K × V) → Type 0
  KeysBelow k [] = Unit
  KeysBelow k ((j, v) ∷ m) = (o.lt j k ≡ true) × KeysBelow k m

  KeysAbove-lt :
      (j k : K) (v : V) (m rest : List (K × V)) → KeysAbove j (m ++ (k, v) ∷ rest) → o.lt j k ≡ true
  KeysAbove-lt j k v [] rest (h, _) = h
  KeysAbove-lt j k v ((i, u) ∷ m) rest (_, h) = KeysAbove-lt j k v m rest h

  pub KeysBelow-of_sorted :
      (k : K) (v : V) (done rest : List (K × V))
      → IsSorted (done ++ (k, v) ∷ rest)
      → KeysBelow k done
  KeysBelow-of_sorted k v [] rest _ = tt
  KeysBelow-of_sorted k v ((j, w) ∷ done) rest (a, s) =
      (KeysAbove-lt j k v done rest a, KeysBelow-of_sorted k v done rest s)

  -- A key behind all others goes to the end.
  pub insert-append :
      (k : K) (v : V) (m : List (K × V)) → KeysBelow k m → insert k v m ≡ m ++ (k, v) ∷ []
  unfolding insert
  insert-append k v [] _ = refl
  insert-append k v ((i, w) ∷ m) (l, b) =
      let n = lt-ne i k l in
      elim (Bool-cases (o.lt k i)) [
        | inl f ↦ let h : o.lt i i ≡ true = o.trans i k i l f in cc (o.irrefl i)
        | inr f ↦ rw (n, f, insert-append k v m b)
      ]

module _ {ℓ κ μ} {K : Type μ} {V : Type ℓ} ⦃o : Order K⦄ (P : K × V → Type κ) where
  pub All-insert : (k : K) (v : V) (m : List (K × V)) → P (k, v) → All P m → All P (insert k v m)
  unfolding insert
  All-insert k v [] e _ = (e, tt)
  All-insert k v ((j, w) ∷ m) e (h, hs) = elim (Bool-cases (o.eq j k)) [
    | inl a ↦ rw a (e, hs)
    | inr a ↦ elim (Bool-cases (o.lt k j)) [
      | inl b ↦ rw (a, b) (e, (h, hs))
      | inr b ↦ rw (a, b) (h, All-insert k v m e hs)
    ]
  ]

  pub All-remove : (k : K) (m : List (K × V)) → All P m → All P (remove k m)
  unfolding remove
  All-remove k [] _ = tt
  All-remove k ((j, w) ∷ m) (h, hs) = elim (Bool-cases (o.eq j k)) [
    | inl a ↦ rw a hs
    | inr a ↦ rw a (h, All-remove k m hs)
  ]
