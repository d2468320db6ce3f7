-- ===== src/Base/TextLaws.antt =====
-- Laws of the methods of `str`: what `trim` leaves, and splitting what has been joined.
use Prim.Native.Nat.{ℕ}
use mathlib.Core.Path.{◌≡◌, refl, ◌∙◌}
use mathlib.Core.Logic.{◌≢◌, inl, inr}
use mathlib.Core.Bool.{true, false}
use mathlib.Core.List.{List, [], ◌∷◌, ◌++◌, append-nil, append_assoc}
use native.Mathlib.Omega.{arith}
use cross_scp.Base.Tests.{if◌then◌else◌, Bool-cases}
use cross_scp.Base.Lists.{is_empty, All, All-append}
use cross_scp.Base.Text.{
  Text, is_whitespace, trim_start, trim_end_by, trim, split_from, split, join, strip_cr, lines_from,
  lines,
}

abbrev pub Lacks : ℕ → Text → Type 0
Lacks c = All (λ d. d ≢ c)

abbrev pub IsBlank : Text → Type 0
IsBlank = All (λ c. is_whitespace c ≡ true)

trim_end-IsBlank : (s : Text) → is_empty (trim_end_by is_whitespace s) ≡ true → IsBlank s
unfolding trim_end_by
trim_end-IsBlank [] h = tt
trim_end-IsBlank (c ∷ s) h = go (trim_end_by is_whitespace s) (trim_end-IsBlank s) h
  where
    go :
        (t : Text)
        → (is_empty t ≡ true → IsBlank s)
        → is_empty (elim t [ [] ↦ if is_whitespace c then [] else c ∷ [] | d ∷ u ↦ c ∷ d ∷ u ])
          ≡ true
        → IsBlank (c ∷ s)
    go [] ih e = elim (Bool-cases (is_whitespace c)) [
      | inl w ↦ (w, ih refl)
      | inr w ↦ let f : false ≡ true = rw w at e in cc
    ]
    go (d ∷ u) ih e = cc

trim_start-IsBlank : (s : Text) → IsBlank (trim_start s) → IsBlank s
unfolding trim_start
trim_start-IsBlank [] h = tt
trim_start-IsBlank (c ∷ s) h = elim (Bool-cases (is_whitespace c)) [
  | inl w ↦ (w, trim_start-IsBlank s (rw w at h))
  | inr w ↦ rw w at h
]

-- A text that `trim` empties holds white space only.
pub trim-IsBlank : (s : Text) → is_empty (trim s) ≡ true → IsBlank s
unfolding trim
trim-IsBlank s h = trim_start-IsBlank s (trim_end-IsBlank (trim_start s) h)

split_from-append :
    (sep : ℕ) (part s rest : Text)
    → Lacks sep s
    → split_from sep part (s ++ rest) ≡ split_from sep (part ++ s) rest
unfolding split_from
split_from-append sep part [] rest _ = rw append-nil
split_from-append sep part (c ∷ s) rest (n, h) =
    ground (arith, split_from-append sep (part ++ c ∷ []) s rest h, append_assoc part (c ∷ []) s)

split_from-sep :
    (sep : ℕ) (part rest : Text) → split_from sep part (sep ∷ rest) ≡ part ∷ split_from sep [] rest
unfolding split_from
split_from-sep sep part rest = ground arith

split_from-last : (sep : ℕ) (s : Text) → Lacks sep s → split_from sep [] s ≡ s ∷ []
split_from-last sep s h = let e = split_from-append sep [] s [] h in rw append-nil at (e ∙ last s)
  where
    last : (t : Text) → split_from sep t [] ≡ t ∷ []
    last t = unfold split_from in refl

-- Texts without the separator are found again in their join.
pub split-join :
    (sep : ℕ) (s : Text) (parts : List Text)
    → All (Lacks sep) (s ∷ parts)
    → split sep (join sep (s ∷ parts)) ≡ s ∷ parts
unfolding split join
split-join sep s [] (h, _) = split_from-last sep s h
split-join sep s (t ∷ parts) (h, hs) =
    rw (split_from-append sep [] s _ h, split_from-sep, split-join sep t parts hs)

pub join-Lacks :
    (c sep : ℕ) (s : Text) (parts : List Text)
    → sep ≢ c
    → All (Lacks c) (s ∷ parts)
    → Lacks c (join sep (s ∷ parts))
unfolding join
join-Lacks c sep s [] n (h, _) = h
join-Lacks c sep s (t ∷ parts) n (h, hs) =
    All-append (λ d. d ≢ c) s _ h (n, join-Lacks c sep t parts n hs)

-- The text does not end in a carriage return.
abbrev pub NoCr : Text → Type 0
NoCr [] = Unit
NoCr (c ∷ []) = c ≢ b'\r'
NoCr (c ∷ d ∷ s) = NoCr (d ∷ s)

pub strip_cr-NoCr : (s : Text) → NoCr s → strip_cr s ≡ s
unfolding strip_cr
strip_cr-NoCr [] _ = refl
strip_cr-NoCr (c ∷ []) n = ground arith
strip_cr-NoCr (c ∷ d ∷ s) n = rw (strip_cr-NoCr (d ∷ s) n)

pub NoCr-append : (s : Text) (c : ℕ) (t : Text) → NoCr (c ∷ t) → NoCr (s ++ c ∷ t)
NoCr-append [] c t h = h
NoCr-append (x ∷ []) c t h = h
NoCr-append (x ∷ y ∷ s) c t h = NoCr-append (y ∷ s) c t h

pub NoCr-cons : (c : ℕ) (t : Text) → c ≢ b'\r' → NoCr t → NoCr (c ∷ t)
NoCr-cons c [] n _ = n
NoCr-cons c (d ∷ t) n h = h

lines_from-append :
    (line s rest : Text)
    → Lacks b'\n' s
    → lines_from line (s ++ b'\n' ∷ rest) ≡ strip_cr (line ++ s) ∷ lines_from [] rest
unfolding lines_from
lines_from-append line [] rest _ = rw append-nil
lines_from-append line (c ∷ s) rest (n, h) =
    ground (arith, lines_from-append (line ++ c ∷ []) s rest h, append_assoc line (c ∷ []) s)

-- A line without line feed, and with no carriage return at its end, is the first line.
pub lines-cons :
    (s rest : Text) → Lacks b'\n' s → NoCr s → lines (s ++ b'\n' ∷ rest) ≡ s ∷ lines rest
unfolding lines
lines-cons s rest h n = rw (lines_from-append [] s rest h, strip_cr-NoCr s n)
