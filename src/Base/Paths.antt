-- ===== src/Base/Paths.antt =====
-- `rsplit_once` and `ends_with` of `str`, for the last part of a path or of a file name.
use Prim.Native.Nat.{ℕ}
use mathlib.Core.Path.{◌≡◌, refl}
use mathlib.Core.Bool.{Bool, false}
use mathlib.Core.Option.{Option, none, some}
use mathlib.Core.List.{[], ◌∷◌, ◌++◌}
use native.Mathlib.Omega.{arith}
use cross_scp.Base.Tests.{◌==◌, if◌then◌else◌}
use cross_scp.Base.Text.{Text, trim_end_by, trim_end_matches}
use cross_scp.Base.TextLaws.{Lacks}

abbrev longer : ℕ → Text × Text → Text × Text
longer c (before, after) = (c ∷ before, after)

-- `rsplit_once`
unfoldable pub rsplit_once : ℕ → Text → Option (Text × Text)
rsplit_once sep [] = none
rsplit_once sep (c ∷ s) = elim (rsplit_once sep s) [
  | some parts ↦ some (longer c parts)
  | none ↦ if c == sep then some ([], s) else none
]

-- `ends_with` for one character
unfoldable pub ends_with : Text → ℕ → Bool
ends_with [] sep = false
ends_with (c ∷ []) sep = c == sep
ends_with (c ∷ d ∷ s) sep = ends_with (d ∷ s) sep

pub rsplit_once-none : (sep : ℕ) (s : Text) → Lacks sep s → rsplit_once sep s ≡ none
unfolding rsplit_once
rsplit_once-none sep [] _ = refl
rsplit_once-none sep (c ∷ s) (n, l) = rw (rsplit_once-none sep s l) (ground arith)

pub rsplit_once-append :
    (sep : ℕ) (s t : Text) → Lacks sep t → rsplit_once sep (s ++ sep ∷ t) ≡ some (s, t)
unfolding rsplit_once
rsplit_once-append sep [] t l = rw (rsplit_once-none sep t l) (ground arith)
rsplit_once-append sep (c ∷ s) t l = rw (rsplit_once-append sep s t l) refl

trim_end_Lacks : (sep c : ℕ) (s : Text) → Lacks sep (c ∷ s) → trim_end_matches sep (c ∷ s) ≡ c ∷ s
unfolding trim_end_matches trim_end_by
trim_end_Lacks sep c [] (n, _) = ground arith
trim_end_Lacks sep c (d ∷ s) (n, l) = rw (trim_end_Lacks sep d s l) refl

-- Nothing is trimmed off a text whose last part is free of the separator.
pub trim_end-append :
    (sep c : ℕ) (s t : Text) → Lacks sep (c ∷ t) → trim_end_matches sep (s ++ c ∷ t) ≡ s ++ c ∷ t
unfolding trim_end_matches trim_end_by
trim_end-append sep c [] t l = trim_end_Lacks sep c t l
trim_end-append sep c (x ∷ []) t l = rw (trim_end_Lacks sep c t l) refl
trim_end-append sep c (x ∷ y ∷ s) t l = rw (trim_end-append sep c (y ∷ s) t l) refl
