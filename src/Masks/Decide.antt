-- ===== src/Masks/Decide.antt =====
-- The ordered masks: exclusions win, and an empty list of inclusions includes every path.
use cross_scp.Base.{
  List, [], ◌∷◌, ◌++◌, Bool, true, ◌||◌, ◌≡◌, ◌⊎◌, ◌↔◌, refl, arith, if◌then◌else◌, is_empty, any,
}
use cross_scp.Base.Text.{Text}
use cross_scp.Masks.{FileMask, matches, included, excluded, MaskSet, include, exclude, decide}

-- Some mask of the list matches the path.
abbrev pub Hit : List FileMask → Text → Type 0
Hit masks path = any (λ mask. matches mask path) masks ≡ true

any-append {ℓ} :
    {A : Type ℓ} (p : A → Bool) (xs ys : List A) → any p (xs ++ ys) ≡ any p xs || any p ys
unfolding any
any-append p [] ys = refl
any-append p (x ∷ xs) ys = ground (arith, any-append p xs ys)

-- A path is included exactly if no exclusion matches it, and the inclusions are empty or one of
-- them matches it.
pub decide_iff :
    (m : MaskSet) (path : Text)
    → (decide m path ≡ included)
      ↔ ((¬ Hit m.excludes path) × ((m.includes ≡ []) ⊎ Hit m.includes path))
unfolding decide
decide_iff m path = (λ h. (ground arith, ground arith), λ h. ground (arith, h.0))

-- One more exclusion: it excludes what it matches, and leaves every other decision as it was.
pub decide-exclude :
    (m : MaskSet) (pattern path : Text)
    → decide (exclude m pattern) path
      ≡ (if matches (record { pattern = pattern }) path then excluded else decide m path)
unfolding decide exclude
decide-exclude m pattern path =
    ground
      (arith, any-append (λ mask. matches mask path) m.excludes (record { pattern = pattern } ∷ []))

-- One more inclusion, behind at least one: it includes what it matches and no exclusion matches, and
-- leaves every other decision as it was. The first one excludes all that it does not match.
pub decide-include :
    (m : MaskSet) (pattern path : Text)
    → decide (include m pattern) path ≡ (
        if any (λ mask. matches mask path) m.excludes
        then excluded
        else if matches (record { pattern = pattern }) path
        then included
        else if is_empty m.includes
        then excluded
        else decide m path)
unfolding decide include
decide-include m pattern path =
    ground
      (arith, any-append (λ mask. matches mask path) m.includes (record { pattern = pattern } ∷ []))
