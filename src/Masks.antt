-- ===== src/Masks.antt =====
-- crates/crossscp-core/src/masks.rs: glob masks over the bytes of a path, and the ordered sets of
-- masks to include and to exclude. The loop of `wildcard_match` is `scan`, one round of it `step`.
pub mod Matches
mod Steps
mod Fuel
mod Sound
mod Complete
pub mod Correct
pub mod Decide
mod Examples
use cross_scp.Base.{
  ℕ, zero, suc, ◌+◌, ◌*◌, List, [], ◌∷◌, ◌++◌, Option, none, some, Bool, true, false, ◌||◌, ◌==◌,
  if◌then◌else◌, length, get_elem?, is_empty, any,
}
use cross_scp.Base.Text.{Text, as_bytes}

abbrev pub Bytes : Type 0
Bytes = List ℕ

-- The variables of the loop: `p`, `t`, `star` and `star_text`.
pub record Cursor : Type 0 where
  pub p : ℕ
  pub t : ℕ
  pub star : Option ℕ
  pub star_text : ℕ

-- One round: another one follows, `return false`, or `t` has reached the end.
pub data Round : Type 0 where
  continue : Cursor → Round
  rejected : Round
  ended : ℕ → Round

-- The branch `else if let Some(star_index) = star`, and the last one.
pub retry : Option ℕ → Cursor → Round
retry none s = rejected
retry (some star_index) s = continue (record {
  p = star_index + 1;
  t = s.star_text + 1;
  star = some star_index;
  star_text = s.star_text + 1;
})

-- A round, by `text[t]` and `pattern[p]`, each `none` out of range.
pub advance : Option ℕ → Option ℕ → Cursor → Round
advance none x s = ended s.p
advance (some y) none s = retry s.star s
advance (some y) (some x) s =
    if x == b'?' || x == y
    then continue (record s { p = s.p + 1; t = s.t + 1 })
    else if x == b'*'
    then continue (record s { p = s.p + 1; star = some s.p; star_text = s.t })
    else retry s.star s

pub step : Bytes → Bytes → Cursor → Round
step pattern text s = advance (get_elem? text s.t) (get_elem? pattern s.p) s

-- How the first `while` ends: `none` if the fuel ran out, `some none` for `return false`,
-- `some (some p)` when the text is used up.
pub follow : (Cursor → Option (Option ℕ)) → Round → Option (Option ℕ)
follow rounds (continue s) = rounds s
follow rounds rejected = some none
follow rounds (ended p) = some (some p)

pub scan : ℕ → Bytes → Bytes → Cursor → Option (Option ℕ)
scan zero pattern text s = none
scan (suc fuel) pattern text s = follow (scan fuel pattern text) (step pattern text s)

-- The second `while`, on the rounds left. A round knows `pattern[p]` and where the others would end.
pub past_star : Option ℕ → ℕ → ℕ → ℕ
past_star none p rest = p
past_star (some x) p rest = if x == b'*' then rest else p

pub skip_stars : ℕ → Bytes → ℕ → ℕ
skip_stars zero pattern p = p
skip_stars (suc rounds) pattern p =
    past_star (get_elem? pattern p) p (skip_stars rounds pattern (p + 1))

-- `p == pattern.len()` behind the two loops.
pub finish : Bytes → Option (Option ℕ) → Bool
unfolding skip_stars past_star
finish pattern none = false
finish pattern (some none) = false
finish pattern (some (some p)) = skip_stars (length pattern) pattern p == length pattern

abbrev pub start : Cursor
start = record { p = 0; t = 0; star = none; star_text = 0 }

abbrev pub scan_fuel : Bytes → Bytes → ℕ
scan_fuel pattern text = (length text + 1) * (length pattern + 1)

-- `wildcard_match` behind its two calls of `as_bytes`.
pub match_bytes : Bytes → Bytes → Bool
unfolding scan follow step advance retry finish
match_bytes pattern text = finish pattern (scan (scan_fuel pattern text) pattern text start)

unfoldable pub wildcard_match : Text → Text → Bool
unfolding match_bytes as_bytes
wildcard_match pattern text = match_bytes (as_bytes pattern) (as_bytes text)

pub record FileMask : Type 0 where
  pub pattern : Text

unfoldable pub matches : FileMask → Text → Bool
unfolding wildcard_match
matches mask path = wildcard_match mask.pattern path

pub data MaskDecision : Type 0 where
  included excluded : MaskDecision

pub record MaskSet : Type 0 where
  pub includes : List FileMask
  pub excludes : List FileMask

abbrev pub new : MaskSet
new = record { includes = []; excludes = [] }

unfoldable pub include : MaskSet → Text → MaskSet
include m pattern = record m { includes = m.includes ++ record { pattern = pattern } ∷ [] }

unfoldable pub exclude : MaskSet → Text → MaskSet
exclude m pattern = record m { excludes = m.excludes ++ record { pattern = pattern } ∷ [] }

unfoldable pub decide : MaskSet → Text → MaskDecision
unfolding any
decide m path =
    if any (λ mask. matches mask path) m.excludes
    then excluded
    else if is_empty m.includes || any (λ mask. matches mask path) m.includes
    then included
    else excluded
