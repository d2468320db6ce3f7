-- ===== src/Masks/Examples.antt =====
-- Runs of the masks, those of the crate's tests among them, and the theorems at concrete data.
use cross_scp.Base.{
  [], ◌∷◌, none, true, false, ◌≡◌, ◌≢◌, ◌⊎◌, ◌↔◌, refl, arith, if◌then◌else◌, is_empty, any,
}
use cross_scp.Base.Text.{codes, as_bytes}
use cross_scp.Masks.{
  matches, included, excluded, MaskSet, new, include, exclude, decide, wildcard_match, scan,
  scan_fuel, start,
}
use cross_scp.Masks.Matches.{star, Matches}
use cross_scp.Masks.Fuel.{scan_terminates}
use cross_scp.Masks.Correct.{wildcard_match_iff, star_mask_refuses}
use cross_scp.Masks.Decide.{Hit, decide_iff, decide-exclude, decide-include}

star_prefix : wildcard_match (codes "*.txt") (codes "report.txt") ≡ true
unfolding wildcard_match
star_prefix = refl

star_prefix_bak : wildcard_match (codes "*.txt") (codes "report.txt.bak") ≡ false
unfolding wildcard_match
star_prefix_bak = refl

one_character : wildcard_match (codes "file-?.log") (codes "file-10.log") ≡ false
unfolding wildcard_match
one_character = refl

backtracks : wildcard_match (codes "a*b?d") (codes "abbcabxd") ≡ true
unfolding wildcard_match
backtracks = refl

-- `?` stands for one byte, and the letter has two.
two_byte_letter : wildcard_match (codes "?") (codes "é") ≡ false
unfolding wildcard_match
two_byte_letter = refl

abbrev texts : MaskSet
texts = record {
  includes = record { pattern = codes "*.txt" } ∷ [];
  excludes = record { pattern = codes "secret-*.txt" } ∷ [];
}

texts_built : exclude (include new (codes "*.txt")) (codes "secret-*.txt") ≡ texts
unfolding exclude include
texts_built = refl

notes : decide texts (codes "notes.txt") ≡ included
unfolding decide matches
notes = refl

secret_plan : decide texts (codes "secret-plan.txt") ≡ excluded
unfolding decide matches
secret_plan = refl

scan_terminates_example :
    scan (scan_fuel (codes "*b") (codes "aab")) (codes "*b") (codes "aab") start ≢ none
scan_terminates_example = scan_terminates (codes "*b") (codes "aab")

wildcard_match_iff_example :
    (wildcard_match (codes "*.txt") (codes "a.txt") ≡ true)
    ↔ Matches (as_bytes (codes "*.txt")) (as_bytes (codes "a.txt"))
wildcard_match_iff_example = wildcard_match_iff (codes "*.txt") (codes "a.txt") (omega arith)

star_mask_refuses_example :
    (wildcard_match (star ∷ []) (star ∷ b'a' ∷ []) ≡ false)
    × Matches (as_bytes (star ∷ [])) (as_bytes (star ∷ b'a' ∷ []))
star_mask_refuses_example = star_mask_refuses b'a' []

decide_iff_example : (decide texts (codes "notes.txt") ≡ included) ↔ (
    (¬ Hit texts.excludes (codes "notes.txt"))
    × ((texts.includes ≡ []) ⊎ Hit texts.includes (codes "notes.txt")))
decide_iff_example = decide_iff texts (codes "notes.txt")

decide-exclude_example : decide (exclude texts (codes "*.tmp")) (codes "a.tmp") ≡ (
    if matches (record { pattern = codes "*.tmp" }) (codes "a.tmp")
    then excluded
    else decide texts (codes "a.tmp"))
decide-exclude_example = decide-exclude texts (codes "*.tmp") (codes "a.tmp")

decide-include_example : decide (include texts (codes "*.md")) (codes "a.md") ≡ (
    if any (λ mask. matches mask (codes "a.md")) texts.excludes
    then excluded
    else if matches (record { pattern = codes "*.md" }) (codes "a.md")
    then included
    else if is_empty texts.includes
    then excluded
    else decide texts (codes "a.md"))
decide-include_example = decide-include texts (codes "*.md") (codes "a.md")
