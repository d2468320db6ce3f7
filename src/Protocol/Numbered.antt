-- ===== src/Protocol/Numbered.antt =====
-- The numbered names of a conflict: siblings of the path, one for each number.
use cross_scp.Base.{
  ℕ, [], ◌∷◌, ◌++◌, Option, none, some, Bool, true, false, ◌≡◌, refl, sym, ap, inl, inr, ◌∙◌,
  append_assoc, Bool-cases, if_cases,
}
use mathlib.Core.List.{append_cancel_left, append_cancel_right}
use cross_scp.Base.Text.{Text, codes, text_eq, trim_end_matches, starts_with}
use cross_scp.Base.Decimal.{to_string, to_string-injective}
use cross_scp.Base.TextLaws.{Lacks}
use cross_scp.Base.Paths.{rsplit_once, rsplit_once-append, trim_end-append}
use cross_scp.Protocol.{
  at_least_one, with_number, number_file, numbered_name, normalized, parent_and_name, sibling,
  numbered_conflict_path,
}

-- Of a text that depends on a number, the number in decimal is a part, and nothing else depends on
-- it.
abbrev Holds : (ℕ → Text) → Type 0
Holds f = (before : Text) × (after : Text) × ((n : ℕ) → f n ≡ before ++ (to_string n ++ after))

Holds-injective : (f : ℕ → Text) → Holds f → (n m : ℕ) → f n ≡ f m → n ≡ m
Holds-injective f (before, after, h) n m e = to_string-injective n m (
    append_cancel_right (to_string n) (to_string m) after
      (append_cancel_left before _ _ (sym (h n) ∙ e ∙ h m)))

Holds-prepend : (f : ℕ → Text) (s : Text) → Holds f → Holds (λ n. s ++ f n)
Holds-prepend f s (before, after, h) =
    (s ++ before, after, λ n. ap (λ t. s ++ t) (h n) ∙ sym (append_assoc s before _))

with_number-Holds : (stem rest : Text) → Holds (λ n. with_number stem n rest)
with_number-Holds stem rest =
    let before = stem ++ codes " (" in
    (
      before,
      codes ")" ++ rest,
      λ n.
          append_assoc (before ++ to_string n) (codes ")") rest
          ∙ append_assoc before (to_string n) (codes ")" ++ rest),
    )

number_file-Holds : (name : Text) (o : Option (Text × Text)) → Holds (λ n. number_file name n o)
unfolding number_file
number_file-Holds name none = with_number-Holds name []
number_file-Holds name (some ([], extension)) = with_number-Holds name []
number_file-Holds name (some (c ∷ stem, extension)) =
    with_number-Holds (c ∷ stem) (b'.' ∷ extension)

numbered_name-Holds : (name : Text) (d : Bool) → Holds (λ n. numbered_name name n d)
unfolding numbered_name
numbered_name-Holds name true = with_number-Holds name []
numbered_name-Holds name false = number_file-Holds name (rsplit_once b'.' name)

sibling-Holds :
    (path parent : Text) (f : ℕ → Text) → Holds f → Holds (λ n. sibling path parent (f n))
unfolding sibling
sibling-Holds path [] f h = elim (Bool-cases (starts_with path (codes "/"))) [
  | inl e ↦ rw e (Holds-prepend f (codes "/") h)
  | inr e ↦ rw e h
]
sibling-Holds path (c ∷ parent) f h =
    Holds-prepend (λ n. b'/' ∷ f n) (c ∷ parent) (Holds-prepend f (codes "/") h)

-- Two numbers give two names: for one path the numbered siblings of two copy numbers are equal only
-- if the numbers are, where 0 counts as 1.
pub numbered_conflict_path-injective :
    (path : Text) (is_directory : Bool) (n m : ℕ)
    → numbered_conflict_path path n is_directory ≡ numbered_conflict_path path m is_directory
    → at_least_one n ≡ at_least_one m
unfolding numbered_conflict_path
numbered_conflict_path-injective path d n m e =
    let whole = normalized path in
    let parts = parent_and_name whole (rsplit_once b'/' whole) in
    Holds-injective (λ k. sibling whole parts.0 (numbered_name parts.1 k d))
      (sibling-Holds whole parts.0 _ (numbered_name-Holds parts.1 d)) (at_least_one n)
      (at_least_one m) e

normalized-append :
    (parent name : Text) (c : ℕ)
    → Lacks b'/' (c ∷ name)
    → normalized (parent ++ b'/' ∷ c ∷ name) ≡ parent ++ b'/' ∷ c ∷ name
unfolding normalized
normalized-append parent name c l =
    if_cases (λ s. s ≡ parent ++ b'/' ∷ c ∷ name) (text_eq (parent ++ b'/' ∷ c ∷ name) (codes "/"))
      (parent ++ b'/' ∷ c ∷ name) (trim_end_matches b'/' (parent ++ b'/' ∷ c ∷ name)) (λ h. refl)
      (λ h. trim)
  where
    trim : trim_end_matches b'/' (parent ++ b'/' ∷ c ∷ name) ≡ parent ++ b'/' ∷ c ∷ name
    trim =
        rw
          (
            sym (append_assoc parent (codes "/") (c ∷ name)),
            trim_end-append b'/' c (parent ++ codes "/") name l,
          )
          refl

sibling-append :
    (parent name numbered : Text)
    → sibling (parent ++ b'/' ∷ name) parent numbered ≡ parent ++ b'/' ∷ numbered
unfolding sibling starts_with
sibling-append [] name numbered = refl
sibling-append (c ∷ parent) name numbered = refl

-- The new name is a sibling: of a path with a name behind its last slash, the parent stays, and
-- only the name gets the number.
numbered_conflict_path-parent :
    (parent name : Text) (c n : ℕ) (is_directory : Bool)
    → Lacks b'/' (c ∷ name)
    → numbered_conflict_path (parent ++ b'/' ∷ c ∷ name) n is_directory
      ≡ parent ++ b'/' ∷ numbered_name (c ∷ name) (at_least_one n) is_directory
unfolding numbered_conflict_path
numbered_conflict_path-parent parent name c n d l =
    rw (normalized-append parent name c l, rsplit_once-append b'/' parent (c ∷ name) l)
      (sibling-append parent (c ∷ name) (numbered_name (c ∷ name) (at_least_one n) d))
