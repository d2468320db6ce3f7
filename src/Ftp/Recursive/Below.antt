-- ===== src/Ftp/Recursive/Below.antt =====
-- The paths behind a root, and that they hold what is joined to them.
use cross_scp.Base.{
  ℕ, ◌≡◌, refl, sym, ap, ◌∙◌, [], ◌∷◌, ◌++◌, false, ◌⊎◌, inl, inr, append_assoc, is_empty,
  Bool-cases,
}
use mathlib.Core.Path.{subst}
use mathlib.Core.List.{append-nil}
use cross_scp.Base.Paths.{ends_with}
use cross_scp.Base.Text.{Text, trim, trim_start, trim_end_by, is_whitespace}
use cross_scp.Protocol.{RemoteFile}
use cross_scp.Ftp.Paths.{directory_of}
use cross_scp.Ftp.Join.{with_slash, trim_end_by-keep, with_slash-split, with_slash-append}
use cross_scp.Ftp.Listing.{IsChild}

-- The path itself, or a path behind it and one slash.
abbrev pub IsBelow : (root path : Text) → Type 0
IsBelow root path = (path ≡ root) ⊎ ((rest : Text) × (path ≡ with_slash root ++ rest))

-- A text that is not empty and neither begins nor ends with white space.
pub record IsTight (s : Text) : Type 0 where
  pub first : ℕ
  pub behind : Text
  pub begins : s ≡ first ∷ behind
  pub first_shows : is_whitespace first ≡ false
  pub before : Text
  pub last : ℕ
  pub ends : s ≡ before ++ last ∷ []
  pub last_shows : is_whitespace last ≡ false

-- Nothing is trimmed up to a character that is no white space.
trim-keep :
    (c d : ℕ) (s t before rest : Text)
    → is_whitespace c ≡ false
    → is_whitespace d ≡ false
    → s ≡ c ∷ t
    → s ≡ before ++ d ∷ []
    → trim (s ++ rest) ≡ s ++ trim_end_by is_whitespace rest
unfolding trim trim_start
trim-keep c d s t before rest h k f e =
    let started : trim_start (s ++ rest) ≡ s ++ rest =
      subst (λ u. trim_start (u ++ rest) ≡ u ++ rest) (sym f) (rw h refl) in
    let whole : (u : Text) → s ++ u ≡ before ++ d ∷ u =
      λ u. ap (λ v. v ++ u) e ∙ append_assoc before (d ∷ []) u in
    ap (trim_end_by is_whitespace) (started ∙ whole rest)
    ∙ trim_end_by-keep is_whitespace before rest d k
    ∙ sym (whole (trim_end_by is_whitespace rest))

directory-keep :
    (c d : ℕ) (s t before rest : Text)
    → is_whitespace c ≡ false
    → is_whitespace d ≡ false
    → s ≡ c ∷ t
    → s ≡ before ++ d ∷ []
    → directory_of (s ++ rest) ≡ s ++ trim_end_by is_whitespace rest
directory-keep c d s t before rest h k f e =
    let left = trim_end_by is_whitespace rest in
    let kept = trim-keep c d s t before rest h k f e in
    let shown : is_empty (s ++ left) ≡ false =
      subst (λ u. is_empty (u ++ left) ≡ false) (sym f) refl in
    rw (kept, shown) refl

module _ (root : Text) (tight : IsTight root) where
  directory_of_root : directory_of root ≡ root
  directory_of_root =
      let kept =
        directory-keep tight.first tight.last root tight.behind tight.before [] tight.first_shows
          tight.last_shows tight.begins tight.ends in
      let nothing : trim_end_by is_whitespace [] ≡ [] = unfold trim_end_by in refl in
      rw append-nil at (kept ∙ ap (λ u. root ++ u) nothing)

  with_slash-begins : (t : Text) × (with_slash root ≡ tight.first ∷ t)
  unfolding with_slash
  with_slash-begins = elim (Bool-cases (ends_with root b'/')) [
    | inl e ↦ rw e (tight.behind, tight.begins)
    | inr e ↦ rw e (tight.behind ++ b'/' ∷ [], ap (λ u. u ++ b'/' ∷ []) tight.begins)
  ]

  -- A child of a path that is the root or behind it is behind the root.
  pub child-IsBelow :
      (parent : Text) (entry : RemoteFile)
      → IsBelow root parent
      → IsChild parent entry
      → IsBelow root entry.path
  child-IsBelow parent entry (inl same) (placed, _, _) = inr (
    entry.name,
    placed
        ∙ ap (λ u. with_slash (directory_of u) ++ entry.name) same
        ∙ ap (λ u. with_slash u ++ entry.name) directory_of_root,
  )
  child-IsBelow parent entry (inr (rest, same)) (placed, _, _) =
      let stem = with_slash root in
      let (t, begins) = with_slash-begins in
      let (before, ends) = with_slash-split root in
      let kept =
        directory-keep tight.first b'/' stem t before rest tight.first_shows
          (unfold is_whitespace in refl) begins ends in
      let (more, joined) = with_slash-append stem (trim_end_by is_whitespace rest) entry.name in
      inr (
        more,
        placed
            ∙ ap (λ u. with_slash (directory_of u) ++ entry.name) same
            ∙ ap (λ u. with_slash u ++ entry.name) kept
            ∙ joined,
      )
