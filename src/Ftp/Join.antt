-- ===== src/Ftp/Join.antt =====
-- What `join_remote_path` and `split_remote_parent` make of a path, in terms of its text.
use cross_scp.Base.{
  ℕ, ◌≡◌, ◌≢◌, refl, sym, ap, ◌∙◌, arith, [], ◌∷◌, ◌++◌, none, some, Bool, true, false, ◌⊎◌, inl,
  inr, ◌==◌, if◌then◌else◌, append_assoc, Bool-cases,
}
use mathlib.Core.Path.{subst}
use cross_scp.Base.Text.{Text, codes, text_eq, text_eq_iff, trim, trim_end_by, trim_end_matches}
use cross_scp.Base.TextLaws.{Lacks}
use cross_scp.Base.Paths.{ends_with, rsplit_once}
use cross_scp.Ftp.{join_to, join_remote_path, split_remote_parent, parent_of}
use cross_scp.Ftp.Paths.{directory_of}

-- A directory with a slash at its end.
unfoldable pub with_slash : Text → Text
unfolding ends_with
with_slash directory = if ends_with directory b'/' then directory else directory ++ b'/' ∷ []

-- The entry of a directory: its name behind the directory, with one slash between them. White space at
-- the ends of the directory is not part of it, and a blank one stands for the root.
pub join_remote_path-eq :
    (base name : Text) → join_remote_path base name ≡ with_slash (directory_of base) ++ name
unfolding join_remote_path with_slash
join_remote_path-eq base name = joined (directory_of base)
  where
    joined : (d : Text) → join_to d name ≡ with_slash d ++ name
    joined d = elim (Bool-cases (text_eq d (codes "/"))) [
      | inl e ↦
          let same : d ≡ codes "/" = (text_eq_iff d (codes "/")).0 e in
          subst (λ x. join_to x name ≡ with_slash x ++ name) (sym same)
            (unfold join_to text_eq ends_with in refl)
      | inr e ↦ elim (Bool-cases (ends_with d b'/')) [
        | inl f ↦ rw (e, f, join_to) refl
        | inr f ↦ rw (e, f, join_to) (sym (append_assoc d (codes "/") name))
      ]
    ]

-- How a path is divided: the parent, and a name without a slash. White space at the ends of the path
-- and slashes at its end are not part of it.
abbrev pub Divides : (path parent name : Text) → Type 0
Divides path parent name =
    Lacks b'/' name
    × (((trim_end_matches b'/' (trim path) ≡ parent ++ b'/' ∷ name) × (parent ≢ []))
        ⊎ ((parent ≡ codes "/")
            × ((trim_end_matches b'/' (trim path) ≡ b'/' ∷ name)
                ⊎ (trim_end_matches b'/' (trim path) ≡ name))))

rsplit_once-parts :
    (sep : ℕ) (s : Text)
    → ((rsplit_once sep s ≡ none) × Lacks sep s)
      ⊎ ((before : Text) × (after : Text) × (rsplit_once sep s ≡ some (before, after))
          × (s ≡ before ++ sep ∷ after)
          × Lacks sep after)
unfolding rsplit_once
rsplit_once-parts sep [] = inl (refl, tt)
rsplit_once-parts sep (c ∷ s) = elim (rsplit_once-parts sep s) [
  | inr (before, after, e, same, l) ↦
      inr (c ∷ before, after, rw (e, rsplit_once) refl, ap (λ t. c ∷ t) same, l)
  | inl (e, l) ↦ elim (Bool-cases (c == sep)) [
    | inl f ↦
        let same : c ≡ sep = ground arith in
        inr ([], s, rw (e, f, rsplit_once) refl, ap (λ d. d ∷ s) same, l)
    | inr f ↦ inl (rw (e, f, rsplit_once) refl, (ground arith, l))
  ]
]

pub split_remote_parent-Divides :
    (path : Text) → Divides path (split_remote_parent path).0 (split_remote_parent path).1
unfolding split_remote_parent parent_of
split_remote_parent-Divides path =
    let trimmed = trim_end_matches b'/' (trim path) in
    elim (rsplit_once-parts b'/' trimmed) [
      | inl (e, l) ↦ rw e (l, inr (refl, inr refl))
      | inr ([], name, e, same, l) ↦ rw e (l, inr (refl, inl same))
      | inr (c ∷ parent, name, e, same, l) ↦ rw e (l, inl (same, λ h. cc))
    ]

pub trim_end_by-keep :
    (p : ℕ → Bool) (s rest : Text) (d : ℕ)
    → p d ≡ false
    → trim_end_by p (s ++ d ∷ rest) ≡ s ++ d ∷ trim_end_by p rest
unfolding trim_end_by
trim_end_by-keep p [] rest d h = kept (trim_end_by p rest)
  where
    kept : (t : Text) → (elim t [ [] ↦ if p d then [] else d ∷ [] | e ∷ u ↦ d ∷ e ∷ u ]) ≡ d ∷ t
    kept [] = rw h refl
    kept (e ∷ u) = refl
trim_end_by-keep p (x ∷ []) rest d h = rw (trim_end_by-keep p [] rest d h) refl
trim_end_by-keep p (x ∷ y ∷ s) rest d h = rw (trim_end_by-keep p (y ∷ s) rest d h) refl

ends_with-split :
    (s : Text) (c : ℕ) → ends_with s c ≡ true → (before : Text) × (s ≡ before ++ c ∷ [])
unfolding ends_with
ends_with-split [] c h = cc
ends_with-split (x ∷ []) c h = let same : x ≡ c = ground arith in ([], ap (λ d. d ∷ []) same)
ends_with-split (x ∷ y ∷ s) c h =
    let (before, same) = ends_with-split (y ∷ s) c h in (x ∷ before, ap (λ t. x ∷ t) same)

pub with_slash-split : (s : Text) → (before : Text) × (with_slash s ≡ before ++ b'/' ∷ [])
unfolding with_slash
with_slash-split s = elim (Bool-cases (ends_with s b'/')) [
  | inl e ↦ rw e (ends_with-split s b'/' e)
  | inr e ↦ rw e (s, refl)
]

pub with_slash-append :
    (s rest name : Text) → (more : Text) × (with_slash (s ++ rest) ++ name ≡ s ++ more)
unfolding with_slash
with_slash-append s rest name = elim (Bool-cases (ends_with (s ++ rest) b'/')) [
  | inl e ↦ rw e (rest ++ name, append_assoc s rest name)
  | inr e ↦ rw e (
    (rest ++ b'/' ∷ []) ++ name,
    ap (λ t. t ++ name) (append_assoc s rest (b'/' ∷ [])) ∙ append_assoc s (rest ++ b'/' ∷ []) name,
  )
]
