-- ===== src/Ftp/Paths.antt =====
-- Joining a name to a path on the server, and splitting it off again.
use cross_scp.Base.{
  ℕ, ◌≡◌, refl, sym, ap, ◌∙◌, [], ◌∷◌, ◌++◌, some, false, ◌⊎◌, inl, inr, if◌then◌else◌, is_empty,
  append_assoc, Bool-cases,
}
use cross_scp.Base.Text.{Text, codes, text_eq, text_eq_iff, trim, trim_end_matches}
use cross_scp.Base.TextLaws.{Lacks}
use cross_scp.Base.Paths.{ends_with, rsplit_once-append, trim_end-append}
use cross_scp.Ftp.{join_to, join_remote_path, split_remote_parent, parent_of}

-- A blank base stands for the root.
abbrev pub directory_of : Text → Text
directory_of base = if is_empty (trim base) then codes "/" else trim base

split_remote-append :
    (before name : Text) (c : ℕ)
    → Lacks b'/' (c ∷ name)
    → trim (before ++ b'/' ∷ c ∷ name) ≡ before ++ b'/' ∷ c ∷ name
    → split_remote_parent (before ++ b'/' ∷ c ∷ name) ≡ parent_of [] (some (before, c ∷ name))
unfolding split_remote_parent parent_of
split_remote-append before name c l plain =
    let kept : trim_end_matches b'/' (before ++ b'/' ∷ c ∷ name) ≡ before ++ b'/' ∷ c ∷ name =
      rw
        (
          sym (append_assoc before (codes "/") (c ∷ name)),
          trim_end-append b'/' c (before ++ codes "/") name l,
        )
        refl in
    rw (plain, kept, rsplit_once-append b'/' before (c ∷ name) l) (same before)
  where
    same :
        (b : Text)
        → parent_of (before ++ b'/' ∷ c ∷ name) (some (b, c ∷ name))
          ≡ parent_of [] (some (b, c ∷ name))
    same [] = refl
    same (x ∷ b) = refl

nonempty_parent : (d name : Text) → is_empty d ≡ false → parent_of [] (some (d, name)) ≡ (d, name)
unfolding parent_of
nonempty_parent [] name h = cc
nonempty_parent (x ∷ d) name h = refl

directory-nonempty : (base : Text) → is_empty (directory_of base) ≡ false
directory-nonempty base = elim (Bool-cases (is_empty (trim base))) [
  | inl e ↦ rw e refl
  | inr e ↦ rw (e, e) refl
]

split-join_to :
    (d name : Text) (c : ℕ)
    → Lacks b'/' (c ∷ name)
    → is_empty d ≡ false
    → (d ≡ codes "/") ⊎ (ends_with d b'/' ≡ false)
    → trim (join_to d (c ∷ name)) ≡ join_to d (c ∷ name)
    → split_remote_parent (join_to d (c ∷ name)) ≡ (d, c ∷ name)
unfolding join_to parent_of
split-join_to d name c l n root plain = elim (Bool-cases (text_eq d (codes "/"))) [
  | inl e ↦
      rw (e, join_to) (split_remote-append [] name c l (rw (e, join_to) at plain))
      ∙ ap (λ x. (x, c ∷ name)) (sym ((text_eq_iff d (codes "/")).0 e))
  | inr e ↦
      let open_end : ends_with d b'/' ≡ false = elim root [
        | inl q ↦ cc ((text_eq_iff d (codes "/")).1 q)
        | inr q ↦ q
      ] in
      rw (e, open_end, join_to)
        (split_remote-append d name c l (rw (e, open_end, join_to) at plain))
      ∙ nonempty_parent d (c ∷ name) n
]

-- A name without a slash that is joined to a base is split off again, and what is left is the base
-- without white space at its ends, or the root for a blank one: if the base is the root or ends in no
-- slash then, and the joined path has no white space at its ends.
pub split-join_remote :
    (base name : Text) (c : ℕ)
    → Lacks b'/' (c ∷ name)
    → (directory_of base ≡ codes "/") ⊎ (ends_with (directory_of base) b'/' ≡ false)
    → trim (join_remote_path base (c ∷ name)) ≡ join_remote_path base (c ∷ name)
    → split_remote_parent (join_remote_path base (c ∷ name)) ≡ (directory_of base, c ∷ name)
unfolding join_remote_path
split-join_remote base name c l root plain =
    split-join_to (directory_of base) name c l (directory-nonempty base) root plain
