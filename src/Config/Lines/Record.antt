-- ===== src/Config/Lines/Record.antt =====
-- The line of one profile: its fields are read back, and it is neither blank nor a comment.
use cross_scp.Base.{
  List, [], ◌∷◌, ◌++◌, Option, none, some, true, false, ◌||◌, ◌≡◌, ◌≢◌, refl, arith, All, All-map,
  is_empty, inl, inr, Bool-cases,
}
use cross_scp.Base.Result.{ok}
use cross_scp.Base.Text.{Text, codes, trim, starts_with, split, join, is_whitespace}
use cross_scp.Base.TextLaws.{
  Lacks, IsBlank, trim-IsBlank, split-join, join-Lacks, NoCr, NoCr-append, NoCr-cons,
}
use cross_scp.Session.{SessionProtocol, SessionProfile, as_str}
use cross_scp.Config.Fields.{tab, newline, escape, escape_option}
use cross_scp.Config.Fields.RoundTrip.{
  unescape-escape, IsPlain, escape-IsPlain, escape-NoCr, escape_option-IsPlain, render_port-IsPlain,
  as_str-IsPlain, escape_head, unescape_option-escape, PortFits, parse_port-render,
  str_to_protocol-as_str,
}
use cross_scp.Config.Store.{validate_profile}
use cross_scp.Config.Lines.{profile_fields, render_profile, parse_fields}

abbrev pub NoHash : Text → Type 0
NoHash [] = Unit
NoHash (c ∷ s) = c ≢ b'#'

abbrev pub NoCrOption : Option Text → Type 0
NoCrOption none = Unit
NoCrOption (some s) = NoCr s

-- A profile that the store accepts and the format can hold: the port is a `u16`, no optional field
-- is an empty text, the name does not begin with `#`, and the last field does not end in a carriage
-- return.
pub record IsStorable (p : SessionProfile) : Type 0 where
  pub valid : validate_profile p ≡ ok tt
  pub port_fits : PortFits p.port
  pub username_text : p.username ≢ some []
  pub path_text : p.initial_remote_path ≢ some []
  pub credential_text : p.credential_ref ≢ some []
  pub name_start : NoHash p.name
  pub credential_end : NoCrOption p.credential_ref

fields-IsPlain : (p : SessionProfile) → All IsPlain (profile_fields p)
fields-IsPlain p = (
  escape-IsPlain p.name,
  (
    as_str-IsPlain p.protocol,
    (
      escape-IsPlain p.host,
      (
        render_port-IsPlain p.port,
        (
          escape_option-IsPlain p.username,
          (
            escape_option-IsPlain p.initial_remote_path,
            (escape_option-IsPlain p.credential_ref, tt),
          ),
        ),
      ),
    ),
  ),
)

pub IsPlain-Lacks-tab : (s : Text) → IsPlain s → Lacks tab s
IsPlain-Lacks-tab s = All-map (λ c. (c ≢ tab) × (c ≢ newline)) (λ c. c ≢ tab) s (λ c h. h.0)

pub IsPlain-Lacks-newline : (s : Text) → IsPlain s → Lacks newline s
IsPlain-Lacks-newline s = All-map (λ c. (c ≢ tab) × (c ≢ newline)) (λ c. c ≢ newline) s (λ c h. h.1)

pub split-render_profile : (p : SessionProfile) → split tab (render_profile p) ≡ profile_fields p
unfolding render_profile
split-render_profile p =
    split-join tab _ _
      (All-map IsPlain (Lacks tab) (profile_fields p) IsPlain-Lacks-tab (fields-IsPlain p))

pub render_profile-Lacks : (p : SessionProfile) → Lacks newline (render_profile p)
unfolding render_profile
render_profile-Lacks p =
    join-Lacks newline tab _ _ (omega arith)
      (All-map IsPlain (Lacks newline) (profile_fields p) IsPlain-Lacks-newline (fields-IsPlain p))

-- The seven fields are read back one by one.
pub parse_fields-profile_fields :
    (line : Text) (p : SessionProfile) → IsStorable p → parse_fields line (profile_fields p) ≡ ok p
unfolding parse_fields
parse_fields-profile_fields line p h = rw (
  unescape-escape p.name,
  str_to_protocol-as_str p.protocol,
  unescape-escape p.host,
  parse_port-render p.port h.port_fits,
  unescape_option-escape p.username h.username_text,
  unescape_option-escape p.initial_remote_path h.path_text,
  unescape_option-escape p.credential_ref h.credential_text,
)

pub NoCr-join :
    (s t : Text) (parts : List Text) → NoCr (join tab (t ∷ parts)) → NoCr (join tab (s ∷ t ∷ parts))
NoCr-join s t parts h =
    unfold join in NoCr-append s tab _ (NoCr-cons tab (join tab (t ∷ parts)) (omega arith) h)

pub NoCr-join_last : (s : Text) → NoCr s → NoCr (join tab (s ∷ []))
NoCr-join_last s h = unfold join in h

escape_option-NoCr : (o : Option Text) → NoCrOption o → NoCr (escape_option o)
unfolding escape_option
escape_option-NoCr none _ = tt
escape_option-NoCr (some s) h = escape-NoCr s h

pub render_profile-NoCr :
    (p : SessionProfile) → NoCrOption p.credential_ref → NoCr (render_profile p)
unfolding render_profile
render_profile-NoCr p h =
    let last = escape_option-NoCr p.credential_ref h in
    NoCr-join _ _ _ (
      NoCr-join _ _ _ (
        NoCr-join _ _ _
          (NoCr-join _ _ _ (NoCr-join _ _ _ (NoCr-join _ _ [] (NoCr-join_last _ last))))))

name-ne-nil : (p : SessionProfile) → validate_profile p ≡ ok tt → p.name ≢ []
unfolding validate_profile
name-ne-nil p h e =
    let k : is_empty (trim p.name) ≡ false = ground arith in
    let l : is_empty (trim []) ≡ false = rw e at k in trim_nil l
  where
    trim_nil : ¬ (is_empty (trim []) ≡ false)
    trim_nil l = unfold trim in cc

pub starts_hash :
    (name rest : Text)
    → name ≢ []
    → NoHash name
    → starts_with (escape name ++ rest) (codes "#") ≡ false
unfolding starts_with
starts_hash [] rest n h = absurd (n refl)
starts_hash (c ∷ s) rest n h = let (d, t, e, first) = escape_head c s in rw e (ground arith)

pub All-append_right {ℓ κ} :
    {A : Type ℓ} (P : A → Type κ) (xs ys : List A) → All P (xs ++ ys) → All P ys
All-append_right P [] ys h = h
All-append_right P (x ∷ xs) ys (_, h) = All-append_right P xs ys h

-- The name of a protocol is no white space.
as_str-IsBlank : (p : SessionProtocol) (rest : Text) → ¬ IsBlank (as_str p ++ rest)
unfolding as_str is_whitespace
as_str-IsBlank SessionProtocol.sftp rest (h, _) = cc
as_str-IsBlank SessionProtocol.web_dav rest (h, _) = cc
as_str-IsBlank _ rest (h, _) = cc

-- The line of a profile is neither blank nor a comment.
pub line_is_read :
    (p : SessionProfile)
    → IsStorable p
    → (is_empty (trim (render_profile p)) || starts_with (render_profile p) (codes "#")) ≡ false
unfolding render_profile
line_is_read p h =
    let n = name-ne-nil p h.valid in
    let a : is_empty (trim (render_profile p)) ≡ false =
      elim (Bool-cases (is_empty (trim (render_profile p)))) [
        | inl e ↦ absurd (not_blank (trim-IsBlank (render_profile p) e))
        | inr e ↦ e
      ] in
    rw a (unfold join in starts_hash p.name _ n h.name_start)
  where
    not_blank : ¬ IsBlank (render_profile p)
    not_blank b =
        unfold join in
        as_str-IsBlank p.protocol _
          (All-append_right (λ c. is_whitespace c ≡ true) (escape p.name) _ b).1
