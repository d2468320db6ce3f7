-- ===== src/Config/Fields/RoundTrip.antt =====
-- Every field is read back as it was written, and a written field holds no tab and no line feed.
use cross_scp.Base.{
  ℕ, ◌<◌, [], ◌∷◌, ◌++◌, Option, none, some, ◌≡◌, ◌≢◌, refl, arith, ◌==◌, if◌then◌else◌, All,
  All-append, append_assoc, append-nil, ◌∙◌, ◌^◌, ◌⊎◌, inl, inr, Bool-cases,
}
use cross_scp.Base.Result.{ok, ◌>>=◌}
use cross_scp.Base.Text.{Text, codes, replace}
use cross_scp.Base.TextLaws.{NoCr, NoCr-append}
use cross_scp.Base.Decimal.{
  to_string, parse, parse-to_string, to_string-IsDigit, to_string-ne-nil, IsDigit,
}
use cross_scp.Session.{SessionProtocol, as_str}
use cross_scp.Session.Names.{from_str-names}
use cross_scp.Config.Fields.{
  backslash, tab, newline, escape, unescaped, unescape_from, unescape, escape_option,
  unescape_option, render_port, parse_port, str_to_protocol,
}

-- What one character is written as.
hide : ℕ → Text
hide c =
    if c == backslash
    then codes "\\\\"
    else if c == tab
    then codes "\\t"
    else if c == newline
    then codes "\\n"
    else c ∷ []

hidden : Text → Text
hidden [] = []
hidden (c ∷ s) = hide c ++ hidden s

replace-append : (c : ℕ) (r s t : Text) → replace c r (s ++ t) ≡ replace c r s ++ replace c r t
unfolding replace
replace-append c r [] t = refl
replace-append c r (d ∷ s) t = simp (replace-append c r s t, append_assoc)

escape-append : (s t : Text) → escape (s ++ t) ≡ escape s ++ escape t
unfolding escape
escape-append s t = rw (
  replace-append backslash (codes "\\\\") s t,
  replace-append tab (codes "\\t") (replace backslash (codes "\\\\") s) _,
  replace-append newline (codes "\\n")
      (replace tab (codes "\\t") (replace backslash (codes "\\\\") s)) _,
)

escape_one : (c : ℕ) → escape (c ∷ []) ≡ hide c
unfolding escape hide
escape_one c = elim (Bool-cases (c == backslash)) [
  | inl e ↦ rw e
  | inr e ↦ elim (Bool-cases (c == tab)) [ inl f ↦ rw (e, f) | inr f ↦ rw (e, f) (ground arith) ]
]

-- `escape` writes character by character.
escape-eq-hidden : (s : Text) → escape s ≡ hidden s
unfolding hidden
escape-eq-hidden [] = unfold escape in refl
escape-eq-hidden (c ∷ s) = escape-append (c ∷ []) s ∙ rw (escape_one, escape-eq-hidden s)

module _ {E : Type 0} (wrong : E) where
  unescape_from-hide :
      (output : Text) (c : ℕ) (rest : Text)
      → unescape_from wrong output (hide c ++ rest) ≡ unescape_from wrong (output ++ c ∷ []) rest
  unfolding unescape_from unescaped hide
  unescape_from-hide output c [] = ground arith
  unescape_from-hide output c (d ∷ rest) = ground arith

  unescape_from-hidden :
      (output s : Text) → unescape_from wrong output (hidden s) ≡ ok (output ++ s)
  unfolding hidden
  unescape_from-hidden output [] = rw append-nil (unfold unescape_from in refl)
  unescape_from-hidden output (c ∷ s) =
      simp (unescape_from-hide, unescape_from-hidden (output ++ c ∷ []) s, append_assoc)

  pub unescape_from-escape : (s : Text) → unescape_from wrong [] (escape s) ≡ ok s
  unescape_from-escape s = rw (escape-eq-hidden s) (unescape_from-hidden [] s)

-- Every text is read back as it was written.
pub unescape-escape : (s : Text) → unescape (escape s) ≡ ok s
unfolding unescape
unescape-escape s = rw escape-eq-hidden (unescape_from-hidden _ [] s)

abbrev pub IsPlain : Text → Type 0
IsPlain = All (λ c. (c ≢ tab) × (c ≢ newline))

hide-IsPlain : (c : ℕ) → IsPlain (hide c)
unfolding hide
hide-IsPlain c = ground arith

hidden-IsPlain : (s : Text) → IsPlain (hidden s)
unfolding hidden
hidden-IsPlain [] = tt
hidden-IsPlain (c ∷ s) =
    All-append (λ c. (c ≢ tab) × (c ≢ newline)) (hide c) (hidden s) (hide-IsPlain c)
      (hidden-IsPlain s)

-- A written text holds no tab and no line feed.
pub escape-IsPlain : (s : Text) → IsPlain (escape s)
escape-IsPlain s = rw escape-eq-hidden (hidden-IsPlain s)

pub escape_option-IsPlain : (o : Option Text) → IsPlain (escape_option o)
unfolding escape_option
escape_option-IsPlain none = tt
escape_option-IsPlain (some s) = escape-IsPlain s

pub digits-IsPlain : (s : Text) → All IsDigit s → IsPlain s
digits-IsPlain [] _ = tt
digits-IsPlain (c ∷ s) (h, hs) = ((omega arith, omega arith), digits-IsPlain s hs)

pub render_port-IsPlain : (o : Option ℕ) → IsPlain (render_port o)
unfolding render_port
render_port-IsPlain none = tt
render_port-IsPlain (some n) = digits-IsPlain _ (to_string-IsDigit n)

pub as_str-IsPlain : (p : SessionProtocol) → IsPlain (as_str p)
unfolding as_str
as_str-IsPlain SessionProtocol.sftp = omega arith
as_str-IsPlain _ = omega arith

hide-NoCr : (c : ℕ) → c ≢ b'\r' → NoCr (hide c)
unfolding hide
hide-NoCr c n = ground arith

hide_head :
    (c : ℕ) (r : Text) → (d : ℕ) × (t : Text) × (hide c ++ r ≡ d ∷ t) × ((d ≡ c) ⊎ (d ≡ backslash))
unfolding hide
hide_head c r = elim (Bool-cases (c == backslash)) [
  | inl e ↦ (backslash, backslash ∷ r, rw e, inr refl)
  | inr e ↦ elim (Bool-cases (c == tab)) [
    | inl f ↦ (backslash, b't' ∷ r, rw (e, f), inr refl)
    | inr f ↦ elim (Bool-cases (c == newline)) [
      | inl g ↦ (backslash, b'n' ∷ r, rw (e, f, g), inr refl)
      | inr g ↦ (c, r, rw (e, f, g), inl refl)
    ]
  ]
]

-- The first character of a written text is that of the text, unless that is escaped.
pub escape_head :
    (c : ℕ) (s : Text)
    → (d : ℕ) × (t : Text) × (escape (c ∷ s) ≡ d ∷ t) × ((d ≡ c) ⊎ (d ≡ backslash))
escape_head c s = rw (escape-append (c ∷ []) s, escape_one c) (hide_head c (escape s))

-- A written text ends in a carriage return only where the text does.
pub escape-NoCr : (s : Text) → NoCr s → NoCr (escape s)
escape-NoCr [] _ = unfold escape in tt
escape-NoCr (c ∷ []) n = rw (escape_one c) (hide-NoCr c n)
escape-NoCr (c ∷ d ∷ s) n =
    let (x, t, e, _) = escape_head d s in
    let h : NoCr (x ∷ t) = rw e at (escape-NoCr (d ∷ s) n) in
    rw (escape-append (c ∷ []) (d ∷ s), e) (NoCr-append (escape (c ∷ [])) x t h)

unescape_option_cons :
    (c : ℕ) (s : Text) → unescape_option (c ∷ s) ≡ (unescape (c ∷ s) >>= λ t. ok (some t))
unfolding unescape_option
unescape_option_cons c s = refl

-- An option is read back, unless it is an empty text.
pub unescape_option-escape :
    (o : Option Text) → o ≢ some [] → unescape_option (escape_option o) ≡ ok o
unfolding escape_option
unescape_option-escape none n = unfold unescape_option in refl
unescape_option-escape (some []) n = absurd (n refl)
unescape_option-escape (some (c ∷ s)) n =
    let (d, t, e, _) = escape_head c s in rw (e, unescape_option_cons, ← e, unescape-escape)

abbrev pub PortFits : Option ℕ → Type 0
PortFits none = Unit
PortFits (some n) = n < 2 ^ 16

parse_port_cons :
    (c n : ℕ) (s : Text) → parse (2 ^ 16) (c ∷ s) ≡ some n → parse_port (c ∷ s) ≡ ok (some n)
unfolding parse_port
parse_port_cons c n s h = rw (h, parse_port)

parse_port-some :
    (n : ℕ) (s : Text) → s ≢ [] → parse (2 ^ 16) s ≡ some n → parse_port s ≡ ok (some n)
parse_port-some n [] h e = absurd (h refl)
parse_port-some n (c ∷ s) h e = parse_port_cons c n s e

pub parse_port-render : (o : Option ℕ) → PortFits o → parse_port (render_port o) ≡ ok o
unfolding render_port
parse_port-render none h = unfold parse_port in refl
parse_port-render (some n) h =
    parse_port-some n (to_string n) (to_string-ne-nil n) (parse-to_string (2 ^ 16) n h)

pub str_to_protocol-as_str : (p : SessionProtocol) → str_to_protocol (as_str p) ≡ ok p
unfolding str_to_protocol
str_to_protocol-as_str p = rw (from_str-names p).0

-- A leading `#` is written as it is.
pub escape_hash : (s : Text) → escape (b'#' ∷ s) ≡ b'#' ∷ escape s
unfolding hide
escape_hash s = rw (escape-append (b'#' ∷ []) s, escape_one)
