-- ===== src/Config/Fields.antt =====
-- How one field of a record is written and read.
pub mod RoundTrip
use cross_scp.Base.{
  ℕ, List, [], ◌∷◌, ◌++◌, Option, none, some, Bool, true, false, ◌==◌, if◌then◌else◌, ◌^◌,
}
use mathlib.Core.Option
use cross_scp.Base.Result.{Result, ok, err, ◌>>=◌, ok_or, map_err}
use cross_scp.Base.Text.{Text, codes, replace}
use cross_scp.Base.Decimal.{to_string, parse}
use cross_scp.Session.{SessionProtocol, from_str, ParseSessionProtocolError}
use cross_scp.Config.Store.{ConfigError, invalid_record, invalid_protocol}

abbrev pub backslash : ℕ
backslash = b'\\'

abbrev pub tab : ℕ
tab = b'\t'

abbrev pub newline : ℕ
newline = b'\n'

unfoldable pub escape : Text → Text
unfolding replace
escape value =
    replace newline (codes "\\n")
      (replace tab (codes "\\t") (replace backslash (codes "\\\\") value))

-- The loop over the characters of a field, with the output so far; `wrong` is the error for a
-- backslash that begins no escape.
module _ {E : Type 0} (wrong : E) where
  -- What stands behind a backslash.
  unfoldable pub unescaped : ℕ → Result E ℕ
  unescaped c =
      if c == backslash
      then ok backslash
      else if c == b't'
      then ok tab
      else if c == b'n'
      then ok newline
      else err wrong

  unfoldable pub unescape_from : Text → Text → Result E Text
  unfolding unescaped
  unescape_from output [] = ok output
  unescape_from output (c ∷ []) = if c == backslash then err wrong else ok (output ++ c ∷ [])
  unescape_from output (c ∷ d ∷ s) =
      let escape_pair = unescaped d >>= λ x. unescape_from (output ++ x ∷ []) s in
      let plain = unescape_from (output ++ c ∷ []) (d ∷ s) in
      if c == backslash then escape_pair else plain

unfoldable pub unescape : Text → Result ConfigError Text
unfolding unescape_from
unescape value = unescape_from (invalid_record value) [] value

unfoldable pub escape_option : Option Text → Text
escape_option none = []
escape_option (some value) = escape value

unfoldable pub unescape_option : Text → Result ConfigError (Option Text)
unescape_option [] = ok none
unescape_option (c ∷ value) = do text ← unescape (c ∷ value); ok (some text)

-- `port.map(to_string).unwrap_or_default()`
unfoldable pub render_port : Option ℕ → Text
render_port none = []
render_port (some port) = to_string port

unfoldable pub parse_port : Text → Result ConfigError (Option ℕ)
parse_port [] = ok none
parse_port (c ∷ field) = elim (parse (2 ^ 16) (c ∷ field)) [
  | none ↦ err (invalid_record (codes "invalid port: " ++ c ∷ field))
  | some port ↦ ok (some port)
]

unfoldable pub str_to_protocol : Text → Result ConfigError SessionProtocol
str_to_protocol protocol = map_err (λ _. invalid_protocol protocol) (from_str protocol)
