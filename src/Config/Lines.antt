-- ===== src/Config/Lines.antt =====
-- The file format: a comment line, then one line with seven fields for each profile.
pub mod Record
pub mod RoundTrip
use cross_scp.Base.{List, [], ◌∷◌, ◌++◌, Bool, true, false, ◌||◌, is_empty, map}
use cross_scp.Base.Result.{Result, ok, err, ◌>>=◌}
use cross_scp.Base.Text.{Text, codes, trim, starts_with, split, join, lines}
use cross_scp.Session.{SessionProfile, as_str}
use cross_scp.Config.Fields.{
  tab, newline, escape, escape_option, render_port, unescape, unescape_option, parse_port,
  str_to_protocol,
}
use cross_scp.Config.Store.{ConfigError, invalid_record, SessionStore, save}

abbrev pub header : Text
header = codes "# CrossSCP sessions v1"

abbrev pub profile_fields : SessionProfile → List Text
profile_fields profile =
    escape profile.name
    ∷ as_str profile.protocol
    ∷ escape profile.host
    ∷ render_port profile.port
    ∷ escape_option profile.username
    ∷ escape_option profile.initial_remote_path
    ∷ escape_option profile.credential_ref
    ∷ []

unfoldable pub render_profile : SessionProfile → Text
render_profile profile = join tab (profile_fields profile)

-- The loop of `render_profiles`, behind the comment line.
unfoldable pub render_lines : List SessionProfile → Text
render_lines [] = []
render_lines (profile ∷ profiles) = render_profile profile ++ newline ∷ render_lines profiles

unfoldable pub render_profiles : List SessionProfile → Text
unfolding render_lines
render_profiles profiles = header ++ newline ∷ render_lines profiles

unfoldable pub parse_fields : Text → List Text → Result ConfigError SessionProfile
parse_fields line (f0 ∷ f1 ∷ f2 ∷ f3 ∷ f4 ∷ f5 ∷ f6 ∷ []) = do
  name ← unescape f0
  protocol ← str_to_protocol f1
  host ← unescape f2
  port ← parse_port f3
  username ← unescape_option f4
  initial_remote_path ← unescape_option f5
  credential_ref ← unescape_option f6
  ok (record {
    name = name;
    protocol = protocol;
    host = host;
    port = port;
    username = username;
    initial_remote_path = initial_remote_path;
    credential_ref = credential_ref;
  })
parse_fields line _ = err (invalid_record line)

-- `store.save(profile)?`
unfoldable pub save_or_fail : SessionStore → SessionProfile → Result ConfigError SessionStore
save_or_fail store profile = (save store profile).1 >>= λ _. ok (save store profile).0

-- One round of `parse_profiles`.
unfoldable pub parse_line : SessionStore → Text → Result ConfigError SessionStore
unfolding parse_fields save_or_fail
parse_line store line = elim (is_empty (trim line) || starts_with line (codes "#")) [
  | true ↦ ok store
  | false ↦ parse_fields line (split tab line) >>= save_or_fail store
]

unfoldable pub parse_lines : SessionStore → List Text → Result ConfigError SessionStore
unfolding parse_line
parse_lines store [] = ok store
parse_lines store (line ∷ rest) = parse_line store line >>= λ s. parse_lines s rest

unfoldable pub parse_profiles : Text → Result ConfigError SessionStore
unfolding parse_lines
parse_profiles input = parse_lines [] (lines input)
