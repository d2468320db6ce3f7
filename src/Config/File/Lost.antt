-- ===== src/Config/File/Lost.antt =====
-- A profile that the checks let through and the file does not hold: its line reads as a comment.
use cross_scp.Base.{[], ◌∷◌, none, true, ◌≡◌, refl, arith}
use cross_scp.Base.Result.{ok}
use cross_scp.Base.Text.{Text, codes, starts_with, join, lines}
use cross_scp.Base.TextLaws.{lines-cons}
use cross_scp.Base.Order.{text_order}
use cross_scp.Base.OrdMap
use cross_scp.Base.OrdMap.{values}
use cross_scp.Session.{SessionProfile}
use cross_scp.Config.Fields.RoundTrip.{escape_hash}
use cross_scp.Config.Store.{validate_profile, SessionStore}
use cross_scp.Config.Lines.{
  header, render_profile, render_lines, render_profiles, parse_line, parse_profiles,
}
use cross_scp.Config.Lines.Record.{NoCrOption, render_profile-Lacks, render_profile-NoCr}
use cross_scp.Config.Lines.RoundTrip.{header_is_skipped}
use cross_scp.Config.File.{Disk, open_store, flush, save}
use cross_scp.Config.File.Reopen.{store_save-valid, Accepts, flush-Accepts}

comment_line :
    (p : SessionProfile) (s : Text)
    → p.name ≡ b'#' ∷ s
    → starts_with (render_profile p) (codes "#") ≡ true
unfolding render_profile join
comment_line p s e = rw (e, escape_hash s) (unfold starts_with in refl)

parse_line-comment :
    (store : SessionStore) (line : Text)
    → starts_with line (codes "#") ≡ true
    → parse_line store line ≡ ok store
unfolding parse_line
parse_line-comment store line h = ground arith

file_lines :
    (p : SessionProfile)
    → NoCrOption p.credential_ref
    → lines (render_profiles (p ∷ [])) ≡ header ∷ render_profile p ∷ []
unfolding render_profiles
file_lines p n =
    rw
      (
        lines-cons header (render_lines (p ∷ [])) (omega arith) (omega arith),
        lines-cons (render_profile p) [] (render_profile-Lacks p) (render_profile-NoCr p n),
      )
      (unfold lines in refl)

parse_profiles-hash :
    (p : SessionProfile) (s : Text)
    → p.name ≡ b'#' ∷ s
    → NoCrOption p.credential_ref
    → parse_profiles (render_profiles (p ∷ [])) ≡ ok []
unfolding parse_profiles
parse_profiles-hash p s e n = rw (
  file_lines p n,
  header_is_skipped,
  parse_line-comment [] (render_profile p) (comment_line p s e),
)

flush-lost :
    (disk : Disk) (p : SessionProfile)
    → parse_profiles (render_profiles (p ∷ [])) ≡ ok []
    → disk.read_error ≡ none
    → (flush disk ((p.name, p) ∷ [])).1 ≡ ok tt
    → open_store (flush disk ((p.name, p) ∷ [])).0 ≡ ok []
unfolding flush open_store values
flush-lost disk p e r h = ground arith

-- A profile that the checks accept, whose name begins with `#` and whose credential reference does not
-- end in a carriage return, is lost: where the operating system writes the file and lets it be read,
-- `save` into an empty store succeeds, and the store that is found when the file is opened again is
-- empty.
pub hash_profile_lost :
    (disk : Disk) (p : SessionProfile) (s : Text)
    → p.name ≡ b'#' ∷ s
    → validate_profile p ≡ ok tt
    → NoCrOption p.credential_ref
    → disk.read_error ≡ none
    → Accepts disk
    → ((save [] disk p).result ≡ ok tt) × (open_store (save [] disk p).disk ≡ ok [])
unfolding save
hash_profile_lost disk p s e v n r a =
    let f = store_save-valid [] p v in
    let g : OrdMap.insert p.name p [] ≡ (p.name, p) ∷ [] = unfold OrdMap.insert in refl in
    let k = flush-Accepts disk ((p.name, p) ∷ []) a in
    (rw (f, save, g) k, rw (f, save, g) (flush-lost disk p (parse_profiles-hash p s e n) r k))
