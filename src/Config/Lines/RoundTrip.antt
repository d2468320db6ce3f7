-- ===== src/Config/Lines/RoundTrip.antt =====
-- A store of profiles that the format can hold is read back from what is written.
use cross_scp.Base.{[], ◌∷◌, ◌++◌, ◌≡◌, refl, arith, map, All, append-nil, append_assoc}
use mathlib.Core.Path.{subst}
use cross_scp.Base.Result.{ok}
use cross_scp.Base.Text.{Text, trim, starts_with, lines}
use cross_scp.Base.TextLaws.{lines-cons}
use cross_scp.Base.Order.{text_order}
use cross_scp.Base.OrdMap
use cross_scp.Base.OrdMap.{IsSorted, KeysBelow-of_sorted, values, insert-append}
use cross_scp.Session.{SessionProfile}
use cross_scp.Config.Store.{SessionStore, save, validate_profile}
use cross_scp.Config.Lines.{
  header, render_profile, render_lines, render_profiles, save_or_fail, parse_line, parse_lines,
  parse_profiles,
}
use cross_scp.Config.Lines.Record.{
  IsStorable, split-render_profile, render_profile-Lacks, parse_fields-profile_fields,
  render_profile-NoCr, line_is_read,
}

-- Every entry stands under the name of its profile, and the format can hold it.
abbrev pub Entry : Text × SessionProfile → Type 0
Entry e = (e.0 ≡ e.1.name) × IsStorable e.1

save_or_fail-valid :
    (store : SessionStore) (p : SessionProfile)
    → validate_profile p ≡ ok tt
    → save_or_fail store p ≡ ok (OrdMap.insert p.name p store)
unfolding save_or_fail save
save_or_fail-valid store p h = rw (h, save)

parse_line-render :
    (store : SessionStore) (p : SessionProfile)
    → IsStorable p
    → parse_line store (render_profile p) ≡ ok (OrdMap.insert p.name p store)
unfolding parse_line
parse_line-render store p h =
    rw (line_is_read p h, parse_line, split-render_profile p)
      (rw (parse_fields-profile_fields (render_profile p) p h) (save_or_fail-valid store p h.valid))

parse_lines-render :
    (done rest : SessionStore)
    → All Entry rest
    → IsSorted (done ++ rest)
    → parse_lines done (map render_profile (values rest)) ≡ ok (done ++ rest)
unfolding parse_lines values
parse_lines-render done [] _ s = rw append-nil
parse_lines-render done ((k, p) ∷ rest) ((e, h), hs) s =
    let below = KeysBelow-of_sorted k p done rest s in
    let inserted : OrdMap.insert p.name p done ≡ done ++ (k, p) ∷ [] =
      subst (λ n. OrdMap.insert n p done ≡ done ++ (k, p) ∷ []) e (insert-append k p done below) in
    rw (parse_line-render done p h, inserted)
      (rw append_assoc at (parse_lines-render (done ++ (k, p) ∷ []) rest hs (rw append_assoc s)))

lines-render_lines :
    (m : SessionStore)
    → All Entry m
    → lines (render_lines (values m)) ≡ map render_profile (values m)
unfolding render_lines values
lines-render_lines [] _ = unfold lines in refl
lines-render_lines ((k, p) ∷ m) ((e, h), hs) = rw (
  lines-cons (render_profile p) _ (render_profile-Lacks p) (render_profile-NoCr p h.credential_end),
  lines-render_lines m hs,
)

pub header_is_skipped : (store : SessionStore) → parse_line store header ≡ ok store
unfolding parse_line trim starts_with
header_is_skipped store = refl

lines-render_profiles :
    (m : SessionStore)
    → All Entry m
    → lines (render_profiles (values m)) ≡ header ∷ map render_profile (values m)
unfolding render_profiles
lines-render_profiles m h = rw (
  lines-cons header (render_lines (values m)) (omega arith) (omega arith),
  lines-render_lines m h,
)

-- A sorted store, each profile under its name and such that the format can hold it, is read back as
-- it was written.
pub parse_profiles-render :
    (m : SessionStore)
    → IsSorted m
    → All Entry m
    → parse_profiles (render_profiles (values m)) ≡ ok m
unfolding parse_profiles
parse_profiles-render m s h =
    rw (lines-render_profiles m h, header_is_skipped) (parse_lines-render [] m h s)
