-- ===== src/Sftp/KnownHosts/RoundTrip.antt =====
-- A store of known hosts that the format can hold is read back from what is written.
use cross_scp.Base.{
  ℕ, ◌<◌, ◌^◌, [], ◌∷◌, ◌++◌, true, false, ◌||◌, ◌≡◌, ◌≢◌, refl, arith, map, All, All-map,
  append-nil, append_assoc, is_empty, Bool-cases, inl, inr,
}
use mathlib.Core.Path.{subst}
use cross_scp.Base.Result.{ok}
use cross_scp.Base.Text.{Text, codes, trim, starts_with, split, join, lines, is_whitespace}
use cross_scp.Base.TextLaws.{Lacks, IsBlank, trim-IsBlank, split-join, join-Lacks, NoCr, lines-cons}
use cross_scp.Base.Decimal.{
  to_string, parse-to_string, to_string-IsDigit, to_string-ne-nil, IsDigit,
}
use cross_scp.Base.Order.{pair_order}
use cross_scp.Base.OrdMap
use cross_scp.Base.OrdMap.{IsSorted, KeysBelow-of_sorted, values, insert-append}
use cross_scp.Config.Fields.{tab, newline, escape}
use cross_scp.Config.Fields.RoundTrip.{
  unescape_from-escape, IsPlain, escape-IsPlain, escape-NoCr, digits-IsPlain,
}
use cross_scp.Config.Lines.Record.{
  NoHash, IsPlain-Lacks-tab, IsPlain-Lacks-newline, starts_hash, All-append_right, NoCr-join,
  NoCr-join_last,
}
use cross_scp.Sftp.KnownHosts.{
  HostKeyRecord, key, KnownHosts, header, escape_field, unescape_field, record_fields,
  render_record, render_records, render_host_keys, parse_record, parse_host_line, parse_host_lines,
  parse_host_keys, trust,
}

-- A record that the format can hold: the port is a `u16`, the host does not begin with `#`, and the
-- fingerprint does not end in a carriage return.
pub record IsStorable (known : HostKeyRecord) : Type 0 where
  pub port_fits : known.port < 2 ^ 16
  pub host_start : NoHash known.host
  pub fingerprint_end : NoCr known.fingerprint

abbrev pub Entry : (Text × ℕ) × HostKeyRecord → Type 0
Entry e = (e.0 ≡ key e.1) × IsStorable e.1

escape_field_lem : (s : Text) → escape_field s ≡ escape s
unfolding escape_field escape
escape_field_lem s = refl

unescape-escape_field : (s : Text) → unescape_field (escape_field s) ≡ ok s
unfolding unescape_field
unescape-escape_field s = rw escape_field_lem (unescape_from-escape _ s)

escape_field-IsPlain : (s : Text) → IsPlain (escape_field s)
escape_field-IsPlain s = rw escape_field_lem (escape-IsPlain s)

fields-IsPlain : (known : HostKeyRecord) → All IsPlain (record_fields known)
fields-IsPlain known = (
  escape_field-IsPlain known.host,
  (
    digits-IsPlain _ (to_string-IsDigit known.port),
    (escape_field-IsPlain known.algorithm, (escape_field-IsPlain known.fingerprint, tt)),
  ),
)

split-render_record :
    (known : HostKeyRecord) → split tab (render_record known) ≡ record_fields known
unfolding render_record
split-render_record known =
    split-join tab _ _
      (All-map IsPlain (Lacks tab) (record_fields known) IsPlain-Lacks-tab (fields-IsPlain known))

render_record-Lacks : (known : HostKeyRecord) → Lacks newline (render_record known)
unfolding render_record
render_record-Lacks known = join-Lacks newline tab _ _ (omega arith) (
    All-map IsPlain (Lacks newline) (record_fields known) IsPlain-Lacks-newline
      (fields-IsPlain known))

parse_record-fields :
    (line : Text) (known : HostKeyRecord)
    → known.port < 2 ^ 16
    → parse_record line (record_fields known) ≡ ok known
unfolding parse_record
parse_record-fields line known h = rw (
  parse-to_string (2 ^ 16) known.port h,
  unescape-escape_field known.host,
  unescape-escape_field known.algorithm,
  unescape-escape_field known.fingerprint,
)

render_record-NoCr : (known : HostKeyRecord) → NoCr known.fingerprint → NoCr (render_record known)
unfolding render_record
render_record-NoCr known h =
    let last : NoCr (escape_field known.fingerprint) =
      rw (escape_field_lem known.fingerprint) (escape-NoCr known.fingerprint h) in
    NoCr-join _ _ _ (NoCr-join _ _ _ (NoCr-join _ _ [] (NoCr-join_last _ last)))

starts_comment :
    (host rest : Text)
    → NoHash host
    → starts_with (escape_field host ++ tab ∷ rest) (codes "#") ≡ false
starts_comment [] rest h = unfold escape_field starts_with in refl
starts_comment (c ∷ host) rest h =
    rw (escape_field_lem (c ∷ host)) (starts_hash (c ∷ host) (tab ∷ rest) (λ e. cc) h)

digit-IsBlank : (s rest : Text) → s ≢ [] → All IsDigit s → ¬ IsBlank (s ++ rest)
unfolding is_whitespace
digit-IsBlank [] rest n d b = n refl
digit-IsBlank (c ∷ s) rest n (d, _) (b, _) = ground arith

-- The line of a record is neither blank nor a comment: it holds the digits of the port.
line_is_read :
    (known : HostKeyRecord)
    → NoHash known.host
    → (is_empty (trim (render_record known)) || starts_with (render_record known) (codes "#"))
      ≡ false
unfolding render_record
line_is_read known h =
    let a : is_empty (trim (render_record known)) ≡ false =
      elim (Bool-cases (is_empty (trim (render_record known)))) [
        | inl e ↦ absurd (not_blank (trim-IsBlank (render_record known) e))
        | inr e ↦ e
      ] in
    rw a (unfold join in starts_comment known.host _ h)
  where
    not_blank : ¬ IsBlank (render_record known)
    not_blank b =
        unfold join in
        digit-IsBlank (to_string known.port) _ (to_string-ne-nil known.port)
          (to_string-IsDigit known.port)
          (All-append_right (λ c. is_whitespace c ≡ true) (escape_field known.host) _ b).1

parse_host_line-render :
    (hosts : KnownHosts) (known : HostKeyRecord)
    → IsStorable known
    → parse_host_line hosts (render_record known) ≡ ok (OrdMap.insert (key known) known hosts)
unfolding parse_host_line trust
parse_host_line-render hosts known h =
    rw (line_is_read known h.host_start, parse_host_line, split-render_record known)
      (rw (parse_record-fields (render_record known) known h.port_fits) refl)

parse_host_lines-render :
    (done rest : KnownHosts)
    → All Entry rest
    → IsSorted (done ++ rest)
    → parse_host_lines done (map render_record (values rest)) ≡ ok (done ++ rest)
unfolding parse_host_lines values
parse_host_lines-render done [] _ s = rw append-nil
parse_host_lines-render done ((k, v) ∷ rest) ((e, h), hs) s =
    let below = KeysBelow-of_sorted k v done rest s in
    let inserted : OrdMap.insert (key v) v done ≡ done ++ (k, v) ∷ [] =
      subst (λ n. OrdMap.insert n v done ≡ done ++ (k, v) ∷ []) e (insert-append k v done below) in
    rw (parse_host_line-render done v h, inserted)
      (rw append_assoc at
        (parse_host_lines-render (done ++ (k, v) ∷ []) rest hs (rw append_assoc s)))

lines-render_records :
    (m : KnownHosts)
    → All Entry m
    → lines (render_records (values m)) ≡ map render_record (values m)
unfolding render_records values
lines-render_records [] _ = unfold lines in refl
lines-render_records ((k, v) ∷ m) ((e, h), hs) = rw (
  lines-cons (render_record v) _ (render_record-Lacks v) (render_record-NoCr v h.fingerprint_end),
  lines-render_records m hs,
)

header_is_skipped : (hosts : KnownHosts) → parse_host_line hosts header ≡ ok hosts
unfolding parse_host_line trim starts_with
header_is_skipped hosts = refl

lines-render_host_keys :
    (m : KnownHosts)
    → All Entry m
    → lines (render_host_keys (values m)) ≡ header ∷ map render_record (values m)
unfolding render_host_keys
lines-render_host_keys m h = rw (
  lines-cons header (render_records (values m)) (omega arith) (omega arith),
  lines-render_records m h,
)

-- A sorted store of known hosts, each under its own key and such that the format can hold it, is
-- read back as it was written.
pub parse_host_keys-render :
    (m : KnownHosts)
    → IsSorted m
    → All Entry m
    → parse_host_keys (render_host_keys (values m)) ≡ ok m
unfolding parse_host_keys
parse_host_keys-render m s h =
    rw (lines-render_host_keys m h, header_is_skipped) (parse_host_lines-render [] m h s)
