-- ===== src/Session/Names.antt =====
-- The names of the protocols are read back, and no other text is read as a protocol.
use cross_scp.Base.{Option, none, some, true, ◌≡◌, ◌↔◌, ◌⊎◌, inl, inr, refl, arith}
use cross_scp.Base.Result.{ok, err}
use cross_scp.Base.Text.{Text, codes, text_eq, text_eq_iff, trim, to_ascii_lowercase}
use cross_scp.Session.{
  SessionProtocol, sftp, web_dav, as_str, display_name, protocol_eq, protocol_named, read_as,
  from_str, unsupported,
}

-- A text without white space around it, and its case, are all that `from_str` forgives.
abbrev normalized : Text → Text
normalized value = to_ascii_lowercase (trim value)

-- The identifier and the label of a protocol are both read as that protocol.
pub from_str-names :
    (p : SessionProtocol) → (from_str (as_str p) ≡ ok p) × (from_str (display_name p) ≡ ok p)
unfolding from_str as_str display_name
from_str-names sftp = (refl, refl)
from_str-names _ = (refl, refl)

-- The texts that `from_str` accepts for a protocol: its identifier, and `web-dav`.
abbrev pub Names : SessionProtocol → Text → Type 0
Names web_dav name = (name ≡ codes "webdav") ⊎ (name ≡ codes "web-dav")
Names p name = name ≡ as_str p

protocol_named_sound :
    (name : Text) (p : SessionProtocol) → protocol_named name ≡ some p → Names p name
unfolding protocol_named as_str
protocol_named_sound name sftp h = ground (
  arith,
  text_eq_iff name (codes "sftp"),
  text_eq_iff name (codes "scp"),
  text_eq_iff name (codes "ftp"),
  text_eq_iff name (codes "ftps"),
  text_eq_iff name (codes "webdav"),
  text_eq_iff name (codes "web-dav"),
  text_eq_iff name (codes "s3"),
  text_eq_iff name (codes "local"),
)
protocol_named_sound name _ h = ground (
  arith,
  text_eq_iff name (codes "sftp"),
  text_eq_iff name (codes "scp"),
  text_eq_iff name (codes "ftp"),
  text_eq_iff name (codes "ftps"),
  text_eq_iff name (codes "webdav"),
  text_eq_iff name (codes "web-dav"),
  text_eq_iff name (codes "s3"),
  text_eq_iff name (codes "local"),
)

protocol_named_complete :
    (name : Text) (p : SessionProtocol) → Names p name → protocol_named name ≡ some p
unfolding protocol_named as_str text_eq
protocol_named_complete name web_dav (inl e) = rw (e, protocol_named)
protocol_named_complete name web_dav (inr e) = rw (e, protocol_named)
protocol_named_complete name _ e = rw (e, protocol_named)

read_as_iff :
    (value : Text) (p : SessionProtocol) (o : Option SessionProtocol)
    → ((read_as value o ≡ ok p) ↔ (o ≡ some p))
      × ((read_as value o ≡ err (unsupported value))
          ⊎ ((q : SessionProtocol) × (read_as value o ≡ ok q)))
unfolding read_as
read_as_iff value p none = (ground arith, inl refl)
read_as_iff value p (some q) = (ground arith, inr (q, refl))

-- `from_str` reads a text as a protocol exactly if the text, trimmed and in lower case, is one of the
-- names of the protocol; any other text is an error that carries the text as it was given.
pub from_str_iff :
    (value : Text) (p : SessionProtocol)
    → ((from_str value ≡ ok p) ↔ Names p (to_ascii_lowercase (trim value)))
      × ((from_str value ≡ err (unsupported value))
          ⊎ ((q : SessionProtocol) × (from_str value ≡ ok q)))
unfolding from_str
from_str_iff value p =
    let name = to_ascii_lowercase (trim value) in
    let ((f, g), total) = read_as_iff value p (protocol_named name) in
    ((λ h. protocol_named_sound name p (f h), λ h. g (protocol_named_complete name p h)), total)

pub protocol_eq_iff : (p q : SessionProtocol) → (protocol_eq p q ≡ true) ↔ (p ≡ q)
unfolding protocol_eq
protocol_eq_iff p q = ground arith
