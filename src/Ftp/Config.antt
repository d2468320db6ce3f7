-- ===== src/Ftp/Config.antt =====
-- Which profiles and which credentials a connection is made from.
use cross_scp.Base.{
  ◌≡◌, ◌↔◌, ◌⊎◌, inl, inr, refl, arith, Option, none, some, Bool, true, false, is_empty, Bool-cases,
  ap, ◌∙◌, sym, not,
}
use cross_scp.Base.Result.{
  Result, ok, ok_or, map_err, fail_if, transpose, >>=-eq-ok, fail_if-eq-ok, ok_or-eq-ok,
  map_err-eq-ok,
}
use cross_scp.Base.Text.{Text, trim}
use cross_scp.Session.{SessionProtocol, ftp, ftps, SessionProfile, protocol_eq}
use cross_scp.Security.{
  SecurityError, CredentialRef, CredentialSecret, password, private_key, private_key_passphrase,
  token, new_ref,
}
use cross_scp.Ftp.{
  FtpConnectionConfig, FtpAuthMaterial, from_profile, resolve_ftp_credentials, password_of,
  missing_credential_ref, missing_username, credential_not_found, security, is_ftp, configured,
  ref_of, invalid_protocol, missing_host,
}

abbrev pub RefIsValid : Option Text → Type 0
RefIsValid none = Unit
RefIsValid (some reference) = is_empty (trim reference) ≡ false

not-false : (b : Bool) → not b ≡ false → b ≡ true
not-false true h = refl
not-false false h = cc

is_ftp_iff : (q : SessionProtocol) → (is_ftp q ≡ true) ↔ ((q ≡ ftp) ⊎ (q ≡ ftps))
unfolding is_ftp protocol_eq
is_ftp_iff ftp = (λ h. inl refl, λ h. refl)
is_ftp_iff ftps = (λ h. inr refl, λ h. refl)
is_ftp_iff _ = (λ h. ground arith, λ h. ground arith)

reference_iff :
    (r : Option Text)
    → ((o : Option CredentialRef) × (map_err security (transpose (ref_of r)) ≡ ok o)) ↔ RefIsValid r
unfolding new_ref
reference_iff none = (λ h. tt, λ h. (none, refl))
reference_iff (some r) = elim (Bool-cases (is_empty (trim r))) [
  | inl e ↦ rw e (λ (o, h). cc, λ h. cc)
  | inr e ↦ rw e (λ h. refl, λ h. (some (record { as_str = r }), refl))
]

-- A connection is configured exactly from a profile of FTP or FTPS whose host is not blank and whose
-- credential reference, if it has one, is not blank.
pub from_profile_iff :
    (p : SessionProfile)
    → ((config : FtpConnectionConfig) × (from_profile p ≡ ok config)) ↔ (
        ((p.protocol ≡ ftp) ⊎ (p.protocol ≡ ftps))
        × (is_empty (trim p.host) ≡ false)
        × RefIsValid p.credential_ref)
unfolding from_profile new_ref
from_profile_iff p = (
  λ (config, h).
      let (_, a, ha) =
        >>=-eq-ok (fail_if (not (is_ftp p.protocol)) (invalid_protocol p.protocol)) _ h in
      let (_, b, hb) = >>=-eq-ok (fail_if (is_empty (trim p.host)) missing_host) _ ha in
      let (reference, c, hc) =
        >>=-eq-ok (map_err security (transpose (ref_of p.credential_ref))) _ hb in
      (
        (is_ftp_iff p.protocol).0
            (not-false (is_ftp p.protocol) (fail_if-eq-ok _ (invalid_protocol p.protocol) a)),
        fail_if-eq-ok _ missing_host b,
        (reference_iff p.credential_ref).0 (reference, c),
      ),
  λ (a, b, c).
      let (reference, valid) = (reference_iff p.credential_ref).1 c in
      (configured p reference, rw ((is_ftp_iff p.protocol).1 a, b, valid) refl),
)

password_of-eq-ok :
    (secret : CredentialSecret) {text : Text}
    → password_of secret ≡ ok text
    → (expose : Text) × ((secret ≡ password (record { expose = expose }))
        ⊎ (secret ≡ token (record { expose = expose })))
      × (text ≡ expose)
password_of-eq-ok (password s) h = (s.expose, inl refl, cc)
password_of-eq-ok (token s) h = (s.expose, inr refl, cc)
password_of-eq-ok (private_key path passphrase) h = cc
password_of-eq-ok (private_key_passphrase s) h = cc

password_of-holds :
    (secret : CredentialSecret) {text expose : Text}
    → (secret ≡ password (record { expose = expose }))
      ⊎ (secret ≡ token (record { expose = expose }))
    → text ≡ expose
    → password_of secret ≡ ok text
password_of-holds secret (inl e) t = ap password_of e ∙ ap ok (sym t)
password_of-holds secret (inr e) t = ap password_of e ∙ ap ok (sym t)

-- What the configuration, the service and the credentials have in common when they are granted.
abbrev pub Grants :
    FtpConnectionConfig
    → (CredentialRef → Result SecurityError (Option CredentialSecret))
    → FtpAuthMaterial
    → Type 0
Grants config load auth =
    (reference : CredentialRef) × (secret : CredentialSecret) × (config.credential_ref
      ≡ some reference)
    × (load reference ≡ ok (some secret))
    × ((expose : Text) × ((secret ≡ password (record { expose = expose }))
          ⊎ (secret ≡ token (record { expose = expose })))
        × (auth.password ≡ expose))
    × (config.username ≡ some auth.username)

resolve-Grants :
    (config : FtpConnectionConfig)
    (load : CredentialRef → Result SecurityError (Option CredentialSecret)) (auth : FtpAuthMaterial)
    → resolve_ftp_credentials config load ≡ ok auth
    → Grants config load auth
unfolding resolve_ftp_credentials
resolve-Grants config load auth h =
    let (reference, a, ha) = >>=-eq-ok (ok_or config.credential_ref missing_credential_ref) _ h in
    let (found, b, hb) = >>=-eq-ok (map_err security (load reference)) _ ha in
    let (secret, c, hc) = >>=-eq-ok (ok_or found (credential_not_found reference.as_str)) _ hb in
    let (exposed, d, hd) = >>=-eq-ok (password_of secret) _ hc in
    let (username, e, he) = >>=-eq-ok (ok_or config.username missing_username) _ hd in
    let same : ◌≡◌ {A = FtpAuthMaterial} (record { username = username; password = exposed }) auth =
      cc in
    (
      reference,
      secret,
      ok_or-eq-ok config.credential_ref missing_credential_ref a,
      map_err-eq-ok security (load reference) b
          ∙ ap ok (ok_or-eq-ok found (credential_not_found reference.as_str) c),
      password_of-eq-ok secret (d ∙ ap (λ m. ok m.password) same),
      ok_or-eq-ok config.username missing_username e ∙ ap (λ m. some m.username) same,
    )

-- The credentials of a connection are exactly the user name of its configuration and the password or
-- token that the service holds under its reference; in any other case there is an error.
pub resolve_ftp_credentials_iff :
    (config : FtpConnectionConfig)
    (load : CredentialRef → Result SecurityError (Option CredentialSecret)) (auth : FtpAuthMaterial)
    → (resolve_ftp_credentials config load ≡ ok auth) ↔ Grants config load auth
unfolding resolve_ftp_credentials
resolve_ftp_credentials_iff config load auth = (
  resolve-Grants config load auth,
  λ (reference, secret, a, b, (expose, held, t), d).
      rw (a, b, password_of-holds secret held t, d) refl,
)
