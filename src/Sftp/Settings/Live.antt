-- ===== src/Sftp/Settings/Live.antt =====
-- What the environment of a live test is turned into.
use cross_scp.Base.{
  ℕ, ◌≡◌, ◌<◌, ◌^◌, refl, sym, ap, ◌∙◌, arith, Option, none, some, false, is_empty, Bool-cases,
  Option-cases, some_eq, inl, inr,
}
use mathlib.Core.Path.{subst}
use cross_scp.Base.Result.{Result, ok, >>=-eq-ok, ok_or-eq-ok}
use cross_scp.Base.Text.{Text, codes, trim}
use cross_scp.Base.Decimal.{parse, parse-bound}
use cross_scp.Session.{protocol_eq}
use cross_scp.Security.{new_ref}
use cross_scp.Sftp.Errors.{SftpError, invalid_live_test_config}
use cross_scp.Sftp.Settings.{
  LiveSftpTestConfig, from_profile, number_or, env_value, live_config, from_env, to_session_profile,
}

number_or-bound :
    (bound otherwise : ℕ) (message : Text) (o : Option Text) {n : ℕ}
    → otherwise < bound
    → number_or bound message otherwise o ≡ ok n
    → n < bound
unfolding number_or
number_or-bound bound otherwise message none l h = rw (ok_same h) at l
  where
    ok_same : {a b : ℕ} → ◌≡◌ {A = Result SftpError ℕ} (ok a) (ok b) → a ≡ b
    ok_same q = cc
number_or-bound bound otherwise message (some value) l h =
    parse-bound bound value (omega arith)
      (ok_or-eq-ok (parse bound value) (invalid_live_test_config message) h)

module _ (var : Text → Option Text) where
  env_value-nonblank :
      (name : Text) {v : Text} → env_value var name ≡ some v → is_empty (trim v) ≡ false
  unfolding env_value
  env_value-nonblank name h = elim (Option-cases (var name)) [
    | inl e ↦ cc (rw (e, env_value) at h)
    | inr (value, e) ↦ elim (Bool-cases (is_empty (trim value))) [
      | inl f ↦ cc (rw (e, f, env_value) at h)
      | inr f ↦
          let same = some_eq (rw (e, f, env_value) at h) in
          ap (λ t. is_empty (trim t)) (sym same) ∙ f
    ]
  ]

  -- What the settings of a live test are accepted as.
  abbrev pub IsUsable : LiveSftpTestConfig → Type 0
  IsUsable config =
      (from_profile (to_session_profile config)
        ≡ ok (record {
          host = config.host;
          port = config.port;
          username = some config.username;
          initial_remote_path = none;
          credential_ref = some (record { as_str = config.credential_ref });
        }))
      × (config.port < 65536)
      × (config.timeout_secs < 2 ^ 64)

  live_config-IsUsable :
      (host username reference : Text) {config : LiveSftpTestConfig}
      → is_empty (trim host) ≡ false
      → is_empty (trim reference) ≡ false
      → live_config var host username reference ≡ ok (some config)
      → IsUsable config
  unfolding live_config from_profile to_session_profile new_ref protocol_eq
  live_config-IsUsable host username reference {config = config} a b h =
      let given_port = env_value var (codes "CROSSSCP_SFTP_TEST_PORT") in
      let given_secs = env_value var (codes "CROSSSCP_SFTP_TEST_TIMEOUT_SECS") in
      let (port, p, hp) =
        >>=-eq-ok (number_or 65536 (codes "invalid test port") 22 given_port) _ h in
      let (secs, t, ht) =
        >>=-eq-ok (number_or (2 ^ 64) (codes "invalid test timeout") 10 given_secs) _ hp in
      let made : LiveSftpTestConfig = record {
        host = host;
        port = port;
        username = username;
        credential_ref = reference;
        timeout_secs = secs;
      } in
      let same : made ≡ config = cc in
      let usable : IsUsable made = (
        rw (a, b) refl,
        number_or-bound 65536 22 _ given_port (omega arith) p,
        number_or-bound (2 ^ 64) 10 _ given_secs (omega arith) t,
      ) in
      subst IsUsable same usable

  -- Settings of a live test that are read from the environment make a profile that a connection is
  -- configured from, with the same host, port, user name and reference; the port is a `u16` and the
  -- number of seconds a `u64`.
  pub from_env-IsUsable :
      {config : LiveSftpTestConfig} → from_env var ≡ ok (some config) → IsUsable config
  unfolding from_env
  from_env-IsUsable h = elim (Option-cases (env_value var (codes "CROSSSCP_SFTP_TEST_HOST"))) [
    | inl e ↦ cc (rw (e, from_env) at h)
    | inr (host, e) ↦ elim (Option-cases (env_value var (codes "CROSSSCP_SFTP_TEST_USERNAME"))) [
      | inl f ↦ cc (rw (e, f, from_env) at h)
      | inr (username, f) ↦
          elim (Option-cases (env_value var (codes "CROSSSCP_SFTP_TEST_CREDENTIAL_REF"))) [
            | inl g ↦ cc (rw (e, f, g, from_env) at h)
            | inr (reference, g) ↦
                live_config-IsUsable host username reference
                  (env_value-nonblank (codes "CROSSSCP_SFTP_TEST_HOST") e)
                  (env_value-nonblank (codes "CROSSSCP_SFTP_TEST_CREDENTIAL_REF") g)
                  (rw (e, f, g, from_env) at h)
          ]
    ]
  ]
