-- ===== src/Ssh2/Connect.antt =====
-- What a session that `connect` opens has gone through.
use cross_scp.Base.{◌≡◌, ◌⊎◌, inl, inr, refl, sym, ap, ◌∙◌, Option, none, some, true}
use mathlib.Core.Path.{subst}
use cross_scp.Base.Result.{ok, ok_or, ok_or-eq-ok}
use cross_scp.Base.Text.{Text}
use cross_scp.Security.{CredentialSecret, password, private_key, private_key_passphrase, token}
use cross_scp.Machine.{Machine}
use cross_scp.Ssh2.Remote.{from_ssh2}
use cross_scp.Machine.Network.{Network, or}
use cross_scp.Machine.Call.{
  from_result, calling-eq-ok, >>=-eq-ok, from_result-eq-ok, when-throw-eq-ok, return-eq-ok,
}
use cross_scp.Sftp.Errors.{missing_username, authentication_failed}
use cross_scp.Sftp.Settings.{SftpConnectionConfig}
use cross_scp.Ssh2.Session.{
  Ssh2Backend, authenticate, require_authenticated, open_transport, log_in, connect, is_connected,
}

module _ {W H S T : Type 0} (machine : Machine W H) (network : Network W H S T) where
  -- The server accepts the secret for the user name: a password by `userauth_password`, a key by
  -- `userauth_pubkey_file` with its passphrase. No other secret is accepted.
  abbrev pub Accepts : S → (username : Text) → CredentialSecret → (before after : W) → Type 0
  Accepts session username (password secret) before after =
      network.userauth_password session username secret.expose before ≡ (after, ok tt)
  Accepts session username (private_key path (some passphrase)) before after =
      network.userauth_pubkey_file session username path (some passphrase.expose) before
      ≡ (after, ok tt)
  Accepts session username (private_key path none) before after =
      network.userauth_pubkey_file session username path none before ≡ (after, ok tt)
  Accepts session username _ before after = ⊥

  -- The secret was accepted for the user in some state, and in the state that this left the session
  -- is authenticated. The user is that of the credentials, or that of the configuration where they
  -- name none.
  abbrev pub IsAuthenticated : Ssh2Backend S → SftpConnectionConfig → S → W → Type 0
  IsAuthenticated ssh2 config session v =
      (username : Text) × (u : W) × ((ssh2.auth.username ≡ some username)
        ⊎ ((ssh2.auth.username ≡ none) × (config.username ≡ some username)))
      × Accepts session username ssh2.auth.secret u v
      × (network.authenticated session v ≡ true)

  or_cases :
      (first second : Option Text) {username : Text}
      → or first second ≡ some username
      → (first ≡ some username) ⊎ ((first ≡ none) × (second ≡ some username))
  or_cases none second h = inr (refl, h)
  or_cases (some a) second h = inl h

  authenticate-Accepts :
      (session : S) (username : Text) (secret : CredentialSecret) (u : W) {v : W}
      → authenticate machine network session username secret u ≡ (v, ok tt)
      → Accepts session username secret u v
  unfolding authenticate
  authenticate-Accepts session username (password secret) u h =
      calling-eq-ok from_ssh2 (network.userauth_password session username secret.expose) u h
  authenticate-Accepts session username (private_key path (some passphrase)) u h =
      calling-eq-ok from_ssh2
        (network.userauth_pubkey_file session username path (some passphrase.expose)) u h
  authenticate-Accepts session username (private_key path none) u h =
      calling-eq-ok from_ssh2 (network.userauth_pubkey_file session username path none) u h
  authenticate-Accepts session username (private_key_passphrase secret) u h = cc
  authenticate-Accepts session username (token secret) u h = cc

  log_in-IsAuthenticated :
      (ssh2 : Ssh2Backend S) (config : SftpConnectionConfig) (session : S) (w : W) {v : W}
      → log_in machine network ssh2 config session w ≡ (v, ok tt)
      → IsAuthenticated ssh2 config session v
  unfolding log_in require_authenticated
  log_in-IsAuthenticated ssh2 config session w h =
      let named = ok_or (or ssh2.auth.username config.username) missing_username in
      let (username, u, a, h1) = >>=-eq-ok (from_result named) _ w h in
      let (done, t, b, h2) =
        >>=-eq-ok (authenticate machine network session username ssh2.auth.secret) _ u h1 in
      let (c, same) =
        when-throw-eq-ok (network.authenticated session t) authentication_failed t h2 in
      (
        username,
        u,
        or_cases ssh2.auth.username config.username (
            ok_or-eq-ok (or ssh2.auth.username config.username) missing_username
              (from_result-eq-ok named w a).0),
        authenticate-Accepts session username ssh2.auth.secret u (b ∙ ap (λ s. (s, ok tt)) same),
        ap (λ s. network.authenticated session s) (sym same) ∙ c,
      )

  -- A connection is made only with an authenticated session: for the user name of the credentials, or
  -- else that of the configuration, the server accepted the password of the credentials, or their key
  -- with its passphrase, and after that the session is authenticated. The session is the only thing that changes, and one is there.
  pub connect-IsAuthenticated :
      (config : SftpConnectionConfig) (ssh2 : Ssh2Backend S) (w : W) {next : Ssh2Backend S} {v : W}
      → connect machine network config ssh2 w ≡ (v, ok next)
      → (session : S) × (next ≡ record ssh2 { session = some session })
        × IsAuthenticated ssh2 config session v
        × (is_connected machine network next v ≡ true)
  unfolding connect is_connected
  connect-IsAuthenticated config ssh2 w {next = next} {v = v} h =
      let (session, u, a, h1) = >>=-eq-ok (open_transport machine network ssh2 config) _ w h in
      let (done, t, b, h2) = >>=-eq-ok (log_in machine network ssh2 config session) _ u h1 in
      let (same, made) = return-eq-ok h2 in
      let good = log_in-IsAuthenticated ssh2 config session u (b ∙ ap (λ s. (s, ok tt)) same) in
      (session, sym made, good, subst (λ n. is_connected machine network n v ≡ true) made good.4)
