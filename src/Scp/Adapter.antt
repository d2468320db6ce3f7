-- ===== src/Scp/Adapter.antt =====
-- The SCP adapter and its session.
use cross_scp.Base.{ℕ, ◌∷◌, ◌++◌, Option, none, some, Bool, false, not}
use cross_scp.Base.Result.{ok_or}
use cross_scp.Base.Text.{Text, codes}
use cross_scp.Base.Decimal.{to_string}
use cross_scp.Security.{CredentialSecret, password, private_key}
use cross_scp.Machine.Network.{Network, or, first_of, exposed}
use cross_scp.Machine.Call.{Call, ◌>>=◌, ◌>>◌, return, when, throw, from_result, calling, change}
use cross_scp.Scp.{
  ScpError, backend, missing_username, unsupported_auth_method, authentication_failed,
  ScpConnectionConfig, ScpAuthMaterial, from_ssh2, from_io,
}

pub record ScpAdapter (S : Type 0) : Type 0 where
  pub config : ScpConnectionConfig
  pub auth : ScpAuthMaterial
  pub timeout : ℕ
  pub session : Option S

abbrev pub new : {S : Type 0} → ScpConnectionConfig → ScpAuthMaterial → ScpAdapter S
new config auth = record { config = config; auth = auth; timeout = 300000; session = none }

abbrev pub with_timeout : {S : Type 0} → ℕ → ScpAdapter S → ScpAdapter S
with_timeout timeout scp = record scp { timeout = timeout }

module _ {W H S T : Type 0} (network : Network W H S T) where
  -- The `match` on the secret.
  unfoldable pub authenticate : S → Text → CredentialSecret → Call W ScpError (Unit {0})
  unfolding from_ssh2
  authenticate session username (password secret) =
      calling from_ssh2 (network.userauth_password session username secret.expose)
  authenticate session username (private_key path passphrase) =
      calling from_ssh2 (network.userauth_pubkey_file session username path (exposed passphrase))
  authenticate session username _ = throw (
      unsupported_auth_method
        (codes "SCP supports password auth or private-key auth with an optional passphrase"))

  abbrev no_address : ScpConnectionConfig → ScpError
  unfolding to_string
  no_address config =
      backend (codes "no socket address for " ++ config.host ++ b':' ∷ to_string config.port)

  -- The session that `connect` opens.
  unfoldable pub open_session : ScpAdapter S → Call W ScpError S
  unfolding authenticate no_address from_ssh2
  open_session scp = do
    addresses ← calling from_io (network.to_socket_addrs scp.config.host scp.config.port)
    address ← from_result (ok_or (first_of addresses) (no_address scp.config))
    tcp ← calling from_io (network.connect_timeout address scp.timeout)
    calling from_io (network.set_read_timeout tcp scp.timeout)
    calling from_io (network.set_write_timeout tcp scp.timeout)
    session ← calling from_ssh2 network.new_session
    change (network.set_tcp_stream session tcp)
    calling from_ssh2 (network.handshake session)
    username ← from_result (ok_or (or scp.auth.username scp.config.username) missing_username)
    authenticate session username scp.auth.secret
    λ w. when (not (network.authenticated session w)) (throw authentication_failed) w
    return session

  -- The session stays as it was where one cannot be opened.
  unfoldable pub connect : ScpAdapter S → Call W ScpError (ScpAdapter S)
  unfolding open_session
  connect scp = open_session scp >>= λ session. return (record scp { session = some session })

  -- `take` leaves no session, also where the call fails.
  unfoldable pub disconnect : ScpAdapter S → ScpAdapter S × Call W ScpError (Unit {0})
  unfolding from_ssh2
  disconnect scp = (
    record scp { session = none },
    elim scp.session [
      | none ↦ return tt
      | some session ↦ calling from_ssh2 (network.disconnect session (codes "CrossSCP disconnect"))
    ],
  )

  unfoldable pub is_connected : ScpAdapter S → W → Bool
  is_connected scp w = elim scp.session [
    | none ↦ false
    | some session ↦ network.authenticated session w
  ]
