-- ===== src/Machine/Network.antt =====
-- Sockets of the standard library, and sessions and channels of the ssh2 crate.
use cross_scp.Base.{ℕ, List, [], ◌∷◌, Option, none, some, Bool}
use cross_scp.Base.Result.{Result}
use cross_scp.Base.Text.{Text}
use cross_scp.Security.{SecretString}
use cross_scp.Machine.{IoError, Ssh2Error, Sftp}

-- A session is an `S`, a socket a `T`; timeouts are in milliseconds.
pub record Network (W H S T : Type 0) : Type 0 where
  pub to_socket_addrs : Text → ℕ → W → W × Result IoError (List Text)
  pub connect_timeout : Text → ℕ → W → W × Result IoError T
  pub set_read_timeout : T → ℕ → W → W × Result IoError (Unit {0})
  pub set_write_timeout : T → ℕ → W → W × Result IoError (Unit {0})
  pub new_session : W → W × Result Ssh2Error S
  pub set_tcp_stream : S → T → W → W
  pub handshake : S → W → W × Result Ssh2Error (Unit {0})
  pub userauth_password : S → (username password : Text) → W → W × Result Ssh2Error (Unit {0})
  pub userauth_pubkey_file :
      S
      → (username private_key_path : Text) → (passphrase : Option Text) → W
      → W × Result Ssh2Error (Unit {0})
  pub authenticated : S → W → Bool
  pub disconnect : S → Text → W → W × Result Ssh2Error (Unit {0})
  -- The calls of the channel that is opened.
  pub sftp : S → W → W × Result Ssh2Error (Sftp W H)

-- The calls of SCP: a session opens a channel, which is read or written and then closed.
pub record ScpChannels (W H S : Type 0) : Type 0 where
  pub scp_send : S → Text → (mode size : ℕ) → W → W × Result Ssh2Error H
  -- The channel and the size of the file.
  pub scp_recv : S → Text → W → W × Result Ssh2Error (H × ℕ)
  pub send_eof : H → W → W × Result Ssh2Error (Unit {0})
  pub wait_eof : H → W → W × Result Ssh2Error (Unit {0})
  pub close : H → W → W × Result Ssh2Error (Unit {0})
  pub wait_close : H → W → W × Result Ssh2Error (Unit {0})

-- `first.or(second)`
abbrev pub or : {A : Type 0} → Option A → Option A → Option A
or none second = second
or (some a) second = some a

-- `addresses.next()`
abbrev pub first_of : {A : Type 0} → List A → Option A
first_of [] = none
first_of (a ∷ _) = some a

abbrev pub exposed : Option SecretString → Option Text
exposed none = none
exposed (some secret) = some secret.expose
