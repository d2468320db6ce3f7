-- ===== src/Cli/Connect.antt =====
-- How the command line connects: the secrets of the environment, and the three adapters. `var` is
-- `std::env::var`, with no value for a variable that is not set or not Unicode.
use cross_scp.Base.{ℕ, ◌*◌, ◌^◌, ◌++◌, Option, none, some, true, ltb, if◌then◌else◌, is_empty}
use cross_scp.Base.Result.{Result, ok, err, ◌>>=◌, ok_or, map_err}
use cross_scp.Base.Text.{Text, codes, trim}
use cross_scp.Base.Decimal.{parse}
use cross_scp.Session.{SessionProtocol, ftps, protocol_eq}
use cross_scp.Security.{
  SecurityError, CredentialRef, CredentialSecret, password, private_key, SecretString, new_ref,
  new_secret, new_service, store, load,
}
use cross_scp.Ftp.{
  FtpError, FtpConnectionConfig, FtpAuthMaterial, resolve_ftp_credentials, explicit,
}
use cross_scp.Ftp
use cross_scp.Ftp.Adapter.{FtpAdapter, Server}
use cross_scp.Ftp.Adapter
use cross_scp.Scp.{ScpError, ScpConnectionConfig, ScpAuthMaterial, resolve_scp_credentials}
use cross_scp.Scp
use cross_scp.Sftp.Errors.{SftpError}
use cross_scp.Sftp.Errors
use cross_scp.Sftp.Settings.{SftpConnectionConfig, SftpAuthMaterial, resolve_sftp_credentials}
use cross_scp.Cli.{non_empty}

-- `first.or_else(|_| second)`
abbrev pub or_else : {A : Type 0} → Option A → Option A → Option A
or_else none second = second
or_else (some a) second = some a

-- A service that holds the secret under the reference, as a function from references.
abbrev holding :
    CredentialRef
    → CredentialSecret
    → CredentialRef
    → Result SecurityError (Option CredentialSecret)
unfolding store load
holding reference secret wanted = load wanted (store reference secret new_service).0

abbrev pub remote_password_ref : Text
remote_password_ref = codes "env://CROSSSCP_REMOTE_PASSWORD"

module _ (var : Text → Option Text) where
  -- In milliseconds.
  unfoldable pub sftp_timeout : ℕ
  unfolding parse
  sftp_timeout = elim (var (codes "CROSSSCP_SFTP_TIMEOUT_SECS")) [
    | none ↦ 300000
    | some value ↦ elim (parse (2 ^ 64) value) [
      | none ↦ 300000
      | some seconds ↦ if ltb 0 seconds then seconds * 1000 else 300000
    ]
  ]

  -- `.filter(|value| !value.is_empty()).map(SecretString::new).transpose()?`
  abbrev passphrase_of : Option Text → Result SecurityError (Option SecretString)
  unfolding new_secret
  passphrase_of none = ok none
  passphrase_of (some value) =
      if is_empty value
      then ok none
      else elim (new_secret value) [ ok secret ↦ ok (some secret) | err e ↦ err e ]

  unfoldable pub password_from_env : (protocol : Text) → Result ScpError CredentialSecret
  unfolding new_secret
  password_from_env protocol =
      let protocol_password = codes "CROSSSCP_" ++ protocol ++ codes "_PASSWORD" in
      let protocol_key_path = codes "CROSSSCP_" ++ protocol ++ codes "_KEY_PATH" in
      ok_or (or_else (var (codes "CROSSSCP_REMOTE_PASSWORD")) (var protocol_password)) (
        Scp.backend (
          codes "CROSSSCP_REMOTE_PASSWORD/"
          ++ protocol_password
          ++ codes " or CROSSSCP_REMOTE_PRIVATE_KEY_PATH/"
          ++ protocol_key_path
          ++ codes " is required"))
      >>= λ value. map_err Scp.security (new_secret value) >>= λ secret. ok (password secret)

  -- A path of a key that is not blank goes before a password.
  unfoldable pub ssh_secret_from_env : (protocol : Text) → Result ScpError CredentialSecret
  unfolding password_from_env passphrase_of trim
  ssh_secret_from_env protocol =
      let key_path =
        or_else (var (codes "CROSSSCP_REMOTE_PRIVATE_KEY_PATH"))
          (var (codes "CROSSSCP_" ++ protocol ++ codes "_KEY_PATH")) in
      let given =
        or_else (var (codes "CROSSSCP_REMOTE_PRIVATE_KEY_PASSPHRASE"))
          (var (codes "CROSSSCP_" ++ protocol ++ codes "_KEY_PASSPHRASE")) in
      elim key_path [
        | none ↦ password_from_env protocol
        | some path ↦
            if is_empty (trim path)
            then password_from_env protocol
            else map_err Scp.security (passphrase_of given) >>= λ passphrase.
                ok (private_key path passphrase)
      ]

  unfoldable pub sftp_secret_from_env : Result SftpError CredentialSecret
  unfolding ssh_secret_from_env Scp.error_message
  sftp_secret_from_env =
      map_err (λ e. Errors.backend (Scp.error_message e)) (ssh_secret_from_env (codes "SFTP"))

  unfoldable pub ftp_secret_from_env : Result FtpError CredentialSecret
  unfolding new_secret
  ftp_secret_from_env = do
    value ←
        ok_or
          (or_else
            (or_else (var (codes "CROSSSCP_REMOTE_PASSWORD")) (var (codes "CROSSSCP_FTP_PASSWORD")))
            (var (codes "CROSSSCP_FTPS_PASSWORD")))
          (Ftp.backend (codes "CROSSSCP_REMOTE_PASSWORD is required"))
    secret ← map_err Ftp.security (new_secret value)
    ok (password secret)

  -- The settings that are made of the arguments.
  abbrev pub ftp_config :
      SessionProtocol → (host username : Text) → (port : ℕ) → CredentialRef → FtpConnectionConfig
  unfolding non_empty protocol_eq
  ftp_config protocol host username port reference = record {
    protocol = protocol;
    host = host;
    port = port;
    username = non_empty username;
    passive_mode = true;
    ftps_mode = if protocol_eq protocol ftps then some explicit else none;
    initial_remote_path = none;
    credential_ref = some reference;
  }

  abbrev pub sftp_config :
      (host username : Text) → (port : ℕ) → CredentialRef → SftpConnectionConfig
  unfolding non_empty
  sftp_config host username port reference = record {
    host = host;
    port = port;
    username = non_empty username;
    initial_remote_path = none;
    credential_ref = some reference;
  }

  abbrev pub scp_config : (host username : Text) → (port : ℕ) → CredentialRef → ScpConnectionConfig
  unfolding non_empty
  scp_config host username port reference = record {
    host = host;
    port = port;
    username = non_empty username;
    initial_remote_path = none;
    credential_ref = some reference;
  }

  -- The settings and credentials of each adapter, before it is connected.
  unfoldable pub prepare_ftp :
      SessionProtocol
      → (host port username : Text) → Result FtpError (FtpConnectionConfig × FtpAuthMaterial)
  unfolding parse new_ref ftp_secret_from_env ftp_config holding resolve_ftp_credentials
  prepare_ftp protocol host port username = do
    number ← ok_or (parse 65536 port) (Ftp.backend (codes "invalid port: " ++ port))
    reference ← map_err Ftp.security (new_ref remote_password_ref)
    secret ← ftp_secret_from_env
    let config = ftp_config protocol host username number reference
    auth ← resolve_ftp_credentials config (holding reference secret)
    ok (config, auth)

  unfoldable pub prepare_sftp :
      (host port username : Text) → Result SftpError (SftpConnectionConfig × SftpAuthMaterial)
  unfolding parse new_ref sftp_secret_from_env sftp_config holding resolve_sftp_credentials
  prepare_sftp host port username = do
    number ← ok_or (parse 65536 port) (Errors.backend (codes "invalid port: " ++ port))
    reference ← map_err Errors.security (new_ref remote_password_ref)
    secret ← sftp_secret_from_env
    let config = sftp_config host username number reference
    auth ← resolve_sftp_credentials config (holding reference secret)
    ok (config, auth)

  unfoldable pub prepare_scp :
      (host port username : Text) → Result ScpError (ScpConnectionConfig × ScpAuthMaterial)
  unfolding parse new_ref ssh_secret_from_env scp_config holding resolve_scp_credentials
  prepare_scp host port username = do
    number ← ok_or (parse 65536 port) (Scp.backend (codes "invalid port: " ++ port))
    reference ← map_err Scp.security (new_ref remote_password_ref)
    secret ← ssh_secret_from_env (codes "SCP")
    let config = scp_config host username number reference
    auth ← resolve_scp_credentials config (holding reference secret)
    ok (config, auth)

  -- `adapter.connect()?; Ok(adapter)`
  abbrev pub connected :
      {S : Type 0} → FtpAdapter S × Result FtpError (Unit {0}) → Result FtpError (FtpAdapter S)
  connected (adapter, ok _) = ok adapter
  connected (adapter, err e) = err e

  unfoldable pub connect_ftp :
      {S : Type 0}
      → Server S
      → SessionProtocol
      → (host port username : Text) → Result FtpError (FtpAdapter S)
  unfolding prepare_ftp Adapter.connect
  connect_ftp server protocol host port username =
      prepare_ftp protocol host port username >>= λ prepared.
      connected
        (Adapter.connect server (record { config = prepared.0; auth = prepared.1; session = none }))
