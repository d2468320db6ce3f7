-- ===== src/Sftp/Settings.antt =====
-- What a connection is made from: a profile and its credentials, or the environment of a live test.
pub mod Live
use cross_scp.Base.{
  ℕ, ◌≡◌, ◌↔◌, refl, ap, ◌∙◌, arith, Option, none, some, Bool, true, false, not, is_empty,
  if◌then◌else◌, Bool-cases, map, ◌^◌, ◌⊎◌, inl, inr,
}
use cross_scp.Base.Result.{
  Result, ok, err, ◌>>=◌, ◌>>◌, fail_if, ok_or, map_err, transpose, >>=-eq-ok, fail_if-eq-ok,
  ok_or-eq-ok, map_err-eq-ok,
}
use cross_scp.Base.Text.{Text, codes, trim}
use cross_scp.Base.Decimal.{parse}
use cross_scp.Session.{SessionProtocol, sftp, SessionProfile, protocol_eq}
use cross_scp.Security.{SecurityError, CredentialRef, CredentialSecret, new_ref}
use cross_scp.Sftp.Errors.{
  SftpError, invalid_protocol, missing_host, missing_credential_ref, credential_not_found, security,
  invalid_live_test_config,
}

abbrev pub default_sftp_port : ℕ
default_sftp_port = 22

pub record SftpConnectionConfig : Type 0 where
  pub host : Text
  pub port : ℕ
  pub username : Option Text
  pub initial_remote_path : Option Text
  pub credential_ref : Option CredentialRef

-- `.map(CredentialRef::new)`
abbrev ref_of : Option Text → Option (Result SecurityError CredentialRef)
unfolding new_ref
ref_of none = none
ref_of (some reference) = some (new_ref reference)

-- `unwrap_or`
abbrev pub unwrap_or : {A : Type 0} → A → Option A → A
unwrap_or other none = other
unwrap_or other (some a) = a

abbrev pub configured : SessionProfile → Option CredentialRef → SftpConnectionConfig
configured profile credential_ref = record {
  host = profile.host;
  port = unwrap_or default_sftp_port profile.port;
  username = profile.username;
  initial_remote_path = profile.initial_remote_path;
  credential_ref = credential_ref;
}

unfoldable pub from_profile : SessionProfile → Result SftpError SftpConnectionConfig
unfolding protocol_eq trim new_ref
from_profile profile =
    fail_if (not (protocol_eq profile.protocol sftp)) (invalid_protocol profile.protocol)
    >> fail_if (is_empty (trim profile.host)) missing_host
    >> map_err security (transpose (ref_of profile.credential_ref))
    >>= λ credential_ref. ok (configured profile credential_ref)

pub record SftpAuthMaterial : Type 0 where
  pub username : Option Text
  pub secret : CredentialSecret

unfoldable pub resolve_sftp_credentials :
    SftpConnectionConfig
    → (CredentialRef → Result SecurityError (Option CredentialSecret))
    → Result SftpError SftpAuthMaterial
resolve_sftp_credentials config load =
    ok_or config.credential_ref missing_credential_ref >>= λ reference.
    map_err security (load reference) >>= λ found.
    ok_or found (credential_not_found reference.as_str) >>= λ secret.
    ok (record { username = config.username; secret = secret })

pub record LiveSftpTestConfig : Type 0 where
  pub host : Text
  pub port : ℕ
  pub username : Text
  pub credential_ref : Text
  pub timeout_secs : ℕ

-- `str::parse` of a number below a bound, with what is said of any other text.
unfoldable pub number_or : ℕ → Text → ℕ → Option Text → Result SftpError ℕ
unfolding parse
number_or bound message otherwise none = ok otherwise
number_or bound message otherwise (some value) =
    ok_or (parse bound value) (invalid_live_test_config message)

-- `std::env::var` is a parameter: no value for a variable that is not set or not Unicode.
module _ (var : Text → Option Text) where
  -- `.filter(|value| !value.trim().is_empty())`
  unfoldable pub env_value : Text → Option Text
  unfolding trim
  env_value name = elim (var name) [
    | none ↦ none
    | some value ↦ if is_empty (trim value) then none else some value
  ]

  -- Once the three variables that a live test needs are there.
  unfoldable pub live_config : Text → Text → Text → Result SftpError (Option LiveSftpTestConfig)
  unfolding env_value number_or
  live_config host username credential_ref =
      number_or 65536 (codes "invalid test port") default_sftp_port
        (env_value (codes "CROSSSCP_SFTP_TEST_PORT"))
      >>= λ port.
          number_or (2 ^ 64) (codes "invalid test timeout") 10
            (env_value (codes "CROSSSCP_SFTP_TEST_TIMEOUT_SECS"))
          >>= λ timeout_secs. ok (
              some (record {
                host = host;
                port = port;
                username = username;
                credential_ref = credential_ref;
                timeout_secs = timeout_secs;
              }))

  unfoldable pub from_env : Result SftpError (Option LiveSftpTestConfig)
  unfolding env_value live_config
  from_env = elim (env_value (codes "CROSSSCP_SFTP_TEST_HOST")) [
    | none ↦ ok none
    | some host ↦ elim (env_value (codes "CROSSSCP_SFTP_TEST_USERNAME")) [
      | none ↦ ok none
      | some username ↦ elim (env_value (codes "CROSSSCP_SFTP_TEST_CREDENTIAL_REF")) [
        | none ↦ ok none
        | some credential_ref ↦ live_config host username credential_ref
      ]
    ]
  ]

  unfoldable pub initial_list_path : Text
  unfolding env_value
  initial_list_path = unwrap_or (codes ".") (env_value (codes "CROSSSCP_SFTP_TEST_LIST_PATH"))

  unfoldable pub transfer_paths : Option (Text × Text)
  unfolding env_value
  transfer_paths = elim (env_value (codes "CROSSSCP_SFTP_TEST_LOCAL_FILE")) [
    | none ↦ none
    | some local_path ↦ elim (env_value (codes "CROSSSCP_SFTP_TEST_REMOTE_FILE")) [
      | none ↦ none
      | some remote_path ↦ some (local_path, remote_path)
    ]
  ]

unfoldable pub to_session_profile : LiveSftpTestConfig → SessionProfile
to_session_profile config = record {
  name = codes "live-sftp-test";
  protocol = sftp;
  host = config.host;
  port = some config.port;
  username = some config.username;
  initial_remote_path = none;
  credential_ref = some config.credential_ref;
}
