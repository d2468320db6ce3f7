-- ===== src/Sftp/Errors.antt =====
-- `SftpError` and its text.
use cross_scp.Base.{◌++◌}
use cross_scp.Base.Text.{Text, codes}
use cross_scp.Session.{SessionProtocol, debug_protocol}
use cross_scp.Security.{SecurityError}
use cross_scp.Security
use cross_scp.Prompts.{PromptError, prompt_message}

pub data SftpError : Type 0 where
  invalid_protocol : SessionProtocol → SftpError
  missing_host missing_username missing_credential_ref : SftpError
  credential_not_found unsupported_auth_method : Text → SftpError
  authentication_failed not_connected : SftpError
  security : SecurityError → SftpError
  prompt : PromptError → SftpError
  backend_not_linked : SftpError
  backend io invalid_live_test_config invalid_known_host_record : Text → SftpError

-- `Display` of an error.
unfoldable pub error_message : SftpError → Text
unfolding debug_protocol Security.error_message prompt_message
error_message (invalid_protocol protocol) =
    codes "SFTP adapter cannot use " ++ debug_protocol protocol
error_message missing_host = codes "SFTP host is required"
error_message missing_username = codes "SFTP username is required"
error_message missing_credential_ref = codes "SFTP credential reference is required"
error_message (credential_not_found reference) = codes "SFTP credential not found: " ++ reference
error_message (unsupported_auth_method message) = codes "unsupported SFTP auth method: " ++ message
error_message authentication_failed = codes "SFTP authentication failed"
error_message not_connected = codes "SFTP backend is not connected"
error_message (security error) = codes "SFTP credential error: " ++ Security.error_message error
error_message (prompt error) = codes "SFTP prompt error: " ++ prompt_message error
error_message backend_not_linked = codes "SFTP backend is not linked yet"
error_message (backend message) = codes "SFTP backend error: " ++ message
error_message (io message) = codes "SFTP I/O error: " ++ message
error_message (invalid_live_test_config message) =
    codes "invalid live SFTP test configuration: " ++ message
error_message (invalid_known_host_record line) = codes "invalid known-host record: " ++ line
