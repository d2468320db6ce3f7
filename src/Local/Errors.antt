-- ===== src/Local/Errors.antt =====
-- `LocalFsError` and its text.
use cross_scp.Base.{◌++◌}
use cross_scp.Base.Text.{Text, codes}
use cross_scp.Session.{SessionProtocol, debug_protocol}
use cross_scp.Prompts.{PromptError, prompt_message}
use cross_scp.Transfer.{OverwriteMode, ask, always, never, if_newer, resume}

pub data LocalFsError : Type 0 where
  invalid_protocol : SessionProtocol → LocalFsError
  destination_exists : Text → LocalFsError
  unsupported_overwrite_mode : OverwriteMode → LocalFsError
  prompt_error : PromptError → LocalFsError
  io : Text → LocalFsError

-- The derived `Debug`.
debug_mode : OverwriteMode → Text
debug_mode ask = codes "Ask"
debug_mode always = codes "Always"
debug_mode never = codes "Never"
debug_mode if_newer = codes "IfNewer"
debug_mode resume = codes "Resume"

-- `Display` of an error.
unfoldable pub error_message : LocalFsError → Text
unfolding debug_protocol debug_mode prompt_message
error_message (invalid_protocol protocol) =
    codes "local filesystem adapter cannot connect to " ++ debug_protocol protocol
error_message (destination_exists path) = codes "destination already exists: " ++ path
error_message (unsupported_overwrite_mode mode) =
    codes "unsupported local overwrite mode: " ++ debug_mode mode
error_message (prompt_error error) = codes "prompt error: " ++ prompt_message error
error_message (io error) = codes "local filesystem error: " ++ error
