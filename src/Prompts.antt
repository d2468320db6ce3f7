-- ===== src/Prompts.antt =====
-- crates/crossscp-core/src/prompts.rs: questions to a user, and a broker with one fixed answer.
use cross_scp.Base.{ℕ, Option}
use cross_scp.Base.Result.{Result, ok}
use cross_scp.Base.Text.{Text, codes}

pub record OverwritePrompt : Type 0 where
  pub source : Text
  pub destination : Text
  pub source_size : Option ℕ
  pub destination_size : Option ℕ

pub record CredentialPrompt : Type 0 where
  pub profile_name : Text
  pub username : Option Text
  pub message : Text

pub record HostKeyPrompt : Type 0 where
  pub host : Text
  pub fingerprint : Text
  pub algorithm : Text
  pub expected_fingerprint : Option Text
  pub expected_algorithm : Option Text

pub data PromptRequest : Type 0 where
  ask_overwrite : OverwritePrompt → PromptRequest
  ask_credential : CredentialPrompt → PromptRequest
  ask_host_key : HostKeyPrompt → PromptRequest
  ask_confirm : (title message : Text) → PromptRequest

pub data PromptResponse : Type 0 where
  accept reject cancel accept_all reject_all remember_accepted : PromptResponse

pub data PromptError : Type 0 where
  unavailable prompt_cancelled unsupported_prompt : PromptError

-- `Display` of an error.
unfoldable pub prompt_message : PromptError → Text
prompt_message unavailable = codes "prompt broker unavailable"
prompt_message prompt_cancelled = codes "prompt cancelled"
prompt_message unsupported_prompt = codes "prompt type unsupported"

-- Any broker: the trait has one method.
abbrev pub PromptBroker : Type 0
PromptBroker = PromptRequest → Result PromptError PromptResponse

pub record FixedPromptBroker : Type 0 where
  pub response : Result PromptError PromptResponse

abbrev pub accepting : FixedPromptBroker
accepting = record { response = ok accept }

abbrev pub rejecting : FixedPromptBroker
rejecting = record { response = ok reject }

abbrev pub cancelling : FixedPromptBroker
cancelling = record { response = ok cancel }

-- `FixedPromptBroker::prompt`
abbrev pub answer : FixedPromptBroker → PromptBroker
answer broker request = broker.response
