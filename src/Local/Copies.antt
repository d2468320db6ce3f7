-- ===== src/Local/Copies.antt =====
-- When the execution of a job changes no file.
use cross_scp.Base.{◌≡◌, refl, Option, none, some, Bool, true, false}
use cross_scp.Base.Result.{Result, ok, err}
use cross_scp.Base.Text.{Text}
use cross_scp.Prompts.{
  PromptError, PromptBroker, PromptResponse, accept, reject, cancel, accept_all, reject_all,
  remember_accepted,
}
use cross_scp.Transfer.{
  OverwriteMode, TransferFileMetadata, OverwriteDecision, copy_from_start, resume_from, skip,
  prompt, unsupported,
}
use cross_scp.Local.{Files, question, answered, carry_out}

abbrev pub is_accepted : Result PromptError PromptResponse → Bool
is_accepted (ok accept) = true
is_accepted (ok accept_all) = true
is_accepted (ok remember_accepted) = true
is_accepted _ = false

-- Whether a decision leads to a write, by itself or by the answer of the broker.
abbrev pub allows_write :
    Option PromptBroker
    → Text
    → Text
    → TransferFileMetadata
    → Option TransferFileMetadata
    → OverwriteDecision
    → Bool
allows_write broker source destination from_file to_file copy_from_start = true
allows_write broker source destination from_file to_file (resume_from offset) = true
allows_write none source destination from_file to_file prompt = false
allows_write (some broker) source destination from_file to_file prompt =
    is_accepted (broker (question source destination from_file to_file))
allows_write broker source destination from_file to_file _ = false

module _ {D : Type 0} (files : Files D) where
  answered-keeps :
      (source destination : Text) (r : Result PromptError PromptResponse) (disk : D)
      → is_accepted r ≡ false
      → (answered files source destination r disk).0 ≡ disk
  answered-keeps s d (err e) disk h = refl
  answered-keeps s d (ok reject) disk h = refl
  answered-keeps s d (ok reject_all) disk h = refl
  answered-keeps s d (ok cancel) disk h = refl
  answered-keeps s d (ok accept) disk h = cc
  answered-keeps s d (ok accept_all) disk h = cc
  answered-keeps s d (ok remember_accepted) disk h = cc

  -- No file changes unless the decision is to copy or to resume, or it is to ask and the broker
  -- accepts: a refusal, a cancellation, an error of the broker and a missing broker all leave the
  -- files as they are.
  pub carry_out-keeps :
      (mode : OverwriteMode) (broker : Option PromptBroker) (source destination : Text)
      (from_file : TransferFileMetadata) (to_file : Option TransferFileMetadata)
      (decision : OverwriteDecision) (disk : D)
      → allows_write broker source destination from_file to_file decision ≡ false
      → (carry_out files mode broker source destination from_file to_file decision disk).0 ≡ disk
  unfolding carry_out
  carry_out-keeps mode broker s d f t copy_from_start disk h = cc
  carry_out-keeps mode broker s d f t (resume_from n) disk h = cc
  carry_out-keeps mode broker s d f t skip disk h = refl
  carry_out-keeps mode none s d f t prompt disk h = refl
  carry_out-keeps mode (some broker) s d f t prompt disk h =
      answered-keeps s d (broker (question s d f t)) disk h
  carry_out-keeps mode broker s d f t unsupported disk h = refl
