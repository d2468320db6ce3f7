-- ===== src/Sftp/Verify.antt =====
-- The decision about an observed host key: known hosts first, then the user, by way of the broker.
-- The store of known hosts is any `HostKeyStore`.
pub mod Safety
use cross_scp.Base.{Option, none, some, Bool, true, false}
use cross_scp.Base.Result.{Result, ok, err}
use cross_scp.Base.Text.{Text}
use cross_scp.Prompts.{
  HostKeyPrompt, ask_host_key, PromptBroker, PromptError, prompt_cancelled, PromptResponse, accept,
  reject, cancel, accept_all, reject_all, remember_accepted,
}
use cross_scp.Sftp.Errors.{SftpError, prompt}
use cross_scp.Sftp.KnownHosts.{HostKeyRecord, HostKeyStore, HostKeyTrust, trusted, unknown, changed}

pub data HostKeyDecision : Type 0 where
  accept_once accept_and_remember rejected : HostKeyDecision

-- The `match` on the answer, in both functions that ask.
unfoldable pub decision_of : Result PromptError PromptResponse → Result SftpError HostKeyDecision
decision_of (err e) = err (prompt e)
decision_of (ok accept) = ok accept_once
decision_of (ok accept_all) = ok accept_once
decision_of (ok remember_accepted) = ok accept_and_remember
decision_of (ok reject) = ok rejected
decision_of (ok reject_all) = ok rejected
decision_of (ok cancel) = err (prompt prompt_cancelled)

unfoldable pub verify_host_key :
    PromptBroker → (host algorithm fingerprint : Text) → Result SftpError HostKeyDecision
unfolding decision_of
verify_host_key broker host algorithm fingerprint = decision_of (
    broker (
      ask_host_key (record {
        host = host;
        fingerprint = fingerprint;
        algorithm = algorithm;
        expected_fingerprint = none;
        expected_algorithm = none;
      })))

module _ {S : Type 0} (store : HostKeyStore S) where
  unfoldable pub after_trust :
      S × Result SftpError (Unit {0}) → HostKeyDecision → S × Result SftpError HostKeyDecision
  after_trust (hosts, err e) decision = (hosts, err e)
  after_trust (hosts, ok _) decision = (hosts, ok decision)

  -- `if decision == AcceptAndRemember { store.trust(observed)?; } Ok(decision)`
  unfoldable pub maybe_store :
      HostKeyRecord → Result SftpError HostKeyDecision → S → S × Result SftpError HostKeyDecision
  unfolding after_trust
  maybe_store observed (ok accept_and_remember) hosts =
      after_trust (store.trust observed hosts) accept_and_remember
  maybe_store observed decision hosts = (hosts, decision)

  unfoldable pub prompt_and_maybe_store :
      PromptBroker → HostKeyRecord → S → S × Result SftpError HostKeyDecision
  unfolding maybe_store verify_host_key
  prompt_and_maybe_store broker observed =
      maybe_store observed
        (verify_host_key broker observed.host observed.algorithm observed.fingerprint)

  unfoldable pub prompt_changed_and_maybe_store :
      PromptBroker → (expected observed : HostKeyRecord) → S → S × Result SftpError HostKeyDecision
  unfolding maybe_store decision_of
  prompt_changed_and_maybe_store broker expected observed = maybe_store observed (
      decision_of (
        broker (
          ask_host_key (record {
            host = observed.host;
            fingerprint = observed.fingerprint;
            algorithm = observed.algorithm;
            expected_fingerprint = some expected.fingerprint;
            expected_algorithm = some expected.algorithm;
          }))))

  unfoldable pub by_trust :
      PromptBroker
      → HostKeyRecord
      → Result SftpError HostKeyTrust
      → S
      → S × Result SftpError HostKeyDecision
  unfolding prompt_and_maybe_store prompt_changed_and_maybe_store
  by_trust broker observed (err e) hosts = (hosts, err e)
  by_trust broker observed (ok trusted) hosts = (hosts, ok accept_once)
  by_trust broker observed (ok unknown) hosts = prompt_and_maybe_store broker observed hosts
  by_trust broker observed (ok (changed expected seen)) hosts =
      prompt_changed_and_maybe_store broker expected seen hosts

  unfoldable pub verify_host_key_with_store :
      PromptBroker → HostKeyRecord → S → S × Result SftpError HostKeyDecision
  unfolding by_trust
  verify_host_key_with_store broker observed hosts =
      by_trust broker observed (store.check observed hosts) hosts
