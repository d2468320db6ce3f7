-- ===== src/Sftp/Verify/Safety.antt =====
-- No host key is accepted that is neither known nor accepted by the user who saw it, and what is to be
-- remembered is.
use cross_scp.Base.{◌≡◌, ◌≢◌, ◌⊎◌, inl, inr, refl, sym, ap, ◌∙◌, none, some, Bool, true, false}
use mathlib.Core.Path.{subst}
use cross_scp.Base.Result.{Result, ok, err}
use cross_scp.Prompts.{
  HostKeyPrompt, ask_host_key, PromptBroker, PromptError, PromptResponse, accept, reject, cancel,
  accept_all, reject_all, remember_accepted,
}
use cross_scp.Sftp.Errors.{SftpError}
use cross_scp.Sftp.KnownHosts.{
  HostKeyRecord, key, HostKeyStore, HostKeyTrust, trusted, unknown, changed,
}
use cross_scp.Sftp.Verify.{
  HostKeyDecision, accept_once, accept_and_remember, rejected, decision_of, after_trust,
  maybe_store, by_trust, verify_host_key, prompt_and_maybe_store, prompt_changed_and_maybe_store,
  verify_host_key_with_store,
}

-- What a store promises, in the states that its methods lead to.
pub record IsLawful {S : Type 0} (store : HostKeyStore S) (IsGood : S → Type 0) : Type 0 where
  pub check-trust :
      (known : HostKeyRecord) (s : S)
      → IsGood s
      → (store.trust known s).1 ≡ ok tt
      → store.check known (store.trust known s).0 ≡ ok trusted
  pub check-trust_other :
      (known other : HostKeyRecord) (s : S)
      → IsGood s
      → key other ≢ key known
      → store.check other (store.trust known s).0 ≡ store.check other s
  pub changed_observed :
      (observed expected seen : HostKeyRecord) (s : S)
      → IsGood s
      → store.check observed s ≡ ok (changed expected seen)
      → (seen ≡ observed) × (key expected ≡ key observed)
  pub trust-IsGood : (known : HostKeyRecord) (s : S) → IsGood s → IsGood (store.trust known s).0

abbrev pub is_accepted : Result PromptError PromptResponse → Bool
is_accepted (ok accept) = true
is_accepted (ok accept_all) = true
is_accepted (ok remember_accepted) = true
is_accepted _ = false

module _ {S : Type 0} (store : HostKeyStore S) {IsGood : S → Type 0}
    (laws : IsLawful store IsGood) where
  -- The question names the observed key, and the key that was known for the host, if there was one.
  abbrev pub IsAbout : HostKeyRecord → S → HostKeyPrompt → Type 0
  IsAbout observed s q =
      (q.host ≡ observed.host)
      × (q.fingerprint ≡ observed.fingerprint)
      × (q.algorithm ≡ observed.algorithm)
      × (((store.check observed s ≡ ok unknown) × (q.expected_fingerprint ≡ none))
          ⊎ ((expected : HostKeyRecord) × (store.check observed s ≡ ok (changed expected observed))
              × (key expected ≡ key observed)
              × (q.expected_fingerprint ≡ some expected.fingerprint)
              × (q.expected_algorithm ≡ some expected.algorithm)))

  -- Remembered, so that it is known from now on, or accepted for this time only.
  abbrev pub IsSettled : HostKeyRecord → S → S → HostKeyDecision → Type 0
  IsSettled observed s after decision =
      ((decision ≡ accept_and_remember) × (store.check observed after ≡ ok trusted))
      ⊎ ((decision ≡ accept_once) × (after ≡ s))

  pair-eq :
      {s t : S} {d e : HostKeyDecision}
      → ◌≡◌ {A = S × Result SftpError HostKeyDecision} (s, ok d) (t, ok e)
      → (s ≡ t) × (d ≡ e)
  pair-eq h = (ap (λ r. r.0) h, cc)

  after_trust-eq-ok :
      (r : S × Result SftpError (Unit {0})) (given : HostKeyDecision) {after : S}
      {d : HostKeyDecision}
      → after_trust store r given ≡ (after, ok d)
      → (r.0 ≡ after) × (r.1 ≡ ok tt) × (given ≡ d)
  unfolding after_trust
  after_trust-eq-ok (hosts, err e) given h = cc
  after_trust-eq-ok (hosts, ok tt) given h = let (a, b) = pair-eq h in (a, refl, b)

  settled :
      (observed : HostKeyRecord) (answer : Result PromptError PromptResponse) (s : S) {after : S}
      {d : HostKeyDecision}
      → IsGood s
      → maybe_store store observed (decision_of answer) s ≡ (after, ok d)
      → d ≢ rejected
      → (is_accepted answer ≡ true) × IsSettled observed s after d
  unfolding maybe_store decision_of
  settled observed (err e) s g h n = cc
  settled observed (ok accept) s g h n = let (a, b) = pair-eq h in (refl, inr (sym b, sym a))
  settled observed (ok accept_all) s g h n = let (a, b) = pair-eq h in (refl, inr (sym b, sym a))
  settled observed (ok reject) s g h n = let (a, b) = pair-eq h in absurd (n (sym b))
  settled observed (ok reject_all) s g h n = let (a, b) = pair-eq h in absurd (n (sym b))
  settled observed (ok cancel) s g h n = cc
  settled observed (ok remember_accepted) s g h n =
      let (a, b, c) = after_trust-eq-ok (store.trust observed s) accept_and_remember h in
      (
        refl,
        inl (
          sym c,
          subst (λ t. store.check observed t ≡ ok trusted) a (laws.check-trust observed s g b),
        ),
      )

  abbrev pub IsAccepted : PromptBroker → HostKeyRecord → S → S → HostKeyDecision → Type 0
  IsAccepted broker observed s after decision =
      ((store.check observed s ≡ ok trusted) × (after ≡ s) × (decision ≡ accept_once))
      ⊎ ((q : HostKeyPrompt) × IsAbout observed s q
          × (is_accepted (broker (ask_host_key q)) ≡ true)
          × IsSettled observed s after decision)

  by_trust-IsAccepted :
      (broker : PromptBroker) (observed : HostKeyRecord) (trust : Result SftpError HostKeyTrust)
      (s : S) {after : S} {d : HostKeyDecision}
      → IsGood s
      → store.check observed s ≡ trust
      → by_trust store broker observed trust s ≡ (after, ok d)
      → d ≢ rejected
      → IsAccepted broker observed s after d
  unfolding by_trust verify_host_key prompt_and_maybe_store prompt_changed_and_maybe_store
  by_trust-IsAccepted broker observed (err e) s g c h n = cc
  by_trust-IsAccepted broker observed (ok trusted) s g c h n =
      let (a, b) = pair-eq h in inl (c, sym a, sym b)
  by_trust-IsAccepted broker observed (ok unknown) s g c h n =
      let q : HostKeyPrompt = record {
        host = observed.host;
        fingerprint = observed.fingerprint;
        algorithm = observed.algorithm;
        expected_fingerprint = none;
        expected_algorithm = none;
      } in
      let (a, b) = settled observed (broker (ask_host_key q)) s g h n in
      inr (q, (refl, refl, refl, inl (c, refl)), a, b)
  by_trust-IsAccepted broker observed (ok (changed expected seen)) s {after} {d} g c h n =
      let (same, keys) = laws.changed_observed observed expected seen s g c in
      let q : HostKeyPrompt = record {
        host = seen.host;
        fingerprint = seen.fingerprint;
        algorithm = seen.algorithm;
        expected_fingerprint = some expected.fingerprint;
        expected_algorithm = some expected.algorithm;
      } in
      let (a, b) = settled seen (broker (ask_host_key q)) s g h n in
      inr (
        q,
        (
          ap (λ r. r.host) same,
          ap (λ r. r.fingerprint) same,
          ap (λ r. r.algorithm) same,
          inr (expected, c ∙ ap (λ r. ok (changed expected r)) same, keys, refl, refl),
        ),
        a,
        subst (λ r. IsSettled r s after d) same b,
      )

  -- A host key that is not refused is the one that was trusted before, and then the store stays; or
  -- the user accepted it on a question that names it, and the key expected for the host if that is
  -- another. One to be remembered is trusted from then on; one accepted once leaves the store as it
  -- was.
  pub verify-IsAccepted :
      (broker : PromptBroker) (observed : HostKeyRecord) (s : S) {after : S} {d : HostKeyDecision}
      → IsGood s
      → verify_host_key_with_store store broker observed s ≡ (after, ok d)
      → d ≢ rejected
      → IsAccepted broker observed s after d
  unfolding verify_host_key_with_store
  verify-IsAccepted broker observed s g h n =
      by_trust-IsAccepted broker observed (store.check observed s) s g refl h n
