-- ===== src/Security/Laws.antt =====
-- What the credential service, the vault and the redaction promise.
use cross_scp.Base.{
  List, [], ◌∷◌, Option, none, some, Bool, true, false, ◌≡◌, refl, if◌then◌else◌, ap, sym, ◌∙◌,
}
use cross_scp.Base.Result.{Result, ok, err}
use cross_scp.Base.Text.{Text, text_eq}
use cross_scp.Base.Order.{text_order}
use cross_scp.Base.OrdMap
use cross_scp.Base.OrdMap.{IsSorted, get-insert, get-remove, insert-IsSorted, remove-IsSorted}
use cross_scp.Security.{
  SecurityError, vault_locked, CredentialRef, SecretString, CredentialSecret, password, private_key,
  private_key_passphrase, token, debug, MasterPasswordVault, unlock, lock, is_unlocked,
  require_unlocked, CredentialService, store, load, delete,
}

-- What is left of a credential when the secret strings in it are blotted out.
abbrev blot : SecretString → SecretString
blot secret = record { expose = [] }

unfoldable pub erase : CredentialSecret → CredentialSecret
erase (password secret) = password (blot secret)
erase (private_key path none) = private_key path none
erase (private_key path (some secret)) = private_key path (some (blot secret))
erase (private_key_passphrase secret) = private_key_passphrase (blot secret)
erase (token secret) = token (blot secret)

debug-erase : (d : Text → Text) (s : CredentialSecret) → debug d s ≡ debug d (erase s)
unfolding debug erase
debug-erase d (password s) = refl
debug-erase d (private_key p none) = refl
debug-erase d (private_key p (some s)) = refl
debug-erase d (private_key_passphrase s) = refl
debug-erase d (token s) = refl

-- The debug text of a credential depends on its kind, on the path of a key file and on whether a
-- passphrase is present, and on nothing that a secret string holds: it is the same for two
-- credentials that differ in their secret strings only.
pub debug_redacts :
    (debug_str : Text → Text) (s t : CredentialSecret)
    → erase s ≡ erase t
    → debug debug_str s ≡ debug debug_str t
debug_redacts d s t e = debug-erase d s ∙ ap (debug d) e ∙ sym (debug-erase d t)

pub data VaultCall : Type 0 where
  call_unlock : SecretString → VaultCall
  call_lock : VaultCall

unfoldable call : VaultCall → MasterPasswordVault → MasterPasswordVault
unfolding unlock lock
call (call_unlock master) vault = unlock master vault
call call_lock vault = lock vault

unfoldable pub calls : List VaultCall → MasterPasswordVault → MasterPasswordVault
unfolding call
calls [] vault = vault
calls (c ∷ cs) vault = calls cs (call c vault)

-- The reference: whether the last call of all was an unlock.
abbrev pub left_open : Bool → List VaultCall → Bool
left_open before [] = before
left_open before (call_unlock master ∷ cs) = left_open true cs
left_open before (call_lock ∷ cs) = left_open false cs

-- Behind any sequence of calls the vault asks for nothing exactly if the last call was an unlock, or
-- there was none and it was open before; it refuses with `vault_locked` otherwise.
require_unlocked-calls :
    (cs : List VaultCall) (vault : MasterPasswordVault)
    → require_unlocked (calls cs vault)
      ≡ (if left_open (is_unlocked vault) cs then ok tt else err vault_locked)
unfolding calls require_unlocked is_unlocked
require_unlocked-calls [] vault = refl
require_unlocked-calls (call_unlock master ∷ cs) vault =
    require_unlocked-calls cs (unlock master vault)
require_unlocked-calls (call_lock ∷ cs) vault = require_unlocked-calls cs (lock vault)

abbrev pub contains : CredentialRef → CredentialService → Bool
contains reference service = elim (OrdMap.get reference.as_str service.secrets) [
  | none ↦ false
  | some secret ↦ true
]

-- The service is a partial map from references: what is stored is loaded, storing or deleting under
-- one reference is not seen under another, a deletion says whether there was a secret, and the keys
-- stay sorted.
pub store-load-delete :
    (service : CredentialService) (reference other : CredentialRef) (secret : CredentialSecret)
    → IsSorted service.secrets
    → (let stored = store reference secret service in
        let deleted = delete reference service in
        (load other stored.0 ≡ (
          if text_eq reference.as_str other.as_str then ok (some secret) else load other service))
        × (load other deleted.0
            ≡ (if text_eq reference.as_str other.as_str then ok none else load other service))
        × (deleted.1 ≡ ok (contains reference service))
        × IsSorted stored.0.secrets
        × IsSorted deleted.0.secrets)
unfolding store load delete
store-load-delete service reference other secret sorted =
    let i = reference.as_str in
    let j = other.as_str in
    let m = service.secrets in
    (
      rw (get-insert i j secret m) (loaded (some secret) (text_eq i j)),
      rw (get-remove i j m sorted) (loaded none (text_eq i j)),
      refl,
      insert-IsSorted i secret m sorted,
      remove-IsSorted i m sorted,
    )
  where
    loaded :
        (o : Option CredentialSecret) (b : Bool)
        → ◌≡◌ {A = Result SecurityError (Option CredentialSecret)}
            (ok (if b then o else OrdMap.get other.as_str service.secrets))
            (if b then ok o else ok (OrdMap.get other.as_str service.secrets))
    loaded o true = refl
    loaded o false = refl
