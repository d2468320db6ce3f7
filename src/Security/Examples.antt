-- ===== src/Security/Examples.antt =====
-- Runs of the credential service, the vault and the redaction.
use cross_scp.Base.{◌≡◌, refl, [], ◌∷◌, none, some, if◌then◌else◌}
use cross_scp.Base.Result.{ok, err}
use cross_scp.Base.Text.{Text, codes, text_eq, trim}
use cross_scp.Base.Order.{text_order}
use cross_scp.Base.OrdMap.{IsSorted}
use cross_scp.Security.{
  CredentialRef, SecretString, CredentialSecret, password, private_key, debug,
  invalid_credential_ref, CredentialService, store, load, delete, new_ref,
}
use cross_scp.Security.Laws.{erase, debug_redacts, contains, store-load-delete}

abbrev secret_of : Text → SecretString
secret_of text = record { expose = text }

abbrev site : CredentialRef
site = record { as_str = codes "keychain://site-a" }

abbrev other_site : CredentialRef
other_site = record { as_str = codes "keychain://site-b" }

abbrev service : CredentialService
service = record { secrets = (codes "keychain://site-a", password (secret_of (codes "old"))) ∷ [] }

blank_ref : new_ref (codes "   ") ≡ err invalid_credential_ref
unfolding new_ref trim
blank_ref = refl

abbrev hunter : CredentialSecret
hunter = private_key (codes "id_rsa") (some (secret_of (codes "hunter2")))

abbrev swordfish : CredentialSecret
swordfish = private_key (codes "id_rsa") (some (secret_of (codes "swordfish")))

erased : erase hunter ≡ erase swordfish
unfolding erase
erased = refl

debug_redacts_example : debug (λ s. s) hunter ≡ debug (λ s. s) swordfish
debug_redacts_example = debug_redacts (λ s. s) hunter swordfish erased

store-load-delete_example :
    (load site (store site (password (secret_of (codes "new"))) service).0 ≡ (
      if text_eq site.as_str site.as_str
      then ok (some (password (secret_of (codes "new"))))
      else load site service))
    × (load site (delete site service).0
        ≡ (if text_eq site.as_str site.as_str then ok none else load site service))
    × ((delete site service).1 ≡ ok (contains site service))
    × IsSorted (store site (password (secret_of (codes "new"))) service).0.secrets
    × IsSorted (delete site service).0.secrets
store-load-delete_example =
    store-load-delete service site site (password (secret_of (codes "new"))) (tt, tt)
