-- ===== src/Config/Store/Laws.antt =====
-- The store in memory as a partial map from names, and what its checks let through.
use cross_scp.Base.{
  ℕ, Option, none, some, Bool, true, false, ◌≡◌, ◌≢◌, ◌⊎◌, ◌↔◌, inl, inr, refl, arith,
  if◌then◌else◌, is_empty, All, Bool-cases,
}
use cross_scp.Base.Result.{Result, ok, err, Result-cases}
use cross_scp.Base.Text.{Text, text_eq, trim}
use cross_scp.Base.Order.{text_order}
use cross_scp.Base.OrdMap
use cross_scp.Base.OrdMap.{
  IsSorted, All-insert, All-remove, get-insert, get-remove, insert-IsSorted, remove-IsSorted,
}
use cross_scp.Session.{SessionProtocol, sftp, scp, ftp, ftps, local, SessionProfile}
use cross_scp.Config.Store.{
  ConfigError, validate_protocol, validate_profile, SessionStore, save, get, remove, is_some,
}

-- Protocols that are reached over a TCP port of their own, and those that need a host.
abbrev pub needs_port : SessionProtocol → Bool
needs_port sftp = true
needs_port scp = true
needs_port ftp = true
needs_port ftps = true
needs_port _ = false

abbrev pub needs_host : SessionProtocol → Bool
needs_host local = false
needs_host _ = true

err-ne-ok : {e : ConfigError} {u : Unit {0}} → ¬ (err e ≡ ok u)
err-ne-ok h = cc

validate_protocol_iff :
    (q : SessionProtocol) (host : Text) (port : Option ℕ)
    → (validate_protocol q host port ≡ ok tt) ↔ (
        ((needs_host q ≡ false) ⊎ (is_empty (trim host) ≡ false))
        × ((needs_port q ≡ false) ⊎ (port ≢ none)))
unfolding validate_protocol
validate_protocol_iff sftp host port = (λ h. (ground arith, ground arith), λ h. ground arith)
validate_protocol_iff _ host port = (λ h. (ground arith, ground arith), λ h. ground arith)

-- A profile is accepted exactly if its name is no white space, its host is none where the protocol
-- needs one, and it has a port where the protocol needs one.
validate_profile_iff :
    (p : SessionProfile)
    → (validate_profile p ≡ ok tt) ↔ (
        (is_empty (trim p.name) ≡ false)
        × ((needs_host p.protocol ≡ false) ⊎ (is_empty (trim p.host) ≡ false))
        × ((needs_port p.protocol ≡ false) ⊎ (p.port ≢ none)))
unfolding validate_profile
validate_profile_iff p =
    let (f, g) = validate_protocol_iff p.protocol p.host p.port in
    elim (Bool-cases (is_empty (trim p.name))) [
      | inl e ↦ rw (e, validate_profile) (λ h. absurd (err-ne-ok h), λ h. cc)
      | inr e ↦ rw (e, validate_profile) (λ h. (refl, (f h).0, (f h).1), λ h. g (h.1, h.2))
    ]

if_ok :
    (b : Bool) (p : SessionProfile) (o : Option SessionProfile)
    → ◌≡◌ {A = Result ConfigError (Option SessionProfile)}
        (ok (if b then some p else o))
        (if b then ok (some p) else ok o)
if_ok true p o = refl
if_ok false p o = refl

if_none :
    (b : Bool) (o : Option SessionProfile)
    → ◌≡◌ {A = Result ConfigError (Option SessionProfile)}
        (ok (if b then none else o))
        (if b then ok none else ok o)
if_none true o = refl
if_none false o = refl

-- After `save` of an accepted profile its name leads to it, and every other name to what it did; a
-- refused one leaves the store as it was, with the error of the check.
get-save :
    (store : SessionStore) (p : SessionProfile) (name : Text)
    → ((validate_profile p ≡ ok tt)
        × ((save store p).1 ≡ ok tt)
        × (get (save store p).0 name
            ≡ (if text_eq p.name name then ok (some p) else get store name)))
      ⊎ ((e : ConfigError) × (validate_profile p ≡ err e) × (save store p ≡ (store, err e)))
unfolding save get
get-save store p name = elim (Result-cases (validate_profile p)) [
  | inl (u, e) ↦ inl (
    e,
    rw (e, save),
    rw (e, save) (rw get-insert (if_ok (text_eq p.name name) p (OrdMap.get name store))),
  )
  | inr (x, e) ↦ inr (x, e, rw (e, save))
]

-- `remove` says whether the name was there, and takes it out with no other.
get-remove_lem :
    (store : SessionStore) (removed name : Text)
    → IsSorted store
    → ((remove store removed).1 ≡ ok (is_some (OrdMap.get removed store)))
      × (get (remove store removed).0 name
          ≡ (if text_eq removed name then ok none else get store name))
unfolding get remove
get-remove_lem store removed name s = (
  refl,
  rw (get-remove removed name store s) (if_none (text_eq removed name) (OrdMap.get name store)),
)

-- The invariant of the store: names ascend, each leads to a profile of that name that the checks let
-- through.
abbrev pub IsEntry : Text × SessionProfile → Type 0
IsEntry e = (e.0 ≡ e.1.name) × (validate_profile e.1 ≡ ok tt)

pub record IsValid (store : SessionStore) : Type 0 where
  pub sorted : IsSorted store
  pub entries : All IsEntry store

-- Both methods that change the store keep the invariant, also where they fail.
pub save-remove-IsValid :
    (store : SessionStore) (p : SessionProfile) (name : Text)
    → IsValid store
    → IsValid (save store p).0 × IsValid (remove store name).0
unfolding save remove
save-remove-IsValid store p name v = (
  elim (Result-cases (validate_profile p)) [
    | inl (u, e) ↦
        rw (e, save)
          (record {
            sorted = insert-IsSorted p.name p store v.sorted;
            entries = All-insert IsEntry p.name p store (refl, e) v.entries;
          })
    | inr (x, e) ↦ rw (e, save) v
  ],
  record {
    sorted = remove-IsSorted name store v.sorted;
    entries = All-remove IsEntry name store v.entries;
  },
)
