-- ===== src/Sftp/KnownHosts/Memory.antt =====
-- Both stores of known hosts keep what the interface promises, and the file holds what is in memory.
use cross_scp.Base.{
  ℕ, ◌≡◌, ◌≢◌, refl, sym, ap, ◌∙◌, arith, [], ◌∷◌, none, some, ◌&&◌, if◌then◌else◌, All, Bool-cases,
  Option-cases, some_eq, inl, inr,
}
use cross_scp.Base.Result.{Result, ok}
use cross_scp.Base.Text.{Text, text_eq, text_eq_iff}
use cross_scp.Base.Order.{pair_order, pair_eq, pair_eq_iff}
use cross_scp.Base.OrdMap
use cross_scp.Base.OrdMap.{IsSorted, get-insert, insert-IsSorted, All-insert, values}
use cross_scp.Config.File.{create_parent}
use cross_scp.Sftp.Errors.{SftpError}
use cross_scp.Sftp.KnownHosts.{
  HostKeyRecord, key, HostKeyTrust, trusted, changed, KnownHosts, compare_keys, trust_of, check,
  trust, memory_store, FileHostKeyStore, open_hosts, flush_hosts, file_trust, file_store,
}
use cross_scp.Sftp.KnownHosts.RoundTrip.{IsStorable, Entry, parse_host_keys-render}
use cross_scp.Sftp.Verify.Safety.{IsLawful}

-- Each record stands under its own key.
abbrev pub IsKeyed : KnownHosts → Type 0
IsKeyed = All (λ e. e.0 ≡ key e.1)

get-IsKeyed :
    (k : Text × ℕ) (hosts : KnownHosts) {known : HostKeyRecord}
    → IsKeyed hosts
    → OrdMap.get k hosts ≡ some known
    → key known ≡ k
unfolding OrdMap.get
get-IsKeyed k [] _ h = cc
get-IsKeyed k ((j, v) ∷ hosts) {known = known} (e, rest) h = elim (Bool-cases (pair_eq j k)) [
  | inl q ↦
      let same : v ≡ known = some_eq (rw q at h) in
      ap key (sym same) ∙ sym e ∙ (pair_eq_iff j k).0 q
  | inr q ↦ get-IsKeyed k hosts rest (rw q at h)
]

compare_keys_self : (known : HostKeyRecord) → compare_keys known known ≡ trusted
unfolding compare_keys
compare_keys_self known =
    rw
      (
        (text_eq_iff known.algorithm known.algorithm).1 refl,
        (text_eq_iff known.fingerprint known.fingerprint).1 refl,
      )
      refl

check-insert :
    (known other : HostKeyRecord) (hosts : KnownHosts)
    → check other (OrdMap.insert (key known) known hosts)
      ≡ ok (
          trust_of
            (if pair_eq (key known) (key other) then some known else OrdMap.get (key other) hosts)
            other)
unfolding check
check-insert known other hosts = rw (get-insert (key known) (key other) known hosts)

check-insert_self :
    (known : HostKeyRecord) (hosts : KnownHosts)
    → check known (OrdMap.insert (key known) known hosts) ≡ ok trusted
check-insert_self known hosts =
    check-insert known known hosts
    ∙ rw ((pair_eq_iff (key known) (key known)).1 refl)
        (ap ok (unfold trust_of in compare_keys_self known))

check-insert_other :
    (known other : HostKeyRecord) (hosts : KnownHosts)
    → key other ≢ key known
    → check other (OrdMap.insert (key known) known hosts) ≡ check other hosts
check-insert_other known other hosts n = elim (Bool-cases (pair_eq (key known) (key other))) [
  | inl e ↦ absurd (n (sym ((pair_eq_iff (key known) (key other)).0 e)))
  | inr e ↦ check-insert known other hosts ∙ rw e (unfold check in refl)
]

compare_keys-changed :
    (known observed : HostKeyRecord) {expected seen : HostKeyRecord}
    → compare_keys known observed ≡ changed expected seen
    → (known ≡ expected) × (observed ≡ seen)
unfolding compare_keys
compare_keys-changed known observed h =
    elim (Bool-cases (
      text_eq known.algorithm observed.algorithm
      && text_eq known.fingerprint observed.fingerprint)) [
        | inl e ↦ cc (rw e at h)
        | inr e ↦ let k = rw e at h in (cc, cc)
      ]

check-changed :
    (observed expected seen : HostKeyRecord) (hosts : KnownHosts)
    → IsKeyed hosts
    → check observed hosts ≡ ok (changed expected seen)
    → (seen ≡ observed) × (key expected ≡ key observed)
unfolding check trust_of
check-changed observed expected seen hosts g h =
    elim (Option-cases (OrdMap.get (key observed) hosts)) [
      | inl e ↦ cc (rw (e, trust_of) at h)
      | inr (known, e) ↦
          let (a, b) = compare_keys-changed known observed (ok_eq (rw (e, trust_of) at h)) in
          (sym b, ap key (sym a) ∙ get-IsKeyed (key observed) hosts g e)
    ]
  where
    ok_eq : {a b : HostKeyTrust} → ◌≡◌ {A = Result SftpError HostKeyTrust} (ok a) (ok b) → a ≡ b
    ok_eq q = cc

insert-IsKeyed :
    (known : HostKeyRecord) (hosts : KnownHosts)
    → IsKeyed hosts
    → IsKeyed (OrdMap.insert (key known) known hosts)
insert-IsKeyed known hosts g = All-insert (λ e. e.0 ≡ key e.1) (key known) known hosts refl g

-- The store in memory keeps the promises of the interface while each record stands under its key.
pub memory_store-IsLawful : IsLawful memory_store IsKeyed
unfolding memory_store trust
memory_store-IsLawful = record {
  check-trust = λ known s g h. check-insert_self known s;
  check-trust_other = λ known other s g n. check-insert_other known other s n;
  changed_observed = λ observed expected seen s g h. check-changed observed expected seen s g h;
  trust-IsGood = λ known s g. insert-IsKeyed known s g;
}

flush_hosts-memory : (store : FileHostKeyStore) → (flush_hosts store).0.memory ≡ store.memory
unfolding flush_hosts
flush_hosts-memory store = elim (Option-cases (create_parent store.disk)) [
  | inr (e, h) ↦ rw (h, flush_hosts)
  | inl h ↦ elim (Option-cases store.disk.write_error) [
    | inr (e, k) ↦ ground arith
    | inl k ↦ ground arith
  ]
]

file_trust-memory :
    (known : HostKeyRecord) (store : FileHostKeyStore)
    → (file_trust known store).0.memory ≡ OrdMap.insert (key known) known store.memory
unfolding file_trust trust
file_trust-memory known store =
    flush_hosts-memory (record store { memory = OrdMap.insert (key known) known store.memory })

-- The store with a file behind it keeps them too, also where a write fails.
pub file_store-IsLawful : IsLawful file_store (λ store. IsKeyed store.memory)
unfolding file_store
file_store-IsLawful = record {
  check-trust = λ known s g h. rw (file_trust-memory known s) (check-insert_self known s.memory);
  check-trust_other = λ known other s g n.
      rw (file_trust-memory known s) (check-insert_other known other s.memory n);
  changed_observed =
      λ observed expected seen s g h. check-changed observed expected seen s.memory g h;
  trust-IsGood = λ known s g. rw (file_trust-memory known s) (insert-IsKeyed known s.memory g);
}

flush_hosts-opens :
    (store : FileHostKeyStore)
    → IsSorted store.memory
    → All Entry store.memory
    → store.disk.read_error ≡ none
    → (flush_hosts store).1 ≡ ok tt
    → open_hosts (flush_hosts store).0.disk ≡ ok store.memory
unfolding flush_hosts open_hosts
flush_hosts-opens store s e r h = let p = parse_host_keys-render store.memory s e in ground arith

-- For a sorted store and a key that the format can hold, and a file that can be read: a key that is
-- trusted without an error is in the file. Opened again, the file gives the store with the key in it.
pub open-file_trust :
    (known : HostKeyRecord) (store : FileHostKeyStore)
    → IsSorted store.memory
    → All Entry store.memory
    → IsStorable known
    → store.disk.read_error ≡ none
    → (file_trust known store).1 ≡ ok tt
    → (open_hosts (file_trust known store).0.disk
        ≡ ok (OrdMap.insert (key known) known store.memory))
      × (check known (OrdMap.insert (key known) known store.memory) ≡ ok trusted)
unfolding file_trust trust
open-file_trust known store s e i r h = (
  flush_hosts-opens (record store { memory = OrdMap.insert (key known) known store.memory })
      (insert-IsSorted (key known) known store.memory s)
      (All-insert Entry (key known) known store.memory (refl, i) e) r h,
  check-insert_self known store.memory,
)
