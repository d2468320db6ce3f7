-- ===== src/Config/File/Reopen.antt =====
-- What is found when the file is opened again, and what an error leaves behind.
use cross_scp.Base.{
  none, some, true, false, ◌≡◌, ◌⊎◌, refl, arith, All, inl, inr, Option-cases, Bool-cases, ap,
}
use cross_scp.Base.Result.{Result, ok, err, Result-cases}
use cross_scp.Base.Text.{Text}
use cross_scp.Base.Order.{text_order}
use cross_scp.Base.OrdMap
use cross_scp.Base.OrdMap.{
  values, IsSorted, insert-IsSorted, remove-IsSorted, All-insert, All-remove, remove_absent,
}
use cross_scp.Session.{SessionProfile}
use cross_scp.Config.Store.{ConfigError, io, SessionStore, is_some, validate_profile}
use cross_scp.Config.Store
use cross_scp.Config.Lines.Record.{IsStorable}
use cross_scp.Config.Lines.RoundTrip.{Entry, parse_profiles-render}
use cross_scp.Config.File.{
  Disk, open_store, create_parent, flush, save, after_flush, after_remove, remove,
}

-- The store holds profiles that the format can hold, each under its name, in the order of names.
pub record IsFileStore (memory : SessionStore) : Type 0 where
  pub sorted : IsSorted memory
  pub entries : All Entry memory

-- A flush that succeeds leaves a file that is read as the store.
flush-opens :
    (disk : Disk) (memory : SessionStore)
    → IsFileStore memory
    → disk.read_error ≡ none
    → (flush disk memory).1 ≡ ok tt
    → open_store (flush disk memory).0 ≡ ok memory
unfolding flush open_store
flush-opens disk memory v r h =
    let e = parse_profiles-render memory v.sorted v.entries in ground arith

insert-IsFileStore :
    (memory : SessionStore) (p : SessionProfile)
    → IsFileStore memory
    → IsStorable p
    → IsFileStore (OrdMap.insert p.name p memory)
insert-IsFileStore memory p v s = record {
  sorted = insert-IsSorted p.name p memory v.sorted;
  entries = All-insert Entry p.name p memory (refl, s) v.entries;
}

remove-IsFileStore :
    (memory : SessionStore) (name : Text)
    → IsFileStore memory
    → IsFileStore (OrdMap.remove name memory)
remove-IsFileStore memory name v = record {
  sorted = remove-IsSorted name memory v.sorted;
  entries = All-remove Entry name memory v.entries;
}

pub store_save-valid :
    (memory : SessionStore) (p : SessionProfile)
    → validate_profile p ≡ ok tt
    → Store.save memory p ≡ (OrdMap.insert p.name p memory, ok tt)
unfolding Store.save
store_save-valid memory p h = rw (h, Store.save)

-- For a store and a profile that the format can hold, and a file that can be read: a `save` that
-- succeeds leaves a file in which the store is found again when it is opened, with the new profile in
-- it.
pub open-save :
    (memory : SessionStore) (disk : Disk) (p : SessionProfile)
    → IsFileStore memory
    → IsStorable p
    → disk.read_error ≡ none
    → (save memory disk p).result ≡ ok tt
    → (open_store (save memory disk p).disk ≡ ok (OrdMap.insert p.name p memory))
      × ((save memory disk p).memory ≡ OrdMap.insert p.name p memory)
      × IsFileStore (OrdMap.insert p.name p memory)
unfolding save
open-save memory disk p v s r h =
    let e = store_save-valid memory p s.valid in
    let w = insert-IsFileStore memory p v s in
    let f : (flush disk (OrdMap.insert p.name p memory)).1 ≡ ok tt = rw (e, save) at h in
    (rw (e, save) (flush-opens disk (OrdMap.insert p.name p memory) w r f), rw (e, save), w)

-- The operating system refuses to write the file, with an error: the directory of the file cannot be
-- made, or else the file cannot be written.
abbrev pub Refuses : Disk → Text → Type 0
Refuses disk e =
    ((disk.has_parent ≡ true) × (disk.create_dir_error ≡ some e))
    ⊎ (((disk.has_parent ≡ false) ⊎ (disk.create_dir_error ≡ none)) × (disk.write_error ≡ some e))

-- It writes the file.
abbrev pub Accepts : Disk → Type 0
Accepts disk =
    ((disk.has_parent ≡ false) ⊎ (disk.create_dir_error ≡ none)) × (disk.write_error ≡ none)

pub flush-Accepts :
    (disk : Disk) (memory : SessionStore) → Accepts disk → (flush disk memory).1 ≡ ok tt
unfolding flush create_parent
flush-Accepts disk memory (inl a, b) = rw (a, b, flush, create_parent) refl
flush-Accepts disk memory (inr a, b) = elim (Bool-cases disk.has_parent) [
  | inl c ↦ rw (c, a, b, flush, create_parent) refl
  | inr c ↦ rw (c, b, flush, create_parent) refl
]

flush-Refuses :
    (disk : Disk) (memory : SessionStore) (e : Text)
    → Refuses disk e
    → (flush disk memory).1 ≡ err (io e)
unfolding flush create_parent
flush-Refuses disk memory e (inl (a, b)) = rw (a, b, flush, create_parent) refl
flush-Refuses disk memory e (inr (inl a, b)) = rw (a, b, flush, create_parent) refl
flush-Refuses disk memory e (inr (inr a, b)) = elim (Bool-cases disk.has_parent) [
  | inl c ↦ rw (c, a, b, flush, create_parent) refl
  | inr c ↦ rw (c, b, flush, create_parent) refl
]

writable : (disk : Disk) → Accepts disk ⊎ ((e : Text) × Refuses disk e)
writable disk = elim (Bool-cases disk.has_parent) [
  | inl p ↦ elim (Option-cases disk.create_dir_error) [
    | inr (e, h) ↦ inr (e, inl (p, h))
    | inl h ↦ written (inr h)
  ]
  | inr p ↦ written (inl p)
]
  where
    written :
        (disk.has_parent ≡ false) ⊎ (disk.create_dir_error ≡ none)
        → Accepts disk ⊎ ((e : Text) × Refuses disk e)
    written made = elim (Option-cases disk.write_error) [
      | inl h ↦ inl (made, h)
      | inr (e, h) ↦ inr (e, inr (made, h))
    ]

store_save-invalid :
    (memory : SessionStore) (p : SessionProfile) {e : ConfigError}
    → validate_profile p ≡ err e
    → Store.save memory p ≡ (memory, err e)
unfolding Store.save
store_save-invalid memory p h = rw (h, Store.save)

-- A `save` of a profile that the checks refuse changes neither the memory nor the disk. One that they
-- accept is in the memory afterwards, also if the file cannot be written: `save` succeeds if the
-- operating system writes the file, and otherwise returns the error of the operating system.
pub save-errors :
    (memory : SessionStore) (disk : Disk) (p : SessionProfile)
    → ((e : ConfigError) × (validate_profile p ≡ err e)
        × (save memory disk p ≡ record { memory = memory; disk = disk; result = err e }))
      ⊎ ((validate_profile p ≡ ok tt)
          × ((save memory disk p).memory ≡ OrdMap.insert p.name p memory)
          × ((Accepts disk × ((save memory disk p).result ≡ ok tt))
              ⊎ ((e : Text) × Refuses disk e × ((save memory disk p).result ≡ err (io e)))))
unfolding save
save-errors memory disk p = elim (Result-cases (validate_profile p)) [
  | inr (x, e) ↦ inl (x, e, rw (store_save-invalid memory p e, save))
  | inl (u, e) ↦
      let f = store_save-valid memory p e in
      let memory' = OrdMap.insert p.name p memory in
      inr (
        e,
        rw (f, save),
        elim (writable disk) [
          | inl a ↦ inl (a, rw (f, save) (flush-Accepts disk memory' a))
          | inr (x, r) ↦ inr (x, r, rw (f, save) (flush-Refuses disk memory' x r))
        ],
      )
]

store_remove :
    (memory : SessionStore) (name : Text)
    → Store.remove memory name ≡ (OrdMap.remove name memory, ok (is_some (OrdMap.get name memory)))
unfolding Store.remove
store_remove memory name = refl

store_remove_present :
    (memory : SessionStore) (name : Text) {p : SessionProfile}
    → OrdMap.get name memory ≡ some p
    → Store.remove memory name ≡ (OrdMap.remove name memory, ok true)
store_remove_present memory name e = rw (store_remove memory name, e) (unfold is_some in refl)

remove_present :
    (memory : SessionStore) (disk : Disk) (name : Text) {p : SessionProfile}
    → OrdMap.get name memory ≡ some p
    → remove memory disk name
      ≡ after_flush (flush disk (OrdMap.remove name memory)) (OrdMap.remove name memory)
unfolding remove
remove_present memory disk name e =
    ap (λ r. after_remove r disk) (store_remove_present memory name e)

after_flush-ok :
    (r : Disk × Result ConfigError (Unit {0})) (memory : SessionStore)
    → r.1 ≡ ok tt
    → after_flush r memory ≡ record { memory = memory; disk = r.0; result = ok true }
unfolding after_flush
after_flush-ok (d, ok u) memory h = refl
after_flush-ok (d, err e) memory h = cc

after_flush-memory :
    (r : Disk × Result ConfigError (Unit {0})) (memory : SessionStore)
    → (after_flush r memory).memory ≡ memory
unfolding after_flush
after_flush-memory (d, ok u) memory = refl
after_flush-memory (d, err e) memory = refl

after_flush-err :
    (r : Disk × Result ConfigError (Unit {0})) (memory : SessionStore) {e : ConfigError}
    → r.1 ≡ err e
    → (after_flush r memory).result ≡ err e
unfolding after_flush
after_flush-err (d, ok u) memory h = cc
after_flush-err (d, err e) memory h = cc

-- With a store that the format can hold and a file that can be read: a `remove` of a name that is not
-- in the store answers `false` and changes neither the memory nor the disk. One of a name that is there
-- takes it out of the memory. If the operating system writes the file, it answers `true`, and the store
-- without the name is found when the file is opened again; otherwise it returns the error of the
-- operating system.
pub open-remove :
    (memory : SessionStore) (disk : Disk) (name : Text)
    → IsFileStore memory
    → disk.read_error ≡ none
    → ((OrdMap.get name memory ≡ none)
        × (remove memory disk name ≡ record { memory = memory; disk = disk; result = ok false }))
      ⊎ ((p : SessionProfile) × (OrdMap.get name memory ≡ some p)
          × ((remove memory disk name).memory ≡ OrdMap.remove name memory)
          × ((Accepts disk
                × ((remove memory disk name).result ≡ ok true)
                × (open_store (remove memory disk name).disk ≡ ok (OrdMap.remove name memory)))
              ⊎ ((e : Text) × Refuses disk e × ((remove memory disk name).result ≡ err (io e)))))
unfolding remove
open-remove memory disk name v r = elim (Option-cases (OrdMap.get name memory)) [
  | inl e ↦ inl (
    e,
    rw (store_remove memory name, e, remove_absent name memory e, remove) (unfold is_some in refl),
  )
  | inr (p, e) ↦
      let memory' = OrdMap.remove name memory in
      let w = remove-IsFileStore memory name v in
      let q = remove_present memory disk name e in
      inr (
        p,
        e,
        rw q (after_flush-memory (flush disk memory') memory'),
        elim (writable disk) [
          | inl a ↦
              let h = flush-Accepts disk memory' a in
              let f = after_flush-ok (flush disk memory') memory' h in
              inl (a, rw (q, f), rw (q, f) (flush-opens disk memory' w r h))
          | inr (x, k) ↦
              let h = flush-Refuses disk memory' x k in
              inr (x, k, rw (q, after_flush-err (flush disk memory') memory' h))
        ],
      )
]
