-- ===== src/Transfer/Overwrite.antt =====
-- When the transfer of a file touches a destination that exists.
use cross_scp.Base.{ℕ, ◌<◌, Option, none, some, ◌≡◌, ◌↔◌, ◌⊎◌, inl, inr, refl, arith}
use cross_scp.Transfer.{
  OverwriteMode, always, if_newer, resume, TransferFileMetadata, copy_from_start, resume_from,
  decide_overwrite, decide_if_newer,
}

-- The source has a later time than the destination, and both times are known.
abbrev Later : Option ℕ → Option ℕ → Type 0
Later (some a) (some b) = b < a
Later (some a) none = ⊥
Later none o = ⊥

abbrev pub IsNewer : TransferFileMetadata → TransferFileMetadata → Type 0
IsNewer s d = Later s.modified d.modified

decide_if_newer_iff : (a b : Option ℕ) → (decide_if_newer a b ≡ copy_from_start) ↔ Later a b
unfolding decide_if_newer
decide_if_newer_iff (some a) (some b) = ground arith
decide_if_newer_iff (some a) none = ground arith
decide_if_newer_iff none o = ground arith

-- An existing destination is overwritten without a question exactly in the mode `Always`, or in the
-- mode `IfNewer` for a source that is known to be newer.
pub decide_overwrite-copy_iff :
    (mode : OverwriteMode) (s d : TransferFileMetadata)
    → (decide_overwrite mode s (some d) ≡ copy_from_start)
      ↔ ((mode ≡ always) ⊎ ((mode ≡ if_newer) × IsNewer s d))
unfolding decide_overwrite
decide_overwrite-copy_iff if_newer s d =
    let (f, g) = decide_if_newer_iff s.modified d.modified in
    (λ h. inr (refl, f h), elim [ inl e ↦ cc | inr (e, h) ↦ g h ])
decide_overwrite-copy_iff always s d = (λ _. inl refl, λ _. refl)
decide_overwrite-copy_iff resume s d = ground arith
decide_overwrite-copy_iff _ s d = ground arith

-- A transfer is resumed exactly in the mode `Resume`, at the size of a destination that is shorter
-- than the source.
decide_overwrite-resume_iff :
    (mode : OverwriteMode) (s d : TransferFileMetadata) (offset : ℕ)
    → (decide_overwrite mode s (some d) ≡ resume_from offset)
      ↔ ((mode ≡ resume) × (offset ≡ d.size) × (d.size < s.size))
unfolding decide_overwrite
decide_overwrite-resume_iff mode s d offset = ground arith

-- No decision but a copy from the start is made where there is no destination.
pub decide_overwrite-absent :
    (mode : OverwriteMode) (s : TransferFileMetadata)
    → decide_overwrite mode s none ≡ copy_from_start
unfolding decide_overwrite
decide_overwrite-absent mode s = refl
