-- ===== src/Ssh2/Copied.antt =====
-- A copy writes what its source holds, and its reports go up from nothing to all of it.
use cross_scp.Base.{
  ℕ, zero, suc, ◌+◌, ◌-◌, ◌%◌, ◌^◌, ◌≤◌, ◌<◌, ◌≡◌, ◌⊎◌, inl, inr, refl, sym, ap, ◌∙◌, arith, List,
  [], ◌∷◌, ◌++◌, Option, true, leb, ◌==◌, is_empty, append_assoc, append-nil, map, Bool-cases,
  length, length-append,
}
use mathlib.Core.Path.{subst}
use cross_scp.Base.Result.{Result, ok}
use cross_scp.Machine.{Machine}
use cross_scp.Machine.Call.{Stop}
use cross_scp.Sftp.Errors.{SftpError}
use cross_scp.Ssh2.Copy.{
  Copied, sftp_transfer_buffer_size, copy_chunk, copy_next, copy_chunks, copy_with_progress,
}

-- The numbers go up, all of them above the first, and the last one.
abbrev pub Ascends : ℕ → List ℕ → Type 0
Ascends n [] = Unit
Ascends n (m ∷ ms) = (n < m) × Ascends m ms

abbrev pub last_from : ℕ → List ℕ → ℕ
last_from n [] = n
last_from n (m ∷ ms) = last_from m ms

Ascends-append :
    (n : ℕ) (ms : List ℕ) (m : ℕ) → Ascends n ms → last_from n ms < m → Ascends n (ms ++ m ∷ [])
Ascends-append n [] m _ l = (l, tt)
Ascends-append n (k ∷ ms) m (a, b) l = (a, Ascends-append k ms m b l)

last_from-append : (n : ℕ) (ms : List ℕ) (m : ℕ) → last_from n (ms ++ m ∷ []) ≡ m
last_from-append n [] m = refl
last_from-append n (k ∷ ms) m = last_from-append k ms m

map-append : {A B : Type 0} (f : A → B) (xs ys : List A) → map f (xs ++ ys) ≡ map f xs ++ map f ys
map-append f [] ys = refl
map-append f (x ∷ xs) ys = ap (λ l. f x ∷ l) (map-append f xs ys)

-- What a state holds: what is left of the source, what was written, and what was reported.
pub record View (W : Type 0) : Type 0 where
  pub source : W → List ℕ
  pub written : W → List ℕ
  pub log : W → List (ℕ × Option ℕ)

module _ {W H : Type 0} (machine : Machine W H) (reader writer : H) (view : View W) where
  abbrev pub IsSame : W → W → Type 0
  IsSame w v =
      (view.source v ≡ view.source w)
      × (view.written v ≡ view.written w)
      × (view.log v ≡ view.log w)

  -- A read takes a part off the front of the source, and an empty one only at its end; a write appends;
  -- the clock and a flush leave all of it; a report is logged.
  pub record IsFaithful : Type 0 where
    pub reads :
        (w : W)
        → (v : W) × (chunk : List ℕ) × (machine.read reader sftp_transfer_buffer_size w
            ≡ (v, ok chunk))
          × (view.source w ≡ chunk ++ view.source v)
          × (is_empty chunk ≡ true → view.source v ≡ [])
          × (view.written v ≡ view.written w)
          × (view.log v ≡ view.log w)
    pub writes :
        (w : W) (bytes : List ℕ)
        → (v : W) × (machine.write_all writer bytes w ≡ (v, ok tt))
          × (view.source v ≡ view.source w)
          × (view.written v ≡ view.written w ++ bytes)
          × (view.log v ≡ view.log w)
    pub flushes : (w : W) → (v : W) × (machine.flush writer w ≡ (v, ok tt)) × IsSame w v
    pub ticks : (w : W) → (v : W) × (t : ℕ) × (machine.now w ≡ (v, t)) × IsSame w v
    pub reports :
        (w : W) (done : ℕ) (total : Option ℕ)
        → (view.source (machine.report done total w) ≡ view.source w)
          × (view.written (machine.report done total w) ≡ view.written w)
          × (view.log (machine.report done total w) ≡ view.log w ++ (done, total) ∷ [])

  module _ (faithful : IsFaithful) (shown : ℕ → ℕ × Option ℕ) where
    -- From one state to another `bytes` were written, `left` is left, and the marks were reported.
    IsStep : W → W → (bytes left : List ℕ) → List ℕ → Type 0
    IsStep w v bytes left marks =
        (view.source v ≡ left)
        × (view.written v ≡ view.written w ++ bytes)
        × (view.log v ≡ view.log w ++ map shown marks)

    -- The chunk was not reported, or it was.
    IsMarked : Copied → Copied → List ℕ → Type 0
    IsMarked copied next marks =
        ((marks ≡ []) × (next.last_reported_bytes ≡ copied.last_reported_bytes))
        ⊎ ((marks ≡ next.bytes_done ∷ []) × (next.last_reported_bytes ≡ next.bytes_done))

    -- A chunk that is not empty is written, and reported or not.
    copy_chunk-IsStep :
        (w : W) (chunk : List ℕ) (copied : Copied)
        → copied.bytes_done + length chunk < 2 ^ 64
        → (v : W) × (next : Copied) × (marks : List ℕ) × (copy_chunk machine reader writer shown
              chunk copied w
            ≡ (v, ok next))
          × IsStep w v chunk (view.source w) marks
          × (next.bytes_done ≡ copied.bytes_done + length chunk)
          × IsMarked copied next marks
    unfolding copy_chunk IsStep IsMarked
    copy_chunk-IsStep w chunk copied l =
        let (w1, e1, s1, t1, g1) = faithful.writes w chunk in
        let (w2, now, e2, (s2, t2, g2)) = faithful.ticks w1 in
        let done = copied.bytes_done + length chunk in
        let small : done % 2 ^ 64 ≡ done = omega arith in
        elim (Bool-cases (leb 250 (now - copied.last_reported_at))) [
          | inr late ↦ (
            w2,
            record copied { bytes_done = done },
            [],
            rw (e1, e2, late, small, copy_chunk) refl,
            (s2 ∙ s1, t2 ∙ t1, g2 ∙ g1 ∙ sym (append-nil (view.log w))),
            refl,
            inl (refl, refl),
          )
          | inl late ↦
              let (s3, t3, g3) = faithful.reports w2 (shown done).0 (shown done).1 in
              let w3 = machine.report (shown done).0 (shown done).1 w2 in
              let (w4, at, e4, (s4, t4, g4)) = faithful.ticks w3 in
              (
                w4,
                record { bytes_done = done; last_reported_bytes = done; last_reported_at = at },
                done ∷ [],
                rw (e1, e2, late, small, e4, copy_chunk) refl,
                (
                  s4 ∙ s3 ∙ s2 ∙ s1,
                  t4 ∙ t3 ∙ t2 ∙ t1,
                  g4 ∙ g3 ∙ ap (λ l. l ++ shown done ∷ []) (g2 ∙ g1),
                ),
                refl,
                inr (refl, refl),
              )
        ]

    -- What the loop has done by its end, where `bytes` were to be copied.
    IsCopied : Copied → Copied → W → W → List ℕ → List ℕ → Type 0
    IsCopied copied last w v bytes marks =
        IsStep w v bytes [] marks
        × (last.bytes_done ≡ copied.bytes_done + length bytes)
        × Ascends copied.last_reported_bytes marks
        × (last_from copied.last_reported_bytes marks ≡ last.last_reported_bytes)
        × (last.last_reported_bytes ≤ last.bytes_done)

    -- The loop copies `bytes`, however it got to its state.
    Copies : W → Copied → List ℕ → W × Result (Stop SftpError) Copied → Type 0
    Copies w copied bytes r =
        (v : W) × (last : Copied) × (marks : List ℕ) × (r ≡ (v, ok last))
        × IsCopied copied last w v bytes marks

    IsMarked-low :
        (copied next : Copied) (marks : List ℕ)
        → IsMarked copied next marks
        → copied.last_reported_bytes < next.bytes_done
        → next.last_reported_bytes ≤ next.bytes_done
    unfolding IsMarked
    IsMarked-low copied next marks (inl (e, k)) l = omega (arith, k)
    IsMarked-low copied next marks (inr (e, k)) l = omega (arith, k)

    marks_behind :
        (copied next : Copied) (marks more : List ℕ) (last : ℕ)
        → IsMarked copied next marks
        → copied.last_reported_bytes < next.bytes_done
        → Ascends next.last_reported_bytes more
        → last_from next.last_reported_bytes more ≡ last
        → Ascends copied.last_reported_bytes (marks ++ more)
          × (last_from copied.last_reported_bytes (marks ++ more) ≡ last)
    unfolding IsMarked
    marks_behind copied next marks more last (inl (e, k)) l a f = (
      subst (λ ms. Ascends copied.last_reported_bytes (ms ++ more)) (sym e)
          (subst (λ n. Ascends n more) k a),
      ap (λ ms. last_from copied.last_reported_bytes (ms ++ more)) e
          ∙ ap (λ n. last_from n more) (sym k)
          ∙ f,
    )
    marks_behind copied next marks more last (inr (e, k)) l a f = (
      subst (λ ms. Ascends copied.last_reported_bytes (ms ++ more)) (sym e)
          (l, subst (λ n. Ascends n more) k a),
      ap (λ ms. last_from copied.last_reported_bytes (ms ++ more)) e
          ∙ ap (λ n. last_from n more) (sym k)
          ∙ f,
    )

    IsStep-trans :
        (w v u : W) (chunk bytes left rest : List ℕ) (marks more : List ℕ)
        → IsStep w v chunk left marks
        → IsStep v u bytes rest more
        → IsStep w u (chunk ++ bytes) rest (marks ++ more)
    unfolding IsStep
    IsStep-trans w v u chunk bytes left rest marks more (s, t, g) (s', t', g') = (
      s',
      t' ∙ ap (λ l. l ++ bytes) t ∙ append_assoc (view.written w) chunk bytes,
      g'
          ∙ ap (λ l. l ++ map shown more) g
          ∙ append_assoc (view.log w) (map shown marks) (map shown more)
          ∙ ap (λ l. view.log w ++ l) (sym (map-append shown marks more)),
    )

    -- What follows a read: the rest of the loop copies what is left.
    copy_next-Copies :
        (fuel : ℕ) (w : W) (copied : Copied) (chunk : List ℕ)
        → ((v : W) (next : Copied)
            → length (view.source v) < fuel
            → next.bytes_done + length (view.source v) < 2 ^ 64
            → next.last_reported_bytes ≤ next.bytes_done
            → Copies v next (view.source v) (copy_chunks machine reader writer shown fuel next v))
        → (is_empty chunk ≡ true → view.source w ≡ [])
        → length chunk + length (view.source w) < suc fuel
        → copied.bytes_done + (length chunk + length (view.source w)) < 2 ^ 64
        → copied.last_reported_bytes ≤ copied.bytes_done
        → Copies w copied (chunk ++ view.source w) (
            copy_next machine reader writer shown
              (λ next. copy_chunks machine reader writer shown fuel next)
              copied
              chunk
              w)
    unfolding copy_next Copies IsCopied IsStep IsMarked
    copy_next-Copies fuel w copied [] again empty f b l =
        let none_left = empty refl in
        (
          w,
          copied,
          [],
          refl,
          (
            (
              none_left,
              sym (ap (λ s. view.written w ++ s) none_left ∙ append-nil (view.written w)),
              sym (append-nil (view.log w)),
            ),
            omega (arith, ap length none_left),
            tt,
            refl,
            l,
          ),
        )
    copy_next-Copies fuel w copied (c ∷ chunk) again empty f b l =
        let (v, next, marks, e, step, d, marked) =
          copy_chunk-IsStep w (c ∷ chunk) copied (omega arith) in
        let left : view.source v ≡ view.source w = step.0 in
        let size = ap length left in
        let up : copied.last_reported_bytes < next.bytes_done = omega (arith, d) in
        let (u, last, more, e', (step', d', a', f', l')) =
          again v next (omega (arith, size)) (omega (arith, size, d))
            (IsMarked-low copied next marks marked up) in
        let (a, g) = marks_behind copied next marks more _ marked up a' f' in
        (
          u,
          last,
          marks ++ more,
          rw (e, copy_next) e',
          (
            subst (λ s. IsStep w u ((c ∷ chunk) ++ s) [] (marks ++ more)) left
                (IsStep-trans w v u (c ∷ chunk) _ _ [] marks more step step'),
            omega (arith, d, d', size, length-append (c ∷ chunk) (view.source w)),
            a,
            g,
            l',
          ),
        )

    copy_chunks-Copies :
        (fuel : ℕ) (w : W) (copied : Copied)
        → length (view.source w) < fuel
        → copied.bytes_done + length (view.source w) < 2 ^ 64
        → copied.last_reported_bytes ≤ copied.bytes_done
        → Copies w copied (view.source w) (copy_chunks machine reader writer shown fuel copied w)
    unfolding copy_chunks Copies IsCopied IsStep
    copy_chunks-Copies zero w copied f b l = absurd (omega arith)
    copy_chunks-Copies (suc fuel) w copied f b l =
        let (v, chunk, e, s, empty, t, g) = faithful.reads w in
        let size = ap length s ∙ length-append chunk (view.source v) in
        let (u, last, marks, e', ((s', t', g'), d', a', f', l')) =
          copy_next-Copies fuel v copied chunk
            (λ u next f' b' l'. copy_chunks-Copies fuel u next f' b' l') empty (omega (arith, size))
            (omega (arith, size)) l in
        (
          u,
          last,
          marks,
          rw (e, copy_chunks) e',
          (
            (
              s',
              t'
                  ∙ ap (λ q. q ++ (chunk ++ view.source v)) t
                  ∙ ap (λ q. view.written w ++ q) (sym s),
              g' ∙ ap (λ q. q ++ map shown marks) g,
            ),
            omega (arith, d', size, length-append chunk (view.source v)),
            a',
            f',
            l',
          ),
        )

    -- A copy reads its source to the end, given more rounds than there are bytes, which are less than
    -- 2^64: it writes just these bytes behind what was written, answers with their number, and
    -- reports numbers that go up from 0 to that number.
    pub copy-IsCopied :
        (rounds : ℕ) (w : W)
        → length (view.source w) < rounds
        → length (view.source w) < 2 ^ 64
        → (v : W) × (marks : List ℕ) × (copy_with_progress machine reader writer shown rounds w
            ≡ (v, ok (length (view.source w))))
          × (view.written v ≡ view.written w ++ view.source w)
          × (view.log v ≡ view.log w ++ map shown (0 ∷ marks))
          × Ascends 0 marks
          × (last_from 0 marks ≡ length (view.source w))
    unfolding copy_with_progress Copies IsCopied IsStep
    copy-IsCopied rounds w f b =
        let (w1, t, e1, (s1, t1, g1)) = faithful.ticks w in
        let (s2, t2, g2) = faithful.reports w1 (shown 0).0 (shown 0).1 in
        let w2 = machine.report (shown 0).0 (shown 0).1 w1 in
        let start : Copied = record {
          bytes_done = 0;
          last_reported_bytes = 0;
          last_reported_at = t;
        } in
        let size = ap length (s2 ∙ s1) in
        let (w3, last, marks, e3, ((s3, t3, g3), d3, a3, f3, l3)) =
          copy_chunks-Copies rounds w2 start (omega (arith, size)) (omega (arith, size))
            (omega arith) in
        let (w4, e4, (s4, t4, g4)) = faithful.flushes w3 in
        let total : last.bytes_done ≡ length (view.source w) = omega (arith, d3, size) in
        let written =
          t4
          ∙ t3
          ∙ ap (λ q. q ++ view.source w2) (t2 ∙ t1)
          ∙ ap (λ q. view.written w ++ q) (s2 ∙ s1) in
        let log =
          g4
          ∙ g3
          ∙ ap (λ q. q ++ map shown marks) (g2 ∙ ap (λ q. q ++ shown 0 ∷ []) g1)
          ∙ append_assoc (view.log w) (shown 0 ∷ []) (map shown marks) in
        elim (Bool-cases (last.last_reported_bytes == last.bytes_done)) [
          | inl q ↦ (
            w4,
            marks,
            rw (e1, e3, e4, q, total, copy_with_progress) refl,
            written,
            log,
            a3,
            f3 ∙ ground arith,
          )
          | inr q ↦
              let (s5, t5, g5) =
                faithful.reports w4 (shown last.bytes_done).0 (shown last.bytes_done).1 in
              let w5 = machine.report (shown last.bytes_done).0 (shown last.bytes_done).1 w4 in
              (
                w5,
                marks ++ last.bytes_done ∷ [],
                rw (e1, e3, e4, q, copy_with_progress) (ap (λ n. (w5, ok n)) total),
                t5 ∙ written,
                g5
                    ∙ ap (λ q. q ++ shown last.bytes_done ∷ []) log
                    ∙ append_assoc (view.log w) (shown 0 ∷ map shown marks)
                        (shown last.bytes_done ∷ [])
                    ∙ ap (λ l. view.log w ++ shown 0 ∷ l)
                        (sym (map-append shown marks (last.bytes_done ∷ []))),
                Ascends-append 0 marks last.bytes_done a3 (ground (arith, f3)),
                last_from-append 0 marks last.bytes_done ∙ total,
              )
        ]
