-- ===== src/Piece/Drain.antt =====
-- core/piece.c: draining a ring whose jobs are all hashed is applying its jobs in order.
use pipensx_video_downloader.Prelude.{
  ℕ, zero, suc, ◌+◌, ◌-◌, ◌%◌, ◌≡◌, refl, sym, ap, ◌∙◌, true, false, not, ◌||◌, List, [], ◌∷◌, ◌==◌,
  arith,
}
use pipensx_video_downloader.Piece.State.{PieceMgr, PieceHashJob, PieceOps, piece_hash_queue_max}
use pipensx_video_downloader.Piece.HashQueue.{job_at, head_job, hash_apply, pop_head, drain}
use pipensx_video_downloader.Piece.Keep.{Ring}
use pipensx_video_downloader.Piece.KeepHash.{IsSound, apply_head-IsSound}
use pipensx_video_downloader.Piece.Enqueue.{hash_apply-ring}
use pipensx_video_downloader.Piece.Apart.{with_ring, hash_apply-with_ring}
use pipensx_video_downloader.Piece.Verdicts.{verdict, jobs_from, jobs_from_ext, verdict_hashed}

module _ {Store : Type 0} (ops : PieceOps Store) where
  -- The jobs applied one after the other.
  unfoldable pub apply_all : PieceMgr Store → List PieceHashJob → PieceMgr Store
  apply_all pm [] = pm
  apply_all pm (job ∷ jobs) = apply_all (hash_apply ops pm job) jobs

  pub apply_all-with_ring :
      (pm : PieceMgr Store) (jobs ring_jobs : List PieceHashJob) (head count hashed : ℕ)
      → apply_all (with_ring pm ring_jobs head count hashed) jobs
        ≡ with_ring (apply_all pm jobs) ring_jobs head count hashed
  unfolding apply_all
  apply_all-with_ring pm [] ring_jobs head count hashed = refl
  apply_all-with_ring pm (job ∷ jobs) ring_jobs head count hashed =
      ap (λ (x : PieceMgr Store). apply_all x jobs)
        (hash_apply-with_ring ring_jobs head count hashed ops pm job)
      ∙ apply_all-with_ring (hash_apply ops pm job) jobs ring_jobs head count hashed

  -- Every job of the ring is hashed.
  abbrev pub AllHashed : PieceMgr Store → Type 0
  AllHashed pm = pm.hash_q_hashed ≡ pm.hash_q_count

  -- What a drain leaves of a ring whose `n` jobs are all hashed.
  abbrev pub Drained : ℕ → PieceMgr Store → PieceMgr Store → Type 0
  Drained n pm result =
      (jobs : List PieceHashJob) × (result
        ≡ with_ring (apply_all pm (jobs_from ops pm 0 n)) jobs
            ((pm.hash_q_head + n) % piece_hash_queue_max) 0 0)

  -- The jobs behind the head, seen from the manager that has applied the head.
  jobs_from-applied :
      (n : ℕ) (pm : PieceMgr Store)
      → AllHashed pm
      → suc n ≡ pm.hash_q_count
      → jobs_from ops (hash_apply ops (pop_head pm) (head_job pm)) 0 n ≡ jobs_from ops pm 1 n
  unfolding pop_head
  jobs_from-applied n pm all e =
      let next = hash_apply ops (pop_head pm) (head_job pm) in
      let same = hash_apply-ring ops (pop_head pm) (head_job pm) in
      let hashed : next.hash_q_hashed ≡ pm.hash_q_hashed - 1 =
        ap (λ (r : Ring). r.hash_q_hashed) same in
      jobs_from_ext ops next pm 0 1 n (λ i lt.
        let at : ((pm.hash_q_head + 1) % piece_hash_queue_max + (0 + i)) % piece_hash_queue_max
            ≡ (pm.hash_q_head + (1 + i)) % piece_hash_queue_max =
          omega arith in
        verdict_hashed ops next (0 + i) (omega (arith, lt, hashed, all, e))
        ∙ ap (λ (r : Ring). job_at r.hash_q ((r.hash_q_head + (0 + i)) % piece_hash_queue_max)) same
        ∙ ap (λ (k : ℕ). job_at pm.hash_q k) at
        ∙ sym (verdict_hashed ops pm (1 + i) (omega (arith, lt, all, e))))

  applied-Drained :
      (n : ℕ) (pm result : PieceMgr Store)
      → IsSound pm
      → AllHashed pm
      → suc n ≡ pm.hash_q_count
      → Drained n (hash_apply ops (pop_head pm) (head_job pm)) result
      → Drained (suc n) pm result
  unfolding pop_head jobs_from apply_all
  applied-Drained n pm result s all e (jobs, same) =
      let next = hash_apply ops (pop_head pm) (head_job pm) in
      let applied = hash_apply ops pm (head_job pm) in
      let later = jobs_from ops pm 1 n in
      let head : next.hash_q_head ≡ (pm.hash_q_head + 1) % piece_hash_queue_max =
        ap (λ (r : Ring). r.hash_q_head) (hash_apply-ring ops (pop_head pm) (head_job pm)) in
      let at : (next.hash_q_head + n) % piece_hash_queue_max
          ≡ (pm.hash_q_head + suc n) % piece_hash_queue_max =
        omega (arith, head) in
      let moved : next
          ≡ with_ring applied pm.hash_q ((pm.hash_q_head + 1) % piece_hash_queue_max)
              (pm.hash_q_count - 1) (pm.hash_q_hashed - 1) =
        hash_apply-with_ring pm.hash_q ((pm.hash_q_head + 1) % piece_hash_queue_max)
          (pm.hash_q_count - 1) (pm.hash_q_hashed - 1) ops pm (head_job pm) in
      let first : (pm.hash_q_head + 0) % piece_hash_queue_max ≡ pm.hash_q_head =
        omega (arith, s.queue.head_lt) in
      let job : verdict ops pm 0 ≡ head_job pm =
        verdict_hashed ops pm 0 (omega (arith, all, e))
        ∙ ap (λ (k : ℕ). job_at pm.hash_q k) first in
      let end = (pm.hash_q_head + suc n) % piece_hash_queue_max in
      (
        jobs,
        same
            ∙ ap (λ (h : ℕ). with_ring (apply_all next (jobs_from ops next 0 n)) jobs h 0 0) at
            ∙ ap (λ (l : List PieceHashJob). with_ring (apply_all next l) jobs end 0 0)
                (jobs_from-applied n pm all e)
            ∙ ap (λ (x : PieceMgr Store). with_ring (apply_all x later) jobs end 0 0) moved
            ∙ ap (λ (x : PieceMgr Store). with_ring x jobs end 0 0)
                (apply_all-with_ring applied later pm.hash_q
                  ((pm.hash_q_head + 1) % piece_hash_queue_max) (pm.hash_q_count - 1)
                  (pm.hash_q_hashed - 1))
            ∙ ap
                (λ (x : PieceHashJob).
                  with_ring (apply_all (hash_apply ops pm x) later) jobs end 0 0)
                (sym job),
      )

  -- A drain of hashed jobs applies them in order and leaves the ring empty.
  pub drain-Drained :
      (n : ℕ) (pm : PieceMgr Store)
      → IsSound pm
      → AllHashed pm
      → n ≡ pm.hash_q_count
      → Drained n pm (drain ops n pm)
  unfolding drain pop_head jobs_from apply_all
  drain-Drained zero pm s all e =
      let at : (pm.hash_q_head + 0) % piece_hash_queue_max ≡ pm.hash_q_head =
        omega (arith, s.queue.head_lt) in
      let hashed : 0 ≡ pm.hash_q_hashed = omega (arith, all, e) in
      (
        pm.hash_q,
        ap (λ (h : ℕ). with_ring pm pm.hash_q h pm.hash_q_count pm.hash_q_hashed) (sym at)
            ∙ ap
                (λ (c : ℕ).
                  with_ring pm pm.hash_q ((pm.hash_q_head + 0) % piece_hash_queue_max) c
                    pm.hash_q_hashed)
                (sym e)
            ∙ ap
                (λ (c : ℕ).
                  with_ring pm pm.hash_q ((pm.hash_q_head + 0) % piece_hash_queue_max) 0 c)
                (sym hashed),
      )
  drain-Drained (suc n) pm s all e =
      let first : (pm.hash_q_head + 0) % piece_hash_queue_max ≡ pm.hash_q_head =
        omega (arith, s.queue.head_lt) in
      let done : (head_job pm).done ≡ true =
        rw first at (s.queue.job_done 0 (omega (arith, all, e))) in
      let go : (pm.hash_q_count == 0 || not (head_job pm).done) ≡ false = ground arith in
      let same = hash_apply-ring ops (pop_head pm) (head_job pm) in
      let count = ap (λ (r : Ring). r.hash_q_count) same in
      let hashed = ap (λ (r : Ring). r.hash_q_hashed) same in
      rw (go, drain)
        (applied-Drained n pm _ s all e (
          drain-Drained n (hash_apply ops (pop_head pm) (head_job pm))
            (apply_head-IsSound ops pm s (omega (arith, e))) (omega (arith, hashed, count, all))
            (omega (arith, count, e))))
