-- ===== src/Piece/Flush.antt =====
-- core/piece.c: a flush waits for the worker and applies every job of the ring.
use pipensx_video_downloader.Prelude.{
  ℕ, zero, suc, ◌+◌, ◌%◌, ◌≤◌, ◌<◌, ◌≡◌, refl, sym, ap, ◌∙◌, true, inl, inr, List, ltb, Bool-cases,
  arith,
}
use mathlib.Core.Path.{subst}
use pipensx_video_downloader.Piece.State.{PieceMgr, PieceHashJob, PieceOps, piece_hash_queue_max}
use pipensx_video_downloader.Piece.HashQueue.{
  piece_mgr_drain_hash_results, wait_hashed, piece_mgr_hash_flush,
}
use pipensx_video_downloader.Piece.KeepHash.{IsSound, hash_worker-IsSound, wait_hashed-IsSound}
use pipensx_video_downloader.Piece.Apart.{with_ring}
use pipensx_video_downloader.Piece.Verdicts.{
  jobs_from, hashed_one, hash_worker_finds, jobs_from-hash_worker,
}
use pipensx_video_downloader.Piece.Drain.{
  apply_all, apply_all-with_ring, AllHashed, Drained, drain-Drained,
}

module _ {Store : Type 0} (ops : PieceOps Store) where
  -- `w` is the manager with the verdicts in the ring.
  record Waited (pm w : PieceMgr Store) : Type 0 where
    jobs : List PieceHashJob
    same : w ≡ with_ring pm jobs pm.hash_q_head pm.hash_q_count pm.hash_q_count
    verdicts : jobs_from ops w 0 pm.hash_q_count ≡ jobs_from ops pm 0 pm.hash_q_count

  Waited-refl : (pm : PieceMgr Store) → AllHashed ops pm → Waited pm pm
  Waited-refl pm all = record {
    jobs = pm.hash_q;
    same = ap (λ (n : ℕ). with_ring pm pm.hash_q pm.hash_q_head pm.hash_q_count n) all;
    verdicts = refl;
  }

  Waited-trans :
      (pm w : PieceMgr Store)
      → IsSound pm
      → pm.hash_q_hashed < pm.hash_q_count
      → Waited (hashed_one ops pm) w
      → Waited pm w
  Waited-trans pm w s h later = record {
    jobs = later.jobs;
    same = later.same;
    verdicts =
        later.verdicts
        ∙ ap (λ (x : PieceMgr Store). jobs_from ops x 0 pm.hash_q_count)
            (sym (hash_worker_finds ops pm h))
        ∙ jobs_from-hash_worker ops pm s h;
  }

  -- As many rounds as there are jobs left hash them all.
  wait_hashed-Waited :
      (n : ℕ) (pm : PieceMgr Store)
      → IsSound pm
      → pm.hash_q_count ≤ n + pm.hash_q_hashed
      → Waited pm (wait_hashed ops n pm)
  unfolding wait_hashed
  wait_hashed-Waited zero pm s enough = Waited-refl pm (omega (arith, s.queue.hashed_le, enough))
  wait_hashed-Waited (suc n) pm s enough =
      elim (Bool-cases (ltb pm.hash_q_hashed pm.hash_q_count)) [
        | inr e ↦ rw (e, wait_hashed) (Waited-refl pm (ground (arith, s.queue.hashed_le)))
        | inl e ↦
            let left : pm.hash_q_hashed < pm.hash_q_count = ground arith in
            let found = hash_worker_finds ops pm left in
            rw (e, wait_hashed)
              (rw found (
                Waited-trans pm _ s left (
                  wait_hashed-Waited n (hashed_one ops pm)
                    (subst (λ x. IsSound x) found (hash_worker-IsSound ops pm s))
                    (omega (arith, enough)))))
      ]

  Waited-Drained :
      (pm w : PieceMgr Store) {result : PieceMgr Store}
      → Waited pm w
      → Drained ops w.hash_q_count w result
      → Drained ops pm.hash_q_count pm result
  Waited-Drained pm w {result} waited (jobs, same) =
      let behind = with_ring pm waited.jobs pm.hash_q_head pm.hash_q_count pm.hash_q_count in
      let verdicts : jobs_from ops behind 0 pm.hash_q_count ≡ jobs_from ops pm 0 pm.hash_q_count =
        subst (λ x. jobs_from ops x 0 pm.hash_q_count ≡ jobs_from ops pm 0 pm.hash_q_count)
          waited.same waited.verdicts in
      let end = (pm.hash_q_head + pm.hash_q_count) % piece_hash_queue_max in
      (
        jobs,
        same
            ∙ ap
                (λ (x : PieceMgr Store).
                  with_ring (apply_all ops x (jobs_from ops x 0 x.hash_q_count)) jobs
                    ((x.hash_q_head + x.hash_q_count) % piece_hash_queue_max) 0 0)
                waited.same
            ∙ ap (λ (l : List PieceHashJob). with_ring (apply_all ops behind l) jobs end 0 0)
                verdicts
            ∙ ap (λ (x : PieceMgr Store). with_ring x jobs end 0 0)
                (apply_all-with_ring ops pm (jobs_from ops pm 0 pm.hash_q_count) waited.jobs
                  pm.hash_q_head pm.hash_q_count pm.hash_q_count),
      )

  -- Once the worker runs, a flush of a sound manager applies every job of the ring: the manager is
  -- the one from before with the jobs applied in order from the head, each with the verdict that
  -- the worker recorded or, where it had not come to the job, the one of the hash of the job's
  -- bytes against the piece's; only the ring differs from that, and it is empty, its head moved on
  -- by the number of the jobs.
  pub piece_mgr_hash_flush-apply_all :
      (pm : PieceMgr Store)
      → IsSound pm
      → pm.hash_started ≡ true
      → (jobs : List PieceHashJob) × (piece_mgr_hash_flush ops pm
          ≡ with_ring
              (apply_all ops pm (jobs_from ops pm 0 pm.hash_q_count))
              jobs
              ((pm.hash_q_head + pm.hash_q_count) % piece_hash_queue_max)
              0
              0)
  unfolding piece_mgr_hash_flush piece_mgr_drain_hash_results
  piece_mgr_hash_flush-apply_all pm s on =
      let w = wait_hashed ops piece_hash_queue_max pm in
      let waited = wait_hashed-Waited piece_hash_queue_max pm s (omega (arith, s.queue.count_le)) in
      let started : w.hash_started ≡ true =
        ap (λ (x : PieceMgr Store). x.hash_started) waited.same ∙ on in
      let count : w.hash_q_count ≡ pm.hash_q_count =
        ap (λ (x : PieceMgr Store). x.hash_q_count) waited.same in
      let all : AllHashed ops w =
        ap (λ (x : PieceMgr Store). x.hash_q_hashed) waited.same ∙ sym count in
      let drained = Waited-Drained pm w waited (
        drain-Drained ops w.hash_q_count w (wait_hashed-IsSound ops piece_hash_queue_max pm s) all
          refl) in
      simp (on, started) drained
