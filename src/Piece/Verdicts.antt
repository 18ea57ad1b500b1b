-- ===== src/Piece/Verdicts.antt =====
-- The ring of jobs as a list: the jobs from the head on, each with the verdict that the worker has
-- recorded or will record.
use pipensx_video_downloader.Prelude.{
  ℕ, zero, suc, ◌+◌, ◌%◌, ◌≤◌, ◌<◌, ◌≡◌, refl, sym, ap, ◌∙◌, true, List, [], ◌∷◌, ◌==◌, ltb,
  if◌then◌else◌, lt→ltb, false, set, arith,
}
use native.Mathlib.Decide.{ℕ_discrete, dec_lt}
use pipensx_video_downloader.Piece.State.{PieceMgr, PieceHashJob, PieceOps, piece_hash_queue_max}
use pipensx_video_downloader.Piece.HashQueue.{job_at, buf_bytes, hash_matches, hash_worker}
use pipensx_video_downloader.Piece.Ring.{nth_job_self, nth_job-ne}
use pipensx_video_downloader.Piece.Keep.{ring}
use pipensx_video_downloader.Piece.KeepHash.{IsSound}
use pipensx_video_downloader.Piece.Apart.{with_ring}

module _ {Store : Type 0} (ops : PieceOps Store) where
  -- The job, hashed.
  abbrev pub judged : PieceMgr Store → PieceHashJob → PieceHashJob
  judged pm job = record job {
    ok = hash_matches ops pm job.idx (buf_bytes job.buf) job.plen;
    done = true;
  }

  -- The k-th job from the head, hashed where the worker has not come to it.
  unfoldable pub verdict : PieceMgr Store → ℕ → PieceHashJob
  verdict pm k =
      let job = job_at pm.hash_q ((pm.hash_q_head + k) % piece_hash_queue_max) in
      if ltb k pm.hash_q_hashed then job else judged pm job

  -- The `n` jobs from the k-th one on.
  unfoldable pub jobs_from : PieceMgr Store → ℕ → ℕ → List PieceHashJob
  jobs_from pm k zero = []
  jobs_from pm k (suc n) = verdict pm k ∷ jobs_from pm (suc k) n

  -- A job that is hashed stands in the ring as it is.
  pub verdict_hashed :
      (pm : PieceMgr Store) (k : ℕ)
      → k < pm.hash_q_hashed
      → verdict pm k ≡ job_at pm.hash_q ((pm.hash_q_head + k) % piece_hash_queue_max)
  unfolding verdict
  verdict_hashed pm k h = rw (lt→ltb k pm.hash_q_hashed h) refl

  verdict_left :
      (pm : PieceMgr Store) (k : ℕ)
      → pm.hash_q_hashed ≤ k
      → verdict pm k ≡ judged pm (job_at pm.hash_q ((pm.hash_q_head + k) % piece_hash_queue_max))
  unfolding verdict
  verdict_left pm k h = let out : ltb k pm.hash_q_hashed ≡ false = ground arith in rw out refl

  pub jobs_from_ext :
      (pm pm' : PieceMgr Store) (k k' n : ℕ)
      → ((i : ℕ) → i < n → verdict pm (k + i) ≡ verdict pm' (k' + i))
      → jobs_from pm k n ≡ jobs_from pm' k' n
  unfolding jobs_from
  jobs_from_ext pm pm' k k' zero h = refl
  jobs_from_ext pm pm' k k' (suc n) h =
      let e : k + 0 ≡ k = omega arith in
      let e' : k' + 0 ≡ k' = omega arith in
      let first = h 0 (omega arith) in
      let rest = jobs_from_ext pm pm' (suc k) (suc k') n (λ i lt.
        let later = h (suc i) (omega arith) in
        let d : k + suc i ≡ suc k + i = omega arith in
        let d' : k' + suc i ≡ suc k' + i = omega arith in cc (later, d, d')) in
      cc (first, rest, e, e')

  -- The manager behind a round of the worker that finds a job.
  abbrev pub hashed_one : PieceMgr Store → PieceMgr Store
  hashed_one pm =
      let i = (pm.hash_q_head + pm.hash_q_hashed) % piece_hash_queue_max in
      with_ring pm (set pm.hash_q i (judged pm (job_at pm.hash_q i))) pm.hash_q_head pm.hash_q_count
        (pm.hash_q_hashed + 1)

  pub hash_worker_finds :
      (pm : PieceMgr Store)
      → pm.hash_q_hashed < pm.hash_q_count
      → hash_worker ops pm ≡ hashed_one pm
  unfolding hash_worker
  hash_worker_finds pm h =
      let left : (pm.hash_q_hashed == pm.hash_q_count) ≡ false = ground arith in rw left refl

  verdict-hashed_one :
      (pm : PieceMgr Store) (k : ℕ)
      → IsSound pm
      → pm.hash_q_hashed < pm.hash_q_count
      → k < pm.hash_q_count
      → verdict (hashed_one pm) k ≡ verdict pm k
  unfolding hash_matches
  verdict-hashed_one pm k s h n =
      let i = (pm.hash_q_head + pm.hash_q_hashed) % piece_hash_queue_max in
      let job = judged pm (job_at pm.hash_q i) in
      let small : pm.hash_q_hashed < piece_hash_queue_max = omega (arith, s.queue.count_le) in
      let other =
        nth_job-ne (ring pm) pm.hash_q_hashed job s.queue small k
          (omega (arith, s.queue.count_le)) in
      elim (ℕ_discrete pm.hash_q_hashed k) [
        | yes e ↦
            verdict_hashed (hashed_one pm) k (omega (arith, e))
            ∙ ap
                (λ (j : ℕ).
                  job_at (set pm.hash_q i job) ((pm.hash_q_head + j) % piece_hash_queue_max))
                (sym e)
            ∙ nth_job_self (ring pm) pm.hash_q_hashed job s.queue small
            ∙ ap
                (λ (j : ℕ).
                  judged pm (job_at pm.hash_q ((pm.hash_q_head + j) % piece_hash_queue_max)))
                e
            ∙ sym (verdict_left pm k (omega (arith, e)))
        | no ne ↦ elim (dec_lt k pm.hash_q_hashed) [
          | yes lt ↦
              verdict_hashed (hashed_one pm) k (omega (arith, lt))
              ∙ other ne
              ∙ sym (verdict_hashed pm k lt)
          | no ge ↦
              verdict_left (hashed_one pm) k (omega (arith, ge, ne))
              ∙ ap (λ (x : PieceHashJob). judged pm x) (other ne)
              ∙ sym (verdict_left pm k (omega (arith, ge)))
        ]
      ]

  -- A round of the worker leaves the verdicts as they were.
  pub jobs_from-hash_worker :
      (pm : PieceMgr Store)
      → IsSound pm
      → pm.hash_q_hashed < pm.hash_q_count
      → jobs_from (hash_worker ops pm) 0 pm.hash_q_count ≡ jobs_from pm 0 pm.hash_q_count
  jobs_from-hash_worker pm s h = rw (hash_worker_finds pm h) (
      jobs_from_ext (hashed_one pm) pm 0 0 pm.hash_q_count
        (λ k n. verdict-hashed_one pm (0 + k) s h (omega (arith, n))))
