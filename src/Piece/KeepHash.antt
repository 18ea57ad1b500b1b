-- ===== src/Piece/KeepHash.antt =====
-- The manager's invariant, and that the asynchronous verification keeps it.
use pipensx_video_downloader.Prelude.{
  ℕ, zero, suc, ◌+◌, ◌%◌, ◌<◌, ◌≡◌, refl, true, false, not, ◌||◌, inl, inr, Option, Bytes, ◌==◌,
  Bool-cases, ltb, take, arith,
}
use pipensx_video_downloader.Piece.State.{
  PieceState, ps_empty, ps_pending, ps_done, ps_hashing, PieceSlot, PieceMgr, PieceHashJob,
  PieceOps, slot, set_slot, is_done, piece_len, abs_off, piece_hash_queue_max, reset_piece,
  mark_piece_done, piece_buf_put,
}
use pipensx_video_downloader.Piece.HashQueue.{
  head_job, is_hashing, buf_bytes, hash_worker, give_back, apply_write, hash_apply, pop_head, drain,
  piece_mgr_drain_hash_results, wait_hashed, piece_mgr_hash_flush, wait_head,
}
use pipensx_video_downloader.Piece.Valid.{IsValid, ledger, set_slot-Valid, reset_piece-IsValid}
use pipensx_video_downloader.Piece.Keep.{
  ring, piece_buf_put-ring, piece_buf_put-IsValid, reset_piece-ring, mark_piece_done-ring,
  mark_piece_done-IsValid,
}
use pipensx_video_downloader.Piece.Ring.{QueueFits, hash_job-QueueFits, pop_head-QueueFits}

-- The manager is sound: the ledger is, and so is the ring.
pub record IsSound {Store : Type 0} (pm : PieceMgr Store) : Type 0 where
  pub valid : IsValid pm
  pub queue : QueueFits (ring pm)

hashing_open : (s : PieceState) → is_hashing s ≡ true → is_done s ≡ false
hashing_open ps_empty h = refl
hashing_open ps_pending h = refl
hashing_open ps_done h = ground arith
hashing_open ps_hashing h = refl

module _ {Store : Type 0} where
  -- The ring stays, and the ledger is valid.
  pub same_ring-IsSound :
      (pm pm' : PieceMgr Store) → IsSound pm → ring pm' ≡ ring pm → IsValid pm' → IsSound pm'
  same_ring-IsSound pm pm' s e v = record { valid = v; queue = rw e s.queue }

  pub piece_buf_put-IsSound :
      (pm : PieceMgr Store) (buf : Option Bytes) → IsSound pm → IsSound (piece_buf_put pm buf)
  piece_buf_put-IsSound pm buf s =
      same_ring-IsSound pm _ s (piece_buf_put-ring pm buf) (piece_buf_put-IsValid pm buf s.valid)

  pub reset_piece-IsSound :
      (pm : PieceMgr Store) (idx : ℕ)
      → IsSound pm
      → idx < pm.num_pieces
      → IsSound (reset_piece pm idx)
  reset_piece-IsSound pm idx s h =
      same_ring-IsSound pm _ s (reset_piece-ring pm idx) (reset_piece-IsValid pm idx s.valid h)

  pub set_slot-IsSound :
      (pm : PieceMgr Store) (idx : ℕ) (sl : PieceSlot)
      → IsSound pm
      → idx < pm.num_pieces
      → is_done sl.state ≡ is_done (slot pm idx).state
      → IsSound (set_slot pm idx sl)
  set_slot-IsSound pm idx sl s h e = record {
    valid = set_slot-Valid (ledger pm) idx sl s.valid h e;
    queue = s.queue;
  }

  pub mark_piece_done-IsSound :
      (ops : PieceOps Store) (pm : PieceMgr Store) (idx plen : ℕ)
      → IsSound pm
      → idx < pm.num_pieces
      → is_done (slot pm idx).state ≡ false
      → plen ≡ piece_len pm idx
      → IsSound (mark_piece_done ops pm idx plen)
  mark_piece_done-IsSound ops pm idx plen s h was e =
      same_ring-IsSound pm _ s (mark_piece_done-ring ops pm idx plen)
        (mark_piece_done-IsValid ops pm idx plen s.valid h was e)

  -- A piece and its length, as a job has them.
  abbrev pub JobFits : PieceMgr Store → PieceHashJob → Type 0
  JobFits pm job = (job.idx < pm.num_pieces) × (job.plen ≡ piece_len pm job.idx)

  give_back-IsSound :
      (pm : PieceMgr Store) (job : PieceHashJob)
      → IsSound pm
      → JobFits pm job
      → IsSound (give_back pm job)
  unfolding give_back
  give_back-IsSound pm job s fits =
      reset_piece-IsSound _ job.idx
        (set_slot-IsSound pm job.idx (record (slot pm job.idx) { buf = job.buf }) s fits.0 refl)
        fits.0

  apply_write-IsSound :
      (ops : PieceOps Store) (pm : PieceMgr Store) (job : PieceHashJob)
      → IsSound pm
      → is_hashing (slot pm job.idx).state ≡ true
      → JobFits pm job
      → IsSound (apply_write ops pm job)
  unfolding apply_write piece_len
  apply_write-IsSound ops pm job s hashing fits =
      let w = ops.storage_write pm.store (abs_off pm job.idx) (take job.plen (buf_bytes job.buf)) in
      let pm' : PieceMgr Store = record pm { store = w.0 } in
      let s' : IsSound pm' = record { valid = s.valid; queue = s.queue } in
      let marked =
        mark_piece_done-IsSound ops pm' job.idx job.plen s' fits.0 (hashing_open _ hashing)
          fits.1 in
      let released = piece_buf_put-IsSound _ job.buf marked in
      let back = give_back-IsSound pm' job s' fits in
      elim (Bool-cases w.1) [
        | inl e ↦ rw e (record { valid = released.valid; queue = released.queue })
        | inr e ↦ rw e (record { valid = back.valid; queue = back.queue })
      ]

  pub hash_apply-IsSound :
      (ops : PieceOps Store) (pm : PieceMgr Store) (job : PieceHashJob)
      → IsSound pm
      → JobFits pm job
      → IsSound (hash_apply ops pm job)
  unfolding hash_apply apply_write give_back
  hash_apply-IsSound ops pm job s fits =
      let back = give_back-IsSound pm job s fits in
      elim (Bool-cases (is_hashing (slot pm job.idx).state)) [
        | inr e ↦ rw e (piece_buf_put-IsSound pm job.buf s)
        | inl e ↦ elim (Bool-cases job.ok) [
          | inr f ↦ rw (e, f) (record { valid = back.valid; queue = back.queue })
          | inl f ↦ rw (e, f) (apply_write-IsSound ops pm job s e fits)
        ]
      ]

  pub hash_worker-IsSound :
      (ops : PieceOps Store) (pm : PieceMgr Store) → IsSound pm → IsSound (hash_worker ops pm)
  unfolding hash_worker
  hash_worker-IsSound ops pm s = elim (Bool-cases (pm.hash_q_hashed == pm.hash_q_count)) [
    | inl e ↦ rw e s
    | inr e ↦ rw e (record {
      valid = s.valid;
      queue =
          hash_job-QueueFits (ring pm) _ s.queue (ground (arith, s.queue.hashed_le)) refl refl refl;
    })
  ]

  pub wait_hashed-IsSound :
      (ops : PieceOps Store) (n : ℕ) (pm : PieceMgr Store)
      → IsSound pm
      → IsSound (wait_hashed ops n pm)
  unfolding wait_hashed
  wait_hashed-IsSound ops zero pm s = s
  wait_hashed-IsSound ops (suc n) pm s = elim (Bool-cases (ltb pm.hash_q_hashed pm.hash_q_count)) [
    | inr e ↦ rw (e, wait_hashed) s
    | inl e ↦ rw (e, wait_hashed) (wait_hashed-IsSound ops n _ (hash_worker-IsSound ops pm s))
  ]

  pub wait_head-IsSound :
      (ops : PieceOps Store) (n : ℕ) (pm : PieceMgr Store)
      → IsSound pm
      → IsSound (wait_head ops n pm)
  unfolding wait_head
  wait_head-IsSound ops zero pm s = s
  wait_head-IsSound ops (suc n) pm s = elim (Bool-cases (head_job pm).done) [
    | inl e ↦ rw (e, wait_head) s
    | inr e ↦ rw (e, wait_head) (wait_head-IsSound ops n _ (hash_worker-IsSound ops pm s))
  ]

  head_job-fits :
      (pm : PieceMgr Store) → IsSound pm → 0 < pm.hash_q_count → JobFits pm (head_job pm)
  unfolding piece_len
  head_job-fits pm s h =
      let first : (pm.hash_q_head + 0) % piece_hash_queue_max ≡ pm.hash_q_head =
        omega (arith, s.queue.head_lt) in
      (rw first at (s.queue.job_piece 0 h), rw first at (s.queue.job_len 0 h))

  -- A head that is applied, taken off the ring.
  pub apply_head-IsSound :
      (ops : PieceOps Store) (pm : PieceMgr Store)
      → IsSound pm
      → 0 < pm.hash_q_count
      → IsSound (hash_apply ops (pop_head pm) (head_job pm))
  unfolding pop_head piece_len
  apply_head-IsSound ops pm s h =
      hash_apply-IsSound ops (pop_head pm) (head_job pm)
        (record { valid = s.valid; queue = pop_head-QueueFits (ring pm) s.queue h })
        (head_job-fits pm s h)

  drain-IsSound :
      (ops : PieceOps Store) (fuel : ℕ) (pm : PieceMgr Store)
      → IsSound pm
      → IsSound (drain ops fuel pm)
  unfolding drain
  drain-IsSound ops zero pm s = s
  drain-IsSound ops (suc fuel) pm s =
      elim (Bool-cases (pm.hash_q_count == 0 || not (head_job pm).done)) [
        | inl e ↦ rw (e, drain) s
        | inr e ↦
            rw (e, drain) (drain-IsSound ops fuel _ (apply_head-IsSound ops pm s (ground arith)))
      ]

  -- Draining the finished jobs keeps the manager sound.
  pub piece_mgr_drain_hash_results-IsSound :
      (ops : PieceOps Store) (pm : PieceMgr Store)
      → IsSound pm
      → IsSound (piece_mgr_drain_hash_results ops pm)
  unfolding piece_mgr_drain_hash_results
  piece_mgr_drain_hash_results-IsSound ops pm s = elim (Bool-cases pm.hash_started) [
    | inl e ↦ simp e (drain-IsSound ops pm.hash_q_count pm s)
    | inr e ↦ simp e s
  ]

  pub piece_mgr_hash_flush-IsSound :
      (ops : PieceOps Store) (pm : PieceMgr Store)
      → IsSound pm
      → IsSound (piece_mgr_hash_flush ops pm)
  unfolding piece_mgr_hash_flush
  piece_mgr_hash_flush-IsSound ops pm s =
      let drained =
        piece_mgr_drain_hash_results-IsSound ops _
          (wait_hashed-IsSound ops piece_hash_queue_max pm s) in
      elim (Bool-cases pm.hash_started) [ inl e ↦ simp e drained | inr e ↦ simp e s ]
