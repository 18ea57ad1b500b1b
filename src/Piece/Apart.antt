-- ===== src/Piece/Apart.antt =====
-- core/piece.c: applying a hash result does not look at the ring of jobs, and leaves it alone.
use pipensx_video_downloader.Prelude.{
  ℕ, ◌≡◌, refl, ap, ◌∙◌, Bool, true, false, if◌then◌else◌, not, ◌&&◌, inl, inr, List, Option, none,
  some, Bytes, ltb, ◌==◌, Bool-cases, length, take,
}
use pipensx_video_downloader.Piece.State.{
  PieceMgr, PieceHashJob, PieceOps, slot, set_slot, is_done, piece_len, abs_off, cleared,
  order_cursor_advance, order_cursor_rewind, order_position, no_index, forget_done, reset_piece,
  mark_piece_done, piece_buf_put, piece_buf_pool_max,
}
use pipensx_video_downloader.Piece.HashQueue.{
  is_hashing, buf_bytes, report, give_back, apply_write, hash_apply,
}

module _ {Store : Type 0} where
  -- The manager with another ring of jobs.
  abbrev pub with_ring : PieceMgr Store → List PieceHashJob → ℕ → ℕ → ℕ → PieceMgr Store
  with_ring pm jobs head count hashed = record pm {
    hash_q = jobs;
    hash_q_head = head;
    hash_q_count = count;
    hash_q_hashed = hashed;
  }

module _ {Store : Type 0} (jobs : List PieceHashJob) (head count hashed : ℕ) where
  -- The same with the ring of this section.
  abbrev other : PieceMgr Store → PieceMgr Store
  other pm = with_ring pm jobs head count hashed

  piece_buf_put-other :
      (pm : PieceMgr Store) (buf : Option Bytes)
      → piece_buf_put (other pm) buf ≡ other (piece_buf_put pm buf)
  unfolding piece_buf_put
  piece_buf_put-other pm none = refl
  piece_buf_put-other pm (some buf) =
      elim (Bool-cases (ltb (length pm.buf_pool) piece_buf_pool_max)) [
        | inl e ↦ rw e refl
        | inr e ↦ rw e refl
      ]

  rewind-other :
      (pm : PieceMgr Store) (idx : ℕ)
      → order_cursor_rewind (other pm) idx ≡ other (order_cursor_rewind pm idx)
  unfolding order_cursor_rewind
  rewind-other pm idx =
      elim (Bool-cases
        (not (order_position pm idx == no_index) && ltb (order_position pm idx) pm.order_cursor)) [
          | inl e ↦ rw e refl
          | inr e ↦ rw e refl
        ]

  forget_done-other :
      (pm : PieceMgr Store) (idx : ℕ) → forget_done (other pm) idx ≡ other (forget_done pm idx)
  unfolding forget_done piece_len
  forget_done-other pm idx =
      elim (Bool-cases (is_done (slot pm idx).state && not (pm.num_done == 0))) [
        | inl e ↦ rw e refl
        | inr e ↦ rw e refl
      ]

  reset_piece-other :
      (pm : PieceMgr Store) (idx : ℕ) → reset_piece (other pm) idx ≡ other (reset_piece pm idx)
  unfolding reset_piece
  reset_piece-other pm idx =
      ap (λ (x : PieceMgr Store). order_cursor_rewind (set_slot x idx (cleared (slot pm idx))) idx)
        (forget_done-other pm idx)
      ∙ rewind-other (set_slot (forget_done pm idx) idx (cleared (slot pm idx))) idx

  mark_piece_done-other :
      (ops : PieceOps Store) (pm : PieceMgr Store) (idx plen : ℕ)
      → mark_piece_done ops (other pm) idx plen ≡ other (mark_piece_done ops pm idx plen)
  unfolding mark_piece_done order_cursor_advance
  mark_piece_done-other ops pm idx plen = refl

  give_back-other :
      (pm : PieceMgr Store) (job : PieceHashJob)
      → give_back (other pm) job ≡ other (give_back pm job)
  unfolding give_back
  give_back-other pm job =
      reset_piece-other (set_slot pm job.idx (record (slot pm job.idx) { buf = job.buf })) job.idx

  apply_write-other :
      (ops : PieceOps Store) (pm : PieceMgr Store) (job : PieceHashJob)
      → apply_write ops (other pm) job ≡ other (apply_write ops pm job)
  unfolding apply_write
  apply_write-other ops pm job =
      let w = ops.storage_write pm.store (abs_off pm job.idx) (take job.plen (buf_bytes job.buf)) in
      let pm' : PieceMgr Store = record pm { store = w.0 } in
      elim (Bool-cases w.1) [
        | inl e ↦ rw e (
            ap (λ (x : PieceMgr Store). report (piece_buf_put x job.buf) job.idx (some 2))
              (mark_piece_done-other ops pm' job.idx job.plen)
            ∙ ap (λ (x : PieceMgr Store). report x job.idx (some 2))
                (piece_buf_put-other (mark_piece_done ops pm' job.idx job.plen) job.buf))
        | inr e ↦
            rw e (ap (λ (x : PieceMgr Store). report x job.idx none) (give_back-other pm' job))
      ]

  verdict_split :
      (ops : PieceOps Store) (pm : PieceMgr Store) (job : PieceHashJob) (ok : Bool)
      → (if not ok
          then report (give_back (other pm) job) job.idx (some 0)
          else apply_write ops (other pm) job)
        ≡ other
            (if not ok then report (give_back pm job) job.idx (some 0) else apply_write ops pm job)
  verdict_split ops pm job false =
      ap (λ (x : PieceMgr Store). report x job.idx (some 0)) (give_back-other pm job)
  verdict_split ops pm job true = apply_write-other ops pm job

  -- A result is applied to the manager with another ring as to the manager itself.
  pub hash_apply-with_ring :
      (ops : PieceOps Store) (pm : PieceMgr Store) (job : PieceHashJob)
      → hash_apply ops (with_ring pm jobs head count hashed) job
        ≡ with_ring (hash_apply ops pm job) jobs head count hashed
  unfolding hash_apply
  hash_apply-with_ring ops pm job = elim (Bool-cases (is_hashing (slot pm job.idx).state)) [
    | inr e ↦ rw e (piece_buf_put-other pm job.buf)
    | inl e ↦ rw e (verdict_split ops pm job job.ok)
  ]
