-- ===== src/Piece/Enqueue.antt =====
-- What the hash queue leaves alone: other slots, and the ring behind an applied job. With that,
-- `hash_enqueue` keeps the manager sound.
use pipensx_video_downloader.Prelude.{
  ℕ, zero, suc, ◌<◌, ◌≡◌, ◌≢◌, refl, sym, ap, ◌∙◌, true, false, not, ◌&&◌, inl, inr, ltb, ◌==◌,
  Bool-cases, take, set, arith,
}
use native.Mathlib.Decide.{ℕ_discrete}
use pipensx_video_downloader.Piece.State.{
  PieceMgr, PieceHashJob, PieceOps, System, slot, set_slot, slot_at, is_done, piece_len, abs_off,
  piece_hash_queue_max, reset_piece, cleared, order_cursor_rewind, order_cursor_advance,
  order_position, no_index, forget_done, mark_piece_done,
}
use pipensx_video_downloader.Piece.HashQueue.{
  head_job, is_hashing, buf_bytes, hash_worker, give_back, apply_write, hash_apply, pop_head,
  wait_head, start_worker, make_room, push_job,
}
use pipensx_video_downloader.Piece.Totals.{slot_at-set_ne}
use pipensx_video_downloader.Piece.Valid.{ledger, set_slot-Valid}
use pipensx_video_downloader.Piece.Keep.{
  Ring, ring, piece_buf_put-ring, piece_buf_put-ledger, reset_piece-ring, mark_piece_done-ring,
}
use pipensx_video_downloader.Piece.Ring.{push_job-QueueFits}
use pipensx_video_downloader.Piece.KeepHash.{IsSound, wait_head-IsSound, apply_head-IsSound}

module _ {Store : Type 0} where
  rewind-slots : (pm : PieceMgr Store) (idx : ℕ) → (order_cursor_rewind pm idx).slots ≡ pm.slots
  unfolding order_cursor_rewind
  rewind-slots pm idx =
      elim (Bool-cases
        (not (order_position pm idx == no_index) && ltb (order_position pm idx) pm.order_cursor)) [
          | inl e ↦ rw e
          | inr e ↦ rw e
        ]

  forget_done-slots : (pm : PieceMgr Store) (idx : ℕ) → (forget_done pm idx).slots ≡ pm.slots
  unfolding forget_done
  forget_done-slots pm idx =
      elim (Bool-cases (is_done (slot pm idx).state && not (pm.num_done == 0))) [
        | inl e ↦ rw e
        | inr e ↦ rw e
      ]

  pub reset_piece-slots :
      (pm : PieceMgr Store) (idx : ℕ)
      → (reset_piece pm idx).slots ≡ set pm.slots idx (cleared (slot pm idx))
  unfolding reset_piece
  reset_piece-slots pm idx = rewind-slots _ idx ∙ rw (forget_done-slots pm idx)

  give_back-slot :
      (pm : PieceMgr Store) (job : PieceHashJob) (i : ℕ)
      → job.idx ≢ i
      → slot (give_back pm job) i ≡ slot pm i
  unfolding give_back
  give_back-slot pm job i ne =
      rw
        (reset_piece-slots (set_slot pm job.idx (record (slot pm job.idx) { buf = job.buf }))
          job.idx)
        (slot_at-set_ne _ job.idx i _ ne ∙ slot_at-set_ne pm.slots job.idx i _ ne)

  mark_piece_done-slot :
      (ops : PieceOps Store) (pm : PieceMgr Store) (idx plen i : ℕ)
      → idx ≢ i
      → slot (mark_piece_done ops pm idx plen) i ≡ slot pm i
  unfolding mark_piece_done order_cursor_advance
  mark_piece_done-slot ops pm idx plen i ne = slot_at-set_ne pm.slots idx i _ ne

  apply_write-slot :
      (ops : PieceOps Store) (pm : PieceMgr Store) (job : PieceHashJob) (i : ℕ)
      → job.idx ≢ i
      → slot (apply_write ops pm job) i ≡ slot pm i
  unfolding apply_write
  apply_write-slot ops pm job i ne =
      let w = ops.storage_write pm.store (abs_off pm job.idx) (take job.plen (buf_bytes job.buf)) in
      let pm' : PieceMgr Store = record pm { store = w.0 } in
      elim (Bool-cases w.1) [
        | inl e ↦ rw e (
            ap (λ l. slot_at l.slots i)
              (piece_buf_put-ledger (mark_piece_done ops pm' job.idx job.plen) job.buf)
            ∙ mark_piece_done-slot ops pm' job.idx job.plen i ne)
        | inr e ↦ rw e (give_back-slot pm' job i ne)
      ]

  -- Applying a hash result leaves every slot alone that does not wait for one.
  pub hash_apply-slot :
      (ops : PieceOps Store) (pm : PieceMgr Store) (job : PieceHashJob) (i : ℕ)
      → is_hashing (slot pm i).state ≡ false
      → slot (hash_apply ops pm job) i ≡ slot pm i
  unfolding hash_apply apply_write give_back
  hash_apply-slot ops pm job i h = elim (Bool-cases (is_hashing (slot pm job.idx).state)) [
    | inr e ↦ rw e (ap (λ l. slot_at l.slots i) (piece_buf_put-ledger pm job.buf))
    | inl e ↦
        let ne : job.idx ≢ i =
          λ x. ground (arith, ap (λ (k : ℕ). is_hashing (slot pm k).state) x) in
        elim (Bool-cases job.ok) [
          | inr f ↦ rw (e, f) (give_back-slot pm job i ne)
          | inl f ↦ rw (e, f) (apply_write-slot ops pm job i ne)
        ]
  ]

  apply_write-ring :
      (ops : PieceOps Store) (pm : PieceMgr Store) (job : PieceHashJob)
      → ring (apply_write ops pm job) ≡ ring pm
  unfolding apply_write give_back
  apply_write-ring ops pm job =
      let w = ops.storage_write pm.store (abs_off pm job.idx) (take job.plen (buf_bytes job.buf)) in
      let pm' : PieceMgr Store = record pm { store = w.0 } in
      elim (Bool-cases w.1) [
        | inl e ↦ rw e (
            piece_buf_put-ring (mark_piece_done ops pm' job.idx job.plen) job.buf
            ∙ mark_piece_done-ring ops pm' job.idx job.plen)
        | inr e ↦ rw e (
            reset_piece-ring (set_slot pm' job.idx (record (slot pm' job.idx) { buf = job.buf }))
              job.idx)
      ]

  -- Applying a result leaves the ring alone.
  pub hash_apply-ring :
      (ops : PieceOps Store) (pm : PieceMgr Store) (job : PieceHashJob)
      → ring (hash_apply ops pm job) ≡ ring pm
  unfolding hash_apply apply_write give_back
  hash_apply-ring ops pm job = elim (Bool-cases (is_hashing (slot pm job.idx).state)) [
    | inr e ↦ rw e (piece_buf_put-ring pm job.buf)
    | inl e ↦ elim (Bool-cases job.ok) [
      | inr f ↦
          rw (e, f)
            (reset_piece-ring (set_slot pm job.idx (record (slot pm job.idx) { buf = job.buf }))
              job.idx)
      | inl f ↦ rw (e, f) (apply_write-ring ops pm job)
    ]
  ]

  -- The worker changes jobs only.
  hash_worker-count :
      (ops : PieceOps Store) (pm : PieceMgr Store)
      → (hash_worker ops pm).hash_q_count ≡ pm.hash_q_count
  unfolding hash_worker
  hash_worker-count ops pm = elim (Bool-cases (pm.hash_q_hashed == pm.hash_q_count)) [
    | inl e ↦ rw e
    | inr e ↦ rw e
  ]

  hash_worker-ledger :
      (ops : PieceOps Store) (pm : PieceMgr Store) → ledger (hash_worker ops pm) ≡ ledger pm
  unfolding hash_worker
  hash_worker-ledger ops pm = elim (Bool-cases (pm.hash_q_hashed == pm.hash_q_count)) [
    | inl e ↦ rw e
    | inr e ↦ rw e
  ]

  wait_head-count :
      (ops : PieceOps Store) (n : ℕ) (pm : PieceMgr Store)
      → (wait_head ops n pm).hash_q_count ≡ pm.hash_q_count
  unfolding wait_head
  wait_head-count ops zero pm = refl
  wait_head-count ops (suc n) pm = elim (Bool-cases (head_job pm).done) [
    | inl e ↦ rw (e, wait_head)
    | inr e ↦
        rw (e, wait_head) (wait_head-count ops n (hash_worker ops pm) ∙ hash_worker-count ops pm)
  ]

  wait_head-ledger :
      (ops : PieceOps Store) (n : ℕ) (pm : PieceMgr Store) → ledger (wait_head ops n pm) ≡ ledger pm
  unfolding wait_head
  wait_head-ledger ops zero pm = refl
  wait_head-ledger ops (suc n) pm = elim (Bool-cases (head_job pm).done) [
    | inl e ↦ rw (e, wait_head)
    | inr e ↦
        rw (e, wait_head) (wait_head-ledger ops n (hash_worker ops pm) ∙ hash_worker-ledger ops pm)
  ]

  -- What a full ring's head leaves behind.
  make_room-full :
      (ops : PieceOps Store) (pm : PieceMgr Store)
      → IsSound pm
      → pm.hash_q_count ≡ piece_hash_queue_max
      → IsSound (make_room ops pm) × ((make_room ops pm).hash_q_count < piece_hash_queue_max)
  unfolding make_room pop_head
  make_room-full ops pm s full =
      let ready = wait_head ops piece_hash_queue_max pm in
      let count = wait_head-count ops piece_hash_queue_max pm in
      let full' : (pm.hash_q_count == piece_hash_queue_max) ≡ true = ground arith in
      let sound =
        apply_head-IsSound ops ready (wait_head-IsSound ops piece_hash_queue_max pm s)
          (omega (arith, count)) in
      let left =
        ap (λ (r : Ring). r.hash_q_count) (hash_apply-ring ops (pop_head ready) (head_job ready)) in
      rw full' (sound, omega (arith, left, count))

  make_room-room :
      (ops : PieceOps Store) (pm : PieceMgr Store)
      → pm.hash_q_count ≢ piece_hash_queue_max
      → make_room ops pm ≡ pm
  unfolding make_room
  make_room-room ops pm ne = ground arith

  make_room-slot :
      (ops : PieceOps Store) (pm : PieceMgr Store) (i : ℕ)
      → is_hashing (slot pm i).state ≡ false
      → slot (make_room ops pm) i ≡ slot pm i
  unfolding make_room pop_head
  make_room-slot ops pm i h =
      let ready = wait_head ops piece_hash_queue_max pm in
      let same : slot ready i ≡ slot pm i =
        ap (λ l. slot_at l.slots i) (wait_head-ledger ops piece_hash_queue_max pm) in
      elim (Bool-cases (pm.hash_q_count == piece_hash_queue_max)) [
        | inl e ↦ rw e (hash_apply-slot ops (pop_head ready) (head_job ready) i (rw same h) ∙ same)
        | inr e ↦ rw e
      ]

  make_room-info :
      (ops : PieceOps Store) (pm : PieceMgr Store)
      → ((make_room ops pm).num_pieces ≡ pm.num_pieces) × ((make_room ops pm).mi ≡ pm.mi)
  unfolding make_room pop_head
  make_room-info ops pm =
      let ready = wait_head ops piece_hash_queue_max pm in
      let same = wait_head-ledger ops piece_hash_queue_max pm in
      let applied = hash_apply-ring ops (pop_head ready) (head_job ready) in
      elim (Bool-cases (pm.hash_q_count == piece_hash_queue_max)) [
        | inl e ↦ rw e (
          ap (λ (r : Ring). r.num_pieces) applied ∙ ap (λ l. l.num_pieces) same,
          ap (λ (r : Ring). r.mi) applied ∙ ap (λ l. l.mi) same,
        )
        | inr e ↦ rw e (refl, refl)
      ]

  make_room-IsSound :
      (ops : PieceOps Store) (pm : PieceMgr Store)
      → IsSound pm
      → IsSound (make_room ops pm) × ((make_room ops pm).hash_q_count < piece_hash_queue_max)
  make_room-IsSound ops pm s = elim (ℕ_discrete pm.hash_q_count piece_hash_queue_max) [
    | yes full ↦ make_room-full ops pm s full
    | no ne ↦ rw (make_room-room ops pm ne) (s, omega (arith, s.queue.count_le, ne))
  ]

  push_job-IsSound :
      (pm : PieceMgr Store) (idx plen : ℕ)
      → IsSound pm
      → pm.hash_q_count < piece_hash_queue_max
      → idx < pm.num_pieces
      → is_done (slot pm idx).state ≡ false
      → plen ≡ piece_len pm idx
      → IsSound (push_job pm idx plen)
  unfolding push_job piece_len
  push_job-IsSound pm idx plen s room h was e = record {
    valid = set_slot-Valid (ledger pm) idx _ s.valid h (sym was);
    queue = push_job-QueueFits (ring pm) _ s.queue room h e;
  }

  -- A completed piece goes to the worker, and all stays sound.
  pub queue_piece-IsSound :
      (ops : PieceOps Store) (pm : PieceMgr Store) (idx plen : ℕ)
      → IsSound pm
      → idx < pm.num_pieces
      → is_done (slot pm idx).state ≡ false
      → is_hashing (slot pm idx).state ≡ false
      → plen ≡ piece_len pm idx
      → IsSound (push_job (make_room ops pm) idx plen)
  unfolding piece_len
  queue_piece-IsSound ops pm idx plen s h was free e =
      let made = make_room-IsSound ops pm s in
      let info = make_room-info ops pm in
      let same = make_room-slot ops pm idx free in
      push_job-IsSound (make_room ops pm) idx plen made.0 made.1 (rw info.0 h) (rw same was)
        (rw (info.0, info.1) e)

  -- The worker's start changes neither the ledger nor the ring.
  pub start_worker-same :
      (sys : System) (pm : PieceMgr Store)
      → (ledger (start_worker sys pm).0 ≡ ledger pm) × (ring (start_worker sys pm).0 ≡ ring pm)
  unfolding start_worker
  start_worker-same sys pm = elim (Bool-cases pm.hash_started) [
    | inl e ↦ simp e (refl, refl)
    | inr e ↦ elim (Bool-cases sys.spawns) [
      | inl f ↦ simp (e, f) (refl, refl)
      | inr f ↦ simp (e, f) (refl, refl)
    ]
  ]
