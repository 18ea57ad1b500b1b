-- ===== src/Piece/GotBlock.antt =====
-- Arriving blocks and requests keep the manager sound.
use pipensx_video_downloader.Prelude.{
  ℕ, ◌+◌, ◌-◌, ◌/◌, ◌<◌, ◌≡◌, refl, sym, ap, ◌∙◌, false, ◌||◌, inl, inr, Option, none, some, Bytes,
  leb, ◌==◌, if◌then◌else◌, Bool-cases, length, get_or, arith,
}
use pipensx_video_downloader.Piece.State.{
  PieceState, ps_empty, ps_pending, ps_done, ps_hashing, PieceSlot, PieceMgr, PieceOps, System,
  slot, set_slot, is_done, block_size,
}
use pipensx_video_downloader.Piece.Blocks.{
  settled, ensure_buf, is_none, no_block, set_requests, store_block, accept_block,
  piece_mgr_got_block, refuses_block, piece_mgr_mark_pending, is_empty,
  piece_mgr_clear_all_block_requests, piece_mgr_mark_block_requested,
  piece_mgr_clear_block_requested,
}
use pipensx_video_downloader.Piece.Totals.{slot_at-set_self}
use pipensx_video_downloader.Piece.KeepHash.{IsSound, set_slot-IsSound}
use pipensx_video_downloader.Piece.KeepAll.{
  open_slot, store_block-pending, complete_piece-IsSound, ensure_buf-kept,
}

pending_open : (s : PieceState) → is_done (if is_empty s then ps_pending else s) ≡ is_done s
pending_open ps_empty = refl
pending_open ps_pending = refl
pending_open ps_done = refl
pending_open ps_hashing = refl

module _ {Store : Type 0} where
  -- Still sound, with as many pieces, and slot `idx` in the same state.
  abbrev Kept : PieceMgr Store → PieceMgr Store → ℕ → Type 0
  Kept pm' pm idx =
      IsSound pm'
      × ((pm'.num_pieces ≡ pm.num_pieces) × ((slot pm' idx).state ≡ (slot pm idx).state))

  set_requests-Kept :
      (pm : PieceMgr Store) (idx block n : ℕ)
      → IsSound pm
      → idx < pm.num_pieces
      → Kept (set_requests pm idx block n) pm idx
  set_requests-Kept pm idx block n s h = (
    set_slot-IsSound pm idx _ s h refl,
    (
      refl,
      ap (λ (sl : PieceSlot). sl.state)
          (slot_at-set_self pm.slots idx _ (omega (arith, s.valid.count))),
    ),
  )

  clear_all-Kept :
      (pm : PieceMgr Store) (idx block : ℕ)
      → IsSound pm
      → idx < pm.num_pieces
      → Kept (piece_mgr_clear_all_block_requests pm idx block) pm idx
  unfolding piece_mgr_clear_all_block_requests
  clear_all-Kept pm idx block s h = elim (Bool-cases (no_block pm idx block)) [
    | inl e ↦ rw e (s, (refl, refl))
    | inr e ↦ rw e (set_requests-Kept pm idx block 0 s h)
  ]

  accept_block-IsSound :
      (sys : System) (ops : PieceOps Store) (pm : PieceMgr Store) (idx offset : ℕ) (bs : Bytes)
      → IsSound pm
      → idx < pm.num_pieces
      → settled (slot pm idx).state ≡ false
      → IsSound (accept_block sys ops pm idx offset bs).0
  unfolding accept_block
  accept_block-IsSound sys ops pm idx offset bs s h was =
      let sl = store_block (slot pm idx) offset bs in
      let filled = set_slot pm idx sl in
      let pending = store_block-pending (slot pm idx) offset bs in
      let there =
        ap (λ (x : PieceSlot). x.state)
          (slot_at-set_self pm.slots idx sl (omega (arith, s.valid.count))) in
      let f = set_slot-IsSound pm idx sl s h (rw pending (sym (open_slot _ was).0)) in
      let pm' = piece_mgr_clear_all_block_requests filled idx (offset / block_size) in
      let kept = clear_all-Kept filled idx (offset / block_size) f h in
      let state : (slot pm' idx).state ≡ ps_pending = kept.1.1 ∙ (there ∙ pending) in
      elim (Bool-cases ((slot pm' idx).num_blocks_done == (slot pm' idx).num_blocks)) [
        | inr e ↦ rw e kept.0
        | inl e ↦ rw e (complete_piece-IsSound sys ops pm' idx kept.0 (rw kept.1.0 h) (rw state))
      ]

  -- Whatever arrives, in whatever state the piece is, the manager stays sound.
  pub piece_mgr_got_block-IsSound :
      (sys : System) (ops : PieceOps Store) (pm : PieceMgr Store) (idx offset : ℕ)
      (bs : Option Bytes)
      → IsSound pm
      → IsSound (piece_mgr_got_block sys ops pm idx offset bs).0
  unfolding piece_mgr_got_block
  piece_mgr_got_block-IsSound sys ops pm idx offset none s = s
  piece_mgr_got_block-IsSound sys ops pm idx offset (some bs) s =
      let pm' = ensure_buf sys pm idx in
      elim (Bool-cases (leb pm.num_pieces idx)) [
        | inl a ↦ rw (a, piece_mgr_got_block) s
        | inr a ↦
            let h : idx < pm.num_pieces = ground arith in
            let kept = ensure_buf-kept sys pm idx s h in
            elim (Bool-cases (settled (slot pm idx).state)) [
              | inl b ↦ rw (a, b, piece_mgr_got_block) s
              | inr b ↦ elim (Bool-cases (refuses_block pm idx offset (length bs))) [
                | inl c ↦ rw (a, b, c, piece_mgr_got_block) s
                | inr c ↦ elim (Bool-cases (is_none (slot pm' idx).buf)) [
                  | inl d ↦ rw (a, b, c, d, piece_mgr_got_block) kept.0
                  | inr d ↦
                      rw (a, b, c, d, piece_mgr_got_block)
                        (accept_block-IsSound sys ops pm' idx offset bs kept.0 (rw kept.1.0 h)
                          (rw kept.1.1 b))
                ]
              ]
            ]
      ]

  pub piece_mgr_mark_pending-IsSound :
      (sys : System) (pm : PieceMgr Store) (idx : ℕ)
      → IsSound pm
      → IsSound (piece_mgr_mark_pending sys pm idx)
  unfolding piece_mgr_mark_pending
  piece_mgr_mark_pending-IsSound sys pm idx s =
      let state = if is_empty (slot pm idx).state then ps_pending else (slot pm idx).state in
      elim (Bool-cases (leb pm.num_pieces idx || settled (slot pm idx).state)) [
        | inl a ↦ rw a s
        | inr a ↦
            let h : idx < pm.num_pieces = ground arith in
            let was : settled (slot pm idx).state ≡ false = ground arith in
            rw a
              (ensure_buf-kept sys _ idx
                (set_slot-IsSound pm idx (record (slot pm idx) { state = state }) s h
                  (pending_open (slot pm idx).state))
                h).0
      ]

  pub piece_mgr_mark_block_requested-IsSound :
      (pm : PieceMgr Store) (idx block : ℕ)
      → IsSound pm
      → IsSound (piece_mgr_mark_block_requested pm idx block)
  unfolding piece_mgr_mark_block_requested
  piece_mgr_mark_block_requested-IsSound pm idx block s =
      let n = get_or (slot pm idx).request_counts block 0 in
      elim (Bool-cases (no_block pm idx block || n == 255)) [
        | inl a ↦ rw a s
        | inr a ↦ rw a (set_requests-Kept pm idx block (n + 1) s (ground arith)).0
      ]

  pub piece_mgr_clear_block_requested-IsSound :
      (pm : PieceMgr Store) (idx block : ℕ)
      → IsSound pm
      → IsSound (piece_mgr_clear_block_requested pm idx block)
  unfolding piece_mgr_clear_block_requested
  piece_mgr_clear_block_requested-IsSound pm idx block s =
      let n = get_or (slot pm idx).request_counts block 0 in
      elim (Bool-cases (no_block pm idx block || n == 0)) [
        | inl a ↦ rw a s
        | inr a ↦ rw a (set_requests-Kept pm idx block (n - 1) s (ground arith)).0
      ]

  pub piece_mgr_clear_all_block_requests-IsSound :
      (pm : PieceMgr Store) (idx block : ℕ)
      → IsSound pm
      → IsSound (piece_mgr_clear_all_block_requests pm idx block)
  unfolding piece_mgr_clear_all_block_requests
  piece_mgr_clear_all_block_requests-IsSound pm idx block s =
      elim (Bool-cases (no_block pm idx block)) [
        | inl a ↦ rw a s
        | inr a ↦ rw a (set_requests-Kept pm idx block 0 s (ground arith)).0
      ]
