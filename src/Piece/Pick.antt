-- ===== src/Piece/Pick.antt =====
-- core/piece.c: which piece a peer is asked for: `piece_mgr_set_strict_policy`,
-- `slot_has_requestable_block`, `piece_mgr_pick` and `piece_mgr_head_piece`.
use pipensx_video_downloader.Prelude.{
  ℕ, zero, suc, ◌+◌, ◌-◌, ◌/◌, Bool, true, false, not, ◌&&◌, ◌||◌, ◌⊎◌, inl, inr, none, some, Bytes,
  ltb, leb, ◌==◌, if◌then◌else◌, length, get_or,
}
use pipensx_video_downloader.Piece.Bitfield.{bf_has}
use pipensx_video_downloader.Piece.State.{
  PieceState, ps_empty, ps_pending, ps_done, ps_hashing, PieceSlot, PieceMgr, slot, is_done,
  no_index, default_lookahead, order_count, order_piece_at, block_is_set, unfinished_at,
}

abbrev pub is_pending : PieceState → Bool
is_pending ps_pending = true
is_pending _ = false

abbrev pub is_empty_state : PieceState → Bool
is_empty_state ps_empty = true
is_empty_state _ = false

-- The loop of `slot_has_requestable_block`, with `left` blocks to go.
unfoldable pub requestable_from : PieceSlot → ℕ → ℕ → Bool
requestable_from sl zero block = false
requestable_from sl (suc left) block =
    (not (block_is_set sl block) && get_or sl.request_counts block 0 == 0)
    || requestable_from sl left (block + 1)

unfoldable pub slot_has_requestable_block : PieceSlot → Bool
slot_has_requestable_block sl = requestable_from sl sl.num_blocks 0

-- A candidate that may have been seen already, no_index for none.
abbrev pub candidates : ℕ → ℕ → ℕ
candidates pending_candidate empty_candidate =
    if not (pending_candidate == no_index) then pending_candidate else empty_candidate

-- `i / 8 < bf_bytes && bf_has(peer_bf, i)`
abbrev pub peer_has : Bytes → ℕ → Bool
peer_has peer_bf i = ltb (i / 8) (length peer_bf) && bf_has peer_bf i

-- `state != PS_DONE && state != PS_HASHING`
abbrev pub is_open : PieceState → Bool
is_open ps_done = false
is_open ps_hashing = false
is_open _ = true

module _ {Store : Type 0} where
  unfoldable pub piece_mgr_set_strict_policy : PieceMgr Store → ℕ → Bool → PieceMgr Store
  piece_mgr_set_strict_policy pm lookahead fill_pending_first = record pm {
    strict_order_lookahead = if lookahead == 0 then default_lookahead else lookahead;
    strict_fill_pending_first = fill_pending_first;
  }

  unfoldable pub request_allowed : PieceMgr Store → ℕ → Bool
  request_allowed pm idx = elim pm.request_allowed [ none ↦ true | some allowed ↦ allowed idx ]

  -- One round of the strict loop at piece `i`: the result, or the counter and the candidates to go on with.
  unfoldable pub strict_round : PieceMgr Store → Bytes → ℕ → ℕ → ℕ × (ℕ × ℕ) → ℕ ⊎ (ℕ × (ℕ × ℕ))
  strict_round pm peer_bf lookahead i (unfinished, (pending_candidate, empty_candidate)) =
      let sl = slot pm i in
      if leb pm.num_pieces i || is_done sl.state
      then inr (unfinished, (pending_candidate, empty_candidate))
      else if not (request_allowed pm i) || leb lookahead unfinished
      then inl (candidates pending_candidate empty_candidate)
      else if not (peer_has peer_bf i)
      then inr (unfinished + 1, (pending_candidate, empty_candidate))
      else if is_pending sl.state && slot_has_requestable_block sl && pending_candidate == no_index
      then (if pm.strict_fill_pending_first
          then inl i
          else inr (unfinished + 1, (i, empty_candidate)))
      else if is_empty_state sl.state && empty_candidate == no_index
      then (if pm.strict_fill_pending_first
          then inr (unfinished + 1, (pending_candidate, i))
          else inl i)
      else inr (unfinished + 1, (pending_candidate, empty_candidate))

  -- The strict loop, with `left` positions to go from `n`.
  unfoldable pub pick_strict : PieceMgr Store → Bytes → ℕ → ℕ → ℕ → ℕ × (ℕ × ℕ) → ℕ
  pick_strict pm peer_bf lookahead zero n seen = candidates seen.1.0 seen.1.1
  pick_strict pm peer_bf lookahead (suc left) n seen =
      elim (strict_round pm peer_bf lookahead (order_piece_at pm n) seen) [
        | inl found ↦ found
        | inr seen' ↦ pick_strict pm peer_bf lookahead left (n + 1) seen'
      ]

  -- The first piece from `i` on, `left` to go, that passes the test and that the peer has and we have not.
  unfoldable pub first_wanted : PieceMgr Store → Bytes → (PieceState → Bool) → ℕ → ℕ → ℕ
  first_wanted pm peer_bf passes zero i = no_index
  first_wanted pm peer_bf passes (suc left) i =
      let rest = first_wanted pm peer_bf passes left (i + 1) in
      if request_allowed pm i
        && passes (slot pm i).state
        && not (bf_has pm.have_bf i)
        && peer_has peer_bf i
      then i
      else rest

  unfoldable pub piece_mgr_pick : PieceMgr Store → Bytes → ℕ
  piece_mgr_pick pm peer_bf =
      let lookahead =
        if pm.strict_order_lookahead == 0 then default_lookahead else pm.strict_order_lookahead in
      let fresh = first_wanted pm peer_bf is_empty_state pm.num_pieces 0 in
      if pm.strict_order
      then pick_strict pm peer_bf lookahead (order_count pm - pm.order_cursor) pm.order_cursor
          (0, (no_index, no_index))
      else if not (fresh == no_index)
      then fresh
      else first_wanted pm peer_bf is_open pm.num_pieces 0

  unfoldable pub head_from : PieceMgr Store → ℕ → ℕ → ℕ
  head_from pm zero n = no_index
  head_from pm (suc left) n =
      let i = order_piece_at pm n in
      let rest = head_from pm left (n + 1) in
      if unfinished_at pm.slots pm.num_pieces i then i else rest

  unfoldable pub piece_mgr_head_piece : PieceMgr Store → ℕ
  piece_mgr_head_piece pm = head_from pm (order_count pm - pm.order_cursor) pm.order_cursor
