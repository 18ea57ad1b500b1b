-- ===== src/Piece/Blocks.antt =====
-- core/piece.c: blocks arrive and are requested.
use pipensx_video_downloader.Prelude.{
  memcpy, ℕ, ◌+◌, ◌-◌, ◌/◌, ◌%◌, Bool, true, false, not, ◌||◌, Option, none, some, Bytes, leb, ◌==◌,
  if◌then◌else◌, length, take, get_or, set,
}
use pipensx_video_downloader.Piece.State.{
  PieceState, ps_empty, ps_pending, ps_done, ps_hashing, PieceSlot, PieceOps, System, PieceMgr,
  slot, set_slot, abs_off, u32_mod, block_size, block_is_set, block_set, piece_len, piece_buf_get,
  piece_buf_put, reset_piece, mark_piece_done,
}
use pipensx_video_downloader.Piece.HashQueue.{buf_bytes, hash_matches, hash_enqueue}

abbrev pub settled : PieceState → Bool
settled ps_done = true
settled ps_hashing = true
settled _ = false

abbrev pub is_empty : PieceState → Bool
is_empty ps_empty = true
is_empty _ = false

-- The bytes go into the buffer, and the block counts once.
unfoldable pub store_block : PieceSlot → ℕ → Bytes → PieceSlot
store_block sl offset bs =
    let filled = record sl {
      state = ps_pending;
      buf = some (memcpy (buf_bytes sl.buf) offset bs);
    } in
    if block_is_set sl (offset / block_size)
    then filled
    else record (block_set filled (offset / block_size)) {
      num_blocks_done = (sl.num_blocks_done + 1) % u32_mod;
    }

abbrev pub is_none : Option Bytes → Bool
is_none none = true
is_none (some _) = false

module _ {Store : Type 0} where
  -- `if (!sl->buf) sl->buf = piece_buf_get(pm);`
  unfoldable pub ensure_buf : System → PieceMgr Store → ℕ → PieceMgr Store
  ensure_buf sys pm idx =
      let got = piece_buf_get sys pm in
      elim (slot pm idx).buf [
        | some _ ↦ pm
        | none ↦ set_slot got.0 idx (record (slot pm idx) { buf = got.1 })
      ]

  unfoldable pub piece_mgr_mark_pending : System → PieceMgr Store → ℕ → PieceMgr Store
  piece_mgr_mark_pending sys pm idx =
      let sl = slot pm idx in
      if leb pm.num_pieces idx || settled sl.state
      then pm
      else ensure_buf sys
          (set_slot pm idx
            (record sl { state = if is_empty sl.state then ps_pending else sl.state }))
          idx

  -- The guard `!sl->request_counts || block >= sl->num_blocks`, with that of the index.
  abbrev pub no_block : PieceMgr Store → ℕ → ℕ → Bool
  no_block pm idx block = leb pm.num_pieces idx || leb (slot pm idx).num_blocks block

  abbrev pub set_requests : PieceMgr Store → ℕ → ℕ → ℕ → PieceMgr Store
  set_requests pm idx block n =
      set_slot pm idx
        (record (slot pm idx) { request_counts = set (slot pm idx).request_counts block n })

  unfoldable pub piece_mgr_block_request_count : PieceMgr Store → ℕ → ℕ → ℕ
  piece_mgr_block_request_count pm idx block =
      if no_block pm idx block then 0 else get_or (slot pm idx).request_counts block 0

  unfoldable pub piece_mgr_block_requested : PieceMgr Store → ℕ → ℕ → Bool
  piece_mgr_block_requested pm idx block = not (piece_mgr_block_request_count pm idx block == 0)

  unfoldable pub piece_mgr_mark_block_requested : PieceMgr Store → ℕ → ℕ → PieceMgr Store
  piece_mgr_mark_block_requested pm idx block =
      let n = get_or (slot pm idx).request_counts block 0 in
      if no_block pm idx block || n == 255 then pm else set_requests pm idx block (n + 1)

  unfoldable pub piece_mgr_clear_block_requested : PieceMgr Store → ℕ → ℕ → PieceMgr Store
  piece_mgr_clear_block_requested pm idx block =
      let n = get_or (slot pm idx).request_counts block 0 in
      if no_block pm idx block || n == 0 then pm else set_requests pm idx block (n - 1)

  unfoldable pub piece_mgr_clear_all_block_requests : PieceMgr Store → ℕ → ℕ → PieceMgr Store
  piece_mgr_clear_all_block_requests pm idx block =
      if no_block pm idx block then pm else set_requests pm idx block 0

  unfoldable pub piece_mgr_has_block : PieceMgr Store → ℕ → ℕ → Bool
  piece_mgr_has_block pm idx block =
      if leb pm.num_pieces idx then false else block_is_set (slot pm idx) block

  -- Whether the block is refused: a wrong offset, or not the length that the block must have.
  unfoldable pub refuses_block : PieceMgr Store → ℕ → ℕ → ℕ → Bool
  refuses_block pm idx offset len =
      let plen = piece_len pm idx in
      let expected_len =
        if leb (offset + block_size) plen then block_size else (plen - offset) % u32_mod in
      not (offset % block_size == 0)
      || leb plen offset
      || leb (slot pm idx).num_blocks (offset / block_size)
      || not (len == expected_len)

  -- Verification on the spot, where there is no worker.
  unfoldable pub verify_inline : PieceOps Store → PieceMgr Store → ℕ → ℕ → PieceMgr Store × Option ℕ
  verify_inline ops pm idx plen =
      let buf = buf_bytes (slot pm idx).buf in
      let w = ops.storage_write pm.store (abs_off pm idx) (take plen buf) in
      let pm' = record pm { store = w.0 } in
      let marked = mark_piece_done ops pm' idx (plen % u32_mod) in
      let released = piece_buf_put marked (slot marked idx).buf in
      if not (hash_matches ops pm idx buf plen)
      then (reset_piece pm idx, some 0)
      else if not w.1
      then (reset_piece pm' idx, none)
      else (set_slot released idx (record (slot released idx) { buf = none }), some 2)

  -- The last block of a piece: to the worker, or verified here.
  unfoldable pub complete_piece :
      System → PieceOps Store → PieceMgr Store → ℕ → ℕ → PieceMgr Store × Option ℕ
  complete_piece sys ops pm idx plen =
      let queued = hash_enqueue sys ops pm idx (plen % u32_mod) in
      if queued.1 then (queued.0, some 1) else verify_inline ops queued.0 idx plen

  -- An accepted block, the slot's buffer being there.
  unfoldable pub accept_block :
      System → PieceOps Store → PieceMgr Store → ℕ → ℕ → Bytes → PieceMgr Store × Option ℕ
  accept_block sys ops pm idx offset bs =
      let filled = set_slot pm idx (store_block (slot pm idx) offset bs) in
      let pm' = piece_mgr_clear_all_block_requests filled idx (offset / block_size) in
      if not ((slot pm' idx).num_blocks_done == (slot pm' idx).num_blocks)
      then (pm', some 1)
      else complete_piece sys ops pm' idx (piece_len pm' idx)

  -- The state behind the call and its result, none for -1. The data is none where it is NULL.
  unfoldable pub piece_mgr_got_block :
      System → PieceOps Store → PieceMgr Store → ℕ → ℕ → Option Bytes → PieceMgr Store × Option ℕ
  piece_mgr_got_block sys ops pm idx offset none = (pm, none)
  piece_mgr_got_block sys ops pm idx offset (some bs) =
      let pm' = ensure_buf sys pm idx in
      if leb pm.num_pieces idx
      then (pm, none)
      else if settled (slot pm idx).state
      then (pm, some 1)
      else if refuses_block pm idx offset (length bs)
      then (pm, none)
      else if is_none (slot pm' idx).buf
      then (pm', none)
      else accept_block sys ops pm' idx offset bs
