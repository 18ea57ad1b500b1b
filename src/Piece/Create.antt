-- ===== src/Piece/Create.antt =====
-- core/piece.c: `piece_mgr_create_ex` and `piece_mgr_create`.
use pipensx_video_downloader.Prelude.{
  ℕ, zero, suc, ◌+◌, ◌-◌, ◌/◌, ◌%◌, Bool, false, List, [], ◌∷◌, Option, none, some, ltb,
  if◌then◌else◌, length, get_or, set, replicate,
}
use pipensx_video_downloader.Piece.State.{
  ps_empty, PieceSlot, PieceInfo, PieceMgr, no_index, u32_mod, default_lookahead, block_bitmap_size,
  block_size, piece_bytes, piece_hash_queue_max,
}
use pipensx_video_downloader.Piece.HashQueue.{no_job}

-- The loop that fills `order_pos`, with `left` positions to go from `n`.
unfoldable pub positions_from : List ℕ → ℕ → ℕ → ℕ → List ℕ → List ℕ
positions_from order num_pieces zero n pos = pos
positions_from order num_pieces (suc left) n pos =
    let p = get_or order n 0 in
    positions_from order num_pieces left (n + 1) (if ltb p num_pieces then set pos p n else pos)

unfoldable pub order_pos_of : List ℕ → ℕ → Option (List ℕ)
order_pos_of [] num_pieces = none
order_pos_of (p ∷ ps) num_pieces =
    some (positions_from (p ∷ ps) num_pieces (length (p ∷ ps)) 0 (replicate num_pieces no_index))

-- A slot of the calloc'ed array, with its bitmap and its counters.
unfoldable pub fresh_slot : PieceInfo → ℕ → ℕ → PieceSlot
fresh_slot mi num_pieces i =
    let num_blocks = (piece_bytes mi num_pieces i + block_size - 1) / block_size % u32_mod in
    record {
      state = ps_empty;
      buf = none;
      have_blocks = replicate (block_bitmap_size num_blocks) 0;
      request_counts = replicate num_blocks 0;
      num_blocks = num_blocks;
      num_blocks_done = 0;
    }

-- The loop over the slots, with `left` to go from `i`.
unfoldable pub fresh_slots : PieceInfo → ℕ → ℕ → ℕ → List PieceSlot
fresh_slots mi num_pieces zero i = []
fresh_slots mi num_pieces (suc left) i =
    fresh_slot mi num_pieces i ∷ fresh_slots mi num_pieces left (i + 1)

module _ {Store : Type 0} where
  -- The manager, where every allocation succeeds; `hash_ok` says that the primitives of the worker could be set up.
  unfoldable pub fresh : PieceInfo → ℕ → Bool → Store → Bool → Bool → List ℕ → PieceMgr Store
  fresh mi num_pieces has_store store hash_ok strict_order order = record {
    mi = mi;
    has_store = has_store;
    store = store;
    slots = fresh_slots mi num_pieces num_pieces 0;
    num_done = 0;
    num_pieces = num_pieces;
    completed_bytes = 0;
    have_bf = replicate ((num_pieces + 7) % u32_mod / 8) 0;
    available_bf = replicate ((num_pieces + 7) % u32_mod / 8) 0;
    strict_order = strict_order;
    strict_order_lookahead = default_lookahead;
    strict_fill_pending_first = false;
    piece_order = order;
    has_verify_buf = false;
    buf_pool = [];
    order_cursor = 0;
    order_pos = order_pos_of order num_pieces;
    request_allowed = none;
    hash_q = replicate piece_hash_queue_max no_job;
    hash_q_head = 0;
    hash_q_count = 0;
    hash_q_hashed = 0;
    hash_ok = hash_ok;
    hash_started = false;
    allocs = 0;
    reports = [];
  }

  -- None where an allocation fails: all that was allocated is freed, and NULL returned.
  unfoldable pub piece_mgr_create_ex :
      Bool → PieceInfo → ℕ → Bool → Store → Bool → Bool → List ℕ → Option (PieceMgr Store)
  piece_mgr_create_ex allocated mi num_pieces has_store store hash_ok strict_order order =
      if allocated
      then some (fresh mi num_pieces has_store store hash_ok strict_order order)
      else none
