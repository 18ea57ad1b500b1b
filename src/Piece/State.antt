-- ===== src/Piece/State.antt =====
-- core/piece.c: the manager's data, and what happens to one piece: `piece_len` to `mark_piece_done`,
-- with `mark_done_unhashed` and the order cursor.
use pipensx_video_downloader.Prelude.{
  ℕ, zero, suc, ◌+◌, ◌-◌, ◌*◌, ◌/◌, ◌%◌, Bool, true, false, not, ◌&&◌, List, [], ◌∷◌, Option, none,
  some, Bytes, ltb, leb, ◌==◌, if◌then◌else◌, length, take, drop, get_or, set, replicate,
}
use pipensx_video_downloader.Piece.Bitfield.{bf_set, bf_clear, bit_has, bit_set}

abbrev pub u32_mod : ℕ
u32_mod = 4294967296

abbrev pub u64_mod : ℕ
u64_mod = 18446744073709551616

-- `(uint32_t)-1`
abbrev pub no_index : ℕ
no_index = 4294967295

abbrev pub block_size : ℕ
block_size = 16384

abbrev pub piece_buf_pool_max : ℕ
piece_buf_pool_max = 4

abbrev pub piece_hash_queue_max : ℕ
piece_hash_queue_max = 2

abbrev pub default_lookahead : ℕ
default_lookahead = 32

-- `piece_state_t`
pub data PieceState : Type 0 where
  ps_empty ps_pending ps_done ps_hashing : PieceState

-- `piece_slot_t`; `buf` is none where the pointer is NULL.
pub record PieceSlot : Type 0 where
  pub state : PieceState
  pub buf : Option Bytes
  pub have_blocks : Bytes
  pub request_counts : List ℕ
  pub num_blocks : ℕ
  pub num_blocks_done : ℕ

-- `piece_hash_job_t`
pub record PieceHashJob : Type 0 where
  pub idx : ℕ
  pub buf : Option Bytes
  pub plen : ℕ
  pub done : Bool
  pub ok : Bool

-- The fields of `metainfo_t` that the manager reads.
pub record PieceInfo : Type 0 where
  pub piece_length : ℕ
  pub total_length : ℕ
  pub piece_hashes : Bytes

-- What the manager calls: the storage of platform/storage.h over a state `Store`, and SHA-1.
pub record PieceOps (Store : Type 0) : Type 0 where
  pub storage_write : Store → ℕ → Bytes → Store × Bool
  pub storage_read : Store → ℕ → ℕ → Option Bytes
  pub storage_range_readable : Store → ℕ → ℕ → Bool
  pub storage_range_skipped : Store → ℕ → ℕ → Bool
  pub storage_flush : Store → Bool
  pub sha1 : Bytes → Bytes

-- What the system answers: the content of the n-th `malloc` (none for NULL), and whether a thread
-- can be created.
pub record System : Type 0 where
  pub malloc : ℕ → Option Bytes
  pub spawns : Bool

-- `piece_mgr_t`. `has_verify_buf` says that the scratch buffer is allocated, `allocs` counts the calls of malloc, and `reports` holds the calls of
-- `hash_result_cb`, the latest first: the piece and the status, 2, 0 or -1 (none).
pub record PieceMgr (Store : Type 0) : Type 0 where
  pub mi : PieceInfo
  pub has_store : Bool
  pub store : Store
  pub slots : List PieceSlot
  pub num_done : ℕ
  pub num_pieces : ℕ
  pub completed_bytes : ℕ
  pub have_bf : Bytes
  pub available_bf : Bytes
  pub strict_order : Bool
  pub strict_order_lookahead : ℕ
  pub strict_fill_pending_first : Bool
  pub piece_order : List ℕ
  pub has_verify_buf : Bool
  pub buf_pool : List Bytes
  pub order_cursor : ℕ
  pub order_pos : Option (List ℕ)
  pub request_allowed : Option (ℕ → Bool)
  pub hash_q : List PieceHashJob
  pub hash_q_head : ℕ
  pub hash_q_count : ℕ
  pub hash_q_hashed : ℕ
  pub hash_ok : Bool
  pub hash_started : Bool
  pub allocs : ℕ
  pub reports : List (ℕ × Option ℕ)

abbrev pub no_slot : PieceSlot
no_slot = record {
  state = ps_empty;
  buf = none;
  have_blocks = [];
  request_counts = [];
  num_blocks = 0;
  num_blocks_done = 0;
}

abbrev pub slot_at : List PieceSlot → ℕ → PieceSlot
slot_at slots idx = get_or slots idx no_slot

abbrev pub is_done : PieceState → Bool
is_done ps_done = true
is_done _ = false

unfoldable pub piece_bytes : PieceInfo → ℕ → ℕ → ℕ
piece_bytes mi num_pieces idx =
    if ltb ((idx + 1) % u32_mod) num_pieces
    then mi.piece_length
    else mi.total_length - idx * mi.piece_length

-- `(num_blocks + 7u) / 8u`
unfoldable pub block_bitmap_size : ℕ → ℕ
block_bitmap_size num_blocks = (num_blocks + 7) % u32_mod / 8

-- `sl->have_blocks[block / 8] >> (block % 8) & 1u`, guarded.
unfoldable pub block_is_set : PieceSlot → ℕ → Bool
block_is_set sl block =
    if leb sl.num_blocks block
    then false
    else bit_has (get_or sl.have_blocks (block / 8) 0) (block % 8)

unfoldable pub block_set : PieceSlot → ℕ → PieceSlot
block_set sl block = record sl {
  have_blocks =
      set sl.have_blocks (block / 8) (bit_set (get_or sl.have_blocks (block / 8) 0) (block % 8));
}

-- The slot with no block and no request.
unfoldable pub cleared : PieceSlot → PieceSlot
cleared sl = record sl {
  have_blocks = replicate (block_bitmap_size sl.num_blocks) 0;
  request_counts = replicate sl.num_blocks 0;
  num_blocks_done = 0;
  state = ps_empty;
}

-- `memset(sl->have_blocks, 0xff, …)`, with all blocks counted.
unfoldable pub all_blocks : PieceSlot → PieceSlot
all_blocks sl = record sl {
  state = ps_done;
  num_blocks_done = sl.num_blocks;
  have_blocks = replicate (block_bitmap_size sl.num_blocks) 255;
}

-- `pm->piece_order_count ? pm->piece_order_count : pm->num_pieces`
unfoldable pub order_count_of : List ℕ → ℕ → ℕ
order_count_of order num_pieces = if length order == 0 then num_pieces else length order

-- `pm->piece_order_count ? pm->piece_order[n] : n`
unfoldable pub order_piece_of : List ℕ → ℕ → ℕ
order_piece_of order n = if length order == 0 then n else get_or order n 0

-- `pm->order_pos ? pm->order_pos[idx] : idx`
unfoldable pub order_position_of : Option (List ℕ) → ℕ → ℕ
order_position_of none idx = idx
order_position_of (some pos) idx = get_or pos idx no_index

-- `i < pm->num_pieces && pm->slots[i].state != PS_DONE`
abbrev pub unfinished_at : List PieceSlot → ℕ → ℕ → Bool
unfinished_at slots num_pieces i = ltb i num_pieces && not (is_done (slot_at slots i).state)

-- The loop of `order_cursor_advance`, on the positions that are left.
unfoldable pub advance_from : List PieceSlot → ℕ → List ℕ → ℕ → ℕ → ℕ
advance_from slots num_pieces order zero cursor = cursor
advance_from slots num_pieces order (suc left) cursor =
    elim (unfinished_at slots num_pieces (order_piece_of order cursor)) [
      | true ↦ cursor
      | false ↦ advance_from slots num_pieces order left (cursor + 1)
    ]

module _ {Store : Type 0} where
  -- `&pm->slots[idx]`, and a write through it.
  abbrev pub slot : PieceMgr Store → ℕ → PieceSlot
  slot pm idx = slot_at pm.slots idx

  abbrev pub set_slot : PieceMgr Store → ℕ → PieceSlot → PieceMgr Store
  set_slot pm idx sl = record pm { slots = set pm.slots idx sl }

  unfoldable pub piece_len : PieceMgr Store → ℕ → ℕ
  piece_len pm idx = piece_bytes pm.mi pm.num_pieces idx

  unfoldable pub piece_num_blocks : PieceMgr Store → ℕ → ℕ
  piece_num_blocks pm idx = (piece_len pm idx + block_size - 1) / block_size % u32_mod

  -- `(int64_t)idx * pm->mi->piece_length`
  abbrev pub abs_off : PieceMgr Store → ℕ → ℕ
  abs_off pm idx = idx * pm.mi.piece_length

  -- The 20 bytes at `pm->mi->piece_hashes + idx * 20`.
  abbrev pub expected_hash : PieceMgr Store → ℕ → Bytes
  expected_hash pm idx = take 20 (drop (idx * 20 % u32_mod) pm.mi.piece_hashes)

  abbrev pub order_count : PieceMgr Store → ℕ
  order_count pm = order_count_of pm.piece_order pm.num_pieces

  abbrev pub order_piece_at : PieceMgr Store → ℕ → ℕ
  order_piece_at pm n = order_piece_of pm.piece_order n

  unfoldable pub order_cursor_advance : PieceMgr Store → PieceMgr Store
  order_cursor_advance pm = record pm {
    order_cursor =
        advance_from pm.slots pm.num_pieces pm.piece_order (order_count pm - pm.order_cursor)
          pm.order_cursor;
  }

  abbrev pub order_position : PieceMgr Store → ℕ → ℕ
  order_position pm idx = order_position_of pm.order_pos idx

  unfoldable pub order_cursor_rewind : PieceMgr Store → ℕ → PieceMgr Store
  order_cursor_rewind pm idx =
      let pos = order_position pm idx in
      if not (pos == no_index) && ltb pos pm.order_cursor
      then record pm { order_cursor = pos }
      else pm

  unfoldable pub piece_buf_get : System → PieceMgr Store → PieceMgr Store × Option Bytes
  piece_buf_get sys pm = elim pm.buf_pool [
    | buf ∷ pool ↦ (record pm { buf_pool = pool }, some buf)
    | [] ↦ (record pm { allocs = pm.allocs + 1 }, sys.malloc pm.allocs)
  ]

  -- The pool is a stack, its top first.
  unfoldable pub piece_buf_put : PieceMgr Store → Option Bytes → PieceMgr Store
  piece_buf_put pm none = pm
  piece_buf_put pm (some buf) =
      if ltb (length pm.buf_pool) piece_buf_pool_max
      then record pm { buf_pool = buf ∷ pm.buf_pool }
      else pm

  -- The totals and bitfields of a piece that was done.
  unfoldable pub forget_done : PieceMgr Store → ℕ → PieceMgr Store
  forget_done pm idx =
      if is_done (slot pm idx).state && not (pm.num_done == 0)
      then record pm {
        num_done = pm.num_done - 1;
        completed_bytes =
            if leb (piece_len pm idx) pm.completed_bytes
            then pm.completed_bytes - piece_len pm idx
            else 0;
        have_bf = bf_clear pm.have_bf idx;
        available_bf = bf_clear pm.available_bf idx;
      }
      else pm

  unfoldable pub reset_piece : PieceMgr Store → ℕ → PieceMgr Store
  reset_piece pm idx =
      order_cursor_rewind (set_slot (forget_done pm idx) idx (cleared (slot pm idx))) idx

  -- What marking a piece done adds to bitfields and totals, `plen` bytes and `readable` given.
  abbrev add_done : PieceMgr Store → ℕ → ℕ → Bool → PieceMgr Store
  add_done pm idx plen readable = record pm {
    have_bf = bf_set pm.have_bf idx;
    available_bf = if readable then bf_set pm.available_bf idx else pm.available_bf;
    num_done = (pm.num_done + 1) % u32_mod;
    completed_bytes = (pm.completed_bytes + plen) % u64_mod;
  }

  unfoldable pub mark_piece_done : PieceOps Store → PieceMgr Store → ℕ → ℕ → PieceMgr Store
  mark_piece_done ops pm idx plen =
      let readable = ops.storage_range_readable pm.store (abs_off pm idx) plen in
      order_cursor_advance
        (add_done (set_slot pm idx (record (slot pm idx) { state = ps_done })) idx plen readable)

  unfoldable pub mark_done_unhashed : PieceMgr Store → ℕ → Bool → PieceMgr Store
  mark_done_unhashed pm idx readable =
      order_cursor_advance
        (add_done (set_slot pm idx (all_blocks (slot pm idx))) idx (piece_len pm idx) readable)
