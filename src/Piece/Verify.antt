-- ===== src/Piece/Verify.antt =====
-- core/piece.c: pieces are checked against the disk: `verify_scratch` to `piece_mgr_verify_all`.
use pipensx_video_downloader.Prelude.{
  ℕ, zero, suc, ◌+◌, ◌/◌, ◌%◌, Bool, true, false, not, ◌&&◌, ◌||◌, Option, none, some, Bytes, leb,
  ◌==◌, if◌then◌else◌, length,
}
use pipensx_video_downloader.Piece.Bitfield.{bf_has}
use pipensx_video_downloader.Piece.State.{
  PieceOps, System, PieceMgr, slot, abs_off, is_done, u32_mod, piece_len, reset_piece,
  mark_done_unhashed,
}
use pipensx_video_downloader.Piece.HashQueue.{hash_matches, piece_mgr_hash_flush}

abbrev is_some : Option Bytes → Bool
is_some none = false
is_some (some _) = true

module _ {Store : Type 0} where
  -- Whether there is a buffer behind the call.
  unfoldable pub verify_scratch : System → PieceMgr Store → PieceMgr Store × Bool
  verify_scratch sys pm =
      let got = is_some (sys.malloc pm.allocs) in
      if pm.has_verify_buf
      then (pm, true)
      else (record pm { allocs = pm.allocs + 1; has_verify_buf = got }, got)

  -- `storage_read(…) == plen`, and the digest is the piece's.
  unfoldable pub disk_matches : PieceOps Store → PieceMgr Store → ℕ → Bool
  disk_matches ops pm idx = elim (ops.storage_read pm.store (abs_off pm idx) (piece_len pm idx)) [
    | none ↦ false
    | some buf ↦ hash_matches ops pm idx buf (piece_len pm idx)
  ]

  unfoldable pub piece_mgr_verify_piece :
      System → PieceOps Store → PieceMgr Store → ℕ → PieceMgr Store × Bool
  piece_mgr_verify_piece sys ops pm idx =
      let scratch = verify_scratch sys pm in
      if leb pm.num_pieces idx || not (is_done (slot pm idx).state)
      then (pm, false)
      else if not (ops.storage_range_readable pm.store (abs_off pm idx) (piece_len pm idx))
      then (pm, true)
      else if not scratch.1
      then (scratch.0, false)
      else if disk_matches ops scratch.0 idx
      then (scratch.0, true)
      else (reset_piece scratch.0 idx, false)

  -- `if (sl->state != PS_DONE) mark_done_unhashed(pm, idx, readable);`
  unfoldable pub found_done : PieceMgr Store → ℕ → Bool → PieceMgr Store
  found_done pm idx readable =
      if is_done (slot pm idx).state then pm else mark_done_unhashed pm idx readable

  -- None for -1.
  unfoldable pub piece_mgr_check_existing :
      System → PieceOps Store → PieceMgr Store → ℕ → PieceMgr Store × Option Bool
  piece_mgr_check_existing sys ops pm idx =
      let scratch = verify_scratch sys pm in
      if leb pm.num_pieces idx
      then (pm, none)
      else if ops.storage_range_skipped pm.store (abs_off pm idx) (piece_len pm idx)
      then (found_done pm idx false, some true)
      else if not scratch.1
      then (scratch.0, some false)
      else if disk_matches ops scratch.0 idx
      then (found_done scratch.0 idx true, some true)
      else (reset_piece scratch.0 idx, some false)

  -- One round of `piece_mgr_preset_have`.
  unfoldable pub preset_piece : PieceOps Store → Bytes → PieceMgr Store → ℕ → PieceMgr Store
  preset_piece ops bf pm idx =
      if not (bf_has bf idx) || is_done (slot pm idx).state
      then pm
      else if ops.storage_range_skipped pm.store (abs_off pm idx) (piece_len pm idx)
      then mark_done_unhashed pm idx false
      else if ops.storage_range_readable pm.store (abs_off pm idx) (piece_len pm idx)
      then mark_done_unhashed pm idx true
      else pm

  -- The loop, with `left` pieces to go from `idx`.
  unfoldable pub preset_from : PieceOps Store → Bytes → ℕ → ℕ → PieceMgr Store → PieceMgr Store
  preset_from ops bf zero idx pm = pm
  preset_from ops bf (suc left) idx pm =
      preset_from ops bf left (idx + 1) (preset_piece ops bf pm idx)

  unfoldable pub piece_mgr_preset_have : PieceOps Store → PieceMgr Store → Bytes → PieceMgr Store
  piece_mgr_preset_have ops pm bf =
      if length bf == (pm.num_pieces + 7) % u32_mod / 8
      then preset_from ops bf pm.num_pieces 0 pm
      else pm

  unfoldable pub verify_from :
      System → PieceOps Store → ℕ → ℕ → PieceMgr Store → Bool → PieceMgr Store × Bool
  verify_from sys ops zero idx pm all_valid = (pm, all_valid)
  verify_from sys ops (suc left) idx pm all_valid =
      let checked = piece_mgr_verify_piece sys ops pm idx in
      verify_from sys ops left (idx + 1) checked.0 (checked.1 && all_valid)

  unfoldable pub piece_mgr_verify_all :
      System → PieceOps Store → PieceMgr Store → PieceMgr Store × Bool
  piece_mgr_verify_all sys ops pm =
      let flushed = piece_mgr_hash_flush ops pm in
      let checked = verify_from sys ops pm.num_pieces 0 flushed true in
      if ops.storage_flush flushed.store
      then (checked.0, checked.1 && checked.0.num_done == checked.0.num_pieces)
      else (flushed, false)
