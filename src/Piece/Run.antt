-- ===== src/Piece/Run.antt =====
-- The calls that change the manager, as the torrent loop and the worker interleave them.
use pipensx_video_downloader.Prelude.{ℕ, Bool, List, [], ◌∷◌, Option, Bytes}
use pipensx_video_downloader.Piece.State.{PieceMgr, PieceOps, System}
use pipensx_video_downloader.Piece.HashQueue.{
  hash_worker, piece_mgr_drain_hash_results, piece_mgr_hash_flush,
}
use pipensx_video_downloader.Piece.Blocks.{
  piece_mgr_got_block, piece_mgr_mark_pending, piece_mgr_clear_all_block_requests,
  piece_mgr_mark_block_requested, piece_mgr_clear_block_requested,
}
use pipensx_video_downloader.Piece.Verify.{
  piece_mgr_verify_piece, piece_mgr_check_existing, piece_mgr_preset_have, piece_mgr_verify_all,
}
use pipensx_video_downloader.Piece.Pick.{piece_mgr_set_strict_policy}
use pipensx_video_downloader.Piece.KeepHash.{
  IsSound, hash_worker-IsSound, piece_mgr_drain_hash_results-IsSound, piece_mgr_hash_flush-IsSound,
}
use pipensx_video_downloader.Piece.GotBlock.{
  piece_mgr_got_block-IsSound, piece_mgr_mark_pending-IsSound,
  piece_mgr_clear_all_block_requests-IsSound, piece_mgr_mark_block_requested-IsSound,
  piece_mgr_clear_block_requested-IsSound,
}
use pipensx_video_downloader.Piece.KeepCheck.{
  piece_mgr_verify_piece-Checked, piece_mgr_check_existing-IsSound, piece_mgr_preset_have-IsSound,
  piece_mgr_verify_all-IsSound,
}

-- A call of the manager's interface with its arguments, or a round of the worker.
pub data Call : Type 0 where
  worker drain_results hash_flush verify_all : Call
  got_block : ℕ → ℕ → Option Bytes → Call
  mark_pending verify_piece check_existing : ℕ → Call
  mark_block_requested clear_block_requested clear_all_block_requests : ℕ → ℕ → Call
  preset_have : Bytes → Call
  set_strict_policy : ℕ → Bool → Call

module _ {Store : Type 0} (sys : System) (ops : PieceOps Store) where
  unfoldable pub call : PieceMgr Store → Call → PieceMgr Store
  call pm worker = hash_worker ops pm
  call pm drain_results = piece_mgr_drain_hash_results ops pm
  call pm hash_flush = piece_mgr_hash_flush ops pm
  call pm verify_all = (piece_mgr_verify_all sys ops pm).0
  call pm (got_block idx offset bs) = (piece_mgr_got_block sys ops pm idx offset bs).0
  call pm (mark_pending idx) = piece_mgr_mark_pending sys pm idx
  call pm (verify_piece idx) = (piece_mgr_verify_piece sys ops pm idx).0
  call pm (check_existing idx) = (piece_mgr_check_existing sys ops pm idx).0
  call pm (mark_block_requested idx block) = piece_mgr_mark_block_requested pm idx block
  call pm (clear_block_requested idx block) = piece_mgr_clear_block_requested pm idx block
  call pm (clear_all_block_requests idx block) = piece_mgr_clear_all_block_requests pm idx block
  call pm (preset_have bf) = piece_mgr_preset_have ops pm bf
  call pm (set_strict_policy lookahead fill_pending_first) =
      piece_mgr_set_strict_policy pm lookahead fill_pending_first

  unfoldable pub run : PieceMgr Store → List Call → PieceMgr Store
  run pm [] = pm
  run pm (c ∷ cs) = run (call pm c) cs

  set_strict_policy-IsSound :
      (pm : PieceMgr Store) (lookahead : ℕ) (fill_pending_first : Bool)
      → IsSound pm
      → IsSound (piece_mgr_set_strict_policy pm lookahead fill_pending_first)
  unfolding piece_mgr_set_strict_policy
  set_strict_policy-IsSound pm lookahead fill_pending_first s = record {
    valid = s.valid;
    queue = s.queue;
  }

  call-IsSound : (pm : PieceMgr Store) (c : Call) → IsSound pm → IsSound (call pm c)
  unfolding call
  call-IsSound pm worker s = hash_worker-IsSound ops pm s
  call-IsSound pm drain_results s = piece_mgr_drain_hash_results-IsSound ops pm s
  call-IsSound pm hash_flush s = piece_mgr_hash_flush-IsSound ops pm s
  call-IsSound pm verify_all s = piece_mgr_verify_all-IsSound sys ops pm s
  call-IsSound pm (got_block idx offset bs) s =
      piece_mgr_got_block-IsSound sys ops pm idx offset bs s
  call-IsSound pm (mark_pending idx) s = piece_mgr_mark_pending-IsSound sys pm idx s
  call-IsSound pm (verify_piece idx) s = (piece_mgr_verify_piece-Checked sys ops pm idx s).0
  call-IsSound pm (check_existing idx) s = piece_mgr_check_existing-IsSound sys ops pm idx s
  call-IsSound pm (mark_block_requested idx block) s =
      piece_mgr_mark_block_requested-IsSound pm idx block s
  call-IsSound pm (clear_block_requested idx block) s =
      piece_mgr_clear_block_requested-IsSound pm idx block s
  call-IsSound pm (clear_all_block_requests idx block) s =
      piece_mgr_clear_all_block_requests-IsSound pm idx block s
  call-IsSound pm (preset_have bf) s = piece_mgr_preset_have-IsSound ops pm bf s
  call-IsSound pm (set_strict_policy lookahead fill_pending_first) s =
      set_strict_policy-IsSound pm lookahead fill_pending_first s

  -- From a sound manager every sequence of calls of the piece manager and of worker rounds leads
  -- to a sound one: bitfields, counters, slots, order cursor and job ring agree.
  pub run-IsSound : (pm : PieceMgr Store) (cs : List Call) → IsSound pm → IsSound (run pm cs)
  unfolding run
  run-IsSound pm [] s = s
  run-IsSound pm (c ∷ cs) s = run-IsSound (call pm c) cs (call-IsSound pm c s)
