-- ===== src/Piece/Keep.antt =====
-- What marking and resetting a piece, and its buffers, keep of the manager.
use pipensx_video_downloader.Prelude.{
  ℕ, ◌<◌, ◌≡◌, refl, ◌∙◌, Bool, false, not, ◌&&◌, inl, inr, List, Option, none, some, Bytes, ltb,
  ◌==◌, Bool-cases, length,
}
use pipensx_video_downloader.Piece.State.{
  ps_done, PieceInfo, PieceMgr, PieceHashJob, PieceOps, slot, is_done, piece_len, abs_off,
  order_cursor_advance, order_cursor_rewind, order_position, no_index, forget_done, reset_piece,
  mark_piece_done, mark_done_unhashed, piece_buf_put, piece_buf_pool_max, all_blocks,
}
use pipensx_video_downloader.Piece.Valid.{
  IsValid, ledger, order_cursor_advance-IsValid, finish-Valid,
}

-- The ring of hash jobs, with what a job's fields are measured by.
pub record Ring : Type 0 where
  pub mi : PieceInfo
  pub num_pieces : ℕ
  pub hash_q : List PieceHashJob
  pub hash_q_head : ℕ
  pub hash_q_count : ℕ
  pub hash_q_hashed : ℕ

abbrev pub ring : {Store : Type 0} → PieceMgr Store → Ring
ring pm = record {
  mi = pm.mi;
  num_pieces = pm.num_pieces;
  hash_q = pm.hash_q;
  hash_q_head = pm.hash_q_head;
  hash_q_count = pm.hash_q_count;
  hash_q_hashed = pm.hash_q_hashed;
}

module _ {Store : Type 0} where
  pub piece_buf_put-ledger :
      (pm : PieceMgr Store) (buf : Option Bytes) → ledger (piece_buf_put pm buf) ≡ ledger pm
  unfolding piece_buf_put
  piece_buf_put-ledger pm none = refl
  piece_buf_put-ledger pm (some buf) =
      elim (Bool-cases (ltb (length pm.buf_pool) piece_buf_pool_max)) [
        | inl e ↦ rw e
        | inr e ↦ rw e
      ]

  pub piece_buf_put-ring :
      (pm : PieceMgr Store) (buf : Option Bytes) → ring (piece_buf_put pm buf) ≡ ring pm
  unfolding piece_buf_put
  piece_buf_put-ring pm none = refl
  piece_buf_put-ring pm (some buf) =
      elim (Bool-cases (ltb (length pm.buf_pool) piece_buf_pool_max)) [
        | inl e ↦ rw e
        | inr e ↦ rw e
      ]

  pub piece_buf_put-IsValid :
      (pm : PieceMgr Store) (buf : Option Bytes) → IsValid pm → IsValid (piece_buf_put pm buf)
  piece_buf_put-IsValid pm buf v = rw (piece_buf_put-ledger pm buf) v

  rewind-ring : (pm : PieceMgr Store) (idx : ℕ) → ring (order_cursor_rewind pm idx) ≡ ring pm
  unfolding order_cursor_rewind
  rewind-ring pm idx =
      elim (Bool-cases
        (not (order_position pm idx == no_index) && ltb (order_position pm idx) pm.order_cursor)) [
          | inl e ↦ rw e
          | inr e ↦ rw e
        ]

  forget_done-ring : (pm : PieceMgr Store) (idx : ℕ) → ring (forget_done pm idx) ≡ ring pm
  unfolding forget_done
  forget_done-ring pm idx =
      elim (Bool-cases (is_done (slot pm idx).state && not (pm.num_done == 0))) [
        | inl e ↦ rw e
        | inr e ↦ rw e
      ]

  pub reset_piece-ring : (pm : PieceMgr Store) (idx : ℕ) → ring (reset_piece pm idx) ≡ ring pm
  unfolding reset_piece
  reset_piece-ring pm idx = rewind-ring _ idx ∙ forget_done-ring pm idx

  pub mark_piece_done-ring :
      (ops : PieceOps Store) (pm : PieceMgr Store) (idx plen : ℕ)
      → ring (mark_piece_done ops pm idx plen) ≡ ring pm
  unfolding mark_piece_done order_cursor_advance
  mark_piece_done-ring ops pm idx plen = refl

  pub mark_piece_done-IsValid :
      (ops : PieceOps Store) (pm : PieceMgr Store) (idx plen : ℕ)
      → IsValid pm
      → idx < pm.num_pieces
      → is_done (slot pm idx).state ≡ false
      → plen ≡ piece_len pm idx
      → IsValid (mark_piece_done ops pm idx plen)
  unfolding mark_piece_done piece_len
  mark_piece_done-IsValid ops pm idx plen v h was e = order_cursor_advance-IsValid _ (
      finish-Valid (ledger pm) idx plen (record (slot pm idx) { state = ps_done })
        (ops.storage_range_readable pm.store (abs_off pm idx) plen) v h was refl e)

  pub mark_done_unhashed-IsValid :
      (pm : PieceMgr Store) (idx : ℕ) (readable : Bool)
      → IsValid pm
      → idx < pm.num_pieces
      → is_done (slot pm idx).state ≡ false
      → IsValid (mark_done_unhashed pm idx readable)
  unfolding mark_done_unhashed piece_len all_blocks
  mark_done_unhashed-IsValid pm idx readable v h was = order_cursor_advance-IsValid _ (
      finish-Valid (ledger pm) idx (piece_len pm idx) (all_blocks (slot pm idx)) readable v h was
        refl refl)
