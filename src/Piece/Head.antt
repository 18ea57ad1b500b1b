-- ===== src/Piece/Head.antt =====
-- `piece_mgr_head_piece` against the order of the pieces.
use pipensx_video_downloader.Prelude.{
  ℕ, zero, suc, ◌+◌, ◌-◌, ◌<◌, ◌≡◌, refl, sym, true, false, ◌⊎◌, inl, inr, Bool-cases, arith,
}
use pipensx_video_downloader.Piece.State.{
  PieceMgr, slot, is_done, no_index, order_count, order_piece_at, order_position, unfinished_at,
}
use native.Mathlib.Decide.{ℕ_discrete}
use pipensx_video_downloader.Piece.Pick.{head_from, piece_mgr_head_piece}
use pipensx_video_downloader.Piece.Valid.{IsValid}

module _ {Store : Type 0} (pm : PieceMgr Store) where
  -- The piece stands at a position of the order, and nothing before it is wanted any more.
  pub record IsFirst (i : ℕ) : Type 0 where
    pub at : ℕ
    pub at_lt : at < order_count pm
    pub piece : order_piece_at pm at ≡ i
    pub wanted : unfinished_at pm.slots pm.num_pieces i ≡ true
    pub first :
        (n : ℕ) → n < at → unfinished_at pm.slots pm.num_pieces (order_piece_at pm n) ≡ false

  -- No position of the order names a piece that is still wanted.
  unfoldable pub Complete : Type 0
  Complete =
      (n : ℕ)
      → n < order_count pm
      → unfinished_at pm.slots pm.num_pieces (order_piece_at pm n) ≡ false

  head_from_lem :
      (left n : ℕ)
      → n + left ≡ order_count pm
      → ((k : ℕ) → k < n → unfinished_at pm.slots pm.num_pieces (order_piece_at pm k) ≡ false)
      → IsFirst (head_from pm left n) ⊎ ((head_from pm left n ≡ no_index) × Complete)
  unfolding head_from Complete
  head_from_lem zero n e before = inr (refl, λ k h. before k (omega (arith, h, e)))
  head_from_lem (suc left) n e before =
      elim (Bool-cases (unfinished_at pm.slots pm.num_pieces (order_piece_at pm n))) [
        | inl u ↦ inl (
            rw (u, head_from)
              (record {
                at = n;
                at_lt = omega (arith, e);
                piece = refl;
                wanted = u;
                first = before;
              }))
        | inr u ↦
            rw (u, head_from)
              (head_from_lem left (n + 1) (omega (arith, e)) (λ k h. elim (ℕ_discrete n k) [
                | yes same ↦ rw (← same) u
                | no ne ↦ before k (omega (arith, h, ne))
              ]))
      ]

  -- No piece stands twice in the order.
  unfoldable pub Distinct : Type 0
  Distinct =
      (n m : ℕ)
      → n < order_count pm
      → m < order_count pm
      → order_piece_at pm n < pm.num_pieces
      → order_piece_at pm n ≡ order_piece_at pm m
      → n ≡ m

  -- Nothing before the cursor is wanted.
  before_cursor :
      IsValid pm
      → Distinct
      → (n : ℕ) → n < pm.order_cursor
      → unfinished_at pm.slots pm.num_pieces (order_piece_at pm n) ≡ false
  unfolding Distinct
  before_cursor v d n h =
      elim (Bool-cases (unfinished_at pm.slots pm.num_pieces (order_piece_at pm n))) [
        | inr u ↦ u
        | inl u ↦
            let i = order_piece_at pm n in
            let small : i < pm.num_pieces = ground arith in
            let left : is_done (slot pm i).state ≡ false = ground arith in
            let in_order : n < order_count pm = omega (arith, h, v.cursor_le) in
            let last = v.order.position_last n in_order small in
            let there = v.order.piece_there i small last.1 in
            let same = d n (order_position pm i) in_order there.1 small (sym there.0) in
            absurd (omega (arith, v.cursor i small left, same, h))
      ]

  -- In a valid manager whose order names no piece twice the head piece is the first unfinished
  -- piece of the order, or there is none and the order is complete.
  pub piece_mgr_head_piece-IsFirst :
      IsValid pm
      → Distinct
      → IsFirst (piece_mgr_head_piece pm) ⊎ ((piece_mgr_head_piece pm ≡ no_index) × Complete)
  unfolding piece_mgr_head_piece
  piece_mgr_head_piece-IsFirst v d =
      head_from_lem (order_count pm - pm.order_cursor) pm.order_cursor (omega (arith, v.cursor_le))
        (before_cursor v d)
