-- ===== src/Piece/KeepCheck.antt =====
-- The checks against the disk keep the manager sound, and so does every sequence of calls.
use pipensx_video_downloader.Prelude.{
  ℕ, zero, suc, ◌+◌, ◌/◌, ◌%◌, ◌≤◌, ◌<◌, ◌≡◌, refl, ap, ◌∙◌, Bool, true, false, not, ◌||◌, inl, inr,
  Bytes, leb, ◌==◌, Bool-cases, length, arith,
}
use pipensx_video_downloader.Piece.Bitfield.{bf_has}
use pipensx_video_downloader.Piece.State.{
  PieceMgr, PieceOps, System, slot, is_done, u32_mod, piece_len, abs_off, reset_piece,
  mark_done_unhashed, order_cursor_advance,
}
use pipensx_video_downloader.Piece.HashQueue.{piece_mgr_hash_flush}
use pipensx_video_downloader.Piece.Verify.{
  verify_scratch, disk_matches, piece_mgr_verify_piece, found_done, piece_mgr_check_existing,
  preset_piece, preset_from, piece_mgr_preset_have, verify_from, piece_mgr_verify_all,
}
use pipensx_video_downloader.Piece.Valid.{ledger}
use pipensx_video_downloader.Piece.Keep.{Ring, ring, reset_piece-ring, mark_done_unhashed-IsValid}
use pipensx_video_downloader.Piece.KeepHash.{
  IsSound, reset_piece-IsSound, same_ring-IsSound, piece_mgr_hash_flush-IsSound,
}
use pipensx_video_downloader.Piece.KeepAll.{same-IsSound}

module _ {Store : Type 0} where
  -- Sound, with as many pieces.
  abbrev Checked : PieceMgr Store → PieceMgr Store → Type 0
  Checked pm' pm = IsSound pm' × (pm'.num_pieces ≡ pm.num_pieces)

  mark_done_unhashed-ring :
      (pm : PieceMgr Store) (idx : ℕ) (readable : Bool)
      → ring (mark_done_unhashed pm idx readable) ≡ ring pm
  unfolding mark_done_unhashed order_cursor_advance
  mark_done_unhashed-ring pm idx readable = refl

  mark_done_unhashed-Checked :
      (pm : PieceMgr Store) (idx : ℕ) (readable : Bool)
      → IsSound pm
      → idx < pm.num_pieces
      → is_done (slot pm idx).state ≡ false
      → Checked (mark_done_unhashed pm idx readable) pm
  mark_done_unhashed-Checked pm idx readable s h was =
      let same = mark_done_unhashed-ring pm idx readable in
      (
        same_ring-IsSound pm _ s same (mark_done_unhashed-IsValid pm idx readable s.valid h was),
        ap (λ (r : Ring). r.num_pieces) same,
      )

  found_done-Checked :
      (pm : PieceMgr Store) (idx : ℕ) (readable : Bool)
      → IsSound pm
      → idx < pm.num_pieces
      → Checked (found_done pm idx readable) pm
  unfolding found_done
  found_done-Checked pm idx readable s h = elim (Bool-cases (is_done (slot pm idx).state)) [
    | inl e ↦ rw e (s, refl)
    | inr e ↦ rw e (mark_done_unhashed-Checked pm idx readable s h e)
  ]

  reset_piece-Checked :
      (pm : PieceMgr Store) (idx : ℕ)
      → IsSound pm
      → idx < pm.num_pieces
      → Checked (reset_piece pm idx) pm
  reset_piece-Checked pm idx s h =
      (reset_piece-IsSound pm idx s h, ap (λ (r : Ring). r.num_pieces) (reset_piece-ring pm idx))

  verify_scratch-same :
      (sys : System) (pm : PieceMgr Store)
      → (ledger (verify_scratch sys pm).0 ≡ ledger pm) × (ring (verify_scratch sys pm).0 ≡ ring pm)
  unfolding verify_scratch
  verify_scratch-same sys pm = elim (Bool-cases pm.has_verify_buf) [
    | inl e ↦ simp e (refl, refl)
    | inr e ↦ simp e (refl, refl)
  ]

  verify_scratch-Checked :
      (sys : System) (pm : PieceMgr Store) → IsSound pm → Checked (verify_scratch sys pm).0 pm
  verify_scratch-Checked sys pm s =
      let same = verify_scratch-same sys pm in
      (same-IsSound pm _ s same.0 same.1, ap (λ (r : Ring). r.num_pieces) same.1)

  pub piece_mgr_verify_piece-Checked :
      (sys : System) (ops : PieceOps Store) (pm : PieceMgr Store) (idx : ℕ)
      → IsSound pm
      → Checked (piece_mgr_verify_piece sys ops pm idx).0 pm
  unfolding piece_mgr_verify_piece
  piece_mgr_verify_piece-Checked sys ops pm idx s =
      let scratch = verify_scratch sys pm in
      let kept = verify_scratch-Checked sys pm s in
      elim (Bool-cases (leb pm.num_pieces idx || not (is_done (slot pm idx).state))) [
        | inl a ↦ rw a (s, refl)
        | inr a ↦
            elim (Bool-cases
              (ops.storage_range_readable pm.store (abs_off pm idx) (piece_len pm idx))) [
                | inr b ↦ rw (a, b) (s, refl)
                | inl b ↦ elim (Bool-cases scratch.1) [
                  | inr c ↦ rw (a, b, c) kept
                  | inl c ↦ elim (Bool-cases (disk_matches ops scratch.0 idx)) [
                    | inl d ↦ rw (a, b, c, d) kept
                    | inr d ↦
                        let reset =
                          reset_piece-Checked scratch.0 idx kept.0 (rw kept.1 (ground arith)) in
                        rw (a, b, c, d) (reset.0, reset.1 ∙ kept.1)
                  ]
                ]
              ]
      ]

  pub piece_mgr_check_existing-IsSound :
      (sys : System) (ops : PieceOps Store) (pm : PieceMgr Store) (idx : ℕ)
      → IsSound pm
      → IsSound (piece_mgr_check_existing sys ops pm idx).0
  unfolding piece_mgr_check_existing
  piece_mgr_check_existing-IsSound sys ops pm idx s =
      let scratch = verify_scratch sys pm in
      let kept = verify_scratch-Checked sys pm s in
      elim (Bool-cases (leb pm.num_pieces idx)) [
        | inl a ↦ rw a s
        | inr a ↦
            let h : idx < pm.num_pieces = ground arith in
            elim (Bool-cases
              (ops.storage_range_skipped pm.store (abs_off pm idx) (piece_len pm idx))) [
                | inl b ↦ rw (a, b) (found_done-Checked pm idx false s h).0
                | inr b ↦ elim (Bool-cases scratch.1) [
                  | inr c ↦ rw (a, b, c) kept.0
                  | inl c ↦ elim (Bool-cases (disk_matches ops scratch.0 idx)) [
                    | inl d ↦
                        rw (a, b, c, d)
                          (found_done-Checked scratch.0 idx true kept.0 (rw kept.1 h)).0
                    | inr d ↦
                        rw (a, b, c, d) (reset_piece-Checked scratch.0 idx kept.0 (rw kept.1 h)).0
                  ]
                ]
              ]
      ]

  preset_piece-Checked :
      (ops : PieceOps Store) (bf : Bytes) (pm : PieceMgr Store) (idx : ℕ)
      → IsSound pm
      → idx < pm.num_pieces
      → Checked (preset_piece ops bf pm idx) pm
  unfolding preset_piece
  preset_piece-Checked ops bf pm idx s h =
      elim (Bool-cases (not (bf_has bf idx) || is_done (slot pm idx).state)) [
        | inl a ↦ rw a (s, refl)
        | inr a ↦
            let was : is_done (slot pm idx).state ≡ false = ground arith in
            elim (Bool-cases
              (ops.storage_range_skipped pm.store (abs_off pm idx) (piece_len pm idx))) [
                | inl b ↦ rw (a, b) (mark_done_unhashed-Checked pm idx false s h was)
                | inr b ↦
                    elim (Bool-cases
                      (ops.storage_range_readable pm.store (abs_off pm idx) (piece_len pm idx))) [
                        | inl c ↦ rw (a, b, c) (mark_done_unhashed-Checked pm idx true s h was)
                        | inr c ↦ rw (a, b, c) (s, refl)
                      ]
              ]
      ]

  preset_from-IsSound :
      (ops : PieceOps Store) (bf : Bytes) (left idx : ℕ) (pm : PieceMgr Store)
      → IsSound pm
      → idx + left ≤ pm.num_pieces
      → IsSound (preset_from ops bf left idx pm)
  unfolding preset_from
  preset_from-IsSound ops bf zero idx pm s h = s
  preset_from-IsSound ops bf (suc left) idx pm s h =
      let kept = preset_piece-Checked ops bf pm idx s (omega (arith, h)) in
      preset_from-IsSound ops bf left (idx + 1) _ kept.0 (rw kept.1 (omega (arith, h)))

  pub piece_mgr_preset_have-IsSound :
      (ops : PieceOps Store) (pm : PieceMgr Store) (bf : Bytes)
      → IsSound pm
      → IsSound (piece_mgr_preset_have ops pm bf)
  unfolding piece_mgr_preset_have
  piece_mgr_preset_have-IsSound ops pm bf s =
      elim (Bool-cases (length bf == (pm.num_pieces + 7) % u32_mod / 8)) [
        | inl a ↦ rw a (preset_from-IsSound ops bf pm.num_pieces 0 pm s (omega arith))
        | inr a ↦ rw a s
      ]

  verify_from-IsSound :
      (sys : System) (ops : PieceOps Store) (left idx : ℕ) (pm : PieceMgr Store) (all_valid : Bool)
      → IsSound pm
      → IsSound (verify_from sys ops left idx pm all_valid).0
  unfolding verify_from
  verify_from-IsSound sys ops zero idx pm all_valid s = s
  verify_from-IsSound sys ops (suc left) idx pm all_valid s =
      verify_from-IsSound sys ops left (idx + 1) _ _
        (piece_mgr_verify_piece-Checked sys ops pm idx s).0

  pub piece_mgr_verify_all-IsSound :
      (sys : System) (ops : PieceOps Store) (pm : PieceMgr Store)
      → IsSound pm
      → IsSound (piece_mgr_verify_all sys ops pm).0
  unfolding piece_mgr_verify_all
  piece_mgr_verify_all-IsSound sys ops pm s =
      let flushed = piece_mgr_hash_flush-IsSound ops pm s in
      elim (Bool-cases (ops.storage_flush (piece_mgr_hash_flush ops pm).store)) [
        | inl a ↦ rw a (verify_from-IsSound sys ops pm.num_pieces 0 _ true flushed)
        | inr a ↦ rw a flushed
      ]
