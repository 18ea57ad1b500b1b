-- ===== src/Tests/Pieces.antt =====
-- core/piece.c on a torrent of three pieces, of 4, 4 and 3 bytes.
use pipensx_video_downloader.Prelude.{
  ℕ, ◌+◌, ◌%◌, zero, suc, ◌<◌, ◌≡◌, refl, true, false, ◌⊎◌, List, [], ◌∷◌, ◌++◌, none, some, Bytes,
  take, replicate, arith,
}
use pipensx_video_downloader.Piece.Bitfield.{
  bf_has, bf_set, bf_clear, AreBytes, bf_has-set, bf_has-clear,
}
use pipensx_video_downloader.Piece.State.{
  PieceHashJob, piece_hash_queue_max, PieceInfo, PieceMgr, PieceOps, System, slot, u32_mod, u64_mod,
  no_index, piece_bytes, piece_len, piece_buf_get, piece_buf_put, block_is_set, block_set,
  order_cursor_advance, advance_from, mark_piece_done, order_count_of, order_piece_of,
  block_bitmap_size,
}
use pipensx_video_downloader.Piece.HashQueue.{
  no_job, is_hashing, hash_apply, apply_write, hash_matches, same_hash, hash_worker, hash_enqueue,
  start_worker, make_room, push_job, wait_head, pop_head, drain, piece_mgr_drain_hash_results,
  piece_mgr_hash_flush,
}
use pipensx_video_downloader.Piece.Blocks.{
  ensure_buf, store_block, complete_piece, accept_block, piece_mgr_got_block, refuses_block,
  piece_mgr_clear_all_block_requests,
}
use pipensx_video_downloader.Piece.Create.{fresh, fresh_slots, fresh_slot}
use pipensx_video_downloader.Piece.Pick.{
  piece_mgr_pick, piece_mgr_head_piece, head_from, pick_strict, strict_round, request_allowed,
}
use pipensx_video_downloader.Piece.Totals.{sum_all}
use pipensx_video_downloader.Piece.KeepHash.{IsSound}
use pipensx_video_downloader.Piece.Enqueue.{hash_apply-slot}
use pipensx_video_downloader.Piece.Flush.{piece_mgr_hash_flush-apply_all}
use pipensx_video_downloader.Piece.Drain.{apply_all}
use pipensx_video_downloader.Piece.Apart.{with_ring}
use pipensx_video_downloader.Piece.Verdicts.{verdict, jobs_from}
use pipensx_video_downloader.Piece.Head.{IsFirst, Complete, Distinct, piece_mgr_head_piece-IsFirst}
use pipensx_video_downloader.Piece.Fresh.{fresh-IsSound}
use pipensx_video_downloader.Piece.Run.{
  Call, worker, drain_results, got_block, call, run, run-IsSound,
}

-- A digest of 20 bytes, enough to tell the pieces apart.
abbrev digest : Bytes → Bytes
digest bs = take 20 (bs ++ replicate 20 0)

abbrev piece_0 : Bytes
piece_0 = 1 ∷ 2 ∷ 3 ∷ 4 ∷ []

abbrev info : PieceInfo
info = record {
  piece_length = 4;
  total_length = 11;
  piece_hashes = digest piece_0 ++ (digest (5 ∷ 6 ∷ 7 ∷ 8 ∷ []) ++ digest (9 ∷ 10 ∷ 11 ∷ []));
}

-- The storage is the list of its writes.
abbrev ops : PieceOps (List (ℕ × Bytes))
ops = record {
  storage_write = λ s off bs. ((off, bs) ∷ s, true);
  storage_read = λ s off len. none;
  storage_range_readable = λ s off len. true;
  storage_range_skipped = λ s off len. false;
  storage_flush = λ s. true;
  sha1 = digest;
}

abbrev system : System
system = record { malloc = λ n. some (replicate 4 0); spawns = true }

abbrev start : PieceMgr (List (ℕ × Bytes))
start = fresh info 3 true [] true true (2 ∷ 0 ∷ 1 ∷ [])

-- Piece 0 arrives whole.
abbrev calls : List Call
calls = got_block 0 0 (some piece_0) ∷ []

small_pieces : (i : ℕ) → i < 3 → piece_bytes info 3 i < u32_mod
unfolding piece_bytes
small_pieces zero h = omega arith
small_pieces (suc zero) h = omega arith
small_pieces (suc (suc zero)) h = omega arith
small_pieces (suc (suc (suc i))) h = absurd (omega arith)

total : sum_all (piece_bytes info 3) 0 3 < u64_mod
unfolding sum_all piece_bytes
total = omega arith

fresh-IsSound_example : IsSound start
fresh-IsSound_example =
    fresh-IsSound info 3 true [] true true (2 ∷ 0 ∷ 1 ∷ []) (omega arith) total small_pieces
      (omega arith)

start-IsSound : IsSound start
start-IsSound =
    fresh-IsSound info 3 true [] true true (2 ∷ 0 ∷ 1 ∷ []) (omega arith) total small_pieces
      (omega arith)

run-IsSound_example :
    IsSound (run system ops start (got_block 0 0 (some piece_0) ∷ worker ∷ drain_results ∷ []))
run-IsSound_example =
    run-IsSound system ops start (got_block 0 0 (some piece_0) ∷ worker ∷ drain_results ∷ [])
      start-IsSound

queued-IsSound : IsSound (run system ops start calls)
queued-IsSound = run-IsSound system ops start calls start-IsSound

started : (run system ops start calls).hash_started ≡ true
unfolding run call piece_mgr_got_block refuses_block piece_len piece_bytes ensure_buf piece_buf_get
    accept_block store_block block_is_set block_set piece_mgr_clear_all_block_requests
    complete_piece hash_enqueue start_worker make_room push_job wait_head fresh fresh_slots
    fresh_slot block_bitmap_size hash_worker hash_apply
started = refl

-- The worker verifies the piece, and the drain writes it and marks it done.
done_after_drain :
    let pm = run system ops start (got_block 0 0 (some piece_0) ∷ worker ∷ drain_results ∷ []) in
    (pm.num_done ≡ 1) × ((pm.completed_bytes ≡ 4) × (pm.store ≡ (0, piece_0) ∷ []))
unfolding run call piece_mgr_got_block refuses_block piece_len piece_bytes ensure_buf piece_buf_get
    accept_block store_block block_is_set block_set piece_mgr_clear_all_block_requests
    complete_piece hash_enqueue start_worker make_room push_job wait_head fresh fresh_slots
    fresh_slot block_bitmap_size hash_worker hash_apply hash_matches same_hash
    piece_mgr_drain_hash_results drain pop_head apply_write mark_piece_done piece_buf_put bf_set
    order_cursor_advance advance_from order_count_of order_piece_of
done_after_drain = (refl, (refl, refl))

-- The ring holds the piece, which the worker has not come to, with the verdict that it will get.
queued_jobs :
    jobs_from ops (run system ops start calls) 0 1
    ≡ record { idx = 0; buf = some piece_0; plen = 4; done = true; ok = true } ∷ []
unfolding run call piece_mgr_got_block refuses_block piece_len piece_bytes ensure_buf piece_buf_get
    accept_block store_block block_is_set block_set piece_mgr_clear_all_block_requests
    complete_piece hash_enqueue start_worker make_room push_job wait_head fresh fresh_slots
    fresh_slot block_bitmap_size hash_worker hash_apply hash_matches same_hash jobs_from verdict
queued_jobs = refl

piece_mgr_hash_flush-apply_all_example :
    let pm = run system ops start calls in
    (jobs : List PieceHashJob) × (piece_mgr_hash_flush ops pm
      ≡ with_ring
          (apply_all ops pm (jobs_from ops pm 0 pm.hash_q_count))
          jobs
          ((pm.hash_q_head + pm.hash_q_count) % piece_hash_queue_max)
          0
          0)
piece_mgr_hash_flush-apply_all_example =
    piece_mgr_hash_flush-apply_all ops (run system ops start calls) queued-IsSound started

start-Distinct : Distinct start
unfolding fresh Distinct order_count_of order_piece_of
start-Distinct zero zero h k small e = refl
start-Distinct zero (suc zero) h k small e = absurd (omega (arith, e))
start-Distinct zero (suc (suc zero)) h k small e = absurd (omega (arith, e))
start-Distinct (suc zero) zero h k small e = absurd (omega (arith, e))
start-Distinct (suc zero) (suc zero) h k small e = refl
start-Distinct (suc zero) (suc (suc zero)) h k small e = absurd (omega (arith, e))
start-Distinct (suc (suc zero)) zero h k small e = absurd (omega (arith, e))
start-Distinct (suc (suc zero)) (suc zero) h k small e = absurd (omega (arith, e))
start-Distinct (suc (suc zero)) (suc (suc zero)) h k small e = refl
start-Distinct (suc (suc (suc n))) m h k small e = absurd (omega arith)
start-Distinct zero (suc (suc (suc m))) h k small e = absurd (omega arith)
start-Distinct (suc zero) (suc (suc (suc m))) h k small e = absurd (omega arith)
start-Distinct (suc (suc zero)) (suc (suc (suc m))) h k small e = absurd (omega arith)

piece_mgr_head_piece-IsFirst_example :
    IsFirst start (piece_mgr_head_piece start)
    ⊎ ((piece_mgr_head_piece start ≡ no_index) × Complete start)
piece_mgr_head_piece-IsFirst_example =
    piece_mgr_head_piece-IsFirst start start-IsSound.valid start-Distinct

head_is_2 : piece_mgr_head_piece start ≡ 2
unfolding piece_mgr_head_piece head_from fresh fresh_slots fresh_slot order_count_of order_piece_of
head_is_2 = refl

pick_is_2 : piece_mgr_pick start (224 ∷ []) ≡ 2
unfolding piece_mgr_pick pick_strict strict_round request_allowed bf_has fresh fresh_slots
    fresh_slot order_count_of order_piece_of
pick_is_2 = refl

zero_byte : AreBytes (0 ∷ [])
zero_byte zero = omega arith
zero_byte (suc k) = omega arith

bf_has-set_example : bf_has (bf_set (0 ∷ []) 3) 3 ≡ true
bf_has-set_example = bf_has-set (0 ∷ []) 3 (omega arith) zero_byte 3

bf_has-clear_example : bf_has (bf_clear (0 ∷ []) 3) 3 ≡ false
bf_has-clear_example = bf_has-clear (0 ∷ []) 3 (omega arith) zero_byte 3

start_open : is_hashing (slot start 1).state ≡ false
unfolding fresh fresh_slots fresh_slot
start_open = refl

hash_apply-slot_example : slot (hash_apply ops start no_job) 1 ≡ slot start 1
hash_apply-slot_example = hash_apply-slot ops start no_job 1 start_open
