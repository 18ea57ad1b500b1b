-- ===== src/Piece/HashQueue.antt =====
-- core/piece.c: the asynchronous verification. One ring of jobs; the worker hashes them in order, and
-- the torrent thread applies finished ones from the head. A wait for the worker is the steps that
-- the worker takes until the condition holds.
use pipensx_video_downloader.Prelude.{
  ℕ, zero, suc, ◌+◌, ◌-◌, ◌%◌, Bool, true, false, not, ◌&&◌, ◌||◌, List, [], ◌∷◌, Option, none,
  some, Bytes, ◌==◌, ltb, if◌then◌else◌, take, get_or, set,
}
use pipensx_video_downloader.Piece.State.{
  PieceState, ps_hashing, PieceHashJob, PieceOps, System, PieceMgr, slot, set_slot, abs_off,
  expected_hash, piece_hash_queue_max, piece_buf_put, reset_piece, mark_piece_done,
}

abbrev pub no_job : PieceHashJob
no_job = record { idx = 0; buf = none; plen = 0; done = false; ok = false }

abbrev pub job_at : List PieceHashJob → ℕ → PieceHashJob
job_at jobs i = get_or jobs i no_job

-- The bytes behind a pointer that is not NULL.
abbrev pub buf_bytes : Option Bytes → Bytes
buf_bytes none = []
buf_bytes (some bs) = bs

-- `memcmp(a, b, n) == 0`
unfoldable pub same_hash : Bytes → Bytes → Bool
same_hash [] [] = true
same_hash (x ∷ xs) (y ∷ ys) = x == y && same_hash xs ys
same_hash _ _ = false

abbrev pub is_hashing : PieceState → Bool
is_hashing ps_hashing = true
is_hashing _ = false

module _ {Store : Type 0} where
  -- `sha1(buf, plen, digest)` against the digest of the piece.
  unfoldable pub hash_matches : PieceOps Store → PieceMgr Store → ℕ → Bytes → ℕ → Bool
  hash_matches ops pm idx buf plen = same_hash (ops.sha1 (take plen buf)) (expected_hash pm idx)

  -- One round of `hash_worker`: the first job that is not hashed yet.
  unfoldable pub hash_worker : PieceOps Store → PieceMgr Store → PieceMgr Store
  hash_worker ops pm =
      let i = (pm.hash_q_head + pm.hash_q_hashed) % piece_hash_queue_max in
      let job = job_at pm.hash_q i in
      let ok = hash_matches ops pm job.idx (buf_bytes job.buf) job.plen in
      if pm.hash_q_hashed == pm.hash_q_count then pm else record pm {
        hash_q = set pm.hash_q i (record job { ok = ok; done = true });
        hash_q_hashed = pm.hash_q_hashed + 1;
      }

  abbrev pub report : PieceMgr Store → ℕ → Option ℕ → PieceMgr Store
  report pm idx status = record pm { reports = (idx, status) ∷ pm.reports }

  -- The slot gets the buffer back, and the piece starts again.
  unfoldable pub give_back : PieceMgr Store → PieceHashJob → PieceMgr Store
  give_back pm job =
      reset_piece (set_slot pm job.idx (record (slot pm job.idx) { buf = job.buf })) job.idx

  -- The write and what follows it.
  unfoldable pub apply_write : PieceOps Store → PieceMgr Store → PieceHashJob → PieceMgr Store
  apply_write ops pm job =
      let w = ops.storage_write pm.store (abs_off pm job.idx) (take job.plen (buf_bytes job.buf)) in
      let pm' = record pm { store = w.0 } in
      if w.1
      then report (piece_buf_put (mark_piece_done ops pm' job.idx job.plen) job.buf) job.idx
          (some 2)
      else report (give_back pm' job) job.idx none

  unfoldable pub hash_apply : PieceOps Store → PieceMgr Store → PieceHashJob → PieceMgr Store
  hash_apply ops pm job =
      if not (is_hashing (slot pm job.idx).state)
      then piece_buf_put pm job.buf
      else if not job.ok
      then report (give_back pm job) job.idx (some 0)
      else apply_write ops pm job

  abbrev pub head_job : PieceMgr Store → PieceHashJob
  head_job pm = job_at pm.hash_q pm.hash_q_head

  -- The head leaves the ring.
  unfoldable pub pop_head : PieceMgr Store → PieceMgr Store
  pop_head pm = record pm {
    hash_q_head = (pm.hash_q_head + 1) % piece_hash_queue_max;
    hash_q_count = pm.hash_q_count - 1;
    hash_q_hashed = pm.hash_q_hashed - 1;
  }

  -- The loop of `piece_mgr_drain_hash_results`; every round takes a job off the ring.
  unfoldable pub drain : PieceOps Store → ℕ → PieceMgr Store → PieceMgr Store
  drain ops zero pm = pm
  drain ops (suc fuel) pm = elim (pm.hash_q_count == 0 || not (head_job pm).done) [
    | true ↦ pm
    | false ↦ drain ops fuel (hash_apply ops (pop_head pm) (head_job pm))
  ]

  unfoldable pub piece_mgr_drain_hash_results : PieceOps Store → PieceMgr Store → PieceMgr Store
  piece_mgr_drain_hash_results ops pm =
      if not pm.hash_started then pm else drain ops pm.hash_q_count pm

  -- `while (pm->hash_q_hashed < pm->hash_q_count) wait`
  unfoldable pub wait_hashed : PieceOps Store → ℕ → PieceMgr Store → PieceMgr Store
  wait_hashed ops zero pm = pm
  wait_hashed ops (suc rounds) pm = elim (ltb pm.hash_q_hashed pm.hash_q_count) [
    | false ↦ pm
    | true ↦ wait_hashed ops rounds (hash_worker ops pm)
  ]

  unfoldable pub piece_mgr_hash_flush : PieceOps Store → PieceMgr Store → PieceMgr Store
  piece_mgr_hash_flush ops pm =
      if not pm.hash_started
      then pm
      else piece_mgr_drain_hash_results ops (wait_hashed ops piece_hash_queue_max pm)

  -- `while (!pm->hash_q[pm->hash_q_head].done) wait`
  unfoldable pub wait_head : PieceOps Store → ℕ → PieceMgr Store → PieceMgr Store
  wait_head ops zero pm = pm
  wait_head ops (suc rounds) pm = elim (head_job pm).done [
    | true ↦ pm
    | false ↦ wait_head ops rounds (hash_worker ops pm)
  ]

  -- The lazy start of the thread, and whether there is one.
  unfoldable pub start_worker : System → PieceMgr Store → PieceMgr Store × Bool
  start_worker sys pm =
      if pm.hash_started
      then (pm, true)
      else if sys.spawns
      then (record pm { hash_started = true }, true)
      else (record pm { hash_ok = false }, false)

  -- Backpressure: a full ring gives up its head first.
  unfoldable pub make_room : PieceOps Store → PieceMgr Store → PieceMgr Store
  make_room ops pm =
      let ready = wait_head ops piece_hash_queue_max pm in
      if pm.hash_q_count == piece_hash_queue_max
      then hash_apply ops (pop_head ready) (head_job ready)
      else pm

  -- The job at the tail, with the slot's buffer detached.
  unfoldable pub push_job : PieceMgr Store → ℕ → ℕ → PieceMgr Store
  push_job pm idx plen =
      let tail = (pm.hash_q_head + pm.hash_q_count) % piece_hash_queue_max in
      let job : PieceHashJob = record {
        idx = idx;
        buf = (slot pm idx).buf;
        plen = plen;
        done = false;
        ok = false;
      } in
      set_slot (record pm { hash_q = set pm.hash_q tail job; hash_q_count = pm.hash_q_count + 1 })
        idx (record (slot pm idx) { buf = none; state = ps_hashing })

  unfoldable pub hash_enqueue :
      System → PieceOps Store → PieceMgr Store → ℕ → ℕ → PieceMgr Store × Bool
  hash_enqueue sys ops pm idx plen =
      let started = start_worker sys pm in
      if not pm.hash_ok || not pm.has_store
      then (pm, false)
      else if not started.1
      then started
      else (push_job (make_room ops started.0) idx plen, true)
