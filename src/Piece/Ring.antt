-- ===== src/Piece/Ring.antt =====
-- The ring of hash jobs: what holds of its jobs, and that hashing, pushing and popping keep it.
use pipensx_video_downloader.Prelude.{
  ℕ, zero, suc, ◌+◌, ◌-◌, ◌%◌, ◌≤◌, ◌<◌, ◌≡◌, ◌≢◌, refl, ap, ◌∙◌, true, List, [], ◌∷◌, length, set,
  arith, length-set,
}
use native.Mathlib.Decide.{ℕ_discrete}
use pipensx_video_downloader.Piece.State.{PieceHashJob, u32_mod, piece_bytes, piece_hash_queue_max}
use pipensx_video_downloader.Piece.HashQueue.{job_at}
use pipensx_video_downloader.Piece.Keep.{Ring}

-- The k-th job of the ring.
abbrev pub nth_job : Ring → ℕ → PieceHashJob
nth_job r k = job_at r.hash_q ((r.hash_q_head + k) % piece_hash_queue_max)

-- The jobs of the ring name pieces with their lengths, the first `hash_q_hashed` are done.
pub record QueueFits (r : Ring) : Type 0 where
  pub pieces_small : (i : ℕ) → i < r.num_pieces → piece_bytes r.mi r.num_pieces i < u32_mod
  pub ring_len : length r.hash_q ≡ piece_hash_queue_max
  pub head_lt : r.hash_q_head < piece_hash_queue_max
  pub count_le : r.hash_q_count ≤ piece_hash_queue_max
  pub hashed_le : r.hash_q_hashed ≤ r.hash_q_count
  pub job_piece : (k : ℕ) → k < r.hash_q_count → (nth_job r k).idx < r.num_pieces
  pub job_len :
      (k : ℕ)
      → k < r.hash_q_count
      → (nth_job r k).plen ≡ piece_bytes r.mi r.num_pieces (nth_job r k).idx
  pub job_done : (k : ℕ) → k < r.hash_q_hashed → (nth_job r k).done ≡ true

job_at-set_self :
    (jobs : List PieceHashJob) (i : ℕ) (job : PieceHashJob)
    → i < length jobs
    → job_at (set jobs i job) i ≡ job
job_at-set_self [] i job h = elim h [ ]
job_at-set_self (x ∷ jobs) zero job h = refl
job_at-set_self (x ∷ jobs) (suc i) job h = job_at-set_self jobs i job (omega arith)

job_at-set_ne :
    (jobs : List PieceHashJob) (i j : ℕ) (job : PieceHashJob)
    → i ≢ j
    → job_at (set jobs i job) j ≡ job_at jobs j
job_at-set_ne [] i j job h = refl
job_at-set_ne (x ∷ jobs) zero zero job h = absurd (h refl)
job_at-set_ne (x ∷ jobs) zero (suc j) job h = refl
job_at-set_ne (x ∷ jobs) (suc i) zero job h = refl
job_at-set_ne (x ∷ jobs) (suc i) (suc j) job h = job_at-set_ne jobs i j job (λ e. h (ap suc e))

-- The ring with its k-th job replaced.
abbrev with_job : Ring → ℕ → PieceHashJob → Ring
with_job r k job = record r {
  hash_q = set r.hash_q ((r.hash_q_head + k) % piece_hash_queue_max) job;
}

module _ (r : Ring) (k : ℕ) (job : PieceHashJob) (q : QueueFits r)
    (h : k < piece_hash_queue_max) where
  pub nth_job_self : nth_job (with_job r k job) k ≡ job
  nth_job_self =
      job_at-set_self r.hash_q ((r.hash_q_head + k) % piece_hash_queue_max) job
        (omega (arith, q.ring_len))

  pub nth_job-ne :
      (j : ℕ) → j < piece_hash_queue_max → k ≢ j → nth_job (with_job r k job) j ≡ nth_job r j
  nth_job-ne j n ne =
      job_at-set_ne r.hash_q ((r.hash_q_head + k) % piece_hash_queue_max)
        ((r.hash_q_head + j) % piece_hash_queue_max) job (λ e. omega (arith, q.head_lt, ne, e))

-- The worker's step: the first job that is not hashed gets its result.
pub hash_job-QueueFits :
    (r : Ring) (job : PieceHashJob)
    → QueueFits r
    → r.hash_q_hashed < r.hash_q_count
    → job.idx ≡ (nth_job r r.hash_q_hashed).idx
    → job.plen ≡ (nth_job r r.hash_q_hashed).plen
    → job.done ≡ true
    → QueueFits (record (with_job r r.hash_q_hashed job) { hash_q_hashed = r.hash_q_hashed + 1 })
hash_job-QueueFits r job q h same_idx same_plen d =
    let k = r.hash_q_hashed in
    let small : k < piece_hash_queue_max = omega (arith, q.count_le) in
    record {
      pieces_small = q.pieces_small;
      ring_len = length-set r.hash_q ((r.hash_q_head + k) % piece_hash_queue_max) job ∙ q.ring_len;
      head_lt = q.head_lt;
      count_le = q.count_le;
      hashed_le = omega (arith, h);
      job_piece = λ j n. elim (ℕ_discrete k j) [
        | yes e ↦ rw (← e, nth_job_self r k job q small, same_idx) (q.job_piece k h)
        | no ne ↦ rw (nth_job-ne r k job q small j (omega (arith, q.count_le)) ne) (q.job_piece j n)
      ];
      job_len = λ j n. elim (ℕ_discrete k j) [
        | yes e ↦ rw (← e, nth_job_self r k job q small, same_idx, same_plen) (q.job_len k h)
        | no ne ↦ rw (nth_job-ne r k job q small j (omega (arith, q.count_le)) ne) (q.job_len j n)
      ];
      job_done = λ j n. elim (ℕ_discrete k j) [
        | yes e ↦ rw (← e, nth_job_self r k job q small) d
        | no ne ↦
            rw (nth_job-ne r k job q small j (omega (arith, q.count_le, h)) ne)
              (q.job_done j (omega (arith, ne)))
      ];
    }

-- A new job at the tail.
pub push_job-QueueFits :
    (r : Ring) (job : PieceHashJob)
    → QueueFits r
    → r.hash_q_count < piece_hash_queue_max
    → job.idx < r.num_pieces
    → job.plen ≡ piece_bytes r.mi r.num_pieces job.idx
    → QueueFits (record (with_job r r.hash_q_count job) { hash_q_count = r.hash_q_count + 1 })
push_job-QueueFits r job q h there e =
    let k = r.hash_q_count in
    record {
      pieces_small = q.pieces_small;
      ring_len = length-set r.hash_q ((r.hash_q_head + k) % piece_hash_queue_max) job ∙ q.ring_len;
      head_lt = q.head_lt;
      count_le = omega (arith, h);
      hashed_le = omega (arith, q.hashed_le);
      job_piece = λ j n. elim (ℕ_discrete k j) [
        | yes s ↦ rw (← s, nth_job_self r k job q h) there
        | no ne ↦
            rw (nth_job-ne r k job q h j (omega (arith, h)) ne) (q.job_piece j (omega (arith, ne)))
      ];
      job_len = λ j n. elim (ℕ_discrete k j) [
        | yes s ↦ rw (← s, nth_job_self r k job q h) e
        | no ne ↦
            rw (nth_job-ne r k job q h j (omega (arith, h)) ne) (q.job_len j (omega (arith, ne)))
      ];
      job_done = λ j n.
          rw (nth_job-ne r k job q h j (omega (arith, q.hashed_le, h)) (omega (arith, q.hashed_le)))
            (q.job_done j n);
    }

-- The head leaves, hashed or not.
pub pop_head-QueueFits :
    (r : Ring)
    → QueueFits r
    → 0 < r.hash_q_count
    → QueueFits (record r {
      hash_q_head = (r.hash_q_head + 1) % piece_hash_queue_max;
      hash_q_count = r.hash_q_count - 1;
      hash_q_hashed = r.hash_q_hashed - 1;
    })
pop_head-QueueFits r q h =
    let shift : (j : ℕ)
        → ((r.hash_q_head + 1) % piece_hash_queue_max + j) % piece_hash_queue_max
          ≡ (r.hash_q_head + (j + 1)) % piece_hash_queue_max =
      λ j. omega arith in
    record {
      pieces_small = q.pieces_small;
      ring_len = q.ring_len;
      head_lt = omega arith;
      count_le = omega (arith, q.count_le);
      hashed_le = omega (arith, q.hashed_le);
      job_piece = λ j n. rw (shift j) (q.job_piece (j + 1) (omega arith));
      job_len = λ j n. rw (shift j) (q.job_len (j + 1) (omega arith));
      job_done = λ j n. rw (shift j) (q.job_done (j + 1) (omega arith));
    }
