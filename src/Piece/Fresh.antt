-- ===== src/Piece/Fresh.antt =====
-- The manager that `piece_mgr_create_ex` makes is sound.
use pipensx_video_downloader.Prelude.{
  ℕ, zero, suc, ◌+◌, ◌/◌, ◌%◌, ◌≤◌, ◌<◌, ◌≡◌, ◌≢◌, refl, sym, ap, ◌∙◌, Bool, false, inl, inr, List,
  [], ◌∷◌, ltb, ◌==◌, Bool-cases, ltb→lt, length, get_or, set, replicate, arith, length-set,
  length-replicate,
}
use native.Mathlib.Decide.{ℕ_discrete}
use pipensx_video_downloader.Piece.Bitfield.{bf_has, AreBytes}
use pipensx_video_downloader.Piece.State.{
  PieceInfo, no_index, slot_at, is_done, u32_mod, u64_mod, piece_bytes, order_position_of,
  order_piece_of, order_count_of,
}
use pipensx_video_downloader.Piece.Create.{
  positions_from, order_pos_of, fresh_slot, fresh_slots, fresh,
}
use pipensx_video_downloader.Piece.Totals.{sum_done, sum_all}
use pipensx_video_downloader.Piece.Valid.{OrderFits}
use pipensx_video_downloader.Piece.KeepHash.{IsSound}

number-set_self : (xs : List ℕ) (i v d : ℕ) → i < length xs → get_or (set xs i v) i d ≡ v
number-set_self [] i v d h = elim h [ ]
number-set_self (x ∷ xs) zero v d h = refl
number-set_self (x ∷ xs) (suc i) v d h = number-set_self xs i v d (omega arith)

number-set_ne : (xs : List ℕ) (i j v d : ℕ) → i ≢ j → get_or (set xs i v) j d ≡ get_or xs j d
number-set_ne [] i j v d h = refl
number-set_ne (x ∷ xs) zero zero v d h = absurd (h refl)
number-set_ne (x ∷ xs) zero (suc j) v d h = refl
number-set_ne (x ∷ xs) (suc i) zero v d h = refl
number-set_ne (x ∷ xs) (suc i) (suc j) v d h = number-set_ne xs i j v d (λ e. h (ap suc e))

replicate-same : (n a i : ℕ) → get_or (replicate n a) i a ≡ a
replicate-same zero a i = refl
replicate-same (suc n) a zero = refl
replicate-same (suc n) a (suc i) = replicate-same n a i

length-fresh_slots :
    (mi : PieceInfo) (num_pieces left i : ℕ) → length (fresh_slots mi num_pieces left i) ≡ left
unfolding fresh_slots
length-fresh_slots mi num_pieces zero i = refl
length-fresh_slots mi num_pieces (suc left) i =
    ap suc (length-fresh_slots mi num_pieces left (i + 1))

fresh_slots-open :
    (mi : PieceInfo) (num_pieces left i k : ℕ)
    → is_done (slot_at (fresh_slots mi num_pieces left i) k).state ≡ false
unfolding fresh_slots fresh_slot
fresh_slots-open mi num_pieces zero i k = refl
fresh_slots-open mi num_pieces (suc left) i zero = refl
fresh_slots-open mi num_pieces (suc left) i (suc k) = fresh_slots-open mi num_pieces left (i + 1) k

sum_done-fresh :
    (weight : ℕ → ℕ) (mi : PieceInfo) (num_pieces left i base : ℕ)
    → sum_done weight base (fresh_slots mi num_pieces left i) ≡ 0
unfolding fresh_slots fresh_slot sum_done
sum_done-fresh weight mi num_pieces zero i base = refl
sum_done-fresh weight mi num_pieces (suc left) i base =
    omega (arith, sum_done-fresh weight mi num_pieces left (i + 1) (base + 1))

no_bit : (n i : ℕ) → bf_has (replicate n 0) i ≡ false
unfolding bf_has
no_bit n i = rw (replicate-same n 0 (i / 8)) (ground arith)

-- What the positions say behind `n` entries of the order.
record Placed (order : List ℕ) (num_pieces n : ℕ) (pos : List ℕ) : Type 0 where
  len : length pos ≡ num_pieces
  piece :
      (i : ℕ)
      → i < num_pieces
      → get_or pos i no_index ≢ no_index
      → (get_or order (get_or pos i no_index) 0 ≡ i) × (get_or pos i no_index < n)
  last :
      (m : ℕ)
      → m < n
      → get_or order m 0 < num_pieces
      → (m ≤ get_or pos (get_or order m 0) no_index)
        × (get_or pos (get_or order m 0) no_index ≢ no_index)

module _ (order : List ℕ) (num_pieces : ℕ) where
  other_position : (n m : ℕ) → get_or order n 0 ≢ get_or order m 0 → n ≢ m
  other_position n m ne e = ne (ap (λ (k : ℕ). get_or order k 0) e)

  Placed-set :
      (n : ℕ) (pos : List ℕ)
      → n < no_index
      → get_or order n 0 < num_pieces
      → Placed order num_pieces n pos
      → Placed order num_pieces (n + 1) (set pos (get_or order n 0) n)
  Placed-set n pos small h placed =
      let p = get_or order n 0 in
      let self = number-set_self pos p n no_index (omega (arith, placed.len)) in
      record {
        len = length-set pos p n ∙ placed.len;
        piece = λ i lt. elim (ℕ_discrete p i) [
          | yes e ↦ rw (← e, self) (λ ne. (refl, omega arith))
          | no ne ↦
              rw (number-set_ne pos p i n no_index ne)
                (λ there. ((placed.piece i lt there).0, omega (arith, (placed.piece i lt there).1)))
        ];
        last = λ m lt there. elim (ℕ_discrete p (get_or order m 0)) [
          | yes e ↦ rw (← e, self) (omega (arith, lt), omega (arith, small))
          | no ne ↦
              rw (number-set_ne pos p (get_or order m 0) n no_index ne)
                (placed.last m (omega (arith, lt, other_position n m ne)) there)
        ];
      }

  Placed-skip :
      (n : ℕ) (pos : List ℕ)
      → num_pieces ≤ get_or order n 0
      → Placed order num_pieces n pos
      → Placed order num_pieces (n + 1) pos
  Placed-skip n pos h placed = record {
    len = placed.len;
    piece = λ i lt there. ((placed.piece i lt there).0, omega (arith, (placed.piece i lt there).1));
    last = λ m lt there. elim (ℕ_discrete n m) [
      | yes e ↦ absurd (omega (arith, h, rw (← e) at there))
      | no ne ↦ placed.last m (omega (arith, lt, ne)) there
    ];
  }

  positions_from-Placed :
      (left n : ℕ) (pos : List ℕ)
      → n + left ≤ no_index
      → Placed order num_pieces n pos
      → Placed order num_pieces (n + left) (positions_from order num_pieces left n pos)
  unfolding positions_from
  positions_from-Placed zero n pos h placed = let same : n + 0 ≡ n = omega arith in rw same placed
  positions_from-Placed (suc left) n pos h placed =
      let next : n + suc left ≡ n + 1 + left = omega arith in
      let small : n + 1 + left ≤ no_index = omega (arith, h) in
      elim (Bool-cases (ltb (get_or order n 0) num_pieces)) [
        | inl e ↦
            rw (next, e)
              (positions_from-Placed left (n + 1) _ small
                (Placed-set n pos (omega (arith, h)) (ltb→lt _ _ e) placed))
        | inr e ↦
            rw (next, e)
              (positions_from-Placed left (n + 1) pos small
                (Placed-skip n pos (ground arith) placed))
      ]

  -- Before the first entry.
  none-Placed : Placed order num_pieces 0 (replicate num_pieces no_index)
  none-Placed = record {
    len = length-replicate num_pieces no_index;
    piece = λ i lt. rw (replicate-same num_pieces no_index i) (λ ne. absurd (ne refl));
    last = λ m lt. elim lt [ ];
  }

order_pos_of-OrderFits :
    (order : List ℕ) (num_pieces : ℕ)
    → num_pieces < u32_mod
    → length order ≤ no_index
    → OrderFits num_pieces order (order_pos_of order num_pieces)
unfolding order_pos_of order_position_of order_piece_of order_count_of
order_pos_of-OrderFits [] num_pieces h short = record {
  count_small = omega (arith, h);
  piece_there = λ i lt ne. (refl, lt);
  position_last = λ n lt there. (omega arith, omega (arith, lt, h));
}
order_pos_of-OrderFits (p ∷ ps) num_pieces h short =
    let order = p ∷ ps in
    let placed =
      positions_from-Placed order num_pieces (length order) 0 (replicate num_pieces no_index)
        (omega (arith, short)) (none-Placed order num_pieces) in
    let nonempty : (length order == 0) ≡ false = ground arith in
    let zero_left : 0 + length order ≡ length order = omega arith in
    record {
      count_small = rw nonempty short;
      piece_there = λ i lt ne. rw nonempty (rw zero_left at (placed.piece i lt ne));
      position_last =
          λ n lt. rw nonempty (λ there. placed.last n (omega (arith, rw nonempty at lt)) there);
    }

-- A manager that piece_mgr_create_ex makes is sound, with any order of at most 2^32 - 1 positions,
-- where the piece count plus 7 and each piece length are below 2^32 and the sum of the lengths is
-- below 2^64.
pub fresh-IsSound :
    {Store : Type 0} (mi : PieceInfo) (num_pieces : ℕ) (has_store : Bool) (store : Store)
    (hash_ok strict_order : Bool) (order : List ℕ)
    → num_pieces + 7 < u32_mod
    → sum_all (piece_bytes mi num_pieces) 0 num_pieces < u64_mod
    → ((i : ℕ) → i < num_pieces → piece_bytes mi num_pieces i < u32_mod)
    → length order ≤ no_index
    → IsSound (fresh mi num_pieces has_store store hash_ok strict_order order)
unfolding fresh
fresh-IsSound mi num_pieces has_store store hash_ok strict_order order h total pieces short =
    let bytes = (num_pieces + 7) % u32_mod / 8 in
    let len : bytes ≡ (num_pieces + 7) / 8 = ground (arith, h) in
    let zeros : AreBytes (replicate bytes 0) = λ k. rw (replicate-same bytes 0 k) (omega arith) in
    record {
      valid = record {
        count = length-fresh_slots mi num_pieces num_pieces 0;
        small = omega (arith, h);
        total_small = total;
        have_len = length-replicate bytes 0 ∙ len;
        available_len = length-replicate bytes 0 ∙ len;
        have_bytes = zeros;
        available_bytes = zeros;
        have_done = λ i lt. no_bit bytes i ∙ sym (fresh_slots-open mi num_pieces num_pieces 0 i);
        available_done = λ i lt b. ground (arith, no_bit bytes i);
        done_count = sym (sum_done-fresh (λ _. 1) mi num_pieces num_pieces 0 0);
        done_bytes = sym (sum_done-fresh (piece_bytes mi num_pieces) mi num_pieces num_pieces 0 0);
        order = order_pos_of-OrderFits order num_pieces (omega (arith, h)) short;
        cursor_le = omega arith;
        cursor = λ i lt d. omega arith;
      };
      queue = record {
        pieces_small = pieces;
        ring_len = refl;
        head_lt = omega arith;
        count_le = omega arith;
        hashed_le = omega arith;
        job_piece = λ k lt. elim lt [ ];
        job_len = λ k lt. elim lt [ ];
        job_done = λ k lt. elim lt [ ];
      };
    }
