-- ===== src/Piece/Valid.antt =====
-- The manager's invariant: slots, bitfields, totals and the order cursor tell the same story.
use pipensx_video_downloader.Prelude.{
  ℕ, zero, suc, ◌+◌, ◌-◌, ◌/◌, ◌%◌, ◌≤◌, ◌<◌, ◌≡◌, ◌≢◌, refl, sym, ap, ◌∙◌, Bool, true, false, not,
  ◌&&◌, inl, inr, List, Option, Bytes, ltb, leb, ◌==◌, if◌then◌else◌, Bool-cases, length, set,
  arith, length-set,
}
use native.Mathlib.Decide.{ℕ_discrete}
use pipensx_video_downloader.Piece.Bitfield.{
  bf_has, bf_set, bf_clear, AreBytes, bf_has-set, bf_has-clear, bf_set-AreBytes, bf_clear-AreBytes,
  length-bf_set, length-bf_clear,
}
use pipensx_video_downloader.Piece.State.{
  PieceSlot, PieceMgr, PieceInfo, slot_at, no_slot, slot, set_slot, is_done, u32_mod, u64_mod,
  no_index, piece_bytes, piece_len, order_count, order_position, order_count_of, order_piece_of,
  order_position_of, unfinished_at, advance_from, order_cursor_advance, order_cursor_rewind,
  forget_done, cleared, reset_piece,
}
use pipensx_video_downloader.Piece.Totals.{
  sum_done, sum_all, sum_done-set, sum_done-gap, sum_all_ones, slot_at-set_self, slot_at-set_ne,
}

-- The part of the manager that the invariant speaks of.
pub record Ledger : Type 0 where
  pub mi : PieceInfo
  pub num_pieces : ℕ
  pub slots : List PieceSlot
  pub have_bf : Bytes
  pub available_bf : Bytes
  pub num_done : ℕ
  pub completed_bytes : ℕ
  pub order_cursor : ℕ
  pub piece_order : List ℕ
  pub order_pos : Option (List ℕ)

abbrev pub ledger : {Store : Type 0} → PieceMgr Store → Ledger
ledger pm = record {
  mi = pm.mi;
  num_pieces = pm.num_pieces;
  slots = pm.slots;
  have_bf = pm.have_bf;
  available_bf = pm.available_bf;
  num_done = pm.num_done;
  completed_bytes = pm.completed_bytes;
  order_cursor = pm.order_cursor;
  piece_order = pm.piece_order;
  order_pos = pm.order_pos;
}

abbrev pub positions : Ledger → ℕ
positions l = order_count_of l.piece_order l.num_pieces

abbrev pub position : Ledger → ℕ → ℕ
position l i = order_position_of l.order_pos i

-- `order_pos` holds for each piece its last position in `piece_order`, or no_index.
pub record OrderFits (num_pieces : ℕ) (order : List ℕ) (pos : Option (List ℕ)) : Type 0 where
  pub count_small : order_count_of order num_pieces ≤ no_index
  pub piece_there :
      (i : ℕ)
      → i < num_pieces
      → order_position_of pos i ≢ no_index
      → (order_piece_of order (order_position_of pos i) ≡ i)
        × (order_position_of pos i < order_count_of order num_pieces)
  pub position_last :
      (n : ℕ)
      → n < order_count_of order num_pieces
      → order_piece_of order n < num_pieces
      → (n ≤ order_position_of pos (order_piece_of order n))
        × (order_position_of pos (order_piece_of order n) ≢ no_index)

pub record Valid (l : Ledger) : Type 0 where
  pub count : length l.slots ≡ l.num_pieces
  pub small : l.num_pieces < u32_mod
  pub total_small : sum_all (piece_bytes l.mi l.num_pieces) 0 l.num_pieces < u64_mod
  pub have_len : length l.have_bf ≡ (l.num_pieces + 7) / 8
  pub available_len : length l.available_bf ≡ (l.num_pieces + 7) / 8
  pub have_bytes : AreBytes l.have_bf
  pub available_bytes : AreBytes l.available_bf
  -- The have bitfield marks exactly the pieces that are done, and only those are available.
  pub have_done :
      (i : ℕ) → i < l.num_pieces → bf_has l.have_bf i ≡ is_done (slot_at l.slots i).state
  pub available_done :
      (i : ℕ)
      → i < l.num_pieces
      → bf_has l.available_bf i ≡ true
      → is_done (slot_at l.slots i).state ≡ true
  -- The totals are those of the done pieces.
  pub done_count : l.num_done ≡ sum_done (λ _. 1) 0 l.slots
  pub done_bytes : l.completed_bytes ≡ sum_done (piece_bytes l.mi l.num_pieces) 0 l.slots
  -- No piece that is still wanted stands in front of the cursor.
  pub order : OrderFits l.num_pieces l.piece_order l.order_pos
  pub cursor_le : l.order_cursor ≤ positions l
  pub cursor :
      (i : ℕ)
      → i < l.num_pieces
      → is_done (slot_at l.slots i).state ≡ false
      → l.order_cursor ≤ position l i

abbrev pub IsValid : {Store : Type 0} → PieceMgr Store → Type 0
IsValid pm = Valid (ledger pm)

module _ (slots : List PieceSlot) (num_pieces : ℕ) (order : List ℕ) where
  advance_from-le :
      (left cursor : ℕ) → advance_from slots num_pieces order left cursor ≤ cursor + left
  unfolding advance_from
  advance_from-le zero cursor = omega arith
  advance_from-le (suc left) cursor = ground (arith, advance_from-le left (cursor + 1))

  not_here :
      (cursor p : ℕ)
      → unfinished_at slots num_pieces (order_piece_of order p) ≡ true
      → unfinished_at slots num_pieces (order_piece_of order cursor) ≡ false
      → cursor ≢ p
  not_here cursor p u go e =
      cc (ap (λ (x : ℕ). unfinished_at slots num_pieces (order_piece_of order x)) e)

  -- The cursor stops at the first unfinished position.
  advance_from_stops :
      (left cursor p : ℕ)
      → unfinished_at slots num_pieces (order_piece_of order p) ≡ true
      → cursor ≤ p
      → advance_from slots num_pieces order left cursor ≤ p
  unfolding advance_from
  advance_from_stops zero cursor p u h = h
  advance_from_stops (suc left) cursor p u h =
      elim (Bool-cases (unfinished_at slots num_pieces (order_piece_of order cursor))) [
        | inl stop ↦ rw (stop, advance_from) h
        | inr go ↦
            rw (go, advance_from)
              (advance_from_stops left (cursor + 1) p u (omega (arith, not_here cursor p u go)))
      ]

-- A piece that is still wanted stops the cursor at its position at the latest.
still_before :
    {Store : Type 0} (pm : PieceMgr Store)
    → IsValid pm
    → (i : ℕ) → i < pm.num_pieces
    → is_done (slot pm i).state ≡ false
    → advance_from pm.slots pm.num_pieces pm.piece_order
        (order_count pm - pm.order_cursor)
        pm.order_cursor
      ≤ order_position pm i
still_before pm v i h u = elim (ℕ_discrete (order_position pm i) no_index) [
  | yes e ↦ omega (
    arith,
    v.cursor_le,
    v.order.count_small,
    advance_from-le pm.slots pm.num_pieces pm.piece_order (order_count pm - pm.order_cursor)
        pm.order_cursor,
  )
  | no ne ↦
      let there = v.order.piece_there i h ne in
      advance_from_stops pm.slots pm.num_pieces pm.piece_order (order_count pm - pm.order_cursor)
        pm.order_cursor (order_position pm i) (rw there.0 (ground arith)) (v.cursor i h u)
]

pub order_cursor_advance-IsValid :
    {Store : Type 0} (pm : PieceMgr Store) → IsValid pm → IsValid (order_cursor_advance pm)
unfolding order_cursor_advance
order_cursor_advance-IsValid pm v = record {
  count = v.count;
  small = v.small;
  total_small = v.total_small;
  have_len = v.have_len;
  available_len = v.available_len;
  have_bytes = v.have_bytes;
  available_bytes = v.available_bytes;
  have_done = v.have_done;
  available_done = v.available_done;
  done_count = v.done_count;
  done_bytes = v.done_bytes;
  order = v.order;
  cursor_le = omega (
    arith,
    v.cursor_le,
    advance_from-le pm.slots pm.num_pieces pm.piece_order (order_count pm - pm.order_cursor)
        pm.order_cursor,
  );
  cursor = λ i h u. still_before pm v i h u;
}

-- Which pieces are done behind an update.
done_after :
    (slots : List PieceSlot) (idx i : ℕ) (sl : PieceSlot)
    → idx < length slots
    → is_done (slot_at (set slots idx sl) i).state
      ≡ (if idx == i then is_done sl.state else is_done (slot_at slots i).state)
done_after slots idx i sl there = elim (ℕ_discrete idx i) [
  | yes x ↦ rw (← x) (rw (slot_at-set_self slots idx sl there) (ground arith))
  | no ne ↦ rw (slot_at-set_ne slots idx i sl ne) (ground arith)
]

-- A slot changes, and its piece is neither finished nor taken back.
pub set_slot-Valid :
    (l : Ledger) (idx : ℕ) (sl : PieceSlot)
    → Valid l
    → idx < l.num_pieces
    → is_done sl.state ≡ is_done (slot_at l.slots idx).state
    → Valid (record l { slots = set l.slots idx sl })
set_slot-Valid l idx sl v h e =
    let there : idx < length l.slots = omega (arith, v.count) in
    let same = λ (i : ℕ). done_after l.slots idx i sl there in
    record {
      count = length-set l.slots idx sl ∙ v.count;
      small = v.small;
      total_small = v.total_small;
      have_len = v.have_len;
      available_len = v.available_len;
      have_bytes = v.have_bytes;
      available_bytes = v.available_bytes;
      have_done = λ i n. ground (arith, v.have_done i n, same i);
      available_done = λ i n b. ground (arith, v.available_done i n, same i);
      done_count = ground (arith, v.done_count, sum_done-set (λ _. 1) 0 l.slots idx sl there);
      done_bytes = ground (
        arith,
        v.done_bytes,
        sum_done-set (piece_bytes l.mi l.num_pieces) 0 l.slots idx sl there,
      );
      order = v.order;
      cursor_le = v.cursor_le;
      cursor = λ i n d. ground (arith, v.cursor i n, same i);
    }

finish_bytes :
    (l : Ledger) (idx plen : ℕ) (sl : PieceSlot)
    → Valid l
    → idx < l.num_pieces
    → is_done (slot_at l.slots idx).state ≡ false
    → is_done sl.state ≡ true
    → plen ≡ piece_bytes l.mi l.num_pieces idx
    → (l.completed_bytes + plen) % u64_mod
      ≡ sum_done (piece_bytes l.mi l.num_pieces) 0 (set l.slots idx sl)
finish_bytes l idx plen sl v h was now e =
    let there : idx < length l.slots = omega (arith, v.count) in
    let w = piece_bytes l.mi l.num_pieces in
    let zero_idx : 0 + idx ≡ idx = omega arith in
    let total = ap (λ (n : ℕ). sum_all w 0 n) v.count in
    let change = rw zero_idx at (sum_done-set w 0 l.slots idx sl there) in
    let gap = rw zero_idx at (sum_done-gap w 0 l.slots idx there was) in
    ground (arith, v.done_bytes, v.total_small, total, change, gap)

-- A piece is finished.
pub finish-Valid :
    (l : Ledger) (idx plen : ℕ) (sl : PieceSlot) (readable : Bool)
    → Valid l
    → idx < l.num_pieces
    → is_done (slot_at l.slots idx).state ≡ false
    → is_done sl.state ≡ true
    → plen ≡ piece_bytes l.mi l.num_pieces idx
    → Valid (record l {
      slots = set l.slots idx sl;
      have_bf = bf_set l.have_bf idx;
      available_bf = if readable then bf_set l.available_bf idx else l.available_bf;
      num_done = (l.num_done + 1) % u32_mod;
      completed_bytes = (l.completed_bytes + plen) % u64_mod;
    })
finish-Valid l idx plen sl readable v h was now e =
    let there : idx < length l.slots = omega (arith, v.count) in
    let room : idx / 8 < length l.have_bf = omega (arith, v.have_len) in
    let room' : idx / 8 < length l.available_bf = omega (arith, v.available_len) in
    record {
      count = length-set l.slots idx sl ∙ v.count;
      small = v.small;
      total_small = v.total_small;
      have_len = length-bf_set l.have_bf idx ∙ v.have_len;
      available_len = ground (arith, length-bf_set l.available_bf idx, v.available_len);
      have_bytes = bf_set-AreBytes l.have_bf idx room v.have_bytes;
      available_bytes = λ k. ground (
        arith,
        bf_set-AreBytes l.available_bf idx room' v.available_bytes k,
        v.available_bytes k,
      );
      have_done = λ i n. ground (
        arith,
        v.have_done i n,
        done_after l.slots idx i sl there,
        bf_has-set l.have_bf idx room v.have_bytes i,
      );
      available_done = λ i n b. ground (
        arith,
        v.available_done i n,
        done_after l.slots idx i sl there,
        bf_has-set l.available_bf idx room' v.available_bytes i,
      );
      done_count = ground (
        arith,
        v.done_count,
        v.count,
        v.small,
        sum_all_ones 0 (length l.slots),
        sum_done-set (λ _. 1) 0 l.slots idx sl there,
        sum_done-gap (λ _. 1) 0 l.slots idx there was,
      );
      done_bytes = finish_bytes l idx plen sl v h was now e;
      order = v.order;
      cursor_le = v.cursor_le;
      cursor = λ i n d. ground (arith, v.cursor i n, done_after l.slots idx i sl there);
    }

take_back_bytes :
    (l : Ledger) (idx : ℕ) (sl : PieceSlot) (w : ℕ → ℕ) (total : ℕ)
    → idx < length l.slots
    → is_done (slot_at l.slots idx).state ≡ true
    → is_done sl.state ≡ false
    → total ≡ sum_done w 0 l.slots
    → (w idx ≤ total) × (total - w idx ≡ sum_done w 0 (set l.slots idx sl))
take_back_bytes l idx sl w total there was now e =
    let zero_idx : 0 + idx ≡ idx = omega arith in
    let change = rw zero_idx at (sum_done-set w 0 l.slots idx sl there) in ground (arith, change)

-- A finished piece is taken back, and the cursor goes back to its position.
take_back-Valid :
    (l : Ledger) (idx c : ℕ) (sl : PieceSlot)
    → Valid l
    → idx < l.num_pieces
    → is_done (slot_at l.slots idx).state ≡ true
    → is_done sl.state ≡ false
    → c ≤ l.order_cursor
    → c ≤ position l idx
    → Valid (record l {
      slots = set l.slots idx sl;
      have_bf = bf_clear l.have_bf idx;
      available_bf = bf_clear l.available_bf idx;
      num_done = l.num_done - 1;
      completed_bytes = l.completed_bytes - piece_bytes l.mi l.num_pieces idx;
      order_cursor = c;
    })
take_back-Valid l idx c sl v h was now lo at =
    let there : idx < length l.slots = omega (arith, v.count) in
    let room : idx / 8 < length l.have_bf = omega (arith, v.have_len) in
    let room' : idx / 8 < length l.available_bf = omega (arith, v.available_len) in
    record {
      count = length-set l.slots idx sl ∙ v.count;
      small = v.small;
      total_small = v.total_small;
      have_len = length-bf_clear l.have_bf idx ∙ v.have_len;
      available_len = length-bf_clear l.available_bf idx ∙ v.available_len;
      have_bytes = bf_clear-AreBytes l.have_bf idx room v.have_bytes;
      available_bytes = bf_clear-AreBytes l.available_bf idx room' v.available_bytes;
      have_done = λ i n. ground (
        arith,
        v.have_done i n,
        done_after l.slots idx i sl there,
        bf_has-clear l.have_bf idx room v.have_bytes i,
      );
      available_done = λ i n b. ground (
        arith,
        v.available_done i n,
        done_after l.slots idx i sl there,
        bf_has-clear l.available_bf idx room' v.available_bytes i,
      );
      done_count = (take_back_bytes l idx sl (λ _. 1) l.num_done there was now v.done_count).1;
      done_bytes =
          (take_back_bytes l idx sl (piece_bytes l.mi l.num_pieces) l.completed_bytes there was now
            v.done_bytes).1;
      order = v.order;
      cursor_le = omega (arith, v.cursor_le);
      cursor = λ i n d. elim (ℕ_discrete idx i) [
        | yes x ↦ rw (← x) at
        | no ne ↦ ground (arith, v.cursor i n, done_after l.slots idx i sl there)
      ];
    }

lower-Valid :
    (l : Ledger) (c : ℕ) → Valid l → c ≤ l.order_cursor → Valid (record l { order_cursor = c })
lower-Valid l c v h = record {
  count = v.count;
  small = v.small;
  total_small = v.total_small;
  have_len = v.have_len;
  available_len = v.available_len;
  have_bytes = v.have_bytes;
  available_bytes = v.available_bytes;
  have_done = v.have_done;
  available_done = v.available_done;
  done_count = v.done_count;
  done_bytes = v.done_bytes;
  order = v.order;
  cursor_le = omega (arith, v.cursor_le);
  cursor = λ i n d. omega (arith, v.cursor i n d);
}

-- Where `order_cursor_rewind` leaves the cursor.
rewound : {Store : Type 0} → PieceMgr Store → ℕ → ℕ
rewound pm idx =
    let pos = order_position pm idx in
    if not (pos == no_index) && ltb pos pm.order_cursor then pos else pm.order_cursor

order_cursor_rewind_lem :
    {Store : Type 0} (pm : PieceMgr Store) (idx : ℕ)
    → order_cursor_rewind pm idx ≡ record pm { order_cursor = rewound pm idx }
unfolding order_cursor_rewind rewound
order_cursor_rewind_lem pm idx =
    elim (Bool-cases
      (not (order_position pm idx == no_index) && ltb (order_position pm idx) pm.order_cursor)) [
        | inl e ↦ rw e
        | inr e ↦ rw e
      ]

forget_not_done :
    {Store : Type 0} (pm : PieceMgr Store) (idx : ℕ)
    → is_done (slot pm idx).state ≡ false
    → forget_done pm idx ≡ pm
unfolding forget_done
forget_not_done pm idx was = rw was

-- What is left of a done piece's traces.
abbrev forgotten : {Store : Type 0} → PieceMgr Store → ℕ → PieceMgr Store
forgotten pm idx = record pm {
  have_bf = bf_clear pm.have_bf idx;
  available_bf = bf_clear pm.available_bf idx;
  num_done = pm.num_done - 1;
  completed_bytes = pm.completed_bytes - piece_len pm idx;
}

module _ {Store : Type 0} (pm : PieceMgr Store) (idx : ℕ) (v : IsValid pm)
    (h : idx < pm.num_pieces) where
  forget_done_done : is_done (slot pm idx).state ≡ true → forget_done pm idx ≡ forgotten pm idx
  unfolding forget_done piece_len
  forget_done_done was =
      let there : idx < length pm.slots = omega (arith, v.count) in
      let sl = cleared (slot pm idx) in
      let one =
        (take_back_bytes (ledger pm) idx no_slot (λ _. 1) pm.num_done there was refl
          v.done_count).0 in
      let some_bytes =
        (take_back_bytes (ledger pm) idx no_slot (piece_bytes pm.mi pm.num_pieces)
          pm.completed_bytes there was refl v.done_bytes).0 in
      let nonzero : (pm.num_done == 0) ≡ false = ground arith in
      let enough : leb (piece_bytes pm.mi pm.num_pieces idx) pm.completed_bytes ≡ true =
        ground arith in
      rw (was, nonzero, enough)

  rewound_bounds : (rewound pm idx ≤ pm.order_cursor) × (rewound pm idx ≤ order_position pm idx)
  unfolding rewound
  rewound_bounds = ground (arith, v.cursor_le, v.order.count_small)

  reset_not_done :
      is_done (slot pm idx).state ≡ false
      → reset_piece pm idx ≡ record pm {
        slots = set pm.slots idx (cleared (slot pm idx));
        order_cursor = rewound pm idx;
      }
  unfolding reset_piece rewound
  reset_not_done was =
      rw (forget_not_done pm idx was)
        (order_cursor_rewind_lem (set_slot pm idx (cleared (slot pm idx))) idx)

  reset_done :
      is_done (slot pm idx).state ≡ true
      → reset_piece pm idx ≡ record pm {
        slots = set pm.slots idx (cleared (slot pm idx));
        have_bf = bf_clear pm.have_bf idx;
        available_bf = bf_clear pm.available_bf idx;
        num_done = pm.num_done - 1;
        completed_bytes = pm.completed_bytes - piece_len pm idx;
        order_cursor = rewound pm idx;
      }
  unfolding reset_piece rewound
  reset_done was =
      rw (forget_done_done was)
        (order_cursor_rewind_lem (set_slot (forgotten pm idx) idx (cleared (slot pm idx))) idx)

  pub reset_piece-IsValid : IsValid (reset_piece pm idx)
  unfolding cleared piece_len
  reset_piece-IsValid = elim (Bool-cases (is_done (slot pm idx).state)) [
    | inr was ↦ rw (reset_not_done was) (
        lower-Valid _ (rewound pm idx)
          (set_slot-Valid (ledger pm) idx (cleared (slot pm idx)) v h (sym was)) rewound_bounds.0)
    | inl was ↦ rw (reset_done was) (
        take_back-Valid (ledger pm) idx (rewound pm idx) (cleared (slot pm idx)) v h was refl
          rewound_bounds.0 rewound_bounds.1)
  ]
