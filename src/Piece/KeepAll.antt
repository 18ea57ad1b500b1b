-- ===== src/Piece/KeepAll.antt =====
-- Completed pieces keep the manager sound: `hash_enqueue`, the verification on the spot, the buffers.
use pipensx_video_downloader.Prelude.{
  ℕ, ◌+◌, ◌/◌, ◌%◌, ◌<◌, ◌≡◌, refl, ap, ◌∙◌, false, not, ◌||◌, ◌⊎◌, inl, inr, List, [], ◌∷◌, Option,
  Bytes, Bool-cases, Option-cases, length, take, arith,
}
use pipensx_video_downloader.Piece.State.{
  PieceState, ps_empty, ps_pending, ps_done, ps_hashing, PieceSlot, PieceMgr, PieceOps, System,
  slot, slot_at, is_done, u32_mod, block_size, block_is_set, block_set, piece_len, piece_bytes,
  abs_off, mark_piece_done, piece_buf_get,
}
use pipensx_video_downloader.Piece.HashQueue.{
  is_hashing, hash_matches, buf_bytes, start_worker, hash_enqueue,
}
use pipensx_video_downloader.Piece.Blocks.{
  settled, ensure_buf, store_block, verify_inline, complete_piece,
}
use pipensx_video_downloader.Piece.Totals.{slot_at-set_self}
use pipensx_video_downloader.Piece.Valid.{ledger}
use pipensx_video_downloader.Piece.Keep.{Ring, ring, piece_buf_put-ring, mark_piece_done-ring}
use pipensx_video_downloader.Piece.KeepHash.{
  IsSound, piece_buf_put-IsSound, reset_piece-IsSound, set_slot-IsSound, mark_piece_done-IsSound,
}
use pipensx_video_downloader.Piece.Enqueue.{queue_piece-IsSound, start_worker-same}

-- A slot that still takes blocks.
pub open_slot : (s : PieceState) → settled s ≡ false → (is_done s ≡ false) × (is_hashing s ≡ false)
open_slot ps_empty h = (refl, refl)
open_slot ps_pending h = (refl, refl)
open_slot ps_done h = ground arith
open_slot ps_hashing h = ground arith

pub store_block-pending :
    (sl : PieceSlot) (offset : ℕ) (bs : Bytes) → (store_block sl offset bs).state ≡ ps_pending
unfolding store_block block_set
store_block-pending sl offset bs = elim (Bool-cases (block_is_set sl (offset / block_size))) [
  | inl e ↦ rw e
  | inr e ↦ rw e
]

pool_cases :
    (pool : List Bytes) → (pool ≡ []) ⊎ ((b : Bytes) × (rest : List Bytes) × (pool ≡ b ∷ rest))
pool_cases [] = inl refl
pool_cases (b ∷ rest) = inr (b, rest, refl)

module _ {Store : Type 0} where
  pub same-IsSound :
      (pm pm' : PieceMgr Store)
      → IsSound pm
      → ledger pm' ≡ ledger pm
      → ring pm' ≡ ring pm
      → IsSound pm'
  same-IsSound pm pm' s e f = record { valid = rw e s.valid; queue = rw f s.queue }

  -- Nothing that the invariant or the slots speak of has changed.
  abbrev Same : PieceMgr Store → PieceMgr Store → Type 0
  Same pm' pm = (ledger pm' ≡ ledger pm) × (ring pm' ≡ ring pm)

  hash_enqueue-kept :
      (sys : System) (ops : PieceOps Store) (pm : PieceMgr Store) (idx plen : ℕ)
      → (hash_enqueue sys ops pm idx plen).1 ≡ false
      → Same (hash_enqueue sys ops pm idx plen).0 pm
  unfolding hash_enqueue
  hash_enqueue-kept sys ops pm idx plen = elim (Bool-cases (not pm.hash_ok || not pm.has_store)) [
    | inl e ↦ rw e (λ h. (refl, refl))
    | inr e ↦ elim (Bool-cases (start_worker sys pm).1) [
      | inl f ↦ rw (e, f) (λ h. ground arith)
      | inr f ↦ rw (e, f) (λ h. start_worker-same sys pm)
    ]
  ]

  hash_enqueue-IsSound :
      (sys : System) (ops : PieceOps Store) (pm : PieceMgr Store) (idx plen : ℕ)
      → IsSound pm
      → idx < pm.num_pieces
      → settled (slot pm idx).state ≡ false
      → plen ≡ piece_len pm idx
      → IsSound (hash_enqueue sys ops pm idx plen).0
  unfolding hash_enqueue piece_len
  hash_enqueue-IsSound sys ops pm idx plen s h was e =
      let started = (start_worker sys pm).0 in
      let same = start_worker-same sys pm in
      let free = open_slot _ was in
      let s' = same-IsSound pm started s same.0 same.1 in
      elim (Bool-cases (not pm.hash_ok || not pm.has_store)) [
        | inl c ↦ rw c s
        | inr c ↦ elim (Bool-cases (start_worker sys pm).1) [
          | inr f ↦ rw (c, f) s'
          | inl f ↦
              rw (c, f)
                (queue_piece-IsSound ops started idx plen s' (rw (ap (λ l. l.num_pieces) same.0) h)
                  (rw (ap (λ l. slot_at l.slots idx) same.0) free.0)
                  (rw (ap (λ l. slot_at l.slots idx) same.0) free.1)
                  (rw (ap (λ l. piece_bytes l.mi l.num_pieces idx) same.0) e))
        ]
      ]

  verify_inline-IsSound :
      (ops : PieceOps Store) (pm : PieceMgr Store) (idx plen : ℕ)
      → IsSound pm
      → idx < pm.num_pieces
      → settled (slot pm idx).state ≡ false
      → plen % u32_mod ≡ piece_len pm idx
      → IsSound (verify_inline ops pm idx plen).0
  unfolding verify_inline piece_len
  verify_inline-IsSound ops pm idx plen s h was e =
      let buf = buf_bytes (slot pm idx).buf in
      let w = ops.storage_write pm.store (abs_off pm idx) (take plen buf) in
      let pm' : PieceMgr Store = record pm { store = w.0 } in
      let s' : IsSound pm' = record { valid = s.valid; queue = s.queue } in
      let marked =
        mark_piece_done-IsSound ops pm' idx (plen % u32_mod) s' h (open_slot _ was).0 e in
      elim (Bool-cases (hash_matches ops pm idx buf plen)) [
        | inr c ↦ rw c (reset_piece-IsSound pm idx s h)
        | inl c ↦ elim (Bool-cases w.1) [
          | inr f ↦ rw (c, f) (reset_piece-IsSound pm' idx s' h)
          | inl f ↦
              rw (c, f)
                (set_slot-IsSound _ idx _
                  (piece_buf_put-IsSound _
                    (slot (mark_piece_done ops pm' idx (plen % u32_mod)) idx).buf marked)
                  (rw
                    (ap (λ (r : Ring). r.num_pieces)
                      (piece_buf_put-ring (mark_piece_done ops pm' idx (plen % u32_mod))
                          (slot (mark_piece_done ops pm' idx (plen % u32_mod)) idx).buf
                        ∙ mark_piece_done-ring ops pm' idx (plen % u32_mod)))
                    h)
                  refl)
        ]
      ]

  -- A completed piece, by the worker or on the spot.
  pub complete_piece-IsSound :
      (sys : System) (ops : PieceOps Store) (pm : PieceMgr Store) (idx : ℕ)
      → IsSound pm
      → idx < pm.num_pieces
      → settled (slot pm idx).state ≡ false
      → IsSound (complete_piece sys ops pm idx (piece_len pm idx)).0
  unfolding complete_piece piece_len
  complete_piece-IsSound sys ops pm idx s h was =
      let plen = piece_len pm idx in
      let fits : plen % u32_mod ≡ plen = ground (arith, s.queue.pieces_small idx h) in
      let kept = hash_enqueue-kept sys ops pm idx (plen % u32_mod) in
      let sound = hash_enqueue-IsSound sys ops pm idx (plen % u32_mod) s h was fits in
      elim (Bool-cases (hash_enqueue sys ops pm idx (plen % u32_mod)).1) [
        | inl e ↦ rw e sound
        | inr e ↦ rw e (
            verify_inline-IsSound ops _ idx plen sound (rw (ap (λ l. l.num_pieces) (kept e).0) h)
              (rw (ap (λ l. slot_at l.slots idx) (kept e).0) was)
              (rw (ap (λ l. piece_bytes l.mi l.num_pieces idx) (kept e).0) fits))
      ]

  -- The buffer that a slot gets changes nothing else.
  pub ensure_buf-kept :
      (sys : System) (pm : PieceMgr Store) (idx : ℕ)
      → IsSound pm
      → idx < pm.num_pieces
      → IsSound (ensure_buf sys pm idx)
        × (((ensure_buf sys pm idx).num_pieces ≡ pm.num_pieces)
            × ((slot (ensure_buf sys pm idx) idx).state ≡ (slot pm idx).state))
  unfolding ensure_buf piece_buf_get
  ensure_buf-kept sys pm idx s h = elim (Option-cases (slot pm idx).buf) [
    | inr (buf, e) ↦ rw (e, ensure_buf) (s, (refl, refl))
    | inl e ↦
        let there : idx < length pm.slots = omega (arith, s.valid.count) in
        let same = λ (b : Option Bytes).
          ap (λ (sl : PieceSlot). sl.state)
            (slot_at-set_self pm.slots idx (record (slot pm idx) { buf = b }) there) in
        elim (pool_cases pm.buf_pool) [
          | inl none_left ↦
              rw (e, ensure_buf, none_left, piece_buf_get)
                (
                  set_slot-IsSound (record pm { allocs = pm.allocs + 1 }) idx _
                      (same-IsSound pm _ s refl refl) h refl,
                  (refl, same _),
                )
          | inr (buf, pool, some_left) ↦
              rw (e, ensure_buf, some_left, piece_buf_get)
                (
                  set_slot-IsSound (record pm { buf_pool = pool }) idx _
                      (same-IsSound pm _ s refl refl) h refl,
                  (refl, same _),
                )
        ]
  ]
