-- ===== src/Peer/Dropped.antt =====
-- core/peer.c: the late answer to a request that was expired or cancelled.
use pipensx_video_downloader.Prelude.{
  ℕ, zero, suc, ◌%◌, ◌≤◌, ◌<◌, ◌≡◌, refl, Bool, true, false, ◌||◌, inl, inr, List, [], ◌∷◌, ◌++◌,
  none, Bytes, ltb, Bool-cases, length, drop, set, arith,
}
use pipensx_video_downloader.Peer.Send.{header}
use pipensx_video_downloader.Peer.Requests.{
  recent_dropped_requests, BlockReq, Peer, matches, remember_dropped, was_recently_dropped,
  take_pipeline_request,
}
use pipensx_video_downloader.Peer.Messages.{step, more, be32, piece_msg}
use pipensx_video_downloader.Peer.Framing.{be32-header}

or_true : (b : Bool) → b || true ≡ true
or_true true = refl
or_true false = refl

matches_self : (r : BlockReq) → matches r r.index r.offset r.length ≡ true
matches_self r = ground arith

was_recently_dropped-append :
    (rs : List BlockReq) (r : BlockReq)
    → was_recently_dropped (rs ++ (r ∷ [])) r.index r.offset r.length ≡ true
unfolding was_recently_dropped
was_recently_dropped-append [] r = rw (matches_self r) refl
was_recently_dropped-append (s ∷ rs) r =
    rw (was_recently_dropped-append rs r) (or_true (matches s r.index r.offset r.length))

was_recently_dropped-set :
    (rs : List BlockReq) (slot : ℕ) (r : BlockReq)
    → slot < length rs
    → was_recently_dropped (set rs slot r) r.index r.offset r.length ≡ true
unfolding was_recently_dropped
was_recently_dropped-set [] slot r lt = elim lt [ ]
was_recently_dropped-set (s ∷ rs) zero r lt = rw (matches_self r) refl
was_recently_dropped-set (s ∷ rs) (suc slot) r lt =
    rw (was_recently_dropped-set rs slot r (omega arith))
      (or_true (matches s r.index r.offset r.length))

remember_dropped-was_recently_dropped :
    (p : Peer) (index offset len : ℕ)
    → length p.recent_dropped ≤ recent_dropped_requests
    → was_recently_dropped (remember_dropped p index offset len).recent_dropped index offset len
      ≡ true
unfolding remember_dropped
remember_dropped-was_recently_dropped p index offset len le =
    let r : BlockReq = record { index = index; offset = offset; length = len; requested_ms = 0 } in
    elim (Bool-cases (ltb (length p.recent_dropped) recent_dropped_requests)) [
      | inl e ↦ rw (e, remember_dropped) (was_recently_dropped-append p.recent_dropped r)
      | inr e ↦
          rw (e, remember_dropped)
            (was_recently_dropped-set p.recent_dropped
              (p.recent_dropped_next % recent_dropped_requests) r (ground arith))
    ]

piece_at :
    (idx off : ℕ) (block : Bytes)
    → idx < 4294967296
    → off < 4294967296
    → (be32 (header idx ++ (header off ++ block)) ≡ idx)
      × (be32 (drop 4 (header idx ++ (header off ++ block))) ≡ off)
      × (drop 8 (header idx ++ (header off ++ block)) ≡ block)
unfolding header
piece_at idx off block i o =
    (be32-header idx (header off ++ block) i, be32-header off block o, refl)

late_piece :
    (now : ℕ) (q : Peer) (payload block : Bytes) (idx off : ℕ)
    → (be32 payload ≡ idx) × (be32 (drop 4 payload) ≡ off) × (drop 8 payload ≡ block)
    → 8 ≤ length payload
    → take_pipeline_request q.pipeline idx off (length block) ≡ none
    → was_recently_dropped q.recent_dropped idx off (length block) ≡ true
    → piece_msg now q payload ≡ step q [] more
unfolding piece_msg
late_piece now q payload block idx off parts long unasked known =
    let whole : ltb (length payload) 8 ≡ false = ground (arith, long) in
    rw (whole, piece_msg)
      (rw (parts.0, parts.1, parts.2, unasked, piece_msg)
        (rw (parts.0, parts.1, parts.2, known) refl))

--
-- A block that answers a request which was just dropped, and that is not outstanding any more,
-- changes nothing and counts no strike, where the ring holds at most 16 requests.
pub piece_msg-remember_dropped :
    (now : ℕ) (p : Peer) (idx off : ℕ) (block : Bytes)
    → idx < 4294967296
    → off < 4294967296
    → length p.recent_dropped ≤ recent_dropped_requests
    → take_pipeline_request p.pipeline idx off (length block) ≡ none
    → piece_msg now
        (remember_dropped p idx off (length block))
        (header idx ++ (header off ++ block))
      ≡ step (remember_dropped p idx off (length block)) [] more
unfolding remember_dropped header
piece_msg-remember_dropped now p idx off block i o le unasked =
    late_piece now (remember_dropped p idx off (length block)) (header idx ++ (header off ++ block))
      block idx off (piece_at idx off block i o) (omega arith) unasked
      (remember_dropped-was_recently_dropped p idx off (length block) le)
