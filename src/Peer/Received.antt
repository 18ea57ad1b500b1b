-- ===== src/Peer/Received.antt =====
-- core/peer.c: what the receive buffer holds.
use pipensx_video_downloader.Prelude.{
  ℕ, ◌+◌, ◌-◌, ◌≤◌, ◌<◌, ◌≡◌, ◌↔◌, refl, sym, ap, ◌∙◌, Bool, true, false, not, ◌&&◌, inl, inr, [],
  ◌∷◌, ◌++◌, Bytes, ltb, ◌==◌, if◌then◌else◌, Bool-cases, length, take, drop, arith, length-append,
  length-drop,
}
use pipensx_video_downloader.Prelude.Slices.{drop-append_left, drop_all, take-append_left, take_all}
use pipensx_video_downloader.Bencode.Dict.{same_bytes_iff}
use mathlib.Core.List.{append-nil, append_assoc}
use pipensx_video_downloader.Peer.Sent.{no_bytes}
use pipensx_video_downloader.Rc4.{Rc4, rc4_crypt}
use pipensx_video_downloader.Bencode.{same_bytes}
use pipensx_video_downloader.Peer.Requests.{ps_active, Peer}
use pipensx_video_downloader.Peer.Messages.{more}
use pipensx_video_downloader.Peer.Buffer.{
  PeerCtx, bt_handshake_len, peer_recv_buffer_size, protocol, build_handshake, handshake_at,
  process_handshake, unread, peer_rbuf_space, rewind, reclaim, decoded, store, peer_rbuf_append,
}

-- A state with the same bytes to read, the same cipher and a buffer within its bounds.
record Same (p q : Peer) : Type 0 where
  bytes : unread q ≡ unread p
  code : (bs : Bytes) → decoded q bs ≡ decoded p bs
  head_le : q.rbuf_head ≤ length q.rbuf

rewind-Same : (p : Peer) → p.rbuf_head ≤ length p.rbuf → Same p (rewind p)
unfolding rewind decoded
rewind-Same p le = elim (Bool-cases (p.rbuf_head == length p.rbuf)) [
  | inl e ↦
      rw (e, rewind)
        (record {
          bytes = sym (drop_all p.rbuf_head p.rbuf (ground arith));
          code = λ bs. refl;
          head_le = omega arith;
        })
  | inr e ↦ rw (e, rewind) (record { bytes = refl; code = λ bs. refl; head_le = le })
]

reclaim-Same : (p : Peer) (len : ℕ) → p.rbuf_head ≤ length p.rbuf → Same p (reclaim p len)
unfolding reclaim decoded
reclaim-Same p len le =
    elim (Bool-cases (ltb (peer_recv_buffer_size - length p.rbuf) len && ltb 0 p.rbuf_head)) [
      | inl e ↦ rw (e, reclaim) (record { bytes = refl; code = λ bs. refl; head_le = omega arith })
      | inr e ↦ rw (e, reclaim) (record { bytes = refl; code = λ bs. refl; head_le = le })
    ]

no_bytes_decoded : (p : Peer) → (decoded p []).1 ≡ []
unfolding decoded rc4_crypt
no_bytes_decoded p = elim (Bool-cases p.sender.mse_active) [
  | inl e ↦ rw (e, decoded) refl
  | inr e ↦ rw (e, decoded) refl
]

store_unread :
    (q : Peer) (bs : Bytes)
    → q.rbuf_head ≤ length q.rbuf
    → unread (store q bs) ≡ unread q ++ (decoded q bs).1
unfolding store
store_unread q bs le = drop-append_left q.rbuf_head q.rbuf (decoded q bs).1 le

-- The branches of peer_rbuf_append.
abbrev outcome : Bool → Peer → Peer → Bytes → Bool → Bool → Peer × Bool
outcome has_rbuf p q bs none_there full =
    if none_there
    then (p, true)
    else if not has_rbuf
    then (p, false)
    else if full
    then (q, false)
    else (store q bs, true)

append_split :
    (has_rbuf : Bool) (p q : Peer) (bs : Bytes) (none_there full : Bool)
    → Same p q
    → (none_there ≡ true → bs ≡ [])
    → (outcome has_rbuf p q bs none_there full).1 ≡ true
    → unread (outcome has_rbuf p q bs none_there full).0 ≡ unread p ++ (decoded p bs).1
append_split has_rbuf p q bs true full same last h =
    sym (append-nil (unread p))
    ∙ ap (λ (t : Bytes). unread p ++ t) (sym (no_bytes_decoded p))
    ∙ ap (λ (t : Bytes). unread p ++ (decoded p t).1) (sym (last refl))
append_split false p q bs false full same last h = absurd (cc h)
append_split true p q bs false true same last h = absurd (cc h)
append_split true p q bs false false same last h =
    store_unread q bs same.head_le
    ∙ ap (λ (t : Bytes). t ++ (decoded q bs).1) same.bytes
    ∙ ap (λ (c : Rc4 × Bytes). unread p ++ c.1) (same.code bs)

--
-- Where peer_rbuf_append succeeds on a buffer whose cursor is within it, the bytes to read are
-- those from before with the new ones behind them, decrypted where the connection is encrypted.
pub peer_rbuf_append-unread :
    (has_rbuf : Bool) (p : Peer) (bs : Bytes)
    → p.rbuf_head ≤ length p.rbuf
    → (peer_rbuf_append has_rbuf p bs).1 ≡ true
    → unread (peer_rbuf_append has_rbuf p bs).0 ≡ unread p ++ (decoded p bs).1
unfolding peer_rbuf_append
peer_rbuf_append-unread has_rbuf p bs le h =
    let first = rewind-Same p le in
    let second = reclaim-Same (rewind p) (length bs) first.head_le in
    let both : Same p (reclaim (rewind p) (length bs)) = record {
      bytes = second.bytes ∙ first.bytes;
      code = λ t. second.code t ∙ first.code t;
      head_le = second.head_le;
    } in
    append_split has_rbuf p (reclaim (rewind p) (length bs)) bs (length bs == 0) _ both
      (no_bytes bs) h

-- The tail that is free once the consumed prefix is reclaimed.
reclaimed_tail :
    (p : Peer) (len : ℕ)
    → 0 < len
    → p.rbuf_head ≤ length p.rbuf
    → length p.rbuf ≤ peer_recv_buffer_size
    → ltb (peer_recv_buffer_size - length (reclaim (rewind p) len).rbuf) len
      ≡ ltb (peer_rbuf_space p) len
unfolding reclaim rewind peer_rbuf_space
reclaimed_tail p len some_there le cap = elim (Bool-cases (p.rbuf_head == length p.rbuf)) [
  | inl e ↦ elim (Bool-cases (ltb peer_recv_buffer_size len && ltb 0 0)) [
    | inl f ↦ ground arith
    | inr f ↦ rw (e, rewind) (rw (f, reclaim) (ground arith))
  ]
  | inr e ↦
      elim (Bool-cases (ltb (peer_recv_buffer_size - length p.rbuf) len && ltb 0 p.rbuf_head)) [
        | inl f ↦
            rw (e, rewind)
              (rw (f, reclaim) (ground (arith, length-drop p.rbuf_head p.rbuf, le, cap)))
        | inr f ↦ rw (e, rewind) (rw (f, reclaim) (ground (arith, le, cap)))
      ]
]

apart : ¬ (true ≡ false)
apart h = cc h

not_over :
    (p : Peer) (bs : Bytes)
    → length bs ≤ peer_rbuf_space p
    → ltb (peer_rbuf_space p) (length bs) ≡ false
not_over p bs h = ground (arith, h)

append_iff_split :
    (p q : Peer) (bs : Bytes) (none_there full : Bool)
    → (none_there ≡ true → length bs ≡ 0)
    → (none_there ≡ false → full ≡ ltb (peer_rbuf_space p) (length bs))
    → ((outcome true p q bs none_there full).1 ≡ true) ↔ (length bs ≤ peer_rbuf_space p)
append_iff_split p q bs true full none_left room = (λ h. omega (arith, none_left refl), λ h. refl)
append_iff_split p q bs false true none_left room =
    let over = room refl in (λ h. absurd (cc h), λ h. absurd (apart (over ∙ not_over p bs h)))
append_iff_split p q bs false false none_left room =
    let fits = room refl in (λ h. ground (arith, fits), λ h. refl)

--
-- With a buffer there, within its size and with the cursor in it, peer_rbuf_append succeeds
-- exactly when the bytes are no more than peer_rbuf_space reports.
pub peer_rbuf_append_iff :
    (p : Peer) (bs : Bytes)
    → p.rbuf_head ≤ length p.rbuf
    → length p.rbuf ≤ peer_recv_buffer_size
    → ((peer_rbuf_append true p bs).1 ≡ true) ↔ (length bs ≤ peer_rbuf_space p)
unfolding peer_rbuf_append
peer_rbuf_append_iff p bs le cap =
    append_iff_split p (reclaim (rewind p) (length bs)) bs (length bs == 0)
      (ltb (peer_recv_buffer_size - length (reclaim (rewind p) (length bs)).rbuf) (length bs))
      (λ e. ground arith) (λ e. reclaimed_tail p (length bs) (ground arith) le cap)

build_len :
    (ctx : PeerCtx) (rest : Bytes)
    → length ctx.info_hash ≡ 20
    → length ctx.peer_id ≡ 20
    → length (build_handshake ctx ++ rest) ≡ 68 + length rest
unfolding build_handshake
build_len ctx rest hash id = omega (
  arith,
  hash,
  id,
  length-append (ctx.info_hash ++ ctx.peer_id) rest,
  length-append ctx.info_hash ctx.peer_id,
)

hash_at :
    (ctx : PeerCtx) (rest : Bytes)
    → length ctx.info_hash ≡ 20
    → take 20 (drop 28 (build_handshake ctx ++ rest)) ≡ ctx.info_hash
unfolding build_handshake
hash_at ctx rest hash =
    ap (take 20) (append_assoc ctx.info_hash ctx.peer_id rest)
    ∙ take-append_left 20 ctx.info_hash (ctx.peer_id ++ rest) (omega (arith, hash))
    ∙ take_all 20 ctx.info_hash (omega (arith, hash))

handshake_at-build :
    (now : ℕ) (p : Peer) (ctx : PeerCtx) (rest : Bytes)
    → length ctx.info_hash ≡ 20
    → length ctx.peer_id ≡ 20
    → handshake_at now p ctx (build_handshake ctx ++ rest) ≡ (
      record p {
        supports_ext = true;
        rbuf_head = p.rbuf_head + bt_handshake_len;
        state = ps_active;
        last_recv_ms = now;
      },
      more,
    )
unfolding handshake_at build_handshake
handshake_at-build now p ctx rest hash id =
    let hs = build_handshake ctx ++ rest in
    let long : ltb (length hs) bt_handshake_len ≡ false =
      ground (arith, build_len ctx rest hash id) in
    let name : same_bytes (take 20 hs) (19 ∷ protocol) ≡ true =
      (same_bytes_iff (take 20 hs) (19 ∷ protocol)).1 refl in
    let same : same_bytes (take 20 (drop 28 hs)) ctx.info_hash ≡ true =
      (same_bytes_iff (take 20 (drop 28 hs)) ctx.info_hash).1 (hash_at ctx rest hash) in
    rw (long, handshake_at) (rw (name, same) refl)

-- Reading the handshake of a connection on the same torrent.
--
-- The handshake that build_handshake makes for a torrent, with a hash and an id of 20 bytes each
-- and any bytes behind it, is accepted by a connection on the same hash, which consumes its 68
-- bytes, notes the extension bit and becomes active.
pub process_handshake-build :
    (now : ℕ) (p : Peer) (ctx : PeerCtx) (rest : Bytes)
    → length ctx.info_hash ≡ 20
    → length ctx.peer_id ≡ 20
    → unread p ≡ build_handshake ctx ++ rest
    → process_handshake now p ctx ≡ (
      record p {
        supports_ext = true;
        rbuf_head = p.rbuf_head + bt_handshake_len;
        state = ps_active;
        last_recv_ms = now;
      },
      more,
    )
unfolding process_handshake
process_handshake-build now p ctx rest hash id here =
    ap (handshake_at now p ctx) here ∙ handshake_at-build now p ctx rest hash id
