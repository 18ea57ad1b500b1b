-- ===== src/Peer/Buffer.antt =====
-- core/peer.c: the receive buffer, and the handshake in it.
use pipensx_video_downloader.Prelude.{
  ℕ, ◌+◌, ◌-◌, ◌/◌, ◌%◌, Bool, true, false, not, ◌&&◌, ◌||◌, [], ◌∷◌, ◌++◌, Bytes, ltb, ◌==◌,
  if◌then◌else◌, length, take, drop, get_or,
}
use pipensx_video_downloader.Bencode.{same_bytes}
use pipensx_video_downloader.Rc4.{Rc4, rc4_crypt}
use pipensx_video_downloader.Peer.Send.{Transport, peer_send_raw}
use pipensx_video_downloader.Peer.Requests.{ps_handshake, ps_active, Peer}
use pipensx_video_downloader.Peer.Messages.{Progress, wait, more, fail}

abbrev pub bt_handshake_len : ℕ
bt_handshake_len = 68

abbrev pub peer_recv_buffer_size : ℕ
peer_recv_buffer_size = 262148

-- The fields of `peer_ctx_t` that the handshake uses.
pub record PeerCtx : Type 0 where
  pub info_hash : Bytes
  pub peer_id : Bytes

-- "BitTorrent protocol"
abbrev pub protocol : Bytes
protocol =
    b'B' ∷ b'i' ∷ b't' ∷ b'T' ∷ b'o' ∷ b'r' ∷ b'r' ∷ b'e' ∷ b'n' ∷ b't' ∷ b' ' ∷ b'p' ∷ b'r' ∷ b'o'
    ∷ b't' ∷ b'o' ∷ b'c' ∷ b'o' ∷ b'l' ∷ []

-- The bits for extensions and for the DHT.
abbrev pub reserved : Bytes
reserved = 0 ∷ 0 ∷ 0 ∷ 0 ∷ 0 ∷ 16 ∷ 0 ∷ 1 ∷ []

unfoldable pub build_handshake : PeerCtx → Bytes
build_handshake ctx = 19 ∷ (protocol ++ (reserved ++ (ctx.info_hash ++ ctx.peer_id)))

unfoldable pub peer_send_handshake : Transport → Peer → PeerCtx → Peer × Bool
peer_send_handshake transport p ctx =
    let s = peer_send_raw transport p.sender (build_handshake ctx) in
    (record p { state = ps_handshake; sender = s.0 }, s.1)

-- What process_handshake makes of the bytes `hs` that are not consumed yet.
unfoldable pub handshake_at : ℕ → Peer → PeerCtx → Bytes → Peer × Progress
handshake_at now p ctx hs =
    let accepted : Peer = record p {
      supports_ext = get_or hs 25 0 / 16 % 2 == 1;
      rbuf_head = p.rbuf_head + bt_handshake_len;
      state = ps_active;
      last_recv_ms = now;
    } in
    if ltb (length hs) bt_handshake_len
    then (p, wait)
    else if not (same_bytes (take 20 hs) (19 ∷ protocol))
        || not (same_bytes (take 20 (drop 28 hs)) ctx.info_hash)
    then (p, fail)
    else (accepted, more)

unfoldable pub process_handshake : ℕ → Peer → PeerCtx → Peer × Progress
process_handshake now p ctx = handshake_at now p ctx (drop p.rbuf_head p.rbuf)

-- The bytes that are not consumed yet.
abbrev pub unread : Peer → Bytes
unread p = drop p.rbuf_head p.rbuf

unfoldable pub peer_rbuf_space : Peer → ℕ
peer_rbuf_space p = peer_recv_buffer_size - (length p.rbuf - p.rbuf_head)

-- `if (p->rbuf_head == p->rbuf_len)`
unfoldable pub rewind : Peer → Peer
rewind p = if p.rbuf_head == length p.rbuf then record p { rbuf = []; rbuf_head = 0 } else p

-- `if (tail < len && p->rbuf_head > 0)`
unfoldable pub reclaim : Peer → ℕ → Peer
reclaim p len =
    if ltb (peer_recv_buffer_size - length p.rbuf) len && ltb 0 p.rbuf_head
    then record p { rbuf = drop p.rbuf_head p.rbuf; rbuf_head = 0 }
    else p

-- The bytes as they are stored, and the state of the receiving cipher behind them.
unfoldable pub decoded : Peer → Bytes → Rc4 × Bytes
decoded p bs = if p.sender.mse_active then rc4_crypt p.mse.recv_rc4 bs else (p.mse.recv_rc4, bs)

unfoldable pub store : Peer → Bytes → Peer
store p bs = record p {
  rbuf = p.rbuf ++ (decoded p bs).1;
  mse = record p.mse { recv_rc4 = (decoded p bs).0 };
}

-- `has_rbuf` is what peer_rbuf_ensure returns.
unfoldable pub peer_rbuf_append : Bool → Peer → Bytes → Peer × Bool
peer_rbuf_append has_rbuf p bs =
    let q = reclaim (rewind p) (length bs) in
    if length bs == 0
    then (p, true)
    else if not has_rbuf
    then (p, false)
    else if ltb (peer_recv_buffer_size - length q.rbuf) (length bs)
    then (q, false)
    else (store q bs, true)
