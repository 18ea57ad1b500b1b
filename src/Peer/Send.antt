-- ===== src/Peer/Send.antt =====
-- core/peer.c: the queue of bytes to be sent, and message framing. The transport, a socket or libutp,
-- is a function of the number of the call and of the bytes that are offered: how many it accepts, or
-- none for a hard error.
use pipensx_video_downloader.Prelude.{
  ℕ, zero, suc, ◌+◌, ◌/◌, ◌%◌, Bool, true, false, not, ◌&&◌, ◌||◌, [], ◌∷◌, ◌++◌, Option, none,
  some, Bytes, ltb, ◌==◌, if◌then◌else◌, length, take, drop,
}
use pipensx_video_downloader.Rc4.{Rc4, rc4_crypt}

-- `sizeof(p->sbuf)`
abbrev pub peer_buf_size : ℕ
peer_buf_size = 16398

-- The fields of `peer_t` that sending uses: `sbuf` holds its first `sbuf_len` bytes. `wire` is what the
-- transport has accepted, in `writes` calls.
pub record Sender : Type 0 where
  pub sbuf : Bytes
  pub mse_active : Bool
  pub send_rc4 : Rc4
  pub wire : Bytes
  pub writes : ℕ

abbrev pub Transport : Type 0
Transport = ℕ → ℕ → Option ℕ

-- The call of transport_write: its number counts, and what it accepted of `bs` is on the wire.
abbrev pub called : Sender → Sender
called p = record p { writes = p.writes + 1 }

abbrev pub accepted : Sender → ℕ → Bytes → Sender
accepted p n bs = record p { writes = p.writes + 1; wire = p.wire ++ take n bs }

-- The part of peer_send_plain behind the write.
unfoldable pub queue : Sender → Bytes → Sender × Bool
queue p bs =
    if length bs == 0
    then (p, true)
    else if ltb peer_buf_size (length p.sbuf + length bs)
    then (p, false)
    else (record p { sbuf = p.sbuf ++ bs }, true)

unfoldable pub peer_send_plain : Transport → Sender → Bytes → Sender × Bool
peer_send_plain transport p bs = elim (length p.sbuf == 0 && ltb 0 (length bs)) [
  | false ↦ queue p bs
  | true ↦ elim (transport p.writes (length bs)) [
    | none ↦ (called p, false)
    | some n ↦ queue (accepted p n bs) (drop n bs)
  ]
]

abbrev pub chunk_size : ℕ
chunk_size = 4096

-- The loop of peer_send_raw; each round takes a byte at least.
unfoldable pub send_chunks : Transport → ℕ → Sender → Bytes → Sender × Bool
send_chunks transport zero p bs = (p, true)
send_chunks transport (suc fuel) p bs = elim (ltb 0 (length bs)) [
  | false ↦ (p, true)
  | true ↦
      let enc = rc4_crypt p.send_rc4 (take chunk_size bs) in
      let r = peer_send_plain transport (record p { send_rc4 = enc.0 }) enc.1 in
      elim r.1 [ false ↦ (r.0, false) | true ↦ send_chunks transport fuel r.0 (drop chunk_size bs) ]
]

unfoldable pub peer_send_raw : Transport → Sender → Bytes → Sender × Bool
peer_send_raw transport p bs =
    if not p.mse_active || length bs == 0
    then peer_send_plain transport p bs
    else send_chunks transport (length bs) p bs

unfoldable pub peer_flush : Transport → Sender → Sender × Bool
peer_flush transport p = elim (length p.sbuf == 0) [
  | true ↦ (p, true)
  | false ↦ elim (transport p.writes (length p.sbuf)) [
    | none ↦ (called p, false)
    | some n ↦ (record (accepted p n p.sbuf) { sbuf = drop n p.sbuf }, true)
  ]
]

-- `sbuf_len + 4 + plen > sizeof(sbuf)`
abbrev pub too_full : Sender → Bytes → Bool
too_full p payload = ltb peer_buf_size (length p.sbuf + 4 + length payload)

unfoldable pub reserve : Transport → Sender → Bytes → Sender × Bool
reserve transport p payload = elim (too_full p payload) [
  | false ↦ (p, true)
  | true ↦ let f = peer_flush transport p in (f.0, f.1 && not (too_full f.0 payload))
]

-- The length of a message, the highest byte first.
unfoldable pub header : ℕ → Bytes
header plen =
    (plen / 16777216 % 256) ∷ (plen / 65536 % 256) ∷ (plen / 256 % 256) ∷ (plen % 256) ∷ []

unfoldable pub send_msg : Transport → Sender → Bytes → Sender × Bool
send_msg transport p payload =
    let r = reserve transport p payload in
    elim r.1 [
      | false ↦ (r.0, false)
      | true ↦
          let h = peer_send_raw transport r.0 (header (length payload)) in
          elim h.1 [
            | false ↦ (h.0, false)
            | true ↦ elim (ltb 0 (length payload)) [
              | true ↦ peer_send_raw transport h.0 payload
              | false ↦ (h.0, true)
            ]
          ]
    ]
