-- ===== src/Peer/Requests.antt =====
-- core/peer.c: the connection's state, and the requests that wait for an answer. An `int` that holds
-- a cast `uint32_t` is that number: the casts keep apart what differs.
use pipensx_video_downloader.Prelude.{
  ℕ, ◌+◌, ◌-◌, ◌%◌, Bool, true, false, not, ◌&&◌, ◌||◌, List, [], ◌∷◌, ◌++◌, Option, none, some,
  Bytes, ltb, leb, ◌==◌, if◌then◌else◌, length, set,
}
use pipensx_video_downloader.Prelude.Errors.{◌>>=◌}
use pipensx_video_downloader.Mse.{MseClient}
use pipensx_video_downloader.Peer.Send.{Sender, Transport, header, send_msg}

abbrev pub max_pipeline : ℕ
max_pipeline = 256

abbrev pub max_unsolicited_pieces : ℕ
max_unsolicited_pieces = 8

abbrev pub recent_dropped_requests : ℕ
recent_dropped_requests = 16

-- `block_req_t`
pub record BlockReq : Type 0 where
  pub index : ℕ
  pub offset : ℕ
  pub length : ℕ
  pub requested_ms : ℕ

-- `peer_state_t`
pub data PeerState : Type 0 where
  ps_connecting ps_mse ps_handshake ps_extension ps_active ps_dead : PeerState

-- The fields of `peer_t` that messages and requests use. `rbuf` holds its first `rbuf_len` bytes, and
-- `recent_dropped` its first `recent_dropped_count` requests. Once `mse_active`, the cipher
-- `mse.send_rc4` is the sender's.
pub record Peer : Type 0 where
  pub state : PeerState
  pub sender : Sender
  pub mse : MseClient
  pub rbuf : Bytes
  pub rbuf_head : ℕ
  pub am_choked : Bool
  pub am_interested : Bool
  pub peer_interested : Bool
  pub bitfield : Bytes
  pub pipeline : List BlockReq
  pub recent_dropped : List BlockReq
  pub recent_dropped_next : ℕ
  pub peer_ext_pex : ℕ
  pub supports_ext : Bool
  pub downloaded : ℕ
  pub telemetry_piece_bytes : ℕ
  pub last_recv_ms : ℕ
  pub last_piece_ms : ℕ
  pub block_lat_ema_ms : ℕ
  pub timeout_strikes : ℕ
  pub unsolicited_piece_strikes : ℕ

-- REQUEST and CANCEL.
unfoldable pub request_msg : ℕ → ℕ → ℕ → ℕ → Bytes
request_msg id piece offset len = id ∷ (header piece ++ (header offset ++ header len))

unfoldable pub peer_request_block : Transport → ℕ → Peer → ℕ → ℕ → ℕ → Peer × Bool
peer_request_block transport now p piece offset len =
    let s = send_msg transport p.sender (request_msg 6 piece offset len) in
    let req : BlockReq = record {
      index = piece;
      offset = offset;
      length = len;
      requested_ms = now;
    } in
    if leb max_pipeline (length p.pipeline)
    then (p, false)
    else if not s.1
    then (record p { sender = s.0 }, false)
    else (record p { sender = s.0; pipeline = p.pipeline ++ (req ∷ []) }, true)

-- The ring: a new entry stands behind the others, or in place of the oldest.
unfoldable pub remember_dropped : Peer → ℕ → ℕ → ℕ → Peer
remember_dropped p index offset len =
    let slot = p.recent_dropped_next % recent_dropped_requests in
    let req : BlockReq = record {
      index = index;
      offset = offset;
      length = len;
      requested_ms = 0;
    } in
    record p {
      recent_dropped =
          if ltb (length p.recent_dropped) recent_dropped_requests
          then p.recent_dropped ++ (req ∷ [])
          else set p.recent_dropped slot req;
      recent_dropped_next = p.recent_dropped_next + 1;
    }

abbrev pub matches : BlockReq → ℕ → ℕ → ℕ → Bool
matches r index offset len = r.index == index && r.offset == offset && r.length == len

unfoldable pub was_recently_dropped : List BlockReq → ℕ → ℕ → ℕ → Bool
was_recently_dropped [] index offset len = false
was_recently_dropped (r ∷ rs) index offset len =
    matches r index offset len || was_recently_dropped rs index offset len

-- `requested_ms <= now && now - requested_ms >= timeout_ms`
abbrev pub is_expired : ℕ → ℕ → BlockReq → Bool
is_expired now timeout_ms r = leb r.requested_ms now && leb timeout_ms (now - r.requested_ms)

-- The loop, with what is kept and what was reported to `on_expired`.
unfoldable pub expire_loop : ℕ → ℕ → Peer → List BlockReq → Peer × (List BlockReq × List BlockReq)
expire_loop now timeout_ms p [] = (p, ([], []))
expire_loop now timeout_ms p (r ∷ rs) = elim (is_expired now timeout_ms r) [
  | true ↦
      let rest = expire_loop now timeout_ms (remember_dropped p r.index r.offset r.length) rs in
      (rest.0, (rest.1.0, r ∷ rest.1.1))
  | false ↦ let rest = expire_loop now timeout_ms p rs in (rest.0, (r ∷ rest.1.0, rest.1.1))
]

unfoldable pub peer_expire_requests : ℕ → ℕ → Peer → Peer × List BlockReq
peer_expire_requests now timeout_ms p =
    let r = expire_loop now timeout_ms p p.pipeline in (record r.0 { pipeline = r.1.0 }, r.1.1)

-- The first request of the block, taken out.
unfoldable pub remove_pipeline : List BlockReq → ℕ → ℕ → List BlockReq
remove_pipeline [] piece offset = []
remove_pipeline (r ∷ rs) piece offset =
    let rest = remove_pipeline rs piece offset in
    if r.index == piece && r.offset == offset then rs else r ∷ rest

-- The `requested_ms` of the first exact match, and the others.
unfoldable pub take_pipeline_request : List BlockReq → ℕ → ℕ → ℕ → Option (ℕ × List BlockReq)
take_pipeline_request [] piece offset len = none
take_pipeline_request (r ∷ rs) piece offset len = elim (matches r piece offset len) [
  | true ↦ some (r.requested_ms, rs)
  | false ↦ take_pipeline_request rs piece offset len >>= (λ t. some (t.0, r ∷ t.1))
]

unfoldable pub is_pending : List BlockReq → ℕ → ℕ → Bool
is_pending [] piece offset = false
is_pending (r ∷ rs) piece offset =
    (r.index == piece && r.offset == offset) || is_pending rs piece offset

unfoldable pub peer_cancel_block : Transport → Peer → ℕ → ℕ → ℕ → Peer × Bool
peer_cancel_block transport p piece offset len =
    let s = send_msg transport p.sender (request_msg 8 piece offset len) in
    let dropped = remember_dropped (record p { sender = s.0 }) piece offset len in
    if not (is_pending p.pipeline piece offset)
    then (p, false)
    else if not s.1
    then (record p { sender = s.0 }, false)
    else (record dropped { pipeline = remove_pipeline p.pipeline piece offset }, true)
