-- ===== src/Peer/Messages.antt =====
-- core/peer.c: the messages of a peer, one at a time. The callbacks are the list of the calls made.
use pipensx_video_downloader.Prelude.{
  Bool, zero, suc, ◌++◌, ℕ, ◌+◌, ◌-◌, ◌*◌, ◌/◌, ◌%◌, true, false, not, ◌&&◌, List, [], ◌∷◌, none,
  some, Bytes, ltb, leb, ◌==◌, if◌then◌else◌, length, take, drop, get_or, ℤ, memcpy,
}
use pipensx_video_downloader.Prelude.Errors.{◌>>=◌}
use pipensx_video_downloader.Bencode.{be_dict_get}
use pipensx_video_downloader.Prelude.{pos, negsuc}
use pipensx_video_downloader.Metainfo.Files.{as_str, as_int, as_dict}
use pipensx_video_downloader.Piece.Bitfield.{bf_set}
use pipensx_video_downloader.Peer.Requests.{
  max_unsolicited_pieces, PeerState, ps_active, Peer, was_recently_dropped, take_pipeline_request,
}

-- A call of `on_block`, `on_have` or `on_peers`.
pub data Call : Type 0 where
  on_block : ℕ → ℕ → Bytes → Call
  on_have : ℕ → Call
  on_peers : Bytes → ℕ → Call

-- 0, 1 and -1
pub data Progress : Type 0 where
  wait more fail : Progress

pub record Step : Type 0 where
  pub peer : Peer
  pub calls : List Call
  pub progress : Progress

-- A big-endian number of 32 bits at the front.
unfoldable pub be32 : Bytes → ℕ
be32 bs = get_or bs 0 0 * 16777216 + get_or bs 1 0 * 65536 + get_or bs 2 0 * 256 + get_or bs 3 0

-- `(uint8_t)ival`
abbrev pub low_byte : ℤ → ℕ
low_byte (pos n) = n % 256
low_byte (negsuc n) = 255 - n % 256

-- "m", "ut_pex" and "added"
abbrev pub str_m : Bytes
str_m = b'm' ∷ []

abbrev pub str_ut_pex : Bytes
str_ut_pex = b'u' ∷ b't' ∷ b'_' ∷ b'p' ∷ b'e' ∷ b'x' ∷ []

abbrev pub str_added : Bytes
str_added = b'a' ∷ b'd' ∷ b'd' ∷ b'e' ∷ b'd' ∷ []

-- be_dict_get refuses what does not start with 'd'.
unfoldable pub parse_ext_handshake : Peer → Bytes → Peer
parse_ext_handshake p bs =
    elim (be_dict_get bs str_m >>= as_dict >>= (λ m. be_dict_get m str_ut_pex >>= as_int)) [
      | none ↦ p
      | some v ↦ record p { peer_ext_pex = low_byte v }
    ]

unfoldable pub parse_pex : Bytes → List Call
parse_pex bs = elim (be_dict_get bs str_added >>= as_str) [
  | none ↦ []
  | some added ↦
      let cnt = length added / 6 % 4294967296 in if ltb 0 cnt then on_peers added cnt ∷ [] else []
]

-- The average of the block latency, within the range of `int32_t`.
unfoldable pub latency_ema : ℕ → ℕ → ℕ
latency_ema ema sample =
    let latency = if sample == 0 then 1 else sample in
    if ema == 0
    then latency
    else if leb ema latency
    then ema + (latency - ema) * 3 / 10
    else ema - (ema - latency) * 3 / 10

-- The accounting of a block that was asked for.
unfoldable pub credit : ℕ → Peer → ℕ → ℕ → Peer
credit now p blen requested_ms = record p {
  downloaded = (p.downloaded + blen) % 18446744073709551616;
  telemetry_piece_bytes = (p.telemetry_piece_bytes + blen) % 18446744073709551616;
  last_piece_ms = now;
  block_lat_ema_ms =
      if not (requested_ms == 0) && leb requested_ms now
      then latency_ema p.block_lat_ema_ms ((now - requested_ms) % 4294967296)
      else p.block_lat_ema_ms;
  timeout_strikes = p.timeout_strikes - 1;
}

abbrev pub step : Peer → List Call → Progress → Step
step p calls progress = record { peer = p; calls = calls; progress = progress }

-- `case MSG_PIECE`
unfoldable pub piece_msg : ℕ → Peer → Bytes → Step
piece_msg now p payload =
    let idx = be32 payload in
    let off = be32 (drop 4 payload) in
    let block = drop 8 payload in
    let strikes = (p.unsolicited_piece_strikes + 1) % 4294967296 in
    elim (ltb (length payload) 8) [
      | true ↦ step p [] more
      | false ↦ elim (take_pipeline_request p.pipeline idx off (length block)) [
        | none ↦
            if was_recently_dropped p.recent_dropped idx off (length block)
            then step p [] more
            else if leb max_unsolicited_pieces strikes
            then step (record p { unsolicited_piece_strikes = strikes }) [] fail
            else step (record p { unsolicited_piece_strikes = strikes }) [] more
        | some t ↦
            step (credit now (record p { pipeline = t.1 }) (length block) t.0)
              (on_block idx off block ∷ []) more
      ]
    ]

-- `case MSG_HAVE`
unfoldable pub have_msg : ℕ → Peer → Bytes → Step
have_msg num_pieces p payload =
    let idx = be32 payload in
    if ltb (length payload) 4
    then step p [] more
    else if ltb idx num_pieces && ltb (idx / 8) (length p.bitfield)
    then step (record p { bitfield = bf_set p.bitfield idx }) (on_have idx ∷ []) more
    else step p (on_have idx ∷ []) more

-- `case MSG_EXTENDED`
unfoldable pub extended_msg : Peer → Bytes → Step
extended_msg p [] = step p [] more
extended_msg p (ext_id ∷ bs) =
    if ext_id == 0
    then step (parse_ext_handshake p bs) [] more
    else if not (p.peer_ext_pex == 0) && ext_id == p.peer_ext_pex
    then step p (parse_pex bs) more
    else step p [] more

-- The switch over the message's id. `bf_bytes` is the length of the bitfield.
unfoldable pub dispatch : ℕ → ℕ → Peer → ℕ → Bytes → Step
dispatch num_pieces now p id payload =
    if id == 0
    then step (record p { am_choked = true }) [] more
    else if id == 1
    then step (record p { am_choked = false }) [] more
    else if id == 2
    then step (record p { peer_interested = true }) [] more
    else if id == 3
    then step (record p { peer_interested = false }) [] more
    else if id == 4
    then have_msg num_pieces p payload
    else if id == 5
    then (if leb (length payload) (length p.bitfield)
        then step (record p { bitfield = memcpy p.bitfield 0 payload }) [] more
        else step p [] more)
    else if id == 7
    then piece_msg now p payload
    else if id == 20
    then extended_msg p payload
    else step p [] more

-- What stands behind the switch.
unfoldable pub after_switch : ℕ → ℕ → Step → Step
after_switch later msg_len s = elim s.progress [
  | fail ↦ s
  | more ↦ record s {
    peer = record s.peer { last_recv_ms = later; rbuf_head = s.peer.rbuf_head + (4 + msg_len) };
  }
  | wait ↦ s
]

abbrev pub max_message : ℕ
max_message = 262144

-- A message at the front of the bytes that are not consumed yet. `now` and `later` are what the clock
-- says in the switch and behind it.
unfoldable pub message_at : ℕ → ℕ → ℕ → Peer → Bytes → Step
message_at num_pieces now later p base =
    let msg_len = be32 base in
    elim (ltb (length base) 4) [
      | true ↦ step p [] wait
      | false ↦ elim (ltb max_message msg_len) [
        | true ↦ step p [] fail
        | false ↦ elim (ltb (length base) (4 + msg_len)) [
          | true ↦ step p [] wait
          | false ↦ elim (take msg_len (drop 4 base)) [
            | [] ↦ step (record p { rbuf_head = p.rbuf_head + 4 }) [] more
            | id ∷ payload ↦ after_switch later msg_len (dispatch num_pieces now p id payload)
          ]
        ]
      ]
    ]

unfoldable pub process_message : ℕ → ℕ → ℕ → Peer → Step
process_message num_pieces now later p = message_at num_pieces now later p (drop p.rbuf_head p.rbuf)

-- `p->state == PS_ACTIVE`
abbrev pub is_active : PeerState → Bool
is_active ps_active = true
is_active _ = false

-- The loop of peer_process over the messages: `wait` where it is left with nothing refused, `fail` for
-- `return -1`, `more` where the rounds run out. `clock` is read in each round, and `flagged` is the state
-- in which the callbacks leave the connection: a transport that fails inside one flags it dead.
unfoldable pub process_loop :
    ℕ → (ℕ → ℕ × ℕ) → (List Call → PeerState → PeerState) → ℕ → Peer → Step
process_loop num_pieces clock flagged zero p = step p [] more
process_loop num_pieces clock flagged (suc fuel) p =
    let s = process_message num_pieces (clock fuel).0 (clock fuel).1 p in
    let rest =
      process_loop num_pieces clock flagged fuel
        (record s.peer { state = flagged s.calls s.peer.state }) in
    elim (is_active p.state) [
      | false ↦ step p [] wait
      | true ↦ elim s.progress [
        | wait ↦ s
        | fail ↦ s
        | more ↦ record rest { calls = s.calls ++ rest.calls }
      ]
    ]
