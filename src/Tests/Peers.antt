-- ===== src/Tests/Peers.antt =====
-- core/peer.c on short buffers.
use pipensx_video_downloader.Prelude.{
  none, ℕ, ◌≤◌, min, ◌≡◌, ◌↔◌, refl, true, false, [], ◌∷◌, ◌++◌, some, Bytes, replicate, arith,
}
use pipensx_video_downloader.Mse.{MseClient, st_read_pub, zero_rc4}
use pipensx_video_downloader.Peer.Send.{
  Sender, Transport, peer_buf_size, header, queue, peer_send_plain, peer_send_raw, send_chunks,
  peer_flush, reserve, send_msg,
}
use pipensx_video_downloader.Peer.Sent.{Plain, Sent}
use pipensx_video_downloader.Peer.Frames.{send_msg-Sent}
use pipensx_video_downloader.Peer.Whole.{send_msg-nothing}
use pipensx_video_downloader.Peer.Requests.{
  ps_handshake, ps_dead, remember_dropped, ps_active, Peer, take_pipeline_request,
}
use pipensx_video_downloader.Peer.Messages.{
  step, process_loop, more, wait, on_block, after_switch, be32, piece_msg, dispatch, message_at,
  process_message,
}
use pipensx_video_downloader.Peer.Buffer.{
  PeerCtx, build_handshake, process_handshake, unread, peer_rbuf_space, rewind, reclaim, decoded,
  store, peer_rbuf_append,
}
use pipensx_video_downloader.Peer.Received.{
  peer_rbuf_append-unread, peer_rbuf_append_iff, process_handshake-build,
}
use pipensx_video_downloader.Peer.Loop.{Left, process_loop_stops}
use pipensx_video_downloader.Peer.Dropped.{piece_msg-remember_dropped}
use pipensx_video_downloader.Peer.Framing.{process_message-frame}
use pipensx_video_downloader.Peer.Admission.{TakenOut, process_message-on_block}

-- A transport that takes two bytes of every call, and one that takes none.
abbrev slow : Transport
slow k n = some (min 2 n)

abbrev stuck : Transport
stuck k n = some 0

abbrev fresh : Sender
fresh = record { sbuf = []; mse_active = false; send_rc4 = zero_rc4; wire = []; writes = 0 }

-- INTERESTED, of which the transport takes two bytes of the header.
interested_goes_out : (send_msg slow fresh (2 ∷ [])).1 ≡ true
unfolding header queue peer_send_plain peer_send_raw send_chunks peer_flush reserve send_msg
interested_goes_out = refl

send_msg-Sent_example : Sent fresh (header 1 ++ (2 ∷ [])) (send_msg slow fresh (2 ∷ [])).0
send_msg-Sent_example = send_msg-Sent slow fresh (2 ∷ []) interested_goes_out

-- A full queue.
abbrev crowded : Sender
crowded = record {
  sbuf = replicate peer_buf_size 7;
  mse_active = true;
  send_rc4 = zero_rc4;
  wire = [];
  writes = 0;
}

crowded_refuses : (send_msg stuck crowded (2 ∷ [])).1 ≡ false
unfolding header queue peer_send_plain peer_send_raw send_chunks peer_flush reserve send_msg
crowded_refuses = refl

send_msg-nothing_example : Plain crowded [] (send_msg stuck crowded (2 ∷ [])).0
send_msg-nothing_example = send_msg-nothing stuck (λ k n e. cc e) crowded (2 ∷ []) crowded_refuses

-- A peer that owes the bytes 16 to 17 of piece 3, and has sent them with a byte more.
abbrev client : MseClient
client = record {
  state = st_read_pub;
  priv = [];
  info_hash = [];
  ia = [];
  send_rc4 = zero_rc4;
  recv_rc4 = zero_rc4;
  vc_expect = [];
  skipped = 0;
  select_buf = [];
  padd_remaining = 0;
}

abbrev owing : Peer
owing = record {
  state = ps_active;
  sender = fresh;
  mse = client;
  supports_ext = false;
  rbuf = 0 ∷ 0 ∷ 0 ∷ 11 ∷ 7 ∷ 0 ∷ 0 ∷ 0 ∷ 3 ∷ 0 ∷ 0 ∷ 0 ∷ 16 ∷ 5 ∷ 6 ∷ 9 ∷ [];
  rbuf_head = 0;
  am_choked = false;
  am_interested = true;
  peer_interested = false;
  bitfield = 16 ∷ [];
  pipeline =
      record { index = 3; offset = 0; length = 16; requested_ms = 1 }
      ∷ record { index = 3; offset = 16; length = 2; requested_ms = 4 }
      ∷ [];
  recent_dropped = [];
  recent_dropped_next = 0;
  peer_ext_pex = 0;
  downloaded = 0;
  telemetry_piece_bytes = 0;
  last_recv_ms = 0;
  last_piece_ms = 0;
  block_lat_ema_ms = 0;
  timeout_strikes = 0;
  unsolicited_piece_strikes = 0;
}

block_arrives : (process_message 8 10 11 owing).calls ≡ on_block 3 16 (5 ∷ 6 ∷ []) ∷ []
unfolding be32 piece_msg dispatch message_at process_message take_pipeline_request after_switch
block_arrives = refl

process_message-on_block_example :
    (requested_ms : ℕ) × TakenOut owing.pipeline 3 16 2 requested_ms
      (process_message 8 10 11 owing).peer.pipeline
process_message-on_block_example =
    process_message-on_block 8 10 11 owing 3 16 (5 ∷ 6 ∷ []) block_arrives

process_message-frame_example :
    process_message 8 10 11 owing
    ≡ after_switch 11 11 (dispatch 8 10 owing 7 (0 ∷ 0 ∷ 0 ∷ 3 ∷ 0 ∷ 0 ∷ 0 ∷ 16 ∷ 5 ∷ 6 ∷ []))
unfolding header
process_message-frame_example =
    process_message-frame 8 10 11 owing 7 (0 ∷ 0 ∷ 0 ∷ 3 ∷ 0 ∷ 0 ∷ 0 ∷ 16 ∷ 5 ∷ 6 ∷ []) (9 ∷ [])
      refl (omega arith)

abbrev ctx : PeerCtx
ctx = record { info_hash = replicate 20 7; peer_id = replicate 20 8 }

-- A peer whose buffer has been consumed up to the given bytes.
abbrev reading : Bytes → Peer
reading bs = record owing { rbuf = 1 ∷ 2 ∷ bs; rbuf_head = 2 }

process_handshake-build_example :
    process_handshake 10 (reading (build_handshake ctx ++ (5 ∷ []))) ctx ≡ (
      record (reading (build_handshake ctx ++ (5 ∷ []))) {
        supports_ext = true;
        rbuf_head = 70;
        state = ps_active;
        last_recv_ms = 10;
      },
      more,
    )
process_handshake-build_example =
    process_handshake-build 10 (reading (build_handshake ctx ++ (5 ∷ []))) ctx (5 ∷ []) refl refl
      refl

appended : (peer_rbuf_append true (reading (3 ∷ [])) (4 ∷ [])).1 ≡ true
unfolding rewind reclaim store decoded peer_rbuf_append
appended = refl

peer_rbuf_append-unread_example :
    unread (peer_rbuf_append true (reading (3 ∷ [])) (4 ∷ [])).0
    ≡ (3 ∷ []) ++ (decoded (reading (3 ∷ [])) (4 ∷ [])).1
peer_rbuf_append-unread_example =
    peer_rbuf_append-unread true (reading (3 ∷ [])) (4 ∷ []) (omega arith) appended

peer_rbuf_append_iff_example :
    ((peer_rbuf_append true (reading (3 ∷ [])) (4 ∷ [])).1 ≡ true)
    ↔ (1 ≤ peer_rbuf_space (reading (3 ∷ [])))
peer_rbuf_append_iff_example =
    peer_rbuf_append_iff (reading (3 ∷ [])) (4 ∷ []) (omega arith) (omega arith)

-- A connection that still waits for the handshake handles no message.
loop_before_handshake :
    process_loop 8 (λ k. (10, 11)) (λ calls st. st) 17 (record owing { state = ps_handshake })
    ≡ step (record owing { state = ps_handshake }) [] wait
unfolding process_loop process_message
loop_before_handshake = refl

-- A callback in which the transport fails ends the loop behind its message.
loop_behind_failure :
    let s = process_loop 8 (λ k. (10, 11)) (λ calls st. ps_dead) 17 owing in
    (s.progress ≡ wait)
    × ((s.peer.state ≡ ps_dead) × (s.peer.pipeline ≡ (process_message 8 10 11 owing).peer.pipeline))
unfolding process_loop process_message message_at dispatch be32 after_switch piece_msg
    take_pipeline_request
loop_behind_failure = (refl, (refl, refl))

process_loop_stops_example : Left (process_loop 8 (λ k. (10, 11)) (λ calls st. st) 17 owing)
process_loop_stops_example =
    process_loop_stops 8 (λ k. (10, 11)) (λ calls st. st) 17 owing (omega arith) (omega arith)

-- The bytes 32 and 33 of piece 3, after the request was dropped.
unasked : take_pipeline_request owing.pipeline 3 32 2 ≡ none
unfolding take_pipeline_request
unasked = refl

piece_msg-remember_dropped_example :
    piece_msg 10 (remember_dropped owing 3 32 2) (header 3 ++ (header 32 ++ (5 ∷ 6 ∷ [])))
    ≡ step (remember_dropped owing 3 32 2) [] more
piece_msg-remember_dropped_example =
    piece_msg-remember_dropped 10 owing 3 32 (5 ∷ 6 ∷ []) (omega arith) (omega arith) (omega arith)
      unasked
