-- ===== src/Tests/Handshakes.antt =====
-- core/peer.c with core/mse.c on a whole answer.
use pipensx_video_downloader.Prelude.{refl, true, false, [], ◌∷◌, some, Bytes, replicate, arith}
use pipensx_video_downloader.Rc4.{rc4_crypt}
use pipensx_video_downloader.Mse.{MseClient, MseOps, st_read_pub, zero_rc4, has_rc4, padd_of}
use pipensx_video_downloader.Mse.Handshake.{Answer, answer, behind_answer}
use pipensx_video_downloader.Peer.Send.{Transport}
use pipensx_video_downloader.Peer.Requests.{Peer, ps_mse}

-- A made up exponentiation, and a client that waits for the public key.
abbrev ops : MseOps
ops = record { modexp = λ base exp. replicate 96 7; garbage = replicate 64 170 }

abbrev client : MseClient
client = record {
  state = st_read_pub;
  priv = replicate 96 1;
  info_hash = replicate 20 2;
  ia = 9 ∷ [];
  send_rc4 = zero_rc4;
  recv_rc4 = zero_rc4;
  vc_expect = replicate 8 0;
  skipped = 0;
  select_buf = [];
  padd_remaining = 0;
}

abbrev select : Bytes
select = 0 ∷ 0 ∷ 0 ∷ 2 ∷ 0 ∷ 2 ∷ []

-- An answer that chooses RC4, with two bytes of padding and any bytes behind it.
well_formed : (rest : Bytes) → Answer ops client (replicate 96 7) [] select (5 ∷ 6 ∷ []) rest
unfolding has_rc4 padd_of
well_formed rest = record {
  pub_len = refl;
  select_len = refl;
  select_bytes =
      (omega arith, (omega arith, (omega arith, (omega arith, (omega arith, (omega arith, tt))))));
  offers_rc4 = refl;
  pad_d_len = refl;
  pad_d_le = omega arith;
  pad_b_le = omega arith;
  pad_b_clean = tt;
}

-- The first bytes of the peer's handshake, under its stream.
abbrev behind : Bytes
behind =
    (rc4_crypt
      (behind_answer ops client (replicate 96 7) [] select (5 ∷ 6 ∷ []) [] (well_formed []))
      (19 ∷ b'B' ∷ [])).1

abbrev peer : Peer
peer = record {
  state = ps_mse;
  sender = record { sbuf = []; mse_active = false; send_rc4 = zero_rc4; wire = []; writes = 0 };
  mse = client;
  rbuf = answer ops client (replicate 96 7) [] select (5 ∷ 6 ∷ []) behind (well_formed behind);
  rbuf_head = 0;
  am_choked = true;
  am_interested = false;
  peer_interested = false;
  bitfield = [];
  pipeline = [];
  recent_dropped = [];
  recent_dropped_next = 0;
  peer_ext_pex = 0;
  supports_ext = false;
  downloaded = 0;
  telemetry_piece_bytes = 0;
  last_recv_ms = 0;
  last_piece_ms = 0;
  block_lat_ema_ms = 0;
  timeout_strikes = 0;
  unsolicited_piece_strikes = 0;
}

-- A transport that takes all.
abbrev open_wire : Transport
open_wire k n = some n
