-- ===== src/Peer/Encrypted.antt =====
-- core/peer.c: the part of peer_process that drives the encryption handshake of core/mse.c.
use pipensx_video_downloader.Prelude.{
  ◌+◌, ◌≤◌, ◌≡◌, Bool, true, false, ◌++◌, none, some, Bytes, ◌==◌, if◌then◌else◌, length, take,
}
use pipensx_video_downloader.Rc4.{Rc4, rc4_crypt}
use pipensx_video_downloader.Mse.{
  mse_continue, mse_done, mse_fail, MseOps, Feed, st_read_pub, request_plain, mse_client_feed,
}
use pipensx_video_downloader.Mse.Handshake.{Answer, answer, finished, behind_answer}
use pipensx_video_downloader.Peer.Send.{Transport, peer_send_raw}
use pipensx_video_downloader.Peer.Requests.{ps_handshake, Peer}
use pipensx_video_downloader.Peer.Buffer.{unread}

-- `if (produced && !peer_send_raw(…)) return -1;`
unfoldable pub send_produced : Transport → Peer → Bytes → Peer × Bool
send_produced transport p produced =
    let s = peer_send_raw transport p.sender produced in
    if length produced == 0 then (p, true) else (record p { sender = s.0 }, s.1)

-- The bytes behind the handshake are decrypted where they stand.
unfoldable pub activate : Peer → Peer
activate p =
    let plain = rc4_crypt p.mse.recv_rc4 (unread p) in
    record p {
      sender = record p.sender { mse_active = true; send_rc4 = p.mse.send_rc4 };
      mse = record p.mse { recv_rc4 = plain.0 };
      rbuf = take p.rbuf_head p.rbuf ++ plain.1;
      state = ps_handshake;
    }

-- What follows the call of mse_client_feed; false is the return of -1.
unfoldable pub mse_fed : Transport → Peer → Feed → Peer × Bool
mse_fed transport p f =
    let s =
      send_produced transport (record p { mse = f.client; rbuf_head = p.rbuf_head + f.consumed })
        f.produced in
    elim s.1 [
      | false ↦ (s.0, false)
      | true ↦ elim f.returned [
        | none ↦ (s.0, true)
        | some status ↦ elim status [
          | mse_fail ↦ (s.0, false)
          | mse_done ↦ (activate s.0, true)
          | mse_continue ↦ (s.0, true)
        ]
      ]
    ]

-- `if (p->state == PS_MSE)`
unfoldable pub process_mse : MseOps → Transport → Peer → Peer × Bool
process_mse ops transport p = mse_fed transport p (mse_client_feed ops p.mse (unread p) 256)

-- Sending changes only the sender.
record Same (p q : Peer) : Type 0 where
  bytes : q.rbuf ≡ p.rbuf
  head : q.rbuf_head ≡ p.rbuf_head
  mse : q.mse ≡ p.mse

-- The peer has finished the handshake and sent `text` behind it, under the stream of its answer.
module _ (ops : MseOps) (transport : Transport) (p : Peer)
    (peer_pub pad_b select pad_d text more : Bytes)
    (a : Answer ops p.mse peer_pub pad_b select pad_d more) (waiting : p.mse.state ≡ st_read_pub)
    (small : 40 + length (request_plain p.mse.ia) ≤ 256) (in_buffer : p.rbuf_head ≤ length p.rbuf)
    (arrived : unread p ≡ answer ops p.mse peer_pub pad_b select pad_d more a) where
  abbrev fed : Feed
  fed = finished ops p.mse peer_pub pad_b select pad_d more a

  abbrev before : Peer
  before = record p { mse = fed.client; rbuf_head = p.rbuf_head + fed.consumed }

  -- The peer's cipher behind its answer.
  abbrev peer_cipher : Rc4
  peer_cipher = behind_answer ops p.mse peer_pub pad_b select pad_d more a
