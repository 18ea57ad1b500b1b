-- ===== src/Peer/Whole.antt =====
-- core/peer.c: over a transport without hard errors a message is sent as a whole or not at all.
use pipensx_video_downloader.Prelude.{
  ℕ, zero, suc, ◌+◌, ◌≤◌, ◌≡◌, ◌≢◌, refl, sym, ap, ◌∙◌, Bool, true, false, not, ◌&&◌, ◌||◌, inl,
  inr, [], none, Bytes, ltb, ◌==◌, Bool-cases, Option-cases, length, take, drop, arith,
  length-append, length-take, length-drop,
}
use pipensx_video_downloader.Rc4.{rc4_crypt}
use pipensx_video_downloader.Rc4.Stream.{length-rc4_crypt}
use pipensx_video_downloader.Peer.Send.{
  peer_buf_size, Sender, Transport, accepted, queue, peer_send_plain, chunk_size, send_chunks,
  peer_send_raw, peer_flush, too_full, reserve, header, send_msg,
}
use pipensx_video_downloader.Peer.Sent.{Plain}
use pipensx_video_downloader.Peer.Frames.{reserve-Plain}

-- The call succeeds, and the queue has grown by no more than the bytes.
Fits : Sender → ℕ → Sender × Bool → Type 0
Fits p n r = (r.1 ≡ true) × (length r.0.sbuf ≤ length p.sbuf + n)

module _ (transport : Transport) (works : (k n : ℕ) → transport k n ≢ none) where
  queue-Fits :
      (p : Sender) (bs : Bytes)
      → length p.sbuf + length bs ≤ peer_buf_size
      → Fits p (length bs) (queue p bs)
  unfolding queue Fits
  queue-Fits p bs room =
      let fits : ltb peer_buf_size (length p.sbuf + length bs) ≡ false = ground (arith, room) in
      elim (Bool-cases (length bs == 0)) [
        | inl e ↦ rw (e, queue) (refl, omega arith)
        | inr e ↦ rw (e, fits, queue) (refl, omega (arith, length-append p.sbuf bs))
      ]

  peer_send_plain-Fits :
      (p : Sender) (bs : Bytes)
      → length p.sbuf + length bs ≤ peer_buf_size
      → Fits p (length bs) (peer_send_plain transport p bs)
  unfolding peer_send_plain Fits
  peer_send_plain-Fits p bs room = elim (Bool-cases (length p.sbuf == 0 && ltb 0 (length bs))) [
    | inr e ↦ rw (e, peer_send_plain) (queue-Fits p bs room)
    | inl e ↦ elim (Option-cases (transport p.writes (length bs))) [
      | inl n ↦ absurd (works p.writes (length bs) n)
      | inr (n, a) ↦
          let rest =
            queue-Fits (accepted p n bs) (drop n bs) (omega (arith, room, length-drop n bs)) in
          rw (e, peer_send_plain)
            (rw (a, peer_send_plain) (rest.0, omega (arith, rest.1, length-drop n bs)))
    ]
  ]

  send_chunks-Fits :
      (fuel : ℕ) (p : Sender) (bs : Bytes)
      → length p.sbuf + length bs ≤ peer_buf_size
      → Fits p (length bs) (send_chunks transport fuel p bs)
  unfolding send_chunks Fits
  send_chunks-Fits zero p bs room = (refl, omega arith)
  send_chunks-Fits (suc fuel) p bs room = elim (Bool-cases (ltb 0 (length bs))) [
    | inr e ↦ rw (e, send_chunks) (refl, omega arith)
    | inl e ↦
        let enc = rc4_crypt p.send_rc4 (take chunk_size bs) in
        let coded_len = length-rc4_crypt p.send_rc4 (take chunk_size bs) in
        let parts : length (take chunk_size bs) + length (drop chunk_size bs) ≡ length bs =
          omega (arith, length-take chunk_size bs, length-drop chunk_size bs) in
        let one =
          peer_send_plain-Fits (record p { send_rc4 = enc.0 }) enc.1
            (omega (arith, room, coded_len, parts)) in
        let r = peer_send_plain transport (record p { send_rc4 = enc.0 }) enc.1 in
        let rest =
          send_chunks-Fits fuel r.0 (drop chunk_size bs)
            (omega (arith, room, one.1, coded_len, parts)) in
        rw (e, send_chunks)
          (rw (one.0, send_chunks) (rest.0, omega (arith, rest.1, one.1, coded_len, parts)))
  ]

  peer_send_raw-Fits :
      (p : Sender) (bs : Bytes)
      → length p.sbuf + length bs ≤ peer_buf_size
      → Fits p (length bs) (peer_send_raw transport p bs)
  unfolding peer_send_raw
  peer_send_raw-Fits p bs room = elim (Bool-cases (not p.mse_active || length bs == 0)) [
    | inl e ↦ rw (e, peer_send_raw) (peer_send_plain-Fits p bs room)
    | inr e ↦ rw (e, peer_send_raw) (send_chunks-Fits (length bs) p bs room)
  ]

  -- Once there is room for the frame it is sent.
  room_split :
      (p : Sender) (payload : Bytes) (full : Bool)
      → too_full p payload ≡ full
      → (r : Sender × Bool)
      → r ≡ elim full as (λ _. Sender × Bool) [
        | false ↦ (p, true)
        | true ↦ (
          (peer_flush transport p).0,
          (peer_flush transport p).1 && not (too_full (peer_flush transport p).0 payload),
        )
      ]
      → r.1 ≡ true
      → too_full r.0 payload ≡ false
  room_split p payload false e r is h = ap (λ (x : Sender × Bool). too_full x.0 payload) is ∙ e
  room_split p payload true e r is h =
      let both : (peer_flush transport p).1 && not (too_full (peer_flush transport p).0 payload)
          ≡ true =
        sym (ap (λ (x : Sender × Bool). x.1) is) ∙ h in
      let behind : too_full (peer_flush transport p).0 payload ≡ false = ground arith in
      ap (λ (x : Sender × Bool). too_full x.0 payload) is ∙ behind

  reserved_room :
      (p : Sender) (payload : Bytes)
      → (reserve transport p payload).1 ≡ true
      → length (reserve transport p payload).0.sbuf + 4 + length payload ≤ peer_buf_size
  unfolding reserve
  reserved_room p payload h =
      let behind =
        room_split p payload (too_full p payload) refl (reserve transport p payload) refl h in
      ground (arith, behind)

  sent_whole :
      (p : Sender) (payload : Bytes) (r : Sender)
      → length r.sbuf + 4 + length payload ≤ peer_buf_size
      → (elim (peer_send_raw transport r (header (length payload))).1 as (λ _. Sender × Bool) [
        | false ↦ ((peer_send_raw transport r (header (length payload))).0, false)
        | true ↦ elim (ltb 0 (length payload)) [
          | true ↦
              peer_send_raw transport
                (peer_send_raw transport r (header (length payload))).0
                payload
          | false ↦ ((peer_send_raw transport r (header (length payload))).0, true)
        ]
      ]).1
        ≡ true
  unfolding Fits header
  sent_whole p payload r room =
      let h = peer_send_raw-Fits r (header (length payload)) (omega (arith, room)) in
      let body =
        peer_send_raw-Fits (peer_send_raw transport r (header (length payload))).0 payload
          (omega (arith, room, h.1)) in
      elim (Bool-cases (ltb 0 (length payload))) [
        | inl e ↦ rw (h.0, e) body.0
        | inr e ↦ rw (h.0, e) refl
      ]

  --
  -- Over a transport without hard errors, a send_msg that fails has handed over nothing: what is
  -- on the wire and queued is what was there before, and the cipher has not moved.
  pub send_msg-nothing :
      (p : Sender) (payload : Bytes)
      → (send_msg transport p payload).1 ≡ false
      → Plain p [] (send_msg transport p payload).0
  unfolding send_msg
  send_msg-nothing p payload h = elim (Bool-cases (reserve transport p payload).1) [
    | inr e ↦ rw (e, send_msg) (reserve-Plain transport p payload)
    | inl e ↦
        let whole =
          sent_whole p payload (reserve transport p payload).0 (reserved_room p payload e) in
        let failed = rw (e, send_msg) at h in absurd (cc (whole, failed))
  ]
