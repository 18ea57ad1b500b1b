-- ===== src/Peer/Frames.antt =====
-- core/peer.c: a message reaches the output as one frame.
use pipensx_video_downloader.Prelude.{
  ℕ, ◌≡◌, refl, sym, ap, ◌∙◌, Bool, true, false, not, ◌&&◌, [], ◌++◌, Option, none, some, Bytes,
  ltb, ◌==◌, length, take, drop, arith, take-append-drop,
}
use mathlib.Core.Path.{subst}
use mathlib.Core.List.{append-nil, append_assoc}
use pipensx_video_downloader.Peer.Send.{
  Sender, Transport, called, accepted, peer_send_raw, peer_flush, too_full, reserve, header,
  send_msg,
}
use pipensx_video_downloader.Peer.Sent.{
  output, Plain, Sent, Ok, no_bytes, Sent-append, code_nil, Plain-uncoded, peer_send_raw-Sent,
}

-- A flush moves bytes from the queue to the wire.
flush_split :
    (p : Sender) (empty : Bool) (answer : Option ℕ)
    → Plain p []
        (elim empty as (λ _. Sender × Bool) [
          | true ↦ (p, true)
          | false ↦ elim answer as (λ _. Sender × Bool) [
            | none ↦ (called p, false)
            | some n ↦ (record (accepted p n p.sbuf) { sbuf = drop n p.sbuf }, true)
          ]
        ]).0
flush_split p true answer = record { out = sym (append-nil (output p)); rc4 = refl; active = refl }
flush_split p false none = record { out = sym (append-nil (output p)); rc4 = refl; active = refl }
flush_split p false (some n) = record {
  out =
      append_assoc p.wire (take n p.sbuf) (drop n p.sbuf)
      ∙ ap (λ (s : Bytes). p.wire ++ s) (take-append-drop n p.sbuf)
      ∙ sym (append-nil (output p));
  rc4 = refl;
  active = refl;
}

pub peer_flush-Plain : (transport : Transport) (p : Sender) → Plain p [] (peer_flush transport p).0
unfolding peer_flush
peer_flush-Plain transport p =
    flush_split p (length p.sbuf == 0) (transport p.writes (length p.sbuf))

reserve_split :
    (transport : Transport) (p : Sender) (payload : Bytes) (full : Bool)
    → Plain p []
        (elim full as (λ _. Sender × Bool) [
          | false ↦ (p, true)
          | true ↦ let f = peer_flush transport p in (f.0, f.1 && not (too_full f.0 payload))
        ]).0
reserve_split transport p payload false = record {
  out = sym (append-nil (output p));
  rc4 = refl;
  active = refl;
}
reserve_split transport p payload true = peer_flush-Plain transport p

pub reserve-Plain :
    (transport : Transport) (p : Sender) (payload : Bytes)
    → Plain p [] (reserve transport p payload).0
unfolding reserve
reserve-Plain transport p payload = reserve_split transport p payload (too_full p payload)

-- The payload behind its header.
payload_split :
    (transport : Transport) (p h : Sender) (payload : Bytes) (more : Bool)
    → (more ≡ false → payload ≡ [])
    → Sent p (header (length payload)) h
    → Ok (Sent p (header (length payload) ++ payload)) (elim more as (λ _. Sender × Bool) [
      | true ↦ peer_send_raw transport h payload
      | false ↦ (h, true)
    ])
payload_split transport p h payload true last s e =
    Sent-append p h (peer_send_raw transport h payload).0 (header (length payload)) payload s
      (peer_send_raw-Sent transport h payload e)
payload_split transport p h payload false last s e =
    subst (λ (t : Bytes). Sent p (header (length payload) ++ t) h) (sym (last refl))
      (subst (λ (t : Bytes). Sent p t h) (sym (append-nil (header (length payload)))) s)

header_split :
    (transport : Transport) (p : Sender) (payload : Bytes) (h : Sender × Bool) (sent : Bool)
    → h.1 ≡ sent
    → Ok (Sent p (header (length payload))) h
    → Ok (Sent p (header (length payload) ++ payload)) (elim sent as (λ _. Sender × Bool) [
      | false ↦ (h.0, false)
      | true ↦ elim (ltb 0 (length payload)) as (λ _. Sender × Bool) [
        | true ↦ peer_send_raw transport h.0 payload
        | false ↦ (h.0, true)
      ]
    ])
header_split transport p payload h false e s f = absurd (cc f)
header_split transport p payload h true e s f =
    payload_split transport p h.0 payload (ltb 0 (length payload))
      (λ k. no_bytes payload (ground arith)) (s e) f

frame_split :
    (transport : Transport) (p : Sender) (payload : Bytes) (r : Sender × Bool) (room : Bool)
    → Plain p [] r.0
    → Ok (Sent p (header (length payload) ++ payload)) (elim room as (λ _. Sender × Bool) [
      | false ↦ (r.0, false)
      | true ↦
          let h = peer_send_raw transport r.0 (header (length payload)) in
          elim h.1 [
            | false ↦ (h.0, false)
            | true ↦ elim (ltb 0 (length payload)) [
              | true ↦ peer_send_raw transport h.0 payload
              | false ↦ (h.0, true)
            ]
          ]
    ])
frame_split transport p payload r false s f = absurd (cc f)
frame_split transport p payload r true s f =
    let h = peer_send_raw transport r.0 (header (length payload)) in
    let reserved : Sent p [] r.0 = Plain-uncoded p r.0 [] (code_nil p.mse_active p.send_rc4) s in
    let first : Ok (Sent p (header (length payload))) h = λ e.
      Sent-append p r.0 h.0 [] (header (length payload)) reserved
        (peer_send_raw-Sent transport r.0 (header (length payload)) e) in
    header_split transport p payload h h.1 refl first f

--
-- Where send_msg succeeds, what is on the wire and queued is what was there before with the length
-- and the payload behind it, encrypted as one text where the connection is encrypted, and the
-- cipher stands behind that text.
pub send_msg-Sent :
    (transport : Transport) (p : Sender) (payload : Bytes)
    → (send_msg transport p payload).1 ≡ true
    → Sent p (header (length payload) ++ payload) (send_msg transport p payload).0
unfolding send_msg
send_msg-Sent transport p payload h =
    let r = reserve transport p payload in
    frame_split transport p payload r r.1 (reserve-Plain transport p payload) h
