-- ===== src/Peer/Sent.antt =====
-- core/peer.c: what reaches the wire.
use pipensx_video_downloader.Prelude.{
  ℕ, zero, suc, ◌+◌, ◌≤◌, ◌≡◌, refl, sym, ap, ◌∙◌, Bool, true, false, not, ◌&&◌, ◌||◌, [], ◌∷◌,
  ◌++◌, Option, none, some, Bytes, ltb, ◌==◌, if◌then◌else◌, length, take, drop, arith, length-drop,
  take-append-drop,
}
use mathlib.Core.Path.{subst}
use mathlib.Core.List.{append-nil, append_assoc}
use pipensx_video_downloader.Rc4.{Rc4, rc4_crypt}
use pipensx_video_downloader.Rc4.Stream.{rc4_crypt-append}
use pipensx_video_downloader.Peer.Send.{
  peer_buf_size, Sender, Transport, called, accepted, queue, peer_send_plain, chunk_size,
  send_chunks, peer_send_raw,
}

-- All that was handed over to be sent: what is on the wire and what is queued behind it.
abbrev pub output : Sender → Bytes
output p = p.wire ++ p.sbuf

-- Bytes as they go out, with the state of the stream behind them.
abbrev pub code : Bool → Rc4 → Bytes → Rc4 × Bytes
code true rc4 bs = rc4_crypt rc4 bs
code false rc4 bs = (rc4, bs)

abbrev pub coded : Sender → Bytes → Rc4 × Bytes
coded p bs = code p.mse_active p.send_rc4 bs

code-append :
    (active : Bool) (r : Rc4) (xs ys : Bytes)
    → code active r (xs ++ ys) ≡ (
      (code active (code active r xs).0 ys).0,
      (code active r xs).1 ++ (code active (code active r xs).0 ys).1,
    )
code-append true r xs ys = rc4_crypt-append r xs ys
code-append false r xs ys = refl

-- The bytes `data`, sent as they are, stand behind what was there.
pub record Plain (p : Sender) (bs : Bytes) (q : Sender) : Type 0 where
  pub out : output q ≡ output p ++ bs
  pub rc4 : q.send_rc4 ≡ p.send_rc4
  pub active : q.mse_active ≡ p.mse_active

-- The same of what is sent in a connection that may be encrypted.
pub record Sent (p : Sender) (bs : Bytes) (q : Sender) : Type 0 where
  pub out : output q ≡ output p ++ (coded p bs).1
  pub rc4 : q.send_rc4 ≡ (coded p bs).0
  pub active : q.mse_active ≡ p.mse_active

-- What holds of a state that was returned with success.
abbrev pub Ok : (Sender → Type 0) → Sender × Bool → Type 0
Ok P r = r.1 ≡ true → P r.0

pub no_bytes : (bs : Bytes) → (length bs == 0) ≡ true → bs ≡ []
no_bytes [] h = refl
no_bytes (x ∷ bs) h = ground arith

queue_split :
    (p : Sender) (bs : Bytes) (all full : Bool)
    → (all ≡ true → bs ≡ [])
    → Ok (Plain p bs) (
        if all
        then (p, true)
        else if full
        then (p, false)
        else (record p { sbuf = p.sbuf ++ bs }, true))
queue_split p bs true full last h = record {
  out = sym (append-nil (output p)) ∙ ap (λ (s : Bytes). output p ++ s) (sym (last refl));
  rc4 = refl;
  active = refl;
}
queue_split p bs false true last h = absurd (cc h)
queue_split p bs false false last h = record {
  out = sym (append_assoc p.wire p.sbuf bs);
  rc4 = refl;
  active = refl;
}

queue-Plain : (p : Sender) (bs : Bytes) → Ok (Plain p bs) (queue p bs)
unfolding queue
queue-Plain p bs h =
    queue_split p bs (length bs == 0) (ltb peer_buf_size (length p.sbuf + length bs)) (no_bytes bs)
      h

-- A write with nothing queued hands over as much as is accepted, and the rest is queued.
write_split :
    (p : Sender) (bs : Bytes) (answer : Option ℕ)
    → p.sbuf ≡ []
    → Ok (Plain p bs) (elim answer as (λ _. Sender × Bool) [
      | none ↦ (called p, false)
      | some n ↦ queue (accepted p n bs) (drop n bs)
    ])
write_split p bs none empty h = absurd (cc h)
write_split p bs (some n) empty h =
    let q = queue-Plain (accepted p n bs) (drop n bs) h in
    record {
      out =
          q.out
          ∙ ap (λ (s : Bytes). ((p.wire ++ take n bs) ++ s) ++ drop n bs) empty
          ∙ ap (λ (s : Bytes). s ++ drop n bs) (append-nil (p.wire ++ take n bs))
          ∙ append_assoc p.wire (take n bs) (drop n bs)
          ∙ ap (λ (s : Bytes). p.wire ++ s) (take-append-drop n bs)
          ∙ ap (λ (s : Bytes). s ++ bs)
              (sym (append-nil p.wire) ∙ ap (λ (s : Bytes). p.wire ++ s) (sym empty));
      rc4 = q.rc4;
      active = q.active;
    }

Plain-bool :
    (transport : Transport) (p : Sender) (bs : Bytes) (write : Bool)
    → (write ≡ true → p.sbuf ≡ [])
    → Ok (Plain p bs) (elim write as (λ _. Sender × Bool) [
      | false ↦ queue p bs
      | true ↦ elim (transport p.writes (length bs)) [
        | none ↦ (called p, false)
        | some n ↦ queue (accepted p n bs) (drop n bs)
      ]
    ])
Plain-bool transport p bs false empty h = queue-Plain p bs h
Plain-bool transport p bs true empty h =
    write_split p bs (transport p.writes (length bs)) (empty refl) h

pub peer_send_plain-Plain :
    (transport : Transport) (p : Sender) (bs : Bytes)
    → Ok (Plain p bs) (peer_send_plain transport p bs)
unfolding peer_send_plain
peer_send_plain-Plain transport p bs h =
    Plain-bool transport p bs (length p.sbuf == 0 && ltb 0 (length bs))
      (λ e. no_bytes p.sbuf (ground arith)) h

-- Two sendings make one.
pub Sent-append : (p q r : Sender) (xs ys : Bytes) → Sent p xs q → Sent q ys r → Sent p (xs ++ ys) r
Sent-append p q r xs ys s t =
    let same : coded q ys ≡ code p.mse_active (coded p xs).0 ys =
      λ i. code (s.active i) (s.rc4 i) ys in
    let joined = code-append p.mse_active p.send_rc4 xs ys in
    record {
      out =
          t.out
          ∙ ap (λ (o : Bytes). o ++ (coded q ys).1) s.out
          ∙ append_assoc (output p) (coded p xs).1 (coded q ys).1
          ∙ ap (λ (o : Rc4 × Bytes). output p ++ ((coded p xs).1 ++ o.1)) same
          ∙ ap (λ (o : Rc4 × Bytes). output p ++ o.1) (sym joined);
      rc4 =
          t.rc4
          ∙ ap (λ (o : Rc4 × Bytes). o.0) (same ∙ refl)
          ∙ ap (λ (o : Rc4 × Bytes). o.0) (sym joined);
      active = t.active ∙ s.active;
    }

-- What an encrypted connection sends as it is, is the bytes before the cipher.
Plain-Sent :
    (p q : Sender) (bs : Bytes)
    → p.mse_active ≡ true
    → Plain (record p { send_rc4 = (rc4_crypt p.send_rc4 bs).0 }) (rc4_crypt p.send_rc4 bs).1 q
    → Sent p bs q
Plain-Sent p q bs e s =
    let same : coded p bs ≡ rc4_crypt p.send_rc4 bs = ap (λ (b : Bool). code b p.send_rc4 bs) e in
    record {
      out = s.out ∙ ap (λ (o : Rc4 × Bytes). output p ++ o.1) (sym same);
      rc4 = s.rc4 ∙ ap (λ (o : Rc4 × Bytes). o.0) (sym same);
      active = s.active;
    }

pub code_nil : (b : Bool) (r : Rc4) → code b r [] ≡ (r, [])
unfolding rc4_crypt
code_nil true r = refl
code_nil false r = refl

pub Sent-nil : (p : Sender) → Sent p [] p
Sent-nil p =
    let same = code_nil p.mse_active p.send_rc4 in
    record {
      out = sym (append-nil (output p)) ∙ ap (λ (o : Rc4 × Bytes). output p ++ o.1) (sym same);
      rc4 = ap (λ (o : Rc4 × Bytes). o.0) (sym same);
      active = refl;
    }

chunk_split :
    (transport : Transport) (fuel : ℕ) (p : Sender) (xs ys zs : Bytes) (r : Sender × Bool)
    (sent : Bool)
    → xs ++ ys ≡ zs
    → r.1 ≡ sent
    → Ok (Sent p xs) r
    → ((q : Sender)
        → q.mse_active ≡ p.mse_active
        → Ok (Sent q ys) (send_chunks transport fuel q ys))
    → Ok (Sent p zs) (elim sent as (λ _. Sender × Bool) [
      | false ↦ (r.0, false)
      | true ↦ send_chunks transport fuel r.0 ys
    ])
chunk_split transport fuel p xs ys zs r false parts e s rest h = absurd (cc h)
chunk_split transport fuel p xs ys zs r true parts e s rest h =
    let first = s e in
    let q = (send_chunks transport fuel r.0 ys).0 in
    subst (λ (t : Bytes). Sent p t q) parts
      (Sent-append p r.0 q xs ys first (rest r.0 first.active h))

-- One round of the loop, or its end.
chunks_split :
    (transport : Transport) (fuel : ℕ) (p : Sender) (bs : Bytes) (more : Bool)
    → p.mse_active ≡ true
    → (more ≡ false → bs ≡ [])
    → ((q : Sender)
        → q.mse_active ≡ p.mse_active
        → Ok (Sent q (drop chunk_size bs)) (send_chunks transport fuel q (drop chunk_size bs)))
    → Ok (Sent p bs) (elim more as (λ _. Sender × Bool) [
      | false ↦ (p, true)
      | true ↦
          let enc = rc4_crypt p.send_rc4 (take chunk_size bs) in
          let r = peer_send_plain transport (record p { send_rc4 = enc.0 }) enc.1 in
          elim r.1 [
            | false ↦ (r.0, false)
            | true ↦ send_chunks transport fuel r.0 (drop chunk_size bs)
          ]
    ])
chunks_split transport fuel p bs false active last rest h =
    subst (λ (s : Bytes). Sent p s p) (sym (last refl)) (Sent-nil p)
chunks_split transport fuel p bs true active last rest h =
    let enc = rc4_crypt p.send_rc4 (take chunk_size bs) in
    let r = peer_send_plain transport (record p { send_rc4 = enc.0 }) enc.1 in
    let first : Ok (Sent p (take chunk_size bs)) r = λ e.
      Plain-Sent p r.0 (take chunk_size bs) active
        (peer_send_plain-Plain transport (record p { send_rc4 = enc.0 }) enc.1 e) in
    chunk_split transport fuel p (take chunk_size bs) (drop chunk_size bs) bs r r.1
      (take-append-drop chunk_size bs) refl first rest h

send_chunks-Sent :
    (transport : Transport) (fuel : ℕ) (p : Sender) (bs : Bytes)
    → p.mse_active ≡ true
    → length bs ≤ fuel
    → Ok (Sent p bs) (send_chunks transport fuel p bs)
unfolding send_chunks
send_chunks-Sent transport zero p [] active le h = Sent-nil p
send_chunks-Sent transport zero p (x ∷ bs) active le h = elim le [ ]
send_chunks-Sent transport (suc fuel) p bs active le h =
    chunks_split transport fuel p bs (ltb 0 (length bs)) active (λ e. no_bytes bs (ground arith))
      (λ q same.
        send_chunks-Sent transport fuel q (drop chunk_size bs) (same ∙ active)
          (omega (arith, le, length-drop chunk_size bs)))
      h

-- What goes out as it is.
pub Plain-uncoded :
    (p q : Sender) (bs : Bytes) → coded p bs ≡ (p.send_rc4, bs) → Plain p bs q → Sent p bs q
Plain-uncoded p q bs same s = record {
  out = s.out ∙ ap (λ (o : Rc4 × Bytes). output p ++ o.1) (sym same);
  rc4 = s.rc4 ∙ ap (λ (o : Rc4 × Bytes). o.0) (sym same);
  active = s.active;
}

raw_split :
    (transport : Transport) (p : Sender) (bs : Bytes) (active none_left : Bool)
    → p.mse_active ≡ active
    → (none_left ≡ true → bs ≡ [])
    → Ok (Sent p bs) (
        if not active || none_left
        then peer_send_plain transport p bs
        else send_chunks transport (length bs) p bs)
raw_split transport p bs true false e last h =
    send_chunks-Sent transport (length bs) p bs e (omega arith) h
raw_split transport p bs true true e last h =
    let same =
      subst (λ (t : Bytes). coded p t ≡ (p.send_rc4, t)) (sym (last refl))
        (code_nil p.mse_active p.send_rc4) in
    Plain-uncoded p (peer_send_plain transport p bs).0 bs same
      (peer_send_plain-Plain transport p bs h)
raw_split transport p bs false none_left e last h =
    Plain-uncoded p (peer_send_plain transport p bs).0 bs
      (ap (λ (b : Bool). code b p.send_rc4 bs) e) (peer_send_plain-Plain transport p bs h)

pub peer_send_raw-Sent :
    (transport : Transport) (p : Sender) (bs : Bytes)
    → Ok (Sent p bs) (peer_send_raw transport p bs)
unfolding peer_send_raw
peer_send_raw-Sent transport p bs h =
    raw_split transport p bs p.mse_active (length bs == 0) refl (no_bytes bs) h
