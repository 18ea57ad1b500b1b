-- ===== src/Mse/Handshake.antt =====
-- A handshake with a peer that answers as the protocol says.
use pipensx_video_downloader.Prelude.{
  ℕ, ◌+◌, ◌≤◌, ◌<◌, ◌≡◌, refl, sym, ap, ◌∙◌, Bool, true, false, [], ◌++◌, Option, none, some, Bytes,
  ltb, if◌then◌else◌, length, take, drop, replicate, arith, length-append,
}
use mathlib.Core.Path.{subst}
use mathlib.Core.List.{append_assoc}
use native.Mathlib.Nat.{zero-add}
use pipensx_video_downloader.Prelude.Slices.{
  take_all, take-append_left, drop-append_right, drop-drop,
}
use pipensx_video_downloader.Rc4.{Rc4, rc4_crypt, rc4_discard}
use pipensx_video_downloader.Rc4.Stream.{
  AllBytes, IsTable, rc4_init-IsTable, rc4_discard-IsTable, rc4_crypt-rc4_crypt, rc4_crypt-append,
  rc4_discard-rc4_crypt, length-rc4_crypt,
}
use pipensx_video_downloader.Mse.{
  mse_dh_len, mse_vc_len, mse_max_pad, MseStatus, mse_done, MseState, st_read_pub, st_sync_vc,
  st_read_select, st_read_padd, st_done, MseClient, MseOps, mse_dh_secret, mse_stream_key, key_b,
  req, req_hash, xor_bytes, request_plain, emit_request, Feed, state_eq, stop_with, final_status,
  with_keys, read_pub, sync_vc, has_rc4, padd_of, read_select, read_padd, when_in, mse_client_feed,
}
use pipensx_video_downloader.Mse.Stages.{NoneEarlier}
use pipensx_video_downloader.Mse.Steps.{sync_vc_lem, read_select_lem, read_padd_lem}

-- The encrypted part of an answer: VC, the six bytes of crypto_select and len(padD), and padD.
abbrev pub zeros : Bytes
zeros = replicate mse_vc_len 0

pub answer_block : Rc4 → Bytes → Bytes → Bytes
answer_block r select pad_d = (rc4_crypt r (zeros ++ (select ++ pad_d))).1

-- The three parts, and the state of the stream behind each.
module _ (r : Rc4) (select pad_d : Bytes) where
  abbrev pub after_vc : Rc4
  after_vc = (rc4_crypt r zeros).0

  abbrev pub after_select : Rc4
  after_select = (rc4_crypt after_vc select).0

  abbrev pub vc_part : Bytes
  vc_part = (rc4_crypt r zeros).1

  abbrev pub select_part : Bytes
  select_part = (rc4_crypt after_vc select).1

  abbrev pub pad_part : Bytes
  pad_part = (rc4_crypt after_select pad_d).1

  answer_parts : answer_block r select pad_d ≡ vc_part ++ (select_part ++ pad_part)
  unfolding answer_block
  answer_parts =
      ap (λ x. x.1) (rc4_crypt-append r zeros (select ++ pad_d))
      ∙ ap (λ (y : Bytes). vc_part ++ y) (ap (λ x. x.1) (rc4_crypt-append after_vc select pad_d))

mse_stream_key-IsTable :
    (ops : MseOps) (label secret info_hash : Bytes)
    → IsTable (mse_stream_key ops label secret info_hash)
unfolding mse_stream_key
mse_stream_key-IsTable ops label secret info_hash = rc4_discard-IsTable _ 1024 (rc4_init-IsTable _)

-- A part that is reached.
when_in_lem :
    (state : MseState) (part : Feed → Feed) (f : Feed)
    → f.returned ≡ none
    → state_eq f.client.state state ≡ true
    → when_in state part f ≡ part f
unfolding when_in
when_in_lem state part f going there =
    ap
      (λ (x : Option MseStatus). elim x [
        | some status ↦ f
        | none ↦ if state_eq f.client.state state then part f else f
      ])
      going
    ∙ ap (λ (b : Bool). if b then part f else f) there

-- An answer, with what the client makes of it.
pub record Answer (ops : MseOps) (c : MseClient) (peer_pub pad_b select pad_d more : Bytes)
    : Type 0 where
  pub pub_len : length peer_pub ≡ mse_dh_len
  pub select_len : length select ≡ 6
  pub select_bytes : AllBytes select
  pub offers_rc4 : has_rc4 select ≡ true
  pub pad_d_len : padd_of select ≡ length pad_d
  pub pad_d_le : length pad_d ≤ mse_max_pad
  pub pad_b_le : length pad_b ≤ mse_max_pad
  pub pad_b_clean :
      NoneEarlier
        (rc4_crypt
          (mse_stream_key ops key_b (mse_dh_secret ops c.priv peer_pub) c.info_hash)
          zeros).1
        pad_b
        (answer_block
            (mse_stream_key ops key_b (mse_dh_secret ops c.priv peer_pub) c.info_hash)
            select
            pad_d
          ++ more)

module _ (ops : MseOps) (c : MseClient) (peer_pub pad_b select pad_d more : Bytes)
    (a : Answer ops c peer_pub pad_b select pad_d more) where
  -- The peer's stream, from the shared secret.
  abbrev pub peer_rc4 : Rc4
  peer_rc4 = mse_stream_key ops key_b (mse_dh_secret ops c.priv peer_pub) c.info_hash

  abbrev pub encrypted : Bytes
  encrypted = answer_block peer_rc4 select pad_d

  abbrev pub behind_pub : Bytes
  behind_pub = pad_b ++ (encrypted ++ more)

  abbrev pub answer : Bytes
  answer = peer_pub ++ behind_pub

  abbrev pub keyed : MseClient
  keyed = with_keys ops c (mse_dh_secret ops c.priv peer_pub)

  taken_pub : take mse_dh_len answer ≡ peer_pub
  taken_pub =
      ap (λ (n : ℕ). take n answer) (sym a.pub_len)
      ∙ take-append_left (length peer_pub) peer_pub behind_pub (omega arith)
      ∙ take_all (length peer_pub) peer_pub (omega arith)

  dropped_pub : drop mse_dh_len answer ≡ behind_pub
  dropped_pub =
      let e : mse_dh_len ≡ length peer_pub + 0 = omega (arith, a.pub_len) in
      ap (λ (n : ℕ). drop n answer) e ∙ drop-append_right 0 peer_pub behind_pub

  -- What is sent, and the stream behind it.
  abbrev pub secret : Bytes
  secret = mse_dh_secret ops c.priv peer_pub

  abbrev pub sent : Rc4 × Bytes
  sent = rc4_crypt keyed.send_rc4 (request_plain c.ia)

  abbrev pub request : Bytes
  request =
      req_hash ops (req b'1') secret
      ++ (xor_bytes (req_hash ops (req b'2') c.info_hash) (req_hash ops (req b'3') secret)
          ++ sent.1)

  abbrev pub begin : Feed
  begin = record { client = c; consumed = 0; produced = []; returned = none }

  abbrev pub feed_1 : Feed
  feed_1 = record {
    client = record keyed { send_rc4 = sent.0; state = st_sync_vc; skipped = 0 };
    consumed = mse_dh_len;
    produced = request;
    returned = none;
  }

  read_pub_lem :
      (out_cap : ℕ)
      → 40 + length (request_plain c.ia) ≤ out_cap
      → read_pub ops out_cap answer begin ≡ feed_1
  unfolding read_pub emit_request with_keys
  read_pub_lem out_cap room =
      let long : ltb (length answer) mse_dh_len ≡ false =
        ground (arith, length-append peer_pub behind_pub, a.pub_len) in
      let fits : ltb out_cap (40 + length (request_plain c.ia)) ≡ false = ground (arith, room) in
      rw (taken_pub, long, read_pub) (rw (fits, read_pub) refl)

  -- The parts of the answer, each at its place.
  body : Bytes
  body = select_part peer_rc4 select pad_d ++ (pad_part peer_rc4 select pad_d ++ more)

  encrypted-body : encrypted ++ more ≡ vc_part peer_rc4 select pad_d ++ body
  unfolding body
  encrypted-body =
      ap (λ (y : Bytes). y ++ more) (answer_parts peer_rc4 select pad_d)
      ∙ append_assoc (vc_part peer_rc4 select pad_d)
          (select_part peer_rc4 select pad_d ++ pad_part peer_rc4 select pad_d) more
      ∙ ap (λ (y : Bytes). vc_part peer_rc4 select pad_d ++ y)
          (append_assoc (select_part peer_rc4 select pad_d) (pad_part peer_rc4 select pad_d) more)

  dropped_vc : drop (mse_dh_len + (length pad_b + mse_vc_len)) answer ≡ body
  dropped_vc =
      let e : mse_vc_len ≡ length (vc_part peer_rc4 select pad_d) + 0 =
        omega (arith, length-rc4_crypt peer_rc4 zeros) in
      sym (drop-drop (length pad_b + mse_vc_len) mse_dh_len answer)
      ∙ ap (drop (length pad_b + mse_vc_len)) dropped_pub
      ∙ drop-append_right mse_vc_len pad_b (encrypted ++ more)
      ∙ ap (drop mse_vc_len) encrypted-body
      ∙ ap (λ (n : ℕ). drop n (vc_part peer_rc4 select pad_d ++ body)) e
      ∙ drop-append_right 0 (vc_part peer_rc4 select pad_d) body

  dropped_select :
      drop
        (mse_dh_len + (length pad_b + mse_vc_len) + length (select_part peer_rc4 select pad_d))
        answer
      ≡ pad_part peer_rc4 select pad_d ++ more
  unfolding body
  dropped_select =
      let e : length (select_part peer_rc4 select pad_d)
          ≡ length (select_part peer_rc4 select pad_d) + 0 =
        omega arith in
      sym (
        drop-drop (length (select_part peer_rc4 select pad_d))
          (mse_dh_len + (length pad_b + mse_vc_len)) answer)
      ∙ ap (drop (length (select_part peer_rc4 select pad_d))) dropped_vc
      ∙ ap (λ (n : ℕ). drop n body) e
      ∙ drop-append_right 0 (select_part peer_rc4 select pad_d)
          (pad_part peer_rc4 select pad_d ++ more)

  -- The peer's stream behind VC, behind the six bytes, and behind the padding.
  discarded_vc : rc4_discard peer_rc4 mse_vc_len ≡ after_vc peer_rc4 select pad_d
  discarded_vc = rc4_discard-rc4_crypt peer_rc4 zeros

  decrypted :
      rc4_crypt (after_vc peer_rc4 select pad_d) (select_part peer_rc4 select pad_d)
      ≡ (after_select peer_rc4 select pad_d, select)
  decrypted =
      let table : IsTable (after_vc peer_rc4 select pad_d) = subst IsTable discarded_vc (
        rc4_discard-IsTable peer_rc4 mse_vc_len
          (mse_stream_key-IsTable ops key_b secret c.info_hash)) in
      rc4_crypt-rc4_crypt (after_vc peer_rc4 select pad_d) select table a.select_bytes

  abbrev pub behind_answer : Rc4
  behind_answer = (rc4_crypt peer_rc4 (zeros ++ (select ++ pad_d))).0

  discarded_pad : rc4_discard (after_select peer_rc4 select pad_d) (length pad_d) ≡ behind_answer
  discarded_pad =
      rc4_discard-rc4_crypt (after_select peer_rc4 select pad_d) pad_d
      ∙ sym (ap (λ x. x.0) (rc4_crypt-append (after_vc peer_rc4 select pad_d) select pad_d))
      ∙ sym (ap (λ x. x.0) (rc4_crypt-append peer_rc4 zeros (select ++ pad_d)))

  -- What is returned behind each part.
  abbrev pub feed_2 : Feed
  feed_2 = record {
    client = record feed_1.client {
      recv_rc4 = after_vc peer_rc4 select pad_d;
      skipped = length pad_b;
      state = st_read_select;
      select_buf = [];
    };
    consumed = mse_dh_len + (length pad_b + mse_vc_len);
    produced = request;
    returned = none;
  }

  abbrev pub feed_3 : Feed
  feed_3 = record {
    client = record feed_2.client {
      recv_rc4 = after_select peer_rc4 select pad_d;
      select_buf = select;
      padd_remaining = length pad_d;
      state = st_read_padd;
    };
    consumed = mse_dh_len + (length pad_b + mse_vc_len) + 6;
    produced = request;
    returned = none;
  }

  abbrev pub finished : Feed
  finished = record {
    client = record feed_3.client { recv_rc4 = behind_answer; padd_remaining = 0; state = st_done };
    consumed = mse_dh_len + (length pad_b + mse_vc_len) + 6 + length pad_d;
    produced = request;
    returned = some mse_done;
  }

  sync_step : sync_vc answer feed_1 ≡ feed_2
  unfolding with_keys
  sync_step =
      let long : mse_vc_len ≤ length (encrypted ++ more) = rw encrypted-body (
        omega (
          arith,
          length-append (vc_part peer_rc4 select pad_d) body,
          length-rc4_crypt peer_rc4 zeros,
        )) in
      let vc_len : mse_vc_len ≡ length (vc_part peer_rc4 select pad_d) =
        sym (length-rc4_crypt peer_rc4 zeros) in
      let here : take mse_vc_len (encrypted ++ more) ≡ vc_part peer_rc4 select pad_d =
        ap (take mse_vc_len) encrypted-body
        ∙ ap (λ (n : ℕ). take n (vc_part peer_rc4 select pad_d ++ body)) vc_len
        ∙ take-append_left (length (vc_part peer_rc4 select pad_d)) (vc_part peer_rc4 select pad_d)
            body (omega arith)
        ∙ take_all (length (vc_part peer_rc4 select pad_d)) (vc_part peer_rc4 select pad_d)
            (omega arith) in
      let fits : feed_1.client.skipped + length pad_b < 4294967296 = omega (arith, a.pad_b_le) in
      sync_vc_lem feed_1 answer pad_b (encrypted ++ more) dropped_pub long here a.pad_b_clean fits
      ∙ rw (discarded_vc, zero-add) refl

  select_step : read_select answer feed_2 ≡ feed_3
  unfolding body
  select_step =
      let six : length (select_part peer_rc4 select pad_d) ≡ 6 =
        length-rc4_crypt (after_vc peer_rc4 select pad_d) select ∙ a.select_len in
      read_select_lem feed_2 answer (select_part peer_rc4 select pad_d)
        (pad_part peer_rc4 select pad_d ++ more) dropped_vc refl six (rw decrypted a.offers_rc4)
        (rw decrypted (omega (arith, a.pad_d_len, a.pad_d_le))) (rw decrypted a.select_len)
      ∙ rw (decrypted, six, a.pad_d_len) refl

  padd_step : read_padd answer feed_3 ≡ finished
  padd_step =
      let six : length (select_part peer_rc4 select pad_d) ≡ 6 =
        length-rc4_crypt (after_vc peer_rc4 select pad_d) select ∙ a.select_len in
      let pad_len : length (pad_part peer_rc4 select pad_d) ≡ length pad_d =
        length-rc4_crypt (after_select peer_rc4 select pad_d) pad_d in
      let here : drop feed_3.consumed answer ≡ pad_part peer_rc4 select pad_d ++ more =
        ap (λ (n : ℕ). drop (mse_dh_len + (length pad_b + mse_vc_len) + n) answer) (sym six)
        ∙ dropped_select in
      read_padd_lem feed_3 answer (pad_part peer_rc4 select pad_d) more here (sym pad_len)
      ∙ rw (pad_len, discarded_pad) refl

  --
  -- A client that waits for the peer's public key, fed with the whole of a well-formed answer and
  -- more bytes behind it, with room for the request, finishes: it sends the request, consumes
  -- exactly the answer, and its receiving stream is the peer's sending stream behind the answer.
  -- Well-formed: 96 bytes of public key, at most 512 bytes of padding in which the encrypted VC
  -- does not start, then VC, a choice of RC4 and at most 512 bytes of padding, encrypted under the
  -- shared secret.
  pub mse_client_feed-answer :
      (out_cap : ℕ)
      → c.state ≡ st_read_pub
      → 40 + length (request_plain c.ia) ≤ out_cap
      → mse_client_feed ops c answer out_cap ≡ finished
  unfolding mse_client_feed when_in
  mse_client_feed-answer out_cap first room =
      let pub_read : when_in st_read_pub (read_pub ops out_cap answer) begin ≡ feed_1 =
        when_in_lem st_read_pub (read_pub ops out_cap answer) begin refl
          (ap (λ (x : MseState). state_eq x st_read_pub) first)
        ∙ read_pub_lem out_cap room in
      let synced : when_in st_sync_vc (sync_vc answer)
            (when_in st_read_pub (read_pub ops out_cap answer) begin)
          ≡ feed_2 =
        ap (when_in st_sync_vc (sync_vc answer)) pub_read ∙ sync_step in
      let read =
        ap
          (λ (f : Feed).
            when_in st_read_padd (read_padd answer) (when_in st_read_select (read_select answer) f))
          synced
        ∙ ap (when_in st_read_padd (read_padd answer)) select_step
        ∙ padd_step in
      ap
        (λ (f : Feed). elim f.returned [
          | some status ↦ f
          | none ↦ stop_with (final_status f.client.state) f
        ])
        read

  -- What is left behind the answer.
  pub dropped_answer : drop finished.consumed answer ≡ more
  unfolding body
  dropped_answer =
      let pad_len : length pad_d ≡ length (pad_part peer_rc4 select pad_d) + 0 =
        omega (arith, length-rc4_crypt (after_select peer_rc4 select pad_d) pad_d) in
      let six : 6 ≡ length (select_part peer_rc4 select pad_d) =
        sym (length-rc4_crypt (after_vc peer_rc4 select pad_d) select ∙ a.select_len) in
      sym (drop-drop (length pad_d) (mse_dh_len + (length pad_b + mse_vc_len) + 6) answer)
      ∙ ap
          (λ (n : ℕ).
            drop (length pad_d) (drop (mse_dh_len + (length pad_b + mse_vc_len) + n) answer))
          six
      ∙ ap (drop (length pad_d)) dropped_select
      ∙ ap (λ (n : ℕ). drop n (pad_part peer_rc4 select pad_d ++ more)) pad_len
      ∙ drop-append_right 0 (pad_part peer_rc4 select pad_d) more

  pub finished_le : finished.consumed ≤ length answer
  unfolding answer_block
  finished_le =
      let parts = length-append peer_pub behind_pub in
      let pad = length-append pad_b (encrypted ++ more) in
      let block = length-append encrypted more in
      let len = length-rc4_crypt peer_rc4 (zeros ++ (select ++ pad_d)) in
      let plain = length-append select pad_d in
      omega (arith, parts, pad, block, len, plain, a.pub_len, a.select_len)

  pub behind_answer-IsTable : IsTable behind_answer
  behind_answer-IsTable =
      subst IsTable (rc4_discard-rc4_crypt peer_rc4 (zeros ++ (select ++ pad_d))) (
        rc4_discard-IsTable peer_rc4 (length (zeros ++ (select ++ pad_d)))
          (mse_stream_key-IsTable ops key_b secret c.info_hash))
