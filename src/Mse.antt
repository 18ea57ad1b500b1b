-- ===== src/Mse.antt =====
-- core/mse.c: key derivation and the initiator's handshake. The exponentiation modulo the prime is
-- the bignum library's, a parameter.
pub mod Stages
pub mod Steps
pub mod Handshake
use pipensx_video_downloader.Prelude.{
  ℕ, zero, suc, ◌+◌, ◌-◌, ◌*◌, ◌/◌, ◌%◌, ◌^◌, ◌≤◌, ◌<◌, min, bit_and, bit_or, bit_xor, ◌≡◌, ◌≢◌,
  ◌↔◌, refl, sym, ap, ◌∙◌, Bool, true, false, not, ◌&&◌, ◌||◌, ◌⊎◌, inl, inr, List, [], ◌∷◌, ◌++◌,
  map, Option, none, some, Bytes, ltb, leb, ◌==◌, ==_iff, if◌then◌else◌, Bool-cases, ltb→lt, leb→le,
  Option-cases, length, take, drop, get_elem?, get_or, set, replicate, arith, length-append,
  length-set, length-replicate, length-take, length-drop, take-append-drop, ℤ, signed, memcpy,
}
use pipensx_video_downloader.Prelude.Errors.{◌>>=◌, ◌>>◌, guard, >>=-eq-some}
use pipensx_video_downloader.Bencode.{same_bytes}
use pipensx_video_downloader.Sha1.{sha1_init, sha1_update, sha1_final}
use pipensx_video_downloader.Rc4.{Rc4, rc4_init, rc4_crypt, rc4_discard}

abbrev pub mse_dh_len : ℕ
mse_dh_len = 96

abbrev pub mse_vc_len : ℕ
mse_vc_len = 8

abbrev pub mse_max_pad : ℕ
mse_max_pad = 512

abbrev pub mse_max_ia : ℕ
mse_max_ia = 68

-- `mse_status_t`
pub data MseStatus : Type 0 where
  mse_continue mse_done mse_fail : MseStatus

pub data MseState : Type 0 where
  st_read_pub st_sync_vc st_read_select st_read_padd st_done st_fail : MseState

-- `mse_client_t`; `select_buf` holds its first `select_have` bytes.
pub record MseClient : Type 0 where
  pub state : MseState
  pub priv : Bytes
  pub info_hash : Bytes
  pub ia : Bytes
  pub send_rc4 : Rc4
  pub recv_rc4 : Rc4
  pub vc_expect : Bytes
  pub skipped : ℕ
  pub select_buf : Bytes
  pub padd_remaining : ℕ

-- What the code stands on: `base ^ exp mod P` by the bignum library, as 96 bytes, and what stands in
-- the memory of a new SHA-1 context.
pub record MseOps : Type 0 where
  pub modexp : Bytes → Bytes → Bytes
  pub garbage : Bytes

unfoldable pub mse_dh_public : MseOps → Bytes → Bytes
mse_dh_public ops priv = ops.modexp (2 ∷ []) priv

unfoldable pub mse_dh_secret : MseOps → Bytes → Bytes → Bytes
mse_dh_secret ops priv peer_pub = ops.modexp peer_pub priv

unfoldable pub mse_stream_key : MseOps → Bytes → Bytes → Bytes → Rc4
mse_stream_key ops label secret info_hash =
    let key =
      sha1_final
        (sha1_update (sha1_update (sha1_update (sha1_init ops.garbage) label) secret) info_hash) in
    rc4_discard (rc4_init key) 1024

unfoldable pub req_hash : MseOps → Bytes → Bytes → Bytes
req_hash ops tag bs = sha1_final (sha1_update (sha1_update (sha1_init ops.garbage) tag) bs)

-- "keyA", "keyB", "req1", "req2" and "req3"
abbrev pub key_a : Bytes
key_a = b'k' ∷ b'e' ∷ b'y' ∷ b'A' ∷ []

abbrev pub key_b : Bytes
key_b = b'k' ∷ b'e' ∷ b'y' ∷ b'B' ∷ []

abbrev pub req : ℕ → Bytes
req digit = b'r' ∷ b'e' ∷ b'q' ∷ digit ∷ []

abbrev pub zero_rc4 : Rc4
zero_rc4 = record { s = replicate 256 0; i = 0; j = 0 }

-- The client, what is to be sent, and the status.
unfoldable pub mse_client_start :
    MseOps → MseClient → Bytes → Bytes → Bytes → Bytes → ℕ → MseClient × (Bytes × MseStatus)
mse_client_start ops c info_hash priv pad ia out_cap =
    let new : MseClient = record {
      state = st_read_pub;
      priv = priv;
      info_hash = info_hash;
      ia = ia;
      send_rc4 = zero_rc4;
      recv_rc4 = zero_rc4;
      vc_expect = replicate mse_vc_len 0;
      skipped = 0;
      select_buf = [];
      padd_remaining = 0;
    } in
    if ltb mse_max_ia (length ia) || ltb mse_max_pad (length pad)
    then (c, ([], mse_fail))
    else if ltb out_cap (mse_dh_len + length pad)
    then (new, ([], mse_fail))
    else (new, (mse_dh_public ops priv ++ pad, mse_continue))

-- VC | crypto_provide | 00 00 | ia_len | IA
unfoldable pub request_plain : Bytes → Bytes
request_plain ia =
    replicate mse_vc_len 0
    ++ (0 ∷ 0 ∷ 0 ∷ 2 ∷ 0 ∷ 0 ∷ (length ia / 256 % 256) ∷ (length ia % 256) ∷ ia)

unfoldable pub xor_bytes : Bytes → Bytes → Bytes
xor_bytes (x ∷ xs) (y ∷ ys) = bit_xor x y ∷ xor_bytes xs ys
xor_bytes _ _ = []

-- None where the output has no room for it.
unfoldable pub emit_request : MseOps → MseClient → Bytes → ℕ → Option (MseClient × Bytes)
emit_request ops c secret out_cap =
    let plain = request_plain c.ia in
    let block = rc4_crypt c.send_rc4 plain in
    if ltb out_cap (40 + length plain)
    then none
    else some (
      record c { send_rc4 = block.0 },
      req_hash ops (req b'1') secret
          ++ (xor_bytes (req_hash ops (req b'2') c.info_hash) (req_hash ops (req b'3') secret)
              ++ block.1),
    )

-- `c`, `*consumed`, `*produced`, and the status where a part of the code has returned.
pub record Feed : Type 0 where
  pub client : MseClient
  pub consumed : ℕ
  pub produced : Bytes
  pub returned : Option MseStatus

abbrev pub stop_with : MseStatus → Feed → Feed
stop_with status f = record f { returned = some status }

abbrev pub fail_with : Feed → Feed
fail_with f = record f { client = record f.client { state = st_fail }; returned = some mse_fail }

-- The client with both streams and what the peer's VC must look like.
unfoldable pub with_keys : MseOps → MseClient → Bytes → MseClient
with_keys ops c secret =
    let recv = mse_stream_key ops key_b secret c.info_hash in
    record c {
      send_rc4 = mse_stream_key ops key_a secret c.info_hash;
      recv_rc4 = recv;
      vc_expect = (rc4_crypt recv (replicate mse_vc_len 0)).1;
    }

-- The body of `if (c->state == ST_READ_PUB)`.
unfoldable pub read_pub : MseOps → ℕ → Bytes → Feed → Feed
read_pub ops out_cap inp f =
    let secret = mse_dh_secret ops f.client.priv (take mse_dh_len inp) in
    let keyed = with_keys ops f.client secret in
    let taken = record f { client = keyed; consumed = f.consumed + mse_dh_len } in
    if ltb (length inp) mse_dh_len
    then stop_with mse_continue f
    else elim (emit_request ops keyed secret out_cap) [
      | none ↦ fail_with taken
      | some r ↦ record taken {
        client = record r.0 { state = st_sync_vc; skipped = 0 };
        produced = r.1;
      }
    ]

-- `while (k + MSE_VC_LEN <= avail)`, with the position of the match.
unfoldable pub find_vc : Bytes → Bytes → ℕ → Option ℕ
find_vc vc [] k = none
find_vc vc (x ∷ xs) k = elim (ltb (length (x ∷ xs)) mse_vc_len) [
  | true ↦ none
  | false ↦ elim (same_bytes (take mse_vc_len (x ∷ xs)) vc) [
    | true ↦ some k
    | false ↦ find_vc vc xs (k + 1)
  ]
]

unfoldable pub sync_vc : Bytes → Feed → Feed
sync_vc inp f =
    let c = f.client in
    let p = drop f.consumed inp in
    let skip = length p - (mse_vc_len - 1) in
    let passed = (c.skipped + skip) % 4294967296 in
    let passed_by = record f {
      client = record c { skipped = passed };
      consumed = f.consumed + skip;
    } in
    elim (find_vc c.vc_expect p 0) [
      | some k ↦ record f {
        client = record c {
          recv_rc4 = rc4_discard c.recv_rc4 mse_vc_len;
          skipped = (c.skipped + k) % 4294967296;
          state = st_read_select;
          select_buf = [];
        };
        consumed = f.consumed + (k + mse_vc_len);
      }
      | none ↦
          if ltb (mse_max_pad + mse_dh_len) passed
          then fail_with passed_by
          else stop_with mse_continue passed_by
    ]

-- A loop that takes bytes of the input off a stream: the stream, what it has got or still needs, and
-- how many bytes it took.
pub record Taken (A : Type 0) : Type 0 where
  pub rc4 : Rc4
  pub now : A
  pub used : ℕ

unfoldable pub select_loop : Rc4 → Bytes → Bytes → Taken Bytes
select_loop r buf [] = record { rc4 = r; now = buf; used = 0 }
select_loop r buf (x ∷ xs) = elim (ltb (length buf) 6) [
  | false ↦ record { rc4 = r; now = buf; used = 0 }
  | true ↦
      let one = rc4_crypt r (x ∷ []) in
      let rest = select_loop one.0 (buf ++ one.1) xs in record rest { used = rest.used + 1 }
]

-- The flags are the big-endian word of the first four bytes.
unfoldable pub has_rc4 : Bytes → Bool
has_rc4 buf =
    let select =
      get_or buf 0 0 * 16777216 + get_or buf 1 0 * 65536 + get_or buf 2 0 * 256 + get_or buf 3 0 in
    select / 2 % 2 == 1

unfoldable pub padd_of : Bytes → ℕ
padd_of buf = get_or buf 4 0 * 256 + get_or buf 5 0

unfoldable pub read_select : Bytes → Feed → Feed
read_select inp f =
    let c = f.client in
    let t = select_loop c.recv_rc4 c.select_buf (drop f.consumed inp) in
    let got = record f {
      client = record c { recv_rc4 = t.rc4; select_buf = t.now };
      consumed = f.consumed + t.used;
    } in
    let padd = padd_of t.now in
    if ltb (length t.now) 6
    then stop_with mse_continue got
    else if not (has_rc4 t.now) || ltb mse_max_pad padd
    then fail_with got
    else record got { client = record got.client { padd_remaining = padd; state = st_read_padd } }

unfoldable pub padd_loop : Rc4 → ℕ → Bytes → Taken ℕ
padd_loop r zero xs = record { rc4 = r; now = 0; used = 0 }
padd_loop r (suc left) [] = record { rc4 = r; now = suc left; used = 0 }
padd_loop r (suc left) (x ∷ xs) =
    let rest = padd_loop (rc4_discard r 1) left xs in record rest { used = rest.used + 1 }

unfoldable pub read_padd : Bytes → Feed → Feed
read_padd inp f =
    let c = f.client in
    let t = padd_loop c.recv_rc4 c.padd_remaining (drop f.consumed inp) in
    let got = record f {
      client = record c { recv_rc4 = t.rc4; padd_remaining = t.now };
      consumed = f.consumed + t.used;
    } in
    if ltb 0 t.now
    then stop_with mse_continue got
    else record got { client = record got.client { state = st_done }; returned = some mse_done }

abbrev pub state_eq : MseState → MseState → Bool
state_eq st_read_pub st_read_pub = true
state_eq st_sync_vc st_sync_vc = true
state_eq st_read_select st_read_select = true
state_eq st_read_padd st_read_padd = true
state_eq st_done st_done = true
state_eq st_fail st_fail = true
state_eq _ _ = false

-- `if (c->state == state) { … }`, where nothing has returned.
unfoldable pub when_in : MseState → (Feed → Feed) → Feed → Feed
when_in state body f = elim f.returned [
  | some status ↦ f
  | none ↦ if state_eq f.client.state state then body f else f
]

-- The status behind the last part.
unfoldable pub final_status : MseState → MseStatus
final_status st_done = mse_done
final_status st_fail = mse_fail
final_status _ = mse_continue

unfoldable pub mse_client_feed : MseOps → MseClient → Bytes → ℕ → Feed
mse_client_feed ops c inp out_cap =
    let begin : Feed = record { client = c; consumed = 0; produced = []; returned = none } in
    let synced =
      when_in st_sync_vc (sync_vc inp) (when_in st_read_pub (read_pub ops out_cap inp) begin) in
    let read =
      when_in st_read_padd (read_padd inp) (when_in st_read_select (read_select inp) synced) in
    elim read.returned [
      | some status ↦ read
      | none ↦ stop_with (final_status read.client.state) read
    ]
