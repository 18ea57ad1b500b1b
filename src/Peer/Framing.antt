-- ===== src/Peer/Framing.antt =====
-- core/peer.c: a frame that one side sends is the message that the other side handles.
use pipensx_video_downloader.Prelude.{
  ℕ, ◌+◌, ◌≤◌, ◌<◌, ◌≡◌, refl, ap, ◌∙◌, false, ◌∷◌, ◌++◌, Bytes, ltb, length, take, drop, arith,
  length-append,
}
use pipensx_video_downloader.Prelude.Slices.{take-append_left, take_all}
use pipensx_video_downloader.Peer.Send.{header}
use pipensx_video_downloader.Peer.Requests.{Peer}
use pipensx_video_downloader.Peer.Messages.{
  be32, dispatch, after_switch, max_message, message_at, process_message,
}

pub be32-header : (n : ℕ) (bs : Bytes) → n < 4294967296 → be32 (header n ++ bs) ≡ n
unfolding be32 header
be32-header n bs h = omega (arith, h)

base_len :
    (n : ℕ) (msg rest : Bytes) → length (header n ++ (msg ++ rest)) ≡ 4 + length msg + length rest
unfolding header
base_len n msg rest = omega (arith, length-append msg rest)

body_of :
    (n : ℕ) (msg rest : Bytes) → n ≡ length msg → take n (drop 4 (header n ++ (msg ++ rest))) ≡ msg
unfolding header
body_of n msg rest e =
    take-append_left n msg rest (omega (arith, e)) ∙ take_all n msg (omega (arith, e))

message_at-frame :
    (num_pieces now later : ℕ) (p : Peer) (id : ℕ) (payload rest : Bytes)
    → length (id ∷ payload) ≤ max_message
    → message_at num_pieces now later p (header (length (id ∷ payload)) ++ ((id ∷ payload) ++ rest))
      ≡ after_switch later (length (id ∷ payload)) (dispatch num_pieces now p id payload)
unfolding message_at
message_at-frame num_pieces now later p id payload rest small =
    let n = length (id ∷ payload) in
    let base = header n ++ ((id ∷ payload) ++ rest) in
    let len : be32 base ≡ n = be32-header n ((id ∷ payload) ++ rest) (omega (arith, small)) in
    let total : length base ≡ 4 + n + length rest = base_len n (id ∷ payload) rest in
    let four : ltb (length base) 4 ≡ false = ground (arith, total) in
    let bound : ltb max_message n ≡ false = ground (arith, small) in
    let whole : ltb (length base) (4 + n) ≡ false = ground (arith, total) in
    let taken : take n (drop 4 base) ≡ id ∷ payload = body_of n (id ∷ payload) rest refl in
    rw (four, message_at)
      (rw (len, bound, message_at)
        (rw (len, whole, message_at) (rw (len, taken, message_at) (rw len refl))))

--
-- A message of one to 262144 bytes, framed as send_msg frames it, with any bytes behind it, is
-- handled as that message: its id goes to the switch with its payload, whatever follows.
pub process_message-frame :
    (num_pieces now later : ℕ) (p : Peer) (id : ℕ) (payload rest : Bytes)
    → drop p.rbuf_head p.rbuf ≡ header (length (id ∷ payload)) ++ ((id ∷ payload) ++ rest)
    → length (id ∷ payload) ≤ max_message
    → process_message num_pieces now later p
      ≡ after_switch later (length (id ∷ payload)) (dispatch num_pieces now p id payload)
unfolding process_message
process_message-frame num_pieces now later p id payload rest here small =
    ap (message_at num_pieces now later p) here
    ∙ message_at-frame num_pieces now later p id payload rest small
