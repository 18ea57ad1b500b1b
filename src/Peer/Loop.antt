-- ===== src/Peer/Loop.antt =====
-- core/peer.c: the loop over the messages of a buffer ends.
use pipensx_video_downloader.Prelude.{
  ℕ, zero, suc, ◌+◌, ◌-◌, ◌≤◌, ◌<◌, ◌≡◌, ◌≢◌, refl, ap, ◌⊎◌, Bool, true, false, inl, inr, List, [],
  ◌∷◌, ◌++◌, Bytes, ltb, Bool-cases, length, take, drop, arith, length-drop,
}
use pipensx_video_downloader.Peer.Requests.{PeerState, Peer}
use pipensx_video_downloader.Peer.Messages.{
  Call, credit, Progress, wait, more, fail, Step, step, be32, dispatch, after_switch, max_message,
  message_at, process_message, is_active, process_loop,
}
use pipensx_video_downloader.Peer.Buffer.{unread}
use mathlib.Core.Path.{subst}
use pipensx_video_downloader.Peer.Switch.{Keeps, dispatch_cases}

-- The bytes do not hold a whole message yet.
abbrev pub Incomplete : Bytes → Type 0
Incomplete bs = (length bs < 4) ⊎ (length bs < 4 + be32 bs)

-- A step that asks for another one has consumed four bytes or more of the buffer, and one that waits
-- does so for the rest of a message.
record Moves (p : Peer) (s : Step) : Type 0 where
  advances :
      s.progress ≡ more
      → (s.peer.rbuf ≡ p.rbuf)
        × (p.rbuf_head + 4 ≤ s.peer.rbuf_head)
        × (s.peer.rbuf_head ≤ length p.rbuf)
  waits : s.progress ≡ wait → Incomplete (unread s.peer)

dispatch-Keeps :
    (num_pieces now : ℕ) (p : Peer) (id : ℕ) (payload : Bytes)
    → Keeps p (dispatch num_pieces now p id payload).peer
unfolding credit
dispatch-Keeps num_pieces now p id payload =
    dispatch_cases p (λ s. Keeps p s.peer) (λ q same. same) (λ q same. same) (λ q n same. same)
      (λ bs n. record { bytes = refl; head = refl })
      (λ n bs t there. record { bytes = refl; head = refl }) num_pieces now id payload

dispatch_never_waits :
    (num_pieces now : ℕ) (p : Peer) (id : ℕ) (payload : Bytes)
    → (dispatch num_pieces now p id payload).progress ≢ wait
dispatch_never_waits num_pieces now p id payload =
    dispatch_cases p (λ s. s.progress ≢ wait) (λ q same h. cc h) (λ q same h. cc h)
      (λ q n same h. cc h) (λ bs n h. cc h) (λ n bs t there h. cc h) num_pieces now id payload

behind_split :
    (later msg_len : ℕ) (p : Peer) (s : Step) (progress : Progress)
    → s.progress ≡ progress
    → s.progress ≢ wait
    → Keeps p s.peer
    → p.rbuf_head + (4 + msg_len) ≤ length p.rbuf
    → Moves p (elim progress as (λ _. Step) [
      | fail ↦ s
      | more ↦ record s {
        peer = record s.peer { last_recv_ms = later; rbuf_head = s.peer.rbuf_head + (4 + msg_len) };
      }
      | wait ↦ s
    ])
behind_split later msg_len p s fail e ne same room = record {
  advances = λ h. absurd (cc (e, h));
  waits = λ h. absurd (ne h);
}
behind_split later msg_len p s wait e ne same room = absurd (ne e)
behind_split later msg_len p s more e ne same room = record {
  advances = λ h. (same.bytes, omega (arith, same.head), omega (arith, same.head, room));
  waits = λ h. absurd (ne h);
}

body-Moves :
    (num_pieces now later msg_len : ℕ) (p : Peer) (msg : Bytes)
    → p.rbuf_head + (4 + msg_len) ≤ length p.rbuf
    → Moves p (elim msg as (λ _. Step) [
      | [] ↦ step (record p { rbuf_head = p.rbuf_head + 4 }) [] more
      | id ∷ payload ↦ after_switch later msg_len (dispatch num_pieces now p id payload)
    ])
unfolding after_switch
body-Moves num_pieces now later msg_len p [] room = record {
  advances = λ h. (refl, omega arith, omega (arith, room));
  waits = λ h. absurd (cc h);
}
body-Moves num_pieces now later msg_len p (id ∷ payload) room =
    behind_split later msg_len p (dispatch num_pieces now p id payload)
      (dispatch num_pieces now p id payload).progress refl
      (dispatch_never_waits num_pieces now p id payload)
      (dispatch-Keeps num_pieces now p id payload) room

refuses : (p : Peer) → Moves p (step p [] fail)
refuses p = record { advances = λ h. absurd (cc h); waits = λ h. absurd (cc h) }

waits_for : (p : Peer) → Incomplete (unread p) → Moves p (step p [] wait)
waits_for p short = record { advances = λ h. absurd (cc h); waits = λ h. short }

message_at-Moves :
    (num_pieces now later : ℕ) (p : Peer) (base : Bytes)
    → base ≡ unread p
    → p.rbuf_head + length base ≤ length p.rbuf
    → Moves p (message_at num_pieces now later p base)
unfolding message_at
message_at-Moves num_pieces now later p base e_base inside =
    elim (Bool-cases (ltb (length base) 4)) [
      | inl e ↦ rw (e, message_at) (waits_for p (subst Incomplete e_base (inl (ground arith))))
      | inr e ↦ elim (Bool-cases (ltb max_message (be32 base))) [
        | inl f ↦ rw (e, message_at) (rw (f, message_at) (refuses p))
        | inr f ↦ elim (Bool-cases (ltb (length base) (4 + be32 base))) [
          | inl g ↦
              rw (e, message_at)
                (rw (f, message_at)
                  (rw (g, message_at) (waits_for p (subst Incomplete e_base (inr (ground arith))))))
          | inr g ↦
              rw (e, message_at)
                (rw (f, message_at)
                  (rw (g, message_at)
                    (body-Moves num_pieces now later (be32 base) p (take (be32 base) (drop 4 base))
                      (ground (arith, inside)))))
        ]
      ]
    ]

-- How the loop is left: a message was refused, the connection is not active, or what is left of the
-- buffer is not a whole message.
abbrev pub Left : Step → Type 0
Left s =
    (s.progress ≡ fail)
    ⊎ ((s.progress ≡ wait) × ((is_active s.peer.state ≡ false) ⊎ Incomplete (unread s.peer)))

-- The connection behind the callbacks of a step.
abbrev heard : (List Call → PeerState → PeerState) → Step → Peer
heard flagged s = record s.peer { state = flagged s.calls s.peer.state }

loop_split :
    (num_pieces : ℕ) (clock : ℕ → ℕ × ℕ) (flagged : List Call → PeerState → PeerState) (fuel : ℕ)
    (s : Step) (progress : Progress)
    → s.progress ≡ progress
    → (s.progress ≡ wait → Incomplete (unread s.peer))
    → (progress ≡ more → Left (process_loop num_pieces clock flagged fuel (heard flagged s)))
    → Left (elim progress as (λ _. Step) [
      | wait ↦ s
      | fail ↦ s
      | more ↦ record (process_loop num_pieces clock flagged fuel (heard flagged s)) {
        calls = s.calls ++ (process_loop num_pieces clock flagged fuel (heard flagged s)).calls;
      }
    ])
loop_split num_pieces clock flagged fuel s wait e waits rest = inr (e, inr (waits e))
loop_split num_pieces clock flagged fuel s fail e waits rest = inl e
loop_split num_pieces clock flagged fuel s more e waits rest = rest refl

active_split :
    (p : Peer) (active : Bool) (s : Step)
    → is_active p.state ≡ active
    → Left s
    → Left (elim active as (λ _. Step) [ false ↦ step p [] wait | true ↦ s ])
active_split p false s e left = inr (refl, inl e)
active_split p true s e left = left

-- With more rounds than bytes to read, and the cursor within the buffer, the loop over the
-- messages of peer_process ends, whatever state the callbacks leave the connection in, for one of
-- three reasons and never because the rounds run out: a message was refused, the connection is not
-- active, or what is left of the buffer is not a whole message (fewer than four bytes, or fewer
-- than its length asks for).
pub process_loop_stops :
    (num_pieces : ℕ) (clock : ℕ → ℕ × ℕ) (flagged : List Call → PeerState → PeerState) (fuel : ℕ)
    (p : Peer)
    → p.rbuf_head ≤ length p.rbuf
    → length p.rbuf - p.rbuf_head < fuel
    → Left (process_loop num_pieces clock flagged fuel p)
unfolding process_loop process_message
process_loop_stops num_pieces clock flagged zero p le enough = elim enough [ ]
process_loop_stops num_pieces clock flagged (suc fuel) p le enough =
    let s = process_message num_pieces (clock fuel).0 (clock fuel).1 p in
    let inside : p.rbuf_head + length (unread p) ≤ length p.rbuf =
      omega (arith, le, length-drop p.rbuf_head p.rbuf) in
    let moves =
      message_at-Moves num_pieces (clock fuel).0 (clock fuel).1 p (unread p) refl inside in
    active_split p (is_active p.state) _ refl (
      loop_split num_pieces clock flagged fuel s s.progress refl moves.waits (λ e.
        let (same, up, top) = moves.advances e in
        let len = ap (λ (bs : Bytes). length bs) same in
        process_loop_stops num_pieces clock flagged fuel (heard flagged s) (omega (arith, top, len))
          (omega (arith, up, top, len, enough, le))))
