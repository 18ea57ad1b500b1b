-- ===== src/Peer/Admission.antt =====
-- core/peer.c: only a block that was asked for is passed on.
use pipensx_video_downloader.Prelude.{
  ℕ, ◌+◌, ◌≡◌, refl, ap, ◌∙◌, Bool, true, false, inl, inr, List, [], ◌∷◌, ◌++◌, Option, some, Bytes,
  ltb, Bool-cases, length, take, drop, arith,
}
use pipensx_video_downloader.Prelude.Errors.{◌>>=◌, >>=-eq-some}
use mathlib.Core.Path.{subst}
use pipensx_video_downloader.Prelude.Errors.{some_inj}
use pipensx_video_downloader.Peer.Requests.{BlockReq, Peer, matches, take_pipeline_request}
use pipensx_video_downloader.Peer.Switch.{dispatch_cases}
use pipensx_video_downloader.Peer.Messages.{
  Call, on_block, on_have, on_peers, Step, step, Progress, wait, more, fail, be32, credit, dispatch,
  after_switch, max_message, message_at, process_message,
}

-- `r` is taken out, and it is the request of the block.
pub record TakenOut (rs : List BlockReq) (index offset len requested_ms : ℕ) (left : List BlockReq)
    : Type 0 where
  pub before : List BlockReq
  pub req : BlockReq
  pub behind : List BlockReq
  pub all : rs ≡ before ++ (req ∷ behind)
  pub others : left ≡ before ++ behind
  pub at_index : req.index ≡ index
  pub at_offset : req.offset ≡ offset
  pub of_length : req.length ≡ len
  pub since : req.requested_ms ≡ requested_ms

matches_sound :
    (r : BlockReq) (index offset len : ℕ)
    → matches r index offset len ≡ true
    → (r.index ≡ index) × (r.offset ≡ offset) × (r.length ≡ len)
matches_sound r index offset len h = ground arith

take_split :
    (r : BlockReq) (rs : List BlockReq) (index offset len : ℕ) (match : Bool)
    {t : ℕ × List BlockReq}
    → matches r index offset len ≡ match
    → ((s : ℕ × List BlockReq)
        → take_pipeline_request rs index offset len ≡ some s
        → TakenOut rs index offset len s.0 s.1)
    → elim match as (λ _. Option (ℕ × List BlockReq)) [
      | true ↦ some (r.requested_ms, rs)
      | false ↦ take_pipeline_request rs index offset len >>= (λ t. some (t.0, r ∷ t.1))
    ]
      ≡ some t
    → TakenOut (r ∷ rs) index offset len t.0 t.1
take_split r rs index offset len true e ih h =
    let (i, o, l) = matches_sound r index offset len e in
    subst (λ (t : ℕ × List BlockReq). TakenOut (r ∷ rs) index offset len t.0 t.1) (some_inj h)
      (record {
        before = [];
        req = r;
        behind = rs;
        all = refl;
        others = refl;
        at_index = i;
        at_offset = o;
        of_length = l;
        since = refl;
      })
take_split r rs index offset len false e ih h =
    let (s, hs, h1) = >>=-eq-some (take_pipeline_request rs index offset len) _ h in
    let t = ih s hs in
    subst (λ (t : ℕ × List BlockReq). TakenOut (r ∷ rs) index offset len t.0 t.1) (some_inj h1)
      (record {
        before = r ∷ t.before;
        req = t.req;
        behind = t.behind;
        all = ap (◌∷◌ r) t.all;
        others = ap (◌∷◌ r) t.others;
        at_index = t.at_index;
        at_offset = t.at_offset;
        of_length = t.of_length;
        since = t.since;
      })

pub take_pipeline_request-TakenOut :
    (rs : List BlockReq) (index offset len : ℕ) {t : ℕ × List BlockReq}
    → take_pipeline_request rs index offset len ≡ some t
    → TakenOut rs index offset len t.0 t.1
unfolding take_pipeline_request
take_pipeline_request-TakenOut [] index offset len h = absurd (cc h)
take_pipeline_request-TakenOut (r ∷ rs) index offset len {t} h =
    take_split r rs index offset len (matches r index offset len) refl
      (λ s e. take_pipeline_request-TakenOut rs index offset len e) h

-- A block that the step passes on was asked for, and its request is gone.
pub Admits : Peer → Step → Type 0
Admits p s =
    (idx off : ℕ) (block : Bytes)
    → s.calls ≡ on_block idx off block ∷ []
    → (requested_ms : ℕ) × TakenOut p.pipeline idx off (length block) requested_ms s.peer.pipeline

no_calls : (p q : Peer) (progress : Progress) → Admits p (step q [] progress)
unfolding Admits
no_calls p q progress idx off block h = absurd (cc h)

one_have : (p q : Peer) (n : ℕ) → Admits p (step q (on_have n ∷ []) more)
unfolding Admits
one_have p q n idx off block h = absurd (cc h)

one_peers : (p q : Peer) (bs : Bytes) (n : ℕ) → Admits p (step q (on_peers bs n ∷ []) more)
unfolding Admits
one_peers p q bs n idx off block h = absurd (cc h)

-- What a call of on_block names.
abbrev call_index : List Call → ℕ
call_index (on_block idx off block ∷ cs) = idx
call_index _ = 0

abbrev call_offset : List Call → ℕ
call_offset (on_block idx off block ∷ cs) = off
call_offset _ = 0

abbrev call_length : List Call → ℕ
call_length (on_block idx off block ∷ cs) = length block
call_length _ = 0

credit-Admits :
    (now : ℕ) (p : Peer) (payload : Bytes) (t : ℕ × List BlockReq)
    → take_pipeline_request p.pipeline
        (be32 payload)
        (be32 (drop 4 payload))
        (length (drop 8 payload))
      ≡ some t
    → Admits p (
        step
          (credit now (record p { pipeline = t.1 }) (length (drop 8 payload)) t.0)
          (on_block (be32 payload) (be32 (drop 4 payload)) (drop 8 payload) ∷ [])
          more)
unfolding Admits credit
credit-Admits now p payload t there idx off block h =
    let taken =
      take_pipeline_request-TakenOut p.pipeline (be32 payload) (be32 (drop 4 payload))
        (length (drop 8 payload)) there in
    (
      t.0,
      record {
        before = taken.before;
        req = taken.req;
        behind = taken.behind;
        all = taken.all;
        others = taken.others;
        at_index = taken.at_index ∙ ap call_index h;
        at_offset = taken.at_offset ∙ ap call_offset h;
        of_length = taken.of_length ∙ ap call_length h;
        since = taken.since;
      },
    )

dispatch-Admits :
    (num_pieces now : ℕ) (p : Peer) (id : ℕ) (payload : Bytes)
    → Admits p (dispatch num_pieces now p id payload)
dispatch-Admits num_pieces now p id payload =
    dispatch_cases p (Admits p) (λ q same. no_calls p q more) (λ q same. no_calls p q fail)
      (λ q n same. one_have p q n) (λ bs n. one_peers p p bs n)
      (λ n bs t there. credit-Admits n p bs t there) num_pieces now id payload

switch_split :
    (later msg_len : ℕ) (p : Peer) (s : Step) (progress : Progress)
    → Admits p s
    → Admits p (elim progress as (λ _. Step) [
      | fail ↦ s
      | more ↦ record s {
        peer = record s.peer { last_recv_ms = later; rbuf_head = s.peer.rbuf_head + (4 + msg_len) };
      }
      | wait ↦ s
    ])
unfolding Admits
switch_split later msg_len p s fail h = h
switch_split later msg_len p s more h = h
switch_split later msg_len p s wait h = h

after_switch-Admits :
    (later msg_len : ℕ) (p : Peer) (s : Step) → Admits p s → Admits p (after_switch later msg_len s)
unfolding after_switch
after_switch-Admits later msg_len p s h = switch_split later msg_len p s s.progress h

Admits-body :
    (num_pieces now later msg_len : ℕ) (p : Peer) (msg : Bytes)
    → Admits p (elim msg as (λ _. Step) [
      | [] ↦ step (record p { rbuf_head = p.rbuf_head + 4 }) [] more
      | id ∷ payload ↦ after_switch later msg_len (dispatch num_pieces now p id payload)
    ])
Admits-body num_pieces now later msg_len p [] = no_calls p _ more
Admits-body num_pieces now later msg_len p (id ∷ payload) =
    after_switch-Admits later msg_len p (dispatch num_pieces now p id payload)
      (dispatch-Admits num_pieces now p id payload)

message_at-Admits :
    (num_pieces now later : ℕ) (p : Peer) (base : Bytes)
    → Admits p (message_at num_pieces now later p base)
unfolding message_at
message_at-Admits num_pieces now later p base = elim (Bool-cases (ltb (length base) 4)) [
  | inl e ↦ rw (e, message_at) (no_calls p p wait)
  | inr e ↦ elim (Bool-cases (ltb max_message (be32 base))) [
    | inl f ↦ rw (e, message_at) (rw (f, message_at) (no_calls p p fail))
    | inr f ↦ elim (Bool-cases (ltb (length base) (4 + be32 base))) [
      | inl g ↦ rw (e, message_at) (rw (f, message_at) (rw (g, message_at) (no_calls p p wait)))
      | inr g ↦
          rw (e, message_at)
            (rw (f, message_at)
              (rw (g, message_at)
                (Admits-body num_pieces now later (be32 base) p (take (be32 base) (drop 4 base)))))
    ]
  ]
]

--
-- Where process_message passes a block on, a request of exactly its piece, offset and length was
-- outstanding, and the pipeline is left with one such request taken out and the others in order.
pub process_message-on_block :
    (num_pieces now later : ℕ) (p : Peer) (idx off : ℕ) (block : Bytes)
    → (process_message num_pieces now later p).calls ≡ on_block idx off block ∷ []
    → (requested_ms : ℕ) × TakenOut p.pipeline idx off
        (length block)
        requested_ms
        (process_message num_pieces now later p).peer.pipeline
unfolding process_message Admits
process_message-on_block num_pieces now later p idx off block h =
    message_at-Admits num_pieces now later p (drop p.rbuf_head p.rbuf) idx off block h
