-- ===== src/Peer/Switch.antt =====
-- core/peer.c: what holds of every message holds of the switch, case by case.
use pipensx_video_downloader.Prelude.{
  ℤ, ℕ, ◌+◌, ◌/◌, ◌%◌, ◌≡◌, refl, Bool, true, false, not, ◌&&◌, inl, inr, List, [], ◌∷◌, Option,
  none, some, Bytes, ltb, leb, ◌==◌, if◌then◌else◌, Bool-cases, Option-cases, length, drop, memcpy,
}
use pipensx_video_downloader.Prelude.Errors.{◌>>=◌}
use pipensx_video_downloader.Bencode.{be_dict_get}
use pipensx_video_downloader.Metainfo.Files.{as_str, as_int, as_dict}
use pipensx_video_downloader.Peer.Requests.{
  BlockReq, Peer, was_recently_dropped, take_pipeline_request, max_unsolicited_pieces,
}
use pipensx_video_downloader.Peer.Messages.{
  Call, on_block, on_have, on_peers, Step, step, str_added, str_m, str_ut_pex, low_byte, more, fail,
  be32, parse_pex, parse_ext_handshake, credit, piece_msg, have_msg, extended_msg, dispatch,
}

-- The receive buffer is the same.
pub record Keeps (p q : Peer) : Type 0 where
  pub bytes : q.rbuf ≡ p.rbuf
  pub head : q.rbuf_head ≡ p.rbuf_head

ext_split :
    (p : Peer) (o : Option ℤ)
    → Keeps p (elim o as (λ _. Peer) [ none ↦ p | some v ↦ record p { peer_ext_pex = low_byte v } ])
ext_split p none = record { bytes = refl; head = refl }
ext_split p (some v) = record { bytes = refl; head = refl }

parse_ext_handshake-Keeps : (p : Peer) (bs : Bytes) → Keeps p (parse_ext_handshake p bs)
unfolding parse_ext_handshake
parse_ext_handshake-Keeps p bs =
    ext_split p (be_dict_get bs str_m >>= as_dict >>= (λ m. be_dict_get m str_ut_pex >>= as_int))

-- The step with the block that was asked for.
abbrev pub asked_step : ℕ → Peer → Bytes → ℕ × List BlockReq → Step
asked_step now p payload t =
    step (credit now (record p { pipeline = t.1 }) (length (drop 8 payload)) t.0)
      (on_block (be32 payload) (be32 (drop 4 payload)) (drop 8 payload) ∷ []) more

module _ (p : Peer) (P : Step → Type 0) (quiet : (q : Peer) → Keeps p q → P (step q [] more))
    (refused : (q : Peer) → Keeps p q → P (step q [] fail))
    (have_piece : (q : Peer) (n : ℕ) → Keeps p q → P (step q (on_have n ∷ []) more))
    (peers : (bs : Bytes) (n : ℕ) → P (step p (on_peers bs n ∷ []) more))
    (block : (now : ℕ) (payload : Bytes) (t : ℕ × List BlockReq)
      → take_pipeline_request p.pipeline
          (be32 payload)
          (be32 (drop 4 payload))
          (length (drop 8 payload))
        ≡ some t
      → P (asked_step now p payload t)) where
  have_msg_cases : (num_pieces : ℕ) (payload : Bytes) → P (have_msg num_pieces p payload)
  unfolding have_msg
  have_msg_cases num_pieces payload = elim (Bool-cases (ltb (length payload) 4)) [
    | inl e ↦ rw (e, have_msg) (quiet p (record { bytes = refl; head = refl }))
    | inr e ↦
        elim (Bool-cases
          (ltb (be32 payload) num_pieces && ltb (be32 payload / 8) (length p.bitfield))) [
            | inl f ↦
                rw (e, f, have_msg)
                  (have_piece _ (be32 payload) (record { bytes = refl; head = refl }))
            | inr f ↦
                rw (e, f, have_msg)
                  (have_piece p (be32 payload) (record { bytes = refl; head = refl }))
          ]
  ]

  pex_split :
      (added : Bytes) (cnt : ℕ) (some_there : Bool)
      → P (step p (if some_there then on_peers added cnt ∷ [] else []) more)
  pex_split added cnt true = peers added cnt
  pex_split added cnt false = quiet p (record { bytes = refl; head = refl })

  pex_option :
      (o : Option Bytes)
      → P (
          step p
            (elim o as (λ _. List Call) [
              | none ↦ []
              | some added ↦
                  if ltb 0 (length added / 6 % 4294967296)
                  then on_peers added (length added / 6 % 4294967296) ∷ []
                  else []
            ])
            more)
  pex_option none = quiet p (record { bytes = refl; head = refl })
  pex_option (some added) =
      pex_split added (length added / 6 % 4294967296) (ltb 0 (length added / 6 % 4294967296))

  parse_pex_cases : (bs : Bytes) → P (step p (parse_pex bs) more)
  unfolding parse_pex
  parse_pex_cases bs = pex_option (be_dict_get bs str_added >>= as_str)

  extended_msg_cases : (payload : Bytes) → P (extended_msg p payload)
  unfolding extended_msg
  extended_msg_cases [] = quiet p (record { bytes = refl; head = refl })
  extended_msg_cases (ext_id ∷ bs) = elim (Bool-cases (ext_id == 0)) [
    | inl e ↦
        rw (e, extended_msg) (quiet (parse_ext_handshake p bs) (parse_ext_handshake-Keeps p bs))
    | inr e ↦ elim (Bool-cases (not (p.peer_ext_pex == 0) && ext_id == p.peer_ext_pex)) [
      | inr f ↦ rw (e, f, extended_msg) (quiet p (record { bytes = refl; head = refl }))
      | inl f ↦ rw (e, f, extended_msg) (parse_pex_cases bs)
    ]
  ]

  piece_msg_cases : (now : ℕ) (payload : Bytes) → P (piece_msg now p payload)
  unfolding piece_msg
  piece_msg_cases now payload = elim (Bool-cases (ltb (length payload) 8)) [
    | inl e ↦ rw (e, piece_msg) (quiet p (record { bytes = refl; head = refl }))
    | inr e ↦
        elim (Option-cases (
          take_pipeline_request p.pipeline (be32 payload) (be32 (drop 4 payload))
            (length (drop 8 payload)))) [
              | inl unasked ↦
                  elim (Bool-cases (
                    was_recently_dropped p.recent_dropped (be32 payload) (be32 (drop 4 payload))
                      (length (drop 8 payload)))) [
                        | inl f ↦
                            rw (e, piece_msg)
                              (rw (unasked, f) (quiet p (record { bytes = refl; head = refl })))
                        | inr f ↦
                            elim (Bool-cases (
                              leb max_unsolicited_pieces
                                ((p.unsolicited_piece_strikes + 1) % 4294967296))) [
                                  | inl g ↦
                                      rw (e, piece_msg)
                                        (rw (unasked, f, g)
                                          (refused _ (record { bytes = refl; head = refl })))
                                  | inr g ↦
                                      rw (e, piece_msg)
                                        (rw (unasked, f, g)
                                          (quiet _ (record { bytes = refl; head = refl })))
                                ]
                      ]
              | inr (t, there) ↦
                  rw (e, piece_msg) (rw (there, piece_msg) (block now payload t there))
            ]
  ]

  -- The messages from BITFIELD on.
  rest_cases :
      (now : ℕ) (id : ℕ) (payload : Bytes)
      → P (
          if id == 5
          then (if leb (length payload) (length p.bitfield)
              then step (record p { bitfield = memcpy p.bitfield 0 payload }) [] more
              else step p [] more)
          else if id == 7
          then piece_msg now p payload
          else if id == 20
          then extended_msg p payload
          else step p [] more)
  rest_cases now id payload = elim (Bool-cases (id == 5)) [
    | inl e ↦ elim (Bool-cases (leb (length payload) (length p.bitfield))) [
      | inl f ↦ rw (e, f) (quiet _ (record { bytes = refl; head = refl }))
      | inr f ↦ rw (e, f) (quiet p (record { bytes = refl; head = refl }))
    ]
    | inr e ↦ elim (Bool-cases (id == 7)) [
      | inl f ↦ rw (e, f) (piece_msg_cases now payload)
      | inr f ↦ elim (Bool-cases (id == 20)) [
        | inl g ↦ rw (e, f, g) (extended_msg_cases payload)
        | inr g ↦ rw (e, f, g) (quiet p (record { bytes = refl; head = refl }))
      ]
    ]
  ]

  pub dispatch_cases :
      (num_pieces now : ℕ) (id : ℕ) (payload : Bytes) → P (dispatch num_pieces now p id payload)
  unfolding dispatch
  dispatch_cases num_pieces now id payload = elim (Bool-cases (id == 0)) [
    | inl e ↦ rw (e, dispatch) (quiet _ (record { bytes = refl; head = refl }))
    | inr e0 ↦ elim (Bool-cases (id == 1)) [
      | inl e ↦ rw (e0, e, dispatch) (quiet _ (record { bytes = refl; head = refl }))
      | inr e1 ↦ elim (Bool-cases (id == 2)) [
        | inl e ↦ rw (e0, e1, e, dispatch) (quiet _ (record { bytes = refl; head = refl }))
        | inr e2 ↦ elim (Bool-cases (id == 3)) [
          | inl e ↦ rw (e0, e1, e2, e, dispatch) (quiet _ (record { bytes = refl; head = refl }))
          | inr e3 ↦ elim (Bool-cases (id == 4)) [
            | inl e ↦ rw (e0, e1, e2, e3, e, dispatch) (have_msg_cases num_pieces payload)
            | inr e4 ↦ rw (e0, e1, e2, e3, e4, dispatch) (rest_cases now id payload)
          ]
        ]
      ]
    ]
  ]
