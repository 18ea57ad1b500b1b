-- ===== src/Tests/Streams.antt =====
-- core/mse.c on short streams.
use pipensx_video_downloader.Prelude.{◌≡◌, refl, [], ◌∷◌, Bytes, replicate, arith}
use pipensx_video_downloader.Rc4.{
  Rc4, rc4_init, rc4_crypt, rc4_step, key_rounds, key_byte, count_up,
}
use pipensx_video_downloader.Rc4.Stream.{rc4_init-IsTable, rc4_crypt-rc4_crypt}
use pipensx_video_downloader.Rc4.Table.{IsPermutation, rc4_crypt-IsPermutation}
use pipensx_video_downloader.Mse.{
  MseClient, MseOps, st_read_pub, zero_rc4, request_plain, mse_client_feed, has_rc4, padd_of,
}
use pipensx_video_downloader.Mse.Handshake.{Answer, answer, finished, mse_client_feed-answer}

-- The test vector "Key", "Plaintext".
rc4_of_plaintext :
    (rc4_crypt (rc4_init (b'K' ∷ b'e' ∷ b'y' ∷ [])) (b'P' ∷ b'l' ∷ b'a' ∷ b'i' ∷ [])).1
    ≡ 187 ∷ 243 ∷ 22 ∷ 232 ∷ []
unfolding rc4_init rc4_crypt rc4_step key_rounds key_byte count_up
rc4_of_plaintext = refl

abbrev keyed : Rc4
keyed = rc4_init (b'K' ∷ b'e' ∷ b'y' ∷ [])

rc4_crypt-rc4_crypt_example :
    rc4_crypt keyed (rc4_crypt keyed (7 ∷ 8 ∷ [])).1
    ≡ ((rc4_crypt keyed (7 ∷ 8 ∷ [])).0, 7 ∷ 8 ∷ [])
rc4_crypt-rc4_crypt_example =
    rc4_crypt-rc4_crypt keyed (7 ∷ 8 ∷ []) (rc4_init-IsTable (b'K' ∷ b'e' ∷ b'y' ∷ []))
      (omega arith, (omega arith, tt))

-- A client that has sent its public key, with a made up exponentiation.
abbrev ops : MseOps
ops = record { modexp = λ base exp. replicate 96 7; garbage = replicate 64 170 }

abbrev client : MseClient
client = record {
  state = st_read_pub;
  priv = replicate 96 1;
  info_hash = replicate 20 2;
  ia = 9 ∷ [];
  send_rc4 = zero_rc4;
  recv_rc4 = zero_rc4;
  vc_expect = replicate 8 0;
  skipped = 0;
  select_buf = [];
  padd_remaining = 0;
}

-- An answer that chooses RC4, with two bytes of padding behind it and one more byte.
abbrev chosen : Bytes
chosen = 0 ∷ 0 ∷ 0 ∷ 2 ∷ 0 ∷ 2 ∷ []

chosen-Answer : Answer ops client (replicate 96 7) [] chosen (5 ∷ 6 ∷ []) (1 ∷ [])
unfolding has_rc4 padd_of
chosen-Answer = record {
  pub_len = refl;
  select_len = refl;
  select_bytes =
      (omega arith, (omega arith, (omega arith, (omega arith, (omega arith, (omega arith, tt))))));
  offers_rc4 = refl;
  pad_d_len = refl;
  pad_d_le = omega arith;
  pad_b_le = omega arith;
  pad_b_clean = tt;
}

mse_client_feed-answer_example :
    mse_client_feed ops client
      (answer ops client (replicate 96 7) [] chosen (5 ∷ 6 ∷ []) (1 ∷ []) chosen-Answer)
      608
    ≡ finished ops client (replicate 96 7) [] chosen (5 ∷ 6 ∷ []) (1 ∷ []) chosen-Answer
unfolding request_plain
mse_client_feed-answer_example =
    mse_client_feed-answer ops client (replicate 96 7) [] chosen (5 ∷ 6 ∷ []) (1 ∷ []) chosen-Answer
      608 refl (omega arith)

rc4_crypt-IsPermutation_example :
    IsPermutation (rc4_crypt (rc4_init (b'K' ∷ b'e' ∷ b'y' ∷ [])) (b'P' ∷ b'l' ∷ [])).0.s
rc4_crypt-IsPermutation_example =
    rc4_crypt-IsPermutation (b'K' ∷ b'e' ∷ b'y' ∷ []) (b'P' ∷ b'l' ∷ [])
