-- ===== src/Mse/Steps.antt =====
-- Each part of mse_client_feed, on input that holds all it waits for.
use pipensx_video_downloader.Prelude.{
  ◌+◌, ◌%◌, ◌≤◌, ◌<◌, ◌≡◌, refl, ap, ◌∙◌, true, false, [], ◌++◌, some, Bytes, ltb, length, take,
  drop, arith,
}
use pipensx_video_downloader.Rc4.{rc4_crypt, rc4_discard}
use pipensx_video_downloader.Mse.{
  mse_vc_len, mse_max_pad, mse_done, st_read_select, st_read_padd, st_done, Feed, find_vc, sync_vc,
  select_loop, has_rc4, padd_of, read_select, padd_loop, read_padd,
}
use pipensx_video_downloader.Mse.Stages.{
  NoneEarlier, find_vc-NoneEarlier, select_loop-rc4_crypt, padd_loop-rc4_discard,
}

-- The VC behind the padding.
pub sync_vc_lem :
    (f : Feed) (inp pad t : Bytes)
    → drop f.consumed inp ≡ pad ++ t
    → mse_vc_len ≤ length t
    → take mse_vc_len t ≡ f.client.vc_expect
    → NoneEarlier f.client.vc_expect pad t
    → f.client.skipped + length pad < 4294967296
    → sync_vc inp f ≡ record f {
      client = record f.client {
        recv_rc4 = rc4_discard f.client.recv_rc4 mse_vc_len;
        skipped = f.client.skipped + length pad;
        state = st_read_select;
        select_buf = [];
      };
      consumed = f.consumed + (length pad + mse_vc_len);
    }
unfolding sync_vc
sync_vc_lem f inp pad t here long vc clean fits =
    let found : find_vc f.client.vc_expect (drop f.consumed inp) 0 ≡ some (length pad) =
      rw here
        (find_vc-NoneEarlier f.client.vc_expect pad t 0 long vc clean ∙ ap some (omega arith)) in
    let small : (f.client.skipped + length pad) % 4294967296 ≡ f.client.skipped + length pad =
      omega (arith, fits) in
    rw (found, sync_vc) (rw small refl)

-- The six bytes behind it.
pub read_select_lem :
    (f : Feed) (inp xs t : Bytes)
    → drop f.consumed inp ≡ xs ++ t
    → f.client.select_buf ≡ []
    → length xs ≡ 6
    → has_rc4 (rc4_crypt f.client.recv_rc4 xs).1 ≡ true
    → padd_of (rc4_crypt f.client.recv_rc4 xs).1 ≤ mse_max_pad
    → length (rc4_crypt f.client.recv_rc4 xs).1 ≡ 6
    → read_select inp f ≡ record f {
      client = record f.client {
        recv_rc4 = (rc4_crypt f.client.recv_rc4 xs).0;
        select_buf = (rc4_crypt f.client.recv_rc4 xs).1;
        padd_remaining = padd_of (rc4_crypt f.client.recv_rc4 xs).1;
        state = st_read_padd;
      };
      consumed = f.consumed + length xs;
    }
unfolding read_select
read_select_lem f inp xs t here empty six rc4 pad_fits six_plain =
    let loop : select_loop f.client.recv_rc4 f.client.select_buf (drop f.consumed inp) ≡ record {
      rc4 = (rc4_crypt f.client.recv_rc4 xs).0;
      now = (rc4_crypt f.client.recv_rc4 xs).1;
      used = length xs;
    } =
      rw (here, empty) (select_loop-rc4_crypt f.client.recv_rc4 [] xs t (omega (arith, six))) in
    let full : ltb (length (rc4_crypt f.client.recv_rc4 xs).1) 6 ≡ false =
      ground (arith, six_plain) in
    let fits : ltb mse_max_pad (padd_of (rc4_crypt f.client.recv_rc4 xs).1) ≡ false =
      ground (arith, pad_fits) in
    rw (loop, read_select) (rw (full, read_select) (rw (rc4, fits) refl))

-- The padding behind those.
pub read_padd_lem :
    (f : Feed) (inp xs t : Bytes)
    → drop f.consumed inp ≡ xs ++ t
    → f.client.padd_remaining ≡ length xs
    → read_padd inp f ≡ record f {
      client = record f.client {
        recv_rc4 = rc4_discard f.client.recv_rc4 (length xs);
        padd_remaining = 0;
        state = st_done;
      };
      consumed = f.consumed + length xs;
      returned = some mse_done;
    }
unfolding read_padd
read_padd_lem f inp xs t here left =
    let loop : padd_loop f.client.recv_rc4 f.client.padd_remaining (drop f.consumed inp)
        ≡ record { rc4 = rc4_discard f.client.recv_rc4 (length xs); now = 0; used = length xs } =
      rw (here, left) (padd_loop-rc4_discard f.client.recv_rc4 xs t) in
    rw (loop, read_padd) refl
