-- ===== src/Mse/Stages.antt =====
-- The loops of the handshake, each on input that holds what it looks for.
use pipensx_video_downloader.Prelude.{
  ℕ, ◌+◌, ◌≤◌, bit_xor, ◌≡◌, ◌≢◌, refl, ap, ◌∙◌, true, false, inl, inr, [], ◌∷◌, ◌++◌, some, Bytes,
  ltb, Bool-cases, length, take, arith, length-append,
}
use mathlib.Core.List.{append-nil, append_assoc}
use native.Mathlib.Numerals.{add-one}
use pipensx_video_downloader.Bencode.{same_bytes}
use pipensx_video_downloader.Bencode.Dict.{same_bytes_iff}
use pipensx_video_downloader.Rc4.{Rc4, rc4_step, key_byte, rc4_crypt, rc4_discard}
use pipensx_video_downloader.Mse.{mse_vc_len, find_vc, select_loop, padd_loop}

-- No match starts in the padding.
abbrev pub NoneEarlier : Bytes → Bytes → Bytes → Type 0
NoneEarlier vc [] t = Unit {0}
NoneEarlier vc (x ∷ xs) t = (take mse_vc_len (x ∷ (xs ++ t)) ≢ vc) × NoneEarlier vc xs t

-- The scan stops at the first match.
pub find_vc-NoneEarlier :
    (vc pad t : Bytes) (k : ℕ)
    → mse_vc_len ≤ length t
    → take mse_vc_len t ≡ vc
    → NoneEarlier vc pad t
    → find_vc vc (pad ++ t) k ≡ some (k + length pad)
unfolding find_vc
find_vc-NoneEarlier vc [] [] k long here none_before = elim long [ ]
find_vc-NoneEarlier vc [] (x ∷ t) k long here none_before =
    let fits : ltb (length (x ∷ t)) mse_vc_len ≡ false = ground arith in
    let hit = (same_bytes_iff (take mse_vc_len (x ∷ t)) vc).1 here in
    rw (fits, find_vc) (rw (hit, find_vc) (ap some (omega arith)))
find_vc-NoneEarlier vc (x ∷ pad) t k long here none_before =
    let fits : ltb (length (x ∷ (pad ++ t))) mse_vc_len ≡ false =
      ground (arith, length-append pad t, long) in
    elim (Bool-cases (same_bytes (take mse_vc_len (x ∷ (pad ++ t))) vc)) [
      | inl e ↦ absurd (none_before.0 ((same_bytes_iff (take mse_vc_len (x ∷ (pad ++ t))) vc).0 e))
      | inr e ↦
          rw (fits, find_vc)
            (rw (e, find_vc)
              (find_vc-NoneEarlier vc pad t (k + 1) long here none_before.1
                ∙ ap some (omega arith)))
    ]

-- The loop takes just the bytes that are missing, decrypted.
pub select_loop-rc4_crypt :
    (r : Rc4) (buf xs t : Bytes)
    → length buf + length xs ≡ 6
    → select_loop r buf (xs ++ t)
      ≡ record { rc4 = (rc4_crypt r xs).0; now = buf ++ (rc4_crypt r xs).1; used = length xs }
unfolding select_loop rc4_crypt
select_loop-rc4_crypt r buf [] [] h = rw (append-nil buf) refl
select_loop-rc4_crypt r buf [] (y ∷ t) h =
    let full : ltb (length buf) 6 ≡ false = ground (arith, h) in
    rw (full, append-nil buf, select_loop) refl
select_loop-rc4_crypt r buf (x ∷ xs) t h =
    let more : ltb (length buf) 6 ≡ true = ground (arith, h) in
    let b = bit_xor x (key_byte (rc4_step r)) ∷ [] in
    let rest =
      select_loop-rc4_crypt (rc4_step r) (buf ++ b) xs t (omega (arith, h, length-append buf b)) in
    rw (more, select_loop)
      (rw rest (
        ap
          (λ (y : Bytes). record {
            rc4 = (rc4_crypt (rc4_step r) xs).0;
            now = y;
            used = length xs + 1;
          })
          (append_assoc buf b (rc4_crypt (rc4_step r) xs).1)
        ∙ rw add-one refl))

pub padd_loop-rc4_discard :
    (r : Rc4) (xs t : Bytes)
    → padd_loop r (length xs) (xs ++ t)
      ≡ record { rc4 = rc4_discard r (length xs); now = 0; used = length xs }
unfolding padd_loop rc4_discard
padd_loop-rc4_discard r [] t = refl
padd_loop-rc4_discard r (x ∷ xs) t = rw (padd_loop-rc4_discard (rc4_step r) xs t) (rw add-one refl)
