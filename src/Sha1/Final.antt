-- ===== src/Sha1/Final.antt =====
-- `sha1` against the standard's description: the digest of the padded text.
use pipensx_video_downloader.Prelude.{
  ℕ, zero, suc, ◌+◌, ◌-◌, ◌*◌, ◌/◌, ◌%◌, ◌≤◌, ◌<◌, ◌≡◌, ap, true, false, [], ◌∷◌, ◌++◌, Bytes, ◌==◌,
  length, replicate, arith, length-append,
}
use mathlib.Core.List.{append_assoc, append-nil}
use pipensx_video_downloader.Sha1.{
  word, Sha1Ctx, first_words, sha1_init, sha1_update, finalcount, pad_zeros, digest_of, big_endian,
  sha1_final, sha1,
}
use pipensx_video_downloader.Sha1.Blocks.{absorbed}
use pipensx_video_downloader.Sha1.Update.{Streams, sha1_update-Streams, sha1_init-Streams}

-- A number of 64 bits, the highest byte first.
abbrev pub big_endian_64 : ℕ → Bytes
big_endian_64 n =
    (n / 72057594037927936 % 256)
    ∷ (n / 281474976710656 % 256)
    ∷ (n / 1099511627776 % 256)
    ∷ (n / 4294967296 % 256)
    ∷ (n / 16777216 % 256)
    ∷ (n / 65536 % 256)
    ∷ (n / 256 % 256)
    ∷ (n % 256)
    ∷ []

-- FIPS 180: a bit 1, zeros up to 8 bytes before the end of a block, and the length in bits.
pub padded : Bytes → Bytes
padded m =
    ((m ++ (128 ∷ [])) ++ replicate ((119 - length m % 64) % 64) 0) ++ big_endian_64 (length m * 8)

-- The digest of the blocks of the padded text.
pub standard_sha1 : Bytes → Bytes
standard_sha1 m = digest_of (absorbed first_words (padded m))

-- The bytes of the two words of a bit count.
same_bytes_of :
    (n : ℕ) → big_endian (n / 536870912 % word) ++ big_endian (n * 8 % word) ≡ big_endian_64 (n * 8)
same_bytes_of n =
    let high : (n / 536870912 % word / 16777216 % 256 ≡ n * 8 / 72057594037927936 % 256)
        × (n / 536870912 % word / 65536 % 256 ≡ n * 8 / 281474976710656 % 256) =
      omega arith in
    let middle : (n / 536870912 % word / 256 % 256 ≡ n * 8 / 1099511627776 % 256)
        × (n / 536870912 % word % 256 ≡ n * 8 / 4294967296 % 256) =
      omega arith in
    let low : (n * 8 % word / 16777216 % 256 ≡ n * 8 / 16777216 % 256)
        × (n * 8 % word / 65536 % 256 ≡ n * 8 / 65536 % 256) =
      omega arith in
    let last : (n * 8 % word / 256 % 256 ≡ n * 8 / 256 % 256) × (n * 8 % word % 256 ≡ n * 8 % 256) =
      omega arith in
    cc (high.0, high.1, middle.0, middle.1, low.0, low.1, last.0, last.1)

finalcount-Streams :
    (ctx : Sha1Ctx) (m : Bytes) → Streams ctx m → finalcount ctx ≡ big_endian_64 (length m * 8)
unfolding finalcount
finalcount-Streams ctx m s = rw (s.lo, s.hi) (same_bytes_of (length m))

-- The zeros stop where the length has its place.
pad_zeros-Streams :
    (fuel n : ℕ) (ctx : Sha1Ctx) (m : Bytes)
    → Streams ctx m
    → n ≤ fuel
    → (length m + n) % 64 ≡ 56
    → n < 64
    → Streams (pad_zeros fuel ctx) (m ++ replicate n 0)
unfolding pad_zeros
pad_zeros-Streams zero zero ctx m s h e lt = rw (append-nil m) s
pad_zeros-Streams (suc fuel) zero ctx m s h e lt =
    let stop : (ctx.count_lo % 512 / 8 * 8 == 448) ≡ true = ground (arith, s.lo, e) in
    rw (stop, append-nil m, pad_zeros) s
pad_zeros-Streams zero (suc n) ctx m s h e lt = elim h [ ]
pad_zeros-Streams (suc fuel) (suc n) ctx m s h e lt =
    let go : (ctx.count_lo % 512 / 8 * 8 == 448) ≡ false = ground (arith, s.lo, e, lt) in
    rw (go, pad_zeros)
      (rw (append_assoc m (0 ∷ []) (replicate n 0)) at (
        pad_zeros-Streams fuel n (sha1_update ctx (0 ∷ [])) (m ++ (0 ∷ []))
          (sha1_update-Streams ctx m (0 ∷ []) s) (omega (arith, h))
          (omega (arith, e, length-append m (0 ∷ []))) (omega (arith, lt))))

-- The digest of a text is that of the block function over the text padded by 128, zeros and its
-- length in bits modulo 2^64, whatever stood in the 64 bytes of the buffer.
pub sha1-standard_sha1 :
    (garbage m : Bytes) → length garbage ≡ 64 → sha1 garbage m ≡ standard_sha1 m
unfolding sha1 sha1_final standard_sha1 padded
sha1-standard_sha1 garbage m h =
    let first = sha1_update-Streams (sha1_init garbage) [] m (sha1_init-Streams garbage h) in
    let second = sha1_update-Streams _ m (128 ∷ []) first in
    let third =
      pad_zeros-Streams 64 ((119 - length m % 64) % 64) _ (m ++ (128 ∷ [])) second (omega arith)
        (omega (arith, length-append m (128 ∷ []))) (omega arith) in
    let count = finalcount-Streams _ m first in
    let fourth = sha1_update-Streams _ _ (big_endian_64 (length m * 8)) third in
    rw count (ap digest_of fourth.state)
