-- ===== src/Sha1/Update.antt =====
-- `sha1_update` on the stream of bytes: a context stands for all that went into it.
use pipensx_video_downloader.Prelude.{
  ℕ, suc, ◌+◌, ◌-◌, ◌*◌, ◌/◌, ◌%◌, ◌≤◌, ◌<◌, ◌≡◌, refl, sym, ap, ◌∙◌, inl, inr, [], ◌++◌, Bytes,
  ltb, if◌then◌else◌, Bool-cases, ltb→lt, length, take, drop, arith, length-append, length-take,
  length-drop, memcpy,
}
use pipensx_video_downloader.Prelude.Slices.{
  take_all, take-append_left, drop-append_left, take-append_right, drop-append_right, drop-drop,
}
use pipensx_video_downloader.Sha1.{
  word, Sha1Ctx, first_words, sha1_transform, buffered, low_bits, count_more, sha1_init,
  sha1_update,
}
use pipensx_video_downloader.Sha1.Blocks.{
  absorb, absorbed, tail_of, absorb-append, absorb-add, transform_all-absorb,
}

-- The context behind the bytes `m`: the words of the whole blocks, the rest in the buffer, and the
-- number of bits modulo 2^64 in two words.
pub record Streams (ctx : Sha1Ctx) (m : Bytes) : Type 0 where
  pub state : ctx.state ≡ absorbed first_words m
  pub buf_len : length ctx.buf ≡ 64
  pub buffer : take (length m % 64) ctx.buf ≡ tail_of m
  pub lo : ctx.count_lo ≡ length m * 8 % word
  pub hi : ctx.count_hi ≡ length m / 536870912 % word

count_more_lo : (l n c : ℕ) → c ≡ l * 8 % word → (c + low_bits n) % word ≡ (l + n) * 8 % word
count_more_lo l n c e = omega (arith, e)

count_more_hi :
    (l n c h : ℕ)
    → c ≡ l * 8 % word
    → h ≡ l / 536870912 % word
    → (h + (if ltb ((c + low_bits n) % word) (low_bits n) then 1 else 0) + n / 536870912) % word
      ≡ (l + n) / 536870912 % word
count_more_hi l n c h e f = ground (arith, e, f)

length-memcpy :
    (buf : Bytes) (j : ℕ) (xs : Bytes)
    → j + length xs ≤ length buf
    → length (memcpy buf j xs) ≡ length buf
length-memcpy buf j xs h = omega (
  arith,
  length-append (take j buf) (xs ++ drop (j + length xs) buf),
  length-append xs (drop (j + length xs) buf),
  length-take j buf,
  length-drop (j + length xs) buf,
)

-- What is copied stands behind what was there before it.
take-memcpy :
    (buf : Bytes) (j : ℕ) (xs : Bytes)
    → j ≤ length buf
    → take (j + length xs) (memcpy buf j xs) ≡ take j buf ++ xs
take-memcpy buf j xs h =
    let here : length (take j buf) ≡ j = omega (arith, length-take j buf, h) in
    let first = take-append_right (length xs) (take j buf) (xs ++ drop (j + length xs) buf) in
    let second = take-append_left (length xs) xs (drop (j + length xs) buf) (omega arith) in
    rw here at first
    ∙ ap (λ (x : Bytes). take j buf ++ x) (second ∙ take_all (length xs) xs (omega arith))

module _ (ctx : Sha1Ctx) (m d : Bytes) (holds : Streams ctx m) where
  length-joined : length (m ++ d) ≡ length m + length d
  length-joined = length-append m d

  tail_joined : drop (length m / 64 * 64) (m ++ d) ≡ tail_of m ++ d
  tail_joined = drop-append_left (length m / 64 * 64) m d (omega arith)

  length-tail : length (tail_of m) ≡ length m % 64
  length-tail = omega (arith, length-drop (length m / 64 * 64) m)

  buffered_lem : buffered ctx ≡ length m % 64
  buffered_lem = omega (arith, holds.lo)

  before : absorb (length m / 64) first_words (m ++ d) ≡ ctx.state
  before = absorb-append (length m / 64) first_words m d (omega arith) ∙ sym holds.state

  -- The data does not fill the buffer.
  small_Streams :
      length m % 64 + length d ≤ 63
      → Streams
          (record (count_more ctx (length d)) { buf = memcpy ctx.buf (length m % 64) d })
          (m ++ d)
  unfolding count_more
  small_Streams h =
      let total = length-joined in
      let blocks : length (m ++ d) / 64 ≡ length m / 64 = omega (arith, total, h) in
      let left : length (m ++ d) % 64 ≡ length m % 64 + length d = omega (arith, total, h) in
      record {
        state = rw blocks (sym before);
        buf_len =
            length-memcpy ctx.buf (length m % 64) d (omega (arith, holds.buf_len, h))
            ∙ holds.buf_len;
        buffer =
            rw (left, blocks)
              (take-memcpy ctx.buf (length m % 64) d (omega (arith, holds.buf_len))
                ∙ ap (λ (x : Bytes). x ++ d) holds.buffer
                ∙ sym tail_joined);
        lo = rw total (count_more_lo (length m) (length d) ctx.count_lo holds.lo);
        hi =
            rw total
              (count_more_hi (length m) (length d) ctx.count_lo ctx.count_hi holds.lo holds.hi);
      }

  -- The bytes that fill the buffer, and those behind them.
  abbrev filling : Bytes
  filling = take (64 - length m % 64) d

  abbrev beyond : Bytes
  beyond = drop (64 - length m % 64) d

  abbrev full_buffer : Bytes
  full_buffer = memcpy ctx.buf (length m % 64) filling

  length-filling : 63 < length m % 64 + length d → length filling ≡ 64 - length m % 64
  length-filling h = omega (arith, length-take (64 - length m % 64) d, h)

  filled : 63 < length m % 64 + length d → full_buffer ≡ tail_of m ++ filling
  filled h =
      let size = length-filling h in
      let end : length m % 64 + length filling ≡ 64 = omega (arith, size) in
      let whole =
        length-memcpy ctx.buf (length m % 64) filling (omega (arith, holds.buf_len, size)) in
      sym (take_all 64 full_buffer (omega (arith, whole, holds.buf_len)))
      ∙ ap (λ (n : ℕ). take n full_buffer) (sym end)
      ∙ take-memcpy ctx.buf (length m % 64) filling (omega (arith, holds.buf_len))
      ∙ ap (λ (x : Bytes). x ++ filling) holds.buffer

  -- One block is full, and the blocks of the remaining data follow.
  joined_split :
      (63 < length m % 64 + length d)
      → (take 64 (tail_of m ++ d) ≡ full_buffer) × (drop 64 (tail_of m ++ d) ≡ beyond)
  joined_split h =
      let size = length-tail in
      let gap : length (tail_of m) + (64 - length m % 64) ≡ 64 = omega (arith, size) in
      (
        rw gap at (take-append_right (64 - length m % 64) (tail_of m) d) ∙ sym (filled h),
        rw gap at (drop-append_right (64 - length m % 64) (tail_of m) d),
      )

  blocks_joined :
      63 < length m % 64 + length d
      → length (m ++ d) / 64 ≡ length m / 64 + suc (length beyond / 64)
  blocks_joined h = omega (arith, length-joined, length-drop (64 - length m % 64) d, h)

  absorbed_joined :
      63 < length m % 64 + length d
      → absorbed first_words (m ++ d) ≡ absorbed (sha1_transform ctx.state full_buffer) beyond
  unfolding absorb
  absorbed_joined h =
      let split = joined_split h in
      rw (blocks_joined h) (
        absorb-add (length m / 64) (suc (length beyond / 64)) first_words (m ++ d)
        ∙ rw (before, tail_joined)
            (ap
                (λ (x : Bytes).
                  absorb (length beyond / 64) (sha1_transform ctx.state x)
                    (drop 64 (tail_of m ++ d)))
                split.0
              ∙ ap
                  (λ (x : Bytes).
                    absorb (length beyond / 64) (sha1_transform ctx.state full_buffer) x)
                  split.1))

  tail_of-joined : 63 < length m % 64 + length d → tail_of beyond ≡ tail_of (m ++ d)
  tail_of-joined h =
      let q = length beyond / 64 in
      let split = joined_split h in
      let places : length m / 64 * 64 + (64 + q * 64) ≡ length (m ++ d) / 64 * 64 =
        omega (arith, blocks_joined h) in
      ap (λ (x : Bytes). drop (q * 64) x)
        (sym split.1 ∙ ap (λ (x : Bytes). drop 64 x) (sym tail_joined))
      ∙ drop-drop (q * 64) 64 (drop (length m / 64 * 64) (m ++ d))
      ∙ drop-drop (64 + q * 64) (length m / 64 * 64) (m ++ d)
      ∙ ap (λ (n : ℕ). drop n (m ++ d)) places

  big_Streams :
      63 < length m % 64 + length d
      → Streams
          (record (count_more ctx (length d)) {
            state = absorbed (sha1_transform ctx.state full_buffer) beyond;
            buf = memcpy full_buffer 0 (tail_of beyond);
          })
          (m ++ d)
  unfolding count_more
  big_Streams h =
      let total = length-joined in
      let size = length-filling h in
      let whole =
        length-memcpy ctx.buf (length m % 64) filling (omega (arith, holds.buf_len, size)) in
      let left : length (tail_of beyond) ≡ length (m ++ d) % 64 =
        ap (λ (x : Bytes). length x) (tail_of-joined h)
        ∙ omega (arith, length-drop (length (m ++ d) / 64 * 64) (m ++ d)) in
      let place : 0 + length (tail_of beyond) ≡ length (m ++ d) % 64 = omega (arith, left) in
      record {
        state = sym (absorbed_joined h);
        buf_len =
            length-memcpy full_buffer 0 (tail_of beyond) (omega (arith, left, whole, holds.buf_len))
            ∙ whole
            ∙ holds.buf_len;
        buffer =
            ap (λ (n : ℕ). take n (memcpy full_buffer 0 (tail_of beyond))) (sym place)
            ∙ take-memcpy full_buffer 0 (tail_of beyond) (omega arith)
            ∙ tail_of-joined h;
        lo = rw total (count_more_lo (length m) (length d) ctx.count_lo holds.lo);
        hi =
            rw total
              (count_more_hi (length m) (length d) ctx.count_lo ctx.count_hi holds.lo holds.hi);
      }

  -- A context that stands for a text stands, behind an update by more data, for the text with the
  -- data behind it: words of the whole blocks, rest in the buffer, bit count in two words.
  pub sha1_update-Streams : Streams (sha1_update ctx d) (m ++ d)
  unfolding sha1_update
  sha1_update-Streams =
      let at = buffered_lem in
      elim (Bool-cases (ltb 63 (length m % 64 + length d))) [
        | inr e ↦ rw (at, e) (small_Streams (ground arith))
        | inl e ↦
            let h : 63 < length m % 64 + length d = ltb→lt _ _ e in
            let rest =
              transform_all-absorb (length d) (sha1_transform ctx.state full_buffer) beyond
                (omega (arith, length-drop (64 - length m % 64) d)) in
            rw (at, e, rest) (big_Streams h)
      ]

pub sha1_init-Streams : (garbage : Bytes) → length garbage ≡ 64 → Streams (sha1_init garbage) []
unfolding sha1_init absorb
sha1_init-Streams garbage h = record {
  state = refl;
  buf_len = h;
  buffer = refl;
  lo = refl;
  hi = refl;
}
