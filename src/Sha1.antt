-- ===== src/Sha1.antt =====
-- core/sha1.c, the portable implementation. The words of a block are read as on a little-endian
-- machine, which is what the macro BLK0 turns around.
pub mod Blocks
pub mod Update
pub mod Final
use pipensx_video_downloader.Prelude.{
  ℕ, zero, suc, ◌+◌, ◌-◌, ◌*◌, ◌/◌, ◌%◌, ◌^◌, ◌≤◌, ◌<◌, min, bit_and, bit_or, bit_xor, ◌≡◌, ◌≢◌,
  ◌↔◌, refl, sym, ap, ◌∙◌, Bool, true, false, not, ◌&&◌, ◌||◌, ◌⊎◌, inl, inr, List, [], ◌∷◌, ◌++◌,
  map, Option, none, some, Bytes, ltb, leb, ◌==◌, ==_iff, if◌then◌else◌, Bool-cases, ltb→lt, leb→le,
  Option-cases, length, take, drop, get_elem?, get_or, set, replicate, arith, length-append,
  length-set, length-replicate, length-take, length-drop, take-append-drop, ℤ, signed, memcpy,
}
use pipensx_video_downloader.Prelude.Errors.{◌>>=◌, ◌>>◌, guard, >>=-eq-some}

abbrev pub word : ℕ
word = 4294967296

-- `ROL(v, b)`
abbrev pub rol : ℕ → ℕ → ℕ
rol v b = bit_or (v * 2 ^ b % word) (v / 2 ^ (32 - b))

-- `state`, and the variables a to e.
pub record Words : Type 0 where
  pub a : ℕ
  pub b : ℕ
  pub c : ℕ
  pub d : ℕ
  pub e : ℕ

-- `sha1_ctx_t`; `count_lo` and `count_hi` are `count[0]` and `count[1]`.
pub record Sha1Ctx : Type 0 where
  pub state : Words
  pub count_lo : ℕ
  pub count_hi : ℕ
  pub buf : Bytes

-- `memcpy(&blk, buf, 64)`, by words.
unfoldable pub words_of : ℕ → Bytes → List ℕ
words_of zero bs = []
words_of (suc n) bs =
    (get_or bs 0 0 + get_or bs 1 0 * 256 + get_or bs 2 0 * 65536 + get_or bs 3 0 * 16777216)
    ∷ words_of n (drop 4 bs)

-- The words that BLK0 and BLK store in the block.
unfoldable pub blk0 : List ℕ → ℕ → ℕ
blk0 l i =
    let v = get_or l i 0 in bit_or (bit_and (rol v 24) 4278255360) (bit_and (rol v 8) 16711935)

unfoldable pub blk : List ℕ → ℕ → ℕ
blk l i =
    rol
      (bit_xor
        (bit_xor (bit_xor (get_or l ((i + 13) % 16) 0) (get_or l ((i + 8) % 16) 0))
          (get_or l ((i + 2) % 16) 0))
        (get_or l (i % 16) 0))
      1

unfoldable pub schedule : List ℕ → ℕ → ℕ
schedule l i = if ltb i 16 then blk0 l i else blk l i

-- The function of w, x and y, and the constant, of the macros R0 to R4.
unfoldable pub mix : ℕ → ℕ → ℕ → ℕ → ℕ
mix i w x y =
    if ltb i 20
    then bit_xor (bit_and w (bit_xor x y)) y
    else if ltb i 40
    then bit_xor (bit_xor w x) y
    else if ltb i 60
    then bit_or (bit_and (bit_or w x) y) (bit_and w x)
    else bit_xor (bit_xor w x) y

unfoldable pub round_constant : ℕ → ℕ
round_constant i =
    if ltb i 20
    then 1518500249
    else if ltb i 40
    then 1859775393
    else if ltb i 60
    then 2400959708
    else 3395469782

-- One macro call `R(v, w, x, y, z, i)`. The next call has its variables one place further, so that
-- the record holds them in the order of that call.
unfoldable pub round : ℕ → Words → List ℕ → Words × List ℕ
round i s l =
    let k = schedule l i in
    (
      record {
        a = (s.e + mix i s.b s.c s.d + k + round_constant i + rol s.a 5) % word;
        b = s.a;
        c = rol s.b 30;
        d = s.c;
        e = s.d;
      },
      set l (i % 16) k,
    )

unfoldable pub rounds : ℕ → ℕ → Words → List ℕ → Words
rounds zero i s l = s
rounds (suc left) i s l = let r = round i s l in rounds left (i + 1) r.0 r.1

unfoldable pub sha1_transform : Words → Bytes → Words
sha1_transform s buf =
    let t = rounds 80 0 s (words_of 16 buf) in
    record {
      a = (s.a + t.a) % word;
      b = (s.b + t.b) % word;
      c = (s.c + t.c) % word;
      d = (s.d + t.d) % word;
      e = (s.e + t.e) % word;
    }

abbrev pub first_words : Words
first_words = record {
  a = 1732584193;
  b = 4023233417;
  c = 2562383102;
  d = 271733878;
  e = 3285377520;
}

-- The buffer of a context holds whatever stood in its memory.
unfoldable pub sha1_init : Bytes → Sha1Ctx
sha1_init garbage = record { state = first_words; count_lo = 0; count_hi = 0; buf = garbage }

-- `for (; i + 63 < len; i += 64) sha1_transform(ctx->state, p + i)`, with what is left of the data.
unfoldable pub transform_all : ℕ → Words → Bytes → Words × Bytes
transform_all zero s p = (s, p)
transform_all (suc fuel) s p = elim (ltb 63 (length p)) [
  | false ↦ (s, p)
  | true ↦ transform_all fuel (sha1_transform s (take 64 p)) (drop 64 p)
]

-- `(ctx->count[0] >> 3) & 63`
abbrev pub buffered : Sha1Ctx → ℕ
buffered ctx = ctx.count_lo / 8 % 64

-- `(uint32_t)len << 3`
abbrev pub low_bits : ℕ → ℕ
low_bits len = len % word * 8 % word

unfoldable pub count_more : Sha1Ctx → ℕ → Sha1Ctx
count_more ctx len =
    let lo = (ctx.count_lo + low_bits len) % word in
    let carry = if ltb lo (low_bits len) then 1 else 0 in
    record ctx { count_lo = lo; count_hi = (ctx.count_hi + carry + len / 536870912) % word }

unfoldable pub sha1_update : Sha1Ctx → Bytes → Sha1Ctx
sha1_update ctx p =
    let j = buffered ctx in
    let full = memcpy ctx.buf j (take (64 - j) p) in
    let rest = transform_all (length p) (sha1_transform ctx.state full) (drop (64 - j) p) in
    if ltb 63 (j + length p)
    then record (count_more ctx (length p)) { state = rest.0; buf = memcpy full 0 rest.1 }
    else record (count_more ctx (length p)) { buf = memcpy ctx.buf j p }

-- Four bytes, the highest first.
abbrev pub big_endian : ℕ → Bytes
big_endian n = (n / 16777216 % 256) ∷ (n / 65536 % 256) ∷ (n / 256 % 256) ∷ (n % 256) ∷ []

unfoldable pub finalcount : Sha1Ctx → Bytes
finalcount ctx = big_endian ctx.count_hi ++ big_endian ctx.count_lo

-- `while ((ctx->count[0] & 504) != 448)`, the mask being that of the bits 3 to 8.
unfoldable pub pad_zeros : ℕ → Sha1Ctx → Sha1Ctx
pad_zeros zero ctx = ctx
pad_zeros (suc fuel) ctx = elim (ctx.count_lo % 512 / 8 * 8 == 448) [
  | true ↦ ctx
  | false ↦ pad_zeros fuel (sha1_update ctx (0 ∷ []))
]

abbrev pub digest_of : Words → Bytes
digest_of s =
    big_endian s.a ++ (big_endian s.b ++ (big_endian s.c ++ (big_endian s.d ++ big_endian s.e)))

unfoldable pub sha1_final : Sha1Ctx → Bytes
sha1_final ctx =
    let padded = pad_zeros 64 (sha1_update ctx (128 ∷ [])) in
    digest_of (sha1_update padded (finalcount ctx)).state

unfoldable pub sha1 : Bytes → Bytes → Bytes
sha1 garbage bs = sha1_final (sha1_update (sha1_init garbage) bs)
