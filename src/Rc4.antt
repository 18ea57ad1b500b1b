-- ===== src/Rc4.antt =====
-- core/mse.c: the RC4 stream.
pub mod Stream
pub mod Table
use pipensx_video_downloader.Prelude.{
  ℕ, zero, suc, ◌+◌, ◌-◌, ◌*◌, ◌/◌, ◌%◌, ◌^◌, ◌≤◌, ◌<◌, min, bit_and, bit_or, bit_xor, ◌≡◌, ◌≢◌,
  ◌↔◌, refl, sym, ap, ◌∙◌, Bool, true, false, not, ◌&&◌, ◌||◌, ◌⊎◌, inl, inr, List, [], ◌∷◌, ◌++◌,
  map, Option, none, some, Bytes, ltb, leb, ◌==◌, ==_iff, if◌then◌else◌, Bool-cases, ltb→lt, leb→le,
  Option-cases, length, take, drop, get_elem?, get_or, set, replicate, arith, length-append,
  length-set, length-replicate, length-take, length-drop, take-append-drop, ℤ, signed, memcpy,
}
use pipensx_video_downloader.Prelude.Errors.{◌>>=◌, ◌>>◌, guard, >>=-eq-some}

-- `rc4_t`
pub record Rc4 : Type 0 where
  pub s : Bytes
  pub i : ℕ
  pub j : ℕ

-- `t = s[i]; s[i] = s[j]; s[j] = t`
abbrev pub swap : Bytes → ℕ → ℕ → Bytes
swap s i j = set (set s i (get_or s j 0)) j (get_or s i 0)

-- `s[n] = n` for the `left` numbers from `n` on.
unfoldable pub count_up : ℕ → ℕ → Bytes
count_up zero n = []
count_up (suc left) n = n ∷ count_up left (n + 1)

-- The loop over the key, with `left` rounds to go from `n`.
unfoldable pub key_rounds : Bytes → ℕ → ℕ → Bytes → ℕ → Bytes
key_rounds key zero n s j = s
key_rounds key (suc left) n s j =
    let j' = (j + get_or s n 0 + get_or key (n % length key) 0) % 256 in
    key_rounds key left (n + 1) (swap s n j') j'

unfoldable pub rc4_init : Bytes → Rc4
rc4_init [] = record { s = count_up 256 0; i = 0; j = 0 }
rc4_init (k ∷ key) = record { s = key_rounds (k ∷ key) 256 0 (count_up 256 0) 0; i = 0; j = 0 }

-- The part of a round that `rc4_crypt` and `rc4_discard` share.
unfoldable pub rc4_step : Rc4 → Rc4
rc4_step r =
    let i = (r.i + 1) % 256 in
    let j = (r.j + get_or r.s i 0) % 256 in record { s = swap r.s i j; i = i; j = j }

-- The byte of the key stream behind a step.
unfoldable pub key_byte : Rc4 → ℕ
key_byte r = get_or r.s ((get_or r.s r.i 0 + get_or r.s r.j 0) % 256) 0

unfoldable pub rc4_crypt : Rc4 → Bytes → Rc4 × Bytes
rc4_crypt r [] = (r, [])
rc4_crypt r (x ∷ xs) =
    let rest = rc4_crypt (rc4_step r) xs in (rest.0, bit_xor x (key_byte (rc4_step r)) ∷ rest.1)

unfoldable pub rc4_discard : Rc4 → ℕ → Rc4
rc4_discard r zero = r
rc4_discard r (suc n) = rc4_discard (rc4_step r) n
