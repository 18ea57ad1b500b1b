-- ===== src/Sha1/Blocks.antt =====
-- The whole 64-byte blocks of a text, taken one after the other.
use pipensx_video_downloader.Prelude.{
  ℕ, zero, suc, ◌+◌, ◌*◌, ◌/◌, ◌≤◌, ◌≡◌, refl, ap, ◌∙◌, inl, inr, ◌++◌, Bytes, ltb, Bool-cases,
  length, take, drop, arith, length-drop,
}
use pipensx_video_downloader.Prelude.Slices.{take-append_left, drop-append_left, drop-drop}
use native.Mathlib.Nat.{zero-add, suc-add}
use pipensx_video_downloader.Sha1.{Words, sha1_transform, transform_all}

-- The words behind the first `n` blocks of a text.
unfoldable pub absorb : ℕ → Words → Bytes → Words
absorb zero s m = s
absorb (suc n) s m = absorb n (sha1_transform s (take 64 m)) (drop 64 m)

-- The words behind all the whole blocks of a text.
abbrev pub absorbed : Words → Bytes → Words
absorbed s m = absorb (length m / 64) s m

-- The bytes behind the whole blocks.
abbrev pub tail_of : Bytes → Bytes
tail_of m = drop (length m / 64 * 64) m

-- What follows the blocks does not matter to them.
pub absorb-append :
    (n : ℕ) (s : Words) (m d : Bytes) → n * 64 ≤ length m → absorb n s (m ++ d) ≡ absorb n s m
unfolding absorb
absorb-append zero s m d h = refl
absorb-append (suc n) s m d h =
    rw (take-append_left 64 m d (omega arith), drop-append_left 64 m d (omega arith))
      (absorb-append n (sha1_transform s (take 64 m)) (drop 64 m) d
        (omega (arith, length-drop 64 m)))

-- The blocks in two parts.
pub absorb-add :
    (n k : ℕ) (s : Words) (m : Bytes)
    → absorb (n + k) s m ≡ absorb k (absorb n s m) (drop (n * 64) m)
unfolding absorb
absorb-add zero k s m = rw zero-add
absorb-add (suc n) k s m =
    let more : 64 + n * 64 ≡ suc n * 64 = omega arith in
    rw suc-add (
      absorb-add n k (sha1_transform s (take 64 m)) (drop 64 m)
      ∙ ap (λ (x : Bytes). absorb k (absorb n (sha1_transform s (take 64 m)) (drop 64 m)) x)
          (drop-drop (n * 64) 64 m ∙ ap (λ (x : ℕ). drop x m) more))

pub transform_all-absorb :
    (fuel : ℕ) (s : Words) (p : Bytes)
    → length p ≤ fuel
    → transform_all fuel s p ≡ (absorbed s p, tail_of p)
unfolding transform_all absorb
transform_all-absorb zero s p h =
    let none_left : length p / 64 ≡ 0 = omega (arith, h) in rw none_left refl
transform_all-absorb (suc fuel) s p h = elim (Bool-cases (ltb 63 (length p))) [
  | inr e ↦
      let none_left : length p / 64 ≡ 0 = ground arith in rw (e, transform_all, none_left) refl
  | inl e ↦
      let left = length-drop 64 p in
      let one : length p / 64 ≡ suc (length (drop 64 p) / 64) = ground (arith, left) in
      rw (e, transform_all, one)
        (transform_all-absorb fuel (sha1_transform s (take 64 p)) (drop 64 p)
            (omega (arith, left, h))
          ∙ ap (λ (x : Bytes). (absorbed (sha1_transform s (take 64 p)) (drop 64 p), x))
              (drop-drop (length (drop 64 p) / 64 * 64) 64 p
                ∙ ap (λ (x : ℕ). drop x p) (omega arith)))
]
