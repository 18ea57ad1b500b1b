-- ===== src/Prelude/Tables.antt =====
-- Finite tables, checked by a run, and what they say of the exclusive or of bytes.
use Prim.Native.Nat.{ℕ, zero, suc, ◌<◌, bit_xor}
use mathlib.Core.Path.{◌≡◌, refl}
use mathlib.Core.Bool.{Bool, true, ◌&&◌}
use native.Mathlib.Omega.{arith}
use native.Mathlib.Decide.{ℕ_discrete}
use pipensx_video_downloader.Prelude.Tests.{ltb, ◌==◌}

-- Whether a test holds of all numbers under a bound, so that a finite table is a run of it.
unfoldable pub every : (ℕ → Bool) → ℕ → Bool
every test zero = true
every test (suc bound) = every test bound && test bound

pub every_at :
    (test : ℕ → Bool) (bound : ℕ) → every test bound ≡ true → (i : ℕ) → i < bound → test i ≡ true
unfolding every
every_at test zero table i small = elim small [ ]
every_at test (suc bound) table i small =
    let both : (every test bound ≡ true) × (test bound ≡ true) = ground arith in
    elim (ℕ_discrete i bound) [
      | yes last ↦ rw last both.1
      | no ne ↦ every_at test bound both.0 i (omega (arith, ne))
    ]

xor_row : ℕ → ℕ → Bool
xor_row k x = bit_xor (bit_xor x k) k == x && ltb (bit_xor x k) 256

xor_table : every (λ k. every (λ x. xor_row k x) 256) 256 ≡ true
unfolding every xor_row
xor_table = refl

-- A byte that is masked twice by the same byte comes back, and a masked byte is a byte.
pub bit_xor_twice :
    (x k : ℕ) → x < 256 → k < 256 → (bit_xor (bit_xor x k) k ≡ x) × (bit_xor x k < 256)
unfolding xor_row
bit_xor_twice x k hx hk =
    let row = every_at (λ y. xor_row k y) 256 (every_at _ 256 xor_table k hk) x hx in
    ground (arith, row)
