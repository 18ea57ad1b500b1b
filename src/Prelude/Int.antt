-- ===== src/Prelude/Int.antt =====
-- Signed integers over the native numbers: what an `int64_t` of the source stands for.
use Prim.Native.Nat.{ℕ, zero, suc, ◌-◌, ◌%◌, ◌^◌}
use mathlib.Core.Bool.{Bool, true, false}
use pipensx_video_downloader.Prelude.Tests.{ltb, if◌then◌else◌}

-- `negsuc n` is -(n + 1).
pub data ℤ : Type 0 where
  pos : ℕ → ℤ
  negsuc : ℕ → ℤ

abbrev pub neg_ℕ : ℕ → ℤ
neg_ℕ zero = pos 0
neg_ℕ (suc n) = negsuc n

-- `neg ? -v : v`
abbrev pub signed : Bool → ℕ → ℤ
signed true v = neg_ℕ v
signed false v = pos v

-- `(int)n` of a `size_t`: the low 32 bits as a signed number.
abbrev pub to_int : ℕ → ℤ
to_int n = let w = n % 2 ^ 32 in if ltb w (2 ^ 31) then pos w else negsuc (2 ^ 32 - w - 1)
