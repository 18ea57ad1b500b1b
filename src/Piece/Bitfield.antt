-- ===== src/Piece/Bitfield.antt =====
-- The bitfields: `bf_has` and `bf_set` of core/util.h, most significant bit first, and the block
-- bitmap of core/piece.c, least significant bit first.
use pipensx_video_downloader.Prelude.Tables.{every, every_at}
use native.Mathlib.Decide.{ℕ_discrete}
use pipensx_video_downloader.Prelude.{
  ℕ, zero, suc, ◌-◌, ◌/◌, ◌%◌, ◌^◌, ◌<◌, bit_and, bit_or, ◌≡◌, ◌≢◌, refl, ap, ◌∙◌, Bool, true,
  false, not, ◌&&◌, ◌||◌, [], ◌∷◌, Bytes, ltb, ◌==◌, ltb→lt, length, get_or, set, arith, length-set,
}

abbrev pub bit_has : ℕ → ℕ → Bool
bit_has b k = b / 2 ^ k % 2 == 1

abbrev pub bit_set : ℕ → ℕ → ℕ
bit_set b k = bit_or b (2 ^ k)

-- `b & (uint8_t)~(1u << k)`
abbrev pub bit_clear : ℕ → ℕ → ℕ
bit_clear b k = bit_and b (255 - 2 ^ k)

unfoldable pub bf_has : Bytes → ℕ → Bool
bf_has bf idx = bit_has (get_or bf (idx / 8) 0) (7 - idx % 8)

unfoldable pub bf_set : Bytes → ℕ → Bytes
bf_set bf idx = set bf (idx / 8) (bit_set (get_or bf (idx / 8) 0) (7 - idx % 8))

-- `bf[idx / 8] &= (uint8_t)~(1u << (7 - idx % 8))`
unfoldable pub bf_clear : Bytes → ℕ → Bytes
bf_clear bf idx = set bf (idx / 8) (bit_clear (get_or bf (idx / 8) 0) (7 - idx % 8))

-- Every entry is a byte.
abbrev pub AreBytes : Bytes → Type 0
AreBytes bs = (k : ℕ) → get_or bs k 0 < 256

same : Bool → Bool → Bool
same true b = b
same false b = not b

same_eq : (a b : Bool) → same a b ≡ true → a ≡ b
unfolding same
same_eq a b h = ground arith

-- What a set or cleared bit does to each bit of a byte, and that the result is a byte.
abbrev set_row : ℕ → ℕ → ℕ → Bool
set_row b k j = same (bit_has (bit_set b k) j) (k == j || bit_has b j) && ltb (bit_set b k) 256

abbrev clear_row : ℕ → ℕ → ℕ → Bool
clear_row b k j =
    same (bit_has (bit_clear b k) j) (not (k == j) && bit_has b j) && ltb (bit_clear b k) 256

set_table : every (λ b. every (λ k. every (λ j. set_row b k j) 8) 8) 256 ≡ true
unfolding every same
set_table = refl

clear_table : every (λ b. every (λ k. every (λ j. clear_row b k j) 8) 8) 256 ≡ true
unfolding every same
clear_table = refl

row_of :
    (row : ℕ → ℕ → ℕ → Bool) (b k j : ℕ)
    → every (λ b. every (λ k. every (λ j. row b k j) 8) 8) 256 ≡ true
    → b < 256
    → k < 8
    → j < 8
    → row b k j ≡ true
row_of row b k j t hb hk hj = every_at _ 8 (every_at _ 8 (every_at _ 256 t b hb) k hk) j hj

bit_has-set :
    (b k j : ℕ)
    → b < 256
    → k < 8
    → j < 8
    → (bit_has (bit_set b k) j ≡ (k == j || bit_has b j)) × (bit_set b k < 256)
bit_has-set b k j hb hk hj =
    let r = row_of set_row b k j set_table hb hk hj in
    (same_eq _ _ (ground arith), ltb→lt _ _ (ground arith))

bit_has-clear :
    (b k j : ℕ)
    → b < 256
    → k < 8
    → j < 8
    → (bit_has (bit_clear b k) j ≡ (not (k == j) && bit_has b j)) × (bit_clear b k < 256)
bit_has-clear b k j hb hk hj =
    let r = row_of clear_row b k j clear_table hb hk hj in
    (same_eq _ _ (ground arith), ltb→lt _ _ (ground arith))

pub get_or-set_self : (bs : Bytes) (i v : ℕ) → i < length bs → get_or (set bs i v) i 0 ≡ v
get_or-set_self [] i v h = elim h [ ]
get_or-set_self (x ∷ xs) zero v h = refl
get_or-set_self (x ∷ xs) (suc i) v h = get_or-set_self xs i v (omega arith)

pub get_or-set_ne : (bs : Bytes) (i j v : ℕ) → i ≢ j → get_or (set bs i v) j 0 ≡ get_or bs j 0
get_or-set_ne [] i j v h = refl
get_or-set_ne (x ∷ xs) zero zero v h = absurd (h refl)
get_or-set_ne (x ∷ xs) zero (suc j) v h = refl
get_or-set_ne (x ∷ xs) (suc i) zero v h = refl
get_or-set_ne (x ∷ xs) (suc i) (suc j) v h = get_or-set_ne xs i j v (λ e. h (ap suc e))

-- A byte array in which one byte changed, read at any bit.
module _ (bf : Bytes) (idx : ℕ) (room : idx / 8 < length bf) (bytes : AreBytes bf) where
  -- Setting a bit of a bitfield of bytes switches on exactly that bit.
  pub bf_has-set : (j : ℕ) → bf_has (bf_set bf idx) j ≡ (idx == j || bf_has bf j)
  unfolding bf_has bf_set
  bf_has-set j = elim (ℕ_discrete (idx / 8) (j / 8)) [
    | yes e ↦ rw (← e) (
        rw (get_or-set_self bf (idx / 8) (bit_set (get_or bf (idx / 8) 0) (7 - idx % 8)) room) (
          (bit_has-set (get_or bf (idx / 8) 0) (7 - idx % 8) (7 - j % 8) (bytes (idx / 8))
            (omega arith) (omega arith)).0
          ∙ ap (λ (b : Bool). b || bit_has (get_or bf (idx / 8) 0) (7 - j % 8)) (ground arith)))
    | no ne ↦
        rw (get_or-set_ne bf (idx / 8) (j / 8) (bit_set (get_or bf (idx / 8) 0) (7 - idx % 8)) ne)
          (ground arith)
  ]

  -- Clearing a bit of a bitfield of bytes switches off exactly that bit.
  pub bf_has-clear : (j : ℕ) → bf_has (bf_clear bf idx) j ≡ (not (idx == j) && bf_has bf j)
  unfolding bf_has bf_clear
  bf_has-clear j = elim (ℕ_discrete (idx / 8) (j / 8)) [
    | yes e ↦ rw (← e) (
        rw (get_or-set_self bf (idx / 8) (bit_clear (get_or bf (idx / 8) 0) (7 - idx % 8)) room) (
          (bit_has-clear (get_or bf (idx / 8) 0) (7 - idx % 8) (7 - j % 8) (bytes (idx / 8))
            (omega arith) (omega arith)).0
          ∙ ap (λ (b : Bool). not b && bit_has (get_or bf (idx / 8) 0) (7 - j % 8)) (ground arith)))
    | no ne ↦
        rw (get_or-set_ne bf (idx / 8) (j / 8) (bit_clear (get_or bf (idx / 8) 0) (7 - idx % 8)) ne)
          (ground arith)
  ]

  pub bf_set-AreBytes : AreBytes (bf_set bf idx)
  unfolding bf_set
  bf_set-AreBytes k = elim (ℕ_discrete (idx / 8) k) [
    | yes e ↦ rw (← e) (
        rw (get_or-set_self bf (idx / 8) (bit_set (get_or bf (idx / 8) 0) (7 - idx % 8)) room)
          (bit_has-set (get_or bf (idx / 8) 0) (7 - idx % 8) 0 (bytes (idx / 8)) (omega arith)
            (omega arith)).1)
    | no ne ↦
        rw (get_or-set_ne bf (idx / 8) k (bit_set (get_or bf (idx / 8) 0) (7 - idx % 8)) ne)
          (bytes k)
  ]

  pub bf_clear-AreBytes : AreBytes (bf_clear bf idx)
  unfolding bf_clear
  bf_clear-AreBytes k = elim (ℕ_discrete (idx / 8) k) [
    | yes e ↦ rw (← e) (
        rw (get_or-set_self bf (idx / 8) (bit_clear (get_or bf (idx / 8) 0) (7 - idx % 8)) room)
          (bit_has-clear (get_or bf (idx / 8) 0) (7 - idx % 8) 0 (bytes (idx / 8)) (omega arith)
            (omega arith)).1)
    | no ne ↦
        rw (get_or-set_ne bf (idx / 8) k (bit_clear (get_or bf (idx / 8) 0) (7 - idx % 8)) ne)
          (bytes k)
  ]

pub length-bf_set : (bf : Bytes) (idx : ℕ) → length (bf_set bf idx) ≡ length bf
unfolding bf_set
length-bf_set bf idx = length-set bf (idx / 8) _

pub length-bf_clear : (bf : Bytes) (idx : ℕ) → length (bf_clear bf idx) ≡ length bf
unfolding bf_clear
length-bf_clear bf idx = length-set bf (idx / 8) _
