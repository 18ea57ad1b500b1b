-- ===== src/Piece/Totals.antt =====
-- Sums over the pieces that are done.
use pipensx_video_downloader.Prelude.{
  ℕ, zero, suc, ◌+◌, ◌≤◌, ◌<◌, ◌≡◌, ◌≢◌, refl, ap, false, List, [], ◌∷◌, if◌then◌else◌, length, set,
  arith,
}
use native.Mathlib.Nat.{add-zero}
use pipensx_video_downloader.Piece.State.{PieceSlot, slot_at, is_done}

-- What a slot adds to a sum with the weight `n`.
abbrev pub share : ℕ → PieceSlot → ℕ
share n sl = if is_done sl.state then n else 0

-- The weights of the pieces that are done, the first slot being piece `base`.
unfoldable pub sum_done : (ℕ → ℕ) → ℕ → List PieceSlot → ℕ
sum_done weight base [] = 0
sum_done weight base (sl ∷ sls) = share (weight base) sl + sum_done weight (base + 1) sls

unfoldable pub sum_all : (ℕ → ℕ) → ℕ → ℕ → ℕ
sum_all weight base zero = 0
sum_all weight base (suc n) = weight base + sum_all weight (base + 1) n

pub sum_done-set :
    (weight : ℕ → ℕ) (base : ℕ) (sls : List PieceSlot) (idx : ℕ) (sl : PieceSlot)
    → idx < length sls
    → sum_done weight base (set sls idx sl) + share (weight (base + idx)) (slot_at sls idx)
      ≡ sum_done weight base sls + share (weight (base + idx)) sl
unfolding sum_done
sum_done-set weight base [] idx sl h = elim h [ ]
sum_done-set weight base (x ∷ xs) zero sl h = rw add-zero (omega arith)
sum_done-set weight base (x ∷ xs) (suc idx) sl h =
    let ih = sum_done-set weight (base + 1) xs idx sl (omega arith) in
    let e : base + 1 + idx ≡ base + suc idx = omega arith in omega (arith, rw e at ih)

pub sum_done-le :
    (weight : ℕ → ℕ) (base : ℕ) (sls : List PieceSlot)
    → sum_done weight base sls ≤ sum_all weight base (length sls)
unfolding sum_done sum_all
sum_done-le weight base [] = omega arith
sum_done-le weight base (sl ∷ sls) = ground (arith, sum_done-le weight (base + 1) sls)

-- Pieces that are not done leave a gap to the sum over all.
pub sum_done-gap :
    (weight : ℕ → ℕ) (base : ℕ) (sls : List PieceSlot) (idx : ℕ)
    → idx < length sls
    → is_done (slot_at sls idx).state ≡ false
    → sum_done weight base sls + weight (base + idx) ≤ sum_all weight base (length sls)
unfolding sum_done sum_all
sum_done-gap weight base [] idx h d = elim h [ ]
sum_done-gap weight base (x ∷ xs) zero h d =
    rw add-zero (ground (arith, sum_done-le weight (base + 1) xs))
sum_done-gap weight base (x ∷ xs) (suc idx) h d =
    let ih = sum_done-gap weight (base + 1) xs idx (omega arith) d in
    let e : base + 1 + idx ≡ base + suc idx = omega arith in ground (arith, rw e at ih)

pub sum_all_ones : (base n : ℕ) → sum_all (λ _. 1) base n ≡ n
unfolding sum_all
sum_all_ones base zero = refl
sum_all_ones base (suc n) = omega (arith, sum_all_ones (base + 1) n)

pub slot_at-set_self :
    (sls : List PieceSlot) (i : ℕ) (sl : PieceSlot) → i < length sls → slot_at (set sls i sl) i ≡ sl
slot_at-set_self [] i v h = elim h [ ]
slot_at-set_self (x ∷ xs) zero v h = refl
slot_at-set_self (x ∷ xs) (suc i) v h = slot_at-set_self xs i v (omega arith)

pub slot_at-set_ne :
    (sls : List PieceSlot) (i j : ℕ) (sl : PieceSlot)
    → i ≢ j
    → slot_at (set sls i sl) j ≡ slot_at sls j
slot_at-set_ne [] i j v h = refl
slot_at-set_ne (x ∷ xs) zero zero v h = absurd (h refl)
slot_at-set_ne (x ∷ xs) zero (suc j) v h = refl
slot_at-set_ne (x ∷ xs) (suc i) zero v h = refl
slot_at-set_ne (x ∷ xs) (suc i) (suc j) v h = slot_at-set_ne xs i j v (λ e. h (ap suc e))
