-- ===== src/Bencode/Digits.antt =====
-- The digit loops: what they read, and that the overflow test is the test of the value itself.
use pipensx_video_downloader.Prelude.{
  ℕ, ◌+◌, ◌-◌, ◌*◌, ◌/◌, ◌≤◌, ◌≡◌, ap, true, false, inl, inr, [], ◌∷◌, ◌++◌, some, Bytes, ltb,
  Bool-cases, length, arith,
}
use pipensx_video_downloader.Bencode.{is_digit, scan_digits, at_digit}
use pipensx_video_downloader.Bencode.Grammar.{decimal, Digits}

pub le-decimal : (v : ℕ) (ds : Bytes) → v ≤ decimal v ds
le-decimal v [] = omega arith
le-decimal v (c ∷ cs) = omega (arith, le-decimal (v * 10 + (c - b'0')) cs)

-- What follows digits that are read to the end.
pub scan_digits-print :
    (max v n : ℕ) (ds rest : Bytes)
    → Digits ds
    → at_digit rest ≡ false
    → decimal v ds ≤ max
    → scan_digits max v n (ds ++ rest) ≡ some (decimal v ds, n + length ds, rest)
unfolding scan_digits at_digit
scan_digits-print max v n [] [] d stop h = ground arith
scan_digits-print max v n [] (c ∷ cs) d stop h = ground arith
scan_digits-print max v n (c ∷ cs) rest d stop h = ground (
  arith,
  le-decimal (v * 10 + (c - b'0')) cs,
  scan_digits-print max (v * 10 + (c - b'0')) (n + 1) cs rest,
)

pub record Scanned (max v n : ℕ) (bs : Bytes) (w m : ℕ) (rest : Bytes) : Type 0 where
  pub ds : Bytes
  pub digits : Digits ds
  pub splits : bs ≡ ds ++ rest
  pub value : w ≡ decimal v ds
  pub count : m ≡ n + length ds
  pub bounded : 9 ≤ max → v ≤ max → w ≤ max

module _ {max v n : ℕ} {w m : ℕ} {rest : Bytes} where
  none_read : {bs : Bytes} → w ≡ v → m ≡ n → bs ≡ rest → Scanned max v n bs w m rest
  none_read e f g = record {
    ds = [];
    digits = tt;
    splits = g;
    value = e;
    count = omega arith;
    bounded = omega arith;
  }

  one_more :
      (c : ℕ) {cs : Bytes}
      → is_digit c ≡ true
      → ltb ((max - (c - b'0')) / 10) v ≡ false
      → Scanned max (v * 10 + (c - b'0')) (n + 1) cs w m rest
      → Scanned max v n (c ∷ cs) w m rest
  one_more c d fits r = record {
    ds = c ∷ r.ds;
    digits = (d, r.digits);
    splits = ap (◌∷◌ c) r.splits;
    value = r.value;
    count = omega (arith, r.count);
    bounded = λ (n : 9 ≤ max) (l : v ≤ max). r.bounded n (ground arith);
  }

pub scan_digits-Scanned :
    (max v n : ℕ) (bs : Bytes) {w m : ℕ} {rest : Bytes}
    → scan_digits max v n bs ≡ some (w, m, rest)
    → Scanned max v n bs w m rest
unfolding scan_digits
scan_digits-Scanned max v n [] h = none_read (ground arith) (ground arith) (ground arith)
scan_digits-Scanned max v n (c ∷ cs) h = elim (Bool-cases (is_digit c)) [
  | inr other ↦ none_read (ground arith) (ground arith) (ground arith)
  | inl digit ↦ elim (Bool-cases (ltb ((max - (c - b'0')) / 10) v)) [
    | inl over ↦ absurd (ground arith)
    | inr fits ↦
        one_more c digit fits
          (scan_digits-Scanned max (v * 10 + (c - b'0')) (n + 1) cs (ground arith))
  ]
]
