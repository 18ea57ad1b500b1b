-- ===== src/Rc4/Table.antt =====
-- core/mse.c: the table of the stream stays a permutation of the bytes.
use pipensx_video_downloader.Prelude.{
  ℕ, zero, suc, ◌+◌, ◌%◌, ◌≤◌, ◌<◌, ◌≡◌, ◌≢◌, refl, sym, ap, ◌∙◌, inl, inr, [], ◌∷◌, Bytes, ◌==◌,
  if◌then◌else◌, length, get_or, set, arith, length-set, Bool-cases,
}
use native.Mathlib.Decide.{dec_lt}
use pipensx_video_downloader.Rc4.{Rc4, swap, count_up, key_rounds, rc4_init, rc4_step, rc4_crypt}

-- 256 bytes, no two of them the same.
pub record IsPermutation (s : Bytes) : Type 0 where
  pub count : length s ≡ 256
  pub entries : (a : ℕ) → get_or s a 0 < 256
  pub distinct : (a b : ℕ) → a < 256 → b < 256 → get_or s a 0 ≡ get_or s b 0 → a ≡ b

get_or-set_self : (s : Bytes) (i v : ℕ) → i < length s → get_or (set s i v) i 0 ≡ v
get_or-set_self [] i v h = elim h [ ]
get_or-set_self (x ∷ s) zero v h = refl
get_or-set_self (x ∷ s) (suc i) v h = get_or-set_self s i v (omega arith)

get_or-set_ne : (s : Bytes) (i a v : ℕ) → i ≢ a → get_or (set s i v) a 0 ≡ get_or s a 0
get_or-set_ne [] i a v ne = refl
get_or-set_ne (x ∷ s) zero zero v ne = absurd (ne refl)
get_or-set_ne (x ∷ s) zero (suc a) v ne = refl
get_or-set_ne (x ∷ s) (suc i) zero v ne = refl
get_or-set_ne (x ∷ s) (suc i) (suc a) v ne = get_or-set_ne s i a v (λ e. ne (ap suc e))

-- Where the entry at `a` of a swapped table stood before.
unfoldable origin : ℕ → ℕ → ℕ → ℕ
origin i j a = if a == j then i else if a == i then j else a

get_or-swap :
    (s : Bytes) (i j a : ℕ)
    → i < length s
    → j < length s
    → get_or (swap s i j) a 0 ≡ get_or s (origin i j a) 0
unfolding origin
get_or-swap s i j a hi hj =
    let half = set s i (get_or s j 0) in
    let inside : j < length half = omega (arith, hj, length-set s i (get_or s j 0)) in
    elim (Bool-cases (a == j)) [
      | inl e ↦
          let same : j ≡ a = ground arith in
          rw e (
            ap (λ (k : ℕ). get_or (swap s i j) k 0) (sym same)
            ∙ get_or-set_self half j (get_or s i 0) inside)
      | inr e ↦
          let apart : j ≢ a = ground arith in
          elim (Bool-cases (a == i)) [
            | inl f ↦
                let same : i ≡ a = ground arith in
                rw (e, f)
                  (get_or-set_ne half j a (get_or s i 0) apart
                    ∙ ap (λ (k : ℕ). get_or half k 0) (sym same)
                    ∙ get_or-set_self s i (get_or s j 0) hi)
            | inr f ↦
                let other : i ≢ a = ground arith in
                rw (e, f)
                  (get_or-set_ne half j a (get_or s i 0) apart
                    ∙ get_or-set_ne s i a (get_or s j 0) other)
          ]
    ]

origin_injective : (i j a b : ℕ) → origin i j a ≡ origin i j b → a ≡ b
unfolding origin
origin_injective i j a b h = ground arith

origin_small : (i j a : ℕ) → i < 256 → j < 256 → a < 256 → origin i j a < 256
unfolding origin
origin_small i j a hi hj ha = ground arith

swap-IsPermutation :
    (s : Bytes) (i j : ℕ) → i < 256 → j < 256 → IsPermutation s → IsPermutation (swap s i j)
swap-IsPermutation s i j hi hj p =
    let at =
      λ (a : ℕ). get_or-swap s i j a (omega (arith, hi, p.count)) (omega (arith, hj, p.count)) in
    record {
      count =
          length-set (set s i (get_or s j 0)) j (get_or s i 0)
          ∙ length-set s i (get_or s j 0)
          ∙ p.count;
      entries = λ a. rw (at a) (p.entries (origin i j a));
      distinct = λ a b ha hb e. origin_injective i j a b (
          p.distinct (origin i j a) (origin i j b) (origin_small i j a hi hj ha)
            (origin_small i j b hi hj hb) (sym (at a) ∙ e ∙ at b));
    }

length-count_up : (left n : ℕ) → length (count_up left n) ≡ left
unfolding count_up
length-count_up zero n = refl
length-count_up (suc left) n = ap suc (length-count_up left (n + 1))

get_or-count_up : (left n a : ℕ) → a < left → get_or (count_up left n) a 0 ≡ n + a
unfolding count_up
get_or-count_up zero n a h = elim h [ ]
get_or-count_up (suc left) n zero h = omega arith
get_or-count_up (suc left) n (suc a) h = omega (arith, get_or-count_up left (n + 1) a (omega arith))

get_or-count_up_end : (left n a : ℕ) → left ≤ a → get_or (count_up left n) a 0 ≡ 0
unfolding count_up
get_or-count_up_end zero n a h = refl
get_or-count_up_end (suc left) n zero h = elim h [ ]
get_or-count_up_end (suc left) n (suc a) h = get_or-count_up_end left (n + 1) a (omega arith)

count_up-IsPermutation : IsPermutation (count_up 256 0)
count_up-IsPermutation = record {
  count = length-count_up 256 0;
  entries = λ a. elim (dec_lt a 256) [
    | yes lt ↦ omega (arith, get_or-count_up 256 0 a lt)
    | no ge ↦ omega (arith, get_or-count_up_end 256 0 a (omega (arith, ge)))
  ];
  distinct =
      λ a b ha hb e. omega (arith, e, get_or-count_up 256 0 a ha, get_or-count_up 256 0 b hb);
}

key_rounds-IsPermutation :
    (key : Bytes) (left n : ℕ) (s : Bytes) (j : ℕ)
    → n + left ≤ 256
    → IsPermutation s
    → IsPermutation (key_rounds key left n s j)
unfolding key_rounds
key_rounds-IsPermutation key zero n s j h p = p
key_rounds-IsPermutation key (suc left) n s j h p =
    let j' = (j + get_or s n 0 + get_or key (n % length key) 0) % 256 in
    key_rounds-IsPermutation key left (n + 1) (swap s n j') j' (omega (arith, h))
      (swap-IsPermutation s n j' (omega (arith, h)) (omega arith) p)

rc4_init-IsPermutation : (key : Bytes) → IsPermutation (rc4_init key).s
unfolding rc4_init
rc4_init-IsPermutation [] = count_up-IsPermutation
rc4_init-IsPermutation (k ∷ key) =
    key_rounds-IsPermutation (k ∷ key) 256 0 (count_up 256 0) 0 (omega arith) count_up-IsPermutation

crypt-IsPermutation : (r : Rc4) (m : Bytes) → IsPermutation r.s → IsPermutation (rc4_crypt r m).0.s
unfolding rc4_crypt rc4_step
crypt-IsPermutation r [] p = p
crypt-IsPermutation r (x ∷ xs) p =
    let i = (r.i + 1) % 256 in
    let j = (r.j + get_or r.s i 0) % 256 in
    crypt-IsPermutation (rc4_step r) xs (swap-IsPermutation r.s i j (omega arith) (omega arith) p)

-- Behind the key schedule of any key and any text that is encrypted, the table of the stream has
-- 256 entries, which are bytes, no two of them the same.
pub rc4_crypt-IsPermutation : (key m : Bytes) → IsPermutation (rc4_crypt (rc4_init key) m).0.s
rc4_crypt-IsPermutation key m = crypt-IsPermutation (rc4_init key) m (rc4_init-IsPermutation key)
