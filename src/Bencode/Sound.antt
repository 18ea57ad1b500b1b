-- ===== src/Bencode/Sound.antt =====
-- Whatever is read is a text of the grammar: with Complete, the reader decides it.
use pipensx_video_downloader.Prelude.{
  ℕ, zero, suc, ◌≡◌, ◌≢◌, refl, ap, ◌∙◌, Bool, true, false, not, inl, inr, [], ◌∷◌, ◌++◌, Option,
  some, Bytes, ltb, ◌==◌, Bool-cases, length, take, drop, arith, length-take, ℤ, signed,
}
use pipensx_video_downloader.Prelude.Errors.{◌>>=◌, ◌>>◌, guard, >>=-eq-some}
use pipensx_video_downloader.Bencode.{
  is_digit, expect, scan_digits, sign, at_digit, parse_int, parse_str, skip_list, skip_dict,
  be_skip, int64_max, size_max,
}
use pipensx_video_downloader.Bencode.Grammar.{
  Tree, Trees, Entries, int, str, list, dict, nil, cons, end, entry, decimal, IsNumber, IsText,
  minus, print_str, print, print_items, print_entries, Fits, FitItems, FitEntries,
}
use pipensx_video_downloader.Bencode.Digits.{scan_digits-Scanned}

pub expect_sound : (c : ℕ) (p : Bytes) {q : Bytes} → expect c p ≡ some q → p ≡ c ∷ q
unfolding expect
expect_sound c [] h = cc
expect_sound c (x ∷ xs) h = ground arith

sign_sound : (p : Bytes) → p ≡ minus (sign p).0 (sign p).1
unfolding sign
sign_sound [] = refl
sign_sound (x ∷ xs) = ground arith

pub take-append-drop_bytes : (n : ℕ) (s : Bytes) → take n s ++ drop n s ≡ s
take-append-drop_bytes zero s = refl
take-append-drop_bytes (suc n) [] = refl
take-append-drop_bytes (suc n) (x ∷ s) = ap (◌∷◌ x) (take-append-drop_bytes n s)

pub record IntText (p : Bytes) (v : ℤ) (rest : Bytes) : Type 0 where
  pub neg : Bool
  pub ds : Bytes
  pub number : IsNumber int64_max ds
  pub value : v ≡ signed neg (decimal 0 ds)
  pub splits : p ≡ b'i' ∷ minus neg (ds ++ (b'e' ∷ rest))

int_tail :
    (digits : ℕ) (t : Bytes) (w v : ℤ) {rest : Bytes}
    → ◌>>◌ {B = ℤ × Bytes}
        (guard (not (digits == 0)))
        (◌>>=◌ {B = ℤ × Bytes} (expect b'e' t) (λ u. some (w, u)))
      ≡ some (v, rest)
    → (digits ≢ 0) × (t ≡ b'e' ∷ rest) × (v ≡ w)
unfolding expect
int_tail digits [] w v h = absurd (ground arith)
int_tail digits (x ∷ t) w v h = ground arith

int_text :
    (p s t : Bytes) (v digits : ℕ) {z : ℤ} {rest : Bytes}
    → expect b'i' p ≡ some s
    → scan_digits int64_max 0 0 (sign s).1 ≡ some (v, digits, t)
    → (digits ≢ 0) × (t ≡ b'e' ∷ rest) × (z ≡ signed (sign s).0 v)
    → IntText p z rest
int_text p s t v digits {z} {rest} hs ht tail =
    let sc = scan_digits-Scanned int64_max 0 0 (sign s).1 ht in
    record {
      neg = (sign s).0;
      ds = sc.ds;
      number = (
        sc.digits,
        λ e. tail.0 (omega (arith, sc.count, ap length e)),
        omega (arith, sc.value, sc.bounded),
      );
      value = tail.2 ∙ ap (signed (sign s).0) sc.value;
      splits =
          expect_sound b'i' p hs
          ∙ ap (◌∷◌ b'i')
              (sign_sound s ∙ ap (minus (sign s).0) (sc.splits ∙ ap (λ r. sc.ds ++ r) tail.1));
    }

pub parse_int_sound :
    (p : Bytes) {v : ℤ} {rest : Bytes} → parse_int p ≡ some (v, rest) → IntText p v rest
unfolding parse_int
parse_int_sound p {v} h =
    let (s, hs, h1) = >>=-eq-some (expect b'i' p) _ h in
    let (r, ht, h2) = >>=-eq-some (scan_digits int64_max 0 0 (sign s).1) _ h1 in
    int_text p s r.2 r.0 r.1 hs ht (int_tail r.1 r.2 (signed (sign s).0 r.0) v h2)

pub record StrText (p s rest : Bytes) : Type 0 where
  pub ds : Bytes
  pub text : IsText ds s
  pub splits : p ≡ print_str ds s rest

str_tail :
    (len : ℕ) (s : Bytes) (v rest : Bytes)
    → ◌>>◌ {B = Bytes × Bytes} (guard (not (ltb (length s) len))) (some (take len s, drop len s))
      ≡ some (v, rest)
    → (length v ≡ len) × (s ≡ v ++ rest)
str_tail len s v rest h = ground (arith, length-take len s, take-append-drop_bytes len s)

at_digit_append : (ds t s : Bytes) → at_digit (ds ++ t) ≡ true → t ≡ b':' ∷ s → ds ≢ []
unfolding at_digit
at_digit_append [] t s h e = ground arith
at_digit_append (c ∷ cs) t s h e = λ x. cc

str_text :
    (p t s : Bytes) (len n : ℕ) {v rest : Bytes}
    → at_digit p ≡ true
    → scan_digits size_max 0 0 p ≡ some (len, n, t)
    → t ≡ b':' ∷ s
    → (length v ≡ len) × (s ≡ v ++ rest)
    → StrText p v rest
str_text p t s len n {v} {rest} ha ht hs tail =
    let sc = scan_digits-Scanned size_max 0 0 p ht in
    record {
      ds = sc.ds;
      text = (
        (
          sc.digits,
          at_digit_append sc.ds t s (rw sc.splits at ha) hs,
          omega (arith, sc.value, sc.bounded),
        ),
        omega (arith, sc.value, tail.0),
      );
      splits = sc.splits ∙ ap (λ r. sc.ds ++ r) (hs ∙ ap (◌∷◌ b':') tail.1);
    }

pub guard-true : (b : Bool) → (x : Unit {0}) × (guard b ≡ some x) → b ≡ true
guard-true true h = refl
guard-true false h = cc (h.1)

pub parse_str_sound : (p : Bytes) {s rest : Bytes} → parse_str p ≡ some (s, rest) → StrText p s rest
unfolding parse_str
parse_str_sound p {s} {rest} h =
    let (x, ha, h0) = >>=-eq-some (guard (at_digit p)) _ h in
    let (r, ht, h1) = >>=-eq-some (scan_digits size_max 0 0 p) _ h0 in
    let (q, hq, h2) = >>=-eq-some (expect b':' r.2) _ h1 in
    str_text p r.2 q r.0 r.1 (guard-true (at_digit p) (x, ha)) ht (expect_sound b':' r.2 hq)
      (str_tail r.0 q s rest h2)

pub record Reads (levels : ℕ) (p rest : Bytes) : Type 0 where
  pub tree : Tree
  pub fits : Fits levels tree
  pub splits : p ≡ print tree rest

-- What a loop has read up to its 'e'.
pub record ReadsItems (levels : ℕ) (p rest : Bytes) : Type 0 where
  pub items : Trees
  pub fits : FitItems levels items
  pub splits : p ≡ print_items items (b'e' ∷ rest)

pub record ReadsEntries (levels : ℕ) (p rest : Bytes) : Type 0 where
  pub entries : Entries
  pub fits : FitEntries levels entries
  pub splits : p ≡ print_entries entries (b'e' ∷ rest)

module _ (n : ℕ) (skip : Bytes → Option Bytes)
    (sound : (p : Bytes) (rest : Bytes) → skip p ≡ some rest → Reads n p rest) where
  skip_list-ReadsItems :
      (fuel : ℕ) (p : Bytes) {rest : Bytes}
      → skip_list skip fuel p ≡ some rest
      → ReadsItems n p rest
  unfolding skip_list print
  skip_list-ReadsItems zero p h = cc
  skip_list-ReadsItems (suc fuel) [] h = cc
  skip_list-ReadsItems (suc fuel) (c ∷ cs) {rest} h = elim (Bool-cases (c == b'e')) [
    | inl e ↦ record { items = nil; fits = tt; splits = ground arith }
    | inr e ↦
        let (q, hq, h1) = >>=-eq-some (skip (c ∷ cs)) (skip_list skip fuel) (ground arith) in
        let r = sound (c ∷ cs) q hq in
        let rs = skip_list-ReadsItems fuel q h1 in
        record {
          items = cons r.tree rs.items;
          fits = (r.fits, rs.fits);
          splits = r.splits ∙ ap (print r.tree) rs.splits;
        }
  ]

  skip_dict-ReadsEntries :
      (fuel : ℕ) (p : Bytes) {rest : Bytes}
      → skip_dict skip fuel p ≡ some rest
      → ReadsEntries n p rest
  unfolding skip_dict print
  skip_dict-ReadsEntries zero p h = cc
  skip_dict-ReadsEntries (suc fuel) [] h = cc
  skip_dict-ReadsEntries (suc fuel) (c ∷ cs) {rest} h = elim (Bool-cases (c == b'e')) [
    | inl e ↦ record { entries = end; fits = tt; splits = ground arith }
    | inr e ↦
        let (k, hk, h0) =
          >>=-eq-some (parse_str (c ∷ cs)) (λ k. skip k.1 >>= λ q. skip_dict skip fuel q)
            (ground arith) in
        let (q, hq, h1) = >>=-eq-some (skip k.1) (skip_dict skip fuel) h0 in
        let s = parse_str_sound (c ∷ cs) hk in
        let r = sound k.1 q hq in
        let rs = skip_dict-ReadsEntries fuel q h1 in
        record {
          entries = entry s.ds k.0 r.tree rs.entries;
          fits = (s.text, r.fits, rs.fits);
          splits = s.splits ∙ ap (print_str s.ds k.0) (r.splits ∙ ap (print r.tree) rs.splits);
        }
  ]

int_Reads :
    (n : ℕ) (p rest : Bytes)
    → ◌>>=◌ {B = Bytes} (parse_int p) (λ r. some r.1) ≡ some rest
    → Reads (suc n) p rest
unfolding print
int_Reads n p rest h =
    let (r, hr, e) = >>=-eq-some (parse_int p) _ h in
    let t = parse_int_sound p hr in
    record {
      tree = int t.neg t.ds;
      fits = t.number;
      splits = t.splits ∙ ap (λ u. print (int t.neg t.ds) u) (ground arith);
    }

str_Reads :
    (n : ℕ) (p rest : Bytes)
    → ◌>>=◌ {B = Bytes} (parse_str p) (λ r. some r.1) ≡ some rest
    → Reads (suc n) p rest
unfolding print
str_Reads n p rest h =
    let (r, hr, e) = >>=-eq-some (parse_str p) _ h in
    let t = parse_str_sound p hr in
    record {
      tree = str t.ds r.0;
      fits = t.text;
      splits = t.splits ∙ ap (λ u. print (str t.ds r.0) u) (ground arith);
    }

list_Reads :
    (n c : ℕ) (cs rest : Bytes) → c ≡ b'l' → ReadsItems n cs rest → Reads (suc n) (c ∷ cs) rest
unfolding print
list_Reads n c cs rest e r = record {
  tree = list r.items;
  fits = r.fits;
  splits = rw e (ap (◌∷◌ b'l') r.splits);
}

dict_Reads :
    (n c : ℕ) (cs rest : Bytes) → c ≡ b'd' → ReadsEntries n cs rest → Reads (suc n) (c ∷ cs) rest
unfolding print
dict_Reads n c cs rest e r = record {
  tree = dict r.entries;
  fits = r.fits;
  splits = rw e (ap (◌∷◌ b'd') r.splits);
}

-- Whatever be_skip accepts is the text of a value within the nesting cap with numbers in range,
-- followed by the bytes that are left.
pub be_skip-Reads : (n : ℕ) (p rest : Bytes) → be_skip n p ≡ some rest → Reads n p rest
unfolding be_skip
be_skip-Reads zero p rest h = cc
be_skip-Reads (suc n) [] rest h = cc
be_skip-Reads (suc n) (c ∷ cs) rest h = elim (Bool-cases (c == b'i')) [
  | inl e ↦ int_Reads n (c ∷ cs) rest (ground arith)
  | inr i ↦ elim (Bool-cases (is_digit c)) [
    | inl e ↦ str_Reads n (c ∷ cs) rest (ground arith)
    | inr d ↦ elim (Bool-cases (c == b'l')) [
      | inl e ↦
          list_Reads n c cs rest (ground arith) (
            skip_list-ReadsItems n (be_skip n) (be_skip-Reads n) (suc (length cs)) cs
              (ground arith))
      | inr l ↦ dict_Reads n c cs rest (ground arith) (
          skip_dict-ReadsEntries n (be_skip n) (be_skip-Reads n) (suc (length cs)) cs
            (ground arith))
    ]
  ]
]
