-- ===== src/Bencode/Complete.antt =====
-- Every text of the grammar is read: the printed numbers, strings and values come back with the
-- bytes behind them.
use pipensx_video_downloader.Prelude.{
  ℕ, zero, suc, ◌≤◌, ◌<◌, ◌≡◌, refl, ap, ◌∙◌, Bool, true, false, [], ◌∷◌, ◌++◌, Option, some, Bytes,
  length, take, drop, arith, length-append, signed,
}
use pipensx_video_downloader.Bencode.{
  expect, sign, at_digit, at_end, parse_int, parse_str, skip_list, skip_dict, be_skip, int64_max,
  size_max,
}
use pipensx_video_downloader.Bencode.Grammar.{
  Tree, Trees, Entries, int, str, list, dict, nil, cons, end, entry, decimal, IsNumber, IsText,
  minus, print_str, print, print_items, print_entries, Fits, FitItems, FitEntries,
}
use pipensx_video_downloader.Bencode.Digits.{scan_digits-print}

pub take-length-append : (s rest : Bytes) → take (length s) (s ++ rest) ≡ s
take-length-append [] rest = refl
take-length-append (x ∷ s) rest = ap (◌∷◌ x) (take-length-append s rest)

pub drop-length-append : (s rest : Bytes) → drop (length s) (s ++ rest) ≡ rest
drop-length-append [] rest = refl
drop-length-append (x ∷ s) rest = drop-length-append s rest

pub parse_int-print :
    (neg : Bool) (ds rest : Bytes)
    → IsNumber int64_max ds
    → parse_int (b'i' ∷ minus neg (ds ++ (b'e' ∷ rest))) ≡ some (signed neg (decimal 0 ds), rest)
unfolding parse_int at_digit expect sign
parse_int-print neg [] rest n = absurd (n.1 refl)
parse_int-print true (c ∷ cs) rest n =
    ground (arith, scan_digits-print int64_max 0 0 (c ∷ cs) (b'e' ∷ rest))
parse_int-print false (c ∷ cs) rest n =
    ground (arith, scan_digits-print int64_max 0 0 (c ∷ cs) (b'e' ∷ rest))

pub parse_str-print :
    (ds s rest : Bytes) → IsText ds s → parse_str (print_str ds s rest) ≡ some (s, rest)
unfolding parse_str at_digit expect
parse_str-print [] s rest n = absurd (n.0.1 refl)
parse_str-print (c ∷ cs) s rest n = ground (
  arith,
  scan_digits-print size_max 0 0 (c ∷ cs) (b':' ∷ (s ++ rest)),
  length-append s rest,
  take-length-append s rest,
  drop-length-append s rest,
)

pub length-print_str : (ds s rest : Bytes) → length rest < length (print_str ds s rest)
length-print_str ds s rest =
    omega (arith, length-append ds (b':' ∷ (s ++ rest)), length-append s rest)

length-minus : (neg : Bool) (ds rest : Bytes) → length rest ≤ length (minus neg (ds ++ rest))
length-minus true ds rest = omega (arith, length-append ds rest)
length-minus false ds rest = omega (arith, length-append ds rest)

mutual
  unfolding print

  pub length-print : (t : Tree) (rest : Bytes) → length rest < length (print t rest)
  length-print (int neg ds) rest = omega (arith, length-minus neg ds (b'e' ∷ rest))
  length-print (str ds s) rest = length-print_str ds s rest
  length-print (list ts) rest = omega (arith, length-print_items ts (b'e' ∷ rest))
  length-print (dict es) rest = omega (arith, length-print_entries es (b'e' ∷ rest))

  length-print_items : (ts : Trees) (rest : Bytes) → length rest ≤ length (print_items ts rest)
  length-print_items nil rest = omega arith
  length-print_items (cons t ts) rest =
      omega (arith, length-print t (print_items ts rest), length-print_items ts rest)

  pub length-print_entries :
      (es : Entries) (rest : Bytes) → length rest ≤ length (print_entries es rest)
  length-print_entries end rest = omega arith
  length-print_entries (entry ds k t es) rest = omega (
    arith,
    length-print_str ds k (print t (print_entries es rest)),
    length-print t (print_entries es rest),
    length-print_entries es rest,
  )

-- A value begins with no 'e', so a loop goes on at it.
pub at_end-print_str : (ds s rest : Bytes) → IsText ds s → at_end (print_str ds s rest) ≡ false
unfolding at_end
at_end-print_str [] s rest h = absurd (h.0.1 refl)
at_end-print_str (c ∷ cs) s rest h = ground arith

pub at_end-print : (n : ℕ) (t : Tree) (rest : Bytes) → Fits n t → at_end (print t rest) ≡ false
unfolding print at_end
at_end-print zero t rest h = elim h [ ]
at_end-print (suc n) (int neg ds) rest h = refl
at_end-print (suc n) (str ds s) rest h = at_end-print_str ds s rest h
at_end-print (suc n) (list ts) rest h = refl
at_end-print (suc n) (dict es) rest h = refl

skip_list_step :
    (skip : Bytes → Option Bytes) (f : ℕ) (p q : Bytes)
    → at_end p ≡ false
    → skip p ≡ some q
    → skip_list skip (suc f) p ≡ skip_list skip f q
unfolding skip_list at_end
skip_list_step skip f [] q e s = cc
skip_list_step skip f (c ∷ cs) q e s = ground arith

skip_dict_step :
    (skip : Bytes → Option Bytes) (f : ℕ) (p k q r : Bytes)
    → at_end p ≡ false
    → parse_str p ≡ some (k, q)
    → skip q ≡ some r
    → skip_dict skip (suc f) p ≡ skip_dict skip f r
unfolding skip_dict at_end
skip_dict_step skip f [] k q r e s t = cc
skip_dict_step skip f (c ∷ cs) k q r e s t = ground arith

be_skip_str :
    (n : ℕ) (ds s rest : Bytes) → IsText ds s → be_skip (suc n) (print_str ds s rest) ≡ some rest
unfolding be_skip
be_skip_str n [] s rest h = absurd (h.0.1 refl)
be_skip_str n (c ∷ cs) s rest h = ground (arith, parse_str-print (c ∷ cs) s rest h)

mutual
  unfolding print be_skip skip_list skip_dict

  skip-print : (n : ℕ) (t : Tree) (rest : Bytes) → Fits n t → be_skip n (print t rest) ≡ some rest
  skip-print zero (int neg ds) rest h = elim h [ ]
  skip-print zero (str ds s) rest h = elim h [ ]
  skip-print zero (list ts) rest h = elim h [ ]
  skip-print zero (dict es) rest h = elim h [ ]
  skip-print (suc n) (int neg ds) rest h = rw (parse_int-print neg ds rest h)
  skip-print (suc n) (str ds s) rest h = be_skip_str n ds s rest h
  skip-print (suc n) (list ts) rest h =
      skip_list-print n ts (suc (length (print_items ts (b'e' ∷ rest)))) rest h (omega arith)
  skip-print (suc n) (dict es) rest h =
      skip_dict-print n es (suc (length (print_entries es (b'e' ∷ rest)))) rest h (omega arith)

  skip_list-print :
      (n : ℕ) (ts : Trees) (fuel : ℕ) (rest : Bytes)
      → FitItems n ts
      → length (print_items ts (b'e' ∷ rest)) < fuel
      → skip_list (be_skip n) fuel (print_items ts (b'e' ∷ rest)) ≡ some rest
  skip_list-print n nil zero rest h l = elim l [ ]
  skip_list-print n nil (suc fuel) rest h l = refl
  skip_list-print n (cons t ts) zero rest h l = elim l [ ]
  skip_list-print n (cons t ts) (suc fuel) rest h l =
      skip_list_step (be_skip n) fuel _ (print_items ts (b'e' ∷ rest)) (at_end-print n t _ h.0)
        (skip-print n t _ h.0)
      ∙ skip_list-print n ts fuel rest h.1
          (omega (arith, length-print t (print_items ts (b'e' ∷ rest))))

  skip_dict-print :
      (n : ℕ) (es : Entries) (fuel : ℕ) (rest : Bytes)
      → FitEntries n es
      → length (print_entries es (b'e' ∷ rest)) < fuel
      → skip_dict (be_skip n) fuel (print_entries es (b'e' ∷ rest)) ≡ some rest
  skip_dict-print n end zero rest h l = elim l [ ]
  skip_dict-print n end (suc fuel) rest h l = refl
  skip_dict-print n (entry ds k t es) zero rest h l = elim l [ ]
  skip_dict-print n (entry ds k t es) (suc fuel) rest h l =
      let more = print_entries es (b'e' ∷ rest) in
      skip_dict_step (be_skip n) fuel _ k (print t more) more (at_end-print_str ds k _ h.0)
        (parse_str-print ds k _ h.0) (skip-print n t _ h.1)
      ∙ skip_dict-print n es fuel rest h.2
          (omega (arith, length-print t more, length-print_str ds k (print t more)))

-- be_skip accepts every text of a tree that fits in the nesting levels, and leaves what stands
-- behind it.
pub be_skip-print :
    (n : ℕ) (t : Tree) (rest : Bytes) → Fits n t → be_skip n (print t rest) ≡ some rest
be_skip-print = skip-print
