-- ===== src/Bencode/Grammar.antt =====
-- The language that core/bencode.c reads, as trees and their texts: the format of BEP 3, with the
-- leading zeros and the "-0" that the code also takes.
use pipensx_video_downloader.Prelude.{
  ℕ, zero, suc, ◌+◌, ◌-◌, ◌*◌, ◌≤◌, ◌≡◌, ◌≢◌, Bool, true, false, [], ◌∷◌, ◌++◌, Bytes, length,
}
use pipensx_video_downloader.Bencode.{int64_max, size_max, is_digit}

-- A number keeps its digits as they are written.
mutual
  pub data Tree : Type 0 where
    int : Bool → Bytes → Tree
    str : Bytes → Bytes → Tree
    list : Trees → Tree
    dict : Entries → Tree

  pub data Trees : Type 0 where
    nil : Trees
    cons : Tree → Trees → Trees

  pub data Entries : Type 0 where
    end : Entries
    entry : Bytes → Bytes → Tree → Entries → Entries

-- The value of a text of digits behind the value `v`.
abbrev pub decimal : ℕ → Bytes → ℕ
decimal v [] = v
decimal v (c ∷ cs) = decimal (v * 10 + (c - b'0')) cs

abbrev pub Digits : Bytes → Type 0
Digits [] = Unit {0}
Digits (c ∷ cs) = (is_digit c ≡ true) × Digits cs

abbrev pub IsNumber : ℕ → Bytes → Type 0
IsNumber max ds = Digits ds × (ds ≢ []) × (decimal 0 ds ≤ max)

-- A length prefix and what it measures.
abbrev pub IsText : Bytes → Bytes → Type 0
IsText ds s = IsNumber size_max ds × (decimal 0 ds ≡ length s)

abbrev pub minus : Bool → Bytes → Bytes
minus true rest = b'-' ∷ rest
minus false rest = rest

abbrev pub print_str : Bytes → Bytes → Bytes → Bytes
print_str ds s rest = ds ++ (b':' ∷ (s ++ rest))

-- Each text stands in front of what follows it.
unfoldable mutual
  pub print : Tree → Bytes → Bytes
  print (int neg ds) rest = b'i' ∷ minus neg (ds ++ (b'e' ∷ rest))
  print (str ds s) rest = print_str ds s rest
  print (list ts) rest = b'l' ∷ print_items ts (b'e' ∷ rest)
  print (dict es) rest = b'd' ∷ print_entries es (b'e' ∷ rest)

  pub print_items : Trees → Bytes → Bytes
  print_items nil rest = rest
  print_items (cons t ts) rest = print t (print_items ts rest)

  pub print_entries : Entries → Bytes → Bytes
  print_entries end rest = rest
  print_entries (entry ds k t es) rest = print_str ds k (print t (print_entries es rest))

-- A tree with at most `levels` values one inside the other, whose numbers are in range.
abbrev mutual
  pub Fits : ℕ → Tree → Type 0
  Fits zero _ = ⊥
  Fits (suc n) (int neg ds) = IsNumber int64_max ds
  Fits (suc n) (str ds s) = IsText ds s
  Fits (suc n) (list ts) = FitItems n ts
  Fits (suc n) (dict es) = FitEntries n es

  pub FitItems : ℕ → Trees → Type 0
  FitItems n nil = Unit {0}
  FitItems n (cons t ts) = Fits n t × FitItems n ts

  pub FitEntries : ℕ → Entries → Type 0
  FitEntries n end = Unit {0}
  FitEntries n (entry ds k t es) = IsText ds k × Fits n t × FitEntries n es
