-- ===== src/Bencode.antt =====
-- core/bencode.c. A pointer pair (p, end) is the list of the bytes between the two, and a call that
-- advances *p returns the bytes that are left.
pub mod Grammar
mod Digits
pub mod Complete
pub mod Sound
pub mod Decode
pub mod Dict
use pipensx_video_downloader.Prelude.{
  ℕ, zero, suc, ◌+◌, ◌-◌, ◌*◌, ◌/◌, Bool, true, false, not, ◌&&◌, [], ◌∷◌, Option, none, some,
  Bytes, ltb, leb, ◌==◌, if◌then◌else◌, length, take, drop, ℤ, signed,
}
use pipensx_video_downloader.Prelude.Errors.{◌>>=◌, ◌>>◌, guard}

abbrev pub int64_max : ℕ
int64_max = 9223372036854775807

abbrev pub size_max : ℕ
size_max = 18446744073709551615

abbrev pub be_max_depth : ℕ
be_max_depth = 16

abbrev pub is_digit : ℕ → Bool
is_digit c = leb b'0' c && leb c b'9'

-- `if (s >= end || *s != c) return 0; s++;`
unfoldable pub expect : ℕ → Bytes → Option Bytes
expect c [] = none
expect c (x ∷ xs) = if x == c then some xs else none

-- The digit loop, which refuses a value that would pass `max`. `n` counts the digits.
unfoldable pub scan_digits : ℕ → ℕ → ℕ → Bytes → Option (ℕ × ℕ × Bytes)
scan_digits max v n [] = some (v, n, [])
scan_digits max v n (c ∷ cs) =
    let rest = scan_digits max (v * 10 + (c - b'0')) (n + 1) cs in
    if is_digit c
    then if ltb ((max - (c - b'0')) / 10) v then none else rest
    else some (v, n, c ∷ cs)

-- `if (s < end && *s == '-') { neg = 1; s++; }`
unfoldable pub sign : Bytes → Bool × Bytes
sign [] = (false, [])
sign (x ∷ xs) = if x == b'-' then (true, xs) else (false, x ∷ xs)

unfoldable pub parse_int : Bytes → Option (ℤ × Bytes)
parse_int p = do
  s ← expect b'i' p
  (v, digits, t) ← scan_digits int64_max 0 0 (sign s).1
  guard (not (digits == 0))
  u ← expect b'e' t
  some (signed (sign s).0 v, u)

-- `if (s >= end || *s < '0' || *s > '9') return 0;`
unfoldable pub at_digit : Bytes → Bool
at_digit [] = false
at_digit (c ∷ cs) = is_digit c

-- The string and the bytes behind it.
unfoldable pub parse_str : Bytes → Option (Bytes × Bytes)
parse_str p = do
  guard (at_digit p)
  (len, _, t) ← scan_digits size_max 0 0 p
  s ← expect b':' t
  guard (not (ltb (length s) len))
  some (take len s, drop len s)

-- The loop over the items of a list, with the call `be_skip(p, end, depth + 1)` as an argument.
unfoldable pub skip_list : (Bytes → Option Bytes) → ℕ → Bytes → Option Bytes
skip_list skip zero p = none
skip_list skip (suc fuel) [] = none
skip_list skip (suc fuel) (c ∷ cs) = elim (c == b'e') [
  | true ↦ some cs
  | false ↦ skip (c ∷ cs) >>= λ q. skip_list skip fuel q
]

unfoldable pub skip_dict : (Bytes → Option Bytes) → ℕ → Bytes → Option Bytes
skip_dict skip zero p = none
skip_dict skip (suc fuel) [] = none
skip_dict skip (suc fuel) (c ∷ cs) = elim (c == b'e') [
  | true ↦ some cs
  | false ↦ parse_str (c ∷ cs) >>= λ k. skip k.1 >>= λ q. skip_dict skip fuel q
]

-- The first argument is what is left of the nesting cap, BE_MAX_DEPTH + 1 - depth.
unfoldable pub be_skip : ℕ → Bytes → Option Bytes
be_skip zero p = none
be_skip (suc levels) [] = none
be_skip (suc levels) (c ∷ cs) =
    if c == b'i'
    then parse_int (c ∷ cs) >>= (λ r. some r.1)
    else if is_digit c
    then parse_str (c ∷ cs) >>= (λ r. some r.1)
    else if c == b'l'
    then skip_list (be_skip levels) (suc (length cs)) cs
    else if c == b'd'
    then skip_dict (be_skip levels) (suc (length cs)) cs
    else none

-- `type` with the fields that go with it.
pub data BeValue : Type 0 where
  be_int : ℤ → BeValue
  be_str : Bytes → BeValue
  be_list be_dict : BeValue

-- `raw` is the `raw_len` bytes at `buf`.
pub record BeNode : Type 0 where
  pub value : BeValue
  pub raw : Bytes

-- `raw_len = *p - start`
abbrev pub consumed : Bytes → Bytes → Bytes
consumed start p = take (length start - length p) start

abbrev pub node : BeValue → Bytes → Bytes → BeNode × Bytes
node v start p = (record { value = v; raw = consumed start p }, p)

unfoldable pub be_decode : Bytes → Option (BeNode × Bytes)
be_decode [] = none
be_decode (c ∷ cs) =
    if c == b'i'
    then parse_int (c ∷ cs) >>= (λ r. some (node (be_int r.0) (c ∷ cs) r.1))
    else if is_digit c
    then parse_str (c ∷ cs) >>= (λ r. some (node (be_str r.0) (c ∷ cs) r.1))
    else if c == b'l'
    then be_skip (suc be_max_depth) (c ∷ cs) >>= (λ q. some (node be_list (c ∷ cs) q))
    else if c == b'd'
    then be_skip (suc be_max_depth) (c ∷ cs) >>= (λ q. some (node be_dict (c ∷ cs) q))
    else none

-- `*p >= end || **p == 'e'`
unfoldable pub at_end : Bytes → Bool
at_end [] = true
at_end (c ∷ cs) = c == b'e'

-- The key, the value and the bytes behind them.
unfoldable pub be_dict_next : Bytes → Option (Bytes × BeNode × Bytes)
be_dict_next p = do
  guard (not (at_end p))
  (key, q) ← parse_str p
  (val, r) ← be_decode q
  some (key, val, r)

unfoldable pub be_list_next : Bytes → Option (BeNode × Bytes)
be_list_next p = if at_end p then none else be_decode p

-- `kl == klen && memcmp(k, key, klen) == 0`
unfoldable pub same_bytes : Bytes → Bytes → Bool
same_bytes [] [] = true
same_bytes (x ∷ xs) (y ∷ ys) = x == y && same_bytes xs ys
same_bytes _ _ = false

unfoldable pub dict_find : ℕ → Bytes → Bytes → Option BeNode
dict_find zero p key = none
dict_find (suc fuel) p key = elim (be_dict_next p) [
  | none ↦ none
  | some (k, v, q) ↦ elim (same_bytes k key) [ true ↦ some v | false ↦ dict_find fuel q key ]
]

unfoldable pub be_dict_get : Bytes → Bytes → Option BeNode
be_dict_get dict key = do p ← expect b'd' dict; dict_find (suc (length p)) p key
