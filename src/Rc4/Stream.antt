-- ===== src/Rc4/Stream.antt =====
-- What goes through the stream: encryption and decryption undo one another, in pieces or at once.
use pipensx_video_downloader.Prelude.{
  ℕ, zero, suc, ◌+◌, ◌%◌, ◌≤◌, ◌<◌, ◌≡◌, refl, ap, [], ◌∷◌, ◌++◌, Bytes, length, get_or, set, arith,
}
use pipensx_video_downloader.Prelude.Tables.{bit_xor_twice}
use pipensx_video_downloader.Rc4.{
  Rc4, swap, count_up, key_rounds, rc4_init, rc4_step, key_byte, rc4_crypt, rc4_discard,
}

-- Every entry is a byte.
abbrev pub AllBytes : Bytes → Type 0
AllBytes [] = Unit {0}
AllBytes (x ∷ xs) = (x < 256) × AllBytes xs

-- The table holds bytes, which the steps keep.
pub record IsTable (r : Rc4) : Type 0 where
  pub entries : AllBytes r.s

get_or-byte : (xs : Bytes) (i : ℕ) → AllBytes xs → get_or xs i 0 < 256
get_or-byte [] i h = omega arith
get_or-byte (x ∷ xs) zero h = h.0
get_or-byte (x ∷ xs) (suc i) h = get_or-byte xs i h.1

set-AllBytes : (xs : Bytes) (i v : ℕ) → v < 256 → AllBytes xs → AllBytes (set xs i v)
set-AllBytes [] i v hv h = tt
set-AllBytes (x ∷ xs) zero v hv h = (hv, h.1)
set-AllBytes (x ∷ xs) (suc i) v hv h = (h.0, set-AllBytes xs i v hv h.1)

swap-AllBytes : (s : Bytes) (i j : ℕ) → AllBytes s → AllBytes (swap s i j)
swap-AllBytes s i j h =
    set-AllBytes _ j _ (get_or-byte s i h) (set-AllBytes s i _ (get_or-byte s j h) h)

count_up-AllBytes : (left n : ℕ) → n + left ≤ 256 → AllBytes (count_up left n)
unfolding count_up
count_up-AllBytes zero n h = tt
count_up-AllBytes (suc left) n h =
    (omega (arith, h), count_up-AllBytes left (n + 1) (omega (arith, h)))

key_rounds-AllBytes :
    (key : Bytes) (left n : ℕ) (s : Bytes) (j : ℕ)
    → AllBytes s
    → AllBytes (key_rounds key left n s j)
unfolding key_rounds
key_rounds-AllBytes key zero n s j h = h
key_rounds-AllBytes key (suc left) n s j h =
    key_rounds-AllBytes key left (n + 1) _ _
      (swap-AllBytes s n ((j + get_or s n 0 + get_or key (n % length key) 0) % 256) h)

pub rc4_init-IsTable : (key : Bytes) → IsTable (rc4_init key)
unfolding rc4_init
rc4_init-IsTable [] = record { entries = count_up-AllBytes 256 0 (omega arith) }
rc4_init-IsTable (k ∷ key) = record {
  entries = key_rounds-AllBytes (k ∷ key) 256 0 _ 0 (count_up-AllBytes 256 0 (omega arith));
}

pub rc4_step-IsTable : (r : Rc4) → IsTable r → IsTable (rc4_step r)
unfolding rc4_step
rc4_step-IsTable r h = record { entries = swap-AllBytes r.s _ _ h.entries }

pub rc4_discard-IsTable : (r : Rc4) (n : ℕ) → IsTable r → IsTable (rc4_discard r n)
unfolding rc4_discard
rc4_discard-IsTable r zero h = h
rc4_discard-IsTable r (suc n) h = rc4_discard-IsTable (rc4_step r) n (rc4_step-IsTable r h)

-- From a state whose table holds bytes, decrypting what rc4_crypt encrypted gives the bytes back
-- and leaves the two streams in the same state.
pub rc4_crypt-rc4_crypt :
    (r : Rc4) (m : Bytes)
    → IsTable r
    → AllBytes m
    → rc4_crypt r (rc4_crypt r m).1 ≡ ((rc4_crypt r m).0, m)
unfolding rc4_crypt key_byte
rc4_crypt-rc4_crypt r [] h b = refl
rc4_crypt-rc4_crypt r (x ∷ xs) h b =
    let step = rc4_step-IsTable r h in
    let back = bit_xor_twice x (key_byte (rc4_step r)) b.0 (get_or-byte _ _ step.entries) in
    let rest = rc4_crypt-rc4_crypt (rc4_step r) xs step b.1 in cc (back.0, rest)

-- The joined text, in the two steps that the handshake and send_msg take.
pub rc4_crypt-append :
    (r : Rc4) (xs ys : Bytes)
    → rc4_crypt r (xs ++ ys) ≡ (
      (rc4_crypt (rc4_crypt r xs).0 ys).0,
      (rc4_crypt r xs).1 ++ (rc4_crypt (rc4_crypt r xs).0 ys).1,
    )
unfolding rc4_crypt
rc4_crypt-append r [] ys = refl
rc4_crypt-append r (x ∷ xs) ys = rw (rc4_crypt-append (rc4_step r) xs ys)

-- Discarding is encrypting with nothing kept.
pub rc4_discard-rc4_crypt : (r : Rc4) (m : Bytes) → rc4_discard r (length m) ≡ (rc4_crypt r m).0
unfolding rc4_discard rc4_crypt
rc4_discard-rc4_crypt r [] = refl
rc4_discard-rc4_crypt r (x ∷ xs) = rc4_discard-rc4_crypt (rc4_step r) xs

pub length-rc4_crypt : (r : Rc4) (m : Bytes) → length (rc4_crypt r m).1 ≡ length m
unfolding rc4_crypt
length-rc4_crypt r [] = refl
length-rc4_crypt r (x ∷ xs) = ap suc (length-rc4_crypt (rc4_step r) xs)
