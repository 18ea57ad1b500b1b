-- ===== src/Storage/Overwrite.antt =====
-- `fwrite` at a position, and the update of one file of the list.
use pipensx_video_downloader.Prelude.{
  ℕ, zero, suc, ◌+◌, ◌≤◌, ◌<◌, ◌≡◌, ◌≢◌, refl, ap, List, [], ◌∷◌, none, Bytes, length, get_elem?,
  set, arith,
}
use native.Mathlib.Nat.{zero-add, suc-add}
use pipensx_video_downloader.Storage.{FileHandle, file_at, overwrite}

pub get_elem?-overwrite_in :
    (d : Bytes) (l : ℕ) (seg : Bytes) (i : ℕ)
    → i < length seg
    → get_elem? (overwrite d l seg) (l + i) ≡ get_elem? seg i
unfolding overwrite
get_elem?-overwrite_in d zero [] i h = elim h [ ]
get_elem?-overwrite_in [] zero (y ∷ ys) i h = rw zero-add
get_elem?-overwrite_in (x ∷ xs) zero (y ∷ ys) zero h = refl
get_elem?-overwrite_in (x ∷ xs) zero (y ∷ ys) (suc i) h =
    rw zero-add (rw (zero-add i) at (get_elem?-overwrite_in xs zero ys i (omega arith)))
get_elem?-overwrite_in [] (suc l) seg i h = rw suc-add (get_elem?-overwrite_in [] l seg i h)
get_elem?-overwrite_in (x ∷ xs) (suc l) seg i h = rw suc-add (get_elem?-overwrite_in xs l seg i h)

pub get_elem?-overwrite_below :
    (d : Bytes) (l : ℕ) (seg : Bytes) (j : ℕ)
    → j < l
    → l ≤ length d
    → get_elem? (overwrite d l seg) j ≡ get_elem? d j
unfolding overwrite
get_elem?-overwrite_below d zero seg j h p = elim h [ ]
get_elem?-overwrite_below [] (suc l) seg j h p = elim p [ ]
get_elem?-overwrite_below (x ∷ xs) (suc l) seg zero h p = refl
get_elem?-overwrite_below (x ∷ xs) (suc l) seg (suc j) h p =
    get_elem?-overwrite_below xs l seg j (omega arith) (omega arith)

get_elem?-ge_length : (xs : Bytes) (j : ℕ) → length xs ≤ j → get_elem? xs j ≡ none
get_elem?-ge_length [] j h = refl
get_elem?-ge_length (x ∷ xs) zero h = elim h [ ]
get_elem?-ge_length (x ∷ xs) (suc j) h = get_elem?-ge_length xs j (omega arith)

pub get_elem?-overwrite_above :
    (d : Bytes) (l : ℕ) (seg : Bytes) (j : ℕ)
    → l + length seg ≤ j
    → get_elem? (overwrite d l seg) j ≡ get_elem? d j
unfolding overwrite
get_elem?-overwrite_above d zero [] j h = refl
get_elem?-overwrite_above [] zero (y ∷ ys) j h = get_elem?-ge_length (y ∷ ys) j (omega arith)
get_elem?-overwrite_above (x ∷ xs) zero (y ∷ ys) zero h = absurd (omega arith)
get_elem?-overwrite_above (x ∷ xs) zero (y ∷ ys) (suc j) h =
    get_elem?-overwrite_above xs zero ys j (omega arith)
get_elem?-overwrite_above [] (suc l) seg zero h = absurd (omega arith)
get_elem?-overwrite_above [] (suc l) seg (suc j) h =
    get_elem?-overwrite_above [] l seg j (omega arith)
get_elem?-overwrite_above (x ∷ xs) (suc l) seg zero h = absurd (omega arith)
get_elem?-overwrite_above (x ∷ xs) (suc l) seg (suc j) h =
    get_elem?-overwrite_above xs l seg j (omega arith)

pub length-overwrite : (d : Bytes) (l : ℕ) (seg : Bytes) → length d ≤ length (overwrite d l seg)
unfolding overwrite
length-overwrite d zero [] = omega arith
length-overwrite [] zero (y ∷ ys) = omega arith
length-overwrite (x ∷ xs) zero (y ∷ ys) = omega (arith, length-overwrite xs zero ys)
length-overwrite [] (suc l) seg = omega arith
length-overwrite (x ∷ xs) (suc l) seg = omega (arith, length-overwrite xs l seg)

pub file_at-set_self :
    (files : List FileHandle) (k : ℕ) (fh : FileHandle)
    → k < length files
    → file_at (set files k fh) k ≡ fh
file_at-set_self [] k fh h = elim h [ ]
file_at-set_self (x ∷ xs) zero fh h = refl
file_at-set_self (x ∷ xs) (suc k) fh h = file_at-set_self xs k fh (omega arith)

pub file_at-set_ne :
    (files : List FileHandle) (k j : ℕ) (fh : FileHandle)
    → k ≢ j
    → file_at (set files k fh) j ≡ file_at files j
file_at-set_ne [] k j fh h = refl
file_at-set_ne (x ∷ xs) zero zero fh h = absurd (h refl)
file_at-set_ne (x ∷ xs) zero (suc j) fh h = refl
file_at-set_ne (x ∷ xs) (suc k) zero fh h = refl
file_at-set_ne (x ∷ xs) (suc k) (suc j) fh h = file_at-set_ne xs k j fh (λ e. h (ap suc e))
