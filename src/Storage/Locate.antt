-- ===== src/Storage/Locate.antt =====
-- `find_file`: the binary search finds the one file that owns a byte of the flat space.
use pipensx_video_downloader.Prelude.{
  ℕ, zero, suc, ◌+◌, ◌-◌, ◌/◌, ◌≤◌, ◌<◌, ◌≡◌, ◌↔◌, inl, inr, List, some, ltb, leb, Bool-cases,
  ltb→lt, leb→le, length, arith,
}
use native.Mathlib.Decide.{dec_lt}
use mathlib.Core.Path.{subst}
use pipensx_video_downloader.Storage.{FileHandle, file_at, search_files, owner, find_file}

-- The files stand in ascending order, and no two overlap: what the metainfo's running sum gives.
abbrev pub Laid : List FileHandle → Type 0
Laid files =
    (i j : ℕ)
    → i < j
    → j < length files
    → (file_at files i).offset + (file_at files i).length ≤ (file_at files j).offset

-- Byte `x` of the flat space is byte `l` of file `k`.
pub record Owns (files : List FileHandle) (k l x : ℕ) : Type 0 where
  pub in_files : k < length files
  pub at_offset : (file_at files k).offset + l ≡ x
  pub in_file : l < (file_at files k).length

-- `r` splits the files into those that start at or before `off` and those behind it.
record Splits (files : List FileHandle) (off lo hi : ℕ) : Type 0 where
  below : (i : ℕ) → i < lo → (file_at files i).offset ≤ off
  above : (i : ℕ) → hi ≤ i → i < length files → off < (file_at files i).offset
  ordered : lo ≤ hi
  inside : hi ≤ length files

offset_mono :
    (files : List FileHandle) (i j : ℕ)
    → Laid files
    → i ≤ j
    → j < length files
    → (file_at files i).offset ≤ (file_at files j).offset
offset_mono files i j laid h l = elim (dec_lt i j) [
  | yes lt ↦ omega (arith, laid i j lt l)
  | no ge ↦ let e : i ≡ j = omega arith in rw e (omega arith)
]

module _ {files : List FileHandle} {off lo hi : ℕ} (laid : Laid files)
    (s : Splits files off lo hi) where
  step_up : (mid : ℕ) → mid < hi → (file_at files mid).offset ≤ off → Splits files off (mid + 1) hi
  step_up mid m le = record {
    below = λ i (b : i < mid + 1).
        let below_mid = offset_mono files i mid laid (omega arith) (omega (arith, s.inside)) in
        omega (arith, below_mid);
    above = s.above;
    ordered = omega arith;
    inside = s.inside;
  }

  step_down :
      (mid : ℕ) → lo ≤ mid → mid < hi → off < (file_at files mid).offset → Splits files off lo mid
  step_down mid l m gt = record {
    below = s.below;
    above = λ i (b : mid ≤ i) (c : i < length files).
        let above_mid = offset_mono files mid i laid b c in omega (arith, above_mid);
    ordered = l;
    inside = omega (arith, s.inside);
  }

  step_done : hi ≤ lo → Splits files off lo lo
  step_done le = record {
    below = s.below;
    above = λ i (b : lo ≤ i) c. s.above i (omega arith) c;
    ordered = omega arith;
    inside = omega (arith, s.ordered, s.inside);
  }

search_files-Splits :
    (files : List FileHandle) (off fuel lo hi : ℕ)
    → Laid files
    → hi - lo ≤ fuel
    → Splits files off lo hi
    → Splits files off (search_files files off fuel lo hi) (search_files files off fuel lo hi)
unfolding search_files
search_files-Splits files off zero lo hi laid f s = step_done laid s (omega (arith, s.ordered))
search_files-Splits files off (suc fuel) lo hi laid f s =
    let mid = lo + (hi - lo) / 2 in
    elim (Bool-cases (ltb lo hi)) [
      | inr done ↦ rw (done, search_files) (step_done laid s (ground arith))
      | inl more ↦
          let lt = ltb→lt lo hi more in
          elim (Bool-cases (leb (file_at files mid).offset off)) [
            | inl le ↦
                rw (more, search_files)
                  (rw (le, search_files)
                    (search_files-Splits files off fuel (mid + 1) hi laid (omega arith)
                      (step_up laid s mid (omega arith) (leb→le _ _ le))))
            | inr gt ↦
                rw (more, search_files)
                  (rw (gt, search_files)
                    (search_files-Splits files off fuel lo mid laid (omega arith)
                      (step_down laid s mid (omega arith) (omega arith) (ground arith))))
          ]
    ]

-- The files before position `r` start at or before `off`, and no other does.
record FirstAbove (files : List FileHandle) (off r : ℕ) : Type 0 where
  below : (i : ℕ) → i < r → (file_at files i).offset ≤ off
  above : (i : ℕ) → r ≤ i → i < length files → off < (file_at files i).offset
  inside : r ≤ length files

owner-Owns :
    (files : List FileHandle) (off r : ℕ) {k l : ℕ}
    → FirstAbove files off r
    → owner files off r ≡ some (k, l)
    → Owns files k l off
unfolding owner
owner-Owns files off zero s h = cc
owner-Owns files off (suc r) {k} {l} s h =
    let e : k ≡ r = ground arith in
    let b = s.below r (omega arith) in
    rw e
      (record { in_files = s.inside; at_offset = ground (arith, b); in_file = ground (arith, b) })

-- The owner is the last file that starts at or before the byte.
owner_unique :
    (files : List FileHandle) (off r k l : ℕ)
    → Laid files
    → FirstAbove files off (suc r)
    → Owns files k l off
    → k ≡ r
owner_unique files off r k l laid s o = elim (dec_lt k r) [
  | yes lt ↦
      absurd (omega (arith, o.at_offset, o.in_file, laid k r lt s.inside, s.below r (omega arith)))
  | no ge ↦ elim (dec_lt r k) [
    | yes gt ↦ absurd (omega (arith, o.at_offset, s.above k gt o.in_files))
    | no le ↦ omega arith
  ]
]

Owns-owner :
    (files : List FileHandle) (off r k l : ℕ)
    → Laid files
    → FirstAbove files off r
    → Owns files k l off
    → owner files off r ≡ some (k, l)
unfolding owner
Owns-owner files off zero k l laid s o =
    absurd (omega (arith, o.at_offset, s.above k (omega arith) o.in_files))
Owns-owner files off (suc r) k l laid s o =
    let e = owner_unique files off r k l laid s o in
    let o' = subst (λ (x : ℕ). Owns files x l off) e o in
    rw e (ground (arith, o'.at_offset, o'.in_file))

found :
    (files : List FileHandle) (off : ℕ)
    → Laid files
    → FirstAbove files off (search_files files off (length files) 0 (length files))
found files off laid =
    let s =
      search_files-Splits files off (length files) 0 (length files) laid (omega arith) (record {
        below = λ i (b : i < 0). absurd (omega arith);
        above = λ i (b : length files ≤ i) (c : i < length files). absurd (omega arith);
        ordered = omega arith;
        inside = omega arith;
      }) in
    record { below = s.below; above = s.above; inside = s.inside }

-- On files laid out in order the binary search answers (k, l) exactly when byte off of the flat
-- space is byte l of file k.
pub find_file_iff :
    (files : List FileHandle) (off k l : ℕ)
    → Laid files
    → (find_file files off ≡ some (k, l)) ↔ Owns files k l off
unfolding find_file
find_file_iff files off k l laid = (
  owner-Owns files off _ (found files off laid),
  Owns-owner files off _ k l laid (found files off laid),
)

-- The bytes behind one that a file owns are the file's too, up to its end.
pub Owns-add :
    (files : List FileHandle) (k l x n : ℕ)
    → Owns files k l x
    → l + n < (file_at files k).length
    → Owns files k (l + n) (x + n)
Owns-add files k l x n o h = record {
  in_files = o.in_files;
  at_offset = omega (arith, o.at_offset);
  in_file = h;
}
