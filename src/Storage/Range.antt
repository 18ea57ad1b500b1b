-- ===== src/Storage/Range.antt =====
-- The range queries: a segment-wise scan answers a question about every byte of the range.
use pipensx_video_downloader.Prelude.{
  ℕ, zero, suc, ◌+◌, ◌-◌, ◌<◌, min, ◌≡◌, ◌↔◌, refl, Bool, true, ◌⊎◌, inl, inr, List, some,
  Option-cases, arith,
}
use native.Mathlib.Decide.{dec_lt}
use mathlib.Core.Path.{subst, subst₂}
use pipensx_video_downloader.Storage.{
  StorageFileMode, storage_file_disk, storage_file_sink, storage_file_skip, FileHandle, Storage,
  file_at, find_file, room, mode_eq, range_loop, range_has_mode, storage_range_readable,
  segment_skipped, storage_range_skipped,
}
use pipensx_video_downloader.Storage.Locate.{Laid, Owns, find_file_iff, Owns-add}
use pipensx_video_downloader.Storage.Write.{Owns-unique}

-- Byte `x` of the flat space lies in a file, at a place with the property `P`.
pub record HoldsAt (P : FileHandle → ℕ → Type 0) (files : List FileHandle) (x : ℕ) : Type 0 where
  pub file : ℕ
  pub place : ℕ
  pub owns : Owns files file place x
  pub holds : P (file_at files file) place

abbrev pub AllHold : (FileHandle → ℕ → Type 0) → List FileHandle → ℕ → ℕ → Type 0
AllHold P files off n = (i : ℕ) → i < n → HoldsAt P files (off + i)

-- A test of a segment that asks `P` of each of its bytes.
pub record Tests (P : FileHandle → ℕ → Type 0) (test : FileHandle → ℕ → ℕ → Bool) : Type 0 where
  pub sound : (fh : FileHandle) (l n i : ℕ) → test fh l n ≡ true → i < n → P fh (l + i)
  pub complete :
      (fh : FileHandle) (l n : ℕ) → 0 < n → ((i : ℕ) → i < n → P fh (l + i)) → test fh l n ≡ true

module _ (P : FileHandle → ℕ → Type 0) (test : FileHandle → ℕ → ℕ → Bool) (t : Tests P test)
    (files : List FileHandle) (laid : Laid files) where
  range_sound :
      (fuel pos want : ℕ) → range_loop test fuel files pos want ≡ true → AllHold P files pos want
  unfolding range_loop
  range_sound zero pos want h = λ i lt. cc h
  range_sound (suc fuel) pos zero h = λ i lt. elim lt [ ]
  range_sound (suc fuel) pos (suc want) h = elim (Option-cases (find_file files pos)) [
    | inl e ↦ λ i lt. cc (rw (e, range_loop) at h)
    | inr (at, e) ↦
        let n = min (room files at) (suc want) in
        let parts : (test (file_at files at.0) at.1 n ≡ true)
            × (range_loop test fuel files (pos + n) (suc want - n) ≡ true) =
          ground arith in
        let o = (find_file_iff files pos at.0 at.1 laid).0 e in
        let rest = range_sound fuel (pos + n) (suc want - n) parts.1 in
        λ i lt. elim (dec_lt i n) [
          | yes here ↦ record {
            file = at.0;
            place = at.1 + i;
            owns = Owns-add files at.0 at.1 pos i o (omega (arith, o.in_file));
            holds = t.sound (file_at files at.0) at.1 n i parts.0 here;
          }
          | no there ↦
              subst (λ (x : ℕ). HoldsAt P files x) {x = pos + n + (i - n)} {y = pos + i}
                (omega arith) (rest (i - n) (omega arith))
        ]
  ]

  range_step :
      (fuel pos want : ℕ) (at : ℕ × ℕ)
      → find_file files pos ≡ some at
      → test (file_at files at.0) at.1 (min (room files at) (suc want)) ≡ true
      → range_loop test (suc fuel) files pos (suc want)
        ≡ range_loop test fuel files
            (pos + min (room files at) (suc want))
            (suc want - min (room files at) (suc want))
  unfolding range_loop
  range_step fuel pos want at e h = rw (e, range_loop) (rw (h, range_loop))

  range_complete :
      (fuel pos want : ℕ)
      → want < fuel
      → AllHold P files pos want
      → range_loop test fuel files pos want ≡ true
  range_complete zero pos want lt c = absurd (omega arith)
  range_complete (suc fuel) pos zero lt c = unfold range_loop in refl
  range_complete (suc fuel) pos (suc want) lt c =
      let first = c 0 (omega arith) in
      let o : Owns files first.file first.place pos =
        subst (λ (x : ℕ). Owns files first.file first.place x) (omega arith) first.owns in
      let at : ℕ × ℕ = (first.file, first.place) in
      let n = min (room files at) (suc want) in
      let pass = t.complete (file_at files at.0) at.1 n (omega (arith, o.in_file)) (λ i h.
        let cell = c i (omega arith) in
        let same =
          Owns-unique files at.0 (at.1 + i) cell.file cell.place (pos + i) laid
            (Owns-add files at.0 at.1 pos i o (omega (arith, o.in_file))) cell.owns in
        subst₂ (λ (k l : ℕ). P (file_at files k) l) same.0 same.1 cell.holds) in
      rw (range_step fuel pos want at ((find_file_iff files pos at.0 at.1 laid).1 o) pass) (
        range_complete fuel (pos + n) (suc want - n) (omega (arith, o.in_file)) (λ i h.
          let cell = c (n + i) (omega arith) in
          record {
            file = cell.file;
            place = cell.place;
            owns = subst (λ (x : ℕ). Owns files cell.file cell.place x) (omega arith) cell.owns;
            holds = cell.holds;
          }))

mode_eq_iff : (a b : StorageFileMode) → (mode_eq a b ≡ true) ↔ (a ≡ b)
unfolding mode_eq
mode_eq_iff storage_file_disk storage_file_disk = ground arith
mode_eq_iff _ _ = ground arith

mode_Tests : (m : StorageFileMode) → Tests (λ fh l. fh.mode ≡ m) (λ fh l n. mode_eq fh.mode m)
mode_Tests m = record {
  sound = λ fh l n i h lt. (mode_eq_iff fh.mode m).0 h;
  complete = λ fh l n pos h. (mode_eq_iff fh.mode m).1 (h 0 pos);
}

-- A byte that is processed already: in a skipped file, or in the prefix that a sink has consumed.
abbrev pub Processed : FileHandle → ℕ → Type 0
Processed fh l =
    (fh.mode ≡ storage_file_skip) ⊎ ((fh.mode ≡ storage_file_sink) × (l < fh.ready_bytes))

skipped_Tests : Tests Processed segment_skipped
unfolding segment_skipped
skipped_Tests = record {
  sound = λ fh l n i h lt. ground arith;
  complete = λ fh l n pos h. ground (arith, h 0, h (n - 1));
}

-- Over files that are laid out in order without overlap, a range is readable exactly when each of
-- its bytes lies in an ordinary file.
pub storage_range_readable_iff :
    (s : Storage) (offset len : ℕ)
    → Laid s.files
    → (storage_range_readable s offset len ≡ true)
      ↔ AllHold (λ fh l. fh.mode ≡ storage_file_disk) s.files offset len
unfolding storage_range_readable range_has_mode
storage_range_readable_iff s offset len laid = (
  range_sound _ _ (mode_Tests storage_file_disk) s.files laid (suc len) offset len,
  range_complete _ _ (mode_Tests storage_file_disk) s.files laid (suc len) offset len (omega arith),
)

-- Over files that are laid out in order without overlap, a range counts as skipped exactly when
-- each of its bytes lies in a skipped file or in the prefix that a sink has consumed.
pub storage_range_skipped_iff :
    (s : Storage) (offset len : ℕ)
    → Laid s.files
    → (storage_range_skipped s offset len ≡ true) ↔ AllHold Processed s.files offset len
unfolding storage_range_skipped
storage_range_skipped_iff s offset len laid = (
  range_sound _ _ skipped_Tests s.files laid (suc len) offset len,
  range_complete _ _ skipped_Tests s.files laid (suc len) offset len (omega arith),
)
