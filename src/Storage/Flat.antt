-- ===== src/Storage/Flat.antt =====
-- `storage_write` as a whole: it writes the flat space, and it succeeds where the files and the C
-- library allow it.
use pipensx_video_downloader.Prelude.{
  ℕ, zero, suc, ◌+◌, ◌-◌, ◌≤◌, ◌<◌, ◌≡◌, refl, sym, ap, ◌∙◌, Bool, true, false, inl, inr, List, [],
  ◌∷◌, none, some, Bytes, Bool-cases, Option-cases, length, take, drop, arith, length-take,
  length-drop, take-append-drop,
}
use mathlib.Core.Path.{subst}
use pipensx_video_downloader.Storage.{
  StorageFileMode, storage_file_disk, storage_file_sink, storage_file_skip, FileHandle, Storage, Io,
  file_at, find_file, write_disk, deliver, write_sink, write_segment, room, write_loop,
  storage_write,
}
use pipensx_video_downloader.Storage.Locate.{Laid, Owns, find_file_iff}
use pipensx_video_downloader.Storage.Write.{SameShapes, Presized, Written, unchanged}
use pipensx_video_downloader.Storage.Segments.{
  Laid-same, Owns-same, Written-append, write_segment-Written,
}

-- The part of the data that the file at `at` takes, and what is done with it.
abbrev segment : Storage → ℕ × ℕ → Bytes → Bytes
segment s at bs = take (room s.files at) bs

abbrev after : Io → Storage → ℕ × ℕ → Bytes → Storage × Bool
after io s at bs = write_segment io (file_at s.files at.0).mode s at.0 at.1 (segment s at bs)

module _ (io : Io) (fuel : ℕ) (s : Storage) (pos c : ℕ) (cs : Bytes) where
  loop_none : find_file s.files pos ≡ none → (write_loop io (suc fuel) s pos (c ∷ cs)).1 ≡ false
  unfolding write_loop
  loop_none e = rw (e, write_loop)

  loop_stop :
      (at : ℕ × ℕ)
      → find_file s.files pos ≡ some at
      → (after io s at (c ∷ cs)).1 ≡ false
      → (write_loop io (suc fuel) s pos (c ∷ cs)).1 ≡ false
  unfolding write_loop
  loop_stop at e h = rw (e, write_loop) (rw (h, write_loop))

  loop_more :
      (at : ℕ × ℕ)
      → find_file s.files pos ≡ some at
      → (after io s at (c ∷ cs)).1 ≡ true
      → write_loop io (suc fuel) s pos (c ∷ cs)
        ≡ write_loop io fuel
            (after io s at (c ∷ cs)).0
            (pos + length (segment s at (c ∷ cs)))
            (drop (room s.files at) (c ∷ cs))
  unfolding write_loop
  loop_more at e h = rw (e, write_loop) (rw (h, write_loop))

-- The segment at `pos` stays in its file.
segment_fits :
    (s : Storage) (at : ℕ × ℕ) (pos : ℕ) (bs : Bytes)
    → Owns s.files at.0 at.1 pos
    → at.1 + length (segment s at bs) ≤ (file_at s.files at.0).length
segment_fits s at pos bs o = omega (arith, o.in_file, length-take (room s.files at) bs)

write_loop-Written :
    (io : Io) (fuel : ℕ) (s : Storage) (pos : ℕ) (rest : Bytes)
    → Laid s.files
    → Presized s.files
    → (write_loop io fuel s pos rest).1 ≡ true
    → Written s (write_loop io fuel s pos rest).0 pos rest
write_loop-Written io zero s pos rest laid p h = unfold write_loop in cc h
write_loop-Written io (suc fuel) s pos [] laid p h =
    unfold write_loop in unchanged pos [] refl p (λ k l x o i xi lt. absurd (omega arith))
write_loop-Written io (suc fuel) s pos (c ∷ cs) laid p h =
    elim (Option-cases (find_file s.files pos)) [
      | inl e ↦ cc (loop_none io fuel s pos c cs e)
      | inr (at, e) ↦ elim (Bool-cases (after io s at (c ∷ cs)).1) [
        | inr stop ↦ cc (loop_stop io fuel s pos c cs at e stop)
        | inl more ↦
            let o = (find_file_iff s.files pos at.0 at.1 laid).0 e in
            let seg = segment s at (c ∷ cs) in
            let step = loop_more io fuel s pos c cs at e more in
            let w =
              write_segment-Written io s at.0 at.1 seg laid p o.in_files
                (segment_fits s at pos (c ∷ cs) o) (file_at s.files at.0).mode refl more in
            let w' = subst (λ (x : ℕ). Written s (after io s at (c ∷ cs)).0 x seg) o.at_offset w in
            let rest = drop (room s.files at) (c ∷ cs) in
            let v =
              write_loop-Written io fuel (after io s at (c ∷ cs)).0 (pos + length seg) rest
                (Laid-same w.shapes laid) w.presized (ap (λ r. r.1) (sym step) ∙ h) in
            rw step (
              subst
                (λ (x : Bytes).
                  Written s
                    (write_loop io fuel (after io s at (c ∷ cs)).0 (pos + length seg) rest).0 pos x)
                (take-append-drop (room s.files at) (c ∷ cs)) (Written-append pos seg rest w' v))
      ]
    ]

-- Over files that are laid out in order without overlap, the ordinary ones already as long as
-- their entries say, a successful storage_write puts the data at its offset of the flat space in
-- the ordinary files and changes no other byte, offset, length or mode.
pub storage_write-Written :
    (io : Io) (s : Storage) (offset : ℕ) (bs : Bytes)
    → Laid s.files
    → Presized s.files
    → (storage_write io s offset bs).1 ≡ true
    → Written s (storage_write io s offset bs).0 offset bs
unfolding storage_write
storage_write-Written io s offset bs laid p h =
    write_loop-Written io (suc (length bs)) s offset bs laid p h

-- The C library carries every call out, and the sinks take what they are given.
pub record IsReliable (io : Io) : Type 0 where
  pub seeks_ok : (k l : ℕ) → io.seeks k l ≡ true
  pub writes_ok : (k l n : ℕ) → io.writes k l n ≡ n
  pub reads_ok : (k l n : ℕ) → io.reads k l n ≡ n
  pub flushes_ok : (k : ℕ) → io.flushes k ≡ true
  pub sinks_ok : (k l : ℕ) (bs : Bytes) → io.sinks k l bs ≡ true

-- The file's handle or sink is there.
abbrev pub usable : FileHandle → Bool
usable fh = elim fh.mode [
  | storage_file_disk ↦ fh.opened
  | storage_file_sink ↦ fh.has_sink
  | storage_file_skip ↦ true
]

abbrev pub AllUsable : List FileHandle → Type 0
AllUsable files = (k : ℕ) → k < length files → usable (file_at files k) ≡ true

-- Every byte of the range lies in a file.
pub record Cell (files : List FileHandle) (x : ℕ) : Type 0 where
  pub file : ℕ
  pub place : ℕ
  pub owns : Owns files file place x

abbrev pub Covered : List FileHandle → ℕ → ℕ → Type 0
Covered files off n = (i : ℕ) → i < n → Cell files (off + i)

pub AllUsable-same : {fs gs : List FileHandle} → SameShapes fs gs → AllUsable fs → AllUsable gs
AllUsable-same same u k h =
    ap (λ (f : FileHandle). usable f) (same.each k) ∙ u k (omega (arith, same.count))

Covered-same :
    {fs gs : List FileHandle} (off n m : ℕ)
    → SameShapes fs gs
    → Covered fs off (n + m)
    → Covered gs (off + n) m
Covered-same {fs} {gs} off n m same c i h =
    let cell = c (n + i) (omega arith) in
    record {
      file = cell.file;
      place = cell.place;
      owns =
          subst (λ (x : ℕ). Owns gs cell.file cell.place x) (omega arith)
            (Owns-same same cell.owns);
    }

write_segment_ok :
    (io : Io) (m : StorageFileMode) (s : Storage) (k l : ℕ) (seg : Bytes)
    → IsReliable io
    → (file_at s.files k).mode ≡ m
    → usable (file_at s.files k) ≡ true
    → (write_segment io m s k l seg).1 ≡ true
unfolding write_segment write_sink write_disk deliver
write_segment_ok io storage_file_skip s k l seg r e u = refl
write_segment_ok io storage_file_sink s k l seg r e u =
    let ready = (file_at s.files k).ready_bytes in
    ground (arith, r.sinks_ok k l seg, r.sinks_ok k (l + (ready - l)) (drop (ready - l) seg))
write_segment_ok io storage_file_disk s k l seg r e u =
    ground (arith, r.seeks_ok k l, r.writes_ok k l (length seg))

write_loop_ok :
    (io : Io) (fuel : ℕ) (s : Storage) (pos : ℕ) (rest : Bytes)
    → IsReliable io
    → Laid s.files
    → Presized s.files
    → AllUsable s.files
    → Covered s.files pos (length rest)
    → length rest < fuel
    → (write_loop io fuel s pos rest).1 ≡ true
write_loop_ok io zero s pos rest r laid p u c lt = absurd (omega arith)
write_loop_ok io (suc fuel) s pos [] r laid p u c lt = unfold write_loop in refl
write_loop_ok io (suc fuel) s pos (c ∷ cs) r laid p u cov lt =
    let cell = cov 0 (omega arith) in
    let o : Owns s.files cell.file cell.place pos =
      subst (λ (x : ℕ). Owns s.files cell.file cell.place x) (omega arith) cell.owns in
    let at : ℕ × ℕ = (cell.file, cell.place) in
    let seg = segment s at (c ∷ cs) in
    let rest = drop (room s.files at) (c ∷ cs) in
    let split : length seg + length rest ≡ length (c ∷ cs) =
      omega
        (arith, length-take (room s.files at) (c ∷ cs), length-drop (room s.files at) (c ∷ cs)) in
    let more =
      write_segment_ok io (file_at s.files at.0).mode s at.0 at.1 seg r refl (u at.0 o.in_files) in
    let w =
      write_segment-Written io s at.0 at.1 seg laid p o.in_files (segment_fits s at pos (c ∷ cs) o)
        (file_at s.files at.0).mode refl more in
    let cov' = subst (λ (n : ℕ). Covered s.files pos n) (sym split) cov in
    rw (loop_more io fuel s pos c cs at ((find_file_iff s.files pos at.0 at.1 laid).1 o) more) (
      write_loop_ok io fuel (after io s at (c ∷ cs)).0 (pos + length seg) rest r
        (Laid-same w.shapes laid) w.presized (AllUsable-same w.shapes u)
        (Covered-same pos (length seg) (length rest) w.shapes cov')
        (omega (arith, split, o.in_file, length-take (room s.files at) (c ∷ cs))))

-- storage_write succeeds where the files are laid out in order without overlap, the ordinary ones
-- already as long as their entries say, every file of the storage has its handle or its sink (or
-- is a skipped one), every byte of the range lies in a file, and no outside call fails or falls
-- short.
pub storage_write_ok :
    (io : Io) (s : Storage) (offset : ℕ) (bs : Bytes)
    → IsReliable io
    → Laid s.files
    → Presized s.files
    → AllUsable s.files
    → Covered s.files offset (length bs)
    → (storage_write io s offset bs).1 ≡ true
unfolding storage_write
storage_write_ok io s offset bs r laid p u c =
    write_loop_ok io (suc (length bs)) s offset bs r laid p u c (omega arith)
