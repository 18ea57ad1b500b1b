-- ===== src/Storage/Read.antt =====
-- `storage_read`: what it returns, and that it reads back what `storage_write` wrote.
use pipensx_video_downloader.Prelude.{
  ℕ, zero, suc, ◌+◌, ◌-◌, ◌≤◌, ◌<◌, min, ◌≡◌, refl, sym, ap, ◌∙◌, true, List, [], ◌∷◌, ◌++◌, some,
  Bytes, length, take, drop, get_elem?, arith, ℤ, to_int, length-append, length-take, length-drop,
}
use pipensx_video_downloader.Prelude.Errors.{>>=-eq-some}
use native.Mathlib.Nat.{zero-add, suc-add}
use native.Mathlib.Decide.{dec_lt}
use mathlib.Core.Path.{subst}
use pipensx_video_downloader.Storage.{
  storage_file_disk, FileHandle, Storage, Io, file_at, find_file, read_segment, room, read_loop,
  storage_read, storage_write,
}
use pipensx_video_downloader.Storage.Locate.{Laid, Owns, find_file_iff, Owns-add}
use pipensx_video_downloader.Storage.Write.{SameShapes, Presized, Owns-unique}
use pipensx_video_downloader.Storage.Segments.{
  Laid-same, Owns-same, get_elem?-append_left, get_elem?-append_right, mode_same,
}
use pipensx_video_downloader.Storage.Flat.{
  IsReliable, Covered, storage_write-Written, storage_write_ok, AllUsable, AllUsable-same,
}

-- Every byte of the range lies in an ordinary file.
abbrev pub OnDisk : List FileHandle → ℕ → ℕ → Type 0
OnDisk files off n =
    (k l x : ℕ)
    → Owns files k l x
    → off ≤ x
    → x < off + n
    → (file_at files k).mode ≡ storage_file_disk

-- `got` is what the files hold from `pos` on.
pub record Holds (files : List FileHandle) (pos : ℕ) (got : Bytes) : Type 0 where
  pub content :
      (k l i : ℕ)
      → Owns files k l (pos + i)
      → i < length got
      → get_elem? (file_at files k).bytes l ≡ get_elem? got i

get_elem?-take-drop :
    (n l i : ℕ) (d : Bytes) → i < n → get_elem? (take n (drop l d)) i ≡ get_elem? d (l + i)
get_elem?-take-drop zero l i d h = elim h [ ]
get_elem?-take-drop (suc n) zero i [] h = refl
get_elem?-take-drop (suc n) zero zero (x ∷ d) h = refl
get_elem?-take-drop (suc n) zero (suc i) (x ∷ d) h =
    rw zero-add (rw (zero-add i) at (get_elem?-take-drop n zero i d (omega arith)))
get_elem?-take-drop (suc n) (suc l) i [] h = refl
get_elem?-take-drop (suc n) (suc l) i (x ∷ d) h = rw suc-add (get_elem?-take-drop (suc n) l i d h)

take_short :
    (m n : ℕ) (xs : Bytes) → length (take m (take n xs)) ≡ n → take m (take n xs) ≡ take n xs
take_short m n xs h =
    take_whole m (take n xs) (omega (arith, length-take m (take n xs), length-take n xs))
  where
    take_whole : (m : ℕ) (ys : Bytes) → length ys ≤ m → take m ys ≡ ys
    take_whole zero [] h = refl
    take_whole zero (y ∷ ys) h = elim h [ ]
    take_whole (suc m) [] h = refl
    take_whole (suc m) (y ∷ ys) h = ap (◌∷◌ y) (take_whole m ys (omega arith))

read_segment_got :
    (io : Io) (fh : FileHandle) (k l n : ℕ) {got : Bytes}
    → read_segment io fh k l n ≡ some got
    → (got ≡ take n (drop l fh.bytes)) × (length got ≡ n)
unfolding read_segment
read_segment_got io fh k l n {got} h =
    let e : (got ≡ take (io.reads k l n) (take n (drop l fh.bytes))) × (length got ≡ n) =
      ground arith in
    (e.0 ∙ take_short (io.reads k l n) n (drop l fh.bytes) (rw e.0 at e.1), e.1)

module _ {files : List FileHandle} (laid : Laid files) where
  segment_Holds :
      (k l pos n : ℕ) {seg : Bytes}
      → Owns files k l pos
      → l + n ≤ (file_at files k).length
      → seg ≡ take n (drop l (file_at files k).bytes)
      → length seg ≡ n
      → Holds files pos seg
  segment_Holds k l pos n {seg} o fits e len = record {
    content = λ k' l' i o' h.
        let lt : i < n = omega arith in
        let here = Owns-add files k l pos i o (omega arith) in
        let same = Owns-unique files k (l + i) k' l' (pos + i) laid here o' in
        rw (same.0, same.1)
          (sym (get_elem?-take-drop n l i (file_at files k).bytes lt)
            ∙ ap (λ (x : Bytes). get_elem? x i) (sym e));
  }

  Holds-append :
      (pos n : ℕ) (xs ys : Bytes)
      → length xs ≡ n
      → Holds files pos xs
      → Holds files (pos + n) ys
      → Holds files pos (xs ++ ys)
  Holds-append pos n xs ys e hx hy = record {
    content = λ k l i o h. elim (dec_lt i n) [
      | yes lt ↦
          hx.content k l i o (omega arith) ∙ sym (get_elem?-append_left xs ys i (omega arith))
      | no ge ↦
          let o' =
            subst (λ (x : ℕ). Owns files k l x) {x = pos + i} {y = pos + n + (i - n)} (omega arith)
              o in
          hy.content k l (i - n) o' (omega (arith, length-append xs ys))
          ∙ sym (get_elem?-append_right xs ys (i - n))
          ∙ ap (λ (m : ℕ). get_elem? (xs ++ ys) m) (omega arith)
    ];
  }

  pub read_loop-Holds :
      (io : Io) (fuel pos want : ℕ) {got : Bytes}
      → read_loop io fuel files pos want ≡ some got
      → Holds files pos got × (length got ≡ want)
  unfolding read_loop
  read_loop-Holds io zero pos want h = cc
  read_loop-Holds io (suc fuel) pos zero {got} h =
      let e : got ≡ [] = ground arith in rw e (record { content = λ k l i o lt. elim lt [ ] }, refl)
  read_loop-Holds io (suc fuel) pos (suc want) {got} h =
      let (at, ha, h1) = >>=-eq-some (find_file files pos) _ h in
      let n = min (room files at) (suc want) in
      let (seg, hs, h2) = >>=-eq-some (read_segment io (file_at files at.0) at.0 at.1 n) _ h1 in
      let (more, hm, h3) = >>=-eq-some (read_loop io fuel files (pos + n) (suc want - n)) _ h2 in
      let o = (find_file_iff files pos at.0 at.1 laid).0 ha in
      let g = read_segment_got io (file_at files at.0) at.0 at.1 n hs in
      let r = read_loop-Holds io fuel (pos + n) (suc want - n) hm in
      let e : got ≡ seg ++ more = ground arith in
      rw e (
        Holds-append pos n seg more g.1
            (segment_Holds at.0 at.1 pos n o (omega (arith, o.in_file)) g.0 g.1) r.0,
        omega (arith, length-append seg more, g.1, r.1),
      )

read_segment_ok :
    (io : Io) (fh : FileHandle) (k l n : ℕ)
    → IsReliable io
    → fh.mode ≡ storage_file_disk
    → fh.opened ≡ true
    → l + n ≤ length fh.bytes
    → (got : Bytes) × (read_segment io fh k l n ≡ some got)
unfolding read_segment
read_segment_ok io fh k l n r m o h = (
  take (io.reads k l n) (take n (drop l fh.bytes)),
  ground (
    arith,
    r.seeks_ok k l,
    r.reads_ok k l n,
    length-take (io.reads k l n) (take n (drop l fh.bytes)),
    length-take n (drop l fh.bytes),
    length-drop l fh.bytes,
  ),
)

read_loop_more :
    (io : Io) (fuel : ℕ) (files : List FileHandle) (pos want : ℕ) (at : ℕ × ℕ) {seg more : Bytes}
    → find_file files pos ≡ some at
    → read_segment io (file_at files at.0) at.0 at.1 (min (room files at) (suc want)) ≡ some seg
    → read_loop io fuel files
        (pos + min (room files at) (suc want))
        (suc want - min (room files at) (suc want))
      ≡ some more
    → read_loop io (suc fuel) files pos (suc want) ≡ some (seg ++ more)
unfolding read_loop
read_loop_more io fuel files pos want at e h g = rw (e, h, g)

read_loop_ok :
    (io : Io) (fuel : ℕ) (files : List FileHandle) (pos want : ℕ)
    → IsReliable io
    → Laid files
    → Presized files
    → AllUsable files
    → Covered files pos want
    → OnDisk files pos want
    → want < fuel
    → (got : Bytes) × (read_loop io fuel files pos want ≡ some got)
read_loop_ok io zero files pos want r laid p u c d lt = absurd (omega arith)
read_loop_ok io (suc fuel) files pos zero r laid p u c d lt = ([], unfold read_loop in refl)
read_loop_ok io (suc fuel) files pos (suc want) r laid p u c d lt =
    let cell = c 0 (omega arith) in
    let o : Owns files cell.file cell.place pos =
      subst (λ (x : ℕ). Owns files cell.file cell.place x) (omega arith) cell.owns in
    let at : ℕ × ℕ = (cell.file, cell.place) in
    let n = min (room files at) (suc want) in
    let m = d cell.file cell.place pos o (omega arith) (omega arith) in
    let fits : cell.place + n ≤ length (file_at files cell.file).bytes =
      omega (arith, o.in_file, p cell.file o.in_files m) in
    let (seg, hs) =
      read_segment_ok io (file_at files at.0) at.0 at.1 n r m (ground (arith, u at.0 o.in_files))
        fits in
    let shorter : suc want - n < fuel = omega (arith, o.in_file) in
    let split : n + (suc want - n) ≡ suc want = omega arith in
    let (more, hm) =
      read_loop_ok io fuel files (pos + n) (suc want - n) r laid p u
        (λ i h.
          let cl = c (n + i) (omega arith) in
          record {
            file = cl.file;
            place = cl.place;
            owns = subst (λ (x : ℕ). Owns files cl.file cl.place x) (omega arith) cl.owns;
          })
        (λ k l x ow a b. d k l x ow (omega arith) (omega arith)) shorter in
    (
      seg ++ more,
      read_loop_more io fuel files pos want at ((find_file_iff files pos at.0 at.1 laid).1 o) hs hm,
    )

get_elem?_ext :
    (xs ys : Bytes)
    → length xs ≡ length ys
    → ((i : ℕ) → i < length xs → get_elem? xs i ≡ get_elem? ys i)
    → xs ≡ ys
get_elem?_ext [] [] e h = refl
get_elem?_ext [] (y ∷ ys) e h = absurd (omega arith)
get_elem?_ext (x ∷ xs) [] e h = absurd (omega arith)
get_elem?_ext (x ∷ xs) (y ∷ ys) e h =
    let first = h 0 (omega arith) in
    let rest = get_elem?_ext xs ys (omega arith) (λ i lt. h (suc i) (omega arith)) in
    cc (first, rest)

-- What a storage_read that does not fail has read, and its count.
storage_read_got :
    (io : Io) (s : Storage) (offset len : ℕ) {n : ℤ} {got : Bytes}
    → storage_read io s offset len ≡ some (n, got)
    → (read_loop io (suc len) s.files offset len ≡ some got) × (n ≡ to_int (length got))
unfolding storage_read
storage_read_got io s offset len {n} {got} h =
    let (bs, hb, e) = >>=-eq-some (read_loop io (suc len) s.files offset len) _ h in
    let eb : bs ≡ got = cc e in (hb ∙ ap some eb, cc (e, eb))

-- Over files that are laid out in order without overlap, a storage_read that does not fail has
-- read as many bytes as asked for, each of them what the owning file holds, and returns their
-- number converted to an int: its low 32 bits as a signed number.
pub storage_read-Holds :
    (io : Io) (s : Storage) (offset len : ℕ) {n : ℤ} {got : Bytes}
    → Laid s.files
    → storage_read io s offset len ≡ some (n, got)
    → Holds s.files offset got × (length got ≡ len) × (n ≡ to_int len)
storage_read-Holds io s offset len laid h =
    let (read, count) = storage_read_got io s offset len h in
    let (holds, size) = read_loop-Holds laid io (suc len) offset len read in
    (holds, size, count ∙ ap to_int size)

storage_read_done :
    (io : Io) (s : Storage) (offset len : ℕ) {got : Bytes}
    → read_loop io (suc len) s.files offset len ≡ some got
    → storage_read io s offset len ≡ some (to_int (length got), got)
unfolding storage_read
storage_read_done io s offset len h = rw h refl

SameShapes-sym : {fs gs : List FileHandle} → SameShapes fs gs → SameShapes gs fs
SameShapes-sym same = record { count = sym same.count; each = λ k. sym (same.each k) }

-- Over files that are laid out in order, presized and usable, with calls that do not fail, a write
-- of a covered range of ordinary files succeeds and reading the range gives the data back, across
-- file boundaries, and their number converted to an int.
pub storage_read-write :
    (io : Io) (s : Storage) (offset : ℕ) (bs : Bytes)
    → IsReliable io
    → Laid s.files
    → Presized s.files
    → AllUsable s.files
    → Covered s.files offset (length bs)
    → OnDisk s.files offset (length bs)
    → ((storage_write io s offset bs).1 ≡ true)
      × (storage_read io (storage_write io s offset bs).0 offset (length bs)
          ≡ some (to_int (length bs), bs))
storage_read-write io s offset bs r laid p u c d =
    let ok = storage_write_ok io s offset bs r laid p u c in
    let w = storage_write-Written io s offset bs laid p ok in
    let s' = (storage_write io s offset bs).0 in
    let laid' = Laid-same w.shapes laid in
    let c' : Covered s'.files offset (length bs) = λ i h.
      let cl = c i h in
      record { file = cl.file; place = cl.place; owns = Owns-same w.shapes cl.owns } in
    let back = SameShapes-sym w.shapes in
    let d' : OnDisk s'.files offset (length bs) =
      λ k l x o a b. mode_same w.shapes k ∙ d k l x (Owns-same back o) a b in
    let (got, hg) =
      read_loop_ok io (suc (length bs)) s'.files offset (length bs) r laid' w.presized
        (AllUsable-same w.shapes u) c' d' (omega arith) in
    let (holds, size) = read_loop-Holds laid' io (suc (length bs)) offset (length bs) hg in
    let same : got ≡ bs = get_elem?_ext got bs size (λ i h.
      let cl = c i (omega arith) in
      let m = d cl.file cl.place (offset + i) cl.owns (omega arith) (omega arith) in
      sym (holds.content cl.file cl.place i (Owns-same w.shapes cl.owns) h)
      ∙ w.inside cl.file cl.place (offset + i) cl.owns m i refl (omega arith)) in
    (ok, storage_read_done io s' offset (length bs) (hg ∙ ap some same))
