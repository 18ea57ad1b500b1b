-- ===== src/Storage/Segments.antt =====
-- The loop of `storage_write`: segment after segment, a successful call has written all of its data.
use pipensx_video_downloader.Prelude.{
  ℕ, zero, suc, ◌+◌, ◌-◌, ◌≤◌, ◌<◌, ◌≡◌, ◌≢◌, refl, sym, ap, ◌∙◌, true, inl, List, [], ◌∷◌, ◌++◌,
  Bytes, ◌==◌, length, take, drop, get_elem?, arith, length-append,
}
use native.Mathlib.Nat.{zero-add, suc-add}
use native.Mathlib.Decide.{dec_lt}
use pipensx_video_downloader.Storage.{
  StorageFileMode, storage_file_disk, storage_file_sink, storage_file_skip, FileHandle, Storage, Io,
  file_at, overwrite, set_bytes, write_disk, deliver, write_sink, write_segment,
}
use pipensx_video_downloader.Storage.Locate.{Laid, Owns}
use pipensx_video_downloader.Storage.Write.{
  SameShapes, Presized, Written, unchanged, Owns-unique, new_bytes, new_state, set_bytes-Written,
}

module _ {fs gs : List FileHandle} (same : SameShapes fs gs) where
  offset_same : (k : ℕ) → (file_at gs k).offset ≡ (file_at fs k).offset
  offset_same k = ap (λ (f : FileHandle). f.offset) (same.each k)

  pub length_same : (k : ℕ) → (file_at gs k).length ≡ (file_at fs k).length
  length_same k = ap (λ (f : FileHandle). f.length) (same.each k)

  pub mode_same : (k : ℕ) → (file_at gs k).mode ≡ (file_at fs k).mode
  mode_same k = ap (λ (f : FileHandle). f.mode) (same.each k)

  pub Laid-same : Laid fs → Laid gs
  Laid-same laid i j h l =
      omega
        (arith, laid i j h (omega (arith, same.count)), offset_same i, offset_same j, length_same i)

  pub Owns-same : {k l x : ℕ} → Owns fs k l x → Owns gs k l x
  Owns-same {k} o = record {
    in_files = omega (arith, o.in_files, same.count);
    at_offset = omega (arith, o.at_offset, offset_same k);
    in_file = omega (arith, o.in_file, length_same k);
  }

pub take-length : (xs : Bytes) → take (length xs) xs ≡ xs
take-length [] = refl
take-length (x ∷ xs) = ap (◌∷◌ x) (take-length xs)

pub get_elem?-append_left :
    (xs ys : Bytes) (i : ℕ) → i < length xs → get_elem? (xs ++ ys) i ≡ get_elem? xs i
get_elem?-append_left [] ys i h = elim h [ ]
get_elem?-append_left (x ∷ xs) ys zero h = refl
get_elem?-append_left (x ∷ xs) ys (suc i) h = get_elem?-append_left xs ys i (omega arith)

pub get_elem?-append_right :
    (xs ys : Bytes) (i : ℕ) → get_elem? (xs ++ ys) (length xs + i) ≡ get_elem? ys i
get_elem?-append_right [] ys i = rw zero-add
get_elem?-append_right (x ∷ xs) ys i = rw suc-add (get_elem?-append_right xs ys i)

-- What is written in two parts is written whole.
pub Written-append :
    {s s1 s2 : Storage} (off : ℕ) (xs ys : Bytes)
    → Written s s1 off xs
    → Written s1 s2 (off + length xs) ys
    → Written s s2 off (xs ++ ys)
Written-append {s} {s1} {s2} off xs ys w v = record {
  shapes = record {
    count = v.shapes.count ∙ w.shapes.count;
    each = λ k. v.shapes.each k ∙ w.shapes.each k;
  };
  presized = v.presized;
  inside = λ k l x o m i xi h. elim (dec_lt i (length xs)) [
    | yes lt ↦
        v.outside k l x (Owns-same w.shapes o) (inl (omega arith))
        ∙ w.inside k l x o m i xi lt
        ∙ sym (get_elem?-append_left xs ys i lt)
    | no ge ↦
        v.inside k l x (Owns-same w.shapes o) (mode_same w.shapes k ∙ m) (i - length xs)
          (omega arith) (omega (arith, length-append xs ys))
        ∙ sym (get_elem?-append_right xs ys (i - length xs))
        ∙ ap (λ (n : ℕ). get_elem? (xs ++ ys) n) (omega arith)
  ];
  outside = λ k l x o h.
      v.outside k l x (Owns-same w.shapes o) (omega (arith, length-append xs ys))
      ∙ w.outside k l x o (omega (arith, length-append xs ys));
  other_modes =
      λ k l h. v.other_modes k l (λ e. h (sym (mode_same w.shapes k) ∙ e)) ∙ w.other_modes k l h;
}

module _ (io : Io) (s : Storage) (k l : ℕ) (seg : Bytes) (laid : Laid s.files)
    (p : Presized s.files) (kn : k < length s.files)
    (fits : l + length seg ≤ (file_at s.files k).length) where
  deliver-files : (q : ℕ) (src : Bytes) → (deliver io s k q src).0.files ≡ s.files
  unfolding deliver
  deliver-files q src = ground arith

  write_sink-files : (write_sink io s k l seg).0.files ≡ s.files
  unfolding write_sink
  write_sink-files = ground (
    arith,
    deliver-files (l + ((file_at s.files k).ready_bytes - l))
        (drop ((file_at s.files k).ready_bytes - l) seg),
    deliver-files l seg,
  )

  take_all : (w : ℕ) → (w == length seg) ≡ true → take w seg ≡ seg
  take_all w e = let e' : w ≡ length seg = ground arith in rw e' (take-length seg)

  write_disk_done :
      (write_disk io s k l seg).1 ≡ true
      → (write_disk io s k l seg).0 ≡ set_bytes s k (overwrite (file_at s.files k).bytes l seg)
  unfolding write_disk
  write_disk_done h = ground (arith, take_all (io.writes k l (length seg)))

  -- No byte of the segment lies in another file.
  only_here :
      (m : StorageFileMode)
      → (file_at s.files k).mode ≡ m
      → m ≢ storage_file_disk
      → (k' l' x : ℕ) → Owns s.files k' l' x
      → (i : ℕ) → x ≡ (file_at s.files k).offset + l + i
      → i < length seg
      → (file_at s.files k').mode ≢ storage_file_disk
  only_here m e ne k' l' x o i xi h =
      let here : Owns s.files k (l + i) x = record {
        in_files = kn;
        at_offset = omega arith;
        in_file = omega arith;
      } in
      rw (Owns-unique s.files k (l + i) k' l' x laid here o).0 (λ d. ne (sym e ∙ d))

  pub write_segment-Written :
      (m : StorageFileMode)
      → (file_at s.files k).mode ≡ m
      → (write_segment io m s k l seg).1 ≡ true
      → Written s (write_segment io m s k l seg).0 ((file_at s.files k).offset + l) seg
  unfolding write_segment
  write_segment-Written storage_file_skip e h =
      unchanged _ seg refl p (only_here storage_file_skip e (λ x. cc))
  write_segment-Written storage_file_sink e h =
      unchanged _ seg write_sink-files p (only_here storage_file_sink e (λ x. cc))
  write_segment-Written storage_file_disk e h =
      rw (write_disk_done h)
        (unfold new_state in unfold new_bytes in set_bytes-Written s k l seg laid p kn fits e)
