-- ===== src/Storage/Write.antt =====
-- `storage_write` on the flat space: what a successful call leaves in the files.
use pipensx_video_downloader.Prelude.{
  ℕ, ◌+◌, ◌≤◌, ◌<◌, ◌≡◌, ◌≢◌, ap, ◌∙◌, ◌⊎◌, inl, inr, List, [], Option, Bytes, length, get_elem?,
  arith, length-set,
}
use native.Mathlib.Decide.{ℕ_discrete}
use pipensx_video_downloader.Storage.{
  storage_file_disk, FileHandle, Storage, file_at, overwrite, set_bytes,
}
use pipensx_video_downloader.Storage.Locate.{Laid, Owns, find_file_iff}
use pipensx_video_downloader.Storage.Overwrite.{
  get_elem?-overwrite_in, get_elem?-overwrite_below, get_elem?-overwrite_above, length-overwrite,
  file_at-set_self, file_at-set_ne,
}

-- A handle without its content: what no write changes.
abbrev pub shape : FileHandle → FileHandle
shape fh = record fh { bytes = [] }

pub record SameShapes (fs gs : List FileHandle) : Type 0 where
  pub count : length gs ≡ length fs
  pub each : (k : ℕ) → shape (file_at gs k) ≡ shape (file_at fs k)

-- An ordinary file holds all of its bytes: `open_disk_file` extends a new file to its length.
abbrev pub Presized : List FileHandle → Type 0
Presized fs =
    (k : ℕ)
    → k < length fs
    → (file_at fs k).mode ≡ storage_file_disk
    → (file_at fs k).length ≤ length (file_at fs k).bytes

-- The content of the byte `l` of file `k`.
abbrev pub byte_at : Storage → ℕ → ℕ → Option ℕ
byte_at s k l = get_elem? (file_at s.files k).bytes l

-- `s'` is `s` with `bs` written at `off`: in the ordinary files, and nowhere else.
pub record Written (s s' : Storage) (off : ℕ) (bs : Bytes) : Type 0 where
  pub shapes : SameShapes s.files s'.files
  pub presized : Presized s'.files
  pub inside :
      (k l x : ℕ)
      → Owns s.files k l x
      → (file_at s.files k).mode ≡ storage_file_disk
      → (i : ℕ) → x ≡ off + i
      → i < length bs
      → byte_at s' k l ≡ get_elem? bs i
  pub outside :
      (k l x : ℕ)
      → Owns s.files k l x
      → (x < off) ⊎ (off + length bs ≤ x)
      → byte_at s' k l ≡ byte_at s k l
  pub other_modes :
      (k l : ℕ) → (file_at s.files k).mode ≢ storage_file_disk → byte_at s' k l ≡ byte_at s k l

-- Nothing of the files changes.
pub unchanged :
    {s s' : Storage} (off : ℕ) (bs : Bytes)
    → s'.files ≡ s.files
    → Presized s.files
    → ((k l x : ℕ)
        → Owns s.files k l x
        → (i : ℕ) → x ≡ off + i
        → i < length bs
        → (file_at s.files k).mode ≢ storage_file_disk)
    → Written s s' off bs
unchanged {s} {s'} off bs e p others = record {
  shapes = record { count = ap length e; each = λ k. ap (λ f. shape (file_at f k)) e };
  presized = rw e p;
  inside = λ k l x o m i xi h. absurd (others k l x o i xi h m);
  outside = λ k l x o h. ap (λ (f : List FileHandle). get_elem? (file_at f k).bytes l) e;
  other_modes = λ k l h. ap (λ (f : List FileHandle). get_elem? (file_at f k).bytes l) e;
}

pub Owns-unique :
    (files : List FileHandle) (k l k' l' x : ℕ)
    → Laid files
    → Owns files k l x
    → Owns files k' l' x
    → (k' ≡ k) × (l' ≡ l)
Owns-unique files k l k' l' x laid o o' =
    let a = (find_file_iff files x k l laid).1 o in
    let b = (find_file_iff files x k' l' laid).1 o' in (ground arith, ground arith)

-- One ordinary file gets `seg` at its offset `l`.
module _ (s : Storage) (k l : ℕ) (seg : Bytes) (laid : Laid s.files) (p : Presized s.files)
    (kn : k < length s.files) (fits : l + length seg ≤ (file_at s.files k).length)
    (disk : (file_at s.files k).mode ≡ storage_file_disk) where
  unfoldable pub new_bytes : Bytes
  new_bytes = overwrite (file_at s.files k).bytes l seg

  unfoldable pub new_state : Storage
  unfolding new_bytes
  new_state = set_bytes s k new_bytes

  new_file : file_at new_state.files k ≡ record (file_at s.files k) { bytes = new_bytes }
  unfolding new_state
  new_file = file_at-set_self s.files k _ kn

  other_file : (j : ℕ) → k ≢ j → file_at new_state.files j ≡ file_at s.files j
  unfolding new_state
  other_file j ne = file_at-set_ne s.files k j _ ne

  new_length : length new_state.files ≡ length s.files
  unfolding new_state
  new_length = length-set s.files k _

  -- The bytes of the file itself.
  new_byte : (j : ℕ) → byte_at new_state k j ≡ get_elem? new_bytes j
  new_byte j = ap (λ (f : FileHandle). get_elem? f.bytes j) new_file

  new_inside : (i : ℕ) → i < length seg → byte_at new_state k (l + i) ≡ get_elem? seg i
  unfolding new_bytes
  new_inside i h = new_byte (l + i) ∙ get_elem?-overwrite_in _ l seg i h

  new_outside : (j : ℕ) → (j < l) ⊎ (l + length seg ≤ j) → byte_at new_state k j ≡ byte_at s k j
  unfolding new_bytes
  new_outside j (inl h) =
      new_byte j ∙ get_elem?-overwrite_below _ l seg j h (omega (arith, p k kn disk))
  new_outside j (inr h) = new_byte j ∙ get_elem?-overwrite_above _ l seg j h

  new_presized : (file_at new_state.files k).length ≤ length (file_at new_state.files k).bytes
  unfolding new_bytes
  new_presized =
      rw new_file (omega (arith, p k kn disk, length-overwrite (file_at s.files k).bytes l seg))

  pub set_bytes-Written : Written s new_state ((file_at s.files k).offset + l) seg
  set_bytes-Written = record {
    shapes = record {
      count = new_length;
      each = λ j. elim (ℕ_discrete k j) [
        | yes e ↦ rw (← e) (ap shape new_file)
        | no ne ↦ ap shape (other_file j ne)
      ];
    };
    presized = λ j jn m. elim (ℕ_discrete k j) [
      | yes e ↦ rw (← e) new_presized
      | no ne ↦ rw (other_file j ne) (p j (omega (arith, new_length)) (rw (other_file j ne) at m))
    ];
    inside = λ k' l' x o m i xi h.
        let here : Owns s.files k (l + i) x = record {
          in_files = kn;
          at_offset = omega arith;
          in_file = omega arith;
        } in
        let same = Owns-unique s.files k (l + i) k' l' x laid here o in
        rw (same.0, same.1) (new_inside i h);
    outside = λ k' l' x o h. elim (ℕ_discrete k k') [
      | yes e ↦
          let at : (file_at s.files k).offset + l' ≡ x = rw e o.at_offset in
          rw (← e) (new_outside l' (omega arith))
      | no ne ↦ ap (λ (f : FileHandle). get_elem? f.bytes l') (other_file k' ne)
    ];
    other_modes = λ k' l' h. elim (ℕ_discrete k k') [
      | yes e ↦ absurd (h (rw e at disk))
      | no ne ↦ ap (λ (f : FileHandle). get_elem? f.bytes l') (other_file k' ne)
    ];
  }
