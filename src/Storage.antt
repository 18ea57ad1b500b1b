-- ===== src/Storage.antt =====
-- core/platform_storage.c behind platform/storage.h: the torrent's flat byte space over its files.
-- An open file is the list of its bytes. What the C library and the installer's sink answer to a
-- call comes from an `Io`.
pub mod Locate
pub mod Open
mod Overwrite
pub mod Write
pub mod Segments
pub mod Flat
pub mod Read
pub mod Range
use pipensx_video_downloader.Prelude.{
  ℕ, zero, suc, ◌+◌, ◌-◌, ◌*◌, ◌/◌, ◌%◌, ◌^◌, ◌≤◌, ◌<◌, min, bit_and, bit_or, bit_xor, ◌≡◌, ◌≢◌,
  ◌↔◌, refl, sym, ap, ◌∙◌, Bool, true, false, not, ◌&&◌, ◌||◌, ◌⊎◌, inl, inr, List, [], ◌∷◌, ◌++◌,
  map, Option, none, some, Bytes, ltb, leb, ◌==◌, ==_iff, if◌then◌else◌, Bool-cases, Option-cases,
  length, take, drop, get_elem?, get_or, set, replicate, arith, length-append, length-set,
  length-replicate, length-take, length-drop, ℤ, to_int, signed,
}
use pipensx_video_downloader.Prelude.Errors.{◌>>=◌, ◌>>◌, guard, >>=-eq-some}

pub data StorageFileMode : Type 0 where
  storage_file_disk storage_file_sink storage_file_skip : StorageFileMode

-- `struct file_handle`, with the fields of its `config`; `bytes` is the content behind `fp`.
pub record FileHandle : Type 0 where
  pub offset : ℕ
  pub length : ℕ
  pub mode : StorageFileMode
  pub ready_bytes : ℕ
  pub has_sink : Bool
  pub opened : Bool
  pub bytes : Bytes

-- One call of the sink: the file, the offset in it, and the data.
pub record Delivery : Type 0 where
  pub file_index : ℕ
  pub file_offset : ℕ
  pub payload : Bytes

-- `struct storage`; `delivered` is what the sinks took, and `error` the file that a message names.
pub record Storage : Type 0 where
  pub files : List FileHandle
  pub delivered : List Delivery
  pub error : Option ℕ

-- Whether a seek succeeds, how many bytes a write or a read transfers, whether a flush succeeds, and
-- whether the sink takes a delivery, each at a file.
pub record Io : Type 0 where
  pub seeks : ℕ → ℕ → Bool
  pub writes : ℕ → ℕ → ℕ → ℕ
  pub reads : ℕ → ℕ → ℕ → ℕ
  pub flushes : ℕ → Bool
  pub sinks : ℕ → ℕ → Bytes → Bool

abbrev pub no_file : FileHandle
no_file = record {
  offset = 0;
  length = 0;
  mode = storage_file_disk;
  ready_bytes = 0;
  has_sink = false;
  opened = false;
  bytes = [];
}

-- `s->files[k]`
abbrev pub file_at : List FileHandle → ℕ → FileHandle
file_at files k = get_or files k no_file

-- The loop of `find_file`, on the rounds that `hi - lo` allows.
unfoldable pub search_files : List FileHandle → ℕ → ℕ → ℕ → ℕ → ℕ
search_files files off zero lo hi = lo
search_files files off (suc fuel) lo hi =
    let mid = lo + (hi - lo) / 2 in
    elim (ltb lo hi) [
      | false ↦ lo
      | true ↦ elim (leb (file_at files mid).offset off) [
        | true ↦ search_files files off fuel (mid + 1) hi
        | false ↦ search_files files off fuel lo mid
      ]
    ]

-- The index of the owning file and the offset in it, from the `lo` that the loop ends with.
unfoldable pub owner : List FileHandle → ℕ → ℕ → Option (ℕ × ℕ)
owner files off zero = none
owner files off (suc k) =
    let fh = file_at files k in
    if leb (fh.offset + fh.length) off then none else some (k, off - fh.offset)

unfoldable pub find_file : List FileHandle → ℕ → Option (ℕ × ℕ)
find_file files off = owner files off (search_files files off (length files) 0 (length files))

-- `fwrite` at a position: a gap in front of it reads as zeros.
unfoldable pub overwrite : Bytes → ℕ → Bytes → Bytes
overwrite bs zero [] = bs
overwrite [] zero (y ∷ ys) = y ∷ ys
overwrite (x ∷ xs) zero (y ∷ ys) = y ∷ overwrite xs zero ys
overwrite [] (suc l) ys = 0 ∷ overwrite [] l ys
overwrite (x ∷ xs) (suc l) ys = x ∷ overwrite xs l ys

abbrev pub set_bytes : Storage → ℕ → Bytes → Storage
set_bytes s k bs = record s { files = set s.files k (record (file_at s.files k) { bytes = bs }) }

-- The branch of an ordinary file.
unfoldable pub write_disk : Io → Storage → ℕ → ℕ → Bytes → Storage × Bool
write_disk io s k l seg =
    let fh = file_at s.files k in
    let w = io.writes k l (length seg) in
    if not fh.opened || not (io.seeks k l)
    then (s, false)
    else (set_bytes s k (overwrite fh.bytes l (take w seg)), w == length seg)

-- `fh->config.sink(...)`, with the message of a rejection.
unfoldable pub deliver : Io → Storage → ℕ → ℕ → Bytes → Storage × Bool
deliver io s k l src =
    if (file_at s.files k).has_sink && io.sinks k l src
    then (
      record s {
        delivered = s.delivered ++ (record { file_index = k; file_offset = l; payload = src } ∷ []);
      },
      true,
    )
    else (record s { error = elim s.error [ none ↦ some k | some e ↦ some e ] }, false)

-- The branch of a file that streams to a sink: the prefix below `ready_bytes` is dropped.
unfoldable pub write_sink : Io → Storage → ℕ → ℕ → Bytes → Storage × Bool
write_sink io s k l seg =
    let ready = (file_at s.files k).ready_bytes in
    if ltb l ready
    then if leb (length seg) (ready - l)
      then (s, true)
      else deliver io s k (l + (ready - l)) (drop (ready - l) seg)
    else deliver io s k l seg

unfoldable pub write_segment : Io → StorageFileMode → Storage → ℕ → ℕ → Bytes → Storage × Bool
write_segment io storage_file_skip s k l seg = (s, true)
write_segment io storage_file_sink s k l seg = write_sink io s k l seg
write_segment io storage_file_disk s k l seg = write_disk io s k l seg

-- The bytes of a segment that the file at (k, l) takes.
abbrev pub room : List FileHandle → ℕ × ℕ → ℕ
room files at = (file_at files at.0).length - at.1

-- `while (written < len)`: `pos` is `offset + written`, and the list is what is left of the data.
unfoldable pub write_loop : Io → ℕ → Storage → ℕ → Bytes → Storage × Bool
write_loop io zero s pos rest = (s, false)
write_loop io (suc fuel) s pos [] = (s, true)
write_loop io (suc fuel) s pos (c ∷ cs) = elim (find_file s.files pos) [
  | none ↦ (s, false)
  | some at ↦
      let seg = take (room s.files at) (c ∷ cs) in
      let r = write_segment io (file_at s.files at.0).mode s at.0 at.1 seg in
      elim r.1 [
        | false ↦ (r.0, false)
        | true ↦ write_loop io fuel r.0 (pos + length seg) (drop (room s.files at) (c ∷ cs))
      ]
]

unfoldable pub storage_write : Io → Storage → ℕ → Bytes → Storage × Bool
storage_write io s offset bs = write_loop io (suc (length bs)) s offset bs

-- One `fread`; none where it is refused or short.
unfoldable pub read_segment : Io → FileHandle → ℕ → ℕ → ℕ → Option Bytes
read_segment io fh k l n =
    let got = take (io.reads k l n) (take n (drop l fh.bytes)) in
    elim fh.mode [
      | storage_file_disk ↦ if fh.opened && io.seeks k l && length got == n then some got else none
      | _ ↦ none
    ]

-- `while (done < len)`, on the bytes still wanted.
unfoldable pub read_loop : Io → ℕ → List FileHandle → ℕ → ℕ → Option Bytes
read_loop io zero files pos want = none
read_loop io (suc fuel) files pos zero = some []
read_loop io (suc fuel) files pos (suc want) = find_file files pos >>= λ at.
    let n = min (room files at) (suc want) in
    read_segment io (file_at files at.0) at.0 at.1 n >>= λ got.
    read_loop io fuel files (pos + n) (suc want - n) >>= λ more. some (got ++ more)

-- `(int)done` with the bytes read, or none for `return -1`.
unfoldable pub storage_read : Io → Storage → ℕ → ℕ → Option (ℤ × Bytes)
storage_read io s offset len =
    read_loop io (suc len) s.files offset len >>= λ got. some (to_int (length got), got)

unfoldable pub mode_eq : StorageFileMode → StorageFileMode → Bool
mode_eq storage_file_disk storage_file_disk = true
mode_eq storage_file_sink storage_file_sink = true
mode_eq storage_file_skip storage_file_skip = true
mode_eq _ _ = false

-- The loops of `range_has_mode` and `storage_range_skipped`, which differ in what a segment must
-- satisfy: a test on its file, its offset in the file and its length.
unfoldable pub range_loop : (FileHandle → ℕ → ℕ → Bool) → ℕ → List FileHandle → ℕ → ℕ → Bool
range_loop test zero files pos want = false
range_loop test (suc fuel) files pos zero = true
range_loop test (suc fuel) files pos (suc want) = elim (find_file files pos) [
  | none ↦ false
  | some at ↦
      let n = min (room files at) (suc want) in
      elim (test (file_at files at.0) at.1 n) [
        | false ↦ false
        | true ↦ range_loop test fuel files (pos + n) (suc want - n)
      ]
]

unfoldable pub range_has_mode : Storage → ℕ → ℕ → StorageFileMode → Bool
range_has_mode s offset len mode =
    range_loop (λ fh l n. mode_eq fh.mode mode) (suc len) s.files offset len

unfoldable pub storage_range_readable : Storage → ℕ → ℕ → Bool
storage_range_readable s offset len = range_has_mode s offset len storage_file_disk

-- What counts as processed already: a skipped file, or a part of the prefix that a sink consumed.
unfoldable pub segment_skipped : FileHandle → ℕ → ℕ → Bool
segment_skipped fh l n = elim fh.mode [
  | storage_file_skip ↦ true
  | storage_file_sink ↦ leb (l + n) fh.ready_bytes
  | storage_file_disk ↦ false
]

unfoldable pub storage_range_skipped : Storage → ℕ → ℕ → Bool
storage_range_skipped s offset len = range_loop segment_skipped (suc len) s.files offset len

-- `for (i = 0; i < num_files; i++)`: every ordinary file is open and takes the flush.
unfoldable pub flush_files : Io → ℕ → List FileHandle → Bool
flush_files io i [] = true
flush_files io i (fh ∷ fs) =
    let fails = mode_eq fh.mode storage_file_disk && (not fh.opened || not (io.flushes i)) in
    let rest = flush_files io (i + 1) fs in if fails then false else rest

unfoldable pub storage_flush : Io → Storage → Bool
storage_flush io s = flush_files io 0 s.files
