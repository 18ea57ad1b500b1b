-- ===== src/Tests/Files.antt =====
-- core/platform_storage.c on three files: two ordinary ones and one that streams to a sink.
use pipensx_video_downloader.Prelude.{
  ℕ, zero, suc, ◌≡◌, ◌↔◌, refl, true, false, List, [], ◌∷◌, none, some, Bytes, length, arith, pos,
  negsuc, to_int, ◌-◌, ◌^◌,
}
use pipensx_video_downloader.Storage.{
  storage_file_disk, storage_file_sink, FileHandle, Storage, Io, find_file, storage_write,
  storage_read, storage_range_readable, storage_range_skipped, search_files, owner, write_loop,
  write_segment, write_disk, overwrite, read_loop, read_segment, range_loop, segment_skipped,
}
use pipensx_video_downloader.Storage.Locate.{Laid, Owns, find_file_iff}
use pipensx_video_downloader.Storage.Write.{Presized, Written}
use pipensx_video_downloader.Storage.Flat.{
  IsReliable, AllUsable, Covered, storage_write-Written, storage_write_ok,
}
use pipensx_video_downloader.Storage.Read.{Holds, OnDisk, storage_read-Holds, storage_read-write}
use pipensx_video_downloader.Storage.Range.{
  AllHold, Processed, storage_range_readable_iff, storage_range_skipped_iff,
}

abbrev disk : ℕ → Bytes → FileHandle
disk offset bs = record {
  offset = offset;
  length = length bs;
  mode = storage_file_disk;
  ready_bytes = 0;
  has_sink = false;
  opened = true;
  bytes = bs;
}

abbrev three : List FileHandle
three =
    disk 0 (0 ∷ 0 ∷ 0 ∷ [])
    ∷ disk 3 (0 ∷ 0 ∷ [])
    ∷ record {
      offset = 5;
      length = 4;
      mode = storage_file_sink;
      ready_bytes = 2;
      has_sink = true;
      opened = false;
      bytes = [];
    }
    ∷ []

abbrev store : Storage
store = record { files = three; delivered = []; error = none }

abbrev good : Io
good = record {
  seeks = λ k l. true;
  writes = λ k l n. n;
  reads = λ k l n. n;
  flushes = λ k. true;
  sinks = λ k l bs. true;
}

good-IsReliable : IsReliable good
good-IsReliable = record {
  seeks_ok = λ k l. refl;
  writes_ok = λ k l n. refl;
  reads_ok = λ k l n. refl;
  flushes_ok = λ k. refl;
  sinks_ok = λ k l bs. refl;
}

three-Laid : Laid three
three-Laid zero (suc zero) h l = omega arith
three-Laid zero (suc (suc zero)) h l = omega arith
three-Laid (suc zero) (suc (suc zero)) h l = omega arith
three-Laid zero zero h l = elim h [ ]
three-Laid (suc zero) zero h l = elim h [ ]
three-Laid (suc (suc i)) zero h l = elim h [ ]
three-Laid (suc zero) (suc zero) h l = absurd (omega arith)
three-Laid (suc (suc i)) (suc zero) h l = absurd (omega arith)
three-Laid (suc (suc i)) (suc (suc zero)) h l = absurd (omega arith)
three-Laid i (suc (suc (suc j))) h l = absurd (omega arith)

three-Presized : Presized three
three-Presized zero h m = omega arith
three-Presized (suc zero) h m = omega arith
three-Presized (suc (suc zero)) h m = cc m
three-Presized (suc (suc (suc k))) h m = absurd (omega arith)

three-AllUsable : AllUsable three
three-AllUsable zero h = refl
three-AllUsable (suc zero) h = refl
three-AllUsable (suc (suc zero)) h = refl
three-AllUsable (suc (suc (suc k))) h = absurd (omega arith)

-- The range of bytes 1 to 4.
middle-Covered : Covered three 1 4
middle-Covered zero h = record {
  file = 0;
  place = 1;
  owns = record { in_files = omega arith; at_offset = refl; in_file = omega arith };
}
middle-Covered (suc zero) h = record {
  file = 0;
  place = 2;
  owns = record { in_files = omega arith; at_offset = refl; in_file = omega arith };
}
middle-Covered (suc (suc zero)) h = record {
  file = 1;
  place = 0;
  owns = record { in_files = omega arith; at_offset = refl; in_file = omega arith };
}
middle-Covered (suc (suc (suc zero))) h = record {
  file = 1;
  place = 1;
  owns = record { in_files = omega arith; at_offset = refl; in_file = omega arith };
}
middle-Covered (suc (suc (suc (suc i)))) h = absurd (omega arith)

middle-OnDisk : OnDisk three 1 4
middle-OnDisk zero l x o a b = refl
middle-OnDisk (suc zero) l x o a b = refl
middle-OnDisk (suc (suc zero)) l x o a b = absurd (omega (arith, o.at_offset))
middle-OnDisk (suc (suc (suc k))) l x o a b = absurd (omega (arith, o.in_files))

abbrev news : Bytes
news = 7 ∷ 8 ∷ 9 ∷ 10 ∷ []

write_news : (storage_write good store 1 news).1 ≡ true
unfolding storage_write write_loop find_file search_files owner write_segment write_disk overwrite
write_news = refl

read_store : storage_read good store 2 3 ≡ some (pos 3, 0 ∷ 0 ∷ 0 ∷ [])
unfolding storage_read read_loop find_file search_files owner read_segment
read_store = refl

-- The sink's consumed prefix counts as processed, and only it.
skipped_prefix :
    (storage_range_skipped store 5 2 ≡ true) × (storage_range_skipped store 5 3 ≡ false)
unfolding storage_range_skipped range_loop find_file search_files owner segment_skipped
skipped_prefix = (refl, refl)

find_file_iff_example : (find_file three 6 ≡ some (2, 1)) ↔ Owns three 2 1 6
find_file_iff_example = find_file_iff three 6 2 1 three-Laid

storage_write-Written_example : Written store (storage_write good store 1 news).0 1 news
storage_write-Written_example =
    storage_write-Written good store 1 news three-Laid three-Presized write_news

storage_write_ok_example : (storage_write good store 1 news).1 ≡ true
storage_write_ok_example =
    storage_write_ok good store 1 news good-IsReliable three-Laid three-Presized three-AllUsable
      middle-Covered

-- A count of 2 ^ 31 bytes would read as a negative one.
wide_count : to_int (2 ^ 31) ≡ negsuc (2 ^ 31 - 1)
wide_count = refl

storage_read-Holds_example :
    Holds three 2 (0 ∷ 0 ∷ 0 ∷ []) × (length {A = ℕ} (0 ∷ 0 ∷ 0 ∷ []) ≡ 3) × (pos 3 ≡ to_int 3)
storage_read-Holds_example = storage_read-Holds good store 2 3 three-Laid read_store

storage_read-write_example :
    ((storage_write good store 1 news).1 ≡ true)
    × (storage_read good (storage_write good store 1 news).0 1 4 ≡ some (pos 4, news))
storage_read-write_example =
    storage_read-write good store 1 news good-IsReliable three-Laid three-Presized three-AllUsable
      middle-Covered middle-OnDisk

storage_range_readable_iff_example :
    (storage_range_readable store 2 2 ≡ true)
    ↔ AllHold (λ fh l. fh.mode ≡ storage_file_disk) three 2 2
storage_range_readable_iff_example = storage_range_readable_iff store 2 2 three-Laid

storage_range_skipped_iff_example :
    (storage_range_skipped store 5 2 ≡ true) ↔ AllHold Processed three 5 2
storage_range_skipped_iff_example = storage_range_skipped_iff store 5 2 three-Laid
