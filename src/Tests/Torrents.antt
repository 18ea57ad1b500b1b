-- ===== src/Tests/Torrents.antt =====
-- core/metainfo.c on a torrent of two files.
use pipensx_video_downloader.Prelude.{
  ℕ, ◌+◌, ◌-◌, ◌*◌, ◌≡◌, refl, true, false, [], ◌∷◌, ◌++◌, Option, none, some, Bytes, length, take,
  drop, replicate, arith,
}
use pipensx_video_downloader.Metainfo.{bad_component, scan_components, metainfo_path_is_safe}
use pipensx_video_downloader.Metainfo.Files.{
  Metainfo, MetaOps, c_string, strncpy_safe, items_from, list_items, within, file_length, join_path,
  file_path, parse_file, parse_files, parse_multi, parse_single, parse_layout, name_of, pieces_for,
}
use pipensx_video_downloader.Metainfo.Parse.{
  add_urls, add_tiers, listed_trackers, parse_trackers, parse_web_seeds, metainfo_parse,
}
use pipensx_video_downloader.Metainfo.Sound.{IsWellFormed, metainfo_parse-IsWellFormed}
use pipensx_video_downloader.Bencode.{
  expect, scan_digits, sign, parse_int, at_digit, parse_str, skip_list, skip_dict, be_skip,
  be_decode, at_end, be_dict_next, be_list_next, same_bytes, dict_find, be_dict_get,
}
use pipensx_video_downloader.Storage.{FileHandle}
use pipensx_video_downloader.Storage.Locate.{Laid}
use pipensx_video_downloader.Storage.Open.{
  open_files, storage_open_ex, config_of, storage_open_ex-Laid,
}
use pipensx_video_downloader.Piece.Create.{fresh}
use pipensx_video_downloader.Piece.KeepHash.{IsSound}
use pipensx_video_downloader.Piece.Parsed.{info_of, fresh-IsSound_parsed}
use pipensx_video_downloader.Sha1.{sha1}

abbrev ops : MetaOps
ops = record { malloc = λ n. true; garbage = replicate 64 170 }

-- {info: {files: [{length: 3, path: [a]}, {length: 2, path: [b]}], name: x, piece length: 4, pieces: 40 bytes}}
abbrev torrent : Bytes
torrent =
    b'd'
    ∷ b'4'
    ∷ b':'
    ∷ b'i'
    ∷ b'n'
    ∷ b'f'
    ∷ b'o'
    ∷ b'd'
    ∷ b'5'
    ∷ b':'
    ∷ b'f'
    ∷ b'i'
    ∷ b'l'
    ∷ b'e'
    ∷ b's'
    ∷ b'l'
    ∷ b'd'
    ∷ b'6'
    ∷ b':'
    ∷ b'l'
    ∷ b'e'
    ∷ b'n'
    ∷ b'g'
    ∷ b't'
    ∷ b'h'
    ∷ b'i'
    ∷ b'3'
    ∷ b'e'
    ∷ b'4'
    ∷ b':'
    ∷ b'p'
    ∷ b'a'
    ∷ b't'
    ∷ b'h'
    ∷ b'l'
    ∷ b'1'
    ∷ b':'
    ∷ b'a'
    ∷ b'e'
    ∷ b'e'
    ∷ b'd'
    ∷ b'6'
    ∷ b':'
    ∷ b'l'
    ∷ b'e'
    ∷ b'n'
    ∷ b'g'
    ∷ b't'
    ∷ b'h'
    ∷ b'i'
    ∷ b'2'
    ∷ b'e'
    ∷ b'4'
    ∷ b':'
    ∷ b'p'
    ∷ b'a'
    ∷ b't'
    ∷ b'h'
    ∷ b'l'
    ∷ b'1'
    ∷ b':'
    ∷ b'b'
    ∷ b'e'
    ∷ b'e'
    ∷ b'e'
    ∷ b'4'
    ∷ b':'
    ∷ b'n'
    ∷ b'a'
    ∷ b'm'
    ∷ b'e'
    ∷ b'1'
    ∷ b':'
    ∷ b'x'
    ∷ b'1'
    ∷ b'2'
    ∷ b':'
    ∷ b'p'
    ∷ b'i'
    ∷ b'e'
    ∷ b'c'
    ∷ b'e'
    ∷ b' '
    ∷ b'l'
    ∷ b'e'
    ∷ b'n'
    ∷ b'g'
    ∷ b't'
    ∷ b'h'
    ∷ b'i'
    ∷ b'4'
    ∷ b'e'
    ∷ b'6'
    ∷ b':'
    ∷ b'p'
    ∷ b'i'
    ∷ b'e'
    ∷ b'c'
    ∷ b'e'
    ∷ b's'
    ∷ b'4'
    ∷ b'0'
    ∷ b':'
    ∷ (replicate 40 17 ++ (b'e' ∷ b'e' ∷ []))

abbrev parsed : Metainfo
parsed = record {
  info_hash = sha1 ops.garbage (take (length torrent - 8) (drop 7 torrent));
  name = b'x' ∷ [];
  piece_length = 4;
  num_pieces = 2;
  piece_hashes = replicate 40 17;
  is_multi = true;
  total_length = 5;
  files =
      record { path = b'a' ∷ []; length = 3; offset = 0 }
      ∷ record { path = b'b' ∷ []; length = 2; offset = 3 }
      ∷ [];
  trackers = [];
  web_seeds = [];
}

metainfo_parse_runs : metainfo_parse ops torrent ≡ some parsed
unfolding bad_component scan_components metainfo_path_is_safe c_string strncpy_safe items_from
    list_items within file_length join_path file_path parse_file parse_files parse_multi
    parse_single parse_layout name_of pieces_for add_urls add_tiers listed_trackers parse_trackers
    parse_web_seeds metainfo_parse expect scan_digits sign parse_int at_digit parse_str skip_list
    skip_dict be_skip be_decode at_end be_dict_next be_list_next same_bytes dict_find be_dict_get
metainfo_parse_runs = refl

-- A terabyte and four bytes pass for one piece of four bytes: the count is cut to 32 bits.
pieces_for_wraps : pieces_for (4 * 4294967296 + 4) 4 ≡ 1
unfolding pieces_for
pieces_for_wraps = refl

metainfo_parse-IsWellFormed_example : IsWellFormed parsed
metainfo_parse-IsWellFormed_example = metainfo_parse-IsWellFormed ops torrent metainfo_parse_runs

abbrev handle : ℕ → ℕ → Bytes → FileHandle
handle offset len bs = record {
  offset = offset;
  length = len;
  mode = pipensx_video_downloader.Storage.storage_file_disk;
  ready_bytes = 0;
  has_sink = false;
  opened = true;
  bytes = bs;
}

abbrev contents : ℕ → Option Bytes
contents i = some (replicate 3 0)

opened :
    storage_open_ex true contents parsed none
    ≡ some (handle 0 3 (replicate 3 0) ∷ handle 3 2 (replicate 3 0) ∷ [])
unfolding open_files storage_open_ex config_of
opened = refl

storage_open_ex-Laid_example : Laid (handle 0 3 (replicate 3 0) ∷ handle 3 2 (replicate 3 0) ∷ [])
storage_open_ex-Laid_example =
    storage_open_ex-Laid ops torrent true contents none metainfo_parse_runs
      (λ e. cc e, (λ e. cc e, tt)) opened

fresh-IsSound_parsed_example :
    IsSound {Store = Bytes} (fresh (info_of parsed) 2 true [] true false (0 ∷ 1 ∷ []))
fresh-IsSound_parsed_example =
    fresh-IsSound_parsed {Store = Bytes} ops torrent true [] true false (0 ∷ 1 ∷ [])
      metainfo_parse_runs (omega arith) (omega arith)
