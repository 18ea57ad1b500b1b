-- ===== src/Metainfo/Parse.antt =====
-- core/metainfo.c: the URLs of a metainfo, and metainfo_parse.
use pipensx_video_downloader.Prelude.{
  ℕ, ◌/◌, ◌%◌, true, false, not, ◌&&◌, List, [], ◌∷◌, ◌++◌, Option, none, some, Bytes, ltb, ◌==◌,
  if◌then◌else◌, length,
}
use pipensx_video_downloader.Prelude.Errors.{◌>>=◌, ◌>>◌, guard}
use pipensx_video_downloader.Bencode.{BeNode, be_decode, be_dict_get}
use pipensx_video_downloader.Sha1.{sha1}
use pipensx_video_downloader.Metainfo.{metainfo_path_is_safe}
use pipensx_video_downloader.Metainfo.Keys.{
  str_announce_list, str_announce, str_url_list, str_info, str_piece_length, str_pieces,
}
use pipensx_video_downloader.Metainfo.Files.{
  Metainfo, MetaOps, max_trackers, max_web_seeds, max_url, max_piece_length, c_string, as_str,
  as_int, as_list, as_dict, list_items, within, parse_layout, name_of, pieces_for,
}

-- A loop that takes URLs as long as there is room.
unfoldable pub add_urls : ℕ → (BeNode → Option Bytes) → List Bytes → List BeNode → List Bytes
add_urls room url taken [] = taken
add_urls room url taken (item ∷ items) = elim (ltb (length taken) room) [
  | false ↦ taken
  | true ↦ elim (url item) [
    | none ↦ add_urls room url taken items
    | some u ↦ add_urls room url (taken ++ (u ∷ [])) items
  ]
]

-- `slen < 512`, and for a web seed that it is not empty.
abbrev pub tracker_url : BeNode → Option Bytes
tracker_url v = as_str v >>= (λ s. if ltb (length s) max_url then some s else none)

abbrev pub web_seed_url : BeNode → Option Bytes
web_seed_url v =
    as_str v >>= (λ s. if not (length s == 0) && ltb (length s) max_url then some s else none)

unfoldable pub add_tiers : List Bytes → List BeNode → List Bytes
add_tiers taken [] = taken
add_tiers taken (tier ∷ tiers) = elim (ltb (length taken) max_trackers) [
  | false ↦ taken
  | true ↦ elim (as_list tier) [
    | none ↦ add_tiers taken tiers
    | some raw ↦ add_tiers (add_urls max_trackers tracker_url taken (list_items raw)) tiers
  ]
]

unfoldable pub listed_trackers : Bytes → List Bytes
listed_trackers root = elim (be_dict_get root str_announce_list >>= as_list) [
  | none ↦ []
  | some raw ↦ add_tiers [] (list_items raw)
]

unfoldable pub parse_trackers : Bytes → List Bytes
parse_trackers root = elim (length (listed_trackers root) == 0) [
  | true ↦ elim (be_dict_get root str_announce >>= tracker_url) [ none ↦ [] | some u ↦ u ∷ [] ]
  | false ↦ listed_trackers root
]

unfoldable pub parse_web_seeds : Bytes → List Bytes
parse_web_seeds root = elim (be_dict_get root str_url_list) [
  | none ↦ []
  | some v ↦ elim (as_list v) [
    | some raw ↦ add_urls max_web_seeds web_seed_url [] (list_items raw)
    | none ↦ elim (web_seed_url v) [ none ↦ [] | some u ↦ u ∷ [] ]
  ]
]

unfoldable pub metainfo_parse : MetaOps → Bytes → Option Metainfo
metainfo_parse ops buf = do
  root ← be_decode buf >>= (λ r. as_dict r.0)
  info ← be_dict_get root str_info >>= as_dict
  guard (metainfo_path_is_safe (c_string (name_of info)))
  piece_length ← be_dict_get info str_piece_length >>= as_int >>= within 1 max_piece_length
  pieces ← be_dict_get info str_pieces >>= as_str
  guard (length pieces % 20 == 0)
  guard (ops.malloc (length pieces))
  layout ← parse_layout ops info (name_of info)
  guard (length pieces / 20 % 4294967296 == pieces_for layout.1.1 piece_length)
  some (record {
    info_hash = sha1 ops.garbage info;
    name = name_of info;
    piece_length = piece_length;
    num_pieces = length pieces / 20 % 4294967296;
    piece_hashes = pieces;
    is_multi = layout.0;
    total_length = layout.1.1;
    files = layout.1.0;
    trackers = parse_trackers root;
    web_seeds = parse_web_seeds root;
  })
