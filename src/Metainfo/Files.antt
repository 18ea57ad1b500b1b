-- ===== src/Metainfo/Files.antt =====
-- core/metainfo.c: the data of a metainfo, and its list of files. A buffer that the code ends
-- with a NUL is the list of the bytes in front of that NUL.
use pipensx_video_downloader.Prelude.{
  ℕ, zero, suc, ◌+◌, ◌-◌, ◌*◌, ◌/◌, ◌%◌, Bool, true, false, not, ◌||◌, List, [], ◌∷◌, ◌++◌, Option,
  none, some, Bytes, ltb, leb, ◌==◌, if◌then◌else◌, length, take, drop, ℤ,
}
use pipensx_video_downloader.Prelude.Errors.{◌>>=◌, ◌>>◌, guard}
use pipensx_video_downloader.Bencode.{
  be_int, be_str, be_list, be_dict, BeNode, be_list_next, be_dict_get,
}
use pipensx_video_downloader.Prelude.{pos, negsuc}
use pipensx_video_downloader.Metainfo.{max_name_len, metainfo_path_is_safe}
use pipensx_video_downloader.Metainfo.Keys.{str_length, str_path, str_files, str_name, str_unknown}

abbrev pub max_trackers : ℕ
max_trackers = 32

abbrev pub max_files : ℕ
max_files = 4096

abbrev pub max_web_seeds : ℕ
max_web_seeds = 8

abbrev pub max_url : ℕ
max_url = 512

abbrev pub max_piece_length : ℕ
max_piece_length = 268435456

abbrev pub max_total_length : ℕ
max_total_length = 1125899906842624

-- `mi_file_t`
pub record MiFile : Type 0 where
  pub path : Bytes
  pub length : ℕ
  pub offset : ℕ

-- `metainfo_t`; the counts of files, trackers and web seeds are the lengths of the lists.
pub record Metainfo : Type 0 where
  pub info_hash : Bytes
  pub name : Bytes
  pub piece_length : ℕ
  pub num_pieces : ℕ
  pub piece_hashes : Bytes
  pub is_multi : Bool
  pub total_length : ℕ
  pub files : List MiFile
  pub trackers : List Bytes
  pub web_seeds : List Bytes

-- Whether an allocation of so many bytes succeeds, and what stands in the memory of a new SHA-1 context.
pub record MetaOps : Type 0 where
  pub malloc : ℕ → Bool
  pub garbage : Bytes

-- What a reader of a string sees of the buffer.
unfoldable pub c_string : Bytes → Bytes
c_string [] = []
c_string (c ∷ cs) = let rest = c_string cs in if c == 0 then [] else c ∷ rest

unfoldable pub strncpy_safe : ℕ → Bytes → Bytes
strncpy_safe dsz src = take (dsz - 1) src

-- `type == BE_STR` and its like.
abbrev pub as_str : BeNode → Option Bytes
as_str v = elim v.value [ be_int n ↦ none | be_str s ↦ some s | be_list ↦ none | be_dict ↦ none ]

abbrev pub as_int : BeNode → Option ℤ
as_int v = elim v.value [ be_int n ↦ some n | be_str s ↦ none | be_list ↦ none | be_dict ↦ none ]

abbrev pub as_list : BeNode → Option Bytes
as_list v = elim v.value [
  | be_int n ↦ none
  | be_str s ↦ none
  | be_list ↦ some v.raw
  | be_dict ↦ none
]

abbrev pub as_dict : BeNode → Option Bytes
as_dict v = elim v.value [
  | be_int n ↦ none
  | be_str s ↦ none
  | be_list ↦ none
  | be_dict ↦ some v.raw
]

-- `while (be_list_next(&p, end, &item))`; no item is empty, so the bytes suffice for the rounds.
unfoldable pub items_from : ℕ → Bytes → List BeNode
items_from zero p = []
items_from (suc fuel) p = elim (be_list_next p) [ none ↦ [] | some r ↦ r.0 ∷ items_from fuel r.1 ]

-- From `buf + 1` to `buf + raw_len - 1`.
unfoldable pub list_items : Bytes → List BeNode
list_items raw = let inner = take (length raw - 2) (drop 1 raw) in items_from (length inner) inner

-- `ival < low || ival > high` refuses.
unfoldable pub within : ℕ → ℕ → ℤ → Option ℕ
within low high (pos n) = if ltb n low || ltb high n then none else some n
within low high (negsuc n) = none

-- No "length" leaves the 0 of calloc.
unfoldable pub file_length : Bytes → Option ℕ
file_length dict = elim (be_dict_get dict str_length >>= as_int) [
  | none ↦ some 0
  | some v ↦ within 0 max_total_length v
]

-- The loop over the parts of a path.
unfoldable pub join_path : Bytes → Bool → List BeNode → Bytes
join_path path first [] = path
join_path path first (part ∷ parts) = elim (as_str part) [
  | none ↦ join_path path first parts
  | some s ↦ elim (leb max_name_len (length path + ((if first then 0 else 1) + length s))) [
    | true ↦ []
    | false ↦ join_path ((if first then path else path ++ (b'/' ∷ [])) ++ s) false parts
  ]
]

unfoldable pub file_path : Bytes → Bytes
file_path dict = elim (be_dict_get dict str_path >>= as_list) [
  | none ↦ []
  | some raw ↦ join_path [] true (list_items raw)
]

unfoldable pub parse_file : Bytes → ℕ → Option MiFile
parse_file dict offset = do
  len ← file_length dict
  guard (metainfo_path_is_safe (c_string (file_path dict)))
  some (record { path = file_path dict; length = len; offset = offset })

-- An entry that is passed over stays as calloc made it.
abbrev pub skipped_file : MiFile
skipped_file = record { path = []; length = 0; offset = 0 }

-- The loop over the entries, with `offset` and `mi->total_length`.
unfoldable pub parse_files : ℕ → ℕ → List BeNode → Option (List MiFile × ℕ)
parse_files offset total [] = some ([], total)
parse_files offset total (item ∷ items) = elim (as_dict item) [
  | none ↦ parse_files offset total items >>= (λ r. some (skipped_file ∷ r.0, r.1))
  | some dict ↦ parse_file dict offset >>= (λ f.
      parse_files (offset + f.length) (total + f.length) items >>= (λ r. some (f ∷ r.0, r.1)))
]

-- `sizeof(mi_file_t)`
abbrev pub mi_file_size : ℕ
mi_file_size = 272

unfoldable pub parse_multi : MetaOps → Bytes → Option (List MiFile × ℕ)
parse_multi ops raw = do
  guard (not (ltb max_files (length (list_items raw))))
  guard (ops.malloc (length (list_items raw) * mi_file_size))
  parse_files 0 0 (list_items raw)

unfoldable pub parse_single : MetaOps → Bytes → Bytes → Option (List MiFile × ℕ)
parse_single ops info name = do
  guard (ops.malloc mi_file_size)
  len ← file_length info
  some (
    record { path = strncpy_safe max_name_len (c_string name); length = len; offset = 0 } ∷ [],
    len,
  )

-- `is_multi`, the files and the total length.
unfoldable pub parse_layout : MetaOps → Bytes → Bytes → Option (Bool × (List MiFile × ℕ))
parse_layout ops info name = elim (be_dict_get info str_files >>= as_list) [
  | some raw ↦ parse_multi ops raw >>= (λ r. some (true, r))
  | none ↦ parse_single ops info name >>= (λ r. some (false, r))
]

unfoldable pub name_of : Bytes → Bytes
name_of info = elim (be_dict_get info str_name >>= as_str) [
  | some s ↦ strncpy_safe max_name_len s
  | none ↦ strncpy_safe max_name_len str_unknown
]

-- `(total_length + piece_length - 1) / piece_length`, cast to `uint32_t`.
unfoldable pub pieces_for : ℕ → ℕ → ℕ
pieces_for total piece_length = (total + piece_length - 1) / piece_length % 4294967296
