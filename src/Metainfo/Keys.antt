-- ===== src/Metainfo/Keys.antt =====
-- The keys of a metainfo, and its default name.
use pipensx_video_downloader.Prelude.{[], ◌∷◌, Bytes}

-- "length"
abbrev pub str_length : Bytes
str_length = b'l' ∷ b'e' ∷ b'n' ∷ b'g' ∷ b't' ∷ b'h' ∷ []

-- "path"
abbrev pub str_path : Bytes
str_path = b'p' ∷ b'a' ∷ b't' ∷ b'h' ∷ []

-- "files"
abbrev pub str_files : Bytes
str_files = b'f' ∷ b'i' ∷ b'l' ∷ b'e' ∷ b's' ∷ []

-- "name"
abbrev pub str_name : Bytes
str_name = b'n' ∷ b'a' ∷ b'm' ∷ b'e' ∷ []

-- "unknown"
abbrev pub str_unknown : Bytes
str_unknown = b'u' ∷ b'n' ∷ b'k' ∷ b'n' ∷ b'o' ∷ b'w' ∷ b'n' ∷ []

-- "announce-list"
abbrev pub str_announce_list : Bytes
str_announce_list =
    b'a' ∷ b'n' ∷ b'n' ∷ b'o' ∷ b'u' ∷ b'n' ∷ b'c' ∷ b'e' ∷ b'-' ∷ b'l' ∷ b'i' ∷ b's' ∷ b't' ∷ []

-- "announce"
abbrev pub str_announce : Bytes
str_announce = b'a' ∷ b'n' ∷ b'n' ∷ b'o' ∷ b'u' ∷ b'n' ∷ b'c' ∷ b'e' ∷ []

-- "url-list"
abbrev pub str_url_list : Bytes
str_url_list = b'u' ∷ b'r' ∷ b'l' ∷ b'-' ∷ b'l' ∷ b'i' ∷ b's' ∷ b't' ∷ []

-- "info"
abbrev pub str_info : Bytes
str_info = b'i' ∷ b'n' ∷ b'f' ∷ b'o' ∷ []

-- "piece length"
abbrev pub str_piece_length : Bytes
str_piece_length =
    b'p' ∷ b'i' ∷ b'e' ∷ b'c' ∷ b'e' ∷ b' ' ∷ b'l' ∷ b'e' ∷ b'n' ∷ b'g' ∷ b't' ∷ b'h' ∷ []

-- "pieces"
abbrev pub str_pieces : Bytes
str_pieces = b'p' ∷ b'i' ∷ b'e' ∷ b'c' ∷ b'e' ∷ b's' ∷ []
