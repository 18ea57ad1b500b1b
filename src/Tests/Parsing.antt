-- ===== src/Tests/Parsing.antt =====
-- core/bencode.c on small texts.
use pipensx_video_downloader.Prelude.{
  ℕ, suc, ◌≡◌, ◌≢◌, refl, true, [], ◌∷◌, none, some, Bytes, take, arith,
}
use pipensx_video_downloader.Bencode.{
  be_dict, be_decode, be_skip, be_dict_get, be_max_depth, scan_digits, parse_int, parse_str, expect,
  sign, at_digit, skip_list, skip_dict,
}
use pipensx_video_downloader.Bencode.Grammar.{
  Entries, int, str, list, dict, nil, cons, end, entry, print, print_entries, print_items, Fits,
  IsText,
}
use pipensx_video_downloader.Bencode.Complete.{be_skip-print}
use pipensx_video_downloader.Bencode.Sound.{Reads, be_skip-Reads}
use pipensx_video_downloader.Bencode.Decode.{node_of, Decoded, be_decode-print, be_decode-Decoded}
use pipensx_video_downloader.Bencode.Dict.{lookup, be_dict_get-lookup}

-- `d1:ai-7e1:bl2:xyee`
abbrev entries : Entries
entries =
    entry (b'1' ∷ []) (b'a' ∷ []) (int true (b'7' ∷ []))
      (entry (b'1' ∷ []) (b'b' ∷ []) (list (cons (str (b'2' ∷ []) (b'x' ∷ b'y' ∷ [])) nil)) end)

abbrev text : Bytes
text =
    b'd' ∷ b'1' ∷ b':' ∷ b'a' ∷ b'i' ∷ b'-' ∷ b'7' ∷ b'e' ∷ b'1' ∷ b':' ∷ b'b' ∷ b'l' ∷ b'2' ∷ b':'
    ∷ b'x' ∷ b'y' ∷ b'e' ∷ b'e' ∷ b'!' ∷ []

entries_text : print (dict entries) (b'!' ∷ []) ≡ text
unfolding print print_entries print_items
entries_text = refl

entries-Fits : Fits (suc be_max_depth) (dict entries)
entries-Fits = (
  one_byte b'a',
  ((refl, tt), cons-nil, omega arith),
  (one_byte b'b', ((((refl, tt), cons-nil, omega arith), refl), tt), tt),
)
  where
    cons-nil : {c : ℕ} {cs : Bytes} → c ∷ cs ≢ []
    cons-nil e = cc e

    one_byte : (c : ℕ) → IsText (b'1' ∷ []) (c ∷ [])
    one_byte c = (((refl, tt), cons-nil, omega arith), refl)

skip_text : be_skip (suc be_max_depth) text ≡ some (b'!' ∷ [])
unfolding be_skip skip_dict skip_list parse_int parse_str scan_digits expect sign at_digit
skip_text = refl

decode_text : be_decode text ≡ some (record { value = be_dict; raw = take 18 text }, b'!' ∷ [])
unfolding be_decode be_skip skip_dict skip_list parse_int parse_str scan_digits expect sign at_digit
decode_text = refl

-- Refused: no digit, a number out of range, a string that is cut off.
refused :
    (parse_int (b'i' ∷ b'-' ∷ b'e' ∷ []) ≡ none) × (be_decode (b'3' ∷ b':' ∷ b'a' ∷ []) ≡ none)
unfolding be_decode parse_int parse_str scan_digits expect sign at_digit
refused = (refl, refl)

be_skip-print_example :
    be_skip (suc be_max_depth) (print (dict entries) (b'!' ∷ [])) ≡ some (b'!' ∷ [])
be_skip-print_example = be_skip-print (suc be_max_depth) (dict entries) (b'!' ∷ []) entries-Fits

be_skip-Reads_example : Reads (suc be_max_depth) text (b'!' ∷ [])
be_skip-Reads_example = be_skip-Reads (suc be_max_depth) text (b'!' ∷ []) skip_text

be_decode-print_example :
    be_decode (print (dict entries) (b'!' ∷ [])) ≡ some (node_of (dict entries), b'!' ∷ [])
be_decode-print_example = be_decode-print (dict entries) (b'!' ∷ []) entries-Fits

be_decode-Decoded_example :
    Decoded text (record { value = be_dict; raw = take 18 text }) (b'!' ∷ [])
be_decode-Decoded_example = be_decode-Decoded text decode_text

be_dict_get-lookup_example :
    be_dict_get (print (dict entries) []) (b'b' ∷ []) ≡ lookup (b'b' ∷ []) entries
be_dict_get-lookup_example = be_dict_get-lookup entries [] (b'b' ∷ []) entries-Fits
