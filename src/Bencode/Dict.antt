-- ===== src/Bencode/Dict.antt =====
-- Looking a key up: the loop of `be_dict_get` against the entries of the dictionary.
use pipensx_video_downloader.Prelude.{
  ℕ, zero, suc, ◌<◌, ◌≡◌, ◌↔◌, refl, true, ◌∷◌, Option, none, some, Bytes, if◌then◌else◌, length,
  arith,
}
use pipensx_video_downloader.Bencode.{
  BeNode, at_end, be_dict_next, same_bytes, dict_find, be_dict_get, be_max_depth, expect,
}
use pipensx_video_downloader.Bencode.Grammar.{
  Tree, Trees, Entries, int, str, list, dict, nil, cons, end, entry, print_str, print,
  print_entries, Fits, FitItems, FitEntries, IsText,
}
use pipensx_video_downloader.Bencode.Complete.{
  parse_str-print, length-print, length-print_str, at_end-print_str,
}
use pipensx_video_downloader.Bencode.Decode.{node_of, be_decode-print}

pub same_bytes_iff : (a b : Bytes) → (same_bytes a b ≡ true) ↔ (a ≡ b)
unfolding same_bytes
same_bytes_iff (x ∷ a) (y ∷ b) = ground (arith, same_bytes_iff a b)
same_bytes_iff _ _ = ground arith

-- The first entry under the key.
pub lookup : Bytes → Entries → Option BeNode
lookup key end = none
lookup key (entry ds k t es) = if same_bytes k key then some (node_of t) else lookup key es

mutual
  Fits-suc : (n : ℕ) (t : Tree) → Fits n t → Fits (suc n) t
  Fits-suc zero (int neg ds) h = elim h [ ]
  Fits-suc zero (str ds s) h = elim h [ ]
  Fits-suc zero (list ts) h = elim h [ ]
  Fits-suc zero (dict es) h = elim h [ ]
  Fits-suc (suc n) (int neg ds) h = h
  Fits-suc (suc n) (str ds s) h = h
  Fits-suc (suc n) (list ts) h = FitItems-suc n ts h
  Fits-suc (suc n) (dict es) h = FitEntries-suc n es h

  FitItems-suc : (n : ℕ) (ts : Trees) → FitItems n ts → FitItems (suc n) ts
  FitItems-suc n nil h = tt
  FitItems-suc n (cons t ts) h = (Fits-suc n t h.0, FitItems-suc n ts h.1)

  FitEntries-suc : (n : ℕ) (es : Entries) → FitEntries n es → FitEntries (suc n) es
  FitEntries-suc n end h = tt
  FitEntries-suc n (entry ds k t es) h = (h.0, Fits-suc n t h.1, FitEntries-suc n es h.2)

be_dict_next-print :
    (ds k : Bytes) (t : Tree) (rest : Bytes)
    → IsText ds k
    → Fits (suc be_max_depth) t
    → be_dict_next (print_str ds k (print t rest)) ≡ some (k, node_of t, rest)
unfolding be_dict_next
be_dict_next-print ds k t rest h f = rw (
  at_end-print_str ds k (print t rest) h,
  parse_str-print ds k (print t rest) h,
  be_decode-print t rest f,
)

dict_find-print :
    (fuel : ℕ) (es : Entries) (rest key : Bytes)
    → FitEntries (suc be_max_depth) es
    → length (print_entries es (b'e' ∷ rest)) < fuel
    → dict_find fuel (print_entries es (b'e' ∷ rest)) key ≡ lookup key es
unfolding dict_find lookup print be_dict_next at_end
dict_find-print zero es rest key h l = elim l [ ]
dict_find-print (suc fuel) end rest key h l = refl
dict_find-print (suc fuel) (entry ds k t es) rest key h l =
    let more = print_entries es (b'e' ∷ rest) in
    ground (
      arith,
      be_dict_next-print ds k t more h.0 h.1,
      dict_find-print fuel es rest key h.2,
      length-print t more,
      length-print_str ds k (print t more),
    )

-- On the text of a dictionary within the cap be_dict_get answers with the node of the first entry
-- under the key, and with none where there is no such entry.
pub be_dict_get-lookup :
    (es : Entries) (rest key : Bytes)
    → Fits (suc be_max_depth) (dict es)
    → be_dict_get (print (dict es) rest) key ≡ lookup key es
unfolding be_dict_get expect print
be_dict_get-lookup es rest key h =
    dict_find-print _ es rest key (FitEntries-suc be_max_depth es h) (omega arith)
