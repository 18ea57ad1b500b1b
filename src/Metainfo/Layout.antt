-- ===== src/Metainfo/Layout.antt =====
-- core/metainfo.c: the files of a metainfo tile the flat space.
use pipensx_video_downloader.Prelude.{
  ℕ, suc, ◌+◌, ◌*◌, ◌≤◌, ◌≡◌, refl, ap, ◌∙◌, Bool, true, false, not, ◌⊎◌, inl, inr, List, [], ◌∷◌,
  Option, none, some, Bytes, ltb, ◌==◌, Bool-cases, length, arith, ℤ,
}
use pipensx_video_downloader.Prelude.Errors.{◌>>=◌, guard, >>=-eq-some}
use pipensx_video_downloader.Prelude.{pos, negsuc}
use mathlib.Core.Path.{subst}
use pipensx_video_downloader.Prelude.Errors.{some_inj}
use pipensx_video_downloader.Metainfo.Keys.{str_length, str_files}
use pipensx_video_downloader.Metainfo.Files.{as_int, as_list, mi_file_size}
use pipensx_video_downloader.Metainfo.Path.{metainfo_path_is_safe_iff}
use pipensx_video_downloader.Prelude.Slices.{take_all}
use pipensx_video_downloader.Bencode.{BeNode, be_dict_get}
use pipensx_video_downloader.Bencode.Sound.{guard-true}
use pipensx_video_downloader.Metainfo.{max_name_len, metainfo_path_is_safe}
use pipensx_video_downloader.Metainfo.Files.{
  MiFile, MetaOps, max_files, max_total_length, c_string, as_dict, within, file_length, file_path,
  parse_file, skipped_file, parse_files, parse_multi, parse_single, parse_layout, strncpy_safe,
  list_items,
}

pub within_lem :
    (low high : ℕ) (v : ℤ) {n : ℕ} → within low high v ≡ some n → (low ≤ n) × (n ≤ high)
unfolding within
within_lem low high (pos n) h = ground arith
within_lem low high (negsuc n) h = cc

length_or_zero :
    (o : Option ℤ) {n : ℕ}
    → elim o as (λ _. Option ℕ) [ none ↦ some 0 | some v ↦ within 0 max_total_length v ] ≡ some n
    → n ≤ max_total_length
length_or_zero none h = ground arith
length_or_zero (some v) h = (within_lem 0 max_total_length v h).1

file_length_le : (dict : Bytes) {n : ℕ} → file_length dict ≡ some n → n ≤ max_total_length
unfolding file_length
file_length_le dict h = length_or_zero (be_dict_get dict str_length >>= as_int) h

-- The lengths added up.
abbrev pub sum_lengths : List MiFile → ℕ
sum_lengths [] = 0
sum_lengths (f ∷ fs) = f.length + sum_lengths fs

-- An entry that was passed over, or a file at its place.
abbrev pub IsPlaced : MiFile → ℕ → Type 0
IsPlaced f offset =
    (f ≡ skipped_file)
    ⊎ ((f.offset ≡ offset)
        × (metainfo_path_is_safe (c_string f.path) ≡ true)
        × (f.length ≤ max_total_length))

-- Each stands behind the lengths of those before it.
abbrev pub Placed : ℕ → List MiFile → Type 0
Placed offset [] = Unit {0}
Placed offset (f ∷ fs) = IsPlaced f offset × Placed (offset + f.length) fs

parse_file-IsPlaced :
    (dict : Bytes) (offset : ℕ) {f : MiFile} → parse_file dict offset ≡ some f → IsPlaced f offset
unfolding parse_file
parse_file-IsPlaced dict offset {f} h =
    let (len, hl, h1) = >>=-eq-some (file_length dict) _ h in
    let (x, hg, h2) =
      >>=-eq-some (guard (metainfo_path_is_safe (c_string (file_path dict)))) _ h1 in
    let e : record { path = file_path dict; length = len; offset = offset } ≡ f = some_inj h2 in
    subst (λ (y : MiFile). IsPlaced y offset) e
      (inr (
        refl,
        guard-true (metainfo_path_is_safe (c_string (file_path dict))) (x, hg),
        file_length_le dict hl,
      ))

-- What the loop returns from an offset and a total on.
abbrev pub Tiles : ℕ → ℕ → List BeNode → List MiFile × ℕ → Type 0
Tiles offset total items r =
    Placed offset r.0 × (r.1 ≡ total + sum_lengths r.0) × (length r.0 ≡ length items)

-- One round, with what is known of the rounds behind it.
file_round :
    (o : Option Bytes) (offset total : ℕ) (item : BeNode) (items : List BeNode)
    {r : List MiFile × ℕ}
    → ((offset total : ℕ) (r : List MiFile × ℕ)
        → parse_files offset total items ≡ some r
        → Tiles offset total items r)
    → elim o as (λ _. Option (List MiFile × ℕ)) [
      | none ↦ parse_files offset total items >>= (λ r. some (skipped_file ∷ r.0, r.1))
      | some dict ↦ parse_file dict offset >>= (λ f.
          parse_files (offset + f.length) (total + f.length) items >>= (λ r. some (f ∷ r.0, r.1)))
    ]
      ≡ some r
    → Tiles offset total (item ∷ items) r
file_round none offset total item items ih h =
    let (t, ht, h1) = >>=-eq-some (parse_files offset total items) _ h in
    let (placed, sums, len) = ih offset total t ht in
    let here : Placed (offset + 0) t.0 = subst (λ (n : ℕ). Placed n t.0) (omega arith) placed in
    subst (Tiles offset total (item ∷ items)) (some_inj h1)
      ((inl refl, here), omega (arith, sums), ap suc len)
file_round (some dict) offset total item items ih h =
    let (f, hf, h1) = >>=-eq-some (parse_file dict offset) _ h in
    let (t, ht, h2) = >>=-eq-some (parse_files (offset + f.length) (total + f.length) items) _ h1 in
    let (placed, sums, len) = ih (offset + f.length) (total + f.length) t ht in
    subst (Tiles offset total (item ∷ items)) (some_inj h2)
      ((parse_file-IsPlaced dict offset hf, placed), omega (arith, sums), ap suc len)

pub parse_files-Tiles :
    (offset total : ℕ) (items : List BeNode) {r : List MiFile × ℕ}
    → parse_files offset total items ≡ some r
    → Tiles offset total items r
unfolding parse_files
parse_files-Tiles offset total [] h =
    subst (Tiles offset total []) (some_inj h) (tt, omega arith, refl)
parse_files-Tiles offset total (item ∷ items) h =
    file_round (as_dict item) offset total item items (λ o t s e. parse_files-Tiles o t items e) h

pub sum_lengths-Placed :
    (offset : ℕ) (files : List MiFile)
    → Placed offset files
    → sum_lengths files ≤ length files * max_total_length
sum_lengths-Placed offset [] h = omega arith
sum_lengths-Placed offset (f ∷ fs) (inl e, rest) =
    let none_here : f.length ≡ 0 = ap (λ (g : MiFile). g.length) e in
    omega (arith, none_here, sum_lengths-Placed (offset + f.length) fs rest)
sum_lengths-Placed offset (f ∷ fs) (inr (_, _, le), rest) =
    omega (arith, le, sum_lengths-Placed (offset + f.length) fs rest)

-- The files with the total length beside them.
pub record IsLayout (files : List MiFile) (total : ℕ) : Type 0 where
  pub placed : Placed 0 files
  pub sums : total ≡ sum_lengths files
  pub few : length files ≤ max_files

parse_multi-IsLayout :
    (ops : MetaOps) (raw : Bytes) {r : List MiFile × ℕ}
    → parse_multi ops raw ≡ some r
    → IsLayout r.0 r.1
unfolding parse_multi
parse_multi-IsLayout ops raw h =
    let (x, hx, h1) = >>=-eq-some (guard (not (ltb max_files (length (list_items raw))))) _ h in
    let (y, hy, h2) =
      >>=-eq-some (guard (ops.malloc (length (list_items raw) * mi_file_size))) _ h1 in
    let (placed, sums, len) = parse_files-Tiles 0 0 (list_items raw) h2 in
    let few : not (ltb max_files (length (list_items raw))) ≡ true = guard-true _ (x, hx) in
    record { placed = placed; sums = omega (arith, sums); few = ground (arith, len, few) }

c_string-c_string : (s : Bytes) → c_string (c_string s) ≡ c_string s
unfolding c_string
c_string-c_string [] = refl
c_string-c_string (c ∷ cs) = elim (Bool-cases (c == 0)) [
  | inl e ↦ rw (e, c_string) refl
  | inr e ↦ rw (e, c_string) (rw (e, c_string) (ap (◌∷◌ c) (c_string-c_string cs)))
]

-- The name is short enough to be copied whole.
copied_name :
    (name : Bytes)
    → metainfo_path_is_safe (c_string name) ≡ true
    → c_string (strncpy_safe max_name_len (c_string name)) ≡ c_string name
unfolding strncpy_safe
copied_name name safe =
    let short = ((metainfo_path_is_safe_iff (c_string name)).0 safe).1 in
    ap c_string (take_all 255 (c_string name) (omega (arith, short))) ∙ c_string-c_string name

parse_single-IsLayout :
    (ops : MetaOps) (info name : Bytes) {r : List MiFile × ℕ}
    → metainfo_path_is_safe (c_string name) ≡ true
    → parse_single ops info name ≡ some r
    → IsLayout r.0 r.1
unfolding parse_single
parse_single-IsLayout ops info name safe h =
    let (x, hx, h1) = >>=-eq-some (guard (ops.malloc mi_file_size)) _ h in
    let (len, hl, h2) = >>=-eq-some (file_length info) _ h1 in
    let safe_copy : metainfo_path_is_safe (c_string (strncpy_safe max_name_len (c_string name)))
        ≡ true =
      ap metainfo_path_is_safe (copied_name name safe) ∙ safe in
    subst (λ (r : List MiFile × ℕ). IsLayout r.0 r.1) (some_inj h2)
      (record {
        placed = (inr (refl, safe_copy, file_length_le info hl), tt);
        sums = omega arith;
        few = omega arith;
      })

-- Either kind of torrent.
IsLayout-option :
    (o : Option Bytes) (ops : MetaOps) (info name : Bytes) {r : Bool × (List MiFile × ℕ)}
    → metainfo_path_is_safe (c_string name) ≡ true
    → elim o as (λ _. Option (Bool × (List MiFile × ℕ))) [
      | some raw ↦ parse_multi ops raw >>= (λ r. some (true, r))
      | none ↦ parse_single ops info name >>= (λ r. some (false, r))
    ]
      ≡ some r
    → IsLayout r.1.0 r.1.1
IsLayout-option none ops info name safe h =
    let (t, ht, h1) = >>=-eq-some (parse_single ops info name) _ h in
    subst (λ (r : Bool × (List MiFile × ℕ)). IsLayout r.1.0 r.1.1) (some_inj h1)
      (parse_single-IsLayout ops info name safe ht)
IsLayout-option (some raw) ops info name safe h =
    let (t, ht, h1) = >>=-eq-some (parse_multi ops raw) _ h in
    subst (λ (r : Bool × (List MiFile × ℕ)). IsLayout r.1.0 r.1.1) (some_inj h1)
      (parse_multi-IsLayout ops raw ht)

pub parse_layout-IsLayout :
    (ops : MetaOps) (info name : Bytes) {r : Bool × (List MiFile × ℕ)}
    → metainfo_path_is_safe (c_string name) ≡ true
    → parse_layout ops info name ≡ some r
    → IsLayout r.1.0 r.1.1
unfolding parse_layout
parse_layout-IsLayout ops info name safe h =
    IsLayout-option (be_dict_get info str_files >>= as_list) ops info name safe h
