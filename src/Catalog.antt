-- ===== src/Catalog.antt =====
-- src/app/movie_catalog.c: the entries, and how they are added, removed, found by type and sorted. A
-- size in GB is a double: its type and its `<` are parameters.
pub mod Sorting
use pipensx_video_downloader.Prelude.{
  ℕ, zero, suc, ◌+◌, ◌-◌, ◌*◌, ◌/◌, ◌%◌, ◌^◌, ◌≤◌, ◌<◌, min, bit_and, bit_or, bit_xor, ◌≡◌, ◌≢◌,
  ◌↔◌, refl, sym, ap, ◌∙◌, Bool, true, false, not, ◌&&◌, ◌||◌, ◌⊎◌, inl, inr, List, [], ◌∷◌, ◌++◌,
  map, Option, none, some, Bytes, ltb, leb, ◌==◌, ==_iff, if◌then◌else◌, Bool-cases, ltb→lt, leb→le,
  Option-cases, length, take, drop, get_elem?, get_or, set, replicate, arith, length-append,
  length-set, length-replicate, length-take, length-drop, take-append-drop, ℤ, signed,
}
use pipensx_video_downloader.Prelude.Errors.{◌>>=◌, ◌>>◌, guard, >>=-eq-some}

pub data EntryType : Type 0 where
  entry_movie entry_series : EntryType

pub record MovieEntry (Size : Type 0) : Type 0 where
  pub entry_type : EntryType
  pub title : Bytes
  pub genre : Bytes
  pub description : Bytes
  pub magnet : Bytes
  pub poster : Bytes
  pub quality : Bytes
  pub year : ℕ
  pub rating : ℕ
  pub duration_min : ℕ
  pub seasons : ℕ
  pub episodes : ℕ
  pub size_gb : Size
  pub peers : ℕ
  pub downloads : ℕ
  pub info_hash : Bytes

pub data SortField : Type 0 where
  sort_by_title sort_by_year sort_by_rating sort_by_size sort_by_peers sort_by_downloads : SortField

-- `strcmp(a, b) > 0`, on the bytes in front of the NUL.
unfoldable pub str_above : Bytes → Bytes → Bool
str_above [] ys = false
str_above (x ∷ xs) [] = true
str_above (x ∷ xs) (y ∷ ys) = let rest = str_above xs ys in if x == y then rest else ltb y x

module _ {Size : Type 0} where
  -- The entry `prev` moves behind `temp`.
  unfoldable pub should_swap :
      (Size → Size → Bool) → SortField → MovieEntry Size → MovieEntry Size → Bool
  should_swap size_lt sort_by_title prev temp = str_above prev.title temp.title
  should_swap size_lt sort_by_year prev temp = ltb prev.year temp.year
  should_swap size_lt sort_by_rating prev temp = ltb prev.rating temp.rating
  should_swap size_lt sort_by_size prev temp = size_lt prev.size_gb temp.size_gb
  should_swap size_lt sort_by_peers prev temp = ltb prev.peers temp.peers
  should_swap size_lt sort_by_downloads prev temp = ltb prev.downloads temp.downloads

  -- The inner loop, which walks down from `entries[i - 1]`: the entries in front of `i`, the last first.
  unfoldable pub insert_down :
      (Size → Size → Bool)
      → SortField
      → MovieEntry Size
      → List (MovieEntry Size)
      → List (MovieEntry Size)
  insert_down size_lt field temp [] = temp ∷ []
  insert_down size_lt field temp (prev ∷ front) =
      let moved = prev ∷ insert_down size_lt field temp front in
      if should_swap size_lt field prev temp then moved else temp ∷ prev ∷ front

  -- The outer loop, on the entries in front of `i`, the last first, and those from `i` on.
  unfoldable pub sort_from :
      (Size → Size → Bool)
      → SortField
      → List (MovieEntry Size)
      → List (MovieEntry Size)
      → List (MovieEntry Size)
  sort_from size_lt field front [] = front
  sort_from size_lt field front (temp ∷ back) =
      sort_from size_lt field (insert_down size_lt field temp front) back

  -- The entries from the last to the first, put in front of others.
  unfoldable pub turn : List (MovieEntry Size) → List (MovieEntry Size) → List (MovieEntry Size)
  turn [] ys = ys
  turn (x ∷ xs) ys = turn xs (x ∷ ys)

  unfoldable pub catalog_sort :
      (Size → Size → Bool) → List (MovieEntry Size) → SortField → List (MovieEntry Size)
  catalog_sort size_lt [] field = []
  catalog_sort size_lt (e ∷ es) field = turn (sort_from size_lt field (e ∷ []) es) []
