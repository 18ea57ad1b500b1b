-- ===== src/Tests/Films.antt =====
-- src/app/movie_catalog.c: three films sorted by rating.
use pipensx_video_downloader.Prelude.{ℕ, ◌≡◌, refl, true, false, List, [], ◌∷◌, Bytes, ltb, arith}
use mathlib.Core.List.{Perm}
use pipensx_video_downloader.Catalog.{
  MovieEntry, entry_movie, sort_by_rating, sort_by_title, catalog_sort, sort_from, insert_down,
  turn, should_swap,
}
use pipensx_video_downloader.Catalog.Sorting.{InOrder, catalog_sort-InOrder}

abbrev film : ℕ → Bytes → MovieEntry ℕ
film rating title = record {
  entry_type = entry_movie;
  title = title;
  genre = [];
  description = [];
  magnet = [];
  poster = [];
  quality = [];
  year = 2020;
  rating = rating;
  duration_min = 90;
  seasons = 0;
  episodes = 0;
  size_gb = 2;
  peers = 0;
  downloads = 0;
  info_hash = [];
}

abbrev films : List (MovieEntry ℕ)
films = film 70 (b'b' ∷ []) ∷ film 90 (b'c' ∷ []) ∷ film 70 (b'a' ∷ []) ∷ []

-- The best comes first, and equal ratings keep their order.
by_rating :
    catalog_sort ltb films sort_by_rating
    ≡ film 90 (b'c' ∷ []) ∷ film 70 (b'b' ∷ []) ∷ film 70 (b'a' ∷ []) ∷ []
unfolding catalog_sort sort_from insert_down turn should_swap
by_rating = refl

ltb_asym : (a b : ℕ) → ltb a b ≡ true → ltb b a ≡ false
ltb_asym a b h = ground arith

catalog_sort-InOrder_example :
    InOrder ltb sort_by_title (catalog_sort ltb films sort_by_title)
    × Perm (catalog_sort ltb films sort_by_title) films
catalog_sort-InOrder_example = catalog_sort-InOrder ltb sort_by_title ltb_asym films
