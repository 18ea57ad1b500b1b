-- ===== src/Catalog/Sorting.antt =====
-- `catalog_sort` leaves the same entries, in order.
use pipensx_video_downloader.Prelude.{
  ◌≡◌, refl, Bool, true, false, inl, inr, List, [], ◌∷◌, ◌++◌, Bytes, Bool-cases, arith,
}
use mathlib.Core.List.{Perm, append-nil, perm_middle}
use mathlib.Core.List.Perm
use pipensx_video_downloader.Catalog.{
  MovieEntry, SortField, sort_by_title, sort_by_year, sort_by_rating, sort_by_size, sort_by_peers,
  sort_by_downloads, str_above, should_swap, insert_down, sort_from, turn, catalog_sort,
}

str_above_asym : (xs ys : Bytes) → str_above xs ys ≡ true → str_above ys xs ≡ false
unfolding str_above
str_above_asym [] ys h = ground arith
str_above_asym (x ∷ xs) [] h = refl
str_above_asym (x ∷ xs) (y ∷ ys) h = ground (arith, str_above_asym xs ys)

module _ {Size : Type 0} (size_lt : Size → Size → Bool) (field : SortField) where
  -- No entry should move behind its successor.
  abbrev pub InOrder : List (MovieEntry Size) → Type 0
  InOrder [] = Unit {0}
  InOrder (x ∷ []) = Unit {0}
  InOrder (x ∷ y ∷ ys) = (should_swap size_lt field x y ≡ false) × InOrder (y ∷ ys)

  -- The same of a list that stands the other way around.
  abbrev DownOrder : List (MovieEntry Size) → Type 0
  DownOrder [] = Unit {0}
  DownOrder (x ∷ []) = Unit {0}
  DownOrder (x ∷ y ∷ ys) = (should_swap size_lt field y x ≡ false) × DownOrder (y ∷ ys)

  insert_down-Perm :
      (temp : MovieEntry Size) (front : List (MovieEntry Size))
      → Perm (insert_down size_lt field temp front) (temp ∷ front)
  unfolding insert_down
  insert_down-Perm temp [] = Perm.refl (temp ∷ [])
  insert_down-Perm temp (prev ∷ front) = elim (Bool-cases (should_swap size_lt field prev temp)) [
    | inl e ↦
        rw e (Perm.trans (Perm.cons prev (insert_down-Perm temp front)) (Perm.swap temp prev front))
    | inr e ↦ rw e (Perm.refl (temp ∷ prev ∷ front))
  ]

  module _ (asym : (a b : Size) → size_lt a b ≡ true → size_lt b a ≡ false) where
    should_swap_asym :
        (f : SortField) (x y : MovieEntry Size)
        → should_swap size_lt f x y ≡ true
        → should_swap size_lt f y x ≡ false
    unfolding should_swap
    should_swap_asym sort_by_title x y h = str_above_asym x.title y.title h
    should_swap_asym sort_by_year x y h = ground arith
    should_swap_asym sort_by_rating x y h = ground arith
    should_swap_asym sort_by_size x y h = asym x.size_gb y.size_gb h
    should_swap_asym sort_by_peers x y h = ground arith
    should_swap_asym sort_by_downloads x y h = ground arith

    insert_down-DownOrder :
        (temp : MovieEntry Size) (front : List (MovieEntry Size))
        → DownOrder front
        → DownOrder (insert_down size_lt field temp front)
    unfolding insert_down
    insert_down-DownOrder temp [] h = tt
    insert_down-DownOrder temp (p ∷ []) h = elim (Bool-cases (should_swap size_lt field p temp)) [
      | inl e ↦ rw e (should_swap_asym field p temp e, tt)
      | inr e ↦ rw e (e, tt)
    ]
    insert_down-DownOrder temp (p ∷ q ∷ front) h =
        elim (Bool-cases (should_swap size_lt field p temp)) [
          | inr e ↦ rw e (e, h)
          | inl e ↦
              let rest = insert_down-DownOrder temp (q ∷ front) h.1 in
              elim (Bool-cases (should_swap size_lt field q temp)) [
                | inl f ↦ rw (e, f) (h.0, rw f at rest)
                | inr f ↦ rw (e, f) (should_swap_asym field p temp e, rw f at rest)
              ]
        ]

    sort_from-DownOrder :
        (front back : List (MovieEntry Size))
        → DownOrder front
        → DownOrder (sort_from size_lt field front back)
    unfolding sort_from
    sort_from-DownOrder front [] h = h
    sort_from-DownOrder front (temp ∷ back) h =
        sort_from-DownOrder (insert_down size_lt field temp front) back
          (insert_down-DownOrder temp front h)

    turn-InOrder :
        (x : MovieEntry Size) (down up : List (MovieEntry Size))
        → DownOrder (x ∷ down)
        → InOrder (x ∷ up)
        → InOrder (turn down (x ∷ up))
    unfolding turn
    turn-InOrder x [] up h k = k
    turn-InOrder x (y ∷ down) up h k = turn-InOrder y down (x ∷ up) h.1 (h.0, k)

    down_turned : (down : List (MovieEntry Size)) → DownOrder down → InOrder (turn down [])
    unfolding turn
    down_turned [] h = tt
    down_turned (x ∷ down) h = turn-InOrder x down [] h tt

    sorted : (es : List (MovieEntry Size)) → InOrder (catalog_sort size_lt es field)
    unfolding catalog_sort
    sorted [] = tt
    sorted (e ∷ es) = down_turned _ (sort_from-DownOrder (e ∷ []) es tt)

  turn-Perm : (xs ys : List (MovieEntry Size)) → Perm (turn xs ys) (xs ++ ys)
  unfolding turn
  turn-Perm [] ys = Perm.refl ys
  turn-Perm (x ∷ xs) ys = Perm.trans (turn-Perm xs (x ∷ ys)) (perm_middle xs ys)

  sort_from-Perm :
      (front back : List (MovieEntry Size))
      → Perm (sort_from size_lt field front back) (front ++ back)
  unfolding sort_from
  sort_from-Perm front [] = rw (append-nil front) (Perm.refl front)
  sort_from-Perm front (temp ∷ back) =
      Perm.trans (sort_from-Perm (insert_down size_lt field temp front) back) (
        Perm.trans (Perm.append_right back (insert_down-Perm temp front))
          (Perm.symm (perm_middle front back)))

  -- catalog_sort leaves a permutation of the entries in which no entry should move behind its
  -- successor, for every field, where the comparison of sizes is asymmetric.
  pub catalog_sort-InOrder :
      ((a b : Size) → size_lt a b ≡ true → size_lt b a ≡ false)
      → (es : List (MovieEntry Size))
      → InOrder (catalog_sort size_lt es field) × Perm (catalog_sort size_lt es field) es
  unfolding catalog_sort turn sort_from
  catalog_sort-InOrder asym [] = (tt, Perm.refl [])
  catalog_sort-InOrder asym (e ∷ es) = (
    sorted asym (e ∷ es),
    Perm.trans (turn-Perm (sort_from size_lt field (e ∷ []) es) [])
        (rw (append-nil (sort_from size_lt field (e ∷ []) es)) (sort_from-Perm (e ∷ []) es)),
  )
