-- ===== src/Piece/Parsed.antt =====
-- core/piece.c on a metainfo that core/metainfo.c returns.
use pipensx_video_downloader.Prelude.{
  ℕ, zero, suc, ◌+◌, ◌-◌, ◌*◌, ◌/◌, ◌%◌, ◌≤◌, ◌<◌, ◌≡◌, Bool, inl, inr, List, some, Bytes, ltb,
  Bool-cases, length, arith,
}
use mathlib.Core.Path.{subst}
use native.Mathlib.Nat.{suc-mul, div-add-mod', mod-lt, div-lt_iff_lt-mul}
use pipensx_video_downloader.Metainfo.Files.{Metainfo, MetaOps, pieces_for}
use pipensx_video_downloader.Metainfo.Parse.{metainfo_parse}
use pipensx_video_downloader.Metainfo.Sound.{metainfo_parse-IsWellFormed}
use pipensx_video_downloader.Piece.State.{PieceInfo, piece_bytes, u32_mod, no_index}
use pipensx_video_downloader.Piece.Create.{fresh}
use pipensx_video_downloader.Piece.Totals.{sum_all}
use pipensx_video_downloader.Piece.KeepHash.{IsSound}
use pipensx_video_downloader.Piece.Fresh.{fresh-IsSound}

-- The fields of a metainfo that the manager reads.
abbrev pub info_of : Metainfo → PieceInfo
info_of mi = record {
  piece_length = mi.piece_length;
  total_length = mi.total_length;
  piece_hashes = mi.piece_hashes;
}

-- Pieces cover the bytes, and are few.
pieces_for_lem :
    (total size : ℕ)
    → 1 ≤ size
    → total ≤ 4294967288 * size
    → (total ≤ pieces_for total size * size) × (pieces_for total size ≤ 4294967288)
unfolding pieces_for
pieces_for_lem total size pos le =
    let q : ℕ = (total + size - 1) / size in
    let parts : q * size + (total + size - 1) % size ≡ total + size - 1 =
      div-add-mod' (total + size - 1) size in
    let rest : (total + size - 1) % size < size = mod-lt (total + size - 1) (omega (arith, pos)) in
    let one_more : 4294967289 * size ≡ 4294967288 * size + size = suc-mul 4294967288 size in
    let few : q < 4294967289 =
      (div-lt_iff_lt-mul {k = size} {x = total + size - 1} {y = 4294967289} (omega (arith, pos))).1
        (omega (arith, le, pos, one_more)) in
    let same : q % 4294967296 ≡ q = omega (arith, few) in
    rw same (omega (arith, parts, rest, pos), omega (arith, few))

last_piece_le :
    (mi : PieceInfo) (n i : ℕ)
    → n < u32_mod
    → mi.total_length ≤ n * mi.piece_length
    → i < n
    → piece_bytes mi n i ≤ mi.piece_length
unfolding piece_bytes
last_piece_le mi n i small covers lt = elim (Bool-cases (ltb ((i + 1) % u32_mod) n)) [
  | inl e ↦ rw e (omega arith)
  | inr e ↦
      let last : n ≡ i + 1 = ground arith in
      let one_more : suc i * mi.piece_length ≡ i * mi.piece_length + mi.piece_length =
        suc-mul i mi.piece_length in
      let bound : mi.total_length ≤ (i + 1) * mi.piece_length =
        subst (λ (k : ℕ). mi.total_length ≤ k * mi.piece_length) last covers in
      rw e (omega (arith, one_more, bound))
]

sum_all_le :
    (weight : ℕ → ℕ) (base n : ℕ)
    → ((i : ℕ) → i < base + n → weight i ≤ 268435456)
    → sum_all weight base n ≤ n * 268435456
unfolding sum_all
sum_all_le weight base zero h = omega arith
sum_all_le weight base (suc n) h =
    omega (arith, h base (omega arith), sum_all_le weight (base + 1) n (λ i lt. h i (omega arith)))

--
-- The manager that piece_mgr_create_ex makes for a parsed metainfo is sound, with any order of at
-- most 2^32 - 1 positions, where the bytes fill at most 2^32 - 8 pieces.
pub fresh-IsSound_parsed :
    {Store : Type 0} (ops : MetaOps) (buf : Bytes) (has_store : Bool) (store : Store)
    (hash_ok strict_order : Bool) (order : List ℕ) {mi : Metainfo}
    → metainfo_parse ops buf ≡ some mi
    → mi.total_length ≤ 4294967288 * mi.piece_length
    → length order ≤ no_index
    → IsSound (fresh (info_of mi) mi.num_pieces has_store store hash_ok strict_order order)
fresh-IsSound_parsed ops buf has_store store hash_ok strict_order order {mi} parsed few short =
    let w = metainfo_parse-IsWellFormed ops buf parsed in
    let count = pieces_for_lem mi.total_length mi.piece_length w.piece_length_pos few in
    let covers : mi.total_length ≤ mi.num_pieces * mi.piece_length = rw w.num_pieces count.0 in
    let small : mi.num_pieces ≤ 4294967288 = rw w.num_pieces count.1 in
    let piece = λ (i : ℕ) (lt : i < mi.num_pieces).
      last_piece_le (info_of mi) mi.num_pieces i (omega (arith, small)) covers lt in
    let piece_small : (i : ℕ)
        → i < mi.num_pieces
        → piece_bytes (info_of mi) mi.num_pieces i < u32_mod =
      λ i lt. omega (arith, piece i lt, w.piece_length_le) in
    let total =
      sum_all_le (piece_bytes (info_of mi) mi.num_pieces) 0 mi.num_pieces
        (λ i lt. omega (arith, piece i (omega (arith, lt)), w.piece_length_le)) in
    fresh-IsSound (info_of mi) mi.num_pieces has_store store hash_ok strict_order order
      (omega (arith, small)) (omega (arith, total, small)) piece_small short
