-- ===== src/Metainfo/Sound.antt =====
-- core/metainfo.c: what holds of every metainfo that metainfo_parse returns.
use pipensx_video_downloader.Prelude.{
  ℕ, ◌/◌, ◌%◌, ◌≤◌, ◌≡◌, refl, true, List, some, Bytes, ◌==◌, ==_iff, length, arith,
}
use pipensx_video_downloader.Prelude.Errors.{◌>>=◌, guard, >>=-eq-some}
use mathlib.Core.Path.{subst}
use pipensx_video_downloader.Prelude.Errors.{some_inj}
use pipensx_video_downloader.Bencode.{be_decode, be_dict_get}
use pipensx_video_downloader.Bencode.Sound.{guard-true}
use pipensx_video_downloader.Metainfo.{metainfo_path_is_safe}
use pipensx_video_downloader.Metainfo.Keys.{str_info, str_pieces, str_piece_length}
use pipensx_video_downloader.Metainfo.Files.{
  MiFile, Metainfo, MetaOps, max_piece_length, c_string, as_str, as_int, as_dict, within,
  parse_layout, name_of, pieces_for,
}
use pipensx_video_downloader.Metainfo.Parse.{metainfo_parse}
use pipensx_video_downloader.Metainfo.Layout.{
  within_lem, sum_lengths-Placed, IsLayout, parse_layout-IsLayout,
}

pub record IsWellFormed (mi : Metainfo) : Type 0 where
  pub name_safe : metainfo_path_is_safe (c_string mi.name) ≡ true
  pub piece_length_pos : 1 ≤ mi.piece_length
  pub piece_length_le : mi.piece_length ≤ max_piece_length
  pub hashes : length mi.piece_hashes % 20 ≡ 0
  pub num_hashes : mi.num_pieces ≡ length mi.piece_hashes / 20 % 4294967296
  pub num_pieces : mi.num_pieces ≡ pieces_for mi.total_length mi.piece_length
  pub layout : IsLayout mi.files mi.total_length
  pub total_le : mi.total_length ≤ 4611686018427387904

total_length_le :
    (files : List MiFile) (total : ℕ) → IsLayout files total → total ≤ 4611686018427387904
total_length_le files total l = omega (arith, sum_lengths-Placed 0 files l.placed, l.sums, l.few)

--
-- Every metainfo that metainfo_parse returns has a safe name, a piece length from 1 to 2^28, whole
-- hashes, the piece count of its hashes and of its bytes modulo 2^32, at most 4096 files, and a
-- total of at most 2^62 bytes that is the sum of the file lengths; each file is one that was
-- passed over or has a safe path, a length of at most 2^50 and the sum of the lengths before it as
-- its offset.
pub metainfo_parse-IsWellFormed :
    (ops : MetaOps) (buf : Bytes) {mi : Metainfo}
    → metainfo_parse ops buf ≡ some mi
    → IsWellFormed mi
unfolding metainfo_parse
metainfo_parse-IsWellFormed ops buf h =
    let (root, hr, h1) = >>=-eq-some (be_decode buf >>= (λ r. as_dict r.0)) _ h in
    let (info, hi, h2) = >>=-eq-some (be_dict_get root str_info >>= as_dict) _ h1 in
    let (x, hx, h3) = >>=-eq-some (guard (metainfo_path_is_safe (c_string (name_of info)))) _ h2 in
    let (pl, hp, h4) =
      >>=-eq-some (be_dict_get info str_piece_length >>= as_int >>= within 1 max_piece_length) _
        h3 in
    let (pieces, hs, h5) = >>=-eq-some (be_dict_get info str_pieces >>= as_str) _ h4 in
    let (y, hy, h6) = >>=-eq-some (guard (length pieces % 20 == 0)) _ h5 in
    let (z, hz, h7) = >>=-eq-some (guard (ops.malloc (length pieces))) _ h6 in
    let (l, hl, h8) = >>=-eq-some (parse_layout ops info (name_of info)) _ h7 in
    let (w, hw, h9) =
      >>=-eq-some (guard (length pieces / 20 % 4294967296 == pieces_for l.1.1 pl)) _ h8 in
    let (v, _, hv) =
      >>=-eq-some (be_dict_get info str_piece_length >>= as_int) (within 1 max_piece_length) hp in
    let safe = guard-true _ (x, hx) in
    let layout = parse_layout-IsLayout ops info (name_of info) safe hl in
    let size = within_lem 1 max_piece_length v hv in
    subst IsWellFormed (some_inj h9) (record {
      name_safe = safe;
      piece_length_pos = size.0;
      piece_length_le = size.1;
      hashes = (==_iff (length pieces % 20) 0).0 (guard-true _ (y, hy));
      num_hashes = refl;
      num_pieces =
          (==_iff (length pieces / 20 % 4294967296) (pieces_for l.1.1 pl)).0 (guard-true _ (w, hw));
      layout = layout;
      total_le = total_length_le l.1.0 l.1.1 layout;
    })
