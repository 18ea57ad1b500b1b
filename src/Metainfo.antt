-- ===== src/Metainfo.antt =====
-- core/metainfo.c: the test of a path that comes from a torrent. A path is the list of the bytes in
-- front of its NUL.
pub mod Path
pub mod Keys
pub mod Files
pub mod Parse
pub mod Layout
pub mod Sound
use pipensx_video_downloader.Prelude.{
  ℕ, zero, suc, ◌+◌, ◌-◌, ◌*◌, ◌/◌, ◌%◌, ◌^◌, ◌≤◌, ◌<◌, min, bit_and, bit_or, bit_xor, ◌≡◌, ◌≢◌,
  ◌↔◌, refl, sym, ap, ◌∙◌, Bool, true, false, not, ◌&&◌, ◌||◌, ◌⊎◌, inl, inr, List, [], ◌∷◌, ◌++◌,
  map, Option, none, some, Bytes, ltb, leb, ◌==◌, ==_iff, if◌then◌else◌, Bool-cases, ltb→lt, leb→le,
  Option-cases, length, take, drop, get_elem?, get_or, set, replicate, arith, length-append,
  length-set, length-replicate, length-take, length-drop, take-append-drop, ℤ, signed,
}
use pipensx_video_downloader.Prelude.Errors.{◌>>=◌, ◌>>◌, guard, >>=-eq-some}

abbrev pub max_name_len : ℕ
max_name_len = 256

-- `p - component` is 0, or the component is "." or "..".
unfoldable pub bad_component : Bytes → Bool
bad_component [] = true
bad_component (c ∷ []) = c == b'.'
bad_component (c ∷ d ∷ []) = c == b'.' && d == b'.'
bad_component (c ∷ d ∷ e ∷ cs) = false

-- The loop, with the bytes from `component` to `p`.
unfoldable pub scan_components : Bytes → Bytes → Bool
scan_components component [] = not (bad_component component)
scan_components component (c ∷ cs) =
    let next = scan_components [] cs in
    let longer = scan_components (component ++ (c ∷ [])) cs in
    if c == b'\\'
    then false
    else if c == b'/'
    then (if bad_component component then false else next)
    else longer

unfoldable pub metainfo_path_is_safe : Bytes → Bool
metainfo_path_is_safe [] = false
metainfo_path_is_safe (c ∷ cs) =
    if c == b'/' || c == b'\\'
    then false
    else if leb max_name_len (length (c ∷ cs))
    then false
    else scan_components [] (c ∷ cs)
