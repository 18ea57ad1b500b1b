-- ===== src/Tests/Paths.antt =====
-- core/metainfo.c on paths.
use pipensx_video_downloader.Prelude.{ℕ, ◌<◌, ◌≡◌, ◌↔◌, refl, true, false, [], ◌∷◌, length}
use pipensx_video_downloader.Metainfo.{
  max_name_len, metainfo_path_is_safe, scan_components, bad_component,
}
use pipensx_video_downloader.Metainfo.Path.{IsRelative, metainfo_path_is_safe_iff}

-- "a/../b" is refused and "a/.b" is not.
climbing_refused : metainfo_path_is_safe (b'a' ∷ b'/' ∷ b'.' ∷ b'.' ∷ b'/' ∷ b'b' ∷ []) ≡ false
unfolding metainfo_path_is_safe scan_components bad_component
climbing_refused = refl

hidden_passes : metainfo_path_is_safe (b'a' ∷ b'/' ∷ b'.' ∷ b'b' ∷ []) ≡ true
unfolding metainfo_path_is_safe scan_components bad_component
hidden_passes = refl

metainfo_path_is_safe_iff_example :
    (metainfo_path_is_safe (b'a' ∷ b'/' ∷ b'.' ∷ b'b' ∷ []) ≡ true) ↔ (
      IsRelative (b'a' ∷ b'/' ∷ b'.' ∷ b'b' ∷ [])
      × (length {A = ℕ} (b'a' ∷ b'/' ∷ b'.' ∷ b'b' ∷ []) < max_name_len))
metainfo_path_is_safe_iff_example = metainfo_path_is_safe_iff (b'a' ∷ b'/' ∷ b'.' ∷ b'b' ∷ [])
