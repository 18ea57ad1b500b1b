-- ===== src/Tests/Digests.antt =====
-- core/sha1.c on short texts.
use pipensx_video_downloader.Prelude.{◌≡◌, refl, [], ◌∷◌, ◌++◌, Bytes, replicate}
use pipensx_video_downloader.Sha1.{
  words_of, blk0, blk, schedule, mix, round_constant, round, rounds, sha1_transform, sha1_init,
  transform_all, count_more, sha1_update, finalcount, pad_zeros, sha1_final, sha1,
}
use pipensx_video_downloader.Sha1.Update.{Streams, sha1_update-Streams, sha1_init-Streams}
use pipensx_video_downloader.Sha1.Final.{standard_sha1, sha1-standard_sha1}

-- What stands in the memory of a context.
abbrev memory : Bytes
memory = replicate 64 170

abbrev abc : Bytes
abc = b'a' ∷ b'b' ∷ b'c' ∷ []

-- The digest that the standard gives for "abc".
sha1_of_abc :
    sha1 memory abc
    ≡ 169 ∷ 153 ∷ 62 ∷ 54 ∷ 71 ∷ 6 ∷ 129 ∷ 106 ∷ 186 ∷ 62 ∷ 37 ∷ 113 ∷ 120 ∷ 80 ∷ 194 ∷ 108 ∷ 156
      ∷ 208 ∷ 216 ∷ 157 ∷ []
unfolding words_of blk0 blk schedule mix round_constant round rounds sha1_transform sha1_init
    transform_all count_more sha1_update finalcount pad_zeros sha1_final sha1
sha1_of_abc = refl

sha1_update-Streams_example : Streams (sha1_update (sha1_init memory) abc) ([] ++ abc)
sha1_update-Streams_example =
    sha1_update-Streams (sha1_init memory) [] abc (sha1_init-Streams memory refl)

sha1-standard_sha1_example : sha1 memory abc ≡ standard_sha1 abc
sha1-standard_sha1_example = sha1-standard_sha1 memory abc refl
