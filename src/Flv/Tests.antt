-- ===== src/Flv/Tests.antt =====
-- The parsers' theorems on concrete tags.
use media_engine.Base.{refl, some, [], arith, ◌≡◌, ◌∷◌}
use media_engine.Base.Bytes.{Bytes}
use media_engine.Flv.{parsed, parse_video}
use media_engine.Flv.Fields.{negsuc, si24, as_read, video_tag, parse_video-video_tag}

-- A composition time of -1, as the encoder writes it.
abbrev negative_time : Bytes
negative_time = 0x17 ∷ 1 ∷ 0xff ∷ 0xff ∷ 0xff ∷ 5 ∷ []

negative_time_run :
    parse_video negative_time
    ≡ parsed (record {
      frame_type = 1;
      codec_id = 7;
      packet_type = 1;
      composition_time = 16777215;
      payload = 5 ∷ [];
    })
unfolding parse_video
negative_time_run = refl

parse_video-video_tag_example : parse_video negative_time ≡ as_read (video_tag negative_time)
parse_video-video_tag_example =
    parse_video-video_tag negative_time
      (omega arith, (omega arith, (omega arith, (omega arith, (omega arith, (omega arith, tt))))))

negative_time_layout :
    video_tag negative_time
    ≡ some
        (record { frame_type = 1; packet_type = 1; composition_time = negsuc 0; payload = 5 ∷ [] })
unfolding video_tag si24
negative_time_layout = refl
