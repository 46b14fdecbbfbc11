-- ===== src/Session/MetaData.antt =====
-- `OnAmfMetaData` in rtmp_stream.cpp: what an encoder says of its streams.
use media_engine.Base.{
  ℕ, Bool, true, false, Option, none, some, [], ◌&&◌, ◌||◌, ◌∷◌, ◌==◌, if◌then◌else◌,
}
use media_engine.Base.Bytes.{Bytes}
use media_engine.Base.Texts.{codes}
use media_engine.Amf.Value.{AmfProperty, number, string, Pairs}
use media_engine.Amf.Object.{same_text, find_name, get_pair, property_number}
use media_engine.Session.{
  RtmpCodecType, unknown, h264, aac, mp3, speex, RtmpEncoderType, custom, xsplit, obs, lavf,
  RtmpStream, Environment, one,
}

-- The property that `FindName` finds.
unfoldable pub named : Bytes → Pairs → Option AmfProperty
unfolding find_name get_pair
named name ps = elim (get_pair (find_name name ps) ps) [ none ↦ none | some p ↦ some p.1 ]

-- A property of a type, or what was there before.
unfoldable pub number_or : ℕ → Option AmfProperty → ℕ
number_or old (some (number n)) = n
number_or old _ = old

unfoldable pub string_or : Bytes → Option AmfProperty → Bytes
string_or old (some (string s)) = s
string_or old _ = old

-- `IndexOf(text) >= 0`
unfoldable pub starts_with : Bytes → Bytes → Bool
starts_with [] s = true
starts_with (b ∷ t) [] = false
starts_with (b ∷ t) (c ∷ s) = (b == c) && starts_with t s

unfoldable pub contains : Bytes → Bytes → Bool
unfolding starts_with
contains text [] = starts_with text []
contains text (c ∷ s) = let rest = contains text s in starts_with text (c ∷ s) || rest

unfoldable pub encoder_of : Bytes → RtmpEncoderType
unfolding contains
encoder_of device =
    if contains (codes "Open Broadcaster") device
    then obs
    else if contains (codes "obs-output") device
    then obs
    else if contains (codes "XSplitBroadcaster") device
    then xsplit
    else if contains (codes "Lavf") device
    then lavf
    else custom

-- The codecs by their names, and by the doubles 7.0, 10.0, 11.0 and 2.0.
unfoldable pub video_codec_of : Option AmfProperty → RtmpCodecType
unfolding same_text
video_codec_of (some (string s)) =
    if same_text (codes "avc1") s || same_text (codes "H264Avc") s then h264 else unknown
video_codec_of (some (number n)) = if n == 0x401c000000000000 then h264 else unknown
video_codec_of _ = unknown

unfoldable pub audio_codec_of : Option AmfProperty → RtmpCodecType
unfolding same_text
audio_codec_of (some (string s)) =
    if same_text (codes "mp4a") s
    then aac
    else if same_text (codes "mp3") s || same_text (codes ".mp3") s
    then mp3
    else if same_text (codes "speex") s
    then speex
    else unknown
audio_codec_of (some (number n)) =
    if n == 0x4024000000000000
    then aac
    else if n == 0x4026000000000000
    then speex
    else if n == 0x4000000000000000
    then mp3
    else unknown
audio_codec_of _ = unknown

-- The number of channels as a double: 1.0 unless something else is said.
unfoldable pub channels_of : Option AmfProperty → ℕ
unfolding same_text
channels_of (some (number n)) = n
channels_of (some (string s)) = if same_text (codes "stereo") s then 0x4000000000000000 else one
channels_of _ = one

-- The bit rate: `bitrate` counts more than `videodatarate`, and `maxBitrate` more than both.
unfoldable pub text_number : (Bytes → ℕ) → ℕ → Option AmfProperty → ℕ
text_number strtol old (some (string s)) = strtol s
text_number strtol old _ = old

unfoldable pub video_bitrate_of : (Bytes → ℕ) → Pairs → ℕ
unfolding named number_or text_number
video_bitrate_of strtol ps =
    text_number strtol
      (number_or (number_or 0 (named (codes "videodatarate") ps)) (named (codes "bitrate") ps))
      (named (codes "maxBitrate") ps)

-- A number whose type is not looked at: 0 where nothing or something else is found.
unfoldable pub any_number : Option AmfProperty → ℕ
unfolding property_number
any_number none = 0
any_number (some v) = property_number v

-- `OnAmfMetaData` on the pairs of its object or array.
unfoldable pub on_amf_meta_data : Environment → Pairs → RtmpStream → RtmpStream
unfolding named number_or string_or encoder_of video_codec_of audio_codec_of channels_of
    video_bitrate_of any_number
on_amf_meta_data env ps st =
    let device =
      string_or (string_or st.device_string (named (codes "encoder") ps))
        (named (codes "videodevice") ps) in
    record st {
      device_string = device;
      media_info = record st.media_info {
        video_codec_type = video_codec_of (named (codes "videocodecid") ps);
        video_width = env.to_int32 (number_or 0 (named (codes "width") ps));
        video_height = env.to_int32 (number_or 0 (named (codes "height") ps));
        video_framerate = env.to_float (
            number_or (number_or 0x403e000000000000 (named (codes "videoframerate") ps))
              (named (codes "framerate") ps));
        video_bitrate = env.to_int32 (video_bitrate_of env.strtol ps);
        audio_codec_type = audio_codec_of (named (codes "audiocodecid") ps);
        audio_bitrate = env.to_int32 (
            number_or (number_or 0 (named (codes "audiobitrate") ps))
              (named (codes "audiodatarate") ps));
        audio_channels = env.to_int32 (channels_of (named (codes "audiochannels") ps));
        audio_bits = env.to_int32 (any_number (named (codes "audiosamplesize") ps));
        audio_samplerate = env.to_int32 (any_number (named (codes "audiosamplerate") ps));
        encoder_type = encoder_of device;
      };
    }
