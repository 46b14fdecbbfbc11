-- ===== src/Session.antt =====
-- common/src/source/rtmp/rtmp_stream.{h,cpp}: the state of an RTMP session, and the form of its
-- handlers. Counters are their unsigned values and an `int` is its 32 bits. The callbacks are set,
-- and what they are given is kept in `sent` and `events`. The statistics, the log and the flag of
-- the message queue's name are left out, and so is `_url`, which no handler reads that did not just
-- set it.
mod Tests
pub mod Send
pub mod Tracks
pub mod Media
pub mod MetaData
pub mod Commands
pub mod Receive
pub mod Keeping
pub mod Invariant
pub mod Sends
pub mod Replies
pub mod Publishing
pub mod Replay
pub mod Live
pub mod Handshaking
use media_engine.Base.{ℕ, Bool, false, Option, List, [], ◌/◌, if◌then◌else◌}
use media_engine.Base.Bytes.{Bytes}
use media_engine.Rtmp.Header.{Message}
use media_engine.Rtmp.ImportChunk.{ImportChunk, new_import_chunk}
use media_engine.Rtmp.ExportChunk.{ExportChunk, new_export_chunk}
use media_engine.Rtmp.Handshake.{Supply}

-- `RtmpHandshakeState`; its last two names are one value.
pub data HandshakeState : Type 0 where
  uninitialized c0 c1 s0 s1 s2 complete : HandshakeState

-- `RtmpCodecType` and `RtmpEncoderType`
pub data RtmpCodecType : Type 0 where
  unknown h264 aac mp3 speex : RtmpCodecType

pub data RtmpEncoderType : Type 0 where
  custom xsplit obs lavf : RtmpEncoderType

-- `RtmpMediaInfo`; the frame rate is the bits of a float.
pub record MediaInfo : Type 0 where
  pub video_stream_coming : Bool
  pub audio_stream_coming : Bool
  pub video_codec_type : RtmpCodecType
  pub video_width : ℕ
  pub video_height : ℕ
  pub video_framerate : ℕ
  pub video_bitrate : ℕ
  pub audio_codec_type : RtmpCodecType
  pub audio_channels : ℕ
  pub audio_bits : ℕ
  pub audio_samplerate : ℕ
  pub audio_bitrate : ℕ
  pub encoder_type : RtmpEncoderType

pub data MediaType : Type 0 where
  video audio : MediaType

-- What a session sets of a `MediaTrack`: its id, its type, which settles the codec (H.264 or AAC),
-- the numbers of the metadata, and the extradata, which is empty at first.
pub record MediaTrack : Type 0 where
  pub track_id : ℕ
  pub media_type : MediaType
  pub width : ℕ
  pub height : ℕ
  pub frame_rate : ℕ
  pub sample_rate : ℕ
  pub channels : ℕ
  pub bitrate : ℕ
  pub codec_extradata : Bytes

-- What the application hears: `onRtmpAppStreamName` with `onTrack`, and `onSample`.
pub data Event : Type 0 where
  tracks_ready : Bytes → Bytes → List MediaTrack → Event
  sample : MediaType → ℕ → ℕ → Bool → Bytes → Event

pub record RtmpStream : Type 0 where
  pub handshake_state : HandshakeState
  pub import_chunk : ImportChunk
  pub export_chunk : ExportChunk
  pub media_info : MediaInfo
  pub stream_message_cache : List Message
  pub stream_message_cache_video_count : ℕ
  pub stream_message_cache_audio_count : ℕ
  pub acknowledgement_size : ℕ
  pub acknowledgement_traffic : ℕ
  pub rtmp_stream_id : ℕ
  pub chunk_stream_id : ℕ
  pub full_url : Bytes
  pub tc_url : Bytes
  pub app_name : Bytes
  pub stream_name : Bytes
  pub device_string : Bytes
  pub published : Bool
  pub tracks : List MediaTrack
  pub track_info_sent : Bool
  pub remained_data : Bytes
  pub sent : List Bytes
  pub events : List Event

-- `_client_id`, 12345.0, and the double 1.0; `RTMP_DEFAULT_PEER_BANDWIDTH` and
-- `RTMP_DEFAULT_ACKNOWNLEDGEMENT_SIZE`.
abbrev pub client_id : ℕ
client_id = 0x40c81c8000000000

abbrev pub one : ℕ
one = 0x3ff0000000000000

abbrev pub peer_bandwidth : ℕ
peer_bandwidth = 2500000

abbrev pub default_acknowledgement_size : ℕ
default_acknowledgement_size = 2500000

abbrev pub new_media_info : MediaInfo
new_media_info = record {
  video_stream_coming = false;
  audio_stream_coming = false;
  video_codec_type = h264;
  video_width = 0;
  video_height = 0;
  video_framerate = 0;
  video_bitrate = 0;
  audio_codec_type = aac;
  audio_channels = 0;
  audio_bits = 0;
  audio_samplerate = 0;
  audio_bitrate = 0;
  encoder_type = custom;
}

-- `RtmpStream::RtmpStream`, with `RTMP_DEFAULT_CHUNK_SIZE`.
abbrev pub new_rtmp_stream : RtmpStream
new_rtmp_stream = record {
  handshake_state = uninitialized;
  import_chunk = new_import_chunk 128;
  export_chunk = new_export_chunk false 128;
  media_info = new_media_info;
  stream_message_cache = [];
  stream_message_cache_video_count = 0;
  stream_message_cache_audio_count = 0;
  acknowledgement_size = default_acknowledgement_size / 2;
  acknowledgement_traffic = 0;
  rtmp_stream_id = 1;
  chunk_stream_id = 0;
  full_url = [];
  tc_url = [];
  app_name = [];
  stream_name = [];
  device_string = [];
  published = false;
  tracks = [];
  track_info_sent = false;
  remained_data = [];
  sent = [];
  events = [];
}

-- What the session calls: the handshake's libraries and clock; `ov::Url::Parse` followed by
-- `Stream()`, none where it returns null; and the conversions of a double's bits to an `int32_t`
-- and to a float, and of a text to a double by `strtol`.
pub record Environment : Type 0 where
  pub supply : Supply
  pub now : ℕ
  pub url_stream : Bytes → Option Bytes
  pub to_int32 : ℕ → ℕ
  pub to_float : ℕ → ℕ
  pub strtol : Bytes → ℕ

-- What a handler comes to: a value and the new state, a read through a null pointer or behind a
-- buffer, or a loop out of fuel.
pub data Run (A : Type 0) : Type 0 where
  returns : A → RtmpStream → Run A
  crash stuck : Run A

abbrev pub Action : Type 0 → Type 0
Action A = RtmpStream → Run A

unfoldable pub bind : {A B : Type 0} → Run A → (A → Action B) → Run B
bind (returns a st) f = f a st
bind crash f = crash
bind stuck f = stuck

infixl 5 ◌>>=◌ ◌>>◌
abbrev pub ◌>>=◌ : {A B : Type 0} → Action A → (A → Action B) → Action B
◌>>=◌ m f st = bind (m st) f

abbrev pub ◌>>◌ : {A B : Type 0} → Action A → Action B → Action B
◌>>◌ m k st = bind (m st) (λ _. k)

abbrev pub pure : {A : Type 0} → A → Action A
pure a st = returns a st

abbrev pub modify : (RtmpStream → RtmpStream) → Action Unit
modify f st = returns tt (f st)

-- A chain of calls that ends with the first one that returns false.
infixr 4 ◌&then◌
abbrev pub ◌&then◌ : Action Bool → Action Bool → Action Bool
◌&then◌ m k = m >>= (λ done. if done then k else pure false)

-- A call whose result is dropped.
abbrev pub ignore : {A : Type 0} → Action A → Action Unit
ignore m = m >> pure tt
