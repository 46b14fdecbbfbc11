-- ===== src/Flv.antt =====
-- common/src/media/flv/flv_parser.cpp: the tags in front of video and audio messages.
mod Tests
pub mod Fields
use media_engine.Base.{ℕ, not, Option, none, some, ltb, length, ◌==◌, if◌then◌else◌}
use media_engine.Base.Bytes.{Bytes}
use media_engine.Nalu.BitReader.{BitReader, read_bit}
use media_engine.Nalu.ReadBits.{BitsRead, refused, overread, stuck, value_of, read_bits, read_byte}

-- `FlvVideoData`, each enumeration as its number.
pub record FlvVideoData : Type 0 where
  pub frame_type : ℕ
  pub codec_id : ℕ
  pub packet_type : ℕ
  pub composition_time : ℕ
  pub payload : Bytes

-- `FlvAudioData`
pub record FlvAudioData : Type 0 where
  pub format : ℕ
  pub sample_rate : ℕ
  pub sample_size : ℕ
  pub channel : ℕ
  pub packet_type : ℕ
  pub payload : Bytes

-- What `Parse` comes to: false, a read behind the end, or the data.
pub data Parsed {ℓ} (A : Type ℓ) : Type ℓ where
  rejected crash : Parsed A
  parsed : A → Parsed A

-- `ReadBits<T>(bits)` and `ReadBytes<T>()`: 0 where the read fails, and the parser goes on.
unfoldable pub or_zero {ℓ} :
    {A : Type ℓ} → BitReader → BitsRead → (ℕ → BitReader → Parsed A) → Parsed A
or_zero r refused k = k 0 r
or_zero r overread k = crash
or_zero r stuck k = crash
or_zero r (value_of v r') k = k v r'

-- `ReadBit()`: 0 where the reader is at its end.
unfoldable pub bit_or_zero {ℓ} :
    {A : Type ℓ} → BitReader → Option (ℕ × BitReader) → (ℕ → BitReader → Parsed A) → Parsed A
bit_or_zero r none k = k 0 r
bit_or_zero r (some (b, r')) k = k b r'

abbrev pub avc : ℕ
avc = 7

-- `FlvVideoData::Parse`
unfoldable pub parse_video : Bytes → Parsed FlvVideoData
unfolding or_zero read_bits read_byte
parse_video bytes =
    let r : BitReader = record { remaining = bytes; bit_offset = 0 } in
    if ltb (length bytes) 5
    then rejected
    else or_zero r (read_bits 8 4 r) (λ frame_type r₁. or_zero r₁ (read_bits 8 4 r₁) (λ codec_id r₂.
      if not (codec_id == avc)
      then rejected
      else or_zero r₂ (read_byte r₂) (λ packet_type r₃.
        or_zero r₃ (read_bits 32 24 r₃) (λ composition_time r₄. parsed (record {
          frame_type = frame_type;
          codec_id = codec_id;
          packet_type = packet_type;
          composition_time = composition_time;
          payload = r₄.remaining;
        })))))

-- `FlvAudioData::Parse`
unfoldable pub parse_audio : Bytes → Parsed FlvAudioData
unfolding or_zero bit_or_zero read_bits read_byte read_bit
parse_audio bytes =
    let r : BitReader = record { remaining = bytes; bit_offset = 0 } in
    if ltb (length bytes) 2
    then rejected
    else or_zero r (read_bits 8 4 r) (λ format r₁. or_zero r₁ (read_bits 8 2 r₁) (λ sample_rate r₂.
      bit_or_zero r₂ (read_bit r₂) (λ sample_size r₃. bit_or_zero r₃ (read_bit r₃) (λ channel r₄.
        or_zero r₄ (read_byte r₄) (λ packet_type r₅. parsed (record {
          format = format;
          sample_rate = sample_rate;
          sample_size = sample_size;
          channel = channel;
          packet_type = packet_type;
          payload = r₅.remaining;
        }))))))
