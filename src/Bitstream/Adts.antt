-- ===== src/Bitstream/Adts.antt =====
-- common/src/media/bitstream/aac/aac_converter.cpp: AAC packets to ADTS frames and back. Convert
-- and MakeHeader of aac_latm_to_adts.cpp are the same text under other names.
pub mod RoundTrip
use media_engine.Base.{
  ℕ, zero, suc, bit_and, bit_or, Bool, true, false, not, Option, none, some, List, [], ltb, length,
  take, drop, ◌+◌, ◌-◌, ◌*◌, ◌/◌, ◌%◌, ◌^◌, ◌||◌, ◌∷◌, ◌++◌, ◌==◌, if◌then◌else◌,
}
use media_engine.Base.Bytes.{Bytes}
use media_engine.Flv.{Parsed, rejected, parsed}
use media_engine.Flv
use media_engine.Bitstream.BitWriter.{new_bit_writer, write, get_data}
use media_engine.Bitstream.Converter.{PacketType, raw, sequence_header}
use media_engine.Bitstream.Aac.{AacSpecificConfig, parse_aac_config, get_aac_extradata}

-- `GetAacProfile`
unfoldable pub get_aac_profile : AacSpecificConfig → ℕ
get_aac_profile config =
    let t = config.object_type in
    if t == 1 then 0 else if t == 5 || (t == 29 || t == 2) then 1 else if t == 3 then 2 else 3

-- `MakeAdtsHeader`. The length has 16 bits, signed; the header takes the low 13 of them, so its
-- sign does not matter.
unfoldable pub make_adts_header : ℕ → ℕ → ℕ → ℕ → Bytes
unfolding write get_data
make_adts_header profile sample_rate channels data_length =
    let w₁ = write 1 1 (write 2 0 (write 1 0 (write 12 0xfff (new_bit_writer 7)))) in
    let w₂ = write 3 channels (write 1 0 (write 4 sample_rate (write 2 profile w₁))) in
    let w₃ = write 1 0 (write 1 0 (write 1 0 (write 1 0 w₂))) in
    get_data (write 2 0 (write 11 0x3f (write 13 ((data_length + 7) % 2 ^ 16) w₃)))

-- The configuration behind a `Parse` whose result is not looked at; `fresh` is what the constructor
-- leaves in it.
abbrev pub config_or : AacSpecificConfig → Parsed AacSpecificConfig → AacSpecificConfig
config_or fresh rejected = fresh
config_or fresh Flv.crash = fresh
config_or fresh (parsed config) = config

-- The header in front of a packet: none without extradata.
unfoldable pub header_for : AacSpecificConfig → Bytes → ℕ → Bytes
unfolding make_adts_header get_aac_profile parse_aac_config
header_for fresh [] data_length = []
header_for fresh (e ∷ es) data_length =
    let config = config_or fresh (parse_aac_config (e ∷ es)) in
    make_adts_header (get_aac_profile config) config.sampling_frequency_index config.channel
      (data_length % 2 ^ 16)

-- `ConvertLatmToAdts`: what it returns, and what the packet's data is then.
unfoldable pub convert_latm_to_adts : AacSpecificConfig → PacketType → Bytes → Bytes → Bool × Bytes
unfolding header_for
convert_latm_to_adts fresh sequence_header packet extradata = (false, packet)
convert_latm_to_adts fresh raw packet extradata =
    (true, header_for fresh extradata (length packet) ++ packet)
convert_latm_to_adts fresh _ packet extradata = (true, [])

-- `nullptr`, no fuel left, or the packets one behind the other with their lengths.
pub data Latm : Type 0 where
  refused stuck : Latm
  latm : Bytes → List ℕ → Latm

-- `OV_GET_BITS(uint8_t, value, index, count)`
abbrev pub get_bits : ℕ → ℕ → ℕ → ℕ
get_bits value index count = value * 2 ^ (8 - (index + count)) % 256 / 2 ^ (8 - count)

-- The lengths of the header and of the frame; none where there are fewer than `ADTS_MIN_SIZE`
-- bytes, no syncword, or a layer.
unfoldable pub frame_sizes : Bytes → Option (ℕ × ℕ)
frame_sizes (b₀ ∷ b₁ ∷ b₂ ∷ b₃ ∷ b₄ ∷ b₅ ∷ b₆ ∷ s) =
    if not (b₀ == 0xff) || not (bit_and b₁ 0xf0 == 0xf0)
    then none
    else if not (get_bits b₁ 1 2 == 0)
    then none
    else some (
      if b₁ % 2 == 1 then 7 else 9,
      bit_or (bit_or (get_bits b₃ 0 2 * 2 ^ 11) (b₄ * 8)) (get_bits b₅ 5 3),
    )
frame_sizes s = none

unfoldable pub add_packet : ℕ → Bytes → Latm → Latm
add_packet payload_length payload refused = refused
add_packet payload_length payload stuck = stuck
add_packet payload_length payload (latm bytes lengths) =
    latm (payload ++ bytes) (payload_length ∷ lengths)

-- The loop: a round takes 7 bytes at least.
unfoldable pub adts_loop : ℕ → Bytes → Latm
unfolding frame_sizes add_packet
adts_loop fuel [] = latm [] []
adts_loop zero (b ∷ s) = stuck
adts_loop (suc fuel) (b ∷ s) = elim (frame_sizes (b ∷ s)) [
  | none ↦ refused
  | some sizes ↦
      let (header_length, frame_length) = sizes in
      elim (ltb frame_length header_length || ltb (length (b ∷ s)) frame_length) [
        | true ↦ refused
        | false ↦
            add_packet (frame_length - header_length)
              (take (frame_length - header_length) (drop header_length (b ∷ s)))
              (adts_loop fuel (drop frame_length (b ∷ s)))
      ]
]

-- `ConvertAdtsToLatm`
unfoldable pub convert_adts_to_latm : Bytes → Latm
unfolding adts_loop
convert_adts_to_latm packet = adts_loop (length packet) packet

-- `AACLatmToAdts::Convert`, and `GetExtraDataFromLatm`, which is that of `AACLatmToAdts`.
abbrev pub convert : AacSpecificConfig → PacketType → Bytes → Bytes → Bool × Bytes
convert = convert_latm_to_adts

unfoldable pub get_extra_data_from_latm : PacketType → Bytes → Parsed Bytes
unfolding get_aac_extradata
get_extra_data_from_latm sequence_header packet = get_aac_extradata packet
get_extra_data_from_latm _ packet = rejected
