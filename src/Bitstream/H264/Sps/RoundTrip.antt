-- ===== src/Bitstream/H264/Sps/RoundTrip.antt =====
-- `H264Parser::ParseSPS` on a parameter set as the H.264 standard writes it.
use media_engine.Base.{ℕ, ◌%◌, ◌<◌, ◌≡◌}
use media_engine.Base.Bytes.{Bytes}
use media_engine.Nalu.BitReader.{BitReader}

-- A byte of the header: no forbidden bit, and type 7.
abbrev pub IsHeader : ℕ → Type 0
IsHeader b = (b < 128) × (b % 32 ≡ 7)
