-- ===== src/Bitstream/H265/Profile.antt =====
-- `H265Parser::ProcessProfileTierLevel`.
use media_engine.Base.{ℕ, zero, suc, List, [], ltb, ◌-◌, ◌∷◌, ◌==◌, if◌then◌else◌}
use media_engine.Bitstream.Reading.{Parser, pure, ◌>>=◌, ◌>>◌, bits, skip}
use media_engine.Bitstream.H265.{flag}

pub record ProfileTierLevel : Type 0 where
  pub profile_idc : ℕ
  pub level_idc : ℕ

-- The two flags of each sub-layer.
abbrev pub SubLayers : Type 0
SubLayers = List (ℕ × ℕ)

unfoldable pub sub_layer_flags : ℕ → Parser SubLayers
unfolding bits
sub_layer_flags zero = pure []
sub_layer_flags (suc count) = do
  profile_present_flag ← flag
  level_present_flag ← flag
  rest ← sub_layer_flags count
  pure ((profile_present_flag, level_present_flag) ∷ rest)

-- `Skip(2)` so many times.
unfoldable pub reserved_bits : ℕ → Parser ℕ
unfolding bits
reserved_bits zero = pure 0
reserved_bits (suc count) = skip 2 >>= λ dummy. reserved_bits count

-- What a sub-layer has: 88 bits that are skipped at once, and its level.
unfoldable pub sub_layers : SubLayers → Parser ℕ
unfolding bits
sub_layers [] = pure 0
sub_layers ((profile_present_flag, level_present_flag) ∷ rest) =
    (if profile_present_flag == 0 then pure 0 else skip 88) >>= λ profile.
    (if level_present_flag == 0 then pure 0 else skip 8) >>= λ level. sub_layers rest

unfoldable pub process_profile_tier_level : ℕ → Parser ProfileTierLevel
unfolding bits sub_layer_flags reserved_bits sub_layers
process_profile_tier_level max_sub_layers_minus1 = do
  general_profile_space ← bits 8 2
  general_tier_flag ← flag
  profile_idc ← bits 8 5
  skip 32
  general_progressive_source_flag ← flag
  general_interlaced_source_flag ← flag
  general_non_packed_constraint_flag ← flag
  general_frame_only_constraint_flag ← flag
  skip 32
  skip 12
  level_idc ← bits 8 8
  flags ← sub_layer_flags max_sub_layers_minus1
  reserved_bits (if ltb 0 max_sub_layers_minus1 then 8 - max_sub_layers_minus1 else 0)
  sub_layers flags
  pure (record { profile_idc = profile_idc; level_idc = level_idc })
