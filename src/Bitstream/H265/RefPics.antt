-- ===== src/Bitstream/H265/RefPics.antt =====
-- `H265Parser::ProcessShortTermRefPicSet`, and the loop of `ParseSPS` over the sets.
use media_engine.Base.{
  ℕ, zero, suc, not, Option, none, some, List, [], ltb, get_elem?, ◌+◌, ◌-◌, ◌%◌, ◌^◌, ◌||◌, ◌∷◌,
  ◌++◌, ◌==◌, if◌then◌else◌,
}
use media_engine.Bitstream.Reading.{crash, Parser, pure, ◌>>=◌, bits, uev}
use media_engine.Bitstream.H265.{flag}

-- The fields of `ShortTermRefPicSet` that are read again: the flags of each picture,
-- `used_by_curr_pic_flag` and `use_delta_flag`, and the two counts.
pub record RefPicSet : Type 0 where
  pub inter_ref_pic_set_prediction_flag : ℕ
  pub flags : List (ℕ × ℕ)
  pub num_negative_pics : ℕ
  pub num_positive_pics : ℕ

abbrev pub no_ref_pics : RefPicSet
no_ref_pics = record {
  inter_ref_pic_set_prediction_flag = 0;
  flags = [];
  num_negative_pics = 0;
  num_positive_pics = 0;
}

-- `rpset_list[index]` of `total` sets, those behind `sets` not filled yet; none is behind the
-- vector. The set that is being filled, which has no flags yet, counts like an empty one.
unfoldable pub set_at : ℕ → List RefPicSet → ℕ → Option RefPicSet
set_at total sets index = elim (get_elem? sets index) [
  | some s ↦ some s
  | none ↦ if ltb index total then some no_ref_pics else none
]

unfoldable pub count_flags : List (ℕ × ℕ) → ℕ
count_flags [] = 0
count_flags ((used, use_delta) ∷ rest) =
    (if not (used == 0) || not (use_delta == 0) then 1 else 0) + count_flags rest

-- `num_delta_pocs`
unfoldable pub num_delta_pocs : RefPicSet → ℕ
unfolding count_flags
num_delta_pocs s =
    if s.inter_ref_pic_set_prediction_flag == 0
    then (s.num_negative_pics + s.num_positive_pics) % 2 ^ 32
    else count_flags s.flags

-- The loop over the flags. The vectors have one entry more, which keeps its first values.
unfoldable pub pic_flags : ℕ → Parser (List (ℕ × ℕ))
unfolding bits
pic_flags zero = pure ((0, 1) ∷ [])
pic_flags (suc count) = do
  used ← flag
  use_delta ← if used == 0 then flag else pure 1
  rest ← pic_flags count
  pure ((used, use_delta) ∷ rest)

-- The pictures on one side, each with its distance and a flag.
unfoldable pub pic_offsets : ℕ → Parser ℕ
unfolding bits uev
pic_offsets zero = pure 0
pic_offsets (suc count) = do delta_poc_minus1 ← uev; used_by_curr_pic_flag ← flag; pic_offsets count

-- The flags of 2 ^ 32 - 1 pictures: `num_delta_pocs + 1` wraps to vectors of no entry, and the
-- first flag that is read is written behind them.
unfoldable pub no_flags : Parser RefPicSet
unfolding bits
no_flags = flag >>= λ used r. crash

-- A set predicted from an earlier one, at a distance that is read for the set of index 1 only.
unfoldable pub predicted_from : Option RefPicSet → Parser RefPicSet
unfolding num_delta_pocs pic_flags no_flags
predicted_from none = λ r. crash
predicted_from (some s) =
    if num_delta_pocs s + 1 == 2 ^ 32
    then no_flags
    else (pic_flags (num_delta_pocs s) >>= λ flags.
        pure (record no_ref_pics { inter_ref_pic_set_prediction_flag = 1; flags = flags }))

unfoldable pub predicted_set : ℕ → ℕ → List RefPicSet → Parser RefPicSet
unfolding bits uev set_at predicted_from
predicted_set idx total sets = do
  delta_idx_minus1 ← if idx == 1 then uev else pure 0
  delta_rps_sign ← flag
  abs_delta_rps_minus1 ← uev
  predicted_from (set_at total sets ((idx + 2 ^ 33 - (delta_idx_minus1 + 1)) % 2 ^ 32))

unfoldable pub explicit_set : Parser RefPicSet
unfolding uev pic_offsets
explicit_set = do
  num_negative_pics ← uev
  num_positive_pics ← uev
  negative ← pic_offsets num_negative_pics
  positive ← pic_offsets num_positive_pics
  pure (record no_ref_pics {
    num_negative_pics = num_negative_pics;
    num_positive_pics = num_positive_pics;
  })

-- `ProcessShortTermRefPicSet`
unfoldable pub process_short_term_ref_pic_set : ℕ → ℕ → List RefPicSet → Parser RefPicSet
unfolding bits predicted_set explicit_set
process_short_term_ref_pic_set idx total sets = do
  inter_ref_pic_set_prediction_flag ← if idx == 0 then pure 0 else flag
  if inter_ref_pic_set_prediction_flag == 1 then predicted_set idx total sets else explicit_set

-- The sets from the one of index `idx` on.
unfoldable pub ref_pic_sets : ℕ → ℕ → ℕ → List RefPicSet → Parser ℕ
unfolding process_short_term_ref_pic_set
ref_pic_sets zero idx total sets = pure 0
ref_pic_sets (suc count) idx total sets = process_short_term_ref_pic_set idx total sets >>= λ s.
    ref_pic_sets count (idx + 1) total (sets ++ (s ∷ []))
