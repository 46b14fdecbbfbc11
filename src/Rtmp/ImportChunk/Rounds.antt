-- ===== src/Rtmp/ImportChunk/Rounds.antt =====
-- The loop of `FinalizeMessage` over all the blocks of a body.
use media_engine.Base.{
  ℕ, zero, suc, min, refl, ap, Bool, true, false, [], append_assoc, arith, length, take, drop,
  length-append, length-take, length-drop, take-append-drop, ◌+◌, ◌-◌, ◌*◌, ◌/◌, ◌≤◌, ◌<◌, ◌≡◌, ◌∙◌,
  ◌++◌,
}
use media_engine.Base.Bytes.{Bytes}
use media_engine.Rtmp.MuxUtil.{later_blocks, block_separator, get_chunk_data_raw}
use media_engine.Rtmp.MuxUtil.Sizes.{
  block_size, block_size-min, length-later_blocks, data_raw_blocks, blocks_suffice,
}
use media_engine.Rtmp.ImportChunk.{ok, refused, same_bytes, skip_header, finalize_blocks}
use media_engine.Rtmp.ImportChunk.Blocks.{
  finalize_round, finalize-later_blocks, finalize-mismatch_blocks, last_or_more,
}
use native.Mathlib.Nat.{div-add-mod, mod-lt}

skip_first :
    (expected : Bytes) (between : ℕ) (current : Bytes) (left : ℕ)
    → skip_header expected between true current left ≡ ok (current, left)
unfolding skip_header
skip_first expected between current left = refl

abbrev pub rounds : ℕ → Bytes → ℕ
rounds c body = (length body - 1) / c

le-mul : (r c : ℕ) → 0 < c → r ≤ r * c
le-mul r zero h = elim h [ ]
le-mul r (suc c) h = grind arith

pub le-mul_pos : (r k : ℕ) → 0 < r → k ≤ r * k
le-mul_pos zero k h = elim h [ ]
le-mul_pos (suc r) k h = grind arith

pub rounds_pos : (c : ℕ) (body : Bytes) → 0 < c → c < length body → 0 < rounds c body
rounds_pos c body hc h =
    ground (arith, div-add-mod (length body - 1) c, mod-lt (length body - 1) hc)

pub rounds_zero :
    (c : ℕ) (body : Bytes) → 0 < c → 0 < length body → length body ≤ c → ¬ (0 < rounds c body)
rounds_zero c body hc hb h p =
    omega (arith, le-mul_pos (rounds c body) c p, blocks_suffice c (length body) hc hb)

-- The first block, the rest of the loop still to come.
module _ (c id : ℕ) (body : Bytes) (extend : Bool) (time : ℕ) (hc : 0 < c)
    (hb : 0 < length body) where
  abbrev separator : Bytes
  separator = block_separator id extend time

  abbrev data_raw : Bytes
  data_raw = get_chunk_data_raw c id body extend time

  pub length-data_raw : length data_raw ≡ length body + rounds c body * length separator
  length-data_raw = rw (data_raw_blocks c id body extend time hc hb) (
      omega (
        arith,
        block_size-min c body,
        length-append (take (block_size c body) body)
            (later_blocks (rounds c body) c separator (drop (block_size c body) body)),
        length-take (block_size c body) body,
        length-drop (block_size c body) body,
        length-later_blocks (rounds c body) c separator (drop (block_size c body) body) (
            omega (
              arith,
              block_size-min c body,
              length-drop (block_size c body) body,
              (blocks_suffice c (length body) hc hb).0,
            )),
      ))

  first_block :
      (fuel : ℕ) (expected rest : Bytes)
      → finalize_blocks
          (suc fuel)
          c
          expected
          (length separator)
          true
          (data_raw ++ rest)
          (length data_raw)
          []
        ≡ finalize_blocks fuel c expected
            (length separator)
            false
            (later_blocks (rounds c body) c separator (drop (block_size c body) body) ++ rest)
            (length data_raw - length (take (block_size c body) body))
            (take (block_size c body) body)
  first_block fuel expected rest =
      let b = take (block_size c body) body in
      let later = later_blocks (rounds c body) c separator (drop (block_size c body) body) in
      let split : data_raw ++ rest ≡ b ++ (later ++ rest) =
        ap (λ s. s ++ rest) (data_raw_blocks c id body extend time hc hb)
        ∙ append_assoc b later rest in
      finalize_round c expected fuel (length separator) (length data_raw) (length data_raw) true
        (data_raw ++ rest) b (later ++ rest) [] (omega (arith, length-data_raw))
        (skip_first expected (length separator) (data_raw ++ rest) (length data_raw)
          ∙ ap (λ s. ok (s, length data_raw)) split)
        (omega (
          arith,
          length-data_raw,
          length-take (block_size c body) body,
          block_size-min c body,
          last_or_more (rounds c body) c (length separator),
          blocks_suffice c (length body) hc hb,
        ))

  pub finalize-data_raw :
      (expected rest : Bytes)
      → (0 < rounds c body → take (length expected) separator ≡ expected)
      → (0 < rounds c body → length expected ≤ length separator)
      → finalize_blocks
          (suc (length data_raw))
          c
          expected
          (length separator)
          true
          (data_raw ++ rest)
          (length data_raw)
          []
        ≡ ok body
  finalize-data_raw expected rest hm hl =
      let size = block_size c body in
      first_block (length data_raw) expected rest
      ∙ finalize-later_blocks c expected (rounds c body) (length data_raw) _ separator
          (drop size body) rest (take size body) hc
          (omega (
            arith,
            length-data_raw,
            le-mul (rounds c body) c hc,
            blocks_suffice c (length body) hc hb,
          ))
          (omega (
            arith,
            length-drop size body,
            block_size-min c body,
            div-add-mod (length body - 1) c,
            mod-lt (length body - 1) hc,
          ))
          (omega (
            arith,
            length-drop size body,
            block_size-min c body,
            blocks_suffice c (length body) hc hb,
          ))
          hm hl
          (omega (
            arith,
            length-data_raw,
            length-take size body,
            length-drop size body,
            block_size-min c body,
          ))
      ∙ ap ok (take-append-drop size body)

  -- Where another header than the expected one stands before the second block, the loop refuses.
  pub finalize_mismatch :
      (expected rest : Bytes)
      → 0 < rounds c body
      → same_bytes (take (length expected) separator) expected ≡ false
      → length expected ≤ length separator
      → finalize_blocks
          (suc (length data_raw))
          c
          expected
          (length separator)
          true
          (data_raw ++ rest)
          (length data_raw)
          []
        ≡ refused
  finalize_mismatch expected rest hr hm hl =
      let size = block_size c body in
      let body' = drop size body in
      let left : (length data_raw ≡ length body + rounds c body * length separator)
          × (length (take size body) ≡ min size (length body))
          × (size ≡ min c (length body))
          × (length separator ≤ rounds c body * length separator) =
        (
          length-data_raw,
          length-take size body,
          block_size-min c body,
          le-mul_pos (rounds c body) (length separator) hr,
        ) in
      let r : rounds c body ≡ suc (rounds c body - 1) = omega arith in
      let fuel : length data_raw ≡ suc (length data_raw - 1) = omega (arith, length-data_raw) in
      first_block (length data_raw) expected rest
      ∙ ap
          (λ k.
            finalize_blocks (length data_raw) c expected (length separator) false
              (later_blocks k c separator body' ++ rest) (length data_raw - length (take size body))
              (take size body))
          r
      ∙ ap
          (λ f.
            finalize_blocks f c expected (length separator) false
              (later_blocks (suc (rounds c body - 1)) c separator body' ++ rest)
              (length data_raw - length (take size body)) (take size body))
          fuel
      ∙ finalize-mismatch_blocks c expected (rounds c body - 1) (length data_raw - 1) _ separator
          body' rest (take size body)
          (omega (
            arith,
            left,
            le-mul_pos (rounds c body) c hr,
            (blocks_suffice c (length body) hc hb).1,
          ))
          (omega (arith, left)) hl hm
