-- ===== src/Rtmp/ImportChunk/Blocks.antt =====
-- The loop of `FinalizeMessage` takes apart what `GetChunkDataRaw` has written.
use media_engine.Base.{
  ℕ, zero, suc, min, refl, ap, inl, inr, Bool, true, false, [], append-nil, append_assoc, arith,
  ltb, le→ltb, length, take, drop, length-append, length-take, length-drop, take-append-drop,
  take-append, drop-append, take-append_le, ◌+◌, ◌-◌, ◌*◌, ◌≤◌, ◌<◌, ◌≡◌, ◌∙◌, ◌⊎◌, ◌∷◌, ◌++◌, ◌==◌,
}
use media_engine.Base.Bytes.{Bytes}
use media_engine.Rtmp.MuxUtil.{later_blocks}
use media_engine.Rtmp.MuxUtil.Sizes.{block_size, block_size-min}
use media_engine.Rtmp.ImportChunk.{ok, refused, same_bytes, skip_header, finalize_blocks}

pub same_bytes_self : (xs : Bytes) → same_bytes xs xs ≡ true
unfolding same_bytes
same_bytes_self [] = refl
same_bytes_self (x ∷ xs) = ground (arith, same_bytes_self xs)

pub same_bytes→eq : (xs ys : Bytes) → same_bytes xs ys ≡ true → xs ≡ ys
unfolding same_bytes
same_bytes→eq [] [] h = refl
same_bytes→eq [] (y ∷ ys) h = cc
same_bytes→eq (x ∷ xs) [] h = cc
same_bytes→eq (x ∷ xs) (y ∷ ys) h = ground (arith, same_bytes→eq xs ys)

-- The bytes of a block, and the rest behind it.
take_block : (n : ℕ) (b tail : Bytes) → n ≡ length b → take n (b ++ tail) ≡ b
take_block n b tail e = ap (λ k. take k (b ++ tail)) e ∙ take-append b tail

drop_block : (n : ℕ) (b tail : Bytes) → n ≡ length b → drop n (b ++ tail) ≡ tail
drop_block n b tail e = ap (λ k. drop k (b ++ tail)) e ∙ drop-append b tail

-- Either no block follows, or a whole block fits before the last.
pub last_or_more : (r c k : ℕ) → ((r * c ≡ 0) × (r * k ≡ 0)) ⊎ (c ≤ r * c)
last_or_more zero c k = inl (omega arith, omega arith)
last_or_more (suc r) c k = inr (omega arith)

module _ (c : ℕ) (expected : Bytes) where
  -- A round with its header already skipped.
  pub finalize_round :
      (fuel between left n : ℕ) (first : Bool) (current b tail out : Bytes)
      → 0 < left
      → skip_header expected between first current left ≡ ok (b ++ tail, n)
      → min c n ≡ length b
      → finalize_blocks (suc fuel) c expected between first current left out
        ≡ finalize_blocks fuel c expected between false tail (n - length b) (out ++ b)
  unfolding finalize_blocks
  finalize_round fuel between left n first current b tail out hl hs hb =
      let more : (left == 0) ≡ false = ground arith in
      let enough : ltb (length (b ++ tail)) (min c n) ≡ false =
        le→ltb _ _ (omega (arith, length-append b tail)) in
      rw (
        more,
        finalize_blocks,
        hs,
        enough,
        take_block (min c n) b tail hb,
        drop_block (min c n) b tail hb,
        hb,
      )

  skip_separator :
      (separator rest : Bytes) (left : ℕ)
      → take (length expected) separator ≡ expected
      → length expected ≤ length separator
      → length separator ≤ left
      → skip_header expected (length separator) false (separator ++ rest) left
        ≡ ok (rest, left - length separator)
  unfolding skip_header
  skip_separator separator rest left hm hl hn =
      let enough : ltb left (length separator) ≡ false = le→ltb _ _ hn in
      let holds : ltb (length (separator ++ rest)) (length separator) ≡ false =
        le→ltb _ _ (omega (arith, length-append separator rest)) in
      rw (
        enough,
        holds,
        take-append_le (length expected) separator rest hl,
        hm,
        same_bytes_self expected,
        drop-append separator rest,
      )

  -- The rounds behind the first block give back the rest of the body.
  pub finalize-later_blocks :
      (r fuel left : ℕ) (separator body tail out : Bytes)
      → 0 < c
      → r < fuel
      → r * c < length body + c
      → length body ≤ r * c
      → (0 < r → take (length expected) separator ≡ expected)
      → (0 < r → length expected ≤ length separator)
      → left ≡ length body + r * length separator
      → finalize_blocks fuel c expected
          (length separator)
          false
          (later_blocks r c separator body ++ tail)
          left
          out
        ≡ ok (out ++ body)
  unfolding later_blocks
  finalize-later_blocks zero zero left separator body tail out hc hf lo hi hm hl e =
      absurd (omega arith)
  finalize-later_blocks zero (suc fuel) left separator [] tail out hc hf lo hi hm hl e =
      let done : (left == 0) ≡ true = ground arith in
      unfold finalize_blocks in rw (done, finalize_blocks, append-nil)
  finalize-later_blocks zero (suc fuel) left separator (x ∷ xs) tail out hc hf lo hi hm hl e =
      absurd (omega arith)
  finalize-later_blocks (suc r) zero left separator body tail out hc hf lo hi hm hl e =
      absurd (omega arith)
  finalize-later_blocks (suc r) (suc fuel) left separator body tail out hc hf lo hi hm hl e =
      let size = block_size c body in
      let b = take size body in
      let later = later_blocks r c separator (drop size body) in
      let sized = length-take size body in
      let cut = length-drop size body in
      let chosen = block_size-min c body in
      let split : (separator ++ (b ++ later)) ++ tail ≡ separator ++ (b ++ (later ++ tail)) =
        append_assoc separator (b ++ later) tail
        ∙ ap (λ s. separator ++ s) (append_assoc b later tail) in
      let behind : ℕ = left - length separator in
      let skipped : skip_header expected (length separator) false
            ((separator ++ (b ++ later)) ++ tail) left
          ≡ ok (b ++ (later ++ tail), behind) =
        ap (λ s. skip_header expected (length separator) false s left) split
        ∙ skip_separator separator (b ++ (later ++ tail)) left (hm (omega arith)) (hl (omega arith))
            (omega arith) in
      finalize_round fuel (length separator) left behind false _ b (later ++ tail) out
        (ground arith) skipped (omega (arith, sized, chosen, last_or_more r c (length separator)))
      ∙ finalize-later_blocks r fuel (behind - length b) separator (drop size body) tail (out ++ b)
          hc (omega arith) (omega (arith, cut, chosen)) (omega (arith, cut, chosen))
          (λ h. hm (omega arith)) (λ h. hl (omega arith)) (omega (arith, sized, cut, chosen))
      ∙ ap ok
          (append_assoc out b (drop size body) ∙ ap (λ s. out ++ s) (take-append-drop size body))

  -- A block behind another header is refused.
  pub finalize-mismatch_blocks :
      (r fuel left : ℕ) (separator body tail out : Bytes)
      → 0 < left
      → length separator ≤ left
      → length expected ≤ length separator
      → same_bytes (take (length expected) separator) expected ≡ false
      → finalize_blocks
          (suc fuel)
          c
          expected
          (length separator)
          false
          (later_blocks (suc r) c separator body ++ tail)
          left
          out
        ≡ refused
  unfolding later_blocks skip_header
  finalize-mismatch_blocks r fuel left separator body tail out hl hs he hm =
      let b = take (block_size c body) body in
      let later = later_blocks r c separator (drop (block_size c body) body) in
      let front = b ++ later in
      let more : (left == 0) ≡ false = ground arith in
      let enough : ltb left (length separator) ≡ false = le→ltb _ _ hs in
      let holds : ltb (length ((separator ++ front) ++ tail)) (length separator) ≡ false =
        le→ltb _ _
          (omega (arith, length-append (separator ++ front) tail, length-append separator front)) in
      let header : take (length expected) ((separator ++ front) ++ tail)
          ≡ take (length expected) separator =
        take-append_le (length expected) (separator ++ front) tail
          (omega (arith, length-append separator front))
        ∙ take-append_le (length expected) separator front he in
      unfold finalize_blocks in rw (more, finalize_blocks, enough, holds, header, hm)
