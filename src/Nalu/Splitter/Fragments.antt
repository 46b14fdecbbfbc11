-- ===== src/Nalu/Splitter/Fragments.antt =====
-- The two ways of finding NAL units agree.
use media_engine.Base.{
  ℕ, zero, suc, refl, sym, ap, inl, inr, true, false, not, Option, none, some, List, [], arith,
  ==_iff, Bool-cases, length, drop, length-drop, ◌+◌, ◌-◌, ◌≤◌, ◌<◌, ◌≡◌, ◌∙◌, ◌∷◌, ◌==◌,
}
use media_engine.Base.Bytes.{Bytes}
use media_engine.Nalu.Splitter.{
  is_three_byte_code, is_four_byte_code, start_code_size, slice, emplace_back, last_unit,
  split_loop, split, Code, offset_loop, fragments, fragment_header,
}

-- The units at their places.
unfoldable pub units_at : Bytes → List (ℕ × ℕ) → List Bytes
units_at bytes [] = []
units_at bytes ((offset, count) ∷ fs) = slice bytes offset count ∷ units_at bytes fs

three_byte_code-length : (s : Bytes) → is_three_byte_code s ≡ true → 3 ≤ length s
unfolding is_three_byte_code
three_byte_code-length [] h = cc
three_byte_code-length (a ∷ []) h = cc
three_byte_code-length (a ∷ b ∷ []) h = cc
three_byte_code-length (a ∷ b ∷ c ∷ s) h = omega arith

four_byte_code-length : (s : Bytes) → is_four_byte_code s ≡ true → 4 ≤ length s
unfolding is_four_byte_code
four_byte_code-length [] h = cc
four_byte_code-length (a ∷ s) h = ground (arith, three_byte_code-length s)

pub start_code_size-le : (s : Bytes) → start_code_size s ≤ length s
unfolding start_code_size
start_code_size-le s = elim (Bool-cases (is_three_byte_code s)) [
  | inl three ↦ rw three (three_byte_code-length s three)
  | inr other ↦ rw other (elim (Bool-cases (is_four_byte_code s)) [
    | inl four ↦ rw four (four_byte_code-length s four)
    | inr none_here ↦ rw none_here (omega arith)
  ])
]

-- A code counts by where it ends.
fragments_end :
    (total offset size : ℕ) (codes : List Code)
    → fragments total ((offset, size) ∷ codes) ≡ fragments total ((offset + size, 0) ∷ codes)
unfolding fragments
fragments_end total offset size [] = ground arith
fragments_end total offset size ((next, size') ∷ codes) = ground arith

-- The code that opens the unit that is not closed yet, if there is one.
abbrev opened : ℕ → List Code → List Code
opened zero codes = codes
opened (suc start) codes = (suc start, 0) ∷ codes

-- Both loops from one place on: the splitter, once the unit that ends there is closed, finds the
-- units at the fragments of the codes.
abbrev Agree : ℕ → Bytes → Bytes → ℕ → ℕ → Type 0
Agree fuel bytes rest offset start =
    (codes : List Code) × (offset_loop fuel rest offset ≡ some codes)
    × (last_unit bytes offset start (split_loop fuel bytes rest offset start)
        ≡ some (units_at bytes (fragments (length bytes) (opened start codes))))

opened_pos : (start : ℕ) (codes : List Code) → 0 < start → opened start codes ≡ (start, 0) ∷ codes
opened_pos zero codes h = absurd (omega arith)
opened_pos (suc start) codes h = refl

same_number : (n : ℕ) → (n == n) ≡ true
same_number n = (==_iff n n).1 refl

suc_ne_zero : (n : ℕ) → (suc n == 0) ≡ false
suc_ne_zero n = ground arith

agree_at_end :
    (fuel : ℕ) (bytes : Bytes) (offset start : ℕ)
    → offset ≡ length bytes
    → Agree fuel bytes [] offset start
unfolding offset_loop split_loop last_unit fragments units_at
agree_at_end fuel bytes offset zero e = ([], refl, ground arith)
agree_at_end fuel bytes offset (suc start) e = (
  [],
  refl,
  rw (e, same_number (length bytes), suc_ne_zero start)
      (ap (λ o. some (slice bytes o (length bytes - o) ∷ [])) (omega arith)),
)

not_last :
    (bytes : Bytes) (offset start : ℕ) (units : Option (List Bytes))
    → offset < length bytes
    → last_unit bytes offset start units ≡ units
unfolding last_unit
not_last bytes offset start none h = refl
not_last bytes offset start (some units) h =
    let other : (offset == length bytes) ≡ false = ground arith in rw other

-- What a start code adds, with a unit open or not.
code_units :
    (bytes : Bytes) (total offset size start : ℕ) (codes : List Code) (units : Option (List Bytes))
    → 0 < size
    → units ≡ some (units_at bytes (fragments total (opened (offset + size) codes)))
    → emplace_back (not (start == 0)) (slice bytes start (offset - start)) units
      ≡ some (units_at bytes (fragments total (opened start ((offset, size) ∷ codes))))
unfolding units_at fragments
code_units bytes total offset size zero codes units pos e =
    rw (e, opened_pos (offset + size) codes (omega arith), fragments_end total offset size codes)
code_units bytes total offset size (suc start) codes units pos e =
    rw
      (
        e,
        opened_pos (offset + size) codes (omega arith),
        fragments_end total offset size codes,
        suc_ne_zero start,
      )
      (ap
        (λ o. some (
          slice bytes o (offset - o)
          ∷ units_at bytes (fragments total ((offset + size, 0) ∷ codes))))
        (omega arith))

agree :
    (fuel : ℕ) (bytes rest : Bytes) (offset start : ℕ)
    → offset + length rest ≡ length bytes
    → length rest ≤ fuel
    → Agree fuel bytes rest offset start
unfolding offset_loop split_loop units_at
agree fuel bytes [] offset start e h = agree_at_end fuel bytes offset start (omega arith)
agree zero bytes (b ∷ s) offset start e h = absurd (omega arith)
agree (suc fuel) bytes (b ∷ s) offset start e h = elim (Bool-cases (start_code_size (b ∷ s) == 0)) [
  | inl plain ↦
      let (codes, found, same) =
        agree fuel bytes s (offset + 1) start (omega arith) (omega arith) in
      (
        codes,
        rw (offset_loop, plain) found,
        not_last bytes offset start _ (omega arith) ∙ rw (split_loop, plain) same,
      )
  | inr code ↦
      let size = start_code_size (b ∷ s) in
      let pos : 0 < size = ground arith in
      let (codes, found, same) =
        agree fuel bytes (drop size (b ∷ s)) (offset + size) (offset + size)
          (omega (arith, length-drop size (b ∷ s), start_code_size-le (b ∷ s)))
          (omega (arith, length-drop size (b ∷ s))) in
      (
        (offset, size) ∷ codes,
        rw (offset_loop, code, found),
        not_last bytes offset start _ (omega arith)
            ∙ rw (split_loop, code)
                (code_units bytes (length bytes) offset size start codes _ pos same),
      )
]

closed_before :
    (bytes : Bytes) (offset : ℕ) (units : Option (List Bytes))
    → last_unit bytes offset 0 units ≡ units
unfolding last_unit
closed_before bytes offset none = refl
closed_before bytes offset (some units) = ground arith

fragment_header_at :
    (bytes : Bytes) (codes : List Code)
    → offset_loop (length bytes) bytes 0 ≡ some codes
    → fragment_header bytes ≡ some (fragments (length bytes) codes)
unfolding fragment_header
fragment_header_at bytes codes e = rw (fragment_header, e)

some_injective : (a b : List Code) → some a ≡ some b → a ≡ b
some_injective a b e = cc

-- The units from the codes that the other loop has found.
pub split-codes :
    (bytes : Bytes) (codes : List Code)
    → offset_loop (length bytes) bytes 0 ≡ some codes
    → split bytes ≡ some (units_at bytes (fragments (length bytes) codes))
unfolding split
split-codes bytes codes e =
    let (codes', found, same) = agree (length bytes) bytes bytes 0 0 (omega arith) (omega arith) in
    sym (closed_before bytes 0 (split_loop (length bytes) bytes bytes 0 0))
    ∙ same
    ∙ ap (λ cs. some (units_at bytes (fragments (length bytes) cs)))
        (some_injective codes' codes (sym found ∙ e))

-- On all bytes both end, and `NalUnitSplitter::Parse` finds exactly the units at the offsets and
-- of the lengths that `NalUnitFragmentHeader::Parse` reports, in that order.
pub split-fragment_header :
    (bytes : Bytes)
    → (fs : List (ℕ × ℕ)) × (fragment_header bytes ≡ some fs)
      × (split bytes ≡ some (units_at bytes fs))
unfolding split
split-fragment_header bytes =
    let (codes, found, same) = agree (length bytes) bytes bytes 0 0 (omega arith) (omega arith) in
    (
      fragments (length bytes) codes,
      fragment_header_at bytes codes found,
      sym (closed_before bytes 0 (split_loop (length bytes) bytes bytes 0 0)) ∙ same,
    )
