-- ===== src/Rtmp/MuxUtil/Sizes.antt =====
-- The counts that rtmp_mux_util.cpp returns are the numbers of bytes that it writes.
use media_engine.Base.{
  ℕ, zero, suc, min, refl, Bool, true, false, [], append-nil, arith, ltb, length, take, drop,
  length-append, length-take, length-drop, ◌+◌, ◌-◌, ◌*◌, ◌/◌, ◌≤◌, ◌<◌, ◌≡◌, ◌∷◌, ◌++◌,
  if◌then◌else◌,
}
use media_engine.Base.Bytes.{Bytes, be32}
use native.Mathlib.Nat.{div-add-mod, mod-lt}
use media_engine.Rtmp.Header.{ChunkType, t0, t1, t2, t3, ChunkHeader, MessageHeader}
use media_engine.Rtmp.MuxUtil.{
  extend_timestamp_size, packet_header_size_max, get_basic_header_size_by_chunk_stream_id,
  get_chunk_basic_header_raw, basic_header_raw_size, message_header_raw, message_header_raw_size,
  get_chunk_header_raw, chunk_header_raw_size, block_separator, later_blocks,
  get_chunk_data_raw_size, get_chunk_data_raw,
}

pub length-basic_header_raw :
    (type : ChunkType) (id : ℕ)
    → length (get_chunk_basic_header_raw type id) ≡ basic_header_raw_size id
unfolding get_chunk_basic_header_raw basic_header_raw_size
length-basic_header_raw type id = ground arith

pub basic_header_raw_size_eq :
    (id : ℕ) → basic_header_raw_size id ≡ get_basic_header_size_by_chunk_stream_id id
unfolding get_basic_header_size_by_chunk_stream_id basic_header_raw_size
basic_header_raw_size_eq id = refl

pub basic_header_raw_size-le : (id : ℕ) → basic_header_raw_size id ≤ 3
unfolding basic_header_raw_size
basic_header_raw_size-le id = ground arith

pub length-message_header_raw :
    (type : ChunkType) (m : MessageHeader) (extend : Bool)
    → length (message_header_raw type m extend) ≡ message_header_raw_size type extend
unfolding message_header_raw message_header_raw_size
length-message_header_raw t0 m true = refl
length-message_header_raw t0 m false = refl
length-message_header_raw t1 m true = refl
length-message_header_raw t1 m false = refl
length-message_header_raw t2 m true = refl
length-message_header_raw t2 m false = refl
length-message_header_raw t3 m extend = refl

message_header_raw_size-le :
    (type : ChunkType) (extend : Bool) → message_header_raw_size type extend ≤ 15
unfolding message_header_raw_size
message_header_raw_size-le t3 extend = omega arith
message_header_raw_size-le t0 extend = ground arith
message_header_raw_size-le t1 extend = ground arith
message_header_raw_size-le t2 extend = ground arith

pub length-chunk_header_raw :
    (h : ChunkHeader) (extend : Bool)
    → length (get_chunk_header_raw h extend) ≡ chunk_header_raw_size h extend
unfolding get_chunk_header_raw chunk_header_raw_size
length-chunk_header_raw h extend = omega (
  arith,
  length-append (get_chunk_basic_header_raw h.format_type h.stream_id)
      (message_header_raw h.format_type h.header extend),
  length-basic_header_raw h.format_type h.stream_id,
  length-message_header_raw h.format_type h.header extend,
)

pub chunk_header_raw_size-le :
    (h : ChunkHeader) (extend : Bool) → chunk_header_raw_size h extend ≤ packet_header_size_max
unfolding chunk_header_raw_size
chunk_header_raw_size-le h extend =
    omega
      (arith, basic_header_raw_size-le h.stream_id, message_header_raw_size-le h.format_type extend)

pub length-block_separator :
    (id : ℕ) (extend : Bool) (time : ℕ)
    → length (block_separator id extend time)
      ≡ get_basic_header_size_by_chunk_stream_id id + (if extend then extend_timestamp_size else 0)
unfolding block_separator
length-block_separator id true time = omega (
  arith,
  length-append (get_chunk_basic_header_raw t3 id) (be32 time),
  length-basic_header_raw t3 id,
  basic_header_raw_size_eq id,
)
length-block_separator id false time =
    rw append-nil (omega (arith, length-basic_header_raw t3 id, basic_header_raw_size_eq id))

-- The size of the next block.
abbrev pub block_size : ℕ → Bytes → ℕ
block_size c left = if ltb c (length left) then c else length left

pub block_size-min : (c : ℕ) (left : Bytes) → block_size c left ≡ min c (length left)
block_size-min c left = ground arith

pub length-later_blocks :
    (r c : ℕ) (separator left : Bytes)
    → length left ≤ r * c
    → length (later_blocks r c separator left) ≡ length left + r * length separator
unfolding later_blocks
length-later_blocks zero c separator left h = omega arith
length-later_blocks (suc r) c separator left h =
    let size = block_size c left in
    let later = later_blocks r c separator (drop size left) in
    omega (
      arith,
      block_size-min c left,
      length-append separator (take size left ++ later),
      length-append (take size left) later,
      length-take size left,
      length-drop size left,
      length-later_blocks r c separator (drop size left)
          (omega (arith, block_size-min c left, length-drop size left)),
    )

-- What is left behind the first block fits the blocks that follow.
pub blocks_suffice :
    (c n : ℕ) → 0 < c → 0 < n → (n - min c n ≤ (n - 1) / c * c) × ((n - 1) / c * c ≤ n - 1)
blocks_suffice c n hc hn =
    (omega (arith, div-add-mod (n - 1) c, mod-lt (n - 1) hc), omega (arith, div-add-mod (n - 1) c))

-- The blocks, where there is a block size and data.
pub data_raw_blocks :
    (c id : ℕ) (body : Bytes) (extend : Bool) (time : ℕ)
    → 0 < c
    → 0 < length body
    → get_chunk_data_raw c id body extend time
      ≡ take (block_size c body) body
        ++ later_blocks
            ((length body - 1) / c)
            c
            (block_separator id extend time)
            (drop (block_size c body) body)
unfolding get_chunk_data_raw
data_raw_blocks c id body extend time hc hb = ground arith

data_raw_size_blocks :
    (c id n : ℕ) (extend : Bool)
    → 0 < c
    → 0 < n
    → get_chunk_data_raw_size c id n extend
      ≡ n
        + (n - 1)
          / c
          * (get_basic_header_size_by_chunk_stream_id id
              + (if extend then extend_timestamp_size else 0))
unfolding get_chunk_data_raw_size
data_raw_size_blocks c id n extend hc hn = ground arith

length-data_raw_pos :
    (c id : ℕ) (body : Bytes) (extend : Bool) (time : ℕ)
    → 0 < c
    → 0 < length body
    → length (get_chunk_data_raw c id body extend time)
      ≡ get_chunk_data_raw_size c id (length body) extend
length-data_raw_pos c id body extend time hc hb =
    let size = block_size c body in
    let r = (length body - 1) / c in
    let separator = block_separator id extend time in
    let fits = blocks_suffice c (length body) hc hb in
    rw
      (
        data_raw_blocks c id body extend time hc hb,
        data_raw_size_blocks c id (length body) extend hc hb,
        ← length-block_separator id extend time,
      )
      (omega (
        arith,
        block_size-min c body,
        length-append (take size body) (later_blocks r c separator (drop size body)),
        length-take size body,
        length-drop size body,
        length-later_blocks r c separator (drop size body)
            (omega (arith, block_size-min c body, length-drop size body, fits.0)),
      ))

-- `GetChunkDataRaw` writes what `GetChunkDataRawSize` announces for the length of the data.
pub length-get_chunk_data_raw :
    (c id : ℕ) (body : Bytes) (extend : Bool) (time : ℕ)
    → length (get_chunk_data_raw c id body extend time)
      ≡ get_chunk_data_raw_size c id (length body) extend
length-get_chunk_data_raw zero id body extend time =
    unfold get_chunk_data_raw get_chunk_data_raw_size in refl
length-get_chunk_data_raw (suc c) id [] extend time =
    unfold get_chunk_data_raw get_chunk_data_raw_size in ground arith
length-get_chunk_data_raw (suc c) id (b ∷ bs) extend time =
    length-data_raw_pos (suc c) id (b ∷ bs) extend time (omega arith) (omega arith)
