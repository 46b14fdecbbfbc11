-- ===== src/Rtmp/Handshake.antt =====
-- common/src/media/rtmp/rtmp_handshake.cpp: the signatures of the RTMP handshake and their digests.
-- A signature has `RTMP_HANDSHAKE_PACKET_SIZE` bytes. A byte behind the end of a list counts as 0,
-- which no caller reads: the buffers have that size, and the session waits for as many bytes.
mod Tests
pub mod Digest
use media_engine.Base.{
  ℕ, Bool, Option, none, some, [], get_elem?, take, drop, ◌+◌, ◌-◌, ◌%◌, ◌&&◌, ◌∷◌, ◌++◌, ◌==◌,
  if◌then◌else◌,
}
use media_engine.Base.Bytes.{Bytes, be32}
use media_engine.Rtmp.ImportChunk.{same_bytes}

abbrev pub packet_size : ℕ
packet_size = 1536

-- `SHA256_DIGEST_LENGTH`
abbrev pub digest_length : ℕ
digest_length = 32

-- "Genuine Adobe Flash Media Server 001" and 32 bytes.
abbrev pub genuine_fms_key : Bytes
genuine_fms_key =
    0x47 ∷ 0x65 ∷ 0x6e ∷ 0x75 ∷ 0x69 ∷ 0x6e ∷ 0x65 ∷ 0x20 ∷ 0x41 ∷ 0x64 ∷ 0x6f ∷ 0x62 ∷ 0x65 ∷ 0x20
    ∷ 0x46 ∷ 0x6c ∷ 0x61 ∷ 0x73 ∷ 0x68 ∷ 0x20 ∷ 0x4d ∷ 0x65 ∷ 0x64 ∷ 0x69 ∷ 0x61 ∷ 0x20 ∷ 0x53
    ∷ 0x65 ∷ 0x72 ∷ 0x76 ∷ 0x65 ∷ 0x72 ∷ 0x20 ∷ 0x30 ∷ 0x30 ∷ 0x31 ∷ 0xf0 ∷ 0xee ∷ 0xc2 ∷ 0x4a
    ∷ 0x80 ∷ 0x68 ∷ 0xbe ∷ 0xe8 ∷ 0x2e ∷ 0x00 ∷ 0xd0 ∷ 0xd1 ∷ 0x02 ∷ 0x9e ∷ 0x7e ∷ 0x57 ∷ 0x6e
    ∷ 0xec ∷ 0x5d ∷ 0x2d ∷ 0x29 ∷ 0x80 ∷ 0x6f ∷ 0xab ∷ 0x93 ∷ 0xb8 ∷ 0xe6 ∷ 0x36 ∷ 0xcf ∷ 0xeb
    ∷ 0x31 ∷ 0xae ∷ []

-- "Genuine Adobe Flash Player 001" and 32 bytes.
abbrev pub genuine_fp_key : Bytes
genuine_fp_key =
    0x47 ∷ 0x65 ∷ 0x6e ∷ 0x75 ∷ 0x69 ∷ 0x6e ∷ 0x65 ∷ 0x20 ∷ 0x41 ∷ 0x64 ∷ 0x6f ∷ 0x62 ∷ 0x65 ∷ 0x20
    ∷ 0x46 ∷ 0x6c ∷ 0x61 ∷ 0x73 ∷ 0x68 ∷ 0x20 ∷ 0x50 ∷ 0x6c ∷ 0x61 ∷ 0x79 ∷ 0x65 ∷ 0x72 ∷ 0x20
    ∷ 0x30 ∷ 0x30 ∷ 0x31 ∷ 0xf0 ∷ 0xee ∷ 0xc2 ∷ 0x4a ∷ 0x80 ∷ 0x68 ∷ 0xbe ∷ 0xe8 ∷ 0x2e ∷ 0x00
    ∷ 0xd0 ∷ 0xd1 ∷ 0x02 ∷ 0x9e ∷ 0x7e ∷ 0x57 ∷ 0x6e ∷ 0xec ∷ 0x5d ∷ 0x2d ∷ 0x29 ∷ 0x80 ∷ 0x6f
    ∷ 0xab ∷ 0x93 ∷ 0xb8 ∷ 0xe6 ∷ 0x36 ∷ 0xcf ∷ 0xeb ∷ 0x31 ∷ 0xae ∷ []

abbrev pub byte_at : Bytes → ℕ → ℕ
byte_at s i = elim (get_elem? s i) [ none ↦ 0 | some b ↦ b ]

-- The sum of four bytes from `i` on.
unfoldable pub sum_of_four : Bytes → ℕ → ℕ
sum_of_four s i = byte_at s i + byte_at s (i + 1) + byte_at s (i + 2) + byte_at s (i + 3)

unfoldable pub get_digest_offset1 : Bytes → ℕ
unfolding sum_of_four
get_digest_offset1 s = sum_of_four s 8 % 728 + 12

unfoldable pub get_digest_offset2 : Bytes → ℕ
unfolding sum_of_four
get_digest_offset2 s = sum_of_four s 772 % 728 + 776

-- The message without the 32 bytes of its digest.
unfoldable pub without_digest : ℕ → Bytes → Bytes
without_digest pos s =
    take pos s ++ take (packet_size - digest_length - pos) (drop (pos + digest_length) s)

-- What OpenSSL and the C++ library supply: `HMAC` with SHA-256 of a key and a message, and the low
-- bytes of the first numbers of a `std::mt19937` with its default seed.
pub record Supply : Type 0 where
  pub hmac_sha256 : Bytes → Bytes → Bytes
  pub random_bytes : ℕ → Bytes

unfoldable pub calculate_digest : Supply → ℕ → Bytes → Bytes → Bytes
unfolding without_digest
calculate_digest lib pos message key = lib.hmac_sha256 key (without_digest pos message)

-- `memcmp` of the 32 bytes at the position with the digest that they should be.
unfoldable pub verify_digest : Supply → ℕ → Bytes → Bytes → Bool
unfolding calculate_digest
verify_digest lib pos message key =
    same_bytes (take digest_length (drop pos message)) (calculate_digest lib pos message key)

-- The digest of a signature, written into it at its offset.
unfoldable pub put_digest : Supply → Bytes → Bytes
unfolding get_digest_offset1 calculate_digest
put_digest lib sig =
    let pos = get_digest_offset1 sig in
    take pos sig
    ++ (calculate_digest lib pos sig (take 36 genuine_fms_key) ++ drop (pos + digest_length) sig)

-- `MakeC1` and `MakeS1`: the time, the version, and random bytes.
unfoldable pub make_c1 : Supply → ℕ → Bytes
unfolding put_digest
make_c1 lib now =
    put_digest lib
      (be32 now ++ ((0x03 ∷ 0x05 ∷ 0x02 ∷ 0x01 ∷ []) ++ lib.random_bytes (packet_size - 8)))

unfoldable pub make_s1 : Supply → ℕ → Bytes
unfolding put_digest
make_s1 lib now =
    put_digest lib
      (be32 now ++ ((0x00 ∷ 0x01 ∷ 0x00 ∷ 0x01 ∷ []) ++ lib.random_bytes (packet_size - 8)))

-- Whether the version of the client is 0.
unfoldable pub is_version_zero : Bytes → Bool
is_version_zero s = byte_at s 4 == 0 && byte_at s 5 == 0 && byte_at s 6 == 0 && byte_at s 7 == 0

-- The client's digest, answered.
unfoldable pub answer : Supply → ℕ → Bytes → Bytes
answer lib pos client =
    let digest = lib.hmac_sha256 genuine_fms_key (take digest_length (drop pos client)) in
    let noise = lib.random_bytes 1504 in noise ++ lib.hmac_sha256 digest noise

-- `MakeS2`: an echo for a client without a version or without a digest.
unfoldable pub make_s2 : Supply → Bytes → Bytes
unfolding is_version_zero get_digest_offset1 get_digest_offset2 verify_digest answer
make_s2 lib client =
    let key = take 30 genuine_fp_key in
    let first = get_digest_offset1 client in
    let second = get_digest_offset2 client in
    if is_version_zero client
    then take packet_size client
    else if verify_digest lib first client key
    then answer lib first client
    else if verify_digest lib second client key
    then answer lib second client
    else take packet_size client

-- `MakeC2`: the server's signature with its version set to 0, when its digest is right.
unfoldable pub make_c2 : Supply → Bytes → Option Bytes
unfolding get_digest_offset1 verify_digest
make_c2 lib server =
    if verify_digest lib (get_digest_offset1 server) server (take 36 genuine_fms_key)
    then some (take 4 server ++ ((0 ∷ 0 ∷ 0 ∷ 0 ∷ []) ++ take (packet_size - 8) (drop 8 server)))
    else none
