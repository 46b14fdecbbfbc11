-- ===== src/Rtmp/Handshake/Digest.antt =====
-- Where the digests stand, and who accepts them.
use media_engine.Base.{
  ℕ, zero, suc, refl, sym, ap, inl, inr, true, none, some, [], append_assoc, arith, Bool-cases,
  length, get_elem?, take, drop, length-append, length-take, length-drop, take-append, drop-append,
  ◌+◌, ◌-◌, ◌≤◌, ◌<◌, ◌≡◌, ◌∙◌, ◌∷◌, ◌++◌,
}
use media_engine.Base.Bytes.{Bytes, be32}
use media_engine.Rtmp.Handshake.{
  Supply, packet_size, digest_length, genuine_fms_key, genuine_fp_key, byte_at, sum_of_four,
  get_digest_offset1, get_digest_offset2, without_digest, calculate_digest, verify_digest,
  put_digest, make_s1, make_c2, make_s2, answer, is_version_zero,
}
use media_engine.Rtmp.ImportChunk.{same_bytes}
use media_engine.Rtmp.ImportChunk.Blocks.{same_bytes_self}

-- What OpenSSL documents of HMAC with SHA-256, and the length of the random bytes.
pub record IsSupply (lib : Supply) : Type 0 where
  pub hmac_length : (key message : Bytes) → length (lib.hmac_sha256 key message) ≡ 32
  pub random_length : (n : ℕ) → length (lib.random_bytes n) ≡ n

-- In every signature either digest lies behind the four bytes that place it, and ends in front of
-- the other scheme's bytes or at the end of the signature.
get_digest_offset-bounds :
    (s : Bytes)
    → (12 ≤ get_digest_offset1 s)
      × (get_digest_offset1 s + digest_length ≤ 772)
      × (776 ≤ get_digest_offset2 s)
      × (get_digest_offset2 s + digest_length ≤ packet_size)
unfolding get_digest_offset1 get_digest_offset2
get_digest_offset-bounds s = omega arith

get_elem?-take-append :
    (n i : ℕ) (s t : Bytes) → i < n → n ≤ length s → get_elem? (take n s ++ t) i ≡ get_elem? s i
get_elem?-take-append zero i s t h l = elim h [ ]
get_elem?-take-append (suc n) i [] t h l = elim l [ ]
get_elem?-take-append (suc n) zero (b ∷ s) t h l = refl
get_elem?-take-append (suc n) (suc i) (b ∷ s) t h l =
    get_elem?-take-append n i s t (omega arith) (omega arith)

byte_at-take-append :
    (n i : ℕ) (s t : Bytes) → i < n → n ≤ length s → byte_at (take n s ++ t) i ≡ byte_at s i
byte_at-take-append n i s t h l =
    ap (λ o. elim o [ none ↦ 0 | some b ↦ b ]) (get_elem?-take-append n i s t h l)

-- The digest does not move the offset that it is found by.
offset-put :
    (pos : ℕ) (s t : Bytes)
    → 12 ≤ pos
    → pos ≤ length s
    → get_digest_offset1 (take pos s ++ t) ≡ get_digest_offset1 s
unfolding get_digest_offset1 sum_of_four
offset-put pos s t h l = rw (
  byte_at-take-append pos 8 s t (omega arith) l,
  byte_at-take-append pos 9 s t (omega arith) l,
  byte_at-take-append pos 10 s t (omega arith) l,
  byte_at-take-append pos 11 s t (omega arith) l,
)

take-exact : (n : ℕ) (s t : Bytes) → length s ≡ n → take n (s ++ t) ≡ s
take-exact n s t e = ap (λ k. take k (s ++ t)) (sym e) ∙ take-append s t

drop-exact : (n : ℕ) (s t : Bytes) → length s ≡ n → drop n (s ++ t) ≡ t
drop-exact n s t e = ap (λ k. drop k (s ++ t)) (sym e) ∙ drop-append s t

-- A signature with a digest put in its place: the digest stands there, and the rest is as before.
module _ (pos : ℕ) (s d : Bytes) (long : length s ≡ packet_size) (fits : pos + 32 ≤ packet_size)
    (size : length d ≡ 32) where
  abbrev signed : Bytes
  signed = take pos s ++ (d ++ drop (pos + 32) s)

  length-start : length (take pos s) ≡ pos
  length-start = omega (arith, length-take pos s)

  digest_in_place : take 32 (drop pos signed) ≡ d
  digest_in_place =
      ap (take 32) (drop-exact pos (take pos s) (d ++ drop (pos + 32) s) length-start)
      ∙ take-exact 32 d (drop (pos + 32) s) size

  start_kept : take pos signed ≡ take pos s
  start_kept = take-exact pos (take pos s) (d ++ drop (pos + 32) s) length-start

  rest_kept : drop (pos + 32) signed ≡ drop (pos + 32) s
  rest_kept =
      ap (drop (pos + 32)) (sym (append_assoc (take pos s) d (drop (pos + 32) s)))
      ∙ drop-exact (pos + 32) (take pos s ++ d) (drop (pos + 32) s)
          (omega (arith, length-append (take pos s) d, length-start, size))

  without_digest-signed : without_digest pos signed ≡ without_digest pos s
  unfolding without_digest
  without_digest-signed = rw (start_kept, rest_kept)

-- A digest that was put into a signature is verified there.
verify_digest-put_digest :
    (lib : Supply) (s : Bytes)
    → IsSupply lib
    → length s ≡ packet_size
    → verify_digest lib
        (get_digest_offset1 (put_digest lib s))
        (put_digest lib s)
        (take 36 genuine_fms_key)
      ≡ true
unfolding put_digest verify_digest calculate_digest
verify_digest-put_digest lib s law long =
    let pos = get_digest_offset1 s in
    let bounds = get_digest_offset-bounds s in
    let key = take 36 genuine_fms_key in
    let d = lib.hmac_sha256 key (without_digest pos s) in
    let size = law.hmac_length key (without_digest pos s) in
    let fits = bounds.1 in
    let place = digest_in_place pos s d long (omega (arith, fits)) size in
    let same = without_digest-signed pos s d long (omega (arith, fits)) size in
    let w = take pos s ++ (d ++ drop (pos + 32) s) in
    ap (λ o. same_bytes (take 32 (drop o w)) (lib.hmac_sha256 key (without_digest o w)))
      (offset-put pos s (d ++ drop (pos + 32) s) bounds.0 (omega (arith, fits, long)))
    ∙ ap (λ x. same_bytes x (lib.hmac_sha256 key (without_digest pos w))) place
    ∙ ap (λ x. same_bytes d (lib.hmac_sha256 key x)) same
    ∙ same_bytes_self d

length-put_digest :
    (lib : Supply) (s : Bytes)
    → IsSupply lib
    → length s ≡ packet_size
    → length (put_digest lib s) ≡ packet_size
unfolding put_digest calculate_digest
length-put_digest lib s law long =
    let pos = get_digest_offset1 s in
    let d = lib.hmac_sha256 (take 36 genuine_fms_key) (without_digest pos s) in
    omega (
      arith,
      (get_digest_offset-bounds s).1,
      length-append (take pos s) (d ++ drop (pos + 32) s),
      length-append d (drop (pos + 32) s),
      length-take pos s,
      length-drop (pos + 32) s,
      law.hmac_length (take 36 genuine_fms_key) (without_digest pos s),
    )

-- The server's signature S1, at any time of day, has the size of the packet, and the client's side
-- of this code accepts its digest and makes its answer, given an HMAC of 32 bytes and as many
-- random bytes as were asked for.
pub make_c2-make_s1 :
    (lib : Supply) (now : ℕ)
    → IsSupply lib
    → (length (make_s1 lib now) ≡ packet_size)
      × (c2 : Bytes) × (make_c2 lib (make_s1 lib now) ≡ some c2)
      × (length c2 ≡ packet_size)
unfolding make_s1 make_c2
make_c2-make_s1 lib now law =
    let plain =
      be32 now ++ ((0x00 ∷ 0x01 ∷ 0x00 ∷ 0x01 ∷ []) ++ lib.random_bytes (packet_size - 8)) in
    let long : length plain ≡ packet_size = omega (arith, law.random_length (packet_size - 8)) in
    let sized = length-put_digest lib plain law long in
    let rest = drop 8 (put_digest lib plain) in
    (
      sized,
      take 4 (put_digest lib plain) ++ ((0 ∷ 0 ∷ 0 ∷ 0 ∷ []) ++ take (packet_size - 8) rest),
      rw (verify_digest-put_digest lib plain law long),
      omega (
        arith,
        sized,
        length-append (take 4 (put_digest lib plain))
            ((0 ∷ 0 ∷ 0 ∷ 0 ∷ []) ++ take (packet_size - 8) rest),
        length-take 4 (put_digest lib plain),
        length-take (packet_size - 8) rest,
        length-drop 8 (put_digest lib plain),
      ),
    )

length-answer :
    (lib : Supply) (pos : ℕ) (client : Bytes)
    → IsSupply lib
    → length (answer lib pos client) ≡ packet_size
unfolding answer
length-answer lib pos client law =
    let noise = lib.random_bytes 1504 in
    let digest = lib.hmac_sha256 genuine_fms_key (take digest_length (drop pos client)) in
    omega (
      arith,
      length-append noise (lib.hmac_sha256 digest noise),
      law.random_length 1504,
      law.hmac_length digest noise,
    )

-- `S2` fills its packet, whatever the client has sent.
pub length-make_s2 :
    (lib : Supply) (client : Bytes)
    → IsSupply lib
    → packet_size ≤ length client
    → length (make_s2 lib client) ≡ packet_size
unfolding make_s2
length-make_s2 lib client law long =
    let key = take 30 genuine_fp_key in
    let echo : length (take packet_size client) ≡ packet_size =
      omega (arith, length-take packet_size client) in
    elim (Bool-cases (is_version_zero client)) [
      | inl e ↦ rw e echo
      | inr e ↦ elim (Bool-cases (verify_digest lib (get_digest_offset1 client) client key)) [
        | inl f ↦ rw (e, f) (length-answer lib (get_digest_offset1 client) client law)
        | inr f ↦ elim (Bool-cases (verify_digest lib (get_digest_offset2 client) client key)) [
          | inl g ↦ rw (e, f, g) (length-answer lib (get_digest_offset2 client) client law)
          | inr g ↦ rw (e, f, g) echo
        ]
      ]
    ]
