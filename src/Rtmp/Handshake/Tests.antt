-- ===== src/Rtmp/Handshake/Tests.antt =====
-- The handshake's theorems on concrete data.
use media_engine.Base.{ℕ, refl, some, [], length, replicate, length-replicate, ◌≡◌, ◌∷◌, ◌++◌}
use media_engine.Base.Bytes.{Bytes}
use media_engine.Rtmp.Handshake.{Supply, packet_size, get_digest_offset1, make_s1, make_c2}
use media_engine.Rtmp.Handshake.Digest.{IsSupply, make_c2-make_s1}

-- A supply of zeros.
abbrev zeros : Supply
zeros = record { hmac_sha256 = λ key message. replicate 32 0; random_bytes = λ n. replicate n 0 }

zeros-IsSupply : IsSupply zeros
zeros-IsSupply = record {
  hmac_length = λ key message. length-replicate {A = ℕ} 32 0;
  random_length = λ n. length-replicate {A = ℕ} n 0;
}

offset_run : get_digest_offset1 (replicate 8 0 ++ (200 ∷ 200 ∷ 200 ∷ 200 ∷ [])) ≡ 84
unfolding get_digest_offset1
offset_run = refl

make_c2-make_s1_example :
    (length (make_s1 zeros 77) ≡ packet_size)
    × (c2 : Bytes) × (make_c2 zeros (make_s1 zeros 77) ≡ some c2)
    × (length c2 ≡ packet_size)
make_c2-make_s1_example = make_c2-make_s1 zeros 77 zeros-IsSupply
