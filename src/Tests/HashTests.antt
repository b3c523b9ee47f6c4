-- ===== src/Tests/HashTests.antt =====
-- The published vectors of the digest.
use pccs_rs.Common.{ℕ, zero, suc, ◌≡◌, refl, List, [], ◌∷◌, some}
use pccs_rs.Common.Text.{codes}
use pccs_rs.Hash.{
  city_hash_128, hash128_hex, wadd, wmul, rotate_right, le_value, fetch64, fetch32, shift_mix,
  hash_len16_mul, hash_len16, hash_len0to16, weak_hash_len32_with_seeds, weak_hash32, pack,
  murmur_loop, murmur_mix, city_murmur, round, main_loop, tail_loop, seeded, stirred, finish,
  city_hash128_with_seed,
}

unfoldable pub digest : Unit {0}
unfolding city_hash_128 wadd wmul rotate_right le_value fetch64 fetch32 shift_mix hash_len16_mul
    hash_len16 hash_len0to16 weak_hash_len32_with_seeds weak_hash32 pack murmur_loop murmur_mix
    city_murmur round main_loop tail_loop seeded stirred finish city_hash128_with_seed
digest = tt

abbrev counting : ℕ → List ℕ → List ℕ
counting zero out = out
counting (suc n) out = counting n (n ∷ out)

empty_vector : city_hash_128 [] ≡ some 0x3cb540c392e51e293df09dfc64c09a2b
unfolding digest
empty_vector = refl

hello_vector : city_hash_128 (codes "hello") ≡ some 0x65148f580b45f3476f72e4abb491a74a
unfolding digest
hello_vector = refl

five_vector : city_hash_128 (counting 5 []) ≡ some 0xe3cb1f3f3ab9643bef3668c150012eec
unfolding digest
five_vector = refl

hundred_vector : city_hash_128 (counting 100 []) ≡ some 0x4af6eac6b81177e082940c1b36354e6f
unfolding digest
hundred_vector = refl

long_vectors :
    (city_hash_128 (counting 128 []) ≡ some 0xd7e962fbe3832fa2987f34a745925167)
    × (city_hash_128 (counting 200 []) ≡ some 0x5ecd9df9c773c308041b130aac352f97)
unfolding digest
long_vectors = (refl, refl)

hello_hex : hash128_hex (codes "hello") ≡ some (codes "65148f580b45f3476f72e4abb491a74a")
unfolding digest hash128_hex
hello_hex = refl
