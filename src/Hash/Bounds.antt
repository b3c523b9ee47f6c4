-- ===== src/Hash/Bounds.antt =====
-- src/hash/city.rs: the slices and the loops of the digest.
use pccs_rs.Common.{
  ℕ, zero, suc, ◌+◌, ◌-◌, ◌*◌, ◌≤◌, ◌<◌, ◌≡◌, ◌≢◌, refl, inl, inr, false, [], ◌∷◌, Option, none,
  some, arith, ltb, leb, leb→le, length, drop, length-drop, get_elem?, Bool-cases, Option-cases,
}
use pccs_rs.Hash.{
  Bytes, Mix, State, fetch64, fetch32, weak_hash32, hash_len0to16, murmur_loop, murmur_mix,
  city_murmur, round, main_loop, tail_loop, seeded, city_hash128_with_seed, city_hash_128, stirred,
  wadd,
}

some-ne-none : {A : Type 0} (a : A) → ◌≢◌ {A = Option A} (some a) none
some-ne-none a p = cc

fetch64-ne-none : (k : ℕ) (s : Bytes) → k + 8 ≤ length s → fetch64 k s ≢ none
unfolding fetch64
fetch64-ne-none k s h = ground arith

fetch32-ne-none : (k : ℕ) (s : Bytes) → k + 4 ≤ length s → fetch32 k s ≢ none
unfolding fetch32
fetch32-ne-none k s h = ground arith

weak_hash32-ne-none : (k : ℕ) (s : Bytes) (a b : ℕ) → k + 32 ≤ length s → weak_hash32 k s a b ≢ none
unfolding weak_hash32
weak_hash32-ne-none k s a b h = grind (arith, fetch64-ne-none)

get_elem?-ne-none : (s : Bytes) (i : ℕ) → i < length s → get_elem? s i ≢ none
get_elem?-ne-none [] i h = absurd (omega arith)
get_elem?-ne-none (b ∷ s) zero h = λ p. cc
get_elem?-ne-none (b ∷ s) (suc i) h = get_elem?-ne-none s i (omega arith)

-- The shortest inputs: three bytes at most, and at least one.
few_bytes : (b : ℕ) (s : Bytes) → leb 4 (suc (length s)) ≡ false → hash_len0to16 (b ∷ s) ≢ none
unfolding hash_len0to16
few_bytes b [] h = λ p. cc
few_bytes b (c ∷ []) h = λ p. cc
few_bytes b (c ∷ d ∷ []) h = λ p. cc
few_bytes b (c ∷ d ∷ e ∷ s) h = absurd (ground arith)

hash_len0to16-ne-none : (s : Bytes) → hash_len0to16 s ≢ none
unfolding hash_len0to16
hash_len0to16-ne-none [] = λ p. cc
hash_len0to16-ne-none (b ∷ s) = elim (Bool-cases (leb 8 (suc (length s)))) [
  | inl eight ↦
      let f = fetch64-ne-none 0 (b ∷ s) (ground arith) in
      let g = fetch64-ne-none (suc (length s) - 8) (b ∷ s) (ground arith) in ground (arith, f, g)
  | inr less ↦ elim (Bool-cases (leb 4 (suc (length s)))) [
    | inl four ↦
        let f = fetch32-ne-none 0 (b ∷ s) (ground arith) in
        let g = fetch32-ne-none (suc (length s) - 4) (b ∷ s) (ground arith) in ground (arith, f, g)
    | inr few ↦ few_bytes b s few
  ]
]

murmur_loop-ne-none :
    (fuel remaining : ℕ) (s : Bytes) (m : Mix)
    → remaining ≤ length s
    → remaining ≤ fuel
    → murmur_loop fuel remaining s m ≢ none
unfolding murmur_loop
murmur_loop-ne-none zero remaining s m h k = ground arith
murmur_loop-ne-none (suc fuel) remaining s m h k = elim (Bool-cases (ltb 16 remaining)) [
  | inr stop ↦ rw (stop, murmur_loop) (some-ne-none m)
  | inl more ↦ elim (Option-cases (fetch64 0 s)) [
    | inl out ↦ absurd (fetch64-ne-none 0 s (ground arith) out)
    | inr (f, ef) ↦ elim (Option-cases (fetch64 8 s)) [
      | inl out ↦ absurd (fetch64-ne-none 8 s (ground arith) out)
      | inr (g, eg) ↦
          rw (more, ef, eg, murmur_loop)
            (murmur_loop-ne-none fuel (remaining - 16) (drop 16 s) _
              (omega (arith, length-drop 16 s)) (ground arith))
    ]
  ]
]

murmur_mix-ne-none : (s : Bytes) (x y : ℕ) → murmur_mix s x y ≢ none
unfolding murmur_mix
murmur_mix-ne-none s x y =
    grind (arith, hash_len0to16-ne-none, fetch64-ne-none, murmur_loop-ne-none)

round-ne-none : (s : Bytes) (h : State) → 64 ≤ length s → round s h ≢ none
unfolding round
round-ne-none s h long = grind (arith, fetch64-ne-none, weak_hash32-ne-none)

seeded-ne-none : (s : Bytes) (x y : ℕ) → 128 ≤ length s → seeded s x y ≢ none
unfolding seeded
seeded-ne-none s x y long = grind (arith, fetch64-ne-none)

-- The main loop leaves what it does not mix, less than 128 bytes.
main_loop_total :
    (fuel remaining : ℕ) (s : Bytes) (h : State)
    → remaining ≤ length s
    → remaining ≤ fuel
    → (out : State) × (left : ℕ) × (main_loop fuel remaining s h ≡ some (out, left)) × (left < 128)
unfolding main_loop
main_loop_total zero remaining s h l k = (h, remaining, ground arith, omega arith)
main_loop_total (suc fuel) remaining s h l k = elim (Bool-cases (leb 128 remaining)) [
  | inr stop ↦ (h, remaining, rw (stop, main_loop) refl, ground arith)
  | inl more ↦
      let big : 128 ≤ remaining = leb→le 128 remaining more in
      elim (Option-cases (round s h)) [
        | inl out ↦ absurd (round-ne-none s h (omega arith) out)
        | inr (h1, e1) ↦ elim (Option-cases (round (drop 64 s) h1)) [
          | inl out ↦ absurd (round-ne-none (drop 64 s) h1 (omega (arith, length-drop 64 s)) out)
          | inr (h2, e2) ↦
              let (out, left, e, small) =
                main_loop_total fuel (remaining - 128) (drop 128 s) h2
                  (omega (arith, length-drop 128 s)) (omega arith) in
              (out, left, rw (more, e1, e2, main_loop) e, small)
        ]
      ]
]

tail_loop-ne-none :
    (fuel done remaining : ℕ) (orig : Bytes) (h : State)
    → 128 ≤ length orig
    → remaining ≤ 128
    → remaining ≤ done + fuel
    → (q : ℕ) × (done ≡ 32 * q)
    → tail_loop fuel done remaining orig h ≢ none
unfolding tail_loop
tail_loop-ne-none zero done remaining orig h long few enough step = ground arith
tail_loop-ne-none (suc fuel) done remaining orig h long few enough (q, whole) =
    elim (Bool-cases (ltb done remaining)) [
      | inr stop ↦ rw (stop, tail_loop) (some-ne-none h)
      | inl more ↦
          let room : done + 32 ≤ length orig = ground arith in
          let fits : ltb (length orig) (done + 32) ≡ false = ground arith in
          let from = length orig - (done + 32) in
          elim (Option-cases (fetch64 (from + 16) orig)) [
            | inl out ↦ absurd (fetch64-ne-none (from + 16) orig (omega arith) out)
            | inr (f, ef) ↦ elim (Option-cases (fetch64 from orig)) [
              | inl out ↦ absurd (fetch64-ne-none from orig (omega arith) out)
              | inr (g, eg) ↦
                  let seed = wadd h.v0 (wadd (wadd h.z h.w1) g) in
                  elim (Option-cases (weak_hash32 from orig seed h.v1)) [
                    | inl out ↦ absurd (weak_hash32-ne-none from orig seed h.v1 (omega arith) out)
                    | inr (v, ev) ↦
                        rw (more, fits, ef, eg, ev, tail_loop)
                          (tail_loop-ne-none fuel (done + 32) remaining orig _ long few
                            (omega arith) (q + 1, omega arith))
                  ]
            ]
          ]
    ]

city_murmur-ne-none : (s : Bytes) (x y : ℕ) → city_murmur s x y ≢ none
unfolding city_murmur
city_murmur-ne-none s x y = ground (arith, murmur_mix-ne-none s x y)

city_hash128_with_seed-ne-none : (s : Bytes) (x y : ℕ) → city_hash128_with_seed s x y ≢ none
unfolding city_hash128_with_seed
city_hash128_with_seed-ne-none s x y = elim (Bool-cases (ltb (length s) 128)) [
  | inl short ↦ rw short (city_murmur-ne-none s x y)
  | inr long ↦
      let big : 128 ≤ length s = ground arith in
      elim (Option-cases (seeded s x y)) [
        | inl out ↦ absurd (seeded-ne-none s x y big out)
        | inr (h, eh) ↦
            let (h1, left, e1, small) =
              main_loop_total (length s) (length s) s h (omega arith) (omega arith) in
            elim (Option-cases (tail_loop (length s) 0 left s (stirred h1))) [
              | inl out ↦ absurd (
                  tail_loop-ne-none (length s) 0 left s (stirred h1) big (omega arith) (omega arith)
                    (0, omega arith) out)
              | inr (h2, e2) ↦ rw (long, eh, e1, e2) (some-ne-none _)
            ]
      ]
]

-- Every input has a digest: the port of CityHash128 slices nothing out of bounds, whatever the length,
-- and both of its loops end.
pub city_hash_128-ne-none : (s : Bytes) → city_hash_128 s ≢ none
unfolding city_hash_128
city_hash_128-ne-none s = grind (arith, fetch64-ne-none, city_hash128_with_seed-ne-none)
