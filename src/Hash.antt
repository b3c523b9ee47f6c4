-- ===== src/Hash.antt =====
-- src/hash.rs and src/hash/city.rs: the digest of the store's keys, CityHash128 in its portable form.
-- A word is a number below 2^64, and each operation wraps as in the source. `none` is the panic of a
-- slice out of bounds.
pub mod Bounds
use pccs_rs.Common.{
  ℕ, zero, suc, ◌+◌, ◌-◌, ◌*◌, ◌/◌, ◌%◌, ◌^◌, Bool, true, false, not, List, [], ◌∷◌, ◌++◌, Option,
  none, some, ltb, leb, ◌==◌, if◌then◌else◌, length, take, drop, bit_xor, get_elem?, is_empty,
}
use pccs_rs.Common.Text.{Text}

abbrev pub Bytes : Type 0
Bytes = List ℕ

infixl 5 ◌>>=◌
abbrev pub ◌>>=◌ {ℓ κ} : {A : Type ℓ} {B : Type κ} → Option A → (A → Option B) → Option B
none >>= f = none
some a >>= f = f a

abbrev word : ℕ
word = 2 ^ 64

abbrev pub k0 : ℕ
k0 = 0xc3a5c85c97cb3127

abbrev pub k1 : ℕ
k1 = 0xb492b66fbe98f273

abbrev k2 : ℕ
k2 = 0x9ae16a3b2f90404f

abbrev k_mul : ℕ
k_mul = 0x9ddfea08eb382d69

-- `wrapping_add`, `wrapping_mul` and `rotate_right`.
unfoldable pub wadd : ℕ → ℕ → ℕ
wadd a b = (a + b) % word

unfoldable pub wmul : ℕ → ℕ → ℕ
wmul a b = a * b % word

unfoldable pub rotate_right : ℕ → ℕ → ℕ
rotate_right x k = x / 2 ^ k + x % 2 ^ k * 2 ^ (64 - k)

unfoldable pub le_value : Bytes → ℕ
le_value [] = 0
le_value (b ∷ bs) = b + 256 * le_value bs

-- `fetch64(&s[k..])` and `fetch32(&s[k..])`.
unfoldable pub fetch64 : ℕ → Bytes → Option ℕ
fetch64 k s = if ltb (length s) (k + 8) then none else some (le_value (take 8 (drop k s)))

unfoldable pub fetch32 : ℕ → Bytes → Option ℕ
fetch32 k s = if ltb (length s) (k + 4) then none else some (le_value (take 4 (drop k s)))

unfoldable pub shift_mix : ℕ → ℕ
shift_mix val = bit_xor val (val / 2 ^ 47)

unfoldable pub hash_len16_mul : ℕ → ℕ → ℕ → ℕ
hash_len16_mul u v mul =
    let a = wmul (bit_xor u v) mul in
    let a' = bit_xor a (a / 2 ^ 47) in
    let b = wmul (bit_xor v a') mul in let b' = bit_xor b (b / 2 ^ 47) in wmul b' mul

unfoldable pub hash_len16 : ℕ → ℕ → ℕ
hash_len16 u v = hash_len16_mul u v k_mul

unfoldable pub hash_len0to16 : Bytes → Option ℕ
hash_len0to16 s =
    let len = length s in
    let mul = wadd k2 (wmul len 2) in
    if leb 8 len
    then (do
      f ← fetch64 0 s
      b ← fetch64 (len - 8) s
      let a = wadd f k2
      let c = wadd (wmul (rotate_right b 37) mul) a
      let d = wmul (wadd (rotate_right a 25) b) mul
      some (hash_len16_mul c d mul))
    else if leb 4 len
    then (do
      a ← fetch32 0 s
      b ← fetch32 (len - 4) s
      some (hash_len16_mul (wadd len (a * 8 % word)) b mul))
    else if not (is_empty s)
    then (do
      a ← get_elem? s 0
      b ← get_elem? s (len / 2)
      c ← get_elem? s (len - 1)
      let y = (a + b * 256 % 2 ^ 32) % 2 ^ 32
      let z = (len + c * 4 % 2 ^ 32) % 2 ^ 32
      some (wmul (shift_mix (bit_xor (wmul y k2) (wmul z k0))) k2))
    else some k2

unfoldable pub weak_hash_len32_with_seeds : ℕ → ℕ → ℕ → ℕ → ℕ → ℕ → ℕ × ℕ
weak_hash_len32_with_seeds w x y z a b =
    let a1 = wadd a w in
    let b1 = rotate_right (wadd (wadd b a1) z) 21 in
    let a2 = wadd (wadd a1 x) y in let b2 = wadd b1 (rotate_right a2 44) in (wadd a2 z, wadd b2 a1)

-- `weak_hash32(&s[k..], a, b)`.
unfoldable pub weak_hash32 : ℕ → Bytes → ℕ → ℕ → Option (ℕ × ℕ)
weak_hash32 k s a b = do
  w ← fetch64 k s
  x ← fetch64 (k + 8) s
  y ← fetch64 (k + 16) s
  z ← fetch64 (k + 24) s
  some (weak_hash_len32_with_seeds w x y z a b)

-- The high word above the low word.
unfoldable pub pack : ℕ → ℕ → ℕ
pack low high = high * word + low

pub record Mix : Type 0 where
  pub a : ℕ
  pub b : ℕ
  pub c : ℕ
  pub d : ℕ

-- The loop of `city_murmur`, 16 bytes at a time; the bytes at `i` and behind it are `s`.
unfoldable pub murmur_loop : ℕ → ℕ → Bytes → Mix → Option Mix
murmur_loop zero remaining s m = if ltb 16 remaining then none else some m
murmur_loop (suc fuel) remaining s m = elim (ltb 16 remaining) [
  | false ↦ some m
  | true ↦ do
    f ← fetch64 0 s
    g ← fetch64 8 s
    let a = wmul (bit_xor m.a (wmul (shift_mix (wmul f k1)) k1)) k1
    let b = bit_xor m.b a
    let c = wmul (bit_xor m.c (wmul (shift_mix (wmul g k1)) k1)) k1
    murmur_loop fuel (remaining - 16) (drop 16 s)
        (record { a = a; b = b; c = c; d = bit_xor m.d c })
]

unfoldable pub murmur_mix : Bytes → ℕ → ℕ → Option Mix
murmur_mix s seed_low seed_high =
    let len = length s in
    if leb len 16
    then (do
      let a = wmul (shift_mix (wmul seed_low k1)) k1
      h ← hash_len0to16 s
      let c = wadd (wmul seed_high k1) h
      f ← if leb 8 len then fetch64 0 s else some c
      some (record { a = a; b = seed_high; c = c; d = shift_mix (wadd a f) }))
    else (do
      f ← fetch64 (len - 8) s
      g ← fetch64 (len - 16) s
      let c = hash_len16 (wadd f k1) seed_low
      let d = hash_len16 (wadd seed_high len) (wadd c g)
      murmur_loop len len s (record { a = wadd seed_low d; b = seed_high; c = c; d = d }))

unfoldable pub city_murmur : Bytes → ℕ → ℕ → Option ℕ
city_murmur s seed_low seed_high = do
  m ← murmur_mix s seed_low seed_high
  let a = hash_len16 m.a m.c
  let b = hash_len16 m.d m.b
  some (pack (bit_xor a b) (hash_len16 b a))

pub record State : Type 0 where
  pub x : ℕ
  pub y : ℕ
  pub z : ℕ
  pub v0 : ℕ
  pub v1 : ℕ
  pub w0 : ℕ
  pub w1 : ℕ

-- One round of the main loop, on the 64 bytes that `s` begins with.
unfoldable pub round : Bytes → State → Option State
round s h = do
  f8 ← fetch64 8 s
  f48 ← fetch64 48 s
  f40 ← fetch64 40 s
  f16 ← fetch64 16 s
  let x1 = wmul (rotate_right (wadd (wadd (wadd h.x h.y) h.v0) f8) 37) k1
  let y1 = wmul (rotate_right (wadd (wadd h.y h.v1) f48) 42) k1
  let x2 = bit_xor x1 h.w1
  let y2 = wadd (wadd y1 h.v0) f40
  let z1 = wmul (rotate_right (wadd h.z h.w0) 33) k1
  (v0, v1) ← weak_hash32 0 s (wmul h.v1 k1) (wadd x2 h.w0)
  (w0, w1) ← weak_hash32 32 s (wadd z1 h.w1) (wadd y2 f16)
  some (record { x = z1; y = y2; z = x2; v0 = v0; v1 = v1; w0 = w0; w1 = w1 })

-- `while remaining >= 128`, two rounds each; the state, and `remaining` at the end.
unfoldable pub main_loop : ℕ → ℕ → Bytes → State → Option (State × ℕ)
main_loop zero remaining s h = if leb 128 remaining then none else some (h, remaining)
main_loop (suc fuel) remaining s h = elim (leb 128 remaining) [
  | false ↦ some (h, remaining)
  | true ↦ do
    h1 ← round s h
    h2 ← round (drop 64 s) h1
    main_loop fuel (remaining - 128) (drop 128 s) h2
]

-- `while tail_done < remaining`, 32 bytes at a time from the end of `orig`.
unfoldable pub tail_loop : ℕ → ℕ → ℕ → Bytes → State → Option State
tail_loop zero tail_done remaining orig h = if ltb tail_done remaining then none else some h
tail_loop (suc fuel) tail_done remaining orig h = elim (ltb tail_done remaining) [
  | false ↦ some h
  | true ↦ elim (ltb (length orig) (tail_done + 32)) [
    | true ↦ none
    | false ↦ do
      let from = length orig - (tail_done + 32)
      let y = wadd (wmul (rotate_right (wadd h.x h.y) 42) k0) h.v1
      f16 ← fetch64 (from + 16) orig
      let w0 = wadd h.w0 f16
      let x = wadd (wmul h.x k0) w0
      f ← fetch64 from orig
      let z = wadd (wadd h.z h.w1) f
      let w1 = wadd h.w1 h.v0
      (v0, v1) ← weak_hash32 from orig (wadd h.v0 z) h.v1
      tail_loop fuel (tail_done + 32) remaining orig
          (record { x = x; y = y; z = z; v0 = wmul v0 k0; v1 = v1; w0 = w0; w1 = w1 })
  ]
]

-- The state before the main loop.
unfoldable pub seeded : Bytes → ℕ → ℕ → Option State
seeded s x y = do
  let z = wmul (length s) k1
  f ← fetch64 0 s
  f8 ← fetch64 8 s
  f88 ← fetch64 88 s
  let v0 = wadd (wmul (rotate_right (bit_xor y k1) 49) k1) f
  let v1 = wadd (wmul (rotate_right v0 42) k1) f8
  let w0 = wadd (wmul (rotate_right (wadd y z) 35) k1) x
  let w1 = wmul (rotate_right (wadd x f88) 53) k1
  some (record { x = x; y = y; z = z; v0 = v0; v1 = v1; w0 = w0; w1 = w1 })

-- Between the loops.
unfoldable pub stirred : State → State
stirred h = record {
  x = wadd h.x (wmul (rotate_right (wadd h.v0 h.z) 49) k0);
  y = wadd (wmul h.y k0) (rotate_right h.w1 37);
  z = wadd (wmul h.z k0) (rotate_right h.w0 27);
  v0 = wmul h.v0 k0;
  v1 = h.v1;
  w0 = wmul h.w0 9;
  w1 = h.w1;
}

unfoldable pub finish : State → ℕ
finish h =
    let x = hash_len16 h.x h.v0 in
    let y = hash_len16 (wadd h.y h.z) h.w0 in
    pack (wadd (hash_len16 (wadd x h.v1) h.w1) y) (hash_len16 (wadd x h.w1) (wadd y h.v1))

unfoldable pub city_hash128_with_seed : Bytes → ℕ → ℕ → Option ℕ
city_hash128_with_seed s seed_low seed_high =
    if ltb (length s) 128 then city_murmur s seed_low seed_high else (do
      h ← seeded s seed_low seed_high
      (h1, remaining) ← main_loop (length s) (length s) s h
      h2 ← tail_loop (length s) 0 remaining s (stirred h1)
      some (finish h2))

unfoldable pub city_hash_128 : Bytes → Option ℕ
city_hash_128 s =
    if leb 16 (length s)
    then (do
      low ← fetch64 0 s
      high ← fetch64 8 s
      city_hash128_with_seed (drop 16 s) low (wadd high k0))
    else city_hash128_with_seed s k0 k1

-- `{:032x}`: lower-case digits, the most significant first.
unfoldable pub lower_digit : ℕ → ℕ
lower_digit d = if ltb d 10 then d + b'0' else d - 10 + b'a'

unfoldable pub hex_digits : ℕ → ℕ → Text → Text
hex_digits zero n out = out
hex_digits (suc k) n out = hex_digits k (n / 16) (lower_digit (n % 16) ∷ out)

unfoldable pub hash128_hex : Bytes → Option Text
unfolding city_hash_128 hex_digits lower_digit
hash128_hex s = do h ← city_hash_128 s; some (hex_digits 32 h [])
