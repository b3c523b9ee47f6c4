-- ===== src/Selection/Tcb.antt =====
-- src/selection.rs: `Tcb`, its construction from hexadecimal text and its partial order.
pub mod Order
pub mod LittleEndian
pub mod Parse
use pccs_rs.Common.{
  ℕ, zero, suc, ◌+◌, ◌*◌, ◌%◌, ◌^◌, Bool, true, false, not, ◌&&◌, ◌||◌, List, [], ◌∷◌, ◌++◌,
  reverse, Option, none, some, ltb, leb, ◌==◌, if◌then◌else◌, length, all,
}
use pccs_rs.Common.Result.{Result, ok, err, panic, ◌>>=◌, ◌>>◌, guard, ok_or}
use pccs_rs.Common.Text.{Text, is_ascii_hexdigit, hex_digit, to_ascii_uppercase}
use pccs_rs.Common.Int.{ℤ, pos, negsuc, is_nonneg}
use pccs_rs.Selection.Error.{
  SelectionError, invalid_cpusvn_length, invalid_cpusvn_format, invalid_pcesvn_format,
}

-- `components` is the array of the 16 CPUSVN bytes with PCESVN behind them.
pub record Tcb : Type 0 where
  pub cpusvn : Text
  pub pcesvn : ℕ
  pub components : List ℕ

pub data TcbNonComparable : Type 0 where
  tcb_non_comparable : TcbNonComparable

abbrev pub cpusvn_hex_len : ℕ
cpusvn_hex_len = 32

-- `u8::from_str_radix(_, 16)` of two hex digits.
unfoldable pub byte_of_hex : ℕ → ℕ → Option ℕ
byte_of_hex a b = elim (hex_digit a) [
  | none ↦ none
  | some h ↦ elim (hex_digit b) [ none ↦ none | some l ↦ some (h * 16 + l) ]
]

-- The loop over the components, `n` of them left; a text that is too short is sliced out of bounds.
unfoldable pub read_components : ℕ → SelectionError → Text → Result SelectionError (List ℕ)
read_components zero e s = ok []
read_components (suc n) e [] = panic
read_components (suc n) e (a ∷ []) = panic
read_components (suc n) e (a ∷ b ∷ s) = do
  c ← ok_or (byte_of_hex a b) e
  cs ← read_components n e s
  ok (c ∷ cs)

unfoldable pub new : Text → ℕ → Result SelectionError Tcb
new cpusvn pcesvn = do
  guard (length cpusvn == cpusvn_hex_len) (invalid_cpusvn_length (length cpusvn))
  guard (all is_ascii_hexdigit cpusvn) (invalid_cpusvn_format cpusvn)
  cs ← read_components 16 (invalid_cpusvn_format cpusvn) cpusvn
  ok (record {
    cpusvn = to_ascii_uppercase cpusvn;
    pcesvn = pcesvn;
    components = cs ++ pcesvn ∷ [];
  })

-- `as_bytes().chunks(2).rev().collect()`: the last pair first.
unfoldable pub reverse_pairs : Text → Text
reverse_pairs [] = []
reverse_pairs (a ∷ []) = a ∷ []
reverse_pairs (a ∷ b ∷ s) = reverse_pairs s ++ a ∷ b ∷ []

-- `u32::from_str_radix(_, 16)` on hex digits: the digits read so far are `acc`.
unfoldable pub radix_16 : ℕ → Text → Option ℕ
radix_16 acc [] = some acc
radix_16 acc (c ∷ s) = elim (hex_digit c) [
  | none ↦ none
  | some d ↦
      let rest = radix_16 (acc * 16 + d) s in if ltb (acc * 16 + d) (2 ^ 32) then rest else none
]

unfoldable pub little_endian_hex_to_int : Text → Option ℕ
little_endian_hex_to_int le_hex =
    if length le_hex == 0 || not (length le_hex % 2 == 0) || ltb 8 (length le_hex)
    then none
    else if not (all is_ascii_hexdigit le_hex)
    then none
    else radix_16 0 (reverse_pairs le_hex)

unfoldable pub from_hex : Text → Text → Result SelectionError Tcb
from_hex cpusvn pcesvn_le_hex = do
  pcesvn ← ok_or (little_endian_hex_to_int pcesvn_le_hex) (invalid_pcesvn_format pcesvn_le_hex)
  new cpusvn pcesvn

-- The loop of `compare`: the flags `left_lower` and `right_lower` after the components left.
unfoldable pub compare_loop : Bool → Bool → List ℕ → List ℕ → Bool × Bool
compare_loop l r [] ys = (l, r)
compare_loop l r (x ∷ xs) [] = (l, r)
compare_loop l r (x ∷ xs) (y ∷ ys) =
    compare_loop (l || ltb x y) (r || not (ltb x y) && ltb y x) xs ys

unfoldable pub verdict : Bool → Bool → Result TcbNonComparable ℤ
verdict true true = err tcb_non_comparable
verdict true false = ok (negsuc 0)
verdict false true = ok (pos 1)
verdict false false = ok (pos 0)

unfoldable pub compare : Tcb → Tcb → Result TcbNonComparable ℤ
unfolding compare_loop verdict
compare self other =
    let flags = compare_loop false false self.components other.components in verdict flags.0 flags.1

-- The guard `Ok(n) if n >= 0` of the callers.
abbrev pub at_least : Result TcbNonComparable ℤ → Bool
at_least (ok n) = is_nonneg n
at_least (err e) = false
at_least panic = false
