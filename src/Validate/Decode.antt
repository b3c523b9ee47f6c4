-- ===== src/Validate/Decode.antt =====
-- src/validate.rs: percent-decoding and the query's parameters.
pub mod Query
use pccs_rs.Common.{
  ℕ, zero, suc, ◌+◌, ◌*◌, Bool, true, false, not, ◌&&◌, ◌||◌, List, [], ◌∷◌, ◌++◌, Option, none,
  some, ltb, leb, ◌==◌, if◌then◌else◌, length, take, drop,
}
use pccs_rs.Common.Result.{Result, ok, err, panic}
use pccs_rs.Common.Text.{Text, text_eq, hex_digit}
use pccs_rs.Errors.{PccsError}
use pccs_rs.Validate.Strings.{split, split_char, replace, nonempty}

abbrev continuation : ℕ → Bool
continuation b = leb 0x80 b && leb b 0xBF

-- Whether the second byte may follow the first of a character of three or four bytes.
unfoldable pub second_ok : ℕ → ℕ → Bool
second_ok a b =
    if a == 0xE0
    then leb 0xA0 b && leb b 0xBF
    else if a == 0xED
    then leb 0x80 b && leb b 0x9F
    else if a == 0xF0
    then leb 0x90 b && leb b 0xBF
    else if a == 0xF4
    then leb 0x80 b && leb b 0x8F
    else continuation b

abbrev byte_at : Text → ℕ → ℕ
byte_at [] i = 0
byte_at (b ∷ s) zero = b
byte_at (b ∷ s) (suc i) = byte_at s i

-- Whether a character of UTF-8 begins with `a` and goes on in `s`, and how many bytes belong together.
unfoldable pub scan_char : ℕ → Text → Bool × ℕ
unfolding second_ok
scan_char a s =
    if ltb a 0x80
    then (true, 1)
    else if leb 0xC2 a && leb a 0xDF
    then (if continuation (byte_at s 0) then (true, 2) else (false, 1))
    else if leb 0xE0 a && leb a 0xEF
    then (if second_ok a (byte_at s 0)
        then (if continuation (byte_at s 1) then (true, 3) else (false, 2))
        else (false, 1))
    else if leb 0xF0 a && leb a 0xF4
    then (if second_ok a (byte_at s 0)
        then (if continuation (byte_at s 1)
            then (if continuation (byte_at s 2) then (true, 4) else (false, 3))
            else (false, 2))
        else (false, 1))
    else (false, 1)

-- `String::from_utf8_lossy`: U+FFFD for each ill-formed part.
unfoldable pub lossy_loop : ℕ → Text → Text
unfolding scan_char
lossy_loop zero s = []
lossy_loop (suc fuel) [] = []
lossy_loop (suc fuel) (a ∷ s) =
    let (valid, n) = scan_char a s in
    (if valid then take n (a ∷ s) else 0xEF ∷ 0xBF ∷ 0xBD ∷ []) ++ lossy_loop fuel (drop n (a ∷ s))

unfoldable pub from_utf8_lossy : Text → Text
unfolding lossy_loop
from_utf8_lossy s = lossy_loop (length s) s

-- The byte of an escape's two digits.
unfoldable pub escape : ℕ → ℕ → ℕ → Option ℕ
escape b h l =
    if b == b'%'
    then (elim (hex_digit h) [
      | none ↦ none
      | some hi ↦ elim (hex_digit l) [ none ↦ none | some lo ↦ some (hi * 16 + lo) ]
    ])
    else none

-- The loop of `percent_decode`.
unfoldable pub percent_loop : Text → Text
percent_loop [] = []
percent_loop (b ∷ []) = b ∷ []
percent_loop (b ∷ c ∷ []) = b ∷ c ∷ []
percent_loop (b ∷ h ∷ l ∷ s) = elim (escape b h l) [
  | some byte ↦ byte ∷ percent_loop s
  | none ↦ b ∷ percent_loop (h ∷ l ∷ s)
]

unfoldable pub percent_decode : Text → Text
unfolding percent_loop from_utf8_lossy
percent_decode s = from_utf8_lossy (percent_loop s)

unfoldable pub query_decode : Text → Text
unfolding percent_decode replace
query_decode s = percent_decode (replace b'+' 32 s)

-- A map of the source, with one entry for each key.
abbrev pub Map : Type 0
Map = List (Text × Text)

unfoldable pub find : Text → Map → Option Text
find key [] = none
find key ((k, v) ∷ m) = if text_eq k key then some v else find key m

-- `entry(key).or_insert_with(value)`.
unfoldable pub or_insert : Text → Text → Map → Map
or_insert key value [] = (key, value) ∷ []
or_insert key value ((k, v) ∷ m) =
    if text_eq k key then (k, v) ∷ m else (k, v) ∷ or_insert key value m

-- A pair without `=` is a key with an empty value.
unfoldable pub split_pair : Text → Text × Text
split_pair pair = elim (split_char b'=' pair) [ some (k, v) ↦ (k, v) | none ↦ (pair, []) ]

-- The loop over the pairs.
unfoldable pub params_loop : Map → List Text → Map
params_loop out [] = out
params_loop out ([] ∷ pairs) = params_loop out pairs
params_loop out ((b ∷ pair) ∷ pairs) =
    let kv = split_pair (b ∷ pair) in
    params_loop (or_insert (query_decode kv.0) (query_decode kv.1) out) pairs

unfoldable pub query_params : Option Text → Result PccsError Map
unfolding params_loop
query_params query = elim (nonempty query) [
  | none ↦ ok []
  | some q ↦ ok (params_loop [] (split b'&' q))
]
