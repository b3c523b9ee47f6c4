-- ===== src/Validate/Params/Laws.antt =====
-- src/validate.rs: which single parameters are accepted, and in which form.
use pccs_rs.Common.{
  ℕ, zero, suc, ◌<◌, ◌≡◌, ◌↔◌, ◌⊎◌, ◌∙◌, refl, sym, subst, Bool, true, List, [], ◌∷◌, Option, none,
  some, arith, length, All, all, ◌≤◌, take, drop, ◌-◌,
}
use pccs_rs.Common.Result.{ok}
use pccs_rs.Common.Result.Laws.{ok-injective, collect-All}
use pccs_rs.Common.Text.{
  Text, codes, text_eq_iff, to_ascii_uppercase, to_ascii_uppercase_idem, is_ascii_hexdigit-to_upper,
  is_ascii_hexdigit,
}
use pccs_rs.Validate.Strings.{split, trim, text_of}
use pccs_rs.Validate.Params.{
  is_hex, require_hex, fmspc, UpdateType, all_types, as_str, or_standard, update_type, pck_ca,
  fmspc_list, platforms_source, fmspcs,
}

pub is_hex-to_ascii_uppercase : (s : Text) (n : ℕ) → is_hex (to_ascii_uppercase s) n ≡ is_hex s n
unfolding is_hex
is_hex-to_ascii_uppercase [] n = refl
is_hex-to_ascii_uppercase (b ∷ s) zero = ground arith
is_hex-to_ascii_uppercase (b ∷ s) (suc n) =
    ground (arith, is_hex-to_ascii_uppercase s n, is_ascii_hexdigit-to_upper b)

-- A digit, or a letter from A to F in either case, by its code.
abbrev pub HexDigit : ℕ → Type 0
HexDigit b = ((48 ≤ b) × (b ≤ 57)) ⊎ (((97 ≤ b) × (b ≤ 102)) ⊎ ((65 ≤ b) × (b ≤ 70)))

is_ascii_hexdigit_iff : (b : ℕ) → (is_ascii_hexdigit b ≡ true) ↔ HexDigit b
unfolding is_ascii_hexdigit
is_ascii_hexdigit_iff b = ground arith

all-HexDigit : (s : Text) → (all is_ascii_hexdigit s ≡ true) ↔ All HexDigit s
all-HexDigit [] = ((λ h. tt), (λ h. refl))
all-HexDigit (b ∷ s) =
    let (there, back) = all-HexDigit s in
    let (digit, test) = is_ascii_hexdigit_iff b in
    (
      (λ h. (digit (ground arith), there (ground arith))),
      (λ (x, xs). let p = test x in let q = back xs in ground arith),
    )

is_hex_iff : (s : Text) (n : ℕ) → (is_hex s n ≡ true) ↔ ((length s ≡ n) × All HexDigit s)
unfolding is_hex
is_hex_iff s n =
    let (there, back) = all-HexDigit s in
    ((λ h. (ground arith, there (ground arith))), (λ (l, xs). let q = back xs in ground arith))

require_hex_lem :
    (value : Option Text) (n : ℕ) (t : Text)
    → 0 < n
    → (require_hex value n ≡ ok t)
      ↔ ((s : Text) × (value ≡ some s) × (is_hex s n ≡ true) × (t ≡ to_ascii_uppercase s))
unfolding require_hex is_hex
require_hex_lem none n t pos =
    (λ h. absurd (ground arith), λ (s, same, hex, upper). absurd (ground arith))
require_hex_lem (some []) n t pos =
    (λ h. absurd (ground arith), λ (s, same, hex, upper). absurd (ground arith))
require_hex_lem (some (b ∷ s)) n t pos =
    (λ h. (b ∷ s, refl, ground arith, ground arith), λ (s', same, hex, upper). ground arith)

-- For a positive length, a hexadecimal parameter is accepted exactly if it is present and consists of
-- that many characters, each a digit or a letter from A to F in either case; it is passed on in upper
-- case.
pub require_hex_iff :
    (value : Option Text) (n : ℕ) (t : Text)
    → 0 < n
    → (require_hex value n ≡ ok t) ↔ (
        (s : Text) × (value ≡ some s)
        × (length s ≡ n)
        × All HexDigit s
        × (t ≡ to_ascii_uppercase s))
require_hex_iff value n t pos =
    let (there, back) = require_hex_lem value n t pos in
    (
      (λ h.
          let (s, given, hex, upper) = there h in
          let (l, xs) = (is_hex_iff s n).0 hex in (s, given, l, xs, upper)),
      (λ (s, given, l, xs, upper). back (s, given, (is_hex_iff s n).1 (l, xs), upper)),
    )

-- The accepted form of a hexadecimal parameter is accepted again, unchanged.
pub require_hex_idem :
    (value : Option Text) (n : ℕ) (t : Text)
    → 0 < n
    → require_hex value n ≡ ok t
    → require_hex (some t) n ≡ ok t
require_hex_idem value n t pos h =
    let (s, given, hex, upper) = (require_hex_lem value n t pos).0 h in
    (require_hex_lem (some t) n t pos).1 (
      t,
      refl,
      rw upper (is_hex-to_ascii_uppercase s n ∙ hex),
      rw upper (sym (to_ascii_uppercase_idem s)),
    )

-- An update type is accepted exactly if it is the type's name in any case (a missing one stands for
-- STANDARD), and `ALL` only where the caller allows it.
pub update_type_iff :
    (value : Option Text) (can_be_all : Bool) (u : UpdateType)
    → (update_type value can_be_all ≡ ok u) ↔ (
        (to_ascii_uppercase (or_standard value) ≡ as_str u) × ((u ≡ all_types) → can_be_all ≡ true))
unfolding update_type
update_type_iff value can_be_all u =
    let raw = to_ascii_uppercase (or_standard value) in
    ground (
      arith,
      text_eq_iff raw (codes "STANDARD"),
      text_eq_iff raw (codes "EARLY"),
      text_eq_iff raw (codes "ALL"),
    )

-- A CA is accepted exactly if it is one of the two names in any case, and is passed on in upper case.
pub pck_ca_iff :
    (value : Option Text) (t : Text)
    → (pck_ca value ≡ ok t) ↔ (
        (t ≡ to_ascii_uppercase (text_of value))
        × ((t ≡ codes "PROCESSOR") ⊎ (t ≡ codes "PLATFORM")))
unfolding pck_ca
pck_ca_iff value t = ground (
  arith,
  text_eq_iff (to_ascii_uppercase (text_of value)) (codes "PROCESSOR"),
  text_eq_iff (to_ascii_uppercase (text_of value)) (codes "PLATFORM"),
)

fmspc-hex : (s : Option Text) (t : Text) → fmspc s ≡ ok t → is_hex t 12 ≡ true
unfolding fmspc
fmspc-hex value t h =
    let (s, given, hex, upper) = (require_hex_lem value 12 t (omega arith)).0 h in
    rw upper (is_hex-to_ascii_uppercase s 12 ∙ hex)

fmspc_list-hex :
    (inner : Text) (list : List Text)
    → fmspc_list inner ≡ ok list
    → All (λ t. is_hex t 12 ≡ true) list
unfolding fmspc_list
fmspc_list-hex [] list h = subst (All (λ t. is_hex t 12 ≡ true)) (ok-injective h) tt
fmspc_list-hex (b ∷ inner) list h =
    collect-All (λ part. fmspc (some (trim part))) (λ t. is_hex t 12 ≡ true)
      (λ part t e. fmspc-hex (some (trim part)) t e) (split b',' (b ∷ inner)) list h

-- Every FMSPC in an accepted list of a platforms source consists of 12 hexadecimal digits.
pub platforms_source-hex :
    (value : Option Text) (list : List Text)
    → platforms_source value ≡ ok (fmspcs list)
    → All (λ t. is_hex t 12 ≡ true) list
unfolding platforms_source
platforms_source-hex none list h = ground arith
platforms_source-hex (some s) list h =
    let inner = trim (take (length s - 2) (drop 1 s)) in fmspc_list-hex inner list (ground arith)
