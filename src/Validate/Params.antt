-- ===== src/Validate/Params.antt =====
-- src/validate.rs: the checks of single parameters.
pub mod Laws
use pccs_rs.Common.{
  ℕ, zero, suc, ◌+◌, ◌-◌, Bool, true, false, not, ◌&&◌, ◌||◌, List, [], ◌∷◌, ◌++◌, Option, none,
  some, ltb, leb, ◌==◌, if◌then◌else◌, length, take, drop, all, is_empty,
}
use pccs_rs.Common.Result.{Result, ok, err, panic, ◌>>=◌, ◌>>◌, guard, collect}
use pccs_rs.Common.Text.{Text, codes, text_eq, is_ascii_hexdigit, to_ascii_uppercase}
use pccs_rs.Errors.{PccsError, invalid_req}
use pccs_rs.Validate.Strings.{text_of, nonempty, split, trim}

unfoldable pub is_hex : Text → ℕ → Bool
is_hex value expected_len = length value == expected_len && all is_ascii_hexdigit value

unfoldable pub is_hex_or_empty : Text → ℕ → Bool
unfolding is_hex
is_hex_or_empty value expected_len = is_empty value || is_hex value expected_len

unfoldable pub require_hex : Option Text → ℕ → Result PccsError Text
require_hex value expected_len = elim (nonempty value) [
  | none ↦ err invalid_req
  | some v ↦ if not (is_hex v expected_len) then err invalid_req else ok (to_ascii_uppercase v)
]

unfoldable pub fmspc : Option Text → Result PccsError Text
unfolding require_hex is_hex
fmspc value = require_hex value 12

unfoldable pub cpusvn : Option Text → Result PccsError Text
unfolding require_hex is_hex
cpusvn value = require_hex value 32

unfoldable pub pcesvn : Option Text → Result PccsError Text
unfolding require_hex is_hex
pcesvn value = require_hex value 4

unfoldable pub pceid : Option Text → Result PccsError Text
unfolding require_hex is_hex
pceid value = require_hex value 4

unfoldable pub encrypted_ppid : Option Text → Result PccsError (Option Text)
encrypted_ppid none = ok none
encrypted_ppid (some v) = do ppid ← require_hex (some v) 768; ok (some ppid)

unfoldable pub qeid : Option Text → Result PccsError Text
qeid value = elim (nonempty value) [
  | none ↦ err invalid_req
  | some v ↦ if ltb 260 (length v) then err invalid_req else ok (to_ascii_uppercase v)
]

pub data UpdateType : Type 0 where
  standard early all_types : UpdateType

abbrev pub as_str : UpdateType → Text
as_str standard = codes "STANDARD"
as_str early = codes "EARLY"
as_str all_types = codes "ALL"

abbrev pub or_standard : Option Text → Text
or_standard none = codes "STANDARD"
or_standard (some s) = s

unfoldable pub update_type : Option Text → Bool → Result PccsError UpdateType
update_type value can_be_all =
    let raw = to_ascii_uppercase (or_standard value) in
    if text_eq raw (codes "STANDARD")
    then ok standard
    else if text_eq raw (codes "EARLY")
    then ok early
    else if text_eq raw (codes "ALL") && can_be_all
    then ok all_types
    else err invalid_req

unfoldable pub pck_ca : Option Text → Result PccsError Text
pck_ca value =
    let ca = to_ascii_uppercase (text_of value) in
    if not (text_eq ca (codes "PROCESSOR")) && not (text_eq ca (codes "PLATFORM"))
    then err invalid_req
    else ok ca

pub data PlatformsSource : Type 0 where
  reg reg_na : PlatformsSource
  fmspcs : List Text → PlatformsSource

-- `starts_with('[')` and `ends_with(']')`.
abbrev first_is : ℕ → Text → Bool
first_is c [] = false
first_is c (b ∷ s) = b == c

abbrev last_is : ℕ → Text → Bool
last_is c [] = false
last_is c (b ∷ []) = b == c
last_is c (b ∷ d ∷ s) = last_is c (d ∷ s)

-- The list of a source in brackets.
unfoldable pub fmspc_list : Text → Result PccsError (List Text)
fmspc_list inner =
    if is_empty inner then ok [] else collect (λ part. fmspc (some (trim part))) (split b',' inner)

unfoldable pub platforms_source : Option Text → Result PccsError PlatformsSource
unfolding fmspc_list
platforms_source none = ok reg
platforms_source (some s) =
    if text_eq s [] || text_eq s (codes "reg")
    then ok reg
    else if text_eq s (codes "reg_na")
    then ok reg_na
    else if ltb (length s) 2 || (not (first_is b'[' s) || not (last_is b']' s))
    then err invalid_req
    else (do list ← fmspc_list (trim (take (length s - 2) (drop 1 s))); ok (fmspcs list))
