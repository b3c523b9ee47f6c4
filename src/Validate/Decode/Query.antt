-- ===== src/Validate/Decode/Query.antt =====
-- src/validate.rs: repeated names in a query.
use pccs_rs.Common.{ℕ, ◌≡◌, refl, List, [], ◌∷◌, Option, none, some, arith, if◌then◌else◌}
use pccs_rs.Common.Result.{ok}
use pccs_rs.Common.Text.{Text, text_eq, text_eq_iff}
use pccs_rs.Validate.Strings.{split}
use pccs_rs.Validate.Decode.{
  Map, find, or_insert, split_pair, params_loop, query_params, query_decode,
}

-- The value of the first pair that is not empty and whose decoded name is `key`.
abbrev pub first_value : Text → List Text → Option Text
first_value key [] = none
first_value key ([] ∷ pairs) = first_value key pairs
first_value key ((b ∷ pair) ∷ pairs) =
    let kv = split_pair (b ∷ pair) in
    if text_eq (query_decode kv.0) key then some (query_decode kv.1) else first_value key pairs

abbrev or_else : Option Text → Option Text → Option Text
or_else none later = later
or_else (some v) later = some v

find-or_insert :
    (key k v : Text) (m : Map)
    → find key (or_insert k v m) ≡ or_else (find key m) (if text_eq k key then some v else none)
unfolding find or_insert
find-or_insert key k v [] = ground arith
find-or_insert key k v ((k', v') ∷ m) =
    ground
      (arith, find-or_insert key k v m, text_eq_iff k' key, text_eq_iff k' k, text_eq_iff k key)

find-params_loop :
    (key : Text) (out : Map) (pairs : List Text)
    → find key (params_loop out pairs) ≡ or_else (find key out) (first_value key pairs)
unfolding params_loop
find-params_loop key out [] = ground arith
find-params_loop key out ([] ∷ pairs) = find-params_loop key out pairs
find-params_loop key out ((b ∷ pair) ∷ pairs) =
    let kv = split_pair (b ∷ pair) in
    let k = query_decode kv.0 in
    let v = query_decode kv.1 in
    ground (arith, find-params_loop key (or_insert k v out) pairs, find-or_insert key k v out)

-- A query that is not empty is always read, and each name is looked up as the decoded value of the
-- first pair that has it.
pub query_params-first :
    (b : ℕ) (q key : Text)
    → (m : Map) × (query_params (some (b ∷ q)) ≡ ok m)
      × (find key m ≡ first_value key (split b'&' (b ∷ q)))
unfolding query_params find
query_params-first b q key =
    (params_loop [] (split b'&' (b ∷ q)), refl, find-params_loop key [] (split b'&' (b ∷ q)))
