-- ===== src/Tests/SelectionExamples.antt =====
-- The theorems of the selection at concrete inputs.
use pccs_rs.Common.{
  ℕ, ◌+◌, ◌≡◌, ◌≢◌, ◌↔◌, ◌≤◌, ◌<◌, refl, ◌⊎◌, true, List, [], ◌∷◌, ◌++◌, none, some, arith, length,
  all, In, replicate,
}
use pccs_rs.Common.Result.{Result, ok, err, panic}
use pccs_rs.Common.Text.{codes, Text, is_ascii_hexdigit, encode_upper}
use pccs_rs.Common.Int.{pos, negsuc}
use mathlib.Core.List.{Perm}
use pccs_rs.Selection.Error.{SelectionError, no_certificate_found}
use pccs_rs.Selection.Tcb.{Tcb, compare, tcb_non_comparable, new, little_endian_hex_to_int}
use pccs_rs.Selection.Tcb.Order.{AllLe, compare_cases}
use pccs_rs.Selection.Cert.{sgx_ext_oid}
use pccs_rs.Common.BigEndian.{be_value}
use pccs_rs.Selection.Der.{Bytes, tlvs, find_extension}
use pccs_rs.Selection.Der.Encoded.{tlvs-encoded, item, nothing, one, counted}
use pccs_rs.Selection.Der.Found.{Holds}
use pccs_rs.Selection.Der.Total.{find_extension_cases}
use pccs_rs.Selection.Tcb.Parse.{new_iff, IsTcb}
use pccs_rs.Selection.Tcb.LittleEndian.{little_endian_hex_to_int-encode_upper, le_value}
use pccs_rs.Selection.Input.{ParsedCert, parse_pck_certs}
use pccs_rs.Selection.Buckets.{Bucket, v8_sort_desc, create_buckets}
use pccs_rs.Selection.Buckets.Sorting.{v8_sort_desc-perm}
use pccs_rs.Selection.Choice.{select_best_pck_cert, place_all}
use pccs_rs.Selection.Choice.Placement.{place_all_total, Placed}
use pccs_rs.Selection.Choice.Promise.{
  Selected, Prepared, select_best_pck_cert_sound, select_best_pck_cert-ne-panic,
  select_best_pck_cert_cases,
}
use pccs_rs.Tests.Sample.{json, decode, tcb_info, pool, pem, low_cert}
use pccs_rs.Tests.SelectionTests.{ones, selects_low, selection}

abbrev six : Text
six = codes "0600"

abbrev pceid : Text
pceid = codes "0000"

select_best_pck_cert_sound_example :
    Selected json decode ones six pceid pool tcb_info (codes "LOW") (pem "L")
select_best_pck_cert_sound_example =
    select_best_pck_cert_sound json decode ones six pceid pool tcb_info (codes "LOW") (pem "L")
      selects_low

select_best_pck_cert-ne-panic_example :
    select_best_pck_cert json decode ones six pceid pool tcb_info ≢ panic
select_best_pck_cert-ne-panic_example =
    select_best_pck_cert-ne-panic json decode ones six pceid pool tcb_info

abbrev or_nil : {A : Type 0} → Result SelectionError (List A) → List A
or_nil (ok xs) = xs
or_nil (err e) = []
or_nil panic = []

abbrev a_low : Tcb
a_low = record {
  cpusvn = codes "01010101010101010101010101010101";
  pcesvn = 5;
  components = replicate 16 1 ++ 5 ∷ [];
}

abbrev raw_tcb : Tcb
raw_tcb = record { cpusvn = ones; pcesvn = 6; components = 2 ∷ (replicate 15 1 ++ 6 ∷ []) }

abbrev a_high : Tcb
a_high = record {
  cpusvn = codes "03020202020202020202020202020202";
  pcesvn = 9;
  components = 3 ∷ (replicate 15 2 ++ 9 ∷ []);
}

abbrev mixed : Tcb
mixed = record {
  cpusvn = codes "00040404040404040404040404040404";
  pcesvn = 9;
  components = 0 ∷ (replicate 15 4 ++ 9 ∷ []);
}

abbrev parsed_pool : List ParsedCert
parsed_pool = or_nil (parse_pck_certs decode pool)

abbrev level_buckets : List Bucket
level_buckets = or_nil (create_buckets json tcb_info)

prepared : Prepared json decode ones six pceid pool tcb_info parsed_pool level_buckets raw_tcb
unfolding selection
prepared = record {
  nonempty = refl;
  parsing = refl;
  validation = refl;
  bucketing = refl;
  reading = refl;
}

select_best_pck_cert_cases_example :
    let r = select_best_pck_cert json decode ones six pceid pool tcb_info in
    ((c : ParsedCert) × (r ≡ ok (c.tcbm, c.cert))
      × (In c parsed_pool × AllLe c.tcb.components raw_tcb.components))
    ⊎ ((r ≡ err no_certificate_found)
        × ((c : ParsedCert) → ¬ (In c parsed_pool × AllLe c.tcb.components raw_tcb.components)))
select_best_pck_cert_cases_example =
    select_best_pck_cert_cases json decode ones six pceid pool tcb_info parsed_pool level_buckets
      raw_tcb prepared

abbrev three_buckets : List Bucket
three_buckets =
    record { tcb = some a_low; certs = [] }
    ∷ record { tcb = some mixed; certs = [] }
    ∷ record { tcb = some a_high; certs = [] }
    ∷ []

v8_sort_desc-perm_example :
    (out : List Bucket) × (v8_sort_desc three_buckets ≡ ok out)
    × Perm out three_buckets
    × (length out ≡ length three_buckets)
v8_sort_desc-perm_example = v8_sort_desc-perm three_buckets

place_all_total_example :
    (bs' : List Bucket) × (nm' : List ℕ) × (place_all 0 parsed_pool parsed_pool level_buckets []
      ≡ ok (bs', nm'))
    × ((j : ℕ)
        → Placed j bs' nm' ↔ (Placed j level_buckets [] ⊎ ((0 ≤ j) × (j < 0 + length parsed_pool))))
unfolding selection
place_all_total_example =
    place_all_total 0 parsed_pool parsed_pool level_buckets [] (omega arith) tt

compare_cases_example :
    let up : Type 0 = AllLe mixed.components a_high.components in
    let down : Type 0 = AllLe a_high.components mixed.components in
    ((compare a_high mixed ≡ ok (pos 0)) ↔ (up × down))
    × ((compare a_high mixed ≡ ok (pos 1)) ↔ (up × (¬ down)))
    × ((compare a_high mixed ≡ ok (negsuc 0)) ↔ ((¬ up) × down))
    × ((compare a_high mixed ≡ err tcb_non_comparable) ↔ ((¬ up) × (¬ down)))
compare_cases_example = compare_cases a_high mixed

new_iff_example :
    (((t : Tcb) × (new ones 6 ≡ ok t)) ↔ ((length ones ≡ 32) × (all is_ascii_hexdigit ones ≡ true)))
    × (new ones 6 ≢ panic)
    × ((t : Tcb) → new ones 6 ≡ ok t → IsTcb ones 6 t)
new_iff_example = new_iff ones 6

abbrev lower : Text
lower = codes "aa000000000000000000000000000000"

abbrev lower_tcb : Tcb
lower_tcb = record {
  cpusvn = codes "AA000000000000000000000000000000";
  pcesvn = 5;
  components = 170 ∷ (replicate 15 0 ++ 5 ∷ []);
}

little_endian_hex_to_int-encode_upper_example :
    little_endian_hex_to_int (encode_upper (0xAB ∷ 0x01 ∷ [])) ≡ some (le_value (0xAB ∷ 0x01 ∷ []))
little_endian_hex_to_int-encode_upper_example =
    little_endian_hex_to_int-encode_upper (0xAB ∷ 0x01 ∷ []) (omega arith) (omega arith)
      (omega arith, (omega arith, tt))

find_extension_cases_example :
    ((value : Bytes) × (find_extension sgx_ext_oid low_cert ≡ ok (some value))
      × Holds sgx_ext_oid low_cert value)
    ⊎ ((find_extension sgx_ext_oid low_cert ≡ ok none)
        × ((value : Bytes) → ¬ Holds sgx_ext_oid low_cert value))
find_extension_cases_example = find_extension_cases sgx_ext_oid low_cert

-- Two items, the first with a length of two bytes.
abbrev two_items : List (ℕ × Bytes)
two_items = (0x30, replicate 300 7) ∷ (0x04, 1 ∷ 2 ∷ []) ∷ []

abbrev two_items_bytes : Bytes
two_items_bytes =
    0x30 ∷ ((130 ∷ 1 ∷ 44 ∷ []) ++ (replicate 300 7 ++ 0x04 ∷ ((2 ∷ []) ++ ((1 ∷ 2 ∷ []) ++ []))))

tlvs-encoded_example : tlvs two_items_bytes ≡ ok two_items
unfolding be_value
tlvs-encoded_example = tlvs-encoded two_items two_items_bytes (
    item 0x30 (130 ∷ 1 ∷ 44 ∷ []) (replicate 300 7) ((0x04, 1 ∷ 2 ∷ []) ∷ [])
      (0x04 ∷ ((2 ∷ []) ++ ((1 ∷ 2 ∷ []) ++ []))) refl (counted 1 (44 ∷ []) (omega arith) refl)
      (item 0x04 (2 ∷ []) (1 ∷ 2 ∷ []) [] [] refl (one (omega arith)) nothing))
