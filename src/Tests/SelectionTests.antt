-- ===== src/Tests/SelectionTests.antt =====
-- The selection on a pool of two certificates.
use pccs_rs.Common.{◌≡◌, refl}
use pccs_rs.Common.Result.{ok}
use pccs_rs.Common.Text.{codes, Text}
use pccs_rs.Selection.Cert.{parse_pck_cert}
use pccs_rs.Selection.Choice.{select_best_pck_cert}
use pccs_rs.Selection.Input.{level_cpusvn}
use pccs_rs.Selection.Tcb.{
  compare, new, read_components, byte_of_hex, little_endian_hex_to_int, radix_16, reverse_pairs,
}
use pccs_rs.Common.Text.{hex_digit, is_ascii_hexdigit, to_upper, to_lower, upper_digit}
use pccs_rs.Tests.Sample.{json, decode, tcb_info, pool, pem}

unfoldable pub selection : Unit {0}
unfolding select_best_pck_cert level_cpusvn compare new hex_digit is_ascii_hexdigit to_upper
    to_lower upper_digit parse_pck_cert read_components byte_of_hex little_endian_hex_to_int
    radix_16 reverse_pairs
selection = tt

abbrev pub ones : Text
ones = codes "02010101010101010101010101010101"

pub selects_low :
    select_best_pck_cert json decode ones (codes "0600") (codes "0000") pool tcb_info
    ≡ ok (codes "LOW", pem "L")
unfolding selection
selects_low = refl
