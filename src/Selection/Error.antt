-- ===== src/Selection/Error.antt =====
-- src/selection.rs: the error strings, one constructor for each message, with the values printed.
use pccs_rs.Common.{ℕ, Option}
use pccs_rs.Common.Text.{Text}
use pccs_rs.Common.Int.{ℤ}

pub data SelectionError : Type 0 where
  invalid_cpusvn_length : ℕ → SelectionError
  invalid_cpusvn_format : Text → SelectionError
  invalid_pcesvn_format : Text → SelectionError
  parsing_failed : SelectionError
  sgx_extension_not_found : SelectionError
  invalid_sgx_tcb_extension : SelectionError
  invalid_sgx_extension : SelectionError
  tcb_type_differs : Option ℤ → SelectionError
  tcb_type_not_integer : SelectionError
  pceid_missing : SelectionError
  pceid_differs : Text → Text → SelectionError
  empty_tcb_levels : SelectionError
  invalid_tcb_levels : SelectionError
  level_missing_components : ℕ → SelectionError
  level_invalid_pcesvn : ℕ → SelectionError
  fmspc_missing : SelectionError
  cert_version_differs : ℕ → SelectionError
  cert_pceid_differs : Text → Text → SelectionError
  cert_fmspc_differs : Text → Text → SelectionError
  ppids_differ : SelectionError
  no_certificate_found : SelectionError
