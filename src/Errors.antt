-- ===== src/Errors.antt =====
-- src/error.rs: the status codes and messages of the service's errors.
use Prim.Native.String.{String}
use pccs_rs.Common.{ℕ}

pub record PccsError : Type 0 where
  pub status : ℕ
  pub message : String

abbrev pub invalid_req : PccsError
invalid_req = record { status = 400; message = "Invalid request parameters." }

abbrev pub unauthorized : PccsError
unauthorized = record { status = 401; message = "Authentication failed." }

abbrev pub no_cache_data : PccsError
no_cache_data = record { status = 404; message = "No cache data for this platform." }

abbrev pub content_too_large : PccsError
content_too_large = record { status = 413; message = "Content too large." }

abbrev pub request_timeout : PccsError
request_timeout = record { status = 408; message = "Request Timeout" }

abbrev pub integrity_error : PccsError
integrity_error = record { status = 460; message = "The integrity of the data can't be verified." }

abbrev pub platform_unknown : PccsError
platform_unknown = record { status = 461; message = "The platform was not found in the cache." }

abbrev pub certs_unavailable : PccsError
certs_unavailable = record {
  status = 462;
  message = "Certificates are not available for certain TCBs.";
}

abbrev pub pcs_v3_reached_eol : PccsError
pcs_v3_reached_eol = record {
  status = 410;
  message =
      "The Intel PCS API version 3 reached planned EOL. Accordingly, collateral from this API version cannot be retrieved any longer.";
}

abbrev pub internal_error : PccsError
internal_error = record { status = 500; message = "Internal server error occurred." }

abbrev pub service_unavailable : PccsError
service_unavailable = record {
  status = 503;
  message = "Server is currently unable to process the request.";
}

abbrev pub pcs_access_failure : PccsError
pcs_access_failure = record {
  status = 502;
  message = "Unable to retrieve the collateral from the Intel SGX PCS.";
}

abbrev pub nvidia_ocsp_access_failure : PccsError
nvidia_ocsp_access_failure = record {
  status = 502;
  message = "Unable to retrieve the OCSP response from the NVIDIA OCSP service.";
}
