-- ===== src/Tests/CacheExamples.antt =====
-- The theorems of the queue, the policies and the caches at concrete inputs, and tests of the paths.
use pccs_rs.Common.{
  ltb, ℕ, ◌≡◌, ◌↔◌, refl, true, false, List, [], ◌∷◌, ◌++◌, Option, none, some, arith,
  if◌then◌else◌, All, length, all, is_empty, replicate,
}
use pccs_rs.Common.Result.{Result, ok, err, panic}
use pccs_rs.Common.Text.{codes, Text, is_ascii_digit, is_ascii_hexdigit}
use pccs_rs.Errors.{PccsError, no_cache_data, invalid_req, internal_error}
use pccs_rs.Hash.{lower_digit}
use pccs_rs.Keys
use pccs_rs.Auth.{verify_token, verify_token_iff}
use pccs_rs.Validate.Strings.{split, split_char, strip_prefix}
use pccs_rs.Validate.Body.{AppraisalPolicyReg}
use pccs_rs.Store.Records.{
  RegisteredPlatform, NvidiaOcspRecord, PckCertRecord, TcbRecord, PlatformPool,
}
use pccs_rs.Store.Scans.{scan_prefix, scanned, decode_all}
use pccs_rs.Store.Registered.{register_platform, take_registered, taken, normalize_reg}
use pccs_rs.Store.Registered.Laws.{in_state, due_at, take_registered_lem}
use pccs_rs.Store.Appraisal.{
  put_policy, entry_of, sha384_hex, with_policy, clear_defaults, get_policies,
}
use pccs_rs.Store.Appraisal.Defaults.{get_default_policies, get_default_policies-put_policy}
use pccs_rs.Store.Bounded.{
  put_nvidia_ocsp, put_amd_kds, put_bounded, bounded_batch, evict, next_written_at,
  fifo_order_prefix, fifo_order_key, fifo_pos_key, fifo_count_key, to_be_bytes, be_u64,
  readthrough_count,
}
use pccs_rs.Store.Bounded.Laws.{get_nvidia_ocsp-put_nvidia_ocsp}
use pccs_rs.Store.Reads.{get_nvidia_ocsp, get_amd_kds, get_tcb, put_tcb, get_platform_pool}
use pccs_rs.Store.Platform.{cert_pairs, track, raw_of}
use pccs_rs.Store.Platform.Methods.{select_platform_cert, publish_selection}
use pccs_rs.Selection.Choice.{select_best_pck_cert}
use pccs_rs.Selection.Choice.Promise.{Selected}
use pccs_rs.Cache.Canonical.{
  canonicalize_amd_kds, canonicalize_nvidia_rim, canonicalize_query, read_pairs, sort_pairs,
  encode_pairs, is_spl_value, split_path_query, is_alnum_segment, is_rim_id,
}
use mathlib.Core.List.{Perm}
use pccs_rs.Cache.Canonical.Sorting.{Strict}
use pccs_rs.Cache.Canonical.Query.{
  query_text, query_pairs, Allowed, canonicalize_query_sound, canonicalize_nvidia_rim_sound,
}
use pccs_rs.Cache.Recent.{AmdKdsResponse, failed, remember}
use pccs_rs.Cache.Recent.Laws.{IsBounded, remember-IsBounded}
use pccs_rs.Cache.ReadThrough.{
  offline, Held, Clock, answered, missed, is_lazy, lookup_url, fetch_url, fill_url, record_of,
  from_record,
}
use pccs_rs.Cache.ReadThrough.Laws.{fill_url-failed, lookup_url-fetch_url}
use pccs_rs.Cache.ReadThrough.Kinds.{amd_kds_urls, amd_kds_urls-Keeps}
use pccs_rs.Cache.Pool.{
  select_known, select_from_pool, select_from_pool_with_tcb, pool_tcb, tcb_info_of,
}
use pccs_rs.Cache.Pool.Laws.{select_known_lem}
use pccs_rs.Common.Int.{pos}
use pccs_rs.Cache.OcspProxy.{OcspLimits, OcspClock, keep_ocsp, lookup_ocsp, served, ocsp_record}
use pccs_rs.Cache.OcspProxy.Laws.{lookup_ocsp-keep_ocsp}
use pccs_rs.Tests.OcspExamples.{readers, times, good_response}
use pccs_rs.Tests.Sample.{json, decode, JValue}
use pccs_rs.Tests.SelectionTests.{selection, ones}
use pccs_rs.Tests.StoreExamples.{storing, with_pool}
use pccs_rs.Tests.StoreSample.{
  Rows, table, reliable, formats, platform_trips, amd_kds_trips, nvidia_ocsp_trips, appraisal_trips,
  a_record, tcb_record,
}

caching : Unit {0}
unfolding canonicalize_amd_kds canonicalize_nvidia_rim canonicalize_query read_pairs sort_pairs
    encode_pairs is_spl_value split_path_query is_alnum_segment is_rim_id split split_char
    strip_prefix is_ascii_digit is_ascii_hexdigit register_platform normalize_reg take_registered
    taken scan_prefix scanned decode_all Keys.preg put_policy entry_of sha384_hex with_policy
    clear_defaults get_policies lower_digit Keys.appraisal put_nvidia_ocsp put_amd_kds put_bounded
    bounded_batch evict next_written_at fifo_order_prefix fifo_order_key fifo_pos_key fifo_count_key
    to_be_bytes be_u64 readthrough_count Keys.nvidia_ocsp get_nvidia_ocsp get_tcb put_tcb Keys.tcb
    select_known select_from_pool select_from_pool_with_tcb cert_pairs select_platform_cert
    publish_selection Keys.decimal Keys.prod_name selection remember fetch_url record_of from_record
    Keys.amd_kds get_amd_kds verify_token storing
caching = tt

sorted_query :
    canonicalize_amd_kds (codes "/vcek/v1/Genoa/abcd?teeSPL=2&blSPL=1")
    ≡ ok (codes "/vcek/v1/Genoa/abcd?blSPL=1&teeSPL=2")
unfolding caching
sorted_query = refl

above_a_byte : canonicalize_amd_kds (codes "/vcek/v1/Genoa/abcd?blSPL=256") ≡ err invalid_req
unfolding caching
above_a_byte = refl

twice : canonicalize_amd_kds (codes "/vcek/v1/Genoa/abcd?blSPL=1&blSPL=2") ≡ err invalid_req
unfolding caching
twice = refl

dots : canonicalize_amd_kds (codes "/vcek/v1/../../x") ≡ err invalid_req
unfolding caching
dots = refl

empty_pair : canonicalize_amd_kds (codes "/vcek/v1/Milan/cert_chain?&") ≡ err invalid_req
unfolding caching
empty_pair = refl

no_rim_query : canonicalize_nvidia_rim (codes "/v1/rim/some-id?junk=1") ≡ err invalid_req
unfolding caching
no_rim_query = refl

canonicalize_query_sound_example :
    (pairs : List (Text × Text)) × (codes "?blSPL=1&teeSPL=2" ≡ query_text pairs)
    × Perm pairs (query_pairs (some (codes "teeSPL=2&blSPL=1")))
    × Strict pairs
    × All (Allowed (codes "blSPL" ∷ codes "teeSPL" ∷ [])) pairs
unfolding caching
canonicalize_query_sound_example =
    canonicalize_query_sound (some (codes "teeSPL=2&blSPL=1")) (codes "blSPL" ∷ codes "teeSPL" ∷ [])
      (codes "?blSPL=1&teeSPL=2") refl

canonicalize_nvidia_rim_sound_example :
    (id : Text) × (is_rim_id id ≡ true) × (codes "/v1/rim/some-id" ≡ codes "/v1/rim/" ++ id)
unfolding caching
canonicalize_nvidia_rim_sound_example =
    canonicalize_nvidia_rim_sound (codes "/v1/rim/some-id") (codes "/v1/rim/some-id") refl

-- A stand-in for the digests.
abbrev digest_of : Text → List ℕ
digest_of s = length s ∷ []

abbrev hex_decode : Text → Option (List ℕ)
hex_decode s = some (5 ∷ [])

abbrev zeros : Text
zeros = replicate 128 b'0'

verify_token_iff_example :
    (verify_token hex_decode digest_of (some (codes "token")) zeros ≡ ok tt) ↔ (
      (token : Text) × (some (codes "token") ≡ some token)
      × (is_empty token ≡ false)
      × (length zeros ≡ 128)
      × (all is_ascii_hexdigit zeros ≡ true)
      × (hex_decode zeros ≡ some (digest_of token)))
verify_token_iff_example = verify_token_iff hex_decode digest_of (some (codes "token")) zeros

abbrev a_registration : RegisteredPlatform
a_registration = record {
  qe_id = codes "ab";
  pce_id = codes "0000";
  cpu_svn = codes "0a";
  pce_svn = codes "01";
  enc_ppid = [];
  platform_manifest = [];
  state = 0;
}

abbrev queued : Rows
unfolding caching
queued = (register_platform table formats a_registration []).1

abbrev same : Text → Text
same key = key

abbrev drained : Rows
unfolding caching
drained = (take_registered table formats same 0 queued).1

take_registered_lem_example :
    (normalize_reg a_registration ∷ []
      ≡ in_state 0 (decode_all formats.registered (scan_prefix table same (codes "preg/") queued)))
    × ((key : Text)
        → reliable.content drained key ≡ (
            if due_at formats.registered 0 key (scan_prefix table same (codes "preg/") queued)
            then none
            else reliable.content queued key))
unfolding caching
take_registered_lem_example =
    take_registered_lem table formats reliable same 0 queued drained
      (normalize_reg a_registration ∷ []) refl

abbrev a_policy : AppraisalPolicyReg
a_policy = record {
  is_default = true;
  fmspc = codes "00906EA10000";
  policy = codes "p.q.r";
  policy_type = 1;
}

abbrev decided : Rows
unfolding caching
decided = (put_policy digest_of table formats a_policy []).1

get_default_policies-put_policy_example :
    get_default_policies table formats (codes "00906ea10000") decided ≡ ok (codes "p.q.r")
unfolding caching
get_default_policies-put_policy_example =
    get_default_policies-put_policy digest_of table reliable formats a_policy [] decided
      (codes "05") (codes "00906ea10000") appraisal_trips refl refl refl

abbrev a_response : NvidiaOcspRecord
a_response = record {
  cache_key = codes "k";
  body = 1 ∷ 2 ∷ [];
  content_type = none;
  fetched_at = 10;
  expires_at = 20;
}

abbrev answered_once : Rows × ℕ
unfolding caching
answered_once = (put_nvidia_ocsp table formats 1 7 a_response ([], 0)).1

get_nvidia_ocsp-put_nvidia_ocsp_example :
    get_nvidia_ocsp table formats (codes "k") answered_once.0 ≡ some a_response
unfolding caching
get_nvidia_ocsp-put_nvidia_ocsp_example =
    get_nvidia_ocsp-put_nvidia_ocsp table reliable formats 1 7 a_response [] answered_once.0 0
      answered_once.1 nvidia_ocsp_trips refl

remember-IsBounded_example : IsBounded (remember 5 (codes "k") (failed internal_error) [])
remember-IsBounded_example =
    remember-IsBounded 5 (codes "k") (failed internal_error) [] (omega arith, tt, tt)

abbrev a_clock : Clock
a_clock = record { failure_at = 1; non200_at = 1; now = 1; noted_at = 2; fetched_at = 1 }

abbrev later : Clock
later = record { failure_at = 3; non200_at = 3; now = 1; noted_at = 4; fetched_at = 1 }

abbrev nothing : Held (Rows × ℕ)
nothing = record { store = ([], 0); failures = [] }

abbrev a_reply : AmdKdsResponse
a_reply = record {
  status = 200;
  body = 1 ∷ [];
  content_type = none;
  content_disposition = none;
  retry_after = some (codes "9");
}

fill_url-failed_example :
    let U = amd_kds_urls table formats 1 7 in
    let h = (fetch_url U no_cache_data a_clock (codes "u") none nothing).1 in
    fill_url U no_cache_data 60 later (codes "u") (some a_reply) h ≡ (err no_cache_data, h)
fill_url-failed_example =
    fill_url-failed (amd_kds_urls table formats 1 7) no_cache_data 60 a_clock later (codes "u")
      (some a_reply) nothing (omega arith) (omega arith)

abbrev filled : Held (Rows × ℕ)
unfolding caching
filled =
    (fetch_url (amd_kds_urls table formats 1 7) no_cache_data a_clock (codes "u") (some a_reply)
      nothing).1

lookup_url-fetch_url_example :
    lookup_url (amd_kds_urls table formats 1 7) offline 60 30 (codes "u") filled
    ≡ (answered (ok (record a_reply { retry_after = none })), filled)
unfolding caching
lookup_url-fetch_url_example =
    lookup_url-fetch_url (amd_kds_urls table formats 1 7)
      (amd_kds_urls-Keeps table reliable formats amd_kds_trips 1 7) offline no_cache_data 60 30
      a_clock (codes "u") a_reply (record a_reply { retry_after = none }) nothing filled refl refl
      (omega arith)

abbrev limits : OcspLimits
limits = record { max_entries = 1; max_ttl_secs = 100; default_ttl_secs = 5; has_uri = true }

abbrev ocsp_clock : OcspClock
ocsp_clock = record {
  failure_at = 1;
  non200_at = 1;
  now = 20;
  noted_at = 2;
  checked_at = 20;
  fetched_at = 20;
  written_at = 7;
}

abbrev ocsp_reply : AmdKdsResponse
ocsp_reply = record a_reply { body = good_response }

abbrev kept : Held (Rows × ℕ)
unfolding caching readers keep_ocsp ocsp_record
kept = (keep_ocsp times table formats limits ocsp_clock (codes "k") ocsp_reply nothing).1

lookup_ocsp-keep_ocsp_example :
    (lookup_ocsp times table formats limits offline (codes "k") 49 kept).0 ≡ (
      if ltb 49 50
      then answered (ok (served (ocsp_record (codes "k") ocsp_reply 20 50)))
      else if is_lazy offline
      then missed
      else answered (err no_cache_data))
unfolding caching readers keep_ocsp ocsp_record
lookup_ocsp-keep_ocsp_example =
    lookup_ocsp-keep_ocsp times table reliable formats limits ocsp_clock (codes "k") ocsp_reply
      (record ocsp_reply { retry_after = none }) nothing kept (pos 20) 50 offline 49
      nvidia_ocsp_trips refl refl refl

abbrev with_tcb : Rows
unfolding caching
with_tcb = (put_tcb table formats tcb_record with_pool).1

abbrev or_pool : Result PccsError PckCertRecord × Rows → PckCertRecord
or_pool (ok rec, s) = rec
or_pool (err e, s) = a_record
or_pool (panic, s) = a_record

abbrev chosen : Result PccsError PckCertRecord × Rows
unfolding caching
chosen =
    select_known json decode table formats 4 (codes "ab") ones (codes "0600") (codes "0000")
      with_tcb

select_known_lem_example :
    (pool : PlatformPool) × (tcb : TcbRecord JValue) × (get_platform_pool table formats
        (codes "ab")
        (codes "0000")
        with_tcb
      ≡ some pool)
    × (pool_tcb json decode table formats 4 pool with_tcb ≡ some tcb)
    × (select_best_pck_cert json decode ones
          (codes "0600")
          (codes "0000")
          (cert_pairs pool)
          (tcb_info_of json decode tcb)
        ≡ ok ((or_pool chosen).tcbm, (or_pool chosen).cert))
    × Selected json decode ones
        (codes "0600")
        (codes "0000")
        (cert_pairs pool)
        (tcb_info_of json decode tcb)
        (or_pool chosen).tcbm
        (or_pool chosen).cert
    × (get_platform_pool table formats (codes "ab") (codes "0000") chosen.1
        ≡ some (record pool { raw_tcbs = track (raw_of (or_pool chosen)) pool.raw_tcbs }))
unfolding caching
select_known_lem_example =
    select_known_lem json decode table reliable formats 4 (codes "ab") ones (codes "0600")
      (codes "0000") with_tcb chosen.1 (or_pool chosen) platform_trips refl
