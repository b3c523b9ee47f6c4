-- ===== src/Tests/StoreExamples.antt =====
-- The theorems of the store at concrete inputs.
use pccs_rs.Common.{
  ◌≡◌, ◌⊎◌, refl, true, false, ◌&&◌, ◌||◌, List, [], ◌∷◌, none, some, if◌then◌else◌,
}
use pccs_rs.Common.Result.{Result, ok, err}
use pccs_rs.Common.Text.{codes, Text, to_ascii_uppercase, eq_ignore_ascii_case, to_upper, to_lower}
use pccs_rs.Errors.{PccsError, no_cache_data}
use pccs_rs.Keys
use pccs_rs.Keys.{make, join_lower}
use pccs_rs.Hash.{hash128_hex, hex_digits, lower_digit}
use pccs_rs.Tests.HashTests.{digest}
use pccs_rs.Store.Records.{PckCertRecord, RawTcb, PlatformPool}
use pccs_rs.Store.Exec.{write_batch, put_json, read_json}
use pccs_rs.Store.Reads.{get_pckcert, put_pckcert, get_platform_pool, put_platform_pool}
use pccs_rs.Store.Reads.Laws.{get_pckcert-put_pckcert, get_pckcert_sound}
use pccs_rs.Store.Platform.{
  same_level, upsert, retain, track, raws_of, PlatformPublication, observed, publication_ok,
  check_platform_publication,
}
use pccs_rs.Store.Platform.Batches.{
  replacement, reselect, publish_batch, put_records, put_tcbs, merged,
}
use pccs_rs.Store.Platform.Levels.{tcbm_at, known}
use pccs_rs.Store.Platform.Methods.{
  replace_platform_certs_after_fetch, merge_pckcert_after_fetch, merge_publish, upsert_raw_tcb,
  remove_raw_tcb, entry, update_pool, with_raw_tcb, without_raw_tcb,
}
use pccs_rs.Store.Platform.Updates.{upsert_raw_tcb_lem, remove_raw_tcb_lem}
use pccs_rs.Store.Platform.Outcomes.{replace_platform_certs_after_fetch_lem}
use pccs_rs.Store.Platform.Laws.{
  replace_platform_certs_after_fetch-unchanged, merge_pckcert_after_fetch-unchanged,
}
use pccs_rs.Tests.Sample.{decode, pem}
use pccs_rs.Tests.StoreSample.{
  Rows, table, reliable, formats, pckcert_trips, platform_trips, a_pool, a_record,
}

-- What the runs below compute with.
unfoldable pub storing : Unit {0}
unfolding digest hash128_hex hex_digits lower_digit make join_lower Keys.platform Keys.pckcert
    to_lower to_upper write_batch put_json read_json get_pckcert put_pckcert get_platform_pool
    put_platform_pool upsert_raw_tcb remove_raw_tcb update_pool with_raw_tcb without_raw_tcb upsert
    retain replace_platform_certs_after_fetch replacement reselect publish_batch put_records
    put_tcbs track publication_ok check_platform_publication merge_pckcert_after_fetch merge_publish
    merged
storing = tt

abbrev with_record : Rows
unfolding put_pckcert put_json write_batch
with_record = (put_pckcert table formats a_record []).1

get_pckcert-put_pckcert_example :
    get_pckcert table formats (codes "ab") (codes "0a") (codes "01") (codes "0000") with_record
    ≡ some a_record
unfolding put_pckcert put_json write_batch to_lower
get_pckcert-put_pckcert_example =
    get_pckcert-put_pckcert table reliable formats a_record [] with_record (codes "ab") (codes "0a")
      (codes "01") (codes "0000") pckcert_trips refl refl refl refl refl

get_pckcert_sound_example :
    (eq_ignore_ascii_case a_record.qeid (codes "ab") ≡ true)
    × (eq_ignore_ascii_case a_record.pceid (codes "0000") ≡ true)
    × (eq_ignore_ascii_case a_record.cpusvn (codes "0a") ≡ true)
    × (eq_ignore_ascii_case a_record.pcesvn (codes "01") ≡ true)
unfolding storing
get_pckcert_sound_example =
    get_pckcert_sound table formats with_record (codes "ab") (codes "0a") (codes "01")
      (codes "0000") a_record refl

abbrev pub with_pool : Rows
unfolding put_platform_pool put_json write_batch
with_pool = (put_platform_pool table formats a_pool []).1

abbrev raised : Rows
unfolding storing
raised =
    (upsert_raw_tcb table formats (codes "ab") (codes "0000") (codes "0b") (codes "01")
      (codes "high") with_pool).1

upsert_raw_tcb_lem_example :
    (raws : List RawTcb) × (get_platform_pool table formats (codes "ab") (codes "0000") raised
      ≡ some (record a_pool { raw_tcbs = raws }))
    × ((c p : Text)
        → tcbm_at c p raws ≡ (
            if same_level c p (entry (codes "0b") (codes "01") (codes "high"))
            then some (to_ascii_uppercase (codes "high"))
            else tcbm_at c p a_pool.raw_tcbs))
unfolding storing
upsert_raw_tcb_lem_example =
    upsert_raw_tcb_lem table reliable formats (codes "ab") (codes "0000") (codes "0b") (codes "01")
      (codes "high") a_pool with_pool raised platform_trips refl ((refl, refl), tt) refl

abbrev lowered : Rows
unfolding storing
lowered =
    (remove_raw_tcb table formats (codes "ab") (codes "0000") (codes "0a") (codes "01") with_pool).1

remove_raw_tcb_lem_example :
    (raws : List RawTcb) × (get_platform_pool table formats (codes "ab") (codes "0000") lowered
      ≡ some (record a_pool { raw_tcbs = raws }))
    × ((c p : Text)
        → tcbm_at c p raws ≡ (
            if eq_ignore_ascii_case (codes "0a") c && eq_ignore_ascii_case (codes "01") p
            then none
            else tcbm_at c p a_pool.raw_tcbs))
unfolding storing
remove_raw_tcb_lem_example =
    remove_raw_tcb_lem table reliable formats (codes "ab") (codes "0000") (codes "0a") (codes "01")
      a_pool with_pool lowered platform_trips refl refl

-- A fetch that found one certificate for every level.
abbrev fetched_pool : PlatformPool
fetched_pool = record a_pool {
  certs = record { tcbm = codes "high"; cert = pem "H" } ∷ [];
  raw_tcbs = [];
}

abbrev selecting : PlatformPool → RawTcb → Result PccsError PckCertRecord
selecting pool raw =
    ok (record a_record { cpusvn = raw.cpu_svn; pcesvn = raw.pce_svn; tcbm = codes "HIGH" })

abbrev as_before : PlatformPublication
as_before = observed (some (record { enc_ppid = codes "11"; platform_manifest = [] }))

abbrev replaced : Rows
unfolding storing
replaced =
    (replace_platform_certs_after_fetch table formats fetched_pool as_before [] none selecting
      with_pool).1

replace_platform_certs_after_fetch_lem_example :
    (publication_ok
        (get_platform_pool table formats (codes "AB") (codes "0000") with_pool)
        as_before
      ≡ true)
    × ((raws : List RawTcb) × (get_platform_pool table formats (codes "AB") (codes "0000") replaced
          ≡ some (record fetched_pool { raw_tcbs = raws }))
        × ((c p : Text)
            → known c p raws ≡ (
                false
                || known c p (
                    raws_of
                      (get_platform_pool table formats (codes "AB") (codes "0000") with_pool)))))
unfolding storing
replace_platform_certs_after_fetch_lem_example =
    replace_platform_certs_after_fetch_lem table reliable formats fetched_pool as_before [] none
      selecting with_pool replaced platform_trips refl

replace_platform_certs_after_fetch-unchanged_example :
    (with_pool ≡ with_pool) ⊎ ((u : Unit {0}) × (err no_cache_data ≡ ok u))
unfolding storing
replace_platform_certs_after_fetch-unchanged_example =
    replace_platform_certs_after_fetch-unchanged table formats with_pool with_pool
      (err no_cache_data) fetched_pool (observed none) [] none selecting refl

merge_pckcert_after_fetch-unchanged_example :
    (with_pool ≡ with_pool) ⊎ ((u : Unit {0}) × (err no_cache_data ≡ ok u))
unfolding storing
merge_pckcert_after_fetch-unchanged_example =
    merge_pckcert_after_fetch-unchanged table formats with_pool with_pool (err no_cache_data) decode
      (record a_record { fmspc = codes "000000000000" }) as_before refl
