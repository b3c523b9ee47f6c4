-- ===== src/Lib.antt =====
-- pccs-rs: the deciding logic of a caching service for SGX/TDX provisioning certificates.
--
-- The service answers requests for collateral from a store and fills it from upstream services. Modelled
-- are the parts that decide: how a request is validated (src/validate.rs), which PCK certificate
-- answers a raw TCB (src/selection.rs), under which key and for how long an OCSP answer is cached
-- (src/ocsp.rs), how the keys of records are made (src/keys.rs, src/hash.rs, src/hash/city.rs), what
-- the store reads and writes (src/store.rs), when the cache asks upstream (src/cache.rs) and who may
-- call (src/auth.rs). A handler validates its parameters, makes the key, looks the record up, and
-- otherwise selects from the pool of the platform or asks upstream and publishes what it got.
--
-- Files and the code that they model; functions keep the names of the source:
--   Common       lists, texts (Rust's `&str` and `&[u8]` as lists of bytes), integers, `Result` with a
--                third outcome for a panic, Slice for slices that panic out of range, BigEndian for the
--                numbers that bytes stand for, and JsonApi, the values of the package serde_json
--   Errors       src/error.rs, `PccsError` and its constants
--   Selection    src/selection.rs. Tcb: `Tcb::new`, `from_hex`, `compare`, `little_endian_hex_to_int`.
--                Der, Cert: `tlvs`, `find_extension`, `parse_pck_cert`. Input: `parse_pck_certs`,
--                `validate_input`, `level_cpusvn`. Buckets: `create_buckets`, `v8_sort_desc`. Choice:
--                `find_insert_index`, `select_best_pck_cert`
--   Ocsp         src/ocsp.rs. Tlv: `take_tlv`, a strict reader of DER. Request: `parse_request`.
--                Response: `response_validity`, `response_cache_expiry`
--   Hash         src/hash/city.rs, `city_hash_128`, and src/hash.rs, `hash128_hex`
--   Keys         src/keys.rs
--   Validate     src/validate.rs. Strings: the operations on `str` it calls. Decode: `percent_decode`,
--                `query_params`. Params, Uri: the single parameters. Body: `platform_reg`,
--                `platform_collateral`, `appraisal_policy`
--   Store        src/store.rs. Database: the package rocksdb and the formats of serde as interfaces.
--                Records, Exec: the records; an operation as a function from the state to a result and
--                the state that it leaves. Reads: single records. Platform: the pools (Batches: what is
--                computed before the write; Methods: the operations; Levels: the raw TCBs of a pool as
--                a map). Scans, Registered, Appraisal, Seed (`load_seed_value`). Bounded: `put_bounded`,
--                `delete_key`, `sweep_prefix`, with the index of the order of writes
--   Cache        src/cache.rs. Canonical: paths and queries. Recent: `remember`, `recent_outcome`.
--                ReadThrough: `get_cached_url`, with its two callers in Kinds. Pool:
--                `select_from_pool` and the call of `select_platform_cert`. OcspProxy: `get_nvidia_ocsp`.
--                Refetch: `refetch_due`, `mark_refetch`, `process_not_available`
--   Auth         src/auth.rs, `verify_token`
--   Tests        runs on concrete inputs, among them the published vectors of the digest
-- A module's theorems stand in the modules below it.
--
-- Loops. A cursor that moves over a slice is recursion on the bytes that are left, with a bound of as many
-- rounds as there are bytes: each round takes at least one byte. The search for an extension is bounded
-- by the length of the bytes, since an item's contents are shorter than the item's buffer. The loops
-- of the sort and of the digest are bounded by the number of elements or bytes. Where a bound could be
-- met, the outcome is the panic (or `none` in Hash and Keys), and so is a slice out of range in `tlvs`,
-- `take_tlv` and the digest: the theorems that no panic occurs say that the bounds are enough and the
-- slices in range.
--
-- Numbers are natural numbers; 64-bit arithmetic wraps explicitly, `usize` has 64 bits, and times are
-- integers with the checked and saturating sums of `i64`. The sum `raw + 1` in `parse_pck_cert` wraps,
-- as in a release build.
--
-- Parameters: the JSON values and the JSON parser (serde_json), the base64 decoders, the digests of sha2,
-- `hex::decode`, the parsers of times (chrono), the clock, RocksDB (`Database`), the formats of the
-- records (`Codec`) and what the upstream answers. `Reliable` states that a batch is written whole and
-- that no read fails, `RoundTrips` that a record that was written is read back; a theorem that rests on
-- them takes them as arguments. The texts of logged messages are left out of `PccsError`.
--
-- Locks. An operation of the store holds one lock over its reads and its write, so it is one step. A
-- request of the read-through cache has two: the lookup, and the fill under the lock of its key; what
-- other requests do in between is an arbitrary change of the state.
--
-- Not modelled: the HTTP server and its routes, the upstream client, configuration, metrics, health, the
-- import of a foreign database and the load generator, which are input and output around these parts; of
-- the store, opening it and the collateral that an administrator puts; of the cache, the
-- lookups of single records with their fills, the refreshes and the registration by mode.
pub mod Common
pub mod Errors
pub mod Selection
pub mod Ocsp
pub mod Hash
pub mod Keys
pub mod Validate
pub mod Store
pub mod Cache
pub mod Auth
mod Tests
