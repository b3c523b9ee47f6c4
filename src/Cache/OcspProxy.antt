-- ===== src/Cache/OcspProxy.antt =====
-- src/cache.rs: the cached proxy of the NVIDIA OCSP responder, over the store with the last time of a
-- bounded write.
pub mod Laws
use pccs_rs.Common.{
  ℕ, ◌∷◌, [], Bool, true, false, not, ◌&&◌, ◌||◌, List, Option, none, some, if◌then◌else◌, ◌==◌,
  ltb, leb, is_empty,
}
use pccs_rs.Common.Int.{ℤ, pos}
use pccs_rs.Common.Result.{Result, ok, err, panic, ◌>>=◌, ok_or}
use pccs_rs.Common.Text.{Text, codes}
use pccs_rs.Errors.{PccsError, no_cache_data, internal_error, nvidia_ocsp_access_failure}
use pccs_rs.Keys
use pccs_rs.Ocsp.Request.{parse_request}
use pccs_rs.Ocsp.Response.{TimeParser, response_cache_expiry, to_i64}
use pccs_rs.Store.Database.{Database}
use pccs_rs.Store.Records.{NvidiaOcspRecord, Formats}
use pccs_rs.Store.Reads.{get_nvidia_ocsp}
use pccs_rs.Store.Bounded.{put_nvidia_ocsp, delete_key}
use pccs_rs.Cache.Recent.{
  AmdKdsResponse, RecentOutcome, failed, response, recent_failure, recent_non200, remember,
}
use pccs_rs.Cache.ReadThrough.{CacheMode, is_lazy, Held, Looked, answered, missed}

-- The limits of the configuration.
pub record OcspLimits : Type 0 where
  pub max_entries : ℕ
  pub max_ttl_secs : ℕ
  pub default_ttl_secs : ℕ
  -- Whether a responder is configured.
  pub has_uri : Bool

-- The clock readings of a fill: of `Instant` in nanoseconds, of `unix_time` in seconds, and of the
-- store in microseconds.
pub record OcspClock : Type 0 where
  pub failure_at : ℕ
  pub non200_at : ℕ
  pub now : ℕ
  pub noted_at : ℕ
  pub checked_at : ℕ
  pub fetched_at : ℕ
  pub written_at : ℕ

abbrev ocsp_content_type : Option Text → Option Text
ocsp_content_type none = some (codes "application/ocsp-response")
ocsp_content_type (some t) = some t

-- `fetched` is what the responder answers, its headers read as texts, and `none` an error.
unfoldable pub post_nvidia_ocsp : Bool → Option AmdKdsResponse → Result PccsError AmdKdsResponse
post_nvidia_ocsp has_uri none = err nvidia_ocsp_access_failure
post_nvidia_ocsp has_uri (some r) =
    if not has_uri || leb 100 r.status && ltb r.status 200 || leb 300 r.status && ltb r.status 400
    then err nvidia_ocsp_access_failure
    else ok
        (record r { content_type = ocsp_content_type r.content_type; content_disposition = none })

abbrev pub served : NvidiaOcspRecord → AmdKdsResponse
served rec = record {
  status = 200;
  body = rec.body;
  content_type = rec.content_type;
  content_disposition = none;
  retry_after = none;
}

unfoldable pub ocsp_record : Text → AmdKdsResponse → ℕ → ℕ → NvidiaOcspRecord
ocsp_record key r fetched_at expires_at = record {
  cache_key = key;
  body = r.body;
  content_type = r.content_type;
  fetched_at = fetched_at;
  expires_at = expires_at;
}

abbrev pub OcspState : Database → Type 0
OcspState D = Held (D.State × ℕ)

module _ (T : TimeParser) (D : Database) {V : Type 0} (F : Formats V) (limits : OcspLimits) where
  abbrev drop_expired : Text → OcspState D → OcspState D
  drop_expired key h = record h {
    store = ((delete_key D (Keys.nvidia_ocsp key) h.store.0).1, h.store.1);
  }

  abbrev noting : ℕ → Text → RecentOutcome → OcspState D → OcspState D
  noting at key outcome h = record h {
    failures = remember at (Keys.nvidia_ocsp key) outcome h.failures;
  }

  -- Before the lock.
  unfoldable pub lookup_ocsp : CacheMode → Text → ℕ → OcspState D → Looked × OcspState D
  unfolding get_nvidia_ocsp
  lookup_ocsp mode key now h = elim (get_nvidia_ocsp D F key h.store.0) [
    | none ↦ (if is_lazy mode then missed else answered (err no_cache_data), h)
    | some rec ↦
        if ltb now rec.expires_at
        then (answered (ok (served rec)), h)
        else if is_lazy mode
        then (missed, h)
        else (answered (err no_cache_data), drop_expired key h)
  ]

  -- What a response with status 200 leaves: a response without a deadline is passed on.
  unfoldable pub keep_ocsp :
      OcspClock
      → Text
      → AmdKdsResponse
      → OcspState D
      → Result PccsError AmdKdsResponse × OcspState D
  unfolding ocsp_record put_nvidia_ocsp
  keep_ocsp clock key r h = elim (to_i64 T clock.checked_at) [
    | none ↦ (err internal_error, h)
    | some now ↦
        elim (response_cache_expiry T r.body now limits.max_ttl_secs limits.default_ttl_secs) [
          | err e ↦ (ok r, h)
          | panic ↦ (panic, h)
          | ok expires_at ↦
              let rec = ocsp_record key r clock.fetched_at expires_at in
              let (done, s) = put_nvidia_ocsp D F limits.max_entries clock.written_at rec h.store in
              elim done [
                | ok u ↦ (ok (record r { retry_after = none }), record h { store = s })
                | err e ↦ (err e, record h { store = s })
                | panic ↦ (panic, record h { store = s })
              ]
        ]
  ]

  unfoldable pub fetch_ocsp :
      OcspClock
      → Text
      → Option AmdKdsResponse
      → OcspState D
      → Result PccsError AmdKdsResponse × OcspState D
  unfolding post_nvidia_ocsp remember keep_ocsp
  fetch_ocsp clock key fetched h = elim (post_nvidia_ocsp limits.has_uri fetched) [
    | err e ↦ (err e, noting clock.noted_at key (failed e) h)
    | panic ↦ (panic, h)
    | ok r ↦ elim (r.status == 200) [
      | false ↦ (ok r, noting clock.noted_at key (response r) h)
      | true ↦ keep_ocsp clock key r h
    ]
  ]

  -- The second look, under the lock.
  unfoldable pub refill_ocsp :
      OcspClock
      → Text
      → Option AmdKdsResponse
      → OcspState D
      → Result PccsError AmdKdsResponse × OcspState D
  unfolding fetch_ocsp get_nvidia_ocsp
  refill_ocsp clock key fetched h = elim (get_nvidia_ocsp D F key h.store.0) [
    | none ↦ fetch_ocsp clock key fetched h
    | some rec ↦
        if ltb clock.now rec.expires_at
        then (ok (served rec), h)
        else fetch_ocsp clock key fetched (drop_expired key h)
  ]

  -- Under the lock.
  unfoldable pub fill_ocsp :
      OcspClock
      → Text
      → Option AmdKdsResponse
      → OcspState D
      → Result PccsError AmdKdsResponse × OcspState D
  unfolding recent_failure recent_non200 refill_ocsp
  fill_ocsp clock key fetched h =
      let (failure, map) = recent_failure clock.failure_at (Keys.nvidia_ocsp key) h.failures in
      elim failure [
        | some e ↦ (err e, record h { failures = map })
        | none ↦
            let (non200, map') = recent_non200 clock.non200_at (Keys.nvidia_ocsp key) map in
            elim non200 [
              | some r ↦ (ok r, record h { failures = map' })
              | none ↦ refill_ocsp clock key fetched (record h { failures = map' })
            ]
      ]

  -- `sha256_hex` is the digest of the cache key, and `others` what other requests do while this one
  -- waits for the lock.
  unfoldable pub answer_ocsp :
      (List ℕ → Text)
      → CacheMode
      → ℕ
      → OcspClock
      → List ℕ
      → Option AmdKdsResponse
      → (OcspState D → OcspState D)
      → OcspState D
      → Result PccsError AmdKdsResponse × OcspState D
  unfolding parse_request lookup_ocsp fill_ocsp
  answer_ocsp sha256_hex mode now clock body fetched others h =
      elim (parse_request sha256_hex body) [
        | err e ↦ (err e, h)
        | panic ↦ (panic, h)
        | ok key ↦
            let (looked, h') = lookup_ocsp mode key now h in
            elim looked [ answered r ↦ (r, h') | missed ↦ fill_ocsp clock key fetched (others h') ]
      ]
