-- ===== src/Cache/OcspProxy/Laws.antt =====
-- src/cache.rs: how long a response of the OCSP responder is served.
use pccs_rs.Common.{ℕ, ◌≡◌, sym, ap, ◌∙◌, some, if◌then◌else◌, ltb, arith, inl, inr}
use pccs_rs.Common.Int.{ℤ}
use pccs_rs.Common.Result.{ok, err, Result-cases}
use pccs_rs.Common.Text.{Text}
use pccs_rs.Errors.{no_cache_data}
use pccs_rs.Ocsp.Response.{TimeParser, response_cache_expiry, to_i64}
use pccs_rs.Store.Database.{Database, Reliable, RoundTrips}
use pccs_rs.Store.Records.{Formats}
use pccs_rs.Store.Reads.{get_nvidia_ocsp}
use pccs_rs.Store.Bounded.{put_nvidia_ocsp}
use pccs_rs.Store.Bounded.Laws.{get_nvidia_ocsp-put_nvidia_ocsp}
use pccs_rs.Cache.Recent.{AmdKdsResponse}
use pccs_rs.Cache.ReadThrough.{CacheMode, is_lazy, answered, missed}
use pccs_rs.Cache.OcspProxy.{
  OcspLimits, OcspClock, OcspState, served, lookup_ocsp, keep_ocsp, ocsp_record,
}

module _ (T : TimeParser) (D : Database) (R : Reliable D) {V : Type 0} (F : Formats V)
    (limits : OcspLimits) where
  -- A response that was kept is found with the deadline that its bytes give.
  keep_ocsp-found :
      (clock : OcspClock) (key : Text) (r out : AmdKdsResponse) (h h' : OcspState D) (now : ℤ)
      (e : ℕ)
      → RoundTrips F.nvidia_ocsp
      → to_i64 T clock.checked_at ≡ some now
      → response_cache_expiry T r.body now limits.max_ttl_secs limits.default_ttl_secs ≡ ok e
      → keep_ocsp T D F limits clock key r h ≡ (ok out, h')
      → get_nvidia_ocsp D F key h'.store.0 ≡ some (ocsp_record key r clock.fetched_at e)
  unfolding keep_ocsp
  keep_ocsp-found clock key r out h h' now e trips time deadline kept =
      let rec = ocsp_record key r clock.fetched_at e in
      let (done, s) = put_nvidia_ocsp D F limits.max_entries clock.written_at rec h.store in
      elim (Result-cases done) [
        | inl (u, fine) ↦
            let same : s ≡ h'.store = ground arith in
            ap (λ t. get_nvidia_ocsp D F key t.0) (sym same)
            ∙ get_nvidia_ocsp-put_nvidia_ocsp D R F limits.max_entries clock.written_at rec
                h.store.0 s.0 h.store.1 s.1 trips (ground arith)
        | inr (inl (x, bad)) ↦ absurd (ground arith)
        | inr (inr broken) ↦ absurd (ground arith)
      ]

  -- A response that was kept is answered until the deadline that its bytes give, in every mode and
  -- without a fetch, and from then on never again.
  pub lookup_ocsp-keep_ocsp :
      (clock : OcspClock) (key : Text) (r out : AmdKdsResponse) (h h' : OcspState D) (now : ℤ)
      (e : ℕ) (mode : CacheMode) (later : ℕ)
      → RoundTrips F.nvidia_ocsp
      → to_i64 T clock.checked_at ≡ some now
      → response_cache_expiry T r.body now limits.max_ttl_secs limits.default_ttl_secs ≡ ok e
      → keep_ocsp T D F limits clock key r h ≡ (ok out, h')
      → (lookup_ocsp T D F limits mode key later h').0 ≡ (
          if ltb later e
          then answered (ok (served (ocsp_record key r clock.fetched_at e)))
          else if is_lazy mode
          then missed
          else answered (err no_cache_data))
  unfolding lookup_ocsp ocsp_record
  lookup_ocsp-keep_ocsp clock key r out h h' now e mode later trips time deadline kept =
      let found = keep_ocsp-found clock key r out h h' now e trips time deadline kept in
      ground (arith, found)
