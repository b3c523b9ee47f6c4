-- ===== src/Cache/ReadThrough/Laws.antt =====
-- src/cache.rs: when the upstream is asked, and what the next request gets.
use pccs_rs.Common.{
  ℕ, ◌-◌, ◌<◌, ◌≡◌, false, Option, none, some, if◌then◌else◌, length, arith, Option-cases, inl, inr,
}
use pccs_rs.Common.Result.{ok, err, Result-cases}
use pccs_rs.Common.Text.{Text, text_eq_iff}
use pccs_rs.Errors.{PccsError, no_cache_data}
use pccs_rs.Store.Records.{AmdKdsRecord}
use pccs_rs.Cache.Recent.{
  AmdKdsResponse, remember, insert, recent_failure, recent_outcome, failure_ttl,
  recent_outcomes_max,
}
use pccs_rs.Cache.ReadThrough.{
  CacheMode, is_lazy, Urls, Held, Clock, answered, is_fresh, lookup_url, fetch_url, fill_url,
  get_cached_url, from_record, record_of,
}

-- What is saved is loaded.
pub record Keeps {S : Type 0} (U : Urls S) : Type 0 where
  pub load-save :
      (rec : AmdKdsRecord) (s s' : S) → U.save rec s ≡ (ok tt, s') → U.load rec.url s' ≡ some rec

module _ {S : Type 0} (U : Urls S) where
  -- Outside LAZY mode a request is answered from the store alone: with the record while it is fresh,
  -- and otherwise with the error for missing data, whatever the upstream would answer.
  pub get_cached_url-stored :
      (mode : CacheMode) (access_failure : PccsError) (ttl now : ℕ) (clock : Clock) (url : Text)
      (fetched : Option AmdKdsResponse) (others : Held S → Held S) (h : Held S)
      → is_lazy mode ≡ false
      → (get_cached_url U mode access_failure ttl now clock url fetched others h).0
        ≡ (elim (U.load url h.store) [
          | none ↦ err no_cache_data
          | some rec ↦ if is_fresh U ttl now rec then ok (from_record rec) else err no_cache_data
        ])
  unfolding get_cached_url lookup_url
  get_cached_url-stored mode access_failure ttl now clock url fetched others h out =
      elim (Option-cases (U.load url h.store)) [
        | inl none_there ↦ ground (arith, none_there)
        | inr (rec, there) ↦ ground (arith, there)
      ]

  -- After a fetch that failed, and with room in the map, the requests for the same URL in the next
  -- second get its error, whatever the upstream would answer by then, and change nothing.
  pub fill_url-failed :
      (access_failure : PccsError) (ttl : ℕ) (clock clock' : Clock) (url : Text)
      (fetched : Option AmdKdsResponse) (h : Held S)
      → length h.failures < recent_outcomes_max
      → clock'.failure_at - clock.noted_at < failure_ttl
      → let h' = (fetch_url U access_failure clock url none h).1 in
        fill_url U access_failure ttl clock' url fetched h' ≡ (err access_failure, h')
  unfolding fill_url fetch_url recent_failure recent_outcome remember insert
  fill_url-failed access_failure ttl clock clock' url fetched h room soon =
      ground (arith, text_eq_iff (U.key_for url) (U.key_for url))

  module _ (K : Keeps U) where
    -- After a fetch that the upstream answered with status 200, every lookup of the URL within the time
    -- to live gets the same response, in every mode and without a fetch.
    pub lookup_url-fetch_url :
        (mode : CacheMode) (access_failure : PccsError) (ttl now : ℕ) (clock : Clock) (url : Text)
        (r out : AmdKdsResponse) (h h' : Held S)
        → fetch_url U access_failure clock url (some r) h ≡ (ok out, h')
        → r.status ≡ 200
        → now - clock.fetched_at < ttl
        → lookup_url U mode ttl now url h' ≡ (answered (ok out), h')
    unfolding fetch_url lookup_url record_of
    lookup_url-fetch_url mode access_failure ttl now clock url r out h h' did good soon =
        let rec = record_of U url r clock.fetched_at in
        let (done, s) = U.save rec h.store in
        elim (Result-cases done) [
          | inl (u, saved) ↦
              let found : U.load url s ≡ some rec = K.load-save rec h.store s (ground arith) in
              ground (arith, found)
          | inr (inl (e, bad)) ↦ absurd (ground arith)
          | inr (inr broken) ↦ absurd (ground arith)
        ]
