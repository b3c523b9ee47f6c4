-- ===== src/Cache/ReadThrough.antt =====
-- src/cache.rs: the read-through cache of the AMD and NVIDIA URLs. A request looks the URL up, and on a
-- miss fills it under the lock of its key; other requests may run in between.
pub mod Laws
pub mod Kinds
use pccs_rs.Common.{
  ℕ, ◌-◌, Bool, true, false, not, ◌&&◌, ◌||◌, List, Option, none, some, if◌then◌else◌, ◌==◌, ltb,
  leb,
}
use pccs_rs.Common.Result.{Result, ok, err, panic}
use pccs_rs.Common.Text.{Text}
use pccs_rs.Errors.{PccsError, no_cache_data}
use pccs_rs.Store.Records.{AmdKdsRecord}
use pccs_rs.Store.Exec.{Exec}
use pccs_rs.Cache.Recent.{
  AmdKdsResponse, RecentOutcome, failed, response, Outcomes, recent_failure, recent_non200,
  remember,
}

pub data CacheMode : Type 0 where
  lazy offline req : CacheMode

abbrev pub is_lazy : CacheMode → Bool
is_lazy lazy = true
is_lazy offline = false
is_lazy req = false

-- `impl From<AmdKdsRecord> for AmdKdsResponse`.
unfoldable pub from_record : AmdKdsRecord → AmdKdsResponse
from_record rec = record {
  status = 200;
  body = rec.body;
  content_type = rec.content_type;
  content_disposition = rec.content_disposition;
  retry_after = none;
}

-- What the caller passes: the operations of the store on one kind of URL, with its key.
pub record Urls (S : Type 0) : Type 0 where
  pub key_for : Text → Text
  pub load : Text → S → Option AmdKdsRecord
  pub save : AmdKdsRecord → Exec S (Unit {0})
  pub delete_key : Text → Exec S (Unit {0})

pub record Held (S : Type 0) : Type 0 where
  pub store : S
  pub failures : Outcomes

-- The clock readings of a fill: of `Instant` in nanoseconds, of `unix_time` in seconds.
pub record Clock : Type 0 where
  pub failure_at : ℕ
  pub non200_at : ℕ
  pub now : ℕ
  pub noted_at : ℕ
  pub fetched_at : ℕ

pub data Looked : Type 0 where
  answered : Result PccsError AmdKdsResponse → Looked
  missed : Looked

module _ {S : Type 0} (U : Urls S) where
  abbrev drop_expired : Text → Held S → Held S
  drop_expired url h = record h { store = (U.delete_key (U.key_for url) h.store).1 }

  abbrev pub is_fresh : ℕ → ℕ → AmdKdsRecord → Bool
  is_fresh ttl now rec = ltb (now - rec.fetched_at) ttl

  -- Before the lock.
  unfoldable pub lookup_url : CacheMode → ℕ → ℕ → Text → Held S → Looked × Held S
  unfolding from_record
  lookup_url mode ttl now url h = elim (U.load url h.store) [
    | none ↦ (if is_lazy mode then missed else answered (err no_cache_data), h)
    | some rec ↦
        if is_fresh ttl now rec
        then (answered (ok (from_record rec)), h)
        else if is_lazy mode
        then (missed, h)
        else (answered (err no_cache_data), drop_expired url h)
  ]

  abbrev noting : ℕ → Text → RecentOutcome → Held S → Held S
  noting at url outcome h = record h { failures = remember at (U.key_for url) outcome h.failures }

  -- `(100..200).contains(&status) || (300..400).contains(&status)`.
  abbrev no_answer : ℕ → Bool
  no_answer status = leb 100 status && ltb status 200 || leb 300 status && ltb status 400

  unfoldable pub record_of : Text → AmdKdsResponse → ℕ → AmdKdsRecord
  record_of url r fetched_at = record {
    url = url;
    body = r.body;
    content_type = r.content_type;
    content_disposition = r.content_disposition;
    fetched_at = fetched_at;
  }

  -- `fetched` is what the upstream answers, its headers read as texts, and `none` an error.
  unfoldable pub fetch_url :
      PccsError
      → Clock
      → Text
      → Option AmdKdsResponse
      → Held S
      → Result PccsError AmdKdsResponse × Held S
  unfolding remember record_of from_record
  fetch_url access_failure clock url none h =
      (err access_failure, noting clock.noted_at url (failed access_failure) h)
  fetch_url access_failure clock url (some r) h =
      if no_answer r.status
      then (err access_failure, noting clock.noted_at url (failed access_failure) h)
      else if not (r.status == 200)
      then (ok r, noting clock.noted_at url (response r) h)
      else (let rec = record_of url r clock.fetched_at in
          let (done, s) = U.save rec h.store in
          elim done [
            | ok u ↦ (ok (from_record rec), record h { store = s })
            | err e ↦ (err e, record h { store = s })
            | panic ↦ (panic, record h { store = s })
          ])

  -- The second look, under the lock.
  unfoldable pub refill_url :
      PccsError
      → ℕ
      → Clock
      → Text
      → Option AmdKdsResponse
      → Held S
      → Result PccsError AmdKdsResponse × Held S
  unfolding fetch_url
  refill_url access_failure ttl clock url fetched h = elim (U.load url h.store) [
    | none ↦ fetch_url access_failure clock url fetched h
    | some rec ↦
        if is_fresh ttl clock.now rec
        then (ok (from_record rec), h)
        else fetch_url access_failure clock url fetched (drop_expired url h)
  ]

  -- Under the lock.
  unfoldable pub fill_url :
      PccsError
      → ℕ
      → Clock
      → Text
      → Option AmdKdsResponse
      → Held S
      → Result PccsError AmdKdsResponse × Held S
  unfolding recent_failure recent_non200 refill_url
  fill_url access_failure ttl clock url fetched h =
      let (failure, map) = recent_failure clock.failure_at (U.key_for url) h.failures in
      elim failure [
        | some e ↦ (err e, record h { failures = map })
        | none ↦
            let (non200, map') = recent_non200 clock.non200_at (U.key_for url) map in
            elim non200 [
              | some r ↦ (ok r, record h { failures = map' })
              | none ↦
                  refill_url access_failure ttl clock url fetched (record h { failures = map' })
            ]
      ]

  -- `others` is what other requests do while this one waits for the lock.
  unfoldable pub get_cached_url :
      CacheMode
      → PccsError
      → ℕ
      → ℕ
      → Clock
      → Text
      → Option AmdKdsResponse
      → (Held S → Held S)
      → Held S
      → Result PccsError AmdKdsResponse × Held S
  unfolding lookup_url fill_url
  get_cached_url mode access_failure ttl now clock url fetched others h =
      let (looked, h') = lookup_url mode ttl now url h in
      elim looked [
        | answered r ↦ (r, h')
        | missed ↦ fill_url access_failure ttl clock url fetched (others h')
      ]
