-- ===== src/Cache/ReadThrough/Kinds.antt =====
-- src/cache.rs: the two kinds of URL, over the store with the last time of a bounded write.
use pccs_rs.Common.{ℕ, ◌≡◌, refl, false, some, Option-cases, inl, inr, arith}
use pccs_rs.Common.Result.{ok}
use pccs_rs.Common.Text.{Text, codes, text_eq_iff}
use pccs_rs.Keys
use pccs_rs.Hash.{hash128_hex}
use pccs_rs.Validate.Strings.{strip_prefix}
use pccs_rs.Store.Database.{Database, Reliable, RoundTrips}
use pccs_rs.Store.Records.{AmdKdsRecord, Formats}
use pccs_rs.Store.Exec.{Exec, digested}
use pccs_rs.Store.Scans.{starts_with}
use pccs_rs.Store.Reads.{get_amd_kds, get_nvidia_rim}
use pccs_rs.Store.Bounded.{put_amd_kds, put_nvidia_rim, delete_key}
use pccs_rs.Store.Bounded.Laws.{put_bounded-inv, read_json-written}
use pccs_rs.Cache.ReadThrough.{Urls}
use pccs_rs.Cache.ReadThrough.Laws.{Keeps}

module _ (D : Database) {V : Type 0} (F : Formats V) (max now : ℕ) where
  abbrev delete_record : Text → Exec (D.State × ℕ) (Unit {0})
  delete_record key (s, last) = let (done, s') = delete_key D key s in (done, (s', last))

  -- What `get_amd_kds` and `get_nvidia_rim` pass to `get_cached_url`.
  abbrev pub amd_kds_urls : Urls (D.State × ℕ)
  amd_kds_urls = record {
    key_for = λ url. digested (Keys.amd_kds url);
    load = λ url s. get_amd_kds D F url s.0;
    save = put_amd_kds D F max now;
    delete_key = delete_record;
  }

  abbrev pub nvidia_rim_urls : Urls (D.State × ℕ)
  nvidia_rim_urls = record {
    key_for = λ url. digested (Keys.nvidia_rim url);
    load = λ url s. get_nvidia_rim D F url s.0;
    save = put_nvidia_rim D F max now;
    delete_key = delete_record;
  }

amd_kds-not_fifo : (url : Text) → starts_with (codes "fifo") (digested (Keys.amd_kds url)) ≡ false
unfolding Keys.amd_kds strip_prefix
amd_kds-not_fifo url = elim (Option-cases (hash128_hex url)) [
  | inl out ↦ ground (arith, out)
  | inr (digest, made) ↦ ground (arith, made)
]

nvidia_rim-not_fifo :
    (url : Text) → starts_with (codes "fifo") (digested (Keys.nvidia_rim url)) ≡ false
unfolding Keys.nvidia_rim strip_prefix
nvidia_rim-not_fifo url = elim (Option-cases (hash128_hex url)) [
  | inl out ↦ ground (arith, out)
  | inr (digest, made) ↦ ground (arith, made)
]

module _ (D : Database) (R : Reliable D) {V : Type 0} (F : Formats V)
    (trips : RoundTrips F.amd_kds) where
  get_amd_kds-put_amd_kds :
      (max now : ℕ) (rec : AmdKdsRecord) (s s' : D.State × ℕ)
      → put_amd_kds D F max now rec s ≡ (ok tt, s')
      → get_amd_kds D F rec.url s'.0 ≡ some rec
  unfolding put_amd_kds get_amd_kds
  get_amd_kds-put_amd_kds max now rec (s, last) (s', last') h =
      let key = digested (Keys.amd_kds rec.url) in
      let (bytes, front, back, made, done, spared) =
        put_bounded-inv D F.amd_kds max now (codes "amd-kds/") key rec s s' last last'
          (amd_kds-not_fifo rec.url) h in
      rw
        (
          read_json-written D R F.amd_kds key bytes front back s s' spared done,
          trips.back rec bytes made,
          (text_eq_iff rec.url rec.url).1 refl,
        )
        refl

  get_nvidia_rim-put_nvidia_rim :
      (max now : ℕ) (rec : AmdKdsRecord) (s s' : D.State × ℕ)
      → put_nvidia_rim D F max now rec s ≡ (ok tt, s')
      → get_nvidia_rim D F rec.url s'.0 ≡ some rec
  unfolding put_nvidia_rim get_nvidia_rim
  get_nvidia_rim-put_nvidia_rim max now rec (s, last) (s', last') h =
      let key = digested (Keys.nvidia_rim rec.url) in
      let (bytes, front, back, made, done, spared) =
        put_bounded-inv D F.amd_kds max now (codes "nvidia-rim/") key rec s s' last last'
          (nvidia_rim-not_fifo rec.url) h in
      rw
        (
          read_json-written D R F.amd_kds key bytes front back s s' spared done,
          trips.back rec bytes made,
          (text_eq_iff rec.url rec.url).1 refl,
        )
        refl

  -- Both kinds keep what was saved.
  pub amd_kds_urls-Keeps : (max now : ℕ) → Keeps (amd_kds_urls D F max now)
  amd_kds_urls-Keeps max now = record {
    load-save = λ rec s s' h. get_amd_kds-put_amd_kds max now rec s s' h;
  }

  pub nvidia_rim_urls-Keeps : (max now : ℕ) → Keeps (nvidia_rim_urls D F max now)
  nvidia_rim_urls-Keeps max now = record {
    load-save = λ rec s s' h. get_nvidia_rim-put_nvidia_rim max now rec s s' h;
  }
