-- ===== src/Store/Platform/Outcomes.antt =====
-- src/store.rs: the pool that is read back after an operation on it.
use pccs_rs.Common.{
  ◌≡◌, refl, ap, ◌∙◌, subst, Bool, true, false, ◌||◌, List, [], ◌∷◌, ◌++◌, Option, none, some,
  arith, Option-cases, inl, inr,
}
use mathlib.Core.List.{append_assoc}
use pccs_rs.Common.Result.{Result, ok, >>=-eq-ok}
use pccs_rs.Common.Result.Laws.{guard-eq-ok}
use pccs_rs.Common.Text.{Text, eq_ignore_ascii_case, eq_ignore_ascii_case_iff}
use pccs_rs.Errors.{PccsError, no_cache_data}
use pccs_rs.Store.Database.{Database, Reliable, Op, put, RoundTrips}
use pccs_rs.Store.Records.{PckCertRecord, TcbRecord, RawTcb, PlatformPool, Formats}
use pccs_rs.Store.Exec.{serialize}
use pccs_rs.Store.Exec.Laws.{lift-write_batch-inv, read_json-write_last}
use pccs_rs.Store.Reads.{get_platform_pool, platform_key}
use pccs_rs.Store.Platform.{
  PlatformPublication, publication_ok, check_platform_publication, raws_of, raw_of, same_level,
}
use pccs_rs.Store.Platform.Levels.{known, known-track}
use pccs_rs.Store.Platform.Batches.{
  Publish, reselect, replacement, publish_batch, track_selected, list_of, put_records, put_tcbs,
}
use pccs_rs.Store.Platform.Methods.{replace_platform_certs_after_fetch}

abbrev pub known_selected : Text → Text → Option PckCertRecord → Bool
known_selected c p none = false
known_selected c p (some rec) = same_level c p (raw_of rec)

known-track_selected :
    (c p : Text) (selected : Option PckCertRecord) (raws : List RawTcb)
    → known c p (track_selected selected raws) ≡ (known_selected c p selected || known c p raws)
known-track_selected c p none raws = refl
known-track_selected c p (some rec) raws = known-track c p (raw_of rec) raws

module _ {V : Type 0} (F : Formats V) where
  -- The last operation of a published batch puts the pool.
  pub publish_batch-last :
      (key : Text) (tcbs : List (TcbRecord V)) (p : Publish) (ops : List Op)
      → publish_batch F key tcbs p ≡ ok ops
      → (front : List Op) × (bytes : Text) × (F.platform.to_vec p.pool ≡ some bytes)
        × (ops ≡ front ++ put key bytes ∷ [])
  unfolding publish_batch
  publish_batch-last key tcbs p ops h =
      let (records, _, h1) = >>=-eq-ok (put_records F p.records) _ h in
      let (collateral, _, h2) = >>=-eq-ok (put_tcbs F tcbs) _ h1 in
      elim (Option-cases (F.platform.to_vec p.pool)) [
        | inl out ↦ absurd (ground arith)
        | inr (bytes, made) ↦ (
          records ++ collateral,
          bytes,
          made,
          ground (arith, append_assoc records collateral (put key bytes ∷ [])),
        )
      ]

  -- Selecting anew keeps the levels.
  known-reselect :
      (select : RawTcb → Result PccsError PckCertRecord) (raws raws' : List RawTcb) (ops : List Op)
      → reselect F select raws ≡ ok (raws', ops)
      → (c p : Text) → known c p raws' ≡ known c p raws
  unfolding reselect
  known-reselect select [] raws' ops h c p = ground arith
  known-reselect select (raw ∷ raws) raws' ops h c p =
      let (rec, _, h1) = >>=-eq-ok (select raw) _ h in
      let (bytes, _, h2) = >>=-eq-ok (serialize F.pckcert rec) _ h1 in
      let ((rest, more), again, h3) = >>=-eq-ok (reselect F select raws) _ h2 in
      ground (arith, known-reselect select raws rest more again c p, h3)

  replacement-inv :
      (fresh : PlatformPool) (publication : PlatformPublication) (tcbs : List (TcbRecord V))
      (selected : Option PckCertRecord) (select : RawTcb → Result PccsError PckCertRecord)
      (current : Option PlatformPool) (ops : List Op)
      → replacement F fresh publication tcbs selected select current ≡ ok ops
      → (publication_ok current publication ≡ true)
        × ((raws : List RawTcb) × (front : List Op) × (bytes : Text) × (F.platform.to_vec
                (record fresh { raw_tcbs = raws })
              ≡ some bytes)
            × (ops ≡ front ++ put (platform_key fresh) bytes ∷ [])
            × ((c p : Text)
                → known c p raws ≡ (known_selected c p selected || known c p (raws_of current))))
  unfolding replacement check_platform_publication
  replacement-inv fresh publication tcbs selected select current ops h =
      let (_, checked, h1) = >>=-eq-ok (check_platform_publication current publication) _ h in
      let ((raws, more), again, h2) = >>=-eq-ok (reselect F select (raws_of current)) _ h1 in
      let pool = record fresh { raw_tcbs = track_selected selected raws } in
      let publish : Publish = record { pool = pool; records = list_of selected } in
      let (rest, batch, h3) = >>=-eq-ok (publish_batch F (platform_key pool) tcbs publish) _ h2 in
      let (front, bytes, made, same) =
        publish_batch-last (platform_key pool) tcbs publish rest batch in
      (
        guard-eq-ok _ no_cache_data checked,
        (
          track_selected selected raws,
          more ++ front,
          bytes,
          made,
          ground (arith, same, h3, append_assoc more front (put (platform_key pool) bytes ∷ [])),
          λ c p.
              known-track_selected c p selected raws
              ∙ ap (λ b. known_selected c p selected || b)
                  (known-reselect select (raws_of current) raws more again c p),
        ),
      )

eq_ignore_refl : (s : Text) → eq_ignore_ascii_case s s ≡ true
eq_ignore_refl s = (eq_ignore_ascii_case_iff s s).1 refl

module _ (D : Database) (R : Reliable D) {V : Type 0} (F : Formats V) where
  -- The pool that a batch puts last is read back.
  get_platform_pool-write_last :
      (pool : PlatformPool) (front : List Op) (bytes : Text) (s s' : D.State)
      → RoundTrips F.platform
      → F.platform.to_vec pool ≡ some bytes
      → D.write s (front ++ put (platform_key pool) bytes ∷ []) ≡ some s'
      → get_platform_pool D F pool.qe_id pool.pce_id s' ≡ some pool
  unfolding get_platform_pool
  get_platform_pool-write_last pool front bytes s s' trips made done =
      let read = read_json-write_last D R F.platform front (platform_key pool) bytes s s' done in
      rw (read, trips.back pool bytes made, eq_ignore_refl pool.qe_id, eq_ignore_refl pool.pce_id)
        refl

  -- Where a pool is fetched and published, its certificates and metadata replace those of the platform,
  -- and the levels that it knows are those known before and that of the new selection: no known raw
  -- TCB is lost.
  pub replace_platform_certs_after_fetch_lem :
      (fresh : PlatformPool) (publication : PlatformPublication) (tcbs : List (TcbRecord V))
      (selected : Option PckCertRecord)
      (select : PlatformPool → RawTcb → Result PccsError PckCertRecord) (s s' : D.State)
      → RoundTrips F.platform
      → replace_platform_certs_after_fetch D F fresh publication tcbs selected select s
        ≡ (ok tt, s')
      → let current = get_platform_pool D F fresh.qe_id fresh.pce_id s in
        (publication_ok current publication ≡ true)
        × ((raws : List RawTcb) × (get_platform_pool D F fresh.qe_id fresh.pce_id s'
              ≡ some (record fresh { raw_tcbs = raws }))
            × ((c p : Text)
                → known c p raws ≡ (known_selected c p selected || known c p (raws_of current))))
  unfolding replace_platform_certs_after_fetch
  replace_platform_certs_after_fetch_lem fresh publication tcbs selected select s s' trips h =
      let current = get_platform_pool D F fresh.qe_id fresh.pce_id s in
      let (ops, made, done) =
        lift-write_batch-inv D
          (replacement F fresh publication tcbs selected (select fresh) current) s s' h in
      let (fits, (raws, front, bytes, text, same, levels)) =
        replacement-inv F fresh publication tcbs selected (select fresh) current ops made in
      (
        fits,
        (
          raws,
          get_platform_pool-write_last (record fresh { raw_tcbs = raws }) front bytes s s' trips
              text (subst (λ o. D.write s o ≡ some s') same done),
          levels,
        ),
      )
