-- ===== src/Store/Reads/Laws.antt =====
-- src/store.rs: which records are read, and when.
use pccs_rs.Common.{◌≡◌, refl, sym, true, [], ◌∷◌, some, arith, Option-cases, inl, inr}
use pccs_rs.Common.Result.{ok}
use pccs_rs.Common.Text.{
  Text, text_eq, text_eq_iff, eq_ignore_ascii_case, eq_ignore_ascii_case_iff, to_ascii_lowercase,
}
use pccs_rs.Keys
use pccs_rs.Keys.{make, join_lower}
use pccs_rs.Store.Database.{Database, Reliable, Codec, RoundTrips, put}
use pccs_rs.Store.Records.{PckCertRecord, PlatformPool, Formats}
use pccs_rs.Store.Exec.{digested, read_json, put_json}
use pccs_rs.Store.Reads.{
  get_pckcert, put_pckcert, pckcert_key, platform_key, get_platform_pool, put_platform_pool,
}

text_eq_refl : (s : Text) → text_eq s s ≡ true
text_eq_refl s = (text_eq_iff s s).1 refl

-- A write that succeeds has serialised its record and written it under its key.
module _ (D : Database) where
  pub put_json-inv :
      {A : Type 0} (C : Codec A) (key : Text) (a : A) (s s' : D.State)
      → put_json D C key a s ≡ (ok tt, s')
      → (bytes : Text) × (C.to_vec a ≡ some bytes) × (D.write s (put key bytes ∷ []) ≡ some s')
  unfolding put_json
  put_json-inv C key a s s' h = elim (Option-cases (C.to_vec a)) [
    | inl out ↦ absurd (ground arith)
    | inr (bytes, made) ↦ elim (Option-cases (D.write s (put key bytes ∷ []))) [
      | inl out ↦ absurd (ground arith)
      | inr (t, done) ↦ (bytes, made, ground arith)
    ]
  ]

-- The key does not see the case of its parts.
pub pckcert_lower :
    (q q' p p' c c' t t' : Text)
    → to_ascii_lowercase q ≡ to_ascii_lowercase q'
    → to_ascii_lowercase p ≡ to_ascii_lowercase p'
    → to_ascii_lowercase c ≡ to_ascii_lowercase c'
    → to_ascii_lowercase t ≡ to_ascii_lowercase t'
    → Keys.pckcert q p c t ≡ Keys.pckcert q' p' c' t'
unfolding Keys.pckcert make join_lower
pckcert_lower q q' p p' c c' t t' eq ep ec et = rw (eq, ep, ec, et) refl

pub platform_lower :
    (q q' p p' : Text)
    → to_ascii_lowercase q ≡ to_ascii_lowercase q'
    → to_ascii_lowercase p ≡ to_ascii_lowercase p'
    → Keys.platform q p ≡ Keys.platform q' p'
unfolding Keys.platform make join_lower
platform_lower q q' p p' eq ep = rw (eq, ep) refl

module _ (D : Database) {V : Type 0} (F : Formats V) where
  -- A record that is found is the one that was asked for, whatever the database holds under its key.
  pub get_pckcert_sound :
      (s : D.State) (qeid cpusvn pcesvn pceid : Text) (rec : PckCertRecord)
      → get_pckcert D F qeid cpusvn pcesvn pceid s ≡ some rec
      → (eq_ignore_ascii_case rec.qeid qeid ≡ true)
        × (eq_ignore_ascii_case rec.pceid pceid ≡ true)
        × (eq_ignore_ascii_case rec.cpusvn cpusvn ≡ true)
        × (eq_ignore_ascii_case rec.pcesvn pcesvn ≡ true)
  unfolding get_pckcert
  get_pckcert_sound s qeid cpusvn pcesvn pceid rec h =
      elim (Option-cases
        (read_json D F.pckcert (digested (Keys.pckcert qeid pceid cpusvn pcesvn)) s)) [
          | inl out ↦ absurd (ground arith)
          | inr (found, read) ↦ ground arith
        ]

  pub get_platform_pool_sound :
      (s : D.State) (qeid pceid : Text) (pool : PlatformPool)
      → get_platform_pool D F qeid pceid s ≡ some pool
      → (eq_ignore_ascii_case pool.qe_id qeid ≡ true)
        × (eq_ignore_ascii_case pool.pce_id pceid ≡ true)
  unfolding get_platform_pool
  get_platform_pool_sound s qeid pceid pool h =
      elim (Option-cases (read_json D F.platform (digested (Keys.platform qeid pceid)) s)) [
        | inl out ↦ absurd (ground arith)
        | inr (found, read) ↦ ground arith
      ]

module _ (D : Database) (R : Reliable D) where
  -- What is written under a key is read under it.
  pub read_json-put_json :
      {A : Type 0} (C : Codec A) (key : Text) (a : A) (s s' : D.State)
      → RoundTrips C
      → put_json D C key a s ≡ (ok tt, s')
      → read_json D C key s' ≡ some a
  unfolding read_json
  read_json-put_json C key a s s' trips h =
      let (bytes, made, done) = put_json-inv D C key a s s' h in
      ground (
        arith,
        R.get-content s' key,
        R.content-write s s' (put key bytes ∷ []) key done,
        text_eq_refl key,
        trips.back a bytes made,
      )

  module _ {V : Type 0} (F : Formats V) where
    -- A record that was written is found under every spelling of its request.
    pub get_pckcert-put_pckcert :
        (rec : PckCertRecord) (s s' : D.State) (qeid cpusvn pcesvn pceid : Text)
        → RoundTrips F.pckcert
        → put_pckcert D F rec s ≡ (ok tt, s')
        → eq_ignore_ascii_case rec.qeid qeid ≡ true
        → eq_ignore_ascii_case rec.cpusvn cpusvn ≡ true
        → eq_ignore_ascii_case rec.pcesvn pcesvn ≡ true
        → eq_ignore_ascii_case rec.pceid pceid ≡ true
        → get_pckcert D F qeid cpusvn pcesvn pceid s' ≡ some rec
    unfolding get_pckcert put_pckcert
    get_pckcert-put_pckcert rec s s' qeid cpusvn pcesvn pceid trips h eq ec et ep =
        let same =
          pckcert_lower qeid rec.qeid pceid rec.pceid cpusvn rec.cpusvn pcesvn rec.pcesvn
            (sym ((eq_ignore_ascii_case_iff _ _).0 eq)) (sym ((eq_ignore_ascii_case_iff _ _).0 ep))
            (sym ((eq_ignore_ascii_case_iff _ _).0 ec))
            (sym ((eq_ignore_ascii_case_iff _ _).0 et)) in
        let read = read_json-put_json F.pckcert (pckcert_key rec) rec s s' trips h in
        rw (same, read, eq, ep, ec, et) refl

    pub get_platform_pool-put_platform_pool :
        (pool : PlatformPool) (s s' : D.State) (qeid pceid : Text)
        → RoundTrips F.platform
        → put_platform_pool D F pool s ≡ (ok tt, s')
        → eq_ignore_ascii_case pool.qe_id qeid ≡ true
        → eq_ignore_ascii_case pool.pce_id pceid ≡ true
        → get_platform_pool D F qeid pceid s' ≡ some pool
    unfolding get_platform_pool put_platform_pool
    get_platform_pool-put_platform_pool pool s s' qeid pceid trips h eq ep =
        let same =
          platform_lower qeid pool.qe_id pceid pool.pce_id
            (sym ((eq_ignore_ascii_case_iff _ _).0 eq))
            (sym ((eq_ignore_ascii_case_iff _ _).0 ep)) in
        let read = read_json-put_json F.platform (platform_key pool) pool s s' trips h in
        rw (same, read, eq, ep) refl
