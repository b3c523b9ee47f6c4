-- ===== src/Validate/Body/Laws.antt =====
-- src/validate.rs: the fields of an accepted registration of a platform.
use pccs_rs.Common.{
  ℕ, suc, ◌<◌, ◌≤◌, ◌≡◌, ◌⊎◌, ◌∙◌, refl, ap, subst, inl, inr, true, false, ◌||◌, [], ◌∷◌, Option,
  none, some, arith, length, is_empty, Option-cases,
}
use pccs_rs.Common.Result.{ok, guard, >>=-eq-ok}
use pccs_rs.Common.Result.Laws.{ok-injective, guard-eq-ok}
use pccs_rs.Common.Text.{Text, codes, to_ascii_uppercase}
use pccs_rs.Common.Json.{JsonApi}
use pccs_rs.Errors.{invalid_req}
use pccs_rs.Validate.Strings.{text_of}
use pccs_rs.Validate.Params.{is_hex}
use pccs_rs.Validate.Params.Laws.{is_hex-to_ascii_uppercase}
use pccs_rs.Validate.Body.{
  PlatformReg, qe_id_ok, normalize, opt_str, req_str, hex_if_present, platform_reg,
}

-- A registration that is passed on.
pub record IsReg (r : PlatformReg) : Type 0 where
  pub id_some : 0 < length r.qe_id
  pub id_short : length r.qe_id ≤ 260
  pub pce_hex : is_hex r.pce_id 4 ≡ true
  pub shape :
      ((r.platform_manifest ≡ [])
        × (is_hex r.cpu_svn 32 ≡ true)
        × (is_hex r.pce_svn 4 ≡ true)
        × (is_hex r.enc_ppid 768 ≡ true))
      ⊎ ((0 < length r.platform_manifest) × (r.cpu_svn ≡ []) × (r.pce_svn ≡ []) × (r.enc_ppid ≡ []))

length-to_ascii_uppercase : (s : Text) → length (to_ascii_uppercase s) ≡ length s
length-to_ascii_uppercase [] = refl
length-to_ascii_uppercase (b ∷ s) = ap suc (length-to_ascii_uppercase s)

abbrev HexIfSome : Text → ℕ → Type 0
HexIfSome s n = is_empty s ≡ false → is_hex s n ≡ true

normalize-IsReg :
    (qe_id pce_id cpu_svn pce_svn enc_ppid manifest : Text) (r : PlatformReg)
    → qe_id_ok qe_id ≡ true
    → is_hex pce_id 4 ≡ true
    → HexIfSome cpu_svn 32
    → HexIfSome pce_svn 4
    → HexIfSome enc_ppid 768
    → normalize qe_id pce_id cpu_svn pce_svn enc_ppid manifest ≡ ok r
    → IsReg r
unfolding normalize qe_id_ok
normalize-IsReg qe_id pce_id cpu_svn pce_svn enc_ppid [] r id pce cpu svn ppid h =
    let whole : (is_empty cpu_svn || (is_empty pce_svn || is_empty enc_ppid)) ≡ false =
      ground arith in
    subst IsReg (ok-injective (rw whole at h)) (record {
      id_some = ground (arith, length-to_ascii_uppercase qe_id);
      id_short = ground (arith, length-to_ascii_uppercase qe_id);
      pce_hex = is_hex-to_ascii_uppercase pce_id 4 ∙ pce;
      shape = inl (
        refl,
        is_hex-to_ascii_uppercase cpu_svn 32 ∙ cpu (ground arith),
        is_hex-to_ascii_uppercase pce_svn 4 ∙ svn (ground arith),
        is_hex-to_ascii_uppercase enc_ppid 768 ∙ ppid (ground arith),
      );
    })
normalize-IsReg qe_id pce_id cpu_svn pce_svn enc_ppid (b ∷ manifest) r id pce cpu svn ppid h =
    subst IsReg (ok-injective h) (record {
      id_some = ground (arith, length-to_ascii_uppercase qe_id);
      id_short = ground (arith, length-to_ascii_uppercase qe_id);
      pce_hex = is_hex-to_ascii_uppercase pce_id 4 ∙ pce;
      shape = inr (omega arith, refl, refl, refl);
    })

module _ (J : JsonApi) where
  opt_str-present :
      (body : J.Value) (key : Text) (s : Option Text) (n : ℕ)
      → opt_str J body key ≡ ok s
      → hex_if_present J body key (text_of s) n ≡ ok tt
      → HexIfSome (text_of s) n
  unfolding opt_str hex_if_present
  opt_str-present body key none n h k = λ some. absurd (ground arith)
  opt_str-present body key (some s) n h k = elim (Option-cases (J.get body key)) [
    | inl out ↦ absurd (ground arith)
    | inr (v, found) ↦ λ full. ground arith
  ]

  -- An accepted registration has a `qe_id` of 1 to 260 bytes and a hexadecimal `pce_id`. Either it has
  -- no manifest, and CPUSVN, PCESVN and the encrypted PPID are hexadecimal of their lengths, or it has
  -- one, and those three are empty.
  pub platform_reg-IsReg : (body : J.Value) (r : PlatformReg) → platform_reg J body ≡ ok r → IsReg r
  unfolding platform_reg
  platform_reg-IsReg body r h =
      let (_, e0, h0) = >>=-eq-ok (guard (J.is_object body) invalid_req) _ h in
      let (qe_id, e1, h1) = >>=-eq-ok (req_str J body (codes "qe_id")) _ h0 in
      let (_, id, h2) = >>=-eq-ok (guard (qe_id_ok qe_id) invalid_req) _ h1 in
      let (pce_id, e2, h3) = >>=-eq-ok (req_str J body (codes "pce_id")) _ h2 in
      let (_, pce, h4) = >>=-eq-ok (guard (is_hex pce_id 4) invalid_req) _ h3 in
      let (cpu_svn, e3, h5) = >>=-eq-ok (opt_str J body (codes "cpu_svn")) _ h4 in
      let (pce_svn, e4, h6) = >>=-eq-ok (opt_str J body (codes "pce_svn")) _ h5 in
      let (enc_ppid, e5, h7) = >>=-eq-ok (opt_str J body (codes "enc_ppid")) _ h6 in
      let (_, cpu, h8) =
        >>=-eq-ok (hex_if_present J body (codes "cpu_svn") (text_of cpu_svn) 32) _ h7 in
      let (_, svn, h9) =
        >>=-eq-ok (hex_if_present J body (codes "pce_svn") (text_of pce_svn) 4) _ h8 in
      let (_, ppid, h10) =
        >>=-eq-ok (hex_if_present J body (codes "enc_ppid") (text_of enc_ppid) 768) _ h9 in
      let (manifest, e6, h11) = >>=-eq-ok (opt_str J body (codes "platform_manifest")) _ h10 in
      normalize-IsReg qe_id pce_id (text_of cpu_svn) (text_of pce_svn) (text_of enc_ppid)
        (text_of manifest) r (guard-eq-ok _ invalid_req id) (guard-eq-ok _ invalid_req pce)
        (opt_str-present body (codes "cpu_svn") cpu_svn 32 e3 cpu)
        (opt_str-present body (codes "pce_svn") pce_svn 4 e4 svn)
        (opt_str-present body (codes "enc_ppid") enc_ppid 768 e5 ppid) h11
