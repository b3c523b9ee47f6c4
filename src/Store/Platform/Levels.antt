-- ===== src/Store/Platform/Levels.antt =====
-- src/store.rs: the known raw TCBs of a pool as a map from levels to tcbms.
use pccs_rs.Common.{
  ℕ, ◌≡◌, ◌↔◌, refl, sym, ap, ◌∙◌, Bool, true, false, not, ◌&&◌, ◌||◌, List, [], ◌∷◌, Option, none,
  some, if◌then◌else◌, arith, All,
}
use pccs_rs.Common.Text.{
  Text, text_eq, text_eq_iff, eq_ignore_ascii_case, eq_ignore_ascii_case_iff, to_ascii_lowercase,
  to_ascii_uppercase, to_upper, to_lower,
}
use pccs_rs.Store.Records.{RawTcb}
use pccs_rs.Store.Platform.{track, upsert, retain, same_level}

-- The abstract view: the tcbm of a level, whatever its spelling.
abbrev pub tcbm_at : Text → Text → List RawTcb → Option Text
tcbm_at cpusvn pcesvn [] = none
tcbm_at cpusvn pcesvn (r ∷ raws) =
    if same_level cpusvn pcesvn r then some r.tcbm else tcbm_at cpusvn pcesvn raws

-- Levels are the same up to case.
pub same_level_iff :
    (c p : Text) (r : RawTcb)
    → (same_level c p r ≡ true) ↔ (
        (to_ascii_lowercase r.cpu_svn ≡ to_ascii_lowercase c)
        × (to_ascii_lowercase r.pce_svn ≡ to_ascii_lowercase p))
same_level_iff c p r =
    ground (arith, eq_ignore_ascii_case_iff r.cpu_svn c, eq_ignore_ascii_case_iff r.pce_svn p)

-- Tracking a mapping is the update of the map.
pub tcbm_at-track :
    (c p : Text) (raw : RawTcb) (raws : List RawTcb)
    → tcbm_at c p (track raw raws)
      ≡ (if same_level c p raw then some raw.tcbm else tcbm_at c p raws)
unfolding track upsert
tcbm_at-track c p raw [] = refl
tcbm_at-track c p raw (r ∷ raws) = ground (
  arith,
  tcbm_at-track c p raw raws,
  same_level_iff c p raw,
  same_level_iff c p r,
  same_level_iff raw.cpu_svn raw.pce_svn r,
)

-- Dropping a level is the removal from the map.
pub tcbm_at-retain :
    (c p c' p' : Text) (raws : List RawTcb)
    → tcbm_at c p (retain (λ r. not (same_level c' p' r)) raws)
      ≡ (if eq_ignore_ascii_case c' c && eq_ignore_ascii_case p' p then none else tcbm_at c p raws)
unfolding retain
tcbm_at-retain c p c' p' [] = ground arith
tcbm_at-retain c p c' p' (r ∷ raws) = ground (
  arith,
  tcbm_at-retain c p c' p' raws,
  same_level_iff c p r,
  same_level_iff c' p' r,
  eq_ignore_ascii_case_iff c' c,
  eq_ignore_ascii_case_iff p' p,
)

abbrev pub IsUpper : RawTcb → Type 0
IsUpper r = (to_ascii_uppercase r.cpu_svn ≡ r.cpu_svn) × (to_ascii_uppercase r.pce_svn ≡ r.pce_svn)

to_upper-to_lower : (b : ℕ) → to_upper (to_lower b) ≡ to_upper b
unfolding to_upper to_lower
to_upper-to_lower b = ground arith

upper-lower : (s : Text) → to_ascii_uppercase (to_ascii_lowercase s) ≡ to_ascii_uppercase s
upper-lower [] = refl
upper-lower (b ∷ s) = rw (to_upper-to_lower b, upper-lower s) refl

-- Two texts in upper case that differ in case only are equal.
upper_eq :
    (s t : Text)
    → to_ascii_uppercase s ≡ s
    → to_ascii_uppercase t ≡ t
    → to_ascii_lowercase s ≡ to_ascii_lowercase t
    → s ≡ t
upper_eq s t us ut e =
    sym us ∙ (sym (upper-lower s) ∙ (ap to_ascii_uppercase e ∙ (upper-lower t ∙ ut)))

abbrev exact : RawTcb → RawTcb → Bool
exact e r = text_eq r.cpu_svn e.cpu_svn && text_eq r.pce_svn e.pce_svn

exact-same_level :
    (e r : RawTcb) → IsUpper e → IsUpper r → exact e r ≡ same_level e.cpu_svn e.pce_svn r
exact-same_level e r ue ur = ground (
  arith,
  same_level_iff e.cpu_svn e.pce_svn r,
  text_eq_iff r.cpu_svn e.cpu_svn,
  text_eq_iff r.pce_svn e.pce_svn,
  upper_eq r.cpu_svn e.cpu_svn ur.0 ue.0,
  upper_eq r.pce_svn e.pce_svn ur.1 ue.1,
)

-- On levels in upper case, changing the tcbm of an exact match is tracking.
pub upsert-exact :
    (e : RawTcb) (raws : List RawTcb)
    → IsUpper e
    → All IsUpper raws
    → upsert (exact e) (λ r. record r { tcbm = e.tcbm }) e raws ≡ track e raws
unfolding upsert track
upsert-exact e [] ue us = refl
upsert-exact e (r ∷ raws) ue us = ground (
  arith,
  exact-same_level e r ue us.0,
  upsert-exact e raws ue us.1,
  text_eq_iff r.cpu_svn e.cpu_svn,
  text_eq_iff r.pce_svn e.pce_svn,
)

-- Whether a pool knows a level.
abbrev pub known : Text → Text → List RawTcb → Bool
known cpusvn pcesvn [] = false
known cpusvn pcesvn (r ∷ raws) = same_level cpusvn pcesvn r || known cpusvn pcesvn raws

pub known-track :
    (c p : Text) (raw : RawTcb) (raws : List RawTcb)
    → known c p (track raw raws) ≡ (same_level c p raw || known c p raws)
unfolding track upsert
known-track c p raw [] = refl
known-track c p raw (r ∷ raws) = ground (
  arith,
  known-track c p raw raws,
  same_level_iff c p raw,
  same_level_iff c p r,
  same_level_iff raw.cpu_svn raw.pce_svn r,
)
