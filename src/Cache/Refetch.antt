-- ===== src/Cache/Refetch.antt =====
-- src/cache.rs: when the pool of a platform may be fetched anew, and the queue rows of levels that
-- the upstream has no certificate for.
use pccs_rs.Common.{
  ◌≡◌, ◌<◌, arith, ℕ, ◌-◌, Bool, true, false, not, ◌&&◌, ◌||◌, List, [], ◌∷◌, Option, none, some,
  if◌then◌else◌, ◌==◌, ltb, leb, length,
}
use pccs_rs.Common.Text.{Text, codes, text_eq, text_eq_iff}
use pccs_rs.Common.Json.{JsonApi}
use pccs_rs.Keys.{decimal_loop}
use pccs_rs.Store.Database.{Database}
use pccs_rs.Store.Records.{PlatformPool, RegisteredPlatform, Formats}
use pccs_rs.Store.Exec.{Exec, pure, ◌>>◌}
use pccs_rs.Store.Platform.{retain}
use pccs_rs.Store.Registered.{register_platform}
use pccs_rs.Cache.ReadThrough.{CacheMode, lazy, offline, req, is_lazy}
use pccs_rs.Cache.Pool.{raw_cpusvn_from_tcb, raw_tcb_known, has_stored_credential}

-- The last attempt of each platform, in nanoseconds.
abbrev pub Marks : Type 0
Marks = List (Text × ℕ)

abbrev mark_of : Text → Marks → Option ℕ
mark_of platform [] = none
mark_of platform ((p, at) ∷ marks) = if text_eq p platform then some at else mark_of platform marks

unfoldable pub refetch_due : ℕ → ℕ → Text → Marks → Bool
refetch_due interval now platform marks =
    if interval == 0
    then true
    else (elim (mark_of platform marks) [ none ↦ Bool.true | some at ↦ leb interval (now - at) ])

unfoldable pub mark_refetch : ℕ → ℕ → Text → Marks → Marks
unfolding retain
mark_refetch interval now platform marks =
    let kept =
      if ltb 1024 (length marks)
      then retain (λ (m : Text × ℕ). interval == 0 || ltb (now - m.1) interval) marks
      else marks in
    (platform, now) ∷ retain (λ (m : Text × ℕ). not (text_eq m.0 platform)) kept

-- What the configuration and the upstream allow.
unfoldable pub may_refetch : Bool → CacheMode → Bool → Bool → ℕ → ℕ → Bool
may_refetch enabled mode is_intel has_upstream version pcs_version =
    enabled && is_lazy mode && is_intel && has_upstream && leb 4 version && leb 4 pcs_version

-- Whether the pool is one to be fetched anew for a raw TCB.
unfoldable pub wants_refetch : Option PlatformPool → Text → Text → Bool
unfolding raw_tcb_known has_stored_credential
wants_refetch none cpusvn pcesvn = false
wants_refetch (some pool) cpusvn pcesvn =
    not (raw_tcb_known pool cpusvn pcesvn) && has_stored_credential pool

-- An attempt counts for its platform until the interval is over.
refetch_due-mark_refetch :
    (interval now later : ℕ) (platform : Text) (marks : Marks)
    → 0 < interval
    → refetch_due interval later platform (mark_refetch interval now platform marks)
      ≡ leb interval (later - now)
unfolding refetch_due mark_refetch
refetch_due-mark_refetch interval now later platform marks h =
    ground (arith, text_eq_iff platform platform)

abbrev plat_reg_not_available : ℕ
plat_reg_not_available = 1

-- `to_string` of a `u64`: at most twenty digits.
abbrev decimal_u64 : ℕ → Text
decimal_u64 n = decimal_loop 20 n []

-- The decoder of the package base64.
module _ (J : JsonApi) (decode : Text → Option (List ℕ)) (D : Database) {V : Type 0}
    (F : Formats V) where
  -- The row of a level, where its fields can be read.
  unfoldable pub not_available_row : Text → Text → Text → Text → J.Value → Option RegisteredPlatform
  unfolding raw_cpusvn_from_tcb
  not_available_row qeid pceid enc_ppid platform_manifest tcb =
      elim (raw_cpusvn_from_tcb J decode tcb) [
        | none ↦ none
        | some cpu_svn ↦ elim (J.get tcb (codes "pcesvn")) [
          | none ↦ none
          | some v ↦ elim (J.as_u64 v) [
            | none ↦ none
            | some pce_svn ↦ some (record {
              qe_id = qeid;
              pce_id = pceid;
              cpu_svn = cpu_svn;
              pce_svn = decimal_u64 pce_svn;
              enc_ppid = enc_ppid;
              platform_manifest = platform_manifest;
              state = plat_reg_not_available;
            })
          ]
        ]
      ]

  unfoldable pub queue_rows : Text → Text → Text → Text → List J.Value → Exec D.State (Unit {0})
  unfolding not_available_row register_platform
  queue_rows qeid pceid enc_ppid platform_manifest [] = pure tt
  queue_rows qeid pceid enc_ppid platform_manifest (tcb ∷ tcbs) =
      elim (not_available_row qeid pceid enc_ppid platform_manifest tcb) [
        | none ↦ queue_rows qeid pceid enc_ppid platform_manifest tcbs
        | some row ↦ do
          register_platform D F row
          queue_rows qeid pceid enc_ppid platform_manifest tcbs
      ]

  -- Only in REQ mode.
  unfoldable pub process_not_available :
      CacheMode → Text → Text → Text → Text → List J.Value → Exec D.State (Unit {0})
  unfolding queue_rows
  process_not_available lazy qeid pceid enc_ppid platform_manifest tcbs = pure tt
  process_not_available offline qeid pceid enc_ppid platform_manifest tcbs = pure tt
  process_not_available req qeid pceid enc_ppid platform_manifest tcbs =
      queue_rows qeid pceid enc_ppid platform_manifest tcbs
