-- ===== src/Store/Appraisal/Defaults.antt =====
-- src/store.rs: the default policies of an FMSPC.
use pccs_rs.Common.{
  ℕ, ◌≡◌, refl, sym, true, not, List, [], ◌∷◌, ◌++◌, if◌then◌else◌, is_empty, arith, inl, inr,
}
use pccs_rs.Common.Result.{Result, ok, ◌>>=◌, ◌>>◌, guard, ok_or, Result-cases}
use pccs_rs.Common.Text.{
  Text, text_eq, to_ascii_lowercase, eq_ignore_ascii_case, eq_ignore_ascii_case_iff,
}
use pccs_rs.Errors.{PccsError, no_cache_data}
use pccs_rs.Keys
use pccs_rs.Keys.{make, join_lower}
use pccs_rs.Validate.Body.{AppraisalPolicyReg}
use pccs_rs.Store.Database.{Database, Reliable, RoundTrips}
use pccs_rs.Store.Records.{AppraisalPolicy, Formats}
use pccs_rs.Store.Exec.{read_json, put_json}
use pccs_rs.Store.Reads.Laws.{read_json-put_json}
use pccs_rs.Store.Platform.{upsert}
use pccs_rs.Store.Appraisal.{
  clear_defaults, with_policy, entry_of, get_policies, put_policy, policies_key,
}

-- `filter(|p| p.is_default).map(|p| p.policy)`.
unfoldable pub default_policies : List AppraisalPolicy → List Text
default_policies [] = []
default_policies (p ∷ ps) =
    if p.is_default then p.policy ∷ default_policies ps else default_policies ps

-- `join(",")`.
abbrev pub join : List Text → Text
join [] = []
join (p ∷ []) = p
join (p ∷ q ∷ ps) = p ++ b',' ∷ join (q ∷ ps)

module _ (D : Database) {V : Type 0} (F : Formats V) where
  unfoldable pub get_default_policies : Text → D.State → Result PccsError Text
  unfolding read_json default_policies
  get_default_policies fmspc s = do
    list ← ok_or (read_json D F.appraisal (policies_key fmspc) s) no_cache_data
    let defaults = default_policies list
    guard (not (is_empty defaults)) no_cache_data
    ok (join defaults)

defaults-cleared : (list : List AppraisalPolicy) → default_policies (clear_defaults list) ≡ []
unfolding default_policies clear_defaults
defaults-cleared [] = refl
defaults-cleared (p ∷ ps) = defaults-cleared ps

-- A default that is put into a list without one is the only one.
defaults-upsert :
    (entry : AppraisalPolicy) (list : List AppraisalPolicy)
    → entry.is_default ≡ true
    → default_policies
        (upsert (λ p. text_eq p.id entry.id) (λ _. entry) entry (clear_defaults list))
      ≡ entry.policy ∷ []
unfolding default_policies clear_defaults upsert
defaults-upsert entry [] h = ground (arith, h)
defaults-upsert entry (p ∷ ps) h =
    ground (arith, h, defaults-upsert entry ps h, defaults-cleared ps)

defaults-with_policy :
    (entry : AppraisalPolicy) (list : List AppraisalPolicy)
    → entry.is_default ≡ true
    → default_policies (with_policy entry list) ≡ entry.policy ∷ []
unfolding with_policy
defaults-with_policy entry list h = ground (arith, h, defaults-upsert entry list h)

policies_key_lower :
    (f f' : Text) → to_ascii_lowercase f ≡ to_ascii_lowercase f' → policies_key f ≡ policies_key f'
unfolding Keys.appraisal make join_lower
policies_key_lower f f' e = rw e refl

module _ (sha384 : Text → List ℕ) (D : Database) (R : Reliable D) {V : Type 0} (F : Formats V) where
  put_policy-inv :
      (reg : AppraisalPolicyReg) (s s' : D.State) (id : Text)
      → put_policy sha384 D F reg s ≡ (ok id, s')
      → put_json D F.appraisal
          (policies_key reg.fmspc)
          (with_policy (entry_of sha384 reg) (get_policies sha384 D F reg.fmspc s))
          s
        ≡ (ok tt, s')
  unfolding put_policy
  put_policy-inv reg s s' id h =
      let m =
        put_json D F.appraisal (policies_key reg.fmspc)
          (with_policy (entry_of sha384 reg) (get_policies sha384 D F reg.fmspc s)) s in
      elim (Result-cases m.0) [
        | inl (u, done) ↦ ground arith
        | inr (inl (e, bad)) ↦ absurd (ground arith)
        | inr (inr broken) ↦ absurd (ground arith)
      ]

  -- A policy that is put as the default is from then on the only default of its FMSPC, in any
  -- spelling, whatever the defaults were.
  pub get_default_policies-put_policy :
      (reg : AppraisalPolicyReg) (s s' : D.State) (id fmspc : Text)
      → RoundTrips F.appraisal
      → put_policy sha384 D F reg s ≡ (ok id, s')
      → reg.is_default ≡ true
      → eq_ignore_ascii_case reg.fmspc fmspc ≡ true
      → get_default_policies D F fmspc s' ≡ ok reg.policy
  unfolding get_default_policies entry_of
  get_default_policies-put_policy reg s s' id fmspc trips h default same =
      let list = with_policy (entry_of sha384 reg) (get_policies sha384 D F reg.fmspc s) in
      let read =
        read_json-put_json D R F.appraisal (policies_key reg.fmspc) list s s' trips
          (put_policy-inv reg s s' id h) in
      let key =
        policies_key_lower fmspc reg.fmspc
          (sym ((eq_ignore_ascii_case_iff reg.fmspc fmspc).0 same)) in
      rw
        (
          key,
          read,
          defaults-with_policy (entry_of sha384 reg) (get_policies sha384 D F reg.fmspc s) default,
        )
        refl
