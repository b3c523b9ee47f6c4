-- ===== src/Store/Appraisal.antt =====
-- src/store.rs: the appraisal policies of an FMSPC.
pub mod Defaults
use pccs_rs.Common.{
  ℕ, ◌/◌, ◌%◌, Bool, true, false, List, [], ◌∷◌, ◌++◌, map, Option, none, some, if◌then◌else◌,
  is_empty,
}
use pccs_rs.Common.Text.{Text, text_eq, to_ascii_uppercase}
use pccs_rs.Common.Json.{JsonApi}
use pccs_rs.Errors.{PccsError}
use pccs_rs.Hash.{lower_digit}
use pccs_rs.Keys
use pccs_rs.Validate.Body.{AppraisalPolicyReg, appraisal_policy}
use pccs_rs.Store.Database.{Database, Codec}
use pccs_rs.Store.Records.{AppraisalPolicy, Formats}
use pccs_rs.Store.Exec.{Exec, pure, lift, gets, ◌>>=◌, ◌>>◌, digested, read_json, put_json}
use pccs_rs.Store.Platform.{upsert}

abbrev encode_lower : List ℕ → Text
encode_lower [] = []
encode_lower (b ∷ bs) = lower_digit (b / 16) ∷ lower_digit (b % 16) ∷ encode_lower bs

abbrev or_default : Option (List AppraisalPolicy) → List AppraisalPolicy
or_default none = []
or_default (some list) = list

-- `for p in policies.iter_mut() { p.is_default = false }`.
unfoldable pub clear_defaults : List AppraisalPolicy → List AppraisalPolicy
clear_defaults list = map (λ (p : AppraisalPolicy). record p { is_default = Bool.false }) list

-- The list with the entry in it, the only default if it is one.
unfoldable pub with_policy : AppraisalPolicy → List AppraisalPolicy → List AppraisalPolicy
unfolding clear_defaults upsert
with_policy entry list =
    let cleared = if entry.is_default then clear_defaults list else list in
    upsert (λ p. text_eq p.id entry.id) (λ _. entry) entry cleared

abbrev pub policies_key : Text → Text
policies_key fmspc = digested (Keys.appraisal fmspc)

-- `sha384` is the digest of the package sha2.
module _ (sha384 : Text → List ℕ) where
  unfoldable pub sha384_hex : Text → Text
  unfolding lower_digit
  sha384_hex s = encode_lower (sha384 s)

  unfoldable pub entry_of : AppraisalPolicyReg → AppraisalPolicy
  unfolding sha384_hex
  entry_of reg = record {
    id = sha384_hex reg.policy;
    fmspc = reg.fmspc;
    is_default = reg.is_default;
    policy = reg.policy;
    policy_type = reg.policy_type;
  }

  module _ (D : Database) {V : Type 0} (F : Formats V) where
    open D use {State}

    unfoldable pub get_policies : Text → State → List AppraisalPolicy
    unfolding read_json
    get_policies fmspc s = or_default (read_json D F.appraisal (policies_key fmspc) s)

    -- What follows the validation of the request.
    unfoldable pub put_policy : AppraisalPolicyReg → Exec State Text
    unfolding entry_of with_policy get_policies put_json
    put_policy reg = do
      list ← gets (get_policies reg.fmspc)
      put_json D F.appraisal (policies_key reg.fmspc) (with_policy (entry_of reg) list)
      pure (entry_of reg).id

    unfoldable pub put_appraisal_policy :
        (J : JsonApi) → (Text → Option J.Value) → (Text → Option Text) → J.Value → Exec State Text
    unfolding put_policy
    put_appraisal_policy J from_slice decode_url body = do
      reg ← lift (appraisal_policy J from_slice decode_url body)
      put_policy reg

    -- The seed file's path; an error of the write is dropped.
    unfoldable pub upsert_appraisal_policy_raw : Text → Text → Bool → State → State
    unfolding put_policy
    upsert_appraisal_policy_raw fmspc policy is_default s =
        (put_policy
          (record {
            is_default = is_default;
            fmspc = to_ascii_uppercase fmspc;
            policy = policy;
            policy_type = 0;
          })
          s).1
