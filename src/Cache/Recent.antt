-- ===== src/Cache/Recent.antt =====
-- src/cache.rs: the outcomes of recent failed fetches, which waiting requests reuse.
pub mod Laws
use pccs_rs.Common.{
  ℕ, ◌-◌, ◌*◌, Bool, true, false, not, ◌&&◌, ◌||◌, List, [], ◌∷◌, Option, none, some, if◌then◌else◌,
  ltb, leb, length,
}
use pccs_rs.Common.Result.{Result, ok, err, panic}
use pccs_rs.Common.Text.{Text, text_eq}
use pccs_rs.Errors.{PccsError}
use pccs_rs.Store.Platform.{retain}

pub record AmdKdsResponse : Type 0 where
  pub status : ℕ
  pub body : List ℕ
  pub content_type : Option Text
  pub content_disposition : Option Text
  pub retry_after : Option Text

pub data RecentOutcome : Type 0 where
  failed : PccsError → RecentOutcome
  response : AmdKdsResponse → RecentOutcome

-- In nanoseconds, as the times of `Instant` are.
abbrev pub failure_ttl : ℕ
failure_ttl = 1000000000

abbrev pub recent_outcomes_max : ℕ
recent_outcomes_max = 1024

abbrev pub recent_body_max : ℕ
recent_body_max = 64 * 1024

-- The map from keys to the time and the outcome: a `HashMap`, of which the order is not used.
abbrev pub Outcomes : Type 0
Outcomes = List (Text × (ℕ × RecentOutcome))

abbrev pub get : Text → Outcomes → Option (ℕ × RecentOutcome)
get key [] = none
get key ((k, v) ∷ map) = if text_eq k key then some v else get key map

abbrev pub contains_key : Text → Outcomes → Bool
contains_key key [] = false
contains_key key ((k, v) ∷ map) = text_eq k key || contains_key key map

unfoldable pub remove : Text → Outcomes → Outcomes
unfolding retain
remove key map = retain (λ (e : Text × (ℕ × RecentOutcome)). not (text_eq e.0 key)) map

unfoldable pub insert : Text → ℕ × RecentOutcome → Outcomes → Outcomes
unfolding remove
insert key v map = (key, v) ∷ remove key map

abbrev pub fresh : ℕ → ℕ → Bool
fresh now at = ltb (now - at) failure_ttl

-- What is known of a key, and the map without it where it is too old.
unfoldable pub recent_outcome : ℕ → Text → Outcomes → Option RecentOutcome × Outcomes
unfolding remove
recent_outcome now key map = elim (get key map) [
  | none ↦ (none, map)
  | some (at, outcome) ↦ if fresh now at then (some outcome, map) else (none, remove key map)
]

abbrev pub too_large : RecentOutcome → Bool
too_large (failed e) = false
too_large (response r) = ltb recent_body_max (length r.body)

abbrev pub is_full : Outcomes → Bool
is_full map = leb recent_outcomes_max (length map)

unfoldable pub remember : ℕ → Text → RecentOutcome → Outcomes → Outcomes
unfolding insert retain
remember now key outcome map =
    if too_large outcome
    then map
    else if is_full map && not (contains_key key map)
    then (let kept = retain (λ (e : Text × (ℕ × RecentOutcome)). fresh now e.1.0) map in
        if is_full kept then kept else insert key (now, outcome) kept)
    else insert key (now, outcome) map

-- A failed fetch is remembered and passed on.
unfoldable pub note : {A : Type 0} → ℕ → Text → Result PccsError A → Outcomes → Outcomes
unfolding remember
note now key (ok a) map = map
note now key panic map = map
note now key (err e) map = remember now key (failed e) map

-- The error or the response of the last fetch.
unfoldable pub recent_failure : ℕ → Text → Outcomes → Option PccsError × Outcomes
unfolding recent_outcome
recent_failure now key map =
    let (outcome, rest) = recent_outcome now key map in
    elim outcome [
      | none ↦ (none, rest)
      | some o ↦ elim o [ failed e ↦ (some e, rest) | response r ↦ (none, rest) ]
    ]

unfoldable pub recent_non200 : ℕ → Text → Outcomes → Option AmdKdsResponse × Outcomes
unfolding recent_outcome
recent_non200 now key map =
    let (outcome, rest) = recent_outcome now key map in
    elim outcome [
      | none ↦ (none, rest)
      | some o ↦ elim o [ failed e ↦ (none, rest) | response r ↦ (some r, rest) ]
    ]
