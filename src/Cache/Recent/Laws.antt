-- ===== src/Cache/Recent/Laws.antt =====
-- src/cache.rs: the bounds of the map of recent outcomes, and how long an outcome is reused.
use pccs_rs.Common.{
  ℕ, ◌-◌, ◌<◌, ◌≤◌, ◌≡◌, ◌⊎◌, refl, sym, subst, Bool, true, false, not, ◌&&◌, [], ◌∷◌, some,
  if◌then◌else◌, length, arith, All, Bool-cases, Option-cases, inl, inr,
}
use pccs_rs.Common.Text.{Text, text_eq, text_eq_iff}
use pccs_rs.Errors.{PccsError}
use pccs_rs.Store.Platform.{retain}
use pccs_rs.Cache.Recent.{
  RecentOutcome, failed, Outcomes, get, contains_key, remove, insert, fresh, recent_outcome,
  recent_failure, remember, too_large, is_full, failure_ttl, recent_outcomes_max,
}

abbrev Entry : Type 0
Entry = Text × (ℕ × RecentOutcome)

-- No key occurs twice.
abbrev pub Distinct : Outcomes → Type 0
Distinct [] = Unit
Distinct ((k, v) ∷ map) = (contains_key k map ≡ false) × Distinct map

-- The map has at most 1024 keys, each once, and no body above 64 KiB.
abbrev pub IsBounded : Outcomes → Type 0
IsBounded map =
    (length map ≤ recent_outcomes_max)
    × Distinct map
    × All (λ (e : Entry). too_large e.1.1 ≡ false) map

module _ (keep : Entry → Bool) where
  length-retain : (map : Outcomes) → length (retain keep map) ≤ length map
  unfolding retain
  length-retain [] = omega arith
  length-retain (e ∷ map) = ground (arith, length-retain map)

  contains_key-retain :
      (key : Text) (map : Outcomes)
      → contains_key key map ≡ false
      → contains_key key (retain keep map) ≡ false
  unfolding retain
  contains_key-retain key [] h = refl
  contains_key-retain key (e ∷ map) h = ground (arith, contains_key-retain key map)

  retain-Distinct : (map : Outcomes) → Distinct map → Distinct (retain keep map)
  unfolding retain
  retain-Distinct [] d = tt
  retain-Distinct (e ∷ map) d = elim (Bool-cases (keep e)) [
    | inl kept ↦
        subst (λ b. Distinct (if b then e ∷ retain keep map else retain keep map)) (sym kept)
          (contains_key-retain e.0 map d.0, retain-Distinct map d.1)
    | inr dropped ↦
        subst (λ b. Distinct (if b then e ∷ retain keep map else retain keep map)) (sym dropped)
          (retain-Distinct map d.1)
  ]

  retain-All : (P : Entry → Type 0) (map : Outcomes) → All P map → All P (retain keep map)
  unfolding retain
  retain-All P [] ps = tt
  retain-All P (e ∷ map) ps = elim (Bool-cases (keep e)) [
    | inl kept ↦
        subst (λ b. All P (if b then e ∷ retain keep map else retain keep map)) (sym kept)
          (ps.0, retain-All P map ps.1)
    | inr dropped ↦
        subst (λ b. All P (if b then e ∷ retain keep map else retain keep map)) (sym dropped)
          (retain-All P map ps.1)
  ]

  retain-IsBounded : (map : Outcomes) → IsBounded map → IsBounded (retain keep map)
  retain-IsBounded map (few, once, small) =
      (omega (arith, length-retain map), retain-Distinct map once, retain-All _ map small)

contains_key-remove : (key : Text) (map : Outcomes) → contains_key key (remove key map) ≡ false
unfolding remove retain
contains_key-remove key [] = refl
contains_key-remove key (e ∷ map) = ground (arith, contains_key-remove key map)

-- A key that is in the map leaves room.
length-remove :
    (key : Text) (map : Outcomes)
    → contains_key key map ≡ true
    → length (remove key map) < length map
unfolding remove retain
length-remove key [] h = absurd (ground arith)
length-remove key (e ∷ map) h =
    ground (arith, length-remove key map, length-retain (λ (e : Entry). not (text_eq e.0 key)) map)

insert-IsBounded :
    (key : Text) (at : ℕ) (outcome : RecentOutcome) (map : Outcomes)
    → IsBounded map
    → too_large outcome ≡ false
    → (contains_key key map ≡ true) ⊎ (length map < recent_outcomes_max)
    → IsBounded (insert key (at, outcome) map)
unfolding insert remove
insert-IsBounded key at outcome map w small room =
    let (few, once, all) = retain-IsBounded (λ (e : Entry). not (text_eq e.0 key)) map w in
    let fits : length (remove key map) < recent_outcomes_max = elim room [
      | inl there ↦ omega (arith, length-remove key map there, w.0)
      | inr free ↦ omega (arith, length-retain (λ (e : Entry). not (text_eq e.0 key)) map)
    ] in
    (omega (arith, fits), (contains_key-remove key map, once), (small, all))

-- Whatever outcomes come, the map of recent outcomes keeps at most 1024 keys, each once, and no body
-- above 64 KiB.
pub remember-IsBounded :
    (now : ℕ) (key : Text) (outcome : RecentOutcome) (map : Outcomes)
    → IsBounded map
    → IsBounded (remember now key outcome map)
unfolding remember
remember-IsBounded now key outcome map w = elim (Bool-cases (too_large outcome)) [
  | inl large ↦ subst IsBounded (ground arith) w
  | inr small ↦ elim (Bool-cases (is_full map && not (contains_key key map))) [
    | inr room ↦ subst IsBounded {x = insert key (now, outcome) map} (ground arith) (
        insert-IsBounded key now outcome map w small (elim (Bool-cases (contains_key key map)) [
          | inl there ↦ inl there
          | inr new ↦ inr (ground arith)
        ]))
    | inl full ↦
        let kept = retain (λ (e : Entry). fresh now e.1.0) map in
        let w' = retain-IsBounded (λ (e : Entry). fresh now e.1.0) map w in
        elim (Bool-cases (is_full kept)) [
          | inl still ↦ subst IsBounded (ground arith) w'
          | inr free ↦
              subst IsBounded {x = insert key (now, outcome) kept} (ground arith)
                (insert-IsBounded key now outcome kept w' small (inr (ground arith)))
        ]
  ]
]

pub recent_outcome-IsBounded :
    (now : ℕ) (key : Text) (map : Outcomes)
    → IsBounded map
    → IsBounded (recent_outcome now key map).1
unfolding recent_outcome remove
recent_outcome-IsBounded now key map w = elim (Option-cases (get key map)) [
  | inl out ↦ subst IsBounded (ground arith) w
  | inr ((at, outcome), found) ↦ elim (Bool-cases (fresh now at)) [
    | inl young ↦ subst IsBounded (ground arith) w
    | inr old ↦
        subst IsBounded (ground arith)
          (retain-IsBounded (λ (e : Entry). not (text_eq e.0 key)) map w)
  ]
]

-- While there is room, a failure is reported for its key until the second is over.
pub recent_failure-remember :
    (now later : ℕ) (key : Text) (e : PccsError) (map : Outcomes)
    → length map < recent_outcomes_max
    → later - now < failure_ttl
    → (recent_failure later key (remember now key (failed e) map)).0 ≡ some e
unfolding recent_failure recent_outcome remember insert
recent_failure-remember now later key e map room soon = ground (arith, text_eq_iff key key)
