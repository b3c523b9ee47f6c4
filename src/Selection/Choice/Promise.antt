-- ===== src/Selection/Choice/Promise.antt =====
-- src/selection.rs: the outcomes of `select_best_pck_cert`.
use mathlib.Core.List.Perm
use pccs_rs.Common.{
  ℕ, ◌<◌, ◌≡◌, ◌≢◌, ◌⊎◌, ◌↔◌, ◌∙◌, refl, sym, subst, inl, inr, false, List, [], ◌∷◌, ◌++◌, Option,
  none, some, arith, length, get_elem?, All, All-Perm, In, All_In, is_empty, Bool-cases,
  get_elem?-In, In-append, All-of_In,
}
use pccs_rs.Common.Result.{Result, ok, err, panic, ◌>>=◌, ok_or, >>=-eq-ok, collect, Result-cases}
use pccs_rs.Common.Result.Laws.{ok-injective, collect-All, collect-In}
use pccs_rs.Common.Text.{Text, Texts-set, codes, to_ascii_uppercase}
use pccs_rs.Common.Json.{JsonApi}
use pccs_rs.Selection.Error.{SelectionError, no_certificate_found, empty_tcb_levels}
use pccs_rs.Selection.Tcb.{Tcb, compare, at_least, from_hex}
use pccs_rs.Selection.Tcb.Order.{AllLe, compare-at_least_iff}
use pccs_rs.Selection.Input.{ParsedCert, parse_pck_certs, parse_one, validate_input}
use pccs_rs.Selection.Buckets.{Bucket, create_buckets, level_bucket, v8_sort_desc, get_as}
use pccs_rs.Selection.Buckets.Sorting.{v8_sort_desc-perm}
use pccs_rs.Selection.Choice.{select_from_buckets, place_all, select_best_pck_cert}
use pccs_rs.Selection.Choice.Placement.{slots, place_all_total}
use pccs_rs.Selection.Choice.NoPanic.{
  from_hex-ne-panic, parse_pck_certs-ne-panic, validate_input-ne-panic, create_buckets-ne-panic,
}
use pccs_rs.Selection.Choice.Best.{NoneFits, select_from_buckets_cases}

-- The steps of the selection before the search, all of them successful.
module _ (J : JsonApi) (decode : Text → Option (List ℕ)) (raw_cpusvn raw_pcesvn pce_id : Text)
    (certs : List (Text × Text)) (tcb_info : J.Value) where
  pub record Prepared (parsed : List ParsedCert) (buckets : List Bucket) (raw : Tcb) : Type 0 where
    pub nonempty : is_empty certs ≡ false
    pub parsing : parse_pck_certs decode certs ≡ ok parsed
    pub validation : validate_input J pce_id parsed tcb_info ≡ ok tt
    pub bucketing : create_buckets J tcb_info ≡ ok buckets
    pub reading : from_hex raw_cpusvn raw_pcesvn ≡ ok raw

-- The bucket of a level starts out empty.
level_bucket-fresh :
    (J : JsonApi) (level : J.Value) (b : Bucket) → level_bucket J level ≡ ok b → b.certs ≡ []
unfolding level_bucket
level_bucket-fresh J level b e = ground arith

slots_of_empty : (bs : List Bucket) → All (λ b. b.certs ≡ []) bs → slots bs ≡ []
slots_of_empty [] h = refl
slots_of_empty (b ∷ bs) h = rw (h.0, slots_of_empty bs h.1) refl

certs-empty-prop : (b : Bucket) → IsProp (b.certs ≡ [])
certs-empty-prop b = Texts-set b.certs []

create_buckets-fresh :
    (J : JsonApi) (tcb_info : J.Value) (bs : List Bucket)
    → create_buckets J tcb_info ≡ ok bs
    → slots bs ≡ []
unfolding create_buckets
create_buckets-fresh J tcb_info bs e =
    let (levels, found, e') =
      >>=-eq-ok (ok_or (get_as J J.as_array tcb_info (codes "tcbLevels")) empty_tcb_levels)
        (λ levels. collect (level_bucket J) levels >>= v8_sort_desc) e in
    let (made, collected, e'') = >>=-eq-ok (collect (level_bucket J) levels) v8_sort_desc e' in
    let (out, sorted, perm, len) = v8_sort_desc-perm made in
    let same : out ≡ bs = ok-injective (sym sorted ∙ e'') in
    let empty =
      collect-All (level_bucket J) (λ b. b.certs ≡ []) (level_bucket-fresh J) levels made
        collected in
    rw (← same)
      (slots_of_empty out (All-Perm (λ b. b.certs ≡ []) certs-empty-prop (Perm.symm perm) empty))

In-slots :
    (j : ℕ) (bs : List Bucket) (b : Bucket)
    → In j (slots (bs ++ b ∷ [])) ↔ (In j (slots bs) ⊎ In j b.certs)
In-slots j [] b = ground (arith, In-append j b.certs [])
In-slots j (c ∷ bs) b = ground (
  arith,
  In-append j c.certs (slots (bs ++ b ∷ [])),
  In-append j c.certs (slots bs),
  In-slots j bs b,
)

-- The selection, once its inputs are parsed, validated and sorted: it ends in one of two ways.
module _ (J : JsonApi) (decode : Text → Option (List ℕ)) (raw_cpusvn raw_pcesvn pce_id : Text)
    (certs : List (Text × Text)) (tcb_info : J.Value) (parsed : List ParsedCert)
    (buckets : List Bucket) (raw : Tcb) where
  -- A certificate of the pool that the raw TCB dominates in every component.
  abbrev pub Reaches : ParsedCert → Type 0
  Reaches c = In c parsed × AllLe c.tcb.components raw.components

  abbrev Ready : Type 0
  Ready = Prepared J decode raw_cpusvn raw_pcesvn pce_id certs tcb_info parsed buckets raw

  abbrev result : Result SelectionError (Text × Text)
  result = select_best_pck_cert J decode raw_cpusvn raw_pcesvn pce_id certs tcb_info

  abbrev searched : List Bucket → List ℕ → List Bucket
  searched placed rest = placed ++ record { tcb = none; certs = rest } ∷ []

  result_lem :
      Ready
      → (placed : List Bucket) (rest : List ℕ)
      → place_all 0 parsed parsed buckets [] ≡ ok (placed, rest)
      → result ≡ (
          select_from_buckets raw parsed (searched placed rest) >>= λ best.
          ok (best.tcbm, best.cert))
  unfolding select_best_pck_cert
  result_lem p placed rest loop =
      rw (p.nonempty, p.parsing, p.validation, p.bucketing, loop, p.reading) refl

  none-Reaches :
      (ids : List ℕ)
      → ((j : ℕ) → j < length parsed → In j ids)
      → NoneFits raw parsed ids
      → (c : ParsedCert) → ¬ Reaches c
  none-Reaches ids all_in out c (m, below) =
      let (j, found, low) = get_elem?-In parsed c m in
      let no : at_least (compare raw c.tcb) ≡ false =
        All_In
          (λ j.
            (d : ParsedCert) → get_elem? parsed j ≡ some d → at_least (compare raw d.tcb) ≡ false)
          ids j out (all_in j low) c found in
      cc (no, (compare-at_least_iff raw c.tcb).1 below)

  -- If the pool parses, the TCB Info is accepted and the raw TCB can be read, then the selection
  -- either returns the tcbm and the PEM text of a certificate of the pool whose TCB the raw TCB
  -- dominates, or it reports that there is none, and then the pool holds no such certificate.
  pub select_best_pck_cert_cases :
      Prepared J decode raw_cpusvn raw_pcesvn pce_id certs tcb_info parsed buckets raw
      → let r = select_best_pck_cert J decode raw_cpusvn raw_pcesvn pce_id certs tcb_info in
        ((c : ParsedCert) × (r ≡ ok (c.tcbm, c.cert)) × Reaches c)
        ⊎ ((r ≡ err no_certificate_found) × ((c : ParsedCert) → ¬ Reaches c))
  select_best_pck_cert_cases p =
      let empty = create_buckets-fresh J tcb_info buckets p.bucketing in
      let (placed, rest, loop, same) =
        place_all_total 0 parsed parsed buckets [] (omega arith) (rw empty tt) in
      let bs = searched placed rest in
      let none_before : (j : ℕ) → ¬ In j (slots buckets) = λ j m. subst (In j) empty m in
      let iff : (j : ℕ) → In j (slots bs) ↔ (j < length parsed) = λ j.
        ground
          (arith, In-slots j placed (record { tcb = none; certs = rest }), same j, none_before j) in
      let run = result_lem p placed rest loop in
      let valid = All-of_In (λ i. i < length parsed) (slots bs) (λ j m. (iff j).0 m) in
      elim (select_from_buckets_cases raw parsed bs valid) [
        | inl (c, chosen, (member, fit)) ↦
            inl (c, run ∙ rw chosen refl, (member, (compare-at_least_iff raw c.tcb).0 fit))
        | inr (failed, out) ↦
            inr (run ∙ rw failed refl, none-Reaches (slots bs) (λ j low. (iff j).1 low) out)
      ]

parse_one-fields :
    (decode : Text → Option (List ℕ)) (tcbm pem : Text) (c : ParsedCert)
    → parse_one decode (tcbm, pem) ≡ ok c
    → (c.tcbm ≡ to_ascii_uppercase tcbm) × (c.cert ≡ pem)
unfolding parse_one
parse_one-fields decode tcbm pem c e = ground arith

-- The selection of any request: its steps all succeed, or it reports an error.
module _ (J : JsonApi) (decode : Text → Option (List ℕ)) (raw_cpusvn raw_pcesvn pce_id : Text)
    (certs : List (Text × Text)) (tcb_info : J.Value) where
  abbrev Outcome : Type 0
  Outcome =
      ((parsed : List ParsedCert) × (buckets : List Bucket) × (raw : Tcb) × Prepared J decode
          raw_cpusvn raw_pcesvn pce_id certs tcb_info parsed buckets raw)
      ⊎ ((e : SelectionError) × (select_best_pck_cert J decode raw_cpusvn raw_pcesvn pce_id certs
              tcb_info
            ≡ err e))

  module _ (full : is_empty certs ≡ false) (parsed : List ParsedCert)
      (parsing : parse_pck_certs decode certs ≡ ok parsed) where
    with_buckets :
        validate_input J pce_id parsed tcb_info ≡ ok tt
        → (buckets : List Bucket) → create_buckets J tcb_info ≡ ok buckets
        → Outcome
    unfolding select_best_pck_cert
    with_buckets valid buckets made =
        let empty = create_buckets-fresh J tcb_info buckets made in
        let (placed, rest, loop, same) =
          place_all_total 0 parsed parsed buckets [] (omega arith) (rw empty tt) in
        elim (Result-cases (from_hex raw_cpusvn raw_pcesvn)) [
          | inl (raw, read) ↦ inl (
            parsed,
            buckets,
            raw,
            record {
              nonempty = full;
              parsing = parsing;
              validation = valid;
              bucketing = made;
              reading = read;
            },
          )
          | inr (inl (e, bad)) ↦ inr (e, rw (full, parsing, valid, made, loop, bad) refl)
          | inr (inr broken) ↦ absurd (from_hex-ne-panic _ _ broken)
        ]

    with_certs : Outcome
    unfolding select_best_pck_cert
    with_certs = elim (Result-cases (validate_input J pce_id parsed tcb_info)) [
      | inl (_, valid) ↦ elim (Result-cases (create_buckets J tcb_info)) [
        | inl (buckets, made) ↦ with_buckets valid buckets made
        | inr (inl (e, bad)) ↦ inr (e, rw (full, parsing, valid, bad) refl)
        | inr (inr broken) ↦ absurd (create_buckets-ne-panic J tcb_info broken)
      ]
      | inr (inl (e, bad)) ↦ inr (e, rw (full, parsing, bad) refl)
      | inr (inr broken) ↦ absurd (validate_input-ne-panic J pce_id parsed tcb_info broken)
    ]

  outcome : Outcome
  unfolding select_best_pck_cert
  outcome = elim (Bool-cases (is_empty certs)) [
    | inl empty ↦ inr (no_certificate_found, rw empty refl)
    | inr full ↦ elim (Result-cases (parse_pck_certs decode certs)) [
      | inl (parsed, parsing) ↦ with_certs full parsed parsing
      | inr (inl (e, bad)) ↦ inr (e, rw (full, bad) refl)
      | inr (inr broken) ↦ absurd (parse_pck_certs-ne-panic decode certs broken)
    ]
  ]

  -- No request, certificate pool or TCB Info makes the selection panic, in a build where `raw + 1`
  -- wraps: every slice that `tlvs` takes of a certificate and every index into the buckets and the
  -- certificates is in range, and every loop ends.
  pub select_best_pck_cert-ne-panic :
      select_best_pck_cert J decode raw_cpusvn raw_pcesvn pce_id certs tcb_info ≢ panic
  select_best_pck_cert-ne-panic = λ broken. elim outcome [
    | inr (e, failed) ↦ cc
    | inl (parsed, buckets, raw, p) ↦
        elim (select_best_pck_cert_cases J decode raw_cpusvn raw_pcesvn pce_id certs tcb_info parsed
          buckets raw p) [ inl (c, found, fit) ↦ cc | inr (failed, out) ↦ cc ]
  ]

  -- The certificate that a successful selection rests on.
  pub record Selected (tcbm pem : Text) : Type 0 where
    pub given_tcbm : Text
    pub given : In (given_tcbm, pem) certs
    pub upper : tcbm ≡ to_ascii_uppercase given_tcbm
    pub cert : ParsedCert
    pub parsed : parse_one decode (given_tcbm, pem) ≡ ok cert
    pub raw : Tcb
    pub read : from_hex raw_cpusvn raw_pcesvn ≡ ok raw
    pub below : AllLe cert.tcb.components raw.components

  Selected-of :
      (parsed : List ParsedCert) (c : ParsedCert) (raw : Tcb)
      → parse_pck_certs decode certs ≡ ok parsed
      → In c parsed
      → from_hex raw_cpusvn raw_pcesvn ≡ ok raw
      → AllLe c.tcb.components raw.components
      → Selected c.tcbm c.cert
  unfolding parse_pck_certs
  Selected-of parsed c raw parsing member read below =
      let ((tcbm, pem), given, one) = collect-In (parse_one decode) certs parsed c parsing member in
      let (upper, same) = parse_one-fields decode tcbm pem c one in
      record {
        given_tcbm = tcbm;
        given = subst (λ q. In (tcbm, q) certs) (sym same) given;
        upper = upper;
        cert = c;
        parsed = subst (λ q. parse_one decode (tcbm, q) ≡ ok c) (sym same) one;
        raw = raw;
        read = read;
        below = below;
      }

  -- A certificate that is returned is one of the pool, with its tcbm in upper case, and the TCB read
  -- from it is in no component above the raw TCB of the request.
  pub select_best_pck_cert_sound :
      (tcbm pem : Text)
      → select_best_pck_cert J decode raw_cpusvn raw_pcesvn pce_id certs tcb_info ≡ ok (tcbm, pem)
      → Selected tcbm pem
  select_best_pck_cert_sound tcbm pem h = elim outcome [
    | inr (e, failed) ↦ absurd (cc)
    | inl (parsed, buckets, raw, p) ↦
        elim (select_best_pck_cert_cases J decode raw_cpusvn raw_pcesvn pce_id certs tcb_info parsed
          buckets raw p) [
            | inl (c, found, (member, fit)) ↦
                let same : ◌≡◌ {A = Text × Text} (c.tcbm, c.cert) (tcbm, pem) =
                  ok-injective (sym found ∙ h) in
                subst (λ (r : Text × Text). Selected r.0 r.1) same
                  (Selected-of parsed c raw p.parsing member p.reading fit)
            | inr (failed, out) ↦ absurd (cc)
          ]
  ]
