-- ===== src/Selection/Choice/Placement.antt =====
-- src/selection.rs: the placement of the certificates in the buckets.
use pccs_rs.Common.{
  ℕ, suc, ◌+◌, ◌≤◌, ◌<◌, ◌≡◌, ◌≢◌, ◌⊎◌, ◌↔◌, refl, subst, inl, inr, Bool, true, false, List, [],
  ◌∷◌, ◌++◌, Option, none, some, arith, if◌then◌else◌, length, take, drop, All, In, All_In,
  Bool-cases, Option-cases, get_elem?_lt, take-append-drop, All-append_inv, All-of_In, In-append,
}
use pccs_rs.Common.Result.{ok, panic, Result-cases}
use pccs_rs.Common.Int.{is_nonneg}
use pccs_rs.Selection.Tcb.{Tcb, compare}
use pccs_rs.Selection.Input.{ParsedCert}
use pccs_rs.Selection.Buckets.{Bucket}
use pccs_rs.Selection.Choice.{find_insert_index, insert_at, add_to_bucket, fits, place, place_all}

-- The indices that the buckets hold.
abbrev pub slots : List Bucket → List ℕ
slots [] = []
slots (b ∷ bs) = b.certs ++ slots bs

compare-ne-panic : (a b : Tcb) → compare a b ≢ panic
unfolding compare
compare-ne-panic a b = ground arith

abbrev AtMost : ℕ → Option ℕ → Type 0
AtMost n none = Unit
AtMost n (some p) = p ≤ n

AtMost-mono : (m n : ℕ) (o : Option ℕ) → m ≤ n → AtMost m o → AtMost n o
AtMost-mono m n none h k = tt
AtMost-mono m n (some p) h k = omega arith

find_insert_index_total :
    (k : ℕ) (certs : List ℕ) (parsed : List ParsedCert) (cert : ParsedCert)
    → All (λ i. i < length parsed) certs
    → (o : Option ℕ) × (find_insert_index k certs parsed cert ≡ ok o) × AtMost (k + length certs) o
unfolding find_insert_index
find_insert_index_total k [] parsed cert h = (none, refl, tt)
find_insert_index_total k (slot ∷ certs) parsed cert h =
    let (other, found) = get_elem?_lt parsed slot h.0 in
    let (here, eh, bh) = find_insert_index_total k certs parsed cert h.1 in
    let (next, en, bn) = find_insert_index_total (k + 1) certs parsed cert h.1 in
    elim (Result-cases (compare cert.tcb other.tcb)) [
      | inl (n, compared) ↦ elim (Bool-cases (is_nonneg n)) [
        | inl up ↦ (some k, ground arith, omega arith)
        | inr down ↦ (next, ground arith, AtMost-mono _ _ next (omega arith) bn)
      ]
      | inr (inl (e, apart)) ↦ (here, ground arith, AtMost-mono _ _ here (omega arith) bh)
      | inr (inr broken) ↦ absurd (compare-ne-panic _ _ broken)
    ]

-- An insertion at an index within the list adds that one element.
insert_at_total :
    (p i : ℕ) (certs : List ℕ)
    → p ≤ length certs
    → (out : List ℕ) × (insert_at p i certs ≡ ok out)
      × ((j : ℕ) → In j out ↔ (In j certs ⊎ (j ≡ i)))
unfolding insert_at
insert_at_total p i certs h = (
  take p certs ++ i ∷ drop p certs,
  ground arith,
  λ j.
      let whole : (In j (take p certs ++ drop p certs)) ↔ In j certs =
        rw (take-append-drop p certs) ((λ m. m), (λ m. m)) in
      ground (
        arith,
        In-append j (take p certs) (i ∷ drop p certs),
        In-append j (take p certs) (drop p certs),
        whole,
      ),
)

add_to_bucket_total :
    (i : ℕ) (parsed : List ParsedCert) (cert : ParsedCert) (b : Bucket)
    → All (λ i. i < length parsed) b.certs
    → (b' : Bucket) × (add_to_bucket i parsed cert b ≡ ok b')
      × ((j : ℕ) → In j b'.certs ↔ (In j b.certs ⊎ (j ≡ i)))
unfolding add_to_bucket
add_to_bucket_total i parsed cert b h =
    let (o, found, bound) = find_insert_index_total 0 b.certs parsed cert h in
    elim (Option-cases o) [
      | inl e ↦ (
        record b { certs = b.certs ++ i ∷ [] },
        rw (found, e) refl,
        λ j. ground (arith, In-append j b.certs (i ∷ [])),
      )
      | inr (p, e) ↦
          let low : p ≤ 0 + length b.certs = subst (AtMost (0 + length b.certs)) e bound in
          let (out, inserted, same) = insert_at_total p i b.certs (omega arith) in
          (record b { certs = out }, rw (found, e, inserted) refl, same)
    ]

-- The loop over the buckets puts the certificate into one of them, if it says so, and moves nothing.
place_total :
    (i : ℕ) (parsed : List ParsedCert) (cert : ParsedCert) (bs : List Bucket)
    → All (λ i. i < length parsed) (slots bs)
    → (bs' : List Bucket) × (added : Bool) × (place i parsed cert bs ≡ ok (bs', added))
      × ((j : ℕ) → In j (slots bs') ↔ (In j (slots bs) ⊎ ((added ≡ true) × (j ≡ i))))
unfolding place
place_total i parsed cert [] h = ([], false, refl, λ j. ground arith)
place_total i parsed cert (b ∷ bs) h =
    let (here, rest) = All-append_inv (λ i. i < length parsed) b.certs (slots bs) h in
    elim (Bool-cases (fits cert b)) [
      | inl fit ↦
          let (b', added, same) = add_to_bucket_total i parsed cert b here in
          (
            b' ∷ bs,
            true,
            rw (fit, added) refl,
            λ j.
                ground
                  (arith, In-append j b.certs (slots bs), In-append j b'.certs (slots bs), same j),
          )
      | inr no_fit ↦
          let (bs', was_added, placed, same) = place_total i parsed cert bs rest in
          (
            b ∷ bs',
            was_added,
            rw (no_fit, placed) refl,
            λ j.
                ground
                  (arith, In-append j b.certs (slots bs), In-append j b.certs (slots bs'), same j),
          )
    ]

-- All indices that are somewhere: in a bucket or in `not_matching`.
abbrev pub Placed : ℕ → List Bucket → List ℕ → Type 0
Placed j bs not_matching = In j (slots bs) ⊎ In j not_matching

Placed-after :
    (added : Bool) (i j : ℕ) (bs bs1 : List Bucket) (nm : List ℕ)
    → In j (slots bs1) ↔ (In j (slots bs) ⊎ ((added ≡ true) × (j ≡ i)))
    → Placed j bs1 (if added then nm else nm ++ i ∷ []) ↔ (Placed j bs nm ⊎ (j ≡ i))
Placed-after true i j bs bs1 nm same = ground arith
Placed-after false i j bs bs1 nm same = ground (arith, In-append j nm (i ∷ []))

regroup :
    {P Q R : Type 0} (i n j : ℕ)
    → P ↔ (Q ⊎ ((i + 1 ≤ j) × (j < i + 1 + n)))
    → Q ↔ (R ⊎ (j ≡ i))
    → P ↔ (R ⊎ ((i ≤ j) × (j < i + suc n)))
regroup i n j h k = ground arith

-- Where the certificates left fit into the pool from the index on, and the buckets hold indices of the
-- pool, the loop ends without a panic. After it the indices in the buckets and in `not_matching` are those from before and those of
-- the certificates that the loop went through.
pub place_all_total :
    (i : ℕ) (parsed certs : List ParsedCert) (bs : List Bucket) (nm : List ℕ)
    → i + length certs ≤ length parsed
    → All (λ i. i < length parsed) (slots bs)
    → (bs' : List Bucket) × (nm' : List ℕ) × (place_all i parsed certs bs nm ≡ ok (bs', nm'))
      × ((j : ℕ) → Placed j bs' nm' ↔ (Placed j bs nm ⊎ ((i ≤ j) × (j < i + length certs))))
unfolding place_all
place_all_total i parsed [] bs nm h valid = (bs, nm, refl, λ j. ground arith)
place_all_total i parsed (cert ∷ certs) bs nm h valid =
    let (bs1, added, placed, same) = place_total i parsed cert bs valid in
    let nm1 = if added then nm else nm ++ i ∷ [] in
    let valid1 : All (λ i. i < length parsed) (slots bs1) =
      All-of_In (λ i. i < length parsed) (slots bs1)
        (λ j m. ground (
          arith,
          (same j).0 m,
          λ (k : In j (slots bs)). All_In (λ i. i < length parsed) (slots bs) j valid k,
        )) in
    let (bs2, nm2, rest, same') =
      place_all_total (i + 1) parsed certs bs1 nm1 (omega arith) valid1 in
    (
      bs2,
      nm2,
      rw (placed, rest) refl,
      λ j. regroup i (length certs) j (same' j) (Placed-after added i j bs bs1 nm (same j)),
    )
