-- ===== src/Keys/Parts.antt =====
-- src/keys.rs: the text that is digested for a key, and the parts of the key.
use pccs_rs.Common.{
  ℕ, suc, ◌+◌, ◌≡◌, ◌≢◌, ◌↔◌, ◌∙◌, sym, refl, ap, ap₂, List, [], ◌∷◌, ◌++◌, map, arith, length, All,
  ◌==◌, if◌then◌else◌,
}
use pccs_rs.Common.Text.{Text, to_lower, to_ascii_lowercase}
use pccs_rs.Keys.{join, join_lower}

-- No / in a part.
abbrev pub NoSlash : Text → Type 0
NoSlash = All (λ b. b ≢ b'/')

slashes : Text → ℕ
slashes [] = 0
slashes (b ∷ s) = if b == b'/' then suc (slashes s) else slashes s

slashes-append : (s t : Text) → slashes (s ++ t) ≡ slashes s + slashes t
unfolding slashes
slashes-append [] t = omega arith
slashes-append (b ∷ s) t = ground (arith, slashes-append s t)

slashes-NoSlash : (s : Text) → NoSlash s → slashes s ≡ 0
unfolding slashes
slashes-NoSlash [] h = refl
slashes-NoSlash (b ∷ s) h = ground (arith, h.0, slashes-NoSlash s h.1)

slashes-join :
    (p : Text) (ps : List Text) → All NoSlash ps → slashes (join (p ∷ ps)) ≡ slashes p + length ps
unfolding slashes
slashes-join p [] h = omega arith
slashes-join p (q ∷ ps) h =
    omega
      (arith, slashes-append p (b'/' ∷ join (q ∷ ps)), slashes-join q ps h.1, slashes-NoSlash q h.0)

-- Two texts are cut at the same / if as many stand behind it.
cut_same :
    (p q s t : Text) → slashes s ≡ slashes t → p ++ b'/' ∷ s ≡ q ++ b'/' ∷ t → (p ≡ q) × (s ≡ t)
unfolding slashes
cut_same [] [] s t same e = (refl, cc)
cut_same [] (b ∷ q) s t same e = absurd (ground (arith, slashes-append q (b'/' ∷ t)))
cut_same (a ∷ p) [] s t same e = absurd (ground (arith, slashes-append p (b'/' ∷ s)))
cut_same (a ∷ p) (b ∷ q) s t same e =
    let (front, back) = cut_same p q s t same (cc) in (ap₂ (λ x xs. x ∷ xs) (cc) front, back)

join-injective :
    (p q : Text) (ps qs : List Text)
    → length ps ≡ length qs
    → All NoSlash ps
    → All NoSlash qs
    → join (p ∷ ps) ≡ join (q ∷ qs)
    → (p ∷ ps) ≡ (q ∷ qs)
join-injective p q [] [] len h k e = ap (λ x. x ∷ []) e
join-injective p q [] (y ∷ qs) len h k e = absurd (omega arith)
join-injective p q (x ∷ ps) [] len h k e = absurd (omega arith)
join-injective p q (x ∷ ps) (y ∷ qs) len h k e =
    let count : slashes (join (x ∷ ps)) ≡ slashes (join (y ∷ qs)) = omega (
      arith,
      slashes-join x ps h.1,
      slashes-join y qs k.1,
      slashes-NoSlash x h.0,
      slashes-NoSlash y k.0,
    ) in
    let (front, back) = cut_same p q (join (x ∷ ps)) (join (y ∷ qs)) count e in
    ap₂ (λ r rs. r ∷ rs) front (join-injective x y ps qs (omega arith) h.1 k.1 back)

to_lower-ne-slash : (b : ℕ) → b ≢ b'/' → to_lower b ≢ b'/'
unfolding to_lower
to_lower-ne-slash b h = ground arith

lower-NoSlash : (s : Text) → NoSlash s → NoSlash (to_ascii_lowercase s)
lower-NoSlash [] h = tt
lower-NoSlash (b ∷ s) h = (to_lower-ne-slash b h.0, lower-NoSlash s h.1)

lowers-NoSlash : (ps : List Text) → All NoSlash ps → All NoSlash (map to_ascii_lowercase ps)
lowers-NoSlash [] h = tt
lowers-NoSlash (p ∷ ps) h = (lower-NoSlash p h.0, lowers-NoSlash ps h.1)

length-lowers : (ps : List Text) → length (map to_ascii_lowercase ps) ≡ length ps
length-lowers [] = refl
length-lowers (p ∷ ps) = omega (arith, length-lowers ps)

-- Of as many parts, all but the first with no / in them, the same text is digested for a key exactly if
-- the parts are the same up to the case of their letters.
pub join_lower_iff :
    (p q : Text) (ps qs : List Text)
    → length ps ≡ length qs
    → All NoSlash ps
    → All NoSlash qs
    → (join_lower (p ∷ ps) ≡ join_lower (q ∷ qs))
      ↔ (map to_ascii_lowercase (p ∷ ps) ≡ map to_ascii_lowercase (q ∷ qs))
unfolding join_lower
join_lower_iff p q ps qs len h k = (
  join-injective (to_ascii_lowercase p) (to_ascii_lowercase q) (map to_ascii_lowercase ps)
      (map to_ascii_lowercase qs) (length-lowers ps ∙ len ∙ sym (length-lowers qs))
      (lowers-NoSlash ps h) (lowers-NoSlash qs k),
  ap join,
)
