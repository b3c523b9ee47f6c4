-- ===== src/Cache/Canonical/Query.antt =====
-- src/cache.rs: the form of the paths and queries that go upstream.
use pccs_rs.Common.{
  ◌≡◌, refl, sym, ap, ◌∙◌, subst, true, not, ◌&&◌, List, [], ◌∷◌, ◌++◌, map, none, some, Option,
  arith, All, Option-cases, inl, inr, is_empty,
}
use mathlib.Core.List.{append-nil, append_assoc, Perm}
use mathlib.Core.List.Perm
use pccs_rs.Common.Result.{ok, guard, ok_or, >>=-eq-ok}
use pccs_rs.Common.Result.Laws.{guard-eq-ok, ok-injective}
use pccs_rs.Common.Text.{Text, codes}
use pccs_rs.Errors.{invalid_req}
use pccs_rs.Validate.Strings.{nonempty, split, strip_prefix}
use pccs_rs.Cache.Canonical.{
  read_pairs, key_value, has_text, has_key, is_spl_value, sort_pairs, insert_pair, encode_pairs,
  encoded_query, canonicalize_query, canonicalize_nvidia_rim, is_rim_id, contains, split_path_query,
}
use pccs_rs.Cache.Canonical.Sorting.{
  Strict, Fresh, Fresh-snoc, sort_pairs-All, sort_pairs-Strict, sort_pairs-Perm,
}

-- An allowed name with a value of one to three digits below 256.
abbrev pub Allowed : List Text → Text × Text → Type 0
Allowed allowed kv = (has_text kv.0 allowed ≡ true) × (is_spl_value kv.1 ≡ true)

All-snoc :
    (P : Text × Text → Type 0) (xs : List (Text × Text)) (x : Text × Text)
    → All P xs
    → P x
    → All P (xs ++ x ∷ [])
All-snoc P [] x ps p = (p, tt)
All-snoc P (y ∷ ys) x ps p = (ps.0, All-snoc P ys x ps.1 p)

read_pairs_sound :
    (allowed : List Text) (seen : List (Text × Text)) (pairs : List Text) (out : List (Text × Text))
    → read_pairs allowed seen pairs ≡ ok out
    → Fresh seen
    → All (Allowed allowed) seen
    → Fresh out × All (Allowed allowed) out
unfolding read_pairs
read_pairs_sound allowed seen [] out h f s =
    let same = ok-injective h in (subst Fresh same f, subst (All (Allowed allowed)) same s)
read_pairs_sound allowed seen (pair ∷ pairs) out h f s =
    let (key, value) = key_value pair in
    let (_, h1, k1) = >>=-eq-ok (guard (not (is_empty key)) invalid_req) _ h in
    let (_, h2, k2) = >>=-eq-ok (guard (has_text key allowed) invalid_req) _ k1 in
    let (_, h3, k3) = >>=-eq-ok (guard (is_spl_value value) invalid_req) _ k2 in
    let (_, h4, k4) = >>=-eq-ok (guard (not (has_key key seen)) invalid_req) _ k3 in
    read_pairs_sound allowed (seen ++ (key, value) ∷ []) pairs out k4
      (Fresh-snoc seen (key, value) f (ground (arith, guard-eq-ok _ invalid_req h4)))
      (All-snoc (Allowed allowed) seen (key, value) s
        (guard-eq-ok _ invalid_req h2, guard-eq-ok _ invalid_req h3))

-- The text of a query.
abbrev pub query_text : List (Text × Text) → Text
query_text [] = []
query_text (x ∷ xs) = b'?' ∷ encode_pairs (x ∷ xs)

query_text-insert_pair :
    (x : Text × Text) (xs : List (Text × Text))
    → query_text (insert_pair x xs) ≡ b'?' ∷ encode_pairs (insert_pair x xs)
query_text-insert_pair x [] = refl
query_text-insert_pair x (y ∷ ys) = ground arith

encoded_query-eq : (xs : List (Text × Text)) → encoded_query xs ≡ query_text (sort_pairs xs)
unfolding sort_pairs
encoded_query-eq [] = refl
encoded_query-eq (x ∷ xs) = sym (query_text-insert_pair x (sort_pairs xs))

-- The pairs of a query, one for each part between its separators: the name before the first = and the
-- value behind it.
abbrev pub query_pairs : Option Text → List (Text × Text)
query_pairs none = []
query_pairs (some []) = []
query_pairs (some (b ∷ q)) = map key_value (split b'&' (b ∷ q))

read_pairs-eq :
    (allowed : List Text) (seen : List (Text × Text)) (pairs : List Text) (out : List (Text × Text))
    → read_pairs allowed seen pairs ≡ ok out
    → out ≡ seen ++ map key_value pairs
unfolding read_pairs
read_pairs-eq allowed seen [] out h = sym (ok-injective h) ∙ sym (append-nil seen)
read_pairs-eq allowed seen (pair ∷ pairs) out h =
    let (key, value) = key_value pair in
    let (_, h1, k1) = >>=-eq-ok (guard (not (is_empty key)) invalid_req) _ h in
    let (_, h2, k2) = >>=-eq-ok (guard (has_text key allowed) invalid_req) _ k1 in
    let (_, h3, k3) = >>=-eq-ok (guard (is_spl_value value) invalid_req) _ k2 in
    let (_, h4, k4) = >>=-eq-ok (guard (not (has_key key seen)) invalid_req) _ k3 in
    read_pairs-eq allowed (seen ++ (key, value) ∷ []) pairs out k4
    ∙ append_assoc seen ((key, value) ∷ []) (map key_value pairs)

nonempty-query_pairs :
    (query : Option Text) (q : Text)
    → nonempty query ≡ some q
    → map key_value (split b'&' q) ≡ query_pairs query
nonempty-query_pairs none q h = cc
nonempty-query_pairs (some []) q h = cc
nonempty-query_pairs (some (b ∷ t)) q h = ap (λ q. map key_value (split b'&' q)) (cc)

nonempty-none : (query : Option Text) → nonempty query ≡ none → query_pairs query ≡ []
nonempty-none none h = refl
nonempty-none (some []) h = refl
nonempty-none (some (b ∷ t)) h = cc

-- An accepted query is sent on with the same pairs, put in the order of their names: each is an allowed
-- name that occurs once with a number below 256 of one to three digits, and no query is sent as the
-- empty text.
pub canonicalize_query_sound :
    (query : Option Text) (allowed : List Text) (r : Text)
    → canonicalize_query query allowed ≡ ok r
    → (pairs : List (Text × Text)) × (r ≡ query_text pairs)
      × Perm pairs (query_pairs query)
      × Strict pairs
      × All (Allowed allowed) pairs
unfolding canonicalize_query
canonicalize_query_sound query allowed r h = elim (Option-cases (nonempty query)) [
  | inl out ↦
      ([], ground arith, subst (Perm []) (sym (nonempty-none query out)) (Perm.refl []), tt, tt)
  | inr (q, given) ↦
      let (seen, read, done) =
        >>=-eq-ok (read_pairs allowed [] (split b'&' q)) (λ seen. ok (encoded_query seen))
          (ground arith) in
      let (fresh, good) = read_pairs_sound allowed [] (split b'&' q) seen read tt tt in
      let same =
        read_pairs-eq allowed [] (split b'&' q) seen read ∙ nonempty-query_pairs query q given in
      (
        sort_pairs seen,
        sym (ok-injective done) ∙ encoded_query-eq seen,
        subst (Perm (sort_pairs seen)) same (sort_pairs-Perm seen),
        sort_pairs-Strict seen fresh,
        sort_pairs-All (Allowed allowed) seen good,
      )
]

-- Where no name is allowed, no pair is.
no_pairs : (pairs : List (Text × Text)) → All (Allowed []) pairs → query_text pairs ≡ []
no_pairs [] good = refl
no_pairs (x ∷ xs) good = absurd (ground arith)

none_allowed : (query : Option Text) (r : Text) → canonicalize_query query [] ≡ ok r → r ≡ []
none_allowed query r h =
    let (pairs, same, kept, strict, good) = canonicalize_query_sound query [] r h in
    same ∙ no_pairs pairs good

-- The path of an accepted RIM request is /v1/rim/ and one identifier, which is neither . nor .. and
-- has no / in it, with no query.
pub canonicalize_nvidia_rim_sound :
    (s r : Text)
    → canonicalize_nvidia_rim s ≡ ok r
    → (id : Text) × (is_rim_id id ≡ true) × (r ≡ codes "/v1/rim/" ++ id)
unfolding canonicalize_nvidia_rim
canonicalize_nvidia_rim_sound s r h =
    let (path, query) = split_path_query s in
    let (rest, _, k1) = >>=-eq-ok (ok_or (strip_prefix (codes "/v1/rim/") path) invalid_req) _ h in
    let (_, checked, k2) =
      >>=-eq-ok (guard (not (contains b'/' rest) && is_rim_id rest) invalid_req) _ k1 in
    let (query', sent, k3) = >>=-eq-ok (canonicalize_query query []) _ k2 in
    (
      rest,
      ground (arith, guard-eq-ok _ invalid_req checked),
      sym (ok-injective k3)
          ∙ ap (λ q. codes "/v1/rim/" ++ (rest ++ q)) (none_allowed query query' sent)
          ∙ ap (λ t. codes "/v1/rim/" ++ t) (append-nil rest),
    )
