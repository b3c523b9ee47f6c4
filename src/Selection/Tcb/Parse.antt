-- ===== src/Selection/Tcb/Parse.antt =====
-- Construction of a `Tcb` from hexadecimal text.
use pccs_rs.Common.{
  ℕ, zero, suc, ◌+◌, ◌*◌, ◌/◌, ◌%◌, inl, inr, Option-cases, ◌<◌, ◌≡◌, ◌≢◌, ◌↔◌, ◌∙◌, subst, refl,
  sym, true, List, [], ◌∷◌, ◌++◌, Option, none, some, arith, length, all, All,
}
use pccs_rs.Common.Result.{Result, ok, panic, ◌>>=◌, ok_or, >>=-eq-ok}
use pccs_rs.Common.Text.{
  Text, is_ascii_hexdigit, hex_digit_lt, hex_digit-to_upper, is_ascii_hexdigit-to_upper, to_upper,
  to_ascii_uppercase_idem, to_ascii_uppercase, hex_digit_of_is_ascii_hexdigit, hex_digit,
  upper_digit, encode_upper,
}
use pccs_rs.Selection.Error.{SelectionError, invalid_cpusvn_format}
use pccs_rs.Selection.Tcb.{Tcb, byte_of_hex, read_components, new}

byte_of_hex_lt : (a b : ℕ) {c : ℕ} → byte_of_hex a b ≡ some c → c < 256
unfolding byte_of_hex
byte_of_hex_lt a b h = grind (arith, hex_digit_lt a, hex_digit_lt b)

upper_digit-hex_digit : (a d : ℕ) → hex_digit a ≡ some d → upper_digit d ≡ to_upper a
unfolding hex_digit upper_digit to_upper
upper_digit-hex_digit a d h = ground arith

-- A byte read is the one that is written with the two digits.
byte_of_hex-digits :
    (a b : ℕ) {c : ℕ}
    → byte_of_hex a b ≡ some c
    → (upper_digit (c / 16) ≡ to_upper a) × (upper_digit (c % 16) ≡ to_upper b)
unfolding byte_of_hex
byte_of_hex-digits a b {c} h = elim (Option-cases (hex_digit a)) [
  | inl out ↦ absurd (ground arith)
  | inr (x, ex) ↦ elim (Option-cases (hex_digit b)) [
    | inl out ↦ absurd (ground arith)
    | inr (y, ey) ↦
        let low = hex_digit_lt b y ey in
        let sum : x * 16 + y ≡ c = ground arith in
        let high : c / 16 ≡ x = omega arith in
        let rest : c % 16 ≡ y = omega arith in
        (rw high (upper_digit-hex_digit a x ex), rw rest (upper_digit-hex_digit b y ey))
  ]
]

byte_of_hex_total :
    (a b : ℕ)
    → is_ascii_hexdigit a ≡ true
    → is_ascii_hexdigit b ≡ true
    → (c : ℕ) × (byte_of_hex a b ≡ some c)
unfolding byte_of_hex
byte_of_hex_total a b h k =
    let (x, ex) = hex_digit_of_is_ascii_hexdigit a h in
    let (y, ey) = hex_digit_of_is_ascii_hexdigit b k in (x * 16 + y, ground arith)

-- On enough hexadecimal digits the loop reads one byte for each pair.
read_components_total :
    (n : ℕ) (e : SelectionError) (s : Text)
    → length s ≡ n + n
    → all is_ascii_hexdigit s ≡ true
    → (cs : List ℕ) × (read_components n e s ≡ ok cs)
      × (length cs ≡ n)
      × All (λ c. c < 256) cs
      × (encode_upper cs ≡ to_ascii_uppercase s)
unfolding read_components
read_components_total zero e [] l h = ([], refl, refl, tt, refl)
read_components_total zero e (a ∷ s) l h = absurd (omega arith)
read_components_total (suc n) e [] l h = absurd (omega arith)
read_components_total (suc n) e (a ∷ []) l h = absurd (omega arith)
read_components_total (suc n) e (a ∷ b ∷ s) l h =
    let (c, ec) = byte_of_hex_total a b (ground arith) (ground arith) in
    let (cs, es, len, small, text) = read_components_total n e s (omega arith) (ground arith) in
    let (high, low) = byte_of_hex-digits a b ec in
    (c ∷ cs, rw (ec, es), omega arith, (byte_of_hex_lt a b ec, small), rw (high, low, text))

-- The TCB of a CPUSVN and a PCESVN: the bytes that are written as the CPUSVN's text, in upper case,
-- and PCESVN behind them.
pub record IsTcb (cpusvn : Text) (pcesvn : ℕ) (t : Tcb) : Type 0 where
  pub text : t.cpusvn ≡ to_ascii_uppercase cpusvn
  pub svn : t.pcesvn ≡ pcesvn
  pub bytes : List ℕ
  pub components : t.components ≡ bytes ++ pcesvn ∷ []
  pub count : length bytes ≡ 16
  pub small : All (λ c. c < 256) bytes
  pub encoded : encode_upper bytes ≡ to_ascii_uppercase cpusvn

-- On 32 hexadecimal digits `new` succeeds.
pub new_total :
    (cpusvn : Text) (pcesvn : ℕ)
    → length cpusvn ≡ 32
    → all is_ascii_hexdigit cpusvn ≡ true
    → (t : Tcb) × (new cpusvn pcesvn ≡ ok t) × IsTcb cpusvn pcesvn t
unfolding new
new_total cpusvn pcesvn l h =
    let (cs, ecs, len, small, text) =
      read_components_total 16 (invalid_cpusvn_format cpusvn) cpusvn l h in
    let t : Tcb = record {
      cpusvn = to_ascii_uppercase cpusvn;
      pcesvn = pcesvn;
      components = cs ++ pcesvn ∷ [];
    } in
    (
      t,
      rw (l, h, ecs) refl,
      record {
        text = refl;
        svn = refl;
        bytes = cs;
        components = refl;
        count = len;
        small = small;
        encoded = text;
      },
    )

-- A successful `new` has checked its text: 32 characters, all hexadecimal.
pub new_inv :
    (cpusvn : Text) (pcesvn : ℕ) (t : Tcb)
    → new cpusvn pcesvn ≡ ok t
    → (length cpusvn ≡ 32) × (all is_ascii_hexdigit cpusvn ≡ true)
unfolding new
new_inv cpusvn pcesvn t h = ground arith

ok-injective : {t u : Tcb} → ◌≡◌ {A = Result SelectionError Tcb} (ok t) (ok u) → t ≡ u
ok-injective h = cc

pub new-ne-panic : (cpusvn : Text) (pcesvn : ℕ) → new cpusvn pcesvn ≢ panic
unfolding new
new-ne-panic cpusvn pcesvn =
    ground (arith, read_components_total 16 (invalid_cpusvn_format cpusvn) cpusvn)

-- `new` succeeds exactly on 32 hexadecimal digits and never panics. What it builds has the text in
-- upper case, and as components the 16 bytes whose hexadecimal text that is, with PCESVN, unclamped,
-- behind them.
pub new_iff :
    (cpusvn : Text) (pcesvn : ℕ)
    → (((t : Tcb) × (new cpusvn pcesvn ≡ ok t))
        ↔ ((length cpusvn ≡ 32) × (all is_ascii_hexdigit cpusvn ≡ true)))
      × (new cpusvn pcesvn ≢ panic)
      × ((t : Tcb) → new cpusvn pcesvn ≡ ok t → IsTcb cpusvn pcesvn t)
new_iff cpusvn pcesvn = (
  (
    (λ (t, h). new_inv cpusvn pcesvn t h),
    (λ (l, h). let (t, e, valid) = new_total cpusvn pcesvn l h in (t, e)),
  ),
  new-ne-panic cpusvn pcesvn,
  λ t h.
      let (l, k) = new_inv cpusvn pcesvn t h in
      let (u, e, valid) = new_total cpusvn pcesvn l k in
      let eq : u ≡ t = ok-injective (sym e ∙ h) in subst (IsTcb cpusvn pcesvn) eq valid,
)

map_to_upper_keeps :
    (s : Text)
    → (length (to_ascii_uppercase s) ≡ length s)
      × (all is_ascii_hexdigit (to_ascii_uppercase s) ≡ all is_ascii_hexdigit s)
map_to_upper_keeps [] = (refl, refl)
map_to_upper_keeps (c ∷ s) = ground (arith, map_to_upper_keeps s, is_ascii_hexdigit-to_upper c)

byte_of_hex-to_upper : (a b : ℕ) → byte_of_hex (to_upper a) (to_upper b) ≡ byte_of_hex a b
unfolding byte_of_hex
byte_of_hex-to_upper a b = ground (arith, hex_digit-to_upper a, hex_digit-to_upper b)

read_components-to_upper :
    (n : ℕ) (e : SelectionError) (s : Text)
    → read_components n e (to_ascii_uppercase s) ≡ read_components n e s
unfolding read_components
read_components-to_upper zero e s = refl
read_components-to_upper (suc n) e [] = refl
read_components-to_upper (suc n) e (a ∷ []) = refl
read_components-to_upper (suc n) e (a ∷ b ∷ s) =
    ground (arith, byte_of_hex-to_upper a b, read_components-to_upper n e s)

module _ {E A : Type 0} where
  ok_or-some_of_ok : (o : Option A) (e : E) (a : A) → ok_or o e ≡ ok a → o ≡ some a
  ok_or-some_of_ok none e a h = cc
  ok_or-some_of_ok (some x) e a h = cc

-- The error text of the loop matters only where it fails.
read_components_error :
    (n : ℕ) (e e' : SelectionError) (s : Text) (cs : List ℕ)
    → read_components n e s ≡ ok cs
    → read_components n e' s ≡ ok cs
unfolding read_components
read_components_error zero e e' s cs h = cc
read_components_error (suc n) e e' [] cs h = cc
read_components_error (suc n) e e' (a ∷ []) cs h = cc
read_components_error (suc n) e e' (a ∷ b ∷ s) cs h =
    let (c, ec, h') =
      >>=-eq-ok (ok_or (byte_of_hex a b) e) (λ c. read_components n e s >>= λ ds. ok (c ∷ ds)) h in
    let (ds, ed, h'') = >>=-eq-ok (read_components n e s) (λ ds. ok (c ∷ ds)) h' in
    ground (arith, ok_or-some_of_ok (byte_of_hex a b) e c ec, read_components_error n e e' s ds ed)

-- Two spellings of one CPUSVN that differ in case give the same TCB.
pub new-to_ascii_uppercase :
    (cpusvn : Text) (pcesvn : ℕ) (t : Tcb)
    → new cpusvn pcesvn ≡ ok t
    → new (to_ascii_uppercase cpusvn) pcesvn ≡ ok t
unfolding new
new-to_ascii_uppercase cpusvn pcesvn t h =
    let (l, k) = new_inv cpusvn pcesvn t h in
    let (cs, ecs, _, _, _) = read_components_total 16 (invalid_cpusvn_format cpusvn) cpusvn l k in
    let upper = to_ascii_uppercase cpusvn in
    let keeps = map_to_upper_keeps cpusvn in
    let read : read_components 16 (invalid_cpusvn_format upper) upper ≡ ok cs =
      read_components-to_upper 16 _ cpusvn
      ∙ read_components_error 16 (invalid_cpusvn_format cpusvn) _ cpusvn cs ecs in
    ground (arith, read, ecs, keeps, l, k, to_ascii_uppercase_idem cpusvn, h)
