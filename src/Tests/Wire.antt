-- ===== src/Tests/Wire.antt =====
-- Formats that read back what they write, for the tests of the store.
use pccs_rs.Common.{
  ℕ, zero, suc, ◌≡◌, refl, sym, ap, ◌∙◌, Bool, true, false, List, [], ◌∷◌, ◌++◌, Option, none, some,
  length, arith,
}
use mathlib.Core.List.{append_assoc, append-nil}
use pccs_rs.Common.Text.{Text}
use pccs_rs.Store.Database.{Codec, RoundTrips}

-- A writer with a reader that finds what was written at the beginning of a text, and where it ends.
pub record Wire (A : Type 0) : Type 0 where
  pub enc : A → Text
  pub dec : Text → Option (A × Text)
  pub back : (a : A) (rest : Text) → dec (enc a ++ rest) ≡ some (a, rest)

abbrev pub first : {A : Type 0} → Option (A × Text) → Option A
first none = none
first (some (a, rest)) = some a

abbrev pub codec : {A : Type 0} → Wire A → Codec A
codec W = record { to_vec = λ a. some (W.enc a); from_slice = λ bytes. first (W.dec bytes) }

pub codec-back :
    {A : Type 0} (W : Wire A) (a : A) (bytes : Text)
    → (codec W).to_vec a ≡ some bytes
    → (codec W).from_slice bytes ≡ some a
codec-back W a bytes made =
    let same : W.enc a ≡ bytes = ground arith in
    ap (λ b. first (W.dec b)) (sym same ∙ sym (append-nil (W.enc a))) ∙ ap first (W.back a [])

abbrev pub trips : {A : Type 0} → (W : Wire A) → RoundTrips (codec W)
trips W = record { back = codec-back W }

abbrev pub number : Wire ℕ
number = record {
  enc = λ n. n ∷ [];
  dec = λ s. elim s [ [] ↦ none | n ∷ rest ↦ some (n, rest) ];
  back = λ n rest. refl;
}

abbrev pub then_read :
    {A B : Type 0} → Option (A × Text) → (A → Text → Option (B × Text)) → Option (B × Text)
then_read none f = none
then_read (some (a, rest)) f = f a rest

abbrev pub mapped : {A B : Type 0} → (A → B) → Option (A × Text) → Option (B × Text)
mapped f none = none
mapped f (some (a, rest)) = some (f a, rest)

-- A pair, one after the other.
abbrev pub both : {A B : Type 0} → Wire A → Wire B → Wire (A × B)
both V W = record {
  enc = λ x. V.enc x.0 ++ W.enc x.1;
  dec = λ s. then_read (V.dec s) (λ a rest. mapped (λ b. (a, b)) (W.dec rest));
  back = λ x rest.
      ap (λ s. then_read (V.dec s) (λ a rest. mapped (λ b. (a, b)) (W.dec rest)))
        (append_assoc (V.enc x.0) (W.enc x.1) rest)
      ∙ ap (λ r. then_read r (λ a rest. mapped (λ b. (a, b)) (W.dec rest)))
          (V.back x.0 (W.enc x.1 ++ rest))
      ∙ ap (mapped (λ b. (x.0, b))) (W.back x.1 rest);
}

-- A record is written as another type that holds the same.
abbrev pub as_wire :
    {A B : Type 0} → Wire B → (to : A → B) → (of : B → A) → ((a : A) → of (to a) ≡ a) → Wire A
as_wire W to of same = record {
  enc = λ a. W.enc (to a);
  dec = λ s. mapped of (W.dec s);
  back = λ a rest. ap (mapped of) (W.back (to a) rest) ∙ ap (λ b. some (b, rest)) (same a);
}

-- A list, after its length.
module _ {A : Type 0} (W : Wire A) where
  abbrev pub write_all : List A → Text
  write_all [] = []
  write_all (x ∷ xs) = W.enc x ++ write_all xs

  abbrev pub read_all : ℕ → Text → Option (List A × Text)
  read_all zero s = some ([], s)
  read_all (suc n) s = then_read (W.dec s) (λ a rest. mapped (λ more. a ∷ more) (read_all n rest))

  pub read_all-write_all :
      (xs : List A) (rest : Text) → read_all (length xs) (write_all xs ++ rest) ≡ some (xs, rest)
  read_all-write_all [] rest = refl
  read_all-write_all (x ∷ xs) rest =
      ap
        (λ s. then_read (W.dec s) (λ a rest. mapped (λ more. a ∷ more) (read_all (length xs) rest)))
        (append_assoc (W.enc x) (write_all xs) rest)
      ∙ ap (λ r. then_read r (λ a rest. mapped (λ more. a ∷ more) (read_all (length xs) rest)))
          (W.back x (write_all xs ++ rest))
      ∙ ap (mapped (λ more. x ∷ more)) (read_all-write_all xs rest)

  abbrev pub many : Wire (List A)
  many = record {
    enc = λ xs. length xs ∷ write_all xs;
    dec = λ s. elim s [ [] ↦ none | n ∷ rest ↦ read_all n rest ];
    back = read_all-write_all;
  }

abbrev pub text : Wire Text
text = many number

abbrev pub of_flag : Bool → ℕ
of_flag true = 1
of_flag false = 0

abbrev pub to_flag : ℕ → Bool
to_flag zero = false
to_flag (suc n) = true

pub flag-same : (b : Bool) → to_flag (of_flag b) ≡ b
flag-same true = refl
flag-same false = refl

abbrev pub flag : Wire Bool
flag = as_wire number of_flag to_flag flag-same

abbrev pub of_option : Option Text → List Text
of_option none = []
of_option (some s) = s ∷ []

abbrev pub to_option : List Text → Option Text
to_option [] = none
to_option (s ∷ rest) = some s

pub option-same : (o : Option Text) → to_option (of_option o) ≡ o
option-same none = refl
option-same (some s) = refl

abbrev pub option : Wire (Option Text)
option = as_wire (many text) of_option to_option option-same
