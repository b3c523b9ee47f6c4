-- ===== src/Auth.antt =====
-- src/auth.rs: the check of a token against the configured hash.
use pccs_rs.Common.{
  ℕ, ◌≡◌, ◌↔◌, true, false, not, ◌&&◌, ◌||◌, List, [], ◌∷◌, Option, none, some, if◌then◌else◌, ◌==◌,
  all, length, arith, Option-cases, inl, inr, is_empty,
}
use pccs_rs.Common.Result.{Result, ok, ◌>>=◌, guard, ok_or}
use pccs_rs.Common.Text.{Text, text_eq, text_eq_iff, is_ascii_hexdigit}
use pccs_rs.Errors.{PccsError, unauthorized}
use pccs_rs.Validate.Strings.{nonempty}

-- `hex_decode` is `hex::decode`, and `sha512` the digest of the package sha2.
module _ (hex_decode : Text → Option (List ℕ)) (sha512 : Text → List ℕ) where
  unfoldable parse_expected_hash : Text → Option (List ℕ)
  parse_expected_hash hex_hash =
      if not (length hex_hash == 128) || not (all is_ascii_hexdigit hex_hash)
      then none
      else hex_decode hex_hash

  unfoldable pub verify_token : Option Text → Text → Result PccsError (Unit {0})
  unfolding parse_expected_hash
  verify_token raw_token expected_hex = do
    expected ← ok_or (parse_expected_hash expected_hex) unauthorized
    token ← ok_or (nonempty raw_token) unauthorized
    guard (length (sha512 token) == length expected && text_eq (sha512 token) expected) unauthorized

  -- A request is let in exactly if it has a nonempty token and the configured hash is 128 hexadecimal
  -- digits that encode the digest of that token.
  pub verify_token_iff :
      (raw_token : Option Text) (expected_hex : Text)
      → (verify_token raw_token expected_hex ≡ ok tt) ↔ (
          (token : Text) × (raw_token ≡ some token)
          × (is_empty token ≡ false)
          × (length expected_hex ≡ 128)
          × (all is_ascii_hexdigit expected_hex ≡ true)
          × (hex_decode expected_hex ≡ some (sha512 token)))
  unfolding verify_token parse_expected_hash
  verify_token_iff none expected_hex = elim (Option-cases (hex_decode expected_hex)) [
    | inl out ↦ ground (arith, out)
    | inr (bytes, read) ↦ ground (arith, read)
  ]
  verify_token_iff (some []) expected_hex = elim (Option-cases (hex_decode expected_hex)) [
    | inl out ↦ ground (arith, out)
    | inr (bytes, read) ↦ ground (arith, read)
  ]
  verify_token_iff (some (b ∷ s)) expected_hex = elim (Option-cases (hex_decode expected_hex)) [
    | inl out ↦ ground (arith, out)
    | inr (bytes, read) ↦ ground (arith, read, text_eq_iff (sha512 (b ∷ s)) bytes)
  ]
