-- ===== src/Fingerprint.antt =====
-- `certificateVerifier` of pkg/connection/wsconn/wsconn.go: what a server's certificate must match.
-- SHA-256 is a parameter. `EqualFold` compares with hexadecimal digits here, for which the case of
-- ASCII letters is all that it folds.
use go_exasol.Base.{
  Bool, ℕ, ◌+◌, ◌/◌, ◌%◌, ◌≡◌, ◌≢◌, ◌↔◌, refl, ◌&&◌, List, [], ◌∷◌, map, Bytes, leb, if◌then◌else◌,
  equal, equal_iff, arith,
}
use go_exasol.Dsn.{is_empty}
use go_exasol.Errors.{err_missing_server_certificate, new_err_certificate_fingerprint_mismatch}
use go_exasol.Text.{hex_digit}
use go_exasol.Result.{Result, ok, err}

-- `hex.EncodeToString`, of bytes
unfoldable pub hex : Bytes → Bytes
hex [] = []
hex (b ∷ bs) = hex_digit (b / 16 % 16) ∷ hex_digit (b % 16) ∷ hex bs

abbrev pub lower : ℕ → ℕ
lower c = if leb b'A' c && leb c b'Z' then c + 32 else c

-- `strings.EqualFold`
unfoldable pub equal_fold : Bytes → Bytes → Bool
equal_fold s t = equal (map lower s) (map lower t)

module _ (sha256 : Bytes → Bytes) where
  -- `sha256Hex`
  unfoldable pub sha256_hex : Bytes → Bytes
  sha256_hex data_bytes = hex (sha256 data_bytes)

  unfoldable pub certificate_verifier : Bytes → List Bytes → Result (Unit {0})
  unfolding equal_fold
  certificate_verifier expected raw_certs = if is_empty expected then ok tt else elim raw_certs [
    | [] ↦ err err_missing_server_certificate
    | cert ∷ rest ↦
        if equal_fold expected (sha256_hex cert)
        then ok tt
        else err (new_err_certificate_fingerprint_mismatch (sha256_hex cert) expected)
  ]

lower-hex_digit : (n : ℕ) → lower (hex_digit (n % 16)) ≡ hex_digit (n % 16)
lower-hex_digit n = ground arith

lower-hex : (bs : Bytes) → map lower (hex bs) ≡ hex bs
unfolding hex
lower-hex [] = refl
lower-hex (b ∷ bs) = rw (lower-hex_digit (b / 16), lower-hex_digit b, lower-hex bs) refl

module _ (sha256 : Bytes → Bytes) where
  -- A fingerprint that is set is compared with the first certificate's, whatever the case of its
  -- digits, and no other certificate counts.
  pub certificate_verifier_accepts :
      (expected : Bytes) (cert : Bytes) (rest : List Bytes)
      → expected ≢ []
      → (certificate_verifier sha256 expected (cert ∷ rest) ≡ ok tt)
        ↔ (map lower expected ≡ hex (sha256 cert))
  unfolding certificate_verifier equal_fold sha256_hex
  certificate_verifier_accepts [] cert rest h = absurd (h refl)
  certificate_verifier_accepts (c ∷ expected) cert rest h = ground (
    arith,
    lower-hex (sha256 cert),
    equal_iff (map lower (c ∷ expected)) (map lower (hex (sha256 cert))),
  )
