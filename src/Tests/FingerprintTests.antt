-- ===== src/Tests/FingerprintTests.antt =====
-- Runs of the verification of a fingerprint, with a stand-in for SHA-256 that gives the data back.
use go_exasol.Base.{◌≡◌, refl, [], ◌∷◌, Bytes, lit}
use go_exasol.Errors.{err_missing_server_certificate, new_err_certificate_fingerprint_mismatch}
use go_exasol.Fingerprint.{certificate_verifier, sha256_hex, hex}
use go_exasol.Result.{ok, err}

abbrev same : Bytes → Bytes
same s = s

upper_case : certificate_verifier same (lit "AB0F") ((171 ∷ 15 ∷ []) ∷ []) ≡ ok tt
unfolding certificate_verifier sha256_hex hex
upper_case = refl

another_certificate :
    certificate_verifier same (lit "ab0f") ((171 ∷ 16 ∷ []) ∷ (171 ∷ 15 ∷ []) ∷ [])
    ≡ err (new_err_certificate_fingerprint_mismatch (lit "ab10") (lit "ab0f"))
unfolding certificate_verifier sha256_hex hex
another_certificate = refl

no_certificate : certificate_verifier same (lit "ab0f") [] ≡ err err_missing_server_certificate
unfolding certificate_verifier
no_certificate = refl
