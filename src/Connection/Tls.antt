-- ===== src/Connection/Tls.antt =====
-- The configuration of TLS that `CreateConnection` of pkg/connection/wsconn/wsconn.go makes.
use go_exasol.Base.{Bool, List, [], ◌∷◌, Bytes}
use go_exasol.Fingerprint.{certificate_verifier}
use go_exasol.Result.{Result}

-- The constants of crypto/tls that the driver names.
pub data CipherSuite : Type 0 where
  ecdhe_ecdsa_with_aes_256_gcm_sha384 ecdhe_ecdsa_with_aes_128_gcm_sha256 : CipherSuite
  rsa_with_3des_ede_cbc_sha rsa_with_aes_128_cbc_sha rsa_with_aes_256_cbc_sha : CipherSuite
  rsa_with_aes_128_gcm_sha256 rsa_with_aes_256_gcm_sha384 : CipherSuite
  aes_128_gcm_sha256 aes_256_gcm_sha384 chacha20_poly1305_sha256 : CipherSuite
  ecdhe_ecdsa_with_aes_128_cbc_sha ecdhe_ecdsa_with_aes_256_cbc_sha : CipherSuite
  ecdhe_rsa_with_3des_ede_cbc_sha : CipherSuite
  ecdhe_rsa_with_aes_128_cbc_sha ecdhe_rsa_with_aes_256_cbc_sha : CipherSuite
  ecdhe_rsa_with_aes_128_gcm_sha256 ecdhe_rsa_with_aes_256_gcm_sha384 : CipherSuite
  ecdhe_rsa_with_chacha20_poly1305_sha256 ecdhe_ecdsa_with_chacha20_poly1305_sha256 : CipherSuite

-- `cipherSuites`
abbrev pub cipher_suites : List CipherSuite
cipher_suites =
    CipherSuite.ecdhe_ecdsa_with_aes_256_gcm_sha384
    ∷ CipherSuite.ecdhe_ecdsa_with_aes_128_gcm_sha256 ∷ CipherSuite.rsa_with_3des_ede_cbc_sha
    ∷ CipherSuite.rsa_with_aes_128_cbc_sha ∷ CipherSuite.rsa_with_aes_256_cbc_sha
    ∷ CipherSuite.rsa_with_aes_128_gcm_sha256 ∷ CipherSuite.rsa_with_aes_256_gcm_sha384
    ∷ CipherSuite.aes_128_gcm_sha256 ∷ CipherSuite.aes_256_gcm_sha384
    ∷ CipherSuite.chacha20_poly1305_sha256 ∷ CipherSuite.ecdhe_ecdsa_with_aes_128_cbc_sha
    ∷ CipherSuite.ecdhe_ecdsa_with_aes_256_cbc_sha ∷ CipherSuite.ecdhe_rsa_with_3des_ede_cbc_sha
    ∷ CipherSuite.ecdhe_rsa_with_aes_128_cbc_sha ∷ CipherSuite.ecdhe_rsa_with_aes_256_cbc_sha
    ∷ CipherSuite.ecdhe_ecdsa_with_aes_128_gcm_sha256
    ∷ CipherSuite.ecdhe_rsa_with_aes_128_gcm_sha256 ∷ CipherSuite.ecdhe_rsa_with_aes_256_gcm_sha384
    ∷ CipherSuite.ecdhe_rsa_with_chacha20_poly1305_sha256
    ∷ CipherSuite.ecdhe_ecdsa_with_chacha20_poly1305_sha256 ∷ []

-- The fields of a `tls.Config` that are set; the last takes the certificates of the peer.
pub record TlsConfig : Type 0 where
  pub insecure_skip_verify : Bool
  pub cipher_suites : List CipherSuite
  pub verify_peer_certificate : List Bytes → Result (Unit {0})

unfoldable pub tls_config : (Bytes → Bytes) → Bool → Bytes → TlsConfig
unfolding certificate_verifier
tls_config sha256 skip_verify fingerprint = record {
  insecure_skip_verify = skip_verify;
  cipher_suites = cipher_suites;
  verify_peer_certificate = certificate_verifier sha256 fingerprint;
}
