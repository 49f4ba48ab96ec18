-- ===== src/Connection/Pinned.antt =====
-- Which servers `Connect` trusts.
use mathlib.Core.List.{Memᴰ}
use go_exasol.Base.{
  ◌≡◌, ◌≢◌, refl, subst, Bool, true, false, not, ◌||◌, lit, if◌then◌else◌, List, [], ◌∷◌, ◌++◌, map,
  none, Bytes,
}
use go_exasol.Config.{Config}
use go_exasol.Connection.Connect.{Url, Network, connect}
use go_exasol.Connection.Reach.{Outcome, answer, connect-Outcome}
use go_exasol.Connection.Tls.{TlsConfig, tls_config}
use go_exasol.Connection.{Connection}
use go_exasol.Dsn.{is_empty}
use go_exasol.Fingerprint.{certificate_verifier, certificate_verifier_accepts, hex, lower}
use go_exasol.Hosts.{resolve_hosts}
use go_exasol.Result.{Result, ok, err, panic}
use go_exasol.Text.Decimal.{show}

-- What crypto/tls promises of a dial with TLS that succeeds: the configuration accepted the
-- certificates that the server showed, and unless it skips this, their chain was verified.
pub record ChecksPeer {World : Type 0} (network : Network World)
    (certificates : Url → World → List Bytes) (is_trusted : Url → World → Bool) : Type 0 where
  pub accepted :
      (url : Url) (tls : TlsConfig) (w : World)
      → url.scheme ≡ lit "wss"
      → (network.dial url tls w).0 ≡ none
      → tls.verify_peer_certificate (certificates url w) ≡ ok tt
  pub chain :
      (url : Url) (tls : TlsConfig) (w : World)
      → url.scheme ≡ lit "wss"
      → (network.dial url tls w).0 ≡ none
      → tls.insecure_skip_verify ≡ false
      → is_trusted url w ≡ true

-- Some certificate is accepted: it is there, and has the fingerprint.
accepted_certificate :
    (sha256 : Bytes → Bytes) (expected : Bytes) (certs : List Bytes)
    → expected ≢ []
    → certificate_verifier sha256 expected certs ≡ ok tt
    → (cert : Bytes) × ((rest : List Bytes) × (certs ≡ cert ∷ rest)
        × (map lower expected ≡ hex (sha256 cert)))
unfolding certificate_verifier
accepted_certificate sha256 [] certs h e = absurd (h refl)
accepted_certificate sha256 (c ∷ expected) [] h e = absurd (cc)
accepted_certificate sha256 (c ∷ expected) (cert ∷ rest) h e =
    (cert, (rest, refl, (certificate_verifier_accepts sha256 (c ∷ expected) cert rest h).0 e))

module _ {World : Type 0} (network : Network World) (certificates : Url → World → List Bytes)
    (is_trusted : Url → World → Bool) where
  -- The URL of a host over TLS.
  abbrev pub secure_url : Config → Bytes → Url
  secure_url config host = record { scheme = lit "wss"; host = host ++ b':' ∷ show config.port }

  -- The server behind the host has the fingerprint that is configured; without one, its chain of
  -- certificates is trusted if that is to be validated.
  pub record IsVerified (config : Config) (host : Bytes) (w : World) : Type 0 where
    pub pinned :
        config.certificate_fingerprint ≢ []
        → (cert : Bytes) × ((rest : List Bytes) × (certificates (secure_url config host) w
              ≡ cert ∷ rest)
            × (map lower config.certificate_fingerprint ≡ hex (network.sha256 cert)))
    pub validated :
        config.certificate_fingerprint ≡ []
        → config.validate_server_certificate ≡ true
        → is_trusted (secure_url config host) w ≡ true

  module _ (checks : ChecksPeer network certificates is_trusted) where
    answer-IsVerified :
        (config : Config) (host : Bytes) (w : World)
        → config.encryption ≡ true
        → answer network config host w ≡ none
        → IsVerified config host w
    unfolding tls_config
    answer-IsVerified config host w encrypted answered = record {
      pinned = λ ne.
          accepted_certificate network.sha256 config.certificate_fingerprint
            (certificates (secure_url config host) w) ne
            (checks.accepted (secure_url config host) tls w refl dialled);
      validated = λ no_pin on.
          checks.chain (secure_url config host) tls w refl dialled (rw no_pin (rw on refl));
    }
      where
        tls : TlsConfig
        tls =
            tls_config network.sha256
              (not config.validate_server_certificate
                || not (is_empty config.certificate_fingerprint))
              config.certificate_fingerprint

        dialled : (network.dial (secure_url config host) tls w).0 ≡ none
        dialled =
            subst
              (λ b.
                (network.dial
                  (record {
                    scheme = if b then lit "wss" else lit "ws";
                    host = host ++ b':' ∷ show config.port;
                  })
                  tls w).0
                ≡ none)
              encrypted answered

    -- Where the hosts resolve, encryption is on and a dial with TLS checks the peer as crypto/tls
    -- promises: `Connect` succeeds only with a host whose first certificate has the configured
    -- fingerprint, whatever the case of its digits; without a fingerprint, only with one whose chain
    -- of certificates is trusted, unless validation is off.
    pub connect-IsVerified :
        (c : Connection World) {hosts : List Bytes}
        → resolve_hosts c.config.host ≡ ok hosts
        → c.config.encryption ≡ true
        → (connect network c).0 ≡ ok tt
        → (host : Bytes) × Memᴰ host hosts × ((w : World) × IsVerified c.config host w)
    connect-IsVerified c {hosts} resolved encrypted done =
        verified (connect network c) (connect-Outcome network c resolved) done
      where
        verified :
            (r : Result (Unit {0}) × Connection World)
            → Outcome network c.config hosts r
            → r.0 ≡ ok tt
            → (host : Bytes) × Memᴰ host hosts × ((w : World) × IsVerified c.config host w)
        verified (ok u, d) (h, (host, m, (w, a))) e =
            (host, m, (w, answer-IsVerified c.config host w encrypted a))
        verified (err x, d) h e = absurd (cc)
        verified (panic, d) h e = absurd h
