-- ===== src/Tests/TlsTests.antt =====
-- The theorem on the servers that are trusted, at a server whose certificate is pinned.
use go_exasol.Base.{◌≡◌, refl, Bool, true, false, List, [], ◌∷◌, Option, none, some, Bytes, lit}
use mathlib.Core.List.{Memᴰ}
use go_exasol.Config.{Config}
use go_exasol.Connection.Connect.{Network, connect}
use go_exasol.Connection.Pinned.{ChecksPeer, IsVerified, connect-IsVerified}
use go_exasol.Connection.Tls.{tls_config}
use go_exasol.Driver.Connecting.{unconnected}
use go_exasol.Errors.{Error, bad_conn}
use go_exasol.Fingerprint.{certificate_verifier, hex, sha256_hex}
use go_exasol.Hosts.Shuffle.{shuffle_hosts}
use go_exasol.Hosts.{resolve_hosts}
use go_exasol.Result.{Result, ok, err, panic}
use go_exasol.Tests.HostTests.{cluster, three, three_hosts, network}
use go_exasol.Text.Decimal.{atoi, show}
use go_exasol.Text.{split}

-- The certificates that every server shows; no authority signed them.
abbrev shown : List Bytes
shown = lit "o" ∷ []

-- The end of a handshake: the chain is verified unless this is skipped, then the driver is asked.
abbrev handshake : Bool → Result (Unit {0}) → Option Error
handshake true (ok u) = none
handshake true (err e) = some e
handshake true panic = some bad_conn
handshake false r = some bad_conn

abbrev tls_network : Network Bytes
tls_network = record network {
  dial = λ url tls w. (handshake tls.insecure_skip_verify (tls.verify_peer_certificate shown), w);
}

handshake-none :
    (skip : Bool) (r : Result (Unit {0})) → handshake skip r ≡ none → (skip ≡ true) × (r ≡ ok tt)
handshake-none true (ok tt) h = (refl, refl)
handshake-none true (err e) h = absurd (cc)
handshake-none true panic h = absurd (cc)
handshake-none false r h = absurd (cc)

tls_checks : ChecksPeer tls_network (λ url w. shown) (λ url w. false)
tls_checks = record {
  accepted = λ url tls w s h. (handshake-none _ _ h).1;
  chain = λ url tls w s h verify. absurd (cc (handshake-none tls.insecure_skip_verify _ h).0);
}

abbrev pinned : Config
pinned = record cluster { encryption = true; certificate_fingerprint = lit "6F" }

pinned_connects : (connect tls_network (unconnected (record { config = pinned }) [])).0 ≡ ok tt
unfolding connect certificate_verifier shuffle_hosts resolve_hosts split atoi show tls_config
    sha256_hex hex
pinned_connects = refl

connect-IsVerified_example :
    (host : Bytes) × Memᴰ host three
    × ((w : Bytes) × IsVerified tls_network (λ url v. shown) (λ url v. false) pinned host w)
connect-IsVerified_example =
    connect-IsVerified tls_network (λ url v. shown) (λ url v. false) tls_checks
      (unconnected (record { config = pinned }) []) three_hosts refl pinned_connects
