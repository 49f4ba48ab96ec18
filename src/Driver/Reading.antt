-- ===== src/Driver/Reading.antt =====
-- `OpenConnector` against `ParseDSN`.
use go_exasol.Base.{◌≡◌, refl, Bytes}
use go_exasol.Config.{Config}
use go_exasol.Driver.Connecting.{Connector}
use go_exasol.Driver.{open_connector}
use go_exasol.Dsn.Flags.{Yields, IsConverted, parse_dsn-Parsed, to_internal_config-parse_dsn}
use go_exasol.Dsn.Parse.{parse_dsn}
use go_exasol.Dsn.{DsnConfig, to_internal_config}
use go_exasol.Result.{Result, ok, err, panic, Succeeds, ◌>>=◌}

abbrev pub FollowsParse : Result DsnConfig → Result Connector → Type 0
FollowsParse (ok c) r = Succeeds (λ k. IsConverted c k.config) r
FollowsParse (err e) r = r ≡ err e
FollowsParse panic r = ⊥

abbrev connector_from : Config → Result Connector
connector_from config = ok (record { config = config })

keeps_conversion :
    (c : DsnConfig) (r : Result Config)
    → Succeeds (IsConverted c) r
    → Succeeds (λ k. IsConverted c k.config) (r >>= connector_from)
keeps_conversion c (ok d) h = h
keeps_conversion c (err e) h = h
keeps_conversion c panic h = h

follows :
    (Q : DsnConfig → Type 0) (r : Result DsnConfig)
    → ((c : DsnConfig) → r ≡ ok c → Succeeds (IsConverted c) (to_internal_config c))
    → Yields Q r
    → FollowsParse r (r >>= λ c. to_internal_config c >>= connector_from)
follows Q (ok c) h y = keeps_conversion c (to_internal_config c) (h c refl)
follows Q (err e) h y = refl
follows Q panic h y = y

-- Of any text, `OpenConnector` returns the error of `ParseDSN`, or a connector with what it parsed,
-- converted; it does not panic.
pub open_connector-FollowsParse :
    (input : Bytes) → FollowsParse (parse_dsn input) (open_connector input)
unfolding open_connector
open_connector-FollowsParse input =
    follows _ (parse_dsn input) (λ c e. to_internal_config-parse_dsn input e)
      (parse_dsn-Parsed input)
