-- ===== src/Tests/HostTests.antt =====
-- The theorems on hosts and on opening a connection, at a cluster of which one host answers.
use go_exasol.Base.Int.{pos, max_int}
use go_exasol.Base.{
  ◌-◌, ◌≡◌, refl, List, [], ◌∷◌, none, some, Bytes, lit, arith, if◌then◌else◌, equal,
}
use go_exasol.Config.{Config}
use go_exasol.Connection.Connect.{Network, connect}
use go_exasol.Connection.Reach.{answer, Outcome, connect-Outcome}
use go_exasol.Driver.Connecting.{Connector, connect_connector, unconnected}
use go_exasol.Driver.Reading.{FollowsParse, open_connector-FollowsParse}
use go_exasol.Driver.{open_connector}
use go_exasol.Dsn.Parse.{parse_dsn}
use go_exasol.Errors.{bad_conn}
use go_exasol.Hosts.Entries.{HostEntry, single, range, joined, listed, resolve_hosts-joined}
use go_exasol.Hosts.Range.{hosts_from_max}
use go_exasol.Hosts.Shuffle.{shuffle_hosts}
use go_exasol.Hosts.{resolve_hosts, hosts_from}
use go_exasol.Result.{ok}
use go_exasol.Tests.Samples.{wire, host, config}
use go_exasol.Connection.Login.{login, pre_login}
use go_exasol.Connection.Send.{send}
use go_exasol.Text.{split}
use go_exasol.Text.Decimal.{atoi, show}
use go_exasol.Wire.{background}

-- The text db11..12,backup.
abbrev nodes : HostEntry
nodes = range (lit "d") b'b' 11 12

abbrev backup : HostEntry
backup = single (lit "backup")

resolve_hosts-joined_example :
    resolve_hosts (joined nodes (backup ∷ [])) ≡ ok (listed (nodes ∷ backup ∷ []))
resolve_hosts-joined_example =
    resolve_hosts-joined nodes (backup ∷ []) (ground arith) (ground arith)

pub three_hosts :
    resolve_hosts (lit "db11..12,backup") ≡ ok (lit "db11" ∷ lit "db12" ∷ lit "backup" ∷ [])
unfolding resolve_hosts split atoi show
three_hosts = refl

hosts_from_max_example : hosts_from 3 (lit "db") (pos (max_int - 1)) (pos max_int) ≡ none
hosts_from_max_example = hosts_from_max 3 (lit "db") (pos (max_int - 1)) (omega arith)

abbrev pub network : Network Bytes
network = record {
  dial = λ url tls w. (if equal url.host (lit "db12:8563") then none else some bad_conn, w);
  random = λ w. (0, w);
  quoted = λ url. url.host;
  sha256 = λ s. s;
}

abbrev pub cluster : Config
cluster = record config { host = lit "db11..12,backup" }

pub db12_answers : (w : Bytes) → answer network cluster (lit "db12") w ≡ none
unfolding show
db12_answers w = refl

abbrev pub connector : Connector
connector = record { config = cluster }

abbrev pub three : List Bytes
three = lit "db11" ∷ lit "db12" ∷ lit "backup" ∷ []

connect-Outcome_example : Outcome network cluster three (connect network (unconnected connector []))
connect-Outcome_example = connect-Outcome network (unconnected connector []) three_hosts

pub connects : (connect_connector wire host network connector background []).0 ≡ ok tt
unfolding connect_connector connect shuffle_hosts resolve_hosts split atoi show login pre_login send
connects = refl

open_connector-FollowsParse_example :
    FollowsParse
      (parse_dsn (lit "exa:db1..3:8563;user=sys;password=exasol;autocommit=0"))
      (open_connector (lit "exa:db1..3:8563;user=sys;password=exasol;autocommit=0"))
open_connector-FollowsParse_example =
    open_connector-FollowsParse (lit "exa:db1..3:8563;user=sys;password=exasol;autocommit=0")

-- The draw of zeros moves each host one place up.
shuffled : (shuffle_hosts network.random three []).0 ≡ lit "db12" ∷ lit "backup" ∷ lit "db11" ∷ []
unfolding shuffle_hosts
shuffled = refl
