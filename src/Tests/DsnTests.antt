-- ===== src/Tests/DsnTests.antt =====
-- Inputs of pkg/dsn/dsn_test.go, and the theorems on data source names at such inputs.
use go_exasol.Base.Int.{pos}
use go_exasol.Base.{◌≡◌, refl, some, none, lit, false, [], ◌∷◌, Bytes, arith}
use go_exasol.Dsn.Escaping.{
  extract_parameters-cut_unescaped, cut_unescaped, placeholder_becomes_separator,
}
use go_exasol.Dsn.Extract.{IsPlain}
use go_exasol.Dsn.Flags.{
  parse_dsn-Parsed, to_internal_config-parse_dsn, IsConverted, HasFlags, HasAddress, address_of,
  Yields,
}
use go_exasol.Dsn.Parse.{
  parse_dsn, get_default_config, extract_parameters, split_into_connection_string_and_parameters,
  extract_host_and_port, get_config_with_parameters, set_parameters, set_parameter,
}
use go_exasol.Dsn.Plain.{IsPrintable}
use go_exasol.Dsn.Print.{to_dsn, bool_to_int}
use go_exasol.Dsn.Groups.{normalized}
use go_exasol.Dsn.RoundTrip.{parse_dsn-to_dsn}
use go_exasol.Dsn.{DsnConfig, new_config, build_all, set_autocommit, set_host, to_internal_config}
use go_exasol.Result.{ok, ◌>>=◌, Succeeds}
use go_exasol.Text.Decimal.{atoi, show}
use go_exasol.Text.{split, split_n2, replace_first, replace_from, trim_right}

-- `TestToDsnWithUserPassword`
abbrev text : Bytes
text =
    lit
      "exa:localhost:1234;user=sys;password=exasol;autocommit=0;compression=1;encryption=0;validateservercertificate=0;certificatefingerprint=fingerprint;fetchsize=13;querytimeout=42;clientname=clientName;clientversion=clientVersion;schema=schema"

reprint : (do c ← parse_dsn text; ok (to_dsn c)) ≡ ok text
unfolding parse_dsn to_dsn extract_host_and_port get_config_with_parameters set_parameters
    set_parameter extract_parameters get_default_config show bool_to_int trim_right split split_n2
    atoi split_into_connection_string_and_parameters replace_first replace_from
reprint = refl

-- `TestParseValidDsnWithSpecialChars`
special_chars :
    (do
      c ← parse_dsn (lit "exa:localhost:1234;user=sys;password=exasol!,@#$%^&*\\;;autocommit=1")
      ok c.password)
    ≡ ok (lit "exasol!,@#$%^&*;")
unfolding parse_dsn extract_host_and_port get_config_with_parameters set_parameters set_parameter
    extract_parameters get_default_config split split_n2 atoi
    split_into_connection_string_and_parameters replace_first replace_from
special_chars = refl

abbrev built : DsnConfig
built = record {
  host = lit "exasol1..3";
  port = pos 8563;
  user = lit "sys";
  password = lit "ex\\asol";
  autocommit = some false;
  encryption = none;
  compression = none;
  client_name = [];
  client_version = [];
  fetch_size = pos 0;
  query_timeout = pos 0;
  validate_server_certificate = none;
  certificate_fingerprint = [];
  schema = [];
  result_set_max_rows = pos 0;
  params = [];
  access_token = [];
  refresh_token = [];
}

-- The builder's methods lead there.
built_by_builder :
    build_all
      (new_config (lit "sys") (lit "ex\\asol"))
      (set_host (lit "exasol1..3") ∷ set_autocommit false ∷ [])
    ≡ built
unfolding build_all new_config
built_by_builder = refl

IsPlain-nil : IsPlain []
IsPlain-nil = record { no_separator = tt; no_brace = tt; settled = tt }

built-IsPrintable : IsPrintable built
built-IsPrintable = record {
  host_colon = omega arith;
  host_separator = omega arith;
  port = omega arith;
  user = record { no_separator = omega arith; no_brace = omega arith; settled = omega arith };
  password = record { no_separator = omega arith; no_brace = omega arith; settled = omega arith };
  access_token = IsPlain-nil;
  refresh_token = IsPlain-nil;
  certificate_fingerprint = IsPlain-nil;
  client_name = IsPlain-nil;
  client_version = IsPlain-nil;
  schema = IsPlain-nil;
  fetch_size = omega arith;
  query_timeout = omega arith;
}

parse_dsn-to_dsn_example : parse_dsn (to_dsn built) ≡ ok (normalized built)
parse_dsn-to_dsn_example = parse_dsn-to_dsn built built-IsPrintable

parse_dsn-Parsed_example :
    Yields (λ c. HasFlags c × HasAddress (address_of text) c) (parse_dsn text)
parse_dsn-Parsed_example = parse_dsn-Parsed text

to_internal_config-parse_dsn_example :
    Succeeds (IsConverted (normalized built)) (to_internal_config (normalized built))
to_internal_config-parse_dsn_example =
    to_internal_config-parse_dsn (to_dsn built) (parse_dsn-to_dsn built built-IsPrintable)

extract_parameters-cut_unescaped_example :
    extract_parameters (lit "user=sys;password=a\\;b;x=\\\\;")
    ≡ cut_unescaped (lit "user=sys;password=a\\;b;x=\\\\;")
extract_parameters-cut_unescaped_example =
    extract_parameters-cut_unescaped (lit "user=sys;password=a\\;b;x=\\\\;") (omega arith)

cut_escaped :
    cut_unescaped (lit "user=sys;password=a\\;b") ≡ lit "user=sys" ∷ lit "password=a\\;b" ∷ []
unfolding cut_unescaped
cut_escaped = refl

placeholder_becomes_separator_example :
    (get_config_with_parameters (lit "db") (pos 8563) (lit "password=a{{,}}b")
      ≡ ok (record (get_default_config (lit "db") (pos 8563)) { password = lit "a;b" }))
    × (get_config_with_parameters (lit "db") (pos 8563) (lit "schema=a{{,}}b")
        ≡ ok (record (get_default_config (lit "db") (pos 8563)) { schema = lit "a\\;b" }))
placeholder_becomes_separator_example =
    placeholder_becomes_separator (lit "db") (pos 8563) (lit "a") (lit "b") (omega arith)
      (omega arith) (omega arith) (omega arith)
