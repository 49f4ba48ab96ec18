-- ===== src/Dsn/Parse.antt =====
-- `ParseDSN` and its helpers: pkg/dsn/dsn.go, lines 174 to 299.
use go_exasol.Base.Int.{ℤ, pos}
use go_exasol.Base.{
  true, false, not, List, [], ◌∷◌, map, none, some, String, Bytes, lit, equal, if◌then◌else◌,
}
use go_exasol.Dsn.{DsnConfig}
use go_exasol.Errors.{
  new_invalid_connection_string, new_invalid_connection_string_host_or_port,
  new_invalid_connection_string_invalid_port, new_invalid_connection_string_invalid_parameter,
  new_invalid_connection_string_invalid_int_param,
}
use go_exasol.Result.{Result, ok, err, panic, ◌>>=◌}
use go_exasol.Text.Decimal.{atoi}
use go_exasol.Text.{split, split_n2, has_prefix, replace_first, replace_all}

unfoldable pub split_into_connection_string_and_parameters : Bytes → List Bytes
split_into_connection_string_and_parameters dsn = split_n2 b';' (replace_first dsn (lit "exa:") [])

-- The test `len(hostPort) != 2` and the reads of its two entries.
unfoldable pub host_and_port : Bytes → List Bytes → Result (Bytes × ℤ)
host_and_port s (host ∷ port ∷ []) = elim (atoi port) [
  | none ↦ err (new_invalid_connection_string_invalid_port port)
  | some n ↦ ok (host, n)
]
host_and_port s _ = err (new_invalid_connection_string_host_or_port s)

unfoldable pub extract_host_and_port : Bytes → Result (Bytes × ℤ)
unfolding host_and_port
extract_host_and_port s = host_and_port s (split b':' s)

unfoldable pub get_default_config : Bytes → ℤ → DsnConfig
get_default_config host port = record {
  host = host;
  port = port;
  user = [];
  password = [];
  autocommit = some true;
  encryption = some true;
  compression = some false;
  client_name = lit "Go client";
  client_version = [];
  fetch_size = pos 2000;
  query_timeout = pos 0;
  validate_server_certificate = some true;
  certificate_fingerprint = [];
  schema = [];
  result_set_max_rows = pos 0;
  params = [];
  access_token = [];
  refresh_token = [];
}

unfoldable pub extract_parameters : Bytes → List Bytes
extract_parameters s =
    map (λ p. replace_all p (lit "{{,}}") (lit "\\;"))
      (split b';' (replace_all s (lit "\\;") (lit "{{,}}")))

-- `unescape(s, ";")`
unfoldable pub unescape : Bytes → Bytes
unescape s = replace_all s (lit "\\;") (lit ";")

-- `m[key] = value`
unfoldable pub put : Bytes → Bytes → List (Bytes × Bytes) → List (Bytes × Bytes)
put key v [] = (key, v) ∷ []
put key v ((k, w) ∷ m) =
    let rest = put key v m in if equal k key then (key, v) ∷ m else (k, w) ∷ rest

abbrev pub int_param : String → Bytes → (ℤ → DsnConfig) → Result DsnConfig
int_param name v set = elim (atoi v) [
  | none ↦ err (new_invalid_connection_string_invalid_int_param (lit name) v)
  | some n ↦ ok (set n)
]

-- The `switch` of `getConfigWithParameters`.
unfoldable pub set_parameter : DsnConfig → Bytes → Bytes → Result DsnConfig
unfolding unescape put
set_parameter c key v =
    if equal key (lit "password")
    then ok (record c { password = unescape v })
    else if equal key (lit "accesstoken")
    then ok (record c { access_token = unescape v })
    else if equal key (lit "refreshtoken")
    then ok (record c { refresh_token = unescape v })
    else if equal key (lit "user")
    then ok (record c { user = unescape v })
    else if equal key (lit "autocommit")
    then ok (record c { autocommit = some (equal v (lit "1")) })
    else if equal key (lit "encryption")
    then ok (record c { encryption = some (equal v (lit "1")) })
    else if equal key (lit "validateservercertificate")
    then ok (record c { validate_server_certificate = some (not (equal v (lit "0"))) })
    else if equal key (lit "certificatefingerprint")
    then ok (record c { certificate_fingerprint = v })
    else if equal key (lit "compression")
    then ok (record c { compression = some (equal v (lit "1")) })
    else if equal key (lit "clientname")
    then ok (record c { client_name = v })
    else if equal key (lit "clientversion")
    then ok (record c { client_version = v })
    else if equal key (lit "schema")
    then ok (record c { schema = v })
    else if equal key (lit "fetchsize")
    then int_param "fetchsize" v (λ n. record c { fetch_size = n })
    else if equal key (lit "querytimeout")
    then int_param "querytimeout" v (λ n. record c { query_timeout = n })
    else if equal key (lit "resultsetmaxrows")
    then int_param "resultsetmaxrows" v (λ n. record c { result_set_max_rows = n })
    else ok (record c { params = put key (unescape v) c.params })

-- The test `len(keyValuePair) != 2`.
unfoldable pub key_value : DsnConfig → Bytes → List Bytes → Result DsnConfig
key_value c parameter (key ∷ v ∷ []) = set_parameter c key v
key_value c parameter _ = err (new_invalid_connection_string_invalid_parameter parameter)

-- The loop over the parameters.
unfoldable pub set_parameters : DsnConfig → List Bytes → Result DsnConfig
unfolding key_value
set_parameters c [] = ok c
set_parameters c (parameter ∷ ps) = do
  c' ← key_value c parameter (split_n2 b'=' parameter)
  set_parameters c' ps

unfoldable pub get_config_with_parameters : Bytes → ℤ → Bytes → Result DsnConfig
get_config_with_parameters host port s =
    set_parameters (get_default_config host port) (extract_parameters s)

-- What follows the split in `ParseDSN`: `splitDsn[0]` is read first, then the length is tested.
unfoldable pub parse_split : List Bytes → Result DsnConfig
parse_split [] = panic
parse_split (connection ∷ []) = do
  (host, port) ← extract_host_and_port connection
  ok (get_default_config host port)
parse_split (connection ∷ parameters ∷ _) = do
  (host, port) ← extract_host_and_port connection
  get_config_with_parameters host port parameters

unfoldable pub parse_dsn : Bytes → Result DsnConfig
unfolding parse_split
parse_dsn dsn =
    if has_prefix dsn (lit "exa:")
    then parse_split (split_into_connection_string_and_parameters dsn)
    else err (new_invalid_connection_string dsn)
