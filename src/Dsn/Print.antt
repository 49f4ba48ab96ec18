-- ===== src/Dsn/Print.antt =====
-- `ToDSN` of pkg/dsn/dsn.go, lines 128 to 172.
use go_exasol.Base.Int.{ℤ, pos, is_zero}
use go_exasol.Base.{
  Bool, true, false, List, [], ◌∷◌, ◌++◌, Option, none, some, String, Bytes, lit, if◌then◌else◌,
}
use go_exasol.Dsn.{DsnConfig, is_empty}
use go_exasol.Text.Decimal.{show}
use go_exasol.Text.{trim_right}

-- `utils.BoolToInt`
unfoldable pub bool_to_int : Bool → ℤ
bool_to_int true = pos 1
bool_to_int false = pos 0

-- `fmt.Sprintf("<key>=%s;", value)`
abbrev pub assignment : String → Bytes → Bytes
assignment key v = (lit key ++ b'=' ∷ v) ++ b';' ∷ []

abbrev pub text_assignment : String → Bytes → Bytes
text_assignment key v = if is_empty v then [] else assignment key v

abbrev pub int_assignment : String → ℤ → Bytes
int_assignment key z = if is_zero z then [] else assignment key (show z)

abbrev pub flag_assignment : String → Option Bool → Bytes
flag_assignment key none = []
flag_assignment key (some b) = assignment key (show (bool_to_int b))

-- A `strings.Builder` holds what was written, in order.
abbrev pub written : List Bytes → Bytes
written [] = []
written (piece ∷ pieces) = piece ++ written pieces

abbrev pub credentials : DsnConfig → Bytes
credentials c =
    if is_empty c.access_token
    then (if is_empty c.refresh_token
        then assignment "user" c.user ++ assignment "password" c.password
        else assignment "refreshtoken" c.refresh_token)
    else assignment "accesstoken" c.access_token

unfoldable pub to_dsn : DsnConfig → Bytes
to_dsn c = trim_right b';' (
    written (
      ((lit "exa:" ++ (c.host ++ b':' ∷ show c.port)) ++ b';' ∷ [])
      ∷ credentials c
      ∷ flag_assignment "autocommit" c.autocommit
      ∷ flag_assignment "compression" c.compression
      ∷ flag_assignment "encryption" c.encryption
      ∷ flag_assignment "validateservercertificate" c.validate_server_certificate
      ∷ text_assignment "certificatefingerprint" c.certificate_fingerprint
      ∷ int_assignment "fetchsize" c.fetch_size
      ∷ int_assignment "querytimeout" c.query_timeout
      ∷ text_assignment "clientname" c.client_name
      ∷ text_assignment "clientversion" c.client_version
      ∷ text_assignment "schema" c.schema
      ∷ []))
