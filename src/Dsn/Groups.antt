-- ===== src/Dsn/Groups.antt =====
-- What `ParseDSN` makes of each group of settings that `ToDSN` prints.
use go_exasol.Base.Int.{ℤ, pos, is_zero, IsInt}
use go_exasol.Base.{
  ◌≡◌, refl, List, [], ◌∷◌, ◌++◌, Option, none, some, Bool, true, false, Bytes, lit, arith,
  if◌then◌else◌,
}
use go_exasol.Dsn.Extract.{IsPlain}
use go_exasol.Dsn.Plain.{IsPrintable}
use go_exasol.Dsn.Parse.{get_default_config, set_parameters, key_value, set_parameter, unescape}
use go_exasol.Dsn.Print.{bool_to_int}
use go_exasol.Dsn.Settings.{
  text_setting, int_setting, flag_setting, credential_settings, joined, groups,
}
use go_exasol.Dsn.{DsnConfig, is_empty}
use go_exasol.Result.{ok, ◌>>=◌, >>=_regroup}
use go_exasol.Text.Decimal.{show, atoi-show}
use go_exasol.Text.Laws.{replace_all-Lacks_second}
use go_exasol.Text.{split_n2}

abbrev or_default : Bytes → Bytes → Bytes
or_default v d = if is_empty v then d else v

abbrev or_default_int : ℤ → ℤ → ℤ
or_default_int z d = if is_zero z then d else z

abbrev keep_flag : Option Bool → Option Bool → Option Bool
keep_flag none d = d
keep_flag (some b) d = some b

-- The first text where there is no token, and else the second.
abbrev without : Bytes → Bytes → Bytes → Bytes
without token v w = if is_empty token then v else w

-- The configuration that the text stands for: the credentials that were chosen, the defaults for
-- what was left open, and neither the row limit nor the free parameters.
abbrev pub normalized : DsnConfig → DsnConfig
normalized c = record {
  host = c.host;
  port = c.port;
  user = without c.access_token (without c.refresh_token c.user []) [];
  password = without c.access_token (without c.refresh_token c.password []) [];
  autocommit = keep_flag c.autocommit (some true);
  encryption = keep_flag c.encryption (some true);
  compression = keep_flag c.compression (some false);
  client_name = or_default c.client_name (lit "Go client");
  client_version = or_default c.client_version [];
  fetch_size = or_default_int c.fetch_size (pos 2000);
  query_timeout = or_default_int c.query_timeout (pos 0);
  validate_server_certificate = keep_flag c.validate_server_certificate (some true);
  certificate_fingerprint = or_default c.certificate_fingerprint [];
  schema = or_default c.schema [];
  result_set_max_rows = pos 0;
  params = [];
  access_token = without c.access_token [] c.access_token;
  refresh_token = without c.access_token (without c.refresh_token [] c.refresh_token) [];
}

-- The loop over two runs of parameters is one loop after the other.
set_parameters-append :
    (ps qs : List Bytes) (d : DsnConfig)
    → set_parameters d (ps ++ qs) ≡ (set_parameters d ps >>= λ e. set_parameters e qs)
unfolding set_parameters
set_parameters-append [] qs d = refl
set_parameters-append (p ∷ ps) qs d =
    >>=_regroup (key_value d p (split_n2 b'=' p)) (λ e. set_parameters e (ps ++ qs))
      (λ e. set_parameters e ps) (λ e. set_parameters e qs) (set_parameters-append ps qs)

unescape-plain : (v : Bytes) → IsPlain v → unescape v ≡ v
unfolding unescape
unescape-plain v h = replace_all-Lacks_second b'\\' b';' [] (lit ";") v h.no_separator

-- What the loop makes of each group of settings.
module _ (d : DsnConfig) where
  read_credentials :
      (c : DsnConfig)
      → IsPrintable c
      → set_parameters d (credential_settings c)
        ≡ ok (record d {
          user = without c.access_token (without c.refresh_token c.user d.user) d.user;
          password =
              without c.access_token (without c.refresh_token c.password d.password) d.password;
          refresh_token =
              without c.access_token
                (without c.refresh_token d.refresh_token c.refresh_token)
                d.refresh_token;
          access_token = without c.access_token d.access_token c.access_token;
        })
  unfolding set_parameters set_parameter split_n2
  read_credentials c h = ground (
    arith,
    unescape-plain c.user h.user,
    unescape-plain c.password h.password,
    unescape-plain c.refresh_token h.refresh_token,
    unescape-plain c.access_token h.access_token,
  )

  read_autocommit :
      (b : Option Bool)
      → set_parameters d (flag_setting "autocommit" b)
        ≡ ok (record d { autocommit = keep_flag b d.autocommit })
  unfolding set_parameters set_parameter split_n2 show bool_to_int
  read_autocommit none = refl
  read_autocommit (some true) = refl
  read_autocommit (some false) = refl

  read_compression :
      (b : Option Bool)
      → set_parameters d (flag_setting "compression" b)
        ≡ ok (record d { compression = keep_flag b d.compression })
  unfolding set_parameters set_parameter split_n2 show bool_to_int
  read_compression none = refl
  read_compression (some true) = refl
  read_compression (some false) = refl

  read_encryption :
      (b : Option Bool)
      → set_parameters d (flag_setting "encryption" b)
        ≡ ok (record d { encryption = keep_flag b d.encryption })
  unfolding set_parameters set_parameter split_n2 show bool_to_int
  read_encryption none = refl
  read_encryption (some true) = refl
  read_encryption (some false) = refl

  read_validate :
      (b : Option Bool)
      → set_parameters d (flag_setting "validateservercertificate" b)
        ≡ ok (record d { validate_server_certificate = keep_flag b d.validate_server_certificate })
  unfolding set_parameters set_parameter split_n2 show bool_to_int
  read_validate none = refl
  read_validate (some true) = refl
  read_validate (some false) = refl

  read_fingerprint :
      (v : Bytes)
      → set_parameters d (text_setting "certificatefingerprint" v)
        ≡ ok (record d { certificate_fingerprint = or_default v d.certificate_fingerprint })
  unfolding set_parameters set_parameter split_n2
  read_fingerprint [] = refl
  read_fingerprint (x ∷ v) = refl

  read_client_name :
      (v : Bytes)
      → set_parameters d (text_setting "clientname" v)
        ≡ ok (record d { client_name = or_default v d.client_name })
  unfolding set_parameters set_parameter split_n2
  read_client_name [] = refl
  read_client_name (x ∷ v) = refl

  read_client_version :
      (v : Bytes)
      → set_parameters d (text_setting "clientversion" v)
        ≡ ok (record d { client_version = or_default v d.client_version })
  unfolding set_parameters set_parameter split_n2
  read_client_version [] = refl
  read_client_version (x ∷ v) = refl

  read_schema :
      (v : Bytes)
      → set_parameters d (text_setting "schema" v)
        ≡ ok (record d { schema = or_default v d.schema })
  unfolding set_parameters set_parameter split_n2
  read_schema [] = refl
  read_schema (x ∷ v) = refl

  read_fetch_size :
      (z : ℤ)
      → IsInt z
      → set_parameters d (int_setting "fetchsize" z)
        ≡ ok (record d { fetch_size = or_default_int z d.fetch_size })
  unfolding set_parameters set_parameter split_n2
  read_fetch_size z h = ground (arith, atoi-show z h)

  read_query_timeout :
      (z : ℤ)
      → IsInt z
      → set_parameters d (int_setting "querytimeout" z)
        ≡ ok (record d { query_timeout = or_default_int z d.query_timeout })
  unfolding set_parameters set_parameter split_n2
  read_query_timeout z h = ground (arith, atoi-show z h)

then_read :
    (d : DsnConfig) {e f : DsnConfig} (ps qs : List Bytes)
    → set_parameters d ps ≡ ok e
    → set_parameters e qs ≡ ok f
    → set_parameters d (ps ++ qs) ≡ ok f
then_read d ps qs h k = rw (set_parameters-append, h) k

pub read_groups :
    (c : DsnConfig)
    → IsPrintable c
    → set_parameters (get_default_config c.host c.port) (joined (groups c)) ≡ ok (normalized c)
unfolding set_parameters get_default_config
read_groups c h = then_read _ (credential_settings c) _ (read_credentials _ c h) (
    then_read _ (flag_setting "autocommit" c.autocommit) _ (read_autocommit _ c.autocommit) (
      then_read _ (flag_setting "compression" c.compression) _ (read_compression _ c.compression) (
        then_read _ (flag_setting "encryption" c.encryption) _ (read_encryption _ c.encryption) (
          then_read _ (flag_setting "validateservercertificate" c.validate_server_certificate) _
            (read_validate _ c.validate_server_certificate)
            (then_read _ (text_setting "certificatefingerprint" c.certificate_fingerprint) _
              (read_fingerprint _ c.certificate_fingerprint)
              (then_read _ (int_setting "fetchsize" c.fetch_size) _
                (read_fetch_size _ c.fetch_size h.fetch_size)
                (then_read _ (int_setting "querytimeout" c.query_timeout) _
                  (read_query_timeout _ c.query_timeout h.query_timeout)
                  (then_read _ (text_setting "clientname" c.client_name) _
                    (read_client_name _ c.client_name)
                    (then_read _ (text_setting "clientversion" c.client_version) _
                      (read_client_version _ c.client_version)
                      (then_read _ (text_setting "schema" c.schema) _ (read_schema _ c.schema)
                        refl))))))))))
