-- ===== src/Dsn/Plain.antt =====
-- The parameters that a printable configuration is printed as are plain, and none is empty.
use go_exasol.Base.Int.{ℤ, IsInt, is_zero}
use go_exasol.Base.{
  ◌≢◌, inr, List, [], ◌∷◌, ◌++◌, Option, none, some, Bool, true, false, Bytes, String, lit, arith,
  All, All-append, Lacks, if◌then◌else◌,
}
use go_exasol.Dsn.Extract.{IsPlain, Settled}
use go_exasol.Dsn.Print.{bool_to_int}
use go_exasol.Dsn.Settings.{
  pair, text_setting, int_setting, flag_setting, credential_settings, joined, groups, IsCut,
}
use go_exasol.Dsn.{DsnConfig, is_empty}
use go_exasol.Text.Decimal.{show, show-Lacks}
use go_exasol.Text.Laws.{append-ne-nil}

-- What a configuration can hold so that its text is read back: a backslash may stand anywhere but
-- at the end of a value.
pub record IsPrintable (c : DsnConfig) : Type 0 where
  pub host_colon : Lacks b':' c.host
  pub host_separator : Lacks b';' c.host
  pub port : IsInt c.port
  pub user : IsPlain c.user
  pub password : IsPlain c.password
  pub access_token : IsPlain c.access_token
  pub refresh_token : IsPlain c.refresh_token
  pub certificate_fingerprint : IsPlain c.certificate_fingerprint
  pub client_name : IsPlain c.client_name
  pub client_version : IsPlain c.client_version
  pub schema : IsPlain c.schema
  pub fetch_size : IsInt c.fetch_size
  pub query_timeout : IsInt c.query_timeout

abbrev pub IsSetting : Bytes → Type 0
IsSetting p = (p ≢ []) × IsPlain p

Settled-append : (x v : Bytes) → Settled v → Settled (x ++ b'=' ∷ v)
Settled-append [] [] h = omega arith
Settled-append [] (c ∷ v) h = h
Settled-append (d ∷ []) v h = Settled-append [] v h
Settled-append (d ∷ e ∷ x) v h = Settled-append (e ∷ x) v h

Settled-of_Lacks : (s : Bytes) → Lacks b'\\' s → Settled s
Settled-of_Lacks [] h = tt
Settled-of_Lacks (c ∷ []) h = h.0
Settled-of_Lacks (c ∷ d ∷ s) h = Settled-of_Lacks (d ∷ s) h.1

show-IsPlain : (z : ℤ) → IsPlain (show z)
show-IsPlain z = record {
  no_separator = show-Lacks b';' z (inr (omega arith)) (omega arith);
  no_brace = show-Lacks b'{' z (inr (omega arith)) (omega arith);
  settled = Settled-of_Lacks (show z) (show-Lacks b'\\' z (inr (omega arith)) (omega arith));
}

All-if :
    (b : Bool) (ps qs : List Bytes)
    → All IsSetting ps
    → All IsSetting qs
    → All IsSetting (if b then ps else qs)
All-if true ps qs h k = h
All-if false ps qs h k = k

-- A key of letters.
abbrev IsKey : String → Type 0
IsKey key = Lacks b';' (lit key) × Lacks b'{' (lit key)

module _ (key : String) (letters : IsKey key) where
  pair-IsSetting : (v : Bytes) → IsPlain v → IsSetting (pair key v)
  pair-IsSetting v h = (
    append-ne-nil (lit key) (b'=' ∷ v) (cc),
    record {
      no_separator = All-append _ (lit key) (b'=' ∷ v) letters.0 (omega arith, h.no_separator);
      no_brace = All-append _ (lit key) (b'=' ∷ v) letters.1 (omega arith, h.no_brace);
      settled = Settled-append (lit key) v h.settled;
    },
  )

  text-IsSetting : (v : Bytes) → IsPlain v → All IsSetting (text_setting key v)
  text-IsSetting [] h = tt
  text-IsSetting (c ∷ v) h = (pair-IsSetting (c ∷ v) h, tt)

  int-IsSetting : (z : ℤ) → All IsSetting (int_setting key z)
  int-IsSetting z =
      All-if (is_zero z) [] (pair key (show z) ∷ []) tt
        (pair-IsSetting (show z) (show-IsPlain z), tt)

  flag-IsSetting : (b : Option Bool) → All IsSetting (flag_setting key b)
  flag-IsSetting none = tt
  flag-IsSetting (some b) = (pair-IsSetting (show (bool_to_int b)) (show-IsPlain _), tt)

credential-IsSetting : (c : DsnConfig) → IsPrintable c → All IsSetting (credential_settings c)
credential-IsSetting c h =
    All-if (is_empty c.access_token) _ _
      (All-if (is_empty c.refresh_token) (pair "user" c.user ∷ pair "password" c.password ∷ [])
        (pair "refreshtoken" c.refresh_token ∷ [])
        (
          pair-IsSetting "user" (omega arith) c.user h.user,
          (pair-IsSetting "password" (omega arith) c.password h.password, tt),
        )
        (pair-IsSetting "refreshtoken" (omega arith) c.refresh_token h.refresh_token, tt))
      (pair-IsSetting "accesstoken" (omega arith) c.access_token h.access_token, tt)

pub groups-IsSetting : (c : DsnConfig) → IsPrintable c → All IsSetting (joined (groups c))
groups-IsSetting c h = All-append _ (credential_settings c) _ (credential-IsSetting c h) (
    All-append _ (flag_setting "autocommit" c.autocommit) _
      (flag-IsSetting "autocommit" (omega arith) _)
      (All-append _ (flag_setting "compression" c.compression) _
        (flag-IsSetting "compression" (omega arith) _)
        (All-append _ (flag_setting "encryption" c.encryption) _
          (flag-IsSetting "encryption" (omega arith) _)
          (All-append _ (flag_setting "validateservercertificate" c.validate_server_certificate) _
            (flag-IsSetting "validateservercertificate" (omega arith) _)
            (All-append _ (text_setting "certificatefingerprint" c.certificate_fingerprint) _
              (text-IsSetting "certificatefingerprint" (omega arith) _ h.certificate_fingerprint)
              (All-append _ (int_setting "fetchsize" c.fetch_size) _
                (int-IsSetting "fetchsize" (omega arith) c.fetch_size)
                (All-append _ (int_setting "querytimeout" c.query_timeout) _
                  (int-IsSetting "querytimeout" (omega arith) c.query_timeout)
                  (All-append _ (text_setting "clientname" c.client_name) _
                    (text-IsSetting "clientname" (omega arith) _ h.client_name)
                    (All-append _ (text_setting "clientversion" c.client_version) _
                      (text-IsSetting "clientversion" (omega arith) _ h.client_version)
                      (All-append _ (text_setting "schema" c.schema) []
                        (text-IsSetting "schema" (omega arith) _ h.schema) tt))))))))))

pub All-IsCut : (ps : List Bytes) → All IsSetting ps → All IsCut ps
All-IsCut [] h = tt
All-IsCut (p ∷ ps) h = ((h.0.0, h.0.1.no_separator), All-IsCut ps h.1)

pub All-IsPlain : (ps : List Bytes) → All IsSetting ps → All IsPlain ps
All-IsPlain [] h = tt
All-IsPlain (p ∷ ps) h = (h.0.1, All-IsPlain ps h.1)
