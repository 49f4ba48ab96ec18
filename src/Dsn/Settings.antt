-- ===== src/Dsn/Settings.antt =====
-- What `ToDSN` prints, as a list of parameters with separators between them.
use go_exasol.Base.Int.{ℤ, is_zero}
use go_exasol.Base.{
  ◌≡◌, ◌≢◌, refl, sym, ap, ◌∙◌, List, [], ◌∷◌, ◌++◌, map, Option, none, some, Bool, Bytes, String,
  lit, arith, All, Lacks, append-nil, append_assoc, if◌then◌else◌,
}
use go_exasol.Dsn.Extract.{separated}
use go_exasol.Dsn.Print.{
  bool_to_int, text_assignment, int_assignment, flag_assignment, credentials, written,
}
use go_exasol.Dsn.{DsnConfig, is_empty}
use go_exasol.Text.Decimal.{show}
use go_exasol.Text.Laws.{trim_right_sep, trim_right-append, trim_right-Lacks}
use go_exasol.Text.{trim_right}

-- The parameters that a configuration is printed as, without the separators.
abbrev pub pair : String → Bytes → Bytes
pair key v = lit key ++ b'=' ∷ v

abbrev pub text_setting : String → Bytes → List Bytes
text_setting key v = if is_empty v then [] else pair key v ∷ []

abbrev pub int_setting : String → ℤ → List Bytes
int_setting key z = if is_zero z then [] else pair key (show z) ∷ []

abbrev pub flag_setting : String → Option Bool → List Bytes
flag_setting key none = []
flag_setting key (some b) = pair key (show (bool_to_int b)) ∷ []

abbrev pub credential_settings : DsnConfig → List Bytes
credential_settings c =
    if is_empty c.access_token
    then (if is_empty c.refresh_token
        then pair "user" c.user ∷ pair "password" c.password ∷ []
        else pair "refreshtoken" c.refresh_token ∷ [])
    else pair "accesstoken" c.access_token ∷ []

abbrev pub joined : List (List Bytes) → List Bytes
joined [] = []
joined (g ∷ gs) = g ++ joined gs

abbrev pub groups : DsnConfig → List (List Bytes)
groups c =
    credential_settings c
    ∷ flag_setting "autocommit" c.autocommit
    ∷ flag_setting "compression" c.compression
    ∷ flag_setting "encryption" c.encryption
    ∷ flag_setting "validateservercertificate" c.validate_server_certificate
    ∷ text_setting "certificatefingerprint" c.certificate_fingerprint
    ∷ int_setting "fetchsize" c.fetch_size
    ∷ int_setting "querytimeout" c.query_timeout
    ∷ text_setting "clientname" c.client_name
    ∷ text_setting "clientversion" c.client_version
    ∷ text_setting "schema" c.schema
    ∷ []

-- Each parameter with the separator behind it.
abbrev pub terminated : List Bytes → Bytes
terminated [] = []
terminated (p ∷ ps) = (p ++ b';' ∷ []) ++ terminated ps

terminated-append : (ps qs : List Bytes) → terminated (ps ++ qs) ≡ terminated ps ++ terminated qs
terminated-append [] qs = refl
terminated-append (p ∷ ps) qs = simp (terminated-append ps, append_assoc)

written-terminated : (gs : List (List Bytes)) → written (map terminated gs) ≡ terminated (joined gs)
written-terminated [] = refl
written-terminated (g ∷ gs) =
    rw (terminated-append g (joined gs)) (ap (◌++◌ (terminated g)) (written-terminated gs))

text_piece : (key : String) (v : Bytes) → text_assignment key v ≡ terminated (text_setting key v)
text_piece key [] = refl
text_piece key (c ∷ v) = sym (append-nil _)

int_piece : (key : String) (z : ℤ) → int_assignment key z ≡ terminated (int_setting key z)
int_piece key z = ground (arith, append-nil (pair key (show z) ++ b';' ∷ []))

flag_piece :
    (key : String) (b : Option Bool) → flag_assignment key b ≡ terminated (flag_setting key b)
flag_piece key none = refl
flag_piece key (some b) = sym (append-nil _)

credential_piece : (c : DsnConfig) → credentials c ≡ terminated (credential_settings c)
credential_piece c = ground (
  arith,
  append-nil (pair "password" c.password ++ b';' ∷ []),
  append-nil (pair "refreshtoken" c.refresh_token ++ b';' ∷ []),
  append-nil (pair "accesstoken" c.access_token ++ b';' ∷ []),
)

pub written_settings :
    (base : Bytes) (c : DsnConfig)
    → written (
        (base ++ b';' ∷ [])
        ∷ credentials c
        ∷ flag_assignment "autocommit" c.autocommit
        ∷ flag_assignment "compression" c.compression
        ∷ flag_assignment "encryption" c.encryption
        ∷ flag_assignment "validateservercertificate" c.validate_server_certificate
        ∷ text_assignment "certificatefingerprint" c.certificate_fingerprint
        ∷ int_assignment "fetchsize" c.fetch_size
        ∷ int_assignment "querytimeout" c.query_timeout
        ∷ text_assignment "clientname" c.client_name
        ∷ text_assignment "clientversion" c.client_version
        ∷ text_assignment "schema" c.schema
        ∷ [])
      ≡ (base ++ b';' ∷ []) ++ terminated (joined (groups c))
written_settings base c =
    rw
      (
        credential_piece c,
        flag_piece "autocommit" c.autocommit,
        flag_piece "compression" c.compression,
        flag_piece "encryption" c.encryption,
        flag_piece "validateservercertificate" c.validate_server_certificate,
        text_piece "certificatefingerprint" c.certificate_fingerprint,
        int_piece "fetchsize" c.fetch_size,
        int_piece "querytimeout" c.query_timeout,
        text_piece "clientname" c.client_name,
        text_piece "clientversion" c.client_version,
        text_piece "schema" c.schema,
      )
      (ap (◌++◌ (base ++ b';' ∷ [])) (written-terminated (groups c)))

terminated-separated : (ps : List Bytes) → b';' ∷ terminated ps ≡ separated ps ++ b';' ∷ []
terminated-separated [] = refl
terminated-separated (p ∷ ps) = ap (◌∷◌ b';') (
    append_assoc p (b';' ∷ []) (terminated ps)
    ∙ ap (◌++◌ p) (terminated-separated ps)
    ∙ sym (append_assoc p (separated ps) (b';' ∷ [])))

-- No parameter is empty, and none holds a separator.
abbrev pub IsCut : Bytes → Type 0
IsCut p = (p ≢ []) × Lacks b';' p

separated-ne-nil : (p : Bytes) (ps : List Bytes) → separated (p ∷ ps) ≢ []
separated-ne-nil p ps e = cc

trim-separated :
    (p : Bytes) (ps : List Bytes)
    → IsCut p
    → All IsCut ps
    → trim_right b';' (separated (p ∷ ps)) ≡ separated (p ∷ ps)
trim-separated p [] h hs =
    rw (append-nil p) (trim_right-append b';' (b';' ∷ []) p h.0 (trim_right-Lacks b';' p h.1))
trim-separated p (q ∷ ps) h hs =
    trim_right-append b';' (b';' ∷ p) (separated (q ∷ ps)) (separated-ne-nil q ps)
      (trim-separated q ps hs.0 hs.1)

pub trim-written :
    (base p : Bytes) (ps : List Bytes)
    → IsCut p
    → All IsCut ps
    → trim_right b';' ((base ++ b';' ∷ []) ++ terminated (p ∷ ps)) ≡ base ++ separated (p ∷ ps)
trim-written base p ps h hs =
    ap (trim_right b';') (
      append_assoc base (b';' ∷ []) (terminated (p ∷ ps))
      ∙ ap (◌++◌ base) (terminated-separated (p ∷ ps))
      ∙ sym (append_assoc base (separated (p ∷ ps)) (b';' ∷ [])))
    ∙ trim_right_sep b';' (base ++ separated (p ∷ ps))
    ∙ trim_right-append b';' base (separated (p ∷ ps)) (separated-ne-nil p ps)
        (trim-separated p ps h hs)
