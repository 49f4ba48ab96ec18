-- ===== src/Dsn/Flags.antt =====
-- What `ParseDSN` guarantees of every result.
use go_exasol.Base.Int.{ℤ, pos}
use go_exasol.Base.{
  ◌≡◌, ◌≢◌, refl, sym, ap, ◌∙◌, List, [], ◌∷◌, Option, none, some, Bytes, lit, false, Bool-cases,
  inl, inr, ◌⊎◌, ◌↔◌, ℕ, arith, ◌&&◌,
}
use go_exasol.Dsn.Parse.{
  parse_dsn, parse_split, set_parameters, key_value, set_parameter, get_config_with_parameters,
  get_default_config, extract_host_and_port, split_into_connection_string_and_parameters,
  host_and_port, extract_parameters,
}
use go_exasol.Dsn.{DsnConfig, to_internal_config, is_empty}
use go_exasol.Result.{Result, ok, err, panic, ◌>>=◌, Succeeds}
use go_exasol.Text.{split, split_n2, replace_first, has_prefix}
use go_exasol.Config.{Config}

-- Some value of the flag is there to be read.
abbrev IsGiven {ℓ} : {A : Type ℓ} → Option A → Type 0
IsGiven none = ⊥
IsGiven (some a) = Unit

-- The four flags that `ToInternalConfig` reads through pointers.
pub record HasFlags (c : DsnConfig) : Type 0 where
  pub autocommit : IsGiven c.autocommit
  pub encryption : IsGiven c.encryption
  pub compression : IsGiven c.compression
  pub validate_server_certificate : IsGiven c.validate_server_certificate

-- What the parameters cannot change.
pub record Keeps (c d : DsnConfig) : Type 0 where
  pub flags : HasFlags d
  pub host : d.host ≡ c.host
  pub port : d.port ≡ c.port

-- A result is such a configuration, or an error: never a panic.
abbrev pub Yields : (DsnConfig → Type 0) → Result DsnConfig → Type 0
Yields P (ok d) = P d
Yields P (err e) = Unit
Yields P panic = ⊥

set_parameter-Keeps :
    (c : DsnConfig) (key v : Bytes) → HasFlags c → Yields (Keeps c) (set_parameter c key v)
unfolding set_parameter
set_parameter-Keeps c key v h = ground arith

-- The loop ends in a configuration that keeps what it was given, whatever the parameters are.
after-Keeps :
    (c : DsnConfig) (r : Result DsnConfig) (f : DsnConfig → Result DsnConfig)
    → Yields (Keeps c) r
    → ((d : DsnConfig) → Keeps c d → Yields (Keeps c) (f d))
    → Yields (Keeps c) (r >>= f)
after-Keeps c (ok d) f h k = k d h
after-Keeps c (err e) f h k = tt
after-Keeps c panic f h k = absurd h

key_value-Keeps :
    (c : DsnConfig) (p : Bytes) (parts : List Bytes)
    → HasFlags c
    → Yields (Keeps c) (key_value c p parts)
unfolding key_value
key_value-Keeps c p [] h = tt
key_value-Keeps c p (k ∷ []) h = tt
key_value-Keeps c p (k ∷ v ∷ []) h = set_parameter-Keeps c k v h
key_value-Keeps c p (k ∷ v ∷ w ∷ parts) h = tt

Keeps-trans :
    (c d : DsnConfig) (r : Result DsnConfig) → Keeps c d → Yields (Keeps d) r → Yields (Keeps c) r
Keeps-trans c d (ok e) h k = record {
  flags = k.flags;
  host = k.host ∙ h.host;
  port = k.port ∙ h.port;
}
Keeps-trans c d (err e) h k = tt
Keeps-trans c d panic h k = absurd k

set_parameters-Keeps :
    (c : DsnConfig) (ps : List Bytes) → HasFlags c → Yields (Keeps c) (set_parameters c ps)
unfolding set_parameters
set_parameters-Keeps c [] h = record { flags = h; host = refl; port = refl }
set_parameters-Keeps c (p ∷ ps) h =
    after-Keeps c (key_value c p (split_n2 b'=' p)) (λ d. set_parameters d ps)
      (key_value-Keeps c p (split_n2 b'=' p) h)
      λ d k. Keeps-trans c d (set_parameters d ps) k (set_parameters-Keeps d ps k.flags)

default-HasFlags : (host : Bytes) (port : ℤ) → HasFlags (get_default_config host port)
unfolding get_default_config
default-HasFlags host port = record {
  autocommit = tt;
  encryption = tt;
  compression = tt;
  validate_server_certificate = tt;
}

-- The address that a text starts with, as its configuration has it.
abbrev pub HasAddress : Bytes → DsnConfig → Type 0
HasAddress address c = extract_host_and_port address ≡ ok (c.host, c.port)

abbrev Parsed : Bytes → DsnConfig → Type 0
Parsed address c = HasFlags c × HasAddress address c

host_and_port-ne-panic : (s : Bytes) (parts : List Bytes) → host_and_port s parts ≢ panic
unfolding host_and_port
host_and_port-ne-panic s [] = ground arith
host_and_port-ne-panic s (h ∷ []) = ground arith
host_and_port-ne-panic s (h ∷ p ∷ []) = ground arith
host_and_port-ne-panic s (h ∷ p ∷ q ∷ parts) = ground arith

with_address :
    (address : Bytes) (r : Result (Bytes × ℤ)) (f : Bytes → ℤ → Result DsnConfig)
    → extract_host_and_port address ≡ r
    → r ≢ panic
    → ((host : Bytes) (port : ℤ) → Yields (Keeps (get_default_config host port)) (f host port))
    → Yields (Parsed address) (r >>= λ t. f t.0 t.1)
with_address address (ok (host, port)) f e ne h = parsed (f host port) (h host port)
  where
    parsed :
        (r : Result DsnConfig)
        → Yields (Keeps (get_default_config host port)) r
        → Yields (Parsed address) r
    parsed (ok d) k =
        (k.flags, e ∙ unfold get_default_config in ap ok (λ i. (sym k.host i, sym k.port i)))
    parsed (err x) k = tt
    parsed panic k = absurd k
with_address address (err x) f e ne h = tt
with_address address panic f e ne h = absurd (ne refl)

parse_split-Parsed :
    (address : Bytes) (rest : List Bytes) → Yields (Parsed address) (parse_split (address ∷ rest))
unfolding parse_split get_config_with_parameters extract_host_and_port
parse_split-Parsed address [] =
    with_address address (extract_host_and_port address) (λ h p. ok (get_default_config h p)) refl
      (host_and_port-ne-panic address (split b':' address))
      λ h p. record { flags = default-HasFlags h p; host = refl; port = refl }
parse_split-Parsed address (parameters ∷ rest) =
    with_address address (extract_host_and_port address)
      (λ h p. set_parameters (get_default_config h p) (extract_parameters parameters)) refl
      (host_and_port-ne-panic address (split b':' address))
      λ h p. set_parameters-Keeps _ (extract_parameters parameters) (default-HasFlags h p)

abbrev first : List Bytes → Bytes
first [] = []
first (p ∷ ps) = p

pub split_n2-ne-nil : (sep : ℕ) (s : Bytes) → split_n2 sep s ≢ []
unfolding split_n2
split_n2-ne-nil sep [] = λ e. cc
split_n2-ne-nil sep (c ∷ s) = ground arith

-- The text between the prefix and the first separator.
abbrev pub address_of : Bytes → Bytes
address_of dsn = first (split_into_connection_string_and_parameters dsn)

parse_parts-Parsed :
    (parts : List Bytes) → parts ≢ [] → Yields (Parsed (first parts)) (parse_split parts)
parse_parts-Parsed [] h = absurd (h refl)
parse_parts-Parsed (p ∷ ps) h = parse_split-Parsed p ps

-- Of any text whatever, `ParseDSN` returns an error, or a configuration with all four flags set and
-- the address that the text starts with: it does not panic, and no parameter changes the address.
pub parse_dsn-Parsed :
    (dsn : Bytes) → Yields (λ c. HasFlags c × HasAddress (address_of dsn) c) (parse_dsn dsn)
unfolding parse_dsn split_into_connection_string_and_parameters
parse_dsn-Parsed dsn = elim (Bool-cases (has_prefix dsn (lit "exa:"))) [
  | inl e ↦ rw e (parse_parts-Parsed _ (split_n2-ne-nil b';' (replace_first dsn (lit "exa:") [])))
  | inr e ↦ rw e tt
]

-- The internal configuration that belongs to a parsed one: each flag by its value, all else as it
-- is, and the protocol version by the credentials.
pub record IsConverted (c : DsnConfig) (d : Config) : Type 0 where
  pub version :
      (d.api_version ≡ pos 3) ↔ ((is_empty c.access_token && is_empty c.refresh_token) ≡ false)
  pub version_range : (d.api_version ≡ pos 2) ⊎ (d.api_version ≡ pos 3)
  pub autocommit : c.autocommit ≡ some d.autocommit
  pub encryption : c.encryption ≡ some d.encryption
  pub compression : c.compression ≡ some d.compression
  pub validate_server_certificate :
      c.validate_server_certificate ≡ some d.validate_server_certificate
  pub certificate_fingerprint : d.certificate_fingerprint ≡ c.certificate_fingerprint
  pub address : (d.host ≡ c.host) × (d.port ≡ c.port)
  pub credentials :
      (d.user ≡ c.user)
      × (d.password ≡ c.password)
      × (d.access_token ≡ c.access_token)
      × (d.refresh_token ≡ c.refresh_token)
  pub limits :
      (d.fetch_size ≡ c.fetch_size)
      × (d.query_timeout ≡ c.query_timeout)
      × (d.result_set_max_rows ≡ c.result_set_max_rows)
  pub client :
      (d.client_name ≡ c.client_name)
      × (d.client_version ≡ c.client_version)
      × (d.schema ≡ c.schema)
      × (d.params ≡ c.params)

converts : (c : DsnConfig) → HasFlags c → Succeeds (IsConverted c) (to_internal_config c)
unfolding to_internal_config
converts c h = ground arith

-- Every configuration that is parsed converts: no flag is read through a nil pointer, each setting
-- arrives unchanged, and the protocol version is 3 exactly when there is a token, and else 2.
pub to_internal_config-parse_dsn :
    (dsn : Bytes) {c : DsnConfig}
    → parse_dsn dsn ≡ ok c
    → Succeeds (IsConverted c) (to_internal_config c)
to_internal_config-parse_dsn dsn {c} e = converts c (rw e at (parse_dsn-Parsed dsn)).0
