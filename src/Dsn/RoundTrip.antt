-- ===== src/Dsn/RoundTrip.antt =====
-- `ParseDSN` reads what `ToDSN` prints.
use go_exasol.Base.Int.{ℤ, IsInt}
use go_exasol.Base.{
  ◌≡◌, ◌≢◌, refl, sym, ap, ◌∙◌, subst, List, [], ◌∷◌, ◌++◌, Bytes, lit, arith, All, All-append,
  Lacks, append_assoc, inr,
}
use go_exasol.Dsn.Extract.{IsPlain, separated, extract_parameters-separated}
use go_exasol.Dsn.Plain.{IsPrintable, IsSetting, groups-IsSetting, All-IsCut, All-IsPlain}
use go_exasol.Dsn.Parse.{
  parse_dsn, get_default_config, get_config_with_parameters, extract_host_and_port, set_parameters,
  split_into_connection_string_and_parameters,
}
use go_exasol.Dsn.Print.{to_dsn}
use go_exasol.Dsn.Settings.{
  credential_settings, joined, groups, written_settings, trim-written, terminated,
}
use go_exasol.Dsn.{DsnConfig}
use go_exasol.Result.{ok}
use go_exasol.Text.Decimal.{show, atoi-show, show-Lacks}
use go_exasol.Text.Laws.{split-Lacks, split_at, split_n2_at}
use go_exasol.Text.{replace_first, trim_right}
use go_exasol.Dsn.Groups.{normalized, read_groups}

-- The text is the address and then the parameters, each behind a separator.
to_dsn-separated :
    (c : DsnConfig) (p : Bytes) (ps : List Bytes)
    → joined (groups c) ≡ p ∷ ps
    → IsPrintable c
    → to_dsn c ≡ (lit "exa:" ++ (c.host ++ b':' ∷ show c.port)) ++ separated (p ∷ ps)
unfolding to_dsn
to_dsn-separated c p ps e h =
    let settings = subst (All IsSetting) e (groups-IsSetting c h) in
    ap (trim_right b';') (
      written_settings (lit "exa:" ++ (c.host ++ b':' ∷ show c.port)) c
      ∙ ap (λ gs. ((lit "exa:" ++ (c.host ++ b':' ∷ show c.port)) ++ b';' ∷ []) ++ terminated gs) e)
    ∙ trim-written (lit "exa:" ++ (c.host ++ b':' ∷ show c.port)) p ps
        (All-IsCut (p ∷ ps) settings).0 (All-IsCut ps settings.1)

read_address :
    (host : Bytes) (port : ℤ)
    → Lacks b':' host
    → IsInt port
    → extract_host_and_port (host ++ b':' ∷ show port) ≡ ok (host, port)
unfolding extract_host_and_port
read_address host port colon h =
    rw
      (
        split_at b':' host (show port) colon,
        split-Lacks b':' (show port) (show-Lacks b':' port (inr (omega arith)) (omega arith)),
      )
      (ground (arith, atoi-show port h))

credential_settings-ne-nil : (c : DsnConfig) → credential_settings c ≢ []
credential_settings-ne-nil c = ground arith

first_of :
    (ps qs : List Bytes) → ps ≢ [] → (p : Bytes) × (rest : List Bytes) × (ps ++ qs ≡ p ∷ rest)
first_of [] qs h = absurd (h refl)
first_of (p ∷ ps) qs h = (p, ps ++ qs, refl)

-- At least one parameter is printed.
first_setting : (c : DsnConfig) → (p : Bytes) × (ps : List Bytes) × (joined (groups c) ≡ p ∷ ps)
first_setting c = first_of (credential_settings c) _ (credential_settings-ne-nil c)

address-Lacks : (c : DsnConfig) → IsPrintable c → Lacks b';' (c.host ++ b':' ∷ show c.port)
address-Lacks c h =
    All-append _ c.host (b':' ∷ show c.port) h.host_separator
      (omega arith, show-Lacks b';' c.port (inr (omega arith)) (omega arith))

-- What the parser makes of an address and plain parameters.
parse_separated :
    (address p : Bytes) (ps : List Bytes) {host : Bytes} {port : ℤ}
    → Lacks b';' address
    → extract_host_and_port address ≡ ok (host, port)
    → IsPlain p
    → All IsPlain ps
    → parse_dsn (lit "exa:" ++ (address ++ separated (p ∷ ps)))
      ≡ set_parameters (get_default_config host port) (p ∷ ps)
unfolding parse_dsn split_into_connection_string_and_parameters replace_first
    get_config_with_parameters
parse_separated address p ps lacks read h hs =
    rw (split_n2_at b';' address (p ++ separated ps) lacks)
      (rw read (rw (extract_parameters-separated p ps h hs)))

-- The parser reads back what `ToDSN` prints of every printable configuration: the credentials that
-- were chosen, the defaults for what is left open, and all else but the row limit and the free
-- parameters as it was.
pub parse_dsn-to_dsn : (c : DsnConfig) → IsPrintable c → parse_dsn (to_dsn c) ≡ ok (normalized c)
parse_dsn-to_dsn c h =
    let (p, ps, e) = first_setting c in
    let settings = subst (All IsSetting) e (groups-IsSetting c h) in
    let plain = All-IsPlain (p ∷ ps) settings in
    ap parse_dsn (
      to_dsn-separated c p ps e h
      ∙ append_assoc (lit "exa:") (c.host ++ b':' ∷ show c.port) (separated (p ∷ ps)))
    ∙ parse_separated (c.host ++ b':' ∷ show c.port) p ps (address-Lacks c h)
        (read_address c.host c.port h.host_colon h.port) plain.0 plain.1
    ∙ ap (set_parameters (get_default_config c.host c.port)) (sym e)
    ∙ read_groups c h
