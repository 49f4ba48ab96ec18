-- ===== src/Connection/Reach.antt =====
-- What `Connect` comes to: the host that it reaches, or the refusal of every host.
use mathlib.Core.List.Permᴰ
use mathlib.Core.List.Memᴰ
use mathlib.Core.List.{Memᴰ, Permᴰ}
use go_exasol.Base.{
  Option-cases, not, ◌||◌, lit, if◌then◌else◌, ◌≡◌, ◌≢◌, refl, sym, ap, subst, ◌∙◌, true, false,
  List, [], ◌∷◌, ◌++◌, Option, none, some, Bytes, arith, inl, inr,
}
use go_exasol.Config.{Config}
use go_exasol.Dsn.{is_empty}
use go_exasol.Text.Decimal.{show}
use go_exasol.Connection.Connect.{
  Url, get_uri_scheme, Network, connect, try_hosts, connect_to_host, url_of, create_connection,
}
use go_exasol.Connection.Tls.{tls_config}
use go_exasol.Connection.{Connection}
use go_exasol.Errors.{Error, wrapped}
use go_exasol.Hosts.Shuffle.{shuffle_hosts, shuffle_hosts-Permᴰ}
use go_exasol.Hosts.{resolve_hosts}
use go_exasol.Hosts.Range.{resolve_hosts_ne}
use go_exasol.Result.{Result, ok, err, panic}

pub mem-perm : {a : Bytes} {xs ys : List Bytes} → Permᴰ xs ys → Memᴰ a xs → Memᴰ a ys
mem-perm Permᴰ.nil m = m
mem-perm (Permᴰ.cons e p) (Memᴰ.head h) = Memᴰ.head (h ∙ e)
mem-perm (Permᴰ.cons e p) (Memᴰ.tail m) = Memᴰ.tail (mem-perm p m)
mem-perm (Permᴰ.swap e f) (Memᴰ.head h) = Memᴰ.tail (Memᴰ.head (h ∙ e))
mem-perm (Permᴰ.swap e f) (Memᴰ.tail (Memᴰ.head h)) = Memᴰ.head (h ∙ f)
mem-perm (Permᴰ.swap e f) (Memᴰ.tail (Memᴰ.tail m)) = Memᴰ.tail (Memᴰ.tail m)
mem-perm (Permᴰ.trans p q) m = mem-perm q (mem-perm p m)

pub perm_ne : (xs ys : List Bytes) → Permᴰ xs ys → ys ≢ [] → xs ≢ []
perm_ne xs [] p h = absurd (h refl)
perm_ne [] (y ∷ ys) p h = absurd (Memᴰ.not-nil (mem-perm (Permᴰ.symm p) (Memᴰ.head refl)))
perm_ne (x ∷ xs) (y ∷ ys) p h = λ e. cc

module _ {World : Type 0} (network : Network World) where
  -- What a host answers in a state of the world: it is dialled with TLS where encryption is on, and
  -- its certificate's chain is not verified where a fingerprint is to match or validation is off.
  abbrev pub answer : Config → Bytes → World → Option Error
  answer config host w =
      let url : Url = record {
        scheme = if config.encryption then lit "wss" else lit "ws";
        host = host ++ b':' ∷ show config.port;
      } in
      let skip_verify =
        not config.validate_server_certificate || not (is_empty config.certificate_fingerprint) in
      (network.dial url (tls_config network.sha256 skip_verify config.certificate_fingerprint) w).0

  -- The connection stands at one of the hosts, which answered; or none of them did.
  abbrev pub Outcome : Config → List Bytes → Result (Unit {0}) × Connection World → Type 0
  Outcome config hosts (ok u, d) =
      (d.connected ≡ true)
      × ((host : Bytes) × Memᴰ host hosts × ((w : World) × (answer config host w ≡ none)))
  Outcome config hosts (err e, d) =
      (d.connected ≡ false)
      × ((host : Bytes) → Memᴰ host hosts → (w : World) × (answer config host w ≢ none))
  Outcome config hosts (panic, d) = ⊥

  refused :
      (config : Config) (host : Bytes) (hosts : List Bytes) (w : World)
      → answer config host w ≢ none
      → ((h : Bytes) → Memᴰ h hosts → (v : World) × (answer config h v ≢ none))
      → (h : Bytes) → Memᴰ h (host ∷ hosts)
      → (v : World) × (answer config h v ≢ none)
  refused config host hosts w k f h (Memᴰ.head e) = (w, rw e k)
  refused config host hosts w k f h (Memᴰ.tail m) = f h m

  -- One more host, which was refused, in front of the others.
  Outcome-cons :
      (config : Config) (host : Bytes) (hosts : List Bytes) (w : World)
      (r : Result (Unit {0}) × Connection World)
      → answer config host w ≢ none
      → Outcome config hosts r
      → Outcome config (host ∷ hosts) r
  Outcome-cons config host hosts w (ok u, x) k (h, g) = (h, (g.0, Memᴰ.tail g.1, g.2))
  Outcome-cons config host hosts w (err y, x) k (h, f) = (h, refused config host hosts w k f)
  Outcome-cons config host hosts w (panic, x) k h = h

  module _ (host : Bytes) (hosts : List Bytes) (failed : Option Error) (c : Connection World) where
    -- The world behind the attempt at this host.
    abbrev tried : World
    tried = (connect_to_host network (url_of host c) c).1

    try_hosts_answered :
        answer c.config host c.world ≡ none
        → try_hosts network (host ∷ hosts) failed c
          ≡ (ok tt, record c { world = tried; connected = true })
    unfolding try_hosts connect_to_host create_connection url_of get_uri_scheme
    try_hosts_answered h = rw h refl

    try_hosts_refused :
        {e : Error}
        → answer c.config host c.world ≡ some e
        → (x : Error) × (try_hosts network (host ∷ hosts) failed c
            ≡ try_hosts network hosts (some x) (record c { world = tried; connected = false }))
    unfolding try_hosts connect_to_host create_connection url_of get_uri_scheme
    try_hosts_refused {e} h =
        (wrapped (lit "failed to connect to URL " ++ network.quoted (url_of host c)) e, rw h refl)

  try_first :
      (host : Bytes) (hosts : List Bytes) (failed : Option Error) (c : Connection World)
      → ((e : Error) (d : Connection World)
          → d.connected ≡ false
          → Outcome d.config hosts (try_hosts network hosts (some e) d))
      → Outcome c.config (host ∷ hosts) (try_hosts network (host ∷ hosts) failed c)
  try_first host hosts failed c ih = elim (Option-cases (answer c.config host c.world)) [
    | inl e ↦
        rw (try_hosts_answered host hosts failed c e) (refl, (host, Memᴰ.head refl, (c.world, e)))
    | inr (x, e) ↦
        let (y, step) = try_hosts_refused host hosts failed c e in
        rw step (Outcome-cons c.config host hosts c.world _ (λ n. cc) (ih y _ refl))
  ]

  try_hosts-Outcome :
      (hosts : List Bytes) (e : Error) (c : Connection World)
      → c.connected ≡ false
      → Outcome c.config hosts (try_hosts network hosts (some e) c)
  try_hosts-Outcome [] e c h = unfold try_hosts in (h, λ host m. absurd (Memᴰ.not-nil m))
  try_hosts-Outcome (host ∷ hosts) e c h =
      try_first host hosts (some e) c (λ x d k. try_hosts-Outcome hosts x d k)

  Outcome-perm :
      (config : Config) {xs ys : List Bytes} (r : Result (Unit {0}) × Connection World)
      → Permᴰ xs ys
      → Outcome config xs r
      → Outcome config ys r
  Outcome-perm config (ok u, d) p (h, g) = (h, (g.0, mem-perm p g.1, g.2))
  Outcome-perm config (err e, d) p (h, f) = (h, λ host m. f host (mem-perm (Permᴰ.symm p) m))
  Outcome-perm config (panic, d) p h = h

  try_all :
      (hosts : List Bytes) (c : Connection World)
      → hosts ≢ []
      → Outcome c.config hosts (try_hosts network hosts none c)
  try_all [] c h = absurd (h refl)
  try_all (host ∷ hosts) c h = try_first host hosts none c (try_hosts-Outcome hosts)

  connect_resolved :
      (c : Connection World) {hosts : List Bytes}
      → resolve_hosts c.config.host ≡ ok hosts
      → connect network c
        ≡ try_hosts network
            (shuffle_hosts network.random hosts c.world).0
            none
            (record c { world = (shuffle_hosts network.random hosts c.world).1 })
  unfolding connect
  connect_resolved c e = ground (arith, e)

  -- Where the hosts of the configuration resolve, `Connect` succeeds with a socket to one of them,
  -- which answered, or fails without a socket after each of them was dialled and refused: in
  -- whatever order they are shuffled, and never without an attempt.
  pub connect-Outcome :
      (c : Connection World) {hosts : List Bytes}
      → resolve_hosts c.config.host ≡ ok hosts
      → Outcome c.config hosts (connect network c)
  connect-Outcome c {hosts} e =
      let p = shuffle_hosts-Permᴰ network.random hosts c.world in
      let d = record c { world = (shuffle_hosts network.random hosts c.world).1 } in
      let ne = perm_ne _ hosts p (resolve_hosts_ne c.config.host e) in
      subst (Outcome c.config hosts) (sym (connect_resolved c e))
        (Outcome-perm c.config _ p (try_all (shuffle_hosts network.random hosts c.world).0 d ne))

  try_hosts-config :
      (hosts : List Bytes) (failed : Option Error) (c : Connection World)
      → (try_hosts network hosts failed c).1.config ≡ c.config
  unfolding try_hosts
  try_hosts-config [] none c = refl
  try_hosts-config [] (some e) c = refl
  try_hosts-config (host ∷ hosts) failed c = elim (Option-cases (answer c.config host c.world)) [
    | inl e ↦ ap (λ r. r.1.config) (try_hosts_answered host hosts failed c e)
    | inr (x, e) ↦
        let (y, step) = try_hosts_refused host hosts failed c e in
        ap (λ r. r.1.config) step ∙ try_hosts-config hosts (some y) _
  ]

  pub connect-config :
      (c : Connection World) {hosts : List Bytes}
      → resolve_hosts c.config.host ≡ ok hosts
      → (connect network c).1.config ≡ c.config
  connect-config c e = ap (λ r. r.1.config) (connect_resolved c e) ∙ try_hosts-config _ none _

  -- Where one of the resolved hosts answers whenever it is dialled, `Connect` succeeds, whatever the
  -- other hosts do and in whatever order they are tried.
  pub connect_reaches :
      (c : Connection World) {hosts : List Bytes} (host : Bytes)
      → resolve_hosts c.config.host ≡ ok hosts
      → Memᴰ host hosts
      → ((w : World) → answer c.config host w ≡ none)
      → ((connect network c).0 ≡ ok tt) × ((connect network c).1.connected ≡ true)
  connect_reaches c {hosts} host e m answers = reached (connect network c) (connect-Outcome c e)
    where
      reached :
          (r : Result (Unit {0}) × Connection World)
          → Outcome c.config hosts r
          → (r.0 ≡ ok tt) × (r.1.connected ≡ true)
      reached (ok u, d) (h, g) = (refl, h)
      reached (err x, d) (h, f) = absurd (let (w, ne) = f host m in ne (answers w))
      reached (panic, d) h = absurd h
