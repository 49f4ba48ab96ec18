-- ===== src/Import/Dialling.antt =====
-- What `createProxy` comes to: a socket to one of the hosts, or the refusal of every host.
use mathlib.Core.List.Memᴰ
use mathlib.Core.List.Permᴰ
use mathlib.Core.List.{Memᴰ, Permᴰ}
use go_exasol.Base.Int.{ℤ, pos}
use go_exasol.Base.{
  Option-cases, ◌≡◌, ◌≢◌, refl, sym, subst, ◌⊎◌, inl, inr, false, List, [], ◌∷◌, ◌++◌, Option, none,
  some, Bytes, lit, arith,
}
use go_exasol.Connection.Reach.{mem-perm, perm_ne}
use go_exasol.Errors.{Error, explained, err_invalid_proxy_conn}
use go_exasol.Hosts.Range.{resolve_hosts_ne}
use go_exasol.Hosts.Shuffle.{shuffle_hosts, shuffle_hosts-Permᴰ}
use go_exasol.Hosts.{resolve_hosts}
use go_exasol.Import.{Machine, create_proxy}
use go_exasol.Proxy.Start.{Dialled, proxy, no_proxy, dial_each, new_proxy}
use go_exasol.Proxy.{Tcp}
use go_exasol.Result.{ok}
use go_exasol.Text.Decimal.{show}

module _ {Net : Type 0} (tcp : Tcp Net) (port : ℤ) where
  -- What a host answers to a call on the port.
  abbrev pub answer : Bytes → Net → Option Error
  answer host n = (tcp.dial (host ++ b':' ∷ show port) n).0

  -- The error that is made of the refusal of a host.
  abbrev pub refusal : Bytes → Error → Error
  refusal host x =
      explained err_invalid_proxy_conn
        (lit "could not create TCP connection to " ++ (host ++ b':' ∷ show port)) x

  -- The error is that of a host among these, which refused with it.
  abbrev pub IsRefusal : List Bytes → Error → Type 0
  IsRefusal hosts e =
      (host : Bytes) × Memᴰ host hosts
      × ((n : Net) × ((x : Error) × (answer host n ≡ some x) × (e ≡ refusal host x)))

  abbrev pub AllRefused : List Bytes → Type 0
  AllRefused hosts = (host : Bytes) → Memᴰ host hosts → (n : Net) × (answer host n ≢ none)

  -- An open proxy at one of the hosts, which answered; or the error of one of them after all of them
  -- refused. There is no nil proxy without an error.
  abbrev pub IsDialled : List Bytes → Dialled Net → Type 0
  IsDialled hosts (proxy p) =
      (p.is_closed ≡ false)
      × ((host : Bytes) × Memᴰ host hosts × ((n : Net) × (answer host n ≡ none)))
  IsDialled hosts (no_proxy (some e) m) = AllRefused hosts × IsRefusal hosts e
  IsDialled hosts (no_proxy none m) = ⊥

  -- The same of the loop, behind an attempt that failed with the error `failed`.
  abbrev Continues : List Bytes → Error → Dialled Net → Type 0
  Continues hosts failed (proxy p) =
      (p.is_closed ≡ false)
      × ((host : Bytes) × Memᴰ host hosts × ((n : Net) × (answer host n ≡ none)))
  Continues hosts failed (no_proxy (some e) m) =
      AllRefused hosts × ((e ≡ failed) ⊎ IsRefusal hosts e)
  Continues hosts failed (no_proxy none m) = ⊥

  AllRefused-cons :
      (host : Bytes) (hosts : List Bytes) (n : Net)
      → answer host n ≢ none
      → AllRefused hosts
      → AllRefused (host ∷ hosts)
  AllRefused-cons host hosts n k f h (Memᴰ.head e) = (n, rw e k)
  AllRefused-cons host hosts n k f h (Memᴰ.tail x) = f h x

  IsRefusal-tail :
      (host : Bytes) (hosts : List Bytes) (e : Error)
      → IsRefusal hosts e
      → IsRefusal (host ∷ hosts) e
  IsRefusal-tail host hosts e (h, m, rest) = (h, Memᴰ.tail m, rest)

  -- The loop behind a host that refused with the error `x`.
  IsDialled-cons :
      (host : Bytes) (hosts : List Bytes) (n : Net) (x : Error) (d : Dialled Net)
      → answer host n ≡ some x
      → Continues hosts (refusal host x) d
      → IsDialled (host ∷ hosts) d
  IsDialled-cons host hosts n x (proxy p) k (h, g) = (h, (g.0, Memᴰ.tail g.1, g.2))
  IsDialled-cons host hosts n x (no_proxy (some e) m) k (f, inl same) =
      (AllRefused-cons host hosts n (λ no. cc) f, (host, Memᴰ.head refl, (n, (x, k, same))))
  IsDialled-cons host hosts n x (no_proxy (some e) m) k (f, inr r) =
      (AllRefused-cons host hosts n (λ no. cc) f, IsRefusal-tail host hosts e r)
  IsDialled-cons host hosts n x (no_proxy none m) k h = h

  IsDialled-Continues :
      (hosts : List Bytes) (e : Error) (d : Dialled Net) → IsDialled hosts d → Continues hosts e d
  IsDialled-Continues hosts e (proxy p) h = h
  IsDialled-Continues hosts e (no_proxy (some y) m) (f, r) = (f, inr r)
  IsDialled-Continues hosts e (no_proxy none m) h = h

  IsDialled-perm :
      {xs ys : List Bytes} (d : Dialled Net) → Permᴰ xs ys → IsDialled xs d → IsDialled ys d
  IsDialled-perm (proxy p) q (h, g) = (h, (g.0, mem-perm q g.1, g.2))
  IsDialled-perm (no_proxy (some e) m) q (f, (host, x, rest)) =
      (λ host x. f host (mem-perm (Permᴰ.symm q) x), (host, mem-perm q x, rest))
  IsDialled-perm (no_proxy none m) q h = h

  module _ (host : Bytes) (hosts : List Bytes) (failed : Option Error) (n : Net) where
    dial_each_answered :
        answer host n ≡ none
        → dial_each tcp (host ∷ hosts) port failed n
          ≡ proxy (record {
            is_closed = false;
            host = [];
            port = pos 0;
            net = (tcp.dial (host ++ b':' ∷ show port) n).1;
          })
    unfolding dial_each
    dial_each_answered h = ground (arith, h)

    dial_each_refused :
        {x : Error}
        → answer host n ≡ some x
        → dial_each tcp (host ∷ hosts) port failed n
          ≡ dial_each tcp hosts port
              (some (refusal host x))
              (tcp.dial (host ++ b':' ∷ show port) n).1
    unfolding dial_each
    dial_each_refused h = ground (arith, h)

  dial_first :
      (host : Bytes) (hosts : List Bytes) (failed : Option Error) (n : Net)
      → ((e : Error) (m : Net) → Continues hosts e (dial_each tcp hosts port (some e) m))
      → IsDialled (host ∷ hosts) (dial_each tcp (host ∷ hosts) port failed n)
  dial_first host hosts failed n ih = elim (Option-cases (answer host n)) [
    | inl e ↦
        subst (IsDialled (host ∷ hosts)) (sym (dial_each_answered host hosts failed n e))
          (refl, (host, Memᴰ.head refl, (n, e)))
    | inr (x, e) ↦
        subst (IsDialled (host ∷ hosts)) (sym (dial_each_refused host hosts failed n e))
          (IsDialled-cons host hosts n x _ e (ih (refusal host x) _))
  ]

  dial_each-Continues :
      (hosts : List Bytes) (e : Error) (n : Net)
      → Continues hosts e (dial_each tcp hosts port (some e) n)
  dial_each-Continues [] e n = unfold dial_each in (λ host m. absurd (Memᴰ.not-nil m), inl refl)
  dial_each-Continues (host ∷ hosts) e n =
      IsDialled-Continues (host ∷ hosts) e _
        (dial_first host hosts (some e) n (dial_each-Continues hosts))

  -- `NewProxy` with at least one host.
  new_proxy-IsDialled :
      (hosts : List Bytes) (n : Net) → hosts ≢ [] → IsDialled hosts (new_proxy tcp hosts port n)
  unfolding new_proxy
  new_proxy-IsDialled [] n h = absurd (h refl)
  new_proxy-IsDialled (host ∷ hosts) n h = dial_first host hosts none n (dial_each-Continues hosts)

-- Where the hosts resolve, `createProxy` returns an open proxy to one of them, which answered, or
-- after each of them refused the error of one of them, which is made of its refusal: never a nil
-- proxy without an error, which `NewImportStatement` would call.
pub create_proxy-IsDialled :
    {Net : Type 0} (machine : Machine Net) (host : Bytes) (port : ℤ) (n : Net) {hosts : List Bytes}
    → resolve_hosts host ≡ ok hosts
    → (d : Dialled Net) × ((create_proxy machine host port n).0 ≡ ok d)
      × IsDialled machine.tcp port hosts d
unfolding create_proxy
create_proxy-IsDialled machine host port n {hosts} e =
    let p = shuffle_hosts-Permᴰ machine.random hosts n in
    let ne = perm_ne _ hosts p (resolve_hosts_ne host e) in
    (
      _,
      ground (arith, e),
      IsDialled-perm machine.tcp port _ p (
          new_proxy-IsDialled machine.tcp port (shuffle_hosts machine.random hosts n).0
            (shuffle_hosts machine.random hosts n).1 ne),
    )
