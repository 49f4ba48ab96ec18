-- ===== src/Import/Fresh.antt =====
-- An import statement starts with a proxy that is not marked as closed.
use go_exasol.Base.{ℕ, ◌≡◌, refl, ◌∙◌, false, List, [], ◌∷◌, ◌++◌, Option, none, some, Bytes, arith}
use go_exasol.Import.{
  Machine, ImportStatement, new_import_statement, create_proxy, started, start_dialled,
}
use go_exasol.Proxy.Start.{
  proxy, no_proxy, Dialled, new_proxy, dial_each, start_proxy, await_reply, send_words, magic_words,
  le32,
}
use go_exasol.Base.Int.{ℤ, pos}
use go_exasol.Hosts.Shuffle.{shuffle_hosts}
use go_exasol.Hosts.{resolve_hosts}
use go_exasol.Text.Decimal.{show}
use go_exasol.Proxy.{Tcp, Proxy, socket_write}
use go_exasol.Result.{Result, ok, err, panic}
use go_exasol.Errors.{Error}

module _ {Net : Type 0} (tcp : Tcp Net) where
  -- The handshake leaves the mark alone.
  send_words-is_closed :
      (words : List ℕ) (p : Proxy Net) → (send_words tcp words p).1.is_closed ≡ p.is_closed
  unfolding send_words
  send_words-is_closed [] p = refl
  send_words-is_closed (word ∷ words) p =
      ground (arith, send_words-is_closed words (socket_write tcp (le32 word) p).1)

  pub start_proxy-is_closed : (p : Proxy Net) → (start_proxy tcp p).1.is_closed ≡ p.is_closed
  unfolding start_proxy await_reply
  start_proxy-is_closed p = ground (arith, send_words-is_closed magic_words p)

  abbrev Unmarked : Dialled Net → Type 0
  Unmarked (proxy p) = p.is_closed ≡ false
  Unmarked (no_proxy e n) = Unit

  chosen-Unmarked :
      (e : Option Error) (p : Proxy Net) (later : Error → Dialled Net)
      → p.is_closed ≡ false
      → ((x : Error) → Unmarked (later x))
      → Unmarked (elim e as (λ o. Dialled Net) [ none ↦ proxy p | some x ↦ later x ])
  chosen-Unmarked none p later h k = h
  chosen-Unmarked (some x) p later h k = k x

  dial_each-Unmarked :
      (hosts : List Bytes) (port : ℤ) (failed : Option Error) (n : Net)
      → Unmarked (dial_each tcp hosts port failed n)
  unfolding dial_each
  dial_each-Unmarked [] port failed n = tt
  dial_each-Unmarked (host ∷ hosts) port failed n =
      let dialled = tcp.dial (host ++ b':' ∷ show port) n in
      chosen-Unmarked dialled.0
        (record { is_closed = false; host = []; port = pos 0; net = dialled.1 }) _ refl
        (λ x. dial_each-Unmarked hosts port (some _) dialled.1)

module _ {Net : Type 0} (machine : Machine Net) where
  abbrev Fresh : Result (ImportStatement Net) × Net → Type 0
  Fresh (ok i, n) = i.proxy.is_closed ≡ false
  Fresh (err e, n) = Unit
  Fresh (panic, n) = Unit

  abbrev Unmarked? : Result (Dialled Net) → Type 0
  Unmarked? (ok d) = Unmarked machine.tcp d
  Unmarked? (err e) = Unit
  Unmarked? panic = Unit

  started-Fresh :
      (query host : Bytes) (port : ℤ) (r : Result (Unit {0}) × Proxy Net)
      → r.1.is_closed ≡ false
      → Fresh (started machine query host port r)
  started-Fresh query host port (ok u, p) h = h
  started-Fresh query host port (err e, p) h = tt
  started-Fresh query host port (panic, p) h = tt

  start_dialled-Fresh :
      (query host : Bytes) (port : ℤ) (r : Result (Dialled Net) × Net)
      → Unmarked? r.0
      → Fresh (start_dialled machine query host port r)
  start_dialled-Fresh query host port (ok (proxy p), n) h =
      started-Fresh query host port (start_proxy machine.tcp p)
        (start_proxy-is_closed machine.tcp p ∙ h)
  start_dialled-Fresh query host port (ok (no_proxy (some e) m), n) h = tt
  start_dialled-Fresh query host port (ok (no_proxy none m), n) h = tt
  start_dialled-Fresh query host port (err e, n) h = tt
  start_dialled-Fresh query host port (panic, n) h = tt

  resolved-Unmarked :
      (r : Result (List Bytes)) (port : ℤ) (n : Net)
      (dial : List Bytes → Result (Dialled Net) × Net)
      → ((hosts : List Bytes) → Unmarked? (dial hosts).0)
      → Unmarked?
          (elim r as (λ x. Result (Dialled Net) × Net) [
            | ok hosts ↦ dial hosts
            | err e ↦ (err e, n)
            | panic ↦ (panic, n)
          ]).0
  resolved-Unmarked (ok hosts) port n dial h = h hosts
  resolved-Unmarked (err e) port n dial h = tt
  resolved-Unmarked panic port n dial h = tt

  create_proxy-Unmarked :
      (host : Bytes) (port : ℤ) (n : Net) → Unmarked? (create_proxy machine host port n).0
  unfolding create_proxy new_proxy
  create_proxy-Unmarked host port n = resolved-Unmarked (resolve_hosts host) port n _ λ hosts.
      dial_each-Unmarked machine.tcp (shuffle_hosts machine.random hosts n).0 port none
        (shuffle_hosts machine.random hosts n).1

  pub new_import_statement-fresh :
      (query host : Bytes) (port : ℤ) (n : Net) {i : ImportStatement Net} {n' : Net}
      → new_import_statement machine query host port n ≡ (ok i, n')
      → i.proxy.is_closed ≡ false
  unfolding new_import_statement
  new_import_statement-fresh query host port n e = rw e at (
      start_dialled-Fresh query host port (create_proxy machine host port n)
        (create_proxy-Unmarked host port n))

  -- What an import statement holds that was started.
  abbrev Holds : Bytes → Result (ImportStatement Net) × Net → Type 0
  Holds query (ok i, n) = (i.query ≡ query) × (i.proxy.net ≡ n)
  Holds query (err e, n) = Unit
  Holds query (panic, n) = Unit

  started-Holds :
      (query host : Bytes) (port : ℤ) (r : Result (Unit {0}) × Proxy Net)
      → Holds query (started machine query host port r)
  started-Holds query host port (ok u, p) = (refl, refl)
  started-Holds query host port (err e, p) = tt
  started-Holds query host port (panic, p) = tt

  start_dialled-Holds :
      (query host : Bytes) (port : ℤ) (r : Result (Dialled Net) × Net)
      → Holds query (start_dialled machine query host port r)
  start_dialled-Holds query host port (ok (proxy p), n) =
      started-Holds query host port (start_proxy machine.tcp p)
  start_dialled-Holds query host port (ok (no_proxy (some e) m), n) = tt
  start_dialled-Holds query host port (ok (no_proxy none m), n) = tt
  start_dialled-Holds query host port (err e, n) = tt
  start_dialled-Holds query host port (panic, n) = tt

  pub new_import_statement-holds :
      (query host : Bytes) (port : ℤ) (n : Net) {i : ImportStatement Net} {n' : Net}
      → new_import_statement machine query host port n ≡ (ok i, n')
      → (i.query ≡ query) × (i.proxy.net ≡ n')
  unfolding new_import_statement
  new_import_statement-holds query host port n e =
      rw e at (start_dialled-Holds query host port (create_proxy machine host port n))
