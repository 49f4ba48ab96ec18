-- ===== src/Hosts/Range.antt =====
-- The loop over a range of hosts.
use go_exasol.Base.Int.{ℤ, leb_int, pos, negsuc, IsInt, max_int}
use go_exasol.Base.{
  ap, ◌∙◌, ◌≢◌, true, Bool-cases, inl, inr, Option, if◌then◌else◌, ℕ, zero, suc, ◌+◌, ◌<◌, ◌≡◌,
  refl, List, [], ◌∷◌, ◌++◌, none, some, Bytes, arith,
}
use go_exasol.Hosts.{
  hosts_from, HostRange, parse_range, limit_of, resolve_host, resolve_each, resolve_hosts,
  match_range, next_int, range_fuel,
}
use go_exasol.Errors.{new_invalid_host_range_limits}
use go_exasol.Result.{Result, ok, err, panic, or_panic, ◌>>=◌}
use go_exasol.Text.{split}
use go_exasol.Text.Decimal.{show}

-- The prefix with `n` numbers in a row, from `start` on.
abbrev pub numbered : Bytes → ℕ → ℕ → List Bytes
numbered prefix start zero = []
numbered prefix start (suc n) = (prefix ++ show (pos start)) ∷ numbered prefix (suc start) n

next-pos : (n : ℕ) → n < max_int → next_int (pos n) ≡ pos (suc n)
next-pos n h = ground arith

next-IsInt : (i : ℤ) → IsInt i → IsInt (next_int i)
next-IsInt (pos n) h = ground arith
next-IsInt (negsuc n) h = ground arith

-- Below the largest `int`, the loop ends: it gives one host for each number of the range.
pub hosts_from-numbered :
    (prefix : Bytes) (n start stop : ℕ)
    → stop < max_int
    → start + n ≡ suc stop
    → hosts_from (suc n) prefix (pos start) (pos stop) ≡ some (numbered prefix start n)
unfolding hosts_from
hosts_from-numbered prefix zero start stop h e = ground arith
hosts_from-numbered prefix (suc n) start stop h e = ground (
  arith,
  next-pos start (omega arith),
  hosts_from-numbered prefix n (suc start) stop h (omega arith),
)

-- Up to the largest `int` it never ends.
pub hosts_from_max :
    (fuel : ℕ) (prefix : Bytes) (i : ℤ) → IsInt i → hosts_from fuel prefix i (pos max_int) ≡ none
unfolding hosts_from
hosts_from_max zero prefix i h = refl
hosts_from_max (suc fuel) prefix (pos n) h =
    ground (arith, hosts_from_max fuel prefix (next_int (pos n)) (next-IsInt (pos n) h))
hosts_from_max (suc fuel) prefix (negsuc n) h =
    rw (hosts_from_max fuel prefix (next_int (negsuc n)) (next-IsInt (negsuc n) h))

hosts_from_ne :
    (fuel : ℕ) (prefix : Bytes) (i stop : ℤ)
    → leb_int i stop ≡ true
    → hosts_from fuel prefix i stop ≢ some []
unfolding hosts_from
hosts_from_ne zero prefix i stop h = λ e. cc
hosts_from_ne (suc fuel) prefix i stop h = ground arith

or_panic_ne : (o : Option (List Bytes)) → o ≢ some [] → or_panic o ≢ ok []
or_panic_ne none h = λ e. cc
or_panic_ne (some hosts) h = λ e. ground (arith, h)

parse_limits_ne :
    (host prefix : Bytes) (start stop : Result ℤ)
    → (do
      a ← start
      b ← stop
      if leb_int a b
          then or_panic (hosts_from (range_fuel a b) prefix a b)
          else err (new_invalid_host_range_limits host))
      ≢ ok []
parse_limits_ne host prefix (ok a) (ok b) = elim (Bool-cases (leb_int a b)) [
  | inl e ↦ rw e (or_panic_ne _ (hosts_from_ne (range_fuel a b) prefix a b e))
  | inr e ↦ rw e (λ e. cc)
]
parse_limits_ne host prefix (ok a) (err y) = λ e. cc
parse_limits_ne host prefix (ok a) panic = λ e. cc
parse_limits_ne host prefix (err y) stop = λ e. cc
parse_limits_ne host prefix panic stop = λ e. cc

resolve_matched_ne :
    (host : Bytes) (m : Option HostRange)
    → (elim m [ some r ↦ parse_range host r | none ↦ ok (host ∷ []) ]) ≢ ok []
unfolding parse_range
resolve_matched_ne host none = λ e. cc
resolve_matched_ne host (some r) =
    parse_limits_ne host r.prefix (limit_of r.start) (limit_of r.stop)

resolve_host_ne : (host : Bytes) → resolve_host host ≢ ok []
unfolding resolve_host
resolve_host_ne host = resolve_matched_ne host (match_range host)

joined_ne :
    (parsed others : Result (List Bytes))
    → parsed ≢ ok []
    → (do xs ← parsed; ys ← others; ok (xs ++ ys)) ≢ ok []
joined_ne (ok []) others h = absurd (h refl)
joined_ne (ok (x ∷ xs)) (ok ys) h = λ e. cc
joined_ne (ok (x ∷ xs)) (err y) h = λ e. cc
joined_ne (ok (x ∷ xs)) panic h = λ e. cc
joined_ne (err y) others h = λ e. cc
joined_ne panic others h = λ e. cc

resolve_each_ne : (parts : List Bytes) → parts ≢ [] → resolve_each parts ≢ ok []
unfolding resolve_each
resolve_each_ne [] h = absurd (h refl)
resolve_each_ne (part ∷ parts) h =
    joined_ne (resolve_host part) (resolve_each parts) (resolve_host_ne part)

split_ne : (sep : ℕ) (s : Bytes) → split sep s ≢ []
unfolding split
split_ne sep [] = λ e. cc
split_ne sep (c ∷ s) = ground (arith, split_ne sep s)

-- The list of hosts is never empty.
pub resolve_hosts_ne : (h : Bytes) {hosts : List Bytes} → resolve_hosts h ≡ ok hosts → hosts ≢ []
unfolding resolve_hosts
resolve_hosts_ne h e = λ k. resolve_each_ne (split b',' h) (split_ne b',' h) (e ∙ ap ok k)
