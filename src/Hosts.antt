-- ===== src/Hosts.antt =====
-- The hosts of a configuration: `ResolveHosts` and `ParseRange` of internal/utils/helper.go.
-- The loop over a range runs on fuel, one unit for each number and one for the last test. Only a
-- range up to the largest `int` asks for more, as its loop has no end: there the list grows until
-- the process ends for want of memory, which is a panic here.
pub mod Range
pub mod Shuffle
pub mod Resolve
pub mod Entries
use go_exasol.Base.Int.{ℤ, pos, leb_int, times, of_bits, to_bits, max_int}
use go_exasol.Base.{
  ℕ, zero, suc, ◌+◌, ◌-◌, ◌%◌, ◌^◌, List, [], ◌∷◌, ◌++◌, Option, none, some, Bytes, lit, ◌==◌,
  if◌then◌else◌,
}
use go_exasol.Errors.{Error, foreign, new_invalid_host_range_limits}
use go_exasol.Result.{Result, ok, err, panic, or_panic, ◌>>=◌}
use go_exasol.Text.Decimal.{is_digit, show, atoi}
use go_exasol.Text.{split}

-- The digits that a text starts with, and the text behind them.
abbrev cons_first : ℕ → Bytes × Bytes → Bytes × Bytes
cons_first c (a, b) = (c ∷ a, b)

unfoldable pub span_digits : Bytes → Bytes × Bytes
span_digits [] = ([], [])
span_digits (c ∷ s) =
    let rest = span_digits s in if is_digit c then cons_first c rest else ([], c ∷ s)

-- The groups of the expression `^((.+?)(\d+))\.\.(\d+)$` but the first, which is the second and
-- the third together.
pub record HostRange : Type 0 where
  pub prefix : Bytes
  pub start : Bytes
  pub stop : Bytes

-- `(\d+)$`
abbrev pub all_digits : Bytes × Bytes → Option Bytes
all_digits ([], rest) = none
all_digits (c ∷ digits, []) = some (c ∷ digits)
all_digits (c ∷ digits, d ∷ rest) = none

abbrev pub range_between : Bytes → Option Bytes → Option HostRange
range_between start none = none
range_between start (some stop) = some (record { prefix = []; start = start; stop = stop })

-- `\.\.(\d+)$` behind the digits of a start
abbrev pub behind_start : Bytes × Bytes → Option HostRange
behind_start ([], rest) = none
behind_start (c ∷ start, []) = none
behind_start (c ∷ start, d ∷ []) = none
behind_start (c ∷ start, d ∷ e ∷ stop) =
    if d == b'.'
    then (if e == b'.' then range_between (c ∷ start) (all_digits (span_digits stop)) else none)
    else none

-- `(\d+)\.\.(\d+)$`
unfoldable pub range_tail : Bytes → Option HostRange
unfolding span_digits
range_tail s = behind_start (span_digits s)

abbrev pub cons_prefix : ℕ → Option HostRange → Option HostRange
cons_prefix c none = none
cons_prefix c (some r) = some (record r { prefix = c ∷ r.prefix })

abbrev pub first_range : Option HostRange → Option HostRange → Option HostRange
first_range (some r) later = some r
first_range none later = later

-- `(.+?)` takes the shortest prefix that works: one byte at least, and no line break.
unfoldable pub match_range : Bytes → Option HostRange
unfolding range_tail
match_range [] = none
match_range (c ∷ s) =
    let later = match_range s in
    if c == b'\n' then none else cons_prefix c (first_range (range_tail s) later)

-- `i++`
abbrev pub next_int : ℤ → ℤ
next_int i = of_bits ((to_bits i + 1) % 2 ^ 64)

abbrev pub cons_host : Bytes → Option (List Bytes) → Option (List Bytes)
cons_host host none = none
cons_host host (some hosts) = some (host ∷ hosts)

-- `for i := start; i <= stop; i++`
unfoldable pub hosts_from : ℕ → Bytes → ℤ → ℤ → Option (List Bytes)
hosts_from zero prefix i stop = none
hosts_from (suc fuel) prefix i stop =
    let rest = hosts_from fuel prefix (next_int i) stop in
    if leb_int i stop then cons_host (prefix ++ show i) rest else some []

-- The numbers of a range, and one unit for the test that ends the loop.
abbrev pub range_fuel : ℤ → ℤ → ℕ
range_fuel (pos start) (pos stop) = (suc (suc stop) - start)
range_fuel start stop = 0

-- `strconv.Atoi` of digits fails on a number that `int` cannot hold.
abbrev pub limit_of : Bytes → Result ℤ
limit_of s = elim (atoi s) [
  | some z ↦ ok z
  | none ↦ err (foreign (lit "strconv.Atoi: parsing \"" ++ (s ++ lit "\": value out of range")))
]

-- `ParseRange`, of a host and the groups that it matches with
unfoldable pub parse_range : Bytes → HostRange → Result (List Bytes)
unfolding hosts_from
parse_range host r = do
  start ← limit_of r.start
  stop ← limit_of r.stop
  if leb_int start stop
      then or_panic (hosts_from (range_fuel start stop) r.prefix start stop)
      else err (new_invalid_host_range_limits host)

-- one element of the list of hosts
unfoldable pub resolve_host : Bytes → Result (List Bytes)
unfolding parse_range match_range
resolve_host host = elim (match_range host) [ some r ↦ parse_range host r | none ↦ ok (host ∷ []) ]

unfoldable pub resolve_each : List Bytes → Result (List Bytes)
unfolding resolve_host
resolve_each [] = ok []
resolve_each (host ∷ hosts) = do
  parsed ← resolve_host host
  others ← resolve_each hosts
  ok (parsed ++ others)

-- `ResolveHosts`
unfoldable pub resolve_hosts : Bytes → Result (List Bytes)
unfolding resolve_each
resolve_hosts h = resolve_each (split b',' h)
