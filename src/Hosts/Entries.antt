-- ===== src/Hosts/Entries.antt =====
-- `ResolveHosts` on a list of hosts and ranges, as a user writes it.
use go_exasol.Base.Int.{pos, max_int}
use go_exasol.Base.{
  ap, map, ◌∙◌, ℕ, zero, suc, ◌+◌, ◌-◌, ◌/◌, ◌%◌, ◌<◌, ◌≤◌, ◌≡◌, ◌≢◌, ◌⊎◌, refl, false, List, [],
  ◌∷◌, ◌++◌, none, some, Bytes, arith, All, All-append, Lacks, lit,
}
use go_exasol.Hosts.Range.{numbered, hosts_from-numbered}
use go_exasol.Hosts.Resolve.{IsDigits, limits, match_range-limits}
use go_exasol.Hosts.{
  hosts_from, span_digits, behind_start, range_tail, match_range, resolve_host, resolve_each,
  resolve_hosts, parse_range,
}
use go_exasol.Result.{ok}
use go_exasol.Text.Decimal.{
  is_digit, show, show_ℕ, digits, atoi-show, StartsWithDigit, show_ℕ-StartsWithDigit, show-Lacks,
}
use go_exasol.Text.Laws.{split-Lacks, split_at}
use go_exasol.Text.{split}

-- The numbers from `start` to `stop` behind a name and the byte that ends it.
pub data HostEntry : Type 0 where
  single : Bytes → HostEntry
  range : Bytes → ℕ → ℕ → ℕ → HostEntry

abbrev pub text_of : HostEntry → Bytes
text_of (single host) = host
text_of (range name end start stop) = name ++ end ∷ limits (show (pos start)) (show (pos stop))

abbrev pub hosts_of : HostEntry → List Bytes
hosts_of (single host) = host ∷ []
hosts_of (range name end start stop) = numbered (name ++ end ∷ []) start (suc stop - start)

abbrev pub NoDoubleDot : Bytes → Type 0
NoDoubleDot [] = Unit
NoDoubleDot (c ∷ []) = Unit
NoDoubleDot (c ∷ d ∷ s) = ((c ≢ b'.') ⊎ (d ≢ b'.')) × NoDoubleDot (d ∷ s)

abbrev pub IsEntry : HostEntry → Type 0
IsEntry (single host) = Lacks b',' host × NoDoubleDot host
IsEntry (range name end start stop) =
    Lacks b',' name
    × Lacks b'\n' name
    × (end ≢ b',')
    × (end ≢ b'\n')
    × (is_digit end ≡ false)
    × (start ≤ stop)
    × (stop < max_int)

NoDoubleDot-tail : (c : ℕ) (s : Bytes) → NoDoubleDot (c ∷ s) → NoDoubleDot s
NoDoubleDot-tail c [] h = tt
NoDoubleDot-tail c (d ∷ s) h = h.1

span-NoDoubleDot : (s : Bytes) → NoDoubleDot s → NoDoubleDot (span_digits s).1
unfolding span_digits
span-NoDoubleDot [] h = tt
span-NoDoubleDot (c ∷ s) h = ground (arith, span-NoDoubleDot s (NoDoubleDot-tail c s h))

behind-NoDoubleDot : (p : Bytes × Bytes) → NoDoubleDot p.1 → behind_start p ≡ none
behind-NoDoubleDot ([], rest) h = refl
behind-NoDoubleDot (c ∷ ds, []) h = refl
behind-NoDoubleDot (c ∷ ds, d ∷ []) h = refl
behind-NoDoubleDot (c ∷ ds, d ∷ e ∷ rest) h = ground (arith, h)

match_range-NoDoubleDot : (s : Bytes) → NoDoubleDot s → match_range s ≡ none
unfolding match_range range_tail
match_range-NoDoubleDot [] h = refl
match_range-NoDoubleDot (c ∷ s) h = ground (
  arith,
  behind-NoDoubleDot (span_digits s) (span-NoDoubleDot s (NoDoubleDot-tail c s h)),
  match_range-NoDoubleDot s (NoDoubleDot-tail c s h),
)

digits-IsDigits : (fuel n : ℕ) (out : Bytes) → IsDigits out → IsDigits (digits fuel n out)
unfolding digits
digits-IsDigits zero n out h = (ground arith, h)
digits-IsDigits (suc fuel) n out h =
    ground (arith, digits-IsDigits fuel (n / 10) ((b'0' + n % 10) ∷ out) (ground arith, h))

-- A number as it is printed, by its first digit and the others.
module _ (name : Bytes) (end : ℕ) (lacks : Lacks b'\n' name) (k : is_digit end ≡ false)
    (l : end ≢ b'\n') where
  match_range-shown :
      (start stop : Bytes)
      → StartsWithDigit start
      → IsDigits start
      → StartsWithDigit stop
      → IsDigits stop
      → match_range (name ++ end ∷ limits start stop)
        ≡ some (record { prefix = name ++ end ∷ []; start = start; stop = stop })
  match_range-shown [] stop h _ _ _ = absurd h
  match_range-shown (a ∷ start) [] _ _ h _ = absurd h
  match_range-shown (a ∷ start) (b ∷ stop) _ ha _ hb =
      match_range-limits a b start stop ha hb end k l name lacks

  range_limits :
      (start stop : ℕ)
      → match_range (name ++ end ∷ limits (show (pos start)) (show (pos stop)))
        ≡ some
            (record { prefix = name ++ end ∷ []; start = show (pos start); stop = show (pos stop) })
  unfolding show show_ℕ
  range_limits start stop =
      match_range-shown (show_ℕ start) (show_ℕ stop) (show_ℕ-StartsWithDigit start)
        (digits-IsDigits start start [] tt) (show_ℕ-StartsWithDigit stop)
        (digits-IsDigits stop stop [] tt)

parse_range-numbered :
    (text prefix : Bytes) (start stop : ℕ)
    → start ≤ stop
    → stop < max_int
    → parse_range text
        (record { prefix = prefix; start = show (pos start); stop = show (pos stop) })
      ≡ ok (numbered prefix start (suc stop - start))
unfolding parse_range
parse_range-numbered text prefix start stop le small =
    let fuel : suc (suc stop) - start ≡ suc (suc stop - start) = omega arith in
    ground (
      arith,
      atoi-show (pos start) (omega arith),
      atoi-show (pos stop) (omega arith),
      ap (λ n. hosts_from n prefix (pos start) (pos stop)) fuel,
      hosts_from-numbered prefix (suc stop - start) start stop small (omega arith),
    )

resolve_host-hosts_of : (e : HostEntry) → IsEntry e → resolve_host (text_of e) ≡ ok (hosts_of e)
unfolding resolve_host parse_range
resolve_host-hosts_of (single host) h = ground (arith, match_range-NoDoubleDot host h.1)
resolve_host-hosts_of (range name end start stop) (h, n, c, l, k, le, small) = ground (
  arith,
  range_limits name end n k l start stop,
  parse_range-numbered (text_of (range name end start stop)) (name ++ end ∷ []) start stop le small,
)

text_of-Lacks : (e : HostEntry) → IsEntry e → Lacks b',' (text_of e)
text_of-Lacks (single host) h = h.0
text_of-Lacks (range name end start stop) (h, n, c, l, k, le, small) =
    All-append _ name (end ∷ limits (show (pos start)) (show (pos stop))) h (
      c,
      All-append _ (show (pos start)) (lit ".." ++ show (pos stop)) (shown start)
          (omega arith, (omega arith, shown stop)),
    )
  where
    shown : (n : ℕ) → Lacks b',' (show (pos n))
    shown n = show-Lacks b',' (pos n) (omega arith) (omega arith)

-- The entries, each but the first behind a comma, and the hosts that they stand for.
abbrev pub joined : HostEntry → List HostEntry → Bytes
joined e [] = text_of e
joined e (f ∷ es) = text_of e ++ b',' ∷ joined f es

abbrev pub listed : List HostEntry → List Bytes
listed [] = []
listed (e ∷ es) = hosts_of e ++ listed es

split-joined :
    (e : HostEntry) (es : List HostEntry)
    → IsEntry e
    → All IsEntry es
    → split b',' (joined e es) ≡ map text_of (e ∷ es)
split-joined e [] h hs = split-Lacks b',' (text_of e) (text_of-Lacks e h)
split-joined e (f ∷ es) h hs =
    split_at b',' (text_of e) (joined f es) (text_of-Lacks e h) ∙ rw (split-joined f es hs.0 hs.1)

resolve_each-listed :
    (es : List HostEntry) → All IsEntry es → resolve_each (map text_of es) ≡ ok (listed es)
unfolding resolve_each
resolve_each-listed [] h = refl
resolve_each-listed (e ∷ es) h = rw (resolve_host-hosts_of e h.0, resolve_each-listed es h.1)

-- A list of hosts and ranges resolves to the hosts it names, in their order: for a range, one for
-- each number from its start to its stop. A host holds no comma and no two dots in a row; a range
-- ends its name with a byte that is no digit, and stops below the largest `int`.
pub resolve_hosts-joined :
    (e : HostEntry) (es : List HostEntry)
    → IsEntry e
    → All IsEntry es
    → resolve_hosts (joined e es) ≡ ok (listed (e ∷ es))
unfolding resolve_hosts
resolve_hosts-joined e es h hs = rw (split-joined e es h hs) (resolve_each-listed (e ∷ es) (h, hs))
