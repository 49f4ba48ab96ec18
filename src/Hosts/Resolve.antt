-- ===== src/Hosts/Resolve.antt =====
-- A range of hosts, read by the expression of `ResolveHosts`.
use go_exasol.Base.{
  ℕ, ◌≡◌, ◌≢◌, refl, true, false, [], ◌∷◌, ◌++◌, none, some, Bytes, arith, All, Lacks, lit,
}
use go_exasol.Hosts.{span_digits, all_digits, behind_start, range_tail, match_range}
use go_exasol.Text.Decimal.{is_digit}

abbrev pub IsDigits : Bytes → Type 0
IsDigits = All (λ c. is_digit c ≡ true)

span-digits :
    (ds : Bytes) (x : ℕ) (rest : Bytes)
    → IsDigits ds
    → is_digit x ≡ false
    → span_digits (ds ++ x ∷ rest) ≡ (ds, x ∷ rest)
unfolding span_digits
span-digits [] x rest h k = ground arith
span-digits (d ∷ ds) x rest h k = ground (arith, span-digits ds x rest h.1 k)

span-all : (ds : Bytes) → IsDigits ds → span_digits ds ≡ (ds, [])
unfolding span_digits
span-all [] h = refl
span-all (d ∷ ds) h = ground (arith, span-all ds h.1)

-- A text that holds another byte is no number.
module _ (x : ℕ) (not_digit : is_digit x ≡ false) where
  span-rest : (u v : Bytes) → (span_digits (u ++ x ∷ v)).1 ≢ []
  unfolding span_digits
  span-rest [] v = ground arith
  span-rest (c ∷ u) v = ground (arith, span-rest u v)

  all_digits_rest : (p : Bytes × Bytes) → p.1 ≢ [] → all_digits p ≡ none
  all_digits_rest ([], rest) h = refl
  all_digits_rest (c ∷ ds, []) h = absurd (h refl)
  all_digits_rest (c ∷ ds, d ∷ rest) h = refl

  not_number : (u v : Bytes) → all_digits (span_digits (u ++ x ∷ v)) ≡ none
  not_number u v = all_digits_rest (span_digits (u ++ x ∷ v)) (span-rest u v)

whichever_start : (p : Bytes × Bytes) → behind_start (b'0' ∷ [], p.1) ≡ none → behind_start p ≡ none
whichever_start ([], rest) h = refl
whichever_start (c ∷ ds, []) h = refl
whichever_start (c ∷ ds, d ∷ []) h = refl
whichever_start (c ∷ ds, d ∷ e ∷ rest) h = ground (arith, h)

-- The text of a range: digits, two dots, digits.
abbrev pub limits : Bytes → Bytes → Bytes
limits start stop = start ++ (lit ".." ++ stop)

module _ (a : ℕ) (start stop : Bytes) (digit : is_digit a ≡ true) where
  -- Behind a prefix that goes on with a byte that is no digit, no range is found.
  rest_of_prefix :
      (x : ℕ)
      → is_digit x ≡ false
      → (q : Bytes)
      → behind_start (b'0' ∷ [], (span_digits (q ++ x ∷ limits (a ∷ start) stop)).1) ≡ none
  unfolding span_digits
  rest_of_prefix x k [] = ground arith
  rest_of_prefix x k (c ∷ []) = ground (arith, not_number x k (a ∷ start) (b'.' ∷ stop))
  rest_of_prefix x k (c ∷ d ∷ q) =
      ground (arith, rest_of_prefix x k (d ∷ q), not_number x k q (limits (a ∷ start) stop))

  no_range_before :
      (x : ℕ)
      → is_digit x ≡ false
      → (q : Bytes) → range_tail (q ++ x ∷ limits (a ∷ start) stop) ≡ none
  unfolding range_tail
  no_range_before x k q =
      whichever_start (span_digits (q ++ x ∷ limits (a ∷ start) stop)) (rest_of_prefix x k q)

module _ (a b : ℕ) (start stop : Bytes) (start_digits : IsDigits (a ∷ start))
    (stop_digits : IsDigits (b ∷ stop)) where
  range_at :
      range_tail (limits (a ∷ start) (b ∷ stop))
      ≡ some (record { prefix = []; start = a ∷ start; stop = b ∷ stop })
  unfolding range_tail
  range_at = rw (
    span-digits (a ∷ start) b'.' (b'.' ∷ b ∷ stop) start_digits refl,
    span-all (b ∷ stop) stop_digits,
  )

  pub match_range-limits :
      (x : ℕ)
      → is_digit x ≡ false
      → x ≢ b'\n'
      → (p : Bytes) → Lacks b'\n' p
      → match_range (p ++ x ∷ limits (a ∷ start) (b ∷ stop))
        ≡ some (record { prefix = p ++ x ∷ []; start = a ∷ start; stop = b ∷ stop })
  unfolding match_range
  match_range-limits x k l [] h = ground (arith, range_at)
  match_range-limits x k l (c ∷ p) h = ground (
    arith,
    no_range_before a start (b ∷ stop) start_digits.0 x k p,
    match_range-limits x k l p h.1,
  )
