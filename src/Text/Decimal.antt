-- ===== src/Text/Decimal.antt =====
-- Decimal numbers: `%d` of `fmt` and `strconv.Atoi`.
use go_exasol.Base.Int.{ℤ, pos, negsuc, max_int, IsInt}
use go_exasol.Base.{
  ℕ, zero, suc, ◌+◌, ◌-◌, ◌*◌, ◌/◌, ◌%◌, ◌≤◌, ◌<◌, ◌≡◌, ◌≢◌, ◌⊎◌, refl, ◌∙◌, Bool, ◌&&◌, [], ◌∷◌,
  Option, none, some, Bytes, ◌==◌, leb, ltb, if◌then◌else◌, arith, Lacks,
}

abbrev pub is_digit : ℕ → Bool
is_digit c = leb b'0' c && leb c b'9'

-- The digits of `n` in front of `out`; any fuel from `n` on gives the same.
unfoldable pub digits : ℕ → ℕ → Bytes → Bytes
digits zero n out = (b'0' + n % 10) ∷ out
digits (suc fuel) n out =
    let rest = digits fuel (n / 10) ((b'0' + n % 10) ∷ out) in
    if ltb n 10 then (b'0' + n % 10) ∷ out else rest

unfoldable pub show_ℕ : ℕ → Bytes
unfolding digits
show_ℕ n = digits n n []

-- `%d` of an `int`
unfoldable pub show : ℤ → Bytes
unfolding show_ℕ
show (pos n) = show_ℕ n
show (negsuc n) = b'-' ∷ show_ℕ (suc n)

-- The number that the digits spell behind `n`.
unfoldable pub value : ℕ → Bytes → Option ℕ
value n [] = some n
value n (c ∷ s) = if is_digit c then value (n * 10 + (c - b'0')) s else none

abbrev pub within : ℕ → (ℕ → ℤ) → Option ℕ → Option ℤ
within limit sign none = none
within limit sign (some n) = if leb n limit then some (sign n) else none

-- one digit at least
pub unsigned : Bytes → Option ℕ
unfolding value
unsigned [] = none
unsigned (c ∷ s) = value 0 (c ∷ s)

abbrev pub negated : ℕ → ℤ
negated zero = pos 0
negated (suc n) = negsuc n

-- `strconv.Atoi`: `none` for its error, whether of syntax or of range
unfoldable pub atoi : Bytes → Option ℤ
unfolding unsigned
atoi [] = none
atoi (c ∷ s) =
    if c == b'-'
    then within (suc max_int) negated (unsigned s)
    else if c == b'+'
    then within max_int pos (unsigned s)
    else within max_int pos (unsigned (c ∷ s))

-- Reading the last digit of `n` after the digits before it gives `n`.
value_last : (n : ℕ) (out : Bytes) → value (n / 10) ((b'0' + n % 10) ∷ out) ≡ value n out
unfolding value
value_last n out = ground arith

value-digits : (fuel n : ℕ) (out : Bytes) → n ≤ fuel → value 0 (digits fuel n out) ≡ value n out
unfolding digits
value-digits zero n out h = ground (arith, value_last n out)
value-digits (suc fuel) n out h =
    ground (arith, value_last n out, value-digits fuel (n / 10) ((b'0' + n % 10) ∷ out))

-- The digits start with one that is no sign.
abbrev pub StartsWithDigit : Bytes → Type 0
StartsWithDigit [] = ⊥
StartsWithDigit (c ∷ s) = (b'0' ≤ c) × (c ≤ b'9')

digits-StartsWithDigit : (fuel n : ℕ) (out : Bytes) → StartsWithDigit (digits fuel n out)
unfolding digits
digits-StartsWithDigit zero n out = omega arith
digits-StartsWithDigit (suc fuel) n out =
    ground (arith, digits-StartsWithDigit fuel (n / 10) ((b'0' + n % 10) ∷ out))

unsigned-digit : (s : Bytes) → StartsWithDigit s → unsigned s ≡ value 0 s
unfolding unsigned
unsigned-digit [] h = absurd h
unsigned-digit (c ∷ s) h = refl

unsigned-show_ℕ : (n : ℕ) → unsigned (show_ℕ n) ≡ some n
unfolding show_ℕ value
unsigned-show_ℕ n =
    unsigned-digit (digits n n []) (digits-StartsWithDigit n n [])
    ∙ value-digits n n [] (omega arith)

atoi-unsigned : (s : Bytes) → StartsWithDigit s → atoi s ≡ within max_int pos (unsigned s)
unfolding atoi
atoi-unsigned [] h = absurd h
atoi-unsigned (c ∷ s) h = ground arith

pub show_ℕ-StartsWithDigit : (n : ℕ) → StartsWithDigit (show_ℕ n)
unfolding show_ℕ
show_ℕ-StartsWithDigit n = digits-StartsWithDigit n n []

atoi-show_ℕ : (n : ℕ) → n ≤ max_int → atoi (show_ℕ n) ≡ some (pos n)
atoi-show_ℕ n h =
    atoi-unsigned (show_ℕ n) (show_ℕ-StartsWithDigit n) ∙ ground (arith, unsigned-show_ℕ n)

-- `Atoi` reads back what `%d` prints of any `int`.
pub atoi-show : (z : ℤ) → IsInt z → atoi (show z) ≡ some z
unfolding show
atoi-show (pos n) h = atoi-show_ℕ n h
atoi-show (negsuc n) h = unfold atoi in ground (arith, unsigned-show_ℕ (suc n))

-- What is printed holds digits and a sign only.
digits-Lacks :
    (b fuel n : ℕ) (out : Bytes)
    → (b < b'0') ⊎ (b'9' < b)
    → Lacks b out
    → Lacks b (digits fuel n out)
unfolding digits
digits-Lacks b zero n out far h = (omega arith, h)
digits-Lacks b (suc fuel) n out far h =
    ground (arith, digits-Lacks b fuel (n / 10) ((b'0' + n % 10) ∷ out) far)

pub show-Lacks : (b : ℕ) (z : ℤ) → (b < b'0') ⊎ (b'9' < b) → b ≢ b'-' → Lacks b (show z)
unfolding show show_ℕ
show-Lacks b (pos n) far minus = digits-Lacks b n n [] far tt
show-Lacks b (negsuc n) far minus = (omega arith, digits-Lacks b (suc n) (suc n) [] far tt)
