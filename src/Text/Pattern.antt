-- ===== src/Text/Pattern.antt =====
-- Parts of regular expressions as Go's `regexp` matches them, with the flag `i`, at the start of a
-- text. A part that can match in several ways gives all of them, the preferred one first: what is
-- matched, and the text behind it. The first way in which a whole expression matches is Go's.
use go_exasol.Base.{
  ℕ, zero, suc, ◌+◌, Bool, ◌&&◌, ◌||◌, Option, none, some, List, [], ◌∷◌, ◌++◌, map, Bytes, ◌==◌,
  leb, if◌then◌else◌,
}

abbrev pub Matched : Type 0
Matched = Bytes × Bytes

abbrev pub cons_matched : ℕ → Matched → Matched
cons_matched c (a, b) = (c ∷ a, b)

-- How many bytes a text starts with that are one character of a kind; 0 if it does not.
abbrev pub Width : Type 0
Width = Bytes → ℕ

-- The long s, U+017F, and the Kelvin sign, U+212A, are the letters beyond ASCII that fold to ASCII.
abbrev pub long_s : Width
long_s (c ∷ d ∷ s) = if c == 0xC5 && d == 0xBF then 2 else 0
long_s s = 0

abbrev pub kelvin : Width
kelvin (c ∷ d ∷ e ∷ s) = if c == 0xE2 && d == 0x84 && e == 0xAA then 3 else 0
kelvin s = 0

abbrev pub is_letter : ℕ → Bool
is_letter c = (leb b'a' c && leb c b'z') || (leb b'A' c && leb c b'Z')

abbrev pub one_of : (ℕ → Bool) → Width
one_of test [] = 0
one_of test (c ∷ s) = if test c then 1 else 0

-- A class that holds all letters.
abbrev pub letter_or : (ℕ → Bool) → Width
letter_or test s = one_of (λ c. is_letter c || test c) s + (long_s s + kelvin s)

-- A letter, given in lower case, or another character.
abbrev pub folded : ℕ → Width
folded p s =
    one_of (λ c. c == p || (leb b'a' p && leb p b'z' && c + 32 == p)) s
    + ((if p == b's' then long_s s else 0) + (if p == b'k' then kelvin s else 0))

abbrev pub split_bytes : ℕ → Bytes → Matched
split_bytes zero s = ([], s)
split_bytes (suc n) [] = ([], [])
split_bytes (suc n) (c ∷ s) = cons_matched c (split_bytes n s)

-- A character, or nothing.
unfoldable pub optional : Width → Bytes → List Matched
optional width s = elim (width s) [
  | zero ↦ ([], s) ∷ []
  | suc w ↦ split_bytes (suc w) s ∷ ([], s) ∷ []
]

-- Any number of characters, the most first; `skip` bytes of a character are still to pass.
unfoldable pub star : Width → ℕ → Bytes → List Matched
star width skip [] = ([], []) ∷ []
star width (suc skip) (c ∷ s) = map (cons_matched c) (star width skip s)
star width zero (c ∷ s) =
    let more = λ (w : ℕ). map (cons_matched c) (star width w s) in
    elim (width (c ∷ s)) [ zero ↦ ([], c ∷ s) ∷ [] | suc w ↦ more w ++ ([], c ∷ s) ∷ [] ]

-- One character at least, the most first.
unfoldable pub plus : Width → Bytes → List Matched
unfolding star
plus width [] = []
plus width (c ∷ s) = elim (width (c ∷ s)) [
  | zero ↦ []
  | suc w ↦ map (cons_matched c) (star width w s)
]

abbrev put_in_front : Bytes → Option Matched → Option Matched
put_in_front a none = none
put_in_front a (some (b, s)) = some (a ++ b, s)

-- A word, given in lower case.
unfoldable pub word : Bytes → Bytes → Option Matched
word [] s = some ([], s)
word (p ∷ ps) s = elim (folded p s) [
  | zero ↦ none
  | suc w ↦ let (a, rest) = split_bytes (suc w) s in put_in_front a (word ps rest)
]

abbrev pub ways {ℓ} : {A B : Type ℓ} → List A → (A → List B) → List B
ways [] f = []
ways (a ∷ as') f = f a ++ ways as' f

abbrev pub way {ℓ} : {A B : Type ℓ} → Option A → (A → List B) → List B
way none f = []
way (some a) f = f a

abbrev pub first_way {ℓ} : {A : Type ℓ} → List A → Option A
first_way [] = none
first_way (a ∷ as') = some a

-- `\s`
abbrev pub space : Width
space = one_of (λ c. c == b' ' || c == 9 || c == 10 || c == 12 || c == 13)

abbrev pub blank : Width
blank = one_of (λ c. c == b' ')

-- `["|']`
abbrev pub quote : Width
quote = one_of (λ c. c == b'"' || c == b'|' || c == b'\'')
