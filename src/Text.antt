-- ===== src/Text.antt =====
-- The functions of Go's `strings`, `strconv` and `fmt` that the driver calls, over bytes.
pub mod Decimal
pub mod Laws
pub mod Pattern
pub mod Words
pub mod Ways
use go_exasol.Base.{
  ℕ, zero, suc, ◌+◌, ◌-◌, ltb, Bool, true, false, List, [], ◌∷◌, ◌++◌, Option, none, some, Bytes,
  ◌&&◌, ◌==◌, if◌then◌else◌, length,
}

-- A hexadecimal digit, of a number below 16.
abbrev pub hex_digit : ℕ → ℕ
hex_digit n = if ltb n 10 then b'0' + n else b'a' + n - 10

abbrev pub cons_head : ℕ → List Bytes → List Bytes
cons_head c [] = (c ∷ []) ∷ []
cons_head c (part ∷ parts) = (c ∷ part) ∷ parts

-- `strings.Split(s, sep)` at a separator of one byte
unfoldable pub split : ℕ → Bytes → List Bytes
split sep [] = [] ∷ []
split sep (c ∷ s) = let parts = split sep s in if c == sep then [] ∷ parts else cons_head c parts

-- `strings.SplitN(s, sep, 2)`
unfoldable pub split_n2 : ℕ → Bytes → List Bytes
split_n2 sep [] = [] ∷ []
split_n2 sep (c ∷ s) =
    let parts = split_n2 sep s in if c == sep then [] ∷ s ∷ [] else cons_head c parts

-- `strings.HasPrefix(s, prefix)`
unfoldable pub has_prefix : Bytes → Bytes → Bool
has_prefix s [] = true
has_prefix [] (p ∷ prefix) = false
has_prefix (c ∷ s) (p ∷ prefix) = c == p && has_prefix s prefix

abbrev pub drop_bytes : ℕ → Bytes → Bytes
drop_bytes zero s = s
drop_bytes (suc n) [] = []
drop_bytes (suc n) (c ∷ s) = drop_bytes n s

-- `strings.Replace(s, old, new, 1)`
unfoldable pub replace_first : Bytes → Bytes → Bytes → Bytes
unfolding has_prefix
replace_first [] old new = if has_prefix [] old then new else []
replace_first (c ∷ s) old new =
    let rest = replace_first s old new in
    if has_prefix (c ∷ s) old then new ++ drop_bytes (length old) (c ∷ s) else c ∷ rest

-- `strings.ReplaceAll(s, old, new)` for a non-empty `old`: `skip` bytes of a match are still to pass
unfoldable pub replace_from : ℕ → Bytes → Bytes → Bytes → Bytes
unfolding has_prefix
replace_from skip [] old new = []
replace_from (suc skip) (c ∷ s) old new = replace_from skip s old new
replace_from zero (c ∷ s) old new = elim (has_prefix (c ∷ s) old) [
  | true ↦ new ++ replace_from (length old - 1) s old new
  | false ↦ c ∷ replace_from zero s old new
]

abbrev pub replace_all : Bytes → Bytes → Bytes → Bytes
replace_all = replace_from zero

abbrev cons_unless : ℕ → ℕ → Bytes → Bytes
cons_unless cut c [] = if c == cut then [] else c ∷ []
cons_unless cut c (d ∷ s) = c ∷ d ∷ s

-- `strings.TrimRight(s, cutset)` with a cutset of one byte
unfoldable pub trim_right : ℕ → Bytes → Bytes
trim_right cut [] = []
trim_right cut (c ∷ s) = cons_unless cut c (trim_right cut s)

-- `strings.TrimLeft(s, cutset)` with a cutset of one byte
unfoldable pub trim_left : ℕ → Bytes → Bytes
trim_left cut [] = []
trim_left cut (c ∷ s) = let rest = trim_left cut s in if c == cut then rest else c ∷ s
