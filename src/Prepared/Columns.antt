-- ===== src/Prepared/Columns.antt =====
-- Which arguments the loop appends to which column.
use native.Mathlib.Decide.{dec_lt}
use native.Mathlib.Nat.{mod-eq_of_lt}
use go_exasol.Base.{
  ℕ, zero, suc, ◌+◌, ◌*◌, ◌%◌, ◌≤◌, ◌<◌, ◌≡◌, refl, sym, ap, ◌∙◌, List, [], ◌∷◌, ◌++◌, Option, none,
  some, ◌==◌, arith, length, replicate, get_elem?, if◌then◌else◌, append_assoc, Bool-cases, inl,
  inr,
}
use go_exasol.Prepared.Mod.{mod_next, mod_differs}
use go_exasol.Prepared.{append_at, appended, distribute}

pub start_index : (n j : ℕ) → j < n → (0 + j) % n ≡ j
start_index n j h = let plain : 0 + j ≡ j = omega arith in ap (λ k. k % n) plain ∙ mod-eq_of_lt h

pub get_elem?-replicate :
    {A : Type 0} (n j : ℕ) (a : A) → j < n → get_elem? (replicate n a) j ≡ some a
get_elem?-replicate zero j a h = absurd (omega arith)
get_elem?-replicate (suc n) zero a h = refl
get_elem?-replicate (suc n) (suc j) a h = get_elem?-replicate n j a (omega arith)

module _ {V : Type 0} where
  -- The arguments whose index leaves the rest `j`, where the first has index `i`.
  pub picked : ℕ → ℕ → ℕ → List V → List V
  picked n j i [] = []
  picked n j i (arg ∷ args) =
      let rest = picked n j (i + 1) args in if i % n == j then arg ∷ rest else rest

  abbrev pub extended : Option (List V) → List V → Option (List V)
  extended column [] = column
  extended none (v ∷ vs) = some (v ∷ vs)
  extended (some column) (v ∷ vs) = some (column ++ v ∷ vs)

  get_elem?-append_at :
      (i j : ℕ) (v : V) (columns : List (Option (List V)))
      → get_elem? (append_at i v columns) j ≡ (
          if i == j
          then (elim (get_elem? columns j) [
            | none ↦ none
            | some column ↦ some (some (appended column v))
          ])
          else get_elem? columns j)
  get_elem?-append_at i j v [] = ground arith
  get_elem?-append_at zero zero v (column ∷ columns) = refl
  get_elem?-append_at zero (suc j) v (column ∷ columns) = ground arith
  get_elem?-append_at (suc i) zero v (column ∷ columns) = ground arith
  get_elem?-append_at (suc i) (suc j) v (column ∷ columns) =
      ground (arith, get_elem?-append_at i j v columns)

  extended-appended :
      (column : Option (List V)) (v : V) (vs : List V)
      → extended (some (appended column v)) vs ≡ extended column (v ∷ vs)
  extended-appended none v [] = refl
  extended-appended none v (w ∷ vs) = refl
  extended-appended (some column) v [] = refl
  extended-appended (some column) v (w ∷ vs) = rw append_assoc

  -- The loop appends to column `j` the arguments that are picked for it.
  pub get_elem?-distribute :
      (n i j : ℕ) (args : List V) (columns : List (Option (List V))) {column : Option (List V)}
      → get_elem? columns j ≡ some column
      → get_elem? (distribute n i args columns) j ≡ some (extended column (picked n j i args))
  unfolding distribute picked
  get_elem?-distribute n i j [] columns h = h
  get_elem?-distribute n i j (arg ∷ args) columns {column} h = elim (Bool-cases (i % n == j)) [
    | inl here ↦ rw here (
        get_elem?-distribute n (i + 1) j args (append_at (i % n) arg columns)
          (ground (arith, get_elem?-append_at (i % n) j arg columns))
        ∙ ap some (extended-appended column arg (picked n j (i + 1) args)))
    | inr other ↦ rw other (
        get_elem?-distribute n (i + 1) j args (append_at (i % n) arg columns)
          (ground (arith, get_elem?-append_at (i % n) j arg columns)))
  ]

  -- The entries of a column are the arguments at every `n`-th index, from the first one that
  -- belongs to it.
  pub get_elem?-picked :
      (n j i d r : ℕ) (args : List V)
      → j < n
      → d < n
      → (i + d) % n ≡ j
      → get_elem? (picked n j i args) r ≡ get_elem? args (r * n + d)
  unfolding picked
  get_elem?-picked zero j i d r args h k e = absurd (omega arith)
  get_elem?-picked (suc n) j i d r [] h k e = refl
  get_elem?-picked (suc n) j i zero zero (arg ∷ args) h k e = ground arith
  get_elem?-picked (suc n) j i zero (suc r) (arg ∷ args) h k e =
      let below : r * suc n + n ≡ r * suc n + n = refl in
      let index : suc r * suc n + 0 ≡ suc (r * suc n + n) = grind arith in
      rw index
        (ground (arith, mod_next i n, get_elem?-picked (suc n) j (i + 1) n r args h (omega arith)))
  get_elem?-picked (suc n) j i (suc d) r (arg ∷ args) h k e =
      let index : r * suc n + suc d ≡ suc (r * suc n + d) = omega arith in
      let shift : i + suc d ≡ i + 1 + d = omega arith in
      rw index (
        ground (
          arith,
          mod_differs i d (suc n) k,
          get_elem?-picked (suc n) j (i + 1) d r args h (omega arith)
              (ap (λ u. u % suc n) (sym shift) ∙ e),
        ))

  none_of_le : (xs : List V) (r : ℕ) → length xs ≤ r → get_elem? xs r ≡ none
  none_of_le [] r h = refl
  none_of_le (x ∷ xs) zero h = absurd (omega arith)
  none_of_le (x ∷ xs) (suc r) h = none_of_le xs r (omega arith)

  le_of_none : (xs : List V) (r : ℕ) → get_elem? xs r ≡ none → length xs ≤ r
  le_of_none [] r h = omega arith
  le_of_none (x ∷ xs) zero h = absurd (cc)
  le_of_none (x ∷ xs) (suc r) h = omega (arith, le_of_none xs r h)

  -- A column has as many entries as there are rows.
  pub length-picked :
      (n j rows : ℕ) (args : List V)
      → j < n
      → length args ≡ rows * n
      → length (picked n j 0 args) ≡ rows
  length-picked n j rows args h e = omega (arith, at_most, at_least rows e)
    where
      at_row : (r : ℕ) → get_elem? (picked n j 0 args) r ≡ get_elem? args (r * n + j)
      at_row r = get_elem?-picked n j 0 j r args h h (start_index n j h)

      at_most : length (picked n j 0 args) ≤ rows
      at_most = le_of_none _ rows (at_row rows ∙ none_of_le args (rows * n + j) (omega arith))

      at_least : (k : ℕ) → length args ≡ k * n → k ≤ length (picked n j 0 args)
      at_least zero f = omega arith
      at_least (suc r) f = elim (dec_lt r (length (picked n j 0 args))) [
        | yes below ↦ below
        | no above ↦
            let few : length args ≤ r * n + j =
              le_of_none args (r * n + j) (sym (at_row r) ∙ none_of_le _ r (omega arith)) in
            let product : suc r * n ≡ r * n + n = grind arith in absurd (omega arith)
      ]
