-- ===== src/Text/Ways.antt =====
-- The first way in which parts of regular expressions match.
use go_exasol.Base.{
  ℕ, zero, suc, ◌≡◌, refl, ap, ◌∙◌, true, Bool, some, List, [], ◌∷◌, ◌++◌, map, Bytes, arith, All,
}
use go_exasol.Text.Pattern.{
  Matched, Width, cons_matched, plus, split_bytes, star, optional, ways, first_way,
}

module _ (width : Width) where
  star_stop : (s : Bytes) → width s ≡ 0 → star width zero s ≡ ([], s) ∷ []
  unfolding star
  star_stop [] h = refl
  star_stop (c ∷ s) h = ground (arith, h)

  star_step :
      (c : ℕ) (s : Bytes)
      → width (c ∷ s) ≡ 1
      → star width zero (c ∷ s) ≡ map (cons_matched c) (star width zero s) ++ ([], c ∷ s) ∷ []
  unfolding star
  star_step c s h = ground (arith, h)

  plus_step :
      (c : ℕ) (s : Bytes)
      → width (c ∷ s) ≡ 1
      → plus width (c ∷ s) ≡ map (cons_matched c) (star width zero s)
  unfolding plus
  plus_step c s h = ground (arith, h)

-- A kind of characters that holds these bytes by themselves.
module _ (width : Width) (is_byte : ℕ → Bool)
    (alone : (c : ℕ) (s : Bytes) → is_byte c ≡ true → width (c ∷ s) ≡ 1) where
  -- The first way to match a run of such bytes takes all of them.
  star-first :
      (run rest : Bytes)
      → All (λ c. is_byte c ≡ true) run
      → width rest ≡ 0
      → (ms : List Matched) × (star width zero (run ++ rest) ≡ (run, rest) ∷ ms)
  star-first [] rest h stops = ([], star_stop width rest stops)
  star-first (c ∷ run) rest h stops =
      let (ms, e) = star-first run rest h.1 stops in
      (
        map (cons_matched c) ms ++ ([], c ∷ (run ++ rest)) ∷ [],
        star_step width c (run ++ rest) (alone c (run ++ rest) h.0)
            ∙ ap (λ l. map (cons_matched c) l ++ ([], c ∷ (run ++ rest)) ∷ []) e,
      )

  pub plus-first :
      (c : ℕ) (run rest : Bytes)
      → All (λ c. is_byte c ≡ true) (c ∷ run)
      → width rest ≡ 0
      → (ms : List Matched) × (plus width (c ∷ (run ++ rest)) ≡ (c ∷ run, rest) ∷ ms)
  plus-first c run rest h stops =
      let (ms, e) = star-first run rest h.1 stops in
      (
        map (cons_matched c) ms,
        plus_step width c (run ++ rest) (alone c (run ++ rest) h.0) ∙ ap (map (cons_matched c)) e,
      )

pub optional-first :
    (width : Width) (s : Bytes)
    → (m : Matched) × ((ms : List Matched) × (optional width s ≡ m ∷ ms))
unfolding optional
optional-first width s = first_of (width s)
  where
    first_of :
        (n : ℕ)
        → (m : Matched) × ((ms : List Matched) × ((elim n as (λ k. List Matched) [
          | zero ↦ ([], s) ∷ []
          | suc w ↦ split_bytes (suc w) s ∷ ([], s) ∷ []
        ])
              ≡ m ∷ ms))
    first_of zero = (([], s), ([], refl))
    first_of (suc w) = (split_bytes (suc w) s, (([], s) ∷ [], refl))

first_way-append {ℓ} :
    {A : Type ℓ} (as' bs : List A) {a : A} → first_way as' ≡ some a → first_way (as' ++ bs) ≡ some a
first_way-append [] bs e = absurd (cc)
first_way-append (x ∷ as') bs e = e

-- The first way of all, where the first way of a part leads to one.
pub first_way-ways {ℓ} :
    {A B : Type ℓ} (f : A → List B) (as' : List A) {a : A} {more : List A} {b : B}
    → as' ≡ a ∷ more
    → first_way (f a) ≡ some b
    → first_way (ways as' f) ≡ some b
first_way-ways f as' {a} {more} {b} e h = rw e (first_way-append (f a) (ways more f) h)
