-- ===== src/Text/Laws.antt =====
-- What the functions on texts give where the separator or the pattern is absent, or stands once.
use go_exasol.Base.{ℕ, ◌≡◌, ◌≢◌, refl, [], ◌∷◌, ◌++◌, Bytes, arith, Lacks}
use go_exasol.Text.{split, split_n2, replace_from, replace_all, trim_right, cons_unless}

pub append-ne-nil : (x y : Bytes) → y ≢ [] → x ++ y ≢ []
append-ne-nil [] y h = h
append-ne-nil (c ∷ x) y h = λ e. cc

module _ (sep : ℕ) where
  pub split-Lacks : (s : Bytes) → Lacks sep s → split sep s ≡ s ∷ []
  unfolding split
  split-Lacks [] h = refl
  split-Lacks (c ∷ s) h = ground (arith, split-Lacks s h.1)

  pub split_at : (s rest : Bytes) → Lacks sep s → split sep (s ++ sep ∷ rest) ≡ s ∷ split sep rest
  unfolding split
  split_at [] rest h = ground arith
  split_at (c ∷ s) rest h = ground (arith, split_at s rest h.1)

  pub split_n2_at : (s rest : Bytes) → Lacks sep s → split_n2 sep (s ++ sep ∷ rest) ≡ s ∷ rest ∷ []
  unfolding split_n2
  split_n2_at [] rest h = ground arith
  split_n2_at (c ∷ s) rest h = ground (arith, split_n2_at s rest h.1)

  pub cons_unless_ne : (c : ℕ) (s : Bytes) → c ≢ sep → cons_unless sep c s ≡ c ∷ s
  cons_unless_ne c [] h = ground arith
  cons_unless_ne c (d ∷ s) h = refl

  cons_unless_cons : (c : ℕ) (s : Bytes) → s ≢ [] → cons_unless sep c s ≡ c ∷ s
  cons_unless_cons c [] h = absurd (h refl)
  cons_unless_cons c (d ∷ s) h = refl

  pub trim_right-Lacks : (s : Bytes) → Lacks sep s → trim_right sep s ≡ s
  unfolding trim_right
  trim_right-Lacks [] h = refl
  trim_right-Lacks (c ∷ s) h = rw (trim_right-Lacks s h.1) (cons_unless_ne c s h.0)

  -- Nothing is cut from a text whose end is not cut.
  pub trim_right-append :
      (x y : Bytes) → y ≢ [] → trim_right sep y ≡ y → trim_right sep (x ++ y) ≡ x ++ y
  unfolding trim_right
  trim_right-append [] y h e = e
  trim_right-append (c ∷ x) y h e =
      rw (trim_right-append x y h e) (cons_unless_cons c (x ++ y) (append-ne-nil x y h))

  pub trim_right_sep : (s : Bytes) → trim_right sep (s ++ sep ∷ []) ≡ trim_right sep s
  unfolding trim_right
  trim_right_sep [] = ground arith
  trim_right_sep (c ∷ s) = rw (trim_right_sep s)

-- A pattern does not occur where its first byte is missing.
module _ (a : ℕ) (old new : Bytes) where
  pub replace_all-Lacks_first : (s : Bytes) → Lacks a s → replace_all s (a ∷ old) new ≡ s
  unfolding replace_from
  replace_all-Lacks_first [] h = refl
  replace_all-Lacks_first (c ∷ s) h = ground (arith, replace_all-Lacks_first s h.1)

-- Nor where its second byte is missing.
module _ (a b : ℕ) (old new : Bytes) where
  pub replace_all-Lacks_second : (s : Bytes) → Lacks b s → replace_all s (a ∷ b ∷ old) new ≡ s
  unfolding replace_from
  replace_all-Lacks_second [] h = refl
  replace_all-Lacks_second (c ∷ []) h = ground arith
  replace_all-Lacks_second (c ∷ d ∷ s) h = ground (arith, replace_all-Lacks_second (d ∷ s) h.1)
