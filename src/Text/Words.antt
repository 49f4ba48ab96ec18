-- ===== src/Text/Words.antt =====
-- Where a word cannot begin: its first two or three letters do not stand one behind the other.
use go_exasol.Base.{
  ℕ, ◌+◌, ◌≤◌, ◌≡◌, ◌≢◌, refl, ◌∙◌, Bool, Bool-cases, inl, inr, ◌&&◌, ◌||◌, true, false, none, [],
  ◌∷◌, Bytes, ◌==◌, if◌then◌else◌, arith,
}
use go_exasol.Text.Pattern.{folded, word}

-- The letter, which is given in lower case, in any case.
abbrev pub is_case_of : ℕ → ℕ → Bool
is_case_of p c = c == p || c + 32 == p

-- A letter in lower case that only its capital folds to.
abbrev pub IsPlainLetter : ℕ → Type 0
IsPlainLetter p = (97 ≤ p) × (p ≤ 122) × (p ≢ b's') × (p ≢ b'k')

word_mismatch : (p : ℕ) (ps s : Bytes) → folded p s ≡ 0 → word (p ∷ ps) s ≡ none
unfolding word
word_mismatch p ps s h = ground (arith, h)

word_later :
    (p c : ℕ) (ps s : Bytes)
    → folded p (c ∷ s) ≡ 1
    → word ps s ≡ none
    → word (p ∷ ps) (c ∷ s) ≡ none
unfolding word
word_later p c ps s h k = ground (arith, h, k)

folded_letter :
    (p c : ℕ) (s : Bytes) → IsPlainLetter p → folded p (c ∷ s) ≡ (if is_case_of p c then 1 else 0)
folded_letter p c s h = ground arith

folded_nothing : (p : ℕ) → IsPlainLetter p → folded p [] ≡ 0
folded_nothing p h = ground arith

module _ (p q : ℕ) (ps : Bytes) (first : IsPlainLetter p) (second : IsPlainLetter q) where
  pub word_one : (c : ℕ) → word (p ∷ q ∷ ps) (c ∷ []) ≡ none
  word_one c = elim (Bool-cases (is_case_of p c)) [
    | inl e ↦
        word_later p c (q ∷ ps) [] (folded_letter p c [] first ∙ rw e refl)
          (word_mismatch q ps [] (folded_nothing q second))
    | inr e ↦ word_mismatch p (q ∷ ps) (c ∷ []) (folded_letter p c [] first ∙ rw e refl)
  ]

  pub word_pair :
      (c d : ℕ) (s : Bytes)
      → (is_case_of p c && is_case_of q d) ≡ false
      → word (p ∷ q ∷ ps) (c ∷ d ∷ s) ≡ none
  word_pair c d s h = elim (Bool-cases (is_case_of p c)) [
    | inl e ↦
        word_later p c (q ∷ ps) (d ∷ s) (folded_letter p c (d ∷ s) first ∙ rw e refl)
          (word_mismatch q ps (d ∷ s) (folded_letter q d s second ∙ ground (arith, e, h)))
    | inr e ↦ word_mismatch p (q ∷ ps) (c ∷ d ∷ s) (folded_letter p c (d ∷ s) first ∙ rw e refl)
  ]

-- Three letters do not stand one behind the other.
abbrev pub NoTriple : ℕ → ℕ → ℕ → Bytes → Type 0
NoTriple p q r [] = Unit
NoTriple p q r (c ∷ []) = Unit
NoTriple p q r (c ∷ d ∷ []) = Unit
NoTriple p q r (c ∷ d ∷ e ∷ s) =
    ((is_case_of p c && (is_case_of q d && is_case_of r e)) ≡ false) × NoTriple p q r (d ∷ e ∷ s)

module _ (p q r : ℕ) (ps : Bytes) (first : IsPlainLetter p) (second : IsPlainLetter q)
    (third : IsPlainLetter r) where
  word_behind :
      (c : ℕ) (s : Bytes)
      → (is_case_of p c ≡ true → word (q ∷ r ∷ ps) s ≡ none)
      → word (p ∷ q ∷ r ∷ ps) (c ∷ s) ≡ none
  word_behind c s h = elim (Bool-cases (is_case_of p c)) [
    | inl e ↦ word_later p c (q ∷ r ∷ ps) s (folded_letter p c s first ∙ rw e refl) (h e)
    | inr e ↦ word_mismatch p (q ∷ r ∷ ps) (c ∷ s) (folded_letter p c s first ∙ rw e refl)
  ]

  pub word_single : (c : ℕ) → word (p ∷ q ∷ r ∷ ps) (c ∷ []) ≡ none
  word_single c = word_behind c [] (λ e. word_mismatch q (r ∷ ps) [] (folded_nothing q second))

  pub word_two : (c d : ℕ) → word (p ∷ q ∷ r ∷ ps) (c ∷ d ∷ []) ≡ none
  word_two c d = word_behind c (d ∷ []) (λ e. word_one q r ps second third d)

  pub word_triple :
      (c d e : ℕ) (s : Bytes)
      → (is_case_of p c && (is_case_of q d && is_case_of r e)) ≡ false
      → word (p ∷ q ∷ r ∷ ps) (c ∷ d ∷ e ∷ s) ≡ none
  word_triple c d e s h =
      word_behind c (d ∷ e ∷ s) (λ k. word_pair q r ps second third d e s (ground (arith, h, k)))
