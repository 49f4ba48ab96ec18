-- ===== src/Prepared/Mod.antt =====
-- Remainders by a variable.
use native.Mathlib.Nat.{add-mod_right}
use go_exasol.Base.{ℕ, suc, ◌+◌, ◌%◌, ◌<◌, ◌≡◌, ◌≢◌, ap, ◌∙◌, arith}

pub mod_next : (i n : ℕ) → (i + 1 + n) % suc n ≡ i % suc n
mod_next i n =
    let shift : i + 1 + n ≡ i + suc n = omega arith in
    ap (λ k. k % suc n) shift ∙ add-mod_right i (suc n)

pub mod_differs : (i d n : ℕ) → suc d < n → (i + suc d) % n ≢ i % n
mod_differs i d n h = grind arith
