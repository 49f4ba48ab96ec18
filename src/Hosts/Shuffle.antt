-- ===== src/Hosts/Shuffle.antt =====
-- `ShuffleHosts` of internal/utils/helper.go, with `Shuffle` of math/rand: from the last index down
-- to the second, an exchange with an index at or before it. The numbers drawn are a parameter, since
-- the generator starts from the time of day.
use mathlib.Core.List.Permᴰ
use mathlib.Core.List.{Permᴰ}
use go_exasol.Base.{
  ℕ, zero, suc, ◌-◌, ◌%◌, ◌≡◌, refl, List, [], ◌∷◌, Option, none, some, Bytes, length, get_elem?,
}

-- `hosts[i] = host`
unfoldable pub put_at : ℕ → Bytes → List Bytes → List Bytes
put_at i host [] = []
put_at zero host (h ∷ hosts) = host ∷ hosts
put_at (suc i) host (h ∷ hosts) = h ∷ put_at i host hosts

abbrev exchanged : ℕ → ℕ → Option Bytes → Option Bytes → List Bytes → List Bytes
exchanged i j (some x) (some y) hosts = put_at j x (put_at i y hosts)
exchanged i j (some x) none hosts = hosts
exchanged i j none y hosts = hosts

-- `hosts[i], hosts[j] = hosts[j], hosts[i]`; both are in the range wherever `Shuffle` asks for it.
unfoldable pub exchange : ℕ → ℕ → List Bytes → List Bytes
unfolding put_at
exchange i j hosts = exchanged i j (get_elem? hosts i) (get_elem? hosts j) hosts

module _ {World : Type 0} (random : World → ℕ × World) where
  -- The exchanges of the indices from `i` down to 1.
  unfoldable pub shuffle_from : ℕ → List Bytes → World → List Bytes × World
  unfolding exchange
  shuffle_from zero hosts w = (hosts, w)
  shuffle_from (suc i) hosts w =
      let (r, w') = random w in shuffle_from i (exchange (suc i) (r % suc (suc i)) hosts) w'

  -- `ShuffleHosts`
  unfoldable pub shuffle_hosts : List Bytes → World → List Bytes × World
  unfolding shuffle_from
  shuffle_hosts hosts = shuffle_from (length hosts - 1) hosts

-- A host from the list in exchange for another.
put_at-Permᴰ :
    (i : ℕ) (x : Bytes) (hosts : List Bytes) {y : Bytes}
    → get_elem? hosts i ≡ some y
    → Permᴰ (y ∷ put_at i x hosts) (x ∷ hosts)
unfolding put_at
put_at-Permᴰ i x [] e = absurd (cc)
put_at-Permᴰ zero x (h ∷ hosts) {y} e = Permᴰ.swap (cc) refl
put_at-Permᴰ (suc i) x (h ∷ hosts) e =
    Permᴰ.trans (Permᴰ.swap refl refl)
      (Permᴰ.trans (Permᴰ.cons refl (put_at-Permᴰ i x hosts e)) (Permᴰ.swap refl refl))

exchanged-Permᴰ :
    (i j : ℕ) (hosts : List Bytes) (x y : Option Bytes)
    → get_elem? hosts i ≡ x
    → get_elem? hosts j ≡ y
    → Permᴰ (exchanged i j x y hosts) hosts
unfolding put_at
exchanged-Permᴰ i j hosts none y e f = Permᴰ.refl hosts
exchanged-Permᴰ i j hosts (some x) none e f = Permᴰ.refl hosts
exchanged-Permᴰ i j [] (some x) (some y) e f = Permᴰ.refl []
exchanged-Permᴰ zero zero (h ∷ hosts) (some x) (some y) e f = Permᴰ.cons (cc) (Permᴰ.refl hosts)
exchanged-Permᴰ zero (suc j) (h ∷ hosts) (some x) (some y) e f =
    Permᴰ.trans (put_at-Permᴰ j x hosts f) (Permᴰ.cons (cc) (Permᴰ.refl hosts))
exchanged-Permᴰ (suc i) zero (h ∷ hosts) (some x) (some y) e f =
    Permᴰ.trans (put_at-Permᴰ i y hosts e) (Permᴰ.cons (cc) (Permᴰ.refl hosts))
exchanged-Permᴰ (suc i) (suc j) (h ∷ hosts) (some x) (some y) e f =
    Permᴰ.cons refl (exchanged-Permᴰ i j hosts (some x) (some y) e f)

module _ {World : Type 0} (random : World → ℕ × World) where
  shuffle_from-Permᴰ :
      (i : ℕ) (hosts : List Bytes) (w : World) → Permᴰ (shuffle_from random i hosts w).0 hosts
  unfolding shuffle_from exchange
  shuffle_from-Permᴰ zero hosts w = Permᴰ.refl hosts
  shuffle_from-Permᴰ (suc i) hosts w =
      let j = (random w).0 % suc (suc i) in
      Permᴰ.trans (shuffle_from-Permᴰ i (exchange (suc i) j hosts) (random w).1)
        (exchanged-Permᴰ (suc i) j hosts _ _ refl refl)

  -- Whatever is drawn, shuffled hosts are the hosts in some order.
  pub shuffle_hosts-Permᴰ :
      (hosts : List Bytes) (w : World) → Permᴰ (shuffle_hosts random hosts w).0 hosts
  unfolding shuffle_hosts
  shuffle_hosts-Permᴰ hosts w = shuffle_from-Permᴰ (length hosts - 1) hosts w
