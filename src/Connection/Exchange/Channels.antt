-- ===== src/Connection/Exchange/Channels.antt =====
-- The channels on which receivers send.
use mathlib.Core.List.Memᴰ
use mathlib.Core.List.{Memᴰ}
use go_exasol.Base.{ℕ, ◌<◌, ◌≤◌, ◌≡◌, ◌≢◌, refl, sym, ap, subst, List, [], ◌∷◌, ◌++◌, none, arith}
use go_exasol.Connection.Exchange.{System, start, put, Step, Reaches}
use go_exasol.Connection.{Connection}
use go_exasol.Result.{Result}
use go_exasol.Wire.{Wire}

module _ {B : Type 0} where
  -- The numbers of a list fall, from below a bound.
  Descends : ℕ → List (ℕ × B) → Type 0
  Descends bound [] = Unit {0}
  Descends bound ((n, b) ∷ rest) = (n < bound) × Descends n rest

  Descends-weaken : (xs : List (ℕ × B)) (m n : ℕ) → m ≤ n → Descends m xs → Descends n xs
  unfolding Descends
  Descends-weaken [] m n le d = tt
  Descends-weaken ((k, b) ∷ rest) m n le d = (omega (arith, d.0), d.1)

  Descends-removed :
      (before after : List (ℕ × B)) (n bound : ℕ) (b : B)
      → Descends bound (before ++ (n, b) ∷ after)
      → Descends bound (before ++ after)
  unfolding Descends
  Descends-removed [] after n bound b d = Descends-weaken after n bound (omega (arith, d.0)) d.1
  Descends-removed ((k, a) ∷ before) after n bound b d =
      (d.0, Descends-removed before after n k b d.1)

  Descends-below :
      (xs : List (ℕ × B)) (bound m : ℕ) (b : B) → Descends bound xs → Memᴰ (m, b) xs → m < bound
  unfolding Descends
  Descends-below [] bound m b d mem = absurd (Memᴰ.not-nil mem)
  Descends-below ((k, a) ∷ rest) bound m b d (Memᴰ.head h) =
      subst (λ j. j < bound) (sym (ap (λ x. x.0) h)) d.0
  Descends-below ((k, a) ∷ rest) bound m b d (Memᴰ.tail mem) =
      let lt = Descends-below rest k m b d.1 mem in omega (arith, lt, d.0)

  mem-inserted :
      {x : ℕ × B} (before after : List (ℕ × B)) (y : ℕ × B)
      → Memᴰ x (before ++ after)
      → Memᴰ x (before ++ y ∷ after)
  mem-inserted [] after y m = Memᴰ.tail m
  mem-inserted (b ∷ before) after y (Memᴰ.head h) = Memᴰ.head h
  mem-inserted (b ∷ before) after y (Memᴰ.tail m) = Memᴰ.tail (mem-inserted before after y m)

  -- No other element has the number of one of them.
  Descends-distinct :
      (before after : List (ℕ × B)) (n bound m : ℕ) (a b : B)
      → Descends bound (before ++ (n, a) ∷ after)
      → Memᴰ (m, b) (before ++ after)
      → m ≢ n
  unfolding Descends
  Descends-distinct [] after n bound m a b d mem =
      let lt = Descends-below after n m b d.1 mem in λ e. omega (arith, lt, e)
  Descends-distinct ((k, c) ∷ before) after n bound m a b d (Memᴰ.head h) =
      let lt =
        Descends-below (before ++ (n, a) ∷ after) k n a d.1
          (Memᴰ.append_right before (Memᴰ.head refl)) in
      let same : m ≡ k = ap (λ x. x.0) h in λ e. omega (arith, lt, same, e)
  Descends-distinct ((k, c) ∷ before) after n bound m a b d (Memᴰ.tail mem) =
      Descends-distinct before after n k m a b d.1 mem

module _ {World V Raw A : Type 0} (wire : Wire World V Raw) where
  -- The receivers stand in the order of their channels, each of which is empty.
  record HasChannels (s : System World V Raw A) : Type 0 where
    pub in_order : Descends s.channels_made s.receivers
    pub fresh : (n : ℕ) → s.channels_made ≤ n → s.channels n ≡ none
    pub vacant : (n : ℕ) (read : Raw → Result A) → Memᴰ (n, read) s.receivers → s.channels n ≡ none

  put_other :
      (n m : ℕ) (r : Result A) (s : System World V Raw A)
      → m ≢ n
      → s.channels m ≡ none
      → put n r s.channels m ≡ none
  put_other n m r s ne h = ground (arith, ne, h)

  Step-HasChannels : {s t : System World V Raw A} → Step wire s t → HasChannels s → HasChannels t
  unfolding Descends
  Step-HasChannels (Step.refuse s call e d i sent) w = record {
    in_order = w.in_order;
    fresh = w.fresh;
    vacant = w.vacant;
  }
  Step-HasChannels (Step.call s call d i sent) w = record {
    in_order = (omega arith, w.in_order);
    fresh = λ n le. w.fresh n (omega (arith, le));
    vacant = λ n read m. elim m [
      | Memᴰ.head h ↦
          w.fresh n (let same : n ≡ s.channels_made = ap (λ x. x.0) h in omega (arith, same))
      | Memᴰ.tail k ↦ w.vacant n read k
    ];
  }
  Step-HasChannels (Step.receive s before after k read r d e m ne v) w =
      let falls = subst (Descends s.channels_made) e w.in_order in
      let lt =
        Descends-below (before ++ (k, read) ∷ after) s.channels_made k read falls
          (Memᴰ.append_right before (Memᴰ.head refl)) in
      record {
        in_order = Descends-removed before after k s.channels_made read falls;
        fresh = λ n le. put_other k n r s (λ x. omega (arith, lt, le, x)) (w.fresh n le);
        vacant = λ n q mem.
            put_other k n r s (Descends-distinct before after k s.channels_made n read q falls mem)
              (w.vacant n q
                (subst (Memᴰ (n, q)) (sym e) (mem-inserted before after (k, read) mem)));
      }
  Step-HasChannels (Step.respond s n call r i f) w = record {
    in_order = w.in_order;
    fresh = w.fresh;
    vacant = w.vacant;
  }
  Step-HasChannels (Step.cancel s n k call cause r d i ctx a) w = record {
    in_order = w.in_order;
    fresh = w.fresh;
    vacant = w.vacant;
  }

  Reaches-HasChannels :
      {c : Connection World} {s : System World V Raw A} → Reaches wire (start c) s → HasChannels s
  Reaches-HasChannels Reaches.here = record {
    in_order = unfold Descends in tt;
    fresh = λ n le. refl;
    vacant = λ n read m. absurd (Memᴰ.not-nil m);
  }
  Reaches-HasChannels (Reaches.step r s) = Step-HasChannels s (Reaches-HasChannels r)

  -- Whatever calls were made, answered and cancelled, in any order: the channel of every receiver
  -- that stands is empty, so that none of them is blocked when it has read, and no two receivers
  -- share a channel.
  pub receivers_can_send :
      (c : Connection World) {s : System World V Raw A} (before after : List (ℕ × (Raw → Result A)))
      (n : ℕ) (read : Raw → Result A)
      → Reaches wire (start c) s
      → s.receivers ≡ before ++ (n, read) ∷ after
      → (s.channels n ≡ none)
        × ((m : ℕ) (other : Raw → Result A) → Memᴰ (m, other) (before ++ after) → m ≢ n)
  receivers_can_send c {s} before after n read run e =
      let w = Reaches-HasChannels run in
      (
        w.vacant n read
            (subst (Memᴰ (n, read)) (sym e) (Memᴰ.append_right before (Memᴰ.head refl))),
        λ m other mem.
            Descends-distinct before after n s.channels_made m read other
              (subst (Descends s.channels_made) e w.in_order) mem,
      )
