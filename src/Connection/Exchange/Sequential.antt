-- ===== src/Connection/Exchange/Sequential.antt =====
-- Calls that are not cancelled, one after another.
use go_exasol.Base.{
  ℕ, ◌+◌, ◌<◌, ◌≤◌, ◌≡◌, ◌≢◌, refl, sym, ap, ◌∙◌, subst, List, [], ◌∷◌, ◌++◌, none, some, arith,
}
use go_exasol.Connection.Exchange.Replay.{
  Uncancelled, replay, replay-cons, send_refused, send_answered,
}
use go_exasol.Connection.Exchange.{Call, System, start, put, put_same, Step, Reaches}
use go_exasol.Connection.Send.{async_send, callback}
use go_exasol.Connection.{Connection}
use go_exasol.Errors.{Error}
use go_exasol.Result.{Result, ok, err}
use go_exasol.Wire.{Wire, background}

-- The only element of a list is where the list is split.
only :
    {B : Type 0} (before after : List B) (x y : B)
    → y ∷ [] ≡ before ++ x ∷ after
    → (before ++ after ≡ []) × (y ≡ x)
only [] after x y e = (cc, cc)
only (b ∷ []) after x y e = absurd (cc)
only (b ∷ b' ∷ before) after x y e = absurd (cc)

not-nil : {B : Type 0} (before after : List B) (x : B) → [] ≢ before ++ x ∷ after
not-nil [] after x e = cc
not-nil (b ∷ before) after x e = cc

module _ {World V Raw A : Type 0} (wire : Wire World V Raw) where
  module _ (c : Connection World) where
    -- Where the call stands that is under way, behind the calls that returned.
    data Phase (s : System World V Raw A) : Type 0 where
      rested :
          s.selecting ≡ none
          → s.receivers ≡ []
          → replay wire s.returned c ≡ (s.returned, s.connection)
          → Phase s
      awaited :
          (call : Call V Raw A) (n : ℕ) (d : Connection World)
          → s.selecting ≡ some (n, call)
          → s.receivers ≡ (n, call.read) ∷ []
          → n < s.channels_made
          → s.channels n ≡ none
          → replay wire s.returned c ≡ (s.returned, d)
          → async_send wire call.request d ≡ (ok tt, s.connection)
          → Phase s
      answered :
          (call : Call V Raw A) (n : ℕ) (d e : Connection World) (r : Result A)
          → s.selecting ≡ some (n, call)
          → s.receivers ≡ []
          → s.channels n ≡ some r
          → replay wire s.returned c ≡ (s.returned, d)
          → async_send wire call.request d ≡ (ok tt, e)
          → callback wire call.read e ≡ (r, s.connection)
          → Phase s

    -- No channel holds a value before it is made.
    record Inv (s : System World V Raw A) : Type 0 where
      pub fresh : (n : ℕ) → s.channels_made ≤ n → s.channels n ≡ none
      pub phase : Phase s

    refused :
        (s : System World V Raw A) (call : Call V Raw A) (x : Error) (d : Connection World)
        → s.selecting ≡ none
        → async_send wire call.request s.connection ≡ (err x, d)
        → Phase s
        → Phase (record s { connection = d; returned = (call, err x) ∷ s.returned })
    refused s call x d idle sent (Phase.rested i r p) = Phase.rested i r (
        replay-cons wire call (err x) s.returned c s.connection d p
          (send_refused wire call x s.connection d sent))
    refused s call x d idle sent (Phase.awaited k n y i r l f p q) = absurd (cc)
    refused s call x d idle sent (Phase.answered k n y z a i r f p q m) = absurd (cc)

    called :
        (s : System World V Raw A) (call : Call V Raw A) (d : Connection World)
        → s.selecting ≡ none
        → async_send wire call.request s.connection ≡ (ok tt, d)
        → s.channels s.channels_made ≡ none
        → Phase s
        → Phase (record s {
          connection = d;
          selecting = some (s.channels_made, call);
          receivers = (s.channels_made, call.read) ∷ s.receivers;
          channels_made = s.channels_made + 1;
        })
    called s call d idle sent f (Phase.rested i r p) =
        Phase.awaited call s.channels_made s.connection refl (rw r refl) (omega arith) f p sent
    called s call d idle sent f (Phase.awaited k n x i r l g p q) = absurd (cc)
    called s call d idle sent f (Phase.answered k n x y a i r g p q m) = absurd (cc)

    responded :
        (s : System World V Raw A) (n : ℕ) (call : Call V Raw A) (r : Result A)
        → call.context ≡ background
        → s.selecting ≡ some (n, call)
        → s.channels n ≡ some r
        → Phase s
        → Phase (record s { selecting = none; returned = (call, r) ∷ s.returned })
    responded s n call r b i f (Phase.rested j k p) = absurd (cc)
    responded s n call r b i f (Phase.awaited x m d j k l g p q) = absurd (cc)
    responded s n call r b i f (Phase.answered x m d e a j k g p q h) =
        let same : call ≡ x = cc in
        let result : a ≡ r = cc in
        Phase.rested refl k (
          replay-cons wire call r s.returned c d s.connection p (
            send_answered wire call r d e s.connection b (rw same q)
              (rw same (h ∙ ap (λ z. (z, s.connection)) result))))

    received :
        (s : System World V Raw A) (before after : List (ℕ × (Raw → Result A))) (n : ℕ)
        (read : Raw → Result A) (r : Result A) (d : Connection World)
        → s.receivers ≡ before ++ (n, read) ∷ after
        → callback wire read s.connection ≡ (r, d)
        → Phase s
        → Phase (record s {
          connection = d;
          receivers = before ++ after;
          channels = put n r s.channels;
        })
    received s before after n read r d e m (Phase.rested i k p) =
        absurd (not-nil before after (n, read) (sym k ∙ e))
    received s before after n read r d e m (Phase.awaited x l y i k lt f p q) =
        let (none_left, same) = only before after (n, read) (l, x.read) (sym k ∙ e) in
        Phase.answered x l y s.connection r i none_left
          (put_same n r s.channels (ap (λ b. b.0) same)) p q (rw (ap (λ b. b.1) same) m)
    received s before after n read r d e m (Phase.answered x l y z a i k f p q h) =
        absurd (not-nil before after (n, read) (sym k ∙ e))

    received_in_range :
        (s : System World V Raw A) (before after : List (ℕ × (Raw → Result A))) (n : ℕ)
        (read : Raw → Result A)
        → s.receivers ≡ before ++ (n, read) ∷ after
        → Phase s
        → n < s.channels_made
    received_in_range s before after n read e (Phase.rested i k p) =
        absurd (not-nil before after (n, read) (sym k ∙ e))
    received_in_range s before after n read e (Phase.awaited x l y i k lt f p q) =
        subst (λ m. m < s.channels_made)
          (ap (λ b. b.0) (only before after (n, read) (l, x.read) (sym k ∙ e)).1) lt
    received_in_range s before after n read e (Phase.answered x l y z a i k f p q h) =
        absurd (not-nil before after (n, read) (sym k ∙ e))

    Step-Inv :
        {s t : System World V Raw A}
        → Step wire s t
        → (Uncancelled s.returned → Inv s)
        → Uncancelled t.returned
        → Inv t
    Step-Inv (Step.refuse s call e d i sent) inv u = record {
      fresh = (inv u.1).fresh;
      phase = refused s call e d i sent (inv u.1).phase;
    }
    Step-Inv (Step.call s call d i sent) inv u = record {
      fresh = λ n lt. (inv u).fresh n (omega arith);
      phase = called s call d i sent ((inv u).fresh s.channels_made (omega arith)) (inv u).phase;
    }
    Step-Inv (Step.receive s before after n read r d e m ne vacant) inv u =
        let lt = received_in_range s before after n read e (inv u).phase in
        record {
          fresh = λ k le. ground (arith, (inv u).fresh k le);
          phase = received s before after n read r d e m (inv u).phase;
        }
    Step-Inv (Step.respond s n call r i f) inv u = record {
      fresh = (inv u.1).fresh;
      phase = responded s n call r u.0 i f (inv u.1).phase;
    }
    Step-Inv (Step.cancel s n k call cause r d i ctx a) inv u = absurd (let b = u.0 in cc)

    Reaches-Inv :
        {s : System World V Raw A} → Reaches wire (start c) s → Uncancelled s.returned → Inv s
    Reaches-Inv Reaches.here u = record {
      fresh = λ n le. refl;
      phase = Phase.rested refl refl (unfold replay in refl);
    }
    Reaches-Inv (Reaches.step r s) u = Step-Inv s (Reaches-Inv r) u

  -- Where no call is under way and none that returned had a context that can be done, the calls, with
  -- their receivers running beside them, returned what `Send` gives one after another on one
  -- goroutine, and left the connection that it leaves.
  pub Uncancelled-replay :
      (c : Connection World) {s : System World V Raw A}
      → Reaches wire (start c) s
      → Uncancelled s.returned
      → s.selecting ≡ none
      → replay wire s.returned c ≡ (s.returned, s.connection)
  Uncancelled-replay c {s} r u idle = at_rest (Reaches-Inv c r u).phase
    where
      at_rest : Phase c s → replay wire s.returned c ≡ (s.returned, s.connection)
      at_rest (Phase.rested i k p) = p
      at_rest (Phase.awaited x n d i k l f p q) = absurd (cc)
      at_rest (Phase.answered x n d e a i k f p q h) = absurd (cc)
