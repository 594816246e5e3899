-- ===== src/Action.antt =====
-- The operations of the library change a state and return a `Result`. The state comes back with an
-- error too: `?` returns early and undoes nothing.
use exfat_slim.Base.{Bool, true, false, ◌≡◌}
use mathlib.Core.Path.{subst}
use exfat_slim.Error.{Result, ok, err, stuck}

abbrev pub Action : Type 0 → Type 0 → Type 0 → Type 0
Action E S A = S → Result E A × S

module _ {E S A : Type 0} where
  abbrev pub pure : A → Action E S A
  pure a s = (ok a, s)

  abbrev pub fail : E → Action E S A
  fail e s = (err e, s)

  abbrev pub out_of_rounds : Action E S A
  out_of_rounds s = (stuck, s)

  abbrev pub gets : (S → A) → Action E S A
  gets f s = (ok (f s), s)

  abbrev pub when_true : Bool → Action E S A → Action E S A → Action E S A
  when_true true m n = m
  when_true false m n = n

-- What comes after an operation that has returned.
abbrev pub and_then : {E S A B : Type 0} → Result E A × S → (A → Action E S B) → Result E B × S
and_then (ok a, s) f = f a s
and_then (err e, s) f = (err e, s)
and_then (stuck, s) f = (stuck, s)

infixl 5 ◌>>=◌ ◌>>◌
abbrev pub ◌>>=◌ : {E S A B : Type 0} → Action E S A → (A → Action E S B) → Action E S B
◌>>=◌ m f s = and_then (m s) f

abbrev pub ◌>>◌ : {E S B : Type 0} → Action E S (Unit {0}) → Action E S B → Action E S B
m >> k = m >>= λ _. k

abbrev pub modify : {E S : Type 0} → (S → S) → Action E S (Unit {0})
modify f s = (ok tt, f s)

-- An operation on a part of the state.
abbrev pub put_part : {E S T A : Type 0} → (T → S) → Result E A × T → Result E A × S
put_part put (r, t) = (r, put t)

abbrev pub zoom : {E S T A : Type 0} → (S → T) → (T → S → S) → Action E T A → Action E S A
zoom get put m s = put_part (λ t. put t s) (m (get s))

-- A returned value and state satisfy `P`; the state after an error satisfies `Q`; no loop ran out
-- of rounds.
pub data Ensures {E S A : Type 0} (P : A → S → Type 0) (Q : S → Type 0)
    : Result E A × S → Type 0 where
  returned : {a : A} {s : S} → P a s → Ensures P Q (ok a, s)
  raised : {e : E} {s : S} → Q s → Ensures P Q (err e, s)

-- The same by cases.
abbrev pub Outcomes : {E S A : Type 0} → (A → S → Type 0) → (S → Type 0) → Result E A × S → Type 0
Outcomes P Q (ok a, s) = P a s
Outcomes P Q (err e, s) = Q s
Outcomes P Q (stuck, s) = ⊥

module _ {E S A : Type 0} {P : A → S → Type 0} {Q : S → Type 0} where
  pub outcomes : {r : Result E A × S} → Ensures P Q r → Outcomes P Q r
  outcomes (returned p) = p
  outcomes (raised q) = q

  pub ensures : (r : Result E A × S) → Outcomes P Q r → Ensures P Q r
  ensures (ok a, s) h = returned h
  ensures (err e, s) h = raised h
  ensures (stuck, s) h = absurd h

  -- What holds of a run that is known to have returned.
  pub on_return : {r : Result E A × S} {a : A} {s : S} → Ensures P Q r → r ≡ (ok a, s) → P a s
  on_return h e = subst (Outcomes P Q) e (outcomes h)

  pub bind :
      {B : Type 0} {P' : B → S → Type 0} {Q' : S → Type 0} {r : Result E A × S}
      {f : A → Action E S B}
      → Ensures P Q r
      → ((a : A) (s : S) → P a s → Ensures P' Q' (f a s))
      → ((s : S) → Q s → Q' s)
      → Ensures P' Q' (and_then r f)
  bind (returned p) next fails = next _ _ p
  bind (raised q) next fails = raised (fails _ q)

  pub mono :
      {P' : A → S → Type 0} {Q' : S → Type 0} {r : Result E A × S}
      → Ensures P Q r
      → ((a : A) (s : S) → P a s → P' a s)
      → ((s : S) → Q s → Q' s)
      → Ensures P' Q' r
  mono (returned p) keep fails = returned (keep _ _ p)
  mono (raised q) keep fails = raised (fails _ q)

  pub within :
      {T : Type 0} {P' : A → T → Type 0} {Q' : T → Type 0} {r : Result E A × S} (put : S → T)
      → Ensures P Q r
      → ((a : A) (s : S) → P a s → P' a (put s))
      → ((s : S) → Q s → Q' (put s))
      → Ensures P' Q' (put_part put r)
  within put (returned p) keep fails = returned (keep _ _ p)
  within put (raised q) keep fails = raised (fails _ q)

-- Two postconditions of one run.
pub both :
    {E S A : Type 0} {P P' : A → S → Type 0} {Q Q' : S → Type 0} {r : Result E A × S}
    → Ensures P Q r
    → Ensures P' Q' r
    → Ensures (λ a s. P a s × P' a s) (λ s. Q s × Q' s) r
both (returned p) h = returned (p, outcomes h)
both (raised q) h = raised (q, outcomes h)
