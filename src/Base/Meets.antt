-- ===== src/Base/Meets.antt =====
-- What a call promises of its answer and of the state that it leaves: one predicate for a call that
-- returns a value, and one for a call that fails.
use mathlib.Core.Path.{◌≡◌, refl, subst}
use mathlib.Core.Bool.{Bool, true, false}
use umqtt.Base.Tests.{if◌then◌else◌}
use umqtt.Base.Outcome.{Outcome, ok, err, panic, Act, resume, ◌>>=◌}

module _ {S E A : Type 0} where
  -- `Q` holds of a value and the state, or `R` holds of the state after an error or a panic.
  abbrev pub Ends : (A → S → Type 0) → (S → Type 0) → Outcome E A × S → Type 0
  Ends Q R (ok a, s) = Q a s
  Ends Q R (err e, s) = R s
  Ends Q R (panic, s) = R s

  -- From every state with `P` the call ends so.
  abbrev pub Meets : (S → Type 0) → Act S E A → (A → S → Type 0) → (S → Type 0) → Type 0
  Meets P m Q R = (s : S) → P s → Ends Q R (m s)

  -- A call that leaves the state as it is.
  pub Ends-look :
      (Q : A → S → Type 0) (R : S → Type 0) (r : Outcome E A) (s : S)
      → ((a : A) → r ≡ ok a → Q a s)
      → R s
      → Ends Q R (r, s)
  Ends-look Q R (ok a) s f h = f a refl
  Ends-look Q R (err e) s f h = h
  Ends-look Q R panic s f h = h

  pub Ends-weaken :
      (Q Q' : A → S → Type 0) (R R' : S → Type 0) (r : Outcome E A × S)
      → ((a : A) (s : S) → Q a s → Q' a s)
      → ((s : S) → R s → R' s)
      → Ends Q R r
      → Ends Q' R' r
  Ends-weaken Q Q' R R' (ok a, s) f g h = f a s h
  Ends-weaken Q Q' R R' (err e, s) f g h = g s h
  Ends-weaken Q Q' R R' (panic, s) f g h = g s h

  pub Ends-both :
      (Q Q' : A → S → Type 0) (R : S → Type 0) (r : Outcome E A × S)
      → ((a : A) (s : S) → r ≡ (ok a, s) → Q' a s)
      → Ends Q R r
      → Ends (λ a s. Q a s × Q' a s) R r
  Ends-both Q Q' R (ok a, s) f h = (h, f a s refl)
  Ends-both Q Q' R (err e, s) f h = h
  Ends-both Q Q' R (panic, s) f h = h

  pub Ends-and :
      (Q Q' : A → S → Type 0) (R R' : S → Type 0) (r : Outcome E A × S)
      → Ends Q R r
      → Ends Q' R' r
      → Ends (λ a s. Q a s × Q' a s) R r
  Ends-and Q Q' R R' (ok a, s) h k = (h, k)
  Ends-and Q Q' R R' (err e, s) h k = h
  Ends-and Q Q' R R' (panic, s) h k = h

  -- The state is so however the call ended.
  pub Ends-always : (Q : S → Type 0) (r : Outcome E A × S) → Q r.1 → Ends (λ a. Q) Q r
  Ends-always Q (ok a, s) h = h
  Ends-always Q (err e, s) h = h
  Ends-always Q (panic, s) h = h

  -- A call that returned.
  pub Ends-ok :
      (Q : A → S → Type 0) (R : S → Type 0) (r : Outcome E A × S) (a : A)
      → Ends Q R r
      → r.0 ≡ ok a
      → Q a r.1
  Ends-ok Q R (ok b, s) a h e = let same : b ≡ a = cc e in subst (λ x. Q x s) same h
  Ends-ok Q R (err x, s) a h e = cc
  Ends-ok Q R (panic, s) a h e = cc

  pub Meets-if :
      (P : S → Type 0) (Q : A → S → Type 0) (R : S → Type 0) (b : Bool) (m n : Act S E A)
      → Meets P m Q R
      → Meets P n Q R
      → Meets P (if b then m else n) Q R
  Meets-if P Q R true m n hm hn = hm
  Meets-if P Q R false m n hm hn = hn

module _ {S E A B : Type 0} (Q : A → S → Type 0) (Q' : B → S → Type 0) (R : S → Type 0)
    (f : A → Act S E B) where
  resume-Ends :
      (r : Outcome E A × S)
      → Ends Q R r
      → ((a : A) → Meets (Q a) (f a) Q' R)
      → Ends Q' R (resume r.0 f r.1)
  resume-Ends (ok a, s) h k = k a s h
  resume-Ends (err e, s) h k = h
  resume-Ends (panic, s) h k = h

  -- A bind, from one state.
  pub Ends-bind :
      (m : Act S E A) (s : S)
      → Ends Q R (m s)
      → ((a : A) → Meets (Q a) (f a) Q' R)
      → Ends Q' R ((m >>= f) s)
  Ends-bind m s h k = resume-Ends (m s) h k
