-- ===== src/Base/Outcome.antt =====
-- What a call of the Rust code comes to: a value, an error (`Result::Err`), or a panic (an index or
-- a slice out of bounds, an overflow of checked arithmetic). `Act` is such a call on a state that
-- it borrows mutably: what it wrote before an error stays written.
use mathlib.Core.Path.{◌≡◌, refl, ap, fun_ext}

pub data Outcome {ℓ} (E A : Type ℓ) : Type ℓ where
  ok : A → Outcome E A
  err : E → Outcome E A
  panic : Outcome E A

abbrev pub Act : Type 0 → Type 0 → Type 0 → Type 0
Act S E A = S → Outcome E A × S

module _ {S E A : Type 0} where
  abbrev pub pure : A → Act S E A
  pure a s = (ok a, s)

  abbrev pub fail : E → Act S E A
  fail e s = (err e, s)

  -- A call that does not touch the state.
  abbrev pub lift : Outcome E A → Act S E A
  lift r s = (r, s)

module _ {S E A B : Type 0} where
  abbrev pub resume : Outcome E A → (A → Act S E B) → Act S E B
  resume (ok a) f s = f a s
  resume (err e) f s = (err e, s)
  resume panic f s = (panic, s)

  infixl 5 ◌>>=◌ ◌>>◌
  -- The `?` operator.
  abbrev pub ◌>>=◌ : Act S E A → (A → Act S E B) → Act S E B
  ◌>>=◌ m f s = let (r, s') = m s in resume r f s'

  abbrev pub ◌>>◌ : Act S E A → Act S E B → Act S E B
  m >> n = m >>= λ _. n

  -- Running a bind whose first part is known.
  pub bind_ok :
      (m : Act S E A) (f : A → Act S E B) {s t : S} {a : A} → m s ≡ (ok a, t) → (m >>= f) s ≡ f a t
  bind_ok m f h = rw h refl

  pub bind_err :
      (m : Act S E A) (f : A → Act S E B) {s t : S} {e : E}
      → m s ≡ (err e, t)
      → (m >>= f) s ≡ (err e, t)
  bind_err m f h = rw h refl

module _ {S E A : Type 0} where
  pub pure_inv : {a b : A} {s t : S} → pure {E = E} a s ≡ (ok b, t) → (a ≡ b) × (s ≡ t)
  pure_inv h = (cc, cc)

module _ {S E A B : Type 0} where
  resume_inv :
      (r : Outcome E A) (f : A → Act S E B) {s t : S} {b : B}
      → resume r f s ≡ (ok b, t)
      → (a : A) × (r ≡ ok a) × (f a s ≡ (ok b, t))
  resume_inv (ok a) f h = (a, refl, h)
  resume_inv (err e) f h = cc
  resume_inv panic f h = cc

  -- A bind that returns went through both parts.
  pub bind_inv :
      (m : Act S E A) (f : A → Act S E B) {s t : S} {b : B}
      → (m >>= f) s ≡ (ok b, t)
      → (a : A) × (u : S) × (m s ≡ (ok a, u)) × (f a u ≡ (ok b, t))
  bind_inv m f {s} h =
      let (r, u) = m s in let (a, e, k) = resume_inv r f h in (a, u, ap (λ q. (q, u)) e, k)

module _ {S E A B C : Type 0} where
  resume_assoc :
      (r : Outcome E A) (f : A → Act S E B) (g : B → Act S E C) (s : S)
      → resume (resume r f s).0 g (resume r f s).1 ≡ resume r (λ a. f a >>= g) s
  resume_assoc (ok a) f g s = refl
  resume_assoc (err e) f g s = refl
  resume_assoc panic f g s = refl

  pub bind_assoc :
      (m : Act S E A) (f : A → Act S E B) (g : B → Act S E C)
      → (m >>= f) >>= g ≡ m >>= (λ a. f a >>= g)
  bind_assoc m f g = fun_ext (λ s. resume_assoc (m s).0 f g (m s).1)

module _ {E A B : Type 0} where
  -- The `?` operator where no state is borrowed.
  abbrev pub and_then : Outcome E A → (A → Outcome E B) → Outcome E B
  and_then (ok a) f = f a
  and_then (err e) f = err e
  and_then panic f = panic

module _ {E F A : Type 0} where
  abbrev pub map_err : (E → F) → Outcome E A → Outcome F A
  map_err f (ok a) = ok a
  map_err f (err e) = err (f e)
  map_err f panic = panic

  pub map_err_inv : (f : E → F) (r : Outcome E A) {a : A} → map_err f r ≡ ok a → r ≡ ok a
  map_err_inv f (ok b) h = cc
  map_err_inv f (err e) h = cc
  map_err_inv f panic h = cc

-- `?` inside a method that owns its cursor: the cursor is made from `s` and dropped at the end.
abbrev pub run_on : {S E A : Type 0} → S → Act S E A → Outcome E A
run_on s m = (m s).0

-- The call returns, with a value or with an error.
abbrev pub NoPanic : {E A : Type 0} → Outcome E A → Type 0
NoPanic (ok a) = Unit {0}
NoPanic (err e) = Unit {0}
NoPanic panic = ⊥

module _ {S E A B : Type 0} where
  resume_no_panic :
      (q : Outcome E A × S) (f : A → Act S E B)
      → NoPanic q.0
      → ((a : A) (t : S) → q ≡ (ok a, t) → NoPanic (f a t).0)
      → NoPanic (resume q.0 f q.1).0
  resume_no_panic (ok a, t) f h k = k a t refl
  resume_no_panic (err e, t) f h k = tt
  resume_no_panic (panic, t) f h k = h

  -- A bind does not panic where its first part does not, nor what follows an answer of it.
  pub bind_no_panic :
      (m : Act S E A) (f : A → Act S E B) (s : S)
      → NoPanic (m s).0
      → ((a : A) (t : S) → m s ≡ (ok a, t) → NoPanic (f a t).0)
      → NoPanic ((m >>= f) s).0
  bind_no_panic m f s h k = resume_no_panic (m s) f h k

pub map_err_no_panic :
    {E F A : Type 0} (f : E → F) (r : Outcome E A) → NoPanic r → NoPanic (map_err f r)
map_err_no_panic f (ok a) h = tt
map_err_no_panic f (err e) h = tt
map_err_no_panic f panic h = h
