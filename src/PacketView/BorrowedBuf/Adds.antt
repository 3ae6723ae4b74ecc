-- ===== src/PacketView/BorrowedBuf/Adds.antt =====
-- packetview/borrowed_buf.rs: methods and functions that append to a borrowed buffer.
use umqtt.Base.{
  ℕ, ◌+◌, ◌≤◌, ◌≡◌, refl, ◌∙◌, arith, List, [], ◌++◌, length, take, drop, length-append,
  length-drop, length-take, take-append, drop-append, drop-append_add, drop-drop, append-nil,
  append_assoc,
}
use umqtt.Base.Outcome.{Outcome, ok, err, panic, pure, ◌>>=◌, ◌>>◌, bind_ok, NoPanic, resume}
use umqtt.PacketView.{WriteError}
use umqtt.PacketView.BorrowedBuf.{
  BorrowedBuf, Fill, capacity, get_len, spare_capacity, add_slice, copy_at,
}

-- The buffer that holds `w` and has the bytes `r` left.
abbrev pub at : List ℕ → List ℕ → BorrowedBuf
at w r = record { buffer = w ++ r; len = length w }

-- Wherever there is room for them, `f` appends the bytes `bs` and does nothing else; `value` is what
-- it returns, from all that is stored then.
abbrev pub AddsTo : {A : Type 0} → Fill A → List ℕ → (List ℕ → A) → Type 0
AddsTo f bs value =
    (w r : List ℕ)
    → length bs ≤ length r
    → f (at w r) ≡ (ok (value (w ++ bs)), at (w ++ bs) (drop (length bs) r))

abbrev pub Adds : Fill (Unit {0}) → List ℕ → Type 0
Adds f bs = AddsTo f bs (λ _. tt)

pub AddsTo-get_len : AddsTo get_len [] (length {A = ℕ})
AddsTo-get_len w r h = rw append-nil refl

pub Adds-pure : Adds (pure tt) []
Adds-pure w r h = rw append-nil refl

pub Adds-add_slice : (bs : List ℕ) → Adds (add_slice bs) bs
unfolding add_slice spare_capacity
Adds-add_slice bs w r h = ground (
  arith,
  length-append w r,
  length-append w bs,
  take-append w r,
  drop-append_add w r (length bs),
  append_assoc w bs (drop (length bs) r),
)

pub Adds-then :
    {A : Type 0} (value : List ℕ → A) (f : Fill (Unit {0})) (g : Fill A) (bs cs : List ℕ)
    → Adds f bs
    → AddsTo g cs value
    → AddsTo (f >> g) (bs ++ cs) value
Adds-then value f g bs cs hf hg w r h =
    bind_ok f (λ _. g) (hf w r (omega (arith, length-append bs cs)))
    ∙ hg (w ++ bs) (drop (length bs) r)
        (omega (arith, length-append bs cs, length-drop (length bs) r))
    ∙ rw (append_assoc w bs cs, drop-drop, ← length-append bs cs) refl

-- Bytes in the middle are overwritten by as many bytes.
pub copy_at-middle :
    (w old t r new : List ℕ)
    → length new ≡ length old
    → copy_at (length w) new (at (w ++ (old ++ t)) r) ≡ (ok tt, at (w ++ (new ++ t)) r)
copy_at-middle w old t r new e = ground (
  arith,
  spliced,
  length-append (w ++ (old ++ t)) r,
  length-append w (old ++ t),
  length-append w (new ++ t),
  length-append old t,
  length-append new t,
)
  where
    spliced :
        take (length w) ((w ++ (old ++ t)) ++ r)
          ++ (new ++ drop (length w + length new) ((w ++ (old ++ t)) ++ r))
        ≡ (w ++ (new ++ t)) ++ r
    spliced =
        rw
          (
            append_assoc w (old ++ t) r,
            append_assoc w (new ++ t) r,
            take-append w ((old ++ t) ++ r),
            drop-append_add w ((old ++ t) ++ r) (length new),
            e,
            append_assoc old t r,
            append_assoc new t r,
            drop-append old (t ++ r),
          )
          refl

-- What every method and every function does that is made of them: it does not panic on `b`, and it
-- only moves the end of the data on.
abbrev pub Grown : BorrowedBuf → BorrowedBuf → Type 0
Grown b b' = (b.len ≤ b'.len) × (b'.len ≤ capacity b') × (capacity b' ≡ capacity b)

abbrev pub TameAt : {A : Type 0} → Fill A → BorrowedBuf → Type 0
TameAt f b = NoPanic (f b).0 × Grown b (f b).1

abbrev pub IsTame : Fill (Unit {0}) → Type 0
IsTame f = (b : BorrowedBuf) → b.len ≤ capacity b → TameAt f b

module _ {A B : Type 0} where
  resume_tame :
      (b : BorrowedBuf) (q : Outcome WriteError A × BorrowedBuf) (f : A → Fill B)
      → NoPanic q.0 × Grown b q.1
      → ((a : A) (b' : BorrowedBuf) → q ≡ (ok a, b') → Grown b b' → TameAt (f a) b')
      → NoPanic (resume q.0 f q.1).0 × Grown b (resume q.0 f q.1).1
  resume_tame b (ok a, b') f h k =
      let (n, g) = k a b' refl h.1 in
      (n, (omega (arith, h, g), omega (arith, g), omega (arith, g, h)))
  resume_tame b (err e, b') f h k = h
  resume_tame b (panic, b') f h k = h

  pub TameAt-bind :
      (m : Fill A) (f : A → Fill B) (b : BorrowedBuf)
      → TameAt m b
      → ((a : A) (b' : BorrowedBuf) → m b ≡ (ok a, b') → Grown b b' → TameAt (f a) b')
      → TameAt (m >>= f) b
  TameAt-bind m f b h k = resume_tame b (m b) f h k

pub IsTame-add_slice : (bs : List ℕ) → IsTame (add_slice bs)
unfolding add_slice spare_capacity
IsTame-add_slice bs b h = ground (
  arith,
  h,
  length-append (take b.len b.buffer) (bs ++ drop (b.len + length bs) b.buffer),
  length-append bs (drop (b.len + length bs) b.buffer),
  length-take b.len b.buffer,
  length-drop (b.len + length bs) b.buffer,
)

pub add_slice-len :
    (bs : List ℕ) (b b' : BorrowedBuf) → add_slice bs b ≡ (ok tt, b') → b'.len ≡ b.len + length bs
unfolding add_slice spare_capacity
add_slice-len bs b b' e = ground (arith, e)
