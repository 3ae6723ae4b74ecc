-- ===== src/PacketView/WriteCursor/Emits.antt =====
-- What a writing method promises: it appends a list of bytes if they fit, and answers
-- `NotEnoughCapacity` if they do not. A method made of such methods is one.
use mathlib.Core.Path.{subst}
use umqtt.Base.{
  le→leb, leb, if◌then◌else◌, ℕ, ◌≤◌, ◌<◌, ◌≡◌, refl, ap, ◌∙◌, arith, List, [], ◌∷◌, ◌++◌, length,
  drop, set, ltb, tests, Bool-cases, inl, inr, length-append, length-drop, take-append,
  drop-append_add, drop-drop, append-nil, append_assoc,
}
use umqtt.Base.Outcome.{Outcome, ok, err, pure, ◌>>=◌, ◌>>◌, bind_ok, bind_err}
use umqtt.PacketView.{WriteError, not_enough_capacity}
use umqtt.PacketView.WriteCursor.{
  WriteCursor, Write, put_u8, put_u16, put_slice, remaining_capacity, be_bytes, write_into,
  bytes_written,
}

-- The cursor that has written `w` and has the bytes `r` of the buffer left.
abbrev pub at : List ℕ → List ℕ → WriteCursor
at w r = record { buffer = w ++ r; next_write_index = length w }

-- `value` is what the method returns, from all that is written when it does.
pub record EmitsTo {A : Type 0} (m : Write A) (bs : List ℕ) (value : List ℕ → A) : Type 0 where
  pub fits :
      (w r : List ℕ)
      → length bs ≤ length r
      → m (at w r) ≡ (ok (value (w ++ bs)), at (w ++ bs) (drop (length bs) r))
  pub full :
      (w r : List ℕ)
      → length r < length bs
      → (c : WriteCursor) × (m (at w r) ≡ (err not_enough_capacity, c))
        × (length c.buffer ≡ length (w ++ r))

abbrev pub Emits : {A : Type 0} → Write A → List ℕ → A → Type 0
Emits m bs a = EmitsTo m bs (λ _. a)

pub Emits-pure : {A : Type 0} (a : A) → Emits (pure a) [] a
Emits-pure a = record { fits = λ w r h. rw append-nil; full = λ w r h. absurd (omega arith) }

pub EmitsTo-bytes_written : EmitsTo bytes_written [] (length {A = ℕ})
EmitsTo-bytes_written = record {
  fits = λ w r h. rw append-nil;
  full = λ w r h. absurd (omega arith);
}

length-regroup :
    (w bs r : List ℕ)
    → length bs ≤ length r
    → length ((w ++ bs) ++ drop (length bs) r) ≡ length (w ++ r)
length-regroup w bs r h = omega (
  arith,
  length-append (w ++ bs) (drop (length bs) r),
  length-append w bs,
  length-append w r,
  length-drop (length bs) r,
)

at-at :
    (w bs cs r : List ℕ)
    → at (w ++ (bs ++ cs)) (drop (length cs) (drop (length bs) r))
      ≡ at (w ++ (bs ++ cs)) (drop (length (bs ++ cs)) r)
at-at w bs cs r = rw (drop-drop, ← length-append bs cs)

module _ {A B : Type 0} {m : Write A} {bs cs : List ℕ} {va : List ℕ → A} {vb : List ℕ → B}
    (f : A → Write B) where
  pub EmitsTo-bind :
      EmitsTo m bs va → ((w : List ℕ) → EmitsTo (f (va w)) cs vb) → EmitsTo (m >>= f) (bs ++ cs) vb
  EmitsTo-bind em ef = record { fits = fits_bind; full = full_bind }
    where
      fits_bind :
          (w r : List ℕ)
          → length (bs ++ cs) ≤ length r
          → (m >>= f) (at w r)
            ≡ (ok (vb (w ++ (bs ++ cs))), at (w ++ (bs ++ cs)) (drop (length (bs ++ cs)) r))
      fits_bind w r h =
          bind_ok m f (em.fits w r (omega (arith, length-append bs cs)))
          ∙ (ef (w ++ bs)).fits (w ++ bs) (drop (length bs) r)
              (omega (arith, length-append bs cs, length-drop (length bs) r))
          ∙ ap (λ (l : List ℕ). (ok (vb l), at l (drop (length cs) (drop (length bs) r))))
              (append_assoc w bs cs)
          ∙ ap (λ c. (ok (vb (w ++ (bs ++ cs))), c)) (at-at w bs cs r)

      full_bind :
          (w r : List ℕ)
          → length r < length (bs ++ cs)
          → (c : WriteCursor) × ((m >>= f) (at w r) ≡ (err not_enough_capacity, c))
            × (length c.buffer ≡ length (w ++ r))
      full_bind w r h = elim (Bool-cases (ltb (length r) (length bs))) [
        | inl lt ↦ let (c, e, n) = em.full w r (omega tests) in (c, bind_err m f e, n)
        | inr ge ↦
            let (c, e, n) =
              (ef (w ++ bs)).full (w ++ bs) (drop (length bs) r)
                (omega (tests, length-append bs cs, length-drop (length bs) r)) in
            (
              c,
              bind_ok m f (em.fits w r (omega tests)) ∙ e,
              n ∙ length-regroup w bs r (omega tests),
            )
      ]

module _ {A B : Type 0} {m : Write A} {n : Write B} {bs cs : List ℕ} {a : A} {vb : List ℕ → B} where
  pub Emits-then : Emits m bs a → EmitsTo n cs vb → EmitsTo (m >> n) (bs ++ cs) vb
  Emits-then em en = EmitsTo-bind (λ _. n) em (λ _. en)

module _ {A : Type 0} {m : Write A} {bs : List ℕ} {a : A} where
  -- The last write of a packet, before `Ok(buffer.bytes_written())`.
  pub Emits-last : Emits m bs a → EmitsTo (m >> bytes_written) bs (length {A = ℕ})
  Emits-last em =
      subst (λ l. EmitsTo (m >> bytes_written) l (length {A = ℕ})) (append-nil bs)
        (Emits-then em EmitsTo-bytes_written)

set-append : (w r : List ℕ) (x b : ℕ) → set (w ++ (x ∷ r)) (length w) b ≡ (w ++ (b ∷ [])) ++ r
set-append [] r x b = refl
set-append (y ∷ w) r x b = ap (λ (l : List ℕ). y ∷ l) (set-append w r x b)

pub Emits-put_u8 : (b : ℕ) → Emits (put_u8 b) (b ∷ []) tt
unfolding put_u8
Emits-put_u8 b = record { fits = fits_one; full = full_one }
  where
    fits_one :
        (w r : List ℕ) → 1 ≤ length r → put_u8 b (at w r) ≡ (ok tt, at (w ++ (b ∷ [])) (drop 1 r))
    fits_one w [] h = absurd (omega arith)
    fits_one w (x ∷ r) h =
        ground (arith, length-append w (x ∷ r), length-append w (b ∷ []), set-append w r x b)

    full_one :
        (w r : List ℕ)
        → length r < 1
        → (c : WriteCursor) × (put_u8 b (at w r) ≡ (err not_enough_capacity, c))
          × (length c.buffer ≡ length (w ++ r))
    full_one w (x ∷ r) h = absurd (omega arith)
    full_one w [] h = (at w [], ground (arith, length-append w []), refl)

pub Emits-put_slice : (bs : List ℕ) → Emits (put_slice bs) bs tt
unfolding put_slice
Emits-put_slice bs = record {
  fits = λ w r h. ground (
    arith,
    length-append w r,
    length-append w bs,
    take-append w r,
    drop-append_add w r (length bs),
    append_assoc w bs (drop (length bs) r),
  );
  full = λ w r h. (at w r, ground (arith, length-append w r), refl);
}

Emits-remaining : (w r : List ℕ) → remaining_capacity (at w r) ≡ (ok (length r), at w r)
unfolding remaining_capacity
Emits-remaining w r = ground (arith, length-append w r)

pub Emits-put_u16 : (v : ℕ) → Emits (put_u16 v) (be_bytes v) tt
unfolding put_u16
Emits-put_u16 v = record {
  fits = λ w r h. ground (arith, length-append w r, (Emits-put_slice (be_bytes v)).fits w r h);
  full = λ w r h. (at w r, ground (arith, length-append w r), refl);
}

-- What the `write` of a packet comes to: the bytes of the packet at the front of the buffer, the
-- rest unchanged, and their number; or `NotEnoughCapacity` if they do not fit.
abbrev pub Wrote : List ℕ → List ℕ → Outcome WriteError ℕ × List ℕ → Type 0
Wrote bs buffer result =
    if leb (length bs) (length buffer)
    then (result ≡ (ok (length bs), bs ++ drop (length bs) buffer))
    else (result.0 ≡ err not_enough_capacity)

-- A method that ends in `Ok(buffer.bytes_written())`.
module _ {m : Write ℕ} {bs : List ℕ} (e : EmitsTo m bs (length {A = ℕ})) where
  Wrote_fits :
      (buffer : List ℕ)
      → length bs ≤ length buffer
      → write_into m buffer ≡ (ok (length bs), bs ++ drop (length bs) buffer)
  Wrote_fits buffer h = rw (e.fits [] buffer h) refl

  Wrote_full :
      (buffer : List ℕ)
      → length buffer < length bs
      → (write_into m buffer).0 ≡ err not_enough_capacity
  Wrote_full buffer h = let (c, p, n) = e.full [] buffer h in rw p refl

  pub EmitsTo-Wrote : (buffer : List ℕ) → Wrote bs buffer (write_into m buffer)
  EmitsTo-Wrote buffer = elim (Bool-cases (leb (length bs) (length buffer))) [
    | inl le ↦ rw le (Wrote_fits buffer (omega tests))
    | inr gt ↦ rw gt (Wrote_full buffer (omega tests))
  ]

-- Into a buffer that is large enough.
pub Wrote-fits :
    (bs buffer : List ℕ) (r : Outcome WriteError ℕ × List ℕ)
    → Wrote bs buffer r
    → length bs ≤ length buffer
    → r ≡ (ok (length bs), bs ++ drop (length bs) buffer)
Wrote-fits bs buffer r w h = rw (le→leb (length bs) (length buffer) h) at w
