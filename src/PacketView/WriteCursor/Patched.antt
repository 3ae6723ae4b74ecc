-- ===== src/PacketView/WriteCursor/Patched.antt =====
-- packetview/cursor.rs: a byte that is written first and overwritten when the bytes behind it are.
use mathlib.Core.Path.{subst}
use umqtt.Base.{
  ℕ, ◌≤◌, ◌<◌, ◌≡◌, refl, ap, ◌∙◌, arith, List, [], ◌∷◌, ◌++◌, length, drop, set, length-append,
  append-nil, append_assoc,
}
use umqtt.Base.Outcome.{ok, err, pure, ◌>>=◌, ◌>>◌, bind_ok, bind_err}
use umqtt.PacketView.{not_enough_capacity}
use umqtt.PacketView.WriteCursor.{WriteCursor, Write, put_u8, set_byte, bytes_written}
use umqtt.PacketView.WriteCursor.Emits.{
  at, Emits, EmitsTo, EmitsTo-bind, Emits-pure, Emits-then, Emits-put_u8,
}

-- The answer of a writing method, changed.
pub Emits-map :
    {A B : Type 0} {m : Write A} {bs : List ℕ} {a : A} (g : A → B)
    → Emits m bs a
    → Emits (m >>= λ x. pure (g x)) bs (g a)
Emits-map {A} {B} {m} {bs} {a} g e =
    subst (λ l. Emits (m >>= λ x. pure (g x)) l (g a)) (append-nil bs)
      (EmitsTo-bind (λ x. pure (g x)) e (λ w. Emits-pure (g a)))

set-middle : (w r : List ℕ) (x v : ℕ) → set (w ++ (x ∷ r)) (length w) v ≡ w ++ (v ∷ r)
set-middle [] r x v = refl
set-middle (y ∷ w) r x v = ap (λ (l : List ℕ). y ∷ l) (set-middle w r x v)

set_byte-middle :
    (w t r : List ℕ) (x v : ℕ)
    → set_byte (length w) v (at (w ++ (x ∷ t)) r) ≡ (ok tt, at (w ++ (v ∷ t)) r)
unfolding set_byte
set_byte-middle w t r x v = ground (
  arith,
  stored,
  length-append (w ++ (x ∷ t)) r,
  length-append w (x ∷ t),
  length-append w (v ∷ t),
)
  where
    stored : set ((w ++ (x ∷ t)) ++ r) (length w) v ≡ (w ++ (v ∷ t)) ++ r
    stored = rw (append_assoc w (x ∷ t) r, append_assoc w (v ∷ t) r) (set-middle w (t ++ r) x v)

-- Overwriting the byte at `index`, at the end of a packet's `write`.
abbrev pub patch : ℕ → ℕ → Write ℕ
patch index v = set_byte index v >> bytes_written

module _ {m : Write ℕ} {bs : List ℕ} {v : ℕ} (x : ℕ) (e : Emits m bs v) where
  abbrev placed : Emits (put_u8 x >> m) (x ∷ bs) v
  placed = Emits-then (Emits-put_u8 x) e

  abbrev whole : Write ℕ
  whole = bytes_written >>= λ index. (put_u8 x >> m) >>= patch index

  patched_fits :
      (w r : List ℕ)
      → length (v ∷ bs) ≤ length r
      → whole (at w r)
        ≡ (ok (length (w ++ (v ∷ bs))), at (w ++ (v ∷ bs)) (drop (length (v ∷ bs)) r))
  patched_fits w r h =
      bind_ok (put_u8 x >> m) (patch (length w)) (placed.fits w r h)
      ∙ bind_ok (set_byte (length w) v) (λ _. bytes_written)
          (set_byte-middle w bs (drop (length (x ∷ bs)) r) x v)

  patched_full :
      (w r : List ℕ)
      → length r < length (v ∷ bs)
      → (c : WriteCursor) × (whole (at w r) ≡ (err not_enough_capacity, c))
        × (length c.buffer ≡ length (w ++ r))
  patched_full w r h =
      let (c, k, n) = placed.full w r h in (c, bind_err (put_u8 x >> m) (patch (length w)) k, n)

  -- The byte that is left for it takes the value that `m` returns.
  pub EmitsTo-patched : EmitsTo whole (v ∷ bs) (length {A = ℕ})
  EmitsTo-patched = record { fits = patched_fits; full = patched_full }
