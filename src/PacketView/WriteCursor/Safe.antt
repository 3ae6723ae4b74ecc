-- ===== src/PacketView/WriteCursor/Safe.antt =====
-- packetview/cursor.rs: writing without a panic, into any buffer.
use umqtt.Base.{
  ℕ, ◌+◌, ◌≤◌, ◌≡◌, refl, arith, Bool, true, false, List, ◌++◌, length, take, drop, set, ltb, ◌==◌,
  Bool-cases, inl, inr, if◌then◌else◌, length-append, length-take, length-drop, length-set, le→leb,
}
use umqtt.Base.Outcome.{Outcome, ok, err, panic, pure, fail, resume, ◌>>=◌, ◌>>◌}
use umqtt.PacketView.{WriteError, not_enough_capacity}
use umqtt.PacketView.WriteCursor.{
  WriteCursor, Write, capacity, put_u8, put_u16, put_slice, set_byte, bytes_written,
  remaining_capacity, be_bytes, write_into, new,
}

-- The end of what was written only moves on, within the same buffer.
abbrev pub Grown : WriteCursor → WriteCursor → Type 0
Grown c d =
    (c.next_write_index ≤ d.next_write_index)
    × (d.next_write_index ≤ capacity d)
    × (capacity d ≡ capacity c)

-- A call that returns or fails, and what it returns is `P` of the cursor then.
abbrev pub Ensures :
    {A : Type 0} → (A → WriteCursor → Type 0) → Outcome WriteError A × WriteCursor → Type 0
Ensures P (ok a, d) = P a d
Ensures P (err e, d) = Unit {0}
Ensures P (panic, d) = ⊥

-- What holds of `m` on a cursor that has written `k` bytes at least.
abbrev pub TameTo : {A : Type 0} → ℕ → Write A → (A → WriteCursor → Type 0) → Type 0
TameTo k m P =
    (c : WriteCursor)
    → k ≤ c.next_write_index
    → c.next_write_index ≤ capacity c
    → Grown c (m c).1 × Ensures P (m c)

abbrev pub Tame : {A : Type 0} → ℕ → Write A → Type 0
Tame k m = TameTo k m (λ a d. Unit {0})

module _ {A B : Type 0} (k : ℕ) (P : B → WriteCursor → Type 0) where
  resume_tame :
      (c : WriteCursor) (q : Outcome WriteError A × WriteCursor) (f : A → Write B)
      → k ≤ c.next_write_index
      → Grown c q.1
      → Ensures (λ a d. Unit {0}) q
      → ((a : A) → TameTo k (f a) P)
      → Grown c (resume q.0 f q.1).1 × Ensures P (resume q.0 f q.1)
  resume_tame c (ok a, d) f low g e h =
      let (g2, e2) = h a d (omega (arith, low, g.0)) g.1 in
      ((omega (arith, g, g2), omega (arith, g2), omega (arith, g, g2)), e2)
  resume_tame c (err x, d) f low g e h = (g, tt)
  resume_tame c (panic, d) f low g e h = absurd e

  pub TameTo-bind :
      (m : Write A) (f : A → Write B)
      → Tame k m
      → ((a : A) → TameTo k (f a) P)
      → TameTo k (m >>= f) P
  TameTo-bind m f hm hf c low v = let (g, e) = hm c low v in resume_tame c (m c) f low g e hf

pub Tame-pure : {A : Type 0} (k : ℕ) (a : A) → Tame k (pure a)
Tame-pure k a c low v = ((omega arith, v, refl), tt)

pub Tame-fail : (A : Type 0) (k : ℕ) (e : WriteError) → Tame {A = A} k (fail e)
Tame-fail A k e c low v = ((omega arith, v, refl), tt)

pub Tame-if :
    {A : Type 0} (k : ℕ) (b : Bool) (m n : Write A)
    → Tame k m
    → Tame k n
    → Tame k (if b then m else n)
Tame-if k true m n hm hn = hm
Tame-if k false m n hm hn = hn

pub Tame-put_u8 : (k byte : ℕ) → Tame k (put_u8 byte)
unfolding put_u8
Tame-put_u8 k byte c low v = ground (arith, low, v, length-set c.buffer c.next_write_index byte)

pub Tame-put_slice : (k : ℕ) (s : List ℕ) → Tame k (put_slice s)
unfolding put_slice remaining_capacity
Tame-put_slice k s c low v = ground (
  arith,
  low,
  v,
  length-append (take c.next_write_index c.buffer)
      (s ++ drop (c.next_write_index + length s) c.buffer),
  length-append s (drop (c.next_write_index + length s) c.buffer),
  length-take c.next_write_index c.buffer,
  length-drop (c.next_write_index + length s) c.buffer,
)

pub Tame-set_byte : (i byte : ℕ) → Tame (i + 1) (set_byte i byte)
unfolding set_byte
Tame-set_byte i byte c low v = ground (arith, low, v, length-set c.buffer i byte)

pub Tame-put_u16 : (k value : ℕ) → Tame k (put_u16 value)
unfolding put_u16 remaining_capacity
Tame-put_u16 k value =
    TameTo-bind k _ remaining_capacity _
      (λ c low v. rw (le→leb c.next_write_index (capacity c) v) ((omega arith, v, refl), tt))
      λ remaining.
        Tame-if k (ltb remaining 2) _ _ (Tame-fail (Unit {0}) k not_enough_capacity)
          (Tame-put_slice k (be_bytes value))

-- The number of the bytes written, which the buffer has.
abbrev pub Inside : ℕ → WriteCursor → Type 0
Inside n d = n ≤ capacity d

pub TameTo-bytes_written : (k : ℕ) → TameTo k bytes_written Inside
TameTo-bytes_written k c low v = ((omega arith, v, refl), v)

-- A byte is written, and what follows knows that it is there.
pub TameTo-index :
    {A : Type 0} (k byte : ℕ) (P : A → WriteCursor → Type 0) (f : ℕ → Write A)
    → ((index : ℕ) → TameTo (index + 1) (f index) P)
    → TameTo k (bytes_written >>= λ index. put_u8 byte >> f index) P
unfolding put_u8
TameTo-index k byte P f h c low v = elim (Bool-cases (c.next_write_index == capacity c)) [
  | inl full ↦ rw full ((omega arith, v, refl), tt)
  | inr room ↦
      let below : c.next_write_index + 1 ≤ capacity c = ground (arith, v, room) in
      let d : WriteCursor = record {
        buffer = set c.buffer c.next_write_index byte;
        next_write_index = c.next_write_index + 1;
      } in
      let same = length-set c.buffer c.next_write_index byte in
      let (g, e) = h c.next_write_index d (omega arith) (omega (arith, below, same)) in
      rw (room, le→leb (c.next_write_index + 1) (capacity c) below)
        ((omega (arith, g), omega (arith, g), omega (arith, g, same)), e)
]

-- What a packet's `write` into a buffer comes to: a number of bytes that the buffer has, or an error.
abbrev pub Within : ℕ → Outcome WriteError ℕ → Type 0
Within size (ok n) = n ≤ size
Within size (err e) = Unit {0}
Within size panic = ⊥

abbrev pub SafeWrite : List ℕ → Outcome WriteError ℕ × List ℕ → Type 0
SafeWrite buffer r = Within (length buffer) r.0 × (length r.1 ≡ length buffer)

ensured :
    (buffer : List ℕ) (q : Outcome WriteError ℕ × WriteCursor)
    → capacity q.1 ≡ length buffer
    → Ensures Inside q
    → Within (length buffer) q.0
ensured buffer (ok n, d) same e = omega (arith, same, e)
ensured buffer (err x, d) same e = tt
ensured buffer (panic, d) same e = e

pub TameTo-SafeWrite :
    (m : Write ℕ) (buffer : List ℕ) → TameTo 0 m Inside → SafeWrite buffer (write_into m buffer)
TameTo-SafeWrite m buffer h =
    let (g, e) = h (new buffer) (omega arith) (omega arith) in
    (ensured buffer (m (new buffer)) g.2 e, g.2)
