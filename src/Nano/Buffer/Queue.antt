-- ===== src/Nano/Buffer/Queue.antt =====
-- The receive buffer as a queue of bytes: the data that it holds, and what the operations do to it.
use umqtt.Base.{
  ℕ, ◌+◌, ◌-◌, ◌≤◌, ◌<◌, ◌≡◌, refl, sym, ◌∙◌, ap, arith, leb, List, ◌++◌, length, take, drop,
  le→leb, length-append, length-take, length-drop, take-append_eq, append_assoc, Bool-cases, inl,
  inr, tests, drop-all,
}
use umqtt.Base.Outcome.{ok}
use umqtt.Nano.Buffer.{Buffer, advance, fill, remove_prefix, capacity, used_slice}

abbrev pub IsValid : Buffer → Type 0
IsValid b = b.used ≤ length b.buffer

-- The data in the buffer.
abbrev pub contents : Buffer → List ℕ
contents b = take b.used b.buffer

pub used_slice_lem : {E : Type 0} (b : Buffer) → IsValid b → used_slice {E = E} b ≡ ok (contents b)
used_slice_lem b v = rw (le→leb b.used (length b.buffer) v)

module _ (b : Buffer) (bytes : List ℕ) (v : IsValid b)
    (h : b.used + length bytes ≤ capacity b) where
  capacity-fill : length (fill bytes b).buffer ≡ length b.buffer
  unfolding fill
  capacity-fill = omega (
    arith,
    length-append (contents b) (bytes ++ drop (length bytes) (drop b.used b.buffer)),
    length-append bytes (drop (length bytes) (drop b.used b.buffer)),
    length-take b.used b.buffer v,
    length-drop (length bytes) (drop b.used b.buffer),
    length-drop b.used b.buffer,
  )

  contents-fill : contents (advance (length bytes) (fill bytes b)) ≡ contents b ++ bytes
  unfolding fill
  contents-fill =
      ap (take (b.used + length bytes)) (sym (append_assoc (contents b) bytes _))
      ∙ take-append_eq (contents b ++ bytes) _ _
          (omega (arith, length-append (contents b) bytes, length-take b.used b.buffer v))

  -- Bytes that fit into the unused part of a valid buffer, stored there and counted by `advance`,
  -- are appended to its data; the buffer stays valid and as large as it was.
  pub advance-fill :
      (contents (advance (length bytes) (fill bytes b)) ≡ contents b ++ bytes)
      × IsValid (advance (length bytes) (fill bytes b))
      × (capacity (advance (length bytes) (fill bytes b)) ≡ capacity b)
  unfolding fill
  advance-fill = (contents-fill, omega (arith, h, capacity-fill), capacity-fill)

capacity-moved :
    (b : Buffer) (n : ℕ)
    → IsValid b
    → n < b.used
    → length (drop n (contents b) ++ drop (b.used - n) b.buffer) ≡ length b.buffer
capacity-moved b n v h = omega (
  arith,
  length-append (drop n (contents b)) (drop (b.used - n) b.buffer),
  length-drop n (contents b),
  length-take b.used b.buffer v,
  length-drop (b.used - n) b.buffer,
)

-- `remove_prefix` of a valid buffer drops so many bytes from the front of its data, all of it if
-- there are no more; the buffer stays valid and as large as it was.
pub remove_prefix_lem :
    (b : Buffer) (n : ℕ)
    → IsValid b
    → (contents (remove_prefix n b) ≡ drop n (contents b))
      × IsValid (remove_prefix n b)
      × (capacity (remove_prefix n b) ≡ capacity b)
unfolding remove_prefix
remove_prefix_lem b n v = elim (Bool-cases (leb b.used n)) [
  | inl all ↦ rw all (
    sym (drop-all (contents b) n (omega (tests, length-take b.used b.buffer v))),
    omega arith,
    refl,
  )
  | inr some_left ↦
      let size = capacity-moved b n v (omega tests) in
      rw some_left (
        take-append_eq (drop n (contents b)) _ _
            (omega (tests, length-drop n (contents b), length-take b.used b.buffer v)),
        omega (tests, size),
        size,
      )
]
