-- ===== src/PacketView/Header/Encoding.antt =====
-- packetview/mod.rs: the bytes of a remaining length, as table 2.4 of the MQTT standard has them, and
-- `write_remaining_length`.
use umqtt.Base.{
  ℕ, suc, ◌+◌, ◌/◌, ◌%◌, ◌≤◌, ◌<◌, ◌≡◌, arith, List, [], ◌∷◌, length, ltb, if◌then◌else◌, tests,
  Bool-cases, inl, inr, le→ltb, lt→ltb, ne→==,
}
use umqtt.Base.Bits.{set_top_bit}
use umqtt.Base.Outcome.{err}
use umqtt.PacketView.{payload_too_long}
use umqtt.PacketView.WriteCursor.{WriteCursor}
use umqtt.PacketView.WriteCursor.Emits.{Emits, Emits-pure, Emits-then, Emits-put_u8}
use umqtt.PacketView.Header.{write_length_loop, write_remaining_length, max_remaining_len}

-- A byte with the continuation bit.
abbrev pub inner : ℕ → ℕ
inner g = g % 128 + 128

unfoldable pub length_bytes : ℕ → List ℕ
length_bytes n =
    if ltb n 128
    then n ∷ []
    else if ltb n 16384
    then inner n ∷ n / 128 ∷ []
    else if ltb n 2097152
    then inner n ∷ inner (n / 128) ∷ n / 16384 ∷ []
    else inner n ∷ inner (n / 128) ∷ inner (n / 16384) ∷ n / 2097152 ∷ []

loop_last :
    (f x count : ℕ) → x < 128 → Emits (write_length_loop (suc f) x count) (x ∷ []) (count + 1)
unfolding write_length_loop
loop_last f x count h =
    let small : x / 128 ≡ 0 = omega arith in
    let same : x % 128 ≡ x = omega arith in
    rw (small, same) (Emits-then (Emits-put_u8 x) (Emits-pure (count + 1)))

loop_inner :
    (f x count c : ℕ) (bs : List ℕ)
    → 128 ≤ x
    → Emits (write_length_loop f (x / 128) (count + 1)) bs c
    → Emits (write_length_loop (suc f) x count) (inner x ∷ bs) c
unfolding write_length_loop
loop_inner f x count c bs h e =
    rw
      (
        lt→ltb 0 (x / 128) (omega arith),
        ne→== (x / 128) 0 (λ z. omega arith),
        set_top_bit (x % 128) (omega arith),
      )
      (Emits-then (Emits-put_u8 (inner x)) e)

-- What the whole loop writes, by the number of rounds that it takes.
module _ (n : ℕ) where
  loop_two : 128 ≤ n → n < 16384 → Emits (write_length_loop 4 n 0) (inner n ∷ n / 128 ∷ []) 2
  loop_two lo hi = loop_inner 3 n 0 2 _ lo (loop_last 2 (n / 128) 1 (omega arith))

  loop_three :
      16384 ≤ n
      → n < 2097152
      → Emits (write_length_loop 4 n 0) (inner n ∷ inner (n / 128) ∷ n / 16384 ∷ []) 3
  loop_three lo hi =
      let cut : n / 16384 ≡ n / 128 / 128 = omega arith in
      rw cut (
        loop_inner 3 n 0 3 _ (omega arith) (
          loop_inner 2 (n / 128) 1 3 _ (omega arith) (loop_last 1 (n / 128 / 128) 2 (omega arith))))

  loop_four :
      2097152 ≤ n
      → n ≤ max_remaining_len
      → Emits
          (write_length_loop 4 n 0)
          (inner n ∷ inner (n / 128) ∷ inner (n / 16384) ∷ n / 2097152 ∷ [])
          4
  loop_four lo hi =
      let cut : n / 16384 ≡ n / 128 / 128 = omega arith in
      let cut' : n / 2097152 ≡ n / 128 / 128 / 128 = omega arith in
      rw (cut, cut')
        (loop_inner 3 n 0 4 _ (omega arith) (
          loop_inner 2 (n / 128) 1 4 _ (omega arith) (
            loop_inner 1 (n / 128 / 128) 2 4 _ (omega arith)
              (loop_last 0 (n / 128 / 128 / 128) 3 (omega arith)))))

  loop-Emits :
      n ≤ max_remaining_len
      → Emits (write_length_loop 4 n 0) (length_bytes n) (length (length_bytes n))
  unfolding length_bytes
  loop-Emits h = elim (Bool-cases (ltb n 128)) [
    | inl one ↦ rw one (loop_last 3 n 0 (omega tests))
    | inr more ↦ elim (Bool-cases (ltb n 16384)) [
      | inl two ↦ rw (more, two) (loop_two (omega tests) (omega tests))
      | inr more' ↦ elim (Bool-cases (ltb n 2097152)) [
        | inl three ↦ rw (more, more', three) (loop_three (omega tests) (omega tests))
        | inr four ↦ rw (more, more', four) (loop_four (omega tests) h)
      ]
    ]
  ]

pub Emits-write_remaining_length :
    (len : ℕ)
    → len ≤ max_remaining_len
    → Emits (write_remaining_length len) (length_bytes len) (length (length_bytes len))
unfolding write_remaining_length
Emits-write_remaining_length len h = rw (le→ltb max_remaining_len len h) (loop-Emits len h)

pub write_remaining_length-too_long :
    (len : ℕ) (c : WriteCursor)
    → max_remaining_len < len
    → write_remaining_length len c ≡ (err payload_too_long, c)
unfolding write_remaining_length
write_remaining_length-too_long len c h = rw (lt→ltb max_remaining_len len h)

pub length-length_bytes : (n : ℕ) → (1 ≤ length (length_bytes n)) × (length (length_bytes n) ≤ 4)
unfolding length_bytes
length-length_bytes n = ground arith
