-- ===== src/PacketView/Header/RoundTrip.antt =====
-- packetview/mod.rs: reading back the remaining length and the fixed header.
use umqtt.Base.{
  ℕ, zero, suc, ◌+◌, ◌*◌, ◌/◌, ◌%◌, ◌^◌, ◌≤◌, ◌<◌, ◌≡◌, ◌∙◌, arith, refl, drop, List, [], ◌∷◌, ◌++◌,
  length, ltb, tests, Bool-cases, inl, inr, length-append, append_assoc,
}
use umqtt.Base.Bits.{low_seven, top_bit}
use umqtt.Base.Outcome.{Outcome, ok}
use umqtt.PacketView.{Error, FixedHeader, new_header, frame_length}
use umqtt.PacketView.Header.{
  length_loop, remaining_length, header_from, parse_fixed_header, check, check_header,
  max_remaining_len, write_remaining_length,
}
use umqtt.PacketView.Header.Encoding.{
  inner, length_bytes, length-length_bytes, Emits-write_remaining_length,
}
use umqtt.PacketView.WriteCursor

last_byte :
    (b len n shift : ℕ) (rest : List ℕ)
    → b < 128
    → length_loop (b ∷ rest) len n shift ≡ ok (n + 1, len + b * 2 ^ shift)
unfolding length_loop
last_byte b len n shift rest h = ground (arith, low_seven b, top_bit b)

inner_byte :
    (g len n shift : ℕ) (rest : List ℕ)
    → shift ≤ 14
    → length_loop (inner g ∷ rest) len n shift
      ≡ length_loop rest (len + g % 128 * 2 ^ shift) (n + 1) (shift + 7)
unfolding length_loop
inner_byte g len n shift rest h = ground (arith, low_seven (inner g), top_bit (inner g))

-- A length that is a sum of its groups is read as that number.
read_sum : {r : Outcome Error (ℕ × ℕ)} (c k n : ℕ) → r ≡ ok (c, k) → k ≡ n → r ≡ ok (c, n)
read_sum c k n e h = rw h at e

module _ (n : ℕ) (rest : List ℕ) where
  -- The sum after so many bytes.
  abbrev acc : ℕ → ℕ
  acc zero = 0
  acc (suc zero) = 0 + n % 128 * 2 ^ 0
  acc (suc (suc zero)) = 0 + n % 128 * 2 ^ 0 + n / 128 % 128 * 2 ^ 7
  acc (suc (suc (suc k))) = 0 + n % 128 * 2 ^ 0 + n / 128 % 128 * 2 ^ 7 + n / 16384 % 128 * 2 ^ 14

  pub remaining_length-length_bytes :
      n ≤ max_remaining_len
      → remaining_length (length_bytes n ++ rest) ≡ ok (length (length_bytes n), n)
  unfolding remaining_length length_bytes
  remaining_length-length_bytes h = elim (Bool-cases (ltb n 128)) [
    | inl one ↦
        rw one (read_sum 1 (0 + n * 2 ^ 0) n (last_byte n 0 0 0 rest (omega tests)) (omega arith))
    | inr more ↦ elim (Bool-cases (ltb n 16384)) [
      | inl two ↦
          rw (more, two)
            (read_sum 2 (acc 1 + n / 128 * 2 ^ 7) n
              (inner_byte n 0 0 0 (n / 128 ∷ rest) (omega arith)
                ∙ last_byte (n / 128) (acc 1) 1 7 rest (omega tests))
              (omega arith))
      | inr more' ↦ elim (Bool-cases (ltb n 2097152)) [
        | inl three ↦
            rw (more, more', three)
              (read_sum 3 (acc 2 + n / 16384 * 2 ^ 14) n
                (inner_byte n 0 0 0 (inner (n / 128) ∷ n / 16384 ∷ rest) (omega arith)
                  ∙ inner_byte (n / 128) (acc 1) 1 7 (n / 16384 ∷ rest) (omega arith)
                  ∙ last_byte (n / 16384) (acc 2) 2 14 rest (omega tests))
                (omega arith))
        | inr four ↦
            rw (more, more', four)
              (read_sum 4 (acc 3 + n / 2097152 * 2 ^ 21) n
                (inner_byte n 0 0 0 (inner (n / 128) ∷ inner (n / 16384) ∷ n / 2097152 ∷ rest)
                    (omega arith)
                  ∙ inner_byte (n / 128) (acc 1) 1 7 (inner (n / 16384) ∷ n / 2097152 ∷ rest)
                      (omega arith)
                  ∙ inner_byte (n / 16384) (acc 2) 2 14 (n / 2097152 ∷ rest) (omega arith)
                  ∙ last_byte (n / 2097152) (acc 3) 3 21 rest (omega tests))
                (omega arith))
      ]
    ]
  ]

-- A length of at most 268435455, written by `write_remaining_length` into a buffer of at least four
-- bytes, is read back by `remaining_length` as the same number from as many bytes as were
-- written, which the method answers.
pub remaining_length_round_trip :
    (n : ℕ) (buffer : List ℕ)
    → n ≤ max_remaining_len
    → 4 ≤ length buffer
    → (count : ℕ) × ((write_remaining_length n (WriteCursor.new buffer)).0 ≡ ok count)
      × (remaining_length (write_remaining_length n (WriteCursor.new buffer)).1.buffer
          ≡ ok (count, n))
remaining_length_round_trip n buffer h room =
    let bounds = length-length_bytes n in
    let written = (Emits-write_remaining_length n h).fits [] buffer (omega (arith, bounds.1)) in
    (
      length (length_bytes n),
      rw written refl,
      rw written (remaining_length-length_bytes n (drop (length (length_bytes n)) buffer) h),
    )

-- A whole packet: the first byte, the remaining length and the rest.
abbrev pub frame : ℕ → List ℕ → List ℕ
frame byte1 body = byte1 ∷ (length_bytes (length body) ++ body)

-- The header that `frame` has.
abbrev pub header_of : ℕ → List ℕ → FixedHeader
header_of byte1 body = new_header byte1 (length (length_bytes (length body))) (length body)

pub parse_fixed_header-frame :
    (byte1 : ℕ) (body rest : List ℕ)
    → length body ≤ max_remaining_len
    → parse_fixed_header (byte1 ∷ (length_bytes (length body) ++ rest)) ≡ ok (header_of byte1 body)
unfolding parse_fixed_header header_from
parse_fixed_header-frame byte1 body rest h = ground (
  arith,
  length-append (length_bytes (length body)) rest,
  (length-length_bytes (length body)).0,
  remaining_length-length_bytes (length body) rest h,
)

pub frame_length-header_of :
    (byte1 : ℕ) (body : List ℕ) → frame_length (header_of byte1 body) ≡ length (frame byte1 body)
frame_length-header_of byte1 body = omega (arith, length-append (length_bytes (length body)) body)

-- The first packet of a stream is framed exactly, whatever follows it.
pub check-frame :
    (byte1 : ℕ) (body rest : List ℕ) (max : ℕ)
    → length body ≤ max_remaining_len
    → length body ≤ max
    → check (frame byte1 body ++ rest) max ≡ ok (header_of byte1 body)
unfolding check check_header
check-frame byte1 body rest max h hm = ground (
  arith,
  append_assoc (length_bytes (length body)) body rest,
  parse_fixed_header-frame byte1 body (body ++ rest) h,
  frame_length-header_of byte1 body,
  length-append (frame byte1 body) rest,
)
