-- ===== src/PacketView/Header/Bounds.antt =====
-- packetview/mod.rs: the range of what `check` and `length` answer on any data.
use umqtt.Base.{
  ℕ, ◌+◌, ◌-◌, ◌*◌, ◌^◌, ◌≤◌, ◌<◌, ◌≡◌, ◌≢◌, arith, List, [], ◌∷◌, length, All, bit_and,
}
use umqtt.Base.Bits.{low_seven}
use umqtt.Base.Outcome.{ok, panic}
use umqtt.PacketView.{FixedHeader, frame_length}
use umqtt.PacketView.Header.{
  length_loop, remaining_length, header_from, parse_fixed_header, check, check_header,
  max_remaining_len,
}

abbrev pub IsByte : ℕ → Type 0
IsByte b = b < 256

length_loop_no_panic : (stream : List ℕ) (len n shift : ℕ) → length_loop stream len n shift ≢ panic
unfolding length_loop
length_loop_no_panic [] len n shift e = cc
length_loop_no_panic (b ∷ bs) len n shift e =
    ground (arith, length_loop_no_panic bs (len + bit_and b 0x7f * 2 ^ shift) (n + 1) (shift + 7))

-- `check` does not panic.
pub check-ne-panic : (stream : List ℕ) (max : ℕ) → check stream max ≢ panic
unfolding check check_header parse_fixed_header header_from remaining_length
check-ne-panic [] max e = cc
check-ne-panic (b ∷ bs) max e = ground (arith, length_loop_no_panic bs 0 0 0)

-- The sums of `length`, from the fourth length byte back to the first.
module _ (c l : ℕ) where
  fourth :
      (s : List ℕ) (len : ℕ)
      → All IsByte s
      → len < 2097152
      → length_loop s len 3 21 ≡ ok (c, l)
      → (c ≡ 4) × (l ≤ max_remaining_len)
  unfolding length_loop
  fourth [] len hs h e = cc
  fourth (b ∷ s) len hs h e = ground (arith, low_seven b hs.0)

  third :
      (s : List ℕ) (len : ℕ)
      → All IsByte s
      → len < 16384
      → length_loop s len 2 14 ≡ ok (c, l)
      → (3 ≤ c) × (c ≤ 4) × (l ≤ max_remaining_len)
  unfolding length_loop
  third [] len hs h e = cc
  third (b ∷ s) len hs h e =
      ground (arith, low_seven b hs.0, fourth s (len + bit_and b 0x7f * 2 ^ 14) hs.1)

  second :
      (s : List ℕ) (len : ℕ)
      → All IsByte s
      → len < 128
      → length_loop s len 1 7 ≡ ok (c, l)
      → (2 ≤ c) × (c ≤ 4) × (l ≤ max_remaining_len)
  unfolding length_loop
  second [] len hs h e = cc
  second (b ∷ s) len hs h e =
      ground (arith, low_seven b hs.0, third s (len + bit_and b 0x7f * 2 ^ 7) hs.1)

  pub remaining_length_bounds :
      (s : List ℕ)
      → All IsByte s
      → remaining_length s ≡ ok (c, l)
      → (1 ≤ c) × (c ≤ 4) × (l ≤ max_remaining_len)
  unfolding remaining_length length_loop
  remaining_length_bounds [] hs e = cc
  remaining_length_bounds (b ∷ s) hs e =
      ground (arith, low_seven b hs.0, second s (0 + bit_and b 0x7f * 2 ^ 0) hs.1)

-- A packet that is framed lies within the data and within the limit.
pub check_within :
    (stream : List ℕ) (max : ℕ) (h : FixedHeader)
    → check stream max ≡ ok h
    → (frame_length h ≤ length stream) × (h.remaining_len ≤ max)
unfolding check check_header
check_within stream max h e = ground arith

-- When `check` accepts a stream of bytes, the fixed header takes two to five of them, the remaining
-- length is at most 268435455 and at most the size limit, and the whole packet is in the stream.
pub check_bounds :
    (stream : List ℕ) (max : ℕ) (h : FixedHeader)
    → All IsByte stream
    → check stream max ≡ ok h
    → (2 ≤ h.fixed_header_len)
      × (h.fixed_header_len ≤ 5)
      × (h.remaining_len ≤ max_remaining_len)
      × (h.remaining_len ≤ max)
      × (frame_length h ≤ length stream)
unfolding check check_header parse_fixed_header header_from
check_bounds [] max h hs e = cc
check_bounds (b ∷ s) max h hs e =
    ground (arith, remaining_length_bounds (h.fixed_header_len - 1) h.remaining_len s hs.1)
