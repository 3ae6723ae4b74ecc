-- ===== src/PacketView/Header/Prefix.antt =====
-- packetview/mod.rs: `check` on a stream that arrives in pieces.
use umqtt.Base.{
  drop, ℕ, ◌+◌, ◌*◌, ◌^◌, ◌≤◌, ◌≡◌, ◌⊎◌, inl, inr, refl, sym, ◌∙◌, ap, arith, List, [], ◌∷◌, ◌++◌,
  length, bit_and, length-append,
}
use umqtt.Base.Outcome.{ok, err}
use umqtt.PacketView.{FixedHeader, need_more_data}
use umqtt.PacketView.Header.{
  length_loop, remaining_length, header_from, parse_fixed_header, check, check_header,
  max_remaining_len,
}
use umqtt.PacketView.Header.Encoding.{length_bytes, length-length_bytes}
use umqtt.PacketView.Header.RoundTrip.{frame, remaining_length-length_bytes}

-- More data changes the answer only where more was asked for.
length_loop_stable :
    (s more : List ℕ) (len n shift : ℕ)
    → (length_loop s len n shift ≡ err (need_more_data 1))
      ⊎ (length_loop (s ++ more) len n shift ≡ length_loop s len n shift)
unfolding length_loop
length_loop_stable [] more len n shift = inl refl
length_loop_stable (b ∷ s) more len n shift =
    ground (arith, length_loop_stable s more (len + bit_and b 0x7f * 2 ^ shift) (n + 1) (shift + 7))

remaining_length_stable :
    (s more : List ℕ)
    → (remaining_length s ≡ err (need_more_data 1))
      ⊎ (remaining_length (s ++ more) ≡ remaining_length s)
unfolding remaining_length
remaining_length_stable s more = length_loop_stable s more 0 0 0

-- A framed packet is framed in the same way with more data behind it.
pub check-append :
    (s more : List ℕ) (max : ℕ) (h : FixedHeader)
    → check s max ≡ ok h
    → check (s ++ more) max ≡ ok h
unfolding check check_header parse_fixed_header header_from
check-append [] more max h e = cc
check-append (b ∷ s) more max h e =
    ground (arith, remaining_length_stable s more, length-append s more)

-- What is cut off a packet behind its second byte.
cut_tail :
    (byte1 : ℕ) (body front : List ℕ) (b x : ℕ) (back : List ℕ)
    → frame byte1 body ≡ (b ∷ front) ++ (x ∷ back)
    → length_bytes (length body) ++ body ≡ front ++ (x ∷ back)
cut_tail byte1 body front b x back e = ap (drop 1) e

-- Every proper prefix of a packet that is within the limit asks for more data: for one byte at
-- least, and for no more than are missing.
pub check-prefix :
    (byte1 : ℕ) (body front : List ℕ) (x : ℕ) (back : List ℕ) (max : ℕ)
    → length body ≤ max_remaining_len
    → length body ≤ max
    → frame byte1 body ≡ front ++ (x ∷ back)
    → (k : ℕ) × (check front max ≡ err (need_more_data k)) × (1 ≤ k) × (k ≤ length (x ∷ back))
unfolding check check_header parse_fixed_header header_from
check-prefix byte1 body [] x back max h hm e =
    let missing : length (frame byte1 body) ≡ length (x ∷ back) = ap length e in
    (
      2,
      refl,
      omega arith,
      omega (
        arith,
        missing,
        length-append (length_bytes (length body)) body,
        length-length_bytes (length body),
      ),
    )
check-prefix byte1 body (b ∷ []) x back max h hm e = (1, refl, omega arith, omega arith)
check-prefix byte1 body (b ∷ c ∷ s) x back max h hm e =
    let tail = cut_tail byte1 body (c ∷ s) b x back e in
    let known = rw tail at (remaining_length-length_bytes (length body) body h) in
    elim (remaining_length_stable (c ∷ s) (x ∷ back)) [
      | inl short ↦ (1, ground (arith, short), omega arith, omega arith)
      | inr same ↦ (
        length (x ∷ back),
        ground (
          arith,
          sym same ∙ known,
          ap length tail,
          length-append (length_bytes (length body)) body,
          length-append s (x ∷ back),
        ),
        omega arith,
        omega arith,
      )
    ]
