-- ===== src/PacketView/Packet/Stream.antt =====
-- Reading the first packet of a stream that goes on.
use umqtt.Base.{
  zero, ℕ, suc, ◌≤◌, ◌≡◌, refl, ap, arith, List, [], ◌∷◌, ◌++◌, length, take, length-append,
  length-take,
}
use umqtt.Base.Outcome.{Outcome, ok, err, panic, and_then}
use umqtt.Base.Slice.{slice_to}
use umqtt.PacketView.{Error, FixedHeader, frame_length, need_more_data}
use umqtt.PacketView.Header.{check, max_remaining_len}
use umqtt.PacketView.Header.RoundTrip.{frame}
use umqtt.PacketView.Header.Bounds.{check_within}
use umqtt.PacketView.Header.Prefix.{check-append, check-prefix}
use umqtt.PacketView.Packet.{Packet, read_exact, read}

take-append_le : (n : ℕ) (xs ys : List ℕ) → n ≤ length xs → take n (xs ++ ys) ≡ take n xs
take-append_le zero xs ys h = refl
take-append_le (suc n) [] ys h = absurd (omega arith)
take-append_le (suc n) (x ∷ xs) ys h =
    ap (λ (l : List ℕ). x ∷ l) (take-append_le n xs ys (omega arith))

-- What `read` does with a framed packet.
abbrev parse : List ℕ → FixedHeader → Outcome Error (Packet × ℕ)
parse stream h =
    and_then (slice_to (frame_length h) stream)
      λ packet. and_then (read_exact h packet) λ parsed. ok (parsed, length packet)

-- A packet that was read is read in the same way with any data behind it, and the number of bytes
-- taken is within the data that was there.
pub read-append :
    (s more : List ℕ) (max : ℕ) (p : Packet) (n : ℕ)
    → read s max ≡ ok (p, n)
    → (read (s ++ more) max ≡ ok (p, n)) × (n ≤ length s)
unfolding read
read-append s more max p n e = by_header (check s max) refl e
  where
    by_header :
        (r : Outcome Error FixedHeader)
        → check s max ≡ r
        → and_then r (parse s) ≡ ok (p, n)
        → (read (s ++ more) max ≡ ok (p, n)) × (n ≤ length s)
    by_header (ok h) c e =
        let fits = (check_within s max h c).0 in
        ground (
          arith,
          fits,
          check-append s more max h c,
          length-append s more,
          take-append_le (frame_length h) s more fits,
          length-take (frame_length h) s fits,
        )
    by_header (err x) c e = cc
    by_header panic c e = cc

-- Every proper prefix of a packet within the size limit and the largest remaining length, whatever
-- its first byte and its body are, makes `Packet::read` ask for more data: for one byte at least,
-- and for no more than are missing.
pub read-prefix :
    (byte1 : ℕ) (body front : List ℕ) (x : ℕ) (back : List ℕ) (max : ℕ)
    → length body ≤ max_remaining_len
    → length body ≤ max
    → frame byte1 body ≡ front ++ (x ∷ back)
    → (k : ℕ) × (read front max ≡ err (need_more_data k)) × (1 ≤ k) × (k ≤ length (x ∷ back))
unfolding read
read-prefix byte1 body front x back max h hm e =
    let (k, c, lo, hi) = check-prefix byte1 body front x back max h hm e in (k, rw c, lo, hi)
