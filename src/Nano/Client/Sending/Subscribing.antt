-- ===== src/Nano/Client/Sending/Subscribing.antt =====
-- nano_client.rs: what `write_subscribe` writes to the transport.
use umqtt.Base.{
  ℕ, suc, ◌+◌, ◌≤◌, ◌≡◌, refl, ap, ◌∙◌, arith, List, [], ◌∷◌, ◌++◌, length, take, drop, false, inr,
  ltb, Bool-cases, inl, tests, append_assoc, take-append,
}
use umqtt.Base.Outcome.{NoPanic, ok, and_then, bind_ok}
use umqtt.Base.Slice.{set_index, slice_to, slice_to-append}
use umqtt.Time.{Instant}
use umqtt.PacketView.{WriteError}
use umqtt.PacketView.WriteCursor
use umqtt.PacketView.WriteCursor.Emits.{Wrote-fits}
use umqtt.PacketView.BorrowedBuf.{Fill}
use umqtt.PacketView.BorrowedBuf.Adds.{Adds}
use umqtt.PacketView.Header.{max_remaining_len}
use umqtt.PacketView.Header.Encoding.{
  length_bytes, length-length_bytes, Emits-write_remaining_length, write_remaining_length-too_long,
}
use umqtt.PacketView.Header.RoundTrip.{frame}
use umqtt.PacketView.Subscribe
use umqtt.PacketView.Subscribe.{Subscribe, SubscribeFilter, slice, iter}
use umqtt.PacketView.Subscribe.RoundTrip.{
  IsWritable, filters_bytes, body, length-body, Subscribe_written,
}
use umqtt.Transport.{TransportClient, is_disconnected, on_packet_sent}
use umqtt.Nano.Platform.{Platform}
use umqtt.Nano.Client.{Client, write_buffer}
use umqtt.Nano.Client.Sending.{subscribe_header, write_filters, send_subscribe, write_subscribe}
use umqtt.Nano.Client.Sending.Publishing.{sent_from, write_buffer-online}

abbrev zeros : List ℕ
zeros = 0 ∷ 0 ∷ 0 ∷ 0 ∷ 0 ∷ 0 ∷ []

-- The packet identifier behind the remaining length.
with_pkid :
    (rl : List ℕ)
    → 1 ≤ length rl
    → length rl ≤ 4
    → and_then {E = WriteError}
        (set_index (length rl + 1) 0 (0x82 ∷ (rl ++ drop (length rl) zeros)))
        (λ h. and_then (set_index (length rl + 2) 1 h) (slice_to (length rl + 3)))
      ≡ ok (0x82 ∷ (rl ++ (0 ∷ 1 ∷ [])))
with_pkid (x ∷ []) lo hi = refl
with_pkid (x ∷ y ∷ []) lo hi = refl
with_pkid (x ∷ y ∷ z ∷ []) lo hi = refl
with_pkid (x ∷ y ∷ z ∷ u ∷ []) lo hi = refl
with_pkid rl lo hi = absurd (omega arith)

abbrev header_bytes : ℕ → List ℕ
header_bytes len = 0x82 ∷ (length_bytes (len + 2) ++ (0 ∷ 1 ∷ []))

pub subscribe_header-eq :
    (len : ℕ) → len + 2 ≤ max_remaining_len → subscribe_header len ≡ ok (header_bytes len)
unfolding subscribe_header
subscribe_header-eq len h =
    let size = length-length_bytes (len + 2) in
    let written = (Emits-write_remaining_length (len + 2) h).fits [] zeros (omega (arith, size)) in
    rw written (with_pkid (length_bytes (len + 2)) size.0 size.1)

pub subscribe_header-NoPanic : (len : ℕ) → NoPanic (subscribe_header len)
subscribe_header-NoPanic len = elim (Bool-cases (ltb max_remaining_len (len + 2))) [
  | inl long ↦
      unfold subscribe_header in
      rw (write_remaining_length-too_long (len + 2) (WriteCursor.new zeros) (omega tests)) tt
  | inr short ↦ rw (subscribe_header-eq len (omega tests)) tt
]

on_packet_sent-is_disconnected :
    (t : Instant) (c : TransportClient) → is_disconnected (on_packet_sent t c) ≡ is_disconnected c
unfolding on_packet_sent
on_packet_sent-is_disconnected t c = elim (Bool-cases (ltb 0 c.keep_alive)) [
  | inl e ↦ rw e refl
  | inr e ↦ rw e refl
]

-- The subscribe that `write_subscribe` stands for.
abbrev pub subscription : List SubscribeFilter → Subscribe
subscription fs = record { pkid = 1; filters = slice fs }

abbrev pub header_of : List SubscribeFilter → List ℕ
header_of fs = header_bytes (length (filters_bytes fs))

module _ (fs : List SubscribeFilter) (w : IsWritable (subscription fs)) where
  pub small : length (filters_bytes fs) + 2 ≤ max_remaining_len
  unfolding iter
  small = omega (arith, length-body (subscription fs), w.len_fits)

  pub pieces : header_of fs ++ filters_bytes fs ≡ frame 0x82 (body (subscription fs))
  unfolding iter
  pieces =
      let n : length (filters_bytes fs) + 2 ≡ suc (suc (length (filters_bytes fs))) = omega arith in
      rw n (
        ap (λ (l : List ℕ). 0x82 ∷ l)
          (append_assoc (length_bytes (suc (suc (length (filters_bytes fs))))) (0 ∷ 1 ∷ [])
            (filters_bytes fs)))

  module _ {P E : Type 0} (plat : Platform P E) (subscriptions : Fill (Unit {0}))
      (adds : Adds subscriptions (filters_bytes fs)) where
    send_subscribe-filters :
        (c : Client P) (rest : List ℕ) (p1 p2 p3 p4 : P) (t1 t2 : Instant)
        → c.tx_buffer ≡ filters_bytes fs ++ rest
        → is_disconnected c.transport ≡ false
        → plat.write_all (header_of fs) c.platform ≡ (inr tt, p1)
        → plat.now p1 ≡ (t1, p2)
        → plat.write_all (filters_bytes fs) p2 ≡ (inr tt, p3)
        → plat.now p3 ≡ (t2, p4)
        → send_subscribe plat (length (filters_bytes fs)) c
          ≡ (ok tt, sent_from plat c.tx_buffer t2 p4 (sent_from plat c.tx_buffer t1 p2 c))
    unfolding send_subscribe
    send_subscribe-filters c rest p1 p2 p3 p4 t1 t2 e online h1 n1 h2 n2 =
        let c1 = sent_from plat c.tx_buffer t1 p2 c in
        let len = length (filters_bytes fs) in
        rw (subscribe_header-eq len small) (
          bind_ok (write_buffer plat (header_of fs)) _
            (write_buffer-online plat (header_of fs) c p1 p2 t1 online h1 n1)
          ∙ bind_ok (λ d. (slice_to len d.tx_buffer, d)) (write_buffer plat) {s = c1} {t = c1}
              {a = filters_bytes fs}
              (ap (λ r. (r, c1))
                (ap (slice_to len) e ∙ slice_to-append (filters_bytes fs) rest len refl))
          ∙ write_buffer-online plat (filters_bytes fs) c1 p3 p4 t2
              (on_packet_sent-is_disconnected t1 c.transport ∙ online) h2 n2)

    -- `write_subscribe` writes a subscribe with the packet identifier 1 to the transport in two
    -- pieces, first its header and then its filters, and restarts the keep-alive after each; but
    -- for that, the transmit buffer has the filters at its front and nothing else changes. The two
    -- pieces, one behind the other, are what `Subscribe::write` stores of that subscribe in any
    -- buffer that has room for it. The subscribe can be written, the function writes its filters,
    -- they fit the transmit buffer, the client is not disconnected and the platform writes both
    -- pieces.
    pub write_subscribe-pieces :
        (c : Client P) (buffer : List ℕ) (p1 p2 p3 p4 : P) (t1 t2 : Instant)
        → length (filters_bytes fs) ≤ length c.tx_buffer
        → length (header_of fs ++ filters_bytes fs) ≤ length buffer
        → is_disconnected c.transport ≡ false
        → plat.write_all (header_of fs) c.platform ≡ (inr tt, p1)
        → plat.now p1 ≡ (t1, p2)
        → plat.write_all (filters_bytes fs) p2 ≡ (inr tt, p3)
        → plat.now p3 ≡ (t2, p4)
        → (write_subscribe plat subscriptions c ≡ (
          ok tt,
          record c {
            transport = on_packet_sent t2 (on_packet_sent t1 c.transport);
            tx_buffer = filters_bytes fs ++ drop (length (filters_bytes fs)) c.tx_buffer;
            platform = p4;
          },
        ))
          × ((n : ℕ) × ((Subscribe.write (subscription fs) buffer).0 ≡ ok n)
              × (header_of fs ++ filters_bytes fs
                  ≡ take n (Subscribe.write (subscription fs) buffer).1))
    unfolding write_subscribe write_filters
    write_subscribe-pieces c buffer p1 p2 p3 p4 t1 t2 room fits online h1 n1 h2 n2 =
        let rest = drop (length (filters_bytes fs)) c.tx_buffer in
        let c0 = record c { tx_buffer = filters_bytes fs ++ rest } in
        let packet = frame 0x82 (body (subscription fs)) in
        let stored =
          Wrote-fits packet buffer _ (Subscribe_written (subscription fs) buffer w)
            (omega (arith, fits, ap length pieces)) in
        (
          bind_ok (write_filters plat subscriptions) (send_subscribe plat) {t = c0}
                {a = length (filters_bytes fs)} (rw (adds [] c.tx_buffer room) refl)
              ∙ send_subscribe-filters c0 rest p1 p2 p3 p4 t1 t2 refl online h1 n1 h2 n2,
          (
            length packet,
            rw stored refl,
            rw (stored, take-append packet (drop (length packet) buffer)) pieces,
          ),
        )
