-- ===== src/Nano/Serving/Publishes.antt =====
-- examples/basic.rs, `run_client`: publishes that a broker sends one after the other.
use umqtt.Base.{
  ℕ, ◌≤◌, ◌≡◌, refl, sym, ap, ◌∙◌, arith, List, [], ◌∷◌, ◌++◌, length, drop, map, drop-append,
}
use mathlib.Core.Path.{subst}
use umqtt.PacketView.Publish
use umqtt.PacketView.Publish.{Publish}
use umqtt.PacketView.Publish.RoundTrip.{IsWritable, encoding}
use umqtt.PacketView.Packet
use umqtt.PacketView.Packet.{read}
use umqtt.PacketView.Packet.RoundTrip.{read-encoding_append}
use umqtt.PacketView.Packet.Stream.{read-append, read-prefix}
use umqtt.PacketView.Header.Encoding.{length_bytes}
use umqtt.Transport.{Notification, connected}
use umqtt.Transport.Messages.{IsFirst, message}
use umqtt.Nano.Buffer.Queue.{IsValid, contents}
use umqtt.Nano.Platform.{Platform, ReadFits}
use umqtt.Nano.Client.{Client}
use umqtt.Nano.Serving.{run_client}
use umqtt.Nano.Serving.Recorded.{Recorded, recorded}
use umqtt.Nano.Serving.Decoding.{drop-append_le, Decodes, stop, first, messages}
use umqtt.Nano.Serving.Stream.{run_client-Decodes}

-- What a broker sends for the publishes.
abbrev pub encodings : List Publish → List ℕ
encodings [] = []
encodings (m ∷ ms) = encoding m ++ encodings ms

-- Each of them can be written, and is within the size limit.
abbrev pub AllWithin : ℕ → List Publish → Type 0
AllWithin max [] = Unit
AllWithin max (m ∷ ms) = IsWritable m × (Publish.len m ≤ max) × AllWithin max ms

first_publish :
    (max : ℕ) (m : Publish) (rest : List ℕ) (n : Notification) (size : ℕ)
    → IsWritable m
    → Publish.len m ≤ max
    → IsFirst max (encoding m ++ rest) n size
    → (n ≡ Notification.publish m) × (size ≡ length (encoding m))
unfolding message
first_publish max m rest n size w fits (p, e, told) =
    let known = read-encoding_append m rest max w fits in
    let same = sym known ∙ e in
    let packet : p ≡ Packet.publish m = cc same in (ground (arith, told, packet), cc same)

nothing-IsFirst : (max : ℕ) (n : Notification) (size : ℕ) → ¬ IsFirst max [] n size
nothing-IsFirst max n size (p, e, told) =
    let (k, short, _, _) =
      read-prefix 0 [] [] 0 (length_bytes 0 ++ []) max (omega arith) (omega arith) refl in
    cc (short, e)

-- The bytes are the beginning of what the broker sends, and `future` is the end of it.
Decodes-encodings :
    (max : ℕ) (ms : List Publish) (bytes future left : List ℕ) (ns : List Notification)
    → AllWithin max ms
    → bytes ++ future ≡ encodings ms
    → Decodes max bytes ns left
    → (pending : List Publish) × (map Notification.publish ms
        ≡ ns ++ map Notification.publish pending)
      × (left ++ future ≡ encodings pending)
Decodes-encodings max ms bytes future left [] w e (stop s) = (ms, refl, ap (λ l. l ++ future) s ∙ e)
Decodes-encodings max [] bytes future left (_ ∷ ns) w e (first n size (p, f, told) d) =
    let (longer, _) = read-append bytes future max p size f in
    absurd (nothing-IsFirst max n size (subst (λ l. IsFirst max l n size) e (p, longer, told)))
Decodes-encodings max (m ∷ ms) bytes future left (_ ∷ ns) (w, fits, ws) e
      (first n size (p, f, told) d) =
    let (longer, within) = read-append bytes future max p size f in
    let (same, taken) =
      first_publish max m (encodings ms) n size w fits
        (subst (λ l. IsFirst max l n size) e (p, longer, told)) in
    let rest : drop size bytes ++ future ≡ encodings ms =
      sym (drop-append_le size bytes future within)
      ∙ ap (drop size) e
      ∙ ap (λ k. drop k (encoding m ++ encodings ms)) taken
      ∙ drop-append (encoding m) (encodings ms) in
    let (pending, reported, kept) = Decodes-encodings max ms _ future left ns ws rest d in
    (
      pending,
      ap (λ l. Notification.publish m ∷ l) reported
          ∙ ap (λ k. k ∷ (ns ++ map Notification.publish pending)) (sym same),
      kept,
    )

module _ {P E : Type 0} (plat : Platform P E) (fits : ReadFits plat) where
  -- No publish is reported out of order, twice, or after one that was left out, however far the loop
  -- gets, which may be nowhere: where a broker sends the encodings of publishes, of which a beginning is the data in the receive buffer of a connected client and the
  -- bytes that are received from then on, and the end is still to come, the notifications that the
  -- loop reports about packets are the first of these publishes, and the data in the receive buffer
  -- at the end with what is to come is the encodings of the others. Each publish can be written and
  -- is within the client's limit, the receive buffer is valid, nothing is on record yet, and the
  -- reads of the platform fit the buffer that they are given; how the bytes are cut into reads and
  -- how many rounds there are is arbitrary.
  pub run_client-encodings :
      (rounds : ℕ) (c : Client (Recorded P)) (ms : List Publish) (future : List ℕ)
      → IsValid c.rx_buffer
      → c.transport.state ≡ connected
      → AllWithin c.transport.max_packet_size ms
      → c.platform.received ≡ []
      → (contents c.rx_buffer ++ (run_client (recorded plat) rounds c).2.platform.received)
          ++ future
        ≡ encodings ms
      → (pending : List Publish) × (map Notification.publish ms
          ≡ messages (run_client (recorded plat) rounds c).0 ++ map Notification.publish pending)
        × (contents (run_client (recorded plat) rounds c).2.rx_buffer ++ future ≡ encodings pending)
  run_client-encodings rounds c ms future v online w none_yet e =
      let (fresh, logged, decoded) = run_client-Decodes plat fits rounds c v online in
      let all_fresh = logged ∙ ap (λ l. l ++ fresh) none_yet in
      Decodes-encodings c.transport.max_packet_size ms _ future _ _ w
        (ap (λ l. (contents c.rx_buffer ++ l) ++ future) (sym all_fresh) ∙ e) decoded
