-- ===== src/Nano/Serving/Decoding.antt =====
-- examples/basic.rs, `run_client`: the notifications of the loop as the packets of a byte stream.
use umqtt.Base.{ℕ, zero, suc, ◌≤◌, ◌≡◌, refl, sym, arith, List, [], ◌∷◌, ◌++◌, length, drop}
use mathlib.Core.Path.{subst}
use umqtt.PacketView.Packet.Stream.{read-append}
use umqtt.Transport.{Notification}
use umqtt.Transport.Messages.{IsFirst}
use umqtt.Nano.Client.{ClientNotification, transport_notification, send_ping, taken}
use umqtt.Nano.Serving.Reporting.{Told}
use umqtt.Nano.Serving.Answering.{answer}

-- The packets that `bytes` begins with are those of the notifications, in this order and with nothing
-- between them, and `left` is what follows them.
pub data Decodes (max : ℕ) : List ℕ → List Notification → List ℕ → Type 0 where
  stop : {bytes left : List ℕ} → left ≡ bytes → Decodes max bytes [] left
  first :
      {bytes left : List ℕ} {ns : List Notification} (n : Notification) (size : ℕ)
      → IsFirst max bytes n size
      → Decodes max (drop size bytes) ns left
      → Decodes max bytes (n ∷ ns) left

-- The notifications about packets.
abbrev pub messages : List ClientNotification → List Notification
messages [] = []
messages (send_ping ∷ ns) = messages ns
messages (transport_notification n size ∷ ns) = n ∷ messages ns

-- What is to be sent for the notifications, in their order.
abbrev pub answers : List ClientNotification → List ℕ
answers [] = []
answers (n ∷ ns) = answer n ++ answers ns

pub drop-append_le : (n : ℕ) (xs ys : List ℕ) → n ≤ length xs → drop n (xs ++ ys) ≡ drop n xs ++ ys
drop-append_le zero xs ys h = refl
drop-append_le (suc n) [] ys h = absurd (omega arith)
drop-append_le (suc n) (x ∷ xs) ys h = drop-append_le n xs ys (omega arith)

-- A notification and those that follow it, with more data behind.
pub Decodes-notified :
    (max : ℕ) (n : ClientNotification) (ns : List ClientNotification) (bytes more left : List ℕ)
    → Told max bytes n
    → Decodes max (drop (taken n) bytes ++ more) (messages ns) left
    → Decodes max (bytes ++ more) (messages (n ∷ ns)) left
Decodes-notified max send_ping ns bytes more left told d = d
Decodes-notified max (transport_notification n size) ns bytes more left (p, e, m) d =
    let (same, within) = read-append bytes more max p size e in
    first n size (p, same, m)
      (subst (λ l. Decodes max l (messages ns) left) (sym (drop-append_le size bytes more within))
        d)
