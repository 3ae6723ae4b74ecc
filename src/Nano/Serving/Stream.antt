-- ===== src/Nano/Serving/Stream.antt =====
-- examples/basic.rs, `run_client`: what the loop reports and sends, in terms of the bytes that the
-- platform received.
use umqtt.Base.{
  ℕ, zero, suc, ◌≤◌, ◌≡◌, ◌≢◌, ◌⊎◌, inl, inr, refl, sym, ap, ◌∙◌, arith, List, [], ◌∷◌, ◌++◌,
  length, drop, append-nil, append_assoc,
}
use umqtt.Base.Outcome.{Outcome, ok, err, panic}
use umqtt.Base.Meets.{Ends}
use mathlib.Core.Path.{subst}
use umqtt.Transport.{connected}
use umqtt.Nano.Buffer.Queue.{IsValid, contents}
use umqtt.Nano.Platform.{Platform, ReadFits}
use umqtt.Nano.Client.{Client, Error, ClientNotification, taken}
use umqtt.Nano.Serving.{Served, on_completed, on_notified, run_client}
use umqtt.Nano.Serving.Recorded.{Recorded, recorded}
use umqtt.Nano.Serving.Reading.{Fed}
use umqtt.Nano.Serving.Reporting.{Told, Notified, next_notification-Notified}
use umqtt.Nano.Serving.Answering.{answer, complete_notification-Sends}
use umqtt.Nano.Serving.Sending.{Gone, Sends, start_of}
use umqtt.Nano.Serving.Decoding.{Decodes, stop, messages, answers, Decodes-notified}

module _ {P E : Type 0} (plat : Platform P E) (fits : ReadFits plat) where
  -- The loop from `c` that ended so.
  record Follows (c : Client (Recorded P)) (s : Served (recorded plat)) : Type 0 where
    fresh : List ℕ
    logged : s.2.platform.received ≡ c.platform.received ++ fresh
    decoded :
        Decodes c.transport.max_packet_size
          (contents c.rx_buffer ++ fresh)
          (messages s.0)
          (contents s.2.rx_buffer)
    answered : List ClientNotification
    unanswered : List ClientNotification
    split : s.0 ≡ answered ++ unanswered
    sent : s.2.platform.sent ≡ c.platform.sent ++ answers answered
    one : length unanswered ≤ 1
    over : (unanswered ≡ []) ⊎ (s.1 ≢ ok tt)
    limit : s.2.transport.max_packet_size ≡ c.transport.max_packet_size

  joined :
      (c d e : Client (Recorded P)) (n : ClientNotification) (ns : List ClientNotification)
      (sent more left : List ℕ) (f : Fed (start_of c) d)
      → Told c.transport.max_packet_size (contents d.rx_buffer) n
      → Gone (start_of d) (taken n) sent e
      → Decodes e.transport.max_packet_size (contents e.rx_buffer ++ more) (messages ns) left
      → Decodes c.transport.max_packet_size
          (contents c.rx_buffer ++ (f.fresh ++ more))
          (messages (n ∷ ns))
          left
  joined c d e n ns sent more left f told g rest =
      let max = c.transport.max_packet_size in
      let stream : contents d.rx_buffer ++ more ≡ contents c.rx_buffer ++ (f.fresh ++ more) =
        ap (λ l. l ++ more) f.held ∙ append_assoc (contents c.rx_buffer) f.fresh more in
      let rest_here : Decodes max (drop (taken n) (contents d.rx_buffer) ++ more) (messages ns)
          left =
        subst (λ l. Decodes max (l ++ more) (messages ns) left) g.left
          (subst (λ m. Decodes m (contents e.rx_buffer ++ more) (messages ns) left)
            (g.limit ∙ f.limit) rest) in
      subst (λ l. Decodes max l (messages (n ∷ ns)) left) stream
        (Decodes-notified max n ns (contents d.rx_buffer) more left told rest_here)

  stopped :
      (c d : Client (Recorded P)) (r : Outcome (Error E) (Unit {0}))
      → Fed (start_of c) d
      → Follows c ([], r, d)
  stopped c d r f = record {
    fresh = f.fresh;
    logged = f.logged;
    decoded = stop f.held;
    answered = [];
    unanswered = [];
    split = refl;
    sent = f.unsent ∙ sym (append-nil _);
    one = omega arith;
    over = inl refl;
    limit = f.limit;
  }

  -- A notification whose answer could not be sent.
  failed :
      (c d e : Client (Recorded P)) (n : ClientNotification) (r : Outcome (Error E) (Unit {0}))
      → r ≢ ok tt
      → Fed (start_of c) d
      → Told c.transport.max_packet_size (contents d.rx_buffer) n
      → Gone (start_of d) (taken n) [] e
      → Follows c (n ∷ [], r, e)
  failed c d e n r ne f told g = record {
    fresh = f.fresh ++ [];
    logged = g.received ∙ f.logged ∙ ap (λ l. c.platform.received ++ l) (sym (append-nil f.fresh));
    decoded = joined c d e n [] [] [] _ f told g (stop (sym (append-nil _)));
    answered = [];
    unanswered = n ∷ [];
    split = refl;
    sent = g.sent ∙ ap (λ l. l ++ []) f.unsent;
    one = omega arith;
    over = inr ne;
    limit = g.limit ∙ f.limit;
  }

  -- A notification that was answered, and the rounds after it.
  continued :
      (c d e : Client (Recorded P)) (n : ClientNotification) (s : Served (recorded plat))
      → Fed (start_of c) d
      → Told c.transport.max_packet_size (contents d.rx_buffer) n
      → Gone (start_of d) (taken n) (answer n) e
      → Follows e s
      → Follows c (n ∷ s.0, s.1, s.2)
  continued c d e n s f told g h = record {
    fresh = f.fresh ++ h.fresh;
    logged =
        h.logged
        ∙ ap (λ l. l ++ h.fresh) (g.received ∙ f.logged)
        ∙ append_assoc c.platform.received f.fresh h.fresh;
    decoded = joined c d e n s.0 (answer n) h.fresh _ f told g h.decoded;
    answered = n ∷ h.answered;
    unanswered = h.unanswered;
    split = ap (λ l. n ∷ l) h.split;
    sent =
        h.sent
        ∙ ap (λ l. l ++ answers h.answered) (g.sent ∙ ap (λ l. l ++ answer n) f.unsent)
        ∙ append_assoc c.platform.sent (answer n) (answers h.answered);
    one = h.one;
    over = h.over;
    limit = h.limit ∙ g.limit ∙ f.limit;
  }

  module _ (again : Client (Recorded P) → Served (recorded plat))
      (ih : (e : Client (Recorded P))
        → IsValid e.rx_buffer
        → e.transport.state ≡ connected
        → Follows e (again e)) where
    completed :
        (c d : Client (Recorded P)) (n : ClientNotification)
        (q : Outcome (Error E) (Unit {0}) × Client (Recorded P))
        → Fed (start_of c) d
        → Told c.transport.max_packet_size (contents d.rx_buffer) n
        → Sends (start_of d) (taken n) (answer n) q
        → Follows c (let (ns, r, e) = on_completed (recorded plat) again q in (n ∷ ns, r, e))
    unfolding on_completed
    completed c d n (ok tt, e) f told (g, online) =
        continued c d e n (again e) f told g (ih e g.valid online)
    completed c d n (err x, e) f told g = failed c d e n (err x) (λ z. cc) f told g
    completed c d n (panic, e) f told g = failed c d e n panic (λ z. cc) f told g

    notified :
        (c : Client (Recorded P)) (q : Outcome (Error E) ClientNotification × Client (Recorded P))
        → Ends (Notified plat fits (start_of c)) (Fed (start_of c)) q
        → Follows c (on_notified (recorded plat) again q)
    unfolding on_notified
    notified c (ok n, d) ((f, online), told) =
        completed c d n _ f told (complete_notification-Sends plat n d f.valid online)
    notified c (err x, d) f = stopped c d (err x) f
    notified c (panic, d) f = stopped c d panic f

  here : (c : Client (Recorded P)) → IsValid c.rx_buffer → Fed (start_of c) c
  here c v = record {
    fresh = [];
    logged = sym (append-nil _);
    held = sym (append-nil _);
    valid = v;
    unsent = refl;
    limit = refl;
  }

  run_client-Follows :
      (rounds : ℕ) (c : Client (Recorded P))
      → IsValid c.rx_buffer
      → c.transport.state ≡ connected
      → Follows c (run_client (recorded plat) rounds c)
  unfolding run_client
  run_client-Follows zero c v online = stopped c c (ok tt) (here c v)
  run_client-Follows (suc rounds) c v online =
      notified (run_client (recorded plat) rounds) (run_client-Follows rounds) c _
        (next_notification-Notified plat fits (start_of c) c (here c v, online))

  pub run_client-limit :
      (rounds : ℕ) (c : Client (Recorded P))
      → IsValid c.rx_buffer
      → c.transport.state ≡ connected
      → (run_client (recorded plat) rounds c).2.transport.max_packet_size
        ≡ c.transport.max_packet_size
  run_client-limit rounds c v online = (run_client-Follows rounds c v online).limit

  -- The client serves the byte stream in order: for every number of rounds, every connected client
  -- with a valid receive buffer and every platform whose reads fit the buffer that they are given,
  -- the notifications about packets that the loop reports are, one for one and in this order, the
  -- packets that follow one another in the data of the receive buffer and the bytes that were
  -- received since then, and the data in the receive buffer at the end is exactly what follows the
  -- last of them. This holds however the bytes were cut into reads, and also where the loop has
  -- ended.
  pub run_client-Decodes :
      (rounds : ℕ) (c : Client (Recorded P))
      → IsValid c.rx_buffer
      → c.transport.state ≡ connected
      → (fresh : List ℕ) × ((run_client (recorded plat) rounds c).2.platform.received
          ≡ c.platform.received ++ fresh)
        × Decodes c.transport.max_packet_size
            (contents c.rx_buffer ++ fresh)
            (messages (run_client (recorded plat) rounds c).0)
            (contents (run_client (recorded plat) rounds c).2.rx_buffer)
  run_client-Decodes rounds c v online =
      let f = run_client-Follows rounds c v online in (f.fresh, f.logged, f.decoded)

  -- The client answers in order: for every number of rounds, every connected client with a valid
  -- receive buffer and every platform whose reads fit the buffer that they are given, what the loop
  -- sends is exactly the bytes of the default answers to the reported notifications, in their order:
  -- a PUBACK with the packet identifier of a publish with QoS 1, a PUBREC with that of one with QoS
  -- 2, a PUBCOMP with that of a PUBREL, a PINGREQ where the time to ping has come, and nothing for
  -- the others, a PUBREC among them, which the MQTT standard answers with a PUBREL. The answer of
  -- the last notification alone may be missing, and only where the loop has ended.
  pub run_client-answers :
      (rounds : ℕ) (c : Client (Recorded P))
      → IsValid c.rx_buffer
      → c.transport.state ≡ connected
      → (answered unanswered : List ClientNotification) × ((run_client (recorded plat) rounds c).0
          ≡ answered ++ unanswered)
        × ((run_client (recorded plat) rounds c).2.platform.sent
            ≡ c.platform.sent ++ answers answered)
        × (length unanswered ≤ 1)
        × ((unanswered ≡ []) ⊎ ((run_client (recorded plat) rounds c).1 ≢ ok tt))
  run_client-answers rounds c v online =
      let f = run_client-Follows rounds c v online in
      (f.answered, f.unanswered, f.split, f.sent, f.one, f.over)
