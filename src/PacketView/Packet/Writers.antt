-- ===== src/PacketView/Packet/Writers.antt =====
-- packetview/: the `write` of every packet, for any values and into any buffer.
use umqtt.Base.{
  ℕ, ◌+◌, arith, List, [], ◌∷◌, Option, none, some, ◌==◌, if◌then◌else◌, is_nil, take, drop,
  length-append, length-take, length-drop, bit_or,
}
use umqtt.Base.Outcome.{pure, ◌>>◌}
use umqtt.PacketView.{qos_byte, has_pkid, WriteError}
use umqtt.PacketView.WriteCursor.{
  Write, remaining_capacity, put_u8, put_u16, put_slice, bytes_written,
}
use umqtt.PacketView.WriteCursor.Safe.{
  Tame, TameTo, TameTo-bind, Tame-pure, Tame-fail, Tame-if, Tame-put_u8, Tame-put_u16,
  Tame-put_slice, Tame-set_byte, Inside, TameTo-bytes_written, TameTo-index, SafeWrite,
  TameTo-SafeWrite,
}
use umqtt.PacketView.Header.{write_remaining_length}
use umqtt.PacketView.Field.Tame.{
  Tame-then, Tame-write_remaining_length, Tame-write_mqtt_bytes, Tame-write_mqtt_string,
}
use umqtt.PacketView.Publish
use umqtt.PacketView.Publish.{Publish}
use umqtt.PacketView.Subscribe
use umqtt.PacketView.Subscribe.{Subscribe, SubscribeFilter}
use umqtt.PacketView.Unsubscribe
use umqtt.PacketView.Unsubscribe.{Unsubscribe}
use umqtt.PacketView.SubAck
use umqtt.PacketView.SubAck.{SubAck, SubscribeReasonCode}
use umqtt.PacketView.ConnAck
use umqtt.PacketView.ConnAck.{ConnAck}
use umqtt.PacketView.PubAck
use umqtt.PacketView.PubAck.{PubAck}
use umqtt.PacketView.PubRec
use umqtt.PacketView.PubRec.{PubRec}
use umqtt.PacketView.PubRel
use umqtt.PacketView.PubRel.{PubRel}
use umqtt.PacketView.PubComp
use umqtt.PacketView.PubComp.{PubComp}
use umqtt.PacketView.UnsubAck
use umqtt.PacketView.UnsubAck.{UnsubAck}
use umqtt.PacketView.Connect
use umqtt.PacketView.Connect.{
  Connect, Login, LastWill, write_will, write_login, write_opt_will, write_opt_login, will_flags,
}
use umqtt.PacketView.Connect.Flags.{login_flags}
use umqtt.PacketView.Ping.{write_ping_req, write_ping_resp, write_disconnect}

Tame-field :
    (k : ℕ) (field : List ℕ) (m : Write (Unit {0}))
    → Tame k m
    → Tame k (if is_nil field then pure tt else m)
Tame-field k field m h = Tame-if k (is_nil field) (pure tt) m (Tame-pure k tt) h

Tame-write_opt_will : (k : ℕ) (will : Option LastWill) (f : ℕ) → Tame k (write_opt_will will f)
unfolding write_opt_will write_will
Tame-write_opt_will k none f = Tame-pure k f
Tame-write_opt_will k (some w) f =
    TameTo-bind k _ _ (λ g. pure (bit_or f g))
      (Tame-then k _ _ _ (Tame-write_mqtt_string k w.topic)
        (Tame-then k _ _ _ (Tame-write_mqtt_bytes k w.message) (Tame-pure k (will_flags w))))
      (λ g. Tame-pure k (bit_or f g))

Tame-write_opt_login : (k : ℕ) (login : Option Login) (f : ℕ) → Tame k (write_opt_login login f)
unfolding write_opt_login write_login
Tame-write_opt_login k none f = Tame-pure k f
Tame-write_opt_login k (some l) f =
    TameTo-bind k _ _ (λ g. pure (bit_or f g))
      (Tame-then k _ _ _ (Tame-field k l.username _ (Tame-write_mqtt_string k l.username)) (
        Tame-then k _ _ _ (Tame-field k l.password _ (Tame-write_mqtt_bytes k l.password))
          (Tame-pure k (login_flags l))))
      (λ g. Tame-pure k (bit_or f g))

connect_safe : (p : Connect) → TameTo 0 (Connect.writer p) Inside
unfolding Connect.writer
connect_safe p = Tame-then 0 Inside _ _ (Tame-put_u8 0 0x10) (
    Tame-then 0 Inside _ _ (Tame-write_remaining_length 0 _) (
      Tame-then 0 Inside _ _ (Tame-write_mqtt_string 0 _) (
        Tame-then 0 Inside _ _ (Tame-put_u8 0 _) (
          TameTo-index 0 _ Inside _ λ index.
            let k = index + 1 in
            Tame-then k Inside _ _ (Tame-put_u16 k p.keep_alive) (
              Tame-then k Inside _ _ (Tame-write_mqtt_string k p.client_id) (
                TameTo-bind k Inside _ _ (Tame-write_opt_will k p.last_will _) λ f.
                  TameTo-bind k Inside _ _ (Tame-write_opt_login k p.login f) λ g.
                    Tame-then k Inside _ _ (Tame-set_byte index g) (TameTo-bytes_written k)))))))

-- A packet identifier alone, or behind a list.
pkid_safe :
    (byte1 remaining pkid : ℕ)
    → TameTo 0
        (put_u8 byte1 >> (write_remaining_length remaining >> (put_u16 pkid >> bytes_written)))
        Inside
pkid_safe byte1 remaining pkid = Tame-then 0 Inside _ _ (Tame-put_u8 0 byte1) (
    Tame-then 0 Inside _ _ (Tame-write_remaining_length 0 remaining)
      (Tame-then 0 Inside _ _ (Tame-put_u16 0 pkid) (TameTo-bytes_written 0)))

listed_safe :
    (byte1 remaining pkid : ℕ) (m : Write (Unit {0}))
    → Tame 0 m
    → TameTo 0
        (put_u8 byte1
          >> (write_remaining_length remaining >> (put_u16 pkid >> (m >> bytes_written))))
        Inside
listed_safe byte1 remaining pkid m h = Tame-then 0 Inside _ _ (Tame-put_u8 0 byte1) (
    Tame-then 0 Inside _ _ (Tame-write_remaining_length 0 remaining) (
      Tame-then 0 Inside _ _ (Tame-put_u16 0 pkid)
        (Tame-then 0 Inside _ _ h (TameTo-bytes_written 0))))

Tame-write_filters : (k : ℕ) (fs : List SubscribeFilter) → Tame k (Subscribe.write_filters fs)
unfolding Subscribe.write_filters Subscribe.write_filter
Tame-write_filters k [] = Tame-pure k tt
Tame-write_filters k (f ∷ fs) =
    Tame-then k _ _ _
      (Tame-then k _ _ _ (Tame-write_mqtt_string k f.path) (Tame-put_u8 k (qos_byte f.quality)))
      (Tame-write_filters k fs)

Tame-write_topics : (k : ℕ) (ts : List (List ℕ)) → Tame k (Unsubscribe.write_topics ts)
unfolding Unsubscribe.write_topics
Tame-write_topics k [] = Tame-pure k tt
Tame-write_topics k (t ∷ ts) =
    Tame-then k _ _ _ (Tame-write_mqtt_string k t) (Tame-write_topics k ts)

Tame-write_codes : (k : ℕ) (cs : List SubscribeReasonCode) → Tame k (SubAck.write_codes cs)
unfolding SubAck.write_codes
Tame-write_codes k [] = Tame-pure k tt
Tame-write_codes k (c ∷ cs) = Tame-then k _ _ _ (Tame-put_u8 k _) (Tame-write_codes k cs)

publish_safe : (p : Publish) → TameTo 0 (Publish.writer p) Inside
unfolding Publish.writer Publish.write_pkid
publish_safe p = Tame-then 0 Inside _ _ (Tame-put_u8 0 _) (
    Tame-then 0 Inside _ _ (Tame-write_remaining_length 0 _) (
      Tame-then 0 Inside _ _ (Tame-write_mqtt_string 0 p.topic) (
        Tame-then 0 Inside _ _
          (Tame-if 0 (has_pkid p.quality) _ _
            (Tame-if 0 (p.pkid == 0) _ _ (Tame-fail (Unit {0}) 0 WriteError.malformed_packet)
              (Tame-put_u16 0 p.pkid))
            (Tame-pure 0 tt))
          (Tame-then 0 Inside _ _ (Tame-put_slice 0 p.payload) (TameTo-bytes_written 0)))))

conn_ack_safe : (p : ConnAck) (buffer : List ℕ) → SafeWrite buffer (ConnAck.write p buffer)
unfolding ConnAck.write
conn_ack_safe p buffer = TameTo-SafeWrite _ buffer (
    Tame-then 0 Inside _ _ (Tame-put_u8 0 0x20) (
      Tame-then 0 Inside _ _ (Tame-write_remaining_length 0 _) (
        Tame-then 0 Inside _ _ (Tame-put_u8 0 _)
          (Tame-then 0 Inside _ _ (Tame-put_u8 0 _) (TameTo-bytes_written 0)))))

-- A packet that is a fixed header alone.
header_safe : (a b : ℕ) → TameTo 0 (put_slice (a ∷ b ∷ []) >> pure 2) Inside
unfolding put_slice remaining_capacity
header_safe a b c low v = ground (
  arith,
  v,
  length-append (take c.next_write_index c.buffer) (a ∷ b ∷ drop (c.next_write_index + 2) c.buffer),
  length-take c.next_write_index c.buffer,
  length-drop (c.next_write_index + 2) c.buffer,
)

pub connect-SafeWrite : (p : Connect) (buffer : List ℕ) → SafeWrite buffer (Connect.write p buffer)
unfolding Connect.write
connect-SafeWrite p buffer = TameTo-SafeWrite (Connect.writer p) buffer (connect_safe p)

pub pub_ack-SafeWrite : (p : PubAck) (buffer : List ℕ) → SafeWrite buffer (PubAck.write p buffer)
unfolding PubAck.write
pub_ack-SafeWrite p buffer = TameTo-SafeWrite _ buffer (pkid_safe 0x40 2 p.pkid)

pub pub_rec-SafeWrite : (p : PubRec) (buffer : List ℕ) → SafeWrite buffer (PubRec.write p buffer)
unfolding PubRec.write
pub_rec-SafeWrite p buffer = TameTo-SafeWrite _ buffer (pkid_safe 0x50 _ p.pkid)

pub pub_comp-SafeWrite : (p : PubComp) (buffer : List ℕ) → SafeWrite buffer (PubComp.write p buffer)
unfolding PubComp.write
pub_comp-SafeWrite p buffer = TameTo-SafeWrite _ buffer (pkid_safe 0x70 _ p.pkid)

pub ping_req-SafeWrite : (buffer : List ℕ) → SafeWrite buffer (write_ping_req buffer)
unfolding write_ping_req
ping_req-SafeWrite buffer = TameTo-SafeWrite _ buffer (header_safe 0xc0 0)

-- Writing a packet never panics, and does not change the size of the buffer: the `write` of each of
-- the packets, whatever the values in it and however small the buffer is, returns an error or a
-- number of bytes that the buffer has.
pub writers_safe :
    (buffer : List ℕ) (connect : Connect) (conn_ack : ConnAck) (publish : Publish)
    (pub_ack : PubAck) (pub_rec : PubRec) (pub_rel : PubRel) (pub_comp : PubComp)
    (subscribe : Subscribe) (sub_ack : SubAck) (unsubscribe : Unsubscribe) (unsub_ack : UnsubAck)
    → SafeWrite buffer (Connect.write connect buffer)
      × SafeWrite buffer (ConnAck.write conn_ack buffer)
      × SafeWrite buffer (Publish.write publish buffer)
      × SafeWrite buffer (PubAck.write pub_ack buffer)
      × SafeWrite buffer (PubRec.write pub_rec buffer)
      × SafeWrite buffer (PubRel.write pub_rel buffer)
      × SafeWrite buffer (PubComp.write pub_comp buffer)
      × SafeWrite buffer (Subscribe.write subscribe buffer)
      × SafeWrite buffer (SubAck.write sub_ack buffer)
      × SafeWrite buffer (Unsubscribe.write unsubscribe buffer)
      × SafeWrite buffer (UnsubAck.write unsub_ack buffer)
      × SafeWrite buffer (write_ping_req buffer)
      × SafeWrite buffer (write_ping_resp buffer)
      × SafeWrite buffer (write_disconnect buffer)
unfolding Connect.write Publish.write PubAck.write PubRec.write PubRel.write PubComp.write
    Subscribe.write Subscribe.writer SubAck.write SubAck.writer Unsubscribe.write Unsubscribe.writer
    UnsubAck.write write_ping_req write_ping_resp write_disconnect
writers_safe buffer c a p pa pr pl pc s sa u ua = (
  connect-SafeWrite c buffer,
  conn_ack_safe a buffer,
  TameTo-SafeWrite (Publish.writer p) buffer (publish_safe p),
  pub_ack-SafeWrite pa buffer,
  pub_rec-SafeWrite pr buffer,
  TameTo-SafeWrite _ buffer (pkid_safe 0x62 _ pl.pkid),
  pub_comp-SafeWrite pc buffer,
  TameTo-SafeWrite (Subscribe.writer s) buffer
      (listed_safe 0x82 _ s.pkid _ (Tame-write_filters 0 _)),
  TameTo-SafeWrite (SubAck.writer sa) buffer (listed_safe 0x90 _ sa.pkid _ (Tame-write_codes 0 _)),
  TameTo-SafeWrite (Unsubscribe.writer u) buffer
      (listed_safe 0xa2 _ u.pkid _ (Tame-write_topics 0 _)),
  TameTo-SafeWrite _ buffer (
      Tame-then 0 Inside _ _ (Tame-put_slice 0 (0xb0 ∷ 0x02 ∷ []))
        (Tame-then 0 Inside _ _ (Tame-put_u16 0 ua.pkid) (TameTo-bytes_written 0))),
  ping_req-SafeWrite buffer,
  TameTo-SafeWrite _ buffer (header_safe 0xd0 0),
  TameTo-SafeWrite _ buffer (header_safe 0xe0 0),
)
