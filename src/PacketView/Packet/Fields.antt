-- ===== src/PacketView/Packet/Fields.antt =====
-- The files of packetview/: the fields of each packet that is read out of bytes are in the range of
-- their types.
use umqtt.Base.{
  ℕ, zero, suc, ◌≤◌, ◌<◌, ◌≡◌, refl, arith, Bool-cases, inl, inr, ◌==◌, List, [], ◌∷◌, length,
  if◌then◌else◌, ltb, is_nil, bytes_eq, not, ◌&&◌, Option, none, some, bit_and,
}
use umqtt.Base.Outcome.{Outcome, ok, err, panic, pure, fail, lift, ◌>>◌}
use umqtt.PacketView.{Error, invalid_protocol, invalid_protocol_level, FixedHeader, qos}
use umqtt.PacketView.Utf8.{is_utf8}
use umqtt.PacketView.Field.{read_u16, read_mqtt_string}
use umqtt.PacketView.Field.Typed.{
  IsText, Bytes, Yields, Yields-pure, Yields-fail, Yields-answer, Yields-if, Yields-bind,
  Yields-as_slice, Yields-read_u8, Yields-read_u16, Yields-read_mqtt_bytes, Yields-read_mqtt_string,
  run_on-Yields,
}
use umqtt.PacketView.Connect
use umqtt.PacketView.Connect.{Connect, LastWill, Login, read_will, read_login, protocol_name}
use umqtt.PacketView.PubAck
use umqtt.PacketView.PubRec
use umqtt.PacketView.PubRel
use umqtt.PacketView.PubComp
use umqtt.PacketView.Cursor.{Read, as_slice}
use umqtt.PacketView.SubAck
use umqtt.PacketView.SubAck.{SubAck, check_codes}
use umqtt.PacketView.Subscribe
use umqtt.PacketView.Subscribe.{Subscribe, subscribe_of, all_filters, SubscribeFilter}
use umqtt.PacketView.Unsubscribe
use umqtt.PacketView.Unsubscribe.{Unsubscribe, skip_topics}
use umqtt.PacketView.UnsubAck

abbrev IsWill : Option LastWill → Type 0
IsWill none = Unit
IsWill (some w) = IsText w.topic × (length w.message < 65536)

abbrev IsLogin : Option Login → Type 0
IsLogin none = Unit
IsLogin (some l) = IsText l.username × (length l.password < 65536)

abbrev pub IsConnect : Connect → Type 0
IsConnect p = (p.keep_alive < 65536) × IsText p.client_id × IsWill p.last_will × IsLogin p.login

Yields-read_will : (flags : ℕ) → Yields (read_will flags) IsWill
unfolding read_will
Yields-read_will flags =
    Yields-if (bit_and flags 0x04 == 0) _ _
      (Yields-if (bit_and flags 0x38 == 0) _ _ (Yields-pure none tt) (Yields-fail _))
      (Yields-bind _ _ Yields-read_mqtt_string (λ topic t.
        Yields-bind _ _ Yields-read_mqtt_bytes (λ message m.
          Yields-bind _ _ (Yields-answer {Q = λ q. Unit {0}} (λ s. qos _) (λ s q h e. tt))
            (λ q u. Yields-pure _ (t, m)))))

Yields-read_login : (flags : ℕ) → Yields (read_login flags) IsLogin
unfolding read_login
Yields-read_login flags =
    Yields-bind _ _
      (Yields-if (bit_and flags 0x80 == 0) _ _
        (Yields-pure [] (unfold is_utf8 in refl, omega arith)) Yields-read_mqtt_string)
      (λ username u.
        Yields-bind _ _
          (Yields-if (bit_and flags 0x40 == 0) _ _ (Yields-pure [] (omega arith))
            Yields-read_mqtt_bytes)
          (λ password p. Yields-pure _ (both username password u p)))
  where
    both :
        (username password : List ℕ)
        → IsText username
        → length password < 65536
        → IsLogin (
            if is_nil username && is_nil password
            then none
            else some (record { username = username; password = password }))
    both username password u p = elim (Bool-cases (is_nil username && is_nil password)) [
      | inl e ↦ rw e tt
      | inr e ↦ rw e (u, p)
    ]

Yields-skip_topics : (fuel : ℕ) → Yields (skip_topics fuel) (λ u. Unit {0})
unfolding skip_topics
Yields-skip_topics zero =
    Yields-bind as_slice (λ bytes. if is_nil bytes then pure tt else lift panic) Yields-as_slice
      (λ bytes h.
        Yields-if (is_nil bytes) (pure tt) (lift panic) (Yields-pure tt tt)
          (Yields-answer (λ s. panic) (λ s u z w. tt)))
Yields-skip_topics (suc fuel) =
    let rest = Yields-skip_topics fuel in
    Yields-bind as_slice
      (λ bytes. if is_nil bytes then pure tt else (read_mqtt_string >> skip_topics fuel))
      Yields-as_slice
      (λ bytes h.
        Yields-if (is_nil bytes) (pure tt) (read_mqtt_string >> skip_topics fuel)
          (Yields-pure tt tt)
          (Yields-bind read_mqtt_string (λ t. skip_topics fuel) Yields-read_mqtt_string
            (λ t text. rest)))

abbrev pub Answers : {A : Type 0} → Outcome Error A → (A → Type 0) → Type 0
Answers {A} r Q = (a : A) → r ≡ ok a → Q a

module _ (h : FixedHeader) (bytes : List ℕ) (within : h.fixed_header_len ≤ length bytes)
    (all : Bytes bytes) where
  pub PubAck_typed : Answers (PubAck.read_exact h bytes) (λ p. p.pkid < 65536)
  unfolding PubAck.read_exact
  PubAck_typed p e =
      run_on-Yields (λ a. a.pkid < 65536) _ bytes _ p within all e
        (Yields-bind read_u16 _ Yields-read_u16 (λ pkid small.
          Yields-if (h.remaining_len == 2) _ _ (Yields-pure _ small)
            (Yields-if (ltb h.remaining_len 4) _ _ (Yields-pure _ small) (Yields-pure _ small))))

  pub PubRec_typed : Answers (PubRec.read_exact h bytes) (λ p. p.pkid < 65536)
  unfolding PubRec.read_exact
  PubRec_typed p e =
      run_on-Yields (λ a. a.pkid < 65536) _ bytes _ p within all e
        (Yields-bind read_u16 _ Yields-read_u16 (λ pkid small. Yields-pure _ small))

  pub PubRel_typed : Answers (PubRel.read_exact h bytes) (λ p. p.pkid < 65536)
  unfolding PubRel.read_exact
  PubRel_typed p e =
      run_on-Yields (λ a. a.pkid < 65536) _ bytes _ p within all e
        (Yields-bind read_u16 _ Yields-read_u16 (λ pkid small.
          Yields-if (h.remaining_len == 2) _ _ (Yields-pure _ small)
            (Yields-if (ltb h.remaining_len 4) _ _ (Yields-pure _ small) (Yields-pure _ small))))

  pub PubComp_typed : Answers (PubComp.read_exact h bytes) (λ p. p.pkid < 65536)
  unfolding PubComp.read_exact
  PubComp_typed p e =
      run_on-Yields (λ a. a.pkid < 65536) _ bytes _ p within all e
        (Yields-bind read_u16 _ Yields-read_u16 (λ pkid small.
          Yields-if (h.remaining_len == 2) _ _ (Yields-pure _ small)
            (Yields-if (ltb h.remaining_len 4) _ _ (Yields-pure _ small) (Yields-pure _ small))))

  pub UnsubAck_typed : Answers (UnsubAck.read_exact h bytes) (λ p. p.pkid < 65536)
  unfolding UnsubAck.read_exact
  UnsubAck_typed p e = elim (Bool-cases (h.remaining_len == 2)) [
    | inl two ↦
        run_on-Yields (λ a. a.pkid < 65536) _ bytes _ p within all (rw two at e)
          (Yields-bind read_u16 _ Yields-read_u16 (λ pkid small. Yields-pure _ small))
    | inr other ↦ absurd (malformed (rw other at e))
  ]
    where
      malformed : err Error.malformed_packet ≡ ok p → ⊥
      malformed z = cc

  pub SubAck_typed : Answers (SubAck.read_exact h bytes) (λ p. p.pkid < 65536)
  unfolding SubAck.read_exact
  SubAck_typed p e =
      run_on-Yields (λ a. a.pkid < 65536) _ bytes _ p within all e
        (Yields-bind read_u16 _ Yields-read_u16 (λ pkid small.
          Yields-bind as_slice (codes_of pkid) Yields-as_slice (λ codes cs.
            Yields-if (is_nil codes) (fail Error.malformed_packet) (lift (check_codes codes) >> _)
              (Yields-fail Error.malformed_packet)
              (Yields-bind (lift (check_codes codes)) _
                (Yields-answer {Q = λ q. Unit {0}} (λ s. check_codes codes) (λ s q z w. tt))
                (λ q u.
                  Yields-pure (record { pkid = pkid; return_codes = SubAck.wire_bytes codes })
                    small)))))
    where
      codes_of : ℕ → List ℕ → Read SubAck
      codes_of pkid codes = if is_nil codes then fail Error.malformed_packet else do
        lift (check_codes codes)
        pure (record { pkid = pkid; return_codes = SubAck.wire_bytes codes })

  pub Subscribe_typed : Answers (Subscribe.read_exact h bytes) (λ p. p.pkid < 65536)
  unfolding Subscribe.read_exact
  Subscribe_typed p e =
      run_on-Yields (λ a. a.pkid < 65536) _ bytes _ p within all e
        (Yields-bind read_u16 _ Yields-read_u16 (λ pkid small.
          Yields-bind as_slice
            (λ filters s. (subscribe_of pkid filters (all_filters (length filters) filters), s))
            Yields-as_slice
            (λ filters fs.
              Yields-answer (λ s. subscribe_of pkid filters (all_filters (length filters) filters))
                (λ s q z w.
                  subscribed pkid filters q small (all_filters (length filters) filters) w))))
    where
      subscribed :
          (pkid : ℕ) (filters : List ℕ) (q : Subscribe)
          → pkid < 65536
          → (r : List SubscribeFilter × List ℕ) → subscribe_of pkid filters r ≡ ok q
          → q.pkid < 65536
      subscribed pkid filters q small ([], left) w = unfold subscribe_of in cc
      subscribed pkid filters q small (f ∷ fs, []) w = unfold subscribe_of in ground (arith, w)
      subscribed pkid filters q small (f ∷ fs, b ∷ left) w = unfold subscribe_of in cc

  pub Unsubscribe_typed : Answers (Unsubscribe.read_exact h bytes) (λ p. p.pkid < 65536)
  unfolding Unsubscribe.read_exact
  Unsubscribe_typed p e =
      run_on-Yields (λ a. a.pkid < 65536) _ bytes _ p within all e
        (Yields-bind read_u16 _ Yields-read_u16 (λ pkid small.
          Yields-bind as_slice (topics_of pkid) Yields-as_slice (λ topics ts.
            Yields-bind (skip_topics (length topics)) _ (Yields-skip_topics (length topics)) (λ q u.
              Yields-pure (record { pkid = pkid; topics = Unsubscribe.wire_bytes topics }) small))))
    where
      topics_of : ℕ → List ℕ → Read Unsubscribe
      topics_of pkid topics = do
        skip_topics (length topics)
        pure (record { pkid = pkid; topics = Unsubscribe.wire_bytes topics })

  pub Connect_typed : Answers (Connect.read_exact h bytes) (λ p. IsConnect p)
  unfolding Connect.read_exact
  Connect_typed p e =
      run_on-Yields (λ a. IsConnect a) _ bytes _ p within all e
        (Yields-bind _ _ Yields-read_mqtt_string (λ name n.
          Yields-bind _ _ Yields-read_u8 (λ level l.
            Yields-if (not (bytes_eq name protocol_name)) (fail invalid_protocol) _ (Yields-fail _)
              (Yields-if (not (level == 4)) (fail (invalid_protocol_level level)) _ (Yields-fail _)
                (Yields-bind _ _ Yields-read_u8 (λ flags f.
                  Yields-bind _ _ Yields-read_u16 (λ keep_alive k.
                    Yields-bind _ _ Yields-read_mqtt_string (λ client_id i.
                      Yields-bind _ _ (Yields-read_will flags) (λ will w.
                        Yields-bind _ _ (Yields-read_login flags)
                          (λ login g. Yields-pure _ (k, i, w, g)))))))))))
