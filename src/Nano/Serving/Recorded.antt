-- ===== src/Nano/Serving/Recorded.antt =====
-- nano_client/platform.rs: a platform with a record of the bytes that went through it.
use umqtt.Base.{ℕ, ◌≡◌, refl, ◌++◌, ◌⊎◌, inl, inr, List, Option, none, some}
use umqtt.Time.{Instant}
use umqtt.Nano.Platform.{Platform, ReadFits}

pub record Recorded (P : Type 0) : Type 0 where
  pub inner : P
  -- The bytes that were read, and those of the writes that succeeded.
  pub received : List ℕ
  pub sent : List ℕ

module _ {P E : Type 0} where
  abbrev pub record_read :
      Recorded P → (E ⊎ Option (List ℕ)) × P → (E ⊎ Option (List ℕ)) × Recorded P
  record_read s (inl e, p) = (inl e, record s { inner = p })
  record_read s (inr none, p) = (inr none, record s { inner = p })
  record_read s (inr (some bytes), p) =
      (inr (some bytes), record s { inner = p; received = s.received ++ bytes })

  abbrev pub record_write : Recorded P → List ℕ → (E ⊎ Unit {0}) × P → (E ⊎ Unit {0}) × Recorded P
  record_write s bytes (inl e, p) = (inl e, record s { inner = p })
  record_write s bytes (inr done, p) = (inr done, record s { inner = p; sent = s.sent ++ bytes })

abbrev pub record_now : {P : Type 0} → Recorded P → Instant × P → Instant × Recorded P
record_now s (t, p) = (t, record s { inner = p })

-- The platform `plat`, which is asked the same and answers the same.
abbrev pub recorded : {P E : Type 0} → Platform P E → Platform (Recorded P) E
recorded plat = record {
  write_all = λ bytes s. record_write s bytes (plat.write_all bytes s.inner);
  read_some = λ n t s. record_read s (plat.read_some n t s.inner);
  now = λ s. record_now s (plat.now s.inner);
}

module _ {P E : Type 0} (plat : Platform P E) (fits : ReadFits plat) where
  record_read-answer :
      (s q : Recorded P) (bytes : List ℕ) (r : (E ⊎ Option (List ℕ)) × P)
      → record_read s r ≡ (inr (some bytes), q)
      → r ≡ (inr (some bytes), r.1)
  record_read-answer s q bytes (inl e, p) h = cc
  record_read-answer s q bytes (inr none, p) h = cc
  record_read-answer s q bytes (inr (some b), p) h = let same : b ≡ bytes = cc h in rw same refl

  pub recorded-ReadFits : ReadFits (recorded plat)
  recorded-ReadFits n t s q bytes h =
      let r = plat.read_some n t s.inner in
      fits n t s.inner r.1 bytes (record_read-answer s q bytes r h)
