-- ===== src/Nano/Platform.antt =====
-- nano_client/platform.rs: the transport and the clock that the application supplies. `P` is the
-- state of a platform and `E` its error. An answer is an error on the left or a value on the right.
use umqtt.Base.{ℕ, ◌≤◌, ◌≡◌, ◌≢◌, ◌⊎◌, inr, List, length, Option, none, some}
use umqtt.Time.{Duration, Instant}

pub record Platform (P E : Type 0) : Type 0 where
  -- `write_all(buf)`
  pub write_all : List ℕ → P → (E ⊎ Unit {0}) × P
  -- `read_some(buf, timeout)` at a buffer of so many bytes; the answer holds the bytes that it
  -- stored at the front, or nothing where the timeout expired.
  pub read_some : ℕ → Option Duration → P → (E ⊎ Option (List ℕ)) × P
  pub now : P → Instant × P

-- What the trait documents: the bytes fit the buffer, and without a timeout none expires.
module _ {P E : Type 0} (plat : Platform P E) where
  abbrev pub ReadFits : Type 0
  ReadFits =
      (n : ℕ) (t : Option Duration) (p q : P) (bytes : List ℕ)
      → plat.read_some n t p ≡ (inr (some bytes), q)
      → length bytes ≤ n

  abbrev pub ReadWaits : Type 0
  ReadWaits = (n : ℕ) (p q : P) → plat.read_some n none p ≢ (inr none, q)
