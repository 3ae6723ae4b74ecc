-- ===== src/Time.antt =====
-- time.rs: points in time, in milliseconds as a `u64`. A `core::time::Duration` is its nanoseconds.
use umqtt.Base.{ℕ, ◌+◌, ◌-◌, ◌*◌, ◌/◌, ◌%◌, ◌^◌, ltb, if◌then◌else◌}
use umqtt.Base.Outcome.{Outcome, ok, panic}

abbrev pub Duration : Type 0
Duration = ℕ

abbrev pub from_secs : ℕ → Duration
from_secs n = n * 1000000000

abbrev pub from_millis : ℕ → Duration
from_millis n = n * 1000000

abbrev pub as_millis : Duration → ℕ
as_millis d = d / 1000000

abbrev pub u64_max : ℕ
u64_max = 18446744073709551615

abbrev saturating_add : ℕ → ℕ → ℕ
saturating_add a b = if ltb u64_max (a + b) then u64_max else a + b

pub record Instant : Type 0 where
  pub milliseconds : ℕ

abbrev pub from_millis_since_epoch : ℕ → Instant
from_millis_since_epoch n = record { milliseconds = n }

-- `as u64` keeps the low 64 bits.
abbrev pub from_duration_since_epoch : Duration → Instant
from_duration_since_epoch d = from_millis_since_epoch (as_millis d % 2 ^ 64)

abbrev checked : {E : Type 0} → ℕ → Outcome E Instant
checked n = if ltb u64_max n then panic else ok (record { milliseconds = n })

unfoldable pub from_seconds_since_epoch : {E : Type 0} → ℕ → Outcome E Instant
from_seconds_since_epoch seconds = checked (seconds * 1000)

unfoldable pub add_seconds : {E : Type 0} → Instant → ℕ → Outcome E Instant
add_seconds t seconds = checked (t.milliseconds + 1000 * seconds)

-- `Instant - Instant`, which stops at zero.
unfoldable pub since : Instant → Instant → Duration
since t rhs = from_millis (t.milliseconds - rhs.milliseconds)

-- `Instant - Duration` and `-=`
unfoldable pub sub : Instant → Duration → Instant
sub t rhs = record { milliseconds = t.milliseconds - as_millis rhs % 2 ^ 64 }

-- `Instant + Duration` and `+=`
unfoldable pub add : Instant → Duration → Instant
add t rhs = record { milliseconds = saturating_add t.milliseconds (as_millis rhs % 2 ^ 64) }
