-- ===== src/PacketView/Field/Safe.antt =====
-- Reading without a panic: the rules for the ways to build a reader.
use mathlib.Core.Path.{subst}
use umqtt.Base.{
  sym, ℕ, ◌≤◌, ◌≢◌, refl, Bool, true, false, List, [], ◌∷◌, length, ltb, if◌then◌else◌, drop, tests,
  Bool-cases, inl, inr,
}
use umqtt.Base.Outcome.{
  Outcome, ok, err, panic, pure, fail, lift, run_on, bind_ok, resume, and_then, ◌>>=◌, ◌>>◌,
  NoPanic,
}
use umqtt.PacketView.{Error, bad_utf8}
use umqtt.PacketView.Cursor.{Cursor, Read, as_slice, advance, split_to}
use umqtt.PacketView.Utf8.{is_utf8}
use umqtt.PacketView.Field.RoundTrip.{read_u8-cons, read_u16-cons, split_to_lem, advance_lem}
use umqtt.PacketView.Field.{read_u8, read_u16, read_mqtt_bytes, read_mqtt_string}

-- `m` panics on no cursor.
pub record Safe {A : Type 0} (m : Read A) : Type 0 where
  pub at : (s : Cursor) → NoPanic (m s).0

pub NoPanic-of : {E A : Type 0} (r : Outcome E A) → r ≢ panic → NoPanic r
NoPanic-of (ok a) h = tt
NoPanic-of (err e) h = tt
NoPanic-of panic h = h refl

module _ {A : Type 0} where
  pub Safe-pure : (a : A) → Safe (pure a)
  Safe-pure a = record { at = λ s. tt }

  pub Safe-fail : (e : Error) → Safe (fail {A = A} e)
  Safe-fail e = record { at = λ s. tt }

  pub Safe-lift : (r : Outcome Error A) → NoPanic r → Safe (lift r)
  Safe-lift r h = record { at = λ s. h }

  pub Safe-if : (b : Bool) (m n : Read A) → Safe m → Safe n → Safe (if b then m else n)
  Safe-if true m n hm hn = hm
  Safe-if false m n hm hn = hn

-- An answer that does not read on.
pub Safe-answer : {A : Type 0} {r : Outcome Error A} → NoPanic r → Safe (λ s. (r, s))
Safe-answer h = record { at = λ s. h }

pub Safe-as_slice : Safe as_slice
Safe-as_slice = record { at = λ s. tt }

module _ {A B : Type 0} where
  pub resume_safe :
      (r : Outcome Error A) (f : A → Read B) (s : Cursor)
      → NoPanic r
      → ((a : A) → Safe (f a))
      → NoPanic (resume r f s).0
  resume_safe (ok a) f s h hf = (hf a).at s
  resume_safe (err e) f s h hf = tt
  resume_safe panic f s h hf = h

  pub Safe-bind : (m : Read A) (f : A → Read B) → Safe m → ((a : A) → Safe (f a)) → Safe (m >>= f)
  Safe-bind m f hm hf = record { at = λ s. let (r, s') = m s in resume_safe r f s' (hm.at s) hf }

pub Safe-read_u8 : Safe read_u8
Safe-read_u8 = record { at = by_cases }
  where
    by_cases : (s : Cursor) → NoPanic (read_u8 s).0
    by_cases [] = unfold read_u8 in tt
    by_cases (b ∷ s) = rw (read_u8-cons b s) tt

pub Safe-read_u16 : Safe read_u16
Safe-read_u16 = record { at = by_cases }
  where
    by_cases : (s : Cursor) → NoPanic (read_u16 s).0
    by_cases [] = unfold read_u16 in tt
    by_cases (b ∷ []) = unfold read_u16 in tt
    by_cases (b ∷ c ∷ s) = rw (read_u16-cons b c s) tt

-- A slice of bytes is taken within what is left.
split_to_safe : (n : ℕ) (s : Cursor) → n ≤ length s → NoPanic (split_to n s).0
split_to_safe n s h = rw (split_to_lem n s h) tt

pub Safe-read_mqtt_bytes : Safe read_mqtt_bytes
unfolding read_mqtt_bytes
Safe-read_mqtt_bytes = record {
  at = λ s.
      let (r, s') = read_u16 s in
      resume_safe r _ s' (Safe-read_u16.at s) (λ len. record { at = λ t. sized len t });
}
  where
    sized :
        (len : ℕ) (t : Cursor)
        → NoPanic ((if ltb (length t) len then fail Error.malformed_packet else split_to len) t).0
    sized len t = elim (Bool-cases (ltb (length t) len)) [
      | inl short ↦ rw short tt
      | inr fits ↦ rw fits (split_to_safe len t (omega tests))
    ]

pub Safe-read_mqtt_string : Safe read_mqtt_string
unfolding read_mqtt_string
Safe-read_mqtt_string =
    Safe-bind _ _ Safe-read_mqtt_bytes
      (λ s. Safe-if (is_utf8 s) _ _ (Safe-pure s) (Safe-fail bad_utf8))

pub ruleset safe_rules = (
  Safe-pure, Safe-fail, Safe-lift, Safe-if, Safe-as_slice, Safe-bind, Safe-read_u8, Safe-read_u16,
  Safe-read_mqtt_bytes, Safe-read_mqtt_string,
)

-- The cursor of `read_exact` starts within the packet.
pub run_on_safe :
    {A : Type 0} (n : ℕ) (bytes : List ℕ) (m : Read A)
    → n ≤ length bytes
    → Safe m
    → NoPanic (run_on bytes (advance n >> m))
run_on_safe n bytes m h hm =
    subst (λ r. NoPanic r.0) (sym (bind_ok (advance n) (λ _. m) (advance_lem n bytes h)))
      (hm.at (drop n bytes))

pub and_then_safe :
    {E A B : Type 0} (r : Outcome E A) (f : A → Outcome E B)
    → NoPanic r
    → ((a : A) → NoPanic (f a))
    → NoPanic (and_then r f)
and_then_safe (ok a) f h hf = hf a
and_then_safe (err e) f h hf = tt
and_then_safe panic f h hf = h
