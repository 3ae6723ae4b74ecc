-- ===== src/PacketView/Field/Typed.antt =====
-- packetview/mod.rs: the values that are read out of bytes are in the range of their types.
use umqtt.Base.{
  ℕ, zero, suc, ◌≤◌, ◌<◌, ◌≡◌, ap, ◌∙◌, arith, Bool, true, false, Bool-cases, inl, inr, List, [],
  ◌∷◌, length, take, drop, ltb, tests, if◌then◌else◌, All, length-take,
}
use umqtt.Base.Outcome.{Outcome, ok, pure, fail, run_on, bind_ok, ◌>>=◌, ◌>>◌}
use umqtt.Base.Meets.{Ends, Ends-bind, Ends-look, Ends-ok}
use mathlib.Core.Path.{sym}
use umqtt.PacketView.{Error, bad_utf8}
use umqtt.PacketView.Cursor.{Cursor, Read, as_slice, advance, split_to}
use umqtt.PacketView.Utf8.{IsStr, is_utf8}
use umqtt.PacketView.Header.Bounds.{IsByte}
use umqtt.PacketView.Field.RoundTrip.{read_u8-cons, read_u16-cons, split_to_lem, advance_lem}
use umqtt.PacketView.Field.{read_u8, read_u16, read_mqtt_bytes, read_mqtt_string}

-- What a `&str` in a length-prefixed field is.
abbrev pub IsText : List ℕ → Type 0
IsText s = IsStr s × (length s < 65536)

abbrev pub Bytes : Cursor → Type 0
Bytes s = All IsByte s

-- From a cursor over bytes, `m` yields a value with `Q`, or fails, and leaves a cursor over bytes.
pub record Yields {A : Type 0} (m : Read A) (Q : A → Type 0) : Type 0 where
  pub at : (s : Cursor) → Bytes s → Ends (λ a t. Q a × Bytes t) (λ t. Unit {0}) (m s)

module _ {A : Type 0} {Q : A → Type 0} where
  pub Yields-pure : (a : A) → Q a → Yields (pure a) Q
  Yields-pure a q = record { at = λ s h. (q, h) }

  pub Yields-fail : (e : Error) → Yields (fail {A = A} e) Q
  Yields-fail e = record { at = λ s h. tt }

  -- An answer that does not read on.
  pub Yields-answer :
      (f : Cursor → Outcome Error A)
      → ((s : Cursor) (a : A) → Bytes s → f s ≡ ok a → Q a)
      → Yields (λ s. (f s, s)) Q
  Yields-answer f q = record {
    at = λ s h. Ends-look (λ a t. Q a × Bytes t) (λ t. Unit {0}) (f s) s (λ a e. (q s a h e, h)) tt;
  }

  pub Yields-if :
      (b : Bool) (m n : Read A) → Yields m Q → Yields n Q → Yields (if b then m else n) Q
  Yields-if true m n hm hn = hm
  Yields-if false m n hm hn = hn

pub Yields-bind :
    {A B : Type 0} {Q' : A → Type 0} {Q : B → Type 0} (m : Read A) (f : A → Read B)
    → Yields m Q'
    → ((a : A) → Q' a → Yields (f a) Q)
    → Yields (m >>= f) Q
Yields-bind {Q' = Q'} {Q = Q} m f hm hf = record {
  at = λ s h.
      Ends-bind (λ a t. Q' a × Bytes t) (λ b t. Q b × Bytes t) (λ t. Unit {0}) f m s (hm.at s h)
        (λ a t q. (hf a q.0).at t q.1);
}

pub Yields-as_slice : Yields as_slice Bytes
Yields-as_slice = record { at = λ s h. (h, h) }

pub Yields-read_u8 : Yields read_u8 IsByte
Yields-read_u8 = record { at = by_cases }
  where
    by_cases : (s : Cursor) → Bytes s → Ends (λ a t. IsByte a × Bytes t) (λ t. Unit {0}) (read_u8 s)
    by_cases [] h = unfold read_u8 in tt
    by_cases (b ∷ s) h = rw (read_u8-cons b s) h

pub Yields-read_u16 : Yields read_u16 (λ n. n < 65536)
Yields-read_u16 = record { at = by_cases }
  where
    by_cases :
        (s : Cursor) → Bytes s → Ends (λ n t. (n < 65536) × Bytes t) (λ t. Unit {0}) (read_u16 s)
    by_cases [] h = unfold read_u16 in tt
    by_cases (b ∷ []) h = unfold read_u16 in tt
    by_cases (b ∷ c ∷ s) h = rw (read_u16-cons b c s) (omega (arith, h.0, h.1.0), h.1.1)

pub All-drop : (n : ℕ) (s : List ℕ) → Bytes s → Bytes (drop n s)
All-drop zero s h = h
All-drop (suc n) [] h = h
All-drop (suc n) (b ∷ s) h = All-drop n s h.1

pub All-take : (n : ℕ) (s : List ℕ) → Bytes s → Bytes (take n s)
All-take zero s h = tt
All-take (suc n) [] h = h
All-take (suc n) (b ∷ s) h = (h.0, All-take n s h.1)

pub Yields-read_mqtt_bytes : Yields read_mqtt_bytes (λ bs. length bs < 65536)
unfolding read_mqtt_bytes
Yields-read_mqtt_bytes =
    Yields-bind read_u16 _ Yields-read_u16 (λ len small. record { at = λ s h. sized len s small h })
  where
    sized :
        (len : ℕ) (s : Cursor)
        → len < 65536
        → Bytes s
        → Ends
            (λ (bs : List ℕ) t. (length bs < 65536) × Bytes t)
            (λ t. Unit {0})
            ((if ltb (length s) len then fail Error.malformed_packet else split_to len) s)
    sized len s small h = elim (Bool-cases (ltb (length s) len)) [
      | inl short ↦ rw short tt
      | inr fits ↦
          rw (fits, split_to_lem len s (omega tests))
            (omega (arith, length-take len s (omega tests)), All-drop len s h)
    ]

pub Yields-read_mqtt_string : Yields read_mqtt_string IsText
unfolding read_mqtt_string
Yields-read_mqtt_string =
    Yields-bind read_mqtt_bytes _ Yields-read_mqtt_bytes (λ s small. checked s small)
  where
    checked :
        (s : List ℕ)
        → length s < 65536
        → Yields (if is_utf8 s then pure s else fail bad_utf8) IsText
    checked s small = elim (Bool-cases (is_utf8 s)) [
      | inl text ↦ rw text (Yields-pure s (text, small))
      | inr none_such ↦ rw none_such (Yields-fail bad_utf8)
    ]

-- A `read_exact` that starts within the packet.
pub run_on-Yields :
    {A : Type 0} (Q : A → Type 0) (n : ℕ) (bytes : List ℕ) (m : Read A) (a : A)
    → n ≤ length bytes
    → Bytes bytes
    → run_on bytes (advance n >> m) ≡ ok a
    → Yields m Q
    → Q a
run_on-Yields Q n bytes m a within h e hm =
    (Ends-ok (λ b t. Q b × Bytes t) (λ t. Unit {0}) (m (drop n bytes)) a
      (hm.at (drop n bytes) (All-drop n bytes h))
      (sym (ap (λ r. r.0) (bind_ok (advance n) (λ _. m) (advance_lem n bytes within))) ∙ e)).0
