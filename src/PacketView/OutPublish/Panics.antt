-- ===== src/PacketView/OutPublish/Panics.antt =====
-- packetview/publish.rs: when `OutPublish::write` panics.
use umqtt.Base.{
  ℕ, ◌+◌, ◌-◌, ◌≤◌, ◌<◌, ◌≡◌, refl, arith, Bool, true, false, List, [], ◌∷◌, ◌++◌, length, take,
  drop, leb, ltb, ◌==◌, ap, lt→ltb, le→ltb, le→leb, Bool-cases, inl, inr, tests, length-append,
  length-drop, length-take,
}
use umqtt.Base.Outcome.{bind_inv, Outcome, ok, err, panic, NoPanic, ◌>>◌, resume}
use umqtt.PacketView.{WriteError, has_pkid, payload_too_long}
use umqtt.PacketView.Header.{max_remaining_len}
use umqtt.PacketView.Header.Encoding.{
  length_bytes, length-length_bytes, write_remaining_length-too_long,
}
use umqtt.PacketView.Publish.{first_byte}
use umqtt.PacketView.OutPublish.InPlace.{remaining_len_bytes-eq, fixed_header-eq}
use umqtt.PacketView.BorrowedBuf
use umqtt.PacketView.BorrowedBuf.{BorrowedBuf, Fill, capacity, get_len, add_slice}
use umqtt.PacketView.BorrowedBuf.Adds.{IsTame, TameAt, TameAt-bind, IsTame-add_slice, add_slice-len}
use umqtt.PacketView.WriteCursor.{be_bytes}
use umqtt.PacketView.OutPublish.{
  OutPublish, len_since, store_topic_len, write_topic, write_pkid, write_var_header_and_payload,
  remaining_len_bytes, finish, write,
}

get_len_tame : (b : BorrowedBuf) → b.len ≤ capacity b → TameAt get_len b
get_len_tame b h = (tt, (omega arith, h, refl))

len_since_tame :
    (start : ℕ) (b : BorrowedBuf) → start ≤ b.len → b.len ≤ capacity b → TameAt (len_since start) b
len_since_tame start b h v = rw (le→leb start b.len h) (tt, (omega arith, v, refl))

store_topic_len_tame :
    (start n : ℕ) (b : BorrowedBuf)
    → start + 2 ≤ b.len
    → b.len ≤ capacity b
    → TameAt (store_topic_len start n) b
unfolding store_topic_len
store_topic_len_tame start n b h v = ground (
  arith,
  h,
  v,
  length-append (take start b.buffer) (be_bytes n ++ drop (start + 2) b.buffer),
  length-take start b.buffer,
  length-drop (start + 2) b.buffer,
)

write_topic-IsTame : (topic : Fill (Unit {0})) → IsTame topic → IsTame (write_topic topic)
unfolding write_topic
write_topic-IsTame topic tame b v =
    TameAt-bind (add_slice (0 ∷ 0 ∷ [])) _ b (IsTame-add_slice (0 ∷ 0 ∷ []) b v) λ _ b1 e1 g1.
      TameAt-bind topic _ b1 (tame b1 g1.1) λ _ b2 e2 g2.
        TameAt-bind (len_since b1.len) (store_topic_len b.len) b2
          (len_since_tame b1.len b2 g2.0 g2.1)
          λ n b3 e3 g3.
            store_topic_len_tame b.len n b3
              (omega (arith, add_slice-len (0 ∷ 0 ∷ []) b b1 e1, g2.0, g3.0)) g3.1

write_pkid-IsTame : (p : OutPublish) → IsTame (write_pkid p)
unfolding write_pkid
write_pkid-IsTame p b v = elim (Bool-cases (has_pkid p.quality)) [
  | inl some_qos ↦ elim (Bool-cases (p.pkid == 0)) [
    | inl z ↦ rw (some_qos, z) (tt, (omega arith, v, refl))
    | inr z ↦ rw (some_qos, z) (IsTame-add_slice (be_bytes p.pkid) b v)
  ]
  | inr no_qos ↦ rw no_qos (tt, (omega arith, v, refl))
]

pub write_var_header_and_payload-TameAt :
    (p : OutPublish) (topic payload : Fill (Unit {0}))
    → IsTame topic
    → IsTame payload
    → (b : BorrowedBuf) → b.len ≤ capacity b
    → TameAt (write_var_header_and_payload p topic payload) b
unfolding write_var_header_and_payload
write_var_header_and_payload-TameAt p topic payload ht hp b v =
    TameAt-bind (write_topic topic) _ b (write_topic-IsTame topic ht b v) λ _ b1 e1 g1.
      TameAt-bind (write_pkid p) _ b1 (write_pkid-IsTame p b1 g1.1) λ _ b2 e2 g2.
        TameAt-bind payload (λ _. get_len) b2 (hp b2 g2.1) λ _ b3 e3 g3. get_len_tame b3 g3.1

pub remaining_len_bytes-too_long :
    (n : ℕ) → max_remaining_len < n → remaining_len_bytes n ≡ err payload_too_long
unfolding remaining_len_bytes
remaining_len_bytes-too_long n h = rw (write_remaining_length-too_long n _ h) refl

-- The fixed header fits the five bytes that are kept for it, and the packet is in the output buffer.
finish_safe :
    (p : OutPublish) (value : ℕ) (header remaining : List ℕ)
    → length header ≡ 5
    → value ≤ length remaining
    → NoPanic (finish p value (header, remaining)).0
unfolding finish
finish_safe p value header remaining h fits = elim (Bool-cases (ltb max_remaining_len value)) [
  | inl long ↦ rw (remaining_len_bytes-too_long value (omega tests)) tt
  | inr short ↦
      let rl = length_bytes value in
      let size = length-length_bytes value in
      let byte1 = first_byte p.dup p.quality p.retain in
      let pre = take (4 - length rl) header in
      let inside : 1 + (4 - length rl) + length rl + value
          ≤ length ((pre ++ (byte1 ∷ rl)) ++ remaining) =
        omega (
          arith,
          size,
          length-take (4 - length rl) header,
          length-append pre (byte1 ∷ rl),
          length-append (pre ++ (byte1 ∷ rl)) remaining,
        ) in
      rw
        (
          remaining_len_bytes-eq value (omega tests),
          fixed_header-eq byte1 rl header h size.0 size.1,
          le→leb (4 - length rl) (1 + (4 - length rl) + length rl + value) (omega arith),
          le→leb (1 + (4 - length rl) + length rl + value)
              (length ((pre ++ (byte1 ∷ rl)) ++ remaining)) inside,
        )
        tt
]

-- What `write` does with the outcome of the variable part.
finish_no_panic :
    (p : OutPublish) (output : List ℕ) (q : Outcome WriteError ℕ × BorrowedBuf)
    → length (take 5 output) ≡ 5
    → NoPanic q.0
    → ((n : ℕ) → q.0 ≡ ok n → n ≤ length q.1.buffer)
    → NoPanic (resume q.0 (finish p) (take 5 output, q.1.buffer)).0
finish_no_panic p output (ok n, b) h safe within =
    finish_safe p n (take 5 output) b.buffer h (within n refl)
finish_no_panic p output (err e, b) h safe within = tt
finish_no_panic p output (panic, b) h safe within = safe

-- Whether a call panics.
unfoldable pub is_panic : {E A : Type 0} → Outcome E A → Bool
is_panic (ok a) = false
is_panic (err e) = false
is_panic panic = true

is_panic-NoPanic : {E A : Type 0} (r : Outcome E A) → NoPanic r → is_panic r ≡ false
unfolding is_panic
is_panic-NoPanic (ok a) h = refl
is_panic-NoPanic (err e) h = refl
is_panic-NoPanic panic h = absurd h

pub no_panic-is_panic : {E A : Type 0} (r : Outcome E A) → is_panic r ≡ false → NoPanic r
unfolding is_panic
no_panic-is_panic (ok a) h = tt
no_panic-is_panic (err e) h = tt
no_panic-is_panic panic h = cc

variable_part_len :
    (p : OutPublish) (topic payload : Fill (Unit {0})) (b b' : BorrowedBuf) (n : ℕ)
    → write_var_header_and_payload p topic payload b ≡ (ok n, b')
    → n ≡ b'.len
unfolding write_var_header_and_payload
variable_part_len p topic payload b b' n e =
    let (_, b1, _, e1) =
      bind_inv (write_topic topic) (λ _. write_pkid p >> (payload >> get_len)) e in
    let (_, b2, _, e2) = bind_inv (write_pkid p) (λ _. payload >> get_len) e1 in
    let (_, b3, _, e3) = bind_inv payload (λ _. get_len) e2 in cc e3

-- For functions that do not panic themselves and only append to the buffer, `OutPublish::write`
-- panics exactly where the output buffer is shorter than five bytes.
pub write-is_panic :
    (p : OutPublish) (topic payload : Fill (Unit {0})) (output : List ℕ)
    → IsTame topic
    → IsTame payload
    → is_panic (write p topic payload output).0 ≡ ltb (length output) 5
unfolding write is_panic
write-is_panic p topic payload output ht hp = elim (Bool-cases (leb 5 (length output))) [
  | inr short ↦ rw (short, lt→ltb (length output) 5 (omega tests)) refl
  | inl long ↦
      let b = BorrowedBuf.new (drop 5 output) in
      let tame = write_var_header_and_payload-TameAt p topic payload ht hp b (omega arith) in
      let q = write_var_header_and_payload p topic payload b in
      rw (long, le→ltb (length output) 5 (omega tests))
        (is_panic-NoPanic _ (
          finish_no_panic p output q (omega (tests, length-take 5 output)) tame.0 (λ n e.
            omega
              (arith, tame.1.1, variable_part_len p topic payload b q.1 n (ap (λ r. (r, q.1)) e)))))
]
