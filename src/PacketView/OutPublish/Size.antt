-- ===== src/PacketView/OutPublish/Size.antt =====
-- packetview/publish.rs: the output buffer after `OutPublish::write`.
use umqtt.Base.{
  ℕ, ◌+◌, ◌-◌, ◌≤◌, ◌≡◌, refl, ap, ◌∙◌, arith, List, ◌∷◌, length, take, drop, leb, ltb, le→ltb,
  Bool-cases, inl, inr, tests, length-append, length-drop, length-take,
}
use umqtt.Base.Outcome.{Outcome, ok, err, panic, NoPanic, resume}
use umqtt.PacketView.{WriteError}
use umqtt.PacketView.Header.{max_remaining_len}
use umqtt.PacketView.Header.Encoding.{length_bytes, length-length_bytes}
use umqtt.PacketView.Publish.{first_byte}
use umqtt.PacketView.BorrowedBuf
use umqtt.PacketView.BorrowedBuf.{BorrowedBuf, Fill}
use umqtt.PacketView.BorrowedBuf.Adds.{IsTame}
use umqtt.PacketView.OutPublish.{OutPublish, write_var_header_and_payload, finish, write}
use umqtt.PacketView.OutPublish.InPlace.{remaining_len_bytes-eq, fixed_header-eq}
use umqtt.PacketView.OutPublish.Panics.{
  write_var_header_and_payload-TameAt, remaining_len_bytes-too_long, no_panic-is_panic,
  write-is_panic,
}

-- The five bytes stay five, and the rest is not touched.
finish_kept :
    (p : OutPublish) (value : ℕ) (header remaining : List ℕ)
    → length header ≡ 5
    → (length (finish p value (header, remaining)).1.0 ≡ 5)
      × ((finish p value (header, remaining)).1.1 ≡ remaining)
unfolding finish
finish_kept p value header remaining h = elim (Bool-cases (ltb max_remaining_len value)) [
  | inl long ↦ rw (remaining_len_bytes-too_long value (omega tests)) (h, refl)
  | inr short ↦
      let rl = length_bytes value in
      let size = length-length_bytes value in
      let byte1 = first_byte p.dup p.quality p.retain in
      let pre = take (4 - length rl) header in
      rw
        (
          remaining_len_bytes-eq value (omega tests),
          fixed_header-eq byte1 rl header h size.0 size.1,
        )
        (
          omega
              (arith, h, size, length-take (4 - length rl) header, length-append pre (byte1 ∷ rl)),
          refl,
        )
]

resume_kept :
    (p : OutPublish) (header : List ℕ) (q : Outcome WriteError ℕ × BorrowedBuf)
    → length header ≡ 5
    → length (resume q.0 (finish p) (header, q.1.buffer)).1.0
        + length (resume q.0 (finish p) (header, q.1.buffer)).1.1
      ≡ 5 + length q.1.buffer
resume_kept p header (ok n, b) h =
    let (size, same) = finish_kept p n header b.buffer h in omega (arith, size, ap length same)
resume_kept p header (err e, b) h = omega (arith, h)
resume_kept p header (panic, b) h = omega (arith, h)

-- The output buffer stays as large as it was.
pub write-length :
    (p : OutPublish) (topic payload : Fill (Unit {0})) (output : List ℕ)
    → IsTame topic
    → IsTame payload
    → length (write p topic payload output).1 ≡ length output
unfolding write
write-length p topic payload output ht hp = elim (Bool-cases (leb 5 (length output))) [
  | inr short ↦ rw short refl
  | inl long ↦
      let b = BorrowedBuf.new (drop 5 output) in
      let tame = write_var_header_and_payload-TameAt p topic payload ht hp b (omega arith) in
      let q = write_var_header_and_payload p topic payload b in
      let out = resume q.0 (finish p) (take 5 output, q.1.buffer) in
      rw long (
        omega (
          tests,
          resume_kept p (take 5 output) q (omega (tests, length-take 5 output)),
          tame.1.2,
          length-drop 5 output,
          length-append out.1.0 out.1.1,
        ))
]

-- Into a buffer of five bytes or more.
pub write-NoPanic :
    (p : OutPublish) (topic payload : Fill (Unit {0})) (output : List ℕ)
    → IsTame topic
    → IsTame payload
    → 5 ≤ length output
    → NoPanic (write p topic payload output).0
write-NoPanic p topic payload output ht hp room =
    no_panic-is_panic (write p topic payload output).0
      (write-is_panic p topic payload output ht hp ∙ le→ltb (length output) 5 room)
