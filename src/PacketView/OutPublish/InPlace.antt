-- ===== src/PacketView/OutPublish/InPlace.antt =====
-- packetview/publish.rs: what `OutPublish::write` stores for functions that write a topic and a payload.
use umqtt.Base.{
  ℕ, ◌+◌, ◌-◌, suc, ◌≤◌, ◌<◌, ◌≡◌, refl, sym, ap, ◌∙◌, arith, List, [], ◌∷◌, ◌++◌, length, take,
  drop, ◌==◌, le→leb, le→ltb, Bool-cases, inl, inr, false, length-append, length-drop, length-take,
  append-nil, append_assoc, take-append, drop-drop,
}
use mathlib.Core.Path.{subst}
use umqtt.Base.Outcome.{ok, bind_ok}
use umqtt.Base.Slice.{slice_range, slice_to-append, slice_range-middle}
use umqtt.PacketView.{has_pkid}
use umqtt.PacketView.WriteCursor
use umqtt.PacketView.WriteCursor.{be_bytes}
use umqtt.PacketView.WriteCursor.Emits.{Wrote-fits}
use umqtt.PacketView.BorrowedBuf.{Fill, get_len, add_slice}
use umqtt.PacketView.BorrowedBuf.Adds.{
  at, Adds, AddsTo, AddsTo-get_len, Adds-pure, Adds-then, Adds-add_slice, copy_at-middle,
}
use umqtt.PacketView.Field.RoundTrip.{mqtt_bytes}
use umqtt.PacketView.Header.{max_remaining_len}
use umqtt.PacketView.Header.Encoding.{
  length_bytes, length-length_bytes, Emits-write_remaining_length,
}
use umqtt.PacketView.Publish.{Publish, first_byte}
use umqtt.PacketView.Publish
use umqtt.PacketView.Publish.RoundTrip.{
  IsWritable, pkid_bytes, body, length-body, encoding, write-encoding,
}
use umqtt.PacketView.OutPublish.{
  OutPublish, len_since, store_topic_len, write_topic, write_pkid, write_var_header_and_payload,
  remaining_len_bytes, fixed_header, finish, write,
}

len_since-append :
    (w t r : List ℕ) → len_since (length w) (at (w ++ t) r) ≡ (ok (length t), at (w ++ t) r)
len_since-append w t r =
    let n : length (w ++ t) - length w ≡ length t = omega (arith, length-append w t) in
    rw (le→leb (length w) (length (w ++ t)) (omega (arith, length-append w t)), n) refl

store_topic_len-middle :
    (w t r : List ℕ)
    → length t < 65536
    → store_topic_len (length w) (length t) (at ((w ++ (0 ∷ 0 ∷ [])) ++ t) r)
      ≡ (ok tt, at (w ++ mqtt_bytes t) r)
unfolding store_topic_len
store_topic_len-middle w t r small =
    rw (le→ltb 65535 (length t) (omega arith), append_assoc w (0 ∷ 0 ∷ []) t)
      (copy_at-middle w (0 ∷ 0 ∷ []) t r (be_bytes (length t)) refl)

module _ (topic : Fill (Unit {0})) (t : List ℕ) (h : Adds topic t) (small : length t < 65536) where
  write_topic-Adds : Adds (write_topic topic) (mqtt_bytes t)
  unfolding write_topic
  write_topic-Adds w r room =
      let zeros : List ℕ = 0 ∷ 0 ∷ [] in
      let two : 2 + length t ≡ suc (suc (length t)) = omega arith in
      bind_ok (add_slice zeros) _ (Adds-add_slice zeros w r (omega arith))
      ∙ bind_ok topic _ (h (w ++ zeros) (drop 2 r) (omega (arith, length-drop 2 r)))
      ∙ bind_ok (len_since (length (w ++ zeros))) (store_topic_len (length w))
          (len_since-append (w ++ zeros) t (drop (length t) (drop 2 r)))
      ∙ store_topic_len-middle w t (drop (length t) (drop 2 r)) small
      ∙ ap (λ d. (ok tt, at (w ++ mqtt_bytes t) d)) (drop-drop 2 (length t) r ∙ rw two refl)

pub remaining_len_bytes-eq :
    (n : ℕ) → n ≤ max_remaining_len → remaining_len_bytes n ≡ ok (length_bytes n)
unfolding remaining_len_bytes WriteCursor.finish
remaining_len_bytes-eq n h =
    let written =
      (Emits-write_remaining_length n h).fits [] (0 ∷ 0 ∷ 0 ∷ 0 ∷ [])
        (omega (arith, length-length_bytes n)) in
    rw written (
      slice_to-append (length_bytes n) (drop (length (length_bytes n)) (0 ∷ 0 ∷ 0 ∷ 0 ∷ []))
        (length (length_bytes n)) refl)

pub fixed_header-eq :
    (byte1 : ℕ) (rl header : List ℕ)
    → length header ≡ 5
    → 1 ≤ length rl
    → length rl ≤ 4
    → fixed_header byte1 rl header ≡ ok (4 - length rl, take (4 - length rl) header ++ (byte1 ∷ rl))
unfolding fixed_header
fixed_header-eq byte1 (x ∷ []) (a ∷ b ∷ c ∷ d ∷ e ∷ []) h lo hi = refl
fixed_header-eq byte1 (x ∷ y ∷ []) (a ∷ b ∷ c ∷ d ∷ e ∷ []) h lo hi = refl
fixed_header-eq byte1 (x ∷ y ∷ z ∷ []) (a ∷ b ∷ c ∷ d ∷ e ∷ []) h lo hi = refl
fixed_header-eq byte1 (x ∷ y ∷ z ∷ u ∷ []) (a ∷ b ∷ c ∷ d ∷ e ∷ []) h lo hi = refl
fixed_header-eq byte1 rl header h lo hi = absurd (omega arith)

-- The flags and the identifier of a publish, which the functions give its topic and its payload.
abbrev pub out : Publish → OutPublish
out p = record { dup = p.dup; quality = p.quality; retain = p.retain; pkid = p.pkid }

module _ (p : Publish) (w : IsWritable p) (topic payload : Fill (Unit {0}))
    (ht : Adds topic p.topic) (hp : Adds payload p.payload) where
  write_pkid-Adds : Adds (write_pkid (out p)) (pkid_bytes p)
  unfolding write_pkid
  write_pkid-Adds = elim (Bool-cases (has_pkid p.quality)) [
    | inl some_qos ↦
        let ne : (p.pkid == 0) ≡ false = rw some_qos at w.pkid_of_qos in
        rw (some_qos, ne) (Adds-add_slice (be_bytes p.pkid))
    | inr no_qos ↦ rw no_qos Adds-pure
  ]

  variable_part :
      AddsTo (write_var_header_and_payload (out p) topic payload) (body p) (length {A = ℕ})
  unfolding write_var_header_and_payload
  variable_part =
      subst
        (λ l.
          AddsTo (write_var_header_and_payload (out p) topic payload)
            (mqtt_bytes p.topic ++ (pkid_bytes p ++ l)) (length {A = ℕ}))
        (append-nil p.payload)
        (Adds-then length (write_topic topic) _ (mqtt_bytes p.topic)
          (pkid_bytes p ++ (p.payload ++ [])) (write_topic-Adds topic p.topic ht w.topic_fits)
          (Adds-then length (write_pkid (out p)) _ (pkid_bytes p) (p.payload ++ []) write_pkid-Adds
            (Adds-then length payload get_len p.payload [] hp AddsTo-get_len)))

  finish-eq :
      (header rest : List ℕ)
      → length header ≡ 5
      → finish (out p) (length (body p)) (header, body p ++ rest) ≡ (
        ok (encoding p),
        (
          take (4 - length (length_bytes (length (body p)))) header
              ++ (first_byte p.dup p.quality p.retain ∷ length_bytes (length (body p))),
          body p ++ rest,
        ),
      )
  unfolding finish
  finish-eq header rest h =
      let rl = length_bytes (length (body p)) in
      let size = length-length_bytes (length (body p)) in
      let pre = take (4 - length rl) header in
      let start : 4 - length rl ≡ length pre = omega (arith, length-take (4 - length rl) header) in
      let byte1 = first_byte p.dup p.quality p.retain in
      let whole : (pre ++ (byte1 ∷ rl)) ++ (body p ++ rest) ≡ pre ++ (encoding p ++ rest) =
        append_assoc pre (byte1 ∷ rl) (body p ++ rest)
        ∙ ap (λ l. pre ++ (byte1 ∷ l)) (sym (append_assoc rl (body p) rest)) in
      let cut =
        slice_range-middle pre (encoding p) rest (4 - length rl)
          (1 + (4 - length rl) + length rl + length (body p)) start
          (omega (arith, start, length-append rl (body p))) in
      rw
        (
          remaining_len_bytes-eq (length (body p)) (omega (arith, length-body p w, w.len_fits)),
          fixed_header-eq byte1 rl header h size.0 size.1,
        )
        (ap (λ o. (o, (pre ++ (byte1 ∷ rl), body p ++ rest)))
          (ap (slice_range (4 - length rl) (1 + (4 - length rl) + length rl + length (body p)))
              whole
            ∙ cut))

  pub out-encoding :
      (output : List ℕ)
      → 5 + length (body p) ≤ length output
      → (write (out p) topic payload output).0 ≡ ok (encoding p)
  unfolding write
  out-encoding output room =
      let filled = variable_part [] (drop 5 output) (omega (arith, length-drop 5 output)) in
      let done =
        finish-eq (take 5 output) (drop (length (body p)) (drop 5 output))
          (omega (arith, length-take 5 output)) in
      rw (le→leb 5 (length output) (omega arith), filled, done) refl

  -- Writing a publish in place stores the same packet as `Publish::write`: for a publish that can
  -- be written, functions that write its topic and its payload, an output buffer with five bytes
  -- more than the body and a buffer that has room for the encoding, the slice that
  -- `OutPublish::write` returns is what `Publish::write` stores.
  pub write_in_place :
      (output buffer : List ℕ)
      → 5 + length (body p) ≤ length output
      → length (encoding p) ≤ length buffer
      → (n : ℕ) × ((Publish.write p buffer).0 ≡ ok n)
        × ((write (out p) topic payload output).0 ≡ ok (take n (Publish.write p buffer).1))
  write_in_place output buffer room fits =
      let stored = Wrote-fits (encoding p) buffer _ (write-encoding p buffer w) fits in
      (
        length (encoding p),
        rw stored refl,
        rw (stored, take-append (encoding p) (drop (length (encoding p)) buffer))
            (out-encoding output room),
      )
