-- ===== src/PacketView/Header/Framing.antt =====
-- packetview/: the cursor of `read_exact` at the start of the body of a packet.
use umqtt.Base.{ap, ◌∙◌, ℕ, suc, ◌+◌, ◌≡◌, arith, List, length, length-append, drop-append}
use umqtt.Base.Outcome.{bind_ok, ok, run_on, ◌>>◌}
use umqtt.PacketView.Cursor.{Read, advance}
use umqtt.PacketView.Header.Encoding.{length_bytes}
use umqtt.PacketView.Header.RoundTrip.{frame, header_of}

pub advance-frame :
    (byte1 : ℕ) (body : List ℕ)
    → advance (header_of byte1 body).fixed_header_len (frame byte1 body) ≡ (ok tt, body)
unfolding advance
advance-frame byte1 body =
    let bytes = length_bytes (length body) in
    let one : length bytes + 1 ≡ suc (length bytes) = omega arith in
    rw one (ground (arith, length-append bytes body, drop-append bytes body))

-- What the body is read as is what the packet is read as.
pub read-frame :
    {A : Type 0} {a : A} {rest : List ℕ} (m : Read A) (byte1 : ℕ) (body : List ℕ)
    → m body ≡ (ok a, rest)
    → run_on (frame byte1 body) (advance (header_of byte1 body).fixed_header_len >> m) ≡ ok a
read-frame m byte1 body e =
    ap (λ r. r.0) (bind_ok (advance _) (λ _. m) (advance-frame byte1 body) ∙ e)
