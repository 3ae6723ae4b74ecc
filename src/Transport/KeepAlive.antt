-- ===== src/Transport/KeepAlive.antt =====
-- transport_client.rs: when the next ping is due.
use umqtt.Base.{◌+◌, ◌-◌, ◌*◌, ◌≤◌, ◌<◌, ◌≡◌, arith, ◌==◌, if◌then◌else◌, none, some}
use umqtt.Time
use umqtt.Time.{Duration, Instant, u64_max, from_millis}
use umqtt.PacketView.Connect.{ConnectOptions}
use umqtt.Transport.{TransportClient, on_transport_opened, on_packet_sent, next_ping_in}

-- After a packet was sent at `now` on a connection with a keep-alive of `o.keep_alive` seconds, a
-- 16-bit number, the next ping is due in the time that is left at `later` until the keep-alive has
-- passed since `now`, in no time if it has passed, and never where the keep-alive is 0; as long as
-- that moment is in the range of the 64-bit clock.
pub next_ping_in-on_packet_sent :
    (o : ConnectOptions) (c : TransportClient) (now later : Instant)
    → o.keep_alive < 65536
    → now.milliseconds + 1000 * o.keep_alive ≤ u64_max
    → next_ping_in later (on_packet_sent now (on_transport_opened o c)) ≡ (
        if o.keep_alive == 0
        then none
        else some (from_millis (now.milliseconds + 1000 * o.keep_alive - later.milliseconds)))
unfolding next_ping_in on_packet_sent on_transport_opened Time.add Time.since
next_ping_in-on_packet_sent o c now later hk hn = ground arith
