-- ===== src/Audio/Inactivity.antt =====
-- The measure of inactivity in src/audio/RtpSink.cpp.
use callx.Audio.RtpSink.{RtpSink, roll_in, inactive_for}
use callx.Network.Payload.{Payload}
use callx.Prelude.{ℕ, ◌-◌, ◌/◌, ◌≤◌, ◌≡◌, List, some, arith}

-- Where the count is not below the old one, a packet makes the next question answer 0 and start a
-- new measure, whether the sink stores packets or returns them; the question after it, with no
-- packet between, answers the whole seconds since the first one. The old count stays.
pub inactive_for_restarts :
    (packet : Payload) (s s' : RtpSink) (returned : List Payload) (now later : ℕ)
    → s.packet_count_old ≤ s.packet_count
    → roll_in packet s ≡ some (s', returned)
    → ((inactive_for now s').1 ≡ 0)
      × ((inactive_for later (inactive_for now s').0).1 ≡ (later - now) / 1000)
      × ((inactive_for now s').0.packet_count_old ≡ s.packet_count_old)
unfolding roll_in inactive_for
inactive_for_restarts packet s s' r now later h e = ground arith
