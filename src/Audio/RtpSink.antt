-- ===== src/Audio/RtpSink.antt =====
-- src/audio/RtpSink.{hpp,cpp}: the store for the RTP packets of one media socket. A packet is its
-- UDP payload; clocks count milliseconds.
use callx.Network.Payload.{Payload}
use callx.Prelude.{
  Option, none, some, ℕ, ◌+◌, ◌-◌, ◌/◌, Bool, true, false, List, [], ◌∷◌, ◌++◌, if◌then◌else◌, ltb,
}

pub data RtpSinkStatus : Type 0 where
  init confirmed confirmed_init terminated : RtpSinkStatus

pub record RtpSink : Type 0 where
  pub is_caller_sink : Bool
  pub active : Bool
  pub activity_ts : ℕ
  pub status : RtpSinkStatus
  pub packets : Option (List Payload)
  pub packet_count : ℕ
  pub packet_count_old : ℕ

-- The constructor, at the time `now`.
unfoldable pub new_sink : ℕ → Bool → RtpSink
new_sink now is_caller_sink = record {
  is_caller_sink = is_caller_sink;
  active = true;
  activity_ts = now;
  status = RtpSinkStatus.init;
  packets = some [];
  packet_count = 0;
  packet_count_old = 0;
}

-- `rollIn`, with the packets that go back to the `TlayerPacketQueue`; `none` where an active sink
-- no longer owns a deque, a null dereference in the source.
unfoldable pub roll_in : Payload → RtpSink → Option (RtpSink × List Payload)
roll_in packet s =
    if s.active
    then elim s.packets [
      | none ↦ none
      | some ps ↦
          some
            (record s { packets = some (ps ++ packet ∷ []); packet_count = s.packet_count + 1 }, [])
    ]
    else some (record s { packet_count = s.packet_count + 1 }, packet ∷ [])

-- `inactiveFor` at the time `now`: seconds without a packet. The count goes back to the old one.
unfoldable pub inactive_for : ℕ → RtpSink → RtpSink × ℕ
inactive_for now s =
    if ltb s.packet_count_old s.packet_count
    then (record s { packet_count = s.packet_count_old; activity_ts = now }, 0)
    else (s, (now - s.activity_ts) / 1000)

unfoldable pub deactivate : RtpSink → RtpSink
deactivate s = record s { active = false }

unfoldable pub set_status : RtpSinkStatus → RtpSink → RtpSink
set_status status s = record s { status = status }

-- `getTlayerDeque`: the deque changes hands, and the sink is left without one.
unfoldable pub take_packets : RtpSink → RtpSink × Option (List Payload)
take_packets s = (record s { packets = none }, s.packets)
