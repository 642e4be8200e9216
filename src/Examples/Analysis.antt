-- ===== src/Examples/Analysis.antt =====
-- The theorems on src/sba, src/audio and the queue at concrete inputs.
use callx.Container.Queue.{Queue}
use callx.Container.Map
use callx.Examples.Data.{nat_key, alice, media, in_call}
use callx.Network.Frame.{TlayerPacket, parse_transportlayer}
use callx.Network.Payload.{Payload}
use callx.Network.SocketAddress.{socket_key}
use callx.Network.SipIdent.{sip_ident_len}
use callx.Network.Sorting.{is_rtp, udp_round-sip_iff}
use callx.Network.UdpHandler.{Route, sorted, udp_round}
use callx.Prelude.{
  ◌↔◌, ◌<◌, ◌≤◌, ◌+◌, is_some, All, ℕ, ◌+◌, ◌*◌, ◌/◌, ◌≤◌, ◌≡◌, refl, [], ◌∷◌, true, false, some,
  arith, string_key, length, if◌then◌else◌, same, ◌==◌,
}
use callx.Sba.Analysis.{SbaConfig, Rounding}
use callx.Sba.Bounds.{concurrent_from_bounds}
use callx.Sba.Counts.{concurrent_from, concurrent_start}
use callx.Sba.Division.{AgreeOffZero, verdicts_no_division_by_zero}
use callx.Sba.Incidents.{verdicts}
use callx.Sba.Types.{EventKind, SbaEvent, IncidentMap, SbaIncident, IncidentType}
use callx.Sba.Worst.{worst_from, worst_from_worst, any_of, AtLeast, type_key}
use callx.Sip.Types.{DialogState}

abbrev tried : SbaEvent
tried = record {
  timestamp = 1000;
  call_id = "call";
  caller = alice;
  initiator = alice;
  final_code = 200;
  final_reason = "OK";
  kind = EventKind.invite false false true;
}

abbrev config : SbaConfig
config = record {
  call_attempts_period = 60;
  call_attempts_max = 0;
  calls_concurrent_period = 60;
  calls_concurrent_max = 0;
  call_completion_period = 60;
  call_completion_min = 50;
  call_completion_attempts_min = 1;
  call_duration_average_period = 60;
  call_duration_average_min = 10;
  call_duration_average_min_completed = 1;
  call_duration_cumulative_period = 60;
  call_duration_cumulative_max = 10;
  calls_closed_by_callee_period = 60;
  calls_closed_by_callee_max = 50;
  calls_closed_by_callee_min_completed = 1;
}

abbrev exact : Rounding
exact = record {
  percent = λ a b. (200 * a + b) / (2 * b);
  seconds = λ a b. (2 * a + 1000 * b) / (2000 * b);
}

abbrev no_incidents : IncidentMap
no_incidents = record { entries = []; size_max = 0 }

concurrent_from_bounds_example :
    let s = concurrent_from 9000 60 (tried ∷ []) concurrent_start in
    (length s.ids ≤ s.call_counter)
    × (s.call_counter ≤ s.calls_concurrent)
    × (s.calls_concurrent ≤ length (tried ∷ []))
concurrent_from_bounds_example = concurrent_from_bounds 9000 60 (tried ∷ [])

-- The same, with 1 for a ratio over nothing.
abbrev lenient : Rounding
lenient = record {
  percent = λ a b. if b == 0 then 1 else exact.percent a b;
  seconds = λ a b. if b == 0 then 1 else exact.seconds a b;
}

exact-lenient : AgreeOffZero exact lenient
exact-lenient = record { percent = λ a b h. ground arith; seconds = λ a b h. ground arith }

verdicts_no_division_by_zero_example :
    verdicts config exact 9000 "alice" (tried ∷ [])
    ≡ verdicts config lenient 9000 "alice" (tried ∷ [])
verdicts_no_division_by_zero_example =
    verdicts_no_division_by_zero config exact lenient 9000 "alice" (tried ∷ []) exact-lenient
      (omega arith) (omega arith)

abbrev payload : Payload
payload = record { byte = λ i. 0x80; size = 12 }

abbrev held : Queue ℕ
held = record { items = 1 ∷ []; activated = true; size_max = 1 }

-- A UDP packet of version 2 for the socket `media`, and one with "SI" in front.
abbrev rtp_frame : TlayerPacket ℕ
rtp_frame = record {
  buffer = λ i. 0;
  caplen = 60;
  ip_payload = record { byte = λ i. 0x80; size = 20 };
  udp_payload = payload;
  src = media;
  dst = media;
}

abbrev sip_frame : TlayerPacket ℕ
sip_frame = record rtp_frame {
  udp_payload = record { byte = λ i. if i == 0 then b'S' else b'I'; size = 400 };
}

udp_round-sip_iff_example :
    let w = in_call DialogState.confirmed false in
    (udp_round 300 rtp_frame w ≡ sorted Route.sip w) ↔ (
      (q : TlayerPacket ℕ) × (parse_transportlayer rtp_frame ≡ some q)
      × (is_rtp q w ≡ false)
      × (300 ≤ q.udp_payload.size)
      × ((j : ℕ) × (j + sip_ident_len < 300)
          × (q.udp_payload.byte j ≡ b'S')
          × (q.udp_payload.byte (j + 1) ≡ b'I')))
udp_round-sip_iff_example =
    udp_round-sip_iff 300 rtp_frame (in_call DialogState.confirmed false) (omega arith)
      (omega arith)

abbrev attempts_5 : SbaIncident
attempts_5 = record {
  timestamp = 9000;
  kind = IncidentType.call_attempts;
  user = "alice";
  period = 60;
  value = 5;
  higher_value_is_evil = true;
}

abbrev attempts_7 : SbaIncident
attempts_7 = record attempts_5 { value = 7 }

worst_from_worst_example :
    let xs = attempts_5 ∷ attempts_7 ∷ [] in
    let t = IncidentType.call_attempts in
    (is_some (Map.find t (worst_from xs [])) ≡ any_of t xs)
    × ((z : SbaIncident)
        → Map.find t (worst_from xs []) ≡ some z
        → All (λ x. same x.kind t ≡ true → AtLeast true z x) xs)
worst_from_worst_example =
    worst_from_worst IncidentType.call_attempts true (attempts_5 ∷ attempts_7 ∷ [])
      (λ e. refl, (λ e. refl, tt))
