-- ===== src/Examples/Dialog.antt =====
-- The theorems on src/sip and src/watchdog at concrete inputs.
use callx.Container.FriendlyMap.{FriendlyMap}
use callx.Container.FriendlyMap
use callx.Container.Map
use callx.Container.Map.{Map, values, count}
use callx.Examples.Data.{
  nat_key, noon, arrived, request, response, invite_packet, empty_world, in_call, with_transaction,
}
use callx.Network.SocketAddress.{socket_key}
use callx.Prelude.{
  List, ℕ, ◌≡◌, ◌⊎◌, refl, ap, List, [], ◌∷◌, true, false, some, none, arith, string_key, String,
  subst, Option,
}
use callx.Sip.Custody.{custody}
use callx.Sip.Diagram.{Edge, handle_in_call-Edge}
use callx.Sip.Dialogs.{phase}
use callx.Sip.Ownership.{Owned}
use callx.Sip.Processor.{Arrival, run, handle_in_call}
use callx.Sip.Registration.{
  status_of, confirmed_next, annulled_next, status-confirm_rtp_sinks, status-annul_rtp_sinks,
}
use callx.Sip.Requests.{handle_invite}
use callx.Sip.Responded.{HandedOver, handle_response_final, handle_response_bye}
use callx.Sip.Responses.{handle_response}
use callx.Sip.Sinks.{confirm_rtp_sinks, annul_rtp_sinks}
use callx.Sip.Types.{RequestMethod, SipPacket, DialogState, TransactionPhase, response_category}
use callx.System.Steps.{Step, step}
use callx.System.Interleaving.{Sound}
use callx.System.Interrupted.{Event, packet, snapshot, visit_next, write}
use callx.System.Expired.{step-timeouts_old}
use callx.System.Wedge.{refused_reinvite_blocks}
use callx.System.Kept.{IsQuiet, QuietFor}
use callx.Watchdog.Expiry.{Consistent}
use callx.Watchdog.Timeouts.{Limits}

empty_Owned : Owned (custody empty_world)
empty_Owned = record { once = λ c. omega arith; fresh = λ c l. refl }

abbrev the_first : ℕ
the_first = 0

handle_in_call-Edge_example :
    (phase (handle_in_call 0 invite_packet (in_call DialogState.undefined false)) 0
      ≡ phase (in_call DialogState.undefined false) 0)
    ⊎ ((the_first ≡ the_first)
        × Edge invite_packet
            (phase (in_call DialogState.undefined false) 0)
            (phase (handle_in_call 0 invite_packet (in_call DialogState.undefined false)) 0))
handle_in_call-Edge_example =
    handle_in_call-Edge 0 0 invite_packet (in_call DialogState.undefined false)

-- The refusal of a re-INVITE, its ACK, and a second re-INVITE.
abbrev refusal : List (Arrival ℕ)
refusal =
    arrived (response 488 RequestMethod.invite "i2")
    ∷ arrived (request RequestMethod.ack "i2")
    ∷ arrived (request RequestMethod.invite "i3")
    ∷ []

IsQuiet-response : IsQuiet (response 488 RequestMethod.invite "i2")
unfolding response_category
IsQuiet-response = record { no_provisional = λ e. ground arith; no_success = λ e. ground arith }

IsQuiet-request : (m : RequestMethod) (b : String) → IsQuiet (request m b)
IsQuiet-request m b = record { no_provisional = λ e. cc; no_success = λ e. cc }

abbrev packet_or : SipPacket ℕ → Option (SipPacket ℕ) → SipPacket ℕ
packet_or q none = q
packet_or q (some p) = p

arrived_quiet : (q : SipPacket ℕ) → IsQuiet q → QuietFor "call" (arrived q)
arrived_quiet q h p e i = subst IsQuiet (ap (packet_or q) e) h

refused_reinvite_blocks_example :
    let w = in_call DialogState.init true in
    (phase (run refusal w) 0 ≡ phase w 0)
    × ((t : ℕ) (p : SipPacket ℕ) → handle_invite 0 t p (run refusal w) ≡ run refusal w)
unfolding FriendlyMap.find Map.find
refused_reinvite_blocks_example =
    refused_reinvite_blocks refusal (in_call DialogState.init true) 0
      (((refl, refl), omega arith), tt)
      (
        arrived_quiet _ IsQuiet-response,
        (
          arrived_quiet _ (IsQuiet-request RequestMethod.ack "i2"),
          (arrived_quiet _ (IsQuiet-request RequestMethod.invite "i3"), tt),
        ),
      )
      refl (omega arith)

handle_response_final_example :
    let w = with_transaction RequestMethod.invite TransactionPhase.proceeding in
    let p = response 486 RequestMethod.invite "i1" in
    let q = response 200 RequestMethod.invite "i1" in
    handle_response 0 0 q (handle_response 0 0 p w) ≡ handle_response 0 0 p w
unfolding response_category
handle_response_final_example =
    handle_response_final 0 0 (response 486 RequestMethod.invite "i1")
      (response 200 RequestMethod.invite "i1")
      (with_transaction RequestMethod.invite TransactionPhase.proceeding) refl (ground arith)

handle_response_bye_example :
    let w = with_transaction RequestMethod.bye TransactionPhase.trying in
    let p = response 200 RequestMethod.bye "i1" in HandedOver 0 p w (handle_response 0 0 p w)
unfolding response_category
handle_response_bye_example =
    handle_response_bye 0 0 (response 200 RequestMethod.bye "i1")
      (with_transaction RequestMethod.bye TransactionPhase.trying) refl (ground arith) refl

status-confirm_rtp_sinks_example :
    let w = in_call DialogState.confirmed false in
    status_of (confirm_rtp_sinks 0 w) 0 ≡ confirmed_next (status_of w 0)
status-confirm_rtp_sinks_example =
    status-confirm_rtp_sinks 0 (in_call DialogState.confirmed false) 0 (omega arith)

status-annul_rtp_sinks_example :
    let w = in_call DialogState.confirmed false in
    status_of (annul_rtp_sinks 0 w) 0 ≡ annulled_next (status_of w 0)
status-annul_rtp_sinks_example =
    status-annul_rtp_sinks 0 (in_call DialogState.confirmed false) 0 (omega arith)

abbrev limits : Limits
limits = record { max_call_recording_time = 3600; max_call_rtp_inactivity = 0; max_call_age = 0 }

call_Consistent : let w = in_call DialogState.confirmed false in Consistent w w.call_map.entries
unfolding FriendlyMap.find Map.find
call_Consistent = ((refl, refl), tt)

call_Owned : Owned (custody (in_call DialogState.confirmed false))
call_Owned = record { once = λ c. ground arith; fresh = λ c l. ground arith }

empty_Sound : Sound empty_world
empty_Sound = record { owned = empty_Owned; listed = tt }

call_Sound : Sound (in_call DialogState.confirmed false)
unfolding FriendlyMap.find Map.find
call_Sound = record { owned = call_Owned; listed = (((refl, refl), omega arith), tt) }

-- A BYE, its response and an INVITE with the same id, between the visit of the call and the commit.
abbrev pub same_id_again : List (Event ℕ)
same_id_again =
    snapshot limits
    ∷ visit_next noon
    ∷ packet (arrived (request RequestMethod.bye "b1"))
    ∷ packet (arrived (response 200 RequestMethod.bye "b1"))
    ∷ packet (arrived invite_packet)
    ∷ write
    ∷ []

step-timeouts_old_example :
    let w' = step (Step.timeouts noon limits) (in_call DialogState.confirmed false) in
    (FriendlyMap.find "call" w'.call_map ≡ none) × (count 0 w'.decode_queue ≡ 1)
unfolding FriendlyMap.find Map.find
step-timeouts_old_example =
    step-timeouts_old noon limits (in_call DialogState.confirmed false) "call" 0 call_Sound refl
      (omega arith)
