-- ===== src/Examples/Interrupted.antt =====
-- A round of the watchdog in src/container/CallMap.cpp, with the SIP processor between its snapshot and its
-- commit, at a concrete input.
use callx.Sip.Processor.{
  caller_has_incident, create_call, dispatch_matched, dispatch_unmatched, handle_in_call,
  handle_packet, is_held, match_transaction, reset_call, round,
}
use callx.Sip.Requests.{
  delete_call_from_call_map, dispatch_initial, drop_refused_call, handle_ack_on_non_success,
  handle_ack_on_success, handle_bye, handle_cancel, handle_initial_request, handle_invite,
  handle_options, handle_request_within_transaction, open_dialog,
}
use callx.Sip.Responses.{
  dispatch_response, finish_transaction, handle_non_success, handle_non_success_on_invite,
  handle_provisional, handle_provisional_on_invite, handle_provisional_on_non_invite,
  handle_response, handle_response_on_bye, handle_response_on_cancel, handle_response_on_options,
  handle_success, handle_success_on_invite, learn_callee, prepare_call_to_decode,
}
use callx.Sip.Sinks.{
  add_sink, annul_each, annul_rtp_sinks, annul_sink, check_recording_time, confirm_each,
  confirm_rtp_sinks, confirm_sink, deactivate_each, least_inactivity, process_sdp,
  rtp_inactivity_time, unregister_each, unregister_rtp_sinks,
}
use callx.Sip.World.{
  del_transaction, find_invite_transaction, find_transaction, first_invite, insert_transaction,
  new_call, new_transaction, set_ack_flag, set_cancel_flag, set_dialog_state, set_final_response,
  set_flag_no_rtp, set_reinvite_flag, set_state, update_activity_clockstamp, update_activity_ts,
}
use callx.Sip.Events.{create_and_push_event, event_kind, make_event, push_event}
use callx.Watchdog.Timeouts.{commit, commit_call, expire_if, handle_call_timeouts, sweep, visit}
use callx.Audio.RtpSink.{deactivate, inactive_for, new_sink, roll_in, set_status, take_packets}
use callx.System.Interrupted.{between, happen, happen_all, visits}
use callx.Container.FriendlyMap
use callx.Container.Map
use callx.Examples.Data.{nat_key, in_call}
use callx.Examples.Dialog.{same_id_again}
use callx.Sip.Types.{DialogState, response_category, id_equal}
use callx.Prelude.{◌≡◌, refl, [], ◌∷◌, false}

-- Where the response to a BYE and an INVITE with the same id come between the visit of the old call and
-- the commit, the old call is queued twice, and the new one is in neither.
queued_twice :
    let w = (happen_all same_id_again (in_call DialogState.confirmed false) between).0 in
    (w.decode_queue ≡ 0 ∷ 0 ∷ []) × (w.call_map.entries ≡ [])
unfolding id_equal caller_has_incident is_held match_transaction create_call reset_call
    dispatch_matched dispatch_unmatched handle_in_call handle_packet round open_dialog handle_invite
    handle_bye handle_options handle_cancel delete_call_from_call_map drop_refused_call
    handle_ack_on_non_success handle_ack_on_success dispatch_initial handle_initial_request
    handle_request_within_transaction learn_callee handle_provisional_on_invite handle_provisional
    handle_provisional_on_non_invite handle_success_on_invite handle_non_success_on_invite
    prepare_call_to_decode finish_transaction handle_response_on_bye handle_response_on_options
    handle_response_on_cancel handle_success handle_non_success dispatch_response handle_response
    add_sink process_sdp confirm_sink confirm_each confirm_rtp_sinks annul_sink annul_each
    annul_rtp_sinks unregister_each unregister_rtp_sinks deactivate_each check_recording_time
    least_inactivity rtp_inactivity_time first_invite new_call new_transaction set_dialog_state
    set_reinvite_flag set_flag_no_rtp update_activity_ts update_activity_clockstamp set_state
    set_final_response set_cancel_flag set_ack_flag find_transaction find_invite_transaction
    insert_transaction del_transaction push_event event_kind make_event create_and_push_event
    expire_if visit sweep commit_call commit handle_call_timeouts new_sink roll_in inactive_for
    deactivate set_status take_packets happen happen_all visits response_category FriendlyMap.find
    FriendlyMap.insert FriendlyMap.erase FriendlyMap.empty Map.find Map.place Map.insert Map.erase
    Map.set
queued_twice = (refl, refl)
