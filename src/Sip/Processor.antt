-- ===== src/Sip/Processor.antt =====
-- The loop of `SipProcessor::worker` in src/sip/SipProcessor.cpp: one round for each packet of the
-- `SipPacketQueue`. The call's lock is held through a round, so a round is one step.
use callx.Container.FriendlyMap.{FriendlyMap}
use callx.Container.FriendlyMap
use callx.Container.Map.{values, count}
use callx.Prelude.{
  ℕ, ◌+◌, Bool, false, List, [], ◌∷◌, Option, none, some, suc, if◌then◌else◌, Key, string_key,
  update, ◌▷◌, not, String, ◌&&◌, ◌||◌, ltb, length,
}
use callx.Sip.Requests.{handle_initial_request, handle_request_within_transaction}
use callx.Sip.Responses.{handle_response}
use callx.Sip.Sinks.{unregister_rtp_sinks}
use callx.Sip.Types.{SipPacket, MessageType, RequestMethod, TransactionId, is_method}
use callx.Sip.World.{
  World, Clocks, Call, new_call, update_activity_ts, update_activity_clockstamp, find_transaction,
}

-- A packet as the queue hands it over: when, and what `parse` made of it.
pub record Arrival (A : Type 0) : Type 0 where
  pub at : Clocks
  pub parsed : Option (SipPacket A)

module _ {A : Type 0} where
  -- `callerHasIncident`
  unfoldable pub caller_has_incident : String → World A → Bool
  caller_has_incident caller w = elim (FriendlyMap.find caller w.incident_map) [
    | none ↦ false
    | some incidents ↦ ltb 0 (length incidents)
  ]

  -- Whether somebody but the processor holds the call.
  unfoldable pub is_held : ℕ → World A → Bool
  is_held c w = ltb 0 (count c (values w.call_map.entries) + count c w.decode_queue)

  abbrev pub is_initial : SipPacket A → MessageType → Bool
  is_initial p MessageType.request =
      is_method p.request_method RequestMethod.invite
      || is_method p.request_method RequestMethod.options
  is_initial p _ = false

  -- The id under which a packet's transaction is looked up, with the CSeq method or as an INVITE.
  abbrev pub packet_id : SipPacket A → RequestMethod → TransactionId
  packet_id p m = record { branch = p.branch; method = m }

  unfoldable pub match_transaction : SipPacket A → Call A → Option ℕ
  match_transaction p x = elim (find_transaction (packet_id p p.cseq_method) x) [
    | some t ↦ some t
    | none ↦
        if is_method p.cseq_method RequestMethod.ack
        then find_transaction (packet_id p RequestMethod.invite) x
        else none
  ]

  -- A new `Call` in the `CallMap`, and its reference.
  unfoldable pub create_call : SipPacket A → World A → World A
  create_call p w =
      let c = w.next_call in
      let x = new_call w.now p.call_id in
      let quiet = w.record_if_incident_only && not (caller_has_incident p.from.address w) in
      record w {
        calls = update w.calls c (if quiet then record x { sinks_activated = false } else x);
        next_call = suc c;
        call_map = FriendlyMap.insert p.call_id c w.call_map;
        curr_call = some c;
      }

module _ {A : Type 0} ⦃k : Key A⦄ where
  -- `m_currCall.reset()`, and `Call::~Call` where that was the last reference.
  -- The lock of the call is given up after it, in the source: where the call goes with its last reference,
  -- its mutex is destroyed while it is locked, which is not modelled.
  unfoldable pub reset_call : World A → World A
  reset_call w = elim w.curr_call [
    | none ↦ w
    | some c ↦
        let w' = record w { curr_call = none } in
        if is_held c w' then w' else unregister_rtp_sinks c w'
  ]

  -- The dispatch on the message type, with and without a matching transaction.
  unfoldable pub dispatch_matched : MessageType → ℕ → ℕ → SipPacket A → World A → World A
  dispatch_matched MessageType.request c t p w = handle_request_within_transaction c t p w
  dispatch_matched MessageType.response c t p w = handle_response c t p w
  dispatch_matched MessageType.malformed c t p w = w

  unfoldable pub dispatch_unmatched : MessageType → ℕ → SipPacket A → World A → World A
  dispatch_unmatched MessageType.request c p w = handle_initial_request c p w
  dispatch_unmatched MessageType.response c p w = w
  dispatch_unmatched MessageType.malformed c p w = w

  -- The transaction handling of a round, in the call `c`.
  unfoldable pub handle_in_call : ℕ → SipPacket A → World A → World A
  unfolding dispatch_matched dispatch_unmatched
  handle_in_call c p w = elim (match_transaction p (w.calls c)) [
    | some t ↦ w ▷ update_activity_clockstamp t ▷ dispatch_matched p.message_type c t p
    | none ↦ dispatch_unmatched p.message_type c p w
  ]

  -- The call handling of a round.
  unfoldable pub handle_packet : SipPacket A → World A → World A
  handle_packet p w = elim (FriendlyMap.find p.call_id w.call_map) [
    | some c ↦ (record w { curr_call = some c }) ▷ update_activity_ts c ▷ handle_in_call c p
    | none ↦
        if is_initial p p.message_type then w ▷ create_call p ▷ handle_in_call w.next_call p else w
  ]

  abbrev pub handle_parsed : Option (SipPacket A) → World A → World A
  handle_parsed none w = w
  handle_parsed (some p) w = handle_packet p w

  -- One round of `worker`.
  unfoldable pub round : Arrival A → World A → World A
  round a w = (record w { now = a.at }) ▷ reset_call ▷ handle_parsed a.parsed

  unfoldable pub run : List (Arrival A) → World A → World A
  run [] w = w
  run (a ∷ rest) w = run rest (round a w)
