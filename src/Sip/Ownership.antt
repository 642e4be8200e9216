-- ===== src/Sip/Ownership.antt =====
-- The owners of the calls of src/sip/SipProcessor.cpp: the `CallMap` and the `CallDecodeQueue`.
use callx.Container.FriendlyMap.{FriendlyMap}
use callx.Container.FriendlyMap
use callx.Container.Map.{
  values, count, count-insert-le, count-erase-le, count-erase-found, count-append, find-insert,
}
use callx.Prelude.{
  ℕ, ◌+◌, ◌≤◌, ◌≡◌, refl, sym, List, [], ◌∷◌, Option, none, some, Key, String, string_key, arith,
  Option-cases, Bool-cases, inl, inr, same_refl, subst,
}
use callx.Sip.Custody.{Custody, custody, custody-unregister_rtp_sinks}
use callx.Sip.Moves.{
  Moved, taken_out, moved_on, custody-handle_initial_request, Moved-handle_ack_on_non_success,
  Moved-dispatch_response,
}
use callx.Sip.Processor.{
  Arrival, create_call, reset_call, dispatch_matched, dispatch_unmatched, handle_in_call,
  handle_packet, handle_parsed, is_initial, round, run, match_transaction,
}
use callx.Sip.Requests.{handle_request_within_transaction}
use callx.Sip.Responses.{handle_response}
use callx.Sip.Types.{SipPacket, MessageType}
use callx.Sip.World.{World, update_activity_ts, update_activity_clockstamp}

-- How often a call is held.
abbrev pub holders : Custody → ℕ → ℕ
holders v c = count c (values v.call_map.entries) + count c v.decode_queue

-- Each call is held at most once, and a reference that is not given out yet not at all.
pub record Owned (v : Custody) : Type 0 where
  pub once : (c : ℕ) → holders v c ≤ 1
  pub fresh : (c : ℕ) → v.next_call ≤ c → holders v c ≡ 0

holders-taken_out : (i : String) (v : Custody) (c : ℕ) → holders (taken_out i v) c ≤ holders v c
unfolding FriendlyMap.erase
holders-taken_out i v c = omega (arith, count-erase-le c i v.call_map.entries)

holders-moved_on :
    (c : ℕ) (i : String) (v : Custody) (d : ℕ)
    → FriendlyMap.find i v.call_map ≡ some c
    → holders (moved_on c i v) d ≤ holders v d
unfolding FriendlyMap.erase FriendlyMap.find
holders-moved_on c i v d h = ground (
  arith,
  count-append d v.decode_queue (c ∷ []),
  count-erase-le d i v.call_map.entries,
  count-erase-found c i v.call_map.entries h,
)

Owned-fewer :
    (v w : Custody)
    → w.next_call ≡ v.next_call
    → ((c : ℕ) → holders w c ≤ holders v c)
    → Owned v
    → Owned w
Owned-fewer v w e h o = record {
  once = λ c. omega (arith, h c, o.once c);
  fresh = λ c l. omega (arith, h c, o.fresh c (rw (← e) l));
}

pub Moved-Owned :
    (c : ℕ) (i : String) (v w : Custody)
    → FriendlyMap.find i v.call_map ≡ some c
    → Moved c i v w
    → Owned v
    → Owned w
Moved-Owned c i v w h (inl e) o = subst Owned (sym e) o
Moved-Owned c i v w h (inr (inl e)) o =
    subst Owned (sym e) (Owned-fewer v (taken_out i v) refl (holders-taken_out i v) o)
Moved-Owned c i v w h (inr (inr e)) o =
    subst Owned (sym e) (Owned-fewer v (moved_on c i v) refl (λ d. holders-moved_on c i v d h) o)

module _ {A : Type 0} ⦃k : Key A⦄ where
  Moved-dispatch_matched :
      (m : MessageType) (c t : ℕ) (p : SipPacket A) (w : World A)
      → Moved c p.call_id (custody w) (custody (dispatch_matched m c t p w))
  unfolding dispatch_matched handle_request_within_transaction handle_response
  Moved-dispatch_matched MessageType.request c t p w =
      ground (arith, Moved-handle_ack_on_non_success c t p w)
  Moved-dispatch_matched MessageType.response c t p w = Moved-dispatch_response _ _ c t p w
  Moved-dispatch_matched MessageType.malformed c t p w = inl refl

  custody-dispatch_unmatched :
      (m : MessageType) (c : ℕ) (p : SipPacket A) (w : World A)
      → custody (dispatch_unmatched m c p w) ≡ custody w
  unfolding dispatch_unmatched
  custody-dispatch_unmatched MessageType.request c p w = custody-handle_initial_request c p w
  custody-dispatch_unmatched MessageType.response c p w = refl
  custody-dispatch_unmatched MessageType.malformed c p w = refl

  pub Moved-handle_in_call :
      (c : ℕ) (p : SipPacket A) (w : World A)
      → Moved c p.call_id (custody w) (custody (handle_in_call c p w))
  unfolding handle_in_call update_activity_clockstamp
  Moved-handle_in_call c p w = elim (Option-cases (match_transaction p (w.calls c))) [
    | inl e ↦ rw (e, handle_in_call) (inl (custody-dispatch_unmatched p.message_type c p w))
    | inr (t, e) ↦
        rw (e, handle_in_call)
          (Moved-dispatch_matched p.message_type c t p (update_activity_clockstamp t w))
  ]

  find-create_call :
      (p : SipPacket A) (w : World A)
      → FriendlyMap.find p.call_id w.call_map ≡ none
      → FriendlyMap.find p.call_id (create_call p w).call_map ≡ some w.next_call
  unfolding create_call FriendlyMap.find FriendlyMap.insert
  find-create_call p w h =
      ground
        (arith, find-insert p.call_id p.call_id w.next_call w.call_map.entries, same_refl p.call_id)

  Owned-create_call :
      (p : SipPacket A) (w : World A) → Owned (custody w) → Owned (custody (create_call p w))
  unfolding create_call FriendlyMap.insert
  Owned-create_call p w o = record {
    once = λ c.
        ground
          (arith, count-insert-le c p.call_id w.next_call w.call_map.entries, o.once c, o.fresh c);
    fresh = λ c l.
        ground (arith, count-insert-le c p.call_id w.next_call w.call_map.entries, o.fresh c);
  }

  -- One packet.
  Owned-handle_packet :
      (p : SipPacket A) (w : World A) → Owned (custody w) → Owned (custody (handle_packet p w))
  unfolding handle_packet update_activity_ts
  Owned-handle_packet p w o = elim (Option-cases (FriendlyMap.find p.call_id w.call_map)) [
    | inl e ↦
        rw (e, handle_packet)
          (elim (Bool-cases (is_initial p p.message_type)) [
            | inl fresh ↦ rw fresh (
                Moved-Owned w.next_call p.call_id (custody (create_call p w)) _
                  (find-create_call p w e) (Moved-handle_in_call w.next_call p (create_call p w))
                  (Owned-create_call p w o))
            | inr other ↦ rw other o
          ])
    | inr (c, e) ↦
        rw (e, handle_packet)
          (Moved-Owned c p.call_id (custody w) _ e
            (Moved-handle_in_call c p (update_activity_ts c (record w { curr_call = some c }))) o)
  ]

  pub custody-reset_call : (w : World A) → custody (reset_call w) ≡ custody w
  unfolding reset_call
  custody-reset_call w = grind (arith, custody-unregister_rtp_sinks)

  Owned-handle_parsed :
      (q : Option (SipPacket A)) (w : World A)
      → Owned (custody w)
      → Owned (custody (handle_parsed q w))
  Owned-handle_parsed none w o = o
  Owned-handle_parsed (some p) w o = Owned-handle_packet p w o

  pub Owned-round : (a : Arrival A) (w : World A) → Owned (custody w) → Owned (custody (round a w))
  unfolding round
  Owned-round a w o =
      Owned-handle_parsed a.parsed _
        (subst Owned (sym (custody-reset_call (record w { now = a.at }))) o)

  -- Where each call stands in one place at most (the `CallMap` or the `CallDecodeQueue`) and there
  -- once, and references not given out stand in neither, this is so after whatever packets arrive.
  pub run-Owned :
      (arrivals : List (Arrival A)) (w : World A)
      → Owned (custody w)
      → Owned (custody (run arrivals w))
  unfolding run
  run-Owned [] w o = o
  run-Owned (a ∷ rest) w o = run-Owned rest (round a w) (Owned-round a w o)
