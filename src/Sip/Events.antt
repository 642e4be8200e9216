-- ===== src/Sip/Events.antt =====
-- `createAndPushEvent` and `pushEvent` of src/sip/Transaction.hpp. The call of a transaction is
-- alive here (the processor holds it), so its `weak_ptr` locks.
use callx.Container.FriendlyMap.{FriendlyMap}
use callx.Container.FriendlyMap
use callx.Container.Map
use callx.Prelude.{ℕ, ◌-◌, [], ◌∷◌, ◌++◌, Option, none, some, String, string_key}
use callx.Sba.Types.{EventKind, SbaEvent, EventMap}
use callx.Sip.Types.{RequestMethod}
use callx.Sip.World.{World, Call, Transaction}

-- A caller's deque is made when it is first needed.
unfoldable pub push_event : String → SbaEvent → EventMap → EventMap
push_event caller e m = elim (FriendlyMap.find caller m) [
  | none ↦ FriendlyMap.insert caller (e ∷ []) m
  | some es ↦ record m { entries = Map.set caller (es ++ e ∷ []) m.entries }
]

module _ {A : Type 0} where
  -- The fields that the subclass of the method adds; `none` for a method without events.
  unfoldable pub event_kind : RequestMethod → ℕ → Call A → Transaction → Option EventKind
  event_kind RequestMethod.invite now x t =
      some (EventKind.invite x.reinvite_flag t.cancel_flag t.ack_flag)
  event_kind RequestMethod.bye now x t = some (EventKind.bye (now - x.creation_ts))
  event_kind RequestMethod.cancel now x t = some EventKind.cancel
  event_kind RequestMethod.options now x t = some EventKind.options
  event_kind _ now x t = none

  unfoldable pub make_event : ℕ → Call A → Transaction → EventKind → SbaEvent
  make_event now x t kind = record {
    timestamp = now;
    call_id = x.dialog.call_id;
    caller = x.dialog.caller;
    initiator = t.initiator;
    final_code = t.final_code;
    final_reason = t.final_reason;
    kind = kind;
  }

  unfoldable pub create_and_push_event : ℕ → World A → World A
  create_and_push_event t w =
      let tr = w.transactions t in
      let x = w.calls tr.call in
      elim (event_kind tr.id.method w.now.system x tr) [
        | none ↦ w
        | some kind ↦ record w {
          event_map =
              push_event x.dialog.caller.address (make_event w.now.system x tr kind) w.event_map;
        }
      ]
