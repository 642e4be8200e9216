-- ===== src/Console/Maps.antt =====
-- `toString` of src/container/CallMap.cpp and src/container/SbaEventMap.hpp. The text of a number, of a
-- time and of a duration are parameters. `dialogEstablished` is false from its constructor on, since
-- nothing sets it.
use callx.Container.Map.{Map}
use callx.Prelude.{
  ℕ, ◌-◌, ◌*◌, ◌/◌, ◌%◌, Bool, true, false, List, [], ◌∷◌, ◌++◌, String, Store, Bytes, codes,
  length, ◌==◌, if◌then◌else◌,
}
use callx.Sba.Types.{EventKind, invite, bye, cancel, options, SbaEvent, EventMap, IncidentMap}
use callx.Sip.World.{Call, World}

-- How the program prints: numbers, times with a line end, minutes and seconds.
pub record Printer : Type 0 where
  pub number : ℕ → Bytes
  pub ctime : ℕ → Bytes
  pub minutes : ℕ → Bytes
  pub seconds : ℕ → Bytes
  pub incidents : IncidentMap → Bytes

abbrev pub line_end : Bytes
line_end = 13 ∷ 10 ∷ []

abbrev pub tab : Bytes
tab = 9 ∷ []

-- `str.substr(0, str.size() - 1)`
abbrev pub without_last : Bytes → Bytes
without_last [] = []
without_last (c ∷ []) = []
without_last (c ∷ d ∷ s) = c ∷ without_last (d ∷ s)

-- The loop of `CallMap::toString`.
unfoldable pub calls_text : {A : Type 0} → Store (Call A) → Map String ℕ → Bytes
calls_text calls [] = []
calls_text calls ((id, c) ∷ rest) =
    line_end
    ++ codes "Call ID: "
    ++ codes (calls c).dialog.call_id
    ++ line_end
    ++ codes "From: "
    ++ codes (calls c).dialog.caller.address
    ++ line_end
    ++ codes "To: "
    ++ codes (calls c).dialog.callee.address
    ++ line_end
    ++ line_end
    ++ calls_text calls rest

-- `tellp() == 0`, and the text then.
abbrev pub or_message : Bytes → Bytes → Bytes
or_message message text = if length text == 0 then message else text

abbrev pub no_calls : Bytes
no_calls = line_end ++ codes "CallMap is empty." ++ line_end ++ line_end

unfoldable pub call_map_text : {A : Type 0} → World A → Bytes
call_map_text w = or_message no_calls (calls_text w.calls w.call_map.entries)

-- `sbaEventTypeEnumToString`
abbrev pub event_type : EventKind → Bytes
event_type (invite re_flag cancel_flag ack_flag) = codes "INVITE"
event_type (bye duration) = codes "BYE"
event_type cancel = codes "CANCEL"
event_type options = codes "OPTIONS"

-- `duration % 60` cast to minutes, and the seconds without 60 times these minutes.
unfoldable pub duration_minutes : ℕ → ℕ
duration_minutes duration = duration / 1000 % 60 / 60

unfoldable pub duration_seconds : ℕ → ℕ
duration_seconds duration = duration / 1000 - duration_minutes duration * 60 * 60

abbrev pub no_events : Bytes
no_events = line_end ++ codes "SbaEventMap is empty." ++ line_end ++ line_end

module _ (print : Printer) where
  abbrev flag : Bool → Bytes
  flag true = print.number 1
  flag false = print.number 0

  unfoldable pub kind_text : EventKind → Bytes
  kind_text (invite re_flag cancel_flag ack_flag) =
      codes "flags [ack/reinvite/cancel]: "
      ++ flag ack_flag
      ++ codes "/"
      ++ flag re_flag
      ++ codes "/"
      ++ flag cancel_flag
      ++ line_end
  kind_text (bye duration) =
      codes "Call duration:"
      ++ tab
      ++ print.minutes (duration_minutes duration)
      ++ codes " "
      ++ print.seconds (duration_seconds duration)
      ++ line_end
  kind_text cancel = []
  kind_text options = codes "Dialog established:" ++ tab ++ codes "no"

  unfoldable pub response_text : SbaEvent → Bytes
  response_text e =
      if e.final_code == 0
      then codes "N/A" ++ line_end
      else print.number e.final_code ++ codes " " ++ codes e.final_reason ++ line_end

  unfoldable pub event_text : SbaEvent → Bytes
  event_text e =
      codes "Event Type:"
      ++ tab
      ++ event_type e.kind
      ++ line_end
      ++ codes "Call ID:"
      ++ tab
      ++ codes e.call_id
      ++ line_end
      ++ codes "Timestamp:"
      ++ tab
      ++ without_last (print.ctime e.timestamp)
      ++ line_end
      ++ codes "Initiator:"
      ++ tab
      ++ codes e.initiator.address
      ++ line_end
      ++ codes "Final rsponse:"
      ++ tab
      ++ response_text e
      ++ kind_text e.kind
      ++ line_end

  -- The two loops of `SbaEventMap::toString`.
  unfoldable pub events_text : List SbaEvent → Bytes
  events_text [] = []
  events_text (e ∷ rest) = event_text e ++ events_text rest

  unfoldable pub callers_text : Map String (List SbaEvent) → Bytes
  callers_text [] = []
  callers_text ((caller, events) ∷ rest) =
      line_end
      ++ codes "Caller: "
      ++ codes caller
      ++ line_end
      ++ events_text events
      ++ callers_text rest

  unfoldable pub event_map_text : EventMap → Bytes
  event_map_text m = or_message no_events (callers_text m.entries)
