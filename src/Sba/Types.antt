-- ===== src/Sba/Types.antt =====
-- src/sba/SbaEvent.hpp and src/sba/SbaIncident.hpp, with the maps that hold them by caller. The
-- reason text of an incident, which only the console prints, is left out.
use callx.Container.FriendlyMap.{FriendlyMap}
use callx.Prelude.{ℕ, Bool, List, String}
use callx.Sip.Types.{SipFromTo}

-- The subclasses of `SbaEvent`, with their own fields.
pub data EventKind : Type 0 where
  invite : (reinvite cancel ack : Bool) → EventKind
  bye : (duration : ℕ) → EventKind
  cancel options : EventKind

-- Times are milliseconds of the system clock.
pub record SbaEvent : Type 0 where
  pub timestamp : ℕ
  pub call_id : String
  pub caller : SipFromTo
  pub initiator : SipFromTo
  pub final_code : ℕ
  pub final_reason : String
  pub kind : EventKind

-- `SbaEventMap`: the deque of each caller, oldest first.
abbrev pub EventMap : Type 0
EventMap = FriendlyMap String (List SbaEvent)

pub data IncidentType : Type 0 where
  generic call_attempts call_completion call_duration_average calls_closed_by_callee
        call_duration_cumulative calls_concurrent :
      IncidentType

pub record SbaIncident : Type 0 where
  pub timestamp : ℕ
  pub kind : IncidentType
  pub user : String
  pub period : ℕ
  pub value : ℕ
  pub higher_value_is_evil : Bool

-- `SbaIncidentMap`: the set of each caller.
abbrev pub IncidentMap : Type 0
IncidentMap = FriendlyMap String (List SbaIncident)
