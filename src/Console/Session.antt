-- ===== src/Console/Session.antt =====
-- src/console/Session.cpp and CommandServer::clearSba of src/console/CommandServer.cpp: what a session
-- does with the bytes of one read. The texts of the answers are in callx.Console.Report.
use callx.Container.FriendlyMap.{FriendlyMap}
use callx.Container.FriendlyMap
use callx.Prelude.{
  ◌+◌, ◌-◌, Bool, true, false, not, ◌&&◌, ◌||◌, List, [], ◌∷◌, ◌++◌, Option, none, some, Bytes,
  bytes_equal, codes, if◌then◌else◌, length, get_or, take, ltb, ◌==◌,
}
use callx.Sip.World.{World}

pub data Command : Type 0 where
  status call_map sba_event_map sba_incident_map clear_sba : Command
  quit terminate help nothing unavailable : Command

-- The chain of comparisons with `m_userData`.
unfoldable pub command_of : Bytes → Command
command_of d =
    if bytes_equal d (codes "status") || bytes_equal d (codes "s")
    then status
    else if bytes_equal d (codes "CallMap") || bytes_equal d (codes "c")
    then call_map
    else if bytes_equal d (codes "SbaEventMap") || bytes_equal d (codes "e")
    then sba_event_map
    else if bytes_equal d (codes "SbaIncidentMap") || bytes_equal d (codes "i")
    then sba_incident_map
    else if bytes_equal d (codes "ClearSba") || bytes_equal d (codes "l")
    then clear_sba
    else if bytes_equal d (codes "quit")
        || bytes_equal d (codes "exit")
        || bytes_equal d (codes "q")
    then quit
    else if bytes_equal d (codes "terminate") || bytes_equal d (codes "t")
    then terminate
    else if bytes_equal d (codes "help") || bytes_equal d (codes "h")
    then help
    else if not (bytes_equal d [])
    then unavailable
    else nothing

-- The collected text, the commands that were answered, whether the socket is open, and whether SIGINT
-- was raised.
pub record Session : Type 0 where
  pub user_data : Bytes
  pub answers : List Command
  pub is_open : Bool
  pub interrupted : Bool

unfoldable pub new_session : Session
new_session = record { user_data = []; answers = []; is_open = true; interrupted = false }

-- The result of `handleUserData`; `bad_index` stands for a read before the start of the buffer.
pub data Fed : Type 0 where
  ignored bad_index : Fed
  line part : Bytes → Fed

abbrev pub ends_with_line_end : Bytes → Bool
ends_with_line_end input =
    get_or input (length input - 2) 0 == 0x0D && get_or input (length input - 1) 0 == 0x0A

-- `handleUserData`, on the bytes of the read
unfoldable pub handle_user_data : Bytes → Bytes → Fed
handle_user_data input user_data =
    if ltb 200 (length user_data + length input)
    then ignored
    else if ltb (length input) 2
    then bad_index
    else if ends_with_line_end input
    then line (user_data ++ take (length input - 2) input)
    else part (user_data ++ input)

-- The text stays where the session ends.
abbrev keeps_text : Command → Bool
keeps_text quit = true
keeps_text terminate = true
keeps_text _ = false

abbrev is_terminate : Command → Bool
is_terminate terminate = true
is_terminate _ = false

unfoldable pub answer : Bytes → Session → Session
answer d s =
    let c = command_of d in
    record s {
      user_data = if keeps_text c then d else [];
      answers = s.answers ++ c ∷ [];
      is_open = s.is_open && not (keeps_text c);
      interrupted = s.interrupted || is_terminate c;
    }

abbrev take_fed : Fed → Session → Option Session
take_fed ignored s = some (record s { user_data = [] })
take_fed bad_index s = none
take_fed (line d) s = some (answer d s)
take_fed (part d) s = some (record s { user_data = d })

-- `handle_read` without an error of the socket; `none` where the buffer is read before its start
unfoldable pub handle_read : Bytes → Session → Option Session
handle_read input s = take_fed (handle_user_data input s.user_data) s

-- No read comes after the socket is closed.
abbrev pub read_if_open : Bytes → Session → Option Session
read_if_open input s = if s.is_open then handle_read input s else some s

-- The reads of a session, one after the other.
unfoldable pub handle_reads : List Bytes → Session → Option Session
handle_reads [] s = some s
handle_reads (input ∷ rest) s = elim (read_if_open input s) [
  | none ↦ none
  | some t ↦ handle_reads rest t
]

-- `clearSba`, the one command that changes what the threads share
unfoldable pub clear_maps : {A : Type 0} → World A → World A
clear_maps w = record w {
  event_map = FriendlyMap.erase_all w.event_map;
  incident_map = FriendlyMap.erase_all w.incident_map;
}
