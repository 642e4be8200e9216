-- ===== src/Main/Daemon.antt =====
-- `daemonize` of src/main/callx.cpp, over the answers of the system.
use callx.Prelude.{Bool, not, Option, none, some, String, if◌then◌else◌}

-- What `fork` returns: in the one process twice over, in the parent and in the child.
pub data Fork : Type 0 where
  fork_failed : Fork
  in_parent : Fork
  in_child : Fork

pub record Answers : Type 0 where
  pub fork : Fork
  pub setsid : Bool
  pub chdir : Bool

-- What is thrown: a text of the code, or a `std::string`.
pub data Thrown : Type 0 where
  text : String → Thrown
  string : String → Thrown

abbrev in_session : Answers → Option Thrown
in_session a =
    if not a.setsid
    then some (text "Creating a new SID for the child failed.")
    else if not a.chdir
    then some (string "Changing the working directory to / failed.")
    else none

abbrev after_fork : Fork → Answers → Option Thrown
after_fork fork_failed a = some (text "Forking failed!")
after_fork in_parent a = some (text "Forking successful, shutting down the parent.")
after_fork in_child a = in_session a

-- `daemonize`: what it throws, or `none` in a daemon.
unfoldable pub daemonize : Answers → Option Thrown
daemonize a = after_fork a.fork a
