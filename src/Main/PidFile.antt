-- ===== src/Main/PidFile.antt =====
-- The PID file of src/main/callx.cpp, in the files of the machine. Where a name leads from a working
-- directory and which files may be opened are parameters.
use callx.Container.Map.{Map, find, insert, erase}
use callx.Prelude.{Bool, ◌&&◌, Option, none, some, Bytes, bytes_key, is_some, if◌then◌else◌}

pub record Machine : Type 0 where
  pub resolve : Bytes → Bytes → Bytes
  pub updatable : Bytes → Bool
  pub creatable : Bytes → Bool

-- `createPIDFile`, with the text of the process id; `none` where it throws. The mode `in` of the first
-- `open` is that of `r+`, which opens a file that exists.
unfoldable pub create_pid_file :
    Machine → Bytes → Bytes → Map Bytes Bytes → Option (Map Bytes Bytes)
create_pid_file m name pid files =
    if is_some (find name files) && m.updatable name
    then none
    else if m.creatable name
    then some (insert name pid (erase name files))
    else none
