-- ===== src/Main/Program.antt =====
-- `main` of src/main/callx.cpp. What the program prints and logs is not modelled; the log file, which the
-- library of the log makes, is not among the files.
use callx.Config.File.{is_nil}
use callx.Config.Values.{CallxConfig, Init, configured, rejected, bad_index, init}
use callx.Container.Map.{Map, find}
use callx.Main.Daemon.{Answers, Thrown, daemonize}
use callx.Main.Options.{Opt, CmdOptions, parse_opt}
use callx.Main.PidFile.{Machine, create_pid_file}
use callx.Prelude.{
  Bool, true, false, not, ◌&&◌, List, [], Option, none, some, Bytes, bytes_key, codes,
  if◌then◌else◌,
}

-- The machine, the directory that the program starts in, the text of the id of the process that starts,
-- the answers to `daemonize`, the comparison of texts that the configuration uses, and whether a
-- temporary file can be made under a path.
pub record Host : Type 0 where
  pub machine : Machine
  pub work_dir : Bytes
  pub pid : Bytes
  pub answers : Answers
  pub iequals : Bytes → Bytes → Bool
  pub temporary : Bytes → Bool

pub data Exit : Type 0 where
  exit_success : Exit
  exit_failure : Exit
  terminated : Exit

-- How far the program gets before `run`: it ends, or it runs, with a PID file or without.
pub data Start : Type 0 where
  ends : Exit → Map Bytes Bytes → Start
  runs : CallxConfig → Bool → Map Bytes Bytes → Start

abbrev pub default_path : CmdOptions → Bytes
default_path o = if is_nil o.config_file_str then codes "/etc/viat/callx.cfg" else o.config_file_str

module _ (host : Host) where
  -- The name of the PID file, from the directory that the process stands in.
  abbrev pub pid_name : CallxConfig → Bytes
  pid_name c = host.machine.resolve host.work_dir c.pid_file

  abbrev after_daemonize : CallxConfig → Bool → Option Thrown → Map Bytes Bytes → Start
  after_daemonize c pid none files = runs c pid files
  after_daemonize c pid (some t) files = ends exit_failure files

  unfoldable pub start_daemon : CallxConfig → Bool → Map Bytes Bytes → Start
  start_daemon c pid files =
      if c.daemonize then after_daemonize c pid (daemonize host.answers) files else runs c pid files

  abbrev after_pid_file : CallxConfig → Option (Map Bytes Bytes) → Map Bytes Bytes → Start
  after_pid_file c none files = ends exit_failure files
  after_pid_file c (some created) files = start_daemon c true created

  unfoldable pub start_pid_file : CallxConfig → Map Bytes Bytes → Start
  start_pid_file c files =
      if is_nil c.pid_file
      then start_daemon c false files
      else after_pid_file c (create_pid_file host.machine (pid_name c) host.pid files) files

  -- The check of the output directory: a temporary file, which goes again.
  abbrev pub after_init : Init → Map Bytes Bytes → Start
  after_init (configured c) files =
      if c.use_wavefile_output_interface && not (host.temporary c.wave_output_path)
      then ends exit_failure files
      else start_pid_file c files
  after_init (rejected e) files = ends exit_failure files
  after_init bad_index files = ends terminated files

  abbrev pub after_options : Option CmdOptions → Map Bytes Bytes → Start
  after_options none files = ends exit_failure files
  after_options (some o) files =
      after_init
        (init host.iequals (find (host.machine.resolve host.work_dir (default_path o)) files)) files

  -- `main` up to the call of `run`.
  unfoldable pub start_program : List Opt → Map Bytes Bytes → Start
  start_program opts files = after_options (parse_opt opts (record { config_file_str = [] })) files
