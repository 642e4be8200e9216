-- ===== src/Config/Values.antt =====
-- src/config/CallxConfig.{hpp,cpp}: the values of the program, their defaults, what `init` reads and the
-- constraints that it checks. An exception is an error of the result.
use callx.Config.File.{parse_config, get_str, get_int, get_bool, is_nil}
use callx.Container.Map.{Map}
use callx.Prelude.{
  ℤ, pos, negsuc, Bool, true, false, not, ◌&&◌, [], ◌∷◌, ◌++◌, Option, none, some, Bytes, codes,
  if◌then◌else◌, ◌==◌,
}

pub record CallxConfig : Type 0 where
  pub log_file : Bytes
  pub log_level : ℤ
  pub pid_file : Bytes
  pub daemonize : Bool
  pub pcap_device : Bytes
  pub pcap_filter : Bytes
  pub min_sip_size : ℤ
  pub tp_repository_size : ℤ
  pub mem_chunk_size : ℤ
  pub sba_pause : ℤ
  pub record_if_incident_only : Bool
  pub record_caller : Bool
  pub record_callee : Bool
  pub use_wavefile_output_interface : Bool
  pub wave_output_path : Bytes
  pub use_socket_output_interface : Bool
  pub socket_output_remote_ip : Bytes
  pub socket_output_remote_port : ℤ
  pub socket_output_send_seconds : ℤ
  pub use_viat_db : Bool
  pub viat_db_connect_str : Bytes
  pub start_console : Bool
  pub console_port : ℤ
  pub max_call_recording_time : ℤ
  pub max_call_age : ℤ
  pub max_call_age_if_error : ℤ
  pub max_call_rtp_inactivity : ℤ
  pub sba_call_attempts_period : ℤ
  pub sba_call_attempts_max : ℤ
  pub sba_calls_concurrent_period : ℤ
  pub sba_calls_concurrent_max : ℤ
  pub sba_call_completion_period : ℤ
  pub sba_call_completion_attempts_min : ℤ
  pub sba_call_completion_min : ℤ
  pub sba_call_duration_average_period : ℤ
  pub sba_call_duration_average_min_completed : ℤ
  pub sba_call_duration_average_min : ℤ
  pub sba_call_duration_cumulative_period : ℤ
  pub sba_call_duration_cumulative_max : ℤ
  pub sba_calls_closed_by_callee_period : ℤ
  pub sba_calls_closed_by_callee_min_completed : ℤ
  pub sba_calls_closed_by_callee_max : ℤ

-- The constructor.
unfoldable pub new_config : CallxConfig
new_config = record {
  log_file = codes "/var/log/callx.log";
  log_level = pos 1;
  pid_file = [];
  daemonize = false;
  pcap_device = codes "eth0";
  pcap_filter = codes "udp";
  min_sip_size = pos 300;
  tp_repository_size = pos 1000000;
  mem_chunk_size = pos 1024;
  sba_pause = pos 60;
  record_if_incident_only = false;
  record_caller = true;
  record_callee = false;
  use_wavefile_output_interface = true;
  wave_output_path = codes "/var/spool/callx/output/";
  use_socket_output_interface = false;
  socket_output_remote_ip = [];
  socket_output_remote_port = pos 0;
  socket_output_send_seconds = pos 6;
  use_viat_db = false;
  viat_db_connect_str = [];
  start_console = true;
  console_port = pos 5000;
  max_call_recording_time = pos 12;
  max_call_age = pos 3600;
  max_call_age_if_error = pos 30;
  max_call_rtp_inactivity = pos 90;
  sba_call_attempts_period = pos 100;
  sba_call_attempts_max = pos 60;
  sba_calls_concurrent_period = pos 60;
  sba_calls_concurrent_max = pos 10;
  sba_call_completion_period = pos 60;
  sba_call_completion_attempts_min = pos 20;
  sba_call_completion_min = pos 70;
  sba_call_duration_average_period = pos 20;
  sba_call_duration_average_min_completed = pos 20;
  sba_call_duration_average_min = pos 5;
  sba_call_duration_cumulative_period = pos 100;
  sba_call_duration_cumulative_max = pos 100;
  sba_calls_closed_by_callee_period = pos 60;
  sba_calls_closed_by_callee_min_completed = pos 60;
  sba_calls_closed_by_callee_max = pos 80;
}

-- The conversion of an `int` to `bool`, negated.
abbrev pub is_zero : ℤ → Bool
is_zero (pos n) = n == 0
is_zero (negsuc n) = false

module _ (iequals : Bytes → Bytes → Bool) (m : Map Bytes Bytes) where
  -- The values of the program as a whole; the keys that have no default fall back to 0 or the empty text.
  unfoldable pub read_general : CallxConfig → CallxConfig
  read_general c = record c {
    log_file = get_str (codes "log_file") c.log_file m;
    log_level = get_int (codes "log_level") c.log_level m;
    pid_file = get_str (codes "pid_file") c.pid_file m;
    daemonize = get_bool iequals (codes "daemonize") m;
    pcap_device = get_str (codes "pcap_device") c.pcap_device m;
    pcap_filter = get_str (codes "pcap_filter") c.pcap_filter m;
    min_sip_size = get_int (codes "min_sip_size") c.min_sip_size m;
    tp_repository_size = get_int (codes "tp_repository_size") c.tp_repository_size m;
    mem_chunk_size = get_int (codes "mem_chunk_size") c.mem_chunk_size m;
    sba_pause = get_int (codes "sba_pause") c.sba_pause m;
    record_if_incident_only = get_bool iequals (codes "record_if_incident_only") m;
    record_caller = get_bool iequals (codes "record_caller") m;
    record_callee = get_bool iequals (codes "record_callee") m;
    use_wavefile_output_interface = get_bool iequals (codes "use_wavefile_output_interface") m;
    wave_output_path = get_str (codes "wave_output_path") c.wave_output_path m;
    use_socket_output_interface = get_bool iequals (codes "use_socket_output_interface") m;
    socket_output_remote_ip = get_str (codes "socket_output_remote_ip") [] m;
    socket_output_remote_port = get_int (codes "socket_output_remote_port") (pos 0) m;
    socket_output_send_seconds = get_int (codes "socket_output_send_seconds") (pos 0) m;
    use_viat_db = get_bool iequals (codes "use_viat_db") m;
    viat_db_connect_str = get_str (codes "viat_db_connect_str") [] m;
    start_console = not (is_zero (get_int (codes "start_console") (pos 0) m));
    console_port = get_int (codes "console_port") (pos 0) m;
  }

  -- The limits of a call.
  unfoldable pub read_call_limits : CallxConfig → CallxConfig
  read_call_limits c = record c {
    max_call_recording_time = get_int (codes "max_call_recording_time") (pos 0) m;
    max_call_age = get_int (codes "max_call_age") (pos 0) m;
    max_call_age_if_error = get_int (codes "max_call_age_if_error") (pos 0) m;
    max_call_rtp_inactivity = get_int (codes "max_call_rtp_inactivity") (pos 0) m;
  }

  -- The values of the analysis, some under other keys than their names.
  unfoldable pub read_analysis : CallxConfig → CallxConfig
  read_analysis c = record c {
    sba_call_attempts_period =
        get_int (codes "sba_call_attempts_period") c.sba_call_attempts_period m;
    sba_call_attempts_max = get_int (codes "sba_call_attempts_max") c.sba_call_attempts_max m;
    sba_calls_concurrent_period =
        get_int (codes "sba_calls_concurrent_period") c.sba_calls_concurrent_period m;
    sba_calls_concurrent_max =
        get_int (codes "sba_calls_concurrent_max") c.sba_calls_concurrent_max m;
    sba_call_completion_period =
        get_int (codes "sba_call_completion_period") c.sba_call_completion_period m;
    sba_call_completion_attempts_min =
        get_int (codes "sba_call_completion_attempts_min") c.sba_call_completion_attempts_min m;
    sba_call_completion_min = get_int (codes "sba_call_completion_min") c.sba_call_completion_min m;
    sba_call_duration_average_period =
        get_int (codes "sba_call_duration_average_period") c.sba_call_duration_average_period m;
    sba_call_duration_average_min_completed =
        get_int (codes "sba_call_duration_average_min_completed")
          c.sba_call_duration_average_min_completed m;
    sba_call_duration_average_min =
        get_int (codes "sba_call_duration_average_min") c.sba_call_duration_average_min m;
    sba_call_duration_cumulative_period =
        get_int (codes "sba_call_duration_cumulative_period") c.sba_call_duration_cumulative_period
          m;
    sba_call_duration_cumulative_max =
        get_int (codes "sba_calls_duration_cumulative_max") c.sba_call_duration_cumulative_max m;
    sba_calls_closed_by_callee_period =
        get_int (codes "sba_closed_by_callee_period") c.sba_calls_closed_by_callee_period m;
    sba_calls_closed_by_callee_min_completed =
        get_int (codes "sba_closed_by_callee_min_completed")
          c.sba_calls_closed_by_callee_min_completed m;
    sba_calls_closed_by_callee_max =
        get_int (codes "sba_calls_closed_by_callee_max") c.sba_calls_closed_by_callee_max m;
  }

  unfoldable pub read_values : CallxConfig → CallxConfig
  read_values c = read_analysis (read_call_limits (read_general c))

pub data ConfigError : Type 0 where
  unreadable remote_ip_missing remote_port_missing wave_path_missing : ConfigError
  viat_db_missing connect_str_missing pause_negative : ConfigError

-- The result of `init`; `bad_index` stands for an access before the start of an empty text.
pub data Init : Type 0 where
  configured : CallxConfig → Init
  rejected : ConfigError → Init
  bad_index : Init

abbrev pub is_negative : ℤ → Bool
is_negative (pos n) = false
is_negative (negsuc n) = true

abbrev pub ends_with_slash : Bytes → Bool
ends_with_slash [] = false
ends_with_slash (c ∷ []) = c == b'/'
ends_with_slash (c ∷ d ∷ s) = ends_with_slash (d ∷ s)

-- `ensureSlash`
unfoldable pub ensure_slash : Bytes → Option Bytes
ensure_slash s =
    if is_nil s then none else if ends_with_slash s then some s else some (s ++ b'/' ∷ [])

-- The constraints behind `ensureSlash`.
unfoldable pub check_rest : CallxConfig → Init
check_rest c =
    if c.use_socket_output_interface && not c.use_viat_db
    then rejected viat_db_missing
    else if c.use_socket_output_interface && not c.use_viat_db
    then rejected connect_str_missing
    else if is_negative c.sba_pause
    then rejected pause_negative
    else configured c

abbrev check_path : Option Bytes → CallxConfig → Init
check_path none c = bad_index
check_path (some path) c = check_rest (record c { wave_output_path = path })

unfoldable pub check : CallxConfig → Init
check c =
    if c.use_socket_output_interface && is_nil c.socket_output_remote_ip
    then rejected remote_ip_missing
    else if c.use_socket_output_interface && is_zero c.socket_output_remote_port
    then rejected remote_port_missing
    else if c.use_wavefile_output_interface && is_nil c.wave_output_path
    then rejected wave_path_missing
    else check_path (ensure_slash c.wave_output_path) c

abbrev init_from : (Bytes → Bytes → Bool) → Option (Map Bytes Bytes) → CallxConfig → Init
init_from iequals none c = rejected unreadable
init_from iequals (some m) c = check (read_values iequals m c)

-- `init`, on the contents of the file and a new object
unfoldable pub init : (Bytes → Bytes → Bool) → Option Bytes → Init
init iequals file = init_from iequals (parse_config file) new_config
