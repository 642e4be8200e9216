-- ===== src/Examples/Settings.antt =====
-- Concrete configuration files.
use callx.Config.Checks.{IsConsistent, init-IsConsistent, init-outcomes}
use callx.Config.File.{
  parse_config, parse_lines, parse_line, lines_of, get_str, get_int, get_bool, read_int,
  before_first, after_first, trim, trim_front, trim_back,
}
use callx.Config.RoundTrip.{Entry, IsEntry, file_of, first_value, value_or, parse_config-file_of}
use callx.Config.Values.{
  CallxConfig, init, new_config, read_values, read_general, read_call_limits, read_analysis, check,
  check_rest, ensure_slash, configured, rejected, bad_index, wave_path_missing, connect_str_missing,
}
use callx.Container.Map.{Map, find, insert, place}
use callx.Prelude.{arith, ◌≡◌, ◌≢◌, refl, [], ◌∷◌, some, Bytes, bytes_equal, codes, number_from}

abbrev pause_entry : Entry
pause_entry = record {
  attribute = codes "sba_pause";
  value = codes "5";
  comment = codes " seconds";
}

abbrev device_entry : Entry
device_entry = record { attribute = codes "pcap_device"; value = codes "any"; comment = [] }

pause_entry-IsEntry : IsEntry pause_entry
unfolding trim_back
pause_entry-IsEntry = record {
  attribute_text = record {
    head = _;
    tail = _;
    shape = refl;
    front = refl;
    back = refl;
    plain = ground arith;
  };
  value_text = record {
    head = _;
    tail = _;
    shape = refl;
    front = refl;
    back = refl;
    plain = ground arith;
  };
  comment_line = ground arith;
}

device_entry-IsEntry : IsEntry device_entry
unfolding trim_back
device_entry-IsEntry = record {
  attribute_text = record {
    head = _;
    tail = _;
    shape = refl;
    front = refl;
    back = refl;
    plain = ground arith;
  };
  value_text = record {
    head = _;
    tail = _;
    shape = refl;
    front = refl;
    back = refl;
    plain = ground arith;
  };
  comment_line = tt;
}

parse_config-file_of_example :
    (m : Map Bytes Bytes) × (parse_config (some (file_of (pause_entry ∷ device_entry ∷ [])))
      ≡ some m)
    × ((a d : Bytes) → get_str a d m ≡ value_or d (first_value a (pause_entry ∷ device_entry ∷ [])))
parse_config-file_of_example =
    parse_config-file_of pause_entry (device_entry ∷ [])
      (pause_entry-IsEntry, (device_entry-IsEntry, tt))

abbrev small_file : Bytes
small_file = codes "sba_pause = 5\n"

abbrev values_read : CallxConfig
values_read = read_values bytes_equal ((codes "sba_pause", codes "5") ∷ []) new_config

small_configured : init bytes_equal (some small_file) ≡ configured values_read
unfolding init parse_config parse_lines parse_line lines_of before_first after_first trim trim_front
    trim_back insert place find check check_rest ensure_slash read_values read_general
    read_call_limits read_analysis new_config get_str get_int get_bool read_int number_from
small_configured = refl

init-IsConsistent_example : IsConsistent values_read
init-IsConsistent_example =
    init-IsConsistent bytes_equal (some small_file) values_read small_configured

init-outcomes_example :
    (init bytes_equal (some small_file) ≢ rejected wave_path_missing)
    × (init bytes_equal (some small_file) ≢ bad_index)
    × (init bytes_equal (some small_file) ≢ rejected connect_str_missing)
init-outcomes_example = init-outcomes bytes_equal (some small_file)
