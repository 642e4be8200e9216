-- ===== src/Examples/Program.antt =====
-- The theorems on src/main/callx.cpp and src/output/db/ViatDb.cpp at concrete inputs.
use callx.Config.File.{
  parse_config, parse_lines, parse_line, lines_of, get_str, get_int, get_bool, read_int,
  before_first, after_first, trim, trim_front, trim_back,
}
use callx.Config.Values.{
  CallxConfig, init, new_config, read_values, read_general, read_call_limits, read_analysis, check,
  check_rest, ensure_slash, configured,
}
use callx.Container.Map.{Map, find, insert, place, erase}
use callx.Container.Queue.{Queue}
use callx.Main.Beside.{run_beside, run_beside-ends}
use callx.Main.Daemon.{in_child}
use callx.Main.Options.{Opt, config, CmdOptions, parse_opt}
use callx.Main.PidFile.{create_pid_file}
use callx.Main.Program.{Host, runs, default_path, start_program, start_pid_file, start_daemon}
use callx.Main.Ready.{Ready, start_program-Ready}
use callx.Main.Running.{stays, pcap_handler, Active, others, returned, thrown, run}
use callx.Main.Shutdown.{Stops, run-no_filter}
use callx.Output.Database.{Database, insert_call, insert_call-one}
use callx.Prelude.{
  ℕ, ◌≡◌, ◌⊎◌, ◌↔◌, refl, ℤ, pos, neg, Bool, true, false, List, [], ◌∷◌, ◌++◌, some, arith, All,
  Bytes, bytes_key, codes, length, sym, ap, ◌∙◌, bytes_equal, number_from, same_refl, if◌then◌else◌,
}
use callx.Threads.{pcap_worker, start}
use mathlib.Core.List.{append_assoc}

abbrev pool : Queue ℕ
pool = record { items = 1 ∷ 2 ∷ []; activated = true; size_max = 2 }

abbrev all_active : Active
all_active = record {
  pcap_packet_queue = true;
  udp_packet_queue = true;
  sip_packet_queue = true;
  call_decode_queue = true;
  pcm_audio_queue = true;
}

run_beside-ends_example :
    ((run_beside (λ k. true) (λ name k. false) true all_active pool ≡ thrown)
      ↔ (true ≡ false) × All (Stops (λ name k. false)) others)
    × ((run_beside (λ k. true) (λ name k. false) true all_active pool ≡ thrown)
        ⊎ (((all : Bool) × (run_beside (λ k. true) (λ name k. false) true all_active pool
                ≡ returned all (record pool { items = [] })))
            ⊎ ((run_beside (λ k. true) (λ name k. false) true all_active pool ≡ stays)
                × (¬ Stops (λ name k. false) pcap_handler))))
run_beside-ends_example = run_beside-ends (λ k. true) (λ name k. false) true all_active pool refl

run-no_filter_example :
    run (λ name k. false) true all_active pool ≡ returned false (record pool { items = [] })
unfolding pcap_worker start
run-no_filter_example = run-no_filter (λ name k. false) true all_active pool refl (λ k. refl)

-- A table of callers: each with the place that it was inserted at as its id.
abbrev ids_of : Bytes → List (Bytes × ℤ) → List ℤ
ids_of uri [] = []
ids_of uri ((u, id) ∷ rest) = (if bytes_equal u uri then id ∷ [] else []) ++ ids_of uri rest

ids_of_new :
    (uri : Bytes) (d : List (Bytes × ℤ)) (id : ℤ)
    → ids_of uri (d ++ (uri, id) ∷ []) ≡ ids_of uri d ++ id ∷ []
ids_of_new uri [] id = rw (same_refl uri) refl
ids_of_new uri ((u, x) ∷ d) id =
    ap (λ r. (if bytes_equal u uri then x ∷ [] else []) ++ r) (ids_of_new uri d id)
    ∙ sym (append_assoc _ (ids_of uri d) (id ∷ []))

abbrev callers : Database (List (Bytes × ℤ))
callers = record {
  select_caller = ids_of;
  insert_caller = λ name uri d. (pos (length d) ∷ [], d ++ (uri, pos (length d)) ∷ []);
  insert_call = λ id d. (pos 9 ∷ [], d);
}

insert_call-one_example :
    (insert_call callers (codes "Alice") (codes "sip:alice") [] ≡ (neg 1, []))
    ⊎ ((id : ℤ) × (callers.select_caller
            (codes "sip:alice")
            (insert_call callers (codes "Alice") (codes "sip:alice") []).1
          ≡ id ∷ []))
insert_call-one_example =
    insert_call-one callers
      (record {
        adds_caller = λ name uri d id h.
            ids_of_new uri d (pos (length d)) ∙ ap (λ x. ids_of uri d ++ x ∷ []) (cc);
        keeps_callers = λ id d uri. refl;
      })
      (codes "Alice") (codes "sip:alice") [] (omega arith)

-- A configuration with a PID file, named by the option.
abbrev pid_config : Bytes
pid_config = codes "pid_file = /p\n"

abbrev pid_values : CallxConfig
pid_values = read_values bytes_equal ((codes "pid_file", codes "/p") ∷ []) new_config

abbrev host : Host
host = record {
  machine = record {
    resolve = λ dir name. name;
    updatable = λ name. true;
    creatable = λ name. true;
  };
  work_dir = codes "/home";
  pid = codes "17";
  answers = record { fork = in_child; setsid = true; chdir = true };
  iequals = bytes_equal;
  temporary = λ path. true;
}

abbrev files : Map Bytes Bytes
files = (codes "/c", pid_config) ∷ []

abbrev files_running : Map Bytes Bytes
files_running = (codes "/c", pid_config) ∷ (codes "/p", codes "17") ∷ []

abbrev options : List Opt
options = config (codes "/c") ∷ []

starts : start_program host options files ≡ runs pid_values true files_running
unfolding start_program parse_opt start_pid_file start_daemon create_pid_file erase init
    parse_config parse_lines parse_line lines_of before_first after_first trim trim_front trim_back
    insert place find check check_rest ensure_slash read_values read_general read_call_limits
    read_analysis new_config get_str get_int get_bool read_int number_from
starts = refl

start_program-Ready_example :
    (o : CmdOptions) × (parse_opt options (record { config_file_str = [] }) ≡ some o)
    × (init host.iequals (find (host.machine.resolve host.work_dir (default_path o)) files)
        ≡ configured pid_values)
    × Ready host pid_values true files files_running
start_program-Ready_example =
    start_program-Ready host options pid_values true files files_running starts
