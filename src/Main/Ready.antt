-- ===== src/Main/Ready.antt =====
-- The PID file of src/main/callx.cpp when `run` begins.
use callx.Config.File.{is_nil}
use callx.Config.Values.{CallxConfig, Init, configured, rejected, bad_index, init}
use callx.Container.Map.{Map, find, insert, erase, find-insert, find-erase}
use callx.Main.Options.{Opt, CmdOptions, parse_opt}
use callx.Main.PidFile.{Machine, create_pid_file}
use callx.Main.Program.{
  Host, Exit, default_path, ends, runs, pid_name, start_daemon, start_pid_file, after_init,
  after_options, start_program,
}
use callx.Prelude.{
  ◌≡◌, ◌⊎◌, refl, sym, subst, ap, ◌∙◌, inl, inr, Bool, true, false, List, [], Option, none, some,
  arith, Bytes, bytes_key, same_iff, same_refl, Bool-cases, Option-cases,
}

abbrev pub Files : Type 0
Files = Map Bytes Bytes

-- All names but one have what they had.
abbrev pub SameBut : Bytes → Files → Files → Type 0
SameBut name a b = (other : Bytes) → (name ≡ other) ⊎ (find other b ≡ find other a)

-- The files of a program that runs with a PID file, and those before it.
pub record Held (host : Host) (c : CallxConfig) (before files : Files) : Type 0 where
  pub own_pid : find (pid_name host c) files ≡ some host.pid
  pub was_free :
      (find (pid_name host c) before ≡ none) ⊎ (host.machine.updatable (pid_name host c) ≡ false)
  pub others_kept : SameBut (pid_name host c) before files

-- What holds of the files when the program starts to run, without and with a PID file.
abbrev pub Ready : Host → CallxConfig → Bool → Files → Files → Type 0
Ready host c pid before files =
    ((is_nil c.pid_file ≡ true) × (pid ≡ false) × (files ≡ before))
    ⊎ ((is_nil c.pid_file ≡ false) × (pid ≡ true) × Held host c before files)

put_same :
    (a contents : Bytes) (files : Files)
    → find a (insert a contents (erase a files)) ≡ some contents
put_same a contents files =
    ground (arith, find-insert a a contents (erase a files), find-erase a a files, same_refl a)

put_other :
    (a contents : Bytes) (files : Files) → SameBut a files (insert a contents (erase a files))
put_other a contents files b =
    ground (arith, find-insert a b contents (erase a files), find-erase a b files, same_iff a b)

create_pid_file_cases :
    (m : Machine) (name pid : Bytes) (files made : Files)
    → create_pid_file m name pid files ≡ some made
    → (made ≡ insert name pid (erase name files))
      × ((find name files ≡ none) ⊎ (m.updatable name ≡ false))
unfolding create_pid_file
create_pid_file_cases m name pid files made h = ground arith

create_pid_file-made :
    (m : Machine) (name pid : Bytes) (files made : Files)
    → create_pid_file m name pid files ≡ some made
    → (find name made ≡ some pid)
      × ((find name files ≡ none) ⊎ (m.updatable name ≡ false))
      × SameBut name files made
create_pid_file-made m name pid files made h =
    let (e, free) = create_pid_file_cases m name pid files made h in
    (
      ap (find name) e ∙ put_same name pid files,
      free,
      subst (SameBut name files) (sym e) (put_other name pid files),
    )

start_daemon-runs :
    (host : Host) (c d : CallxConfig) (pid p : Bool) (files after : Files)
    → start_daemon host c pid files ≡ runs d p after
    → (d ≡ c) × (p ≡ pid) × (after ≡ files)
unfolding start_daemon
start_daemon-runs host c d pid p files after h = ground arith

started :
    (host : Host) (c : CallxConfig) (files : Files) (d : CallxConfig) (p : Bool) (after : Files)
    → after_init host (configured c) files ≡ runs d p after
    → start_pid_file host c files ≡ runs d p after
started host c files d p after h = ground arith

ends_not_runs : {e : Exit} {a b : Files} {c : CallxConfig} {p : Bool} → ends e a ≡ runs c p b → ⊥
ends_not_runs h = cc

start_pid_file-Ready :
    (host : Host) (c d : CallxConfig) (p : Bool) (files after : Files)
    → start_pid_file host c files ≡ runs d p after
    → (d ≡ c) × Ready host c p files after
unfolding start_pid_file
start_pid_file-Ready host c d p files after h = elim (Bool-cases (is_nil c.pid_file)) [
  | inl e ↦
      let g : start_daemon host c false files ≡ runs d p after = simp (e, start_pid_file) at h in
      let (same_config, no_pid, same_files) = start_daemon-runs host c d false p files after g in
      (same_config, inl (e, no_pid, same_files))
  | inr e ↦ elim (Option-cases (create_pid_file host.machine (pid_name host c) host.pid files)) [
    | inl n ↦ absurd (ends_not_runs (simp (e, n, start_pid_file) at h))
    | inr (made, m) ↦
        let g : start_daemon host c true made ≡ runs d p after = simp (e, m, start_pid_file) at h in
        let (same_config, with_pid, same_files) = start_daemon-runs host c d true p made after g in
        let (own, free, kept) =
          create_pid_file-made host.machine (pid_name host c) host.pid files made m in
        (
          same_config,
          inr (
            e,
            with_pid,
            record {
              own_pid = ap (find (pid_name host c)) same_files ∙ own;
              was_free = free;
              others_kept = subst (SameBut (pid_name host c) files) (sym same_files) kept;
            },
          ),
        )
  ]
]

after_init-Ready :
    (host : Host) (i : Init) (d : CallxConfig) (p : Bool) (files after : Files)
    → after_init host i files ≡ runs d p after
    → (i ≡ configured d) × Ready host d p files after
after_init-Ready host (rejected x) d p files after h = absurd (ends_not_runs h)
after_init-Ready host bad_index d p files after h = absurd (ends_not_runs h)
after_init-Ready host (configured c) d p files after h =
    let g = started host c files d p after h in
    let (same_config, ready) = start_pid_file-Ready host c d p files after g in
    (
      ap configured (sym same_config),
      subst (λ x. Ready host x p files after) (sym same_config) ready,
    )

after_options-Ready :
    (host : Host) (r : Option CmdOptions) (c : CallxConfig) (p : Bool) (files after : Files)
    → after_options host r files ≡ runs c p after
    → (o : CmdOptions) × (r ≡ some o)
      × (init host.iequals (find (host.machine.resolve host.work_dir (default_path o)) files)
          ≡ configured c)
      × Ready host c p files after
after_options-Ready host none c p files after h = absurd (ends_not_runs h)
after_options-Ready host (some o) c p files after h =
    let (configured_as, ready) =
      after_init-Ready host
        (init host.iequals (find (host.machine.resolve host.work_dir (default_path o)) files)) c p
        files after h in
    (o, refl, configured_as, ready)

-- The program runs only with accepted options and a configuration that is the one of the file they
-- name. If it names a PID file, then that file holds the id of the process that was started, and before
-- it did not exist, or could not be opened for an update; no other file has changed.
pub start_program-Ready :
    (host : Host) (opts : List Opt) (c : CallxConfig) (pid : Bool) (files after : Files)
    → start_program host opts files ≡ runs c pid after
    → (o : CmdOptions) × (parse_opt opts (record { config_file_str = [] }) ≡ some o)
      × (init host.iequals (find (host.machine.resolve host.work_dir (default_path o)) files)
          ≡ configured c)
      × Ready host c pid files after
unfolding start_program
start_program-Ready host opts c pid files after h =
    after_options-Ready host (parse_opt opts (record { config_file_str = [] })) c pid files after h
