-- ===== src/Examples/Control.antt =====
-- A session and a thread at concrete inputs.
use callx.Console.Lines.{ended, handle_reads-answer}
use callx.Console.Session.{Session, new_session, answer, handle_reads, command_of}
use callx.Main.Running.{wait_for_stop, stopping}
use callx.Main.Signals.{raised, terminate_stops}
use callx.Prelude.{◌≡◌, refl, true, false, [], ◌∷◌, ◌++◌, some, arith, codes}

-- `sta` and `tus` with the line end
handle_reads-answer_example :
    handle_reads (codes "sta" ∷ (codes "tus" ++ 0x0D ∷ 0x0A ∷ []) ∷ []) new_session
    ≡ some (answer (codes "status") new_session)
unfolding new_session
handle_reads-answer_example =
    handle_reads-answer (codes "sta" ∷ []) (codes "tus") new_session refl ((omega arith, refl), tt)
      (omega arith)

terminate_stops_example :
    (t : Session) × (handle_reads ([] ++ ended (codes "terminate") ∷ []) new_session ≡ some t)
    × (t.is_open ≡ false)
    × (wait_for_stop (λ n. true) (raised t) ≡ stopping)
unfolding new_session command_of
terminate_stops_example =
    terminate_stops [] (codes "terminate") new_session (λ n. true) refl tt (omega arith) refl
