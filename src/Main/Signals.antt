-- ===== src/Main/Signals.antt =====
-- A console command that ends the program: src/console/Session.cpp and the signals of src/main/callx.cpp.
use callx.Console.Lines.{IsPart, joined, ended, handle_reads-answer}
use callx.Console.Session.{Session, handle_reads, answer, command_of, terminate}
use callx.Main.Running.{wait_for_stop, stopping, sig_handler}
use callx.Prelude.{
  ℕ, ◌+◌, ◌≤◌, ◌≡◌, refl, Bool, true, false, List, [], ◌∷◌, ◌++◌, some, Bytes, All, length,
  if◌then◌else◌, arith,
}

-- The signals that a session raised: SIGINT.
abbrev pub raised : Session → List ℕ
raised s = if s.interrupted then 2 ∷ [] else []

answer-terminate :
    (d : Bytes) (s : Session)
    → command_of d ≡ terminate
    → ((answer d s).interrupted ≡ true) × ((answer d s).is_open ≡ false)
unfolding answer
answer-terminate d s h = ground arith

-- A line that stands for the command `terminate`, in pieces of at least two bytes, none of which but the
-- last ends with a line end, and with at most 200 bytes in all, closes an open session, and `run` stops
-- waiting at the signal that the session raises, whatever other signals do by default.
pub terminate_stops :
    (pieces : List Bytes) (body : Bytes) (s : Session) (kills : ℕ → Bool)
    → s.is_open ≡ true
    → All IsPart pieces
    → length s.user_data + length (joined pieces) + length body + 2 ≤ 200
    → command_of ((s.user_data ++ joined pieces) ++ body) ≡ terminate
    → (t : Session) × (handle_reads (pieces ++ ended body ∷ []) s ≡ some t)
      × (t.is_open ≡ false)
      × (wait_for_stop kills (raised t) ≡ stopping)
unfolding wait_for_stop sig_handler
terminate_stops pieces body s kills is_open parts small command =
    let line = (s.user_data ++ joined pieces) ++ body in
    let (raises, closes) = answer-terminate line s command in
    (answer line s, handle_reads-answer pieces body s is_open parts small, closes, rw raises refl)
