-- ===== src/Main/Shutdown.antt =====
-- How `run` of src/main/callx.cpp ends.
use callx.Container.Queue.{Queue}
use callx.Container.Pops.{pops_first}
use callx.Main.Running.{
  ThreadName, console, pcap_handler, Worker, Active, others, new_worker, start_worker,
  start_threads, seen, stop_threads, join_threads, stop_all, drain, returned, deactivate_of, run,
}
use callx.Prelude.{
  ℕ, zero, suc, ◌<◌, ◌≡◌, ◌↔◌, refl, sym, ap, ◌∙◌, inl, inr, Bool, true, false, List, [], ◌∷◌, map,
  none, some, arith, All, length, Bool-cases, ◌==◌,
}
use callx.Threads.{stop, stop_iff, new_thread, start, pcap_worker}

drain-empty :
    {P : Type 0} (n : ℕ) (ps : List P) (q : Queue P)
    → q.activated ≡ true
    → q.items ≡ ps
    → length ps < n
    → drain n q ≡ some (record q { items = [] })
unfolding drain
drain-empty zero ps q a e l = absurd (omega (arith, l))
drain-empty (suc n) [] q a e l =
    let z : (length q.items == 0) ≡ true = rw e refl in
    simp (z, drain) (ap some (ap (λ xs. record q { items = xs }) e))
drain-empty (suc n) (p ∷ ps) q a e l =
    let next = drain-empty n ps (record q { items = ps }) a refl (omega (arith, l)) in
    let z : (length q.items == 0) ≡ false = rw e (ground arith) in
    simp (z, pops_first p ps q a e, next, drain)

-- A worker is seen as stopped at one of the ten polls.
abbrev pub Stops : (ThreadName → ℕ → Bool) → ThreadName → Type 0
Stops stopped_at name = (k : ℕ) × (k < 10) × (stopped_at name k ≡ true)

abbrev pub started : List ThreadName → List Worker
started names = map (λ name. start_worker (new_worker name)) names

pub absurd_Bool {ℓ} : {B : Type ℓ} → true ≡ false → B
absurd_Bool h = absurd cc

module _ (stopped_at : ThreadName → ℕ → Bool) where
  started-Stops :
      (names : List ThreadName) (a : Active)
      → ((stop_threads stopped_at (started names) a).2 ≡ true) ↔ All (Stops stopped_at) names
  unfolding stop_threads start_worker new_worker
  started-Stops [] a = (λ h. tt, λ h. refl)
  started-Stops (name ∷ names) a =
      let w = start_worker (new_worker name) in
      let (one, back) = stop_iff (seen stopped_at w) w.thread in
      let (rest, back_rest) = started-Stops names (deactivate_of name a) in
      (λ h. (one (ground arith), rest (ground arith)), λ h. ground (arith, back h.0, back_rest h.1))

  stop_threads-join :
      (ws : List Worker) (a : Active)
      → All (λ w. w.joinable ≡ true) ws
      → (done : List Worker) × (join_threads (stop_threads stopped_at ws a).0 ≡ some done)
  unfolding stop_threads join_threads
  stop_threads-join [] a h = ([], refl)
  stop_threads-join (w ∷ ws) a h =
      let (done, e) = stop_threads-join ws (deactivate_of w.name a) h.1 in
      (
        record w { thread = (stop (seen stopped_at w) w.thread).0; joinable = false } ∷ done,
        simp (h.0, e),
      )

  unstarted_stops :
      (name : ThreadName)
      → (stop (seen stopped_at (new_worker name)) (new_worker name).thread).1 ≡ true
  unfolding new_worker new_thread
  unstarted_stops name =
      (stop_iff (seen stopped_at (new_worker name)) (new_worker name).thread).1
        (0, omega arith, refl)

  after_unstarted :
      (name : ThreadName) (ws : List Worker) (a : Active)
      → (stop_threads stopped_at (new_worker name ∷ ws) a).2
        ≡ (stop_threads stopped_at ws (deactivate_of (new_worker name).name a)).2
  unfolding stop_threads
  after_unstarted name ws a = rw (unstarted_stops name) refl

  -- The console that was not started: its `stop` returns true and its `join` throws.
  pub not_started :
      (a : Active) → ((stop_all stopped_at false a).2 ≡ true) ↔ All (Stops stopped_at) others
  unfolding start_threads
  not_started a =
      let e = after_unstarted console (started others) a in
      let (all, back) = started-Stops others (deactivate_of (new_worker console).name a) in
      (λ h. all (sym e ∙ h), λ h. e ∙ back h)

  pub not_joined : (a : Active) → join_threads (stop_all stopped_at false a).0 ≡ none
  unfolding start_threads stop_threads new_worker join_threads
  not_joined a = refl

  pub all_joined :
      (a : Active)
      → (done : List Worker) × (join_threads (stop_all stopped_at true a).0 ≡ some done)
  unfolding start_threads start_worker
  all_joined a =
      stop_threads-join (start_threads true) a
        (refl, (refl, (refl, (refl, (refl, (refl, (refl, (refl, (refl, tt)))))))))

  module _ {P : Type 0} (a : Active) (pool : Queue P) (active : pool.activated ≡ true) where
    abbrev emptied : Queue P
    emptied = record pool { items = [] }

    drained : drain (suc (length pool.items)) pool ≡ some emptied
    drained = drain-empty (suc (length pool.items)) pool.items pool active refl (omega arith)

    run_gives_up :
        (start_console : Bool)
        → (stop_all stopped_at start_console a).2 ≡ false
        → run stopped_at start_console a pool ≡ returned false emptied
    unfolding run
    run_gives_up start_console h = rw (run, h, drained) refl

  starts_capture :
      (start_console : Bool) (a : Active)
      → (stop_all stopped_at start_console a).2 ≡ true
      → Stops stopped_at pcap_handler
  unfolding start_threads
  starts_capture true a h = ((started-Stops (console ∷ others) a).0 h).1.0
  starts_capture false a h = ((not_started a).0 h).0

  -- With a pool that is active, where the filter of the capture cannot be set and its worker has ended,
  -- `run` gives up on that worker: it never joins a thread, and returns with an empty pool, whatever the
  -- other threads do.
  pub run-no_filter :
      {P : Type 0} (start_console : Bool) (a : Active) (pool : Queue P)
      → pool.activated ≡ true
      → ((k : ℕ) → stopped_at pcap_handler k ≡ (pcap_worker true false (start new_thread)).stopped)
      → run stopped_at start_console a pool ≡ returned false (record pool { items = [] })
  unfolding pcap_worker start
  run-no_filter start_console a pool active h =
      elim (Bool-cases (stop_all stopped_at start_console a).2) [
        | inl e ↦
            let (k, soon, seen_stopped) = starts_capture start_console a e in
            absurd_Bool (sym seen_stopped ∙ h k)
        | inr e ↦ run_gives_up a pool active start_console e
      ]
