-- ===== src/Main/Running.antt =====
-- The signals of src/main/callx.cpp and `run`: the pool of the packets, the nine threads, and their end.
-- What the workers do is in the other modules, but for `stop` on a capture whose device could not be opened,
-- which hands libpcap a null pointer; here `m_stopped` of a worker that runs is a parameter.
use callx.Container.Queue.{Queue, waits, deactivated, popped, push, wait_and_pop}
use callx.Prelude.{
  ℕ, zero, suc, ℤ, pos, negsuc, Bool, true, false, ◌&&◌, ◌||◌, List, [], ◌∷◌, map, Option, none,
  some, ◌==◌, length, if◌then◌else◌,
}
use callx.Threads.{CallxThread, new_thread, start, stop}

-- `sigHandler`, with the flag `stopRequested`
unfoldable pub sig_handler : ℕ → Bool → Bool
sig_handler sig stop_requested =
    if sig == 2 then true else if sig == 3 then true else if sig == 15 then true else stop_requested

-- The signals that `run` registers it for: SIGTERM, SIGINT and SIGUSR1.
abbrev pub is_registered : ℕ → Bool
is_registered sig = (sig == 15) || (sig == 2) || (sig == 10)

-- The process until it is asked to stop, over the signals that it gets. One that is not registered does
-- what it does by default: it ends the process or nothing happens.
pub data Alive : Type 0 where
  waiting : Alive
  stopping : Alive
  killed : Alive

abbrev pub after_signal : Bool → Alive
after_signal true = stopping
after_signal false = waiting

unfoldable pub wait_for_stop : (ℕ → Bool) → List ℕ → Alive
wait_for_stop kills [] = waiting
wait_for_stop kills (sig ∷ rest) =
    let later = wait_for_stop kills rest in
    if is_registered sig
    then (if sig_handler sig false then stopping else later)
    else (if kills sig then killed else later)

-- The loop that fills the pool; `make` is a new packet.
unfoldable pub fill_pool : {P : Type 0} → ℤ → P → Queue P → Queue P
fill_pool (pos zero) make q = q
fill_pool (pos (suc n)) make q = fill_pool (pos n) make (push make q)
fill_pool (negsuc n) make q = q

pub data ThreadName : Type 0 where
  console : ThreadName
  pcap_handler : ThreadName
  tlayer_dispatcher : ThreadName
  udp_handler : ThreadName
  sip_processor : ThreadName
  audio_handler : ThreadName
  output_handler : ThreadName
  sig_based_ana : ThreadName
  watchdog : ThreadName

-- An object of a thread; it is joinable between its `start` and its `join`.
pub record Worker : Type 0 where
  pub name : ThreadName
  pub thread : CallxThread
  pub joinable : Bool

abbrev pub others : List ThreadName
others =
    pcap_handler ∷ tlayer_dispatcher ∷ udp_handler ∷ sip_processor ∷ audio_handler ∷ output_handler
    ∷ sig_based_ana ∷ watchdog ∷ []

unfoldable pub new_worker : ThreadName → Worker
new_worker name = record { name = name; thread = new_thread; joinable = false }

unfoldable pub start_worker : Worker → Worker
start_worker w = record w { thread = start w.thread; joinable = true }

-- The objects, started; the console on demand.
unfoldable pub start_threads : Bool → List Worker
start_threads start_console =
    (if start_console then start_worker (new_worker console) else new_worker console)
    ∷ map (λ name. start_worker (new_worker name)) others

-- The queues that the `stop` of a thread deactivates.
pub record Active : Type 0 where
  pub pcap_packet_queue : Bool
  pub udp_packet_queue : Bool
  pub sip_packet_queue : Bool
  pub call_decode_queue : Bool
  pub pcm_audio_queue : Bool

unfoldable pub deactivate_of : ThreadName → Active → Active
deactivate_of console a = a
deactivate_of pcap_handler a = a
deactivate_of tlayer_dispatcher a = record a { pcap_packet_queue = false }
deactivate_of udp_handler a = record a { udp_packet_queue = false }
deactivate_of sip_processor a = record a { sip_packet_queue = false }
deactivate_of audio_handler a = record a { call_decode_queue = false }
deactivate_of output_handler a = record a { pcm_audio_queue = false }
deactivate_of sig_based_ana a = a
deactivate_of watchdog a = a

-- What the polls see: a thread that was not started is stopped.
abbrev pub seen : (ThreadName → ℕ → Bool) → Worker → ℕ → Bool
seen stopped_at w k = if w.joinable then stopped_at w.name k else w.thread.stopped

-- The calls of `stop`, each of them, and whether all of them returned true.
unfoldable pub stop_threads :
    (ThreadName → ℕ → Bool) → List Worker → Active → List Worker × Active × Bool
stop_threads stopped_at [] a = ([], a, true)
stop_threads stopped_at (w ∷ rest) a =
    let (t, stopped) = stop (seen stopped_at w) w.thread in
    let (ws, b, all) = stop_threads stopped_at rest (deactivate_of w.name a) in
    (record w { thread = t } ∷ ws, b, stopped && all)

-- The calls of `join`; `none` where one throws, since its thread was not started.
unfoldable pub join_threads : List Worker → Option (List Worker)
join_threads [] = some []
join_threads (w ∷ rest) =
    let joined = join_threads rest in
    if w.joinable
    then (elim joined [ none ↦ none | some ws ↦ some (record w { joinable = false } ∷ ws) ])
    else none

abbrev pub stop_all : (ThreadName → ℕ → Bool) → Bool → Active → List Worker × Active × Bool
stop_all stopped_at start_console a = stop_threads stopped_at (start_threads start_console) a

-- The loop that empties the pool, where nobody else uses it, on fuel; `none` where it goes on, and where it waits.
unfoldable pub drain : {P : Type 0} → ℕ → Queue P → Option (Queue P)
drain zero q = none
drain (suc n) q =
    let next : Option (Queue _) = elim (wait_and_pop q) [
      | waits ↦ none
      | deactivated ↦ drain n q
      | popped p rest ↦ drain n rest
    ] in
    if length q.items == 0 then some q else next

-- The end of `run`: it returns, with the pool that it deletes, or throws before it cleans up, or stays
-- in the loop.
pub data RunEnd (P : Type 0) : Type 0 where
  returned : Bool → Queue P → RunEnd P
  thrown : RunEnd P
  stays : RunEnd P

abbrev clean_up : {P : Type 0} → Bool → Option (Queue P) → RunEnd P
clean_up all none = stays
clean_up all (some q) = returned all q

abbrev after_join : {P : Type 0} → Option (List Worker) → Queue P → RunEnd P
after_join none q = thrown
after_join (some ws) q = clean_up true (drain (suc (length q.items)) q)

abbrev end_run : {P : Type 0} → List Worker × Active × Bool → Queue P → RunEnd P
end_run (ws, a, true) q = after_join (join_threads ws) q
end_run (ws, a, false) q = clean_up false (drain (suc (length q.items)) q)

-- `run` from the request to stop on, with the pool that the threads leave and that none of them uses any
-- more; `Beside` has a capture that still takes packets.
unfoldable pub run : {P : Type 0} → (ThreadName → ℕ → Bool) → Bool → Active → Queue P → RunEnd P
run stopped_at start_console a pool = end_run (stop_all stopped_at start_console a) pool
