-- ===== src/Threads.antt =====
-- src/main/CallxThread.cpp, and of src/network/PcapHandler.cpp how its worker ends.
use callx.Prelude.{
  ℕ, zero, suc, ◌+◌, ◌<◌, ◌≡◌, ◌↔◌, ap, ◌∙◌, inl, inr, Bool, true, false, not, ◌&&◌, arith,
  if◌then◌else◌, Bool-cases,
}

pub record CallxThread : Type 0 where
  pub stop_requested : Bool
  pub stopped : Bool

-- The constructor.
unfoldable pub new_thread : CallxThread
new_thread = record { stop_requested = false; stopped = true }

unfoldable pub start : CallxThread → CallxThread
start t = record t { stopped = false }

-- The loop of `stop`, over what `m_stopped` holds at the polls of the next seconds.
unfoldable pub polls : (ℕ → Bool) → ℕ → ℕ → Bool
polls stopped_at i zero = false
polls stopped_at i (suc n) =
    let rest = polls stopped_at (i + 1) n in if stopped_at i then true else rest

-- `stop`, with its result
unfoldable pub stop : (ℕ → Bool) → CallxThread → CallxThread × Bool
stop stopped_at t = (record t { stop_requested = true }, polls stopped_at 0 10)

-- `PcapHandler::worker` once it has returned: early where the device cannot be opened or the filter
-- cannot be set, else after the request to stop.
unfoldable pub pcap_worker : Bool → Bool → CallxThread → CallxThread
pcap_worker opened filtered t =
    if not opened then t else if not filtered then t else record t { stopped = true }

polls_found :
    (stopped_at : ℕ → Bool) (n i k : ℕ)
    → k < n
    → stopped_at (i + k) ≡ true
    → polls stopped_at i n ≡ true
unfolding polls
polls_found stopped_at zero i k l h = absurd (omega (arith, l))
polls_found stopped_at (suc n) i zero l h =
    let e : i + 0 ≡ i = omega arith in ground (arith, ap stopped_at e)
polls_found stopped_at (suc n) i (suc k) l h =
    let e : i + 1 + k ≡ i + suc k = omega arith in
    let later = polls_found stopped_at n (i + 1) k (omega (arith, l)) (ap stopped_at e ∙ h) in
    ground (arith, later)

polls_witness :
    (stopped_at : ℕ → Bool) (n i : ℕ)
    → polls stopped_at i n ≡ true
    → (k : ℕ) × (k < n) × (stopped_at (i + k) ≡ true)
unfolding polls
polls_witness stopped_at zero i h = cc
polls_witness stopped_at (suc n) i h = elim (Bool-cases (stopped_at i)) [
  | inl e ↦ let f : i + 0 ≡ i = omega arith in (0, omega arith, ap stopped_at f ∙ e)
  | inr e ↦
      let (k, l, g) = polls_witness stopped_at n (i + 1) (ground arith) in
      let f : i + suc k ≡ i + 1 + k = omega arith in (suc k, omega (arith, l), ap stopped_at f ∙ g)
]

-- `stop` returns true exactly if the worker has stopped by one of the ten polls.
pub stop_iff :
    (stopped_at : ℕ → Bool) (t : CallxThread)
    → ((stop stopped_at t).1 ≡ true) ↔ ((k : ℕ) × (k < 10) × (stopped_at k ≡ true))
unfolding stop
stop_iff stopped_at t = (
  λ h.
      let (k, l, g) = polls_witness stopped_at 10 0 h in
      let e : k ≡ 0 + k = omega arith in (k, l, ap stopped_at e ∙ g),
  λ (k, l, g).
      let e : 0 + k ≡ k = omega arith in polls_found stopped_at 10 0 k l (ap stopped_at e ∙ g),
)

-- A capture thread whose worker has returned, before all ten polls, is reported as stopped exactly if
-- its device could be opened and its filter could be set.
stop-pcap_worker :
    (opened filtered : Bool) (t : CallxThread)
    → (stop
        (λ k. (pcap_worker opened filtered (start t)).stopped)
        (pcap_worker opened filtered (start t))).1
      ≡ (opened && filtered)
unfolding stop pcap_worker start polls
stop-pcap_worker opened filtered t = ground arith
