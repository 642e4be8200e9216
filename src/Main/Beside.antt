-- ===== src/Main/Beside.antt =====
-- The end of `run` in src/main/callx.cpp next to a capture thread that `run` gave up on, which still takes
-- packets from the pool (src/network/PcapHandler.cpp), where the capture device could be opened.
use callx.Container.Queue.{Queue, Popped, waits, deactivated, popped, wait_and_pop}
use callx.Container.Pops.{pops_first}
use callx.Main.Running.{
  ThreadName, pcap_handler, Worker, Active, others, join_threads, stop_all, RunEnd, returned,
  thrown, stays,
}
use callx.Main.Shutdown.{Stops, not_started, not_joined, all_joined, absurd_Bool}
use callx.Prelude.{
  ℕ, zero, suc, ◌<◌, ◌≡◌, ◌↔◌, ◌⊎◌, refl, sym, ap, subst, ◌∙◌, inl, inr, Bool, true, false, List,
  [], ◌∷◌, Option, none, some, arith, All, length, Bool-cases, ◌==◌, if◌then◌else◌,
}
use callx.Threads.{stop, stop_iff, new_thread, start}

abbrev rest_of : {P : Type 0} → Popped P → Queue P → Queue P
rest_of waits q = q
rest_of deactivated q = q
rest_of (popped p rest) q = rest

-- The callback of the capture, which takes a packet if there is one.
abbrev taken_from : {P : Type 0} → Bool → Queue P → Queue P
taken_from true q = rest_of (wait_and_pop q) q
taken_from false q = q

-- The loop that empties the pool, on fuel: between its test and its `waitAndPop` of round `k`, the
-- capture takes a packet where `takes k`. `none` where it waits for ever.
unfoldable pub drain_beside : {P : Type 0} → (ℕ → Bool) → ℕ → ℕ → Queue P → Option (Queue P)
drain_beside takes k zero q = none
drain_beside takes k (suc n) q =
    let next : Option (Queue _) = elim (wait_and_pop (taken_from (takes k) q)) [
      | waits ↦ none
      | deactivated ↦ drain_beside takes (suc k) n (taken_from (takes k) q)
      | popped p rest ↦ drain_beside takes (suc k) n rest
    ] in
    if length q.items == 0 then some q else next

abbrev clean_up_beside : {P : Type 0} → Bool → Option (Queue P) → RunEnd P
clean_up_beside all none = stays
clean_up_beside all (some q) = returned all q

abbrev after_join_beside : {P : Type 0} → (ℕ → Bool) → Option (List Worker) → Queue P → RunEnd P
after_join_beside takes none q = thrown
after_join_beside takes (some ws) q =
    clean_up_beside true (drain_beside takes 0 (suc (length q.items)) q)

abbrev end_run_beside : {P : Type 0} → (ℕ → Bool) → List Worker × Active × Bool → Queue P → RunEnd P
end_run_beside takes (ws, a, true) q = after_join_beside takes (join_threads ws) q
end_run_beside takes (ws, a, false) q =
    clean_up_beside false (drain_beside takes 0 (suc (length q.items)) q)

-- When the capture still takes packets: not if its worker was seen as stopped.
abbrev still_takes : (ThreadName → ℕ → Bool) → (ℕ → Bool) → ℕ → Bool
still_takes stopped_at takes k =
    if (stop (stopped_at pcap_handler) (start new_thread)).1 then false else takes k

-- `run` from the request to stop on, as `run` of `Running`, but the pool is shared.
unfoldable pub run_beside :
    {P : Type 0} → (ℕ → Bool) → (ThreadName → ℕ → Bool) → Bool → Active → Queue P → RunEnd P
run_beside takes stopped_at start_console a pool =
    end_run_beside (still_takes stopped_at takes) (stop_all stopped_at start_console a) pool

pops_none : {P : Type 0} (q : Queue P) → q.activated ≡ true → q.items ≡ [] → wait_and_pop q ≡ waits
unfolding wait_and_pop
pops_none q a e = simp (a, e, wait_and_pop)

List-cases : {P : Type 0} (xs : List P) → (xs ≡ []) ⊎ ((x : P) × (ys : List P) × (xs ≡ x ∷ ys))
List-cases [] = inl refl
List-cases (x ∷ xs) = inr (x, xs, refl)

-- Some round finds the pool empty, or some round waits.
drain_beside-cases :
    {P : Type 0} (takes : ℕ → Bool) (n k : ℕ) (ps : List P) (q : Queue P)
    → q.activated ≡ true
    → q.items ≡ ps
    → length ps < n
    → (drain_beside takes k n q ≡ some (record q { items = [] }))
      ⊎ ((drain_beside takes k n q ≡ none) × (j : ℕ) × (takes j ≡ true))
unfolding drain_beside
drain_beside-cases takes zero k ps q a e l = absurd (omega (arith, l))
drain_beside-cases takes (suc n) k [] q a e l =
    let z : (length q.items == 0) ≡ true = rw e refl in
    inl (simp (z, drain_beside) (ap some (ap (λ xs. record q { items = xs }) e)))
drain_beside-cases takes (suc n) k (p ∷ ps) q a e l =
    let z : (length q.items == 0) ≡ false = rw e (ground arith) in
    let first = pops_first p ps q a e in
    elim (Bool-cases (takes k)) [
      | inr t ↦
          simp (z, t, first, drain_beside)
            (drain_beside-cases takes n (suc k) ps (record q { items = ps }) a refl
              (omega (arith, l)))
      | inl t ↦ elim (List-cases ps) [
        | inl f ↦
            let empty_now = pops_none (record q { items = ps }) a f in
            inr (simp (z, t, first, empty_now, drain_beside), k, t)
        | inr (p', ps', f) ↦
            let second = pops_first p' ps' (record q { items = ps }) a f in
            simp (z, t, first, second, drain_beside)
              (drain_beside-cases takes n (suc k) ps' (record q { items = ps' }) a refl
                (omega (arith, l, ap length f)))
      ]
    ]

module _ (takes : ℕ → Bool) (stopped_at : ThreadName → ℕ → Bool) where
  takes_stopped : (j : ℕ) → still_takes stopped_at takes j ≡ true → ¬ Stops stopped_at pcap_handler
  takes_stopped j h s =
      let (one, back) = stop_iff (stopped_at pcap_handler) (start new_thread) in
      absurd_Bool (sym h ∙ ap (λ b. if b then false else takes j) (back s))

  module _ {P : Type 0} (a : Active) (pool : Queue P) (active : pool.activated ≡ true) where
    -- The pool is emptied, or the capture was not seen as stopped.
    drained_or_waits :
        (drain_beside (still_takes stopped_at takes) 0 (suc (length pool.items)) pool
          ≡ some (record pool { items = [] }))
        ⊎ ((drain_beside (still_takes stopped_at takes) 0 (suc (length pool.items)) pool ≡ none)
            × (¬ Stops stopped_at pcap_handler))
    drained_or_waits =
        elim (drain_beside-cases (still_takes stopped_at takes) (suc (length pool.items)) 0
          pool.items pool active refl (omega arith)) [
            | inl e ↦ inl e
            | inr (e, j, t) ↦ inr (e, takes_stopped j t)
          ]

    -- The ends of `run`, with the result of the calls of `stop`.
    abbrev Ends : RunEnd P → Type 0
    Ends r =
        (r ≡ thrown)
        ⊎ (((all : Bool) × (r ≡ returned all (record pool { items = [] })))
            ⊎ ((r ≡ stays) × (¬ Stops stopped_at pcap_handler)))

    cleaned :
        (all : Bool)
        → let r =
            clean_up_beside all
              (drain_beside (still_takes stopped_at takes) 0 (suc (length pool.items)) pool) in
          (¬ (r ≡ thrown)) × Ends r
    cleaned all = elim drained_or_waits [
      | inl e ↦ rw e (λ h. cc, inr (inl (all, refl)))
      | inr (e, n) ↦ rw e (λ h. cc, inr (inr (refl, n)))
    ]

    goes_on :
        (start_console all : Bool)
        → run_beside takes stopped_at start_console a pool
          ≡ clean_up_beside all
              (drain_beside (still_takes stopped_at takes) 0 (suc (length pool.items)) pool)
        → (¬ (run_beside takes stopped_at start_console a pool ≡ thrown))
          × Ends (run_beside takes stopped_at start_console a pool)
    goes_on start_console all e = subst (λ r. (¬ (r ≡ thrown)) × Ends r) (sym e) (cleaned all)

    gives_up :
        (start_console : Bool)
        → (stop_all stopped_at start_console a).2 ≡ false
        → (¬ (run_beside takes stopped_at start_console a pool ≡ thrown))
          × Ends (run_beside takes stopped_at start_console a pool)
    unfolding run_beside
    gives_up start_console h = goes_on start_console false (rw (run_beside, h) refl)

    joins :
        (stop_all stopped_at true a).2 ≡ true
        → (¬ (run_beside takes stopped_at true a pool ≡ thrown))
          × Ends (run_beside takes stopped_at true a pool)
    unfolding run_beside
    joins h =
        let (done, e) = all_joined stopped_at a in goes_on true true (rw (run_beside, h, e) refl)

    throws :
        (stop_all stopped_at false a).2 ≡ true → run_beside takes stopped_at false a pool ≡ thrown
    unfolding run_beside
    throws h = rw (run_beside, h, not_joined stopped_at a) refl

-- Where the capture device could be opened, with a pool that is active and that nobody but the capture
-- uses: `run` throws, before it has cleaned up, exactly if the console was not started and the workers
-- of all other threads are seen as stopped within ten polls. Else it returns with an empty pool, or
-- waits for ever for a packet, which it does only where the capture was not seen as stopped.
pub run_beside-ends :
    {P : Type 0} (takes : ℕ → Bool) (stopped_at : ThreadName → ℕ → Bool) (start_console : Bool)
    (a : Active) (pool : Queue P)
    → pool.activated ≡ true
    → ((run_beside takes stopped_at start_console a pool ≡ thrown)
        ↔ (start_console ≡ false) × All (Stops stopped_at) others)
      × ((run_beside takes stopped_at start_console a pool ≡ thrown)
          ⊎ (((all : Bool) × (run_beside takes stopped_at start_console a pool
                  ≡ returned all (record pool { items = [] })))
              ⊎ ((run_beside takes stopped_at start_console a pool ≡ stays)
                  × (¬ Stops stopped_at pcap_handler))))
run_beside-ends takes stopped_at true a pool active =
    elim (Bool-cases (stop_all stopped_at true a).2) [
      | inl e ↦
          let (n, r) = joins takes stopped_at a pool active e in
          ((λ h. absurd (n h), λ h. absurd_Bool h.0), r)
      | inr e ↦
          let (n, r) = gives_up takes stopped_at a pool active true e in
          ((λ h. absurd (n h), λ h. absurd_Bool h.0), r)
    ]
run_beside-ends takes stopped_at false a pool active =
    elim (Bool-cases (stop_all stopped_at false a).2) [
      | inl e ↦
          let r = throws takes stopped_at a pool active e in
          ((λ h. (refl, (not_started stopped_at a).0 e), λ h. r), inl r)
      | inr e ↦
          let (n, r) = gives_up takes stopped_at a pool active false e in
          ((λ h. absurd (n h), λ h. absurd_Bool (sym ((not_started stopped_at a).1 h.1) ∙ e)), r)
    ]
