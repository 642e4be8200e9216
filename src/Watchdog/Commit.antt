-- ===== src/Watchdog/Commit.antt =====
-- What `CallMap::handleCallTimeouts` of src/container/CallMap.cpp comes to: who holds the calls
-- after the commit.
use callx.Container.FriendlyMap.{FriendlyMap}
use callx.Container.FriendlyMap
use callx.Container.Map.{find-erase, count, count-append}
use callx.Network.SocketAddress.{socket_key}
use callx.Prelude.{
  ℕ, ◌+◌, ◌≤◌, ◌<◌, ◌≡◌, inl, inr, refl, sym, ap, ap₂, ◌∙◌, false, List, [], ◌∷◌, none, Key, String,
  string_key, ◌==◌, ==_iff, arith, same_iff, same_refl, All, All-mono, Bool-cases, subst,
}
use callx.Sip.Custody.{custody}
use callx.Sip.Ownership.{Owned, Moved-Owned}
use callx.Sip.World.{World, dialog_of}
use callx.Watchdog.Frame.{Frame-sweep}
use callx.Watchdog.Expiry.{Named, Safe, Consistent, Named-sweep, sweep_late}
use callx.Watchdog.Timeouts.{Limits, call_age, sweep, commit_call, commit, handle_call_timeouts}

module _ {A : Type 0} ⦃k : Key A⦄ where
  Safe-commit_call : (c x : ℕ) (w : World A) → Safe w x → Safe (commit_call c w) x
  unfolding commit_call FriendlyMap.find FriendlyMap.erase
  Safe-commit_call c x w h =
      ground (arith, find-erase (dialog_of w c).call_id (dialog_of w x).call_id w.call_map.entries)

  Owned-commit_call :
      (c : ℕ) (w : World A) → Safe w c → Owned (custody w) → Owned (custody (commit_call c w))
  unfolding commit_call
  Owned-commit_call c w (inl e) o = rw (e, commit_call) o
  Owned-commit_call c w (inr e) o =
      rw (e, commit_call) (Moved-Owned c (dialog_of w c).call_id (custody w) _ e (inr (inr refl)) o)

  Owned-commit :
      (late : List ℕ) (w : World A)
      → All (Safe w) late
      → Owned (custody w)
      → Owned (custody (commit late w))
  unfolding commit
  Owned-commit [] w h o = o
  Owned-commit (c ∷ late) w h o =
      Owned-commit late (commit_call c w)
        (All-mono (Safe w) (Safe (commit_call c w)) late (λ x. Safe-commit_call c x w) h.1)
        (Owned-commit_call c w h.0 o)

  Safe-sweep :
      (limits : Limits) (w : World A) (x : ℕ)
      → Named w x
      → Safe (sweep limits w.call_map.entries w).0 x
  Safe-sweep limits w x h =
      let frame = Frame-sweep limits w.call_map.entries w in
      inr (ap₂ FriendlyMap.find (frame.ids x) (ap (λ v. v.call_map) frame.held) ∙ h)

  -- Where each entry of the call map has the id of its call and is found under it, and each call has
  -- one owner at most, the timeouts, with nobody between the snapshot and the commit, leave each call
  -- with one owner at most, also a call that passes two limits at once.
  pub handle_call_timeouts-Owned :
      (limits : Limits) (w : World A)
      → Consistent w w.call_map.entries
      → Owned (custody w)
      → Owned (custody (handle_call_timeouts limits w))
  unfolding handle_call_timeouts
  handle_call_timeouts-Owned limits w h o =
      let m = w.call_map.entries in
      Owned-commit (sweep limits m w).1 (sweep limits m w).0
        (All-mono (Named w) (Safe (sweep limits m w).0) _ (Safe-sweep limits w)
          (Named-sweep limits m w w h))
        (subst Owned (sym (Frame-sweep limits m w).held) o)

  find-commit_call-none :
      (c : ℕ) (w : World A) (i : String)
      → FriendlyMap.find i w.call_map ≡ none
      → FriendlyMap.find i (commit_call c w).call_map ≡ none
  unfolding commit_call FriendlyMap.find FriendlyMap.erase
  find-commit_call-none c w i h =
      ground (arith, find-erase (dialog_of w c).call_id i w.call_map.entries)

  queue-commit_call_le :
      (x : ℕ) (w : World A) (c : ℕ)
      → count c w.decode_queue ≤ count c (commit_call x w).decode_queue
  unfolding commit_call
  queue-commit_call_le x w c = ground (arith, count-append c w.decode_queue (x ∷ []))

  find-commit-none :
      (late : List ℕ) (w : World A) (i : String)
      → FriendlyMap.find i w.call_map ≡ none
      → FriendlyMap.find i (commit late w).call_map ≡ none
  unfolding commit
  find-commit-none [] w i h = h
  find-commit-none (c ∷ late) w i h =
      find-commit-none late (commit_call c w) i (find-commit_call-none c w i h)

  queue-commit_le :
      (late : List ℕ) (w : World A) (c : ℕ)
      → count c w.decode_queue ≤ count c (commit late w).decode_queue
  unfolding commit
  queue-commit_le [] w c = omega arith
  queue-commit_le (x ∷ late) w c =
      omega (arith, queue-commit_call_le x w c, queue-commit_le late (commit_call x w) c)

  pub dialog-commit_call : (x c : ℕ) (w : World A) → dialog_of (commit_call x w) c ≡ dialog_of w c
  unfolding commit_call
  dialog-commit_call x c w = ground arith

  Named-commit_call :
      (x c : ℕ) (w : World A) → Safe w x → Named w c → (x == c) ≡ false → Named (commit_call x w) c
  unfolding commit_call FriendlyMap.find FriendlyMap.erase
  Named-commit_call x c w h e miss = ground (
    arith,
    find-erase (dialog_of w x).call_id (dialog_of w c).call_id w.call_map.entries,
    same_iff (dialog_of w x).call_id (dialog_of w c).call_id,
  )

  commit_call_moves :
      (c : ℕ) (w : World A)
      → Named w c
      → (FriendlyMap.find (dialog_of w c).call_id (commit_call c w).call_map ≡ none)
        × (count c w.decode_queue + 1 ≤ count c (commit_call c w).decode_queue)
  unfolding commit_call FriendlyMap.find FriendlyMap.erase
  commit_call_moves c w e = ground (
    arith,
    find-erase (dialog_of w c).call_id (dialog_of w c).call_id w.call_map.entries,
    same_refl (dialog_of w c).call_id,
    count-append c w.decode_queue (c ∷ []),
  )

  commit_moves :
      (late : List ℕ) (w : World A) (c : ℕ)
      → All (Safe w) late
      → Named w c
      → 1 ≤ count c late
      → (FriendlyMap.find (dialog_of w c).call_id (commit late w).call_map ≡ none)
        × (count c w.decode_queue + 1 ≤ count c (commit late w).decode_queue)
  unfolding commit
  commit_moves [] w c h e l = absurd (omega arith)
  commit_moves (x ∷ late) w c h e l = elim (Bool-cases (x == c)) [
    | inl hit ↦ moved ((==_iff x c).0 hit)
    | inr miss ↦
        let w' = commit_call x w in
        let rest =
          commit_moves late w' c
            (All-mono (Safe w) (Safe w') late (λ y. Safe-commit_call x y w) h.1)
            (Named-commit_call x c w h.0 e miss) (ground arith) in
        (
          ap (λ d. FriendlyMap.find d.call_id (commit late w').call_map)
                (sym (dialog-commit_call x c w))
              ∙ rest.0,
          omega (arith, queue-commit_call_le x w c, rest.1),
        )
  ]
    where
      moved :
          x ≡ c
          → (FriendlyMap.find (dialog_of w c).call_id (commit late (commit_call x w)).call_map
              ≡ none)
            × (count c w.decode_queue + 1 ≤ count c (commit late (commit_call x w)).decode_queue)
      moved same_call =
          let done = commit_call_moves c w e in
          rw same_call (
            find-commit-none late (commit_call c w) _ done.0,
            omega (arith, queue-commit_le late (commit_call c w) c, done.1),
          )

  -- Where each entry of the call map has the id of its call and is found under it: a call that is
  -- older than the limit, and stands in the map under its own id, is out of the map after the
  -- timeouts, and stands in the decode queue at least once more than before.
  pub handle_call_timeouts_old :
      (limits : Limits) (w : World A) (c : ℕ)
      → Consistent w w.call_map.entries
      → Named w c
      → limits.max_call_age < call_age c w
      → let w' = handle_call_timeouts limits w in
        (FriendlyMap.find (dialog_of w c).call_id w'.call_map ≡ none)
        × (count c w.decode_queue + 1 ≤ count c w'.decode_queue)
  unfolding handle_call_timeouts FriendlyMap.find
  handle_call_timeouts_old limits w c h e old =
      let m = w.call_map.entries in
      let late = (sweep limits m w).1 in
      let v = (sweep limits m w).0 in
      let frame = Frame-sweep limits m w in
      let named = ap₂ FriendlyMap.find (frame.ids c) (ap (λ u. u.call_map) frame.held) ∙ e in
      let rest =
        commit_moves late v c
          (All-mono (Named w) (Safe v) late (Safe-sweep limits w) (Named-sweep limits m w w h))
          named (sweep_late limits m w (dialog_of w c).call_id c e old) in
      (
        ap (λ i. FriendlyMap.find i (commit late v).call_map) (sym (frame.ids c)) ∙ rest.0,
        omega (arith, rest.1, ap (λ u. count c u.decode_queue) frame.held),
      )
