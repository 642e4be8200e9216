-- ===== src/Watchdog/Expiry.antt =====
-- Which calls a sweep of `CallMap::handleCallTimeouts`, src/container/CallMap.cpp, puts down.
use callx.Container.FriendlyMap.{FriendlyMap}
use callx.Container.FriendlyMap
use callx.Container.Map.{Map, find-erase, values, count, count-append}
use callx.Container.Map
use callx.Network.SocketAddress.{socket_key}
use callx.Prelude.{
  ℕ, ◌≤◌, ◌<◌, ◌≡◌, ◌⊎◌, inl, inr, refl, ap, ap₂, ◌∙◌, Bool, true, false, [], ◌∷◌, ◌++◌, none, some,
  Key, String, string_key, if◌then◌else◌, ltb, arith, same, All, All-append, Bool-cases,
}
use callx.Sip.World.{World, dialog_of}
use callx.Watchdog.Frame.{Frame-visit, asked, tested, call_age-tested}
use callx.Watchdog.Timeouts.{Limits, call_age, expire_if, visit, sweep}

module _ {A : Type 0} ⦃k : Key A⦄ where
  late-expire_if :
      (late : Bool) (c : ℕ) (w : World A) → (expire_if late c w).1 ≡ (if late then c ∷ [] else [])
  unfolding expire_if
  late-expire_if true c w = refl
  late-expire_if false c w = refl

  -- A visit puts a call down once for each limit that it has passed.
  late-visit :
      (limits : Limits) (c : ℕ) (w : World A)
      → (visit limits c w).1
        ≡ (if ltb limits.max_call_rtp_inactivity (asked limits c w).1 then c ∷ [] else [])
          ++ (if ltb limits.max_call_age (call_age c w) then c ∷ [] else [])
  unfolding visit
  late-visit limits c w = ap₂ ◌++◌ (late-expire_if _ c (asked limits c w).0) (
      late-expire_if _ c (tested limits c w).0
      ∙ ap (λ n. if ltb limits.max_call_age n then c ∷ [] else []) (call_age-tested limits c w))

  visit_late :
      (limits : Limits) (c : ℕ) (w : World A)
      → limits.max_call_age < call_age c w
      → 1 ≤ count c (visit limits c w).1
  visit_late limits c w h = rw (late-visit limits c w) (ground arith)

  -- What stands in the map under a call's own id, if anything, is the call.
  abbrev pub Named : World A → ℕ → Type 0
  Named w c = FriendlyMap.find (dialog_of w c).call_id w.call_map ≡ some c

  abbrev pub Safe : World A → ℕ → Type 0
  Safe w c = (FriendlyMap.find (dialog_of w c).call_id w.call_map ≡ none) ⊎ Named w c

  -- Each entry of the map has the id of its call, and is found under it.
  abbrev pub Consistent : World A → Map String ℕ → Type 0
  Consistent w m =
      All (λ e. ((dialog_of w e.1).call_id ≡ e.0) × (FriendlyMap.find e.0 w.call_map ≡ some e.1)) m

  Named-visit :
      (limits : Limits) (c : ℕ) (v w : World A) → Named w c → All (Named w) (visit limits c v).1
  Named-visit limits c v w h = rw (late-visit limits c v) (ground arith)

  pub Named-sweep :
      (limits : Limits) (m : Map String ℕ) (v w : World A)
      → Consistent w m
      → All (Named w) (sweep limits m v).1
  unfolding sweep
  Named-sweep limits [] v w h = tt
  Named-sweep limits ((i, c) ∷ m) v w h =
      All-append (Named w) (visit limits c v).1 _ (Named-visit limits c v w (rw (h.0.0) h.0.1))
        (Named-sweep limits m (visit limits c v).0 w h.1)

  call_age-visit :
      (limits : Limits) (d c : ℕ) (w : World A) → call_age c (visit limits d w).0 ≡ call_age c w
  call_age-visit limits d c w =
      let frame = Frame-visit limits d w in
      omega (arith, ap (λ n. n.steady) frame.clock, frame.ages c)

  pub sweep_late :
      (limits : Limits) (m : Map String ℕ) (w : World A) (i : String) (c : ℕ)
      → Map.find i m ≡ some c
      → limits.max_call_age < call_age c w
      → 1 ≤ count c (sweep limits m w).1
  unfolding sweep Map.find
  sweep_late limits [] w i c e h = cc
  sweep_late limits ((j, d) ∷ m) w i c e h = elim (Bool-cases (same j i)) [
    | inl hit ↦
        rw (count-append c (visit limits d w).1 (sweep limits m (visit limits d w).0).1)
          (ground (arith, visit_late limits c w h))
    | inr miss ↦
        rw (count-append c (visit limits d w).1 (sweep limits m (visit limits d w).0).1) (
          ground (arith, call_age-visit limits d c w, sweep_late limits m (visit limits d w).0 i c))
  ]
