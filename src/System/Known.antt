-- ===== src/System/Known.antt =====
-- The entries of the call map of src/container/CallMap.hpp against the ids of the calls.
use callx.Container.Entries.{All-insert, All-erase}
use callx.Container.FriendlyMap.{FriendlyMap}
use callx.Container.FriendlyMap
use callx.Container.Map.{find-insert, find-erase}
use callx.Prelude.{
  ℕ, suc, ◌<◌, ◌≡◌, refl, sym, ◌∙◌, none, some, String, string_key, arith, same, same_refl, All,
  All-mono, inl, inr, subst, false,
}
use callx.Sip.Custody.{Custody}
use callx.Sip.Moves.{Moved, taken_out}

-- For an entry, where `ids` gives the id of each call.
abbrev pub KnownEntry : (ℕ → String) → Custody → String × ℕ → Type 0
KnownEntry ids v e =
    ((ids e.1 ≡ e.0) × (FriendlyMap.find e.0 v.call_map ≡ some e.1)) × (e.1 < v.next_call)

abbrev pub Known : (ℕ → String) → Custody → Type 0
Known ids v = All (KnownEntry ids v) v.call_map.entries

pub Known-ids : (f g : ℕ → String) (v : Custody) → ((d : ℕ) → g d ≡ f d) → Known f v → Known g v
Known-ids f g v e h =
    All-mono (KnownEntry f v) (KnownEntry g v) v.call_map.entries
      (λ x k. ((e x.1 ∙ k.0.0, k.0.1), k.1)) h

KnownEntry-taken_out :
    (f : ℕ → String) (v : Custody) (i : String) (e : String × ℕ)
    → KnownEntry f v e × (same i e.0 ≡ false)
    → KnownEntry f (taken_out i v) e
unfolding FriendlyMap.erase FriendlyMap.find
KnownEntry-taken_out f v i e h =
    ((h.0.0.0, rw (find-erase i e.0 v.call_map.entries, h.1) h.0.0.1), h.0.1)

Known-taken_out : (f : ℕ → String) (v : Custody) (i : String) → Known f v → Known f (taken_out i v)
unfolding FriendlyMap.erase
Known-taken_out f v i h =
    All-mono (λ e. KnownEntry f v e × (same i e.0 ≡ false)) (KnownEntry f (taken_out i v)) _
      (KnownEntry-taken_out f v i) (All-erase (KnownEntry f v) i v.call_map.entries h)

pub Known-Moved :
    (f : ℕ → String) (c : ℕ) (i : String) (v w : Custody) → Moved c i v w → Known f v → Known f w
Known-Moved f c i v w (inl e) h = subst (Known f) (sym e) h
Known-Moved f c i v w (inr (inl e)) h = subst (Known f) (sym e) (Known-taken_out f v i h)
Known-Moved f c i v w (inr (inr e)) h = subst (Known f) (sym e) (Known-taken_out f v i h)

-- A new call under a free id.
abbrev pub added : String → Custody → Custody
added i v = record v {
  call_map = FriendlyMap.insert i v.next_call v.call_map;
  next_call = suc v.next_call;
}

KnownEntry-added :
    (f g : ℕ → String) (v : Custody) (i : String)
    → ((d : ℕ) → d < v.next_call → g d ≡ f d)
    → FriendlyMap.find i v.call_map ≡ none
    → (e : String × ℕ) → KnownEntry f v e
    → KnownEntry g (added i v) e
unfolding FriendlyMap.insert FriendlyMap.find
KnownEntry-added f g v i h n e k = (
  (h e.1 k.1 ∙ k.0.0, rw (find-insert i e.0 v.next_call v.call_map.entries, k.0.1) refl),
  omega (arith, k.1),
)

pub Known-added :
    (f g : ℕ → String) (v : Custody) (i : String)
    → ((d : ℕ) → d < v.next_call → g d ≡ f d)
    → g v.next_call ≡ i
    → FriendlyMap.find i v.call_map ≡ none
    → Known f v
    → Known g (added i v)
unfolding FriendlyMap.insert FriendlyMap.find
Known-added f g v i h e n k =
    All-insert (KnownEntry g (added i v)) i v.next_call v.call_map.entries n
      ((e, rw (find-insert i i v.next_call v.call_map.entries, n, same_refl i) refl), omega arith)
      (All-mono (KnownEntry f v) (KnownEntry g (added i v)) v.call_map.entries
        (KnownEntry-added f g v i h n) k)
