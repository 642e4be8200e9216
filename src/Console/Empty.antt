-- ===== src/Console/Empty.antt =====
-- What src/console shows of maps without entries.
use callx.Console.Report.{Levels, response, output_of, prompt}
use callx.Console.Maps.{
  Printer, call_map_text, no_calls, calls_text, event_map_text, no_events, callers_text, or_message,
}
use callx.Console.Session.{call_map, sba_event_map, clear_maps}
use callx.Container.FriendlyMap
use callx.Container.Map.{Map}
use callx.Prelude.{
  ℕ, ◌<◌, ◌≡◌, ◌≢◌, ◌↔◌, refl, sym, ap, ◌∙◌, List, [], ◌∷◌, ◌++◌, String, Store, Bytes, arith,
  get_or, length,
}
use callx.Sba.Types.{SbaEvent}
use callx.Sip.World.{Call, World}

shown : (message text : Bytes) → 0 < length text → or_message message text ≡ text
shown message text h = ground arith

different : {a b : ℕ} → a ≡ b → a ≡ 32 → b ≡ 77 → ⊥
different e h k = omega (arith, e, h, k)

other_letter : {a b : ℕ} → a ≡ b → a ≡ 67 → b ≡ 83 → ⊥
other_letter e h k = omega (arith, e, h, k)

module _ {A : Type 0} where
  calls_shown :
      (calls : Store (Call A)) (id : String) (c : ℕ) (rest : Map String ℕ)
      → or_message no_calls (calls_text calls ((id, c) ∷ rest)) ++ prompt ≢ no_calls ++ prompt
  unfolding calls_text prompt
  calls_shown calls id c rest e =
      let text = calls_text calls ((id, c) ∷ rest) in
      let own : or_message no_calls text ≡ text = shown no_calls text (omega arith) in
      let eighth : get_or (text ++ prompt) 6 0 ≡ get_or (no_calls ++ prompt) 6 0 =
        ap (λ u. get_or (u ++ prompt) 6 0) (sym own) ∙ ap (λ u. get_or u 6 0) e in
      different eighth refl refl

  -- The answer to CallMap is the message exactly if there are no calls.
  calls_empty :
      (calls : Store (Call A)) (m : Map String ℕ)
      → (or_message no_calls (calls_text calls m) ++ prompt ≡ no_calls ++ prompt) ↔ (m ≡ [])
  unfolding calls_text
  calls_empty calls [] = (λ e. refl, λ e. refl)
  calls_empty calls ((id, c) ∷ rest) = (λ e. absurd (calls_shown calls id c rest e), λ e. absurd cc)

module _ (print : Printer) where
  callers_shown :
      (caller : String) (events : List SbaEvent) (rest : Map String (List SbaEvent))
      → or_message no_events (callers_text print ((caller, events) ∷ rest)) ++ prompt
        ≢ no_events ++ prompt
  unfolding callers_text prompt
  callers_shown caller events rest e =
      let text = callers_text print ((caller, events) ∷ rest) in
      let own : or_message no_events text ≡ text = shown no_events text (omega arith) in
      let third : get_or (text ++ prompt) 2 0 ≡ get_or (no_events ++ prompt) 2 0 =
        ap (λ u. get_or (u ++ prompt) 2 0) (sym own) ∙ ap (λ u. get_or u 2 0) e in
      other_letter third refl refl

  callers_empty :
      (m : Map String (List SbaEvent))
      → (or_message no_events (callers_text print m) ++ prompt ≡ no_events ++ prompt) ↔ (m ≡ [])
  unfolding callers_text
  callers_empty [] = (λ e. refl, λ e. refl)
  callers_empty ((caller, events) ∷ rest) =
      (λ e. absurd (callers_shown caller events rest e), λ e. absurd cc)

-- The console answers CallMap and SbaEventMap with the message that the map is empty exactly if it has
-- no entries, and after ClearSba SbaEventMap is answered so, whatever numbers and times look like.
response-empty_iff :
    {A : Type 0} (print : Printer) (l : Levels) (w : World A)
    → ((response print l w call_map ≡ no_calls ++ prompt) ↔ (w.call_map.entries ≡ []))
      × ((response print l w sba_event_map ≡ no_events ++ prompt) ↔ (w.event_map.entries ≡ []))
      × (response print l (clear_maps w) sba_event_map ≡ no_events ++ prompt)
unfolding response output_of call_map_text event_map_text clear_maps FriendlyMap.erase_all
response-empty_iff print l w = (
  calls_empty w.calls w.call_map.entries,
  callers_empty print w.event_map.entries,
  (callers_empty print []).1 refl,
)
