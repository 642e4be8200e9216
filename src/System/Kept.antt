-- ===== src/System/Kept.antt =====
-- The dialog state, the re-INVITE flag and the id of a call of src/sip/SipProcessor.cpp, through the
-- packets that follow the refusal of a re-INVITE.
use callx.Sip.Ids.{call_id_of, call_id-update_activity_ts}
use callx.Sip.IdSteps.{call_id-handle_in_call}
use callx.System.Interleaving.{call_id-create_call_old}
use callx.Prelude.{
  String, ℕ, ◌≡◌, ◌≢◌, ◌<◌, inl, inr, refl, sym, ap, ◌∙◌, true, Key, string_key, arith, some,
}
use callx.Sip.Dialogs.{Phase, phase, phase-unregister_rtp_sinks, phase-update_activity_ts}
use callx.Sip.Diagram.{
  Edge, opened, reopened, answered, accepted, refused, stayed, handle_in_call-Edge,
}
use callx.Sip.Ownership.{Moved-handle_in_call}
use callx.Sip.Processor.{Arrival, create_call, reset_call, handle_in_call}
use callx.Sip.Types.{SipPacket, MessageType, ResponseCategory, response_category}
use callx.Sip.World.{World, update_activity_ts}

-- Neither a provisional response nor a success.
pub record IsQuiet {A : Type 0} (p : SipPacket A) : Type 0 where
  pub no_provisional :
      p.message_type ≡ MessageType.response
      → response_category p.response_code ≢ ResponseCategory.provisional
  pub no_success :
      p.message_type ≡ MessageType.response
      → response_category p.response_code ≢ ResponseCategory.success

-- What is parsed, if it has the call id `i`, is quiet.
abbrev pub QuietFor : {A : Type 0} → String → Arrival A → Type 0
QuietFor i a = (p : SipPacket _) → a.parsed ≡ some p → p.call_id ≡ i → IsQuiet p

Edge-quiet :
    {A : Type 0} (p : SipPacket A) (v w : Phase)
    → IsQuiet p
    → v.reinvite ≡ true
    → Edge p v w
    → w ≡ v
Edge-quiet p v w q r (opened h m e f) = cc
Edge-quiet p v w q r (reopened h m e f) = cc
Edge-quiet p v w q r (answered h e t f) = absurd (q.no_provisional h e)
Edge-quiet p v w q r (accepted h e f) = absurd (q.no_success h e)
Edge-quiet p v w q r (refused h m e f) = cc
Edge-quiet p v w q r (stayed e) = e

module _ {A : Type 0} ⦃k : Key A⦄ where
  phase-handle_in_call_quiet :
      (c d : ℕ) (p : SipPacket A) (w : World A)
      → (d ≡ c → IsQuiet p)
      → (phase w d).reinvite ≡ true
      → phase (handle_in_call c p w) d ≡ phase w d
  phase-handle_in_call_quiet c d p w q r = elim (handle_in_call-Edge c d p w) [
    | inl e ↦ e
    | inr (e, edge) ↦ Edge-quiet p (phase w c) _ (q e) (rw (← e) r) edge ∙ ap (phase w) (sym e)
  ]

  phase-create_call :
      (p : SipPacket A) (w : World A) (d : ℕ)
      → d < w.next_call
      → phase (create_call p w) d ≡ phase w d
  unfolding create_call
  phase-create_call p w d h = ground arith

  next_call-handle_in_call :
      (c : ℕ) (p : SipPacket A) (w : World A) → (handle_in_call c p w).next_call ≡ w.next_call
  next_call-handle_in_call c p w = ground (arith, Moved-handle_in_call c p w)

  -- What such a packet keeps of a call with the flag.
  unfoldable pub Kept : World A → World A → ℕ → Type 0
  Kept w w' d = (phase w' d ≡ phase w d) × (d < w'.next_call) × (call_id_of w' d ≡ call_id_of w d)

  pub Kept-trans : (u v w : World A) (d : ℕ) → Kept u v d → Kept v w d → Kept u w d
  unfolding Kept
  Kept-trans u v w d h k = (k.0 ∙ h.0, k.1, k.2 ∙ h.2)

  pub Kept-refl : (w : World A) (d : ℕ) → d < w.next_call → Kept w w d
  unfolding Kept
  Kept-refl w d l = (refl, l, refl)

  pub Kept-flag :
      (w v : World A) (d : ℕ)
      → Kept w v d
      → (phase w d).reinvite ≡ true
      → (phase v d).reinvite ≡ true
  unfolding Kept
  Kept-flag w v d h r = ap (λ x. x.reinvite) h.0 ∙ r

  pub Kept-below : (w v : World A) (d : ℕ) → Kept w v d → d < v.next_call
  unfolding Kept
  Kept-below w v d h = h.1

  pub phase-reset_call : (w : World A) (d : ℕ) → phase (reset_call w) d ≡ phase w d
  unfolding reset_call
  phase-reset_call w d = grind (arith, phase-unregister_rtp_sinks)

  pub Kept-handle_in_call :
      (c d : ℕ) (p : SipPacket A) (w : World A)
      → (d ≡ c → IsQuiet p)
      → (phase w d).reinvite ≡ true
      → d < w.next_call
      → Kept w (handle_in_call c p w) d
  unfolding Kept
  Kept-handle_in_call c d p w q r l = (
    phase-handle_in_call_quiet c d p w q r,
    rw (next_call-handle_in_call c p w) l,
    call_id-handle_in_call c p w d,
  )

  pub Kept-create_call :
      (p : SipPacket A) (w : World A) (d : ℕ) → d < w.next_call → Kept w (create_call p w) d
  unfolding Kept create_call
  Kept-create_call p w d l =
      (phase-create_call p w d l, omega arith, call_id-create_call_old p w d l)

  pub Kept-update_activity_ts :
      (c : ℕ) (w : World A) (d : ℕ) → d < w.next_call → Kept w (update_activity_ts c w) d
  unfolding Kept update_activity_ts
  Kept-update_activity_ts c w d l =
      (phase-update_activity_ts c w d, l, call_id-update_activity_ts c w d)
