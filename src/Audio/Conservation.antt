-- ===== src/Audio/Conservation.antt =====
-- The packets of a call's sinks through `AudioHandler::worker` of src/audio/AudioHandler.cpp.
use callx.Audio.Decoding.{running}
use callx.Audio.Recording.{decode_deque-IsRecording, is_silent}
use callx.Audio.RtpSink.{RtpSink, take_packets}
use callx.Audio.Worker.{Handler, decode_sink, decode_sinks, new_audio}
use callx.Audio.Samples.{all_samples}
use callx.Container.Queue.{push}
use callx.Container.Map.{count}
use callx.Network.Frame.{size_mod}
use callx.Network.Payload.{Payload}
use callx.Prelude.{
  ℕ, ◌+◌, ◌≤◌, ◌<◌, ◌≡◌, ◌≢◌, refl, sym, ap, ◌∙◌, inl, inr, true, List, [], ◌∷◌, ◌++◌, Option, none,
  some, arith, if◌then◌else◌, ◌==◌, Store, update, All, Option-cases, Bool-cases, is_some, subst,
}
use callx.Sip.World.{Call}
use mathlib.Core.List.{append-nil, append_assoc}

-- No sink stands twice in a list.
abbrev pub IsDistinct : List ℕ → Type 0
IsDistinct [] = Unit
IsDistinct (r ∷ rest) = (count r rest ≡ 0) × IsDistinct rest

abbrev pub HasPackets : Store RtpSink → List ℕ → Type 0
HasPackets sinks rs = All (λ r. is_some (sinks r).packets ≡ true) rs

abbrev packets_or_none : Option (List Payload) → List Payload
packets_or_none none = []
packets_or_none (some ps) = ps

abbrev pub all_packets : Store RtpSink → List ℕ → List Payload
all_packets sinks [] = []
all_packets sinks (r ∷ rest) = packets_or_none (sinks r).packets ++ all_packets sinks rest

without : Store RtpSink → ℕ → Store RtpSink
without sinks r = update sinks r (take_packets (sinks r)).0

HasPackets-without :
    (sinks : Store RtpSink) (r : ℕ) (rs : List ℕ)
    → count r rs ≡ 0
    → HasPackets sinks rs
    → HasPackets (without sinks r) rs
unfolding without take_packets
HasPackets-without sinks r [] h l = tt
HasPackets-without sinks r (x ∷ rs) h l = ground (arith, HasPackets-without sinks r rs)

all_packets-without :
    (sinks : Store RtpSink) (r : ℕ) (rs : List ℕ)
    → count r rs ≡ 0
    → all_packets (without sinks r) rs ≡ all_packets sinks rs
unfolding without take_packets
all_packets-without sinks r [] h = refl
all_packets-without sinks r (x ∷ rs) h = ground (arith, all_packets-without sinks r rs)

module _ {A : Type 0} (n : ℕ) (large : 320 ≤ n) (small : n + 320 < size_mod) where
  new_audio-empty : (c : Call A) (s : RtpSink) → (new_audio n c s).mem_chunk_deque ≡ []
  unfolding new_audio
  new_audio-empty c s = refl

  decode_sink-one :
      (c : Call A) (r : ℕ) (h : Handler)
      → is_some (h.sinks r).packets ≡ true
      → (e : Handler) × (decode_sink n c r h ≡ running e)
        × (e.sinks ≡ without h.sinks r)
        × (e.pool ≡ h.pool ++ packets_or_none (h.sinks r).packets)
        × (e.rtp_seq_num_error ≡ h.rtp_seq_num_error)
  unfolding decode_sink take_packets without
  decode_sink-one c r h l = elim (Option-cases (h.sinks r).packets) [
    | inl e ↦ ground arith
    | inr (ps, e) ↦
        let audio = new_audio n c (record (h.sinks r) { packets = none }) in
        let (result, is, run) =
          decode_deque-IsRecording n audio ps h.rtp_seq_num_error h.pcm_audio_queue large small
            (new_audio-empty c _) in
        (
          record h {
            sinks = without h.sinks r;
            pcm_audio_queue =
                if is_silent (all_samples ps)
                then h.pcm_audio_queue
                else push result h.pcm_audio_queue;
            pool = h.pool ++ ps;
          },
          rw (e, run, decode_sink) refl,
          refl,
          rw e refl,
          refl,
        )
  ]

  -- With chunks of at least 320 bytes the decoder runs through a call whose sinks are distinct and
  -- still have their deques: it neither exits nor meets a missing deque, every packet of every sink
  -- goes back to the pool, in the order of the sinks and of their packets, each sink is left without a
  -- deque, and no error in the sequence numbers is counted.
  pub decode_sinks-pool :
      (c : Call A) (rs : List ℕ) (h : Handler)
      → IsDistinct rs
      → HasPackets h.sinks rs
      → (e : Handler) × (decode_sinks n c rs h ≡ running e)
        × (e.pool ≡ h.pool ++ all_packets h.sinks rs)
        × ((r : ℕ) → count r rs ≢ 0 → (e.sinks r).packets ≡ none)
        × ((r : ℕ) → count r rs ≡ 0 → e.sinks r ≡ h.sinks r)
        × (e.rtp_seq_num_error ≡ h.rtp_seq_num_error)
  unfolding decode_sinks without take_packets
  decode_sinks-pool c [] h d l =
      (h, refl, sym (append-nil h.pool), λ r q. absurd (q refl), λ r q. refl, refl)
  decode_sinks-pool c (r ∷ rs) h d l =
      let (x, e, s, p, k) = decode_sink-one c r h l.0 in
      let more = HasPackets-without h.sinks r rs d.0 l.1 in
      let (y, f, q, gone, others, errors) =
        decode_sinks-pool c rs x d.1 (subst (λ t. HasPackets t rs) (sym s) more) in
      (
        y,
        rw (e, f, decode_sinks) refl,
        q
            ∙ ap (λ t. t ++ all_packets x.sinks rs) p
            ∙ append_assoc h.pool (packets_or_none (h.sinks r).packets) (all_packets x.sinks rs)
            ∙ ap (λ t. h.pool ++ (packets_or_none (h.sinks r).packets ++ t))
                (ap (λ t. all_packets t rs) s ∙ all_packets-without h.sinks r rs d.0),
        λ j m. elim (Bool-cases (count j rs == 0)) [
          | inl b ↦ ground (arith, others j (ground arith), ap (λ t. t j) s)
          | inr b ↦ gone j (ground arith)
        ],
        λ j m. others j (ground arith) ∙ ap (λ t. t j) s ∙ ground arith,
        errors ∙ k,
      )
