-- ===== src/Audio/Exit.antt =====
-- When `AudioHandler::decodeRtpPacketDeque` of src/audio/AudioHandler.cpp ends the program.
use callx.Audio.G711.{decode}
use callx.Audio.Decoding.{
  is_supported, rtp_payload_type, rtp_payload_size, rtp_seq_num, pt_pcma, Decoder, running, exited,
  decode_packets, decode_deque, decode_packet, start, store, count_seq_num_error,
}
use callx.Audio.MemChunk.{new_chunk, PcmAudio, declare}
use callx.Audio.Samples.{samples, all_samples, length-decode, gsm_unsupported}
use callx.Audio.Recording.{is_silent}
use callx.Container.Queue.{Queue}
use callx.Network.Payload.{Payload}
use callx.Prelude.{
  ℤ, ℕ, ◌<◌, ◌≡◌, ◌≢◌, ◌↔◌, ◌⊎◌, refl, sym, ap, ◌∙◌, inl, inr, true, false, List, [], ◌∷◌, ◌++◌,
  arith, ltb, not, ◌||◌, ◌==◌, length, Bool-cases,
}

abbrev IsFresh : ℕ → Decoder → Type 0
IsFresh n d = d.mem_chunk ≡ new_chunk n

count_seq_num_error-mem_chunk : (d : Decoder) → (count_seq_num_error d).mem_chunk ≡ d.mem_chunk
unfolding count_seq_num_error
count_seq_num_error-mem_chunk d = ground arith

sound : (s : List ℤ) → length s ≡ 160 → is_silent s ≡ false
sound [] h = absurd (omega (arith, h))
sound (x ∷ s) h = refl

silence : (s : List ℤ) → is_silent s ≡ true → s ≡ []
silence [] h = refl
silence (x ∷ s) h = cc

silent_append : (s t : List ℤ) → is_silent s ≡ false → s ++ t ≢ []
silent_append [] t h e = cc
silent_append (x ∷ s) t h e = cc

module _ (n : ℕ) (small : n < 320) where
  store-exited : (s : List ℤ) (d : Decoder) → IsFresh n d → store n s d ≡ exited
  unfolding store declare new_chunk
  store-exited s d h = rw (h, store) (ground arith)

  decode_packet-small :
      (p : Payload) (d : Decoder)
      → IsFresh n d
      → ((is_silent (samples p) ≡ false) × (decode_packet n p d ≡ exited))
        ⊎ ((samples p ≡ []) × ((e : Decoder) × (decode_packet n p d ≡ running e) × IsFresh n e))
  unfolding decode_packet
  decode_packet-small p d h =
      let t = rtp_payload_type p in
      let x = record d { seq_num = rtp_seq_num p } in
      let c = count_seq_num_error x in
      let fresh = count_seq_num_error-mem_chunk x ∙ h in
      let keep : Decoder → Decoder = λ e. record e { recycled = e.recycled ++ p ∷ [] } in
      elim (Bool-cases (t == 3)) [
        | inl gsm ↦
            inr (ground (arith, gsm_unsupported t gsm), (keep d, rw (gsm, decode_packet) refl, h))
        | inr other ↦ elim (Bool-cases (not (is_supported t) || ltb (rtp_payload_size p) 160)) [
          | inl bad ↦ inr (ground arith, (keep c, rw (other, bad, decode_packet) refl, fresh))
          | inr good ↦
              let s = decode (t == pt_pcma) p.byte 12 in
              let plays : samples p ≡ s = ground arith in
              inl (
                rw plays (sound s (length-decode (t == pt_pcma) p.byte 12)),
                rw (other, good, store-exited s c fresh, decode_packet) refl,
              )
        ]
      ]

  decode_packets-exited :
      (ps : List Payload) (d : Decoder)
      → IsFresh n d
      → is_silent (all_samples ps) ≡ false
      → decode_packets n ps d ≡ exited
  unfolding decode_packets
  decode_packets-exited [] d h l = ground arith
  decode_packets-exited (p ∷ ps) d h l = elim (decode_packet-small p d h) [
    | inl (a, e) ↦ rw (e, decode_packets) refl
    | inr (a, (x, e, f)) ↦
        rw (e, decode_packets)
          (decode_packets-exited ps x f (sym (ap (λ s. is_silent (s ++ all_samples ps)) a) ∙ l))
  ]

  decode_packets-running :
      (ps : List Payload) (d : Decoder)
      → IsFresh n d
      → all_samples ps ≡ []
      → (e : Decoder) × (decode_packets n ps d ≡ running e)
  unfolding decode_packets
  decode_packets-running [] d h l = (d, refl)
  decode_packets-running (p ∷ ps) d h l = elim (decode_packet-small p d h) [
    | inl (a, e) ↦ absurd (silent_append (samples p) (all_samples ps) a l)
    | inr (a, (x, e, f)) ↦
        let (y, q) = decode_packets-running ps x f (ap (λ s. s ++ all_samples ps) (sym a) ∙ l) in
        (y, rw (e, q, decode_packets) refl)
  ]

  -- With chunks of less than 320 bytes the whole program ends as soon as a sink has a packet with
  -- samples, and only then.
  pub decode_deque-exited_iff :
      (audio : PcmAudio) (packets : List Payload) (errors : ℕ) (q : Queue PcmAudio)
      → (decode_deque n audio packets errors q ≡ exited) ↔ (is_silent (all_samples packets) ≡ false)
  unfolding decode_deque
  decode_deque-exited_iff audio packets errors q = (
    (λ h. elim (Bool-cases (is_silent (all_samples packets))) [
      | inl l ↦
          let (e, run) = decode_packets-running packets (start n audio errors) refl (silence _ l) in
          ground (arith, run)
      | inr l ↦ l
    ]),
    (λ l. rw (decode_packets-exited packets (start n audio errors) refl l, decode_deque) refl),
  )
