-- ===== src/Audio/Content.antt =====
-- What `AudioHandler::decodeRtpPacketDeque` of src/audio/AudioHandler.cpp records: the samples of the
-- packets against the chunks that come out.
use callx.Audio.Storing.{store-Stored}
use callx.Audio.Decoding.{
  Decoder, running, decode_packet, decode_packets, count_seq_num_error, is_supported,
  rtp_payload_type, rtp_payload_size, pt_pcma, rtp_seq_num,
}
use callx.Audio.G711.{decode}
use callx.Audio.Samples.{
  with_chunks, samples, all_samples, content, Fits, length-decode, gsm_unsupported,
}
use callx.Network.Frame.{size_mod}
use callx.Network.Payload.{Payload}
use callx.Prelude.{
  ℕ, ◌+◌, ◌≤◌, ◌<◌, ◌≡◌, refl, sym, ap, ◌∙◌, inl, inr, not, ◌||◌, List, [], ◌∷◌, ◌++◌, arith, ltb,
  ◌==◌, Bool-cases,
}
use mathlib.Core.List.{append-nil, append_assoc}

module _ (n : ℕ) (large : 320 ≤ n) (small : n + 320 < size_mod) where
  -- One packet: its samples are appended, it goes back, and the error counter stays.
  pub record Played (p : Payload) (d e : Decoder) : Type 0 where
    pub fits : Fits n e
    pub content_grows : content e ≡ content d ++ samples p
    pub same_audio : e.pcm_audio ≡ with_chunks e.pcm_audio.mem_chunk_deque d.pcm_audio
    pub recycled : e.recycled ≡ d.recycled ++ p ∷ []
    pub seq_num_prev : e.seq_num_prev ≡ d.seq_num_prev
    pub seq_num_error : e.seq_num_error ≡ d.seq_num_error

  abbrev recycle : Payload → Decoder → Decoder
  recycle p d = record d { recycled = d.recycled ++ p ∷ [] }

  count_seq_num_error-none : (d : Decoder) → d.seq_num_prev ≡ 0 → count_seq_num_error d ≡ d
  unfolding count_seq_num_error
  count_seq_num_error-none d z = ground arith

  Played-skip :
      (p : Payload) (d : Decoder) (k : ℕ)
      → Fits n d
      → samples p ≡ []
      → Played p d (recycle p (record d { seq_num = k }))
  Played-skip p d k h e = record {
    fits = record { chunk = h.chunk; chunks = h.chunks };
    content_grows = rw e (sym (append-nil (content d)));
    same_audio = refl;
    recycled = refl;
    seq_num_prev = refl;
    seq_num_error = refl;
  }

  decode_packet-Played :
      (p : Payload) (d : Decoder)
      → Fits n d
      → d.seq_num_prev ≡ 0
      → (e : Decoder) × (decode_packet n p d ≡ running e) × Played p d e
  unfolding decode_packet
  decode_packet-Played p d h z =
      let t = rtp_payload_type p in
      let x = record d { seq_num = rtp_seq_num p } in
      let fits_x : Fits n x = record { chunk = h.chunk; chunks = h.chunks } in
      let counted = count_seq_num_error-none x z in
      elim (Bool-cases (t == 3)) [
        | inl gsm ↦ (
          recycle p d,
          rw (gsm, decode_packet) refl,
          Played-skip p d d.seq_num h (ground (arith, gsm_unsupported t gsm)),
        )
        | inr other ↦ elim (Bool-cases (not (is_supported t) || ltb (rtp_payload_size p) 160)) [
          | inl bad ↦ (
            recycle p x,
            rw (other, bad, counted, decode_packet) refl,
            Played-skip p d (rtp_seq_num p) h (ground arith),
          )
          | inr good ↦
              let s = decode (t == pt_pcma) p.byte 12 in
              let (y, e, stored) =
                store-Stored n large small s x (length-decode _ p.byte 12) fits_x in
              (
                recycle p y,
                rw (other, good, counted, e, decode_packet) refl,
                record {
                  fits = record { chunk = stored.fits.chunk; chunks = stored.fits.chunks };
                  content_grows = stored.content_grows ∙ ap (λ q. content d ++ q) (ground arith);
                  same_audio = stored.same_audio;
                  recycled = ap (λ q. q ++ p ∷ []) stored.recycled;
                  seq_num_prev = stored.seq_num_prev;
                  seq_num_error = stored.seq_num_error;
                },
              )
        ]
      ]

  -- The whole deque.
  pub record PlayedAll (ps : List Payload) (d e : Decoder) : Type 0 where
    pub fits : Fits n e
    pub content_grows : content e ≡ content d ++ all_samples ps
    pub same_audio : e.pcm_audio ≡ with_chunks e.pcm_audio.mem_chunk_deque d.pcm_audio
    pub recycled : e.recycled ≡ d.recycled ++ ps
    pub seq_num_error : e.seq_num_error ≡ d.seq_num_error

  pub decode_packets-PlayedAll :
      (ps : List Payload) (d : Decoder)
      → Fits n d
      → d.seq_num_prev ≡ 0
      → (e : Decoder) × (decode_packets n ps d ≡ running e) × PlayedAll ps d e
  unfolding decode_packets
  decode_packets-PlayedAll [] d h z = (
    d,
    refl,
    record {
      fits = h;
      content_grows = sym (append-nil (content d));
      same_audio = refl;
      recycled = sym (append-nil d.recycled);
      seq_num_error = refl;
    },
  )
  decode_packets-PlayedAll (p ∷ ps) d h z =
      let (x, e, one) = decode_packet-Played p d h z in
      let (y, f, rest) = decode_packets-PlayedAll ps x one.fits (one.seq_num_prev ∙ z) in
      (
        y,
        rw (e, f, decode_packets) refl,
        record {
          fits = rest.fits;
          content_grows =
              rest.content_grows
              ∙ ap (λ s. s ++ all_samples ps) one.content_grows
              ∙ append_assoc (content d) (samples p) (all_samples ps);
          same_audio =
              rest.same_audio ∙ ap (with_chunks y.pcm_audio.mem_chunk_deque) one.same_audio;
          recycled =
              rest.recycled ∙ ap (λ s. s ++ ps) one.recycled ∙ append_assoc d.recycled (p ∷ []) ps;
          seq_num_error = rest.seq_num_error ∙ one.seq_num_error;
        },
      )
