-- ===== src/Audio/Worker.antt =====
-- `AudioHandler::worker` of src/audio/AudioHandler.cpp: the sinks of a call that has left the
-- `CallDecodeQueue`, one after the other.
use callx.Audio.Decoding.{Run, running, crashed, ◌>>=◌, decode_deque}
use callx.Audio.MemChunk.{PcmAudio}
use callx.Audio.RtpSink.{RtpSink, take_packets}
use callx.Container.Map.{values}
use callx.Container.Queue.{Queue, Popped, waits, deactivated, popped, wait_and_pop}
use callx.Network.Payload.{Payload}
use callx.Prelude.{ℕ, List, [], ◌∷◌, ◌++◌, Option, none, some, Store, update}
use callx.Sip.World.{Call}

-- The sinks, the `PcmAudioQueue`, the packets that went back to the pool and the error counter.
pub record Handler : Type 0 where
  pub sinks : Store RtpSink
  pub pcm_audio_queue : Queue PcmAudio
  pub pool : List Payload
  pub rtp_seq_num_error : ℕ

module _ {A : Type 0} (mem_chunk_size : ℕ) where
  -- The `PcmAudio` that `decodeRtpPacketDeque` makes for a sink.
  unfoldable pub new_audio : Call A → RtpSink → PcmAudio
  new_audio c s = record {
    call_id = c.dialog.call_id;
    caller = c.dialog.caller;
    callee = c.dialog.callee;
    start_ts = c.creation_ts;
    is_caller_audio = s.is_caller_sink;
    mem_chunk_deque = [];
  }

  abbrev decode_taken : Call A → RtpSink → Option (List Payload) → Handler → Run Handler
  decode_taken c s none h = crashed
  decode_taken c s (some packets) h =
      decode_deque mem_chunk_size (new_audio c s) packets h.rtp_seq_num_error h.pcm_audio_queue
      >>= λ (queue, recycled, errors). running (record h {
        pcm_audio_queue = queue;
        pool = h.pool ++ recycled;
        rtp_seq_num_error = errors;
      })

  -- The body of the loop over the call's sinks. A sink whose deque was taken before has none.
  unfoldable pub decode_sink : Call A → ℕ → Handler → Run Handler
  decode_sink c r h =
      let (s, packets) = take_packets (h.sinks r) in
      decode_taken c s packets (record h { sinks = update h.sinks r s })

  unfoldable pub decode_sinks : Call A → List ℕ → Handler → Run Handler
  decode_sinks c [] h = running h
  decode_sinks c (r ∷ rest) h = decode_sink c r h >>= decode_sinks c rest

  unfoldable pub decode_call : Call A → Handler → Run Handler
  decode_call c h = decode_sinks c (values c.local_sinks) h

  -- A round of `worker`, over the queue of calls; nothing where the queue waits or is deactivated.
  abbrev decode_popped : Store (Call A) → Popped ℕ → Queue ℕ → Handler → Run (Queue ℕ × Handler)
  decode_popped calls waits q h = running (q, h)
  decode_popped calls deactivated q h = running (q, h)
  decode_popped calls (popped c rest) q h = decode_call (calls c) h >>= λ x. running (rest, x)

  unfoldable pub decode_round : Store (Call A) → Queue ℕ → Handler → Run (Queue ℕ × Handler)
  decode_round calls q h = decode_popped calls (wait_and_pop q) q h
