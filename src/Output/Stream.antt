-- ===== src/Output/Stream.antt =====
-- From the RTP packets of a sink to the socket: src/audio/AudioHandler.cpp and `pushToSocket` of
-- src/output/OutputHandler.cpp one after the other.
use callx.Audio.Decoding.{running, decode_deque}
use callx.Audio.MemChunk.{PcmAudio}
use callx.Audio.Recording.{decode_deque-IsRecording}
use callx.Audio.Samples.{all_samples}
use callx.Container.Queue.{Queue, push}
use callx.Network.Frame.{size_mod}
use callx.Network.Payload.{Payload}
use callx.Output.Delivery.{IsReliable, on_open, message, push_to_socket-Got}
use callx.Output.EndToEnd.{not_silent}
use callx.Output.Socket.{Peer, TcpSocket, max_bytes, push_to_socket}
use callx.Output.Wave.{memory_of}
use callx.Prelude.{
  ℕ, ◌+◌, ◌≤◌, ◌<◌, ◌≡◌, ◌≢◌, ◌∙◌, ap, ℤ, true, List, [], ◌∷◌, ◌++◌, Bytes, if◌then◌else◌,
}

-- With chunks of at least 320 bytes, to whose size 320 can be added in 64 bits, the packets of a sink that
-- have samples give a new recording in the queue. A peer to which connecting succeeds and that takes all
-- octets it is given gets for it, behind what the open connection carried: the start separator, the
-- call's number, of the packets' samples, in their order, the first octets up to the configured
-- seconds, and the end separator.
pub decode_deque-push_to_socket :
    (peer : Peer) (n : ℕ) (audio : PcmAudio) (packets : List Payload) (errors : ℕ)
    (q : Queue PcmAudio) (send_seconds id : ℤ) (s : TcpSocket) (got : Bytes) (older : List Bytes)
    → IsReliable peer
    → 320 ≤ n
    → n + 320 < size_mod
    → audio.mem_chunk_deque ≡ []
    → all_samples packets ≢ []
    → on_open s ≡ got ∷ older
    → (result : PcmAudio) × (decode_deque n audio packets errors q
        ≡ running (push result q, packets, errors))
      × ((push_to_socket peer send_seconds id result s).connections
          ≡ (got ++ message (max_bytes send_seconds) id (memory_of (all_samples packets))) ∷ older)
      × ((push_to_socket peer send_seconds id result s).is_open ≡ true)
decode_deque-push_to_socket peer n audio packets errors q send_seconds id s got older reliable large
      small fresh sound h =
    let (result, is, run) = decode_deque-IsRecording n audio packets errors q large small fresh in
    let sent =
      push_to_socket-Got peer reliable n send_seconds id result got older s is.chunks_filled h in
    (
      result,
      run
          ∙ ap (λ b. running (if b then q else push result q, packets, errors))
              (not_silent (all_samples packets) sound),
      sent.newest
          ∙ ap (λ x. (got ++ message (max_bytes send_seconds) id (memory_of x)) ∷ older)
              is.all_recorded,
      sent.open_now,
    )
