-- ===== src/Examples/Sound.antt =====
-- The decoder at concrete packets.
use callx.Audio.Conservation.{decode_sinks-pool, all_packets}
use callx.Audio.Decoding.{running, exited, decode_deque, rtp_payload_type}
use callx.Audio.Exit.{decode_deque-exited_iff}
use callx.Audio.Expansion.{decode_tab-expand}
use callx.Audio.G711.{decode_tab}
use callx.Audio.MemChunk.{PcmAudio}
use callx.Audio.Recording.{decode_deque-IsRecording, IsRecording, is_silent}
use callx.Audio.RtpSink.{new_sink}
use callx.Audio.Samples.{all_samples}
use callx.Audio.Worker.{Handler, decode_sinks}
use callx.Container.Map.{count}
use callx.Container.Queue.{push, empty}
use callx.Examples.Data.{alice, bob, the_call}
use callx.Network.Payload.{Payload}
use callx.Container.Map.{find}
use callx.Output.EndToEnd.{decode_deque-read_wave}
use callx.Output.Files.{file_name, push_to_file}
use callx.Output.Reader.{read_wave}
use callx.Audio.Decoding.{is_supported, rtp_payload_size}
use callx.Audio.G711.{decode, decode_from}
use callx.Config.Values.{CallxConfig, new_config}
use callx.Output.Delivery.{message}
use callx.Output.Kept.{Stands, output_rounds-Stands, stop_output-output_rounds}
use callx.Output.Limits.{total, push_to_socket-Within}
use callx.Output.Socket.{Peer, TcpSocket, max_bytes, push_to_socket}
use callx.Output.Stream.{decode_deque-push_to_socket}
use callx.Output.Wave.{memory_of}
use callx.Output.Worker.{OutputHandler, Surroundings, output_rounds, stop_output}
use callx.Prelude.{
  All, ◌≤◌, Bytes, bytes_key, codes, ◌+◌, ◌*◌, ◌^◌, ◌<◌, pos, neg, ℕ, ◌≡◌, ◌≢◌, ◌↔◌, refl, true,
  false, [], ◌∷◌, ◌++◌, none, some, arith, get_or, length, if◌then◌else◌,
}
use callx.Sip.Types.{DialogState}

-- An octet of mu-law has the value of mu-law's table entry 0 for the type, then A-law's.
abbrev ulaw_packet : Payload
ulaw_packet = record { byte = λ i. 0; size = 172 }

abbrev alaw_packet : Payload
alaw_packet = record { byte = λ i. 8; size = 172 }

abbrev tiny_packet : Payload
tiny_packet = record { byte = λ i. 0; size = 4 }

abbrev audio : PcmAudio
audio = record {
  call_id = "call";
  caller = alice;
  callee = bob;
  start_ts = 0;
  is_caller_audio = true;
  mem_chunk_deque = [];
}

decode_tab-expand_example : get_or (decode_tab true) 0 (pos 0) ≡ neg 5504
decode_tab-expand_example = decode_tab-expand true 0 (omega arith)

decode_deque-IsRecording_example :
    (result : PcmAudio) × IsRecording 480
      (ulaw_packet ∷ tiny_packet ∷ alaw_packet ∷ [])
      audio
      result
    × (decode_deque 480 audio (ulaw_packet ∷ tiny_packet ∷ alaw_packet ∷ []) 0 empty
        ≡ running (
          if is_silent (all_samples (ulaw_packet ∷ tiny_packet ∷ alaw_packet ∷ []))
              then empty
              else push result empty,
          ulaw_packet ∷ tiny_packet ∷ alaw_packet ∷ [],
          0,
        ))
decode_deque-IsRecording_example =
    decode_deque-IsRecording 480 audio (ulaw_packet ∷ tiny_packet ∷ alaw_packet ∷ []) 0 empty
      (omega arith) (omega arith) refl

decode_deque-exited_iff_example :
    (decode_deque 160 audio (ulaw_packet ∷ []) 0 empty ≡ exited)
    ↔ (is_silent (all_samples (ulaw_packet ∷ [])) ≡ false)
decode_deque-exited_iff_example =
    decode_deque-exited_iff 160 (omega arith) audio (ulaw_packet ∷ []) 0 empty

abbrev handler : Handler
handler = record {
  sinks = λ r. record (new_sink 0 true) { packets = some (ulaw_packet ∷ []) };
  pcm_audio_queue = empty;
  pool = [];
  rtp_seq_num_error = 0;
}

decode_sinks-pool_example :
    (e : Handler) × (decode_sinks 480 (the_call DialogState.confirmed false) (0 ∷ 1 ∷ []) handler
      ≡ running e)
    × (e.pool ≡ [] ++ all_packets handler.sinks (0 ∷ 1 ∷ []))
    × ((r : ℕ) → count r (0 ∷ 1 ∷ []) ≢ 0 → (e.sinks r).packets ≡ none)
    × ((r : ℕ) → count r (0 ∷ 1 ∷ []) ≡ 0 → e.sinks r ≡ handler.sinks r)
    × (e.rtp_seq_num_error ≡ 0)
decode_sinks-pool_example =
    decode_sinks-pool 480 (omega arith) (omega arith) (the_call DialogState.confirmed false)
      (0 ∷ 1 ∷ []) handler (refl, (refl, tt)) (refl, (refl, tt))

abbrev recording : PcmAudio
recording = record audio {
  mem_chunk_deque =
      record { data_written = pos 1 ∷ neg 2 ∷ []; size = 480; filling_level = 4 } ∷ [];
}

-- A peer that takes everything, and the sockets to it.
abbrev good_peer : Peer
good_peer = record { connects = λ i. true; accepts = λ i octets. some (length octets) }

abbrev socket : TcpSocket
socket = record { is_open = false; connect_calls = 0; write_calls = 0; connections = [] }

abbrev surroundings : Surroundings ℕ
surroundings = record {
  number_to_string = λ n. [];
  database = record {
    select_caller = λ uri d. [];
    insert_caller = λ name uri d. ([], d);
    insert_call = λ id d. ([], d);
  };
  peer = good_peer;
}

abbrev writes_waves : CallxConfig
writes_waves = record new_config {
  use_wavefile_output_interface = true;
  use_viat_db = false;
  wave_output_path = [];
}

abbrev output_handler : OutputHandler ℕ
output_handler = record {
  thread = record { stop_requested = false; stopped = false };
  pcm_audio_queue = record { items = recording ∷ []; activated = true; size_max = 1 };
  db_call_id = neg 1;
  tcp_socket = none;
  files = [];
  tables = 0;
}

output_rounds-Stands_example :
    All
      (Stands writes_waves surroundings
        (output_rounds writes_waves surroundings 1 output_handler).files)
      (recording ∷ [])
    × ((output_rounds writes_waves surroundings 1 output_handler).pcm_audio_queue.items ≡ [])
output_rounds-Stands_example =
    output_rounds-Stands writes_waves surroundings 480 output_handler refl refl refl
      (
        record {
          filled = ((record { size = refl; level = refl; bound = omega arith }, omega arith), tt);
          bits = (omega arith, (omega arith, tt));
          sound = λ e. cc;
          small = omega arith;
        },
        tt,
      )
      (tt, tt)

stop_output-output_rounds_example :
    (output_rounds writes_waves surroundings 3
        (stop_output writes_waves surroundings (λ k. true) output_handler).0
      ≡ (stop_output writes_waves surroundings (λ k. true) output_handler).0)
    × ((stop_output writes_waves surroundings (λ k. true) output_handler).0.pcm_audio_queue.items
        ≡ recording ∷ [])
    × ((stop_output writes_waves surroundings (λ k. true) output_handler).0.files ≡ [])
stop_output-output_rounds_example =
    stop_output-output_rounds writes_waves surroundings (λ k. true) output_handler 3

push_to_socket-Within_example :
    (total (push_to_socket good_peer (pos 6) (pos 7) recording socket)
      ≤ total socket + (max_bytes (pos 6) + 56))
    × ((push_to_socket good_peer (pos 6) (pos 7) recording socket).connect_calls
        ≤ socket.connect_calls + 3)
push_to_socket-Within_example =
    push_to_socket-Within good_peer (λ i octets n h. ground arith) (pos 6) (pos 7) recording socket

one_sound : all_samples (ulaw_packet ∷ []) ≢ []
unfolding is_supported rtp_payload_type rtp_payload_size decode decode_from
one_sound e = cc

length-one_sound : 2 * length (all_samples (ulaw_packet ∷ [])) + 36 < 2 ^ 32
unfolding is_supported rtp_payload_type rtp_payload_size decode decode_from
length-one_sound = omega arith

decode_deque-read_wave_example :
    (result : PcmAudio) × (decode_deque 480 audio (ulaw_packet ∷ []) 0 empty
      ≡ running (push result empty, ulaw_packet ∷ [], 0))
    × ((contents : Bytes) × (find
            (file_name (codes "/tmp/") none result)
            (push_to_file (codes "/tmp/") none result [])
          ≡ some contents)
        × (read_wave contents ≡ all_samples (ulaw_packet ∷ [])))
decode_deque-read_wave_example =
    decode_deque-read_wave 480 audio (ulaw_packet ∷ []) 0 empty (codes "/tmp/") none []
      (omega arith) (omega arith) refl one_sound length-one_sound

decode_deque-push_to_socket_example :
    (result : PcmAudio) × (decode_deque 480 audio (ulaw_packet ∷ []) 0 empty
      ≡ running (push result empty, ulaw_packet ∷ [], 0))
    × ((push_to_socket good_peer (pos 6) (pos 7) result socket).connections
        ≡ ([] ++ message (max_bytes (pos 6)) (pos 7) (memory_of (all_samples (ulaw_packet ∷ []))))
          ∷ [])
    × ((push_to_socket good_peer (pos 6) (pos 7) result socket).is_open ≡ true)
decode_deque-push_to_socket_example =
    decode_deque-push_to_socket good_peer 480 audio (ulaw_packet ∷ []) 0 empty (pos 6) (pos 7)
      socket [] [] (record { connects = λ i. refl; accepts = λ i octets. refl }) (omega arith)
      (omega arith) refl one_sound refl
