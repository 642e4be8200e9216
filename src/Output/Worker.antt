-- ===== src/Output/Worker.antt =====
-- `OutputHandler`'s constructor, `stop` and `worker` of src/output/OutputHandler.cpp. What is not
-- modelled: the pauses.
use callx.Audio.MemChunk.{PcmAudio}
use callx.Config.Values.{CallxConfig}
use callx.Container.Map.{Map}
use callx.Container.Queue.{Queue, Popped, waits, deactivated, popped, wait_and_pop, deactivate}
use callx.Output.Database.{Database, insert_call}
use callx.Output.Files.{push_to_file}
use callx.Output.Socket.{Peer, TcpSocket, close_socket, push_to_socket}
use callx.Prelude.{
  ℕ, zero, suc, ℤ, pos, negsuc, neg, Bool, true, false, ◌&&◌, [], Option, none, some, Bytes, codes,
  length, ◌==◌, if◌then◌else◌,
}
use callx.Threads.{CallxThread, new_thread, stop}

-- The handler, with the files of the directory and the tables of the database.
pub record OutputHandler (D : Type 0) : Type 0 where
  pub thread : CallxThread
  pub pcm_audio_queue : Queue PcmAudio
  pub db_call_id : ℤ
  pub tcp_socket : Option TcpSocket
  pub files : Map Bytes Bytes
  pub tables : D

-- What the handler uses: the text of a number, as a stream prints it, the database and the peer.
pub record Surroundings (D : Type 0) : Type 0 where
  pub number_to_string : ℤ → Bytes
  pub database : Database D
  pub peer : Peer

abbrev closed_socket : TcpSocket
closed_socket = record { is_open = false; connect_calls = 0; write_calls = 0; connections = [] }

abbrev is_error : ℤ → Bool
is_error (pos n) = false
is_error (negsuc n) = n == 0

abbrev with_socket : (TcpSocket → TcpSocket) → Option TcpSocket → Option TcpSocket
with_socket f none = none
with_socket f (some s) = some (f s)

module _ {D : Type 0} (config : CallxConfig) (around : Surroundings D) where
  -- The constructor, over the queue, the directory and the database that are there.
  unfoldable pub new_handler : Queue PcmAudio → Map Bytes Bytes → D → OutputHandler D
  new_handler q files tables = record {
    thread = new_thread;
    pcm_audio_queue = q;
    db_call_id = neg 1;
    tcp_socket =
        if config.use_viat_db && config.use_socket_output_interface
        then some closed_socket
        else none;
    files = files;
    tables = tables;
  }

  -- `stop`, over what `m_stopped` holds at the polls
  unfoldable pub stop_output : (ℕ → Bool) → OutputHandler D → OutputHandler D × Bool
  stop_output stopped_at h =
      let (t, stopped) = stop stopped_at h.thread in
      (record h { thread = t; pcm_audio_queue = deactivate h.pcm_audio_queue }, stopped)

  abbrev pub entry_id : OutputHandler D → Option Bytes
  entry_id h = if config.use_viat_db then some (around.number_to_string h.db_call_id) else none

  abbrev pub to_file : PcmAudio → OutputHandler D → OutputHandler D
  to_file p h =
      if config.use_wavefile_output_interface
      then record h { files = push_to_file config.wave_output_path (entry_id h) p h.files }
      else h

  abbrev pub to_socket : PcmAudio → OutputHandler D → OutputHandler D
  to_socket p h =
      if config.use_socket_output_interface && config.use_viat_db
      then record h {
        tcp_socket =
            with_socket
              (push_to_socket around.peer config.socket_output_send_seconds h.db_call_id p)
              h.tcp_socket;
      }
      else h

  -- The entry in the database.
  abbrev pub insert_entry : PcmAudio → OutputHandler D → OutputHandler D
  insert_entry p h =
      let (id, tables) =
        insert_call around.database (codes p.caller.displayname) (codes p.caller.address)
          h.tables in
      record h { db_call_id = id; tables = tables }

  -- The body of the loop for a recording.
  unfoldable pub output_audio : PcmAudio → OutputHandler D → OutputHandler D
  output_audio p h =
      if length p.mem_chunk_deque == 0
      then h
      else if config.use_viat_db
      then (let e = insert_entry p h in
          if is_error e.db_call_id then e else to_socket p (to_file p e))
      else to_socket p (to_file p h)

  abbrev output_popped : Popped PcmAudio → OutputHandler D → OutputHandler D
  output_popped waits h = h
  output_popped deactivated h = h
  output_popped (popped p rest) h = output_audio p (record h { pcm_audio_queue = rest })

  -- A round of `worker`; nothing where the queue waits or is deactivated.
  unfoldable pub output_round : OutputHandler D → OutputHandler D
  output_round h = output_popped (wait_and_pop h.pcm_audio_queue) h

  -- That many rounds one after the other.
  unfoldable pub output_rounds : ℕ → OutputHandler D → OutputHandler D
  output_rounds zero h = h
  output_rounds (suc n) h = output_rounds n (output_round h)

  -- What `worker` does once the loop has ended.
  unfoldable pub end_worker : OutputHandler D → OutputHandler D
  end_worker h = record h {
    tcp_socket = with_socket close_socket h.tcp_socket;
    thread = record h.thread { stopped = true };
  }
