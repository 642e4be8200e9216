-- ===== src/Console/Report.antt =====
-- The texts of src/console/CommandServer.cpp, and what src/console/Session.cpp writes for a command. The
-- text of src/container/SbaIncidentMap.hpp is a parameter.
use callx.Console.Session.{
  Command, status, call_map, sba_event_map, sba_incident_map, clear_sba, quit, terminate, help,
  nothing, unavailable,
}
use callx.Container.FriendlyMap.{FriendlyMap, size}
use callx.Container.Queue.{Queue}
use callx.Prelude.{ℕ, [], ◌++◌, Bytes, codes, length}
use callx.Sip.World.{World}
use callx.Console.Maps.{Printer, line_end, tab, call_map_text, event_map_text}

-- `CommandServer::welcome`, `prompt`
unfoldable pub welcome : Bytes
welcome =
    codes "********************"
    ++ line_end
    ++ codes "* callx v2 console *"
    ++ line_end
    ++ codes "********************"
    ++ line_end
    ++ line_end

unfoldable pub prompt : Bytes
prompt = codes "callx> "

-- What the console reads of the queues: the sizes now and at most.
pub record Level : Type 0 where
  pub current : ℕ
  pub maximum : ℕ

abbrev pub queue_level : {P : Type 0} → Queue P → Level
queue_level q = record { current = length q.items; maximum = q.size_max }

abbrev pub map_level : {K V : Type 0} → FriendlyMap K V → Level
map_level m = record { current = size m; maximum = m.size_max }

pub record Levels : Type 0 where
  pub tlayer_packet_queue : Level
  pub pcap_packet_queue : Level
  pub udp_packet_queue : Level
  pub sip_packet_queue : Level
  pub call_decode_queue : Level
  pub pcm_audio_queue : Level
  pub rtp_seq_num_error : ℕ

module _ (print : Printer) where
  abbrev level_line : Bytes → Level → Bytes
  level_line name l =
      name
      ++ codes "(cur / max): "
      ++ print.number l.current
      ++ codes " / "
      ++ print.number l.maximum
      ++ line_end

  -- `CommandServer::listContainer`
  unfoldable pub list_container : {A : Type 0} → Levels → World A → Bytes
  list_container l w =
      line_end
      ++ level_line (codes "TlayerPacketQueue" ++ tab) l.tlayer_packet_queue
      ++ level_line (codes "PcapPacketQueue" ++ tab ++ tab) l.pcap_packet_queue
      ++ level_line (codes "UdpPacketQueue" ++ tab ++ tab) l.udp_packet_queue
      ++ level_line (codes "SipPacketQueue" ++ tab ++ tab) l.sip_packet_queue
      ++ level_line (codes "CallMap" ++ tab ++ tab ++ tab) (map_level w.call_map)
      ++ level_line (codes "CallDecodeQueue" ++ tab ++ tab) l.call_decode_queue
      ++ level_line (codes "RtpSinkMap" ++ tab ++ tab) (map_level w.rtp_sink_map)
      ++ level_line (codes "PcmAudioQueue" ++ tab ++ tab) l.pcm_audio_queue
      ++ level_line (codes "SbaEventMap" ++ tab ++ tab) (map_level w.event_map)
      ++ level_line (codes "SbaIncidentMap" ++ tab ++ tab) (map_level w.incident_map)
      ++ codes "RtpSeqNumError: "
      ++ print.number l.rtp_seq_num_error
      ++ line_end
      ++ line_end

  -- What `handle_read` puts out before the prompt.
  unfoldable pub output_of : {A : Type 0} → Levels → World A → Command → Bytes
  output_of l w status = list_container l w
  output_of l w call_map = call_map_text w
  output_of l w sba_event_map = event_map_text print w.event_map
  output_of l w sba_incident_map = print.incidents w.incident_map
  output_of l w clear_sba =
      line_end ++ codes "SbaEventMap and SbaIncidentMap are now empty." ++ line_end ++ line_end
  output_of l w quit = codes "Bye, bye..." ++ line_end
  output_of l w terminate = codes "Terminating application..." ++ line_end
  output_of l w help =
      line_end
      ++ codes "List of commands. Shortcuts in brackets. Commands are case sensitive."
      ++ line_end
      ++ codes "(s) status"
      ++ line_end
      ++ codes "(c) CallMap"
      ++ line_end
      ++ codes "(e) SbaEventMap"
      ++ line_end
      ++ codes "(i) SbaIncidentMap"
      ++ line_end
      ++ codes "(l) ClearSba"
      ++ line_end
      ++ codes "(q) quit (console)"
      ++ line_end
      ++ codes "(t) terminate (program)"
      ++ line_end
      ++ line_end
  output_of l w nothing = []
  output_of l w unavailable = codes "command not available" ++ line_end

  unfoldable pub response : {A : Type 0} → Levels → World A → Command → Bytes
  response l w c = output_of l w c ++ prompt
