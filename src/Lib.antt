-- ===== src/Lib.antt =====
-- callx captures telephone calls from a network: it sorts captured frames, follows the SIP
-- signaling of each call, stores the RTP packets of its media sockets, and hands finished calls to an
-- audio decoder; an analysis of the signaling reports incidents. Each part is a thread, and the parts
-- meet in shared maps and queues. Paths below are from the repository's root.
--
--   Container   src/container: `Map` is the `std::map` under src/container/ThreadFriendlyMap.hpp, and
--               `FriendlyMap` that class, `Entries` what it keeps; `Queue` is
--               src/container/ThreadFriendlyQueue.hpp, `Fifo` and `Pops` what comes out of it. A lock
--               makes each operation one step.
--   Network     src/network: `SocketAddress`; `Frame`, the parsers of TlayerPacket.cpp;
--               `Dispatcher`, the loop of TlayerDispatcher::worker over frames; `Flow`, the packets
--               between the pool and the UDP handler as steps of the threads (TlayerPacketRecycler.hpp,
--               the callback of PcapHandler.cpp, a round of TlayerDispatcher::worker); `SipIdent` and
--               `UdpHandler`, a round of UdpHandler::worker. `Sorting`, `Conservation` and `Exhaustion` are
--               proofs.
--   Audio       src/audio: `RtpSink`, and `Inactivity`, what it measures; `Tables` and `G711`
--               (G711Decoder.cpp), `MemChunk` (MemChunk.hpp, PcmAudio.cpp), `Decoding`
--               (AudioHandler::decodeRtpPacketDeque), `Worker` (a round of AudioHandler::worker). The
--               others are proofs: `Expansion` on the tables; `Samples`, `Storing`, `Content` and
--               `Recording` on what is recorded; `Exit`, `Conservation`.
--   Sip         src/sip: `Types` (sip.hpp, the getters of SipPacket), `World` (Call, Transaction, and
--               the shared maps as one state), `Events` (Transaction::createAndPushEvent), `Sinks`
--               (processSdp, confirmRtpSinks, annulRtpSinks, Call's loops over its sinks), `Requests`
--               and `Responses` (the handlers of SipProcessor.cpp, one function each), `Processor`
--               (SipProcessor::worker: `round` is one packet, `run` a sequence of them). The others
--               are proofs: `Custody`, `Moves`, `Ownership` on who holds a call; `Dialogs`,
--               `DialogSteps`, `Diagram` on the dialog's states; `Ids`, `IdSteps` on the
--               calls' ids; `Registration` on the loops over sinks; `Responded` on responses.
--   Sip.Parser  src/sip/SipPacket.cpp: `Grammar`, what it takes from boost; `Message`, the object under
--               construction and the loop of parseSip over the lines; `Fields`, what parseSip reads from
--               the field map, which is the `Multimap` of Container; `Sdp`, parseSdp and parse; `Names`,
--               the methods. `Header`, `Reading`, `Outcomes` and `Via` are proofs. The packet
--               of an accepted message is what `Sip.Processor` takes as an arrival.
--   Watchdog    `Timeouts` is CallMap::handleCallTimeouts of src/container/CallMap.cpp, which
--               src/watchdog/Watchdog.cpp calls: `sweep` is its loop over the snapshot, `commit` the
--               loop under the second lock. `Frame`, `Expiry` and `Commit` are proofs.
--   Sba         src/sba: `Types` (SbaEvent.hpp, SbaIncident.hpp), `Counts` and `Analysis`
--               (SigBasedAna.cpp), `Worst` (the choice in src/container/SbaIncidentMap.hpp); `Bounds`,
--               `Incidents` and `Division` are proofs.
--   System      `Steps` puts the two threads that share the calls, SipProcessor::worker and
--               Watchdog::worker, on one world: a step is a whole round of one of them, that
--               nobody disturbs. `Interrupted` has handleCallTimeouts as the steps that rounds of the
--               SIP processor can come between: the snapshot, the visit of each call, the commit.
--               `Known`, `Interleaving`, `Expired`, `Kept` and `Wedge` are proofs.
--   Config      src/config: `File` (Config.cpp), `Values` (CallxConfig.cpp); `RoundTrip` and `Checks`
--               are proofs.
--   Output      src/output: `Wave` (filesystem/WaveFileWriter.cpp and RawFileWriter.cpp), `Files`
--               (OutputHandler::pushToFile), `Socket` (OutputHandler::pushToSocket), `Database`
--               (db/ViatDb.cpp), `Worker` (the constructor, stop and the rounds of the worker of
--               OutputHandler.cpp); `Reader`, a reader of wave files to compare with; `RoundTrip`,
--               `EndToEnd`, `Limits`, `Delivery`, `Stream` and `Kept` are proofs.
--   Console     src/console: `Session`, what Session.cpp does with the bytes of a read; `Maps`
--               (toString of src/container/CallMap.cpp and SbaEventMap.hpp) and `Report`
--               (CommandServer.cpp), the texts it answers; `Server` (TcpServer.cpp); `Lines` and `Empty`
--               are proofs.
--   Threads     src/main/CallxThread.cpp: start and stop, and how the worker of
--               src/network/PcapHandler.cpp ends.
--   Main        src/main/callx.cpp: `Options` (parseOpt), `PidFile` (createPIDFile), `Daemon` (daemonize),
--               `Running` (the signals and run, with the nine threads), `Beside` (the end of run while a
--               capture that was given up on still takes packets), `Program` (main up to run); `Shutdown`,
--               `Ready` and `Signals` are proofs.
--   Examples    each theorem at a concrete input.
--
-- The state of the SIP processor is the record `Sip.World.World`. Calls, transactions and sinks are
-- shared objects in the source: each kind has a store, and a reference is a number, so that two
-- holders of a reference see each other's writes. Handlers take the references of the current call
-- `c` (`m_currCall`) and transaction `t` (`m_currTransaction`), the packet, and the world.
--
-- Choices. IP addresses are a type `A` with an equality and an order, as boost's are. Clocks are
-- natural numbers of milliseconds that do not run backwards, read once for each packet. Counters are
-- unbounded, but the sums of milliseconds in the analyses are `int`s that wrap, the sizes of packets are `size_t`s of 64 bits that wrap. The doubles of the analyses
-- are a parameter. The matches of boost::regex, boost's reader of IP addresses and its comparison of
-- texts without case are parameters. Texts are native strings where they are compared as a whole, and
-- the numbers of their bytes where they are walked. An exception, a call of `exit` and a missing deque
-- are results. Files are lists of bytes on a little-endian machine, and the calls of the C library
-- succeed. Every loop runs over a list, or over a number of rounds that the source computes;
-- only the loop of `run` that empties the pool has fuel, one more than the pool has packets, which the
-- entry on `run_beside` shows to be enough: it ends, or waits for a packet.
--
-- What other libraries and the system answer is a parameter: the peer of the TCP socket and its
-- octets, the statements of the database, the answers to fork, setsid and chdir, which files may be
-- opened, and where a name leads from a directory.
--
-- Not modelled: log lines and the text of src/container/SbaIncidentMap.hpp; the pauses of the workers;
-- src/audio/GsmDecoder.cpp, which only calls libgsm and is not in use; the calls of libpcap in
-- src/network/PcapHandler.cpp and PcapWrapper.cpp; the sockets of the console, which boost::asio drives;
-- what main of src/main/callx.cpp does after run, which reads the configuration that run has deleted; the
-- destruction of a call's mutex while it is locked, by the order of the resets at the start of
-- SipProcessor::worker; pcap_breakloop on the handle of a device that could not be opened; what a thread
-- that run gave up on does to the queues that run has deleted; a commit of the watchdog, or a visit of
-- another call, within a round of the SIP processor.
mod Prelude
pub mod Container
pub mod Network
pub mod Audio
pub mod Sba
pub mod Sip
pub mod Watchdog
pub mod Config
pub mod Output
pub mod Console
pub mod Threads
pub mod Main
pub mod System
mod Examples
