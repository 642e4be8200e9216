-- ===== src/Sip/Sinks.antt =====
-- What src/sip/SipProcessor.cpp and src/sip/Call.cpp do with the RTP sinks of a call: a sink stands
-- in the call's own map and, while packets for it are wanted, in the global `RtpSinkMap`.
use callx.Audio.RtpSink.{RtpSinkStatus, new_sink, deactivate, set_status, inactive_for}
use callx.Container.FriendlyMap.{FriendlyMap}
use callx.Container.FriendlyMap
use callx.Container.Map.{Map}
use callx.Container.Map
use callx.Network.SocketAddress.{SocketAddress, socket_key}
use callx.Prelude.{
  ℕ, ◌-◌, ◌/◌, Bool, true, false, [], ◌∷◌, none, some, suc, if◌then◌else◌, Key, same, string_key,
  update, ◌▷◌, not, ltb, ◌&&◌,
}
use callx.Sip.Types.{SipPacket, MessageType}
use callx.Sip.World.{World, on_call, on_sink, dialog_of}

abbrev pub is_response : MessageType → Bool
is_response MessageType.response = true
is_response _ = false

abbrev pub is_confirmed : RtpSinkStatus → Bool
is_confirmed RtpSinkStatus.confirmed = true
is_confirmed _ = false

module _ {A : Type 0} ⦃k : Key A⦄ where
  -- The new sink of `processSdp`: the media socket of a response is the caller's, and the other way
  -- round for a request, but for a re-INVITE of the callee. Both maps keep an entry that they have.
  unfoldable pub add_sink : ℕ → SipPacket A → World A → World A
  add_sink c p w =
      let for_caller =
        if same (dialog_of w c).caller.tag p.to.tag
        then not (is_response p.message_type)
        else is_response p.message_type in
      let fresh = new_sink w.now.steady for_caller in
      let sink = if (w.calls c).sinks_activated then fresh else deactivate fresh in
      let s = w.next_sink in
      record w {
        sinks = update w.sinks s sink;
        next_sink = suc s;
        calls = update w.calls c (record (w.calls c) {
          local_sinks = Map.insert p.sdp_media_socket s (w.calls c).local_sinks;
        });
        rtp_sink_map = FriendlyMap.insert p.sdp_media_socket s w.rtp_sink_map;
      }

  -- `processSdp`
  unfoldable pub process_sdp : ℕ → SipPacket A → World A → World A
  unfolding add_sink
  process_sdp c p w =
      if not p.has_sdp_payload
      then w
      else if not (w.calls c).reinvite_flag
      then add_sink c p w
      else elim (FriendlyMap.find p.sdp_media_socket w.rtp_sink_map) [
        | none ↦ add_sink c p w
        | some s ↦
            if is_confirmed (w.sinks s).status
            then on_sink s (set_status RtpSinkStatus.confirmed_init) w
            else w
      ]

  -- `m_rtpSinkMap->erase`
  abbrev pub erase_global : SocketAddress A → World A → World A
  erase_global a w = record w { rtp_sink_map = (FriendlyMap.erase a w.rtp_sink_map).0 }

  -- One round of `confirmRtpSinks`, by the sink's status.
  unfoldable pub confirm_sink : SocketAddress A → ℕ → RtpSinkStatus → World A → World A
  confirm_sink a s RtpSinkStatus.init w = on_sink s (set_status RtpSinkStatus.confirmed) w
  confirm_sink a s RtpSinkStatus.confirmed w =
      w ▷ on_sink s (set_status RtpSinkStatus.terminated) ▷ erase_global a
  confirm_sink a s RtpSinkStatus.confirmed_init w = on_sink s (set_status RtpSinkStatus.confirmed) w
  confirm_sink a s RtpSinkStatus.terminated w = w

  unfoldable pub confirm_each : Map (SocketAddress A) ℕ → World A → World A
  confirm_each [] w = w
  confirm_each ((a, s) ∷ m) w = confirm_each m (confirm_sink a s (w.sinks s).status w)

  -- `confirmRtpSinks`
  unfoldable pub confirm_rtp_sinks : ℕ → World A → World A
  confirm_rtp_sinks c w = confirm_each (w.calls c).local_sinks w

  -- One round of `annulRtpSinks`.
  unfoldable pub annul_sink : SocketAddress A → ℕ → RtpSinkStatus → World A → World A
  annul_sink a s RtpSinkStatus.init w =
      w ▷ on_sink s (set_status RtpSinkStatus.terminated) ▷ erase_global a
  annul_sink a s RtpSinkStatus.confirmed_init w = on_sink s (set_status RtpSinkStatus.confirmed) w
  annul_sink a s RtpSinkStatus.confirmed w = w
  annul_sink a s RtpSinkStatus.terminated w = w

  unfoldable pub annul_each : Map (SocketAddress A) ℕ → World A → World A
  annul_each [] w = w
  annul_each ((a, s) ∷ m) w = annul_each m (annul_sink a s (w.sinks s).status w)

  -- `annulRtpSinks`
  unfoldable pub annul_rtp_sinks : ℕ → World A → World A
  annul_rtp_sinks c w = annul_each (w.calls c).local_sinks w

  unfoldable pub unregister_each : Map (SocketAddress A) ℕ → World A → World A
  unregister_each [] w = w
  unregister_each ((a, s) ∷ m) w = unregister_each m (erase_global a w)

  -- `Call::unregisterRtpSinks`
  unfoldable pub unregister_rtp_sinks : ℕ → World A → World A
  unregister_rtp_sinks c w = unregister_each (w.calls c).local_sinks w

  unfoldable pub deactivate_each : Map (SocketAddress A) ℕ → World A → World A
  deactivate_each [] w = w
  deactivate_each ((a, s) ∷ m) w = deactivate_each m (on_sink s deactivate w)

  -- `Call::checkRecordingTime`
  unfoldable pub check_recording_time : ℕ → ℕ → World A → World A
  check_recording_time c max_seconds w =
      let x = w.calls c in
      if x.sinks_activated && ltb max_seconds ((w.now.steady - x.creation_ts_steady) / 1000)
      then deactivate_each x.local_sinks w ▷ on_call c (λ y. record y { sinks_activated = false })
      else w

  -- The least inactivity, each sink being asked once.
  unfoldable pub least_inactivity : Map (SocketAddress A) ℕ → ℕ → World A → World A × ℕ
  least_inactivity [] least w = (w, least)
  least_inactivity ((a, s) ∷ m) least w =
      let (sink, idle) = inactive_for w.now.steady (w.sinks s) in
      least_inactivity m (if ltb idle least then idle else least)
        (record w { sinks = update w.sinks s sink })

  -- `Call::getRtpInactivityTime`
  unfoldable pub rtp_inactivity_time : ℕ → World A → World A × ℕ
  rtp_inactivity_time c w =
      let x = w.calls c in
      least_inactivity x.local_sinks ((w.now.steady - x.creation_ts_steady) / 1000) w
