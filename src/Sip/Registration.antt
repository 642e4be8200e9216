-- ===== src/Sip/Registration.antt =====
-- What the loops of src/sip/SipProcessor.cpp and src/sip/Call.cpp over a call's sinks come to: the
-- status of each sink, and which sockets stay in the global `RtpSinkMap`.
use callx.Audio.RtpSink.{RtpSinkStatus, set_status}
use callx.Container.FriendlyMap.{FriendlyMap}
use callx.Container.FriendlyMap
use callx.Container.Map.{Map, values, count, find-erase, find-insert}
use callx.Container.Map
use callx.Network.SocketAddress.{SocketAddress, socket_key}
use callx.Prelude.{
  ℕ, ◌≤◌, ◌≡◌, refl, [], ◌∷◌, Option, none, Key, string_key, arith, if◌then◌else◌, ◌==◌, is_some,
}
use callx.Sip.Sinks.{
  confirm_sink, confirm_each, confirm_rtp_sinks, annul_sink, annul_each, annul_rtp_sinks,
  unregister_each,
}
use callx.Sip.World.{World}

abbrev pub status_of : {A : Type 0} → World A → ℕ → RtpSinkStatus
status_of w s = (w.sinks s).status

abbrev pub registered : {A : Type 0} ⦃k : Key A⦄ → World A → SocketAddress A → Option ℕ
registered w a = FriendlyMap.find a w.rtp_sink_map

-- A confirmation takes an offered sink over, and ends one that was not offered again.
abbrev pub confirmed_next : RtpSinkStatus → RtpSinkStatus
confirmed_next RtpSinkStatus.init = RtpSinkStatus.confirmed
confirmed_next RtpSinkStatus.confirmed_init = RtpSinkStatus.confirmed
confirmed_next RtpSinkStatus.confirmed = RtpSinkStatus.terminated
confirmed_next RtpSinkStatus.terminated = RtpSinkStatus.terminated

-- A refusal ends a new sink, and takes a renewed offer back.
abbrev pub annulled_next : RtpSinkStatus → RtpSinkStatus
annulled_next RtpSinkStatus.init = RtpSinkStatus.terminated
annulled_next RtpSinkStatus.confirmed_init = RtpSinkStatus.confirmed
annulled_next RtpSinkStatus.confirmed = RtpSinkStatus.confirmed
annulled_next RtpSinkStatus.terminated = RtpSinkStatus.terminated

module _ {A : Type 0} ⦃k : Key A⦄ where
  status-confirm_sink :
      (a : SocketAddress A) (s : ℕ) (w : World A) (r : ℕ)
      → status_of (confirm_sink a s (status_of w s) w) r
        ≡ (if r == s then confirmed_next (status_of w s) else status_of w r)
  unfolding confirm_sink set_status
  status-confirm_sink a s w r = ground arith

  -- After `confirmRtpSinks` over a map that holds the sink `r` at most once, `r` has moved one step of
  -- the confirmation if it is in the map, and not at all otherwise.
  status-confirm_each :
      (m : Map (SocketAddress A) ℕ) (w : World A) (r : ℕ)
      → count r (values m) ≤ 1
      → status_of (confirm_each m w) r
        ≡ (if count r (values m) == 0 then status_of w r else confirmed_next (status_of w r))
  unfolding confirm_each
  status-confirm_each [] w r h = refl
  status-confirm_each ((a, s) ∷ m) w r h = ground (
    arith,
    status-confirm_each m (confirm_sink a s (status_of w s) w) r,
    status-confirm_sink a s w r,
  )

  status-annul_sink :
      (a : SocketAddress A) (s : ℕ) (w : World A) (r : ℕ)
      → status_of (annul_sink a s (status_of w s) w) r
        ≡ (if r == s then annulled_next (status_of w s) else status_of w r)
  unfolding annul_sink set_status
  status-annul_sink a s w r = ground arith

  -- After `annulRtpSinks` over a map that holds the sink `r` at most once, `r` has moved one step of
  -- the refusal if it is in the map, and not at all otherwise.
  status-annul_each :
      (m : Map (SocketAddress A) ℕ) (w : World A) (r : ℕ)
      → count r (values m) ≤ 1
      → status_of (annul_each m w) r
        ≡ (if count r (values m) == 0 then status_of w r else annulled_next (status_of w r))
  unfolding annul_each
  status-annul_each [] w r h = refl
  status-annul_each ((a, s) ∷ m) w r h =
      ground
        (arith, status-annul_each m (annul_sink a s (status_of w s) w) r, status-annul_sink a s w r)

  -- `unregisterRtpSinks` takes exactly the sockets of the call out of the global map.
  pub registered-unregister_each :
      (m : Map (SocketAddress A) ℕ) (w : World A) (a : SocketAddress A)
      → registered (unregister_each m w) a
        ≡ (if is_some (Map.find a m) then none else registered w a)
  unfolding unregister_each Map.find FriendlyMap.find FriendlyMap.erase
  registered-unregister_each [] w a = refl
  registered-unregister_each ((b, s) ∷ m) w a = ground (
    arith,
    registered-unregister_each m
        (record w { rtp_sink_map = (FriendlyMap.erase b w.rtp_sink_map).0 }) a,
    find-erase b a w.rtp_sink_map.entries,
  )

  -- After `confirmRtpSinks` on a call that holds the sink `r` at most once, `r` has moved one step of the
  -- confirmation if the call holds it, and has its status still if not.
  pub status-confirm_rtp_sinks :
      (c : ℕ) (w : World A) (r : ℕ)
      → count r (values (w.calls c).local_sinks) ≤ 1
      → status_of (confirm_rtp_sinks c w) r ≡ (
          if count r (values (w.calls c).local_sinks) == 0
          then status_of w r
          else confirmed_next (status_of w r))
  unfolding confirm_rtp_sinks
  status-confirm_rtp_sinks c w r h = status-confirm_each (w.calls c).local_sinks w r h

  -- After `annulRtpSinks` on a call that holds the sink `r` at most once, `r` has moved one step of the
  -- refusal if the call holds it, and has its status still if not.
  pub status-annul_rtp_sinks :
      (c : ℕ) (w : World A) (r : ℕ)
      → count r (values (w.calls c).local_sinks) ≤ 1
      → status_of (annul_rtp_sinks c w) r ≡ (
          if count r (values (w.calls c).local_sinks) == 0
          then status_of w r
          else annulled_next (status_of w r))
  unfolding annul_rtp_sinks
  status-annul_rtp_sinks c w r h = status-annul_each (w.calls c).local_sinks w r h
