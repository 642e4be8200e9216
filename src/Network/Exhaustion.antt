-- ===== src/Network/Exhaustion.antt =====
-- What becomes of a pool of one packet when the dispatcher keeps that packet: src/network/TlayerDispatcher.cpp
-- and src/network/PcapHandler.cpp.
use callx.Container.Queue.{Queue, waits, wait_and_pop, empty}
use callx.Main.Running.{fill_pool}
use callx.Network.Conservation.{steps-Conserves_filled}
use callx.Network.Flow.{Flow, blocked, callback, dispatch_round, Steps, filled_pool, held}
use callx.Network.Frame.{TlayerPacket}
use callx.Prelude.{
  ℕ, ◌≡◌, inl, inr, refl, ap, true, pos, List, [], ◌∷◌, some, length, arith, Bool-cases,
}

length_zero : {A : Type 0} (xs : List A) → length xs ≡ 0 → xs ≡ []
length_zero [] h = refl
length_zero (x ∷ xs) h = absurd (omega (arith, h))

none_to_pop :
    {A : Type 0} (q : Queue A) → q.items ≡ [] → q.activated ≡ true → wait_and_pop q ≡ waits
unfolding wait_and_pop
none_to_pop q e a = simp (e, a)

none_to_sort :
    {A : Type 0} (address_of : (ℕ → ℕ) → A) (f : Flow A)
    → f.pcap_packet_queue.items ≡ []
    → dispatch_round address_of f ≡ f
unfolding dispatch_round wait_and_pop
none_to_sort address_of f e = elim (Bool-cases f.pcap_packet_queue.activated) [
  | inl a ↦ simp (dispatch_round, wait_and_pop, e, a)
  | inr a ↦ simp (dispatch_round, wait_and_pop, e, a)
]

-- Whatever the threads did, from a pool filled with one packet: while the dispatcher holds a packet, a
-- frame that it did not push, the capture of any frame waits for the pool, and a round of the
-- dispatcher does nothing.
pub held-blocked :
    {A : Type 0} (address_of : (ℕ → ℕ) → A) (make p : TlayerPacket A) (f : Flow A) (caplen : ℕ)
    (bytes : ℕ → ℕ)
    → Steps address_of (filled_pool (fill_pool (pos 1) make empty)) f
    → f.tlayer_packet ≡ some p
    → (callback caplen bytes f ≡ blocked) × (dispatch_round address_of f ≡ f)
unfolding callback
held-blocked address_of make p f caplen bytes s e =
    let c = steps-Conserves_filled address_of 1 make f s in
    let one : held f.tlayer_packet ≡ 1 = ap held e in
    let pool =
      none_to_pop f.tlayer_packet_queue
        (length_zero f.tlayer_packet_queue.items (omega (arith, c.number, one))) c.pool_active in
    (
      simp (callback, pool),
      none_to_sort address_of f
          (length_zero f.pcap_packet_queue.items (omega (arith, c.number, one))),
    )
