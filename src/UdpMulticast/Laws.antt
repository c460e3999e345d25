-- ===== src/UdpMulticast/Laws.antt =====
-- A packet that fits the array is queued as an event.
use c_utilities.Common.{
  ℕ, ◌<◌, ◌≡◌, ap, ◌∙◌, refl, true, some, ◌∷◌, ltb, arith, length, get_elem?, inr, if_true, Bytes,
}
use c_utilities.Common.Run.{done, fault, ◌>>=◌}
use c_utilities.StaticQueue.Fifo.{Fifo, offer}
use c_utilities.EventFw.{Event, EventFw}
use c_utilities.EventFw.Invariant.{Inv}
use c_utilities.EventFw.Generate.{message, generate_lem}
use c_utilities.UdpMulticast.{receive_multicast_message, buffer_length}

module _ {Cb : Type 0} where
  -- receiveMulticastMessage of a packet of 1 to 255 bytes offers EVT_PAR_UDP_MSG with a copy of the
  -- packet to the event queue, when the event has a callback and memory for the copy is given.
  pub receive_multicast_message_lem :
      {held : ℕ} (x : ℕ) (packet : Bytes) (fw : EventFw Cb) (f : Fifo Event) (cb : Cb)
      → length (x ∷ packet) < 256
      → Inv held fw f
      → get_elem? fw.event_info_table 2 ≡ some (some cb)
      → (fw' : EventFw Cb) × (receive_multicast_message true (x ∷ packet) fw ≡ done (0, fw'))
        × Inv held fw' (offer f (message 2 (some (x ∷ packet)) (length (x ∷ packet)))).1
  unfolding receive_multicast_message
  receive_multicast_message_lem x packet fw f cb short v reg =
      let n = length (x ∷ packet) in
      let fits : ltb n buffer_length ≡ true = ground (arith, short) in
      let (fw1, run, w) =
        generate_lem true fw f 2 (some (x ∷ packet)) n cb v reg (omega arith) (inr refl) in
      (fw1, if_true _ fault fits ∙ ap (λ r. r >>= λ r. done (0, r.1)) run, w)
