-- ===== src/VirtualSocket/Balance.antt =====
-- Lemmas on what `sendTo` and `send` of src/virtual/VirtualSocket.cpp leave as it is.
use barren_engine.Common.{
  ℕ, ◌+◌, ◌%◌, ◌^◌, ◌≡◌, refl, ◌∙◌, Bool, true, false, not, ◌||◌, Option, Bytes, length, leb, ltb,
  arith, if_cases, add_u64,
}
use barren_engine.VirtualSocket.{
  QosProfile, SocketPacket, VirtualSocket, Chance, push, simulate_corruption, simulate_reordering,
  open_window, update_bandwidth,
}
use barren_engine.VirtualSocket.Sending.{
  count_packet, update_statistics, simulate, packet_of, queue_packet, send_to, send,
}

-- The members that a step of the sending leaves as they are, and the counters that stay in balance.
pub record Keeps (s s' : VirtualSocket) : Type 0 where
  pub connected : s'.is_connected ≡ s.is_connected
  pub listening : s'.is_listening ≡ s.is_listening
  pub bound : s'.is_bound ≡ s.is_bound
  pub received : s'.receive_queue ≡ s.receive_queue
  pub balance :
      s.statistics.packets_sent % 2 ^ 64
        ≡ (s.statistics.packets_received + s.statistics.packets_lost) % 2 ^ 64
      → s'.statistics.packets_sent % 2 ^ 64
        ≡ (s'.statistics.packets_received + s'.statistics.packets_lost) % 2 ^ 64

Keeps-refl : (s : VirtualSocket) → Keeps s s
Keeps-refl s = record {
  connected = refl;
  listening = refl;
  bound = refl;
  received = refl;
  balance = λ e. e;
}

Keeps-trans : (s t u : VirtualSocket) → Keeps s t → Keeps t u → Keeps s u
Keeps-trans s t u k l = record {
  connected = l.connected ∙ k.connected;
  listening = l.listening ∙ k.listening;
  bound = l.bound ∙ k.bound;
  received = l.received ∙ k.received;
  balance = λ e. l.balance (k.balance e);
}

update_statistics-Keeps :
    (packet : SocketPacket) (lost corrupted reordered : Bool) (now : ℕ) (s : VirtualSocket)
    → Keeps s (update_statistics packet lost corrupted reordered now s)
unfolding update_statistics count_packet
update_statistics-Keeps packet true corrupted reordered now s =
    if_cases (Keeps s) (leb (s.last_bandwidth_update + 10 ^ 9) now) _ _
      (λ e. record {
        connected = refl;
        listening = refl;
        bound = refl;
        received = refl;
        balance = λ b. omega arith;
      })
      (λ e. record {
        connected = refl;
        listening = refl;
        bound = refl;
        received = refl;
        balance = λ b. omega arith;
      })
update_statistics-Keeps packet false corrupted reordered now s =
    if_cases (Keeps s) (leb (s.last_bandwidth_update + 10 ^ 9) now) _ _
      (λ e. record {
        connected = refl;
        listening = refl;
        bound = refl;
        received = refl;
        balance = λ b. omega arith;
      })
      (λ e. record {
        connected = refl;
        listening = refl;
        bound = refl;
        received = refl;
        balance = λ b. omega arith;
      })

update_bandwidth-Keeps :
    (chance : Chance) (now : ℕ) (packet : SocketPacket) (s : VirtualSocket)
    → Keeps s (update_bandwidth chance now packet s).0
unfolding update_bandwidth open_window
update_bandwidth-Keeps chance now packet s =
    if_cases {A = VirtualSocket × SocketPacket} (λ p. Keeps s p.0) (not chance.limited) _ _
      (λ e. Keeps-refl s)
      (λ e.
        if_cases {A = VirtualSocket}
          (λ t. Keeps s (record t {
            bytes_in_current_window = add_u64 t.bytes_in_current_window (length packet.bytes);
          }))
          (leb (s.last_bandwidth_update + 10 ^ 9) now) _ _
          (λ x. record {
            connected = refl;
            listening = refl;
            bound = refl;
            received = refl;
            balance = λ b. b;
          })
          (λ x. record {
            connected = refl;
            listening = refl;
            bound = refl;
            received = refl;
            balance = λ b. b;
          }))

simulate-Keeps :
    (chance : Chance) (now : ℕ) (packet : SocketPacket) (s : VirtualSocket)
    → Keeps s (simulate chance now packet s).0
unfolding simulate simulate_reordering
simulate-Keeps chance now packet s =
    if_cases {A = VirtualSocket}
      (λ t.
        Keeps s
          (update_bandwidth chance now
            (record (simulate_corruption chance packet) {
              timestamp = chance.delayed (simulate_corruption chance packet).timestamp;
            })
            t).0)
      chance.reordered _ _
      (λ e.
        Keeps-trans s _ _
          (record {
            connected = refl;
            listening = refl;
            bound = refl;
            received = refl;
            balance = λ b. b;
          })
          (update_bandwidth-Keeps chance now _ _))
      (λ e. update_bandwidth-Keeps chance now _ s)

queue_packet-Keeps : (now : ℕ) (p : VirtualSocket × SocketPacket) → Keeps p.0 (queue_packet now p)
unfolding queue_packet push
queue_packet-Keeps now (s, packet) =
    Keeps-trans s _ _
      (record {
        connected = refl;
        listening = refl;
        bound = refl;
        received = refl;
        balance = λ b. b;
      })
      (update_statistics-Keeps packet false packet.is_corrupted false now _)

pub send_to-Keeps :
    (chance : Chance) (sequence now : ℕ) (bytes address : Bytes) (port : ℕ) (qos : QosProfile)
    (s : VirtualSocket)
    → Keeps s (send_to chance sequence now bytes address port qos s).0
unfolding send_to
send_to-Keeps chance sequence now bytes address port qos s =
    let packet = packet_of bytes address port qos sequence now in
    if_cases {A = VirtualSocket × Option ℕ} (λ p. Keeps s p.0)
      (not s.is_bound || ltb s.mtu (length bytes)) _ _ (λ e. Keeps-refl s)
      (λ e.
        if_cases {A = VirtualSocket × Option ℕ} (λ p. Keeps s p.0) (not s.simulation_enabled) _ _
          (λ x. queue_packet-Keeps now (s, packet))
          (λ x.
            if_cases {A = VirtualSocket × Option ℕ} (λ p. Keeps s p.0) chance.lost _ _
              (λ y. update_statistics-Keeps packet true false false now s)
              (λ y.
                Keeps-trans s _ _ (simulate-Keeps chance now packet s)
                  (queue_packet-Keeps now (simulate chance now packet s)))))

pub send-Keeps :
    (chance : Chance) (sequence now : ℕ) (bytes : Bytes) (qos : QosProfile) (s : VirtualSocket)
    → Keeps s (send chance sequence now bytes qos s).0
unfolding send
send-Keeps chance sequence now bytes qos s =
    if_cases {A = VirtualSocket × Option ℕ} (λ p. Keeps s p.0) (not s.is_connected) _ _
      (λ e. Keeps-refl s)
      (λ e. send_to-Keeps chance sequence now bytes s.remote_address s.remote_port qos s)
