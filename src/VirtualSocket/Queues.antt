-- ===== src/VirtualSocket/Queues.antt =====
-- Lemmas on `sendTo` of src/virtual/VirtualSocket.cpp without the simulated network.
use barren_engine.Common.{
  ℕ, ◌+◌, ◌^◌, ◌≤◌, ◌<◌, ◌≡◌, refl, ap, ◌∙◌, Bool, true, false, not, ◌||◌, Option, some, [], ◌∷◌,
  ◌++◌, Bytes, length, leb, ltb, ◌==◌, arith, if◌then◌else◌, if_cases, get_or_else, find, assign,
  find-assign, nat_eq, add_u64,
}
use barren_engine.Network.Sending.{to_int}
use barren_engine.VirtualSocket.{
  QosProfile, SocketPacket, VirtualSocket, Chance, priority_code, push,
}
use barren_engine.VirtualSocket.Sending.{
  count_packet, update_statistics, packet_of, queue_packet, send_to,
}

update_statistics-queues :
    (packet : SocketPacket) (lost corrupted reordered : Bool) (now : ℕ) (s : VirtualSocket)
    → ((update_statistics packet lost corrupted reordered now s).send_queues ≡ s.send_queues)
      × ((update_statistics packet lost corrupted reordered now s).statistics.packets_sent
          ≡ add_u64 s.statistics.packets_sent 1)
unfolding update_statistics count_packet
update_statistics-queues packet lost corrupted reordered now s =
    if_cases {A = VirtualSocket}
      (λ t.
        (t.send_queues ≡ s.send_queues)
        × (t.statistics.packets_sent ≡ add_u64 s.statistics.packets_sent 1))
      (leb (s.last_bandwidth_update + 10 ^ 9) now) _ _ (λ e. (refl, refl)) (λ e. (refl, refl))

send_to_queued :
    (chance : Chance) (sequence now : ℕ) (bytes address : Bytes) (port : ℕ) (qos : QosProfile)
    (s : VirtualSocket)
    → s.is_bound ≡ true
    → s.simulation_enabled ≡ false
    → length bytes ≤ s.mtu
    → send_to chance sequence now bytes address port qos s
      ≡ (queue_packet now (s, packet_of bytes address port qos sequence now), to_int (length bytes))
unfolding send_to
send_to_queued chance sequence now bytes address port qos s bound plain fits =
    let target : VirtualSocket × Option ℕ = (
      queue_packet now (s, packet_of bytes address port qos sequence now),
      to_int (length bytes),
    ) in
    if_cases {A = VirtualSocket × Option ℕ} (λ p. p ≡ target)
      (not s.is_bound || ltb s.mtu (length bytes)) _ _ (λ e. absurd (ground arith))
      (λ e.
        if_cases {A = VirtualSocket × Option ℕ} (λ p. p ≡ target) (not s.simulation_enabled) _ _
          (λ x. refl) (λ x. absurd (ground arith)))

-- On a bound socket without simulation `sendTo` of at most `mtu` bytes, and fewer than 2 ^ 31, returns
-- their number, puts the packet behind those of its priority, leaves the queues of the other
-- priorities as they are, and counts one packet more, modulo 2 ^ 64.
pub send_to_plain :
    (chance : Chance) (sequence now : ℕ) (bytes address : Bytes) (port : ℕ) (qos : QosProfile)
    (s : VirtualSocket)
    → s.is_bound ≡ true
    → s.simulation_enabled ≡ false
    → length bytes ≤ s.mtu
    → length bytes < 2 ^ 31
    → let (s', sent) = send_to chance sequence now bytes address port qos s in
      let key = priority_code qos.priority in
      let packet = packet_of bytes address port qos sequence now in
      (sent ≡ some (length bytes))
      × ((k : ℕ)
          → find k s'.send_queues ≡ (
              if key == k
              then some (get_or_else (find key s.send_queues) [] ++ packet ∷ [])
              else find k s.send_queues))
      × (s'.statistics.packets_sent ≡ add_u64 s.statistics.packets_sent 1)
unfolding queue_packet push to_int
send_to_plain chance sequence now bytes address port qos s bound plain fits small =
    let key = priority_code qos.priority in
    let packet = packet_of bytes address port qos sequence now in
    let queue = get_or_else (find key s.send_queues) [] ++ packet ∷ [] in
    let pushed = record s { send_queues = assign key queue s.send_queues } in
    let counted = update_statistics-queues packet false false false now pushed in
    let returned : to_int (length bytes) ≡ some (length bytes) = ground arith in
    rw (send_to_queued chance sequence now bytes address port qos s bound plain fits)
      (returned, λ k. ap (find k) counted.0 ∙ find-assign key k queue s.send_queues, counted.1)
