-- ===== src/VirtualSocket/Sending.antt =====
-- `sendTo`, `send`, `receiveFrom`, `receive` and the statistics of src/virtual/VirtualSocket.cpp.
use barren_engine.Common.{
  ℕ, ◌+◌, ◌^◌, Bool, true, false, not, ◌||◌, Option, none, some, [], ◌∷◌, Bytes, length, leb, ltb,
  if◌then◌else◌, add_u64,
}
use barren_engine.Network.Sending.{to_int}
use barren_engine.VirtualSocket.{
  QosProfile, SocketPacket, Statistics, VirtualSocket, Chance, push, simulate_corruption,
  simulate_reordering, update_bandwidth,
}

abbrev pub count_if : Bool → ℕ → ℕ → ℕ
count_if test n by = if test then add_u64 n by else n

unfoldable pub count_packet : SocketPacket → Bool → Bool → Bool → Statistics → Statistics
count_packet packet was_lost was_corrupted was_reordered t = record t {
  packets_sent = add_u64 t.packets_sent 1;
  packets_received = count_if (not was_lost) t.packets_received 1;
  packets_lost = count_if was_lost t.packets_lost 1;
  packets_corrupted = count_if was_corrupted t.packets_corrupted 1;
  packets_reordered = count_if was_reordered t.packets_reordered 1;
  bytes_sent = add_u64 t.bytes_sent (length packet.bytes);
  bytes_received = count_if (not was_lost) t.bytes_received (length packet.bytes);
}

unfoldable pub update_statistics :
    SocketPacket → Bool → Bool → Bool → ℕ → VirtualSocket → VirtualSocket
update_statistics packet was_lost was_corrupted was_reordered now s =
    let counted = count_packet packet was_lost was_corrupted was_reordered s.statistics in
    if leb (s.last_bandwidth_update + 10 ^ 9) now
    then record s {
      statistics = record counted { current_bandwidth = s.bytes_in_current_window };
      bytes_in_current_window = 0;
      last_bandwidth_update = now;
    }
    else record s { statistics = counted }

-- The simulated network, for a packet that is not lost.
unfoldable pub simulate : Chance → ℕ → SocketPacket → VirtualSocket → VirtualSocket × SocketPacket
simulate chance now packet s =
    let corrupted = simulate_corruption chance packet in
    let late = record corrupted { timestamp = chance.delayed corrupted.timestamp } in
    update_bandwidth chance now late (simulate_reordering chance s)

-- `sequence` is the reading of the counter that all sockets share, `now` of the clock.
abbrev pub packet_of : Bytes → Bytes → ℕ → QosProfile → ℕ → ℕ → SocketPacket
packet_of bytes address port qos sequence now = record {
  bytes = bytes;
  address = address;
  port = port;
  timestamp = now;
  is_corrupted = false;
  sequence_number = sequence;
  qos = qos;
  retry_count = 0;
}

-- The packet is queued and counted.
unfoldable pub queue_packet : ℕ → VirtualSocket × SocketPacket → VirtualSocket
queue_packet now (s, packet) =
    update_statistics packet false packet.is_corrupted false now (push packet s)

unfoldable pub send_to :
    Chance → ℕ → ℕ → Bytes → Bytes → ℕ → QosProfile → VirtualSocket → VirtualSocket × Option ℕ
send_to chance sequence now bytes address port qos s =
    let packet = packet_of bytes address port qos sequence now in
    if not s.is_bound || ltb s.mtu (length bytes)
    then (s, none)
    else if not s.simulation_enabled
    then (queue_packet now (s, packet), to_int (length bytes))
    else if chance.lost
    then (update_statistics packet true false false now s, to_int (length bytes))
    else (queue_packet now (simulate chance now packet s), to_int (length bytes))

unfoldable pub send : Chance → ℕ → ℕ → Bytes → QosProfile → VirtualSocket → VirtualSocket × Option ℕ
send chance sequence now bytes qos s =
    if not s.is_connected
    then (s, none)
    else send_to chance sequence now bytes s.remote_address s.remote_port qos s

-- The packet that is received, if there is one, and the returned number; the callback is not modelled.
unfoldable pub receive_from : VirtualSocket → VirtualSocket × Option SocketPacket × Option ℕ
receive_from s = if not s.is_bound then (s, none, none) else elim s.receive_queue [
  | [] ↦ (s, none, some 0)
  | packet ∷ queue ↦ (record s { receive_queue = queue }, some packet, to_int (length packet.bytes))
]

unfoldable pub receive : VirtualSocket → VirtualSocket × Option SocketPacket × Option ℕ
receive s = if not s.is_connected then (s, none, none) else receive_from s
