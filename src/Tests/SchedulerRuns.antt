-- ===== src/Tests/SchedulerRuns.antt =====
-- Runs of the operations of src/PacketPriority.cpp.
use mathlib.Core.List.{Perm}
use barren_engine.Common.{
  ℕ, ◌≡◌, refl, false, some, List, [], ◌∷◌, All, ltb, if◌then◌else◌, returns, deadlock,
}
use barren_engine.Scheduler.{
  PacketPriority, high, low, balanced, PacketMetadata, PrioritizedPacket, PacketScheduler,
  dequeue_packet, dequeue_from, extract_top, less,
}
use barren_engine.Scheduler.Order.{Precedes}
use barren_engine.Scheduler.Dequeue.{dequeue_packet_lem}

abbrev metadata_of : PacketPriority → ℕ → PacketMetadata
metadata_of priority deadline = record {
  priority = priority;
  qos = balanced;
  deadline = deadline;
  size = 1;
  sequence_number = 0;
  requires_ack = false;
  bandwidth_limit = 0;
}

abbrev first_packet : PrioritizedPacket
first_packet = record { bytes = 1 ∷ []; metadata = metadata_of low 5 }

abbrev second_packet : PrioritizedPacket
second_packet = record { bytes = 2 ∷ []; metadata = metadata_of high 9 }

abbrev two_packets : PacketScheduler
two_packets = record {
  packet_queue = first_packet ∷ second_packet ∷ [];
  max_queue_size = 3;
  current_bandwidth = 0;
  max_bandwidth = 0;
}

dequeue_packet_run :
    dequeue_packet 1 false two_packets (λ i. 7)
    ≡ returns (record two_packets { packet_queue = first_packet ∷ [] }, some second_packet)
unfolding dequeue_packet dequeue_from extract_top less
dequeue_packet_run = refl

expired_run : dequeue_packet 2 false two_packets (λ i. 10) ≡ deadlock
unfolding dequeue_packet dequeue_from extract_top less
expired_run = refl

dequeue_packet_lem_example :
    (top : PrioritizedPacket) × (rest : List PrioritizedPacket) × (dequeue_packet 1 false
        two_packets
        (λ i. 7)
      ≡ (if ltb top.metadata.deadline 7
          then deadlock
          else returns (record two_packets { packet_queue = rest }, some top)))
    × Perm two_packets.packet_queue (top ∷ rest)
    × All (Precedes top) (top ∷ rest)
dequeue_packet_lem_example =
    dequeue_packet_lem 0 two_packets (λ i. 7) first_packet (second_packet ∷ []) refl
