-- ===== src/Scheduler.antt =====
-- `PacketScheduler` and its packets: PacketPriority.hpp and src/PacketPriority.cpp. A time is a number;
-- the queue is the list of its packets, oldest first, and the top is the first of the greatest by
-- `operator<` (the standard leaves open which of several). `std::mutex` is that of Common/Mutex.
pub mod Order
pub mod Dequeue
use barren_engine.Common.{
  ℕ, zero, suc, ◌+◌, Bool, true, false, not, Option, none, some, List, [], ◌∷◌, ◌++◌, Bytes, length,
  leb, ltb, ◌==◌, if◌then◌else◌, Outcome, returns, deadlock, lock_guard,
}

pub data PacketPriority : Type 0 where
  critical high medium low background : PacketPriority

-- `static_cast<int>(priority)`.
abbrev pub rank : PacketPriority → ℕ
rank critical = 0
rank high = 1
rank medium = 2
rank low = 3
rank background = 4

pub data QosLevel : Type 0 where
  ultra_low_latency low_latency balanced high_throughput reliable : QosLevel

-- `bandwidth_limit` is the bit pattern of a `float` that nothing reads.
pub record PacketMetadata : Type 0 where
  pub priority : PacketPriority
  pub qos : QosLevel
  pub deadline : ℕ
  pub size : ℕ
  pub sequence_number : ℕ
  pub requires_ack : Bool
  pub bandwidth_limit : ℕ

pub record PrioritizedPacket : Type 0 where
  pub bytes : Bytes
  pub metadata : PacketMetadata

-- `operator<`.
unfoldable pub less : PrioritizedPacket → PrioritizedPacket → Bool
less p q =
    if not (rank p.metadata.priority == rank q.metadata.priority)
    then ltb (rank q.metadata.priority) (rank p.metadata.priority)
    else ltb q.metadata.deadline p.metadata.deadline

pub record PacketScheduler : Type 0 where
  pub packet_queue : List PrioritizedPacket
  pub max_queue_size : ℕ
  pub current_bandwidth : ℕ
  pub max_bandwidth : ℕ

abbrev pub new_scheduler : ℕ → PacketScheduler
new_scheduler max_queue_size = record {
  packet_queue = [];
  max_queue_size = max_queue_size;
  current_bandwidth = 0;
  max_bandwidth = 0;
}

-- The greatest of a packet and a list, and the others.
unfoldable pub extract_top :
    PrioritizedPacket → List PrioritizedPacket → PrioritizedPacket × List PrioritizedPacket
extract_top best [] = (best, [])
extract_top best (p ∷ ps) =
    let (top, rest) = extract_top (if less best p then p else best) ps in
    (top, (if less best p then best else p) ∷ rest)

unfoldable pub enqueue_packet :
    Bool → PacketScheduler → Bytes → PacketMetadata → Outcome (PacketScheduler × Bool)
enqueue_packet held s bytes metadata = lock_guard held (λ _.
    if leb s.max_queue_size (length s.packet_queue)
    then returns (s, false)
    else returns (
      record s {
        packet_queue = s.packet_queue ++ record { bytes = bytes; metadata = metadata } ∷ [];
      },
      true,
    ))

-- What `dequeuePacket` does on a queue with a packet once the mutex is locked; `again` is the call of
-- itself, which is made with the mutex held.
unfoldable pub dequeue_from :
    (PacketScheduler → Outcome (PacketScheduler × Option PrioritizedPacket))
    → PacketScheduler
    → ℕ
    → List PrioritizedPacket
    → Outcome (PacketScheduler × Option PrioritizedPacket)
dequeue_from again s now [] = returns (s, none)
dequeue_from again s now (p ∷ ps) =
    let (top, rest) = extract_top p ps in
    let popped = record s { packet_queue = rest } in
    let next = again popped in
    if ltb top.metadata.deadline now then next else returns (popped, some top)

-- `depth` bounds the calls of itself; `clock` gives the reading of each.
unfoldable pub dequeue_packet :
    ℕ → Bool → PacketScheduler → (ℕ → ℕ) → Outcome (PacketScheduler × Option PrioritizedPacket)
dequeue_packet zero held s clock = deadlock
dequeue_packet (suc depth) held s clock = lock_guard held (λ held'.
    dequeue_from (λ popped. dequeue_packet depth held' popped clock) s (clock depth) s.packet_queue)

unfoldable pub set_max_bandwidth : PacketScheduler → ℕ → PacketScheduler
set_max_bandwidth s bandwidth = record s { max_bandwidth = bandwidth }

unfoldable pub update_bandwidth_usage : PacketScheduler → ℕ → PacketScheduler
update_bandwidth_usage s bytes = record s { current_bandwidth = bytes }

unfoldable pub get_queue_size : Bool → PacketScheduler → Outcome ℕ
get_queue_size held s = lock_guard held (λ _. returns (length s.packet_queue))
