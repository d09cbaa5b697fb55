-- ===== src/VirtualSocket.antt =====
-- The class `VirtualSocket`: virtual/VirtualSocket.hpp and src/virtual/VirtualSocket.cpp. A time is a number
-- of nanoseconds, an `int` that is negative is `none`, and what is drawn at random or computed with
-- `float`s is a record `Chance`, an argument of each call. The average latency is not modelled.
pub mod Sending
pub mod Balance
pub mod History
pub mod Queues
pub mod Checksum
use barren_engine.Common.{
  ℕ, zero, suc, ◌+◌, ◌-◌, ◌*◌, ◌/◌, ◌%◌, ◌^◌, Bool, true, false, not, ◌&&◌, ◌||◌, Option, none,
  some, List, [], ◌∷◌, ◌++◌, Bytes, length, set, get_or_else, is_empty, leb, ltb, if◌then◌else◌,
  find, assign, nat_eq, add_u64,
}
use barren_engine.Network.Sending.{to_int}

pub data Priority : Type 0 where
  immediate_priority high_priority medium_priority low_priority lowest_priority : Priority

-- The key of a queue in `sendQueues_`.
abbrev pub priority_code : Priority → ℕ
priority_code immediate_priority = 0
priority_code high_priority = 1
priority_code medium_priority = 2
priority_code low_priority = 3
priority_code lowest_priority = 4

pub data Reliability : Type 0 where
  unreliable unreliable_sequenced reliable reliable_ordered reliable_sequenced : Reliability
  reliable_with_ack_receipt reliable_ordered_with_ack_receipt : Reliability

pub record QosProfile : Type 0 where
  pub priority : Priority
  pub reliability : Reliability
  pub max_retries : ℕ
  pub timeout : ℕ
  pub compression : Bool
  pub encryption : Bool

pub record SocketPacket : Type 0 where
  pub bytes : Bytes
  pub address : Bytes
  pub port : ℕ
  pub timestamp : ℕ
  pub is_corrupted : Bool
  pub sequence_number : ℕ
  pub qos : QosProfile
  pub retry_count : ℕ

pub record Statistics : Type 0 where
  pub packets_sent : ℕ
  pub packets_received : ℕ
  pub packets_lost : ℕ
  pub packets_corrupted : ℕ
  pub packets_reordered : ℕ
  pub bytes_sent : ℕ
  pub bytes_received : ℕ
  pub current_bandwidth : ℕ

pub record VirtualSocket : Type 0 where
  pub is_bound : Bool
  pub is_connected : Bool
  pub is_listening : Bool
  pub simulation_enabled : Bool
  pub local_port : ℕ
  pub remote_address : Bytes
  pub remote_port : ℕ
  pub mtu : ℕ
  pub statistics : Statistics
  pub send_queues : List (ℕ × List SocketPacket)
  pub receive_queue : List SocketPacket
  pub last_bandwidth_update : ℕ
  pub bytes_in_current_window : ℕ

-- The tests and the numbers that `networkCondition_` and `rng_` give: whether the packet is lost or
-- corrupted, where and by which byte, its time after the latency, whether packets are reordered,
-- whether there is a limit of the bandwidth, which counts exceed it, and the time after that delay.
pub record Chance : Type 0 where
  pub lost : Bool
  pub corrupted : Bool
  pub index : ℕ
  pub byte : ℕ
  pub delayed : ℕ → ℕ
  pub reordered : Bool
  pub limited : Bool
  pub exceeds : ℕ → Bool
  pub slowed : ℕ → ℕ → ℕ

-- The constructor; `memory` is what the members that it does not write hold.
unfoldable pub new_socket : VirtualSocket → VirtualSocket
new_socket memory = record memory { remote_address = []; send_queues = []; receive_queue = [] }

unfoldable pub bind : ℕ → VirtualSocket → VirtualSocket × Bool
bind port s =
    if s.is_bound then (s, false) else (record s { local_port = port; is_bound = true }, true)

unfoldable pub connect : Bytes → ℕ → VirtualSocket → VirtualSocket × Bool
connect address port s =
    if not s.is_bound || s.is_connected
    then (s, false)
    else (record s { remote_address = address; remote_port = port; is_connected = true }, true)

unfoldable pub listen : VirtualSocket → VirtualSocket × Bool
listen s =
    if not s.is_bound || s.is_connected
    then (s, false)
    else (record s { is_listening = true }, true)

-- The new socket; the listening one stays as it is.
unfoldable pub accept : VirtualSocket → VirtualSocket → VirtualSocket
accept memory s = if not s.is_listening then new_socket memory else (bind 0 (new_socket memory)).0

-- The queue of each priority is emptied.
abbrev pub emptied : List (ℕ × List SocketPacket) → List (ℕ × List SocketPacket)
emptied [] = []
emptied ((k, queue) ∷ queues) = (k, []) ∷ emptied queues

unfoldable pub close : VirtualSocket → VirtualSocket
close s = record s {
  is_bound = false;
  is_connected = false;
  is_listening = false;
  local_port = 0;
  remote_port = 0;
  remote_address = [];
  send_queues = emptied s.send_queues;
  receive_queue = [];
}

-- `sendQueues_[priority].push(packet)`.
unfoldable pub push : SocketPacket → VirtualSocket → VirtualSocket
push packet s =
    let key = priority_code packet.qos.priority in
    record s {
      send_queues =
          assign key (get_or_else (find key s.send_queues) [] ++ packet ∷ []) s.send_queues;
    }

unfoldable pub simulate_corruption : Chance → SocketPacket → SocketPacket
simulate_corruption chance packet =
    if chance.corrupted && not (is_empty packet.bytes)
    then record packet { bytes = set packet.bytes chance.index chance.byte; is_corrupted = true }
    else packet

-- The first two packets of a queue go to its end, the second one first.
abbrev pub swapped : List SocketPacket → List SocketPacket
swapped [] = []
swapped (p ∷ []) = p ∷ []
swapped (p ∷ q ∷ queue) = queue ++ q ∷ p ∷ []

-- `operator[]` makes the queue of the medium priority where there is none.
unfoldable pub simulate_reordering : Chance → VirtualSocket → VirtualSocket
simulate_reordering chance s =
    let key = priority_code medium_priority in
    if chance.reordered
    then record s {
      send_queues = assign key (swapped (get_or_else (find key s.send_queues) [])) s.send_queues;
    }
    else s

-- The time that is read, and a new window of bandwidth where a second has passed.
unfoldable pub open_window : ℕ → VirtualSocket → VirtualSocket
open_window now s =
    if leb (s.last_bandwidth_update + 10 ^ 9) now
    then record s { bytes_in_current_window = 0; last_bandwidth_update = now }
    else s

unfoldable pub update_bandwidth :
    Chance → ℕ → SocketPacket → VirtualSocket → VirtualSocket × SocketPacket
update_bandwidth chance now packet s =
    if not chance.limited
    then (s, packet)
    else (let opened = open_window now s in
        let count = add_u64 opened.bytes_in_current_window (length packet.bytes) in
        (
          record opened { bytes_in_current_window = count },
          if chance.exceeds count
              then record packet { timestamp = chance.slowed count packet.timestamp }
              else packet,
        ))

-- Of the condition the model keeps the largest size of a packet; a `Chance` holds what the rest says.
unfoldable pub set_network_condition : ℕ → VirtualSocket → VirtualSocket
set_network_condition mtu s = record s { mtu = mtu }

unfoldable pub enable_simulation : Bool → VirtualSocket → VirtualSocket
enable_simulation enable s = record s { simulation_enabled = enable }

unfoldable pub reset_statistics : VirtualSocket → VirtualSocket
reset_statistics s = record s {
  statistics = record {
    packets_sent = 0;
    packets_received = 0;
    packets_lost = 0;
    packets_corrupted = 0;
    packets_reordered = 0;
    bytes_sent = 0;
    bytes_received = 0;
    current_bandwidth = 0;
  };
}

unfoldable pub is_simulation_enabled : VirtualSocket → Bool
is_simulation_enabled s = s.simulation_enabled

unfoldable pub get_statistics : VirtualSocket → Statistics
get_statistics s = s.statistics
