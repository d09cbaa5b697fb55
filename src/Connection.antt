-- ===== src/Connection.antt =====
-- The class `Connection`: Connection.hpp and src/Connection.cpp. A time of the steady clock is a number
-- of nanoseconds; each operation gets the readings that it makes, as a function from their number.
-- A map is a list of entries in the order of iteration. `float` members keep the exact quotient.
pub mod Entries
pub mod Invariant
pub mod Delivery
pub mod Acks
use barren_engine.Common.{
  ℕ, zero, suc, ◌+◌, ◌-◌, ◌*◌, ◌/◌, ◌%◌, ◌^◌, ◌≡◌, Bool, true, false, not, ◌&&◌, Option, none, some,
  List, [], ◌∷◌, ◌++◌, Bytes, length, leb, ltb, ◌==◌, if◌then◌else◌, add_u32, read_u32, write_u32,
  find, assign, erase, nat_eq,
}

pub data PacketReliability : Type 0 where
  unreliable unreliable_sequenced reliable reliable_sequenced reliable_ordered : PacketReliability

pub record Packet : Type 0 where
  pub sequence_number : ℕ
  pub timestamp : ℕ
  pub reliability : PacketReliability
  pub bytes : Bytes
  pub is_acknowledged : Bool
  pub last_resend_time : ℕ

abbrev pub Entry : Type 0
Entry = ℕ × Packet

-- The quotient of two numbers, which a `float` rounds.
pub record Quotient : Type 0 where
  pub over : ℕ
  pub under : ℕ

abbrev pub zero_quotient : Quotient
zero_quotient = record { over = 0; under = 1 }

pub record Connection : Type 0 where
  pub unacknowledged : List Entry
  pub outgoing : List Packet
  pub next_sequence_number : ℕ
  pub max_packet_size : ℕ
  pub connected : Bool
  pub rtt : Quotient
  pub packet_loss : Quotient
  pub packets_sent : ℕ
  pub packets_received : ℕ
  pub packets_lost : ℕ
  pub last_stats_update : ℕ

unfoldable pub new_connection : ℕ → ℕ → Connection
new_connection max_packet_size now = record {
  unacknowledged = [];
  outgoing = [];
  next_sequence_number = 0;
  max_packet_size = max_packet_size;
  connected = false;
  rtt = zero_quotient;
  packet_loss = zero_quotient;
  packets_sent = 0;
  packets_received = 0;
  packets_lost = 0;
  last_stats_update = now;
}

-- `reliability == PacketReliability::UNRELIABLE`.
abbrev pub is_unreliable : PacketReliability → Bool
is_unreliable unreliable = true
is_unreliable _ = false

-- The two readings are those of the system clock, in milliseconds, and of the steady clock.
abbrev pub new_packet : Connection → Bytes → PacketReliability → ℕ → ℕ → Packet
new_packet c bytes reliability system now = record {
  sequence_number = c.next_sequence_number;
  timestamp = system % 2 ^ 32;
  reliability = reliability;
  bytes = bytes;
  is_acknowledged = false;
  last_resend_time = now;
}

unfoldable pub queue_packet : Connection → Bytes → PacketReliability → ℕ → ℕ → Connection
queue_packet c bytes reliability system now =
    let packet = new_packet c bytes reliability system now in
    let c' = record c { next_sequence_number = add_u32 c.next_sequence_number 1 } in
    if is_unreliable reliability
    then record c' { outgoing = c.outgoing ++ packet ∷ [] }
    else record c' { unacknowledged = assign packet.sequence_number packet c.unacknowledged }

-- `erase` drops the entry that was marked first, so the mark is never seen.
unfoldable pub handle_acknowledgment : ℕ → Connection → Connection
handle_acknowledgment sequence_number c = record c {
  unacknowledged = erase sequence_number c.unacknowledged;
}

unfoldable pub process_incoming_packet : Connection → Bytes → ℕ → ℕ → Connection × Bool
process_incoming_packet c bytes system now =
    if ltb (length bytes) 4
    then (c, false)
    else (let sequence_number = read_u32 bytes in
        let acked = queue_packet c (write_u32 sequence_number) unreliable system now in
        let counted = record acked { packets_received = add_u32 acked.packets_received 1 } in
        (
          (if length bytes == 4 then handle_acknowledgment sequence_number counted else counted),
          true,
        ))

-- `duration_cast<seconds>(now - then).count()`.
abbrev pub seconds : ℕ → ℕ → ℕ
seconds now earlier = (now - earlier) / 10 ^ 9

-- A whole number of seconds is at least `RESEND_TIMEOUT`, a tenth, from 1 on.
unfoldable pub should_resend_packet : ℕ → Packet → Bool
should_resend_packet now packet =
    not packet.is_acknowledged && leb 1 (seconds now packet.last_resend_time)

-- The first loop of `getPacketsToSend`; turn `i` reads the clock as numbers `2 i` and `2 i + 1`.
unfoldable pub collect_due : (ℕ → ℕ) → ℕ → List Entry → List Packet × List Entry
collect_due clock i [] = ([], [])
collect_due clock i ((k, packet) ∷ entries) =
    let rest = collect_due clock (i + 1) entries in
    if should_resend_packet (clock (2 * i)) packet
    then (packet ∷ rest.0, (k, record packet { last_resend_time = clock (2 * i + 1) }) ∷ rest.1)
    else (rest.0, (k, packet) ∷ rest.1)

unfoldable pub get_packets_to_send : Connection → (ℕ → ℕ) → Connection × List Packet
get_packets_to_send c clock =
    let (due, entries) = collect_due clock 0 c.unacknowledged in
    (record c { unacknowledged = entries; outgoing = [] }, due ++ c.outgoing)

-- The loop of `resendUnacknowledgedPackets`: `now` was read before it, and turn `i` reads the clock
-- once more.
unfoldable pub touch_due : ℕ → (ℕ → ℕ) → ℕ → List Entry → List Entry
touch_due now clock i [] = []
touch_due now clock i ((k, packet) ∷ entries) =
    let rest = touch_due now clock (i + 1) entries in
    if should_resend_packet (clock i) packet
    then (k, record packet { last_resend_time = now }) ∷ rest
    else rest

unfoldable pub resend_unacknowledged_packets : Connection → ℕ → (ℕ → ℕ) → Connection
resend_unacknowledged_packets c now clock = record c {
  unacknowledged = touch_due now clock 0 c.unacknowledged;
}

unfoldable pub update_statistics : Connection → Connection
update_statistics c =
    if ltb 0 c.packets_sent
    then record c { packet_loss = record { over = c.packets_lost; under = c.packets_sent } }
    else c

-- The clock is read for the statistics, before the loop, and in the loop.
unfoldable pub update : Connection → ℕ → ℕ → (ℕ → ℕ) → Connection
update c stats_now now clock =
    let c' =
      if leb 1 (seconds stats_now c.last_stats_update)
      then record (update_statistics c) { last_stats_update = stats_now }
      else c in
    resend_unacknowledged_packets c' now clock

unfoldable pub set_connected : Connection → Bool → Connection
set_connected c connected = record c { connected = connected }
