-- ===== src/Connection/Invariant.antt =====
-- Histories of calls of the public operations of src/Connection.cpp.
use barren_engine.Common.{
  ℕ, ◌<◌, ◌≡◌, refl, Bool, true, false, List, [], ◌∷◌, Bytes, All, All-append, All-assign,
  All-erase, arith, u32_mod, write_u32, read_u32, nat_eq, Bool-cases, inl, inr,
}
use barren_engine.Connection.{
  Connection, Packet, PacketReliability, unreliable, Entry, zero_quotient, is_unreliable,
  new_connection, new_packet, queue_packet, handle_acknowledgment, process_incoming_packet,
  get_packets_to_send, resend_unacknowledged_packets, update_statistics, update, set_connected,
}
use barren_engine.Connection.Entries.{All-touch_due, All-collect_due}

-- A call, with the clock readings that it makes.
pub data Call : Type 0 where
  queues : Bytes → PacketReliability → ℕ → ℕ → Call
  receives : Bytes → ℕ → ℕ → Call
  sends : (ℕ → ℕ) → Call
  updates : ℕ → ℕ → (ℕ → ℕ) → Call
  connects : Bool → Call

unfoldable pub step : Connection → Call → Connection
step c (queues bytes r system now) = queue_packet c bytes r system now
step c (receives bytes system now) = (process_incoming_packet c bytes system now).0
step c (sends clock) = (get_packets_to_send c clock).0
step c (updates stats_now now clock) = update c stats_now now clock
step c (connects b) = set_connected c b

unfoldable pub run : Connection → List Call → Connection
run c [] = c
run c (call ∷ calls) = run (step c call) calls

-- A waiting packet stands under its own number, is not marked, and is not unreliable.
abbrev pub IsWaiting : Entry → Type 0
IsWaiting e =
    (e.0 ≡ e.1.sequence_number)
    × (e.1.is_acknowledged ≡ false)
    × (is_unreliable e.1.reliability ≡ false)

abbrev pub IsOutgoing : Packet → Type 0
IsOutgoing p = is_unreliable p.reliability ≡ true

pub record IsValid (c : Connection) : Type 0 where
  pub waiting : All IsWaiting c.unacknowledged
  pub queued : All IsOutgoing c.outgoing
  pub fits : c.next_sequence_number < u32_mod
  pub none_sent : c.packets_sent ≡ 0
  pub none_lost : c.packets_lost ≡ 0
  pub no_loss : c.packet_loss ≡ zero_quotient
  pub no_rtt : c.rtt ≡ zero_quotient

pub new_connection-IsValid : (size now : ℕ) → IsValid (new_connection size now)
unfolding new_connection
new_connection-IsValid size now = record {
  waiting = tt;
  queued = tt;
  fits = omega arith;
  none_sent = refl;
  none_lost = refl;
  no_loss = refl;
  no_rtt = refl;
}

pub queue_packet-IsValid :
    (c : Connection) (bytes : Bytes) (r : PacketReliability) (system now : ℕ)
    → IsValid c
    → IsValid (queue_packet c bytes r system now)
unfolding queue_packet
queue_packet-IsValid c bytes r system now v = elim (Bool-cases (is_unreliable r)) [
  | inl u ↦ rw u (record {
    waiting = v.waiting;
    queued =
        All-append IsOutgoing c.outgoing (new_packet c bytes r system now ∷ []) v.queued (u, tt);
    fits = omega arith;
    none_sent = v.none_sent;
    none_lost = v.none_lost;
    no_loss = v.no_loss;
    no_rtt = v.no_rtt;
  })
  | inr u ↦ rw u (record {
    waiting =
        All-assign IsWaiting c.next_sequence_number (new_packet c bytes r system now)
          c.unacknowledged (λ j e. (e, refl, u)) v.waiting;
    queued = v.queued;
    fits = omega arith;
    none_sent = v.none_sent;
    none_lost = v.none_lost;
    no_loss = v.no_loss;
    no_rtt = v.no_rtt;
  })
]

process_incoming_packet-IsValid :
    (c : Connection) (bytes : Bytes) (system now : ℕ)
    → IsValid c
    → IsValid (process_incoming_packet c bytes system now).0
unfolding process_incoming_packet handle_acknowledgment
process_incoming_packet-IsValid c bytes system now v =
    let ack = write_u32 (read_u32 bytes) in
    let q = queue_packet c ack unreliable system now in
    let w = queue_packet-IsValid c ack unreliable system now v in
    ground (arith, w, All-erase IsWaiting (read_u32 bytes) q.unacknowledged w.waiting)

get_packets_to_send-IsValid :
    (c : Connection) (clock : ℕ → ℕ) → IsValid c → IsValid (get_packets_to_send c clock).0
unfolding get_packets_to_send
get_packets_to_send-IsValid c clock v = record {
  waiting = All-collect_due IsWaiting clock 0 c.unacknowledged (λ now e h. h) v.waiting;
  queued = tt;
  fits = v.fits;
  none_sent = v.none_sent;
  none_lost = v.none_lost;
  no_loss = v.no_loss;
  no_rtt = v.no_rtt;
}

update-IsValid :
    (c : Connection) (stats_now now : ℕ) (clock : ℕ → ℕ)
    → IsValid c
    → IsValid (update c stats_now now clock)
unfolding update update_statistics resend_unacknowledged_packets
update-IsValid c stats_now now clock v =
    ground (arith, All-touch_due IsWaiting now clock 0 c.unacknowledged (λ e h. h) v.waiting)

pub step-IsValid : (c : Connection) (call : Call) → IsValid c → IsValid (step c call)
unfolding step set_connected
step-IsValid c (queues bytes r system now) v = queue_packet-IsValid c bytes r system now v
step-IsValid c (receives bytes system now) v = process_incoming_packet-IsValid c bytes system now v
step-IsValid c (sends clock) v = get_packets_to_send-IsValid c clock v
step-IsValid c (updates stats_now now clock) v = update-IsValid c stats_now now clock v
step-IsValid c (connects b) v = ground arith

pub run-IsValid : (c : Connection) (calls : List Call) → IsValid c → IsValid (run c calls)
unfolding run
run-IsValid c [] v = v
run-IsValid c (call ∷ calls) v = run-IsValid (step c call) calls (step-IsValid c call v)

-- After any history of calls on a new connection, each packet that waits for an acknowledgement is
-- filed under its own sequence number, unacknowledged and not unreliable, the outgoing queue
-- holds unreliable packets alone, the next sequence number fits 32 bits, and the counts of packets
-- sent and lost, the loss and the round trip time are still zero.
pub run-new_connection-IsValid :
    (size now : ℕ) (calls : List Call) → IsValid (run (new_connection size now) calls)
run-new_connection-IsValid size now calls = run-IsValid _ calls (new_connection-IsValid size now)
