-- ===== src/Tests/ConnectionRuns.antt =====
-- Runs of the operations of src/Connection.cpp.
use barren_engine.Common.{
  ◌≡◌, refl, true, [], ◌∷◌, ◌++◌, Bytes, IsByte, All, arith, nat_eq, add_u32,
}
use barren_engine.Connection.{
  Connection, reliable, unreliable, new_connection, new_packet, queue_packet,
  process_incoming_packet, get_packets_to_send, update,
}
use barren_engine.Connection.Invariant.{
  queues, receives, sends, run, IsValid, run-new_connection-IsValid,
}
use barren_engine.Connection.Delivery.{get_packets_to_send-update, update-queue_packet}
use barren_engine.Connection.Acks.{in_flight, process_incoming_packet_lem, in_flight_for_ever}

abbrev fresh : Connection
fresh = new_connection 1400 0

abbrev payload : Bytes
payload = 7 ∷ 0 ∷ 0 ∷ 0 ∷ 65 ∷ []

payload_bytes : All IsByte payload
payload_bytes = (omega arith, (omega arith, (omega arith, (omega arith, (omega arith, tt)))))

run-new_connection-IsValid_example : IsValid (
    run
      (new_connection 1400 0)
      (queues payload reliable 1 2 ∷ receives payload 3 4 ∷ sends (λ i. 5) ∷ []))
run-new_connection-IsValid_example =
    run-new_connection-IsValid 1400 0
      (queues payload reliable 1 2 ∷ receives payload 3 4 ∷ sends (λ i. 5) ∷ [])

get_packets_to_send-update_example :
    (get_packets_to_send (update (queue_packet fresh payload reliable 1 2) 3 4 (λ i. 5)) (λ i. 6)).1
    ≡ (queue_packet fresh payload reliable 1 2).outgoing
get_packets_to_send-update_example =
    get_packets_to_send-update (queue_packet fresh payload reliable 1 2) 3 4 (λ i. 5) (λ i. 6)
      (λ i. omega arith)

update-queue_packet_example :
    let c' = update (queue_packet fresh payload reliable 1 2) 3 4 (λ i. 5) in
    (c'.unacknowledged ≡ []) × (c'.outgoing ≡ fresh.outgoing)
update-queue_packet_example =
    update-queue_packet fresh payload reliable 1 2 3 4 (λ i. 5) (unfold new_connection in refl) refl
      (λ i. omega arith)

process_incoming_packet_lem_example :
    let (c', accepted) = process_incoming_packet fresh payload 1 2 in
    (accepted ≡ true)
    × (c'.outgoing ≡ fresh.outgoing ++ new_packet fresh (7 ∷ 0 ∷ 0 ∷ 0 ∷ []) unreliable 1 2 ∷ [])
    × (c'.unacknowledged ≡ fresh.unacknowledged)
    × (c'.packets_received ≡ add_u32 fresh.packets_received 1)
process_incoming_packet_lem_example =
    process_incoming_packet_lem fresh payload 1 2 (omega arith) payload_bytes

in_flight_for_ever_example :
    in_flight (λ i. fresh) (λ i. 1) (λ i. 2) (λ i j. 3) 100 payload ≡ 7 ∷ 0 ∷ 0 ∷ 0 ∷ []
in_flight_for_ever_example =
    in_flight_for_ever (λ i. fresh) (λ i. 1) (λ i. 2) (λ i j. 3) 99 payload (omega arith)
      payload_bytes
