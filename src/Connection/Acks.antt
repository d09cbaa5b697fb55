-- ===== src/Connection/Acks.antt =====
-- Lemmas on `processIncomingPacket` of src/Connection.cpp.
use barren_engine.Common.{
  ℕ, zero, suc, ◌≤◌, ◌≡◌, refl, sym, ap, ◌∙◌, true, Option, none, some, List, [], ◌∷◌, ◌++◌, Bytes,
  IsByte, All, length, take, ◌==◌, arith, read_u32, write_u32, write_u32-read_u32, nat_eq, erase,
  append_assoc, add_u32, if◌then◌else◌, length-take, All-take, take_idem,
}
use barren_engine.Connection.{
  Connection, Packet, unreliable, new_packet, queue_packet, handle_acknowledgment,
  process_incoming_packet, get_packets_to_send, collect_due,
}

-- The last packet of a transmission, if there is one.
abbrev pub last? : List Packet → Option Packet
last? [] = none
last? (p ∷ []) = some p
last? (p ∷ q ∷ ps) = last? (q ∷ ps)

last?-append : (ps : List Packet) (p : Packet) → last? (ps ++ p ∷ []) ≡ some p
last?-append [] p = refl
last?-append (q ∷ []) p = refl
last?-append (q ∷ r ∷ ps) p = last?-append (r ∷ ps) p

-- The bytes that a peer sends last when it has received `bytes` and then collects its packets.
unfoldable pub reply : Connection → Bytes → ℕ → ℕ → (ℕ → ℕ) → Bytes
reply c bytes system now clock =
    let received = (process_incoming_packet c bytes system now).0 in
    elim (last? (get_packets_to_send received clock).1) [ none ↦ [] | some p ↦ p.bytes ]

ack_bytes :
    (bytes : Bytes)
    → 4 ≤ length bytes
    → All IsByte bytes
    → write_u32 (read_u32 bytes) ≡ take 4 bytes
ack_bytes [] h v = absurd (omega arith)
ack_bytes (a ∷ []) h v = absurd (omega arith)
ack_bytes (a ∷ b ∷ []) h v = absurd (omega arith)
ack_bytes (a ∷ b ∷ c ∷ []) h v = absurd (omega arith)
ack_bytes (a ∷ b ∷ c ∷ d ∷ rest) h v = write_u32-read_u32 a b c d rest v.0 v.1.0 v.1.1.0 v.1.1.1.0

-- A packet of four bytes or more is accepted and counted, its first four bytes go out as the only
-- new packet, and if it has no more than these, the entry of its number is removed.
pub process_incoming_packet_lem :
    (c : Connection) (bytes : Bytes) (system now : ℕ)
    → 4 ≤ length bytes
    → All IsByte bytes
    → let (c', accepted) = process_incoming_packet c bytes system now in
      (accepted ≡ true)
      × (c'.outgoing ≡ c.outgoing ++ new_packet c (take 4 bytes) unreliable system now ∷ [])
      × (c'.unacknowledged ≡ (
          if length bytes == 4 then erase (read_u32 bytes) c.unacknowledged else c.unacknowledged))
      × (c'.packets_received ≡ add_u32 c.packets_received 1)
unfolding process_incoming_packet queue_packet handle_acknowledgment
process_incoming_packet_lem c bytes system now h v = ground (arith, ack_bytes bytes h v)

-- The reply to a packet is its first four bytes, an acknowledgement.
reply_lem :
    (c : Connection) (bytes : Bytes) (system now : ℕ) (clock : ℕ → ℕ)
    → 4 ≤ length bytes
    → All IsByte bytes
    → reply c bytes system now clock ≡ take 4 bytes
unfolding reply get_packets_to_send
reply_lem c bytes system now clock h v =
    let received = (process_incoming_packet c bytes system now).0 in
    let due = (collect_due clock 0 received.unacknowledged).0 in
    let ack = new_packet c (take 4 bytes) unreliable system now in
    let queued : received.outgoing ≡ c.outgoing ++ ack ∷ [] =
      (process_incoming_packet_lem c bytes system now h v).1 in
    let last : last? (due ++ received.outgoing) ≡ some ack =
      ap (λ o. last? (due ++ o)) queued
      ∙ ap last? (sym (append_assoc due c.outgoing (ack ∷ [])))
      ∙ last?-append (due ++ c.outgoing) ack in
    rw (last, reply)

-- The bytes in flight after `n` deliveries between two peers, each delivery answered by the peer that
-- received it; the states are the peers' at the deliveries, and need have nothing to do with one
-- another.
unfoldable pub in_flight : (ℕ → Connection) → (ℕ → ℕ) → (ℕ → ℕ) → (ℕ → ℕ → ℕ) → ℕ → Bytes → Bytes
in_flight peer system now clock zero bytes = bytes
in_flight peer system now clock (suc n) bytes =
    reply (peer n) (in_flight peer system now clock n bytes) (system n) (now n) (clock n)

-- Acknowledgements are acknowledged: one packet of four bytes or more keeps its first four bytes
-- going to and fro for any number of deliveries, whatever else the peers did in between.
pub in_flight_for_ever :
    (peer : ℕ → Connection) (system now : ℕ → ℕ) (clock : ℕ → ℕ → ℕ) (n : ℕ) (bytes : Bytes)
    → 4 ≤ length bytes
    → All IsByte bytes
    → in_flight peer system now clock (suc n) bytes ≡ take 4 bytes
unfolding in_flight
in_flight_for_ever peer system now clock zero bytes h v =
    reply_lem (peer 0) bytes (system 0) (now 0) (clock 0) h v
in_flight_for_ever peer system now clock (suc n) bytes h v =
    rw (in_flight_for_ever peer system now clock n bytes h v) (
      reply_lem (peer (suc n)) (take 4 bytes) (system (suc n)) (now (suc n)) (clock (suc n))
        (omega (arith, length-take 4 bytes)) (All-take IsByte 4 bytes v)
      ∙ take_idem 4 bytes)
