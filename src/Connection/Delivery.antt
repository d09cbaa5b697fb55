-- ===== src/Connection/Delivery.antt =====
-- Lemmas on `queuePacket`, `update` and `getPacketsToSend` of src/Connection.cpp, called in turn.
use barren_engine.Common.{ℕ, ◌+◌, ◌^◌, ◌<◌, ◌≡◌, ap, ◌∙◌, false, [], ◌∷◌, Bytes, arith, assign}
use native.Mathlib.Nat.{le_refl}
use barren_engine.Connection.{
  Connection, PacketReliability, is_unreliable, queue_packet, new_packet, get_packets_to_send,
  touch_due, update, update_statistics, resend_unacknowledged_packets, Entry,
}
use barren_engine.Connection.Entries.{touch_due-TouchedAt, touch_due_early, collect_due_early}

update_fields :
    (c : Connection) (stats_now now : ℕ) (clock : ℕ → ℕ)
    → ((update c stats_now now clock).unacknowledged ≡ touch_due now clock 0 c.unacknowledged)
      × ((update c stats_now now clock).outgoing ≡ c.outgoing)
unfolding update update_statistics resend_unacknowledged_packets
update_fields c stats_now now clock = ground arith

-- In a turn of the network loop, `update` and then `getPacketsToSend`, only packets of the outgoing
-- queue are sent, provided that the second call ends less than a second after the first one read
-- the clock: no packet that waits for an acknowledgement is ever sent.
pub get_packets_to_send-update :
    (c : Connection) (stats_now now : ℕ) (clock clock' : ℕ → ℕ)
    → ((i : ℕ) → clock' i < now + 10 ^ 9)
    → (get_packets_to_send (update c stats_now now clock) clock').1 ≡ c.outgoing
unfolding get_packets_to_send
get_packets_to_send-update c stats_now now clock clock' early =
    let (entries, outgoing) = update_fields c stats_now now clock in
    let stamped = touch_due-TouchedAt now clock 0 c.unacknowledged in
    rw (
      entries,
      outgoing,
      collect_due_early now clock' 0 (touch_due now clock 0 c.unacknowledged) early stamped,
    )

queue_packet_reliable :
    (c : Connection) (bytes : Bytes) (r : PacketReliability) (system queued : ℕ)
    → c.unacknowledged ≡ []
    → is_unreliable r ≡ false
    → ((queue_packet c bytes r system queued).unacknowledged
        ≡ (c.next_sequence_number, new_packet c bytes r system queued) ∷ [])
      × ((queue_packet c bytes r system queued).outgoing ≡ c.outgoing)
unfolding queue_packet assign
queue_packet_reliable c bytes r system queued e u = ground arith

-- A packet queued as anything but unreliable on a connection that waits for no acknowledgement is
-- forgotten by an `update` within the next second, and the outgoing queue does not get it.
pub update-queue_packet :
    (c : Connection) (bytes : Bytes) (r : PacketReliability) (system queued stats_now now : ℕ)
    (clock : ℕ → ℕ)
    → c.unacknowledged ≡ []
    → is_unreliable r ≡ false
    → ((i : ℕ) → clock i < queued + 10 ^ 9)
    → let c' = update (queue_packet c bytes r system queued) stats_now now clock in
      (c'.unacknowledged ≡ []) × (c'.outgoing ≡ c.outgoing)
update-queue_packet c bytes r system queued stats_now now clock e u early =
    let q = queue_packet c bytes r system queued in
    let (entries, outgoing) = update_fields q stats_now now clock in
    let (held, sent) = queue_packet_reliable c bytes r system queued e u in
    let entry : Entry = (c.next_sequence_number, new_packet c bytes r system queued) in
    (
      entries
          ∙ ap (touch_due now clock 0) held
          ∙ touch_due_early now (queued + 10 ^ 9) clock 0 (entry ∷ []) early (le_refl _, tt),
      outgoing ∙ sent,
    )
