-- ===== src/Scheduler/Dequeue.antt =====
-- Lemmas on `enqueuePacket` and `dequeuePacket` of src/PacketPriority.cpp.
use mathlib.Core.List.{Perm}
use barren_engine.Common.{
  ℕ, zero, suc, ◌≤◌, ◌≡◌, refl, Bool, true, false, some, List, [], ◌∷◌, ◌++◌, Bytes, All, length,
  length-append, arith, leb, ltb, if◌then◌else◌, returns, deadlock, Bool-cases, inl, inr,
}
use barren_engine.Scheduler.{
  PrioritizedPacket, PacketMetadata, PacketScheduler, extract_top, enqueue_packet, dequeue_from,
  dequeue_packet,
}
use barren_engine.Scheduler.Order.{Precedes, extract_top_least, extract_top-perm}

-- A scheduler within its limit stays within it, and gains the packet, exactly when `enqueuePacket`
-- says so.
pub enqueue_packet_lem :
    (s : PacketScheduler) (bytes : Bytes) (m : PacketMetadata)
    → length s.packet_queue ≤ s.max_queue_size
    → (s' : PacketScheduler) × (accepted : Bool) × (enqueue_packet false s bytes m
        ≡ returns (s', accepted))
      × (length s'.packet_queue ≤ s'.max_queue_size)
      × (s'.packet_queue ≡ (
          if accepted
          then s.packet_queue ++ record { bytes = bytes; metadata = m } ∷ []
          else s.packet_queue))
      × (accepted ≡ ltb (length s.packet_queue) s.max_queue_size)
unfolding enqueue_packet
enqueue_packet_lem s bytes m h = elim (Bool-cases (leb s.max_queue_size (length s.packet_queue))) [
  | inl full ↦ (s, false, ground arith, h, refl, ground arith)
  | inr space ↦ (
    record s { packet_queue = s.packet_queue ++ record { bytes = bytes; metadata = m } ∷ [] },
    true,
    ground arith,
    ground (arith, length-append s.packet_queue (record { bytes = bytes; metadata = m } ∷ [])),
    refl,
    ground arith,
  )
]

nested_dequeue :
    (depth : ℕ) (clock : ℕ → ℕ) (s : PacketScheduler) → dequeue_packet depth true s clock ≡ deadlock
unfolding dequeue_packet
nested_dequeue zero clock s = refl
nested_dequeue (suc depth) clock s = refl

-- On a queue with packets `dequeuePacket` hands out the top where its deadline has not passed, and
-- otherwise waits for the mutex that it holds itself. The top is one of the packets, the others stay,
-- and no packet of the queue has a higher priority, or the same and an earlier deadline.
pub dequeue_packet_lem :
    (depth : ℕ) (s : PacketScheduler) (clock : ℕ → ℕ) (p : PrioritizedPacket)
    (ps : List PrioritizedPacket)
    → s.packet_queue ≡ p ∷ ps
    → (top : PrioritizedPacket) × (rest : List PrioritizedPacket) × (dequeue_packet
          (suc depth)
          false
          s
          clock
        ≡ (if ltb top.metadata.deadline (clock depth)
            then deadlock
            else returns (record s { packet_queue = rest }, some top)))
      × Perm s.packet_queue (top ∷ rest)
      × All (Precedes top) (top ∷ rest)
unfolding dequeue_packet dequeue_from
dequeue_packet_lem depth s clock p ps e = (
  (extract_top p ps).0,
  (extract_top p ps).1,
  rw (e, dequeue_from)
      (rw (nested_dequeue depth clock (record s { packet_queue = (extract_top p ps).1 }))),
  rw e (extract_top-perm p ps),
  extract_top_least p ps,
)
