-- ===== src/ConnectionManager/Sums.antt =====
-- The sums of `updateStats`, the removal of stale connections and the event queue of `ConnectionManager` in
-- src/connection/ConnectionManager.cpp.
use barren_engine.Common.{
  ℕ, ◌+◌, ◌/◌, ◌%◌, ◌^◌, ◌<◌, true, false, ◌≡◌, refl, ap, List, [], ◌∷◌, Bytes, some, if_cases,
  find, assign, bytes_key, bytes_eq, bytes_eq_iff, arith, length, is_empty, add_u32, add_u64,
  find-assign,
}
use barren_engine.ConnectionManager.Types.{ConnectionStats, zero_stats, ConnectionManager}
use barren_engine.ConnectionManager.Maintenance.{
  update_stats, update_global_stats, add_all, add_latencies, add_stats,
}

unfoldable pub total : (ConnectionStats → ℕ) → List (Bytes × ConnectionStats) → ℕ
total field [] = 0
total field ((address, stats) ∷ rest) = field stats + total field rest

module _ (field : ConnectionStats → ℕ) where
  add_all-total :
      (adds : (g s : ConnectionStats) → field (add_stats g s) ≡ add_u64 (field g) (field s))
      (entries : List (Bytes × ConnectionStats)) (g : ConnectionStats)
      → field g < 2 ^ 64
      → field (add_all entries g) ≡ (field g + total field entries) % 2 ^ 64
  unfolding add_all total
  add_all-total adds [] g h = omega arith
  add_all-total adds ((address, stats) ∷ rest) g h =
      let e = adds g stats in
      let k = add_all-total adds rest (add_stats g stats) (omega arith) in omega arith

  add_all_zero :
      (adds : (g s : ConnectionStats) → field (add_stats g s) ≡ add_u64 (field g) (field s))
      (entries : List (Bytes × ConnectionStats))
      → field zero_stats ≡ 0
      → field (add_all entries zero_stats) ≡ total field entries % 2 ^ 64
  add_all_zero adds entries h =
      let e = add_all-total adds entries zero_stats (omega arith) in omega arith

add_all-active :
    (entries : List (Bytes × ConnectionStats)) (g : ConnectionStats)
    → g.active_connections < 2 ^ 32
    → (add_all entries g).active_connections ≡ (g.active_connections + length entries) % 2 ^ 32
unfolding add_all
add_all-active [] g h = omega arith
add_all-active ((address, stats) ∷ rest) g h =
    let k = add_all-active rest (add_stats g stats) (omega arith) in omega arith

add_latencies-total :
    (entries : List (Bytes × ConnectionStats)) (latency : ℕ)
    → latency < 2 ^ 32
    → add_latencies entries latency ≡ (latency + total (λ s. s.average_latency) entries) % 2 ^ 32
unfolding add_latencies total
add_latencies-total [] latency h = omega arith
add_latencies-total ((address, stats) ∷ rest) latency h =
    let k = add_latencies-total rest (add_u32 latency stats.average_latency) (omega arith) in
    omega arith

-- The statistics are the sums of the entries in words of 64 bits, their number in 32 bits, and the mean of
-- the latencies, whose sum is of 32 bits.
pub record IsSumOf (g : ConnectionStats) (entries : List (Bytes × ConnectionStats)) : Type 0 where
  pub sent : g.bytes_sent ≡ total (λ s. s.bytes_sent) entries % 2 ^ 64
  pub received : g.bytes_received ≡ total (λ s. s.bytes_received) entries % 2 ^ 64
  pub sent_packets : g.packets_sent ≡ total (λ s. s.packets_sent) entries % 2 ^ 64
  pub received_packets : g.packets_received ≡ total (λ s. s.packets_received) entries % 2 ^ 64
  pub lost_packets : g.packets_lost ≡ total (λ s. s.packets_lost) entries % 2 ^ 64
  pub unordered_packets :
      g.packets_out_of_order ≡ total (λ s. s.packets_out_of_order) entries % 2 ^ 64
  pub active : g.active_connections ≡ length entries % 2 ^ 32
  pub latency : g.average_latency ≡ total (λ s. s.average_latency) entries % 2 ^ 32 / length entries

add_all-IsSumOf :
    (entries : List (Bytes × ConnectionStats)) (latency : ℕ)
    → latency ≡ total (λ s. s.average_latency) entries % 2 ^ 32 / length entries
    → IsSumOf (record (add_all entries zero_stats) { average_latency = latency }) entries
add_all-IsSumOf entries latency e = record {
  sent = add_all_zero (λ s. s.bytes_sent) (λ g s. refl) entries refl;
  received = add_all_zero (λ s. s.bytes_received) (λ g s. refl) entries refl;
  sent_packets = add_all_zero (λ s. s.packets_sent) (λ g s. refl) entries refl;
  received_packets = add_all_zero (λ s. s.packets_received) (λ g s. refl) entries refl;
  lost_packets = add_all_zero (λ s. s.packets_lost) (λ g s. refl) entries refl;
  unordered_packets = add_all_zero (λ s. s.packets_out_of_order) (λ g s. refl) entries refl;
  active = let e = add_all-active entries zero_stats (omega arith) in omega arith;
  latency = e;
}

assign_some :
    (address : Bytes) (stats : ConnectionStats) (entries : List (Bytes × ConnectionStats))
    → is_empty (assign address stats entries) ≡ false
unfolding assign
assign_some address stats [] = refl
assign_some address stats ((other, found) ∷ entries) = ground arith

bytes_eq_refl : (a : Bytes) → bytes_eq a a ≡ true
bytes_eq_refl a = (bytes_eq_iff a a).1 refl

latencies :
    (entries : List (Bytes × ConnectionStats))
    → add_latencies entries 0 / length entries
      ≡ total (λ s. s.average_latency) entries % 2 ^ 32 / length entries
latencies entries =
    let e = add_latencies-total entries 0 (omega arith) in
    ap (λ n. n / length entries) (omega arith)

-- `updateStats` records the statistics of the address, and leaves the sums of the statistics of all
-- addresses, modulo the width of their types, their number, and the mean of their latencies.
pub update_stats-IsSumOf :
    (address : Bytes) (stats : ConnectionStats) (m : ConnectionManager)
    → (find address (update_stats address stats m).connection_stats ≡ some stats)
      × IsSumOf
          (update_stats address stats m).global_stats
          (update_stats address stats m).connection_stats
unfolding update_stats update_global_stats
update_stats-IsSumOf address stats m =
    let entries = assign address stats m.connection_stats in
    (
      rw (find-assign address address stats m.connection_stats, bytes_eq_refl address) refl,
      if_cases {A = ConnectionStats} (λ g. IsSumOf g entries) (is_empty entries) _ _
          (λ e. ground (arith, assign_some address stats m.connection_stats))
          (λ e.
            add_all-IsSumOf entries (add_latencies entries 0 / length entries) (latencies entries)),
    )
