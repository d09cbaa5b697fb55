-- ===== src/Diagnostics/Types.antt =====
-- The data and the state of `NetworkDiagnostics` in NetworkDiagnostics.hpp. A callback is the record of its calls,
-- and the capture file only whether it is open.
use Prim.Native.String.{String}
use barren_engine.Common.{ℕ, Bool, List, Doubles}

pub record NetworkMetrics (D : Type 0) : Type 0 where
  pub latency : D
  pub packet_loss : D
  pub bandwidth : D
  pub jitter : D
  pub bytes_sent : ℕ
  pub bytes_received : ℕ
  pub packets_sent : ℕ
  pub packets_received : ℕ
  pub errors : ℕ

-- `NetworkMetrics{}`.
abbrev pub no_metrics : {D : Type 0} ⦃d : Doubles D⦄ → NetworkMetrics D
no_metrics ⦃d⦄ = record {
  latency = d.of_nat 0;
  packet_loss = d.of_nat 0;
  bandwidth = d.of_nat 0;
  jitter = d.of_nat 0;
  bytes_sent = 0;
  bytes_received = 0;
  packets_sent = 0;
  packets_received = 0;
  errors = 0;
}

pub record NetworkCondition (D : Type 0) : Type 0 where
  pub latency : D
  pub packet_loss : D
  pub bandwidth : D
  pub jitter : D
  pub enabled : Bool

pub record Statistics (D : Type 0) : Type 0 where
  pub average_latency : D
  pub max_latency : D
  pub min_latency : D
  pub average_packet_loss : D
  pub max_packet_loss : D
  pub average_bandwidth : D
  pub max_bandwidth : D
  pub total_errors : ℕ

-- `Statistics{}`.
abbrev pub no_statistics : {D : Type 0} ⦃d : Doubles D⦄ → Statistics D
no_statistics ⦃d⦄ = record {
  average_latency = d.of_nat 0;
  max_latency = d.of_nat 0;
  min_latency = d.of_nat 0;
  average_packet_loss = d.of_nat 0;
  max_packet_loss = d.of_nat 0;
  average_bandwidth = d.of_nat 0;
  max_bandwidth = d.of_nat 0;
  total_errors = 0;
}

-- The totals and the extremes of the loop of `getStatistics`.
pub record Totals (D : Type 0) : Type 0 where
  pub latency : D
  pub packet_loss : D
  pub bandwidth : D
  pub max_latency : D
  pub min_latency : D
  pub max_packet_loss : D
  pub max_bandwidth : D

-- A call of one of the two callbacks.
pub data Notice (D : Type 0) : Type 0 where
  metrics_callback : NetworkMetrics D → Notice D
  error_callback : String → Notice D

pub record NetworkDiagnostics (D : Type 0) : Type 0 where
  pub current_metrics : NetworkMetrics D
  pub network_condition : NetworkCondition D
  pub is_capturing : Bool
  pub bandwidth_limit : ℕ
  pub recent_errors : List String
  pub has_metrics_callback : Bool
  pub has_error_callback : Bool
  pub capture_is_open : Bool
  pub metrics_history : List (NetworkMetrics D)
  pub notices : List (Notice D)
