-- ===== src/Performance/Types.antt =====
-- The data and the state of `PerformanceMonitor` in performance/PerformanceMonitor.hpp. Durations are signed
-- nanoseconds, times of the system clock nanoseconds, names and messages bytes. A rule of the optimization
-- is a number that stands for its function, and a callback is the record of its calls.
use barren_engine.Common.{ℕ, Bool, List, [], Bytes, ℤ, pos, Doubles}

pub record PerformanceMetrics (D : Type 0) : Type 0 where
  pub cpu_usage : D
  pub thread_count : ℕ
  pub context_switches : ℕ
  pub memory_usage : ℕ
  pub peak_memory_usage : ℕ
  pub allocation_count : ℕ
  pub deallocation_count : ℕ
  pub bytes_sent : ℕ
  pub bytes_received : ℕ
  pub packet_loss : ℕ
  pub latency : ℕ
  pub bandwidth : ℕ
  pub frame_time : ℤ
  pub update_time : ℤ
  pub render_time : ℤ
  pub network_time : ℤ
  pub custom_metrics : List (Bytes × D)

-- `PerformanceMetrics{}`.
abbrev pub no_metrics : {D : Type 0} ⦃d : Doubles D⦄ → PerformanceMetrics D
no_metrics ⦃d⦄ = record {
  cpu_usage = d.of_nat 0;
  thread_count = 0;
  context_switches = 0;
  memory_usage = 0;
  peak_memory_usage = 0;
  allocation_count = 0;
  deallocation_count = 0;
  bytes_sent = 0;
  bytes_received = 0;
  packet_loss = 0;
  latency = 0;
  bandwidth = 0;
  frame_time = pos 0;
  update_time = pos 0;
  render_time = pos 0;
  network_time = pos 0;
  custom_metrics = [];
}

pub record PerformanceThresholds (D : Type 0) : Type 0 where
  pub max_cpu_usage : D
  pub max_memory_usage : ℕ
  pub max_packet_loss : ℕ
  pub max_latency : ℕ
  pub max_frame_time : ℤ
  pub max_update_time : ℤ
  pub max_render_time : ℤ
  pub max_network_time : ℤ

pub data PerformanceEventType : Type 0 where
  threshold_exceeded performance_degradation memory_leak_detected : PerformanceEventType
  cpu_bottleneck network_congestion custom_event : PerformanceEventType

pub record PerformanceEvent (D : Type 0) : Type 0 where
  pub type : PerformanceEventType
  pub component : Bytes
  pub message : Bytes
  pub metrics : PerformanceMetrics D
  pub timestamp : ℕ

-- A call of one of the three callbacks, or of a rule.
pub data Notice (D : Type 0) : Type 0 where
  event_callback : PerformanceEvent D → Notice D
  metrics_callback : PerformanceMetrics D → Notice D
  threshold_callback : Bytes → D → Notice D
  rule : ℕ → Notice D

pub record PerformanceMonitor (D : Type 0) : Type 0 where
  pub running : Bool
  pub monitoring : Bool
  pub optimization_enabled : Bool
  pub optimization_level : ℤ
  pub monitoring_interval : ℕ
  pub metrics : PerformanceMetrics D
  pub thresholds : PerformanceThresholds D
  pub custom_thresholds : List (Bytes × D)
  pub optimization_rules : List (Bytes × ℕ)
  pub event_queue : List (PerformanceEvent D)
  pub has_event_callback : Bool
  pub has_metrics_callback : Bool
  pub has_threshold_callback : Bool
  pub last_update : ℕ
  pub last_monitoring : ℕ
  pub notices : List (Notice D)
