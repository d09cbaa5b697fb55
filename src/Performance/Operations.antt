-- ===== src/Performance/Operations.antt =====
-- The public operations of `PerformanceMonitor` in src/PerformanceMonitor.cpp, but for the reports and the files.
use barren_engine.Common.{
  ℕ, Bool, true, false, not, List, [], ◌∷◌, ◌++◌, Bytes, ℤ, pos, if◌then◌else◌, Doubles, assign,
  erase, bytes_key,
}
use barren_engine.Performance.Types.{
  PerformanceMetrics, no_metrics, PerformanceThresholds, PerformanceMonitor, Notice,
  metrics_callback, rule,
}

module _ {D : Type 0} ⦃d : Doubles D⦄ where
  -- The constructor; `memory` is what the thresholds, which it does not write, hold.
  unfoldable pub new_monitor : PerformanceThresholds D → PerformanceMonitor D
  new_monitor memory = record {
    running = false;
    monitoring = false;
    optimization_enabled = false;
    optimization_level = pos 0;
    monitoring_interval = 1000;
    metrics = no_metrics;
    thresholds = memory;
    custom_thresholds = [];
    optimization_rules = [];
    event_queue = [];
    has_event_callback = false;
    has_metrics_callback = false;
    has_threshold_callback = false;
    last_update = 0;
    last_monitoring = 0;
    notices = [];
  }

  unfoldable pub initialize : PerformanceMonitor D → PerformanceMonitor D × Bool
  initialize m = if m.running then (m, true) else (record m { running = true }, true)

  unfoldable pub start : ℕ → PerformanceMonitor D → PerformanceMonitor D
  start now m = if not m.running then m else record m { monitoring = true; last_monitoring = now }

  unfoldable pub stop : PerformanceMonitor D → PerformanceMonitor D
  stop m =
      if not m.running
      then m
      else record m { running = false; monitoring = false; optimization_enabled = false }

  unfoldable pub is_running : PerformanceMonitor D → Bool
  is_running m = m.running

  -- `threads` is `std::thread::hardware_concurrency()`.
  unfoldable pub collect_cpu_metrics : ℕ → PerformanceMetrics D → PerformanceMetrics D
  collect_cpu_metrics threads metrics = record metrics {
    cpu_usage = d.of_nat 0;
    thread_count = threads;
    context_switches = 0;
  }

  unfoldable pub collect_memory_metrics : PerformanceMetrics D → PerformanceMetrics D
  collect_memory_metrics metrics = record metrics {
    memory_usage = 0;
    peak_memory_usage = 0;
    allocation_count = 0;
    deallocation_count = 0;
  }

  unfoldable pub collect_network_metrics : PerformanceMetrics D → PerformanceMetrics D
  collect_network_metrics metrics = record metrics {
    bytes_sent = 0;
    bytes_received = 0;
    packet_loss = 0;
    latency = 0;
    bandwidth = 0;
  }

  unfoldable pub collect_timing_metrics : PerformanceMetrics D → PerformanceMetrics D
  collect_timing_metrics metrics = record metrics {
    frame_time = pos 0;
    update_time = pos 0;
    render_time = pos 0;
    network_time = pos 0;
  }

  unfoldable pub collect_custom_metrics : PerformanceMetrics D → PerformanceMetrics D
  collect_custom_metrics metrics = metrics

  unfoldable pub update_metrics : ℕ → ℕ → PerformanceMonitor D → PerformanceMonitor D
  unfolding collect_cpu_metrics collect_memory_metrics collect_network_metrics
      collect_timing_metrics collect_custom_metrics
  update_metrics threads now m =
      let metrics = collect_custom_metrics (
        collect_timing_metrics (
          collect_network_metrics
            (collect_memory_metrics (collect_cpu_metrics threads m.metrics)))) in
      if not m.running then m else record m {
        metrics = metrics;
        last_update = now;
        notices =
            m.notices ++ (if m.has_metrics_callback then metrics_callback metrics ∷ [] else []);
      }

  unfoldable pub get_metrics : PerformanceMonitor D → PerformanceMetrics D
  get_metrics m = m.metrics

  unfoldable pub reset_metrics : PerformanceMonitor D → PerformanceMonitor D
  reset_metrics m = record m { metrics = no_metrics }

  unfoldable pub add_custom_metric : Bytes → D → PerformanceMonitor D → PerformanceMonitor D
  add_custom_metric name value m = record m {
    metrics = record m.metrics { custom_metrics = assign name value m.metrics.custom_metrics };
  }

  unfoldable pub remove_custom_metric : Bytes → PerformanceMonitor D → PerformanceMonitor D
  remove_custom_metric name m = record m {
    metrics = record m.metrics { custom_metrics = erase name m.metrics.custom_metrics };
  }

  unfoldable pub set_thresholds :
      PerformanceThresholds D → PerformanceMonitor D → PerformanceMonitor D
  set_thresholds thresholds m = record m { thresholds = thresholds }

  unfoldable pub get_thresholds : PerformanceMonitor D → PerformanceThresholds D
  get_thresholds m = m.thresholds

  unfoldable pub set_custom_threshold : Bytes → D → PerformanceMonitor D → PerformanceMonitor D
  set_custom_threshold metric threshold m = record m {
    custom_thresholds = assign metric threshold m.custom_thresholds;
  }

  unfoldable pub remove_custom_threshold : Bytes → PerformanceMonitor D → PerformanceMonitor D
  remove_custom_threshold metric m = record m {
    custom_thresholds = erase metric m.custom_thresholds;
  }

  unfoldable pub set_performance_event_callback : Bool → PerformanceMonitor D → PerformanceMonitor D
  set_performance_event_callback callback m = record m { has_event_callback = callback }

  unfoldable pub set_metrics_callback : Bool → PerformanceMonitor D → PerformanceMonitor D
  set_metrics_callback callback m = record m { has_metrics_callback = callback }

  unfoldable pub set_threshold_callback : Bool → PerformanceMonitor D → PerformanceMonitor D
  set_threshold_callback callback m = record m { has_threshold_callback = callback }

  unfoldable pub enable_optimization : Bool → PerformanceMonitor D → PerformanceMonitor D
  enable_optimization enable m = record m { optimization_enabled = enable }

  unfoldable pub set_optimization_level : ℤ → PerformanceMonitor D → PerformanceMonitor D
  set_optimization_level level m = record m { optimization_level = level }

  unfoldable pub add_optimization_rule : Bytes → ℕ → PerformanceMonitor D → PerformanceMonitor D
  add_optimization_rule component f m = record m {
    optimization_rules = assign component f m.optimization_rules;
  }

  unfoldable pub remove_optimization_rule : Bytes → PerformanceMonitor D → PerformanceMonitor D
  remove_optimization_rule component m = record m {
    optimization_rules = erase component m.optimization_rules;
  }

  unfoldable pub start_monitoring : ℕ → PerformanceMonitor D → PerformanceMonitor D
  start_monitoring now m =
      if not m.running then m else record m { monitoring = true; last_monitoring = now }

  unfoldable pub stop_monitoring : PerformanceMonitor D → PerformanceMonitor D
  stop_monitoring m = record m { monitoring = false }

  unfoldable pub is_monitoring : PerformanceMonitor D → Bool
  is_monitoring m = m.monitoring

  unfoldable pub set_monitoring_interval : ℕ → PerformanceMonitor D → PerformanceMonitor D
  set_monitoring_interval interval_ms m = record m { monitoring_interval = interval_ms }

  -- The calls of the rules, in the order of the map.
  unfoldable pub rule_calls : List (Bytes × ℕ) → List (Notice D)
  rule_calls [] = []
  rule_calls ((component, f) ∷ rules) = rule f ∷ rule_calls rules

  unfoldable pub apply_optimizations : PerformanceMonitor D → PerformanceMonitor D
  unfolding rule_calls
  apply_optimizations m =
      if not m.optimization_enabled
      then m
      else record m { notices = m.notices ++ rule_calls m.optimization_rules }

  -- The four analyses have empty bodies.
  unfoldable pub analyze_performance : PerformanceMonitor D → PerformanceMonitor D
  unfolding apply_optimizations
  analyze_performance m =
      if not m.running then m else if m.optimization_enabled then apply_optimizations m else m
