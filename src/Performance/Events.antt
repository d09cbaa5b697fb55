-- ===== src/Performance/Events.antt =====
-- The events of `PerformanceMonitor` in src/PerformanceMonitor.cpp. `times` gives the reading of the clock for the
-- event that is the `i`-th to enter the queue.
use barren_engine.Common.{ℕ, [], ◌∷◌, ◌++◌, Bytes, length, characters, if◌then◌else◌, Doubles}
use barren_engine.Performance.Types.{
  PerformanceEventType, threshold_exceeded, performance_degradation, memory_leak_detected,
  cpu_bottleneck, network_congestion, custom_event, PerformanceEvent, PerformanceMonitor,
  event_callback, threshold_callback,
}

module _ {D : Type 0} where
  -- An event is queued and handed to the callback, where there is one.
  abbrev pub emit :
      PerformanceEventType → Bytes → Bytes → (ℕ → ℕ) → PerformanceMonitor D → PerformanceMonitor D
  emit type component message times m =
      let event : PerformanceEvent D = record {
        type = type;
        component = component;
        message = message;
        metrics = m.metrics;
        timestamp = times (length m.event_queue);
      } in
      record m {
        event_queue = m.event_queue ++ event ∷ [];
        notices = m.notices ++ (if m.has_event_callback then event_callback event ∷ [] else []);
      }

  unfoldable pub handle_threshold_exceeded :
      ⦃d : Doubles D⦄ → Bytes → D → (ℕ → ℕ) → PerformanceMonitor D → PerformanceMonitor D
  handle_threshold_exceeded ⦃d⦄ metric value times m =
      let told =
        emit threshold_exceeded metric (characters "Threshold exceeded: " ++ d.to_string value)
          times m in
      record told {
        notices =
            told.notices
            ++ (if told.has_threshold_callback then threshold_callback metric value ∷ [] else []);
      }

  unfoldable pub handle_performance_degradation :
      Bytes → (ℕ → ℕ) → PerformanceMonitor D → PerformanceMonitor D
  handle_performance_degradation component times m =
      emit performance_degradation component (characters "Performance degradation detected") times m

  unfoldable pub handle_memory_leak : Bytes → (ℕ → ℕ) → PerformanceMonitor D → PerformanceMonitor D
  handle_memory_leak component times m =
      emit memory_leak_detected component (characters "Memory leak detected") times m

  unfoldable pub handle_cpu_bottleneck :
      Bytes → (ℕ → ℕ) → PerformanceMonitor D → PerformanceMonitor D
  handle_cpu_bottleneck component times m =
      emit cpu_bottleneck component (characters "CPU bottleneck detected") times m

  unfoldable pub handle_network_congestion :
      Bytes → (ℕ → ℕ) → PerformanceMonitor D → PerformanceMonitor D
  handle_network_congestion component times m =
      emit network_congestion component (characters "Network congestion detected") times m

  unfoldable pub handle_custom_event :
      Bytes → Bytes → (ℕ → ℕ) → PerformanceMonitor D → PerformanceMonitor D
  handle_custom_event component message times m = emit custom_event component message times m
