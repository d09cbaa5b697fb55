-- ===== src/Performance/Thresholds.antt =====
-- `checkThresholds` of src/PerformanceMonitor.cpp.
use barren_engine.Common.{
  ℕ, ◌-◌, ◌*◌, ◌^◌, Bool, true, false, not, ◌&&◌, ◌||◌, Option, none, some, List, [], ◌∷◌, Bytes,
  ltb, ltb_int, characters, if◌then◌else◌, Doubles, find, bytes_key,
}
use barren_engine.Performance.Types.{PerformanceMonitor}
use barren_engine.Performance.Operations.{apply_optimizations}
use barren_engine.Performance.Events.{handle_threshold_exceeded}

module _ {D : Type 0} ⦃d : Doubles D⦄ where
  unfoldable pub check_cpu_thresholds : (ℕ → ℕ) → PerformanceMonitor D → PerformanceMonitor D × Bool
  check_cpu_thresholds times m =
      let usage = m.metrics.cpu_usage in
      if d.less m.thresholds.max_cpu_usage usage
      then (handle_threshold_exceeded (characters "CPU Usage") usage times m, true)
      else (m, false)

  unfoldable pub check_memory_thresholds :
      (ℕ → ℕ) → PerformanceMonitor D → PerformanceMonitor D × Bool
  check_memory_thresholds times m =
      let usage = m.metrics.memory_usage in
      if ltb m.thresholds.max_memory_usage usage
      then (handle_threshold_exceeded (characters "Memory Usage") (d.of_nat usage) times m, true)
      else (m, false)

  unfoldable pub check_network_thresholds :
      (ℕ → ℕ) → PerformanceMonitor D → PerformanceMonitor D × Bool
  check_network_thresholds times m =
      let loss = m.metrics.packet_loss in
      let latency = m.metrics.latency in
      if ltb m.thresholds.max_packet_loss loss
      then (handle_threshold_exceeded (characters "Packet Loss") (d.of_nat loss) times m, true)
      else if ltb m.thresholds.max_latency latency
      then (handle_threshold_exceeded (characters "Latency") (d.of_nat latency) times m, true)
      else (m, false)

  unfoldable pub check_timing_thresholds :
      (ℕ → ℕ) → PerformanceMonitor D → PerformanceMonitor D × Bool
  check_timing_thresholds times m =
      let frame = m.metrics.frame_time in
      let update = m.metrics.update_time in
      let render = m.metrics.render_time in
      let network = m.metrics.network_time in
      if ltb_int m.thresholds.max_frame_time frame
      then (handle_threshold_exceeded (characters "Frame Time") (d.of_int frame) times m, true)
      else if ltb_int m.thresholds.max_update_time update
      then (handle_threshold_exceeded (characters "Update Time") (d.of_int update) times m, true)
      else if ltb_int m.thresholds.max_render_time render
      then (handle_threshold_exceeded (characters "Render Time") (d.of_int render) times m, true)
      else if ltb_int m.thresholds.max_network_time network
      then (handle_threshold_exceeded (characters "Network Time") (d.of_int network) times m, true)
      else (m, false)

  -- The value of a custom metric that is above the threshold.
  unfoldable pub above : D → Option D → Option D
  above threshold none = none
  above threshold (some value) = if d.less threshold value then some value else none

  -- The loop of `checkCustomThresholds`.
  unfoldable pub check_customs :
      List (Bytes × D) → (ℕ → ℕ) → Bool → PerformanceMonitor D → PerformanceMonitor D × Bool
  unfolding above
  check_customs [] times exceeded m = (m, exceeded)
  check_customs ((metric, threshold) ∷ rest) times exceeded m =
      elim (above threshold (find metric m.metrics.custom_metrics)) [
        | none ↦ check_customs rest times exceeded m
        | some value ↦
            check_customs rest times true (handle_threshold_exceeded metric value times m)
      ]

  unfoldable pub check_custom_thresholds :
      (ℕ → ℕ) → PerformanceMonitor D → PerformanceMonitor D × Bool
  unfolding check_customs
  check_custom_thresholds times m = check_customs m.custom_thresholds times false m

  -- The five checks, each of which is made whatever the others give.
  unfoldable pub check_all : (ℕ → ℕ) → PerformanceMonitor D → PerformanceMonitor D × Bool
  unfolding check_cpu_thresholds check_memory_thresholds check_network_thresholds
      check_timing_thresholds check_custom_thresholds
  check_all times m =
      let cpu = check_cpu_thresholds times m in
      let memory = check_memory_thresholds times cpu.0 in
      let network = check_network_thresholds times memory.0 in
      let timing = check_timing_thresholds times network.0 in
      let custom = check_custom_thresholds times timing.0 in
      (custom.0, (((cpu.1 || memory.1) || network.1) || timing.1) || custom.1)

  unfoldable pub check_thresholds : ℕ → (ℕ → ℕ) → PerformanceMonitor D → PerformanceMonitor D
  unfolding check_all
  check_thresholds now times m =
      let checked = check_all times (record m { last_monitoring = now }) in
      if not m.running || not m.monitoring
      then m
      else if ltb (now - m.last_monitoring) (m.monitoring_interval * 10 ^ 6)
      then m
      else if checked.1 && checked.0.optimization_enabled
      then apply_optimizations checked.0
      else checked.0
