-- ===== src/Performance/Exceeding.antt =====
-- What `checkThresholds` of src/PerformanceMonitor.cpp reports.
use barren_engine.Common.{
  ℕ, Bool, true, false, ◌||◌, ◌≡◌, arith, ltb, ltb_int, pos, if◌then◌else◌, Doubles, bytes_key,
}
use barren_engine.Performance.Types.{PerformanceThresholds, PerformanceMonitor}
use barren_engine.Performance.Operations.{apply_optimizations, update_metrics, reset_metrics}
use barren_engine.Performance.Checks.{first, customs, exceeded, Checks}

module _ {D : Type 0} ⦃d : Doubles D⦄ where
  -- One check after another.
  abbrev both :
      (PerformanceMonitor D → PerformanceMonitor D × Bool)
      → (PerformanceMonitor D → PerformanceMonitor D × Bool)
      → PerformanceMonitor D
      → PerformanceMonitor D × Bool
  both c c' m = let r = c m in let r' = c' r.0 in (r'.0, r.1 || r'.1)

  -- What follows the checks.
  abbrev optimized : Bool → PerformanceMonitor D → PerformanceMonitor D
  optimized b m = if b then apply_optimizations m else m

  -- No threshold is negative.
  pub record IsNonnegative (t : PerformanceThresholds D) : Type 0 where
    pub cpu_usage : d.less t.max_cpu_usage (d.of_nat 0) ≡ false
    pub frame_time : ltb_int t.max_frame_time (pos 0) ≡ false
    pub update_time : ltb_int t.max_update_time (pos 0) ≡ false
    pub render_time : ltb_int t.max_render_time (pos 0) ≡ false
    pub network_time : ltb_int t.max_network_time (pos 0) ≡ false

  -- `updateMetrics` of a monitor that runs leaves the metrics that `resetMetrics` leaves, but for the
  -- number of threads and the custom metrics; with thresholds that are not negative, nothing is then left to
  -- report but the custom metrics, whatever had been measured before.
  pub exceeded-update_metrics :
      (threads now : ℕ) (m : PerformanceMonitor D)
      → m.running ≡ true
      → IsNonnegative m.thresholds
      → ((update_metrics threads now m).metrics ≡ record (reset_metrics m).metrics {
        thread_count = threads;
        custom_metrics = m.metrics.custom_metrics;
      })
        × (exceeded (update_metrics threads now m)
            ≡ customs m.metrics.custom_metrics m.custom_thresholds)
  unfolding exceeded first update_metrics reset_metrics
  exceeded-update_metrics threads now m h t =
      let e : ltb m.thresholds.max_memory_usage 0 ≡ false = ground arith in
      let f : ltb m.thresholds.max_packet_loss 0 ≡ false = ground arith in
      let g : ltb m.thresholds.max_latency 0 ≡ false = ground arith in
      (
        simp (update_metrics, h),
        simp (
          update_metrics, h, t.cpu_usage, t.frame_time, t.update_time, t.render_time,
          t.network_time, e, f, g,
        ),
      )
