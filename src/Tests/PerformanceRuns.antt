-- ===== src/Tests/PerformanceRuns.antt =====
-- Runs of the operations of src/PerformanceMonitor.cpp.
use barren_engine.Common.{ℕ, ◌≡◌, ◌^◌, refl, true, [], ◌∷◌, pos}
use barren_engine.Performance.Types.{PerformanceThresholds, PerformanceMonitor}
use barren_engine.Performance.Operations.{new_monitor, update_metrics, reset_metrics}
use barren_engine.Performance.Checks.{exceeded, customs}
use barren_engine.Performance.Exceeding.{IsNonnegative, exceeded-update_metrics}
use barren_engine.Tests.Numbers.{whole}

abbrev thresholds : PerformanceThresholds ℕ
thresholds = record {
  max_cpu_usage = 80;
  max_memory_usage = 10 ^ 9;
  max_packet_loss = 5;
  max_latency = 100;
  max_frame_time = pos 16000000;
  max_update_time = pos 8000000;
  max_render_time = pos 8000000;
  max_network_time = pos 4000000;
}

abbrev pub busy : PerformanceMonitor ℕ
busy =
    let m = new_monitor thresholds in
    record m {
      running = true;
      thresholds = thresholds;
      monitoring = true;
      optimization_enabled = true;
      metrics = record m.metrics {
        cpu_usage = 95;
        packet_loss = 9;
        latency = 300;
        custom_metrics = (1 ∷ [], 7) ∷ [];
      };
      custom_thresholds = (1 ∷ [], 6) ∷ (2 ∷ [], 6) ∷ [];
      optimization_rules = (3 ∷ [], 1) ∷ [];
    }

thresholds-IsNonnegative : IsNonnegative thresholds
thresholds-IsNonnegative = record {
  cpu_usage = refl;
  frame_time = refl;
  update_time = refl;
  render_time = refl;
  network_time = refl;
}

exceeded-update_metrics_example :
    ((update_metrics 8 5 busy).metrics ≡ record (reset_metrics busy).metrics {
      thread_count = 8;
      custom_metrics = busy.metrics.custom_metrics;
    })
    × (exceeded (update_metrics 8 5 busy)
        ≡ customs busy.metrics.custom_metrics busy.custom_thresholds)
exceeded-update_metrics_example = exceeded-update_metrics 8 5 busy refl thresholds-IsNonnegative
