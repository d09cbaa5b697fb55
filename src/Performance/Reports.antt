-- ===== src/Performance/Reports.antt =====
-- `generateReport` of src/PerformanceMonitor.cpp. How the stream prints numbers is an argument: whole numbers, durations,
-- and numbers with two digits behind the point, which the format stays at after the first.
use barren_engine.Common.{ℕ, List, [], ◌∷◌, ◌++◌, Bytes, ℤ, is_empty, characters, if◌then◌else◌}
use barren_engine.Performance.Types.{PerformanceMetrics, PerformanceMonitor}

pub record Printing (D : Type 0) : Type 0 where
  pub print : ℕ → Bytes
  pub print_int : ℤ → Bytes
  pub print_fixed : D → Bytes

module _ {D : Type 0} (p : Printing D) where
  unfoldable pub generate_cpu_report : PerformanceMetrics D → Bytes
  generate_cpu_report metrics =
      characters "CPU Metrics:\n"
      ++ characters "  Usage: "
      ++ p.print_fixed metrics.cpu_usage
      ++ characters "%\n"
      ++ characters "  Thread Count: "
      ++ p.print metrics.thread_count
      ++ characters "\n"
      ++ characters "  Context Switches: "
      ++ p.print metrics.context_switches
      ++ characters "\n\n"

  unfoldable pub generate_memory_report : PerformanceMetrics D → Bytes
  generate_memory_report metrics =
      characters "Memory Metrics:\n"
      ++ characters "  Usage: "
      ++ p.print metrics.memory_usage
      ++ characters " bytes\n"
      ++ characters "  Peak Usage: "
      ++ p.print metrics.peak_memory_usage
      ++ characters " bytes\n"
      ++ characters "  Allocations: "
      ++ p.print metrics.allocation_count
      ++ characters "\n"
      ++ characters "  Deallocations: "
      ++ p.print metrics.deallocation_count
      ++ characters "\n\n"

  unfoldable pub generate_network_report : PerformanceMetrics D → Bytes
  generate_network_report metrics =
      characters "Network Metrics:\n"
      ++ characters "  Bytes Sent: "
      ++ p.print metrics.bytes_sent
      ++ characters "\n"
      ++ characters "  Bytes Received: "
      ++ p.print metrics.bytes_received
      ++ characters "\n"
      ++ characters "  Packet Loss: "
      ++ p.print metrics.packet_loss
      ++ characters "%\n"
      ++ characters "  Latency: "
      ++ p.print metrics.latency
      ++ characters " ms\n"
      ++ characters "  Bandwidth: "
      ++ p.print metrics.bandwidth
      ++ characters " bps\n\n"

  unfoldable pub generate_timing_report : PerformanceMetrics D → Bytes
  generate_timing_report metrics =
      characters "Timing Metrics:\n"
      ++ characters "  Frame Time: "
      ++ p.print_int metrics.frame_time
      ++ characters " ns\n"
      ++ characters "  Update Time: "
      ++ p.print_int metrics.update_time
      ++ characters " ns\n"
      ++ characters "  Render Time: "
      ++ p.print_int metrics.render_time
      ++ characters " ns\n"
      ++ characters "  Network Time: "
      ++ p.print_int metrics.network_time
      ++ characters " ns\n\n"

  -- The loop of `generateCustomReport`.
  unfoldable pub custom_lines : List (Bytes × D) → Bytes
  custom_lines [] = []
  custom_lines ((name, value) ∷ rest) =
      characters "  "
      ++ name
      ++ characters ": "
      ++ p.print_fixed value
      ++ characters "\n"
      ++ custom_lines rest

  unfoldable pub generate_custom_report : PerformanceMetrics D → Bytes
  unfolding custom_lines
  generate_custom_report metrics =
      if is_empty metrics.custom_metrics
      then []
      else characters "Custom Metrics:\n" ++ custom_lines metrics.custom_metrics ++ characters "\n"

  unfoldable pub generate_report : PerformanceMonitor D → Bytes
  generate_report m =
      generate_cpu_report m.metrics
      ++ generate_memory_report m.metrics
      ++ generate_network_report m.metrics
      ++ generate_timing_report m.metrics
      ++ generate_custom_report m.metrics
