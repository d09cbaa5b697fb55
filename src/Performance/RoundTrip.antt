-- ===== src/Performance/RoundTrip.antt =====
-- What `importMetrics` of src/PerformanceMonitor.cpp reads back of what `exportMetrics` wrote.
use barren_engine.Common.{
  ℕ, ◌<◌, ◌^◌, false, ◌≡◌, refl, sym, ◌∙◌, ap, some, ◌++◌, Bytes, ℤ, characters, bytes_eq,
}
use barren_engine.Performance.Types.{PerformanceMetrics, PerformanceMonitor}
use barren_engine.Performance.Files.{
  Scalar, double, unsigned, signed, Json, IsFaithful, put_all, entries, custom_entries,
  export_metrics, read_metrics, import_metrics,
}
use barren_engine.Performance.Members.{
  last_member, last_member-append, custom_entries_none, assigned,
}

-- The measurements fit the types of the members that they are read from.
pub record IsInRange {D : Type 0} (metrics : PerformanceMetrics D) : Type 0 where
  pub thread_count : metrics.thread_count < 2 ^ 32
  pub context_switches : metrics.context_switches < 2 ^ 64
  pub memory_usage : metrics.memory_usage < 2 ^ 64
  pub peak_memory_usage : metrics.peak_memory_usage < 2 ^ 64
  pub allocation_count : metrics.allocation_count < 2 ^ 32
  pub deallocation_count : metrics.deallocation_count < 2 ^ 32
  pub bytes_sent : metrics.bytes_sent < 2 ^ 64
  pub bytes_received : metrics.bytes_received < 2 ^ 64
  pub packet_loss : metrics.packet_loss < 2 ^ 32
  pub latency : metrics.latency < 2 ^ 32
  pub bandwidth : metrics.bandwidth < 2 ^ 32

module _ {D J F : Type 0} (json : Json D J F) (faithful : IsFaithful json) where
  written : PerformanceMetrics D → J
  written metrics =
      put_all json (entries metrics ++ custom_entries metrics.custom_metrics) json.null_value

  not_custom :
      (t g : Bytes) (metrics : PerformanceMetrics D) (v : Scalar D)
      → bytes_eq (characters "custom") t ≡ false
      → last_member t g (entries metrics) ≡ some v
      → last_member t g (entries metrics ++ custom_entries metrics.custom_metrics) ≡ some v
  not_custom t g metrics v h e =
      last_member-append t g (entries metrics) (custom_entries metrics.custom_metrics)
        (custom_entries_none t g metrics.custom_metrics h)
      ∙ e

  uint_back :
      (t g : Bytes) (metrics : PerformanceMetrics D) (n : ℕ)
      → bytes_eq (characters "custom") t ≡ false
      → last_member t g (entries metrics) ≡ some (unsigned n)
      → n < 2 ^ 32
      → json.as_uint t g (written metrics) ≡ n
  unfolding written
  uint_back t g metrics n h e b =
      let (i, k) =
        assigned json json.as_uint faithful.uint_other t g
          (entries metrics ++ custom_entries metrics.custom_metrics) json.null_value (unsigned n)
          (not_custom t g metrics (unsigned n) h e) in
      k ∙ faithful.uint_put t g n i b

  uint64_back :
      (t g : Bytes) (metrics : PerformanceMetrics D) (n : ℕ)
      → bytes_eq (characters "custom") t ≡ false
      → last_member t g (entries metrics) ≡ some (unsigned n)
      → n < 2 ^ 64
      → json.as_uint64 t g (written metrics) ≡ n
  unfolding written
  uint64_back t g metrics n h e b =
      let (i, k) =
        assigned json json.as_uint64 faithful.uint64_other t g
          (entries metrics ++ custom_entries metrics.custom_metrics) json.null_value (unsigned n)
          (not_custom t g metrics (unsigned n) h e) in
      k ∙ faithful.uint64_put t g n i b

  double_back :
      (t g : Bytes) (metrics : PerformanceMetrics D) (n : D)
      → bytes_eq (characters "custom") t ≡ false
      → last_member t g (entries metrics) ≡ some (double n)
      → json.as_double t g (written metrics) ≡ n
  unfolding written
  double_back t g metrics n h e =
      let (i, k) =
        assigned json json.as_double faithful.double_other t g
          (entries metrics ++ custom_entries metrics.custom_metrics) json.null_value (double n)
          (not_custom t g metrics (double n) h e) in
      k ∙ faithful.double_put t g n i

  int64_back :
      (t g : Bytes) (metrics : PerformanceMetrics D) (n : ℤ)
      → bytes_eq (characters "custom") t ≡ false
      → last_member t g (entries metrics) ≡ some (signed n)
      → json.as_int64 t g (written metrics) ≡ n
  unfolding written
  int64_back t g metrics n h e =
      let (i, k) =
        assigned json json.as_int64 faithful.int64_other t g
          (entries metrics ++ custom_entries metrics.custom_metrics) json.null_value (signed n)
          (not_custom t g metrics (signed n) h e) in
      k ∙ faithful.int64_put t g n i

  read_metrics-written :
      (metrics : PerformanceMetrics D)
      → IsInRange metrics
      → read_metrics json (written metrics)
        ≡ record metrics { custom_metrics = (read_metrics json (written metrics)).custom_metrics }
  unfolding read_metrics last_member entries bytes_eq
  read_metrics-written metrics r k = record {
    cpu_usage =
        double_back (characters "cpu") (characters "usage") metrics metrics.cpu_usage refl refl k;
    thread_count =
        uint_back (characters "cpu") (characters "threadCount") metrics metrics.thread_count refl
          refl r.thread_count k;
    context_switches =
        uint64_back (characters "cpu") (characters "contextSwitches") metrics
          metrics.context_switches refl refl r.context_switches k;
    memory_usage =
        uint64_back (characters "memory") (characters "usage") metrics metrics.memory_usage refl
          refl r.memory_usage k;
    peak_memory_usage =
        uint64_back (characters "memory") (characters "peakUsage") metrics metrics.peak_memory_usage
          refl refl r.peak_memory_usage k;
    allocation_count =
        uint_back (characters "memory") (characters "allocationCount") metrics
          metrics.allocation_count refl refl r.allocation_count k;
    deallocation_count =
        uint_back (characters "memory") (characters "deallocationCount") metrics
          metrics.deallocation_count refl refl r.deallocation_count k;
    bytes_sent =
        uint64_back (characters "network") (characters "bytesSent") metrics metrics.bytes_sent refl
          refl r.bytes_sent k;
    bytes_received =
        uint64_back (characters "network") (characters "bytesReceived") metrics
          metrics.bytes_received refl refl r.bytes_received k;
    packet_loss =
        uint_back (characters "network") (characters "packetLoss") metrics metrics.packet_loss refl
          refl r.packet_loss k;
    latency =
        uint_back (characters "network") (characters "latency") metrics metrics.latency refl refl
          r.latency k;
    bandwidth =
        uint_back (characters "network") (characters "bandwidth") metrics metrics.bandwidth refl
          refl r.bandwidth k;
    frame_time =
        int64_back (characters "timing") (characters "frameTime") metrics metrics.frame_time refl
          refl k;
    update_time =
        int64_back (characters "timing") (characters "updateTime") metrics metrics.update_time refl
          refl k;
    render_time =
        int64_back (characters "timing") (characters "renderTime") metrics metrics.render_time refl
          refl k;
    network_time =
        int64_back (characters "timing") (characters "networkTime") metrics metrics.network_time
          refl refl k;
    custom_metrics = (read_metrics json (written metrics)).custom_metrics;
  }

  parsed :
      (file : F) (j : J) (n : PerformanceMonitor D)
      → json.parse file ≡ some j
      → import_metrics json file n ≡ record n { metrics = read_metrics json j }
  unfolding import_metrics
  parsed file j n h = rw (import_metrics, h) refl

  -- If the library for JSON keeps what is assigned and parses what it wrote, and the measurements fit their types,
  -- `importMetrics` of the file that `exportMetrics` wrote gives the monitor all measurements of the other
  -- but the custom metrics, and changes nothing else.
  pub import_metrics-export_metrics :
      (m n : PerformanceMonitor D)
      → IsInRange m.metrics
      → let back = import_metrics json (export_metrics json m) n in
        back
        ≡ record n { metrics = record m.metrics { custom_metrics = back.metrics.custom_metrics } }
  unfolding export_metrics written
  import_metrics-export_metrics m n r =
      let e =
        parsed (export_metrics json m) (written m.metrics) n
          (faithful.parse_write (written m.metrics)) in
      e
      ∙ ap (λ metrics. record n { metrics = metrics }) (read_metrics-written m.metrics r)
      ∙ ap
          (λ b. record n {
            metrics = record m.metrics { custom_metrics = b.metrics.custom_metrics };
          })
          (sym e)
