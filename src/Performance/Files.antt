-- ===== src/Performance/Files.antt =====
-- `exportMetrics` and `importMetrics` of src/PerformanceMonitor.cpp. The library for JSON, with its values and texts, is an argument; a member
-- of a member of a value is named by the two names.
use barren_engine.Common.{
  ℕ, ◌<◌, ◌^◌, Bool, false, ◌&&◌, ◌≡◌, Option, none, some, List, [], ◌∷◌, ◌++◌, Bytes, ℤ,
  characters, bytes_eq, assign, bytes_key,
}
use barren_engine.Performance.Types.{PerformanceMetrics, PerformanceMonitor}

-- What is assigned to a member.
pub data Scalar (D : Type 0) : Type 0 where
  double : D → Scalar D
  unsigned : ℕ → Scalar D
  signed : ℤ → Scalar D

pub record Json (D J F : Type 0) : Type 0 where
  pub null_value : J
  pub put : Bytes → Bytes → Scalar D → J → J
  pub as_double : Bytes → Bytes → J → D
  pub as_uint : Bytes → Bytes → J → ℕ
  pub as_uint64 : Bytes → Bytes → J → ℕ
  pub as_int64 : Bytes → Bytes → J → ℤ
  pub member_names : Bytes → J → List Bytes
  pub write : J → F
  pub parse : F → Option J

abbrev pub is_member : Bytes → Bytes → Bytes → Bytes → Bool
is_member s f t g = bytes_eq s t && bytes_eq f g

-- What the library documents: a member has the value that was assigned to it, if the type that is asked for
-- can hold it, the other members keep theirs, and a value that is written is parsed again.
pub record IsFaithful {D J F : Type 0} (json : Json D J F) : Type 0 where
  pub parse_write : (j : J) → json.parse (json.write j) ≡ some j
  pub double_put :
      (s f : Bytes) (x : D) (j : J) → json.as_double s f (json.put s f (double x) j) ≡ x
  pub uint_put :
      (s f : Bytes) (n : ℕ) (j : J)
      → n < 2 ^ 32
      → json.as_uint s f (json.put s f (unsigned n) j) ≡ n
  pub uint64_put :
      (s f : Bytes) (n : ℕ) (j : J)
      → n < 2 ^ 64
      → json.as_uint64 s f (json.put s f (unsigned n) j) ≡ n
  pub int64_put : (s f : Bytes) (n : ℤ) (j : J) → json.as_int64 s f (json.put s f (signed n) j) ≡ n
  pub double_other :
      (s f t g : Bytes) (v : Scalar D) (j : J)
      → is_member s f t g ≡ false
      → json.as_double t g (json.put s f v j) ≡ json.as_double t g j
  pub uint_other :
      (s f t g : Bytes) (v : Scalar D) (j : J)
      → is_member s f t g ≡ false
      → json.as_uint t g (json.put s f v j) ≡ json.as_uint t g j
  pub uint64_other :
      (s f t g : Bytes) (v : Scalar D) (j : J)
      → is_member s f t g ≡ false
      → json.as_uint64 t g (json.put s f v j) ≡ json.as_uint64 t g j
  pub int64_other :
      (s f t g : Bytes) (v : Scalar D) (j : J)
      → is_member s f t g ≡ false
      → json.as_int64 t g (json.put s f v j) ≡ json.as_int64 t g j

module _ {D : Type 0} where
  unfoldable pub entries : PerformanceMetrics D → List (Bytes × Bytes × Scalar D)
  entries metrics =
      (characters "cpu", characters "usage", double metrics.cpu_usage)
      ∷ (characters "cpu", characters "threadCount", unsigned metrics.thread_count)
      ∷ (characters "cpu", characters "contextSwitches", unsigned metrics.context_switches)
      ∷ (characters "memory", characters "usage", unsigned metrics.memory_usage)
      ∷ (characters "memory", characters "peakUsage", unsigned metrics.peak_memory_usage)
      ∷ (characters "memory", characters "allocationCount", unsigned metrics.allocation_count)
      ∷ (characters "memory", characters "deallocationCount", unsigned metrics.deallocation_count)
      ∷ (characters "network", characters "bytesSent", unsigned metrics.bytes_sent)
      ∷ (characters "network", characters "bytesReceived", unsigned metrics.bytes_received)
      ∷ (characters "network", characters "packetLoss", unsigned metrics.packet_loss)
      ∷ (characters "network", characters "latency", unsigned metrics.latency)
      ∷ (characters "network", characters "bandwidth", unsigned metrics.bandwidth)
      ∷ (characters "timing", characters "frameTime", signed metrics.frame_time)
      ∷ (characters "timing", characters "updateTime", signed metrics.update_time)
      ∷ (characters "timing", characters "renderTime", signed metrics.render_time)
      ∷ (characters "timing", characters "networkTime", signed metrics.network_time)
      ∷ []

  unfoldable pub custom_entries : List (Bytes × D) → List (Bytes × Bytes × Scalar D)
  custom_entries [] = []
  custom_entries ((name, value) ∷ rest) =
      (characters "custom", name, double value) ∷ custom_entries rest

module _ {D J F : Type 0} (json : Json D J F) where
  -- Assignments to members, one after the other.
  unfoldable pub put_all : List (Bytes × Bytes × Scalar D) → J → J
  put_all [] j = j
  put_all ((section, field, value) ∷ rest) j = put_all rest (json.put section field value j)

  -- The text that the file gets.
  unfoldable pub export_metrics : PerformanceMonitor D → F
  unfolding put_all
  export_metrics m =
      json.write
        (put_all (entries m.metrics ++ custom_entries m.metrics.custom_metrics) json.null_value)

  unfoldable pub read_customs : J → List Bytes → List (Bytes × D) → List (Bytes × D)
  read_customs j [] customs = customs
  read_customs j (name ∷ names) customs =
      read_customs j names (assign name (json.as_double (characters "custom") name j) customs)

  unfoldable pub read_metrics : J → PerformanceMetrics D
  unfolding read_customs
  read_metrics j = record {
    cpu_usage = json.as_double (characters "cpu") (characters "usage") j;
    thread_count = json.as_uint (characters "cpu") (characters "threadCount") j;
    context_switches = json.as_uint64 (characters "cpu") (characters "contextSwitches") j;
    memory_usage = json.as_uint64 (characters "memory") (characters "usage") j;
    peak_memory_usage = json.as_uint64 (characters "memory") (characters "peakUsage") j;
    allocation_count = json.as_uint (characters "memory") (characters "allocationCount") j;
    deallocation_count = json.as_uint (characters "memory") (characters "deallocationCount") j;
    bytes_sent = json.as_uint64 (characters "network") (characters "bytesSent") j;
    bytes_received = json.as_uint64 (characters "network") (characters "bytesReceived") j;
    packet_loss = json.as_uint (characters "network") (characters "packetLoss") j;
    latency = json.as_uint (characters "network") (characters "latency") j;
    bandwidth = json.as_uint (characters "network") (characters "bandwidth") j;
    frame_time = json.as_int64 (characters "timing") (characters "frameTime") j;
    update_time = json.as_int64 (characters "timing") (characters "updateTime") j;
    render_time = json.as_int64 (characters "timing") (characters "renderTime") j;
    network_time = json.as_int64 (characters "timing") (characters "networkTime") j;
    custom_metrics = read_customs j (json.member_names (characters "custom") j) [];
  }

  -- `file` is the contents of the file; a file that cannot be parsed changes nothing.
  unfoldable pub import_metrics : F → PerformanceMonitor D → PerformanceMonitor D
  unfolding read_metrics
  import_metrics file m = elim (json.parse file) [
    | none ↦ m
    | some j ↦ record m { metrics = read_metrics j }
  ]
