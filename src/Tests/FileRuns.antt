-- ===== src/Tests/FileRuns.antt =====
-- Runs of `exportMetrics` and `importMetrics` of src/PerformanceMonitor.cpp, with the assignments themselves in
-- place of the values and texts of the library.
use barren_engine.Common.{
  ℕ, ◌≡◌, refl, ap, arith, true, false, some, List, [], ◌∷◌, Bytes, ℤ, pos, if◌then◌else◌,
  bytes_eq_iff,
}
use barren_engine.Performance.Operations.{new_monitor}
use barren_engine.Performance.Files.{
  Scalar, double, unsigned, signed, Json, is_member, IsFaithful, export_metrics, import_metrics,
}
use barren_engine.Performance.RoundTrip.{IsInRange, import_metrics-export_metrics}
use barren_engine.Tests.Numbers.{whole}
use barren_engine.Tests.PerformanceRuns.{busy}

abbrev Assignments : Type 0
Assignments = List (Bytes × Bytes × Scalar ℕ)

abbrev look : Bytes → Bytes → Assignments → Scalar ℕ
look t g [] = double 0
look t g ((s, f, v) ∷ j) = if is_member s f t g then v else look t g j

abbrev as_number : Scalar ℕ → ℕ
as_number (double x) = x
as_number (unsigned n) = n
as_number (signed n) = 0

abbrev as_integer : Scalar ℕ → ℤ
as_integer (double x) = pos x
as_integer (unsigned n) = pos n
as_integer (signed n) = n

abbrev assignments : Json ℕ Assignments Assignments
assignments = record {
  null_value = [];
  put = λ s f v j. (s, f, v) ∷ j;
  as_double = λ s f j. as_number (look s f j);
  as_uint = λ s f j. as_number (look s f j);
  as_uint64 = λ s f j. as_number (look s f j);
  as_int64 = λ s f j. as_integer (look s f j);
  member_names = λ s j. [];
  write = λ j. j;
  parse = some;
}

is_member_refl : (s f : Bytes) → is_member s f s f ≡ true
is_member_refl s f = ground (arith, bytes_eq_iff s s, bytes_eq_iff f f)

look_put : (s f : Bytes) (v : Scalar ℕ) (j : Assignments) → look s f ((s, f, v) ∷ j) ≡ v
look_put s f v j = rw (is_member_refl s f) refl

look_other :
    (s f t g : Bytes) (v : Scalar ℕ) (j : Assignments)
    → is_member s f t g ≡ false
    → look t g ((s, f, v) ∷ j) ≡ look t g j
look_other s f t g v j h = rw h refl

assignments-IsFaithful : IsFaithful assignments
assignments-IsFaithful = record {
  parse_write = λ j. refl;
  double_put = λ s f x j. ap as_number (look_put s f (double x) j);
  uint_put = λ s f n j h. ap as_number (look_put s f (unsigned n) j);
  uint64_put = λ s f n j h. ap as_number (look_put s f (unsigned n) j);
  int64_put = λ s f n j. ap as_integer (look_put s f (signed n) j);
  double_other = λ s f t g v j h. ap as_number (look_other s f t g v j h);
  uint_other = λ s f t g v j h. ap as_number (look_other s f t g v j h);
  uint64_other = λ s f t g v j h. ap as_number (look_other s f t g v j h);
  int64_other = λ s f t g v j h. ap as_integer (look_other s f t g v j h);
}

busy-IsInRange : IsInRange busy.metrics
unfolding new_monitor
busy-IsInRange = record {
  thread_count = omega arith;
  context_switches = omega arith;
  memory_usage = omega arith;
  peak_memory_usage = omega arith;
  allocation_count = omega arith;
  deallocation_count = omega arith;
  bytes_sent = omega arith;
  bytes_received = omega arith;
  packet_loss = omega arith;
  latency = omega arith;
  bandwidth = omega arith;
}

import_metrics-export_metrics_example :
    let back =
      import_metrics assignments (export_metrics assignments busy) (new_monitor busy.thresholds) in
    back ≡ record (new_monitor busy.thresholds) {
      metrics = record busy.metrics { custom_metrics = back.metrics.custom_metrics };
    }
import_metrics-export_metrics_example =
    import_metrics-export_metrics assignments assignments-IsFaithful busy
      (new_monitor busy.thresholds) busy-IsInRange
