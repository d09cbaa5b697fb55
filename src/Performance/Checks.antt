-- ===== src/Performance/Checks.antt =====
-- The checks of `checkThresholds` of src/PerformanceMonitor.cpp, and the lists of what each reports.
use barren_engine.Common.{
  ℕ, Bool, true, false, not, ◌||◌, ◌≡◌, refl, sym, ◌∙◌, arith, none, some, List, [], ◌∷◌, ◌++◌,
  Bytes, ltb, ltb_int, characters, is_empty, if◌then◌else◌, Option-cases, inl, inr, Doubles, find,
  bytes_key,
}
use barren_engine.Performance.Types.{PerformanceMonitor}
use barren_engine.Performance.Events.{handle_threshold_exceeded}
use barren_engine.Performance.Thresholds.{
  check_cpu_thresholds, check_memory_thresholds, check_network_thresholds, check_timing_thresholds,
  check_customs, check_custom_thresholds, above,
}

or_empty : (b : Bool) → b ≡ b || false
or_empty b = ground arith

or_true : (b : Bool) → b || true ≡ true
or_true b = ground arith

pub some_of :
    {A : Type 0} (xs ys : List A)
    → not (is_empty xs) || not (is_empty ys) ≡ not (is_empty (xs ++ ys))
some_of [] ys = refl
some_of (x ∷ xs) ys = refl

module _ {D : Type 0} ⦃d : Doubles D⦄ where
  -- The first of the measurements that is over its threshold.
  unfoldable pub first : List (Bool × Bytes × D) → List (Bytes × D)
  first [] = []
  first ((over, metric, value) ∷ rest) = if over then (metric, value) ∷ [] else first rest

  -- The custom metrics that have a value over their threshold.
  unfoldable pub customs : List (Bytes × D) → List (Bytes × D) → List (Bytes × D)
  customs metrics [] = []
  customs metrics ((metric, threshold) ∷ rest) = elim (above threshold (find metric metrics)) [
    | none ↦ customs metrics rest
    | some value ↦ (metric, value) ∷ customs metrics rest
  ]

  abbrev pub cpu : PerformanceMonitor D → List (Bool × Bytes × D)
  cpu m =
      let v = m.metrics in
      let t = m.thresholds in
      (d.less t.max_cpu_usage v.cpu_usage, characters "CPU Usage", v.cpu_usage) ∷ []

  abbrev pub memory : PerformanceMonitor D → List (Bool × Bytes × D)
  memory m =
      let v = m.metrics in
      let t = m.thresholds in
      (ltb t.max_memory_usage v.memory_usage, characters "Memory Usage", d.of_nat v.memory_usage)
      ∷ []

  abbrev pub network : PerformanceMonitor D → List (Bool × Bytes × D)
  network m =
      let v = m.metrics in
      let t = m.thresholds in
      (ltb t.max_packet_loss v.packet_loss, characters "Packet Loss", d.of_nat v.packet_loss)
      ∷ (ltb t.max_latency v.latency, characters "Latency", d.of_nat v.latency)
      ∷ []

  abbrev pub timing : PerformanceMonitor D → List (Bool × Bytes × D)
  timing m =
      let v = m.metrics in
      let t = m.thresholds in
      (ltb_int t.max_frame_time v.frame_time, characters "Frame Time", d.of_int v.frame_time)
      ∷ (ltb_int t.max_update_time v.update_time, characters "Update Time", d.of_int v.update_time)
      ∷ (ltb_int t.max_render_time v.render_time, characters "Render Time", d.of_int v.render_time)
      ∷ (
        ltb_int t.max_network_time v.network_time,
        characters "Network Time",
        d.of_int v.network_time,
      )
      ∷ []

  -- All that is reported: of the network and of the times no more than the first.
  unfoldable pub exceeded : PerformanceMonitor D → List (Bytes × D)
  exceeded m =
      (((first (cpu m) ++ first (memory m)) ++ first (network m)) ++ first (timing m))
      ++ customs m.metrics.custom_metrics m.custom_thresholds

  -- The reports, one after the other.
  unfoldable pub report_all :
      List (Bytes × D) → (ℕ → ℕ) → PerformanceMonitor D → PerformanceMonitor D
  report_all [] times m = m
  report_all ((metric, value) ∷ rest) times m =
      report_all rest times (handle_threshold_exceeded metric value times m)

  -- A check reports a list and says whether it is empty.
  abbrev pub Reports :
      List (Bytes × D) → (ℕ → ℕ) → PerformanceMonitor D → PerformanceMonitor D × Bool → Type 0
  Reports xs times m r = (r.0 ≡ report_all xs times m) × (r.1 ≡ not (is_empty xs))

  -- The tests of one check, in their order.
  unfoldable ladder :
      List (Bool × Bytes × D) → (ℕ → ℕ) → PerformanceMonitor D → PerformanceMonitor D × Bool
  ladder [] times m = (m, false)
  ladder ((over, metric, value) ∷ rest) times m =
      if over then (handle_threshold_exceeded metric value times m, true) else ladder rest times m

  ladder-Reports :
      (tests : List (Bool × Bytes × D)) (times : ℕ → ℕ) (m : PerformanceMonitor D)
      → Reports (first tests) times m (ladder tests times m)
  unfolding ladder first report_all
  ladder-Reports [] times m = (refl, refl)
  ladder-Reports ((true, metric, value) ∷ rest) times m = (refl, refl)
  ladder-Reports ((false, metric, value) ∷ rest) times m = ladder-Reports rest times m

  -- A check that every monitor passes as a list of its state says, and two such checks in sequence.
  abbrev pub Checks :
      (ℕ → ℕ)
      → (PerformanceMonitor D → PerformanceMonitor D × Bool)
      → (PerformanceMonitor D → List (Bytes × D))
      → Type 0
  Checks times check list = (m : PerformanceMonitor D) → Reports (list m) times m (check m)

  abbrev pub Stable : (ℕ → ℕ) → (PerformanceMonitor D → List (Bytes × D)) → Type 0
  Stable times list =
      (metric : Bytes) (value : D) (m : PerformanceMonitor D)
      → list (handle_threshold_exceeded metric value times m) ≡ list m

  pub cpu-Checks : (times : ℕ → ℕ) → Checks times (check_cpu_thresholds times) (λ m. first (cpu m))
  unfolding check_cpu_thresholds ladder
  cpu-Checks times m = ladder-Reports (cpu m) times m

  pub memory-Checks :
      (times : ℕ → ℕ) → Checks times (check_memory_thresholds times) (λ m. first (memory m))
  unfolding check_memory_thresholds ladder
  memory-Checks times m = ladder-Reports (memory m) times m

  pub network-Checks :
      (times : ℕ → ℕ) → Checks times (check_network_thresholds times) (λ m. first (network m))
  unfolding check_network_thresholds ladder
  network-Checks times m = ladder-Reports (network m) times m

  pub timing-Checks :
      (times : ℕ → ℕ) → Checks times (check_timing_thresholds times) (λ m. first (timing m))
  unfolding check_timing_thresholds ladder
  timing-Checks times m = ladder-Reports (timing m) times m

  check_customs-Reports :
      (entries : List (Bytes × D)) (times : ℕ → ℕ) (b : Bool) (m : PerformanceMonitor D)
      → ((check_customs entries times b m).0
          ≡ report_all (customs m.metrics.custom_metrics entries) times m)
        × ((check_customs entries times b m).1
            ≡ b || not (is_empty (customs m.metrics.custom_metrics entries)))
  unfolding check_customs customs report_all handle_threshold_exceeded
  check_customs-Reports [] times b m = (refl, or_empty b)
  check_customs-Reports ((metric, threshold) ∷ rest) times b m =
      elim (Option-cases (above threshold (find metric m.metrics.custom_metrics))) [
        | inl e ↦ rw (check_customs, customs, e) (check_customs-Reports rest times b m)
        | inr (value, e) ↦
            let h =
              check_customs-Reports rest times true
                (handle_threshold_exceeded metric value times m) in
            rw (check_customs, customs, e) (h.0, h.1 ∙ sym (or_true b))
      ]

  pub customs-Checks :
      (times : ℕ → ℕ)
      → Checks times
          (check_custom_thresholds times)
          (λ m. customs m.metrics.custom_metrics m.custom_thresholds)
  unfolding check_custom_thresholds
  customs-Checks times m = check_customs-Reports m.custom_thresholds times false m

  pub report_all-append :
      (xs ys : List (Bytes × D)) (times : ℕ → ℕ) (m : PerformanceMonitor D)
      → report_all (xs ++ ys) times m ≡ report_all ys times (report_all xs times m)
  unfolding report_all
  report_all-append [] ys times m = refl
  report_all-append ((metric, value) ∷ xs) ys times m =
      report_all-append xs ys times (handle_threshold_exceeded metric value times m)

  pub Stable-report_all :
      (list : PerformanceMonitor D → List (Bytes × D)) (times : ℕ → ℕ)
      → Stable times list
      → (xs : List (Bytes × D)) (m : PerformanceMonitor D) → list (report_all xs times m) ≡ list m
  unfolding report_all
  Stable-report_all list times stable [] m = refl
  Stable-report_all list times stable ((metric, value) ∷ xs) m =
      Stable-report_all list times stable xs (handle_threshold_exceeded metric value times m)
      ∙ stable metric value m
