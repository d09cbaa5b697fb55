-- ===== src/Tests/DiagnosticsRuns.antt =====
-- Runs of the operations of src/NetworkDiagnostics.cpp.
use barren_engine.Common.{ℕ, ◌≤◌, ◌^◌, arith, ◌≡◌, refl, true, false, List, [], ◌∷◌, ltb, last}
use barren_engine.Diagnostics.Types.{
  NetworkMetrics, no_metrics, NetworkCondition, NetworkDiagnostics,
}
use barren_engine.Diagnostics.Operations.{new_diagnostics, get_statistics}
use barren_engine.Diagnostics.Extremes.{IsLinear, get_statistics-All}
use barren_engine.Diagnostics.Quality.{get_connection_quality, get_connection_quality-less}
use barren_engine.Diagnostics.Logs.{
  Call, updates, logs, clears, starts_capture, sets_error_callback, run, note_all, Keeps, run-Keeps,
}
use barren_engine.Tests.Numbers.{whole, whole-IsOrdered}

abbrev metrics_of : ℕ → NetworkMetrics ℕ
metrics_of latency = record no_metrics { latency = latency }

abbrev condition : NetworkCondition ℕ
condition = record { latency = 0; packet_loss = 0; bandwidth = 0; jitter = 0; enabled = false }

abbrev calls : List (Call ℕ)
calls =
    updates (metrics_of 30)
    ∷ logs "late"
    ∷ updates (metrics_of 20)
    ∷ sets_error_callback true
    ∷ clears
    ∷ starts_capture true
    ∷ []

new_diagnostics-Keeps : Keeps (new_diagnostics condition) (record { metrics = []; errors = [] })
unfolding new_diagnostics last
new_diagnostics-Keeps = record { history = refl; errors = refl; capture = refl }

run-Keeps_example :
    Keeps
      (run (new_diagnostics condition) calls)
      (note_all (record { metrics = []; errors = [] }) calls)
run-Keeps_example =
    run-Keeps calls (new_diagnostics condition) (record { metrics = []; errors = [] })
      new_diagnostics-Keeps

abbrev diagnostics : NetworkDiagnostics ℕ
diagnostics = record (new_diagnostics condition) {
  current_metrics = metrics_of 20;
  metrics_history = metrics_of 30 ∷ metrics_of 20 ∷ [];
}

get_connection_quality-less_example :
    (ltb (get_connection_quality diagnostics) 0 ≡ false)
    × (ltb 1 (get_connection_quality diagnostics) ≡ false)
get_connection_quality-less_example = get_connection_quality-less whole-IsOrdered diagnostics

abbrev IsWord : ℕ → Type 0
IsWord n = n ≤ 2 ^ 64

whole-IsLinear : IsLinear whole IsWord
whole-IsLinear = record {
  irreflexive = λ x h. ground arith;
  asymmetric = λ x y h k e. ground arith;
  transitive = λ x y z h k l e f. ground arith;
  zero = omega arith;
  largest = omega arith;
}

get_statistics-All_example :
    let s = get_statistics diagnostics in
    ((ltb 30 s.min_latency ≡ false) × (ltb s.max_latency 30 ≡ false))
    × (((ltb 20 s.min_latency ≡ false) × (ltb s.max_latency 20 ≡ false)) × Unit {0})
get_statistics-All_example =
    get_statistics-All IsWord whole-IsLinear diagnostics (omega arith, (omega arith, tt))
