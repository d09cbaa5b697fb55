-- ===== src/Diagnostics/Operations.antt =====
-- The operations of `NetworkDiagnostics` in src/NetworkDiagnostics.cpp, but for the quality.
use Prim.Native.String.{String}
use barren_engine.Common.{
  ℕ, zero, suc, Bool, true, false, not, List, [], ◌∷◌, ◌++◌, Bytes, is_empty, length, take, drop,
  ltb, if◌then◌else◌, Doubles, max_double, min_double,
}
use barren_engine.Diagnostics.Types.{
  NetworkMetrics, no_metrics, NetworkCondition, Totals, Statistics, no_statistics, metrics_callback,
  error_callback, NetworkDiagnostics,
}

abbrev pub max_errors : ℕ
max_errors = 100

abbrev pub max_metrics_history : ℕ
max_metrics_history = 1000

-- The loop of `logError`, with the size of the queue as fuel.
unfoldable pub pop_while : ℕ → List String → List String
pop_while zero errors = errors
pop_while (suc fuel) errors =
    let rest = pop_while fuel (drop 1 errors) in
    if ltb max_errors (length errors) then rest else errors

module _ {D : Type 0} ⦃d : Doubles D⦄ where
  -- The constructor; `memory` is what the condition, which it does not write, holds.
  unfoldable pub new_diagnostics : NetworkCondition D → NetworkDiagnostics D
  new_diagnostics memory = record {
    current_metrics = no_metrics;
    network_condition = memory;
    is_capturing = false;
    bandwidth_limit = 0;
    recent_errors = [];
    has_metrics_callback = false;
    has_error_callback = false;
    capture_is_open = false;
    metrics_history = [];
    notices = [];
  }

  unfoldable pub update_metrics : NetworkMetrics D → NetworkDiagnostics D → NetworkDiagnostics D
  update_metrics metrics n =
      let history = n.metrics_history ++ metrics ∷ [] in
      record n {
        current_metrics = metrics;
        metrics_history =
            if ltb max_metrics_history (length history) then drop 1 history else history;
        notices =
            n.notices ++ (if n.has_metrics_callback then metrics_callback metrics ∷ [] else []);
      }

  unfoldable pub get_current_metrics : NetworkDiagnostics D → NetworkMetrics D
  get_current_metrics n = n.current_metrics

  unfoldable pub reset_metrics : NetworkDiagnostics D → NetworkDiagnostics D
  reset_metrics n = record n { current_metrics = no_metrics; metrics_history = [] }

  unfoldable pub set_network_condition :
      NetworkCondition D → NetworkDiagnostics D → NetworkDiagnostics D
  set_network_condition condition n = record n { network_condition = condition }

  unfoldable pub get_network_condition : NetworkDiagnostics D → NetworkCondition D
  get_network_condition n = n.network_condition

  unfoldable pub disable_network_condition : NetworkDiagnostics D → NetworkDiagnostics D
  disable_network_condition n = record n {
    network_condition = record n.network_condition { enabled = false };
  }

  unfoldable pub stop_packet_capture : NetworkDiagnostics D → NetworkDiagnostics D
  stop_packet_capture n =
      if n.is_capturing then record n { capture_is_open = false; is_capturing = false } else n

  -- `opens` is whether the file system opens the file. To open an open stream fails and leaves it open.
  unfoldable pub start_packet_capture : Bool → NetworkDiagnostics D → NetworkDiagnostics D
  start_packet_capture opens n =
      let stopped = if n.is_capturing then stop_packet_capture n else n in
      let opened = record stopped {
        capture_is_open = if stopped.capture_is_open then true else opens;
      } in
      if opened.capture_is_open then record opened { is_capturing = true } else opened

  unfoldable pub set_bandwidth_limit : ℕ → NetworkDiagnostics D → NetworkDiagnostics D
  set_bandwidth_limit limit n = record n { bandwidth_limit = limit }

  unfoldable pub get_bandwidth_limit : NetworkDiagnostics D → ℕ
  get_bandwidth_limit n = n.bandwidth_limit

  unfoldable pub get_current_bandwidth : NetworkDiagnostics D → ℕ
  get_current_bandwidth n = d.truncate n.current_metrics.bandwidth

  unfoldable pub log_error : String → NetworkDiagnostics D → NetworkDiagnostics D
  log_error error n =
      let errors = n.recent_errors ++ error ∷ [] in
      record n {
        recent_errors = pop_while (length errors) errors;
        notices = n.notices ++ (if n.has_error_callback then error_callback error ∷ [] else []);
      }

  unfoldable pub get_recent_errors : NetworkDiagnostics D → List String
  get_recent_errors n = n.recent_errors

  unfoldable pub clear_errors : NetworkDiagnostics D → NetworkDiagnostics D
  clear_errors n = record n { recent_errors = [] }

  unfoldable pub accumulate : List (NetworkMetrics D) → Totals D → Totals D
  accumulate [] t = t
  accumulate (metrics ∷ history) t = accumulate history (record {
    latency = d.add t.latency metrics.latency;
    packet_loss = d.add t.packet_loss metrics.packet_loss;
    bandwidth = d.add t.bandwidth metrics.bandwidth;
    max_latency = max_double t.max_latency metrics.latency;
    min_latency = min_double t.min_latency metrics.latency;
    max_packet_loss = max_double t.max_packet_loss metrics.packet_loss;
    max_bandwidth = max_double t.max_bandwidth metrics.bandwidth;
  })

  abbrev pub no_totals : Totals D
  no_totals = record {
    latency = d.of_nat 0;
    packet_loss = d.of_nat 0;
    bandwidth = d.of_nat 0;
    max_latency = d.of_nat 0;
    min_latency = d.largest;
    max_packet_loss = d.of_nat 0;
    max_bandwidth = d.of_nat 0;
  }

  unfoldable pub get_statistics : NetworkDiagnostics D → Statistics D
  get_statistics n =
      let t = accumulate n.metrics_history no_totals in
      let count = d.of_nat (length n.metrics_history) in
      if is_empty n.metrics_history then no_statistics else record {
        average_latency = d.divide t.latency count;
        max_latency = t.max_latency;
        min_latency = t.min_latency;
        average_packet_loss = d.divide t.packet_loss count;
        max_packet_loss = t.max_packet_loss;
        average_bandwidth = d.divide t.bandwidth count;
        max_bandwidth = t.max_bandwidth;
        total_errors = n.current_metrics.errors;
      }

  unfoldable pub set_metrics_callback : Bool → NetworkDiagnostics D → NetworkDiagnostics D
  set_metrics_callback callback n = record n { has_metrics_callback = callback }

  unfoldable pub set_error_callback : Bool → NetworkDiagnostics D → NetworkDiagnostics D
  set_error_callback callback n = record n { has_error_callback = callback }

  -- `draw` is the draw from the uniform distribution. The jitter only delays the return.
  unfoldable pub apply_network_condition : D → Bytes → NetworkDiagnostics D → Bytes
  apply_network_condition draw bytes n =
      let c = n.network_condition in
      let max_bytes = d.truncate (d.divide c.bandwidth (d.of_nat 1000)) in
      if not c.enabled
      then bytes
      else if d.less draw c.packet_loss
      then []
      else if d.less (d.of_nat 0) c.bandwidth
      then (if ltb max_bytes (length bytes) then take max_bytes bytes else bytes)
      else bytes
