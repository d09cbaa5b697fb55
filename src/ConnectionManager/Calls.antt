-- ===== src/ConnectionManager/Calls.antt =====
-- Histories of calls of the public operations of `ConnectionManager` in src/connection/ConnectionManager.cpp.
use barren_engine.Common.{ℕ, Bool, false, List, [], ◌∷◌, Bytes, Outcome, returns, deadlock}
use barren_engine.ConnectionManager.Types.{ConnectionConfig, ConnectionManager}
use barren_engine.ConnectionManager.Operations.{
  initialize, start, stop, connect, disconnect, send, broadcast, receive,
}
use barren_engine.ConnectionManager.Settings.{
  reset_stats, start_monitoring, stop_monitoring, set_connection_timeout,
  set_connection_event_callback, set_max_retries, set_keep_alive_interval, set_max_packet_size,
  set_monitoring_interval, enable_compression, enable_encryption, enable_reliability,
  enable_ordering, enable_sequencing, set_data_callback, set_error_callback,
}

pub data Call : Type 0 where
  initializes : ConnectionConfig → Call
  starts resets monitoring_stops : Call
  stops monitoring_starts : ℕ → Call
  connects : Bytes → ℕ → ℕ → Call
  disconnects : Bytes → ℕ → Call
  sends : Bytes → Bytes → ℕ → Call
  broadcasts : Bytes → (ℕ → ℕ) → Call
  receives : Bytes → Call
  sets_timeout sets_retries sets_keep_alive sets_packet_size sets_monitoring_interval : ℕ → Call
  compresses encrypts makes_reliable orders sequences : Bool → Call
  sets_event_callback sets_data_callback sets_error_callback : Bool → Call

unfoldable pub step : ConnectionManager → Call → Outcome ConnectionManager
step m (initializes config) = returns (initialize config m).0
step m starts = returns (start m).0
step m resets = returns (reset_stats m)
step m monitoring_stops = returns (stop_monitoring m)
step m (stops now) = stop now m
step m (monitoring_starts now) = returns (start_monitoring now m)
step m (connects address port now) = returns (connect address port now m).0
step m (disconnects address now) = disconnect false address now m
step m (sends address bytes now) = returns (send address bytes now m).0
step m (broadcasts bytes times) = returns (broadcast bytes times m).0
step m (receives address) = returns (receive address m).0
step m (sets_timeout timeout_ms) = returns (set_connection_timeout timeout_ms m)
step m (sets_event_callback callback) = returns (set_connection_event_callback callback m)
step m (sets_retries max_retries) = returns (set_max_retries max_retries m)
step m (sets_keep_alive interval_ms) = returns (set_keep_alive_interval interval_ms m)
step m (sets_packet_size size) = returns (set_max_packet_size size m)
step m (sets_monitoring_interval interval_ms) = returns (set_monitoring_interval interval_ms m)
step m (compresses enable) = returns (enable_compression enable m)
step m (encrypts enable) = returns (enable_encryption enable m)
step m (makes_reliable enable) = returns (enable_reliability enable m)
step m (orders enable) = returns (enable_ordering enable m)
step m (sequences enable) = returns (enable_sequencing enable m)
step m (sets_data_callback callback) = returns (set_data_callback callback m)
step m (sets_error_callback callback) = returns (set_error_callback callback m)

unfoldable pub run : ConnectionManager → List Call → Outcome ConnectionManager
run m [] = returns m
run m (call ∷ calls) = elim (step m call) [ returns m' ↦ run m' calls | deadlock ↦ deadlock ]
