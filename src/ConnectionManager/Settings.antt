-- ===== src/ConnectionManager/Settings.antt =====
-- The settings, the statistics and the monitoring of `ConnectionManager` in src/connection/ConnectionManager.cpp.
-- A callback is only whether it is set.
use barren_engine.Common.{
  ℕ, Bool, true, false, not, none, some, [], Bytes, if◌then◌else◌, find, bytes_key,
}
use barren_engine.ConnectionManager.Types.{
  ConnectionConfig, ConnectionStats, zero_stats, ConnectionManager,
}

-- A write to a field of `config_`.
abbrev configure : (ConnectionConfig → ConnectionConfig) → ConnectionManager → ConnectionManager
configure f m = record m { config = f m.config }

unfoldable pub set_connection_timeout : ℕ → ConnectionManager → ConnectionManager
set_connection_timeout timeout_ms m = configure (λ c. record c { timeout_ms = timeout_ms }) m

unfoldable pub set_max_retries : ℕ → ConnectionManager → ConnectionManager
set_max_retries max_retries m = configure (λ c. record c { max_retries = max_retries }) m

unfoldable pub set_keep_alive_interval : ℕ → ConnectionManager → ConnectionManager
set_keep_alive_interval interval_ms m =
    configure (λ c. record c { keep_alive_interval_ms = interval_ms }) m

unfoldable pub set_max_packet_size : ℕ → ConnectionManager → ConnectionManager
set_max_packet_size size m = configure (λ c. record c { max_packet_size = size }) m

unfoldable pub enable_compression : Bool → ConnectionManager → ConnectionManager
enable_compression enable m = configure (λ c. record c { enable_compression = enable }) m

unfoldable pub enable_encryption : Bool → ConnectionManager → ConnectionManager
enable_encryption enable m = configure (λ c. record c { enable_encryption = enable }) m

unfoldable pub enable_reliability : Bool → ConnectionManager → ConnectionManager
enable_reliability enable m = configure (λ c. record c { enable_reliability = enable }) m

unfoldable pub enable_ordering : Bool → ConnectionManager → ConnectionManager
enable_ordering enable m = configure (λ c. record c { enable_ordering = enable }) m

unfoldable pub enable_sequencing : Bool → ConnectionManager → ConnectionManager
enable_sequencing enable m = configure (λ c. record c { enable_sequencing = enable }) m

unfoldable pub get_stats : ConnectionManager → ConnectionStats
get_stats m = m.global_stats

unfoldable pub reset_stats : ConnectionManager → ConnectionManager
reset_stats m = record m { global_stats = zero_stats; connection_stats = [] }

unfoldable pub get_connection_stats : Bytes → ConnectionManager → ConnectionStats
get_connection_stats address m = elim (find address m.connection_stats) [
  | none ↦ zero_stats
  | some stats ↦ stats
]

unfoldable pub set_connection_event_callback : Bool → ConnectionManager → ConnectionManager
set_connection_event_callback callback m = record m { has_event_callback = callback }

unfoldable pub set_data_callback : Bool → ConnectionManager → ConnectionManager
set_data_callback callback m = record m { has_data_callback = callback }

unfoldable pub set_error_callback : Bool → ConnectionManager → ConnectionManager
set_error_callback callback m = record m { has_error_callback = callback }

unfoldable pub start_monitoring : ℕ → ConnectionManager → ConnectionManager
start_monitoring now m =
    if not m.running then m else record m { monitoring = true; last_monitoring = now }

unfoldable pub stop_monitoring : ConnectionManager → ConnectionManager
stop_monitoring m = record m { monitoring = false }

unfoldable pub is_monitoring : ConnectionManager → Bool
is_monitoring m = m.monitoring

unfoldable pub set_monitoring_interval : ℕ → ConnectionManager → ConnectionManager
set_monitoring_interval interval_ms m = record m { monitoring_interval = interval_ms }
