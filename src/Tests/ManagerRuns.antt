-- ===== src/Tests/ManagerRuns.antt =====
-- Runs of the operations of src/connection/ConnectionManager.cpp and of the validation of addresses.
use barren_engine.Common.{
  ◌+◌, ◌^◌, ◌≡◌, ◌↔◌, refl, true, false, List, [], ◌∷◌, ◌++◌, Bytes, map, keep, returns,
  outcome_map, some, find, bytes_key,
}
use barren_engine.Address.{validate_address}
use barren_engine.Address.Notation.{Notation, validate_address_iff}
use barren_engine.ConnectionManager.Types.{
  ConnectionState, client, ConnectionConfig, ConnectionStats, zero_stats, ConnectionManager,
}
use barren_engine.ConnectionManager.Operations.{new_manager}
use barren_engine.ConnectionManager.Settings.{get_stats, get_connection_stats}
use barren_engine.ConnectionManager.Maintenance.{is_stale, update_stats, cleanup_stale_connections}
use barren_engine.ConnectionManager.Calls.{
  Call, starts, stops, connects, disconnects, sends, sets_error_callback, run,
}
use barren_engine.ConnectionManager.Views.{view}
use barren_engine.ConnectionManager.Replay.{replay, run-view}
use barren_engine.ConnectionManager.Counts.{run-new_manager}
use barren_engine.ConnectionManager.Sums.{IsSumOf, update_stats-IsSumOf}
use barren_engine.ConnectionManager.Stale.{
  is_kept, is_expired, addresses, cleanup_stale_connections_lem,
}

-- "10.0.0.1" and "300.1.1.1".
abbrev good : Bytes
good = 49 ∷ 48 ∷ 46 ∷ 48 ∷ 46 ∷ 48 ∷ 46 ∷ 49 ∷ []

abbrev bad : Bytes
bad = 51 ∷ 48 ∷ 48 ∷ 46 ∷ 49 ∷ 46 ∷ 49 ∷ 46 ∷ 49 ∷ []

abbrev config : ConnectionConfig
config = record {
  address = good;
  port = 7777;
  type = client;
  timeout_ms = 5000;
  max_retries = 3;
  keep_alive_interval_ms = 1000;
  max_packet_size = 1400;
  enable_compression = false;
  enable_encryption = false;
  enable_reliability = true;
  enable_ordering = true;
  enable_sequencing = false;
}

abbrev calls : List Call
calls =
    starts
    ∷ connects good 7777 10
    ∷ connects bad 7777 11
    ∷ sets_error_callback true
    ∷ sends good (1 ∷ 2 ∷ []) 12
    ∷ disconnects good 13
    ∷ connects good 7777 14
    ∷ stops 15
    ∷ []

run-view_example :
    outcome_map view (run (new_manager config) calls)
    ≡ returns (replay (view (new_manager config)) calls)
run-view_example = run-view calls (new_manager config)

run-new_manager_example :
    (m : ConnectionManager) × (run (new_manager config) calls ≡ returns m)
    × ((get_stats m ≡ zero_stats)
        × ((address : Bytes) → get_connection_stats address m ≡ zero_stats))
run-new_manager_example = run-new_manager config calls

abbrev stats : ConnectionStats
stats = record zero_stats { bytes_sent = 2 ^ 64 + 5; average_latency = 40 }

abbrev manager : ConnectionManager
manager = record (new_manager config) {
  running = true;
  connection_states = (good, ConnectionState.connected) ∷ (bad, ConnectionState.failed) ∷ [];
}

update_stats-IsSumOf_example :
    (find good (update_stats good stats manager).connection_stats ≡ some stats)
    × IsSumOf
        (update_stats good stats manager).global_stats
        (update_stats good stats manager).connection_stats
update_stats-IsSumOf_example = update_stats-IsSumOf good stats manager

cleanup_stale_connections_lem_example :
    let after = cleanup_stale_connections (10 ^ 10) (λ i. i) manager in
    (after.connection_states ≡ keep (is_kept (10 ^ 10) manager) manager.connection_states)
    × (addresses after.event_queue
        ≡ addresses manager.event_queue
          ++ map (λ e. e.0) (keep (is_expired (10 ^ 10) manager) manager.connection_states))
cleanup_stale_connections_lem_example =
    cleanup_stale_connections_lem (10 ^ 10) (λ i. i) manager refl

stale_run : is_expired (10 ^ 10) manager (good, ConnectionState.connected) ≡ true
unfolding is_expired is_stale find new_manager
stale_run = refl

validate_address_iff_example : (validate_address good ≡ true) ↔ Notation good
validate_address_iff_example = validate_address_iff good
