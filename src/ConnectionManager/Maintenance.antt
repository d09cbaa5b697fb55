-- ===== src/ConnectionManager/Maintenance.antt =====
-- The private operations of `ConnectionManager` in src/connection/ConnectionManager.cpp that no code of the
-- repository calls: timeouts, retries, keep-alive, the event queue and the sums of the statistics. A time
-- that is not set is 0, the epoch.
use barren_engine.Common.{
  ℕ, ◌-◌, ◌*◌, ◌/◌, ◌^◌, Bool, true, not, ◌||◌, List, [], ◌∷◌, ◌++◌, Bytes, length, is_empty, ltb,
  if◌then◌else◌, find, assign, bytes_key, get_or_else, add_u32, add_u64,
}
use barren_engine.ConnectionManager.Types.{
  ConnectionState, is_connected_state, ConnectionStats, zero_stats, ConnectionEventType,
  ConnectionEvent, event_callback, ConnectionManager,
}
use barren_engine.ConnectionManager.Operations.{emit, get_connected_peers, send}

unfoldable pub handle_connection_timeout : Bytes → ℕ → ConnectionManager → ConnectionManager
handle_connection_timeout address now m =
    emit
      (record {
        type = ConnectionEventType.connection_timeout;
        address = address;
        message = "Connection timed out";
        timestamp = now;
      })
      m

unfoldable pub handle_connection_retry : Bytes → ℕ → ConnectionManager → ConnectionManager
handle_connection_retry address now m =
    emit
      (record {
        type = ConnectionEventType.connection_retry;
        address = address;
        message = "Retrying connection";
        timestamp = now;
      })
      m

-- A connection always counts as healthy.
abbrev check_each : ℕ → List (Bytes × ConnectionState) → ConnectionManager → ConnectionManager
check_each now [] m = m
check_each now ((address, state) ∷ rest) m = check_each now rest (
    if is_connected_state state
    then (if not true then handle_connection_timeout address now m else m)
    else m)

unfoldable pub check_connections : ℕ → ConnectionManager → ConnectionManager
check_connections now m =
    if not m.running || not m.monitoring
    then m
    else if ltb (now - m.last_monitoring) (m.monitoring_interval * 10 ^ 6)
    then m
    else check_each now m.connection_states (record m { last_monitoring = now })

-- The loop of `sendKeepAlive`; `times` are the readings of the clock, from the `i`-th on.
abbrev keep_each : List Bytes → (ℕ → ℕ) → ℕ → ConnectionManager → ConnectionManager
keep_each [] times i m = m
keep_each (peer ∷ peers) times i m =
    let sent = send peer (0 ∷ []) (times i) m in keep_each peers times (ℕ.suc i) sent.0

unfoldable pub send_keep_alive : ℕ → (ℕ → ℕ) → ConnectionManager → ConnectionManager
send_keep_alive now times m =
    if not m.running
    then m
    else if ltb (now - m.last_keep_alive) (m.config.keep_alive_interval_ms * 10 ^ 6)
    then m
    else let kept = record m { last_keep_alive = now } in
      keep_each (get_connected_peers kept) times 0 kept

-- The loop over the queue, which is empty afterwards.
unfoldable pub drain_events : List ConnectionEvent → ConnectionManager → ConnectionManager
drain_events [] m = m
drain_events (event ∷ events) m = drain_events events (record m {
  event_queue = events;
  notices = m.notices ++ (if m.has_event_callback then event_callback event ∷ [] else []);
})

unfoldable pub process_queued_messages : ConnectionManager → ConnectionManager
process_queued_messages m = drain_events m.event_queue m

-- `connectionStats_[address]`, which makes an entry where there is none.
abbrev pub stats_of : Bytes → ConnectionManager → ConnectionStats
stats_of address m = get_or_else (find address m.connection_stats) zero_stats

abbrev pub touch_stats : Bytes → ConnectionManager → ConnectionManager
touch_stats address m = record m {
  connection_stats = assign address (stats_of address m) m.connection_stats;
}

-- The test of the timeout for the statistics of a connection.
unfoldable pub is_stale : ℕ → ConnectionManager → ConnectionStats → Bool
is_stale now m stats = ltb (m.config.timeout_ms * 10 ^ 6) (now - stats.last_activity)

-- The loop over the connections: the entries that stay, and the manager with the events of the others.
-- `times` are the readings of the clock that time the events, from the `i`-th on.
unfoldable pub keep_fresh :
    ℕ
    → (ℕ → ℕ)
    → ℕ
    → List (Bytes × ConnectionState)
    → ConnectionManager
    → List (Bytes × ConnectionState) × ConnectionManager
keep_fresh now times i [] m = ([], m)
keep_fresh now times i ((address, state) ∷ rest) m =
    let stale = is_stale now m (stats_of address m) in
    let expired =
      keep_fresh now times (ℕ.suc i) rest
        (handle_connection_timeout address (times i) (touch_stats address m)) in
    let touched = keep_fresh now times i rest (touch_stats address m) in
    let passed = keep_fresh now times i rest m in
    if is_connected_state state
    then (if stale then expired else ((address, state) ∷ touched.0, touched.1))
    else ((address, state) ∷ passed.0, passed.1)

unfoldable pub cleanup_stale_connections : ℕ → (ℕ → ℕ) → ConnectionManager → ConnectionManager
cleanup_stale_connections now times m =
    let kept = keep_fresh now times 0 m.connection_states m in
    if not m.running then m else record kept.1 { connection_states = kept.0 }

abbrev pub add_stats : ConnectionStats → ConnectionStats → ConnectionStats
add_stats g s = record g {
  bytes_sent = add_u64 g.bytes_sent s.bytes_sent;
  bytes_received = add_u64 g.bytes_received s.bytes_received;
  packets_sent = add_u64 g.packets_sent s.packets_sent;
  packets_received = add_u64 g.packets_received s.packets_received;
  packets_lost = add_u64 g.packets_lost s.packets_lost;
  packets_out_of_order = add_u64 g.packets_out_of_order s.packets_out_of_order;
  active_connections = add_u32 g.active_connections 1;
}

unfoldable pub add_all : List (Bytes × ConnectionStats) → ConnectionStats → ConnectionStats
add_all [] g = g
add_all ((address, stats) ∷ rest) g = add_all rest (add_stats g stats)

unfoldable pub add_latencies : List (Bytes × ConnectionStats) → ℕ → ℕ
add_latencies [] latency = latency
add_latencies ((address, stats) ∷ rest) latency =
    add_latencies rest (add_u32 latency stats.average_latency)

-- The quotient is of 64 bits and fits the 32 bits that it is stored in.
unfoldable pub update_global_stats : ConnectionManager → ConnectionManager
update_global_stats m =
    let sums = add_all m.connection_stats zero_stats in
    record m {
      global_stats = if is_empty m.connection_stats then sums else record sums {
        average_latency = add_latencies m.connection_stats 0 / length m.connection_stats;
      };
    }

unfoldable pub update_stats : Bytes → ConnectionStats → ConnectionManager → ConnectionManager
update_stats address stats m =
    update_global_stats (record m { connection_stats = assign address stats m.connection_stats })

unfoldable pub reset_connection_stats : Bytes → ConnectionManager → ConnectionManager
reset_connection_stats address m = record m {
  connection_stats = assign address zero_stats m.connection_stats;
}
