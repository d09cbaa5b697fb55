-- ===== src/ConnectionManager/Operations.antt =====
-- The operations of `ConnectionManager` in src/connection/ConnectionManager.cpp, but for the settings and the
-- maintenance. `now` is a reading of the system clock.
use Prim.Native.String.{String}
use barren_engine.Common.{
  ℕ, Bool, true, false, not, ◌&&◌, ◌||◌, none, some, List, [], ◌∷◌, ◌++◌, Bytes, length, ltb,
  is_empty, ◌==◌, if◌then◌else◌, find, assign, bytes_key, add_u64, get_or_else, Outcome, returns,
  deadlock, lock_guard,
}
use barren_engine.Address.{validate_address}
use barren_engine.ConnectionManager.Types.{
  ConnectionState, is_connected_state, ConnectionConfig, zero_stats, ConnectionEventType,
  ConnectionEvent, event_callback, data_callback, error_callback, ConnectionManager,
}

-- The constructor; `memory` is what the configuration, which it does not write, holds.
unfoldable pub new_manager : ConnectionConfig → ConnectionManager
new_manager memory = record {
  config = memory;
  running = false;
  monitoring = false;
  connection_states = [];
  connection_stats = [];
  global_stats = zero_stats;
  event_queue = [];
  has_event_callback = false;
  has_data_callback = false;
  has_error_callback = false;
  last_keep_alive = 0;
  last_monitoring = 0;
  monitoring_interval = 1000;
  notices = [];
}

unfoldable pub validate_port : ℕ → Bool
validate_port port = ltb 0 port && ltb port 65536

unfoldable pub validate_config : ConnectionConfig → Bool
validate_config c =
    if not (validate_address c.address) || not (validate_port c.port)
    then false
    else if (c.timeout_ms == 0 || c.max_retries == 0)
        || (c.keep_alive_interval_ms == 0 || c.max_packet_size == 0)
    then false
    else true

unfoldable pub initialize : ConnectionConfig → ConnectionManager → ConnectionManager × Bool
initialize config m =
    if not (validate_config config) then (m, false) else (record m { config = config }, true)

unfoldable pub start : ConnectionManager → ConnectionManager × Bool
start m = if m.running then (m, true) else (record m { running = true }, true)

-- An event is queued and handed to the callback, where there is one.
abbrev pub emit : ConnectionEvent → ConnectionManager → ConnectionManager
emit event m = record m {
  event_queue = m.event_queue ++ event ∷ [];
  notices = m.notices ++ (if m.has_event_callback then event_callback event ∷ [] else []);
}

unfoldable pub handle_connection : Bytes → Bool → ℕ → ConnectionManager → ConnectionManager
handle_connection address is_connected now m =
    emit
      (record {
        type =
            if is_connected
            then ConnectionEventType.connected
            else ConnectionEventType.disconnected;
        address = address;
        message = if is_connected then "Connected successfully" else "Disconnected";
        timestamp = now;
      })
      m

unfoldable pub handle_disconnection : Bytes → ℕ → ConnectionManager → ConnectionManager
unfolding handle_connection
handle_disconnection address now m = handle_connection address false now m

unfoldable pub handle_error : Bytes → String → ConnectionManager → ConnectionManager
handle_error address message m = record m {
  notices = m.notices ++ (if m.has_error_callback then error_callback address message ∷ [] else []);
}

unfoldable pub handle_connection_failure :
    Bytes → String → ℕ → ConnectionManager → ConnectionManager
unfolding handle_error
handle_connection_failure address reason now m = handle_error address reason (
    emit
      (record {
        type = ConnectionEventType.connection_failed;
        address = address;
        message = reason;
        timestamp = now;
      })
      m)

-- `connectionStates_[address]`, which makes an entry where there is none.
abbrev pub state_of : Bytes → ConnectionManager → ConnectionState
state_of address m = get_or_else (find address m.connection_states) ConnectionState.disconnected

abbrev pub touch : Bytes → ConnectionManager → ConnectionManager
touch address m = record m {
  connection_states = assign address (state_of address m) m.connection_states;
}

abbrev pub set_state : Bytes → ConnectionState → ConnectionManager → ConnectionManager
set_state address state m = record m {
  connection_states = assign address state m.connection_states;
}

-- The rest of `connect` once the attempt has succeeded or failed.
unfoldable pub finish_connect : Bool → Bytes → ℕ → ConnectionManager → ConnectionManager × Bool
finish_connect success address now m =
    if success
    then (
      handle_connection address true now (set_state address ConnectionState.connected m),
      success,
    )
    else (
      handle_connection_failure address "Connection failed" now
          (set_state address ConnectionState.failed m),
      success,
    )

-- The attempt always succeeds.
unfoldable pub connect : Bytes → ℕ → ℕ → ConnectionManager → ConnectionManager × Bool
unfolding finish_connect
connect address port now m =
    if not m.running || (not (validate_address address) || not (validate_port port))
    then (m, false)
    else if is_connected_state (state_of address m)
    then (touch address m, true)
    else finish_connect true address now
        (set_state address ConnectionState.connecting (touch address m))

-- What `disconnect` does with the mutex held.
unfoldable pub drop_connection : Bytes → ℕ → ConnectionManager → ConnectionManager
drop_connection address now m =
    if is_connected_state (state_of address m)
    then handle_disconnection address now (
        set_state address ConnectionState.disconnected
          (set_state address ConnectionState.disconnecting (touch address m)))
    else touch address m

-- The flag says that `connectionsMutex_` is held.
unfoldable pub disconnect : Bool → Bytes → ℕ → ConnectionManager → Outcome ConnectionManager
disconnect held address now m =
    if not m.running
    then returns m
    else lock_guard held (λ _. returns (drop_connection address now m))

unfoldable pub is_connected : Bytes → ConnectionManager → Bool
is_connected address m = elim (find address m.connection_states) [
  | none ↦ false
  | some state ↦ is_connected_state state
]

abbrev pub connected_keys : List (Bytes × ConnectionState) → List Bytes
connected_keys [] = []
connected_keys ((address, state) ∷ rest) =
    let more = connected_keys rest in if is_connected_state state then address ∷ more else more

unfoldable pub get_connected_peers : ConnectionManager → List Bytes
get_connected_peers m = connected_keys m.connection_states

unfoldable pub get_connection_state : Bytes → ConnectionManager → ConnectionState
get_connection_state address m = elim (find address m.connection_states) [
  | none ↦ ConnectionState.disconnected
  | some state ↦ state
]

-- The loop of `stop`, with the mutex held.
unfoldable pub disconnect_each :
    Bool → ℕ → List (Bytes × ConnectionState) → ConnectionManager → Outcome ConnectionManager
disconnect_each held now [] m = returns m
disconnect_each held now ((address, state) ∷ rest) m =
    elim (if is_connected_state state then disconnect held address now m else returns m) [
      | returns m' ↦ disconnect_each held now rest m'
      | deadlock ↦ deadlock
    ]

abbrev pub cleared : Outcome ConnectionManager → Outcome ConnectionManager
cleared (returns m) = returns (record m { connection_states = [] })
cleared deadlock = deadlock

unfoldable pub stop : ℕ → ConnectionManager → Outcome ConnectionManager
unfolding disconnect_each
stop now m =
    if not m.running
    then returns m
    else lock_guard false (λ held. cleared (
        disconnect_each held now m.connection_states
          (record m { running = false; monitoring = false })))

unfoldable pub handle_data_sent : Bytes → Bytes → ℕ → ConnectionManager → ConnectionManager
handle_data_sent address bytes now m = elim (find address m.connection_stats) [
  | none ↦ m
  | some s ↦ record m {
    connection_stats =
        assign address
          (record s {
            bytes_sent = add_u64 s.bytes_sent (length bytes);
            packets_sent = add_u64 s.packets_sent 1;
            last_activity = now;
          })
          m.connection_stats;
  }
]

unfoldable pub handle_data_received : Bytes → Bytes → ConnectionManager → ConnectionManager
handle_data_received address bytes m = record m {
  notices = m.notices ++ (if m.has_data_callback then data_callback address bytes ∷ [] else []);
}

-- The sending always succeeds.
unfoldable pub send : Bytes → Bytes → ℕ → ConnectionManager → ConnectionManager × Bool
send address bytes now m =
    if not m.running || not (is_connected address m)
    then (m, false)
    else (handle_data_sent address bytes now m, true)

-- The loop of `broadcast`; `times` are the readings of the clock, from the `i`-th on.
unfoldable pub send_each :
    List Bytes → Bytes → (ℕ → ℕ) → ℕ → Bool → ConnectionManager → ConnectionManager × Bool
send_each [] bytes times i success m = (m, success)
send_each (address ∷ rest) bytes times i success m =
    let sent = send address bytes (times i) m in
    send_each rest bytes times (ℕ.suc i) (success && sent.1) sent.0

unfoldable pub broadcast : Bytes → (ℕ → ℕ) → ConnectionManager → ConnectionManager × Bool
unfolding send_each
broadcast bytes times m =
    if not m.running then (m, false) else send_each (get_connected_peers m) bytes times 0 true m

-- What is received, the local `data`, is empty.
unfoldable pub receive : Bytes → ConnectionManager → ConnectionManager × Bytes
unfolding handle_data_received
receive address m =
    let bytes = [] in
    if not m.running || not (is_connected address m)
    then (m, [])
    else (if not (is_empty bytes) then handle_data_received address bytes m else m, bytes)
