-- ===== src/ConnectionManager/Counts.antt =====
-- The statistics of `ConnectionManager` in src/connection/ConnectionManager.cpp over a history of public calls.
use barren_engine.Common.{
  ℕ, suc, Bool, true, not, ◌&&◌, ◌||◌, ◌≡◌, refl, ◌∙◌, List, [], ◌∷◌, Bytes, if_cases, Outcome,
  returns, find, bytes_key,
}
use barren_engine.ConnectionManager.Types.{
  is_connected_state, ConnectionConfig, zero_stats, ConnectionManager,
}
use barren_engine.ConnectionManager.Operations.{
  new_manager, initialize, validate_config, start, stop, connect, finish_connect, handle_connection,
  handle_disconnection, disconnect, drop_connection, validate_port, is_connected,
  get_connected_peers, send, send_each, broadcast, receive, handle_data_sent, state_of,
}
use barren_engine.Address.{validate_address}
use barren_engine.ConnectionManager.Settings.{
  reset_stats, get_stats, get_connection_stats, start_monitoring, stop_monitoring,
  set_connection_timeout, set_connection_event_callback, set_max_retries, set_keep_alive_interval,
  set_max_packet_size, set_monitoring_interval, enable_compression, enable_encryption,
  enable_reliability, enable_ordering, enable_sequencing, set_data_callback, set_error_callback,
}
use barren_engine.ConnectionManager.Calls.{
  Call, initializes, starts, resets, monitoring_stops, stops, monitoring_starts, connects,
  disconnects, sends, broadcasts, receives, sets_timeout, sets_event_callback, sets_retries,
  sets_keep_alive, sets_packet_size, sets_monitoring_interval, compresses, encrypts, makes_reliable,
  orders, sequences, sets_data_callback, sets_error_callback, step, run,
}
use barren_engine.ConnectionManager.Replay.{stop_lem}

-- No connection has statistics, and the sums are zero.
pub record IsUncounted (m : ConnectionManager) : Type 0 where
  pub nowhere : m.connection_stats ≡ []
  pub nothing : m.global_stats ≡ zero_stats

handle_data_sent-IsUncounted :
    (address bytes : Bytes) (now : ℕ) (m : ConnectionManager)
    → IsUncounted m
    → handle_data_sent address bytes now m ≡ m
unfolding handle_data_sent find
handle_data_sent-IsUncounted address bytes now m u = simp (handle_data_sent, u.nowhere)

send-IsUncounted :
    (address bytes : Bytes) (now : ℕ) (m : ConnectionManager)
    → IsUncounted m
    → IsUncounted (send address bytes now m).0
unfolding send
send-IsUncounted address bytes now m u =
    if_cases {A = ConnectionManager × Bool} (λ r. IsUncounted r.0)
      (not m.running || not (is_connected address m)) _ _ (λ e. u)
      (λ e. rw (handle_data_sent-IsUncounted address bytes now m u) u)

send_each-IsUncounted :
    (peers : List Bytes) (bytes : Bytes) (times : ℕ → ℕ) (i : ℕ) (success : Bool)
    (m : ConnectionManager)
    → IsUncounted m
    → IsUncounted (send_each peers bytes times i success m).0
unfolding send_each
send_each-IsUncounted [] bytes times i success m u = u
send_each-IsUncounted (peer ∷ peers) bytes times i success m u =
    let sent = send peer bytes (times i) m in
    send_each-IsUncounted peers bytes times (suc i) (success && sent.1) sent.0
      (send-IsUncounted peer bytes (times i) m u)

broadcast-IsUncounted :
    (bytes : Bytes) (times : ℕ → ℕ) (m : ConnectionManager)
    → IsUncounted m
    → IsUncounted (broadcast bytes times m).0
unfolding broadcast
broadcast-IsUncounted bytes times m u =
    if_cases {A = ConnectionManager × Bool} (λ r. IsUncounted r.0) (not m.running) _ _ (λ e. u)
      (λ e. send_each-IsUncounted (get_connected_peers m) bytes times 0 true m u)

connect-IsUncounted :
    (address : Bytes) (port now : ℕ) (m : ConnectionManager)
    → IsUncounted m
    → IsUncounted (connect address port now m).0
unfolding connect finish_connect handle_connection
connect-IsUncounted address port now m u =
    if_cases {A = ConnectionManager × Bool} (λ r. IsUncounted r.0)
      (not m.running || (not (validate_address address) || not (validate_port port))) _ _ (λ e. u)
      (λ e.
        if_cases {A = ConnectionManager × Bool} (λ r. IsUncounted r.0)
          (is_connected_state (state_of address m)) _ _
          (λ f. record { nowhere = u.nowhere; nothing = u.nothing })
          (λ f. record { nowhere = u.nowhere; nothing = u.nothing }))

drop_connection-IsUncounted :
    (address : Bytes) (now : ℕ) (m : ConnectionManager)
    → IsUncounted m
    → IsUncounted (drop_connection address now m)
unfolding drop_connection handle_disconnection handle_connection
drop_connection-IsUncounted address now m u =
    if_cases {A = ConnectionManager} (λ r. IsUncounted r) (is_connected_state (state_of address m))
      _ _ (λ e. record { nowhere = u.nowhere; nothing = u.nothing })
      (λ e. record { nowhere = u.nowhere; nothing = u.nothing })

-- The call returns, and what it leaves is uncounted.
abbrev Leaves : Outcome ConnectionManager → Type 0
Leaves o = (m : ConnectionManager) × (o ≡ returns m) × IsUncounted m

stop-Leaves : (now : ℕ) (m : ConnectionManager) → IsUncounted m → Leaves (stop now m)
stop-Leaves now m u = (
  _,
  stop_lem now m,
  if_cases {A = ConnectionManager} (λ r. IsUncounted r) m.running _ _
      (λ e. record { nowhere = u.nowhere; nothing = u.nothing }) (λ e. u),
)

-- A call that returns and leaves the statistics as they are.
settled :
    (m n : ConnectionManager)
    → n.connection_stats ≡ m.connection_stats
    → n.global_stats ≡ m.global_stats
    → IsUncounted m
    → Leaves (returns n)
settled m n p q u = (n, refl, record { nowhere = p ∙ u.nowhere; nothing = q ∙ u.nothing })

step-Leaves : (call : Call) (m : ConnectionManager) → IsUncounted m → Leaves (step m call)
unfolding step initialize start receive start_monitoring stop_monitoring reset_stats
    set_connection_timeout set_connection_event_callback set_max_retries set_keep_alive_interval
    set_max_packet_size set_monitoring_interval enable_compression enable_encryption
    enable_reliability enable_ordering enable_sequencing set_data_callback set_error_callback
    disconnect
step-Leaves (initializes config) m u = (
  _,
  refl,
  if_cases {A = ConnectionManager × Bool} (λ r. IsUncounted r.0) (not (validate_config config)) _ _
      (λ e. u) (λ e. record { nowhere = u.nowhere; nothing = u.nothing }),
)
step-Leaves starts m u = (
  _,
  refl,
  if_cases {A = ConnectionManager × Bool} (λ r. IsUncounted r.0) m.running _ _ (λ e. u)
      (λ e. record { nowhere = u.nowhere; nothing = u.nothing }),
)
step-Leaves resets m u = (_, refl, record { nowhere = refl; nothing = refl })
step-Leaves monitoring_stops m u = (_, refl, record { nowhere = u.nowhere; nothing = u.nothing })
step-Leaves (stops now) m u = stop-Leaves now m u
step-Leaves (monitoring_starts now) m u = (
  _,
  refl,
  if_cases {A = ConnectionManager} IsUncounted (not m.running) _ _ (λ e. u)
      (λ e. record { nowhere = u.nowhere; nothing = u.nothing }),
)
step-Leaves (connects address port now) m u = (_, refl, connect-IsUncounted address port now m u)
step-Leaves (disconnects address now) m u =
    if_cases {A = Outcome ConnectionManager} Leaves (not m.running) _ _ (λ e. (m, refl, u))
      (λ e. (_, refl, drop_connection-IsUncounted address now m u))
step-Leaves (sends address bytes now) m u = (_, refl, send-IsUncounted address bytes now m u)
step-Leaves (broadcasts bytes times) m u = (_, refl, broadcast-IsUncounted bytes times m u)
step-Leaves (receives address) m u = (
  _,
  refl,
  if_cases {A = ConnectionManager × Bytes} (λ r. IsUncounted r.0)
      (not m.running || not (is_connected address m)) _ _ (λ e. u) (λ e. u),
)
step-Leaves (sets_timeout timeout_ms) m u = settled m _ refl refl u
step-Leaves (sets_event_callback callback) m u = settled m _ refl refl u
step-Leaves (sets_retries max_retries) m u = settled m _ refl refl u
step-Leaves (sets_keep_alive interval_ms) m u = settled m _ refl refl u
step-Leaves (sets_packet_size size) m u = settled m _ refl refl u
step-Leaves (sets_monitoring_interval interval_ms) m u = settled m _ refl refl u
step-Leaves (compresses enable) m u = settled m _ refl refl u
step-Leaves (encrypts enable) m u = settled m _ refl refl u
step-Leaves (makes_reliable enable) m u = settled m _ refl refl u
step-Leaves (orders enable) m u = settled m _ refl refl u
step-Leaves (sequences enable) m u = settled m _ refl refl u
step-Leaves (sets_data_callback callback) m u = settled m _ refl refl u
step-Leaves (sets_error_callback callback) m u = settled m _ refl refl u

run-Leaves : (calls : List Call) (m : ConnectionManager) → IsUncounted m → Leaves (run m calls)
unfolding run
run-Leaves [] m u = (m, refl, u)
run-Leaves (call ∷ calls) m u =
    let (n, e, v) = step-Leaves call m u in
    let (k, f, w) = run-Leaves calls n v in (k, rw (run, e) f, w)

get_connection_stats-IsUncounted :
    (address : Bytes) (m : ConnectionManager)
    → IsUncounted m
    → get_connection_stats address m ≡ zero_stats
unfolding get_connection_stats find
get_connection_stats-IsUncounted address m u = rw (get_connection_stats, u.nowhere) refl

-- Every history of the public calls that change a manager, on a new one, returns, whatever is sent over its
-- connections, and leaves a manager whose statistics, the sums and those of each address, are all zero.
pub run-new_manager :
    (memory : ConnectionConfig) (calls : List Call)
    → (m : ConnectionManager) × (run (new_manager memory) calls ≡ returns m)
      × ((get_stats m ≡ zero_stats)
          × ((address : Bytes) → get_connection_stats address m ≡ zero_stats))
unfolding new_manager get_stats
run-new_manager memory calls =
    let (m, e, u) =
      run-Leaves calls (new_manager memory) (record { nowhere = refl; nothing = refl }) in
    (m, e, (u.nothing, λ address. get_connection_stats-IsUncounted address m u))
