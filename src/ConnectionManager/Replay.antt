-- ===== src/ConnectionManager/Replay.antt =====
-- What a history of calls of `ConnectionManager` in src/connection/ConnectionManager.cpp comes to on the view of
-- its clients.
use barren_engine.Common.{
  ℕ, suc, Bool, true, false, not, ◌&&◌, ◌||◌, ◌≡◌, refl, ◌∙◌, ap, List, [], ◌∷◌, Bytes,
  if◌then◌else◌, if_cases, Option-cases, inl, inr, Outcome, returns, deadlock, outcome_map, arith,
  find, bytes_key,
}
use barren_engine.ConnectionManager.Types.{ConnectionState, is_connected_state, ConnectionManager}
use barren_engine.ConnectionManager.Operations.{
  initialize, validate_config, start, stop, disconnect_each, disconnect, drop_connection,
  is_connected, get_connected_peers, send, send_each, broadcast, receive, handle_data_sent,
}
use barren_engine.ConnectionManager.Settings.{
  reset_stats, start_monitoring, stop_monitoring, set_connection_timeout,
  set_connection_event_callback, set_max_retries, set_keep_alive_interval, set_max_packet_size,
  set_monitoring_interval, enable_compression, enable_encryption, enable_reliability,
  enable_ordering, enable_sequencing, set_data_callback, set_error_callback,
}
use barren_engine.ConnectionManager.Calls.{
  Call, initializes, starts, resets, monitoring_stops, stops, monitoring_starts, connects,
  disconnects, sends, broadcasts, receives, sets_timeout, sets_event_callback, sets_retries,
  sets_keep_alive, sets_packet_size, sets_monitoring_interval, compresses, encrypts, makes_reliable,
  orders, sequences, sets_data_callback, sets_error_callback, step, run,
}
use barren_engine.ConnectionManager.Views.{
  View, view_ext, view, opened, closed, can_open, connect-view, drop_connection-view,
}

-- The calls on the view alone.
unfoldable pub replay_call : View → Call → View
replay_call v starts = record v { running = true }
replay_call v (stops now) = if v.running then record v { running = false; up = λ a. false } else v
replay_call v (connects address port now) =
    if can_open address port v then opened address now v else v
replay_call v (disconnects address now) =
    if v.running && v.up address then closed address now v else v
replay_call v _ = v

unfoldable pub replay : View → List Call → View
replay v [] = v
replay v (call ∷ calls) = replay (replay_call v call) calls

-- `disconnect` does nothing as soon as the manager is not running.
disconnect_stopped :
    (held : Bool) (address : Bytes) (now : ℕ) (m : ConnectionManager)
    → m.running ≡ false
    → disconnect held address now m ≡ returns m
unfolding disconnect
disconnect_stopped held address now m h = simp h

disconnect_each-returns :
    (held : Bool) (now : ℕ) (entries : List (Bytes × ConnectionState)) (m : ConnectionManager)
    → m.running ≡ false
    → disconnect_each held now entries m ≡ returns m
unfolding disconnect_each
disconnect_each-returns held now [] m h = refl
disconnect_each-returns held now ((address, state) ∷ rest) m h =
    let e =
      if_cases (λ o. o ≡ returns m) (is_connected_state state) (disconnect held address now m)
        (returns m) (λ c. disconnect_stopped held address now m h) (λ c. refl) in
    rw (disconnect_each, e) (disconnect_each-returns held now rest m h)

pub stop_lem :
    (now : ℕ) (m : ConnectionManager)
    → stop now m
      ≡ returns (
          if m.running
          then record m { running = false; monitoring = false; connection_states = [] }
          else m)
unfolding stop
stop_lem now m =
    if_cases {A = ConnectionManager} (λ n. stop now m ≡ returns n) m.running _ _
      (λ e. simp (
        e,
        disconnect_each-returns true now m.connection_states
            (record m { running = false; monitoring = false }) refl,
      ))
      (λ e. simp e)

handle_data_sent-view :
    (address bytes : Bytes) (now : ℕ) (m : ConnectionManager)
    → view (handle_data_sent address bytes now m) ≡ view m
unfolding handle_data_sent is_connected
handle_data_sent-view address bytes now m = elim (Option-cases (find address m.connection_stats)) [
  | inl e ↦ rw (handle_data_sent, e) refl
  | inr (s, e) ↦ rw (handle_data_sent, e) refl
]

send-view :
    (address bytes : Bytes) (now : ℕ) (m : ConnectionManager)
    → view (send address bytes now m).0 ≡ view m
unfolding send
send-view address bytes now m =
    if_cases {A = ConnectionManager × Bool} (λ r. view r.0 ≡ view m)
      (not m.running || not (is_connected address m)) _ _ (λ e. refl)
      (λ e. handle_data_sent-view address bytes now m)

send_each-view :
    (peers : List Bytes) (bytes : Bytes) (times : ℕ → ℕ) (i : ℕ) (success : Bool)
    (m : ConnectionManager)
    → view (send_each peers bytes times i success m).0 ≡ view m
unfolding send_each
send_each-view [] bytes times i success m = refl
send_each-view (peer ∷ peers) bytes times i success m =
    let sent = send peer bytes (times i) m in
    send_each-view peers bytes times (suc i) (success && sent.1) sent.0
    ∙ send-view peer bytes (times i) m

broadcast-view :
    (bytes : Bytes) (times : ℕ → ℕ) (m : ConnectionManager)
    → view (broadcast bytes times m).0 ≡ view m
unfolding broadcast
broadcast-view bytes times m =
    if_cases {A = ConnectionManager × Bool} (λ r. view r.0 ≡ view m) (not m.running) _ _ (λ e. refl)
      (λ e. send_each-view (get_connected_peers m) bytes times 0 true m)

stop-view :
    (now : ℕ) (m : ConnectionManager)
    → outcome_map view (stop now m) ≡ returns (replay_call (view m) (stops now))
unfolding replay_call is_connected find
stop-view now m = rw (stop_lem now m) (
    if_cases {A = ConnectionManager}
      (λ n. Outcome.returns (view n) ≡ returns (replay_call (view m) (stops now))) m.running _ _
      (λ e. simp e) (λ e. simp e))

if_running :
    (r u : Bool) (kept dropped : ConnectionManager) (v w : View)
    → view kept ≡ v
    → view dropped ≡ (if u then w else v)
    → outcome_map view (if not r then returns kept else returns dropped)
      ≡ returns (if r && u then w else v)
if_running true u kept dropped v w h k = ap returns k
if_running false u kept dropped v w h k = ap returns h

disconnect-view :
    (address : Bytes) (now : ℕ) (m : ConnectionManager)
    → outcome_map view (disconnect false address now m)
      ≡ returns (replay_call (view m) (disconnects address now))
unfolding disconnect replay_call
disconnect-view address now m =
    if_running m.running (is_connected address m) m (drop_connection address now m) (view m)
      (closed address now (view m)) refl (drop_connection-view address now m)

start-view : (m : ConnectionManager) → view (start m).0 ≡ record (view m) { running = true }
unfolding start is_connected
start-view m =
    if_cases {A = ConnectionManager × Bool} (λ r. view r.0 ≡ record (view m) { running = true })
      m.running _ _ (λ e. view_ext _ _ e (λ a. refl) refl) (λ e. refl)

step-view :
    (call : Call) (m : ConnectionManager)
    → outcome_map view (step m call) ≡ returns (replay_call (view m) call)
unfolding step replay_call initialize receive start_monitoring stop_monitoring reset_stats
    set_connection_timeout set_connection_event_callback set_max_retries set_keep_alive_interval
    set_max_packet_size set_monitoring_interval enable_compression enable_encryption
    enable_reliability enable_ordering enable_sequencing set_data_callback set_error_callback
    is_connected
step-view (initializes config) m =
    if_cases {A = ConnectionManager × Bool} (λ r. Outcome.returns (view r.0) ≡ returns (view m))
      (not (validate_config config)) _ _ (λ e. refl) (λ e. refl)
step-view starts m = ap returns (start-view m)
step-view resets m = refl
step-view monitoring_stops m = refl
step-view (stops now) m = stop-view now m
step-view (monitoring_starts now) m =
    if_cases {A = ConnectionManager} (λ n. Outcome.returns (view n) ≡ returns (view m))
      (not m.running) _ _ (λ e. refl) (λ e. refl)
step-view (connects address port now) m = ap returns (connect-view address port now m)
step-view (disconnects address now) m = disconnect-view address now m
step-view (sends address bytes now) m = ap returns (send-view address bytes now m)
step-view (broadcasts bytes times) m = ap returns (broadcast-view bytes times m)
step-view (receives address) m =
    if_cases {A = ConnectionManager × Bytes} (λ r. Outcome.returns (view r.0) ≡ returns (view m))
      (not m.running || not (is_connected address m)) _ _ (λ e. refl) (λ e. refl)
step-view (sets_timeout timeout_ms) m = refl
step-view (sets_event_callback callback) m = refl
step-view (sets_retries max_retries) m = refl
step-view (sets_keep_alive interval_ms) m = refl
step-view (sets_packet_size size) m = refl
step-view (sets_monitoring_interval interval_ms) m = refl
step-view (compresses enable) m = refl
step-view (encrypts enable) m = refl
step-view (makes_reliable enable) m = refl
step-view (orders enable) m = refl
step-view (sequences enable) m = refl
step-view (sets_data_callback callback) m = refl
step-view (sets_error_callback callback) m = refl

returned_view : View → Outcome View → View
returned_view v (returns w) = w
returned_view v deadlock = v

then_run :
    (o : Outcome ConnectionManager) (v : View) (k : ConnectionManager → Outcome ConnectionManager)
    (g : View → View)
    → ((m : ConnectionManager) → outcome_map view (k m) ≡ returns (g (view m)))
    → outcome_map view o ≡ returns v
    → outcome_map view (elim o [ returns m' ↦ k m' | deadlock ↦ deadlock ]) ≡ returns (g v)
unfolding returned_view
then_run (returns m) v k g h e = h m ∙ ap (λ x. Outcome.returns (g (returned_view v x))) e
then_run deadlock v k g h e = ground arith

-- Every history of the public calls that change a manager returns, `stop` and `disconnect` of it without
-- waiting for ever for the mutex that both take, and leads to the view that the same calls make of its view: `start` sets it running, `connect` to a valid
-- address and port opens a connection that is not open and reports it, `disconnect` closes an open
-- connection and reports it, `stop` closes all connections and reports none, and the other calls change nothing of it.
pub run-view :
    (calls : List Call) (m : ConnectionManager)
    → outcome_map view (run m calls) ≡ returns (replay (view m) calls)
unfolding run replay
run-view [] m = refl
run-view (call ∷ calls) m =
    then_run (step m call) (replay_call (view m) call) (λ n. run n calls) (λ v. replay v calls)
      (run-view calls) (step-view call m)
