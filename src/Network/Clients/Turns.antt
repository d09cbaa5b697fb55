-- ===== src/Network/Clients/Turns.antt =====
-- Lemmas on the turn of `networkLoop` and on `checkConnectionTimeouts` of src/NetworkManager.cpp.
use barren_engine.Common.{
  ℕ, ◌+◌, ◌%◌, ◌^◌, ◌<◌, ◌≡◌, refl, ap, ◌∙◌, true, false, some, List, [], ◌∷◌, arith, if◌then◌else◌,
  find, find-erase_all, contains, if_cases, is_empty, nat_eq, add_u64,
}
use barren_engine.Connection.{Connection, update, get_packets_to_send}
use barren_engine.Connection.Delivery.{get_packets_to_send-update}
use barren_engine.Network.Manager.{NetworkManager}
use barren_engine.Network.Clients.{
  Readings, total_size, serve, update_statistics, network_turn, is_idle, timeout_clients,
  check_connection_timeouts, is_client_connected,
}

-- The size of all that waits in outgoing queues.
abbrev pub outgoing_size : List (ℕ × Connection) → ℕ
outgoing_size [] = 0
outgoing_size ((k, c) ∷ entries) = total_size c.outgoing + outgoing_size entries

serve_sent :
    (readings : ℕ → Readings) (i : ℕ) (entries : List (ℕ × Connection)) (sent : ℕ)
    → ((j k : ℕ) → (readings j).in_send k < (readings j).now + 10 ^ 9)
    → (serve readings i entries sent).1 % 2 ^ 64 ≡ (sent + outgoing_size entries) % 2 ^ 64
unfolding serve
serve_sent readings i [] sent early = omega arith
serve_sent readings i ((k, c) ∷ entries) sent early =
    let r = readings i in
    let packets = get_packets_to_send-update c r.stats_now r.now r.in_update r.in_send (early i) in
    let rest =
      serve_sent readings (i + 1) entries
        (add_u64 sent
          (total_size (get_packets_to_send (update c r.stats_now r.now r.in_update) r.in_send).1))
        early in
    omega (arith, ap total_size packets)

update_statistics_sent :
    (m : NetworkManager) → (update_statistics m).bytes_sent % 2 ^ 64 ≡ m.bytes_sent % 2 ^ 64
unfolding update_statistics
update_statistics_sent m =
    if_cases {A = NetworkManager} (λ m'. m'.bytes_sent % 2 ^ 64 ≡ m.bytes_sent % 2 ^ 64)
      (is_empty m.connections) _ _ (λ e. refl) (λ e. refl)

-- In a turn of the network loop only the packets of the outgoing queues, the unreliable ones, count as
-- sent, modulo 2 ^ 64, if each `getPacketsToSend` ends less than a second after its `update` began:
-- what was queued as reliable adds nothing.
pub network_turn_sent :
    (m : NetworkManager) (readings : ℕ → Readings)
    → ((j k : ℕ) → (readings j).in_send k < (readings j).now + 10 ^ 9)
    → (network_turn m readings).bytes_sent % 2 ^ 64
      ≡ (m.bytes_sent + outgoing_size m.connections) % 2 ^ 64
unfolding network_turn
network_turn_sent m readings early =
    update_statistics_sent _ ∙ serve_sent readings 0 m.connections m.bytes_sent early

timeout_clients-contains :
    (m : NetworkManager) (now k last : ℕ) (entries : List (ℕ × ℕ))
    → find k entries ≡ some last
    → is_idle m now last ≡ true
    → contains k (timeout_clients m now entries) ≡ true
unfolding find timeout_clients
timeout_clients-contains m now k last [] e x = cc
timeout_clients-contains m now k last ((j, w) ∷ entries) e x =
    ground (arith, timeout_clients-contains m now k last entries)

-- A client is connected after the check exactly if it was and is not on the list of the idle ones.
pub check_connection_timeouts_lem :
    (m : NetworkManager) (now k : ℕ)
    → is_client_connected (check_connection_timeouts m now) k ≡ (
        if contains k (timeout_clients m now m.last_activity)
        then false
        else is_client_connected m k)
unfolding check_connection_timeouts is_client_connected
check_connection_timeouts_lem m now k =
    ground (arith, find-erase_all (timeout_clients m now m.last_activity) k m.connections)

-- A client whose last activity is as old as the timeout is not connected after the check.
pub check_connection_timeouts_idle :
    (m : NetworkManager) (now k last : ℕ)
    → find k m.last_activity ≡ some last
    → is_idle m now last ≡ true
    → is_client_connected (check_connection_timeouts m now) k ≡ false
check_connection_timeouts_idle m now k last e idle = ground (
  arith,
  check_connection_timeouts_lem m now k,
  timeout_clients-contains m now k last m.last_activity e idle,
)
