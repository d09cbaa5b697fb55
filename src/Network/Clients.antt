-- ===== src/Network/Clients.antt =====
-- The connections of src/NetworkManager.cpp: `startServer`, `connect`, `disconnect`, the clients, the turn
-- of `networkLoop`, `checkConnectionTimeouts` and `handleKeepAlive`.
pub mod Turns
use barren_engine.Common.{
  ℕ, zero, suc, ◌+◌, ◌-◌, ◌*◌, ◌^◌, Bool, true, false, Option, none, some, List, [], ◌∷◌, ◌++◌,
  Bytes, map, is_empty, length, leb, if◌then◌else◌, find, assign, erase, erase_all, nat_eq, is_some,
  add_u64,
}
use barren_engine.Connection.{
  Connection, Packet, reliable, new_connection, update, get_packets_to_send,
}
use barren_engine.Network.Manager.{NetworkMessage, NetworkManager, Environment}
use barren_engine.Network.Sending.{
  Sent, send, returned, raised, no_return, divided_by_zero, out_of_fuel,
}

unfoldable pub start_server : NetworkManager → NetworkManager
start_server m = record m { running = true }

-- The address and the port are not used.
unfoldable pub connect : NetworkManager → ℕ → NetworkManager
connect m now = record m {
  connections = assign 0 (new_connection m.config.buffer_size now) m.connections;
  running = true;
}

unfoldable pub disconnect : NetworkManager → NetworkManager
disconnect m = record m { running = false }

unfoldable pub disconnect_client : NetworkManager → ℕ → NetworkManager
disconnect_client m client = record m { connections = erase client m.connections }

unfoldable pub is_client_connected : NetworkManager → ℕ → Bool
is_client_connected m client = is_some (find client m.connections)

unfoldable pub get_connected_clients : NetworkManager → List ℕ
get_connected_clients m = map (λ e. e.0) m.connections

-- The clock readings of `update` and of `getPacketsToSend` for one connection.
pub record Readings : Type 0 where
  pub stats_now : ℕ
  pub now : ℕ
  pub in_update : ℕ → ℕ
  pub in_send : ℕ → ℕ

unfoldable pub total_size : List Packet → ℕ
total_size [] = 0
total_size (p ∷ ps) = length p.bytes + total_size ps

-- The loop over the connections, with the number of bytes sent so far.
unfoldable pub serve : (ℕ → Readings) → ℕ → List (ℕ × Connection) → ℕ → List (ℕ × Connection) × ℕ
serve readings i [] sent = ([], sent)
serve readings i ((k, c) ∷ entries) sent =
    let r = readings i in
    let (c', packets) = get_packets_to_send (update c r.stats_now r.now r.in_update) r.in_send in
    let rest = serve readings (i + 1) entries (add_u64 sent (total_size packets)) in
    ((k, c') ∷ rest.0, rest.1)

-- The round trip times and the losses of the connections, if there is one.
unfoldable pub update_statistics : NetworkManager → NetworkManager
update_statistics m = if is_empty m.connections then m else record m {
  average_latency = map (λ e. e.1.rtt) m.connections;
  packet_loss = map (λ e. e.1.packet_loss) m.connections;
}

-- One turn of `networkLoop` while the manager runs.
unfoldable pub network_turn : NetworkManager → (ℕ → Readings) → NetworkManager
network_turn m readings =
    let (connections, sent) = serve readings 0 m.connections m.bytes_sent in
    update_statistics (record m { connections = connections; bytes_sent = sent })

-- The clients whose last activity is as old as the timeout.
unfoldable pub is_idle : NetworkManager → ℕ → ℕ → Bool
is_idle m now last = leb (last + m.config.connection_timeout * 10 ^ 6) now

unfoldable pub timeout_clients : NetworkManager → ℕ → List (ℕ × ℕ) → List ℕ
timeout_clients m now [] = []
timeout_clients m now ((client, last) ∷ entries) =
    let rest = timeout_clients m now entries in if is_idle m now last then client ∷ rest else rest

unfoldable pub check_connection_timeouts : NetworkManager → ℕ → NetworkManager
check_connection_timeouts m now = record m {
  connections = erase_all (timeout_clients m now m.last_activity) m.connections;
}

abbrev pub then_keep : ℕ → Sent → Sent
then_keep now (returned m r) = returned (record m { last_keep_alive = now }) r
then_keep now (raised e) = raised e
then_keep now no_return = no_return
then_keep now divided_by_zero = divided_by_zero
then_keep now out_of_fuel = out_of_fuel

-- `memory` gives the fields of the message that are not written.
unfoldable pub handle_keep_alive :
    ℕ → ℕ → (ℕ → Environment) → NetworkMessage → NetworkManager → ℕ → Sent
handle_keep_alive depth fuel env memory m now =
    let message = record memory { bytes = 0 ∷ []; reliability = reliable } in
    let sent = send depth fuel env m message in
    if leb (m.config.keep_alive_interval * 10 ^ 6) (now - m.last_keep_alive)
    then then_keep now sent
    else returned m none

unfoldable pub set_message_callback : Bool → NetworkManager → NetworkManager
set_message_callback callback m = record m { has_message_callback = callback }

unfoldable pub get_bytes_sent : NetworkManager → ℕ
get_bytes_sent m = m.bytes_sent

unfoldable pub get_bytes_received : NetworkManager → ℕ
get_bytes_received m = m.bytes_received
