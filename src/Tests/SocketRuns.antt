-- ===== src/Tests/SocketRuns.antt =====
-- Runs of the operations of src/virtual/VirtualSocket.cpp.
use barren_engine.Common.{
  ℕ, ◌+◌, ◌≡◌, refl, Bool, true, false, none, some, [], ◌∷◌, Bytes, IsByte, All, ◌==◌, arith,
  if◌then◌else◌, find, nat_eq,
}
use barren_engine.VirtualSocket.{medium_priority, reliable, QosProfile, VirtualSocket, Chance}
use barren_engine.VirtualSocket.Sending.{send_to, receive_from, packet_of}
use barren_engine.VirtualSocket.Queues.{send_to_plain}
use barren_engine.VirtualSocket.History.{
  connects, sends, closes, run, IsValid, run_socket-IsValid, receive_from-run,
}
use barren_engine.VirtualSocket.Checksum.{checksum_step, checksum_from, calculate_checksum}

abbrev profile : QosProfile
profile = record {
  priority = medium_priority;
  reliability = reliable;
  max_retries = 3;
  timeout = 1000;
  compression = true;
  encryption = true;
}

abbrev chance : Chance
chance = record {
  lost = false;
  corrupted = false;
  index = 0;
  byte = 0;
  delayed = λ t. t + 5;
  reordered = true;
  limited = false;
  exceeds = λ n. false;
  slowed = λ n t. t;
}

abbrev socket_of : Bool → VirtualSocket
socket_of bound = record {
  is_bound = bound;
  is_connected = false;
  is_listening = false;
  simulation_enabled = false;
  local_port = 0;
  remote_address = [];
  remote_port = 0;
  mtu = 1500;
  statistics = record {
    packets_sent = 0;
    packets_received = 0;
    packets_lost = 0;
    packets_corrupted = 0;
    packets_reordered = 0;
    bytes_sent = 0;
    bytes_received = 0;
    current_bandwidth = 0;
  };
  send_queues = [];
  receive_queue = [];
  last_bandwidth_update = 0;
  bytes_in_current_window = 0;
}

socket-IsValid : IsValid (socket_of true)
socket-IsValid = record {
  connected = λ e. refl;
  listening = λ e. refl;
  none_received = refl;
  counted = refl;
}

abbrev payload : Bytes
payload = 1 ∷ 2 ∷ 3 ∷ 4 ∷ []

payload_bytes : All IsByte payload
payload_bytes = (omega arith, (omega arith, (omega arith, (omega arith, tt))))

calculate_checksum_run : calculate_checksum (1 ∷ 2 ∷ 3 ∷ 4 ∷ []) ≡ 0x020305
unfolding calculate_checksum checksum_from checksum_step
calculate_checksum_run = refl

run_socket-IsValid_example :
    IsValid (
      run (socket_of true) (connects (10 ∷ []) 80 ∷ sends chance 0 7 payload profile ∷ closes ∷ []))
run_socket-IsValid_example =
    run_socket-IsValid (socket_of true)
      (connects (10 ∷ []) 80 ∷ sends chance 0 7 payload profile ∷ closes ∷ []) socket-IsValid

receive_from-run_example :
    let s = run (socket_of true) (connects (10 ∷ []) 80 ∷ sends chance 0 7 payload profile ∷ []) in
    receive_from s ≡ (s, none, if s.is_bound then some 0 else none)
receive_from-run_example =
    receive_from-run (socket_of true)
      (connects (10 ∷ []) 80 ∷ sends chance 0 7 payload profile ∷ []) socket-IsValid

send_to_plain_example :
    let (s', sent) = send_to chance 0 7 payload (10 ∷ []) 80 profile (socket_of true) in
    (sent ≡ some 4)
    × ((k : ℕ)
        → find k s'.send_queues ≡ (
            if 2 == k
            then some (packet_of payload (10 ∷ []) 80 profile 0 7 ∷ [])
            else find k (socket_of true).send_queues))
    × (s'.statistics.packets_sent ≡ 1)
unfolding find
send_to_plain_example =
    send_to_plain chance 0 7 payload (10 ∷ []) 80 profile (socket_of true) refl refl (omega arith)
      (omega arith)
