-- ===== src/Tests/NetworkRuns.antt =====
-- Runs of the operations of src/NetworkManager.cpp.
use barren_engine.Common.{
  ℕ, ◌*◌, ◌%◌, ◌^◌, ◌≡◌, ◌↔◌, ◌≢◌, refl, ap, true, false, none, some, List, [], ◌∷◌, length, get_or,
  replicate, arith, find, nat_eq,
}
use barren_engine.Compression.{plain}
use barren_engine.Connection.{reliable, unreliable, new_connection, queue_packet, Connection}
use barren_engine.Crypto.Modes.{cbc}
use barren_engine.Network.Manager.{
  udp, NetworkConfig, NetworkMessage, FragmentInfo, NetworkManager, Environment,
}
use barren_engine.Network.Fragments.{fragment_message, reassemble_fragments}
use barren_engine.Network.Fragments.RoundTrip.{reassemble_fragments-fragment_message}
use barren_engine.Network.Sending.{returned, send}
use barren_engine.Network.Sending.Totals.{IsPlain, send_lem}
use barren_engine.Network.Receiving.{out_of_bounds, cleanup_expired_fragments}
use barren_engine.Network.Receiving.Messages.{unexpired, cleanup_expired_fragments_lem}
use barren_engine.Network.Receiving.Packets.{Packet, process_all, has_fragment, process_all_iff}
use barren_engine.Network.Clients.{is_idle}

abbrev plain_config : NetworkConfig
plain_config = record {
  protocol = udp;
  port = 7777;
  max_connections = 32;
  buffer_size = 4096;
  enable_compression = false;
  compression_algorithm = plain;
  enable_encryption = false;
  encryption_mode = cbc;
  encryption_key = [];
  max_packet_size = 1400;
  fragment_size = 3;
  fragment_timeout = 5000;
  connection_timeout = 30000;
  keep_alive_interval = 10000;
  enable_packet_validation = false;
  enable_packet_logging = false;
}

plain_config-IsPlain : IsPlain plain_config
plain_config-IsPlain = record { uncompressed = refl; unencrypted = refl }

abbrev message : NetworkMessage
message = record {
  bytes = 1 ∷ 2 ∷ 3 ∷ 4 ∷ 5 ∷ [];
  timestamp = 100;
  reliability = reliable;
  message_id = 42;
  fragment_index = 0;
  total_fragments = 0;
  is_fragment = false;
}

abbrev info_of : List NetworkMessage → FragmentInfo
info_of fragments = record {
  fragments = fragments;
  timestamp = 0;
  total_fragments = 2;
  received_fragments = length fragments;
}

abbrev waiting : Connection
waiting = queue_packet (new_connection 1400 0) (8 ∷ 9 ∷ []) unreliable 1 2

abbrev manager : NetworkManager
manager = record {
  config = plain_config;
  running = true;
  message_queue = [];
  connections = (6, waiting) ∷ [];
  bytes_sent = 10;
  bytes_received = 0;
  average_latency = [];
  packet_loss = [];
  fragment_map = (42, info_of []) ∷ [];
  next_message_id = 43;
  last_keep_alive = 0;
  last_activity = (6, 0) ∷ [];
  packet_validation_enabled = false;
  packet_logging_enabled = false;
  has_message_callback = true;
  called_back = [];
}

abbrev environment : Environment
environment = record {
  codecs = record {
    lz4_compress = λ bytes. none;
    lz4_decompress = λ bytes size. none;
    zstd_compress = λ bytes. none;
    zstd_content_size = λ bytes. none;
    zstd_decompress = λ bytes size. none;
    worthwhile = λ a b. false;
  };
  random = λ i. i % 256;
  leftover = record { previous = replicate 4 0; tag = replicate 16 0 };
}

not_empty : message.bytes ≢ []
not_empty e =
    let f : ℕ = get_or message.bytes 0 0 in
    let h : f ≡ 0 = ap (λ bs. get_or bs 0 0) e in omega arith

reassemble_fragments-fragment_message_example :
    reassemble_fragments message (info_of (fragment_message 2 message))
    ≡ some (record message { bytes = 1 ∷ 2 ∷ 3 ∷ 4 ∷ 5 ∷ [] })
reassemble_fragments-fragment_message_example =
    reassemble_fragments-fragment_message message 2 message (info_of (fragment_message 2 message))
      (omega arith) not_empty refl

send_lem_example :
    send 2 0 (λ i. environment) manager message
    ≡ returned (record manager { bytes_sent = 15 }) (some 5)
send_lem_example =
    send_lem 0 0 (λ i. environment) manager message refl plain_config-IsPlain (omega arith)
      (omega arith) (omega arith) (omega arith) (omega arith) (omega arith)

abbrev fragment_packet : Packet
fragment_packet = record {
  bytes = 8 ∷ [];
  client = 6;
  now = 9;
  system = 5;
  memory = record message { is_fragment = true };
}

abbrev packets : List Packet
packets =
    record { bytes = 9 ∷ []; client = 6; now = 7; system = 5; memory = message }
    ∷ record fragment_packet { bytes = [] }
    ∷ record { bytes = 1 ∷ 2 ∷ []; client = 6; now = 8; system = 5; memory = message }
    ∷ []

process_all_iff_example :
    (process_all environment manager (fragment_packet ∷ packets) ≡ out_of_bounds)
    ↔ (has_fragment (fragment_packet ∷ packets) ≡ true)
process_all_iff_example =
    process_all_iff environment (fragment_packet ∷ packets) manager plain_config-IsPlain (refl, tt)

cleanup_expired_fragments_lem_example :
    find 42 (cleanup_expired_fragments manager (6000 * 10 ^ 6)).fragment_map
    ≡ unexpired manager (6000 * 10 ^ 6) (find 42 manager.fragment_map)
unfolding find
cleanup_expired_fragments_lem_example =
    cleanup_expired_fragments_lem manager (6000 * 10 ^ 6) 42 (refl, tt)

idle_run : is_idle manager (40000 * 10 ^ 6) 0 ≡ true
unfolding is_idle
idle_run = refl
