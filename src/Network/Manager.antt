-- ===== src/Network/Manager.antt =====
-- The configuration, the messages and the state of `NetworkManager`. Sockets, threads and the log file
-- are not modelled; a callback is the record of the messages that it was called with.
use barren_engine.Common.{ℕ, Bool, false, not, ◌||◌, List, [], Bytes}
use barren_engine.Compression.{Codecs, Algorithm}
use barren_engine.Connection.{Connection, PacketReliability, Quotient}
use barren_engine.Crypto.Modes.{Mode, Leftover}

pub data NetworkProtocol : Type 0 where
  udp tcp : NetworkProtocol

pub record NetworkConfig : Type 0 where
  pub protocol : NetworkProtocol
  pub port : ℕ
  pub max_connections : ℕ
  pub buffer_size : ℕ
  pub enable_compression : Bool
  pub compression_algorithm : Algorithm
  pub enable_encryption : Bool
  pub encryption_mode : Mode
  pub encryption_key : Bytes
  pub max_packet_size : ℕ
  pub fragment_size : ℕ
  pub fragment_timeout : ℕ
  pub connection_timeout : ℕ
  pub keep_alive_interval : ℕ
  pub enable_packet_validation : Bool
  pub enable_packet_logging : Bool

pub record NetworkMessage : Type 0 where
  pub bytes : Bytes
  pub timestamp : ℕ
  pub reliability : PacketReliability
  pub message_id : ℕ
  pub fragment_index : ℕ
  pub total_fragments : ℕ
  pub is_fragment : Bool

pub record FragmentInfo : Type 0 where
  pub fragments : List NetworkMessage
  pub timestamp : ℕ
  pub total_fragments : ℕ
  pub received_fragments : ℕ

pub record NetworkManager : Type 0 where
  pub config : NetworkConfig
  pub running : Bool
  pub message_queue : List NetworkMessage
  pub connections : List (ℕ × Connection)
  pub bytes_sent : ℕ
  pub bytes_received : ℕ
  -- The numbers whose means the two `float`s are; none stands for the initial 0.
  pub average_latency : List Quotient
  pub packet_loss : List Quotient
  pub fragment_map : List (ℕ × FragmentInfo)
  pub next_message_id : ℕ
  pub last_keep_alive : ℕ
  pub last_activity : List (ℕ × ℕ)
  pub packet_validation_enabled : Bool
  pub packet_logging_enabled : Bool
  pub has_message_callback : Bool
  pub called_back : List NetworkMessage

-- What one call uses of libraries, randomness and memory that was not written to.
pub record Environment : Type 0 where
  pub codecs : Codecs
  pub random : ℕ → ℕ
  pub leftover : Leftover

-- The constructor. `memory` and `start` are what the configuration and the clock reading, which it does
-- not write, hold.
unfoldable pub new_manager : NetworkConfig → ℕ → NetworkManager
new_manager memory start = record {
  config = memory;
  running = false;
  message_queue = [];
  connections = [];
  bytes_sent = 0;
  bytes_received = 0;
  average_latency = [];
  packet_loss = [];
  fragment_map = [];
  next_message_id = 0;
  last_keep_alive = start;
  last_activity = [];
  packet_validation_enabled = false;
  packet_logging_enabled = false;
  has_message_callback = false;
  called_back = [];
}

-- `opens` says that the log file can be opened.
unfoldable pub initialize : NetworkManager → NetworkConfig → Bool → NetworkManager × Bool
initialize m config opens = (
  record m {
    config = config;
    packet_validation_enabled = config.enable_packet_validation;
    packet_logging_enabled = config.enable_packet_logging;
  },
  not config.enable_packet_logging || opens,
)

-- `shutdown`, after the network thread has ended.
unfoldable pub shutdown : NetworkManager → NetworkManager
shutdown m = record m { running = false; connections = [] }
