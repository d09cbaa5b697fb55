-- ===== src/ConnectionManager/Types.antt =====
-- The data and the state of `ConnectionManager` in connection/ConnectionManager.hpp. Times are nanoseconds of
-- the system clock, timeouts milliseconds; a callback is the record of its calls.
use Prim.Native.String.{String}
use barren_engine.Common.{ℕ, Bool, List, Bytes}

pub data ConnectionState : Type 0 where
  disconnected connecting connected disconnecting failed : ConnectionState

-- The test `state == ConnectionState::CONNECTED`.
abbrev pub is_connected_state : ConnectionState → Bool
is_connected_state connected = Bool.true
is_connected_state _ = Bool.false

pub data ConnectionType : Type 0 where
  client server peer : ConnectionType

pub record ConnectionConfig : Type 0 where
  pub address : Bytes
  pub port : ℕ
  pub type : ConnectionType
  pub timeout_ms : ℕ
  pub max_retries : ℕ
  pub keep_alive_interval_ms : ℕ
  pub max_packet_size : ℕ
  pub enable_compression : Bool
  pub enable_encryption : Bool
  pub enable_reliability : Bool
  pub enable_ordering : Bool
  pub enable_sequencing : Bool

pub record ConnectionStats : Type 0 where
  pub bytes_sent : ℕ
  pub bytes_received : ℕ
  pub packets_sent : ℕ
  pub packets_received : ℕ
  pub packets_lost : ℕ
  pub packets_out_of_order : ℕ
  pub average_latency : ℕ
  pub packet_loss : ℕ
  pub bandwidth : ℕ
  pub queue_size : ℕ
  pub active_connections : ℕ
  pub failed_connections : ℕ
  pub retry_count : ℕ
  pub last_activity : ℕ

-- `ConnectionStats{}`.
abbrev pub zero_stats : ConnectionStats
zero_stats = record {
  bytes_sent = 0;
  bytes_received = 0;
  packets_sent = 0;
  packets_received = 0;
  packets_lost = 0;
  packets_out_of_order = 0;
  average_latency = 0;
  packet_loss = 0;
  bandwidth = 0;
  queue_size = 0;
  active_connections = 0;
  failed_connections = 0;
  retry_count = 0;
  last_activity = 0;
}

pub data ConnectionEventType : Type 0 where
  connected disconnected connection_failed connection_timeout : ConnectionEventType
  connection_retry data_received data_sent error : ConnectionEventType

pub record ConnectionEvent : Type 0 where
  pub type : ConnectionEventType
  pub address : Bytes
  pub message : String
  pub timestamp : ℕ

-- A call of one of the three callbacks.
pub data Notice : Type 0 where
  event_callback : ConnectionEvent → Notice
  data_callback : Bytes → Bytes → Notice
  error_callback : Bytes → String → Notice

pub record ConnectionManager : Type 0 where
  pub config : ConnectionConfig
  pub running : Bool
  pub monitoring : Bool
  pub connection_states : List (Bytes × ConnectionState)
  pub connection_stats : List (Bytes × ConnectionStats)
  pub global_stats : ConnectionStats
  pub event_queue : List ConnectionEvent
  pub has_event_callback : Bool
  pub has_data_callback : Bool
  pub has_error_callback : Bool
  pub last_keep_alive : ℕ
  pub last_monitoring : ℕ
  pub monitoring_interval : ℕ
  pub notices : List Notice
