-- ===== src/ProtocolManager/Types.antt =====
-- The data and the state of `ProtocolManager` in protocol/ProtocolManager.hpp. A callback is the record of its
-- calls. The message queues, which no code touches, are left out.
use barren_engine.Common.{ℕ, Bool, Option, List, Bytes, Doubles}

pub data ProtocolType : Type 0 where
  udp tcp web_socket quic web_rtc : ProtocolType

pub record ProtocolConfig : Type 0 where
  pub type : ProtocolType
  pub port : ℕ
  pub host : Bytes
  pub max_connections : ℕ
  pub buffer_size : ℕ
  pub enable_multiplexing : Bool
  pub enable_compression : Bool
  pub enable_encryption : Bool

pub record ProtocolStats (D : Type 0) : Type 0 where
  pub bytes_sent : ℕ
  pub bytes_received : ℕ
  pub packets_sent : ℕ
  pub packets_received : ℕ
  pub latency : D
  pub packet_loss : D
  pub active_connections : ℕ
  pub queued_messages : ℕ

-- `ProtocolStats{}`.
abbrev pub no_stats : {D : Type 0} ⦃d : Doubles D⦄ → ProtocolStats D
no_stats ⦃d⦄ = record {
  bytes_sent = 0;
  bytes_received = 0;
  packets_sent = 0;
  packets_received = 0;
  latency = d.of_nat 0;
  packet_loss = d.of_nat 0;
  active_connections = 0;
  queued_messages = 0;
}

-- The classes that derive from `ProtocolImpl`. An object has no state.
pub data ProtocolImpl : Type 0 where
  udp_protocol tcp_protocol web_socket_protocol quic_protocol web_rtc_protocol : ProtocolImpl

-- A call of one of the two callbacks.
pub data Notice : Type 0 where
  message_callback : Bytes → Bytes → Notice
  connection_callback : Bytes → Bool → Notice

pub record ProtocolManager (D : Type 0) : Type 0 where
  pub impl : Option ProtocolImpl
  pub config : ProtocolConfig
  pub running : Bool
  pub multiplexing_enabled : Bool
  pub compression_enabled : Bool
  pub encryption_enabled : Bool
  pub stats : ProtocolStats D
  pub has_message_callback : Bool
  pub has_connection_callback : Bool
  pub notices : List Notice
