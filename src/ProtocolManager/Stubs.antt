-- ===== src/ProtocolManager/Stubs.antt =====
-- The five protocol classes of src/ProtocolManager.cpp answer alike.
use barren_engine.Common.{ℕ, true, ◌≡◌, refl, [], Bytes}
use barren_engine.ProtocolManager.Types.{
  ProtocolConfig, ProtocolImpl, udp_protocol, tcp_protocol, web_socket_protocol, quic_protocol,
  web_rtc_protocol,
}
use barren_engine.ProtocolManager.Protocols.{
  virtuals, impl_initialize, impl_start, impl_stop, impl_connect, impl_disconnect, impl_send,
  impl_receive,
}

-- The object of a class answers every call in the same way.
pub record IsStub (impl : ProtocolImpl) : Type 0 where
  pub initializes_lem : (config : ProtocolConfig) → impl_initialize impl config ≡ true
  pub starts_lem : impl_start impl ≡ true
  pub stops_lem : impl_stop impl ≡ impl
  pub connects_lem : (address : Bytes) (port : ℕ) → impl_connect impl address port ≡ true
  pub disconnects_lem : (address : Bytes) → impl_disconnect impl address ≡ impl
  pub sends_lem : (address bytes : Bytes) → impl_send impl address bytes ≡ true
  pub receives_lem : (address : Bytes) → impl_receive impl address ≡ []

pub impl-IsStub : (impl : ProtocolImpl) → IsStub impl
unfolding impl_initialize impl_start impl_stop impl_connect impl_disconnect impl_send impl_receive
    virtuals
impl-IsStub udp_protocol = record {
  initializes_lem = λ c. refl;
  starts_lem = refl;
  stops_lem = refl;
  connects_lem = λ a p. refl;
  disconnects_lem = λ a. refl;
  sends_lem = λ a b. refl;
  receives_lem = λ a. refl;
}
impl-IsStub tcp_protocol = record {
  initializes_lem = λ c. refl;
  starts_lem = refl;
  stops_lem = refl;
  connects_lem = λ a p. refl;
  disconnects_lem = λ a. refl;
  sends_lem = λ a b. refl;
  receives_lem = λ a. refl;
}
impl-IsStub web_socket_protocol = record {
  initializes_lem = λ c. refl;
  starts_lem = refl;
  stops_lem = refl;
  connects_lem = λ a p. refl;
  disconnects_lem = λ a. refl;
  sends_lem = λ a b. refl;
  receives_lem = λ a. refl;
}
impl-IsStub quic_protocol = record {
  initializes_lem = λ c. refl;
  starts_lem = refl;
  stops_lem = refl;
  connects_lem = λ a p. refl;
  disconnects_lem = λ a. refl;
  sends_lem = λ a b. refl;
  receives_lem = λ a. refl;
}
impl-IsStub web_rtc_protocol = record {
  initializes_lem = λ c. refl;
  starts_lem = refl;
  stops_lem = refl;
  connects_lem = λ a p. refl;
  disconnects_lem = λ a. refl;
  sends_lem = λ a b. refl;
  receives_lem = λ a. refl;
}
