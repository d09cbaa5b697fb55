-- ===== src/ProtocolManager/Protocols.antt =====
-- The five classes of protocols of src/ProtocolManager.cpp: the functions of each, and the dispatch of the virtual
-- functions of `ProtocolImpl` on the class of the object. A function that returns nothing gives the object after it.
use barren_engine.Common.{ℕ, Bool, true, [], Bytes, Doubles}
use barren_engine.ProtocolManager.Types.{
  ProtocolConfig, ProtocolStats, no_stats, ProtocolImpl, udp_protocol, tcp_protocol,
  web_socket_protocol, quic_protocol, web_rtc_protocol,
}

pub record Virtuals : Type 0 where
  pub initialize : ProtocolConfig → Bool
  pub start : Bool
  pub stop : ProtocolImpl → ProtocolImpl
  pub connect : Bytes → ℕ → Bool
  pub disconnect : ProtocolImpl → Bytes → ProtocolImpl
  pub send : Bytes → Bytes → Bool
  pub receive : Bytes → Bytes

unfoldable pub udp_virtuals : Virtuals
udp_virtuals = record {
  initialize = λ config. true;
  start = true;
  stop = λ object. object;
  connect = λ address port. true;
  disconnect = λ object address. object;
  send = λ address bytes. true;
  receive = λ address. [];
}

unfoldable pub tcp_virtuals : Virtuals
tcp_virtuals = record {
  initialize = λ config. true;
  start = true;
  stop = λ object. object;
  connect = λ address port. true;
  disconnect = λ object address. object;
  send = λ address bytes. true;
  receive = λ address. [];
}

unfoldable pub web_socket_virtuals : Virtuals
web_socket_virtuals = record {
  initialize = λ config. true;
  start = true;
  stop = λ object. object;
  connect = λ address port. true;
  disconnect = λ object address. object;
  send = λ address bytes. true;
  receive = λ address. [];
}

unfoldable pub quic_virtuals : Virtuals
quic_virtuals = record {
  initialize = λ config. true;
  start = true;
  stop = λ object. object;
  connect = λ address port. true;
  disconnect = λ object address. object;
  send = λ address bytes. true;
  receive = λ address. [];
}

unfoldable pub web_rtc_virtuals : Virtuals
web_rtc_virtuals = record {
  initialize = λ config. true;
  start = true;
  stop = λ object. object;
  connect = λ address port. true;
  disconnect = λ object address. object;
  send = λ address bytes. true;
  receive = λ address. [];
}

unfoldable pub virtuals : ProtocolImpl → Virtuals
unfolding udp_virtuals tcp_virtuals web_socket_virtuals quic_virtuals web_rtc_virtuals
virtuals udp_protocol = udp_virtuals
virtuals tcp_protocol = tcp_virtuals
virtuals web_socket_protocol = web_socket_virtuals
virtuals quic_protocol = quic_virtuals
virtuals web_rtc_protocol = web_rtc_virtuals

unfoldable pub impl_initialize : ProtocolImpl → ProtocolConfig → Bool
unfolding virtuals
impl_initialize object config = (virtuals object).initialize config

unfoldable pub impl_start : ProtocolImpl → Bool
unfolding virtuals
impl_start object = (virtuals object).start

unfoldable pub impl_stop : ProtocolImpl → ProtocolImpl
unfolding virtuals
impl_stop object = (virtuals object).stop object

unfoldable pub impl_connect : ProtocolImpl → Bytes → ℕ → Bool
unfolding virtuals
impl_connect object address port = (virtuals object).connect address port

unfoldable pub impl_disconnect : ProtocolImpl → Bytes → ProtocolImpl
unfolding virtuals
impl_disconnect object address = (virtuals object).disconnect object address

unfoldable pub impl_send : ProtocolImpl → Bytes → Bytes → Bool
unfolding virtuals
impl_send object address bytes = (virtuals object).send address bytes

unfoldable pub impl_receive : ProtocolImpl → Bytes → Bytes
unfolding virtuals
impl_receive object address = (virtuals object).receive address

unfoldable pub impl_get_stats : {D : Type 0} ⦃d : Doubles D⦄ → ProtocolImpl → ProtocolStats D
impl_get_stats object = no_stats
