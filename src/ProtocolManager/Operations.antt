-- ===== src/ProtocolManager/Operations.antt =====
-- The operations of `ProtocolManager` in src/ProtocolManager.cpp.
use barren_engine.Common.{
  Access, reached, null_pointer, through, ℕ, Bool, true, false, not, ◌&&◌, ◌||◌, none, some, List,
  [], ◌∷◌, ◌++◌, Bytes, if◌then◌else◌, Doubles,
}
use barren_engine.Address.{validate_address}
use barren_engine.ProtocolManager.Types.{
  ProtocolType, udp, tcp, web_socket, quic, web_rtc, ProtocolConfig, ProtocolStats, no_stats,
  ProtocolImpl, udp_protocol, tcp_protocol, web_socket_protocol, quic_protocol, web_rtc_protocol,
  message_callback, connection_callback, ProtocolManager,
}
use barren_engine.ProtocolManager.Protocols.{
  impl_initialize, impl_start, impl_stop, impl_connect, impl_disconnect, impl_send, impl_receive,
}

-- The class that `initialize` makes an object of.
unfoldable pub make_impl : ProtocolType → ProtocolImpl
make_impl udp = udp_protocol
make_impl tcp = tcp_protocol
make_impl web_socket = web_socket_protocol
make_impl quic = quic_protocol
make_impl web_rtc = web_rtc_protocol

module _ {D : Type 0} where
  -- The constructor; `memory` is what the configuration, which it does not write, holds.
  unfoldable pub new_manager : ⦃d : Doubles D⦄ → ProtocolConfig → ProtocolManager D
  new_manager memory = record {
    impl = none;
    config = memory;
    running = false;
    multiplexing_enabled = false;
    compression_enabled = false;
    encryption_enabled = false;
    stats = no_stats;
    has_message_callback = false;
    has_connection_callback = false;
    notices = [];
  }

  unfoldable pub initialize : ProtocolConfig → ProtocolManager D → ProtocolManager D × Bool
  initialize config m =
      let impl = make_impl config.type in
      (record m { config = config; impl = some impl }, impl_initialize impl config)

  unfoldable pub start : ProtocolManager D → Access (ProtocolManager D × Bool)
  start m =
      if m.running
      then reached (m, true)
      else through m.impl (λ impl.
        reached (if not (impl_start impl) then (m, false) else (record m { running = true }, true)))

  unfoldable pub stop : ProtocolManager D → Access (ProtocolManager D)
  stop m =
      if not m.running
      then reached m
      else through m.impl
          (λ impl. reached (record m { impl = some (impl_stop impl); running = false }))

  unfoldable pub is_running : ProtocolManager D → Bool
  is_running m = m.running

  unfoldable pub connect : Bytes → ℕ → ProtocolManager D → Access Bool
  connect address port m =
      if not m.running || not (validate_address address)
      then reached false
      else through m.impl (λ impl. reached (impl_connect impl address port))

  unfoldable pub disconnect : Bytes → ProtocolManager D → Access (ProtocolManager D)
  disconnect address m =
      if not m.running
      then reached m
      else through m.impl
          (λ impl. reached (record m { impl = some (impl_disconnect impl address) }))

  -- Every address counts as connected, and no peer is listed.
  unfoldable pub is_connected : Bytes → ProtocolManager D → Bool
  is_connected address m = true

  unfoldable pub get_connected_peers : ProtocolManager D → List Bytes
  get_connected_peers m = []

  unfoldable pub send : Bytes → Bytes → ProtocolManager D → Access Bool
  send address bytes m =
      if not m.running || not (validate_address address)
      then reached false
      else through m.impl (λ impl. reached (impl_send impl address bytes))

  -- The loop of `broadcast`.
  abbrev send_each : List Bytes → Bytes → Bool → ProtocolManager D → Access Bool
  send_each [] bytes success m = reached success
  send_each (peer ∷ peers) bytes success m = elim (send peer bytes m) [
    | reached sent ↦ send_each peers bytes (success && sent) m
    | null_pointer ↦ null_pointer
  ]

  unfoldable pub broadcast : Bytes → ProtocolManager D → Access Bool
  unfolding get_connected_peers
  broadcast bytes m =
      if not m.running then reached false else send_each (get_connected_peers m) bytes true m

  unfoldable pub receive : Bytes → ProtocolManager D → Access Bytes
  receive address m =
      if not m.running || not (validate_address address)
      then reached []
      else through m.impl (λ impl. reached (impl_receive impl address))

  unfoldable pub enable_multiplexing : Bool → ProtocolManager D → ProtocolManager D
  enable_multiplexing enable m = record m { multiplexing_enabled = enable }

  unfoldable pub set_compression : Bool → ProtocolManager D → ProtocolManager D
  set_compression enable m = record m { compression_enabled = enable }

  unfoldable pub set_encryption : Bool → ProtocolManager D → ProtocolManager D
  set_encryption enable m = record m { encryption_enabled = enable }

  unfoldable pub set_protocol_type : ProtocolType → ProtocolManager D → ProtocolManager D
  set_protocol_type type m =
      let config = record m.config { type = type } in
      if m.running then m else (initialize config (record m { config = config })).0

  unfoldable pub get_stats : ProtocolManager D → ProtocolStats D
  get_stats m = m.stats

  unfoldable pub reset_stats : ⦃d : Doubles D⦄ → ProtocolManager D → ProtocolManager D
  reset_stats m = record m { stats = no_stats }

  unfoldable pub set_message_callback : Bool → ProtocolManager D → ProtocolManager D
  set_message_callback callback m = record m { has_message_callback = callback }

  unfoldable pub set_connection_callback : Bool → ProtocolManager D → ProtocolManager D
  set_connection_callback callback m = record m { has_connection_callback = callback }

  unfoldable pub update_stats : ProtocolStats D → ProtocolManager D → ProtocolManager D
  update_stats stats m = record m { stats = stats }

  unfoldable pub process_incoming_message : Bytes → Bytes → ProtocolManager D → ProtocolManager D
  process_incoming_message address bytes m = record m {
    notices =
        m.notices ++ (if m.has_message_callback then message_callback address bytes ∷ [] else []);
  }

  unfoldable pub handle_connection_event : Bytes → Bool → ProtocolManager D → ProtocolManager D
  handle_connection_event address connected m = record m {
    notices =
        m.notices
        ++ (if m.has_connection_callback then connection_callback address connected ∷ [] else []);
  }
