-- ===== src/ProtocolManager/Sessions.antt =====
-- Histories of calls of the public operations of `ProtocolManager` in src/ProtocolManager.cpp with their replies,
-- and the session that they come to.
use barren_engine.Common.{
  Access, reached, null_pointer, and_then, ℕ, Bool, true, false, ◌&&◌, ◌||◌, Option, some, List, [],
  ◌∷◌, Bytes, if◌then◌else◌, is_some, Doubles,
}
use barren_engine.Address.{validate_address}
use barren_engine.ProtocolManager.Types.{
  ProtocolType, ProtocolConfig, ProtocolImpl, ProtocolManager,
}
use barren_engine.ProtocolManager.Operations.{
  make_impl, initialize, start, stop, is_running, connect, disconnect, is_connected, send,
  broadcast, receive, set_protocol_type, set_compression, reset_stats, enable_multiplexing,
  set_encryption, set_message_callback, set_connection_callback, get_connected_peers,
}

pub data Call : Type 0 where
  initializes : ProtocolConfig → Call
  starts stops asks_running resets : Call
  connects : Bytes → ℕ → Call
  disconnects asks_connected receives : Bytes → Call
  sends : Bytes → Bytes → Call
  broadcasts : Bytes → Call
  sets_type : ProtocolType → Call
  sets_compression sets_encryption multiplexes : Bool → Call
  sets_message_callback sets_connection_callback : Bool → Call
  asks_peers : Call

pub data Reply : Type 0 where
  done : Reply
  answered : Bool → Reply
  received : Bytes → Reply
  listed : List Bytes → Reply

module _ {D : Type 0} ⦃d : Doubles D⦄ where
  unfoldable pub step : ProtocolManager D → Call → Access (ProtocolManager D × Reply)
  step m (initializes config) = let (n, b) = initialize config m in reached (n, answered b)
  step m starts = and_then (start m) (λ r. reached (r.0, answered r.1))
  step m stops = and_then (stop m) (λ n. reached (n, done))
  step m asks_running = reached (m, answered (is_running m))
  step m resets = reached (reset_stats m, done)
  step m (connects address port) = and_then (connect address port m) (λ b. reached (m, answered b))
  step m (disconnects address) = and_then (disconnect address m) (λ n. reached (n, done))
  step m (asks_connected address) = reached (m, answered (is_connected address m))
  step m (receives address) = and_then (receive address m) (λ bytes. reached (m, received bytes))
  step m (sends address bytes) = and_then (send address bytes m) (λ b. reached (m, answered b))
  step m (broadcasts bytes) = and_then (broadcast bytes m) (λ b. reached (m, answered b))
  step m (sets_type type) = reached (set_protocol_type type m, done)
  step m (sets_compression enable) = reached (set_compression enable m, done)
  step m (sets_encryption enable) = reached (set_encryption enable m, done)
  step m (multiplexes enable) = reached (enable_multiplexing enable m, done)
  step m (sets_message_callback callback) = reached (set_message_callback callback m, done)
  step m (sets_connection_callback callback) = reached (set_connection_callback callback m, done)
  step m asks_peers = reached (m, listed (get_connected_peers m))

  unfoldable pub run : ProtocolManager D → List Call → Access (ProtocolManager D × List Reply)
  run m [] = reached (m, [])
  run m (call ∷ calls) =
      and_then (step m call) (λ r. and_then (run r.0 calls) (λ s. reached (s.0, r.1 ∷ s.1)))

-- The object of the protocol, and whether the manager runs.
pub record Session : Type 0 where
  pub protocol : Option ProtocolImpl
  pub running : Bool

-- What a call does to a session: only to start a session without a protocol is undefined.
unfoldable pub answer : Session → Call → Access (Session × Reply)
answer s (initializes config) =
    reached (record s { protocol = some (make_impl config.type) }, answered true)
answer s starts =
    if s.running || is_some s.protocol
    then reached (record s { running = true }, answered true)
    else null_pointer
answer s stops = reached (record s { running = false }, done)
answer s asks_running = reached (s, answered s.running)
answer s resets = reached (s, done)
answer s (connects address port) = reached (s, answered (s.running && validate_address address))
answer s (disconnects address) = reached (s, done)
answer s (asks_connected address) = reached (s, answered true)
answer s (receives address) = reached (s, received [])
answer s (sends address bytes) = reached (s, answered (s.running && validate_address address))
answer s (broadcasts bytes) = reached (s, answered s.running)
answer s (sets_type type) =
    reached (if s.running then s else record s { protocol = some (make_impl type) }, done)
answer s (sets_compression enable) = reached (s, done)
answer s (sets_encryption enable) = reached (s, done)
answer s (multiplexes enable) = reached (s, done)
answer s (sets_message_callback callback) = reached (s, done)
answer s (sets_connection_callback callback) = reached (s, done)
answer s asks_peers = reached (s, listed [])

unfoldable pub converse : Session → List Call → Access (Session × List Reply)
converse s [] = reached (s, [])
converse s (call ∷ calls) =
    and_then (answer s call) (λ r. and_then (converse r.0 calls) (λ t. reached (t.0, r.1 ∷ t.1)))
