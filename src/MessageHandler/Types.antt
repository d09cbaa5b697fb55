-- ===== src/MessageHandler/Types.antt =====
-- Messages, events, statistics and the state of a `MessageHandler`. Times are nanoseconds of the system
-- clock, intervals and timeouts milliseconds. The handler's own callbacks are a trace of what they
-- were called with.
use barren_engine.Common.{ℕ, Bool, Option, List, Bytes}

pub data MessageType : Type 0 where
  system user command event bytes control custom : MessageType

-- The enumeration's value.
abbrev pub type_code : MessageType → ℕ
type_code system = 0
type_code user = 1
type_code command = 2
type_code event = 3
type_code bytes = 4
type_code control = 5
type_code custom = 6

pub data MessagePriority : Type 0 where
  low normal high critical : MessagePriority

pub data MessageReliability : Type 0 where
  unreliable reliable sequenced ordered : MessageReliability

pub record MessageMetadata : Type 0 where
  pub type : MessageType
  pub priority : MessagePriority
  pub reliability : MessageReliability
  pub source : Bytes
  pub destination : Bytes
  pub timestamp : ℕ
  pub sequence_number : ℕ
  pub order_number : ℕ
  pub requires_ack : Bool
  pub retry_count : ℕ
  pub max_retries : ℕ
  pub timeout : ℕ

-- The variant; numbers and floats are their bit patterns.
pub data MessageData : Type 0 where
  vector text : Bytes → MessageData
  int32 uint32 int64 uint64 float32 float64 : ℕ → MessageData
  boolean : Bool → MessageData

pub record Message : Type 0 where
  pub metadata : MessageMetadata
  pub content : MessageData

pub record MessageQueueConfig : Type 0 where
  pub max_queue_size : ℕ
  pub max_message_size : ℕ
  pub processing_interval : ℕ
  pub enable_compression : Bool
  pub enable_encryption : Bool
  pub enable_validation : Bool
  pub enable_logging : Bool

pub record MessageStats : Type 0 where
  pub messages_processed : ℕ
  pub messages_dropped : ℕ
  pub messages_retried : ℕ
  pub messages_timed_out : ℕ
  pub bytes_processed : ℕ
  pub bytes_dropped : ℕ
  pub average_processing_time : ℕ
  pub queue_size : ℕ
  pub queue_capacity : ℕ
  pub last_processed : ℕ

pub data MessageEventType : Type 0 where
  message_received message_sent message_processed message_dropped : MessageEventType
  message_retried message_timed_out queue_full queue_empty error : MessageEventType

-- A call of a callback: that of a message type, or that of events.
pub data Notice : Type 0 where
  message_callback : Message → Notice
  event_callback : MessageEventType → Message → Notice

pub record MessageHandler : Type 0 where
  pub running : Bool
  pub config : MessageQueueConfig
  pub message_queue : List Message
  pub callbacks : List MessageType
  pub has_event_callback : Bool
  pub message_filter : Option (Message → Bool)
  pub stats : MessageStats
  pub last_processed : ℕ
  pub last_timeout_check : ℕ
  pub notices : List Notice

abbrev pub zero_stats : MessageStats
zero_stats = record {
  messages_processed = 0;
  messages_dropped = 0;
  messages_retried = 0;
  messages_timed_out = 0;
  bytes_processed = 0;
  bytes_dropped = 0;
  average_processing_time = 0;
  queue_size = 0;
  queue_capacity = 0;
  last_processed = 0;
}
