-- ===== src/MessageHandler/Operations.antt =====
-- The operations of `MessageHandler`. `metadata_size` is `sizeof(MessageMetadata)`, and `now` a reading of
-- the system clock.
use barren_engine.Common.{
  ℕ, ◌+◌, ◌-◌, ◌*◌, ◌%◌, ◌^◌, Bool, true, false, not, ◌&&◌, ◌||◌, Option, none, some, List, [], ◌∷◌,
  ◌++◌, length, drop, is_empty, leb, ltb, ◌==◌, if◌then◌else◌, add_u64, u32_mod, Outcome, returns,
  lock_guard,
}
use barren_engine.MessageHandler.Types.{
  MessageType, type_code, MessageMetadata, vector, text, int32, uint32, int64, uint64, float32,
  float64, boolean, Message, MessageQueueConfig, MessageStats, zero_stats, MessageEventType,
  message_sent, message_processed, message_dropped, message_retried, message_timed_out, queue_full,
  message_callback, event_callback, MessageHandler,
}

unfoldable pub get_message_size : ℕ → Message → ℕ
get_message_size metadata_size message = metadata_size + elim message.content [
  | vector bs ↦ length bs
  | text bs ↦ length bs
  | int32 _ ↦ 4
  | uint32 _ ↦ 4
  | int64 _ ↦ 8
  | uint64 _ ↦ 8
  | float32 _ ↦ 4
  | float64 _ ↦ 8
  | boolean _ ↦ 1
]

-- The event callback is called only while the handler runs.
unfoldable pub handle_message_event : MessageEventType → Message → MessageHandler → MessageHandler
handle_message_event type message h =
    if h.running && h.has_event_callback
    then record h { notices = h.notices ++ event_callback type message ∷ [] }
    else h

unfoldable pub clear : MessageHandler → MessageHandler
clear h = record h { message_queue = [] }

-- The constructor; `memory` is what the configuration, which it does not write, holds.
unfoldable pub new_handler : MessageQueueConfig → MessageHandler
new_handler memory = record {
  running = false;
  config = memory;
  message_queue = [];
  callbacks = [];
  has_event_callback = false;
  message_filter = none;
  stats = zero_stats;
  last_processed = 0;
  last_timeout_check = 0;
  notices = [];
}

-- `resizeQueue`; the flag says that `queueMutex_` is held.
unfoldable pub resize_queue : Bool → ℕ → MessageHandler → Outcome MessageHandler
resize_queue held size h = lock_guard held (λ _. returns (record h {
  message_queue = drop (length h.message_queue - size) h.message_queue;
  config = record (h.config) { max_queue_size = size };
}))

unfoldable pub set_queue_size : Bool → ℕ → MessageHandler → Outcome MessageHandler
set_queue_size held size h = lock_guard held (λ held'. resize_queue held' size h)

unfoldable pub initialize : MessageQueueConfig → MessageHandler → Outcome MessageHandler
initialize config h =
    if h.running
    then returns h
    else resize_queue false config.max_queue_size (record h { config = config })

unfoldable pub start : ℕ → MessageHandler → MessageHandler
start now h =
    if h.running
    then h
    else record h { running = true; last_processed = now; last_timeout_check = now }

unfoldable pub stop : MessageHandler → MessageHandler
stop h = if h.running then clear (record h { running = false }) else h

-- The tests of the three enumerations and of the two numbers always succeed.
unfoldable pub validate_metadata : ℕ → MessageMetadata → Bool
validate_metadata now m =
    not (is_empty m.source) && not (is_empty m.destination) && leb m.timestamp now

unfoldable pub validate_message : ℕ → Message → MessageHandler → Bool
validate_message now message h =
    if not h.config.enable_validation then true else validate_metadata now message.metadata

unfoldable pub enqueue_message : Message → MessageHandler → MessageHandler
enqueue_message message h =
    if leb h.config.max_queue_size (length h.message_queue)
    then handle_message_event queue_full message h
    else record h { message_queue = h.message_queue ++ message ∷ [] }

unfoldable pub send : ℕ → Message → MessageHandler → MessageHandler × Bool
send now message h =
    if not h.running || not (validate_message now message h)
    then (h, false)
    else (handle_message_event message_sent message (enqueue_message message h), true)

unfoldable pub broadcast : ℕ → Message → MessageHandler → Bool
broadcast now message h =
    if not h.running || not (validate_message now message h) then false else true

-- The counters of `updateStats`.
unfoldable pub count_message : ℕ → Message → Bool → MessageStats → MessageStats
count_message metadata_size message processed s =
    let size = get_message_size metadata_size message in
    if processed
    then record s {
      messages_processed = add_u64 s.messages_processed 1;
      bytes_processed = add_u64 s.bytes_processed size;
    }
    else record s {
      messages_dropped = add_u64 s.messages_dropped 1;
      bytes_dropped = add_u64 s.bytes_dropped size;
    }

unfoldable pub update_stats : ℕ → ℕ → Message → Bool → MessageHandler → MessageHandler
update_stats metadata_size now message processed h = record h {
  stats = record (count_message metadata_size message processed h.stats) {
    queue_size = length h.message_queue % u32_mod;
    queue_capacity = h.config.max_queue_size % u32_mod;
    last_processed = now;
  };
}

unfoldable pub drop_message : ℕ → ℕ → Message → MessageHandler → MessageHandler
drop_message metadata_size now message h =
    update_stats metadata_size now message false (handle_message_event message_dropped message h)

-- The message that is queued again.
abbrev pub retried : ℕ → Message → Message
retried now message = record message {
  metadata = record (message.metadata) {
    retry_count = message.metadata.retry_count + 1;
    timestamp = now;
  };
}

unfoldable pub retry_message : ℕ → ℕ → Message → MessageHandler → MessageHandler
retry_message metadata_size now message h =
    if not h.running
    then h
    else if ltb message.metadata.retry_count message.metadata.max_retries
    then handle_message_event message_retried (retried now message)
        (enqueue_message (retried now message) h)
    else drop_message metadata_size now message h

abbrev pub has_callback : MessageType → List MessageType → Bool
has_callback t [] = false
has_callback t (u ∷ us) = type_code u == type_code t || has_callback t us

unfoldable pub register_callback : MessageType → MessageHandler → MessageHandler
register_callback t h =
    if has_callback t h.callbacks then h else record h { callbacks = t ∷ h.callbacks }

abbrev pub without : MessageType → List MessageType → List MessageType
without t [] = []
without t (u ∷ us) =
    let rest = without t us in if type_code u == type_code t then rest else u ∷ rest

unfoldable pub unregister_callback : MessageType → MessageHandler → MessageHandler
unregister_callback t h = record h { callbacks = without t h.callbacks }

unfoldable pub process_message_internal : ℕ → ℕ → Message → MessageHandler → MessageHandler
process_message_internal metadata_size now message h =
    let called =
      if has_callback message.metadata.type h.callbacks
      then record h { notices = h.notices ++ message_callback message ∷ [] }
      else h in
    update_stats metadata_size now message true
      (handle_message_event message_processed message called)

abbrev pub passes : Option (Message → Bool) → Message → Bool
passes none message = true
passes (some f) message = f message

-- The loop of `processQueue` over the messages that are left; it takes each one off the queue first.
unfoldable pub process_from : ℕ → ℕ → List Message → MessageHandler → MessageHandler
process_from metadata_size now [] h = record h { message_queue = [] }
process_from metadata_size now (message ∷ rest) h =
    let taken = record h { message_queue = rest } in
    process_from metadata_size now rest (
      if passes h.message_filter message
      then process_message_internal metadata_size now message taken
      else taken)

unfoldable pub process_queue : ℕ → ℕ → MessageHandler → MessageHandler
process_queue metadata_size now h = process_from metadata_size now h.message_queue h

unfoldable pub process_message : ℕ → ℕ → Message → MessageHandler → MessageHandler
process_message metadata_size now message h =
    if h.running then process_message_internal metadata_size now message h else h

unfoldable pub reset_stats : MessageHandler → MessageHandler
reset_stats h = record h { stats = zero_stats }

-- `now - timestamp > timeout`.
unfoldable pub has_timed_out : ℕ → Message → Bool
has_timed_out now message = ltb (message.metadata.timestamp + message.metadata.timeout * 10 ^ 6) now

-- The loop of `checkTimeouts`: `kept` is `tempQueue`, and `rest` what is left in the queue.
unfoldable pub time_out_from : ℕ → List Message → List Message → MessageHandler → MessageHandler
time_out_from now [] kept h = record h { message_queue = kept }
time_out_from now (message ∷ rest) kept h =
    let taken = record h { message_queue = rest } in
    let told = handle_message_event message_timed_out message taken in
    let counted = record told {
      stats = record (told.stats) { messages_timed_out = add_u64 told.stats.messages_timed_out 1 };
    } in
    let late = has_timed_out now message in
    time_out_from now rest (if late then kept else kept ++ message ∷ [])
      (if late then counted else taken)

unfoldable pub check_timeouts : ℕ → MessageHandler → MessageHandler
check_timeouts now h =
    if ltb now (h.last_timeout_check + 10 ^ 9)
    then h
    else time_out_from now h.message_queue [] (record h { last_timeout_check = now })

-- `now` for the interval, `later` within the call.
unfoldable pub process : ℕ → ℕ → ℕ → MessageHandler → MessageHandler × Bool
process metadata_size now later h =
    if not h.running
    then (h, false)
    else if ltb now (h.last_processed + h.config.processing_interval * 10 ^ 6)
    then (h, true)
    else (
      check_timeouts later (process_queue metadata_size later (record h { last_processed = now })),
      true,
    )
