-- ===== src/Tests/MessageRuns.antt =====
-- Runs of the operations of src/MessageHandler.cpp.
use barren_engine.Common.{
  ◌≡◌, refl, true, false, some, List, [], ◌∷◌, deadlock, if◌then◌else◌, ltb, length,
}
use barren_engine.MessageHandler.Types.{
  user, normal, reliable, text, Message, zero_stats, MessageHandler, message_sent, queue_full,
  event_callback,
}
use barren_engine.MessageHandler.Operations.{
  new_handler, send, enqueue_message, handle_message_event, set_queue_size, validate_message,
  validate_metadata, process_queue,
}
use barren_engine.MessageHandler.Operations.{check_timeouts, has_timed_out, time_out_from}
use barren_engine.MessageHandler.Sends.{send_cases, set_queue_size-deadlock}
use barren_engine.MessageHandler.Histories.{starts, sends, processes, run}
use barren_engine.MessageHandler.Bounds.{IsValid, run-new_handler-IsValid}
use barren_engine.MessageHandler.Processing.{IsProcessed, process_queue_lem}

abbrev message : Message
message = record {
  metadata = record {
    type = user;
    priority = normal;
    reliability = reliable;
    source = 97 ∷ [];
    destination = 98 ∷ [];
    timestamp = 50;
    sequence_number = 1;
    order_number = 1;
    requires_ack = false;
    retry_count = 0;
    max_retries = 3;
    timeout = 1000;
  };
  content = text (104 ∷ 105 ∷ []);
}

-- A handler that runs, with room for one message, and listens to events.
abbrev handler : List Message → MessageHandler
handler queue = record {
  running = true;
  config = record {
    max_queue_size = 1;
    max_message_size = 1024;
    processing_interval = 10;
    enable_compression = false;
    enable_encryption = false;
    enable_validation = true;
    enable_logging = false;
  };
  message_queue = queue;
  callbacks = user ∷ [];
  has_event_callback = true;
  message_filter = some (λ m. ltb 0 (length m.metadata.source));
  stats = zero_stats;
  last_processed = 0;
  last_timeout_check = 0;
  notices = [];
}

-- The queue is full, and `send` answers true.
send_full_run : send 60 message (handler (message ∷ [])) ≡ (
  record (handler (message ∷ [])) {
    notices = event_callback queue_full message ∷ event_callback message_sent message ∷ [];
  },
  true,
)
unfolding send validate_message validate_metadata enqueue_message handle_message_event
send_full_run = refl

send_cases_example : send 60 message (handler (message ∷ [])) ≡ (
    if validate_message 60 message (handler (message ∷ []))
    then (
      record (handler (message ∷ [])) {
        notices = event_callback queue_full message ∷ event_callback message_sent message ∷ [];
      },
      true,
    )
    else (handler (message ∷ []), false))
send_cases_example = send_cases 60 message (handler (message ∷ []))

process_queue_lem_example :
    IsProcessed
      (handler (message ∷ []))
      (message ∷ [])
      (process_queue 120 70 (handler (message ∷ [])))
process_queue_lem_example = process_queue_lem 120 70 (handler (message ∷ []))

run-new_handler-IsValid_example : IsValid (
    run 120
      (new_handler (handler []).config)
      (starts 1 ∷ sends 60 message ∷ processes 100000000 100000001 ∷ []))
run-new_handler-IsValid_example =
    run-new_handler-IsValid 120 (handler []).config
      (starts 1 ∷ sends 60 message ∷ processes 100000000 100000001 ∷ [])

set_queue_size-deadlock_example : set_queue_size false 5 (handler []) ≡ deadlock
set_queue_size-deadlock_example = set_queue_size-deadlock false 5 (handler [])

late_run : (check_timeouts 3000000000 (handler (message ∷ []))).message_queue ≡ []
unfolding check_timeouts time_out_from has_timed_out
late_run = refl
