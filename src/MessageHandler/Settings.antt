-- ===== src/MessageHandler/Settings.antt =====
-- The settings of `MessageHandler`, and its readings of the queue: src/MessageHandler.cpp.
use barren_engine.Common.{ℕ, Bool, Outcome, returns, lock_guard, length, leb, is_empty}
use barren_engine.MessageHandler.Types.{MessageStats, MessageHandler}

unfoldable pub set_processing_interval : ℕ → MessageHandler → MessageHandler
set_processing_interval interval h = record h {
  config = record (h.config) { processing_interval = interval };
}

unfoldable pub enable_compression : Bool → MessageHandler → MessageHandler
enable_compression enable h = record h {
  config = record (h.config) { enable_compression = enable };
}

unfoldable pub enable_encryption : Bool → MessageHandler → MessageHandler
enable_encryption enable h = record h { config = record (h.config) { enable_encryption = enable } }

unfoldable pub enable_validation : Bool → MessageHandler → MessageHandler
enable_validation enable h = record h { config = record (h.config) { enable_validation = enable } }

unfoldable pub enable_logging : Bool → MessageHandler → MessageHandler
enable_logging enable h = record h { config = record (h.config) { enable_logging = enable } }

-- The flag says that `queueMutex_` is held.
unfoldable pub get_queue_size : Bool → MessageHandler → Outcome ℕ
get_queue_size held h = lock_guard held (λ _. returns (length h.message_queue))

unfoldable pub get_queue_capacity : MessageHandler → ℕ
get_queue_capacity h = h.config.max_queue_size

unfoldable pub is_queue_full : Bool → MessageHandler → Outcome Bool
is_queue_full held h =
    lock_guard held (λ _. returns (leb h.config.max_queue_size (length h.message_queue)))

unfoldable pub is_queue_empty : Bool → MessageHandler → Outcome Bool
is_queue_empty held h = lock_guard held (λ _. returns (is_empty h.message_queue))

unfoldable pub is_running : MessageHandler → Bool
is_running h = h.running

unfoldable pub register_event_callback : Bool → MessageHandler → MessageHandler
register_event_callback callback h = record h { has_event_callback = callback }

unfoldable pub get_stats : MessageHandler → MessageStats
get_stats h = h.stats
