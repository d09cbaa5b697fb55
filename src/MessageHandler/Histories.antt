-- ===== src/MessageHandler/Histories.antt =====
-- Histories of calls of the public operations of src/MessageHandler.cpp.
use barren_engine.Common.{ℕ, Bool, Option, List, [], ◌∷◌, returns, deadlock}
use barren_engine.MessageHandler.Types.{
  Message, MessageType, MessageQueueConfig, MessageEventType, MessageHandler,
}
use barren_engine.MessageHandler.Operations.{
  handle_message_event, clear, initialize, start, stop, send, retry_message, drop_message,
  register_callback, unregister_callback, process_message, process, reset_stats,
}
use barren_engine.MessageHandler.Settings.{
  set_processing_interval, enable_compression, enable_encryption, enable_validation, enable_logging,
}

pub data Call : Type 0 where
  initializes : MessageQueueConfig → Call
  starts : ℕ → Call
  stops clears resets : Call
  sends : ℕ → Message → Call
  handles : MessageEventType → Message → Call
  processes_one retries drops : ℕ → Message → Call
  processes : ℕ → ℕ → Call
  registers unregisters : MessageType → Call
  filters : Option (Message → Bool) → Call
  listens : Bool → Call
  sets_interval : ℕ → Call
  compresses encrypts validates logs : Bool → Call

-- A call that returns; `initialize` returns if its thread holds no mutex, as here.
unfoldable pub step : ℕ → MessageHandler → Call → MessageHandler
step size h (initializes config) = elim (initialize config h) [ returns h' ↦ h' | deadlock ↦ h ]
step size h (starts now) = start now h
step size h stops = stop h
step size h clears = clear h
step size h resets = reset_stats h
step size h (sends now message) = (send now message h).0
step size h (handles t message) = handle_message_event t message h
step size h (processes_one now message) = process_message size now message h
step size h (retries now message) = retry_message size now message h
step size h (drops now message) = drop_message size now message h
step size h (processes now later) = (process size now later h).0
step size h (registers t) = register_callback t h
step size h (unregisters t) = unregister_callback t h
step size h (filters f) = record h { message_filter = f }
step size h (listens b) = record h { has_event_callback = b }
step size h (sets_interval interval) = set_processing_interval interval h
step size h (compresses b) = enable_compression b h
step size h (encrypts b) = enable_encryption b h
step size h (validates b) = enable_validation b h
step size h (logs b) = enable_logging b h

unfoldable pub run : ℕ → MessageHandler → List Call → MessageHandler
run size h [] = h
run size h (call ∷ calls) = run size (step size h call) calls
