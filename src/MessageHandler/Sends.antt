-- ===== src/MessageHandler/Sends.antt =====
-- Lemmas on `send` and `setQueueSize` of src/MessageHandler.cpp.
use barren_engine.Common.{
  ℕ, ◌≡◌, refl, Bool, true, false, ◌&&◌, List, [], ◌∷◌, ◌++◌, append_assoc, length, leb,
  if◌then◌else◌, Bool-cases, inl, inr, deadlock,
}
use barren_engine.MessageHandler.Types.{
  Message, message_sent, queue_full, Notice, event_callback, MessageHandler,
}
use barren_engine.MessageHandler.Operations.{
  send, enqueue_message, handle_message_event, validate_message, set_queue_size, resize_queue,
}
use barren_engine.MessageHandler.Processing.{handle_message_event_lem}

abbrev pub is_full : MessageHandler → Bool
is_full h = leb h.config.max_queue_size (length h.message_queue)

-- What the event callback hears of a message that is sent.
abbrev pub heard : MessageHandler → Message → List Notice
heard h message =
    if h.has_event_callback
    then (if is_full h then event_callback queue_full message ∷ [] else [])
      ++ event_callback message_sent message ∷ []
    else []

-- `send` answers true exactly if the handler runs and the message is valid, even if the queue is full.
-- It then queues the message last if the queue has room, and leaves the queue if it is full; in
-- both cases an event callback hears that the message was sent, in the second after it heard that the
-- queue is full. In every other case nothing changes.
pub send_cases :
    (now : ℕ) (message : Message) (h : MessageHandler)
    → send now message h ≡ (
        if h.running && validate_message now message h
        then (
          record h {
            message_queue = if is_full h then h.message_queue else h.message_queue ++ message ∷ [];
            notices = h.notices ++ heard h message;
          },
          true,
        )
        else (h, false))
unfolding send enqueue_message validate_message handle_message_event
send_cases now message h = elim (Bool-cases h.running) [
  | inr r ↦ rw r refl
  | inl r ↦ elim (Bool-cases (validate_message now message h)) [
    | inr v ↦ rw (r, v) refl
    | inl v ↦ elim (Bool-cases h.has_event_callback) [
      | inl e ↦ elim (Bool-cases (is_full h)) [
        | inl f ↦ rw (r, v, e, f, handle_message_event_lem, append_assoc) refl
        | inr f ↦ rw (r, v, e, f, handle_message_event_lem) refl
      ]
      | inr e ↦ elim (Bool-cases (is_full h)) [
        | inl f ↦ rw (r, v, e, f, handle_message_event_lem) refl
        | inr f ↦ rw (r, v, e, f, handle_message_event_lem) refl
      ]
    ]
  ]
]

-- `setQueueSize` never returns, whether or not its thread holds the mutex of the queue before: it
-- locks that mutex and calls `resizeQueue`, which locks it again.
pub set_queue_size-deadlock :
    (held : Bool) (size : ℕ) (h : MessageHandler) → set_queue_size held size h ≡ deadlock
unfolding set_queue_size resize_queue
set_queue_size-deadlock true size h = refl
set_queue_size-deadlock false size h = refl
