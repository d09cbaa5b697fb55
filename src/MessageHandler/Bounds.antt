-- ===== src/MessageHandler/Bounds.antt =====
-- The bounds that every history of calls of src/MessageHandler.cpp keeps.
use barren_engine.Common.{
  ℕ, ◌+◌, ◌-◌, ◌*◌, ◌^◌, ◌≤◌, ◌≡◌, refl, sym, ap, ◌∙◌, Bool, true, false, not, ◌||◌, List, [], ◌∷◌,
  length, length-append, length-drop, drop, drop_past, leb, ltb, arith, Bool-cases, if_cases, inl,
  inr, Outcome, returns, deadlock,
}
use barren_engine.MessageHandler.Types.{
  Message, MessageQueueConfig, MessageEventType, message_sent, message_dropped, message_retried,
  MessageHandler,
}
use barren_engine.MessageHandler.Operations.{
  new_handler, handle_message_event, clear, resize_queue, initialize, start, stop, enqueue_message,
  send, retried, retry_message, drop_message, update_stats, count_message, register_callback,
  has_callback, unregister_callback, has_callback, process_message, process_queue, time_out_from,
  check_timeouts, process, reset_stats, validate_message,
}
use barren_engine.MessageHandler.Settings.{
  set_processing_interval, enable_compression, enable_encryption, enable_validation, enable_logging,
}
use barren_engine.MessageHandler.Processing.{
  process_queue_lem, process_message_internal_lem, handle_message_event_lem,
}
use barren_engine.MessageHandler.Histories.{
  Call, initializes, starts, stops, clears, resets, sends, handles, processes_one, retries, drops,
  processes, registers, unregisters, filters, listens, sets_interval, compresses, encrypts,
  validates, logs, step, run,
}

pub record IsValid (h : MessageHandler) : Type 0 where
  pub fits : length h.message_queue ≤ h.config.max_queue_size
  pub stopped : h.running ≡ false → h.message_queue ≡ []
  pub none_late : h.stats.messages_timed_out ≡ 0

-- What neither touches the queue, its size, the running flag nor the count of late messages.
unchanged :
    (h h' : MessageHandler)
    → h'.message_queue ≡ h.message_queue
    → h'.config.max_queue_size ≡ h.config.max_queue_size
    → h'.running ≡ h.running
    → h'.stats.messages_timed_out ≡ h.stats.messages_timed_out
    → IsValid h
    → IsValid h'
unchanged h h' q s r t v = record {
  fits = rw (q, s) v.fits;
  stopped = λ x. q ∙ v.stopped (sym r ∙ x);
  none_late = t ∙ v.none_late;
}

handle_message_event-IsValid :
    (t : MessageEventType) (message : Message) (h : MessageHandler)
    → IsValid h
    → IsValid (handle_message_event t message h)
handle_message_event-IsValid t message h v =
    rw (handle_message_event_lem t message h) (unchanged h _ refl refl refl refl v)

enqueue_message-IsValid :
    (message : Message) (h : MessageHandler)
    → h.running ≡ true
    → IsValid h
    → IsValid (enqueue_message message h)
unfolding enqueue_message
enqueue_message-IsValid message h r v =
    elim (Bool-cases (leb h.config.max_queue_size (length h.message_queue))) [
      | inl f ↦ rw f (handle_message_event-IsValid _ message h v)
      | inr f ↦ rw f (record {
        fits = ground (arith, length-append h.message_queue (message ∷ []));
        stopped = λ s. cc;
        none_late = v.none_late;
      })
    ]

initialize-IsValid :
    (size : ℕ) (config : MessageQueueConfig) (h : MessageHandler)
    → IsValid h
    → IsValid (step size h (initializes config))
unfolding step initialize resize_queue
initialize-IsValid size config h v =
    if_cases {A = Outcome MessageHandler} (λ o. IsValid (elim o [ returns h' ↦ h' | deadlock ↦ h ]))
      h.running _ _ (λ r. v)
      (λ r. record {
        fits =
            omega
              (arith, length-drop (length h.message_queue - config.max_queue_size) h.message_queue);
        stopped = λ s.
            ap (λ q. drop (length q - config.max_queue_size) q) (v.stopped r)
            ∙ drop_past _ [] (omega arith);
        none_late = v.none_late;
      })

drop_message-IsValid :
    (size now : ℕ) (message : Message) (h : MessageHandler)
    → IsValid h
    → IsValid (drop_message size now message h)
unfolding drop_message update_stats count_message
drop_message-IsValid size now message h v =
    let w = handle_message_event-IsValid message_dropped message h v in
    record { fits = w.fits; stopped = w.stopped; none_late = w.none_late }

process_message-IsValid :
    (size now : ℕ) (message : Message) (h : MessageHandler)
    → IsValid h
    → IsValid (process_message size now message h)
unfolding process_message count_message
process_message-IsValid size now message h v =
    if_cases IsValid h.running _ h
      (λ r.
        rw (process_message_internal_lem size now message h)
          (record { fits = v.fits; stopped = v.stopped; none_late = v.none_late }))
      (λ r. v)

send-IsValid :
    (now : ℕ) (message : Message) (h : MessageHandler) → IsValid h → IsValid (send now message h).0
unfolding send
send-IsValid now message h v =
    if_cases {A = MessageHandler × Bool} (λ p. IsValid p.0)
      (not h.running || not (validate_message now message h)) _ _ (λ r. v)
      (λ r.
        handle_message_event-IsValid message_sent message _
          (enqueue_message-IsValid message h (ground arith) v))

retry_message-IsValid :
    (size now : ℕ) (message : Message) (h : MessageHandler)
    → IsValid h
    → IsValid (retry_message size now message h)
unfolding retry_message
retry_message-IsValid size now message h v =
    if_cases IsValid (not h.running) _ _ (λ r. v)
      (λ r.
        if_cases IsValid (ltb message.metadata.retry_count message.metadata.max_retries) _ _
          (λ x.
            handle_message_event-IsValid message_retried (retried now message) _
              (enqueue_message-IsValid (retried now message) h (ground arith) v))
          (λ x. drop_message-IsValid size now message h v))

-- The queue is drained before the timeouts are checked, so that the check finds no message.
process-IsValid :
    (size now later : ℕ) (h : MessageHandler) → IsValid h → IsValid (process size now later h).0
unfolding process check_timeouts time_out_from
process-IsValid size now later h v =
    let h' = record h { last_processed = now } in
    let p = process_queue_lem size later h' in
    if_cases {A = MessageHandler × Bool} (λ q. IsValid q.0) (not h.running) _ _ (λ r. v)
      (λ r.
        if_cases {A = MessageHandler × Bool} (λ q. IsValid q.0)
          (ltb now (h.last_processed + h.config.processing_interval * 10 ^ 6)) _ _ (λ x. v)
          (λ x.
            if_cases IsValid (ltb later ((process_queue size later h').last_timeout_check + 10 ^ 9))
              _ _
              (λ y. record {
                fits = omega (arith, ap length p.empty);
                stopped = λ s. p.empty;
                none_late = p.none_late ∙ v.none_late;
              })
              (λ y. rw p.empty (record {
                fits = omega arith;
                stopped = λ s. refl;
                none_late = p.none_late ∙ v.none_late;
              }))))

step-IsValid :
    (size : ℕ) (h : MessageHandler) (call : Call) → IsValid h → IsValid (step size h call)
unfolding step start stop clear reset_stats set_processing_interval enable_compression
    enable_encryption enable_validation enable_logging register_callback unregister_callback
step-IsValid size h (initializes config) v = initialize-IsValid size config h v
step-IsValid size h (starts now) v =
    if_cases IsValid h.running _ _ (λ r. v)
      (λ r. record { fits = v.fits; stopped = λ s. v.stopped r; none_late = v.none_late })
step-IsValid size h stops v =
    if_cases IsValid h.running _ _
      (λ r. record { fits = omega arith; stopped = λ s. refl; none_late = v.none_late }) (λ r. v)
step-IsValid size h clears v = record {
  fits = omega arith;
  stopped = λ s. refl;
  none_late = v.none_late;
}
step-IsValid size h resets v = record { fits = v.fits; stopped = v.stopped; none_late = refl }
step-IsValid size h (sends now message) v = send-IsValid now message h v
step-IsValid size h (handles t message) v = handle_message_event-IsValid t message h v
step-IsValid size h (processes_one now message) v = process_message-IsValid size now message h v
step-IsValid size h (retries now message) v = retry_message-IsValid size now message h v
step-IsValid size h (drops now message) v = drop_message-IsValid size now message h v
step-IsValid size h (processes now later) v = process-IsValid size now later h v
step-IsValid size h (registers t) v =
    if_cases IsValid (has_callback t h.callbacks) _ _ (λ r. v)
      (λ r. record { fits = v.fits; stopped = v.stopped; none_late = v.none_late })
step-IsValid size h (unregisters t) v = unchanged h _ refl refl refl refl v
step-IsValid size h (filters f) v = unchanged h _ refl refl refl refl v
step-IsValid size h (listens b) v = unchanged h _ refl refl refl refl v
step-IsValid size h (sets_interval interval) v = unchanged h _ refl refl refl refl v
step-IsValid size h (compresses b) v = unchanged h _ refl refl refl refl v
step-IsValid size h (encrypts b) v = unchanged h _ refl refl refl refl v
step-IsValid size h (validates b) v = unchanged h _ refl refl refl refl v
step-IsValid size h (logs b) v = unchanged h _ refl refl refl refl v

run-IsValid :
    (size : ℕ) (h : MessageHandler) (calls : List Call) → IsValid h → IsValid (run size h calls)
unfolding run
run-IsValid size h [] v = v
run-IsValid size h (call ∷ calls) v =
    run-IsValid size (step size h call) calls (step-IsValid size h call v)

-- After any history of calls that return on a new handler, the queue fits the configured size, the queue
-- is empty unless the handler runs, and the count of messages that timed out is still zero: `process`
-- drains the queue before it looks for messages that are late.
pub run-new_handler-IsValid :
    (size : ℕ) (memory : MessageQueueConfig) (calls : List Call)
    → IsValid (run size (new_handler memory) calls)
unfolding new_handler
run-new_handler-IsValid size memory calls =
    run-IsValid size (new_handler memory) calls
      (record { fits = omega arith; stopped = λ s. refl; none_late = refl })
