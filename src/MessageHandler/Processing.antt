-- ===== src/MessageHandler/Processing.antt =====
-- Lemmas on `processQueue` of src/MessageHandler.cpp.
use barren_engine.Common.{
  ℕ, ◌+◌, ◌%◌, ◌^◌, ◌≡◌, refl, ap, sym, ◌∙◌, Bool, true, false, ◌&&◌, List, [], ◌∷◌, ◌++◌,
  append_assoc, append-nil, u32_mod, length, keep, arith, if◌then◌else◌, Bool-cases, inl, inr,
}
use barren_engine.MessageHandler.Types.{
  MessageType, MessageEventType, Message, Notice, message_callback, event_callback,
  message_processed, MessageHandler,
}
use barren_engine.MessageHandler.Operations.{
  handle_message_event, update_stats, count_message, has_callback, process_message_internal, passes,
  process_from, process_queue,
}

-- What is called for a message that is processed.
abbrev pub calls : Bool → List MessageType → Message → List Notice
calls told callbacks message =
    (if has_callback message.metadata.type callbacks then message_callback message ∷ [] else [])
    ++ (if told then event_callback message_processed message ∷ [] else [])

abbrev pub all_calls : Bool → List MessageType → List Message → List Notice
all_calls told callbacks [] = []
all_calls told callbacks (message ∷ rest) =
    calls told callbacks message ++ all_calls told callbacks rest

pub handle_message_event_lem :
    (t : MessageEventType) (message : Message) (h : MessageHandler)
    → handle_message_event t message h ≡ record h {
      notices =
          h.notices
          ++ (if h.running && h.has_event_callback then event_callback t message ∷ [] else []);
    }
unfolding handle_message_event
handle_message_event_lem t message h = elim (Bool-cases (h.running && h.has_event_callback)) [
  | inl b ↦ rw b refl
  | inr b ↦ rw (b, append-nil h.notices) refl
]

-- The state after a message of which the queue is rid.
abbrev pub processed : ℕ → ℕ → Message → MessageHandler → MessageHandler
processed metadata_size now message h = record h {
  notices = h.notices ++ calls (h.running && h.has_event_callback) h.callbacks message;
  stats = record (count_message metadata_size message true h.stats) {
    queue_size = length h.message_queue % u32_mod;
    queue_capacity = h.config.max_queue_size % u32_mod;
    last_processed = now;
  };
}

pub process_message_internal_lem :
    (metadata_size now : ℕ) (message : Message) (h : MessageHandler)
    → process_message_internal metadata_size now message h ≡ processed metadata_size now message h
unfolding process_message_internal update_stats
process_message_internal_lem metadata_size now message h =
    elim (Bool-cases (has_callback message.metadata.type h.callbacks)) [
      | inl a ↦ rw (a, handle_message_event_lem, append_assoc) refl
      | inr a ↦ rw (a, handle_message_event_lem) refl
    ]

-- The result of the loop over `messages`, from a state that has the fields of `h` outside the queue.
pub record IsProcessed (h : MessageHandler) (messages : List Message) (after : MessageHandler)
    : Type 0 where
  pub empty : after.message_queue ≡ []
  pub told :
      after.notices
      ≡ h.notices
        ++ all_calls
            (h.running && h.has_event_callback)
            h.callbacks
            (keep (passes h.message_filter) messages)
  pub counted :
      after.stats.messages_processed % 2 ^ 64
      ≡ (h.stats.messages_processed + length (keep (passes h.message_filter) messages)) % 2 ^ 64
  pub none_late : after.stats.messages_timed_out ≡ h.stats.messages_timed_out
  pub same_capacity : after.config ≡ h.config
  pub same_running : after.running ≡ h.running

keep_pass :
    {A : Type 0} (test : A → Bool) (x : A) (xs : List A)
    → test x ≡ true
    → keep test (x ∷ xs) ≡ x ∷ keep test xs
keep_pass test x xs e = rw (e, keep) refl

keep_fail :
    {A : Type 0} (test : A → Bool) (x : A) (xs : List A)
    → test x ≡ false
    → keep test (x ∷ xs) ≡ keep test xs
keep_fail test x xs e = rw (e, keep) refl

process_from_lem :
    (metadata_size now : ℕ) (messages : List Message) (h : MessageHandler)
    → IsProcessed h messages (process_from metadata_size now messages h)
unfolding process_from count_message
process_from_lem metadata_size now [] h = record {
  empty = refl;
  told = sym (append-nil h.notices);
  counted = omega arith;
  none_late = refl;
  same_capacity = refl;
  same_running = refl;
}
process_from_lem metadata_size now (message ∷ rest) h =
    let taken = record h { message_queue = rest } in
    elim (Bool-cases (passes h.message_filter message)) [
      | inl p ↦
          rw (p, process_message_internal_lem metadata_size now message taken)
            (let kept : keep (passes h.message_filter) (message ∷ rest)
                  ≡ message ∷ keep (passes h.message_filter) rest =
                keep_pass (passes h.message_filter) message rest p in
              let ih =
                process_from_lem metadata_size now rest
                  (processed metadata_size now message taken) in
              record {
                empty = ih.empty;
                told =
                    ih.told
                    ∙ append_assoc h.notices _ _
                    ∙ ap
                        (λ l.
                          h.notices ++ all_calls (h.running && h.has_event_callback) h.callbacks l)
                        (sym kept);
                counted = omega (arith, ih.counted, ap length kept);
                none_late = ih.none_late;
                same_capacity = ih.same_capacity;
                same_running = ih.same_running;
              })
      | inr p ↦ rw p (
          let ih = process_from_lem metadata_size now rest taken in
          let kept = keep_fail (passes h.message_filter) message rest p in
          record {
            empty = ih.empty;
            told =
                ih.told
                ∙ ap (λ l. h.notices ++ all_calls (h.running && h.has_event_callback) h.callbacks l)
                    (sym kept);
            counted = omega (arith, ih.counted, ap length kept);
            none_late = ih.none_late;
            same_capacity = ih.same_capacity;
            same_running = ih.same_running;
          })
    ]

-- `processQueue` empties the queue and passes each message that the filter lets through, and no other,
-- in the order of arrival, to the callback of its type, if there is one, and then to the event
-- callback, if there is one and the handler runs; it counts just these messages, modulo 2 ^ 64, and
-- changes neither the configuration, nor the count of timeouts, nor whether the handler runs.
pub process_queue_lem :
    (metadata_size now : ℕ) (h : MessageHandler)
    → IsProcessed h h.message_queue (process_queue metadata_size now h)
unfolding process_queue
process_queue_lem metadata_size now h = process_from_lem metadata_size now h.message_queue h
