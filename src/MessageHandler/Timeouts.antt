-- ===== src/MessageHandler/Timeouts.antt =====
-- Lemmas on `checkTimeouts` of src/MessageHandler.cpp.
use barren_engine.Common.{
  ℕ, ◌+◌, ◌^◌, ◌≡◌, refl, sym, ◌∙◌, Bool, not, List, [], ◌∷◌, ◌++◌, append_assoc, append-nil, keep,
  ltb, if◌then◌else◌, Bool-cases, inl, inr,
}
use barren_engine.MessageHandler.Types.{Message, MessageHandler}
use barren_engine.MessageHandler.Operations.{has_timed_out, time_out_from, check_timeouts}

-- What one message adds to those that are kept.
kept_on :
    (test : Message → Bool) (message : Message) (kept rest : List Message)
    → (if test message then kept else kept ++ message ∷ []) ++ keep (λ m. not (test m)) rest
      ≡ kept ++ keep (λ m. not (test m)) (message ∷ rest)
kept_on test message kept rest = elim (Bool-cases (test message)) [
  | inl late ↦ rw (late, keep) refl
  | inr late ↦ rw (late, keep) (append_assoc kept (message ∷ []) (keep (λ m. not (test m)) rest))
]

time_out_from-keep :
    (now : ℕ) (messages kept : List Message) (h : MessageHandler)
    → (time_out_from now messages kept h).message_queue
      ≡ kept ++ keep (λ m. not (has_timed_out now m)) messages
unfolding time_out_from
time_out_from-keep now [] kept h = sym (append-nil kept)
time_out_from-keep now (message ∷ rest) kept h =
    time_out_from-keep now rest (if has_timed_out now message then kept else kept ++ message ∷ []) _
    ∙ kept_on (has_timed_out now) message kept rest

-- A second or more after the last check, `checkTimeouts` keeps in the queue the messages that are not
-- late, in their order, and drops the others; before that it leaves the queue as it is.
pub check_timeouts-keep :
    (now : ℕ) (h : MessageHandler)
    → (check_timeouts now h).message_queue ≡ (
        if ltb now (h.last_timeout_check + 10 ^ 9)
        then h.message_queue
        else keep (λ m. not (has_timed_out now m)) h.message_queue)
unfolding check_timeouts
check_timeouts-keep now h = elim (Bool-cases (ltb now (h.last_timeout_check + 10 ^ 9))) [
  | inl early ↦ rw early refl
  | inr due ↦ rw due (time_out_from-keep now h.message_queue [] _)
]
