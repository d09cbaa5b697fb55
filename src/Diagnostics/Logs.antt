-- ===== src/Diagnostics/Logs.antt =====
-- Histories of calls of the operations of src/NetworkDiagnostics.cpp, and what its two bounded logs hold.
use Prim.Native.String.{String}
use barren_engine.Common.{
  ℕ, zero, suc, ◌+◌, ◌-◌, ◌≤◌, Bool, true, false, ◌≡◌, refl, ◌∙◌, ap, List, [], ◌∷◌, ◌++◌, length,
  drop, ltb, if◌then◌else◌, if_cases, Doubles, last, length-last, last-append, last_step, arith,
  length-append, length-drop, drop-drop,
}
use barren_engine.Diagnostics.Types.{NetworkMetrics, NetworkCondition, NetworkDiagnostics}
use barren_engine.Diagnostics.Operations.{
  max_errors, max_metrics_history, pop_while, update_metrics, reset_metrics, log_error,
  clear_errors, set_network_condition, disable_network_condition, start_packet_capture,
  stop_packet_capture, set_bandwidth_limit, set_metrics_callback, set_error_callback,
}

pop_while-last :
    (fuel : ℕ) (errors : List String)
    → length errors - max_errors ≤ fuel
    → pop_while fuel errors ≡ last max_errors errors
unfolding pop_while last
pop_while-last zero errors h =
    let e : 0 ≡ length errors - max_errors = omega arith in ap (λ i. drop i errors) e
pop_while-last (suc fuel) errors h =
    if_cases {A = List String} (λ ys. ys ≡ last max_errors errors) (ltb max_errors (length errors))
      _ _
      (λ e.
        let f : length errors ≡ suc (length (drop 1 errors)) =
          let l = length-drop 1 errors in ground arith in
        let g : 1 + (length (drop 1 errors) - max_errors) ≡ length errors - max_errors =
          ground arith in
        pop_while-last fuel (drop 1 errors) (omega arith)
        ∙ drop-drop (length (drop 1 errors) - max_errors) 1 errors
        ∙ ap (λ i. drop i errors) g)
      (λ e. let f : 0 ≡ length errors - max_errors = ground arith in ap (λ i. drop i errors) f)

pub data Call (D : Type 0) : Type 0 where
  updates : NetworkMetrics D → Call D
  logs : String → Call D
  resets clears disables stops_capture : Call D
  sets_condition : NetworkCondition D → Call D
  starts_capture sets_metrics_callback sets_error_callback : Bool → Call D
  limits : ℕ → Call D

-- All metrics since the last reset, and all errors since the last time that they were cleared.
pub record Log (D : Type 0) : Type 0 where
  pub metrics : List (NetworkMetrics D)
  pub errors : List String

unfoldable pub note : {D : Type 0} → Log D → Call D → Log D
note l (updates metrics) = record l { metrics = l.metrics ++ metrics ∷ [] }
note l (logs error) = record l { errors = l.errors ++ error ∷ [] }
note l resets = record l { metrics = [] }
note l clears = record l { errors = [] }
note l _ = l

unfoldable pub note_all : {D : Type 0} → Log D → List (Call D) → Log D
note_all l [] = l
note_all l (call ∷ calls) = note_all (note l call) calls

module _ {D : Type 0} ⦃d : Doubles D⦄ where
  unfoldable pub step : NetworkDiagnostics D → Call D → NetworkDiagnostics D
  step n (updates metrics) = update_metrics metrics n
  step n (logs error) = log_error error n
  step n resets = reset_metrics n
  step n clears = clear_errors n
  step n disables = disable_network_condition n
  step n stops_capture = stop_packet_capture n
  step n (sets_condition condition) = set_network_condition condition n
  step n (starts_capture opens) = start_packet_capture opens n
  step n (limits limit) = set_bandwidth_limit limit n
  step n (sets_metrics_callback callback) = set_metrics_callback callback n
  step n (sets_error_callback callback) = set_error_callback callback n

  unfoldable pub run : NetworkDiagnostics D → List (Call D) → NetworkDiagnostics D
  run n [] = n
  run n (call ∷ calls) = run (step n call) calls

  -- The bounded logs hold the end of the unbounded ones, and an open file is being written to.
  pub record Keeps (n : NetworkDiagnostics D) (l : Log D) : Type 0 where
    pub history : n.metrics_history ≡ last max_metrics_history l.metrics
    pub errors : n.recent_errors ≡ last max_errors l.errors
    pub capture : n.is_capturing ≡ n.capture_is_open

  update_metrics-Keeps :
      (metrics : NetworkMetrics D) (n : NetworkDiagnostics D) (l : Log D)
      → Keeps n l
      → Keeps (update_metrics metrics n) (note l (updates metrics))
  unfolding update_metrics note
  update_metrics-Keeps metrics n l k =
      let h = n.metrics_history ++ metrics ∷ [] in
      let small : length h ≤ suc max_metrics_history =
        let e = ap length k.history in
        omega (
          arith,
          length-append n.metrics_history (metrics ∷ []),
          length-last max_metrics_history l.metrics,
        ) in
      record {
        history =
            last_step max_metrics_history h small
            ∙ ap (λ xs. last max_metrics_history (xs ++ metrics ∷ [])) k.history
            ∙ last-append max_metrics_history l.metrics metrics;
        errors = k.errors;
        capture = k.capture;
      }

  log_error-Keeps :
      (error : String) (n : NetworkDiagnostics D) (l : Log D)
      → Keeps n l
      → Keeps (log_error error n) (note l (logs error))
  unfolding log_error note
  log_error-Keeps error n l k =
      let errors = n.recent_errors ++ error ∷ [] in
      record {
        history = k.history;
        errors =
            pop_while-last (length errors) errors (omega arith)
            ∙ ap (λ xs. last max_errors (xs ++ error ∷ [])) k.errors
            ∙ last-append max_errors l.errors error;
        capture = k.capture;
      }

  stop_packet_capture-Keeps :
      (n : NetworkDiagnostics D) (l : Log D) → Keeps n l → Keeps (stop_packet_capture n) l
  unfolding stop_packet_capture
  stop_packet_capture-Keeps n l k =
      if_cases {A = NetworkDiagnostics D} (λ m. Keeps m l) n.is_capturing _ _
        (λ e. record { history = k.history; errors = k.errors; capture = refl }) (λ e. k)

  -- A manager that is stopped, and opens the file or not.
  opened-Keeps :
      (b : Bool) (n : NetworkDiagnostics D) (l : Log D)
      → n.is_capturing ≡ false
      → Keeps n l
      → Keeps
          (let opened = record n { capture_is_open = b } in
            if opened.capture_is_open then record opened { is_capturing = true } else opened)
          l
  opened-Keeps true n l h k = record { history = k.history; errors = k.errors; capture = refl }
  opened-Keeps false n l h k = record { history = k.history; errors = k.errors; capture = h }

  stop_packet_capture_lem :
      (n : NetworkDiagnostics D)
      → (if n.is_capturing then stop_packet_capture n else n).is_capturing ≡ false
  unfolding stop_packet_capture
  stop_packet_capture_lem n =
      if_cases {A = NetworkDiagnostics D} (λ m. m.is_capturing ≡ false) n.is_capturing _ _
        (λ e. rw (stop_packet_capture, e) refl) (λ e. e)

  start_packet_capture-Keeps :
      (opens : Bool) (n : NetworkDiagnostics D) (l : Log D)
      → Keeps n l
      → Keeps (start_packet_capture opens n) l
  unfolding start_packet_capture
  start_packet_capture-Keeps opens n l k =
      let stopped = if n.is_capturing then stop_packet_capture n else n in
      opened-Keeps (if stopped.capture_is_open then true else opens) stopped l
        (stop_packet_capture_lem n)
        (if_cases {A = NetworkDiagnostics D} (λ m. Keeps m l) n.is_capturing _ _
          (λ e. stop_packet_capture-Keeps n l k) (λ e. k))

  step-Keeps :
      (call : Call D) (n : NetworkDiagnostics D) (l : Log D)
      → Keeps n l
      → Keeps (step n call) (note l call)
  unfolding step note reset_metrics clear_errors disable_network_condition set_network_condition
      set_bandwidth_limit set_metrics_callback set_error_callback last
  step-Keeps (updates metrics) n l k = update_metrics-Keeps metrics n l k
  step-Keeps (logs error) n l k = log_error-Keeps error n l k
  step-Keeps resets n l k = record { history = refl; errors = k.errors; capture = k.capture }
  step-Keeps clears n l k = record { history = k.history; errors = refl; capture = k.capture }
  step-Keeps disables n l k = record { history = k.history; errors = k.errors; capture = k.capture }
  step-Keeps stops_capture n l k = stop_packet_capture-Keeps n l k
  step-Keeps (sets_condition condition) n l k = record {
    history = k.history;
    errors = k.errors;
    capture = k.capture;
  }
  step-Keeps (starts_capture opens) n l k = start_packet_capture-Keeps opens n l k
  step-Keeps (limits limit) n l k = record {
    history = k.history;
    errors = k.errors;
    capture = k.capture;
  }
  step-Keeps (sets_metrics_callback callback) n l k = record {
    history = k.history;
    errors = k.errors;
    capture = k.capture;
  }
  step-Keeps (sets_error_callback callback) n l k = record {
    history = k.history;
    errors = k.errors;
    capture = k.capture;
  }

  -- From a state whose metrics are the last 1000 of a log of metrics, whose errors are the last 100 of a log
  -- of errors, and which is capturing exactly if the file is open, every history of the public calls that change the state leads to a
  -- state of which the same holds with the logs that the calls lengthen, reset and clear.
  pub run-Keeps :
      (calls : List (Call D)) (n : NetworkDiagnostics D) (l : Log D)
      → Keeps n l
      → Keeps (run n calls) (note_all l calls)
  unfolding run note_all
  run-Keeps [] n l k = k
  run-Keeps (call ∷ calls) n l k =
      run-Keeps calls (step n call) (note l call) (step-Keeps call n l k)
