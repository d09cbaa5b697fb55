-- ===== src/ConnectionManager/Stale.antt =====
-- The removal of stale connections and the event queue of `ConnectionManager` in
-- src/connection/ConnectionManager.cpp.
use barren_engine.Common.{
  ℕ, suc, Bool, true, false, not, ◌&&◌, ◌≡◌, refl, sym, ◌∙◌, ap, subst, fun_ext, List, [], ◌∷◌,
  ◌++◌, Bytes, Option, some, if◌then◌else◌, if_cases, find, bytes_key, bytes_eq, bytes_eq_iff, map,
  keep, append-nil, append_assoc, get_or_else, find-assign,
}
use barren_engine.ConnectionManager.Types.{
  ConnectionState, is_connected_state, ConnectionStats, zero_stats, ConnectionEvent, Notice,
  event_callback, ConnectionManager,
}
use barren_engine.ConnectionManager.Maintenance.{
  process_queued_messages, drain_events, is_stale, stats_of, touch_stats, keep_fresh,
  cleanup_stale_connections, handle_connection_timeout,
}

-- A connected entry whose statistics are older than the timeout.
unfoldable pub is_expired : ℕ → ConnectionManager → Bytes × ConnectionState → Bool
is_expired now m e = is_connected_state e.1 && is_stale now m (stats_of e.0 m)

abbrev pub is_kept : ℕ → ConnectionManager → Bytes × ConnectionState → Bool
is_kept now m e = not (is_expired now m e)

found_or :
    (b : Bool) (s : ConnectionStats) (o : Option ConnectionStats)
    → (b ≡ true → s ≡ get_or_else o zero_stats)
    → get_or_else (if b then some s else o) zero_stats ≡ get_or_else o zero_stats
found_or true s o h = h refl
found_or false s o h = refl

stats_of-touch_stats :
    (a b : Bytes) (m : ConnectionManager) → stats_of b (touch_stats a m) ≡ stats_of b m
stats_of-touch_stats a b m = rw (find-assign a b (stats_of a m) m.connection_stats) (
    found_or (bytes_eq a b) (stats_of a m) (find b m.connection_stats)
      (λ e. ap (λ c. stats_of c m) ((bytes_eq_iff a b).0 e)))

is_expired-touch_stats :
    (now : ℕ) (a : Bytes) (m : ConnectionManager)
    → is_expired now (touch_stats a m) ≡ is_expired now m
unfolding is_expired is_stale
is_expired-touch_stats now a m = fun_ext (λ e. rw (stats_of-touch_stats a e.0 m) refl)

abbrev pub addresses : List ConnectionEvent → List Bytes
addresses events = map (λ e. e.address) events

is_expired-handle_connection_timeout :
    (now : ℕ) (a : Bytes) (t : ℕ) (m : ConnectionManager)
    → is_expired now (handle_connection_timeout a t (touch_stats a m)) ≡ is_expired now m
unfolding is_expired is_stale handle_connection_timeout
is_expired-handle_connection_timeout now a t m =
    fun_ext (λ e. rw (stats_of-touch_stats a e.0 m) refl)

addresses-snoc :
    (events : List ConnectionEvent) (event : ConnectionEvent) (more : List Bytes)
    → addresses (events ++ event ∷ []) ++ more ≡ addresses events ++ event.address ∷ more
addresses-snoc [] event more = refl
addresses-snoc (e ∷ events) event more = ap (◌∷◌ e.address) (addresses-snoc events event more)

-- What the loop over the connections does with the entries, of which `p` are to go.
abbrev Cleans :
    (Bytes × ConnectionState → Bool)
    → List ConnectionEvent
    → List (Bytes × ConnectionState)
    → List (Bytes × ConnectionState) × ConnectionManager
    → Type 0
Cleans p events entries r =
    (r.0 ≡ keep (λ e. not (p e)) entries)
    × (addresses r.1.event_queue ≡ addresses events ++ map (λ e. e.0) (keep p entries))

keep_fresh-Cleans :
    (now : ℕ) (times : ℕ → ℕ) (i : ℕ) (entries : List (Bytes × ConnectionState))
    (m : ConnectionManager)
    → Cleans (is_expired now m) m.event_queue entries (keep_fresh now times i entries m)
unfolding keep_fresh is_expired handle_connection_timeout
keep_fresh-Cleans now times i [] m = (refl, sym (append-nil (addresses m.event_queue)))
keep_fresh-Cleans now times i ((address, state) ∷ rest) m =
    let timed = handle_connection_timeout address (times i) (touch_stats address m) in
    let goal = Cleans (is_expired now m) m.event_queue ((address, state) ∷ rest) in
    let expired : Cleans (is_expired now m) timed.event_queue rest
        (keep_fresh now times (suc i) rest timed) =
      subst (λ p. Cleans p timed.event_queue rest (keep_fresh now times (suc i) rest timed))
        (is_expired-handle_connection_timeout now address (times i) m)
        (keep_fresh-Cleans now times (suc i) rest timed) in
    let touched : Cleans (is_expired now m) m.event_queue rest
        (keep_fresh now times i rest (touch_stats address m)) =
      subst (λ p. Cleans p m.event_queue rest (keep_fresh now times i rest (touch_stats address m)))
        (is_expired-touch_stats now address m)
        (keep_fresh-Cleans now times i rest (touch_stats address m)) in
    let passed = keep_fresh-Cleans now times i rest m in
    if_cases {A = List (Bytes × ConnectionState) × ConnectionManager} goal
      (is_connected_state state) _ _
      (λ e.
        if_cases {A = List (Bytes × ConnectionState) × ConnectionManager} goal
          (is_stale now m (stats_of address m)) _ _
          (λ f. simp (keep, e, f) (expired.0, expired.1 ∙ addresses-snoc m.event_queue _ _))
          (λ f. simp (keep, e, f) (ap (◌∷◌ (address, state)) touched.0, touched.1)))
      (λ e. simp (keep, e) (ap (◌∷◌ (address, state)) passed.0, passed.1))

-- On a running manager `cleanupStaleConnections` keeps, in their order, the entries that are not both
-- connected and without activity for longer than the timeout, and reports the others, in their order.
pub cleanup_stale_connections_lem :
    (now : ℕ) (times : ℕ → ℕ) (m : ConnectionManager)
    → m.running ≡ true
    → let after = cleanup_stale_connections now times m in
      (after.connection_states ≡ keep (is_kept now m) m.connection_states)
      × (addresses after.event_queue
          ≡ addresses m.event_queue ++ map (λ e. e.0) (keep (is_expired now m) m.connection_states))
unfolding cleanup_stale_connections
cleanup_stale_connections_lem now times m h =
    let c = keep_fresh-Cleans now times 0 m.connection_states m in
    simp (cleanup_stale_connections, h) c

-- The calls of the callback, where it is set, on the events.
abbrev pub deliveries : Bool → List ConnectionEvent → List Notice
deliveries b events = if b then map event_callback events else []

deliveries-cons :
    (b : Bool) (event : ConnectionEvent) (events : List ConnectionEvent) (notices : List Notice)
    → (notices ++ deliveries b (event ∷ [])) ++ deliveries b events
      ≡ notices ++ deliveries b (event ∷ events)
deliveries-cons true event events notices =
    append_assoc notices (event_callback event ∷ []) (map event_callback events)
deliveries-cons false event events notices = ap (λ n. n ++ []) (append-nil notices)

deliveries-nil : (b : Bool) (notices : List Notice) → notices ≡ notices ++ deliveries b []
deliveries-nil true notices = sym (append-nil notices)
deliveries-nil false notices = sym (append-nil notices)

drain_events-notices :
    (events : List ConnectionEvent) (m : ConnectionManager)
    → m.event_queue ≡ events
    → ((drain_events events m).event_queue ≡ [])
      × ((drain_events events m).notices ≡ m.notices ++ deliveries m.has_event_callback events)
unfolding drain_events
drain_events-notices [] m h = (h, deliveries-nil m.has_event_callback m.notices)
drain_events-notices (event ∷ events) m h =
    let delivered = record m {
      event_queue = events;
      notices = m.notices ++ deliveries m.has_event_callback (event ∷ []);
    } in
    let (e, d) = drain_events-notices events delivered refl in
    (e, d ∙ deliveries-cons m.has_event_callback event events m.notices)

-- `processQueuedMessages` empties the queue and hands each of its events, in order, to the event callback
-- where one is set.
pub process_queued_messages_lem :
    (m : ConnectionManager)
    → ((process_queued_messages m).event_queue ≡ [])
      × ((process_queued_messages m).notices
          ≡ m.notices ++ deliveries m.has_event_callback m.event_queue)
unfolding process_queued_messages
process_queued_messages_lem m = drain_events-notices m.event_queue m refl
