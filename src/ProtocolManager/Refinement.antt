-- ===== src/ProtocolManager/Refinement.antt =====
-- The histories of `ProtocolManager` in src/ProtocolManager.cpp against their sessions.
use barren_engine.Common.{
  Access, reached, null_pointer, ℕ, Bool, true, false, not, ◌≡◌, refl, ◌∙◌, ◌⊎◌, inl, inr, Option,
  none, some, List, [], ◌∷◌, Bytes, if◌then◌else◌, if_cases, is_some, Doubles, arith,
}
use barren_engine.Address.{validate_address}
use barren_engine.ProtocolManager.Types.{ProtocolConfig, ProtocolImpl, ProtocolManager}
use barren_engine.ProtocolManager.Operations.{
  make_impl, new_manager, initialize, start, stop, is_running, connect, disconnect, is_connected,
  send, broadcast, receive, set_protocol_type, set_compression, reset_stats, get_connected_peers,
  enable_multiplexing, set_encryption, set_message_callback, set_connection_callback,
}
use barren_engine.ProtocolManager.Sessions.{
  Call, initializes, starts, stops, asks_running, resets, connects, disconnects, asks_connected,
  receives, sends, broadcasts, sets_type, sets_compression, sets_encryption, multiplexes,
  sets_message_callback, sets_connection_callback, asks_peers, Reply, answered, step, run, Session,
  answer, converse,
}
use barren_engine.ProtocolManager.Stubs.{impl-IsStub}

gate : (b : Bool) → (if not b then reached false else reached true) ≡ reached b
gate true = refl
gate false = refl

module _ {D : Type 0} ⦃d : Doubles D⦄ where
  abbrev pub session : ProtocolManager D → Session
  session m = record { protocol = m.impl; running = m.running }

  -- A manager that runs has the object of a protocol.
  unfoldable pub IsRunnable : ProtocolManager D → Type 0
  IsRunnable m = m.running ≡ true → is_some m.impl ≡ true

  -- The outcome of the code against that of the session.
  abbrev Matches : {R : Type 0} → Access (ProtocolManager D × R) → Access (Session × R) → Type 0
  Matches {R} o p =
      ((q : ProtocolManager D × R) × (o ≡ reached q)
        × (p ≡ reached (session q.0, q.1))
        × IsRunnable q.0)
      ⊎ ((o ≡ null_pointer) × (p ≡ null_pointer))

  connect_running :
      (address : Bytes) (port : ℕ) (impl : ProtocolImpl) (m : ProtocolManager D)
      → connect address port (record m { running = true; impl = some impl })
        ≡ reached (validate_address address)
  unfolding connect
  connect_running address port impl m =
      rw ((impl-IsStub impl).connects_lem address port) (gate (validate_address address))

  send_running :
      (address bytes : Bytes) (impl : ProtocolImpl) (m : ProtocolManager D)
      → send address bytes (record m { running = true; impl = some impl })
        ≡ reached (validate_address address)
  unfolding send
  send_running address bytes impl m =
      rw ((impl-IsStub impl).sends_lem address bytes) (gate (validate_address address))

  receive_running :
      (address : Bytes) (impl : ProtocolImpl) (m : ProtocolManager D)
      → receive address (record m { running = true; impl = some impl }) ≡ reached []
  unfolding receive
  receive_running address impl m = rw ((impl-IsStub impl).receives_lem address) (
      if_cases {A = Access Bytes} (λ o. o ≡ reached []) (not (validate_address address)) _ _
        (λ e. refl) (λ e. refl))

  -- The calls on a manager whose flag and pointer are known.
  step_at :
      (call : Call) (r : Bool) (i : Option ProtocolImpl) (m : ProtocolManager D)
      → (r ≡ true → is_some i ≡ true)
      → let n = record m { running = r; impl = i } in
        Matches (step n call) (answer (session n) call)
  unfolding step answer initialize start stop is_running connect disconnect is_connected send
      broadcast receive set_protocol_type set_compression reset_stats get_connected_peers IsRunnable
      enable_multiplexing set_encryption set_message_callback set_connection_callback
  step_at call true none m h = absurd (ground (arith, h))
  step_at (initializes config) r i m h =
      rw ((impl-IsStub (make_impl config.type)).initializes_lem config)
        (inl (_, refl, refl, λ e. refl))
  step_at starts true (some impl) m h = inl (_, refl, refl, λ e. refl)
  step_at stops true (some impl) m h =
      rw ((impl-IsStub impl).stops_lem) (inl (_, refl, refl, λ e. refl))
  step_at asks_running r i m h = inl (_, refl, refl, h)
  step_at resets r i m h = inl (_, refl, refl, h)
  step_at (connects address port) true (some impl) m h =
      rw (connect_running address port impl m) (inl (_, refl, refl, λ e. refl))
  step_at (disconnects address) true (some impl) m h =
      rw ((impl-IsStub impl).disconnects_lem address) (inl (_, refl, refl, λ e. refl))
  step_at (asks_connected address) r i m h = inl (_, refl, refl, h)
  step_at (receives address) true (some impl) m h =
      rw (receive_running address impl m) (inl (_, refl, refl, λ e. refl))
  step_at (sends address bytes) true (some impl) m h =
      rw (send_running address bytes impl m) (inl (_, refl, refl, λ e. refl))
  step_at (broadcasts bytes) true (some impl) m h = inl (_, refl, refl, λ e. refl)
  step_at (sets_type type) true (some impl) m h = inl (_, refl, refl, λ e. refl)
  step_at (sets_compression enable) r i m h = inl (_, refl, refl, h)
  step_at (sets_encryption enable) r i m h = inl (_, refl, refl, h)
  step_at (multiplexes enable) r i m h = inl (_, refl, refl, h)
  step_at (sets_message_callback callback) r i m h = inl (_, refl, refl, h)
  step_at (sets_connection_callback callback) r i m h = inl (_, refl, refl, h)
  step_at asks_peers r i m h = inl (_, refl, refl, h)
  step_at starts false none m h = inr (refl, refl)
  step_at starts false (some impl) m h =
      rw ((impl-IsStub impl).starts_lem) (inl (_, refl, refl, λ e. refl))
  step_at stops false i m h = inl (_, refl, refl, h)
  step_at (connects address port) false i m h = inl (_, refl, refl, h)
  step_at (disconnects address) false i m h = inl (_, refl, refl, h)
  step_at (receives address) false i m h = inl (_, refl, refl, h)
  step_at (sends address bytes) false i m h = inl (_, refl, refl, h)
  step_at (broadcasts bytes) false i m h = inl (_, refl, refl, h)
  step_at (sets_type type) false i m h = inl (_, refl, refl, λ e. refl)

  run-Matches :
      (calls : List Call) (m : ProtocolManager D)
      → IsRunnable m
      → Matches (run m calls) (converse (session m) calls)
  unfolding run converse IsRunnable
  run-Matches [] m h = inl (_, refl, refl, h)
  run-Matches (call ∷ calls) m h = elim (step_at call m.running m.impl m h) [
    | inl ((n, r), e, f, k) ↦ elim (run-Matches calls n k) [
      | inl ((n', rs), e', f', k') ↦
          inl ((n', r ∷ rs), rw (run, e, e') refl, rw (converse, f, f') refl, k')
      | inr (e', f') ↦ inr (rw (run, e, e') refl, rw (converse, f, f') refl)
    ]
    | inr (e, f) ↦ inr (rw (run, e) refl, rw (converse, f) refl)
  ]

  abbrev pub in_session : {R : Type 0} → Access (ProtocolManager D × R) → Access (Session × R)
  in_session (reached (m, r)) = reached (session m, r)
  in_session null_pointer = null_pointer

  -- On a manager that has the object of a protocol if it runs, every history of public calls, `getStats`
  -- aside, gives the replies, and leads to the protocol and the running flag, that the same calls give on its session, and
  -- goes through a null pointer exactly where the session does: where it is started without a protocol.
  pub run-converse :
      (calls : List Call) (m : ProtocolManager D)
      → IsRunnable m
      → in_session (run m calls) ≡ converse (session m) calls
  run-converse calls m h = elim (run-Matches calls m h) [
    | inl (q, e, f, k) ↦ rw (e, f) refl
    | inr (e, f) ↦ rw (e, f) refl
  ]

-- A session with a protocol keeps having one.
answer_keeps :
    (call : Call) (impl : ProtocolImpl) (r : Bool)
    → (i : ProtocolImpl) × (b : Bool) × (reply : Reply) × (answer
          (record { protocol = some impl; running = r })
          call
        ≡ reached (record { protocol = some i; running = b }, reply))
unfolding answer
answer_keeps (initializes config) impl r = (_, _, _, refl)
answer_keeps starts impl true = (_, _, _, refl)
answer_keeps starts impl false = (_, _, _, refl)
answer_keeps stops impl r = (_, _, _, refl)
answer_keeps asks_running impl r = (_, _, _, refl)
answer_keeps resets impl r = (_, _, _, refl)
answer_keeps (connects address port) impl r = (_, _, _, refl)
answer_keeps (disconnects address) impl r = (_, _, _, refl)
answer_keeps (asks_connected address) impl r = (_, _, _, refl)
answer_keeps (receives address) impl r = (_, _, _, refl)
answer_keeps (sends address bytes) impl r = (_, _, _, refl)
answer_keeps (broadcasts bytes) impl r = (_, _, _, refl)
answer_keeps (sets_type type) impl true = (_, _, _, refl)
answer_keeps (sets_type type) impl false = (_, _, _, refl)
answer_keeps (sets_compression enable) impl r = (_, _, _, refl)
answer_keeps (sets_encryption enable) impl r = (_, _, _, refl)
answer_keeps (multiplexes enable) impl r = (_, _, _, refl)
answer_keeps (sets_message_callback callback) impl r = (_, _, _, refl)
answer_keeps (sets_connection_callback callback) impl r = (_, _, _, refl)
answer_keeps asks_peers impl r = (_, _, _, refl)

converse_keeps :
    (calls : List Call) (impl : ProtocolImpl) (r : Bool)
    → (t : Session × List Reply) × (converse (record { protocol = some impl; running = r }) calls
        ≡ reached t)
unfolding converse
converse_keeps [] impl r = (_, refl)
converse_keeps (call ∷ calls) impl r =
    let (i, b, reply, e) = answer_keeps call impl r in
    let (u, f) = converse_keeps calls i b in ((u.0, reply ∷ u.1), rw (converse, e, f) refl)

converse_initializes :
    (config : ProtocolConfig) (calls : List Call)
    → (t : Session × List Reply) × (converse
          (record { protocol = none; running = false })
          (initializes config ∷ calls)
        ≡ reached t)
unfolding converse answer
converse_initializes config calls =
    let (u, f) = converse_keeps calls (make_impl config.type) false in
    ((u.0, answered true ∷ u.1), rw (converse, f) refl)

module _ {D : Type 0} ⦃d : Doubles D⦄ where
  not_null :
      (o : Access (ProtocolManager D × List Reply)) (t : Session × List Reply)
      → in_session o ≡ reached t
      → (r : ProtocolManager D × List Reply) × (o ≡ reached r)
  not_null (reached r) t h = (r, refl)
  not_null null_pointer t h = absurd (ground arith)

  -- After a new manager is initialized, no history of public calls, `getStats` aside, goes through a null pointer.
  pub run-initializes :
      (memory config : ProtocolConfig) (calls : List Call)
      → (r : ProtocolManager D × List Reply) × (run
            (new_manager memory)
            (initializes config ∷ calls)
          ≡ reached r)
  unfolding new_manager IsRunnable
  run-initializes memory config calls =
      let (t, e) = converse_initializes config calls in
      let f =
        run-converse (initializes config ∷ calls) (new_manager {D = D} memory)
          (λ k. absurd (ground arith)) in
      not_null _ t (f ∙ e)
