-- ===== src/ConnectionManager/Views.antt =====
-- What a client of `ConnectionManager` in src/connection/ConnectionManager.cpp sees of its state: whether it
-- runs, which addresses are connected, and the events.
use barren_engine.Common.{
  ℕ, Bool, true, false, not, ◌&&◌, ◌||◌, ◌≡◌, refl, sym, ◌∙◌, ap, fun_ext, Option, none, some, List,
  [], ◌∷◌, ◌++◌, Bytes, if◌then◌else◌, if_cases, bytes_eq, bytes_eq_iff, bytes_key, find,
  find-assign, get_or_else, arith,
}
use barren_engine.Address.{validate_address}
use barren_engine.ConnectionManager.Types.{
  ConnectionState, is_connected_state, ConnectionEventType, ConnectionEvent, ConnectionManager,
}
use barren_engine.ConnectionManager.Operations.{
  connect, finish_connect, handle_connection, handle_disconnection, drop_connection, is_connected,
  state_of, touch, set_state, validate_port,
}

pub record View : Type 0 where
  pub running : Bool
  pub up : Bytes → Bool
  pub events : List ConnectionEvent

abbrev pub view : ConnectionManager → View
view m = record { running = m.running; up = λ a. is_connected a m; events = m.event_queue }

pub view_ext :
    (v w : View)
    → v.running ≡ w.running
    → ((a : Bytes) → v.up a ≡ w.up a)
    → v.events ≡ w.events
    → v ≡ w
view_ext v w p q r =
    λ i. record { running = p i; up = fun_ext {f = v.up} {g = w.up} q i; events = r i }

abbrev pub opened : Bytes → ℕ → View → View
opened address now v = record v {
  up = λ a. bytes_eq address a || v.up a;
  events =
      v.events
      ++ record {
        type = ConnectionEventType.connected;
        address = address;
        message = "Connected successfully";
        timestamp = now;
      }
        ∷ [];
}

abbrev pub closed : Bytes → ℕ → View → View
closed address now v = record v {
  up = λ a. not (bytes_eq address a) && v.up a;
  events =
      v.events
      ++ record {
        type = ConnectionEventType.disconnected;
        address = address;
        message = "Disconnected";
        timestamp = now;
      }
        ∷ [];
}

looked_up :
    (o : Option ConnectionState)
    → (elim o [ none ↦ false | some state ↦ is_connected_state state ])
      ≡ is_connected_state (get_or_else o ConnectionState.disconnected)
looked_up none = refl
looked_up (some state) = refl

is_connected-state_of :
    (a : Bytes) (m : ConnectionManager) → is_connected a m ≡ is_connected_state (state_of a m)
unfolding is_connected
is_connected-state_of a m = looked_up (find a m.connection_states)

found :
    (b : Bool) (s : ConnectionState) (o : Option ConnectionState)
    → is_connected_state (get_or_else (if b then some s else o) ConnectionState.disconnected) ≡ (
        if b
        then is_connected_state s
        else is_connected_state (get_or_else o ConnectionState.disconnected))
found true s o = refl
found false s o = refl

is_connected-set_state :
    (a b : Bytes) (s : ConnectionState) (m : ConnectionManager)
    → is_connected b (set_state a s m)
      ≡ (if bytes_eq a b then is_connected_state s else is_connected b m)
is_connected-set_state a b s m =
    rw
      (
        is_connected-state_of b (set_state a s m),
        find-assign a b s m.connection_states,
        is_connected-state_of b m,
      )
      (found (bytes_eq a b) s (find b m.connection_states))

is_connected-touch :
    (a b : Bytes) (m : ConnectionManager) → is_connected b (touch a m) ≡ is_connected b m
is_connected-touch a b m = rw (is_connected-set_state a b (state_of a m) m) (
    if_cases {A = Bool} (λ x. x ≡ is_connected b m) (bytes_eq a b) _ _
      (λ e. sym (is_connected-state_of a m) ∙ ap (λ c. is_connected c m) ((bytes_eq_iff a b).0 e))
      (λ e. refl))

-- What `connect` asks for before it opens a connection.
abbrev pub can_open : Bytes → ℕ → View → Bool
can_open address port v =
    v.running && (validate_address address && (validate_port port && not (v.up address)))

refused : (r a p u : Bool) → not r || (not a || not p) ≡ true → r && (a && (p && not u)) ≡ false
refused r a p u e = ground arith

admitted : (r a p u : Bool) → not r || (not a || not p) ≡ false → r && (a && (p && not u)) ≡ not u
admitted r a p u e = ground arith

now_up : (b u : Bool) → (if b then true else u) ≡ b || u
now_up true u = refl
now_up false u = refl

now_down : (b u : Bool) → (if b then false else u) ≡ not b && u
now_down true u = refl
now_down false u = refl

overwritten : (b x y u : Bool) → (if b then x else if b then y else u) ≡ (if b then x else u)
overwritten true x y u = refl
overwritten false x y u = refl

-- The two writes of a change of state.
is_connected-change :
    (a b : Bytes) (s t : ConnectionState) (m : ConnectionManager)
    → is_connected b (set_state a s (set_state a t (touch a m)))
      ≡ (if bytes_eq a b then is_connected_state s else is_connected b m)
is_connected-change a b s t m =
    rw
      (
        is_connected-set_state a b s (set_state a t (touch a m)),
        is_connected-set_state a b t (touch a m),
        is_connected-touch a b m,
      )
      (overwritten (bytes_eq a b) (is_connected_state s) (is_connected_state t) (is_connected b m))

finish_connect-view :
    (address : Bytes) (now : ℕ) (m : ConnectionManager)
    → view
        (finish_connect true address now
          (set_state address ConnectionState.connecting (touch address m))).0
      ≡ opened address now (view m)
unfolding finish_connect handle_connection is_connected
finish_connect-view address now m =
    view_ext _ _ refl
      (λ b.
        is_connected-change address b ConnectionState.connected ConnectionState.connecting m
        ∙ now_up (bytes_eq address b) (is_connected b m))
      refl

touch-view : (address : Bytes) (m : ConnectionManager) → view (touch address m) ≡ view m
touch-view address m = view_ext _ _ refl (λ b. is_connected-touch address b m) refl

pub connect-view :
    (address : Bytes) (port now : ℕ) (m : ConnectionManager)
    → view (connect address port now m).0
      ≡ (if can_open address port (view m) then opened address now (view m) else view m)
unfolding connect
connect-view address port now m =
    let a = validate_address address in
    let p = validate_port port in
    let u = is_connected address m in
    if_cases {A = ConnectionManager × Bool}
      (λ r.
        view r.0 ≡ (if can_open address port (view m) then opened address now (view m) else view m))
      (not m.running || (not a || not p)) _ _ (λ e. rw (refused m.running a p u e) refl)
      (λ e. rw (admitted m.running a p u e) (
        if_cases {A = ConnectionManager × Bool}
          (λ r. view r.0 ≡ (if not u then opened address now (view m) else view m))
          (is_connected_state (state_of address m)) _ _
          (λ f. rw (is_connected-state_of address m, f) (touch-view address m))
          (λ f. rw (is_connected-state_of address m, f) (finish_connect-view address now m))))

pub drop_connection-view :
    (address : Bytes) (now : ℕ) (m : ConnectionManager)
    → view (drop_connection address now m)
      ≡ (if is_connected address m then closed address now (view m) else view m)
unfolding drop_connection handle_disconnection handle_connection is_connected
drop_connection-view address now m =
    if_cases {A = ConnectionManager}
      (λ r. view r ≡ (if is_connected address m then closed address now (view m) else view m))
      (is_connected_state (state_of address m)) _ _
      (λ f.
        rw (is_connected-state_of address m, f)
          (view_ext _ _ refl
            (λ b.
              is_connected-change address b ConnectionState.disconnected
                ConnectionState.disconnecting m
              ∙ now_down (bytes_eq address b) (is_connected b m))
            refl))
      (λ f. rw (is_connected-state_of address m, f) (touch-view address m))
