-- ===== src/VirtualSocket/History.antt =====
-- Histories of calls of the public operations of src/virtual/VirtualSocket.cpp.
use barren_engine.Common.{
  ℕ, ◌+◌, ◌%◌, ◌^◌, ◌≡◌, refl, sym, ◌∙◌, Bool, true, not, ◌||◌, Option, none, some, List, [], ◌∷◌,
  Bytes, arith, if◌then◌else◌, if_cases, Bool-cases, inl, inr,
}
use barren_engine.VirtualSocket.{
  QosProfile, SocketPacket, VirtualSocket, Chance, bind, connect, listen, close,
  set_network_condition, enable_simulation, reset_statistics,
}
use barren_engine.VirtualSocket.Sending.{send_to, send, receive_from, receive}
use barren_engine.VirtualSocket.Balance.{Keeps, send_to-Keeps, send-Keeps}

pub data Call : Type 0 where
  binds : ℕ → Call
  connects : Bytes → ℕ → Call
  listens closes resets : Call
  sends_to : Chance → ℕ → ℕ → Bytes → Bytes → ℕ → QosProfile → Call
  sends : Chance → ℕ → ℕ → Bytes → QosProfile → Call
  receives_from receives : Call
  sets_condition : ℕ → Call
  simulates : Bool → Call

unfoldable pub step : VirtualSocket → Call → VirtualSocket
step s (binds port) = (bind port s).0
step s (connects address port) = (connect address port s).0
step s listens = (listen s).0
step s closes = close s
step s resets = reset_statistics s
step s (sends_to chance sequence now bytes address port qos) =
    (send_to chance sequence now bytes address port qos s).0
step s (sends chance sequence now bytes qos) = (send chance sequence now bytes qos s).0
step s receives_from = (receive_from s).0
step s receives = (receive s).0
step s (sets_condition mtu) = set_network_condition mtu s
step s (simulates b) = enable_simulation b s

unfoldable pub run : VirtualSocket → List Call → VirtualSocket
run s [] = s
run s (call ∷ calls) = run (step s call) calls

pub record IsValid (s : VirtualSocket) : Type 0 where
  pub connected : s.is_connected ≡ true → s.is_bound ≡ true
  pub listening : s.is_listening ≡ true → s.is_bound ≡ true
  pub none_received : s.receive_queue ≡ []
  pub counted :
      s.statistics.packets_sent % 2 ^ 64
      ≡ (s.statistics.packets_received + s.statistics.packets_lost) % 2 ^ 64

Keeps-IsValid : (s s' : VirtualSocket) → Keeps s s' → IsValid s → IsValid s'
Keeps-IsValid s s' k v = record {
  connected = λ e. k.bound ∙ v.connected (sym k.connected ∙ e);
  listening = λ e. k.bound ∙ v.listening (sym k.listening ∙ e);
  none_received = k.received ∙ v.none_received;
  counted = k.balance v.counted;
}

receive_from-IsValid :
    (s : VirtualSocket)
    → IsValid s
    → receive_from s ≡ (s, none, if s.is_bound then some 0 else none)
unfolding receive_from
receive_from-IsValid s v = elim (Bool-cases s.is_bound) [
  | inl b ↦ simp (b, v.none_received)
  | inr b ↦ simp (b, v.none_received)
]

bind-IsValid : (port : ℕ) (s : VirtualSocket) → IsValid s → IsValid (bind port s).0
unfolding bind
bind-IsValid port s v =
    if_cases {A = VirtualSocket × Bool} (λ p. IsValid p.0) s.is_bound _ _ (λ e. v)
      (λ e. record {
        connected = λ c. refl;
        listening = λ l. refl;
        none_received = v.none_received;
        counted = v.counted;
      })

connect-IsValid :
    (address : Bytes) (port : ℕ) (s : VirtualSocket)
    → IsValid s
    → IsValid (connect address port s).0
unfolding connect
connect-IsValid address port s v =
    if_cases {A = VirtualSocket × Bool} (λ p. IsValid p.0) (not s.is_bound || s.is_connected) _ _
      (λ e. v)
      (λ e. record {
        connected = λ c. ground arith;
        listening = v.listening;
        none_received = v.none_received;
        counted = v.counted;
      })

listen-IsValid : (s : VirtualSocket) → IsValid s → IsValid (listen s).0
unfolding listen
listen-IsValid s v =
    if_cases {A = VirtualSocket × Bool} (λ p. IsValid p.0) (not s.is_bound || s.is_connected) _ _
      (λ e. v)
      (λ e. record {
        connected = v.connected;
        listening = λ l. ground arith;
        none_received = v.none_received;
        counted = v.counted;
      })

received-IsValid : (s : VirtualSocket) → IsValid s → IsValid (receive_from s).0
received-IsValid s v = rw (receive_from-IsValid s v) v

step-IsValid : (s : VirtualSocket) (call : Call) → IsValid s → IsValid (step s call)
unfolding step close receive set_network_condition enable_simulation reset_statistics
step-IsValid s (binds port) v = bind-IsValid port s v
step-IsValid s (connects address port) v = connect-IsValid address port s v
step-IsValid s listens v = listen-IsValid s v
step-IsValid s closes v = record {
  connected = λ e. e;
  listening = λ e. e;
  none_received = refl;
  counted = v.counted;
}
step-IsValid s resets v = record {
  connected = v.connected;
  listening = v.listening;
  none_received = v.none_received;
  counted = refl;
}
step-IsValid s (sends_to chance sequence now bytes address port qos) v =
    Keeps-IsValid s _ (send_to-Keeps chance sequence now bytes address port qos s) v
step-IsValid s (sends chance sequence now bytes qos) v =
    Keeps-IsValid s _ (send-Keeps chance sequence now bytes qos s) v
step-IsValid s receives_from v = received-IsValid s v
step-IsValid s receives v =
    if_cases {A = VirtualSocket × Option SocketPacket × Option ℕ} (λ r. IsValid r.0)
      (not s.is_connected) _ _ (λ e. v) (λ e. received-IsValid s v)
step-IsValid s (sets_condition mtu) v = record {
  connected = v.connected;
  listening = v.listening;
  none_received = v.none_received;
  counted = v.counted;
}
step-IsValid s (simulates b) v = record {
  connected = v.connected;
  listening = v.listening;
  none_received = v.none_received;
  counted = v.counted;
}

-- From a socket that is bound if it is connected or listening, has received nothing, and has counted
-- each packet that it sent as received or as lost, modulo 2 ^ 64, every history of public calls leads
-- to a socket of which the same holds.
pub run_socket-IsValid : (s : VirtualSocket) (calls : List Call) → IsValid s → IsValid (run s calls)
unfolding run
run_socket-IsValid s [] v = v
run_socket-IsValid s (call ∷ calls) v =
    run_socket-IsValid (step s call) calls (step-IsValid s call v)

-- After any history of public calls on a socket that is bound if it is connected or listening, has
-- received nothing, and has counted each packet that it sent as received or lost, `receiveFrom` gives no packet and changes nothing:
-- it returns 0 if the socket is bound, and a negative number otherwise.
pub receive_from-run :
    (s : VirtualSocket) (calls : List Call)
    → IsValid s
    → receive_from (run s calls)
      ≡ (run s calls, none, if (run s calls).is_bound then some 0 else none)
receive_from-run s calls v = receive_from-IsValid (run s calls) (run_socket-IsValid s calls v)
