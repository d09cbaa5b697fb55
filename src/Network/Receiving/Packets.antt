-- ===== src/Network/Receiving/Packets.antt =====
-- Sequences of packets that `processIncomingData` of src/NetworkManager.cpp gets, and the messages that `receive`
-- hands out afterwards.
use barren_engine.Common.{
  ℕ, zero, suc, ◌+◌, ◌≤◌, Bool, true, false, not, ◌&&◌, ◌||◌, ◌≡◌, ◌↔◌, refl, sym, ◌∙◌, ap, none,
  some, List, [], ◌∷◌, ◌++◌, append_assoc, append-nil, Bytes, All, keep, map, length, length-append,
  is_empty, u32_mod, ◌%◌, arith, Bool-cases, inl, inr,
}
use barren_engine.Network.Manager.{NetworkMessage, NetworkManager, Environment}
use barren_engine.Network.Sending.Totals.{IsPlain}
use barren_engine.Network.Receiving.{
  Incoming, handled, out_of_bounds, deliver, process_incoming_data, receive,
}
use barren_engine.Network.Receiving.Messages.{
  HasNoFragments, process_incoming_data_plain, process_incoming_data_fragment,
}

-- What one call gets: the bytes, the client, the two clocks, and the memory that the local message is in.
pub record Packet : Type 0 where
  pub bytes : Bytes
  pub client : ℕ
  pub now : ℕ
  pub system : ℕ
  pub memory : NetworkMessage

-- One call for each packet, as long as no access is out of bounds.
unfoldable pub process_all : Environment → NetworkManager → List Packet → Incoming
process_all env m [] = handled m
process_all env m (p ∷ ps) =
    elim (process_incoming_data env p.memory m p.bytes p.client p.now p.system) [
      | handled m' ↦ process_all env m' ps
      | out_of_bounds ↦ out_of_bounds
    ]

-- The messages of `n` calls of `receive`.
unfoldable pub receive_all : ℕ → NetworkManager → List NetworkMessage
receive_all zero m = []
receive_all (suc n) m =
    let (m', o) = receive m in elim o [ none ↦ [] | some message ↦ message ∷ receive_all n m' ]

-- A packet that is not empty, and whose message is a fragment as the memory has it.
abbrev pub is_taken_for_fragment : Packet → Bool
is_taken_for_fragment p = not (is_empty p.bytes) && p.memory.is_fragment

abbrev pub has_fragment : List Packet → Bool
has_fragment [] = false
has_fragment (p ∷ ps) = is_taken_for_fragment p || has_fragment ps

abbrev pub has_bytes : Packet → Bool
has_bytes p = not (is_empty p.bytes)

-- What the calls leave of the queue, the configuration and the map of fragments.
record Arrived (ps : List Packet) (m m' : NetworkManager) : Type 0 where
  queue :
      map (λ x. x.bytes) m'.message_queue
      ≡ map (λ x. x.bytes) m.message_queue ++ map (λ p. p.bytes) (keep has_bytes ps)
  size : length m'.message_queue ≤ length m.message_queue + length ps

map-append : {A B : Type 0} (f : A → B) (xs ys : List A) → map f (xs ++ ys) ≡ map f xs ++ map f ys
map-append f [] ys = refl
map-append f (x ∷ xs) ys = ap (◌∷◌ (f x)) (map-append f xs ys)

keep_full :
    (p : Packet) (ps : List Packet)
    → is_empty p.bytes ≡ false
    → keep has_bytes (p ∷ ps) ≡ p ∷ keep has_bytes ps
keep_full p ps h = rw (keep, h) refl

keep_empty :
    (p : Packet) (ps : List Packet)
    → is_empty p.bytes ≡ true
    → keep has_bytes (p ∷ ps) ≡ keep has_bytes ps
keep_empty p ps h = rw (keep, h) refl

next :
    (p : Packet) (ps : List Packet) (x : NetworkMessage) (m n m' : NetworkManager)
    → is_empty p.bytes ≡ false
    → x.bytes ≡ p.bytes
    → n.message_queue ≡ m.message_queue ++ x ∷ []
    → Arrived ps n m'
    → Arrived (p ∷ ps) m m'
next p ps x m n m' b e q a = record {
  queue =
      let old = map (λ y. y.bytes) m.message_queue in
      let rest = map (λ r. r.bytes) (keep has_bytes ps) in
      a.queue
      ∙ ap (λ l. map (λ y. y.bytes) l ++ rest) q
      ∙ ap (λ l. l ++ rest) (map-append (λ y. y.bytes) m.message_queue (x ∷ []))
      ∙ append_assoc old (x.bytes ∷ []) rest
      ∙ ap (λ y. old ++ (y ∷ rest)) e
      ∙ sym (ap (λ l. old ++ map (λ r. r.bytes) l) (keep_full p ps b));
  size = omega (arith, a.size, ap length q, length-append m.message_queue (x ∷ []));
}

-- One call, by whether there are bytes and whether the message is taken for a fragment.
process_incoming_data_empty :
    (env : Environment) (memory : NetworkMessage) (m : NetworkManager) (bytes : Bytes)
    (client now system : ℕ)
    → is_empty bytes ≡ true
    → process_incoming_data env memory m bytes client now system ≡ handled m
unfolding process_incoming_data
process_incoming_data_empty env memory m [] client now system h = refl
process_incoming_data_empty env memory m (b ∷ bytes) client now system h = absurd (ground arith)

process_incoming_data_message :
    (env : Environment) (memory : NetworkMessage) (m : NetworkManager) (bytes : Bytes)
    (client now system : ℕ)
    → IsPlain m.config
    → is_empty bytes ≡ false
    → memory.is_fragment ≡ false
    → process_incoming_data env memory m bytes client now system
      ≡ handled
          (deliver m (record memory { bytes = bytes; timestamp = system % u32_mod }) client now)
unfolding deliver
process_incoming_data_message env memory m [] client now system c h f = absurd (ground arith)
process_incoming_data_message env memory m (b ∷ bytes) client now system c h f =
    process_incoming_data_plain env memory m b bytes client now system c f

process_incoming_data_taken :
    (env : Environment) (memory : NetworkMessage) (m : NetworkManager) (bytes : Bytes)
    (client now system : ℕ)
    → IsPlain m.config
    → is_empty bytes ≡ false
    → memory.is_fragment ≡ true
    → All HasNoFragments m.fragment_map
    → process_incoming_data env memory m bytes client now system ≡ out_of_bounds
process_incoming_data_taken env memory m [] client now system c h f e = absurd (ground arith)
process_incoming_data_taken env memory m (b ∷ bytes) client now system c h f e =
    process_incoming_data_fragment env memory m b bytes client now system c f e

handles :
    (env : Environment) (ps : List Packet) (m : NetworkManager)
    → IsPlain m.config
    → has_fragment ps ≡ false
    → (m' : NetworkManager) × (process_all env m ps ≡ handled m') × Arrived ps m m'
unfolding process_all deliver
handles env [] m c h = (m, refl, record { queue = sym (append-nil _); size = omega arith })
handles env (p ∷ ps) m c h =
    let message = record p.memory { bytes = p.bytes; timestamp = p.system % u32_mod } in
    let n = deliver m message p.client p.now in
    elim (Bool-cases (is_empty p.bytes)) [
      | inl e ↦
          let (m', r, a) = handles env ps m c (ground arith) in
          let one = process_incoming_data_empty env p.memory m p.bytes p.client p.now p.system e in
          (
            m',
            rw (process_all, one) r,
            record {
              queue =
                  a.queue
                  ∙ sym (
                      ap (λ l. map (λ y. y.bytes) m.message_queue ++ map (λ r. r.bytes) l)
                        (keep_empty p ps e));
              size = omega (arith, a.size);
            },
          )
      | inr e ↦
          let (m', r, a) = handles env ps n c (ground arith) in
          let one =
            process_incoming_data_message env p.memory m p.bytes p.client p.now p.system c e
              (ground arith) in
          (m', rw (process_all, one) r, next p ps message m n m' e refl refl a)
    ]

fails :
    (env : Environment) (ps : List Packet) (m : NetworkManager)
    → IsPlain m.config
    → All HasNoFragments m.fragment_map
    → has_fragment ps ≡ true
    → process_all env m ps ≡ out_of_bounds
unfolding process_all deliver
fails env [] m c e h = absurd (ground arith)
fails env (p ∷ ps) m c e h =
    let message = record p.memory { bytes = p.bytes; timestamp = p.system % u32_mod } in
    elim (Bool-cases (is_empty p.bytes)) [
      | inl b ↦
          rw
            (
              process_all,
              process_incoming_data_empty env p.memory m p.bytes p.client p.now p.system b,
            )
            (fails env ps m c e (ground arith))
      | inr b ↦ elim (Bool-cases p.memory.is_fragment) [
        | inl f ↦
            rw
              (
                process_all,
                process_incoming_data_taken env p.memory m p.bytes p.client p.now p.system c b f e,
              )
              refl
        | inr f ↦
            rw
              (
                process_all,
                process_incoming_data_message env p.memory m p.bytes p.client p.now p.system c b f,
              )
              (fails env ps (deliver m message p.client p.now) c e (ground arith))
      ]
    ]

decided : (o : Incoming) (n : NetworkManager) → o ≡ handled n → o ≡ out_of_bounds → false ≡ true
decided (handled m) n e f = ground arith
decided out_of_bounds n e f = ground arith

-- Without encryption and compression, on a manager that has no entry with a fragment in its map, the calls
-- for a sequence of packets end in an access out of bounds exactly if one of the packets is not empty
-- and is taken for a fragment.
pub process_all_iff :
    (env : Environment) (ps : List Packet) (m : NetworkManager)
    → IsPlain m.config
    → All HasNoFragments m.fragment_map
    → (process_all env m ps ≡ out_of_bounds) ↔ (has_fragment ps ≡ true)
process_all_iff env ps m c e = (
  λ bad. elim (Bool-cases (has_fragment ps)) [
    | inl h ↦ h
    | inr h ↦ let (m', r, a) = handles env ps m c h in absurd (ground (arith, decided _ m' r bad))
  ],
  fails env ps m c e,
)
