-- ===== src/Network/Sending/Totals.antt =====
-- Lemmas on the result and the counter of `send` of src/NetworkManager.cpp.
use barren_engine.Common.{
  ℕ, suc, ◌+◌, ◌%◌, ◌≤◌, ◌<◌, ◌≡◌, ◌≢◌, ◌^◌, sym, ap, ap₂, length-append, Bool-cases, inl, inr, ltb,
  ◌∙◌, true, false, some, List, [], ◌∷◌, ◌++◌, Bytes, All, length, arith, u64_mod, add_u64,
}
use barren_engine.Network.Manager.{NetworkConfig, NetworkMessage, NetworkManager, Environment}
use barren_engine.Network.Fragments.{fragment_message, gather}
use barren_engine.Network.Fragments.RoundTrip.{
  IsFragmentOf, fragment_message-IsFragmentOf, fragment_message_pos, gather-fragment_message,
}
use barren_engine.Network.Sending.{
  done, returned, send, send_all, send_processed, process_outgoing_data, encrypt_outgoing, identify,
  to_int,
}

-- Neither compression nor encryption.
pub record IsPlain (config : NetworkConfig) : Type 0 where
  pub uncompressed : config.enable_compression ≡ false
  pub unencrypted : config.enable_encryption ≡ false

process_outgoing_data_plain :
    (fuel : ℕ) (env : Environment) (config : NetworkConfig) (bytes : Bytes)
    → IsPlain config
    → process_outgoing_data fuel env config bytes ≡ done bytes
unfolding process_outgoing_data encrypt_outgoing
process_outgoing_data_plain fuel env config bytes p =
    rw (p.uncompressed, encrypt_outgoing) (rw p.unencrypted)

identify_lem :
    (m : NetworkManager) (message : NetworkMessage)
    → message.message_id ≢ 0
    → identify m message ≡ (m, message)
unfolding identify
identify_lem m message h = ground arith

abbrev counted : NetworkManager → ℕ → NetworkManager
counted m n = record m { bytes_sent = add_u64 m.bytes_sent n }

send_processed_lem :
    (m : NetworkManager) (bytes : Bytes)
    → 0 < length bytes
    → length bytes < 2 ^ 31
    → send_processed m (done bytes) ≡ returned (counted m (length bytes)) (some (length bytes))
unfolding send_processed to_int
send_processed_lem m [] h l = absurd (omega arith)
send_processed_lem m (b ∷ bytes) h l =
    let e : length (b ∷ bytes) % 2 ^ 32 ≡ length (b ∷ bytes) = omega arith in ground arith

-- A message that is not cut.
module _ (fuel : ℕ) where
  send_whole :
      (depth : ℕ) (env : ℕ → Environment) (m : NetworkManager) (message : NetworkMessage)
      → m.running ≡ true
      → IsPlain m.config
      → message.message_id ≢ 0
      → 0 < length message.bytes
      → length message.bytes ≤ m.config.fragment_size
      → length message.bytes < 2 ^ 31
      → send (suc depth) fuel env m message
        ≡ returned (counted m (length message.bytes)) (some (length message.bytes))
  unfolding send
  send_whole depth env m message run plain id pos fits small = ground (
    arith,
    identify_lem m message id,
    process_outgoing_data_plain fuel (env 0) m.config message.bytes plain,
    send_processed_lem m message.bytes pos small,
  )

counted_twice : (m : NetworkManager) (a b : ℕ) → counted (counted m a) b ≡ counted m (a + b)
counted_twice m a b =
    let f : ((m.bytes_sent + a) % u64_mod + b) % u64_mod ≡ (m.bytes_sent + (a + b)) % u64_mod =
      omega arith in
    ap (λ n. record m { bytes_sent = n }) f

-- A message that is cut.
send_cut :
    (depth fuel : ℕ) (env : ℕ → Environment) (m : NetworkManager) (message : NetworkMessage)
    → m.running ≡ true
    → message.message_id ≢ 0
    → 0 < m.config.fragment_size
    → ltb m.config.fragment_size (length message.bytes) ≡ true
    → send (suc depth) fuel env m message
      ≡ send_all
          (λ i. send depth fuel (λ _. env i))
          0
          m
          (fragment_message m.config.fragment_size message)
          0
unfolding send
send_cut depth fuel env m message run id cut large = ground (arith, identify_lem m message id)

abbrev IsSendable : ℕ → NetworkMessage → Type 0
IsSendable size f =
    (f.message_id ≢ 0) × (0 < length f.bytes) × (length f.bytes ≤ size) × (length f.bytes < 2 ^ 31)

-- The loop over messages that are not cut.
module _ (fuel : ℕ) where
  send_all_lem :
      (depth : ℕ) (env : ℕ → Environment) (i : ℕ) (m : NetworkManager) (fs : List NetworkMessage)
      (total : ℕ)
      → m.running ≡ true
      → IsPlain m.config
      → All (IsSendable m.config.fragment_size) fs
      → m.bytes_sent < u64_mod
      → send_all (λ j. send (suc depth) fuel (λ _. env j)) i m fs total
        ≡ returned (counted m (length (gather fs))) (some (total + length (gather fs)))
  unfolding send_all gather
  send_all_lem depth env i m [] total run plain h fit = ground arith
  send_all_lem depth env i m (f ∷ fs) total run plain h fit =
      let first = send_whole fuel depth (λ _. env i) m f run plain h.0.0 h.0.1 h.0.2 h.0.3 in
      let rest =
        send_all_lem depth env (i + 1) (counted m (length f.bytes)) fs (total + length f.bytes) run
          plain h.1 (omega arith) in
      let size : length f.bytes + length (gather fs) ≡ length (f.bytes ++ gather fs) =
        sym (length-append f.bytes (gather fs)) in
      let sum : total + length f.bytes + length (gather fs)
          ≡ total + length (f.bytes ++ gather fs) =
        omega arith in
      rw (first, send_all)
        (rest ∙ ap₂ (λ m' n. returned m' (some n)) (counted_twice m _ _ ∙ ap (counted m) size) sum)

-- The fragments of a message with an identity can be sent without being cut again.
fragments-IsSendable :
    (size : ℕ) (message : NetworkMessage) (fs : List NetworkMessage)
    → message.message_id ≢ 0
    → size < 2 ^ 31
    → All (IsFragmentOf size message) fs
    → All (λ f. 0 < length f.bytes) fs
    → All (IsSendable size) fs
fragments-IsSendable size message [] id small h k = tt
fragments-IsSendable size message (f ∷ fs) id small h k = (
  ((λ z. id (sym h.0.2 ∙ z)), k.0, h.0.0, omega arith),
  fragments-IsSendable size message fs id small h.1 k.1,
)

-- Without compression and encryption, and with a fragment size that is positive and below 2 ^ 31, a
-- running manager sends every non-empty message of less than
-- 2 ^ 31 bytes that has an identity: with two nested calls at most, `send` returns the number of its
-- bytes, cut into fragments or not, and adds that number to the bytes sent, modulo 2 ^ 64; nothing
-- else of the manager changes.
pub send_lem :
    (depth fuel : ℕ) (env : ℕ → Environment) (m : NetworkManager) (message : NetworkMessage)
    → m.running ≡ true
    → IsPlain m.config
    → message.message_id ≢ 0
    → 0 < length message.bytes
    → length message.bytes < 2 ^ 31
    → 0 < m.config.fragment_size
    → m.config.fragment_size < 2 ^ 31
    → m.bytes_sent < u64_mod
    → send (suc (suc depth)) fuel env m message
      ≡ returned
          (record m { bytes_sent = add_u64 m.bytes_sent (length message.bytes) })
          (some (length message.bytes))
send_lem depth fuel env m message run plain id pos small cut cut_small fit =
    let size = m.config.fragment_size in
    elim (Bool-cases (ltb size (length message.bytes))) [
      | inr whole ↦ send_whole fuel (suc depth) env m message run plain id pos (ground arith) small
      | inl large ↦
          let fs = fragment_message size message in
          let sendable =
            fragments-IsSendable size message fs id cut_small
              (fragment_message-IsFragmentOf size message)
              (fragment_message_pos size message cut) in
          let all = send_all_lem fuel depth env 0 m fs 0 run plain sendable fit in
          let bytes : length (gather fs) ≡ length message.bytes =
            ap length (gather-fragment_message size message cut) in
          let zero_total : 0 + length (gather fs) ≡ length message.bytes = omega arith in
          send_cut (suc depth) fuel env m message run id cut large
          ∙ all
          ∙ ap₂ (λ n k. returned (counted m n) (some k)) bytes zero_total
    ]
