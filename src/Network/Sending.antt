-- ===== src/Network/Sending.antt =====
-- `send` and `processOutgoingData` of src/NetworkManager.cpp. An `int` that is negative is `none`.
pub mod Totals
use barren_engine.Common.{
  ℕ, zero, suc, ◌+◌, ◌%◌, ◌^◌, Bool, true, false, Option, none, some, List, [], ◌∷◌, ◌++◌, Bytes,
  Result, ok, throw, Exception, length, is_empty, ltb, ◌==◌, if◌then◌else◌, add_u32, add_u64,
}
use barren_engine.Compression.{compress}
use barren_engine.Crypto.Modes.{encrypt, generate_iv}
use barren_engine.Network.Manager.{NetworkConfig, NetworkMessage, NetworkManager, Environment}
use barren_engine.Network.Fragments.{fragment_message}

-- The data to send, an exception, or no return.
pub data Processed : Type 0 where
  done : Bytes → Processed
  throws : Exception → Processed
  diverges : Processed

abbrev pub with_iv : Bytes → Result Bytes → Processed
with_iv iv (ok c) = done (iv ++ c)
with_iv iv (throw e) = throws e

unfoldable pub encrypt_outgoing : Environment → NetworkConfig → Option Bytes → Processed
encrypt_outgoing env config none = diverges
encrypt_outgoing env config (some bytes) =
    if config.enable_encryption
    then (let iv = generate_iv env.random in
        with_iv iv (encrypt env.leftover bytes config.encryption_key iv config.encryption_mode))
    else done bytes

-- `fuel` bounds the calls of `compress`.
unfoldable pub process_outgoing_data : ℕ → Environment → NetworkConfig → Bytes → Processed
process_outgoing_data fuel env config bytes = encrypt_outgoing env config (
    if config.enable_compression
    then compress env.codecs fuel bytes config.compression_algorithm
    else some bytes)

-- How a call of `send` ends. `out_of_fuel` is the model's own.
pub data Sent : Type 0 where
  returned : NetworkManager → Option ℕ → Sent
  raised : Exception → Sent
  no_return divided_by_zero out_of_fuel : Sent

-- `static_cast<int>(size)`.
unfoldable pub to_int : ℕ → Option ℕ
to_int size = if ltb (size % 2 ^ 32) (2 ^ 31) then some (size % 2 ^ 32) else none

-- `bytesSent_ += bytesSent` where that is positive.
abbrev pub count_sent : NetworkManager → Option ℕ → NetworkManager
count_sent m none = m
count_sent m (some n) = record m { bytes_sent = add_u64 m.bytes_sent n }

-- Logging and validation of the packet change nothing in the manager.
unfoldable pub send_processed : NetworkManager → Processed → Sent
send_processed m (throws e) = raised e
send_processed m diverges = no_return
send_processed m (done []) = returned m none
send_processed m (done (b ∷ bytes)) =
    let sent = to_int (length (b ∷ bytes)) in returned (count_sent m sent) sent

-- The loop over the fragments; `again` is the call of `send`, numbered for its own randomness.
unfoldable pub send_all :
    (ℕ → NetworkManager → NetworkMessage → Sent)
    → ℕ
    → NetworkManager
    → List NetworkMessage
    → ℕ
    → Sent
send_all again i m [] total = returned m (some total)
send_all again i m (f ∷ fs) total = elim (again i m f) [
  | returned m' none ↦ returned m' none
  | returned m' (some n) ↦ send_all again (i + 1) m' fs (total + n)
  | raised e ↦ raised e
  | no_return ↦ no_return
  | divided_by_zero ↦ divided_by_zero
  | out_of_fuel ↦ out_of_fuel
]

-- The message with an identity, and the manager that has given it.
unfoldable pub identify : NetworkManager → NetworkMessage → NetworkManager × NetworkMessage
identify m message =
    let next = add_u32 m.next_message_id 1 in
    if message.message_id == 0
    then (record m { next_message_id = next }, record message { message_id = next })
    else (m, message)

-- `depth` bounds the calls of `send` by itself, `fuel` those of `compress`.
unfoldable pub send : ℕ → ℕ → (ℕ → Environment) → NetworkManager → NetworkMessage → Sent
send zero fuel env m message = out_of_fuel
send (suc depth) fuel env m message =
    let (m', msg) = identify m message in
    let fragments =
      send_all (λ i. send depth fuel (λ _. env i)) 0 m'
        (fragment_message m.config.fragment_size msg) 0 in
    let whole = send_processed m' (process_outgoing_data fuel (env 0) m.config msg.bytes) in
    if m.running
    then (if ltb m.config.fragment_size (length msg.bytes)
        then (if m.config.fragment_size == 0 then divided_by_zero else fragments)
        else whole)
    else returned m none
