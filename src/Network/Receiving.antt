-- ===== src/Network/Receiving.antt =====
-- `processIncomingData`, `receive` and `cleanupExpiredFragments` of src/NetworkManager.cpp.
pub mod Messages
pub mod Packets
use barren_engine.Common.{
  ℕ, zero, suc, ◌+◌, ◌-◌, ◌*◌, ◌%◌, ◌^◌, Bool, true, false, Option, none, some, List, [], ◌∷◌, ◌++◌,
  Bytes, Result, ok, throw, length, take, drop, set, get_or_else, is_empty, leb, ltb, if◌then◌else◌,
  find, assign, erase, erase_all, nat_eq, add_u32, u32_mod,
}
use barren_engine.Compression.{decompress}
use barren_engine.Crypto.Modes.{decrypt, iv_size}
use barren_engine.Network.Manager.{
  NetworkConfig, NetworkMessage, FragmentInfo, NetworkManager, Environment,
}
use barren_engine.Network.Fragments.{reassemble_fragments, is_fragment_complete}

-- The data of a message, or `none` where the packet is given up with a line on `std::cerr`.
unfoldable pub decrypt_incoming : Environment → NetworkConfig → Bytes → Option Bytes
decrypt_incoming env config bytes =
    if config.enable_encryption
    then (if ltb (length bytes) iv_size
        then none
        else elim (decrypt env.leftover (drop iv_size bytes) config.encryption_key
            (take iv_size bytes) config.encryption_mode) [ ok plain ↦ some plain | throw e ↦ none ])
    else some bytes

unfoldable pub process_incoming_bytes : Environment → NetworkConfig → Bytes → Option Bytes
process_incoming_bytes env config bytes = elim (decrypt_incoming env config bytes) [
  | none ↦ none
  | some plain ↦ some (
      if config.enable_compression
      then decompress env.codecs plain config.compression_algorithm
      else plain)
]

-- `fragments[index] = message` and the count; `none` where the vector has no such element.
unfoldable pub store_fragment : FragmentInfo → NetworkMessage → Option FragmentInfo
store_fragment info message =
    if ltb message.fragment_index (length info.fragments)
    then some (record info {
      fragments = set info.fragments message.fragment_index message;
      received_fragments = add_u32 info.received_fragments 1;
    })
    else none

abbrev pub empty_info : FragmentInfo
empty_info = record { fragments = []; timestamp = 0; total_fragments = 0; received_fragments = 0 }

-- `fragmentMap_[messageId]`, set up where it has no fragment.
unfoldable pub open_fragment : NetworkManager → NetworkMessage → ℕ → FragmentInfo
open_fragment m message now =
    let info = get_or_else (find message.message_id m.fragment_map) empty_info in
    if is_empty info.fragments
    then record info {
      timestamp = now;
      total_fragments = message.total_fragments;
      received_fragments = 0;
    }
    else info

-- How a call ends: normally, or with an access outside a vector.
pub data Incoming : Type 0 where
  handled : NetworkManager → Incoming
  out_of_bounds : Incoming

-- The end of `processIncomingData`: activity, callback and queue.
unfoldable pub deliver : NetworkManager → NetworkMessage → ℕ → ℕ → NetworkManager
deliver m message client now = record m {
  last_activity = assign client now m.last_activity;
  called_back = if m.has_message_callback then m.called_back ++ message ∷ [] else m.called_back;
  message_queue = m.message_queue ++ message ∷ [];
}

unfoldable pub handle_fragment : NetworkManager → NetworkMessage → ℕ → ℕ → Incoming
handle_fragment m message client now = elim (store_fragment (open_fragment m message now) message) [
  | none ↦ out_of_bounds
  | some info ↦
      if is_fragment_complete info
      then elim (reassemble_fragments message info) [
        | none ↦ out_of_bounds
        | some whole ↦ handled (
            deliver (record m { fragment_map = erase whole.message_id m.fragment_map }) whole client
              now)
      ]
      else handled (record m { fragment_map = assign message.message_id info m.fragment_map })
]

-- `memory` is the local variable `message` before it is written to: only its bytes and its time are
-- set before its other fields are read. `now` is the steady clock, `system` the system clock.
unfoldable pub process_incoming_data :
    Environment → NetworkMessage → NetworkManager → Bytes → ℕ → ℕ → ℕ → Incoming
process_incoming_data env memory m [] client now system = handled m
process_incoming_data env memory m (b ∷ bytes) client now system =
    elim (process_incoming_bytes env m.config (b ∷ bytes)) [
      | none ↦ handled m
      | some plain ↦
          let message = record memory { bytes = plain; timestamp = system % u32_mod } in
          if message.is_fragment
          then handle_fragment m message client now
          else handled (deliver m message client now)
    ]

unfoldable pub receive : NetworkManager → NetworkManager × Option NetworkMessage
receive m = elim m.message_queue [
  | [] ↦ (m, none)
  | message ∷ rest ↦ (record m { message_queue = rest }, some message)
]

-- The entries that are as old as the timeout, which is in milliseconds, the clock in nanoseconds; the
-- difference of the two readings of the clock is signed.
unfoldable pub is_expired : NetworkManager → ℕ → FragmentInfo → Bool
is_expired m now info = leb (info.timestamp + m.config.fragment_timeout * 10 ^ 6) now

unfoldable pub expired_keys : NetworkManager → ℕ → List (ℕ × FragmentInfo) → List ℕ
expired_keys m now [] = []
expired_keys m now ((k, info) ∷ entries) =
    let rest = expired_keys m now entries in if is_expired m now info then k ∷ rest else rest

unfoldable pub cleanup_expired_fragments : NetworkManager → ℕ → NetworkManager
cleanup_expired_fragments m now = record m {
  fragment_map = erase_all (expired_keys m now m.fragment_map) m.fragment_map;
}
