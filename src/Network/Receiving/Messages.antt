-- ===== src/Network/Receiving/Messages.antt =====
-- Lemmas on `processIncomingData` and `cleanupExpiredFragments` of src/NetworkManager.cpp.
use barren_engine.Common.{
  ℕ, ◌%◌, ◌≡◌, refl, true, false, none, some, List, [], ◌∷◌, ◌++◌, Bytes, All, arith, u32_mod, find,
  assign, nat_eq, find-erase_all, contains, if◌then◌else◌, get_or_else, ◌+◌, ◌*◌, ◌^◌, leb, Option,
  ◌∙◌,
}
use barren_engine.Network.Manager.{
  NetworkConfig, NetworkMessage, FragmentInfo, NetworkManager, Environment,
}
use barren_engine.Network.Sending.Totals.{IsPlain}
use barren_engine.Network.Receiving.{
  decrypt_incoming, process_incoming_bytes, store_fragment, empty_info, open_fragment, handled,
  out_of_bounds, deliver, handle_fragment, process_incoming_data, is_expired, expired_keys,
  cleanup_expired_fragments,
}

process_incoming_bytes_plain :
    (env : Environment) (config : NetworkConfig) (bytes : Bytes)
    → IsPlain config
    → process_incoming_bytes env config bytes ≡ some bytes
unfolding process_incoming_bytes decrypt_incoming
process_incoming_bytes_plain env config bytes p = ground arith

-- Without encryption and compression a non-empty packet, taken for no fragment, is queued as a message
-- with its bytes behind those that wait, is handed to the callback where there is one, and counts
-- as activity of its client.
pub process_incoming_data_plain :
    (env : Environment) (memory : NetworkMessage) (m : NetworkManager) (b : ℕ) (bytes : Bytes)
    (client now system : ℕ)
    → IsPlain m.config
    → memory.is_fragment ≡ false
    → let message = record memory { bytes = b ∷ bytes; timestamp = system % u32_mod } in
      process_incoming_data env memory m (b ∷ bytes) client now system
      ≡ handled (record m {
        message_queue = m.message_queue ++ message ∷ [];
        last_activity = assign client now m.last_activity;
        called_back =
            if m.has_message_callback then m.called_back ++ message ∷ [] else m.called_back;
      })
unfolding process_incoming_data deliver
process_incoming_data_plain env memory m b bytes client now system p f =
    rw (process_incoming_bytes_plain env m.config (b ∷ bytes) p, process_incoming_data) (rw f)

abbrev pub HasNoFragments : ℕ × FragmentInfo → Type 0
HasNoFragments e = e.1.fragments ≡ []

find_no_fragments :
    (k : ℕ) (entries : List (ℕ × FragmentInfo))
    → All HasNoFragments entries
    → (get_or_else (find k entries) empty_info).fragments ≡ []
unfolding find
find_no_fragments k [] h = refl
find_no_fragments k ((j, info) ∷ entries) h = ground (arith, find_no_fragments k entries h.1)

store_fragment-none :
    (info : FragmentInfo) (message : NetworkMessage)
    → info.fragments ≡ []
    → store_fragment info message ≡ none
unfolding store_fragment
store_fragment-none info message e = ground arith

open_fragment_none :
    (m : NetworkManager) (message : NetworkMessage) (now : ℕ)
    → All HasNoFragments m.fragment_map
    → (open_fragment m message now).fragments ≡ []
unfolding open_fragment
open_fragment_none m message now h =
    ground (arith, find_no_fragments message.message_id m.fragment_map h)

fragment_out_of_bounds :
    (m : NetworkManager) (message : NetworkMessage) (client now : ℕ)
    → All HasNoFragments m.fragment_map
    → handle_fragment m message client now ≡ out_of_bounds
unfolding handle_fragment
fragment_out_of_bounds m message client now h = rw (
  store_fragment-none (open_fragment m message now) message (open_fragment_none m message now h),
  handle_fragment,
)

-- Without encryption and compression, and as long as no entry of the fragment map has a fragment, a
-- non-empty packet that is taken for a fragment ends in an access out of bounds.
pub process_incoming_data_fragment :
    (env : Environment) (memory : NetworkMessage) (m : NetworkManager) (b : ℕ) (bytes : Bytes)
    (client now system : ℕ)
    → IsPlain m.config
    → memory.is_fragment ≡ true
    → All HasNoFragments m.fragment_map
    → process_incoming_data env memory m (b ∷ bytes) client now system ≡ out_of_bounds
unfolding process_incoming_data
process_incoming_data_fragment env memory m b bytes client now system p f h =
    let message = record memory { bytes = b ∷ bytes; timestamp = system % u32_mod } in
    rw (process_incoming_bytes_plain env m.config (b ∷ bytes) p, process_incoming_data)
      (ground (arith, fragment_out_of_bounds m message client now h))

-- No key stands twice in the entries of a map.
abbrev pub HasDistinctKeys : List (ℕ × FragmentInfo) → Type 0
HasDistinctKeys [] = Unit {0}
HasDistinctKeys ((k, info) ∷ entries) = (find k entries ≡ none) × HasDistinctKeys entries

-- What is left of what was found: nothing, once it is as old as the timeout.
abbrev pub unexpired : NetworkManager → ℕ → Option FragmentInfo → Option FragmentInfo
unexpired m now none = none
unexpired m now (some info) =
    if leb (info.timestamp + m.config.fragment_timeout * 10 ^ 6) now then none else some info

not_among :
    (m : NetworkManager) (now k : ℕ) (entries : List (ℕ × FragmentInfo))
    → find k entries ≡ none
    → contains k (expired_keys m now entries) ≡ false
unfolding find expired_keys
not_among m now k [] e = refl
not_among m now k ((j, w) ∷ entries) e = ground (arith, not_among m now k entries)

unexpired-contains :
    (m : NetworkManager) (now k : ℕ) (entries : List (ℕ × FragmentInfo))
    → HasDistinctKeys entries
    → (if contains k (expired_keys m now entries) then none else find k entries)
      ≡ unexpired m now (find k entries)
unfolding find expired_keys is_expired
unexpired-contains m now k [] h = refl
unexpired-contains m now k ((j, w) ∷ entries) h =
    ground (arith, not_among m now k entries, unexpired-contains m now k entries h.1)

-- If no identity stands twice in the map of fragments, the cleanup leaves exactly the entries whose last
-- start lies less than the timeout back: each of these is found as before, and no other is found.
pub cleanup_expired_fragments_lem :
    (m : NetworkManager) (now k : ℕ)
    → HasDistinctKeys m.fragment_map
    → find k (cleanup_expired_fragments m now).fragment_map
      ≡ unexpired m now (find k m.fragment_map)
unfolding cleanup_expired_fragments
cleanup_expired_fragments_lem m now k h =
    find-erase_all (expired_keys m now m.fragment_map) k m.fragment_map
    ∙ unexpired-contains m now k m.fragment_map h
