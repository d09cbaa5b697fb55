-- ===== src/Network/Fragments.antt =====
-- `fragmentMessage` and `reassembleFragments` of src/NetworkManager.cpp.
pub mod RoundTrip
use barren_engine.Common.{
  ℕ, zero, suc, ◌+◌, ◌-◌, ◌*◌, ◌/◌, ◌%◌, Bool, true, false, Option, none, some, List, [], ◌∷◌, ◌++◌,
  Bytes, length, take, drop, min, ◌==◌, u32_mod,
}
use barren_engine.Network.Manager.{NetworkMessage, FragmentInfo}

-- Fragment `i` of `total`.
unfoldable pub fragment_at : ℕ → NetworkMessage → ℕ → ℕ → NetworkMessage
fragment_at fragment_size message total i =
    let start = i * fragment_size in
    let end = min (start + fragment_size) (length message.bytes) in
    record message {
      bytes = take (end - start) (drop start message.bytes);
      fragment_index = i % u32_mod;
      total_fragments = total % u32_mod;
      is_fragment = true;
    }

-- `n` turns of the loop, from turn `i` on.
unfoldable pub fragments_from : ℕ → NetworkMessage → ℕ → ℕ → ℕ → List NetworkMessage
fragments_from fragment_size message total zero i = []
fragments_from fragment_size message total (suc n) i =
    fragment_at fragment_size message total i ∷ fragments_from fragment_size message total n (i + 1)

-- For a fragment size of 0 the division faults; the callers test for that.
unfoldable pub total_fragments : ℕ → NetworkMessage → ℕ
total_fragments fragment_size message = (length message.bytes + fragment_size - 1) / fragment_size

unfoldable pub fragment_message : ℕ → NetworkMessage → List NetworkMessage
unfolding fragments_from total_fragments fragment_at
fragment_message fragment_size message =
    let total = total_fragments fragment_size message in
    fragments_from fragment_size message total total 0

-- The bytes of the fragments, one after the other.
unfoldable pub gather : List NetworkMessage → Bytes
gather [] = []
gather (f ∷ fs) = f.bytes ++ gather fs

-- `none` where `fragments[0]` does not exist. `memory` gives the two fields that are not written.
unfoldable pub reassemble_fragments : NetworkMessage → FragmentInfo → Option NetworkMessage
unfolding gather
reassemble_fragments memory info = elim info.fragments [
  | [] ↦ none
  | f ∷ fs ↦ some (record memory {
    bytes = gather (f ∷ fs);
    message_id = f.message_id;
    reliability = f.reliability;
    timestamp = f.timestamp;
    is_fragment = false;
  })
]

unfoldable pub is_fragment_complete : FragmentInfo → Bool
is_fragment_complete info = info.received_fragments == info.total_fragments
