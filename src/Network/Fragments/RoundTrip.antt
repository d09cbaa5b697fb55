-- ===== src/Network/Fragments/RoundTrip.antt =====
-- Lemmas on `fragmentMessage` and `reassembleFragments` of src/NetworkManager.cpp.
use barren_engine.Common.{
  ℕ, zero, suc, ◌+◌, ◌*◌, ◌%◌, ◌≤◌, ◌<◌, ◌≡◌, ◌≢◌, refl, sym, ap, ap₂, ◌∙◌, true, false, some, [],
  ◌∷◌, ◌++◌, Bytes, All, length, take, drop, arith, drop_past, drop-drop, take-min, length-drop,
  length-take, take-append-drop, u32_mod,
}
use barren_engine.Network.Manager.{NetworkMessage, FragmentInfo}
use barren_engine.Network.Fragments.{
  fragment_at, fragments_from, total_fragments, fragment_message, gather, reassemble_fragments,
}

fragment_at_bytes :
    (size : ℕ) (m : NetworkMessage) (total i : ℕ)
    → (fragment_at size m total i).bytes ≡ take size (drop (i * size) m.bytes)
unfolding fragment_at
fragment_at_bytes size m total i =
    let start = i * size in
    ap (λ n. take n (drop start m.bytes)) (omega (arith, length-drop start m.bytes))
    ∙ take-min size (drop start m.bytes)

nil_of_length : (bs : Bytes) → length bs ≤ 0 → bs ≡ []
nil_of_length [] h = refl
nil_of_length (b ∷ bs) h = absurd (omega arith)

gather_from :
    (size : ℕ) (m : NetworkMessage) (total n i : ℕ)
    → length m.bytes ≤ (i + n) * size
    → gather (fragments_from size m total n i) ≡ drop (i * size) m.bytes
unfolding gather fragments_from
gather_from size m total zero i h = sym (drop_past (i * size) m.bytes (omega arith))
gather_from size m total (suc n) i h =
    ap₂ ◌++◌ (fragment_at_bytes size m total i) (
      gather_from size m total n (i + 1) (omega arith)
      ∙ ap (λ n. drop n m.bytes) (omega arith)
      ∙ sym (drop-drop size (i * size) m.bytes))
    ∙ take-append-drop size (drop (i * size) m.bytes)

total_fragments_enough :
    (size : ℕ) (m : NetworkMessage) → 0 < size → length m.bytes ≤ total_fragments size m * size
unfolding total_fragments
total_fragments_enough size m h = grind arith

abbrev rebuilt : NetworkMessage → NetworkMessage → Bytes → NetworkMessage
rebuilt memory m bytes = record memory {
  bytes = bytes;
  message_id = m.message_id;
  reliability = m.reliability;
  timestamp = m.timestamp;
  is_fragment = false;
}

reassemble_from :
    (memory m : NetworkMessage) (size total n : ℕ) (info : FragmentInfo)
    → info.fragments ≡ fragments_from size m total (suc n) 0
    → reassemble_fragments memory info
      ≡ some (rebuilt memory m (gather (fragments_from size m total (suc n) 0)))
unfolding reassemble_fragments fragments_from fragment_at
reassemble_from memory m size total n info e = rw (e, reassemble_fragments)

gather_all :
    (size : ℕ) (m : NetworkMessage) (total : ℕ)
    → length m.bytes ≤ total * size
    → gather (fragments_from size m total total 0) ≡ m.bytes
gather_all size m total h =
    let none_before : 0 * size ≡ 0 = omega arith in
    gather_from size m total total 0 (omega arith) ∙ ap (λ n. drop n m.bytes) none_before

pub gather-fragment_message :
    (size : ℕ) (m : NetworkMessage) → 0 < size → gather (fragment_message size m) ≡ m.bytes
unfolding fragment_message
gather-fragment_message size m h =
    gather_all size m (total_fragments size m) (total_fragments_enough size m h)

-- Whatever `fragmentMessage` makes of a non-empty message, `reassembleFragments` makes the message of it
-- again if it gets all fragments in their order: the bytes, the identity, the reliability and the
-- time, and no fragment.
pub reassemble_fragments-fragment_message :
    (memory : NetworkMessage) (size : ℕ) (m : NetworkMessage) (info : FragmentInfo)
    → 0 < size
    → m.bytes ≢ []
    → info.fragments ≡ fragment_message size m
    → reassemble_fragments memory info
      ≡ some (record memory {
        bytes = m.bytes;
        message_id = m.message_id;
        reliability = m.reliability;
        timestamp = m.timestamp;
        is_fragment = false;
      })
unfolding fragment_message
reassemble_fragments-fragment_message memory size m info h ne e =
    go (total_fragments size m) (total_fragments_enough size m h) e
  where
    go :
        (total : ℕ)
        → length m.bytes ≤ total * size
        → info.fragments ≡ fragments_from size m total total 0
        → reassemble_fragments memory info ≡ some (rebuilt memory m m.bytes)
    go zero l f = absurd (ne (nil_of_length m.bytes (omega arith)))
    go (suc n) l f =
        reassemble_from memory m size (suc n) n info f
        ∙ ap (λ bs. some (rebuilt memory m bs)) (gather_all size m (suc n) l)

-- A fragment as `fragmentMessage` cuts it: at most `size` bytes, marked, with the number of fragments
-- and the identity of the message.
abbrev pub IsFragmentOf : ℕ → NetworkMessage → NetworkMessage → Type 0
IsFragmentOf size m f =
    (length f.bytes ≤ size)
    × (f.is_fragment ≡ true)
    × (f.message_id ≡ m.message_id)
    × (f.total_fragments ≡ total_fragments size m % u32_mod)

fragments_from-IsFragmentOf :
    (size : ℕ) (m : NetworkMessage) (n i : ℕ)
    → All (IsFragmentOf size m) (fragments_from size m (total_fragments size m) n i)
unfolding fragments_from
fragments_from-IsFragmentOf size m zero i = tt
fragments_from-IsFragmentOf size m (suc n) i =
    let total = total_fragments size m in
    (
      (
        omega (
          arith,
          ap length (fragment_at_bytes size m total i),
          length-take size (drop (i * size) m.bytes),
        ),
        unfold fragment_at in refl,
        unfold fragment_at in refl,
        unfold fragment_at in refl,
      ),
      fragments_from-IsFragmentOf size m n (i + 1),
    )

-- Every fragment of a message has at most the fragment size, is marked as a fragment, and carries the
-- identity of the message and the number of its fragments, modulo 2 ^ 32.
pub fragment_message-IsFragmentOf :
    (size : ℕ) (m : NetworkMessage) → All (IsFragmentOf size m) (fragment_message size m)
unfolding fragment_message
fragment_message-IsFragmentOf size m = fragments_from-IsFragmentOf size m (total_fragments size m) 0

begins_inside : (size len n i : ℕ) → (i + suc n) * size < len + size → i * size < len
begins_inside size len n i h = grind arith

fragments_from_pos :
    (size : ℕ) (m : NetworkMessage) (total n i : ℕ)
    → 0 < size
    → (i + n) * size < length m.bytes + size
    → All (λ f. 0 < length f.bytes) (fragments_from size m total n i)
unfolding fragments_from
fragments_from_pos size m total zero i h l = tt
fragments_from_pos size m total (suc n) i h l = (
  omega (
    arith,
    ap length (fragment_at_bytes size m total i),
    length-take size (drop (i * size) m.bytes),
    length-drop (i * size) m.bytes,
    begins_inside size (length m.bytes) n i l,
  ),
  fragments_from_pos size m total n (i + 1) h (omega arith),
)

-- No fragment is empty.
pub fragment_message_pos :
    (size : ℕ) (m : NetworkMessage)
    → 0 < size
    → All (λ f. 0 < length f.bytes) (fragment_message size m)
unfolding fragment_message total_fragments
fragment_message_pos size m h =
    fragments_from_pos size m (total_fragments size m) (total_fragments size m) 0 h (grind arith)
