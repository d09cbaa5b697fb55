-- ===== src/Connection/Entries.antt =====
-- Lemmas on the two loops over the unacknowledged packets of src/Connection.cpp.
use barren_engine.Common.{
  ℕ, ◌+◌, ◌*◌, ◌^◌, ◌≤◌, ◌<◌, ◌≡◌, refl, false, List, [], ◌∷◌, All, arith, Bool-cases, inl, inr,
}
use barren_engine.Connection.{Packet, Entry, should_resend_packet, collect_due, touch_due}

-- A packet that was touched less than a second before `now` is not due.
pub should_resend_packet_early :
    (now : ℕ) (packet : Packet)
    → now < packet.last_resend_time + 10 ^ 9
    → should_resend_packet now packet ≡ false
unfolding should_resend_packet
should_resend_packet_early now packet h = ground arith

abbrev pub TouchedAt : ℕ → Entry → Type 0
TouchedAt now e = e.1.last_resend_time ≡ now

-- The loop of `update` keeps due packets alone, and stamps them.
pub touch_due-TouchedAt :
    (now : ℕ) (clock : ℕ → ℕ) (i : ℕ) (entries : List Entry)
    → All (TouchedAt now) (touch_due now clock i entries)
unfolding touch_due
touch_due-TouchedAt now clock i [] = tt
touch_due-TouchedAt now clock i ((k, packet) ∷ entries) =
    ground (arith, touch_due-TouchedAt now clock (i + 1) entries)

pub touch_due_early :
    (now limit : ℕ) (clock : ℕ → ℕ) (i : ℕ) (entries : List Entry)
    → ((j : ℕ) → clock j < limit)
    → All (λ e. limit ≤ e.1.last_resend_time + 10 ^ 9) entries
    → touch_due now clock i entries ≡ []
unfolding touch_due
touch_due_early now limit clock i [] early h = refl
touch_due_early now limit clock i ((k, packet) ∷ entries) early h =
    let bound : clock i < packet.last_resend_time + 10 ^ 9 = omega (arith, early i, h.0) in
    rw (should_resend_packet_early (clock i) packet bound)
      (touch_due_early now limit clock (i + 1) entries early h.1)

-- The loop of `getPacketsToSend` takes no packet that was stamped less than a second ago.
pub collect_due_early :
    (now : ℕ) (clock : ℕ → ℕ) (i : ℕ) (entries : List Entry)
    → ((j : ℕ) → clock j < now + 10 ^ 9)
    → All (TouchedAt now) entries
    → collect_due clock i entries ≡ ([], entries)
unfolding collect_due
collect_due_early now clock i [] early h = refl
collect_due_early now clock i ((k, packet) ∷ entries) early h =
    let bound : clock (2 * i) < packet.last_resend_time + 10 ^ 9 =
      omega (arith, early (2 * i), h.0) in
    rw (
      should_resend_packet_early (clock (2 * i)) packet bound,
      collect_due_early now clock (i + 1) entries early h.1,
    )

pub All-touch_due {κ} :
    (P : Entry → Type κ) (now : ℕ) (clock : ℕ → ℕ) (i : ℕ) (entries : List Entry)
    → ((e : Entry) → P e → P (e.0, record (e.1) { last_resend_time = now }))
    → All P entries
    → All P (touch_due now clock i entries)
unfolding touch_due
All-touch_due P now clock i [] keeps h = tt
All-touch_due P now clock i ((k, packet) ∷ entries) keeps h =
    elim (Bool-cases (should_resend_packet (clock i) packet)) [
      | inl due ↦
          rw due (keeps (k, packet) h.0, All-touch_due P now clock (i + 1) entries keeps h.1)
      | inr early ↦ rw early (All-touch_due P now clock (i + 1) entries keeps h.1)
    ]

pub All-collect_due {κ} :
    (P : Entry → Type κ) (clock : ℕ → ℕ) (i : ℕ) (entries : List Entry)
    → ((now : ℕ) (e : Entry) → P e → P (e.0, record (e.1) { last_resend_time = now }))
    → All P entries
    → All P (collect_due clock i entries).1
unfolding collect_due
All-collect_due P clock i [] keeps h = tt
All-collect_due P clock i ((k, packet) ∷ entries) keeps h =
    elim (Bool-cases (should_resend_packet (clock (2 * i)) packet)) [
      | inl due ↦ rw due (
        keeps (clock (2 * i + 1)) (k, packet) h.0,
        All-collect_due P clock (i + 1) entries keeps h.1,
      )
      | inr early ↦ rw early (h.0, All-collect_due P clock (i + 1) entries keeps h.1)
    ]
