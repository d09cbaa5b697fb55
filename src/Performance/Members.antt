-- ===== src/Performance/Members.antt =====
-- What a list of assignments to the members of a JSON value of src/PerformanceMonitor.cpp leaves in them.
use barren_engine.Common.{
  Bool, true, false, ◌≡◌, refl, ◌∙◌, ap, ◌⊎◌, inl, inr, arith, Option, none, some, get_or_else,
  List, [], ◌∷◌, ◌++◌, Bytes, characters, if◌then◌else◌, bytes_eq, bytes_eq_iff,
}
use barren_engine.Performance.Files.{Scalar, Json, is_member, put_all, custom_entries}

module _ {D : Type 0} where
  -- A later assignment counts before an earlier one, which has to be to the member.
  abbrev pick : Option (Scalar D) → Bool → Scalar D → Option (Scalar D)
  pick (some w) b v = some w
  pick none b v = if b then some v else none

  pick_empty :
      (o : Option (Scalar D)) (b : Bool) (v : Scalar D)
      → pick o b v ≡ none
      → (o ≡ none) × (b ≡ false)
  pick_empty (some w) b v h = absurd (ground arith)
  pick_empty none true v h = absurd (ground arith)
  pick_empty none false v h = (refl, refl)

  pick_cases :
      (o : Option (Scalar D)) (b : Bool) (v w : Scalar D)
      → pick o b v ≡ some w
      → (o ≡ some w) ⊎ ((o ≡ none) × ((b ≡ true) × (v ≡ w)))
  pick_cases (some x) b v w h = inl h
  pick_cases none true v w h = inr (refl, (refl, ap (λ o. get_or_else o v) h))
  pick_cases none false v w h = absurd (ground arith)

  -- The last value that is assigned to a member.
  unfoldable pub last_member : Bytes → Bytes → List (Bytes × Bytes × Scalar D) → Option (Scalar D)
  last_member t g [] = none
  last_member t g ((s, f, v) ∷ rest) = pick (last_member t g rest) (is_member s f t g) v

  pub custom_entries_none :
      (t g : Bytes) (customs : List (Bytes × D))
      → bytes_eq (characters "custom") t ≡ false
      → last_member t g (custom_entries customs) ≡ none
  unfolding last_member custom_entries
  custom_entries_none t g [] h = refl
  custom_entries_none t g ((name, value) ∷ rest) h =
      rw (last_member, custom_entries_none t g rest h, h) refl

  pub last_member-append :
      (t g : Bytes) (es fs : List (Bytes × Bytes × Scalar D))
      → last_member t g fs ≡ none
      → last_member t g (es ++ fs) ≡ last_member t g es
  unfolding last_member
  last_member-append t g [] fs h = h
  last_member-append t g ((s, f, v) ∷ es) fs h =
      rw (last_member, last_member-append t g es fs h) refl

same_member : (s f t g : Bytes) → is_member s f t g ≡ true → (s ≡ t) × (f ≡ g)
same_member s f t g h = ground (arith, bytes_eq_iff s t, bytes_eq_iff f g)

module _ {D J F R : Type 0} (json : Json D J F) (get : Bytes → Bytes → J → R)
    (other : (s f t g : Bytes) (v : Scalar D) (j : J)
      → is_member s f t g ≡ false
      → get t g (json.put s f v j) ≡ get t g j) where
  unassigned :
      (t g : Bytes) (es : List (Bytes × Bytes × Scalar D)) (j : J)
      → last_member t g es ≡ none
      → get t g (put_all json es j) ≡ get t g j
  unfolding put_all last_member
  unassigned t g [] j h = refl
  unassigned t g ((s, f, v) ∷ es) j h =
      let (e, b) = pick_empty (last_member t g es) (is_member s f t g) v h in
      unassigned t g es (json.put s f v j) e ∙ other s f t g v j b

  pub assigned :
      (t g : Bytes) (es : List (Bytes × Bytes × Scalar D)) (j : J) (v : Scalar D)
      → last_member t g es ≡ some v
      → (i : J) × (get t g (put_all json es j) ≡ get t g (json.put t g v i))
  unfolding put_all last_member
  assigned t g [] j v h = absurd (ground arith)
  assigned t g ((s, f, w) ∷ es) j v h =
      elim (pick_cases (last_member t g es) (is_member s f t g) w v h) [
        | inl e ↦ assigned t g es (json.put s f w j) v e
        | inr (e, (b, q)) ↦
            let m = same_member s f t g b in
            (
              j,
              unassigned t g es (json.put s f w j) e
                  ∙ ap (λ x. get t g (json.put x f w j)) m.0
                  ∙ ap (λ x. get t g (json.put t x w j)) m.1
                  ∙ ap (λ x. get t g (json.put t g x j)) q,
            )
      ]
