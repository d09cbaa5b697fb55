-- ===== src/Diagnostics/Extremes.antt =====
-- The extremes of `getStatistics` in src/NetworkDiagnostics.cpp.
use barren_engine.Common.{
  true, false, ◌≡◌, refl, List, [], ◌∷◌, All, is_empty, if_cases, Bool-cases, inl, inr, arith,
  Doubles, max_double, min_double,
}
use barren_engine.Diagnostics.Types.{NetworkMetrics, Totals, NetworkDiagnostics}
use barren_engine.Diagnostics.Operations.{accumulate, no_totals, get_statistics}

-- `less` is a linear order on the numbers among the doubles: what is not below and not below is not below.
pub record IsLinear {D : Type 0} (d : Doubles D) (IsNumber : D → Type 0) : Type 0 where
  pub irreflexive : (x : D) → IsNumber x → d.less x x ≡ false
  pub asymmetric : (x y : D) → IsNumber x → IsNumber y → d.less x y ≡ true → d.less y x ≡ false
  pub transitive :
      (x y z : D)
      → IsNumber x
      → IsNumber y
      → IsNumber z
      → d.less y x ≡ false
      → d.less z y ≡ false
      → d.less z x ≡ false
  pub zero : IsNumber (d.of_nat 0)
  pub largest : IsNumber d.largest

All_empty : {A : Type 0} (P : A → Type 0) (xs : List A) → is_empty xs ≡ true → All P xs
All_empty P [] h = tt
All_empty P (x ∷ xs) h = absurd (ground arith)

module _ {D : Type 0} ⦃d : Doubles D⦄ (IsNumber : D → Type 0) (o : IsLinear d IsNumber) where
  max_double_lem :
      (x y : D)
      → IsNumber x
      → IsNumber y
      → IsNumber (max_double x y)
        × ((d.less (max_double x y) x ≡ false) × (d.less (max_double x y) y ≡ false))
  max_double_lem x y h k =
      if_cases {A = D} (λ z. IsNumber z × ((d.less z x ≡ false) × (d.less z y ≡ false)))
        (d.less x y) _ _ (λ e. (k, (o.asymmetric x y h k e, o.irreflexive y k)))
        (λ e. (h, (o.irreflexive x h, e)))

  min_double_lem :
      (x y : D)
      → IsNumber x
      → IsNumber y
      → IsNumber (min_double x y)
        × ((d.less x (min_double x y) ≡ false) × (d.less y (min_double x y) ≡ false))
  min_double_lem x y h k =
      if_cases {A = D} (λ z. IsNumber z × ((d.less x z ≡ false) × (d.less y z ≡ false)))
        (d.less y x) _ _ (λ e. (k, (o.asymmetric y x k h e, o.irreflexive y k)))
        (λ e. (h, (o.irreflexive x h, e)))

  -- Every latency of the history is between the extremes.
  abbrev Bounds : D → D → NetworkMetrics D → Type 0
  Bounds low high m = (d.less m.latency low ≡ false) × (d.less high m.latency ≡ false)

  -- The extremes of the loop are numbers, and bound what came before and what the loop reads.
  record Covers (history : List (NetworkMetrics D)) (t u : Totals D) : Type 0 where
    low : IsNumber u.min_latency
    high : IsNumber u.max_latency
    below : d.less t.min_latency u.min_latency ≡ false
    above : d.less u.max_latency t.max_latency ≡ false
    between : All (Bounds u.min_latency u.max_latency) history

  accumulate-Covers :
      (history : List (NetworkMetrics D)) (t : Totals D)
      → All (λ m. IsNumber m.latency) history
      → IsNumber t.min_latency
      → IsNumber t.max_latency
      → Covers history t (accumulate history t)
  unfolding accumulate
  accumulate-Covers [] t all low high = record {
    low = low;
    high = high;
    below = o.irreflexive t.min_latency low;
    above = o.irreflexive t.max_latency high;
    between = tt;
  }
  accumulate-Covers (m ∷ history) t (number, all) low high =
      let (a, (b, c)) = min_double_lem t.min_latency m.latency low number in
      let (a', (b', c')) = max_double_lem t.max_latency m.latency high number in
      let lo = min_double t.min_latency m.latency in
      let hi = max_double t.max_latency m.latency in
      let r = accumulate-Covers history _ all a a' in
      record {
        low = r.low;
        high = r.high;
        below = o.transitive _ lo t.min_latency r.low a low r.below b;
        above = o.transitive t.max_latency hi _ high a' r.high b' r.above;
        between = (
          (
            o.transitive _ lo m.latency r.low a number r.below c,
            o.transitive m.latency hi _ number a' r.high c' r.above,
          ),
          r.between,
        );
      }

  least :
      (n : NetworkDiagnostics D)
      → is_empty n.metrics_history ≡ false
      → (get_statistics n).min_latency ≡ (accumulate n.metrics_history no_totals).min_latency
  unfolding get_statistics
  least n e = rw (get_statistics, e) refl

  greatest :
      (n : NetworkDiagnostics D)
      → is_empty n.metrics_history ≡ false
      → (get_statistics n).max_latency ≡ (accumulate n.metrics_history no_totals).max_latency
  unfolding get_statistics
  greatest n e = rw (get_statistics, e) refl

  -- If the latencies of the history are numbers, none of them is below the least or above the greatest latency of the
  -- statistics.
  pub get_statistics-All :
      (n : NetworkDiagnostics D)
      → All (λ m. IsNumber m.latency) n.metrics_history
      → All (Bounds (get_statistics n).min_latency (get_statistics n).max_latency) n.metrics_history
  get_statistics-All n all = elim (Bool-cases (is_empty n.metrics_history)) [
    | inl e ↦ All_empty _ n.metrics_history e
    | inr e ↦
        let r = accumulate-Covers n.metrics_history no_totals all o.largest o.zero in
        rw (least n e, greatest n e) r.between
  ]
