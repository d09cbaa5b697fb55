-- ===== src/Diagnostics/Quality.antt =====
-- The connection quality of src/NetworkDiagnostics.cpp.
use Prim.Native.String.{String}
use barren_engine.Common.{
  false, ◌≡◌, if◌then◌else◌, if_cases, Doubles, IsOrdered, max_double, min_double,
}
use barren_engine.Diagnostics.Types.{NetworkDiagnostics}

module _ {D : Type 0} ⦃d : Doubles D⦄ where
  unfoldable pub get_connection_quality : NetworkDiagnostics D → D
  get_connection_quality n =
      let metrics = n.current_metrics in
      let zero = d.of_nat 0 in
      let one = d.of_nat 1 in
      let from_latency =
        max_double zero (d.subtract one (d.divide metrics.latency (d.of_nat 500))) in
      let from_loss = d.subtract one metrics.packet_loss in
      let from_jitter = max_double zero (d.subtract one (d.divide metrics.jitter (d.of_nat 100))) in
      let quality = d.multiply (d.multiply (d.multiply one from_latency) from_loss) from_jitter in
      max_double zero (min_double one quality)

  unfoldable pub get_connection_quality_string : NetworkDiagnostics D → String
  get_connection_quality_string n =
      let quality = get_connection_quality n in
      if d.less (d.rational 8 10) quality
      then "Excellent"
      else if d.less (d.rational 6 10) quality
      then "Good"
      else if d.less (d.rational 4 10) quality
      then "Fair"
      else if d.less (d.rational 2 10) quality
      then "Poor"
      else "Bad"

  clamp-less :
      (o : IsOrdered d) (x : D)
      → (d.less (max_double (d.of_nat 0) (min_double (d.of_nat 1) x)) (d.of_nat 0) ≡ false)
        × (d.less (d.of_nat 1) (max_double (d.of_nat 0) (min_double (d.of_nat 1) x)) ≡ false)
  clamp-less o x =
      let zero = d.of_nat 0 in
      let one = d.of_nat 1 in
      let goal = λ (y : D). (d.less y zero ≡ false) × (d.less one y ≡ false) in
      if_cases {A = D} goal (d.less zero (min_double one x)) _ _
        (λ e. (
          o.asymmetric zero (min_double one x) e,
          if_cases {A = D} (λ y. d.less one y ≡ false) (d.less x one) _ _
              (λ f. o.asymmetric x one f) (λ f. o.irreflexive one),
        ))
        (λ e. (o.irreflexive zero, o.asymmetric zero one o.zero_one))

  -- Whatever the metrics, not-a-number included, the connection quality is neither below 0 nor above 1.
  pub get_connection_quality-less :
      (o : IsOrdered d) (n : NetworkDiagnostics D)
      → (d.less (get_connection_quality n) (d.of_nat 0) ≡ false)
        × (d.less (d.of_nat 1) (get_connection_quality n) ≡ false)
  unfolding get_connection_quality
  get_connection_quality-less o n = clamp-less o _
