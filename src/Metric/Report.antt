-- ===== src/Metric/Report.antt =====
-- MetricManager80211s.cpp: the range of the samples and of the reported metrics, and the hysteresis.
use native.Mathlib.Nat.{div-le_self, pow-suc}
use fbmeshd.Prelude.{
  ℕ, zero, suc, ◌+◌, ◌*◌, ◌/◌, ◌^◌, ◌≤◌, ◌<◌, ◌≡◌, ◌⊎◌, inl, inr, ◌∙◌, not, ◌&&◌, Bool, false, List,
  [], ◌∷◌, arith, nat_eq, Bool-cases, min, ◌||◌, ◌==◌,
}
use Prim.Native.Nat.{max}
use fbmeshd.Prelude.Int.{ℤ}
use fbmeshd.Prelude.Dict.{contains, emplace, contains-emplace}
use fbmeshd.Metric.{
  Metric, Metrics, Station, Config, sample, usable_rssi, no_airtime, is_filtered, is_zero,
  bitrate_to_airtime, rssi_to_airtime, update_metrics, get_link_metrics, refresh, get_link_metric,
}
use fbmeshd.Metric.Airtime.{bitrate_to_airtime_bounds, rssi_to_airtime_lem}
use fbmeshd.Metric.Average.{IsBounded, update_station-IsBounded}

pub pow2_pos : (f : ℕ) → 0 < 2 ^ f
pow2_pos zero = omega arith
pow2_pos (suc f) = omega (arith, pow-suc 2 f, pow2_pos f)

rssi_cases :
    (rssi : ℤ)
    → (rssi_to_airtime rssi ≡ no_airtime)
      ⊎ ((9 ≤ rssi_to_airtime rssi) × (rssi_to_airtime rssi ≤ 126))
unfolding rssi_to_airtime
rssi_cases rssi = elim (Bool-cases (is_zero rssi)) [
  | inl e ↦ inl (rw e)
  | inr e ↦
      let (a, b, c) = rssi_to_airtime_lem rssi rssi e e (omega arith) in
      inr (a, omega (arith, b, c))
]

-- What is assumed of the weighted mean: it lies between its arguments.
abbrev pub IsMean : (ℕ → ℕ → ℕ) → Type 0
IsMean blend = (b r : ℕ) → (min b r ≤ blend b r) × (blend b r ≤ max b r)

sample_bounds :
    (c : Config) (sta : Station)
    → IsMean c.blend
    → is_filtered c sta ≡ false
    → (1 ≤ sample c sta) × (sample c sta ≤ 40961)
unfolding sample
sample_bounds c sta mean in_use =
    let b = bitrate_to_airtime sta.expected_throughput in
    let r = rssi_to_airtime sta.signal_avg_dbm in
    ground (
      arith,
      bitrate_to_airtime_bounds sta.expected_throughput,
      rssi_cases sta.signal_avg_dbm,
      mean b (usable_rssi b r),
    )

-- Whatever the stations report, the rounded average of every station stays between 1 and 40961,
-- if the weighted mean lies between its arguments and the factor
-- leaves room for 40962 in 32 bits.
pub update_metrics-IsBounded :
    (c : Config) (stas : List Station) (ms : Metrics)
    → IsMean c.blend
    → 40962 * 2 ^ c.ewma_factor ≤ 2 ^ 32
    → IsBounded c 1 40961 ms
    → IsBounded c 1 40961 (update_metrics c stas ms)
unfolding update_metrics
update_metrics-IsBounded c [] ms mean fits b = b
update_metrics-IsBounded c (sta ∷ stas) ms mean fits b =
    update_metrics-IsBounded c stas _ mean fits (
      update_station-IsBounded c 1 40961 sta ms (pow2_pos c.ewma_factor) fits
        (sample_bounds c sta mean) b)

-- After a request, the reported metric is within its own hysteresis of the average, as long as the
-- band around it fits 32 bits; the average and the number of samples are as before.
pub refresh_band :
    (c : Config) (m : Metric)
    → m.ewma_metric < 2 ^ 32
    → m.reported_metric + m.reported_metric / 2 ^ c.hysteresis_factor < 2 ^ 32
    → m.ewma_metric + m.ewma_metric / 2 ^ c.hysteresis_factor < 2 ^ 32
    → let n = refresh c m in
      let band = n.reported_metric / 2 ^ c.hysteresis_factor in
      (n.ewma_metric ≤ n.reported_metric + band)
      × (n.reported_metric ≤ n.ewma_metric + band)
      × (n.ewma_metric ≡ m.ewma_metric)
      × (n.count ≡ m.count)
unfolding refresh
refresh_band c m a b d = ground (
  arith,
  div-le_self m.ewma_metric (2 ^ c.hysteresis_factor),
  div-le_self m.reported_metric (2 ^ c.hysteresis_factor),
)

-- The station is listed with a bitrate.
abbrev pub has_bitrate : ℕ → List Station → Bool
has_bitrate mac [] = false
has_bitrate mac (sta ∷ stas) =
    not (sta.expected_throughput == 0) && sta.mac_address == mac || has_bitrate mac stas

collected :
    (c : Config) (mac : ℕ) (stas : List Station) (ms : Metrics) (out : List (ℕ × ℕ))
    → contains mac (get_link_metrics c stas ms out).1 ≡ (contains mac out || has_bitrate mac stas)
unfolding get_link_metrics
collected c mac [] ms out = ground arith
collected c mac (sta ∷ stas) ms out = elim (Bool-cases (sta.expected_throughput == 0)) [
  | inl idle ↦ rw (idle, get_link_metrics) (collected c mac stas ms out)
  | inr busy ↦
      let metric = (get_link_metric c sta ms).1 in
      rw (busy, get_link_metrics)
        (collected c mac stas (get_link_metric c sta ms).0 (emplace sta.mac_address metric out)
          ∙ ground (arith, contains-emplace sta.mac_address mac metric out))
]

-- A neighbour is reported a link metric exactly when it is listed with a bitrate other than 0.
pub get_link_metrics_iff :
    (c : Config) (mac : ℕ) (stas : List Station) (ms : Metrics)
    → contains mac (get_link_metrics c stas ms []).1 ≡ has_bitrate mac stas
get_link_metrics_iff c mac stas ms = collected c mac stas ms []
