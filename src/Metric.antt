-- ===== src/Metric.antt =====
-- routing/MetricManager80211s.cpp and its header: the airtime metric of each neighbour, a moving
-- average of samples, reported with a hysteresis.
--
-- The blend of the two airtimes, `round((1.0 - rssiWeight_) * b + rssiWeight_ * r)`, is floating
-- point: it is a parameter. A shift by the configured factor f is a division or a product by 2 ^ f.
pub mod Airtime
pub mod Average
pub mod Report
mod Examples
use fbmeshd.Prelude.{
  ℕ, zero, suc, ◌+◌, ◌-◌, ◌*◌, ◌/◌, ◌%◌, ◌^◌, ◌≤◌, ◌<◌, Bool, true, false, not, ◌||◌, Option, none,
  some, List, [], ◌∷◌, ltb, leb, ◌==◌, if◌then◌else◌, nat_eq,
}
use fbmeshd.Prelude.Int.{ℤ, pos, negsuc, leb_ℤ}
use fbmeshd.Prelude.Dict.{find, insert, emplace}

abbrev pub u32 : ℕ → ℕ
u32 n = n % 2 ^ 32

pub record Metric : Type 0 where
  pub ewma_metric : ℕ
  pub reported_metric : ℕ
  pub count : ℕ

-- What the metric manager reads of `StationInfo` (802.11s/Nl80211Handler.h).
pub record Station : Type 0 where
  pub mac_address : ℕ
  pub signal_avg_dbm : ℤ
  pub expected_throughput : ℕ

pub record Config : Type 0 where
  pub ewma_factor : ℕ
  pub hysteresis_factor : ℕ
  pub base_bitrate : ℕ
  pub blend : ℕ → ℕ → ℕ

abbrev pub Metrics : Type 0
Metrics = List (ℕ × Metric)

abbrev pub no_airtime : ℕ
no_airtime = 0x7fff_ffff

-- All of it is 32-bit arithmetic, the product of `txTime` and `estimatedRetx` too.
unfoldable pub bitrate_to_airtime : ℕ → ℕ
bitrate_to_airtime rate =
    let units = 1 + (rate - 1) / 100 in
    let tx_time = u32 (256 + 20971520 / units) in
    let estimated_retx = 65536 / 256 in
    if rate == 0 then no_airtime else u32 (tx_time * estimated_retx) / 65536

abbrev pub rssi_to_rate : ℤ → ℕ
rssi_to_rate rssi =
    if leb_ℤ (negsuc 50) rssi
    then 867
    else if leb_ℤ (negsuc 52) rssi
    then 780
    else if leb_ℤ (negsuc 57) rssi
    then 650
    else if leb_ℤ (negsuc 58) rssi
    then 585
    else if leb_ℤ (negsuc 59) rssi
    then 520
    else if leb_ℤ (negsuc 63) rssi
    then 390
    else if leb_ℤ (negsuc 67) rssi
    then 260
    else if leb_ℤ (negsuc 70) rssi
    then 195
    else if leb_ℤ (negsuc 72) rssi
    then 130
    else 65

abbrev pub is_zero : ℤ → Bool
is_zero (pos n) = n == 0
is_zero (negsuc n) = false

unfoldable pub rssi_to_airtime : ℤ → ℕ
rssi_to_airtime rssi = if is_zero rssi then no_airtime else 8192 / rssi_to_rate rssi

-- `oldMetric = ewma >> f; ewma += newMetric - oldMetric`, with wrapping subtraction and addition.
unfoldable pub average : ℕ → ℕ → ℕ → ℕ
average f new_metric ewma = u32 (ewma + u32 (new_metric + (2 ^ 32 - ewma / 2 ^ f)))

unfoldable pub average_times : ℕ → ℕ → ℕ → ℕ → ℕ
average_times zero f new_metric ewma = ewma
average_times (suc n) f new_metric ewma = average_times n f new_metric (average f new_metric ewma)

abbrev pub first_samples : ℕ
first_samples = 10

-- The airtime by signal strength, unless it seems broken.
abbrev pub usable_rssi : ℕ → ℕ → ℕ
usable_rssi by_bitrate by_rssi = if by_rssi == 0 || ltb 1000 by_rssi then by_bitrate else by_rssi

unfoldable pub sample : Config → Station → ℕ
sample c sta =
    let by_bitrate = bitrate_to_airtime sta.expected_throughput in
    c.blend by_bitrate (usable_rssi by_bitrate (rssi_to_airtime sta.signal_avg_dbm))

-- The entry of a station, which is made from the sample if there is none.
abbrev pub metric_or_first : Config → ℕ → Option Metric → Metric
metric_or_first c new_metric none = record {
  ewma_metric = u32 (new_metric * 2 ^ c.ewma_factor);
  reported_metric = 0;
  count = 0;
}
metric_or_first c new_metric (some m) = m

unfoldable pub add_sample : Config → ℕ → Metric → Metric
add_sample c new_metric m =
    let f = c.ewma_factor in
    let e = average f new_metric m.ewma_metric in
    if ltb m.count first_samples
    then record m {
      ewma_metric = average_times (first_samples - m.count) f new_metric e;
      count = m.count + 1;
    }
    else record m { ewma_metric = e }

abbrev pub is_filtered : Config → Station → Bool
is_filtered c sta = sta.expected_throughput == 0 || sta.expected_throughput == c.base_bitrate

unfoldable pub update_station : Config → Station → Metrics → Metrics
unfolding add_sample
update_station c sta ms =
    let mac = sta.mac_address in
    let new_metric = sample c sta in
    if is_filtered c sta
    then ms
    else insert mac (add_sample c new_metric (metric_or_first c new_metric (find mac ms))) ms

unfoldable pub update_metrics : Config → List Station → Metrics → Metrics
unfolding update_station
update_metrics c [] ms = ms
update_metrics c (sta ∷ stas) ms = update_metrics c stas (update_station c sta ms)

-- The hysteresis of `getLinkMetric` on one entry.
unfoldable pub refresh : Config → Metric → Metric
refresh c m =
    let r = if m.reported_metric == 0 then m.ewma_metric else m.reported_metric in
    let hysteresis = r / 2 ^ c.hysteresis_factor in
    if ltb (u32 (r + hysteresis)) m.ewma_metric
      || ltb m.ewma_metric (u32 (r + (2 ^ 32 - hysteresis)))
    then record m { reported_metric = m.ewma_metric }
    else record m { reported_metric = r }

unfoldable pub get_link_metric : Config → Station → Metrics → Metrics × ℕ
unfolding refresh
get_link_metric c sta ms = elim (find sta.mac_address ms) [
  | none ↦ (ms, bitrate_to_airtime sta.expected_throughput)
  | some m ↦
      (insert sta.mac_address (refresh c m) ms, (refresh c m).reported_metric / 2 ^ c.ewma_factor)
]

-- The loop of `getLinkMetrics`: the state, and the metrics collected so far.
unfoldable pub get_link_metrics :
    Config → List Station → Metrics → List (ℕ × ℕ) → Metrics × List (ℕ × ℕ)
unfolding get_link_metric
get_link_metrics c [] ms out = (ms, out)
get_link_metrics c (sta ∷ stas) ms out =
    let (ms', metric) = get_link_metric c sta ms in
    let skip = sta.expected_throughput == 0 in
    get_link_metrics c stas (if skip then ms else ms')
      (if skip then out else emplace sta.mac_address metric out)
