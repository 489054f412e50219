-- ===== src/Metric/Examples.antt =====
-- MetricManager80211s.cpp: the theorems at concrete stations.
use fbmeshd.Prelude.{◌+◌, ◌/◌, ◌≡◌, refl, List, [], ◌∷◌, arith, nat_eq}
use fbmeshd.Prelude.Int.{negsuc}
use fbmeshd.Metric.{
  Metric, Station, Config, bitrate_to_airtime, rssi_to_airtime, update_metrics, sample,
}
use fbmeshd.Metric.Average.{IsBounded}
use fbmeshd.Metric.Report.{IsMean, update_metrics-IsBounded}

abbrev config : Config
config = record {
  ewma_factor = 7;
  hysteresis_factor = 2;
  base_bitrate = 60;
  blend = λ b r. (b + r) / 2;
}

abbrev near : Station
near = record { mac_address = 2; signal_avg_dbm = negsuc 49; expected_throughput = 3000 }

abbrev far : Station
far = record { mac_address = 3; signal_avg_dbm = negsuc 79; expected_throughput = 700 }

abbrev gone : Station
gone = record { mac_address = 4; signal_avg_dbm = negsuc 79; expected_throughput = 0 }

abbrev stations : List Station
stations = near ∷ far ∷ gone ∷ []

-- 2731 by bitrate and 9 by signal strength.
sample-near : sample config near ≡ 1370
unfolding sample bitrate_to_airtime rssi_to_airtime
sample-near = refl

config-IsMean : IsMean config.blend
config-IsMean b r = omega arith

update_metrics-IsBounded_example : IsBounded config 1 40961 (update_metrics config stations [])
update_metrics-IsBounded_example =
    update_metrics-IsBounded config stations [] config-IsMean (omega arith) tt

abbrev drifted : Metric
drifted = record { ewma_metric = 90000; reported_metric = 64000; count = 10 }
