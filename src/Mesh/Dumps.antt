-- ===== src/Mesh/Dumps.antt =====
-- 802.11s/Nl80211Handler.cpp: what is read from the driver: the stations, the metrics of its paths,
-- and the settings of the mesh.
use fbmeshd.Prelude.{
  ℕ, zero, suc, Bool, true, false, not, Option, none, some, List, [], ◌∷◌, ◌++◌, ◌==◌,
  if◌then◌else◌, map,
}
use fbmeshd.Prelude.Int.{ℤ, pos}
use fbmeshd.Prelude.Dict.{emplace}
use fbmeshd.Mesh.{Bytes, bytes_eq, Exception, Result, ok, throw, value, attribute, to_signed}
use fbmeshd.Mesh.Messages.{Attribute, Attributes, Command, StaInfo, MpathInfo}
use fbmeshd.Mesh.Handler.{Driver, Action, ◌>>=◌, pure, lift, send_and_receive}
use fbmeshd.Mesh.Links.{mesh_netif, dump_request}

pub record StationInfo : Type 0 where
  pub mac_address : Bytes
  pub inactive_time : ℕ
  pub signal_avg_dbm : ℤ
  pub is_connected_to_gate : Bool
  pub expected_throughput : ℕ

abbrev pub is_zero : ℤ → Bool
is_zero (pos zero) = true
is_zero _ = false

abbrev pub or_zero : Option ℕ → ℕ
or_zero none = 0
or_zero (some n) = n

-- A station with its signal. One of 0 counts as invalid.
abbrev pub add_station : Bytes → ℕ → StaInfo → Option ℕ → List StationInfo → List StationInfo
add_station mac inactive i none stations = stations
add_station mac inactive i (some raw) stations =
    if is_zero (to_signed 8 raw)
    then stations
    else stations
      ++ record {
        mac_address = mac;
        inactive_time = inactive;
        signal_avg_dbm = to_signed 8 raw;
        is_connected_to_gate = not (or_zero i.connected_to_gate == 0);
        expected_throughput = or_zero i.expected_throughput;
      }
        ∷ []

-- A peer whose link is established.
abbrev pub read_peer : Attributes → StaInfo → List StationInfo → Result (List StationInfo)
read_peer tb i stations = elim (attribute tb.mac) [
  | throw e ↦ throw e
  | ok mac ↦ elim (attribute i.inactive_time) [
    | throw e ↦ throw e
    | ok inactive ↦ ok (add_station mac inactive i i.signal_avg stations)
  ]
]

module _ (plink_estab : ℕ) where
  abbrev pub read_state :
      Attributes → StaInfo → Option ℕ → List StationInfo → Result (List StationInfo)
  read_state tb i none stations = ok stations
  read_state tb i (some state) stations =
      let peer = read_peer tb i stations in if state == plink_estab then peer else ok stations

  abbrev pub read_info : Attributes → Option StaInfo → List StationInfo → Result (List StationInfo)
  read_info tb none stations = ok stations
  read_info tb (some i) stations = read_state tb i i.plink_state stations

  unfoldable pub on_station : Attributes → List StationInfo → Result (List StationInfo)
  on_station tb stations = read_info tb tb.sta_info stations

  unfoldable pub get_stations_info : {K : Type 0} → Driver K → Action K (List StationInfo)
  unfolding send_and_receive
  get_stations_info d = do
    n ← mesh_netif
    i ← lift (value n.maybe_if_index)
    send_and_receive d on_station (dump_request Command.get_station (Attribute.ifindex i ∷ [])) []

  unfoldable pub get_peers : {K : Type 0} → Driver K → Action K (List Bytes)
  get_peers d = do stations ← get_stations_info d; pure (map (λ s. s.mac_address) stations)

-- A path that has not expired is kept, if its destination has none yet.
abbrev pub add_metric : Bytes → ℕ → Option ℕ → List (Bytes × ℕ) → Result (List (Bytes × ℕ))
add_metric mac zero metric m = ok m
add_metric mac (suc left) none m = throw Exception.bad_memory
add_metric mac (suc left) (some metric) m = ok (emplace mac metric m)

abbrev pub read_path : Attributes → Option MpathInfo → List (Bytes × ℕ) → Result (List (Bytes × ℕ))
read_path tb none m = ok m
read_path tb (some i) m = elim (attribute tb.mac) [
  | throw e ↦ throw e
  | ok mac ↦ elim (attribute i.exptime) [
    | throw e ↦ throw e
    | ok left ↦ add_metric mac left i.metric m
  ]
]

unfoldable pub on_mpath : Attributes → List (Bytes × ℕ) → Result (List (Bytes × ℕ))
on_mpath tb m = read_path tb tb.mpath_info m

unfoldable pub get_metrics : {K : Type 0} → Driver K → Action K (List (Bytes × ℕ))
unfolding send_and_receive
get_metrics d = do
  n ← mesh_netif
  i ← lift (value n.maybe_if_index)
  send_and_receive d on_mpath (dump_request Command.get_mpath (Attribute.ifindex i ∷ [])) []

-- `thrift::Mesh`. A message sets what it has, up to the first attribute that is missing; only the
-- second centre frequency may be.
pub record MeshInfo : Type 0 where
  pub frequency : ℕ
  pub tx_power : ℕ
  pub center_freq1 : ℕ
  pub center_freq2 : ℕ
  pub channel_width : ℕ

abbrev pub or_keep : Option ℕ → ℕ → ℕ
or_keep none old = old
or_keep (some n) old = n

abbrev pub read_centers : Attributes → Option ℕ → MeshInfo → MeshInfo
read_centers tb none m = m
read_centers tb (some c) m = record m {
  center_freq1 = c;
  center_freq2 = or_keep tb.center_freq2 m.center_freq2;
  channel_width = or_keep tb.channel_width m.channel_width;
}

abbrev pub read_power : Attributes → Option ℕ → MeshInfo → MeshInfo
read_power tb none m = m
read_power tb (some power) m = read_centers tb tb.center_freq1 (record m { tx_power = power })

abbrev pub read_frequency : Attributes → Option ℕ → MeshInfo → MeshInfo
read_frequency tb none m = m
read_frequency tb (some f) m = read_power tb tb.wiphy_tx_power_level (record m { frequency = f })

abbrev pub no_mesh : MeshInfo
no_mesh = record {
  frequency = 0;
  tx_power = 0;
  center_freq1 = 0;
  center_freq2 = 0;
  channel_width = 0;
}

unfoldable pub get_mesh : {K : Type 0} → Driver K → Action K MeshInfo
unfolding send_and_receive
get_mesh d = do
  n ← mesh_netif
  i ← lift (value n.maybe_if_index)
  send_and_receive d (λ tb m. ok (read_frequency tb tb.wiphy_freq m))
      (dump_request Command.get_interface (Attribute.ifindex i ∷ [])) no_mesh
