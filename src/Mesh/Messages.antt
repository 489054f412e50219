-- ===== src/Mesh/Messages.antt =====
-- 802.11s/Nl80211Handler.cpp and 802.11s/nl80211-copy.h: the messages to the wireless driver and from
-- it. An attribute stands for `nla_put_*` of its value, in the order of the code.
use fbmeshd.Prelude.{ℕ, Bool, Option, none, List}
use fbmeshd.Mesh.{Bytes}

pub data Command : Type 0 where
  get_wiphy new_interface leave_mesh del_interface join_mesh register_frame : Command
  new_key set_key cmd_frame set_station del_station new_station set_mesh_config : Command
  get_interface get_station get_mpath get_family : Command

-- The members of NL80211_ATTR_MESH_PARAMS and of NL80211_ATTR_MESH_CONFIG.
pub data MeshParam : Type 0 where
  rssi_threshold max_peer_links ttl element_ttl hwmp_active_path_timeout : ℕ → MeshParam
  hwmp_rann_interval hwmp_rootmode ht_opmode connected_to_gate : ℕ → MeshParam

-- The members of NL80211_ATTR_MESH_SETUP.
pub data MeshSetup : Type 0 where
  userspace_mpm userspace_auth userspace_ampe : MeshSetup
  auth_protocol : ℕ → MeshSetup
  setup_ie : Bytes → MeshSetup

-- The members of NL80211_ATTR_KEY.
pub data KeyAttribute : Type 0 where
  cipher key_idx key_type : ℕ → KeyAttribute
  key_data key_seq : Bytes → KeyAttribute

pub data Attribute : Type 0 where
  wiphy ifindex iftype wiphy_freq channel_width center_freq1 center_freq2 : ℕ → Attribute
  mcast_rate frame_type key_index plink_state aid listen_interval : ℕ → Attribute
  ifname mac mesh_id frame_match frame supported_rates : Bytes → Attribute
  ht_capability vht_capability family_name : Bytes → Attribute
  mesh_params mesh_config : List MeshParam → Attribute
  mesh_setup : List MeshSetup → Attribute
  key : List KeyAttribute → Attribute
  key_default key_default_mgmt : Attribute
  -- The mask of the flags, and the flags that are set.
  sta_flags2 : ℕ → ℕ → Attribute

pub record Message : Type 0 where
  pub command : Command
  pub dump : Bool
  pub attributes : List Attribute

-- What the driver sends. `none` stands for an attribute that is not there.
pub record FrequencyInfo : Type 0 where
  pub freq : Option ℕ

pub record RateInfo : Type 0 where
  pub rate : Option ℕ

pub record BandInfo : Type 0 where
  pub band_type : ℕ
  pub ht_mcs_set : Option Bytes
  pub ht_capa : Option ℕ
  pub ht_ampdu_factor : Option ℕ
  pub ht_ampdu_density : Option ℕ
  pub vht_mcs_set : Option Bytes
  pub vht_capa : Option ℕ
  pub rates : Option (List RateInfo)
  pub freqs : Option (List FrequencyInfo)

pub record StaInfo : Type 0 where
  pub plink_state : Option ℕ
  pub inactive_time : Option ℕ
  pub signal_avg : Option ℕ
  pub expected_throughput : Option ℕ
  pub connected_to_gate : Option ℕ

pub record MpathInfo : Type 0 where
  pub exptime : Option ℕ
  pub metric : Option ℕ

pub record GroupInfo : Type 0 where
  pub group_name : Option Bytes
  pub group_id : Option ℕ

pub record Attributes : Type 0 where
  pub wiphy : Option ℕ
  pub wiphy_name : Option Bytes
  pub supported_iftypes : Option (List ℕ)
  pub wiphy_bands : Option (List BandInfo)
  pub mac : Option Bytes
  pub ie : Option Bytes
  pub ifindex : Option ℕ
  pub wiphy_freq : Option ℕ
  pub wiphy_tx_power_level : Option ℕ
  pub center_freq1 : Option ℕ
  pub center_freq2 : Option ℕ
  pub channel_width : Option ℕ
  pub sta_info : Option StaInfo
  pub mpath_info : Option MpathInfo
  pub frame : Option Bytes
  pub rx_signal_dbm : Option ℕ
  pub ack : Option ℕ
  pub mcast_groups : Option (List GroupInfo)

abbrev pub no_attributes : Attributes
no_attributes = record {
  wiphy = none;
  wiphy_name = none;
  supported_iftypes = none;
  wiphy_bands = none;
  mac = none;
  ie = none;
  ifindex = none;
  wiphy_freq = none;
  wiphy_tx_power_level = none;
  center_freq1 = none;
  center_freq2 = none;
  channel_width = none;
  sta_info = none;
  mpath_info = none;
  frame = none;
  rx_signal_dbm = none;
  ack = none;
  mcast_groups = none;
}
