-- ===== src/Mesh/Samples.antt =====
-- A radio that meshes at 5180 MHz, with what its driver answers, and the rest that the runs of the
-- handler need.
use fbmeshd.Prelude.{ℕ, ◌+◌, true, false, none, some, List, [], ◌∷◌}
use fbmeshd.Prelude.Int.{ℤ, pos, negsuc}
use fbmeshd.Mesh.{Bytes, Exception, Result, ok, throw}
use fbmeshd.Mesh.Socket.{Event, NlError}
use fbmeshd.Mesh.Messages.{Command, Attributes, BandInfo, RateInfo, GroupInfo, no_attributes}
use fbmeshd.Mesh.Settings.{Flags, Sizes, type_20}
use fbmeshd.Mesh.Handler.{NetInterface, Global, Driver, World}
use fbmeshd.Mesh.Wiphy.{new_net_interface}
use fbmeshd.Mesh.Apply.{Parsers}
use fbmeshd.Mesh.Commands.{KeyLengths}
use fbmeshd.Mesh.Join.{Authsae}
use fbmeshd.Mesh.Events.{InfoElems, Candidate, FrameApi, PeerApi}
use fbmeshd.Mesh.Callbacks.{LinkKeys}

abbrev pub sizes : Sizes
sizes = record {
  max_ssid_len = 32;
  ifnamsiz = 16;
  sae_max_password_len = 80;
  sae_max_ec_groups = 10;
  max_supp_rates = 32;
  num_bands = 2;
}

-- One digit is a number, and so is the empty text for simplicity.
abbrev pub digit : Bytes → Result ℤ
digit (c ∷ []) = ok (pos c)
digit _ = throw Exception.invalid_argument

abbrev pub parsers : Parsers
parsers = record { stoi = digit; mac_from_string = λ s. ok s }

abbrev pub mesh0 : Bytes
mesh0 = b'm' ∷ b'0' ∷ []

abbrev pub flags : Flags
flags = record {
  mesh_id = b'f' ∷ b'b' ∷ [];
  channel_type = type_20;
  frequency = pos 5180;
  center_freq1 = pos 5180;
  center_freq2 = pos 0;
  enable_encryption = true;
  encryption_password = b'p' ∷ b'w' ∷ [];
  sae_groups = b'9' ∷ [];
  peering_verbosity = pos 0;
  rssi_threshold = negsuc 79;
  mac_address = [];
  ttl = 31;
  ttl_element = 31;
  max_peer_links = 32;
  hwmp_active_path_timeout = 5000;
  hwmp_rann_interval = 5000;
  mtu = 1500;
  init_peering_allowed_macs = [];
}

abbrev pub rate : ℕ → RateInfo
rate r = record { rate = some r }

abbrev pub band : BandInfo
band = record {
  band_type = 1;
  ht_mcs_set = none;
  ht_capa = none;
  ht_ampdu_factor = none;
  ht_ampdu_density = none;
  vht_mcs_set = none;
  vht_capa = none;
  rates = some (rate 60 ∷ rate 120 ∷ rate 240 ∷ []);
  freqs = some (record { freq = some 5180 } ∷ []);
}

abbrev pub radio : Attributes
radio = record no_attributes {
  wiphy = some 0;
  wiphy_name = some (b'p' ∷ b'0' ∷ []);
  supported_iftypes = some (2 ∷ 7 ∷ []);
  wiphy_bands = some (band ∷ []);
}

abbrev pub multicast_group : Bytes → ℕ → GroupInfo
multicast_group name i = record { group_name = some name; group_id = some i }

abbrev pub family : Attributes
family = record no_attributes {
  mcast_groups = some (
      multicast_group (b'm' ∷ b'l' ∷ b'm' ∷ b'e' ∷ []) 5
      ∷ multicast_group (b's' ∷ b'c' ∷ b'a' ∷ b'n' ∷ []) 6
      ∷ []);
}

abbrev pub answer : Command → List (Event Attributes)
answer Command.get_wiphy = Event.valid radio ∷ Event.finish ∷ []
answer Command.get_family = Event.valid family ∷ Event.ack ∷ []
answer Command.new_interface =
    Event.valid (record no_attributes { mac = some (2 ∷ 0 ∷ 0 ∷ 0 ∷ 0 ∷ 1 ∷ []) }) ∷ Event.ack ∷ []
answer _ = Event.ack ∷ []

-- The state of the kernel is how many messages it has got.
abbrev pub driver : Driver ℕ
driver = record {
  exchange = λ m k. (answer m.command ∷ [], k + 1);
  send_event = λ m k. k + 1;
  if_nametoindex = λ name k. 0;
  set_mtu = λ name mtu k. k;
  has_socket = λ k. true;
  has_request = λ k. true;
  link_index = λ name k. some 4;
  change_link = λ name up k. (true, k);
}

abbrev pub world : Global → List (ℕ × NetInterface) → World ℕ
world g netifs = record {
  handler = record {
    interface_name = mesh0;
    net_interfaces = netifs;
    multicast_groups = [];
    userspace_mesh_peering = false;
    global_nl_handler = g;
  };
  sent = [];
  kernel = 0;
}

unfoldable pub netif : NetInterface
unfolding new_net_interface
netif = record (new_net_interface sizes 0) {
  maybe_if_name = some mesh0;
  is_mesh_capable = true;
  mesh_id = b'f' ∷ b'b' ∷ [];
}

abbrev pub authsae : Authsae ℕ
authsae = record {
  sae_initialize = λ id c k. (true, k);
  ampe_initialize = λ c k. (true, k);
  igtk = λ k. (4, 1 ∷ []);
  mgtk = λ k. 2 ∷ [];
}

abbrev pub lengths : KeyLengths
lengths = record { ccmp = 16; cmac = 16 }

abbrev pub elems : InfoElems
elems = record {
  elem_mesh_id = some (b'x' ∷ []);
  rsn = none;
  sup_rates = none;
  ht_cap = none;
  ht_info = none;
  vht_cap = none;
}

abbrev pub frames : FrameApi
frames = record {
  is_management = λ f. true;
  is_action_or_auth = λ f. true;
  is_close = λ f. false;
  destination = λ f. f;
  header_size = 24;
  beacon_from = λ mac. mac;
  parse_ies = λ ie. elems;
  is_20mhz = λ info. false;
  without_40mhz = λ cap. cap;
}

abbrev pub candidate : Candidate
candidate = record {
  in_kernel = false;
  association_id = 1;
  has_conf = true;
  is_secure = true;
  elems = elems;
}

abbrev pub peers : PeerApi ℕ
peers = record {
  find_peer = λ mac accepted k. some candidate;
  process_mgmt_frame = λ frame mac is_open w. (ok true, w);
  set_peer_ies = λ mac e k. k;
  mark_in_kernel = λ mac k. k;
  close_peer_link = λ mac w. (ok tt, w);
  delete_peer = λ mac k. k;
  open_peer_link = λ mac w. (ok tt, w);
}

abbrev pub peer : Bytes
peer = 2 ∷ 0 ∷ 0 ∷ 0 ∷ 0 ∷ 9 ∷ []

-- A candidate, and a frame at -90 dBm.
abbrev pub event : Attributes
event = record no_attributes {
  mac = some peer;
  ie = some (0 ∷ []);
  wiphy = some 0;
  frame = some (0xD0 ∷ []);
  rx_signal_dbm = some 4294967206;
}

-- The length of the key for data is not that of its cipher.
abbrev pub short_keys : LinkKeys
short_keys = record {
  mtk = 1 ∷ [];
  mtk_len = 16;
  mgtk = 2 ∷ [];
  mgtk_len = 8;
  igtk = none;
  igtk_len = 0;
  igtk_keyid = 0;
}

abbrev pub joined : World ℕ
joined = world Global.this ((0, netif) ∷ [])

abbrev pub ready : World ℕ
ready = world Global.unset ((0, netif) ∷ [])

abbrev pub count : ℕ → ℕ → Result ℕ
count m s = ok (m + s)

abbrev pub batches : List (List (Event ℕ))
batches =
    (Event.valid 1 ∷ Event.valid 2 ∷ []) ∷ (Event.valid 3 ∷ Event.error NlError.intr ∷ []) ∷ []

-- An interface that no configuration has claimed, and the handler that has found it.
unfoldable pub fresh : NetInterface
unfolding new_net_interface
fresh = record (new_net_interface sizes 0) { is_mesh_capable = true; frequencies = 5180 ∷ [] }

abbrev pub found : World ℕ
found = world Global.unset ((0, fresh) ∷ [])
