-- ===== src/Mesh/Wiphy.antt =====
-- 802.11s/Nl80211Handler.cpp: `populateNetifs` and `parseWiphyBands`, what the driver reports of its
-- radios; and 802.11s/NetInterface.cpp: an interface as it is made, and its frequencies.
--
-- The list of interfaces has the last first until it is complete. The assertions on lengths are
-- left out.
use fbmeshd.Prelude.{
  ℕ, zero, suc, ◌%◌, ◌^◌, Bool, true, false, Option, none, some, List, [], ◌∷◌, ◌==◌, if◌then◌else◌,
  length,
}
use fbmeshd.Prelude.Int.{pos}
use fbmeshd.Mesh.{Bytes, Exception, Result, ok, throw, ◌>>=◌, attribute}
use fbmeshd.Mesh.Messages.{FrequencyInfo, RateInfo, BandInfo, Attributes, Message, Command}
use fbmeshd.Mesh.Settings.{Sizes}
use fbmeshd.Mesh.Handler.{
  Band, MeshdBand, MeshdConfig, NetInterface, Driver, Action, send_and_receive,
}

abbrev pub new_band : Band
new_band = record {
  ht_supported = false;
  ht_mcs = [];
  ht_cap = 0;
  ampdu_factor = 0;
  ampdu_density = 0;
  vht_supported = false;
  vht_mcs = [];
  vht_cap = 0;
  rates = none;
  n_bitrates = 0;
}

abbrev pub new_conf : MeshdConfig
new_conf = record {
  band = MeshdBand.meshd_11b;
  meshid = [];
  interface = [];
  is_secure = false;
  control_freq = pos 0;
  center_freq1 = pos 0;
  center_freq2 = pos 0;
  channel_width = 0;
  ht_prot_mode = 0;
  pmf = false;
  mcast_rate = 0;
  max_plinks = 0;
  basic_rates = [];
}

abbrev pub replicate : {A : Type 0} → ℕ → A → List A
replicate zero a = []
replicate (suc n) a = a ∷ replicate n a

-- NL80211_CHAN_WIDTH_20 and NL80211_IFTYPE_MESH_POINT.
abbrev pub chan_width_20 : ℕ
chan_width_20 = 1

abbrev pub iftype_mesh_point : ℕ
iftype_mesh_point = 7

module _ (sizes : Sizes) where
  -- The members that the code does not initialise are 0.
  unfoldable pub new_net_interface : ℕ → NetInterface
  new_net_interface phy = record {
    maybe_if_name = none;
    maybe_if_index = none;
    phy_name = [];
    mesh_id = [];
    frequency = pos 0;
    center_freq1 = pos 0;
    center_freq2 = pos 0;
    channel_width = chan_width_20;
    is_mesh_capable = false;
    maybe_mac_address = none;
    is_encrypted = false;
    encryption_password = [];
    encryption_sae_groups = [];
    encryption_debug = pos 0;
    max_peer_links = 0;
    maybe_rssi_threshold = none;
    ttl = 0;
    element_ttl = 0;
    hwmp_active_path_timeout = 0;
    hwmp_rann_interval = 0;
    phy_index = phy;
    frequencies = [];
    band_5ghz = false;
    bands = replicate sizes.num_bands new_band;
    conf = new_conf;
  }

-- The members of a nested attribute. The iterator reads the first one without a test.
abbrev pub nested : {A : Type 0} → Option (List A) → Result (List A)
nested none = throw Exception.bad_memory
nested (some []) = throw Exception.bad_memory
nested (some (a ∷ as')) = ok (a ∷ as')

abbrev pub any : {A : Type 0} → (A → Bool) → List A → Bool
any p [] = false
any p (a ∷ r) = if p a then true else any p r

unfoldable pub is_frequency_supported : ℕ → NetInterface → Bool
is_frequency_supported freq n = any (λ f. f == freq) n.frequencies

unfoldable pub add_supported_frequency : ℕ → NetInterface → NetInterface
unfolding is_frequency_supported
add_supported_frequency freq n =
    if is_frequency_supported freq n then n else record n { frequencies = freq ∷ n.frequencies }

abbrev pub get_elem? : {A : Type 0} → List A → ℕ → Option A
get_elem? [] i = none
get_elem? (x ∷ xs) zero = some x
get_elem? (x ∷ xs) (suc i) = get_elem? xs i

abbrev pub set : {A : Type 0} → List A → ℕ → A → List A
set [] i v = []
set (x ∷ xs) zero v = v ∷ xs
set (x ∷ xs) (suc i) v = x ∷ set xs i v

unfoldable pub get_supported_band : ℕ → NetInterface → Option Band
get_supported_band band n = get_elem? n.bands band

unfoldable pub read_ht : BandInfo → Option Bytes → Band → Result Band
read_ht i none b = ok b
read_ht i (some mcs) b = do
  cap ← attribute i.ht_capa
  factor ← attribute i.ht_ampdu_factor
  density ← attribute i.ht_ampdu_density
  ok (record b {
    ht_supported = true;
    ht_mcs = mcs;
    ht_cap = cap;
    ampdu_factor = factor;
    ampdu_density = density;
  })

unfoldable pub read_vht : BandInfo → Option Bytes → Band → Result Band
read_vht i none b = ok b
read_vht i (some mcs) b = do
  cap ← attribute i.vht_capa
  ok (record b { vht_supported = true; vht_mcs = mcs; vht_cap = cap })

-- The loop over the rates, which has no test for the end of the array `sup_rates`. The memory behind
-- the array, which too many rates overwrite, is left out.
unfoldable pub read_rates : List RateInfo → List ℕ
read_rates [] = []
read_rates (i ∷ is) = elim i.rate [ none ↦ read_rates is | some r ↦ r % 2 ^ 16 ∷ read_rates is ]

-- A band without rates keeps those that it has.
abbrev pub with_rates : List ℕ → Band → Band
with_rates [] b = b
with_rates (r ∷ rs) b = record b { rates = some (r ∷ rs); n_bitrates = length (r ∷ rs) }

unfoldable pub add_frequencies : List FrequencyInfo → NetInterface → NetInterface
unfolding add_supported_frequency
add_frequencies [] n = n
add_frequencies (i ∷ is) n = elim i.freq [
  | none ↦ add_frequencies is n
  | some f ↦ add_frequencies is (add_supported_frequency f n)
]

abbrev pub read_frequencies : Option (List FrequencyInfo) → NetInterface → Result NetInterface
read_frequencies none n = ok n
read_frequencies (some is) n = do some_freqs ← nested (some is); ok (add_frequencies some_freqs n)

abbrev pub the_band : Option Band → Result Band
the_band none = throw Exception.check_failed
the_band (some b) = ok b

module _ (sizes : Sizes) where
  unfoldable pub parse_band : BandInfo → NetInterface → Result NetInterface
  unfolding get_supported_band
  parse_band i n = do
    b ← the_band (get_supported_band i.band_type n)
    b1 ← read_ht i i.ht_mcs_set b
    b2 ← read_vht i i.vht_mcs_set b1
    infos ← nested i.rates
    read_frequencies i.freqs
        (record n { bands = set n.bands i.band_type (with_rates (read_rates infos) b2) })

  unfoldable pub parse_bands : List BandInfo → NetInterface → Result NetInterface
  parse_bands [] n = ok n
  parse_bands (i ∷ is) n = do n' ← parse_band i n; parse_bands is n'

  abbrev pub parse_wiphy_bands : Option (List BandInfo) → NetInterface → Result NetInterface
  parse_wiphy_bands none n = ok n
  parse_wiphy_bands (some is) n = do some_bands ← nested (some is); parse_bands some_bands n

  abbrev pub read_iftypes : Option (List ℕ) → NetInterface → Result NetInterface
  read_iftypes none n = ok n
  read_iftypes (some ts) n = do
    types ← nested (some ts)
    ok (if any (λ t. t == iftype_mesh_point) types then record n { is_mesh_capable = true } else n)

  abbrev pub named : Option Bytes → NetInterface → Result NetInterface
  named none n = throw Exception.out_of_range
  named (some name) n = ok (record n { phy_name = name })

  -- The interface that a message is about, and those before it.
  unfoldable pub current :
      ℕ → Attributes → List NetInterface → Result (NetInterface × List NetInterface)
  unfolding new_net_interface
  current phy tb [] = do n ← named tb.wiphy_name (new_net_interface sizes phy); ok (n, [])
  current phy tb (n ∷ ns) =
      if n.phy_index == phy
      then ok (n, ns)
      else named tb.wiphy_name (new_net_interface sizes phy) >>= λ m. ok (m, n ∷ ns)

  unfoldable pub on_wiphy : Attributes → List NetInterface → Result (List NetInterface)
  on_wiphy tb netifs = do
    phy ← attribute tb.wiphy
    (n, before) ← current phy tb netifs
    n1 ← read_iftypes tb.supported_iftypes n
    n2 ← parse_wiphy_bands tb.wiphy_bands n1
    ok (n2 ∷ before)

abbrev pub get_wiphy_message : Message
get_wiphy_message = record { command = Command.get_wiphy; dump = true; attributes = [] }

unfoldable pub populate_netifs : {K : Type 0} → Sizes → Driver K → Action K (List NetInterface)
unfolding send_and_receive
populate_netifs sizes d = send_and_receive d (on_wiphy sizes) get_wiphy_message []
