-- ===== src/Mesh/Sae.antt =====
-- 802.11s/AuthsaeConfigHelpers.cpp: what authsae is configured with. A write past the end of an
-- array of authsae's is a bad access; assertions are left out.
use fbmeshd.Prelude.{
  ℕ, ◌+◌, ◌/◌, ◌%◌, ◌^◌, Bool, true, false, Option, none, some, List, [], ◌==◌, ◌||◌, ltb,
  if◌then◌else◌, length, count_if, map,
}
use fbmeshd.Prelude.Int.{ℤ, pos, leb_ℤ}
use fbmeshd.Mesh.{Bytes, Exception, Result, ok, throw, value}
use fbmeshd.Mesh.Settings.{Sizes}
use fbmeshd.Mesh.Handler.{Band, MeshdBand, NetInterface, Action, ◌>>=◌, ◌>>◌, lift}
use fbmeshd.Mesh.Wiphy.{get_supported_band}
use fbmeshd.Mesh.Links.{netif_from_phy, change}

-- `sae_config`; its other members are constants.
pub record SaeConfig : Type 0 where
  pub group : List ℤ
  pub pwd : Bytes
  pub debug : ℤ

unfoldable pub create_sae_config : Sizes → NetInterface → Result SaeConfig
create_sae_config sizes n =
    if ltb sizes.sae_max_ec_groups (length n.encryption_sae_groups)
      || ltb sizes.sae_max_password_len (length n.encryption_password)
    then throw Exception.bad_memory
    else ok (record {
      group = n.encryption_sae_groups;
      pwd = n.encryption_password;
      debug = n.encryption_debug;
    })

-- Rates in 100 kb/s that every station of the band has to support.
abbrev pub is_11a_rate : ℕ → Bool
is_11a_rate r = r == 60 || (r == 120 || r == 240)

abbrev pub is_11g_rate : ℕ → Bool
is_11g_rate r =
    r == 10 || (r == 20 || (r == 55 || (r == 60 || (r == 110 || (r == 120 || r == 240)))))

abbrev pub is_basic_rate : MeshdBand → ℕ → Bool
is_basic_rate MeshdBand.meshd_11a r = is_11a_rate r
is_basic_rate _ r = is_11g_rate r

-- In 500 kb/s and a byte, with 0x80 for a basic rate: all of these are below 0x80.
unfoldable pub basic_rate : MeshdBand → ℕ → ℕ
basic_rate band r = if is_basic_rate band r then r / 5 % 2 ^ 8 + 0x80 else r / 5 % 2 ^ 8

-- Whether `want` has counted down to what is accepted: 3 to 0, or 7 to 0, 3 or 6.
unfoldable pub has_basic_rates : MeshdBand → List ℕ → Bool
has_basic_rates MeshdBand.meshd_11a rates = count_if is_11a_rate rates == 3
has_basic_rates MeshdBand.meshd_11b rates =
    let n = count_if is_11g_rate rates in n == 7 || (n == 4 || n == 1)
has_basic_rates MeshdBand.meshd_11g rates =
    let n = count_if is_11g_rate rates in n == 7 || (n == 4 || n == 1)

-- The frequencies of the band at 2.4 GHz end at 2484.
unfoldable pub fill_band : NetInterface → NetInterface
fill_band n =
    let is_low = leb_ℤ n.frequency (pos 2484) in
    record n {
      band_5ghz = if is_low then false else true;
      conf = record n.conf {
        band = if is_low then MeshdBand.meshd_11g else MeshdBand.meshd_11a;
        meshid = n.mesh_id;
      };
    }

unfoldable pub fill_conf : Bytes → NetInterface → NetInterface
fill_conf if_name n = record n {
  conf = record n.conf {
    interface = if_name;
    is_secure = n.is_encrypted;
    control_freq = n.frequency;
    center_freq1 = n.center_freq1;
    center_freq2 = n.center_freq2;
    channel_width = n.channel_width;
    ht_prot_mode = 3;
    pmf = true;
    mcast_rate = 120;
    max_plinks = n.max_peer_links;
  };
}

abbrev pub rates_of : Option (List ℕ) → List ℕ
rates_of none = []
rates_of (some rs) = rs

abbrev pub band_rates : Option Band → Result (List ℕ)
band_rates none = throw Exception.bad_memory
band_rates (some b) = ok (rates_of b.rates)

abbrev pub set_basic_rates : List ℕ → NetInterface → NetInterface
set_basic_rates rates n = record n {
  conf = record n.conf { basic_rates = map (basic_rate n.conf.band) rates };
}

module _ {K : Type 0} (sizes : Sizes) where
  -- The rates are written before they are found to be too few.
  unfoldable pub set_supported_basic_rates : ℕ → List ℕ → Action K (Unit {0})
  unfolding has_basic_rates
  set_supported_basic_rates key rates = do
    lift (if ltb sizes.max_supp_rates (length rates) then throw Exception.bad_memory else ok tt)
    change key (set_basic_rates rates)
    n ← netif_from_phy key
    lift (if has_basic_rates n.conf.band rates then ok tt else throw Exception.runtime_error)

  -- The interface under a key gets the configuration of the mesh's node.
  unfoldable pub create_mesh_config : ℕ → Action K (Unit {0})
  create_mesh_config key = do
    change key fill_band
    n ← netif_from_phy key
    name ← lift (value n.maybe_if_name)
    change key (fill_conf name)
    m ← netif_from_phy key
    rates ← lift (band_rates (get_supported_band (if m.band_5ghz then 1 else 0) m))
    set_supported_basic_rates key rates
