-- ===== src/Mesh/Claims.antt =====
-- 802.11s/Nl80211Handler.cpp: what `applyConfiguration` does to the interface that it claims.

use fbmeshd.Prelude.{
  ◌↔◌, ◌⊎◌, not, arith, [], ◌==◌, ℕ, ◌%◌, ◌^◌, ◌≡◌, refl, true, Option, none, some, List, ◌∷◌, ◌++◌,
  All, nat_eq,
}
use fbmeshd.Prelude.Int.{ℤ}
use fbmeshd.Mesh.{Bytes, Result, ok, throw, value}
use fbmeshd.Mesh.{to_unsigned}
use fbmeshd.Prelude.Dict.{is_some}
use fbmeshd.Mesh.Wiphy.{any, is_frequency_supported}
use fbmeshd.Mesh.Csv.{parse_csv_flag}
use fbmeshd.Mesh.{bytes_beq_iff}
use fbmeshd.Mesh.Settings.{Flags, type_160, type_80_80, type_80, type_40, type_20, type_noht}
use fbmeshd.Mesh.Handler.{
  NetInterface, Nl80211Handler, Driver, World, ◌>>◌, lift, catch, Yields, Leaves, continue-Yields,
  continue-Leaves, catch-Yields,
}
use fbmeshd.Mesh.Links.{netif_from_phy, change, delete_interface, create_interface}
use fbmeshd.Mesh.Apply.{
  Parsers, is_usable, claim, set_encryption, set_options, set_limits, width_of_type, configured_mac,
  with_mac, set_configuration, make_interface,
}
use fbmeshd.Mesh.Places.{Absent, adjust-at, find-at}
use fbmeshd.Mesh.Kept.{delete_interface-Leaves, create_interface-Leaves}

-- The widths of the channel types: NL80211_CHAN_WIDTH_* of the kernel's header.
abbrev pub IsWidth : Bytes → ℕ → Type 0
IsWidth t w =
    ((t ≡ type_160) × (w ≡ 5))
    ⊎ ((t ≡ type_80_80) × (w ≡ 4))
    ⊎ ((t ≡ type_80) × (w ≡ 3))
    ⊎ ((t ≡ type_40) × (w ≡ 2))
    ⊎ ((t ≡ type_20) × (w ≡ 1))
    ⊎ ((t ≡ type_noht) × (w ≡ 0))

width_of_type-IsWidth : (t : Bytes) (w : ℕ) → width_of_type t ≡ ok w → IsWidth t w
unfolding width_of_type
width_of_type-IsWidth t w h = ground (
  arith,
  bytes_beq_iff t type_160,
  bytes_beq_iff t type_80_80,
  bytes_beq_iff t type_80,
  bytes_beq_iff t type_40,
  bytes_beq_iff t type_20,
  bytes_beq_iff t type_noht,
)

-- What a configured interface has of the flags, and keeps of the interface that it was.
pub record IsConfigured (p : Parsers) (name : Bytes) (f : Flags) (n n' : NetInterface)
    : Type 0 where
  pub if_name : n'.maybe_if_name ≡ some name
  pub mesh : n'.mesh_id ≡ f.mesh_id
  pub channel : n'.frequency ≡ f.frequency
  pub width : IsWidth f.channel_type n'.channel_width
  pub groups : parse_csv_flag p.stoi f.sae_groups ≡ ok n'.encryption_sae_groups
  pub encrypted : n'.is_encrypted ≡ f.enable_encryption
  pub password : n'.encryption_password ≡ f.encryption_password
  pub centers : (n'.center_freq1 ≡ f.center_freq1) × (n'.center_freq2 ≡ f.center_freq2)
  pub debug : n'.encryption_debug ≡ f.peering_verbosity
  pub active_path_timeout : n'.hwmp_active_path_timeout ≡ f.hwmp_active_path_timeout
  pub rann_interval : n'.hwmp_rann_interval ≡ f.hwmp_rann_interval
  pub threshold : n'.maybe_rssi_threshold ≡ some f.rssi_threshold
  pub peers : n'.max_peer_links ≡ f.max_peer_links % 2 ^ 16
  pub lives : (n'.ttl ≡ f.ttl % 2 ^ 8) × (n'.element_ttl ≡ f.ttl_element % 2 ^ 8)
  pub kept_phy : n'.phy_index ≡ n.phy_index
  pub kept_capable : n'.is_mesh_capable ≡ n.is_mesh_capable
  pub kept_bands : n'.bands ≡ n.bands
  pub kept_frequencies : n'.frequencies ≡ n.frequencies

-- A frequency is in a list.
abbrev pub LiesIn : ℕ → List ℕ → Type 0
LiesIn x [] = ⊥
LiesIn x (y ∷ ys) = (y ≡ x) ⊎ LiesIn x ys

-- An interface that can mesh on the frequency of the flags, and is not in use.
pub record IsUsable (f : Flags) (n : NetInterface) : Type 0 where
  pub capable : n.is_mesh_capable ≡ true
  pub supported : LiesIn (to_unsigned 32 f.frequency) n.frequencies
  pub unused : n.maybe_if_name ≡ none

any_iff : (x : ℕ) (ys : List ℕ) → (any (λ y. y == x) ys ≡ true) ↔ LiesIn x ys
any_iff x [] = ground arith
any_iff x (y ∷ ys) = ground (arith, any_iff x ys)

unused_iff : (o : Option Bytes) → (not (is_some o) ≡ true) ↔ (o ≡ none)
unused_iff none = ground arith
unused_iff (some a) = ground arith

pub is_usable_iff : (f : Flags) (n : NetInterface) → (is_usable f n ≡ true) ↔ IsUsable f n
unfolding is_usable is_frequency_supported
is_usable_iff f n =
    let supported = any_iff (to_unsigned 32 f.frequency) n.frequencies in
    let unused = unused_iff n.maybe_if_name in
    (
      λ h. record {
        capable = ground arith;
        supported = supported.0 (ground arith);
        unused = unused.0 (ground arith);
      },
      λ u.
          let capable = u.capable in
          let free = unused.1 u.unused in let known = supported.1 u.supported in ground arith,
    )

-- The first usable interface is claimed, and the others are as they were.
pub record Claim (p : Parsers) (name : Bytes) (f : Flags) (m m' : List (ℕ × NetInterface))
    : Type 0 where
  pub before : List (ℕ × NetInterface)
  pub key : ℕ
  pub was : NetInterface
  pub claimed : NetInterface
  pub after : List (ℕ × NetInterface)
  pub had : m ≡ before ++ (key, was) ∷ after
  pub has : m' ≡ before ++ (key, claimed) ∷ after
  pub skipped : All (λ e. ¬ IsUsable f e.1) before
  pub usable : IsUsable f was
  pub configured : IsConfigured p name f was claimed

-- The interfaces of a handler, with n under the key.
abbrev pub Holds :
    ℕ → List (ℕ × NetInterface) → List (ℕ × NetInterface) → NetInterface → Nl80211Handler → Type 0
Holds key before after n hd = hd.net_interfaces ≡ before ++ (key, n) ∷ after

module _ {K : Type 0} (key : ℕ) (before after : List (ℕ × NetInterface))
    (h : Absent key before) where
  change-Holds :
      (g : NetInterface → NetInterface) (n : NetInterface) (w : World K)
      → Holds key before after n w.handler
      → Yields (λ _ w'. Holds key before after (g n) w'.handler) (change key g w)
  change-Holds g n w e = rw e (adjust-at key g before after n h)

  changes-Holds :
      (g g' : NetInterface → NetInterface) (n : NetInterface) (w : World K)
      → Holds key before after n w.handler
      → Yields
          (λ _ w'. Holds key before after (g' (g n)) w'.handler)
          ((change key g >> change key g') w)
  changes-Holds g g' n w e =
      rw e (rw (adjust-at key g before after n h) (adjust-at key g' before after (g n) h))

  pub netif_from_phy-at :
      (n : NetInterface) (w : World K)
      → Holds key before after n w.handler
      → netif_from_phy key w ≡ (ok n, w)
  netif_from_phy-at n w e = rw e (rw (find-at key before after n h))

  lift-Holds :
      {A : Type 0} (r : Result A) (n : NetInterface) (w : World K)
      → Holds key before after n w.handler
      → Yields (λ a w'. (r ≡ ok a) × Holds key before after n w'.handler) (lift r w)
  lift-Holds (ok a) n w e = (refl, e)
  lift-Holds (throw x) n w e = tt

  module _ (d : Driver K) (p : Parsers) (name : Bytes) (f : Flags) (n : NetInterface) where
    -- The handler has a configured version of n.
    abbrev pub HoldsConfigured : Nl80211Handler → Type 0
    HoldsConfigured hd =
        (n' : NetInterface) × Holds key before after n' hd × IsConfigured p name f n n'

    -- What the assignments make of n.
    abbrev configured : ℕ → List ℤ → Option Bytes → NetInterface
    configured width groups mac =
        let n2 = set_encryption f (record (claim name f n) { channel_width = width }) in
        let n3 = set_options f (record n2 { encryption_sae_groups = groups }) in
        set_limits f (with_mac d p mac n3)

    configured-IsConfigured :
        (width : ℕ) (groups : List ℤ) (mac : Option Bytes)
        → width_of_type f.channel_type ≡ ok width
        → parse_csv_flag p.stoi f.sae_groups ≡ ok groups
        → IsConfigured p name f n (configured width groups mac)
    unfolding claim set_encryption set_options set_limits
    configured-IsConfigured width groups none hw hg = record {
      if_name = refl;
      mesh = refl;
      channel = refl;
      width = width_of_type-IsWidth f.channel_type width hw;
      groups = hg;
      encrypted = refl;
      password = refl;
      centers = (refl, refl);
      debug = refl;
      active_path_timeout = refl;
      rann_interval = refl;
      threshold = refl;
      peers = refl;
      lives = (refl, refl);
      kept_phy = refl;
      kept_capable = refl;
      kept_bands = refl;
      kept_frequencies = refl;
    }
    configured-IsConfigured width groups (some a) hw hg = record {
      if_name = refl;
      mesh = refl;
      channel = refl;
      width = width_of_type-IsWidth f.channel_type width hw;
      groups = hg;
      encrypted = refl;
      password = refl;
      centers = (refl, refl);
      debug = refl;
      active_path_timeout = refl;
      rann_interval = refl;
      threshold = refl;
      peers = refl;
      lives = (refl, refl);
      kept_phy = refl;
      kept_capable = refl;
      kept_bands = refl;
      kept_frequencies = refl;
    }

    pub set_configuration-Yields :
        (w : World K)
        → Holds key before after n w.handler
        → Yields (λ _ w'. HoldsConfigured w'.handler) (set_configuration d p key name f w)
    unfolding set_configuration
    set_configuration-Yields w e =
        let n1 = claim name f n in
        continue-Yields _ (λ _ w'. HoldsConfigured w'.handler)
          (lift (width_of_type f.channel_type) _) _
          (lift-Holds (width_of_type f.channel_type) n1 _ (change-Holds (claim name f) n w e))
          λ width w2 h2.
            let n2 = set_encryption f (record n1 { channel_width = width }) in
            continue-Yields _ (λ _ w'. HoldsConfigured w'.handler)
              (lift (parse_csv_flag p.stoi f.sae_groups) _) _
              (lift-Holds (parse_csv_flag p.stoi f.sae_groups) n2 _ (
                changes-Holds (λ n'. record n' { channel_width = width }) (set_encryption f) n1 w2
                  h2.1))
              λ groups w3 h3.
                let n3 = set_options f (record n2 { encryption_sae_groups = groups }) in
                continue-Yields _ (λ _ w'. HoldsConfigured w'.handler)
                  (lift (configured_mac d p f.mac_address) _) _
                  (lift-Holds (configured_mac d p f.mac_address) n3 _ (
                    changes-Holds (λ n'. record n' { encryption_sae_groups = groups })
                      (set_options f) n2 w3 h3.1))
                  λ mac w4 h4. (
                    configured width groups mac,
                    changes-Holds (with_mac d p mac) (set_limits f) n3 w4 h4.1,
                    configured-IsConfigured width groups mac h2.0 h3.0,
                  )

IsConfigured-mac :
    (p : Parsers) (name : Bytes) (f : Flags) (n n' : NetInterface) (a : Bytes)
    → IsConfigured p name f n n'
    → IsConfigured p name f n (record n' { maybe_mac_address = some a })
IsConfigured-mac p name f n n' a c = record {
  if_name = c.if_name;
  mesh = c.mesh;
  channel = c.channel;
  width = c.width;
  groups = c.groups;
  encrypted = c.encrypted;
  password = c.password;
  centers = c.centers;
  debug = c.debug;
  active_path_timeout = c.active_path_timeout;
  rann_interval = c.rann_interval;
  threshold = c.threshold;
  peers = c.peers;
  lives = c.lives;
  kept_phy = c.kept_phy;
  kept_capable = c.kept_capable;
  kept_bands = c.kept_bands;
  kept_frequencies = c.kept_frequencies;
}

module _ {K : Type 0} (d : Driver K) (p : Parsers) (name : Bytes) (f : Flags) (key : ℕ)
    (before after : List (ℕ × NetInterface)) (h : Absent key before) (n : NetInterface) where
  abbrev pub IsClaimed : Nl80211Handler → Type 0
  IsClaimed = HoldsConfigured key before after h d p name f n

  make_interface-Leaves :
      (w : World K) → IsClaimed w.handler → Leaves IsClaimed (make_interface d p key f w)
  make_interface-Leaves w c = continue-Leaves IsClaimed (netif_from_phy key w) _ c λ n1 w1 c1.
      continue-Leaves IsClaimed (lift (value n1.maybe_if_name) w1) _ c1 λ name1 w2 c2.
        continue-Leaves IsClaimed (delete_interface d name1 w2) _
          (delete_interface-Leaves d IsClaimed name1 w2 c2)
          λ _ w3 c3.
            continue-Leaves IsClaimed (create_interface d f.mtu n1.phy_index w3) _
              (create_interface-Leaves d IsClaimed f.mtu n1.phy_index w3 c3)
              λ mac w4 c4.
                let g = λ (m : NetInterface). record m { maybe_mac_address = some mac } in
                (
                  g c4.0,
                  rw (c4.1) (adjust-at key g before after c4.0 h),
                  IsConfigured-mac p name f n c4.0 mac c4.2,
                )

  pub claim_one-Yields :
      (w : World K)
      → Holds key before after n w.handler
      → Yields
          (λ _ w'. IsClaimed w'.handler)
          ((set_configuration d p key name f >> catch (make_interface d p key f) tt) w)
  claim_one-Yields w e =
      continue-Yields (λ _ w'. IsClaimed w'.handler) (λ _ w'. IsClaimed w'.handler)
        (set_configuration d p key name f w) _
        (set_configuration-Yields key before after h d p name f n w e)
        λ _ w1 c.
          catch-Yields IsClaimed (make_interface d p key f) tt w1 (make_interface-Leaves w1 c)
