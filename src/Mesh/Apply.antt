-- ===== src/Mesh/Apply.antt =====
-- 802.11s/Nl80211Handler.cpp: the constructor, with `initNlSockets` and `applyConfiguration`, and
-- `tearDown`. Adding the event socket to its groups and to the loop is left out.
use fbmeshd.Prelude.{
  ℕ, ◌%◌, ◌^◌, Bool, true, false, not, Option, none, some, List, [], ◌∷◌, ◌&&◌, ltb, if◌then◌else◌,
  map,
}
use fbmeshd.Prelude.Int.{ℤ}
use fbmeshd.Prelude.Dict.{is_some, find, insert}
use fbmeshd.Mesh.{Bytes, bytes_beq, bytes_eq, Exception, Result, ok, throw, value, to_unsigned}
use fbmeshd.Mesh.Csv.{parse_csv_flag}
use fbmeshd.Mesh.Messages.{Command, Attribute, GroupInfo}
use fbmeshd.Mesh.Settings.{
  Flags, Sizes, type_160, type_80_80, type_80, type_40, type_20, type_noht, validate_configuration,
}
use fbmeshd.Mesh.Handler.{
  Band, NetInterface, Global, Driver, Action, ◌>>=◌, ◌>>◌, pure, lift, gets, modify, check, catch,
  send_and_receive,
}
use fbmeshd.Mesh.Wiphy.{is_frequency_supported, nested, populate_netifs}
use fbmeshd.Mesh.Links.{netif_from_phy, change, delete_interface, create_interface, request, keys}

-- The parsers of the standard library and of folly.
pub record Parsers : Type 0 where
  pub stoi : Bytes → Result ℤ
  pub mac_from_string : Bytes → Result Bytes

-- NL80211_CHAN_WIDTH_*.
unfoldable pub width_of_type : Bytes → Result ℕ
width_of_type t =
    if bytes_beq t type_160
    then ok 5
    else if bytes_beq t type_80_80
    then ok 4
    else if bytes_beq t type_80
    then ok 3
    else if bytes_beq t type_40
    then ok 2
    else if bytes_beq t type_20
    then ok 1
    else if bytes_beq t type_noht
    then ok 0
    else throw Exception.invalid_argument

unfoldable pub is_usable : Flags → NetInterface → Bool
is_usable f n =
    n.is_mesh_capable
    && (is_frequency_supported (to_unsigned 32 f.frequency) n && not (is_some n.maybe_if_name))

-- The assignments before the width of the channel, those before the groups, and the rest.
unfoldable pub claim : Bytes → Flags → NetInterface → NetInterface
claim name f n = record n {
  mesh_id = f.mesh_id;
  maybe_if_name = some name;
  frequency = f.frequency;
  center_freq1 = f.center_freq1;
  center_freq2 = f.center_freq2;
}

unfoldable pub set_encryption : Flags → NetInterface → NetInterface
set_encryption f n = record n {
  is_encrypted = f.enable_encryption;
  encryption_password = f.encryption_password;
}

unfoldable pub set_options : Flags → NetInterface → NetInterface
set_options f n = record n {
  encryption_debug = f.peering_verbosity;
  maybe_rssi_threshold = some f.rssi_threshold;
}

unfoldable pub set_limits : Flags → NetInterface → NetInterface
set_limits f n = record n {
  ttl = f.ttl % 2 ^ 8;
  element_ttl = f.ttl_element % 2 ^ 8;
  hwmp_active_path_timeout = f.hwmp_active_path_timeout;
  hwmp_rann_interval = f.hwmp_rann_interval;
  max_peer_links = f.max_peer_links % 2 ^ 16;
}

unfoldable pub free_rates : NetInterface → NetInterface
free_rates n = record n { bands = map (λ (b : Band). record b { rates = none }) n.bands }

module _ {K : Type 0} (d : Driver K) where
  abbrev pub delete_named : Option Bytes → Action K (Unit {0})
  delete_named none = pure tt
  delete_named (some name) = catch (delete_interface d name) tt

  unfoldable pub tear_down_all : List ℕ → Action K (Unit {0})
  unfolding free_rates
  tear_down_all [] = pure tt
  tear_down_all (key ∷ ks) = do
    change key free_rates
    n ← netif_from_phy key
    delete_named n.maybe_if_name
    tear_down_all ks

  unfoldable pub tear_down : Action K (Unit {0})
  unfolding tear_down_all
  tear_down w = tear_down_all (keys w) w

  module _ (parsers : Parsers) where
    abbrev pub configured_mac : Bytes → Result (Option Bytes)
    configured_mac [] = ok none
    configured_mac (c ∷ s) = elim (parsers.mac_from_string (c ∷ s)) [
      | ok a ↦ ok (some a)
      | throw e ↦ throw e
    ]

    abbrev pub with_mac : Option Bytes → NetInterface → NetInterface
    with_mac none n = n
    with_mac (some a) n = record n { maybe_mac_address = some a }

    unfoldable pub set_configuration : ℕ → Bytes → Flags → Action K (Unit {0})
    set_configuration key name f = do
      change key (claim name f)
      width ← lift (width_of_type f.channel_type)
      change key (λ n. record n { channel_width = width })
      change key (set_encryption f)
      groups ← lift (parse_csv_flag parsers.stoi f.sae_groups)
      change key (λ n. record n { encryption_sae_groups = groups })
      change key (set_options f)
      mac ← lift (configured_mac f.mac_address)
      change key (with_mac mac)
      change key (set_limits f)

    abbrev pub make_interface : ℕ → Flags → Action K (Unit {0})
    make_interface key f = do
      n ← netif_from_phy key
      name ← lift (value n.maybe_if_name)
      delete_interface d name
      mac ← create_interface d f.mtu n.phy_index
      change key (λ n'. record n' { maybe_mac_address = some mac })

    unfoldable pub apply_to : List ℕ → Bytes → Flags → Action K (Unit {0})
    apply_to [] name f = tear_down >> lift (throw Exception.runtime_error)
    apply_to (key ∷ ks) name f =
        let rest = apply_to ks name f in
        netif_from_phy key >>= λ n.
        if is_usable f n
        then set_configuration key name f >> catch (make_interface key f) tt
        else rest

    unfoldable pub apply_configuration : Flags → Action K (Unit {0})
    apply_configuration f w = apply_to (keys w) w.handler.interface_name f w

  abbrev pub add_group : GroupInfo → List (Bytes × ℕ) → List (Bytes × ℕ)
  add_group g m = elim g.group_name [
    | none ↦ m
    | some name ↦ elim g.group_id [ none ↦ m | some i ↦ insert name i m ]
  ]

  unfoldable pub add_groups : List GroupInfo → List (Bytes × ℕ) → List (Bytes × ℕ)
  add_groups [] m = m
  add_groups (g ∷ gs) m = add_groups gs (add_group g m)

  abbrev pub read_groups : Option (List GroupInfo) → List (Bytes × ℕ) → Result (List (Bytes × ℕ))
  read_groups none m = ok m
  read_groups (some gs) m = elim (nested (some gs)) [
    | ok some_groups ↦ ok (add_groups some_groups m)
    | throw e ↦ throw e
  ]

  abbrev pub family_nl80211 : Bytes
  family_nl80211 = b'n' ∷ b'l' ∷ b'8' ∷ b'0' ∷ b'2' ∷ b'1' ∷ b'1' ∷ []

  unfoldable pub get_nl80211_multicast_groups : Action K (Unit {0})
  unfolding send_and_receive add_groups
  get_nl80211_multicast_groups = do
    before ← gets (λ h. h.multicast_groups)
    groups ←
        send_and_receive d (λ tb m. read_groups tb.mcast_groups m)
          (request Command.get_family (Attribute.family_name family_nl80211 ∷ [])) before
    modify (λ h. record h { multicast_groups = groups })

  abbrev pub has_group : Bytes → Action K (Unit {0})
  has_group name w = (
    elim (find name w.handler.multicast_groups) [
      | none ↦ throw Exception.out_of_range
      | some i ↦ ok tt
    ],
    w,
  )

  unfoldable pub init_nl_sockets : Action K (Unit {0})
  init_nl_sockets = do
    get_nl80211_multicast_groups
    has_group (b'm' ∷ b'l' ∷ b'm' ∷ b'e' ∷ [])
    has_group (b's' ∷ b'c' ∷ b'a' ∷ b'n' ∷ [])

-- `std::map::emplace`: the map is in the order of its keys, and a key that is there stays.
unfoldable pub emplace_ordered :
    ℕ → NetInterface → List (ℕ × NetInterface) → List (ℕ × NetInterface)
emplace_ordered key n [] = (key, n) ∷ []
emplace_ordered key n ((k, m) ∷ r) =
    if ltb key k
    then (key, n) ∷ (k, m) ∷ r
    else if ltb k key
    then (k, m) ∷ emplace_ordered key n r
    else (k, m) ∷ r

-- The interfaces with the last first.
unfoldable pub emplace_all : List NetInterface → List (ℕ × NetInterface)
unfolding emplace_ordered
emplace_all [] = []
emplace_all (n ∷ ns) = emplace_ordered n.phy_index n (emplace_all ns)

abbrev pub is_unset : Global → Bool
is_unset Global.unset = true
is_unset _ = false

module _ {K : Type 0} (d : Driver K) (sizes : Sizes) (parsers : Parsers) where
  -- The constructor, from a handler with no interfaces and no groups.
  unfoldable pub construct : Flags → Action K (Unit {0})
  construct f = do
    global ← gets (λ h. h.global_nl_handler)
    check (is_unset global)
    name ← gets (λ h. h.interface_name)
    lift (validate_configuration sizes parsers.stoi name f)
    init_nl_sockets d
    netifs ← populate_netifs sizes d
    modify (λ h. record h { net_interfaces = emplace_all netifs })
    apply_configuration d parsers f
