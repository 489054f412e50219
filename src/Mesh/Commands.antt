-- ===== src/Mesh/Commands.antt =====
-- 802.11s/Nl80211Handler.cpp: what the handler asks of the driver for the peers and the mesh. The
-- bits of the flags of a station are those of 802.11s/nl80211-copy.h.
use fbmeshd.Prelude.{
  ℕ, ◌%◌, ◌^◌, Bool, false, Option, none, some, List, [], ◌∷◌, ◌==◌, ◌&&◌, ltb, if◌then◌else◌, take,
}
use fbmeshd.Prelude.Int.{ℤ, pos, negsuc}
use fbmeshd.Mesh.{Bytes, value, to_unsigned}
use fbmeshd.Mesh.Messages.{Attribute, Command, MeshParam, KeyAttribute}
use fbmeshd.Mesh.Handler.{
  MeshdConfig, NetInterface, Driver, Action, ◌>>=◌, ◌>>◌, pure, lift, check, send, send_on_events,
}
use fbmeshd.Mesh.Links.{Status, checked_index, mesh_netif, request}

-- NL80211_KEYTYPE_*, of the kernel's headers.
pub data KeyType : Type 0 where
  group pairwise : KeyType

abbrev pub key_type_number : KeyType → ℕ
key_type_number group = 0
key_type_number pairwise = 1

abbrev pub cipher_ccmp : ℕ
cipher_ccmp = 0x000FAC04

abbrev pub cipher_aes_cmac : ℕ
cipher_aes_cmac = 0x000FAC06

-- KEY_LEN_AES_CCMP and KEY_LEN_AES_CMAC, of authsae.
pub record KeyLengths : Type 0 where
  pub ccmp : ℕ
  pub cmac : ℕ

abbrev pub mac_of : Option Bytes → List Attribute
mac_of none = []
mac_of (some a) = Attribute.mac a ∷ []

-- 1 << AUTHENTICATED | 1 << MFP | 1 << AUTHORIZED, with bits 5, 4 and 1, and the same without MFP.
abbrev pub authenticated_mask : ℕ
authenticated_mask = 50

abbrev pub without_mfp : ℕ
without_mfp = 34

-- 1 << AUTHENTICATED | 1 << WME, with bits 5 and 3, and 1 << WME.
abbrev pub unauthenticated_mask : ℕ
unauthenticated_mask = 40

abbrev pub wme_flag : ℕ
wme_flag = 8

module _ {K : Type 0} (d : Driver K) where
  abbrev pub ask : Command → List Attribute → Action K (Unit {0})
  ask c as' = send d (request c as')

  -- The frames of authentication by SAE: type 0x0000 | 0x00B0.
  unfoldable pub register_for_auth_frames : NetInterface → Action K (Unit {0})
  register_for_auth_frames n = do
    i ← checked_index n
    send_on_events d (
        request Command.register_frame
          (Attribute.ifindex i ∷ Attribute.frame_type 0xB0 ∷ Attribute.frame_match (3 ∷ []) ∷ []))

  -- The self-protected action frames 1 to 3, of category 15: type 0x0000 | 0x00D0.
  abbrev pub register_action : ℕ → ℕ → Action K (Unit {0})
  register_action i code = send_on_events d (
      request Command.register_frame (
        Attribute.ifindex i
        ∷ Attribute.frame_type 0xD0
        ∷ Attribute.frame_match (15 ∷ code ∷ [])
        ∷ []))

  unfoldable pub register_for_mesh_peering_frames : NetInterface → Action K (Unit {0})
  register_for_mesh_peering_frames n = do
    i ← checked_index n
    register_action i 1
    register_action i 2
    register_action i 3

  abbrev pub key_length : KeyLengths → ℕ → ℕ
  key_length lengths cipher = if cipher == cipher_ccmp then lengths.ccmp else lengths.cmac

  unfoldable pub install_key :
      KeyLengths → NetInterface → Option Bytes → ℕ → KeyType → ℕ → Bytes → Action K (Unit {0})
  install_key lengths n peer cipher type idx bytes = do
    i ← checked_index n
    ask Command.new_key (
        Attribute.key (
          KeyAttribute.cipher cipher
          ∷ KeyAttribute.key_data (take (key_length lengths cipher) bytes)
          ∷ KeyAttribute.key_idx (idx % 2 ^ 8)
          ∷ KeyAttribute.key_seq (0 ∷ 0 ∷ 0 ∷ 0 ∷ 0 ∷ 0 ∷ [])
          ∷ KeyAttribute.key_type (key_type_number type)
          ∷ [])
        ∷ Attribute.ifindex i
        ∷ mac_of peer)
    ask Command.set_key (
        (if cipher == cipher_aes_cmac then Attribute.key_default_mgmt else Attribute.key_default)
        ∷ Attribute.key_index (idx % 2 ^ 8)
        ∷ Attribute.ifindex i
        ∷ [])

  abbrev pub tx_on : NetInterface → Bytes → Option ℕ → Action K Status
  tx_on n frame none = pure Status.ifindex_not_found
  tx_on n [] (some i) = pure Status.invalid_argument_value
  tx_on n (c ∷ s) (some i) =
      ask Command.cmd_frame (
        Attribute.ifindex i
        ∷ Attribute.wiphy_freq (to_unsigned 32 n.frequency)
        ∷ Attribute.frame (c ∷ s)
        ∷ [])
      >> pure Status.success

  unfoldable pub tx_frame : NetInterface → Bytes → Action K Status
  tx_frame n frame = tx_on n frame n.maybe_if_index

  abbrev pub is_plink_state : ℕ → ℤ → Bool
  is_plink_state states (pos s) = ltb s states
  is_plink_state states (negsuc s) = false

  unfoldable pub set_plink_state : ℕ → NetInterface → Bytes → ℤ → Action K (Unit {0})
  set_plink_state states n peer state = do
    i ← checked_index n
    check (is_plink_state states state)
    ask Command.set_station (
        Attribute.ifindex i ∷ Attribute.mac peer ∷ Attribute.plink_state (to_unsigned 8 state) ∷ [])

  unfoldable pub delete_station : Bytes → Action K (Unit {0})
  delete_station peer = do
    n ← mesh_netif
    i ← lift (value n.maybe_if_index)
    ask Command.del_station (Attribute.ifindex i ∷ Attribute.mac peer ∷ [])

  unfoldable pub set_station_authenticated : NetInterface → Bytes → Action K (Unit {0})
  set_station_authenticated n peer = do
    i ← checked_index n
    ask Command.set_station (
        Attribute.ifindex i
        ∷ Attribute.mac peer
        ∷ Attribute.sta_flags2 authenticated_mask
            (if n.conf.is_secure && n.conf.pmf then authenticated_mask else without_mfp)
        ∷ [])

  -- `has_ht` is whether MESH_CONF_CHANGED_HT is among the changes.
  unfoldable pub set_mesh_config : NetInterface → MeshdConfig → Bool → Action K Status
  set_mesh_config n conf has_ht = do
    i ← checked_index n
    ask Command.set_mesh_config (
        Attribute.ifindex i
        ∷ Attribute.mesh_config (if has_ht then MeshParam.ht_opmode conf.ht_prot_mode ∷ [] else [])
        ∷ [])
    pure Status.success

  abbrev pub configure_mesh : Command → Attribute → Action K (Unit {0})
  configure_mesh c a = do
    n ← mesh_netif
    i ← lift (value n.maybe_if_index)
    ask c (Attribute.ifindex i ∷ a ∷ [])

  unfoldable pub set_mesh_connected_to_gate : Bool → Action K (Unit {0})
  set_mesh_connected_to_gate is_connected =
      configure_mesh Command.set_mesh_config
        (Attribute.mesh_config (MeshParam.connected_to_gate (if is_connected then 1 else 0) ∷ []))

  unfoldable pub set_root_mode : ℕ → Action K (Unit {0})
  set_root_mode mode =
      configure_mesh Command.set_mesh_config
        (Attribute.mesh_params (MeshParam.hwmp_rootmode (mode % 2 ^ 8) ∷ []))

  unfoldable pub set_rssi_threshold : ℤ → Action K (Unit {0})
  set_rssi_threshold threshold =
      configure_mesh Command.set_mesh_config
        (Attribute.mesh_config (MeshParam.rssi_threshold (to_unsigned 32 threshold) ∷ []))
