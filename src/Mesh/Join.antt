-- ===== src/Mesh/Join.antt =====
-- 802.11s/Nl80211Handler.cpp: `initMesh`, `joinMesh` and `joinMeshes`.
use fbmeshd.Prelude.{
  ℕ, Bool, true, false, Option, none, some, List, [], ◌∷◌, ◌++◌, ◌==◌, ◌||◌, if◌then◌else◌,
}
use fbmeshd.Prelude.Int.{ℤ}
use fbmeshd.Mesh.{Bytes, ok, to_unsigned}
use fbmeshd.Mesh.Messages.{Attribute, Command, Message, MeshParam, MeshSetup}
use fbmeshd.Mesh.Settings.{Sizes}
use fbmeshd.Mesh.Handler.{
  MeshdConfig, NetInterface, Global, Driver, Action, ◌>>=◌, ◌>>◌, pure, lift, gets, modify, check,
  catch, send,
}
use fbmeshd.Mesh.Links.{
  Status, is_success, checked_index, netif_from_phy, request, set_link_flags, visit_valid, keys,
}
use fbmeshd.Mesh.Commands.{
  KeyLengths, group, cipher_aes_cmac, cipher_ccmp, install_key, register_for_auth_frames,
  register_for_mesh_peering_frames,
}
use fbmeshd.Mesh.Sae.{SaeConfig, create_sae_config, create_mesh_config}

-- authsae, with its state in the kernel's: whether it could be initialised, and its keys for what is
-- sent to all: that for management frames, with its index, and that for data.
pub record Authsae (K : Type 0) : Type 0 where
  pub sae_initialize : Bytes → SaeConfig → K → Bool × K
  pub ampe_initialize : MeshdConfig → K → Bool × K
  pub igtk : K → ℕ × Bytes
  pub mgtk : K → Bytes

-- The RSNE: CCMP for the group and for pairs, and SAE.
abbrev pub rsn_information_elements : Bytes
rsn_information_elements =
    0x30 ∷ 0x14 ∷ 1 ∷ 0 ∷ 0 ∷ 0x0F ∷ 0xAC ∷ 4 ∷ 1 ∷ 0 ∷ 0 ∷ 0x0F ∷ 0xAC ∷ 4 ∷ 1 ∷ 0 ∷ 0 ∷ 0x0F
    ∷ 0xAC ∷ 8 ∷ 0 ∷ 0 ∷ []

abbrev pub taken : Global → Global
taken Global.unset = Global.this
taken g = g

abbrev pub is_this : Global → Bool
is_this Global.this = true
is_this _ = false

abbrev pub threshold_param : Option ℤ → List MeshParam
threshold_param none = []
threshold_param (some t) = MeshParam.rssi_threshold (to_unsigned 32 t) ∷ []

unfoldable pub join_params : NetInterface → List MeshParam
join_params n =
    threshold_param n.maybe_rssi_threshold
    ++ (MeshParam.max_peer_links n.max_peer_links
        ∷ MeshParam.ttl n.ttl
        ∷ MeshParam.element_ttl n.element_ttl
        ∷ MeshParam.hwmp_active_path_timeout n.hwmp_active_path_timeout
        ∷ MeshParam.hwmp_rann_interval n.hwmp_rann_interval
        ∷ [])

unfoldable pub join_setup : NetInterface → List MeshSetup
join_setup n =
    MeshSetup.userspace_mpm
    ∷ (if n.is_encrypted
        then MeshSetup.userspace_auth
          ∷ MeshSetup.userspace_ampe
          ∷ MeshSetup.auth_protocol 1
          ∷ MeshSetup.setup_ie rsn_information_elements
          ∷ []
        else [])

unfoldable pub join_message : Bool → ℕ → NetInterface → Message
unfolding join_params join_setup
join_message userspace i n = request Command.join_mesh (
    Attribute.mesh_id n.mesh_id
    ∷ Attribute.ifindex i
    ∷ Attribute.wiphy_freq (to_unsigned 32 n.frequency)
    ∷ Attribute.channel_width n.channel_width
    ∷ Attribute.center_freq1 (to_unsigned 32 n.center_freq1)
    ∷ Attribute.center_freq2 (to_unsigned 32 n.center_freq2)
    ∷ Attribute.mesh_params (join_params n)
    ∷ (if userspace || n.is_encrypted
        then Attribute.mesh_setup (join_setup n)
          ∷ (if n.conf.mcast_rate == 0 then [] else Attribute.mcast_rate n.conf.mcast_rate ∷ [])
        else []))

module _ {K : Type 0} (d : Driver K) (sizes : Sizes) (lengths : KeyLengths) (a : Authsae K) where
  abbrev pub in_authsae : (K → Bool × K) → Action K Bool
  in_authsae f w = let (done, k) = f w.kernel in (ok done, record w { kernel = k })

  abbrev pub from_authsae : {A : Type 0} → (K → A) → Action K A
  from_authsae f w = (ok (f w.kernel), w)

  unfoldable pub install_group_keys : NetInterface → Action K (Unit {0})
  install_group_keys n = do
    igtk ← from_authsae a.igtk
    (if n.conf.pmf
        then install_key d lengths n none cipher_aes_cmac group igtk.0 igtk.1
        else pure tt)
    mgtk ← from_authsae a.mgtk
    install_key d lengths n none cipher_ccmp group 1 mgtk

  -- After `ampe_initialize`.
  unfoldable pub start_peering : ℕ → Action K Status
  start_peering phy = do
    n ← netif_from_phy phy
    register_for_auth_frames d n
    register_for_mesh_peering_frames d n
    if n.conf.is_secure then install_group_keys n else pure tt
    pure Status.success

  unfoldable pub init_ampe : ℕ → Action K Status
  init_ampe phy = do
    create_mesh_config sizes phy
    n ← netif_from_phy phy
    done ← in_authsae (a.ampe_initialize n.conf)
    if done then start_peering phy else pure Status.authsae

  unfoldable pub init_userspace : ℕ → NetInterface → Action K Status
  init_userspace phy n = do
    modify (λ h. record h { global_nl_handler = taken h.global_nl_handler })
    global ← gets (λ h. h.global_nl_handler)
    check (is_this global)
    config ← lift (create_sae_config sizes n)
    done ← in_authsae (a.sae_initialize n.mesh_id config)
    if done then init_ampe phy else pure Status.authsae

  unfoldable pub init_mesh : ℕ → Action K Status
  init_mesh phy = do
    n ← netif_from_phy phy
    userspace ← gets (λ h. h.userspace_mesh_peering)
    if userspace || n.is_encrypted then init_userspace phy n else pure Status.success

  unfoldable pub join_mesh : ℕ → Action K (Unit {0})
  join_mesh phy = do
    n ← netif_from_phy phy
    i ← checked_index n
    userspace ← gets (λ h. h.userspace_mesh_peering)
    send d (join_message userspace i n)

  abbrev pub init_and_join : ℕ → Action K Status
  init_and_join phy = do
    s ← init_mesh phy
    if is_success s then (join_mesh phy >> pure Status.success) else pure s

  unfoldable pub join_one : ℕ → NetInterface → Action K Status
  join_one key n = do
    s ← set_link_flags d key true
    if is_success s then catch (init_and_join n.phy_index) Status.netlink_other else pure s

  unfoldable pub join_meshes : Action K Status
  join_meshes w = visit_valid d join_one (keys w) w
