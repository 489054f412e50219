-- ===== src/Mesh/Mild.antt =====
-- 802.11s/Nl80211Handler.cpp: the calls that bring a mesh up change nothing but what Follows says.
use mathlib.Core.List.{append-nil}
use fbmeshd.Prelude.{ℕ, refl, sym, Bool, Option, none, some, List, [], nat_eq}
use fbmeshd.Mesh.{Bytes}
use fbmeshd.Mesh.Settings.{Sizes}
use fbmeshd.Mesh.Handler.{NetInterface, Driver, pure, modify}
use fbmeshd.Mesh.Links.{
  Status, change, set_link_flags, with_link, with_name, change_flags, request_flags,
}
use fbmeshd.Mesh.Commands.{
  KeyLengths, KeyType, install_key, register_for_auth_frames, register_for_mesh_peering_frames,
}
use fbmeshd.Mesh.Sae.{
  create_mesh_config, set_supported_basic_rates, fill_band, fill_conf, set_basic_rates,
}
use fbmeshd.Mesh.Join.{
  Authsae, taken, in_authsae, from_authsae, install_group_keys, start_peering, init_ampe,
  init_userspace, init_mesh,
}
use fbmeshd.Mesh.Follows.{
  settings, with_index, Follows-refl, IsMild, change-IsMild, if-IsMild, pure-IsMild, kernel-Follows,
  mild,
}

module _ {K : Type 0} (d : Driver K) where
  install_key-IsMild :
      (lengths : KeyLengths) (n : NetInterface) (peer : Option Bytes) (cipher : ℕ) (type : KeyType)
      (idx : ℕ) (bytes : Bytes)
      → IsMild with_index (install_key d lengths n peer cipher type idx bytes)
  unfolding install_key
  install_key-IsMild lengths n peer cipher type idx bytes = search mild

  register_for_auth_frames-IsMild :
      (n : NetInterface) → IsMild with_index (register_for_auth_frames d n)
  unfolding register_for_auth_frames
  register_for_auth_frames-IsMild n = search mild

  register_for_mesh_peering_frames-IsMild :
      (n : NetInterface) → IsMild with_index (register_for_mesh_peering_frames d n)
  unfolding register_for_mesh_peering_frames
  register_for_mesh_peering_frames-IsMild n = search mild

module _ {K : Type 0} (d : Driver K) where
  change_flags-IsMild : (name : Bytes) (up : Bool) → IsMild settings (change_flags d name up)
  change_flags-IsMild name up = record {
    follows = λ w. kernel-Follows w (d.change_link name up w.kernel).1;
  }

  set_index-IsMild :
      (key i : ℕ) → IsMild {K = K} settings (change key (λ n. record n { maybe_if_index = some i }))
  set_index-IsMild key i = change-IsMild key (λ n. record n { maybe_if_index = some i }) (λ n. refl)

  request_flags-IsMild : (name : Bytes) (up : Bool) → IsMild settings (request_flags d name up)
  request_flags-IsMild name up = record {
    follows = λ w.
        (if-IsMild (d.has_request w.kernel) (change_flags d name up) (pure Status.rtnl_allocate_obj)
            (change_flags-IsMild name up) (pure-IsMild Status.rtnl_allocate_obj)).follows
          w;
  }

  with_link-IsMild :
      (key : ℕ) (name : Bytes) (up : Bool) (o : Option ℕ)
      → IsMild settings (with_link d key name up o)
  with_link-IsMild key name up none = search mild
  with_link-IsMild key name up (some i) = search (mild, set_index-IsMild, request_flags-IsMild)

  with_name-IsMild :
      (key : ℕ) (o : Option Bytes) (up : Bool) → IsMild settings (with_name d key o up)
  with_name-IsMild key none up = search mild
  with_name-IsMild key (some name) up = record {
    follows = λ w.
        (if-IsMild (d.has_socket w.kernel) (with_link d key name up (d.link_index name w.kernel))
            (pure Status.rtnetlink_allocate_socket)
            (with_link-IsMild key name up (d.link_index name w.kernel))
            (pure-IsMild Status.rtnetlink_allocate_socket)).follows
          w;
  }

  pub set_link_flags-IsMild : (key : ℕ) (up : Bool) → IsMild settings (set_link_flags d key up)
  unfolding set_link_flags
  set_link_flags-IsMild key up = search (mild, with_name-IsMild)

fill_band-IsMild : {K : Type 0} (key : ℕ) → IsMild {K = K} with_index (change key fill_band)
unfolding fill_band
fill_band-IsMild key = change-IsMild key fill_band (λ n. refl)

fill_conf-IsMild :
    {K : Type 0} (key : ℕ) (name : Bytes) → IsMild {K = K} with_index (change key (fill_conf name))
unfolding fill_conf
fill_conf-IsMild key name = change-IsMild key (fill_conf name) (λ n. refl)

set_basic_rates-IsMild :
    {K : Type 0} (key : ℕ) (rates : List ℕ)
    → IsMild {K = K} with_index (change key (set_basic_rates rates))
set_basic_rates-IsMild key rates = change-IsMild key (set_basic_rates rates) (λ n. refl)

module _ {K : Type 0} (sizes : Sizes) where
  set_supported_basic_rates-IsMild :
      (key : ℕ) (rates : List ℕ)
      → IsMild {K = K} with_index (set_supported_basic_rates sizes key rates)
  unfolding set_supported_basic_rates
  set_supported_basic_rates-IsMild key rates = search (mild, set_basic_rates-IsMild)

  create_mesh_config-IsMild : (key : ℕ) → IsMild {K = K} with_index (create_mesh_config sizes key)
  unfolding create_mesh_config
  create_mesh_config-IsMild key =
      search (mild, fill_band-IsMild, fill_conf-IsMild, set_supported_basic_rates-IsMild) depth 12

module _ {K : Type 0} (d : Driver K) (sizes : Sizes) (lengths : KeyLengths) (a : Authsae K) where
  in_authsae-IsMild : (f : K → Bool × K) → IsMild with_index (in_authsae d sizes lengths a f)
  in_authsae-IsMild f = record { follows = λ w. kernel-Follows w (f w.kernel).1 }

  from_authsae-IsMild :
      {A : Type 0} (f : K → A) → IsMild with_index (from_authsae d sizes lengths a f)
  from_authsae-IsMild f = record { follows = λ w. Follows-refl w }

  install_group_keys-IsMild :
      (n : NetInterface) → IsMild with_index (install_group_keys d sizes lengths a n)
  unfolding install_group_keys
  install_group_keys-IsMild n = search (mild, from_authsae-IsMild, install_key-IsMild)

  start_peering-IsMild : (phy : ℕ) → IsMild with_index (start_peering d sizes lengths a phy)
  unfolding start_peering
  start_peering-IsMild phy =
      search
        (
          mild, install_group_keys-IsMild, register_for_auth_frames-IsMild,
          register_for_mesh_peering_frames-IsMild,
        )
        depth 12

  init_ampe-IsMild : (phy : ℕ) → IsMild with_index (init_ampe d sizes lengths a phy)
  unfolding init_ampe
  init_ampe-IsMild phy =
      search (mild, create_mesh_config-IsMild, in_authsae-IsMild, start_peering-IsMild)

  take_global-IsMild :
      IsMild {K = K} with_index
        (modify (λ h. record h { global_nl_handler = taken h.global_nl_handler }))
  take_global-IsMild = record {
    follows = λ w. record {
      same = λ j. refl;
      more = [];
      longer = sym (append-nil w.sent);
      userspace = refl;
    };
  }

  init_userspace-IsMild :
      (phy : ℕ) (n : NetInterface) → IsMild with_index (init_userspace d sizes lengths a phy n)
  unfolding init_userspace
  init_userspace-IsMild phy n =
      search (mild, take_global-IsMild, in_authsae-IsMild, init_ampe-IsMild) depth 12

  pub init_mesh-IsMild : (phy : ℕ) → IsMild with_index (init_mesh d sizes lengths a phy)
  unfolding init_mesh
  init_mesh-IsMild phy = search (mild, init_userspace-IsMild)
