-- ===== src/Mesh/Callbacks.antt =====
-- 802.11s/AuthsaeCallbackHelpers.cpp: the functions that authsae calls, and its timers. They use the
-- handler that `globalNlHandler` points at; here it is the handler of the state.
use fbmeshd.Prelude.{
  ℕ, zero, suc, ◌+◌, ◌-◌, ◌/◌, ◌%◌, Bool, true, false, not, Option, none, some, ◌==◌, ◌&&◌, ◌||◌,
  ltb, take, if◌then◌else◌,
}
use fbmeshd.Prelude.Int.{ℤ, pos, negsuc}
use fbmeshd.Prelude.Dict.{is_some}
use fbmeshd.Mesh.{Bytes, Exception, throw}
use fbmeshd.Mesh.Handler.{MeshdConfig, NetInterface, Driver, Action, ◌>>=◌, ◌>>◌, pure, lift}
use fbmeshd.Mesh.Links.{mesh_netif}
use fbmeshd.Mesh.Commands.{
  KeyLengths, group, pairwise, cipher_aes_cmac, cipher_ccmp, tx_frame, delete_station,
  set_mesh_config, set_plink_state, set_station_authenticated, install_key,
}
use fbmeshd.Mesh.Events.{
  Candidate, FrameApi, PeerApi, find_peer_action, in_peers, create_unauthenticated_station,
}

-- The authenticated peer, if there is one.
abbrev pub preferred : Option Candidate → Option Candidate → Option Candidate
preferred (some c) other = some c
preferred none other = other

-- The keys that authsae gives for an established link. `igtk` is `none` for a null pointer.
pub record LinkKeys : Type 0 where
  pub mtk : Bytes
  pub mtk_len : ℕ
  pub mgtk : Bytes
  pub mgtk_len : ℕ
  pub igtk : Option Bytes
  pub igtk_len : ℕ
  pub igtk_keyid : ℕ

-- The keys have the lengths of their ciphers.
unfoldable pub has_key_lengths : KeyLengths → LinkKeys → Bool
has_key_lengths lengths k =
    (k.mtk_len == lengths.ccmp && k.mgtk_len == lengths.ccmp)
    && (not (is_some k.igtk) || k.igtk_len == lengths.cmac)

module _ {K : Type 0} (d : Driver K) (frames : FrameApi) (peers : PeerApi K) where
  -- A frame that is not null, and its length as authsae gives it.
  unfoldable pub meshd_write_mgmt : Option Bytes → ℤ → Action K ℤ
  meshd_write_mgmt none framelen = pure (pos 0)
  meshd_write_mgmt (some frame) (negsuc n) = pure (pos 0)
  meshd_write_mgmt (some frame) (pos n) = do
    netif ← mesh_netif
    tx_frame d netif (take n frame)
    pure (pos n)

  abbrev pub delete_candidate : Bytes → Option Candidate → Action K (Unit {0})
  delete_candidate mac none = pure tt
  delete_candidate mac (some c) =
      if c.in_kernel then delete_station d mac else in_peers d frames peers (peers.delete_peer mac)

  unfoldable pub delete_peer_by_addr : Bytes → Action K (Unit {0})
  delete_peer_by_addr mac = do
    accepted ← find_peer_action d frames peers mac true
    any_peer ← find_peer_action d frames peers mac false
    delete_candidate mac (preferred accepted any_peer)

  unfoldable pub fin : ℕ → Bytes → ℤ → Action K (Unit {0})
  unfolding delete_peer_by_addr
  fin zero mac (pos (suc n)) = mesh_netif >>= λ _. peers.open_peer_link mac
  fin zero mac keylen = mesh_netif >>= λ _. pure tt
  fin (suc reason) mac keylen = mesh_netif >>= λ _. delete_peer_by_addr mac

  unfoldable pub meshd_set_mesh_conf : MeshdConfig → Bool → Action K ℕ
  meshd_set_mesh_conf conf has_ht = do
    netif ← mesh_netif
    set_mesh_config d netif conf has_ht
    pure 0

  unfoldable pub set_plink_state_callback : ℕ → Bytes → ℤ → Action K ℕ
  set_plink_state_callback states peer state = do
    netif ← mesh_netif
    set_plink_state d states netif peer state
    pure 0

  abbrev pub install_igtk :
      KeyLengths → NetInterface → Bytes → LinkKeys → Option Bytes → Action K (Unit {0})
  install_igtk lengths n peer k none = pure tt
  install_igtk lengths n peer k (some igtk) =
      install_key d lengths n (some peer) cipher_aes_cmac group k.igtk_keyid igtk

  unfoldable pub install_link_keys :
      KeyLengths → NetInterface → Bytes → LinkKeys → Action K (Unit {0})
  install_link_keys lengths n peer k = do
    install_key d lengths n (some peer) cipher_ccmp pairwise 0 k.mtk
    install_key d lengths n (some peer) cipher_ccmp group 1 k.mgtk
    install_igtk lengths n peer k k.igtk

  abbrev pub announce : NetInterface → Bytes → Candidate → Action K (Unit {0})
  announce n peer c =
      if c.in_kernel
      then pure tt
      else (create_unauthenticated_station d frames peers n peer c.elems
          >> in_peers d frames peers (peers.mark_in_kernel peer))

  unfoldable pub establish : KeyLengths → Bytes → LinkKeys → Candidate → Action K (Unit {0})
  unfolding install_link_keys
  establish lengths peer k c = do
    n ← mesh_netif
    announce n peer c
    set_station_authenticated d n peer
    if c.is_secure then install_link_keys lengths n peer k else pure tt

  abbrev pub establish_configured :
      KeyLengths → Bytes → LinkKeys → Option Candidate → Action K (Unit {0})
  establish_configured lengths peer k none = lift (throw Exception.bad_memory)
  establish_configured lengths peer k (some c) =
      let go = establish lengths peer k c in
      if not c.has_conf || (c.is_secure && not (has_key_lengths lengths k)) then pure tt else go

  -- The peer without configuration is looked up again, among the accepted ones.
  abbrev pub establish_found :
      KeyLengths → Bytes → LinkKeys → Option Candidate → Action K (Unit {0})
  establish_found lengths peer k none = pure tt
  establish_found lengths peer k (some c) =
      let again = find_peer_action d frames peers peer true >>= λ found.
      establish_configured lengths peer k found in
      if c.has_conf then establish_configured lengths peer k (some c) else again

  unfoldable pub estab_peer_link : KeyLengths → Option Bytes → LinkKeys → Action K (Unit {0})
  estab_peer_link lengths none k = pure tt
  estab_peer_link lengths (some peer) k = do
    found ← find_peer_action d frames peers peer false
    establish_found lengths peer k found

-- The delay in milliseconds, for one and a jitter in microseconds and a random number. The jitter
-- moves it down by half of itself and up by less than itself, but not below 1.
unfoldable pub timeout_with_jitter : ℕ → ℕ → ℕ → ℕ
timeout_with_jitter usec jitter_usecs random =
    let jitter = jitter_usecs / 1000 in
    let msec = usec / 1000 in
    let moved = msec + random % jitter - jitter / 2 in
    if jitter == 0 then msec else if ltb moved 1 then 1 else moved

unfoldable pub add_timeout : ℕ → ℕ
unfolding timeout_with_jitter
add_timeout usec = timeout_with_jitter usec 0 0

-- The timer of an event loop is known outside by its number and one; 0 is no timer.
unfoldable pub public_timeout : ℕ → ℕ
public_timeout id = id + 1

-- The timer to cancel.
unfoldable pub rem_timeout : ℕ → Option ℕ
rem_timeout id = if id == 0 then none else some (id - 1)
