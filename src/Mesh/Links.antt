-- ===== src/Mesh/Links.antt =====
-- 802.11s/NetInterface.cpp: `isValid`, `setLinkFlags`; and 802.11s/Nl80211Handler.cpp: finding an
-- interface, making and deleting it, and leaving its mesh.
use fbmeshd.Prelude.{
  ℕ, Bool, true, false, Option, none, some, List, [], ◌∷◌, ◌==◌, if◌then◌else◌, map, nat_eq,
  count_if,
}
use fbmeshd.Prelude.Dict.{is_some, find}
use fbmeshd.Mesh.{Bytes, Exception, Result, ok, throw, value, attribute, is_null}
use fbmeshd.Mesh.Messages.{Message, Command, Attribute, Attributes}
use fbmeshd.Mesh.Handler.{
  NetInterface, Driver, World, Action, ◌>>=◌, ◌>>◌, pure, lift, modify, check, catch, in_kernel,
  send, send_and_receive,
}

-- common/ErrorCodes.h.
pub data Status : Type 0 where
  success rtnetlink_allocate_socket ifindex_not_found rtnl_allocate_obj change_linkstate : Status
  no_ifname netlink_other invalid_argument_value authsae : Status

-- A command with attributes, which asks for no dump.
abbrev pub request : Command → List Attribute → Message
request c as' = record { command = c; dump = false; attributes = as' }

abbrev pub dump_request : Command → List Attribute → Message
dump_request c as' = record { command = c; dump = true; attributes = as' }

unfoldable pub is_valid : NetInterface → Bool
is_valid n = if is_some n.maybe_if_name then n.is_mesh_capable else false

-- A change of the interface under a key.
unfoldable pub adjust :
    ℕ → (NetInterface → NetInterface) → List (ℕ × NetInterface) → List (ℕ × NetInterface)
adjust key f [] = []
adjust key f ((k, n) ∷ m) = if k == key then (k, f n) ∷ m else (k, n) ∷ adjust key f m

abbrev pub found_or_throw : Option NetInterface → Result NetInterface
found_or_throw none = throw Exception.runtime_error
found_or_throw (some n) = ok n

abbrev pub first_named : List (ℕ × NetInterface) → Option NetInterface
first_named [] = none
first_named ((k, n) ∷ m) = if is_some n.maybe_if_name then some n else first_named m

unfoldable pub lookup_mesh_netif : List (ℕ × NetInterface) → Result NetInterface
lookup_mesh_netif m = found_or_throw (first_named m)

abbrev pub is_success : Status → Bool
is_success success = true
is_success _ = false

module _ {K : Type 0} where
  abbrev pub keys : World K → List ℕ
  keys w = map (λ e. e.0) w.handler.net_interfaces

  abbrev pub netif_from_phy : ℕ → Action K NetInterface
  netif_from_phy phy w = (found_or_throw (find phy w.handler.net_interfaces), w)

  unfoldable pub get_number_of_mesh_phys : Action K ℕ
  get_number_of_mesh_phys w = (ok (count_if (λ e. e.1.is_mesh_capable) w.handler.net_interfaces), w)

  abbrev pub mesh_netif : Action K NetInterface
  mesh_netif w = (lookup_mesh_netif w.handler.net_interfaces, w)

  abbrev pub change : ℕ → (NetInterface → NetInterface) → Action K (Unit {0})
  change key f = modify (λ h. record h { net_interfaces = adjust key f h.net_interfaces })

  -- `CHECK(netif.maybeIfIndex.has_value())`, and then the value.
  abbrev pub checked_index : NetInterface → Action K ℕ
  checked_index n = check (is_some n.maybe_if_index) >> lift (value n.maybe_if_index)

module _ {K : Type 0} (d : Driver K) where
  abbrev pub change_flags : Bytes → Bool → Action K Status
  change_flags name up w =
      let (changed, k) = d.change_link name up w.kernel in
      (ok (if changed then success else change_linkstate), record w { kernel = k })

  abbrev pub request_flags : Bytes → Bool → Action K Status
  request_flags name up w =
      (if d.has_request w.kernel then change_flags name up else pure rtnl_allocate_obj) w

  -- With the link that the kernel has, whose index is kept.
  abbrev pub with_link : ℕ → Bytes → Bool → Option ℕ → Action K Status
  with_link key name up none = pure ifindex_not_found
  with_link key name up (some i) = do
    change key (λ n. record n { maybe_if_index = some i })
    request_flags name up

  abbrev pub with_name : ℕ → Option Bytes → Bool → Action K Status
  with_name key none up w = (ok no_ifname, w)
  with_name key (some name) up w =
      (if d.has_socket w.kernel
          then with_link key name up (d.link_index name w.kernel)
          else pure rtnetlink_allocate_socket)
        w

  -- `bringLinkUp` and `bringLinkDown` of the interface under a key.
  unfoldable pub set_link_flags : ℕ → Bool → Action K Status
  unfolding adjust
  set_link_flags key up = do n ← netif_from_phy key; with_name key n.maybe_if_name up

  -- The address in the answer to NEW_INTERFACE.
  abbrev pub on_new_interface : Attributes → Option Bytes → Result (Option Bytes)
  on_new_interface tb address = ok (if is_null tb.mac then address else tb.mac)

  abbrev pub mac_attribute : Option Bytes → List Attribute
  mac_attribute none = []
  mac_attribute (some a) = Attribute.mac a ∷ []

  -- With no address in the answer, what is returned was not initialised.
  unfoldable pub create_interface : ℕ → ℕ → Action K Bytes
  unfolding is_valid send_and_receive
  create_interface mtu phy = do
    n ← netif_from_phy phy
    lift (if is_valid n then ok tt else throw Exception.runtime_error)
    name ← lift (value n.maybe_if_name)
    address ←
        send_and_receive d on_new_interface
          (request Command.new_interface (
            Attribute.wiphy n.phy_index
            ∷ Attribute.ifname name
            ∷ Attribute.iftype 7
            ∷ mac_attribute n.maybe_mac_address))
          none
    if mtu == 1500 then pure tt else in_kernel (d.set_mtu name mtu)
    lift (attribute address)

  unfoldable pub delete_interface : Bytes → Action K (Unit {0})
  unfolding send
  delete_interface [] w = (throw Exception.check_failed, w)
  delete_interface (c ∷ s) w =
      let index = d.if_nametoindex (c ∷ s) w.kernel in
      if index == 0
      then (ok tt, w)
      else send d (request Command.del_interface (Attribute.ifindex index ∷ [])) w

  unfoldable pub leave_mesh : ℕ → Action K (Unit {0})
  unfolding send
  leave_mesh phy = do
    n ← netif_from_phy phy
    i ← checked_index n
    send d (request Command.leave_mesh (Attribute.ifindex i ∷ []))

  -- The loops over the interfaces: a valid one is visited, and the first failure ends the loop.
  unfoldable pub visit_valid : (ℕ → NetInterface → Action K Status) → List ℕ → Action K Status
  unfolding is_valid
  visit_valid visit [] = pure success
  visit_valid visit (key ∷ keys) =
      let rest = visit_valid visit keys in
      netif_from_phy key >>= λ n.
      if is_valid n then (visit key n >>= λ s. if is_success s then rest else pure s) else rest

  abbrev pub leave_one : ℕ → NetInterface → Action K Status
  leave_one key n = do
    s ← set_link_flags key false
    if is_success s then catch (leave_mesh n.phy_index >> pure success) netlink_other else pure s

  unfoldable pub leave_meshes : Action K Status
  unfolding set_link_flags leave_mesh visit_valid
  leave_meshes w = visit_valid leave_one (keys w) w
