-- ===== src/SyncRoutes/Run.antt =====
-- routing/SyncRoutes80211s.cpp: `doSyncRoutes`.
--
-- It runs in a timer's callback that may not throw: `none` is the end of the process by an
-- exception. The future of `syncIfAddress` is dropped, so its outcome is too.
use fbmeshd.Prelude.{
  ℕ, Bool, true, false, not, ◌&&◌, Option, none, some, List, [], ◌∷◌, ◌==◌, if◌then◌else◌, nat_eq,
}
use fbmeshd.Prelude.Dict.{find, emplace}
use fbmeshd.Routing.{MeshPath}
use fbmeshd.Rnl.{Prefix, prefix_eq}
use fbmeshd.Rnl.Socket.{NlSock, UnicastRoutes, IfRoutes, Socket, Status, done, nl_exception}
use fbmeshd.Rnl.Unicast.{do_sync_unicast_routes}
use fbmeshd.Rnl.Link.{do_sync_link_routes}
use fbmeshd.Rnl.Addresses.{IfAddress, AddrSock, do_sync_if_address}
use fbmeshd.SyncRoutes.{
  Config, protocol, index_of, get_mesh_ipv6_from_mac_address, tayga_host, via, on_tayga,
  on_tayga_with_mtu, emplace_link, unicast_routes,
}
use fbmeshd.SyncRoutes.Gates.{Gate, choose}

pub record Sync : Type 0 where
  pub current_gate : Option Gate
  pub is_gate_before_route_sync : Bool

-- What one run reads from the other components and the system.
pub record Inputs : Type 0 where
  pub mesh_if_index : Option ℕ
  pub tayga_if_index : Option ℕ
  pub tayga_if_up : Bool
  pub is_gate : Bool
  pub mesh_paths : List (ℕ × MeshPath)
  pub now : ℕ

infix 20 ◌>>=◌
abbrev pub ◌>>=◌ {ℓ κ} : {A : Type ℓ} {B : Type κ} → Option A → (A → Option B) → Option B
none >>= f = none
some a >>= f = f a

-- Ensure tayga interface is present and up
abbrev pub has_tayga : Inputs → Bool
has_tayga i = not (index_of i.tayga_if_index == 0) && i.tayga_if_up

abbrev pub net : ℕ → ℕ → Prefix
net a m = record { addr = a; mask = m }

-- The link routes on the tayga interface, before the gate's.
unfoldable pub first_link_routes : Config → Inputs → Option IfRoutes
unfolding emplace_link
first_link_routes c i =
    let t = index_of i.tayga_if_index in
    let own = tayga_host c c.node_addr in
    let v4 = net c.api.tayga_v4 16 in
    let both = emplace_link c own (on_tayga c t own) [] >>= emplace_link c v4 (on_tayga c t v4) in
    if has_tayga i then both else some []

unfoldable pub first_unicast_routes : Config → Inputs → UnicastRoutes
unfolding unicast_routes
first_unicast_routes c i = unicast_routes c (has_tayga i) (index_of i.mesh_if_index) i.mesh_paths []

-- The link routes with that of a gate, or of a node with a gate.
unfoldable pub last_link_routes : Config → Inputs → Option Gate → IfRoutes → Option IfRoutes
unfolding emplace_link
last_link_routes c i gate links =
    let t = index_of i.tayga_if_index in
    let nat64 = net c.api.nat64 96 in
    let default_v4 = net c.api.default_v4 0 in
    let gateway = emplace_link c nat64 (on_tayga c t nat64) links in
    let client = emplace_link c default_v4 (on_tayga_with_mtu c t default_v4) links in
    if has_tayga i
    then if i.is_gate then gateway else elim gate [ none ↦ some links | some g ↦ client ]
    else some links

-- The unicast routes with that to the gate of a node that is none; `at` throws if the gate's path is
-- missing.
unfoldable pub last_unicast_routes :
    Config → Inputs → Option Gate → UnicastRoutes → Option UnicastRoutes
unfolding via
last_unicast_routes c i gate db =
    let nat64 = net c.api.nat64 96 in
    if has_tayga i && not i.is_gate
    then elim gate [
      | none ↦ some db
      | some g ↦ elim (find g.0 i.mesh_paths) [
        | none ↦ none
        | some p ↦ some (emplace nat64 (via c (index_of i.mesh_if_index) nat64 p.next_hop) db)
      ]
    ]
    else some db

abbrev pub own_address : Config → Inputs → IfAddress
own_address c i = record {
  prefix = some (net (get_mesh_ipv6_from_mac_address c.api c.node_addr) 64);
  if_index = index_of i.mesh_if_index;
  is_valid = false;
  scope = none;
  flags = none;
  set_family = none;
}

abbrev pub same : Bool → Bool → Bool
same true b = b
same false b = not b

-- `get` of a future.
abbrev pub get {ℓ} : {K : Type ℓ} → K × Status → Option K
get (s, done) = some s
get (s, nl_exception) = none

module _ {K : Type 0} (c : Config) (nl : NlSock K) where
  unfoldable pub sync_routes : UnicastRoutes → IfRoutes → Socket K → Option (Socket K)
  unfolding do_sync_unicast_routes do_sync_link_routes
  sync_routes db links s = get (do_sync_unicast_routes c.ip nl protocol db s) >>= λ t.
      get (do_sync_link_routes nl protocol links t)

  unfoldable pub sync_if : Bool → UnicastRoutes → IfRoutes → Socket K → Option (Socket K)
  unfolding sync_routes
  sync_if true db links s = sync_routes db links s
  sync_if false db links s = some s

module _ {K : Type 0} (c : Config) (addrs : AddrSock K) (less : ℕ → ℕ → Bool) where
  unfoldable pub sync_addresses : Inputs → Socket K → Socket K
  unfolding do_sync_if_address
  sync_addresses i s = record s {
    kernel =
        (do_sync_if_address c.ip c.rtnl addrs less (index_of i.mesh_if_index) (own_address c i ∷ [])
          c.rtnl.af_inet6 c.rtnl.rt_scope_universe s.kernel).0;
  }

module _ {K : Type 0} (c : Config) (nl : NlSock K) (addrs : AddrSock K) (less : ℕ → ℕ → Bool) where
  unfoldable pub do_sync_routes : Inputs → Sync → Socket K → Option (Sync × Socket K)
  unfolding choose first_link_routes first_unicast_routes last_link_routes last_unicast_routes
      sync_addresses sync_if
  do_sync_routes i y s =
      let db = first_unicast_routes c i in
      do
        gate ← choose c.api.zero_mac i.now i.mesh_paths y.current_gate
        links ← first_link_routes c i
        t ←
            sync_if c nl (not (same y.is_gate_before_route_sync i.is_gate)) db links
              (sync_addresses c addrs less i s)
        last_links ← last_link_routes c i gate links
        last_db ← last_unicast_routes c i gate db
        u ← sync_routes c nl last_db last_links t
        some (record { current_gate = gate; is_gate_before_route_sync = i.is_gate }, u)
