-- ===== src/SyncRoutes.antt =====
-- routing/SyncRoutes80211s.cpp: the kernel's routes and addresses, made of the mesh paths.
--
-- What `getMeshPaths` returns is the list `paths`, by destination. An index is the 32 bits that the
-- kernel gets, so that of an unknown interface, -1, is `no_index`.
pub mod Gates
pub mod Choice
pub mod Run
pub mod Hosts
pub mod Routes
pub mod Gated
pub mod Mirrors
pub mod Mirrored
pub mod Failing
mod Examples
use Prim.Native.Nat.{bit_xor}
use Prim.Native.String.{String}
use fbmeshd.Prelude.{
  ℕ, Bool, true, false, not, ◌&&◌, Option, none, some, List, [], ◌∷◌, ◌++◌, ◌==◌, ltb,
  if◌then◌else◌, nat_eq,
}
use fbmeshd.Prelude.Dict.{find, emplace}
use fbmeshd.Routing.{MeshPath}
use fbmeshd.Rnl.{Prefix, Route, IpApi, prefix_eq, key_eq}
use fbmeshd.Rnl.Kernel.{Rtnl}
use fbmeshd.Rnl.Builder.{
  RouteBuilder, new_next_hop, set_if_index, set_gateway, build_next_hop, new_route, set_destination,
  set_protocol_id, set_route_if_index, set_route_if_name, set_mtu, set_adv_mss, add_next_hop, build,
  build_link_route,
}
use fbmeshd.Rnl.Socket.{UnicastRoutes, IfRoutes}

-- The six bytes of a hardware address.
pub record Bytes6 : Type 0 where
  pub b0 : ℕ
  pub b1 : ℕ
  pub b2 : ℕ
  pub b3 : ℕ
  pub b4 : ℕ
  pub b5 : ℕ

-- What the code uses of folly's addresses.
pub record AddrApi : Type 0 where
  pub zero_mac : ℕ
  pub bytes : ℕ → Bytes6
  pub from_binary : List ℕ → ℕ
  pub link_local : ℕ → ℕ
  pub tayga_v4 : ℕ
  pub default_v4 : ℕ
  pub nat64 : ℕ

pub record Config : Type 0 where
  pub ip : IpApi
  pub rtnl : Rtnl
  pub api : AddrApi
  pub unset : Prefix
  pub node_addr : ℕ

abbrev pub tayga_if_name : String
tayga_if_name = "tayga"

abbrev pub protocol : ℕ
protocol = 98

abbrev pub no_index : ℕ
no_index = 0xffff_ffff

-- `getIfIndex`, as the 32 bits of its result.
abbrev pub index_of : Option ℕ → ℕ
index_of none = no_index
index_of (some i) = i

-- The bytes of `getIPV6FromMacAddress`, after the eight bytes of the prefix.
abbrev pub interface_id : Bytes6 → List ℕ
interface_id m = bit_xor m.b0 0x02 ∷ m.b1 ∷ m.b2 ∷ 0xff ∷ 0xfe ∷ m.b3 ∷ m.b4 ∷ m.b5 ∷ []

unfoldable pub get_ipv6_from_mac_address : AddrApi → List ℕ → ℕ → ℕ
get_ipv6_from_mac_address api prefix mac = api.from_binary (prefix ++ interface_id (api.bytes mac))

abbrev pub tayga_prefix : List ℕ
tayga_prefix = 0xfd ∷ 0 ∷ 0 ∷ 0 ∷ 0 ∷ 0 ∷ 0 ∷ 0 ∷ []

abbrev pub mesh_prefix : List ℕ
mesh_prefix = 0xfc ∷ 0 ∷ 0 ∷ 0 ∷ 0 ∷ 0 ∷ 0 ∷ 0 ∷ []

unfoldable pub get_tayga_ipv6_from_mac_address : AddrApi → ℕ → ℕ
unfolding get_ipv6_from_mac_address
get_tayga_ipv6_from_mac_address api = get_ipv6_from_mac_address api tayga_prefix

unfoldable pub get_mesh_ipv6_from_mac_address : AddrApi → ℕ → ℕ
unfolding get_ipv6_from_mac_address
get_mesh_ipv6_from_mac_address api = get_ipv6_from_mac_address api mesh_prefix

abbrev pub host : ℕ → Prefix
host a = record { addr = a; mask = 128 }

unfoldable pub tayga_host : Config → ℕ → Prefix
unfolding get_tayga_ipv6_from_mac_address
tayga_host c mac = host (get_tayga_ipv6_from_mac_address c.api mac)

unfoldable pub mesh_host : Config → ℕ → Prefix
unfolding get_mesh_ipv6_from_mac_address
mesh_host c mac = host (get_mesh_ipv6_from_mac_address c.api mac)

-- A unicast route through a neighbour.
unfoldable pub via : Config → ℕ → Prefix → ℕ → Route
unfolding build add_next_hop build_next_hop
via c mesh_if_index dest next_hop = build (
    add_next_hop
      (build_next_hop c.ip c.rtnl
        (set_if_index mesh_if_index (set_gateway (c.api.link_local next_hop) new_next_hop)))
      (set_protocol_id protocol (set_destination c.ip dest (new_route c.rtnl c.unset))))

-- The builder of a link route on the tayga interface.
abbrev pub on_tayga : Config → ℕ → Prefix → RouteBuilder
on_tayga c tayga_if_index dest = set_route_if_name tayga_if_name (
    set_route_if_index tayga_if_index
      (set_protocol_id protocol (set_destination c.ip dest (new_route c.rtnl c.unset))))

abbrev pub on_tayga_with_mtu : Config → ℕ → Prefix → RouteBuilder
on_tayga_with_mtu c tayga_if_index dest = set_route_if_name tayga_if_name (
    set_route_if_index tayga_if_index (
      set_adv_mss 1460 (
        set_mtu 1500
          (set_protocol_id protocol (set_destination c.ip dest (new_route c.rtnl c.unset))))))

-- `emplace` of a link route; `none` is the exception of `buildLinkRoute`.
unfoldable pub emplace_link : Config → Prefix → RouteBuilder → IfRoutes → Option IfRoutes
unfolding build_link_route
emplace_link c dest b db = elim (build_link_route c.ip c.rtnl c.unset b) [
  | none ↦ none
  | some r ↦ some (emplace (dest, tayga_if_name) r db)
]

-- What the loop over the mesh paths adds for one of them.
unfoldable pub add_path : Config → Bool → ℕ → MeshPath → UnicastRoutes → UnicastRoutes
unfolding via tayga_host mesh_host
add_path c tayga mesh_if_index p db =
    let tayga_dest = tayga_host c p.dst in
    let mesh_dest = mesh_host c p.dst in
    let with_tayga = emplace tayga_dest (via c mesh_if_index tayga_dest p.next_hop) db in
    emplace mesh_dest (via c mesh_if_index mesh_dest p.next_hop) (if tayga then with_tayga else db)

unfoldable pub unicast_routes :
    Config → Bool → ℕ → List (ℕ × MeshPath) → UnicastRoutes → UnicastRoutes
unfolding add_path
unicast_routes c tayga mesh_if_index [] db = db
unicast_routes c tayga mesh_if_index ((a, p) ∷ paths) db =
    unicast_routes c tayga mesh_if_index paths
      (if p.next_hop == c.api.zero_mac then db else add_path c tayga mesh_if_index p db)
