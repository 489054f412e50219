-- ===== src/Rnl/Examples.antt =====
-- rnl/NetlinkSocket.cpp: the theorems at concrete routes.
use fbmeshd.Prelude.{ℕ, ◌≢◌, ◌≡◌, refl, true, false, none, some, List, [], ◌∷◌, nat_eq, ◌==◌}
use fbmeshd.Prelude.Dict.{find}
use fbmeshd.Rnl.Kernel.{Rtnl}
use fbmeshd.Rnl.{Prefix, Route, IpApi, prefix_eq, route_eq, key_eq, pair_eq}
use fbmeshd.Rnl.Socket.{
  NlSock, UnicastRoutes, IfRoutes, Socket, routes_of, cached as routes_in, and_then, empty,
}
use fbmeshd.Rnl.Unicast.{do_sync_unicast_routes}
use fbmeshd.Rnl.Mpls.{do_add_update_mpls_route, Updated, do_add_update_mpls_route-Updated}
use fbmeshd.Rnl.Multicast.{do_add_multicast_route, do_delete_multicast_route}
use fbmeshd.Rnl.Link.{do_sync_link_routes, Synced, do_sync_link_routes-Synced}
use fbmeshd.Rnl.Events.{Link, Neighbor, State}
use fbmeshd.Rnl.Requests.Filing.{AllFiled}
use fbmeshd.Rnl.Requests.Reached.{adds, syncs, serve, starts, next, Reach-AllFiled}
use fbmeshd.Rnl.Sync.{Fits, do_sync_unicast_routes-Fits}

abbrev ip : IpApi
ip = record {
  is_multicast = λ a. a == 224;
  is_link_local = λ a. a == 169;
  is_v6 = λ a. a == 600;
  family = λ a. 2;
}

-- A kernel that keeps the calls it has had.
abbrev nl : NlSock (List Route)
nl = record {
  add_route = λ r k. (r ∷ k, 0);
  delete_route = λ r k. (r ∷ k, 0);
  add_label_route = λ r k. (r ∷ k, 0);
  delete_label_route = λ r k. (r ∷ k, 0);
}

abbrev prefix : ℕ → Prefix
prefix a = record { addr = a; mask = 16 }

abbrev route_to : ℕ → Route
route_to a = record {
  destination = prefix a;
  mpls_label = none;
  next_hops = [];
  route_type = 1;
  route_table = 254;
  protocol_id = 99;
  scope = 0;
  is_valid = true;
  flags = none;
  priority = none;
  tos = none;
  mtu = none;
  adv_mss = none;
  route_if_name = none;
  family = 2;
}

abbrev cached : Socket (List Route)
cached = record {
  unicast_cache = (99, (prefix 10, route_to 10) ∷ (prefix 600, route_to 600) ∷ []) ∷ [];
  mpls_cache = [];
  mcast_cache = [];
  link_cache = [];
  kernel = [];
}

abbrev new_routes : UnicastRoutes
new_routes = (prefix 600, route_to 600) ∷ (prefix 30, route_to 30) ∷ []

do_sync_unicast_routes-Fits_example :
    Fits
      (find (prefix 10) (routes_of 99 (do_sync_unicast_routes ip nl 99 new_routes cached).0))
      (find (prefix 10) new_routes)
unfolding do_sync_unicast_routes route_eq
do_sync_unicast_routes-Fits_example =
    do_sync_unicast_routes-Fits ip nl 99 new_routes cached ((refl, refl), ((refl, refl), tt))
      ((refl, refl), ((refl, refl), tt)) (refl, (refl, tt)) refl (prefix 10)

abbrev labelled : Route
labelled = record (route_to 30) { mpls_label = some 7 }

do_add_update_mpls_route-Updated_example :
    Updated nl 7 labelled cached (do_add_update_mpls_route nl labelled cached)
    × ((l : ℕ)
        → l ≢ 7
        → find l (routes_in 99 (do_add_update_mpls_route nl labelled cached).0.mpls_cache)
          ≡ find l (routes_in 99 cached.mpls_cache))
do_add_update_mpls_route-Updated_example =
    do_add_update_mpls_route-Updated nl 7 labelled cached refl

abbrev group : Route
group = record (route_to 224) { route_if_name = some "mesh0" }

abbrev added_and_deleted : Socket (List Route)
added_and_deleted =
    (and_then (do_add_multicast_route ip nl group cached) (do_delete_multicast_route ip nl group)).0

abbrev link_routes : ℕ → IfRoutes
link_routes mtu = ((prefix 10, "mesh0"), record (route_to 10) { mtu = some mtu; scope = 253 }) ∷ []

abbrev linked : Socket (List Route)
linked = record cached { link_cache = (99, link_routes 1500) ∷ [] }

do_sync_link_routes-Synced_example :
    Synced nl 99 (link_routes 1400) linked (do_sync_link_routes nl 99 (link_routes 1400) linked)
do_sync_link_routes-Synced_example = do_sync_link_routes-Synced nl 99 (link_routes 1400) linked

abbrev rtnl : Rtnl
rtnl = record {
  rt_table_main = 254;
  is_cloned = λ flags. flags == 512;
  rt_scope_universe = 0;
  rt_scope_link = 253;
  rt_scope_nowhere = 255;
  af_unspec = 0;
  af_inet = 2;
  af_inet6 = 10;
  af_mpls = 28;
  rtn_unicast = 1;
  rtn_blackhole = 6;
  rtn_multicast = 5;
}

abbrev state : State
state = record {
  links = ("mesh0", record { is_up = true; if_index = 4; networks = [] }) ∷ [];
  loopback_if_index = none;
  neighbors = [];
  event_flags = record {
    link_event = true;
    neigh_event = true;
    addr_event = false;
    route_event = false;
  };
  has_handler = true;
}

abbrev onlink : Route
onlink = record (route_to 20) {
  scope = 253;
  next_hops =
      record {
        if_index = some 4;
        gateway = none;
        weight = 0;
        label_action = none;
        swap_label = none;
        push_labels = none;
        family = 2;
      }
      ∷ [];
}

abbrev neighbor : Neighbor
neighbor = record { neighbor_index = 4; destination = 77; is_reachable = true }

abbrev link_down : Link
link_down = record { link_name = "mesh0"; link_index = 4; link_up = false; is_loopback = false }

abbrev with_neighbor : State
with_neighbor = record state { neighbors = (("mesh0", 77), neighbor) ∷ [] }

abbrev served : Socket (List Route)
served = (serve ip rtnl nl (adds (route_to 10)) (empty [])).0

Reach-AllFiled_example : AllFiled (serve ip rtnl nl (syncs 99 new_routes) served).0
Reach-AllFiled_example =
    Reach-AllFiled ip rtnl nl
      (next (next starts (adds (route_to 10)) refl) (syncs 99 new_routes) refl)
