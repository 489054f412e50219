-- ===== src/Rnl/Cache.antt =====
-- rnl/NetlinkSocket.cpp: the caches of routes as the kernel's routes are read, and their getters.
use Prim.Native.String.{String}
use fbmeshd.Prelude.{
  ℕ, ◌+◌, ◌≡◌, refl, ap, ◌∙◌, Bool, true, false, not, ◌&&◌, Option, none, some, List, [], ◌∷◌,
  arith, nat_eq, ◌==◌, if◌then◌else◌, length,
}
use fbmeshd.Prelude.Dict.{find, erase, emplace, find-erase, find-emplace-erase}
use fbmeshd.Rnl.{Prefix, NextHop, Route, IpApi, prefix_eq, key_eq, same_key, string_eq, pair_eq}
use fbmeshd.Rnl.Socket.{
  UnicastRoutes, MplsRoutes, IfRoutes, Socket, cached, routes_of, with_routes, cached-insert_same,
}
use fbmeshd.Rnl.Kernel.{Rtnl}
use fbmeshd.Rnl.Events.{State, get_if_name}
use fbmeshd.Rnl.Multicast.{with_mcast}
use fbmeshd.Rnl.Link.{with_links}

-- The route of an event that the caches take: of the main table, and not cloned.
unfoldable pub is_cacheable : Rtnl → Route → Bool
is_cacheable k r =
    r.route_table == k.rt_table_main && not (k.is_cloned (elim r.flags [ none ↦ 0 | some f ↦ f ]))

-- The interface of a route with one next hop.
unfoldable pub only_if_index : List NextHop → Option ℕ
only_if_index [] = none
only_if_index (n ∷ []) = n.if_index
only_if_index (n ∷ m ∷ ns) = none

unfoldable pub refile : Prefix × String → Route → IfRoutes → IfRoutes
refile key r routes =
    let erased = erase key routes in if r.is_valid then emplace key r erased else erased

find-refile :
    (own key : Prefix × String) (r : Route) (m : IfRoutes)
    → find key (refile own r m)
      ≡ (if same_key own key then if r.is_valid then some r else none else find key m)
unfolding refile
find-refile own key r m = ground (arith, find-emplace-erase own key r m, find-erase own key m)

module _ {K : Type 0} (ip : IpApi) (k : Rtnl) (links : State) where
  unfoldable pub update_mcast : Option ℕ → Route → Socket K → Socket K
  unfolding refile
  update_mcast none r s = s
  update_mcast (some if_index) r s =
      let key : Prefix × String = (r.destination, get_if_name if_index links) in
      with_mcast r.protocol_id (refile key r (cached r.protocol_id s.mcast_cache)) s

  unfoldable pub update_link : Option ℕ → Route → Socket K → Socket K
  unfolding refile
  update_link none r s = s
  update_link (some if_index) r s =
      let key : Prefix × String = (r.destination, get_if_name if_index links) in
      with_links r.protocol_id (refile key r (cached r.protocol_id s.link_cache)) s

  unfoldable pub update_unicast : Route → Socket K → Socket K
  update_unicast r s =
      let erased = erase r.destination (routes_of r.protocol_id s) in
      if r.is_valid then with_routes r.protocol_id (emplace r.destination r erased) s else s

  unfoldable pub do_update_route_cache : Route → Bool → Socket K → Socket K
  do_update_route_cache r update_unicast_route s =
      if not (is_cacheable k r)
      then s
      else if ip.is_multicast r.destination.addr
      then update_mcast (only_if_index r.next_hops) r s
      else if r.scope == k.rt_scope_link
      then update_link (only_if_index r.next_hops) r s
      else if update_unicast_route
      then update_unicast r s
      else s

  -- `updateRouteCache`: the kernel's routes, one after the other.
  unfoldable pub update_route_cache : List Route → Socket K → Socket K
  unfolding do_update_route_cache
  update_route_cache [] s = s
  update_route_cache (r ∷ rs) s = update_route_cache rs (do_update_route_cache r true s)

  -- `doHandleRouteEvent`: the caches, and what the handler is told. The address of a route here is
  -- always a valid one.
  unfoldable pub do_handle_route_event :
      Route → Bool → Bool → Socket K → Socket K × List (String × Route)
  unfolding do_update_route_cache
  do_handle_route_event r run_handler update_unicast_route s =
      let if_name : String = elim r.route_if_name [ none ↦ "" | some name ↦ name ] in
      (
        do_update_route_cache r update_unicast_route s,
        if links.has_handler && run_handler && links.event_flags.route_event
            then (if_name, r) ∷ []
            else [],
      )

  -- An event of a link route of the main table that is not cloned and has one next hop with an
  -- interface: the route is cached under its prefix and interface if it is valid, and no route is
  -- otherwise; every other key of its protocol has the route it had.
  pub do_update_route_cache-link :
      (r : Route) (b : Bool) (s : Socket K) (if_index : ℕ) (key : Prefix × String)
      → is_cacheable k r ≡ true
      → ip.is_multicast r.destination.addr ≡ false
      → r.scope ≡ k.rt_scope_link
      → only_if_index r.next_hops ≡ some if_index
      → find key (cached r.protocol_id (do_update_route_cache r b s).link_cache) ≡ (
          if same_key (r.destination, get_if_name if_index links) key
          then if r.is_valid then some r else none
          else find key (cached r.protocol_id s.link_cache))
  unfolding do_update_route_cache update_link
  do_update_route_cache-link r b s if_index key ok plain scope one =
      let own : Prefix × String = (r.destination, get_if_name if_index links) in
      let m = cached r.protocol_id s.link_cache in
      let linked : (r.scope == k.rt_scope_link) ≡ true = ground (arith, scope) in
      let taken : do_update_route_cache r b s ≡ update_link (some if_index) r s =
        rw (ok, plain, linked, one) refl in
      ap (λ t. find key (cached r.protocol_id t.link_cache)) taken
      ∙ ap (find key) (cached-insert_same r.protocol_id (refile own r m) s.link_cache)
      ∙ find-refile own key r m

unfoldable pub get_cached_unicast_routes : {K : Type 0} → ℕ → Socket K → UnicastRoutes
get_cached_unicast_routes protocol s = cached protocol s.unicast_cache

unfoldable pub get_cached_multicast_routes : {K : Type 0} → ℕ → Socket K → IfRoutes
get_cached_multicast_routes protocol s = cached protocol s.mcast_cache

unfoldable pub get_cached_link_routes : {K : Type 0} → ℕ → Socket K → IfRoutes
get_cached_link_routes protocol s = cached protocol s.link_cache

unfoldable pub get_cached_mpls_routes : {K : Type 0} → ℕ → Socket K → MplsRoutes
get_cached_mpls_routes protocol s = cached protocol s.mpls_cache

abbrev pub count_routes {ℓ} : {A : Type ℓ} → List (ℕ × List A) → ℕ
count_routes [] = 0
count_routes ((p, routes) ∷ m) = length routes + count_routes m

unfoldable pub get_route_count : {K : Type 0} → Socket K → ℕ
get_route_count s = count_routes s.unicast_cache

unfoldable pub get_mpls_route_count : {K : Type 0} → Socket K → ℕ
get_mpls_route_count s = count_routes s.mpls_cache
