-- ===== src/Rnl/Requests/Reached.antt =====
-- rnl/NetlinkSocket.cpp: the states that the requests of a client can lead to.
use Prim.Native.String.{String}
use fbmeshd.Prelude.{
  ℕ, ◌≡◌, refl, sym, subst, Bool, true, ◌||◌, Option, none, some, List, [], ◌∷◌, arith, nat_eq,
  ◌==◌, not, if◌then◌else◌, All,
}
use fbmeshd.Prelude.Dict.{erase, emplace, emplace-All}
use fbmeshd.Rnl.Kernel.{Rtnl}
use fbmeshd.Rnl.{Prefix, Route, IpApi, prefix_eq, key_eq}
use fbmeshd.Rnl.Socket.{
  NlSock, UnicastRoutes, Socket, done, nl_exception, Outcome, routes_of, with_routes, empty,
}
use fbmeshd.Rnl.Unicast.{
  do_add_update_unicast_route, do_delete_unicast_route, do_sync_unicast_routes,
}
use fbmeshd.Rnl.Multicast.{
  check_multicast_route, add_checked, delete_cached, delete_checked, do_add_multicast_route,
  do_delete_multicast_route,
}
use fbmeshd.Rnl.Sync.Filed.{IsFiled}
use fbmeshd.Rnl.Events.{State}
use fbmeshd.Rnl.Cache.{
  is_cacheable, only_if_index, update_mcast, update_link, update_unicast, do_update_route_cache,
  update_route_cache,
}
use fbmeshd.Rnl.Requests.{add_route, del_route}
use fbmeshd.Rnl.Requests.Filing.{
  AllFiled, with_routes-AllFiled, if-cache, if-AllFiled, erased-IsFiled, add-AllFiled,
  delete-AllFiled, sync-AllFiled,
}

-- A request of a client to add, delete or sync routes, or the kernel's routes being read.
pub data Request : Type 0 where
  adds : Route → Request
  deletes : Route → Request
  syncs : ℕ → UnicastRoutes → Request
  reads : State → List Route → Request

module _ {K : Type 0} (ip : IpApi) (k : Rtnl) (nl : NlSock K) where
  unfoldable pub serve : Request → Socket K → Outcome K
  serve (adds r) s = add_route ip k nl r s
  serve (deletes r) s = del_route ip k nl r s
  serve (syncs protocol db) s = do_sync_unicast_routes ip nl protocol db s
  serve (reads links rs) s = (update_route_cache ip k links rs s, done)

  -- The states that the requests can lead to from empty caches, the failed ones included.
  pub data Reach (kernel : K) : Socket K → Type 0 where
    starts : Reach kernel (empty kernel)
    next : {s t : Socket K} → Reach kernel s → (q : Request) → (serve q s).0 ≡ t → Reach kernel t

  update_mcast-AllFiled :
      (links : State) (o : Option ℕ) (r : Route) (s : Socket K)
      → AllFiled s
      → AllFiled (update_mcast ip k links o r s)
  unfolding update_mcast
  update_mcast-AllFiled links none r s h = h
  update_mcast-AllFiled links (some i) r s h = h

  update_link-AllFiled :
      (links : State) (o : Option ℕ) (r : Route) (s : Socket K)
      → AllFiled s
      → AllFiled (update_link ip k links o r s)
  unfolding update_link
  update_link-AllFiled links none r s h = h
  update_link-AllFiled links (some i) r s h = h

  update_unicast-AllFiled :
      (links : State) (r : Route) (s : Socket K)
      → AllFiled s
      → AllFiled (update_unicast ip k links r s)
  unfolding update_unicast
  update_unicast-AllFiled links r s h =
      let erased = erase r.destination (routes_of r.protocol_id s) in
      let routes = emplace r.destination r erased in
      if-cache r.is_valid (with_routes r.protocol_id routes s) s
        (with_routes-AllFiled r.protocol_id routes s
          (emplace-All _ r.destination r erased (refl, refl) (erased-IsFiled ip nl r s h)) h)
        h

  update-AllFiled :
      (links : State) (r : Route) (b : Bool) (s : Socket K)
      → AllFiled s
      → AllFiled (do_update_route_cache ip k links r b s)
  unfolding do_update_route_cache
  update-AllFiled links r b s h =
      let mcast = update_mcast ip k links (only_if_index r.next_hops) r s in
      let link = update_link ip k links (only_if_index r.next_hops) r s in
      let last = if b then update_unicast ip k links r s else s in
      let scoped = if r.scope == k.rt_scope_link then link else last in
      let taken = if ip.is_multicast r.destination.addr then mcast else scoped in
      if-cache (not (is_cacheable k r)) s taken h (
        if-cache (ip.is_multicast r.destination.addr) mcast scoped
          (update_mcast-AllFiled links _ r s h)
          (if-cache (r.scope == k.rt_scope_link) link last (update_link-AllFiled links _ r s h)
            (if-cache b (update_unicast ip k links r s) s (update_unicast-AllFiled links r s h) h)))

  reads-AllFiled :
      (links : State) (rs : List Route) (s : Socket K)
      → AllFiled s
      → AllFiled (update_route_cache ip k links rs s)
  unfolding update_route_cache
  reads-AllFiled links [] s h = h
  reads-AllFiled links (r ∷ rs) s h = reads-AllFiled links rs _ (update-AllFiled links r true s h)

  add_checked-unicast :
      (o : Option String) (r : Route) (s : Socket K)
      → (add_checked ip nl o r s).0.unicast_cache ≡ s.unicast_cache
  unfolding add_checked
  add_checked-unicast none r s = refl
  add_checked-unicast (some name) r s = ground arith

  delete_cached-unicast :
      (key : Prefix × String) (r : Route) (o : Option Route) (s : Socket K)
      → (delete_cached ip nl key r o s).0.unicast_cache ≡ s.unicast_cache
  unfolding delete_cached
  delete_cached-unicast key r none s = refl
  delete_cached-unicast key r (some old) s = ground arith

  delete_checked-unicast :
      (o : Option String) (r : Route) (s : Socket K)
      → (delete_checked ip nl o r s).0.unicast_cache ≡ s.unicast_cache
  unfolding delete_checked
  delete_checked-unicast none r s = refl
  delete_checked-unicast (some name) r s = delete_cached-unicast (r.destination, name) r _ s

  same-AllFiled : (s t : Socket K) → t.unicast_cache ≡ s.unicast_cache → AllFiled s → AllFiled t
  same-AllFiled s t e h = subst (All λ x. IsFiled x.0 x.1) (sym e) h

  add_route-AllFiled : (r : Route) (s : Socket K) → AllFiled s → AllFiled (add_route ip k nl r s).0
  unfolding add_route do_add_multicast_route
  add_route-AllFiled r s h =
      let mcast = do_add_multicast_route ip nl r s in
      let other = if r.route_type == k.rtn_multicast then mcast else (s, nl_exception) in
      if-AllFiled (r.route_type == k.rtn_unicast || r.route_type == k.rtn_blackhole)
        (do_add_update_unicast_route ip nl r s) other (add-AllFiled ip nl r s h)
        (if-AllFiled (r.route_type == k.rtn_multicast) mcast (s, nl_exception)
          (same-AllFiled s mcast.0 (add_checked-unicast (check_multicast_route ip r) r s) h) h)

  del_route-AllFiled : (r : Route) (s : Socket K) → AllFiled s → AllFiled (del_route ip k nl r s).0
  unfolding del_route do_delete_multicast_route
  del_route-AllFiled r s h =
      let mcast = do_delete_multicast_route ip nl r s in
      let other = if r.route_type == k.rtn_multicast then mcast else (s, nl_exception) in
      if-AllFiled (r.route_type == k.rtn_unicast || r.route_type == k.rtn_blackhole)
        (do_delete_unicast_route ip nl r s) other (delete-AllFiled ip nl r s h)
        (if-AllFiled (r.route_type == k.rtn_multicast) mcast (s, nl_exception)
          (same-AllFiled s mcast.0 (delete_checked-unicast (check_multicast_route ip r) r s) h) h)

  serve-AllFiled : (q : Request) (s : Socket K) → AllFiled s → AllFiled (serve q s).0
  unfolding serve
  serve-AllFiled (adds r) s h = add_route-AllFiled r s h
  serve-AllFiled (deletes r) s h = del_route-AllFiled r s h
  serve-AllFiled (syncs protocol db) s h = sync-AllFiled ip nl protocol db s h
  serve-AllFiled (reads links rs) s h = reads-AllFiled links rs s h

  -- After any sequence of requests to add or delete a unicast or multicast route or to sync unicast
  -- routes, and of reads of the kernel's routes, from empty caches, failed requests included and
  -- whatever the kernel answers, each cached unicast route is under its own prefix, in the cache of
  -- its own protocol.
  pub Reach-AllFiled : {kernel : K} {s : Socket K} → Reach kernel s → AllFiled s
  Reach-AllFiled starts = tt
  Reach-AllFiled (next {s = s} r q e) = subst AllFiled e (serve-AllFiled q s (Reach-AllFiled r))
