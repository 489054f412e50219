-- ===== src/Rnl/Unicast.antt =====
-- rnl/NetlinkSocket.cpp: adding, deleting and syncing unicast routes.
use fbmeshd.Prelude.{
  ℕ, Bool, false, not, ◌||◌, Option, none, some, List, [], ◌∷◌, nat_eq, ◌==◌, if◌then◌else◌,
}
use fbmeshd.Prelude.Dict.{find, contains, erase, emplace}
use fbmeshd.Rnl.{Prefix, Route, IpApi, prefix_eq, route_eq}
use fbmeshd.Rnl.Socket.{
  NlSock, UnicastRoutes, Socket, done, nl_exception, Outcome, and_then, routes_of, with_routes,
}

-- `protocolIdtoPriority` and `kUnknownProtAdminDistance` (if/fbmeshd.thrift).
abbrev pub default_priority : ℕ → ℕ
default_priority protocol =
    if protocol == 99
    then 10
    else if protocol == 253
    then 20
    else if protocol == 64
    then 11
    else 255

abbrev pub with_priority : Route → Route
with_priority r = record r {
  priority = elim r.priority [ none ↦ some (default_priority r.protocol_id) | some p ↦ some p ];
}

unfoldable pub check_unicast_route : IpApi → Route → Bool
check_unicast_route ip r =
    not (ip.is_multicast r.destination.addr || ip.is_link_local r.destination.addr)

abbrev pub is_same : Option Route → Route → Bool
is_same none r = false
is_same (some old) r = route_eq old r

-- The cached prefixes that the new routes do not have.
unfoldable pub to_delete : UnicastRoutes → UnicastRoutes → List Prefix
to_delete [] db = []
to_delete ((p, r) ∷ routes) db =
    let rest = to_delete routes db in if contains p db then rest else p ∷ rest

module _ {K : Type 0} (ip : IpApi) (nl : NlSock K) where
  -- A v6 route is deleted from the kernel before it is added anew.
  unfoldable pub delete_old : Option Route → Route → Socket K → Outcome K
  delete_old none r s = (s, done)
  delete_old (some old) r s =
      let (kernel, err) = nl.delete_route old s.kernel in
      if ip.is_v6 r.destination.addr
      then (record s { kernel = kernel }, if err == 0 then done else nl_exception)
      else (s, done)

  unfoldable pub add_new : Route → Socket K → Outcome K
  add_new r s =
      let dest = r.destination in
      let erased = erase dest (routes_of r.protocol_id s) in
      let (kernel, err) = nl.add_route r s.kernel in
      let s' = record s { kernel = kernel } in
      if err == 0
      then (with_routes r.protocol_id (emplace dest r erased) s', done)
      else (with_routes r.protocol_id erased s', nl_exception)

  unfoldable pub do_add_update_unicast_route : Route → Socket K → Outcome K
  unfolding check_unicast_route delete_old add_new
  do_add_update_unicast_route route s =
      let r = with_priority route in
      let old = find r.destination (routes_of r.protocol_id s) in
      if not (check_unicast_route ip route)
      then (s, nl_exception)
      else if is_same old r
      then (s, done)
      else and_then (delete_old old r s) (add_new r)

  unfoldable pub do_delete_unicast_route : Route → Socket K → Outcome K
  unfolding check_unicast_route
  do_delete_unicast_route r s =
      let routes = routes_of r.protocol_id s in
      let (kernel, err) = nl.delete_route r s.kernel in
      let s' = record s { kernel = kernel } in
      if not (check_unicast_route ip r)
      then (s, nl_exception)
      else if not (contains r.destination routes)
      then (s, done)
      else if err == 0
      then (with_routes r.protocol_id (erase r.destination routes) s', done)
      else (s', nl_exception)

  -- What the loop over the prefixes to delete does with the cached route of one.
  unfoldable pub delete_if : Option Route → Socket K → Outcome K
  unfolding do_delete_unicast_route
  delete_if none s = (s, done)
  delete_if (some r) s = do_delete_unicast_route r s

  unfoldable pub delete_all : ℕ → List Prefix → Socket K → Outcome K
  unfolding delete_if
  delete_all protocol [] s = (s, done)
  delete_all protocol (p ∷ ps) s =
      and_then (delete_if (find p (routes_of protocol s)) s) (λ t. delete_all protocol ps t)

  unfoldable pub add_all : UnicastRoutes → Socket K → Outcome K
  unfolding do_add_update_unicast_route
  add_all [] s = (s, done)
  add_all ((p, r) ∷ db) s = and_then (do_add_update_unicast_route r s) (λ t. add_all db t)

  unfoldable pub do_sync_unicast_routes : ℕ → UnicastRoutes → Socket K → Outcome K
  unfolding to_delete delete_all add_all
  do_sync_unicast_routes protocol db s =
      and_then (delete_all protocol (to_delete (routes_of protocol s) db) s) (add_all db)
