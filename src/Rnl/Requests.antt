-- ===== src/Rnl/Requests.antt =====
-- rnl/NetlinkSocket.cpp: the requests of a client, dispatched by the type of the route, and what
-- every one of them keeps. A request's future fails exactly when the status is an exception.
pub mod Filing
pub mod Reached
use Prim.Native.String.{String}
use fbmeshd.Prelude.{
  ℕ, ◌+◌, ◌/◌, ◌%◌, ◌≡◌, ◌≢◌, ◌⊎◌, inl, inr, refl, sym, ap, subst, ◌∙◌, Bool, true, false, not,
  ◌&&◌, ◌||◌, Option, none, some, List, [], ◌∷◌, ◌++◌, arith, nat_eq, ◌==◌, if◌then◌else◌,
  Bool-cases, Option-cases, keep, length, All,
}
use fbmeshd.Prelude.Dict.{
  find, contains, erase, emplace, insert, is_some, find-insert, find-erase, find-emplace,
  find-emplace-erase, contains-find, beq_refl, retained, Unique, find-keep, insert-All, emplace-All,
  erase-All, find-All,
}
use fbmeshd.Rnl.Kernel.{Rtnl}
use fbmeshd.Rnl.{
  Prefix, NextHop, Route, IpApi, prefix_eq, key_eq, same_prefix, same_key, route_eq, str_eq,
  string_eq, pair_eq,
}
use fbmeshd.Rnl.Socket.{
  NlSock, UnicastRoutes, MplsRoutes, IfRoutes, Socket, Status, done, nl_exception, Outcome,
  and_then, cached, routes_of, with_routes, cached-insert, cached-insert_same,
}
use fbmeshd.Rnl.Unicast.{do_add_update_unicast_route, do_delete_unicast_route}
use fbmeshd.Rnl.Mpls.{do_add_update_mpls_route, do_delete_mpls_route}
use fbmeshd.Rnl.Multicast.{do_add_multicast_route, do_delete_multicast_route}

module _ {K : Type 0} (ip : IpApi) (k : Rtnl) (nl : NlSock K) where
  unfoldable pub add_route : Route → Socket K → Outcome K
  add_route r s =
      if r.route_type == k.rtn_unicast || r.route_type == k.rtn_blackhole
      then do_add_update_unicast_route ip nl r s
      else if r.route_type == k.rtn_multicast
      then do_add_multicast_route ip nl r s
      else (s, nl_exception)

  unfoldable pub del_route : Route → Socket K → Outcome K
  del_route r s =
      if r.route_type == k.rtn_unicast || r.route_type == k.rtn_blackhole
      then do_delete_unicast_route ip nl r s
      else if r.route_type == k.rtn_multicast
      then do_delete_multicast_route ip nl r s
      else (s, nl_exception)

  unfoldable pub add_mpls_route : Route → Socket K → Outcome K
  add_mpls_route r s =
      if r.route_type == k.rtn_unicast then do_add_update_mpls_route nl r s else (s, nl_exception)

  unfoldable pub del_mpls_route : Route → Socket K → Outcome K
  del_mpls_route r s =
      if r.route_type == k.rtn_unicast then do_delete_mpls_route nl r s else (s, nl_exception)
