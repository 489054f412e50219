-- ===== src/Rnl/Requests/Filing.antt =====
-- rnl/NetlinkSocket.cpp: where the cached unicast routes stand, whatever is asked.
use fbmeshd.Prelude.{
  ℕ, ◌≡◌, refl, Bool, true, false, not, Option, none, some, List, [], ◌∷◌, nat_eq, ◌==◌,
  if◌then◌else◌, All,
}
use fbmeshd.Prelude.Dict.{
  find, contains, erase, emplace, insert-All, emplace-All, erase-All, find-All,
}
use fbmeshd.Rnl.{Prefix, Route, IpApi, prefix_eq, key_eq, string_eq, pair_eq}
use fbmeshd.Rnl.Socket.{
  NlSock, UnicastRoutes, Socket, done, nl_exception, Outcome, and_then, routes_of, with_routes,
}
use fbmeshd.Rnl.Unicast.{
  with_priority, check_unicast_route, delete_old, add_new, do_add_update_unicast_route,
  do_delete_unicast_route, delete_if, delete_all, add_all, to_delete, do_sync_unicast_routes,
}
use fbmeshd.Rnl.Sync.Filed.{IsFiled}

-- Each cached unicast route is under its own prefix, in the cache of its own protocol.
abbrev pub AllFiled : {K : Type 0} → Socket K → Type 0
AllFiled s = All (λ e. IsFiled e.0 e.1) s.unicast_cache

found-IsFiled :
    (protocol : ℕ) (c : List (ℕ × UnicastRoutes)) (o : Option UnicastRoutes)
    → All (λ e. IsFiled e.0 e.1) c
    → find protocol c ≡ o
    → IsFiled protocol (elim o [ none ↦ [] | some routes ↦ routes ])
found-IsFiled protocol c none h e = tt
found-IsFiled protocol c (some m) h e = find-All (λ x. IsFiled x.0 x.1) protocol m c h e

pub routes_of-IsFiled :
    {K : Type 0} (protocol : ℕ) (s : Socket K)
    → AllFiled s
    → IsFiled protocol (routes_of protocol s)
routes_of-IsFiled protocol s h = found-IsFiled protocol s.unicast_cache _ h refl

pub with_routes-AllFiled :
    {K : Type 0} (protocol : ℕ) (m : UnicastRoutes) (s : Socket K)
    → IsFiled protocol m
    → AllFiled s
    → AllFiled (with_routes protocol m s)
with_routes-AllFiled protocol m s f h =
    insert-All (λ x. IsFiled x.0 x.1) protocol m s.unicast_cache f h

and_then-AllFiled :
    {K : Type 0} (r : Outcome K) (f : Socket K → Outcome K)
    → AllFiled r.0
    → ((t : Socket K) → AllFiled t → AllFiled (f t).0)
    → AllFiled (and_then r f).0
and_then-AllFiled (s, done) f h g = g s h
and_then-AllFiled (s, nl_exception) f h g = h

pub if-AllFiled :
    {K : Type 0} (b : Bool) (x y : Outcome K)
    → AllFiled x.0
    → AllFiled y.0
    → AllFiled (if b then x else y).0
if-AllFiled true x y h k = h
if-AllFiled false x y h k = k

pub if-cache :
    {K : Type 0} (b : Bool) (x y : Socket K)
    → AllFiled x
    → AllFiled y
    → AllFiled (if b then x else y)
if-cache true x y h k = h
if-cache false x y h k = k

module _ {K : Type 0} (ip : IpApi) (nl : NlSock K) where
  delete_old-AllFiled :
      (old : Option Route) (r : Route) (s : Socket K)
      → AllFiled s
      → AllFiled (delete_old ip nl old r s).0
  unfolding delete_old
  delete_old-AllFiled none r s h = h
  delete_old-AllFiled (some old) r s h = if-AllFiled (ip.is_v6 r.destination.addr) _ _ h h

  pub erased-IsFiled :
      (r : Route) (s : Socket K)
      → AllFiled s
      → IsFiled r.protocol_id (erase r.destination (routes_of r.protocol_id s))
  erased-IsFiled r s h =
      erase-All _ r.destination (routes_of r.protocol_id s) (routes_of-IsFiled r.protocol_id s h)

  add_new-AllFiled : (r : Route) (s : Socket K) → AllFiled s → AllFiled (add_new ip nl r s).0
  unfolding add_new
  add_new-AllFiled r s h =
      let erased = erase r.destination (routes_of r.protocol_id s) in
      let s' = record s { kernel = (nl.add_route r s.kernel).0 } in
      let filed = erased-IsFiled r s h in
      if-AllFiled ((nl.add_route r s.kernel).1 == 0) _ _
        (with_routes-AllFiled r.protocol_id (emplace r.destination r erased) s'
          (emplace-All _ r.destination r erased (refl, refl) filed) h)
        (with_routes-AllFiled r.protocol_id erased s' filed h)

  pub add-AllFiled :
      (r : Route) (s : Socket K) → AllFiled s → AllFiled (do_add_update_unicast_route ip nl r s).0
  unfolding do_add_update_unicast_route
  add-AllFiled r s h =
      let r' = with_priority r in
      let old = find r'.destination (routes_of r'.protocol_id s) in
      if-AllFiled (not (check_unicast_route ip r)) _ _ h (
        if-AllFiled _ _ _ h (
          and_then-AllFiled (delete_old ip nl old r' s) (add_new ip nl r')
            (delete_old-AllFiled old r' s h) (add_new-AllFiled r')))

  pub delete-AllFiled :
      (r : Route) (s : Socket K) → AllFiled s → AllFiled (do_delete_unicast_route ip nl r s).0
  unfolding do_delete_unicast_route
  delete-AllFiled r s h =
      let dest = r.destination in
      let routes = routes_of r.protocol_id s in
      let err = (nl.delete_route r s.kernel).1 in
      let s' = record s { kernel = (nl.delete_route r s.kernel).0 } in
      let gone : Outcome K = (with_routes r.protocol_id (erase dest routes) s', done) in
      let failed : Outcome K = (s', nl_exception) in
      let tried = if err == 0 then gone else failed in
      let known = if not (contains dest routes) then (s, done) else tried in
      if-AllFiled (not (check_unicast_route ip r)) (s, nl_exception) known h
        (if-AllFiled (not (contains dest routes)) (s, done) tried h
          (if-AllFiled (err == 0) gone failed
            (with_routes-AllFiled r.protocol_id (erase dest routes) s' (erased-IsFiled r s h) h) h))

  delete_if-AllFiled :
      (o : Option Route) (s : Socket K) → AllFiled s → AllFiled (delete_if ip nl o s).0
  unfolding delete_if
  delete_if-AllFiled none s h = h
  delete_if-AllFiled (some r) s h = delete-AllFiled r s h

  delete_all-AllFiled :
      (protocol : ℕ) (ps : List Prefix) (s : Socket K)
      → AllFiled s
      → AllFiled (delete_all ip nl protocol ps s).0
  unfolding delete_all
  delete_all-AllFiled protocol [] s h = h
  delete_all-AllFiled protocol (p ∷ ps) s h =
      let o = find p (routes_of protocol s) in
      and_then-AllFiled (delete_if ip nl o s) (delete_all ip nl protocol ps)
        (delete_if-AllFiled o s h) (delete_all-AllFiled protocol ps)

  add_all-AllFiled :
      (db : UnicastRoutes) (s : Socket K) → AllFiled s → AllFiled (add_all ip nl db s).0
  unfolding add_all
  add_all-AllFiled [] s h = h
  add_all-AllFiled ((p, r) ∷ db) s h =
      and_then-AllFiled (do_add_update_unicast_route ip nl r s) (add_all ip nl db)
        (add-AllFiled r s h) (add_all-AllFiled db)

  pub sync-AllFiled :
      (protocol : ℕ) (db : UnicastRoutes) (s : Socket K)
      → AllFiled s
      → AllFiled (do_sync_unicast_routes ip nl protocol db s).0
  unfolding do_sync_unicast_routes
  sync-AllFiled protocol db s h =
      let gone = to_delete (routes_of protocol s) db in
      and_then-AllFiled (delete_all ip nl protocol gone s) (add_all ip nl db)
        (delete_all-AllFiled protocol gone s h) (add_all-AllFiled db)
