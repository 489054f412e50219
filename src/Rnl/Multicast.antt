-- ===== src/Rnl/Multicast.antt =====
-- rnl/NetlinkSocket.cpp: adding and deleting multicast routes.
use Prim.Native.String.{String}
use fbmeshd.Prelude.{
  ℕ, ◌≡◌, inl, inr, refl, sym, ap, subst, ◌∙◌, Option, none, some, nat_eq, ◌==◌, if◌then◌else◌,
  Bool-cases,
}
use fbmeshd.Prelude.Dict.{
  find, contains, erase, emplace, insert, is_some, find-erase, find-emplace, contains-find,
  beq_refl,
}
use fbmeshd.Rnl.{Prefix, Route, IpApi, prefix_eq, key_eq, same_key, same_key_iff}
use fbmeshd.Rnl.Socket.{
  NlSock, IfRoutes, Socket, done, nl_exception, Outcome, and_then, cached, cached-insert_same,
}

-- The name of the interface, where `checkMulticastRoute` does not throw.
unfoldable pub check_multicast_route : IpApi → Route → Option String
check_multicast_route ip r = if ip.is_multicast r.destination.addr then r.route_if_name else none

abbrev pub with_mcast : {K : Type 0} → ℕ → IfRoutes → Socket K → Socket K
with_mcast protocol routes s = record s { mcast_cache = insert protocol routes s.mcast_cache }

module _ {K : Type 0} (ip : IpApi) (nl : NlSock K) where
  -- The addition, after the check.
  unfoldable pub add_checked : Option String → Route → Socket K → Outcome K
  add_checked none r s = (s, nl_exception)
  add_checked (some if_name) r s =
      let routes = cached r.protocol_id s.mcast_cache in
      let key : Prefix × String = (r.destination, if_name) in
      let (kernel, err) = nl.add_route r s.kernel in
      let s' = record s { kernel = kernel } in
      if contains key routes
      then (s, done)
      else if err == 0
      then (with_mcast r.protocol_id (emplace key r routes) s', done)
      else (s', nl_exception)

  unfoldable pub do_add_multicast_route : Route → Socket K → Outcome K
  unfolding check_multicast_route add_checked
  do_add_multicast_route r s = add_checked (check_multicast_route ip r) r s

  -- The kernel is asked to delete the cached route.
  unfoldable pub delete_cached : Prefix × String → Route → Option Route → Socket K → Outcome K
  delete_cached key r none s = (s, done)
  delete_cached key r (some old) s =
      let routes = cached r.protocol_id s.mcast_cache in
      let (kernel, err) = nl.delete_route old s.kernel in
      let s' = record s { kernel = kernel } in
      if err == 0
      then (with_mcast r.protocol_id (erase key routes) s', done)
      else (s', nl_exception)

  -- The deletion, after the check.
  unfoldable pub delete_checked : Option String → Route → Socket K → Outcome K
  unfolding delete_cached
  delete_checked none r s = (s, nl_exception)
  delete_checked (some if_name) r s =
      let key : Prefix × String = (r.destination, if_name) in
      delete_cached key r (find key (cached r.protocol_id s.mcast_cache)) s

  unfoldable pub do_delete_multicast_route : Route → Socket K → Outcome K
  unfolding check_multicast_route delete_checked
  do_delete_multicast_route r s = delete_checked (check_multicast_route ip r) r s

  added_state : Route → String → Socket K → Socket K
  added_state r if_name s =
      with_mcast r.protocol_id
        (emplace (r.destination, if_name) r (cached r.protocol_id s.mcast_cache))
        (record s { kernel = (nl.add_route r s.kernel).0 })

  do_add-added :
      (r : Route) (s : Socket K) (if_name : String)
      → check_multicast_route ip r ≡ some if_name
      → find (r.destination, if_name) (cached r.protocol_id s.mcast_cache) ≡ none
      → (nl.add_route r s.kernel).1 ≡ 0
      → do_add_multicast_route r s ≡ (added_state r if_name s, done)
  unfolding do_add_multicast_route added_state
  do_add-added r s if_name checked absent added =
      let key : Prefix × String = (r.destination, if_name) in
      let routes = cached r.protocol_id s.mcast_cache in
      let fresh = contains-find key routes ∙ ap is_some absent in
      ap (λ o. add_checked o r s) checked ∙ rw (fresh, added) refl

  do_delete-erased :
      (r : Route) (s : Socket K) (if_name : String)
      → check_multicast_route ip r ≡ some if_name
      → find (r.destination, if_name) (cached r.protocol_id s.mcast_cache) ≡ some r
      → (nl.delete_route r s.kernel).1 ≡ 0
      → do_delete_multicast_route r s ≡ (
        with_mcast r.protocol_id
            (erase (r.destination, if_name) (cached r.protocol_id s.mcast_cache))
            (record s { kernel = (nl.delete_route r s.kernel).0 }),
        done,
      )
  unfolding do_delete_multicast_route delete_cached
  do_delete-erased r s if_name checked found deleted =
      let key : Prefix × String = (r.destination, if_name) in
      ap (λ o. delete_checked o r s) checked
      ∙ ap (λ o. delete_cached key r o s) found
      ∙ rw deleted refl

  find-added :
      (r : Route) (s : Socket K) (if_name : String)
      → find (r.destination, if_name) (cached r.protocol_id s.mcast_cache) ≡ none
      → find (r.destination, if_name) (cached r.protocol_id (added_state r if_name s).mcast_cache)
        ≡ some r
  unfolding added_state
  find-added r s if_name absent =
      let key : Prefix × String = (r.destination, if_name) in
      let routes = cached r.protocol_id s.mcast_cache in
      rw
        (
          cached-insert_same r.protocol_id (emplace key r routes) s.mcast_cache,
          find-emplace key key r routes,
          contains-find key routes,
          absent,
          beq_refl key,
        )
        refl

  find-erased :
      (r : Route) (s : Socket K) (if_name : String) (key : Prefix × String)
      → find (r.destination, if_name) (cached r.protocol_id s.mcast_cache) ≡ none
      → find key (
          erase
            (r.destination, if_name)
            (cached r.protocol_id (added_state r if_name s).mcast_cache))
        ≡ find key (cached r.protocol_id s.mcast_cache)
  unfolding added_state
  find-erased r s if_name key absent =
      let own : Prefix × String = (r.destination, if_name) in
      let routes = cached r.protocol_id s.mcast_cache in
      rw (cached-insert_same r.protocol_id (emplace own r routes) s.mcast_cache) (
        find-erase own key (emplace own r routes) ∙ elim (Bool-cases (same_key own key)) [
          | inl same ↦
              let e : own ≡ key = (same_key_iff own key).0 same in
              rw same (sym (subst (λ k. find k routes ≡ none) e absent))
          | inr other ↦
              rw (other, find-emplace own key r routes, contains-find own routes, absent, other)
                refl
        ])

  -- If the kernel takes the calls, adding a multicast route that is not cached and then deleting it
  -- succeeds, asks the kernel to add and then to delete that same route, and leaves every route that
  -- is cached for its protocol as it was.
  pub do_delete_multicast_route-do_add_multicast_route :
      (r : Route) (s : Socket K) (if_name : String)
      → check_multicast_route ip r ≡ some if_name
      → find (r.destination, if_name) (cached r.protocol_id s.mcast_cache) ≡ none
      → (nl.add_route r s.kernel).1 ≡ 0
      → (nl.delete_route r (nl.add_route r s.kernel).0).1 ≡ 0
      → let after = and_then (do_add_multicast_route r s) (do_delete_multicast_route r) in
        (after.1 ≡ done)
        × (after.0.kernel ≡ (nl.delete_route r (nl.add_route r s.kernel).0).0)
        × ((key : Prefix × String)
            → find key (cached r.protocol_id after.0.mcast_cache)
              ≡ find key (cached r.protocol_id s.mcast_cache))
  unfolding added_state
  do_delete_multicast_route-do_add_multicast_route r s if_name checked absent added deleted =
      let mid = added_state r if_name s in
      let own : Prefix × String = (r.destination, if_name) in
      rw
        (
          do_add-added r s if_name checked absent added,
          do_delete-erased r mid if_name checked (find-added r s if_name absent) deleted,
        )
        (
          refl,
          refl,
          λ key.
              rw
                (cached-insert_same r.protocol_id (erase own (cached r.protocol_id mid.mcast_cache))
                  mid.mcast_cache)
                (find-erased r s if_name key absent),
        )
