-- ===== src/Rnl/Sync/Delete.antt =====
-- rnl/NetlinkSocket.cpp: what the deletions of a sync leave in the cache.
use fbmeshd.Prelude.{
  ℕ, ◌≡◌, inl, inr, refl, sym, ap, subst, ◌∙◌, Bool, true, false, not, ◌&&◌, ◌||◌, Option, none,
  some, List, [], ◌∷◌, arith, nat_eq, if◌then◌else◌, Bool-cases,
}
use fbmeshd.Prelude.Dict.{
  find, contains, erase, find-erase, contains-find, find-All, erase_absent, erase-All, beq_refl,
  is_some,
}
use fbmeshd.Rnl.{Prefix, Route, IpApi, prefix_eq, same_prefix, same_prefix_iff}
use fbmeshd.Rnl.Socket.{NlSock, UnicastRoutes, Socket, done, routes_of}
use fbmeshd.Rnl.Unicast.{do_delete_unicast_route, delete_if, delete_all, to_delete}
use fbmeshd.Rnl.Sync.Filed.{IsFiled, routes_of-with_routes, and_then-done}

abbrev listed : Prefix → List Prefix → Bool
listed q [] = false
listed q (p ∷ ps) = same_prefix p q || listed q ps

abbrev remaining : List Prefix → UnicastRoutes → UnicastRoutes
remaining [] m = m
remaining (p ∷ ps) m = remaining ps (erase p m)

find-remaining :
    (ps : List Prefix) (m : UnicastRoutes) (q : Prefix)
    → find q (remaining ps m) ≡ (if listed q ps then none else find q m)
find-remaining [] m q = refl
find-remaining (p ∷ ps) m q = ground (arith, find-remaining ps (erase p m) q, find-erase p q m)

listed-to_delete :
    (q : Prefix) (m db : UnicastRoutes)
    → listed q (to_delete m db) ≡ (contains q m && not (contains q db))
unfolding to_delete
listed-to_delete q [] db = refl
listed-to_delete q ((p, r) ∷ m) db = elim (Bool-cases (same_prefix p q)) [
  | inl same ↦
      let e : p ≡ q = (same_prefix_iff p q).0 same in
      let known : contains p db ≡ contains q db = ap (λ x. contains x db) e in
      ground (arith, listed-to_delete q m db)
  | inr other ↦ ground (arith, listed-to_delete q m db)
]

module _ {K : Type 0} (ip : IpApi) (nl : NlSock K) where
  delete-routes :
      (r : Route) (s : Socket K)
      → contains r.destination (routes_of r.protocol_id s) ≡ true
      → (do_delete_unicast_route ip nl r s).1 ≡ done
      → routes_of r.protocol_id (do_delete_unicast_route ip nl r s).0
        ≡ erase r.destination (routes_of r.protocol_id s)
  unfolding do_delete_unicast_route
  delete-routes r s known h = ground (
    arith,
    routes_of-with_routes r.protocol_id r.protocol_id
        (erase r.destination (routes_of r.protocol_id s))
        (record s { kernel = (nl.delete_route r s.kernel).0 }),
    beq_refl r.protocol_id,
  )

  delete_found :
      (protocol : ℕ) (p : Prefix) (s : Socket K) (r : Route)
      → r.destination ≡ p
      → r.protocol_id ≡ protocol
      → find p (routes_of protocol s) ≡ some r
      → (do_delete_unicast_route ip nl r s).1 ≡ done
      → routes_of protocol (do_delete_unicast_route ip nl r s).0 ≡ erase p (routes_of protocol s)
  delete_found protocol p s r e f found h =
      let found' : find r.destination (routes_of r.protocol_id s) ≡ some r =
        subst (λ k. find r.destination (routes_of k s) ≡ some r) (sym f)
          (subst (λ d. find d (routes_of protocol s) ≡ some r) (sym e) found) in
      let known = contains-find r.destination (routes_of r.protocol_id s) ∙ ap is_some found' in
      subst (λ k. routes_of k (do_delete_unicast_route ip nl r s).0 ≡ erase p (routes_of k s)) f
        (subst
          (λ d.
            routes_of r.protocol_id (do_delete_unicast_route ip nl r s).0
            ≡ erase d (routes_of r.protocol_id s))
          e (delete-routes r s known h))

  delete_if-routes :
      (protocol : ℕ) (p : Prefix) (s : Socket K) (o : Option Route)
      → IsFiled protocol (routes_of protocol s)
      → find p (routes_of protocol s) ≡ o
      → (delete_if ip nl o s).1 ≡ done
      → routes_of protocol (delete_if ip nl o s).0 ≡ erase p (routes_of protocol s)
  unfolding delete_if
  delete_if-routes protocol p s none filed e h = sym (erase_absent p (routes_of protocol s) e)
  delete_if-routes protocol p s (some r) filed e h =
      let (d, k) = find-All _ p r (routes_of protocol s) filed e in
      delete_found protocol p s r d k e h

  pub delete_all-routes :
      (protocol : ℕ) (ps : List Prefix) (s : Socket K)
      → IsFiled protocol (routes_of protocol s)
      → (delete_all ip nl protocol ps s).1 ≡ done
      → routes_of protocol (delete_all ip nl protocol ps s).0 ≡ remaining ps (routes_of protocol s)
  unfolding delete_all
  delete_all-routes protocol [] s filed h = refl
  delete_all-routes protocol (p ∷ ps) s filed h =
      let (d, e) =
        and_then-done (delete_if ip nl (find p (routes_of protocol s)) s)
          (delete_all ip nl protocol ps) h in
      let t = (delete_if ip nl (find p (routes_of protocol s)) s).0 in
      let erased = delete_if-routes protocol p s _ filed refl d in
      let still : IsFiled protocol (routes_of protocol t) =
        rw erased (erase-All _ p (routes_of protocol s) filed) in
      rw e (delete_all-routes protocol ps t still (rw e at h) ∙ ap (remaining ps) erased)

  -- The deletions leave the routes that are asked for, as they were.
  pub find-deleted :
      (protocol : ℕ) (db : UnicastRoutes) (s : Socket K) (q : Prefix)
      → IsFiled protocol (routes_of protocol s)
      → (delete_all ip nl protocol (to_delete (routes_of protocol s) db) s).1 ≡ done
      → find q
          (routes_of protocol (delete_all ip nl protocol (to_delete (routes_of protocol s) db) s).0)
        ≡ (if contains q db then find q (routes_of protocol s) else none)
  find-deleted protocol db s q filed h =
      let m = routes_of protocol s in
      rw (delete_all-routes protocol (to_delete m db) s filed h) (
        ground
          (arith, find-remaining (to_delete m db) m q, listed-to_delete q m db, contains-find q m))
