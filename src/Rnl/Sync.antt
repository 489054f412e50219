-- ===== src/Rnl/Sync.antt =====
-- rnl/NetlinkSocket.cpp: after a sync that throws nothing, the cache is the routes asked for.
pub mod Filed
mod Delete
use fbmeshd.Prelude.{
  ℕ, ◌+◌, ◌≡◌, ◌≢◌, ◌⊎◌, inl, inr, refl, sym, ap, subst, ◌∙◌, Bool, true, false, not, ◌&&◌, ◌||◌,
  Option, none, some, List, [], ◌∷◌, arith, nat_eq, ◌==◌, ==_iff, if◌then◌else◌, All, Bool-cases,
  Option-cases,
}
use fbmeshd.Prelude.Dict.{
  find, contains, erase, emplace, insert, find-insert, find-erase, find-emplace, find-emplace-erase,
  contains-find, find-All, Unique, is_some, beq_refl,
}
use fbmeshd.Rnl.{Prefix, Route, IpApi, prefix_eq, same_prefix, same_prefix_iff, route_eq}
use Filed.{IsFiled, routes_of-with_routes, and_then-done}
use Delete.{find-deleted}
use fbmeshd.Rnl.Socket.{
  NlSock, UnicastRoutes, Socket, Status, done, nl_exception, Outcome, and_then, routes_of,
  with_routes,
}
use fbmeshd.Rnl.Unicast.{
  with_priority, check_unicast_route, is_same, delete_old, add_new, do_add_update_unicast_route,
  do_delete_unicast_route, delete_all, add_all, to_delete, do_sync_unicast_routes,
}

-- The route in the cache is the one asked for, with the default priority filled in, or equal to it
-- by `==`.
abbrev pub Fits : Option Route → Option Route → Type 0
Fits none none = Unit
Fits none (some r) = ⊥
Fits (some x) none = ⊥
Fits (some x) (some r) = (x ≡ with_priority r) ⊎ (route_eq x (with_priority r) ≡ true)

module _ {K : Type 0} (ip : IpApi) (nl : NlSock K) where
  find-add_new :
      (r : Route) (s : Socket K) (q : Prefix)
      → (add_new ip nl r s).1 ≡ done
      → find q (routes_of r.protocol_id (add_new ip nl r s).0)
        ≡ (if same_prefix r.destination q then some r else find q (routes_of r.protocol_id s))
  unfolding add_new
  find-add_new r s q h = elim (Bool-cases ((nl.add_route r s.kernel).1 == 0)) [
    | inl e ↦
        rw
          (
            e,
            routes_of-with_routes r.protocol_id r.protocol_id
                (emplace r.destination r (erase r.destination (routes_of r.protocol_id s)))
                (record s { kernel = (nl.add_route r s.kernel).0 }),
            beq_refl r.protocol_id,
          )
          (find-emplace-erase r.destination q r (routes_of r.protocol_id s))
    | inr e ↦ absurd (ground arith)
  ]

  delete_old-cache :
      (old : Option Route) (r : Route) (s : Socket K)
      → (delete_old ip nl old r s).0.unicast_cache ≡ s.unicast_cache
  unfolding delete_old
  delete_old-cache none r s = refl
  delete_old-cache (some old) r s = ground arith

  -- What an addition that throws nothing does to the cache of the route's protocol.
  Added : Route → Socket K → Socket K → Type 0
  Added r s t =
      (Fits (find r.destination (routes_of r.protocol_id t)) (some r))
      × ((q : Prefix)
          → same_prefix r.destination q ≡ false
          → find q (routes_of r.protocol_id t) ≡ find q (routes_of r.protocol_id s))

  same-Fits : (o : Option Route) (r : Route) → is_same o (with_priority r) ≡ true → Fits o (some r)
  same-Fits none r h = cc
  same-Fits (some x) r h = inr h

  abbrev replace : Route → Socket K → Outcome K
  replace r s =
      let r' = with_priority r in
      and_then (delete_old ip nl (find r'.destination (routes_of r'.protocol_id s)) r' s)
        (add_new ip nl r')

  replace-Added : (r : Route) (s : Socket K) → (replace r s).1 ≡ done → Added r s (replace r s).0
  unfolding Added
  replace-Added r s h =
      let r' = with_priority r in
      let old = find r'.destination (routes_of r'.protocol_id s) in
      let d = (delete_old ip nl old r' s).0 in
      let (_, e) = and_then-done (delete_old ip nl old r' s) (add_new ip nl r') h in
      let ok : (add_new ip nl r' d).1 ≡ done = rw e at h in
      let cache : d.unicast_cache ≡ s.unicast_cache = delete_old-cache old r' s in
      let found = λ (q : Prefix). find-add_new r' d q ok in
      rw e (
        rw (found r'.destination, beq_refl r'.destination) (inl refl),
        λ q other. rw (found q, other) (ground arith),
      )

  add-Added :
      (r : Route) (s : Socket K)
      → (do_add_update_unicast_route ip nl r s).1 ≡ done
      → Added r s (do_add_update_unicast_route ip nl r s).0
  unfolding do_add_update_unicast_route Added
  add-Added r s h =
      let r' = with_priority r in
      let old = find r'.destination (routes_of r'.protocol_id s) in
      elim (Bool-cases (check_unicast_route ip r)) [
        | inl ok ↦ elim (Bool-cases (is_same old r')) [
          | inl same ↦ rw (ok, same) (same-Fits old r same, λ q other. refl)
          | inr differs ↦
              rw (ok, differs, do_add_update_unicast_route)
                (replace-Added r s (rw (ok, differs, do_add_update_unicast_route) at h))
        ]
        | inr bad ↦ absurd (ground arith)
      ]

  -- What one addition of a sync does to the whole cache of its protocol.
  step :
      (protocol : ℕ) (r : Route) (s : Socket K)
      → r.protocol_id ≡ protocol
      → (do_add_update_unicast_route ip nl r s).1 ≡ done
      → (q : Prefix)
      → if same_prefix r.destination q
        then Fits (find q (routes_of protocol (do_add_update_unicast_route ip nl r s).0)) (some r)
        else find q (routes_of protocol (do_add_update_unicast_route ip nl r s).0)
          ≡ find q (routes_of protocol s)
  unfolding Added
  step protocol r s k h q =
      let t = (do_add_update_unicast_route ip nl r s).0 in
      let added = add-Added r s h in
      elim (Bool-cases (same_prefix r.destination q)) [
        | inl same ↦
            let e : r.destination ≡ q = (same_prefix_iff r.destination q).0 same in
            rw same (
              subst (λ x. Fits (find x (routes_of protocol t)) (some r)) e
                (subst (λ x. Fits (find r.destination (routes_of x t)) (some r)) k added.0))
        | inr other ↦
            rw other
              (subst (λ x. find q (routes_of x t) ≡ find q (routes_of x s)) k (added.1 q other))
      ]

  -- What the additions of a sync leave under a prefix.
  abbrev Landed : Option Route → Option Route → Option Route → Type 0
  Landed none before after = after ≡ before
  Landed (some r) before after = Fits after (some r)

  first-Landed :
      (r : Route) (before middle after : Option Route) (same : Bool)
      → if same then Fits middle (some r) else middle ≡ before
      → (o : Option Route) → (same ≡ true → o ≡ none)
      → Landed o middle after
      → Landed (if same then some r else o) before after
  first-Landed r b m a true h none n l = subst (λ x. Fits x (some r)) (sym l) h
  first-Landed r b m a true h (some x) n l = absurd (ground (arith, n refl))
  first-Landed r b m a false h none n l = l ∙ h
  first-Landed r b m a false h (some x) n l = l

  Landed-Fits :
      (o before middle after : Option Route)
      → middle ≡ (if is_some o then before else none)
      → Landed o middle after
      → Fits after o
  Landed-Fits none b m a h l = subst (λ x. Fits x none) (sym (l ∙ h)) tt
  Landed-Fits (some r) b m a h l = l

  add_all-Landed :
      (protocol : ℕ) (db : UnicastRoutes) (s : Socket K)
      → IsFiled protocol db
      → Unique db
      → (add_all ip nl db s).1 ≡ done
      → (q : Prefix)
      → Landed
          (find q db)
          (find q (routes_of protocol s))
          (find q (routes_of protocol (add_all ip nl db s).0))
  unfolding add_all
  add_all-Landed protocol [] s filed u h q = refl
  add_all-Landed protocol ((p, r) ∷ db) s ((e, k), filed) (fresh, u) h q =
      let added = do_add_update_unicast_route ip nl r s in
      let (d, eq) = and_then-done added (add_all ip nl db) h in
      let landed = add_all-Landed protocol db added.0 filed u (rw eq at h) q in
      let stepped =
        subst
          (λ x.
            if same_prefix x q
            then Fits (find q (routes_of protocol added.0)) (some r)
            else find q (routes_of protocol added.0) ≡ find q (routes_of protocol s))
          e (step protocol r s k d q) in
      rw eq (
        first-Landed r _ _ _ (same_prefix p q) stepped (find q db)
          (λ same. subst (λ x. find x db ≡ none) ((same_prefix_iff p q).0 same) fresh) landed)

  -- A sync that throws nothing leaves the cache of its protocol with the routes asked for, and with
  -- no other: under each prefix of the new routes is that route, with the default priority filled
  -- in, or one equal to it by `==`. It holds where each cached and each new route is under its own
  -- prefix and of the protocol of the sync, with no prefix twice in the new routes.
  pub do_sync_unicast_routes-Fits :
      (protocol : ℕ) (db : UnicastRoutes) (s : Socket K)
      → IsFiled protocol (routes_of protocol s)
      → IsFiled protocol db
      → Unique db
      → (do_sync_unicast_routes ip nl protocol db s).1 ≡ done
      → (q : Prefix)
      → Fits
          (find q (routes_of protocol (do_sync_unicast_routes ip nl protocol db s).0))
          (find q db)
  unfolding do_sync_unicast_routes
  do_sync_unicast_routes-Fits protocol db s cached filed u h q =
      let deleted = delete_all ip nl protocol (to_delete (routes_of protocol s) db) s in
      let (d, eq) = and_then-done deleted (add_all ip nl db) h in
      let left = find-deleted ip nl protocol db s q cached d in
      let landed = add_all-Landed protocol db deleted.0 filed u (rw eq at h) q in
      rw eq (
        Landed-Fits (find q db) _ _ _
          (left ∙ ap (λ c. if c then find q (routes_of protocol s) else none) (contains-find q db))
          landed)
