-- ===== src/Rnl/Mpls.antt =====
-- rnl/NetlinkSocket.cpp: adding, deleting and syncing MPLS routes.
use fbmeshd.Prelude.{
  ℕ, ◌≡◌, ◌≢◌, ◌⊎◌, Bool, true, false, not, Option, none, some, List, [], ◌∷◌, arith, nat_eq, ◌==◌,
  if◌then◌else◌,
}
use fbmeshd.Prelude.Dict.{
  find, contains, erase, emplace, insert, find-erase, find-emplace-erase, beq_refl,
}
use fbmeshd.Rnl.{Route, prefix_eq, key_eq, route_eq}
use fbmeshd.Rnl.Socket.{
  NlSock, MplsRoutes, Socket, done, nl_exception, Outcome, and_then, cached, cached-insert_same,
}

abbrev pub with_mpls : {K : Type 0} → ℕ → MplsRoutes → Socket K → Socket K
with_mpls protocol routes s = record s { mpls_cache = insert protocol routes s.mpls_cache }

abbrev same_route : Option Route → Route → Bool
same_route none r = false
same_route (some old) r = route_eq old r

-- The cached labels that the new routes do not have.
unfoldable pub labels_to_delete : MplsRoutes → MplsRoutes → List ℕ
labels_to_delete [] db = []
labels_to_delete ((l, r) ∷ routes) db =
    let rest = labels_to_delete routes db in if contains l db then rest else l ∷ rest

module _ {K : Type 0} (nl : NlSock K) where
  unfoldable pub do_delete_mpls_route : Route → Socket K → Outcome K
  do_delete_mpls_route r s = elim r.mpls_label [
    | none ↦ (s, done)
    | some label ↦
        let routes = cached r.protocol_id s.mpls_cache in
        let (kernel, err) = nl.delete_label_route r s.kernel in
        let s' = record s { kernel = kernel } in
        if not (contains label routes)
        then (s, done)
        else if err == 0
        then (with_mpls r.protocol_id (erase label routes) s', done)
        else (s', nl_exception)
  ]

  unfoldable pub do_add_update_mpls_route : Route → Socket K → Outcome K
  do_add_update_mpls_route r s = elim r.mpls_label [
    | none ↦ (s, done)
    | some label ↦
        let routes = cached r.protocol_id s.mpls_cache in
        let erased = erase label routes in
        let (kernel, err) = nl.add_label_route r s.kernel in
        let s' = record s { kernel = kernel } in
        if same_route (find label routes) r
        then (s, done)
        else if err == 0
        then (with_mpls r.protocol_id (emplace label r erased) s', done)
        else (with_mpls r.protocol_id erased s', nl_exception)
  ]

  -- `at` throws when the label has gone, and the sync ends with that exception.
  unfoldable pub delete_label : Option Route → Socket K → Outcome K
  unfolding do_delete_mpls_route
  delete_label none s = (s, nl_exception)
  delete_label (some r) s = do_delete_mpls_route r s

  unfoldable pub delete_labels : ℕ → List ℕ → Socket K → Outcome K
  unfolding delete_label
  delete_labels protocol [] s = (s, done)
  delete_labels protocol (l ∷ ls) s =
      and_then (delete_label (find l (cached protocol s.mpls_cache)) s)
        (λ t. delete_labels protocol ls t)

  unfoldable pub add_labels : MplsRoutes → Socket K → Outcome K
  unfolding do_add_update_mpls_route
  add_labels [] s = (s, done)
  add_labels ((l, r) ∷ db) s = and_then (do_add_update_mpls_route r s) (λ t. add_labels db t)

  unfoldable pub sync_mpls_routes : ℕ → MplsRoutes → Socket K → Outcome K
  unfolding labels_to_delete delete_labels add_labels
  sync_mpls_routes protocol db s =
      and_then (delete_labels protocol (labels_to_delete (cached protocol s.mpls_cache) db) s)
        (add_labels db)

  abbrev pub Updated : ℕ → Route → Socket K → Outcome K → Type 0
  Updated label r s (t, done) =
      (find label (cached r.protocol_id t.mpls_cache) ≡ some r)
      ⊎ (same_route (find label (cached r.protocol_id t.mpls_cache)) r ≡ true)
  Updated label r s (t, nl_exception) = find label (cached r.protocol_id t.mpls_cache) ≡ none

  -- After an addition that throws nothing, a route with a label, or one equal to it is cached under its label;
  -- after one that throws, none is, although the kernel may still have the one cached before. In
  -- both cases the routes of every other label are as they were.
  pub do_add_update_mpls_route-Updated :
      (label : ℕ) (r : Route) (s : Socket K)
      → r.mpls_label ≡ some label
      → Updated label r s (do_add_update_mpls_route r s)
        × ((l : ℕ)
            → l ≢ label
            → find l (cached r.protocol_id (do_add_update_mpls_route r s).0.mpls_cache)
              ≡ find l (cached r.protocol_id s.mpls_cache))
  unfolding do_add_update_mpls_route
  do_add_update_mpls_route-Updated label r s e =
      let routes = cached r.protocol_id s.mpls_cache in
      let added =
        cached-insert_same r.protocol_id (emplace label r (erase label routes)) s.mpls_cache in
      let erased = cached-insert_same r.protocol_id (erase label routes) s.mpls_cache in
      (
        ground (
          arith,
          e,
          added,
          erased,
          find-emplace-erase label label r routes,
          find-erase label label routes,
          beq_refl label,
        ),
        λ l other. ground (
          arith,
          e,
          added,
          erased,
          find-emplace-erase label l r routes,
          find-erase label l routes,
        ),
      )
