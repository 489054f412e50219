-- ===== src/SyncRoutes/Mirrors.antt =====
-- routing/SyncRoutes80211s.cpp: what the unicast routes of a run are.
use fbmeshd.Prelude.{
  ℕ, ◌≡◌, ◌≢◌, ◌⊎◌, inl, inr, refl, sym, subst, ◌∙◌, true, false, not, ◌&&◌, Option, none, some, [],
  arith, nat_eq, some_injective,
}
use fbmeshd.Prelude.Dict.{find}
use fbmeshd.Routing.{MeshPath}
use fbmeshd.Rnl.{Prefix, Route, prefix_eq}
use fbmeshd.Rnl.Socket.{UnicastRoutes}
use fbmeshd.Rnl.Sync.{Fits}
use fbmeshd.SyncRoutes.{Config, mesh_host, via}
use fbmeshd.SyncRoutes.Choice.{Any}
use fbmeshd.SyncRoutes.Gates.{Gate}
use fbmeshd.SyncRoutes.Hosts.{IsBytes}
use fbmeshd.SyncRoutes.Routes.{Keyed, find-unicast_routes, emplace_kept, find-emplace_new}
use fbmeshd.SyncRoutes.Run.{Inputs, has_tayga, first_unicast_routes}
use fbmeshd.SyncRoutes.Gated.{
  index, nat64, Gated, IsFor, find-emplace_cases, unicast_routes-origin, nat64_not_for,
}

module _ (c : Config) (i : Inputs) where
  -- Each path with a next hop has its route in the cache, and so has the gate of a node that is no
  -- gate itself and has the tayga interface up; no other prefix has one, but the tayga address of such
  -- a path.
  abbrev pub Mirrors : Option Gate → UnicastRoutes → Type 0
  Mirrors gate cache =
      ((a : ℕ)
        → (p : MeshPath) → find a i.mesh_paths ≡ some p
        → p.next_hop ≢ c.api.zero_mac
        → Fits (find (mesh_host c a) cache) (some (via c (index c i) (mesh_host c a) p.next_hop)))
      × ((g : Gate)
          → gate ≡ some g
          → (has_tayga i && not i.is_gate) ≡ true
          → (p : MeshPath) × (find g.0 i.mesh_paths ≡ some p)
            × Fits (find (nat64 c i) cache) (some (via c (index c i) (nat64 c i) p.next_hop)))
      × ((q : Prefix)
          → (r : Route) → find q cache ≡ some r
          → Any (IsFor c i q) i.mesh_paths
            ⊎ ((q ≡ (nat64 c i)) × (gate ≢ none) × (i.is_gate ≡ false) × (has_tayga i ≡ true)))

  abbrev pub path_routes : UnicastRoutes
  path_routes = first_unicast_routes c i

  Gated-path :
      (folly : IsBytes c.api) (gate : Option Gate) (last : UnicastRoutes)
      → Keyed i.mesh_paths
      → Gated c i gate path_routes last
      → (a : ℕ) (p : MeshPath) → find a i.mesh_paths ≡ some p
      → p.next_hop ≢ c.api.zero_mac
      → find (mesh_host c a) last ≡ some (via c (index c i) (mesh_host c a) p.next_hop)
  unfolding first_unicast_routes
  Gated-path folly gate last keyed gated a p f nz =
      let known =
        find-unicast_routes c (has_tayga i) (index c i) folly i.mesh_paths a p [] keyed f nz refl in
      elim gated [
        | inl (e, w) ↦ rw e known
        | inr (g, x, e, y, z, l) ↦ rw l (emplace_kept (nat64 c i) (mesh_host c a) _ _ _ known)
      ]

  absent_nat64 : (o : Option Route) → find (nat64 c i) path_routes ≡ o → o ≡ none
  unfolding first_unicast_routes
  absent_nat64 none e = refl
  absent_nat64 (some r) e = elim (unicast_routes-origin c i i.mesh_paths (nat64 c i) r [] e) [
    | inl any ↦ absurd (nat64_not_for c i i.mesh_paths any)
    | inr f ↦ cc
  ]

  Gated-gate :
      (gate : Option Gate) (last : UnicastRoutes)
      → Gated c i gate path_routes last
      → (g : Gate) → gate ≡ some g
      → (has_tayga i && not i.is_gate) ≡ true
      → (p : MeshPath) × (find g.0 i.mesh_paths ≡ some p)
        × (find (nat64 c i) last ≡ some (via c (index c i) (nat64 c i) p.next_hop))
  Gated-gate gate last (inl (e, inl n)) g k t = absurd (ground (arith, n, k))
  Gated-gate gate last (inl (e, inr n)) g k t = absurd (ground (arith, n, t))
  Gated-gate gate last (inr (g', p, e, f, z, l)) g k t =
      let same : g' ≡ g = some_injective (sym e ∙ k) in
      (
        p,
        subst (λ (y : Gate). find y.0 i.mesh_paths ≡ some p) same f,
        rw l (find-emplace_new (nat64 c i) _ path_routes (absent_nat64 _ refl)),
      )

  Gated-origin :
      (gate : Option Gate) (last : UnicastRoutes)
      → Gated c i gate path_routes last
      → (q : Prefix) (r : Route) → find q last ≡ some r
      → Any (IsFor c i q) i.mesh_paths
        ⊎ ((q ≡ (nat64 c i)) × (gate ≢ none) × (i.is_gate ≡ false) × (has_tayga i ≡ true))
  unfolding first_unicast_routes
  Gated-origin gate last (inl (e, n)) q r f =
      elim (unicast_routes-origin c i i.mesh_paths q r [] (rw e at f)) [
        | inl any ↦ inl any
        | inr g ↦ absurd (ground (arith, g))
      ]
  Gated-origin gate last (inr (g, p, e, y, z, l)) q r f =
      elim (find-emplace_cases (nat64 c i) q _ r path_routes (rw l at f)) [
        | inl k ↦
            inr (k, (λ n. absurd (ground (arith, n, e))), ground (arith, z), ground (arith, z))
        | inr h ↦ elim (unicast_routes-origin c i i.mesh_paths q r [] h) [
          | inl any ↦ inl any
          | inr g ↦ absurd (ground (arith, g))
        ]
      ]

  Fits-some : (x o : Option Route) (r : Route) → x ≡ some r → Fits x o → (w : Route) × (o ≡ some w)
  Fits-some none o r e f = cc
  Fits-some (some x) none r e f = elim f [ ]
  Fits-some (some x) (some w) r e f = (w, refl)

  pub Gated-Mirrors :
      (folly : IsBytes c.api) (gate : Option Gate) (last cache : UnicastRoutes)
      → Keyed i.mesh_paths
      → Gated c i gate path_routes last
      → ((q : Prefix) → Fits (find q cache) (find q last))
      → Mirrors gate cache
  Gated-Mirrors folly gate last cache keyed gated fits = (
    λ a p f nz.
        subst (Fits (find (mesh_host c a) cache)) (Gated-path folly gate last keyed gated a p f nz)
          (fits (mesh_host c a)),
    λ g e t.
        let (p, f, known) = Gated-gate gate last gated g e t in
        (p, f, subst (Fits (find (nat64 c i) cache)) known (fits (nat64 c i))),
    λ q r f.
        let (w, e) = Fits-some (find q cache) (find q last) r f (fits q) in
        Gated-origin gate last gated q w e,
  )
