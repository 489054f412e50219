-- ===== src/SyncRoutes/Failing.antt =====
-- routing/SyncRoutes80211s.cpp: when a run ends by an exception.
use fbmeshd.Prelude.{
  ℕ, ◌≡◌, ◌⊎◌, inl, inr, refl, ap, subst, Bool, true, false, not, ◌&&◌, Option, none, some, List,
  [], ◌∷◌, arith, ◌==◌, nat_eq, Bool-cases, Option-cases,
}
use fbmeshd.Prelude.Dict.{find}
use fbmeshd.Routing.{MeshPath}
use fbmeshd.Rnl.{Prefix}
use fbmeshd.Rnl.Builder.{route_interface, build_link_route}
use fbmeshd.Rnl.Socket.{NlSock, UnicastRoutes, IfRoutes, Socket}
use fbmeshd.Rnl.Addresses.{AddrSock}
use fbmeshd.SyncRoutes.{Config, index_of, tayga_host, on_tayga, on_tayga_with_mtu, emplace_link}
use fbmeshd.SyncRoutes.Choice.{Any, Settled, live_gates, choose-Settled}
use fbmeshd.SyncRoutes.Gates.{Gate, choose, is_live_gate}
use fbmeshd.SyncRoutes.Routes.{Keyed}
use fbmeshd.SyncRoutes.Run.{
  Sync, Inputs, ◌>>=◌, has_tayga, net, first_link_routes, first_unicast_routes, last_link_routes,
  last_unicast_routes, sync_addresses, sync_routes, sync_if, do_sync_routes, same,
}

abbrev IsSome : {A : Type 0} → Option A → Type 0
IsSome none = ⊥
IsSome (some a) = Unit

emplace_link-IsSome :
    (c : Config) (q dest : Prefix) (i : Inputs) (links : IfRoutes)
    → has_tayga i ≡ true
    → IsSome (emplace_link c q (on_tayga c (index_of i.tayga_if_index) dest) links)
unfolding emplace_link build_link_route route_interface
emplace_link-IsSome c q dest i links h =
    let other : (index_of i.tayga_if_index == 0) ≡ false = ground (arith, h) in
    rw (IsSome, other) tt

emplace_link_with_mtu :
    (c : Config) (q dest : Prefix) (i : Inputs) (links : IfRoutes)
    → has_tayga i ≡ true
    → IsSome (emplace_link c q (on_tayga_with_mtu c (index_of i.tayga_if_index) dest) links)
unfolding emplace_link build_link_route route_interface
emplace_link_with_mtu c q dest i links h =
    let other : (index_of i.tayga_if_index == 0) ≡ false = ground (arith, h) in
    rw (IsSome, other) tt

bind-IsSome :
    {A B : Type 0} (o : Option A) (f : A → Option B)
    → IsSome o
    → ((a : A) → IsSome (f a))
    → IsSome (o >>= f)
bind-IsSome none f h g = h
bind-IsSome (some a) f h g = g a

module _ (c : Config) (i : Inputs) where
  first_link_routes-IsSome : IsSome (first_link_routes c i)
  unfolding first_link_routes
  first_link_routes-IsSome = elim (Bool-cases (has_tayga i)) [
    | inl e ↦
        let own = tayga_host c c.node_addr in
        let v4 = net c.api.tayga_v4 16 in
        rw e (
          bind-IsSome _ _ (emplace_link-IsSome c own own i [] e)
            (λ links. emplace_link-IsSome c v4 v4 i links e))
    | inr e ↦ rw e tt
  ]

  last_link_routes-IsSome :
      (gate : Option Gate) (links : IfRoutes) → IsSome (last_link_routes c i gate links)
  unfolding last_link_routes
  last_link_routes-IsSome gate links = elim (Bool-cases (has_tayga i)) [
    | inl e ↦ elim (Bool-cases i.is_gate) [
      | inl g ↦ rw (e, g) (emplace_link-IsSome c _ (net c.api.nat64 96) i links e)
      | inr g ↦ elim (Option-cases gate) [
        | inl n ↦ rw (e, g, n) tt
        | inr (x, n) ↦ rw (e, g, n) (emplace_link_with_mtu c _ (net c.api.default_v4 0) i links e)
      ]
    ]
    | inr e ↦ rw e tt
  ]

Any-find :
    (z now : ℕ) (g : Gate) (paths : List (ℕ × MeshPath))
    → Keyed paths
    → Any (λ h. h ≡ g) (live_gates z now paths)
    → IsSome (find g.0 paths)
Any-find z now g [] k any = any
Any-find z now g ((a, p) ∷ paths) ((e, mac), k) any = elim (Bool-cases (a == g.0)) [
  | inl same ↦ rw same tt
  | inr other ↦ elim (Bool-cases (is_live_gate z now p)) [
    | inl live ↦ elim (rw live at any) [
      | inl here ↦
          let dst : p.dst ≡ g.0 = ap (λ (h : Gate). h.0) here in
          absurd (ground (arith, other, e, dst))
      | inr there ↦ rw other (Any-find z now g paths k there)
    ]
    | inr dead ↦ rw other (Any-find z now g paths k (rw dead at any))
  ]
]

module _ (c : Config) (i : Inputs) (keyed : Keyed i.mesh_paths) where
  last_unicast_routes-IsSome :
      (current gate : Option Gate) (db : UnicastRoutes)
      → choose c.api.zero_mac i.now i.mesh_paths current ≡ some gate
      → IsSome (last_unicast_routes c i gate db)
  unfolding last_unicast_routes
  last_unicast_routes-IsSome current none db e = elim (Bool-cases (has_tayga i && not i.is_gate)) [
    | inl b ↦ rw b tt
    | inr b ↦ rw b tt
  ]
  last_unicast_routes-IsSome current (some g) db e =
      let settled =
        subst (Settled (live_gates c.api.zero_mac i.now i.mesh_paths) current) e
          (choose-Settled c.api.zero_mac i.now i.mesh_paths current) in
      let known = Any-find c.api.zero_mac i.now g i.mesh_paths keyed settled.0 in
      elim (Bool-cases (has_tayga i && not i.is_gate)) [
        | inl b ↦ elim (Option-cases (find g.0 i.mesh_paths)) [
          | inl n ↦ elim (subst IsSome n known) [ ]
          | inr (p, f) ↦ rw (b, f) tt
        ]
        | inr b ↦ rw b tt
      ]

module _ {K : Type 0} (c : Config) (nl : NlSock K) (addrs : AddrSock K) (less : ℕ → ℕ → Bool) where
  abbrev changed : Inputs → Sync → Bool
  changed i y = not (same y.is_gate_before_route_sync i.is_gate)

  -- The first sync of a run throws, or the last one does after it.
  abbrev pub Thrown : Inputs → Sync → Socket K → Type 0
  Thrown i y s =
      let db = first_unicast_routes c i in
      let t0 = sync_addresses c addrs less i s in
      (links : IfRoutes) × (first_link_routes c i ≡ some links)
      × (((changed i y ≡ true) × (sync_routes c nl db links t0 ≡ none))
          ⊎ ((gate : Option Gate) × (last : UnicastRoutes) × (last_links : IfRoutes) × (t : Socket
                K)
              × (choose c.api.zero_mac i.now i.mesh_paths y.current_gate ≡ some gate)
              × (sync_if c nl (changed i y) db links t0 ≡ some t)
              × (last_unicast_routes c i gate db ≡ some last)
              × (last_link_routes c i gate links ≡ some last_links)
              × (sync_routes c nl last last_links t ≡ none)))

  IsSome-none : {A : Type 0} (o : Option A) → IsSome o → o ≡ none → ⊥
  IsSome-none none s e = s
  IsSome-none (some a) s e = absurd (ground (arith, e))

  bind-none :
      {A B : Type 0} {P : Type 0} (o : Option A) {f : A → Option B}
      → (o >>= f) ≡ none
      → (o ≡ none → P)
      → ((a : A) → o ≡ some a → f a ≡ none → P)
      → P
  bind-none none h p g = p refl
  bind-none (some a) h p g = g a refl h

  sync_if_throws :
      (b : Bool) (db : UnicastRoutes) (links : IfRoutes) (s : Socket K)
      → sync_if c nl b db links s ≡ none
      → (b ≡ true) × (sync_routes c nl db links s ≡ none)
  unfolding sync_if
  sync_if_throws true db links s h = (refl, h)
  sync_if_throws false db links s h = absurd (ground (arith, h))

  -- A run ends by an exception only if one of its own syncs of routes does: the first one, of the
  -- routes without a gate, made when the node's gate status has changed, or the last one. The
  -- routes themselves are always made, and the path of the chosen gate is always found. It holds
  -- where the mesh paths are under their destinations.
  pub do_sync_routes-throws :
      (i : Inputs) (y : Sync) (s : Socket K)
      → Keyed i.mesh_paths
      → do_sync_routes c nl addrs less i y s ≡ none
      → Thrown i y s
  unfolding do_sync_routes
  do_sync_routes-throws i y s keyed h =
      let paths = i.mesh_paths in
      bind-none (choose c.api.zero_mac i.now paths y.current_gate) h
        (λ n. absurd (
          subst (Settled (live_gates c.api.zero_mac i.now paths) y.current_gate) n
            (choose-Settled c.api.zero_mac i.now paths y.current_gate)))
        (λ gate eg h1.
          bind-none (first_link_routes c i) h1
            (λ n. absurd (IsSome-none _ (first_link_routes-IsSome c i) n))
            (λ links el h2.
              let t0 = sync_addresses c addrs less i s in
              let db = first_unicast_routes c i in
              bind-none (sync_if c nl (changed i y) db links t0) h2
                (λ n. (links, el, inl (sync_if_throws (changed i y) db links t0 n)))
                (λ t e1 h3.
                  bind-none (last_link_routes c i gate links) h3
                    (λ n. absurd (IsSome-none _ (last_link_routes-IsSome c i gate links) n))
                    (λ last_links e2 h4.
                      bind-none (last_unicast_routes c i gate db) h4
                        (λ n. absurd (
                          IsSome-none _
                            (last_unicast_routes-IsSome c i keyed y.current_gate gate db eg) n))
                        (λ last e3 h5.
                          bind-none (sync_routes c nl last last_links t) h5
                            (λ n. (links, el, inr (gate, last, last_links, t, eg, e1, e3, e2, n)))
                            (λ u e4 h6. absurd (ground (arith, h6))))))))
