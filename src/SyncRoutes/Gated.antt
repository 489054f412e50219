-- ===== src/SyncRoutes/Gated.antt =====
-- routing/SyncRoutes80211s.cpp: which unicast routes a run asks for.
use fbmeshd.Prelude.{
  ℕ, ◌≡◌, ◌≢◌, ◌⊎◌, inl, inr, refl, sym, ap, Bool, true, false, not, ◌&&◌, Option, none, some, List,
  [], ◌∷◌, arith, ◌==◌, if◌then◌else◌, nat_eq, Bool-cases, some_injective, Option-cases,
}
use fbmeshd.Prelude.Dict.{
  find, emplace, find-emplace, contains-find, emplace-All, emplace-Unique, Unique,
}
use fbmeshd.Routing.{MeshPath}
use fbmeshd.Rnl.{Prefix, Route, prefix_eq, same_prefix, same_prefix_iff}
use fbmeshd.Rnl.Socket.{UnicastRoutes}
use fbmeshd.Rnl.Sync.Filed.{IsFiled}
use fbmeshd.SyncRoutes.{
  Config, protocol, index_of, tayga_host, mesh_host, via, add_path, unicast_routes,
}
use fbmeshd.SyncRoutes.Choice.{Any}
use fbmeshd.SyncRoutes.Gates.{Gate}
use fbmeshd.SyncRoutes.Run.{Inputs, has_tayga, net, last_unicast_routes}

abbrev pub Good : UnicastRoutes → Type 0
Good db = IsFiled protocol db × Unique db

pub emplace-Good :
    (c : Config) (i : ℕ) (q : Prefix) (n : ℕ) (db : UnicastRoutes)
    → Good db
    → Good (emplace q (via c i q n) db)
unfolding via
emplace-Good c i q n db (f, u) =
    (emplace-All _ q (via c i q n) db (refl, refl) f, emplace-Unique q (via c i q n) db u)

if-Good : (b : Bool) (x y : UnicastRoutes) → Good x → Good y → Good (if b then x else y)
if-Good true x y h k = h
if-Good false x y h k = k

pub unicast_routes-Good :
    (c : Config) (tayga : Bool) (i : ℕ) (paths : List (ℕ × MeshPath)) (db : UnicastRoutes)
    → Good db
    → Good (unicast_routes c tayga i paths db)
unfolding unicast_routes add_path
unicast_routes-Good c tayga i [] db g = g
unicast_routes-Good c tayga i ((a, p) ∷ paths) db g =
    let with_tayga = emplace-Good c i (tayga_host c p.dst) p.next_hop db g in
    unicast_routes-Good c tayga i paths _ (
      if-Good (p.next_hop == c.api.zero_mac) _ _ g
        (emplace-Good c i (mesh_host c p.dst) p.next_hop _ (if-Good tayga _ _ with_tayga g)))

-- A prefix of a path that has a next hop.
abbrev pub IsFor : Config → Inputs → Prefix → ℕ × MeshPath → Type 0
IsFor c i q e =
    (e.1.next_hop ≢ c.api.zero_mac)
    × ((q ≡ mesh_host c e.1.dst) ⊎ ((q ≡ tayga_host c e.1.dst) × (has_tayga i ≡ true)))

pub find-emplace_cases :
    (k q : Prefix) (r x : Route) (db : UnicastRoutes)
    → find q (emplace k r db) ≡ some x
    → (q ≡ k) ⊎ (find q db ≡ some x)
find-emplace_cases k q r x db h = elim (Bool-cases (same_prefix k q)) [
  | inl e ↦ inl (sym ((same_prefix_iff k q).0 e))
  | inr e ↦
      inr (ground (arith, e, h, find-emplace k q r db, contains-find k db, contains-find q db))
]

if-origin :
    (k q : Prefix) (r x : Route) (db : UnicastRoutes) (b : Bool)
    → find q (if b then emplace k r db else db) ≡ some x
    → ((q ≡ k) × (b ≡ true)) ⊎ (find q db ≡ some x)
if-origin k q r x db true h = elim (find-emplace_cases k q r x db h) [
  | inl e ↦ inl (e, refl)
  | inr f ↦ inr f
]
if-origin k q r x db false h = inr h

module _ (c : Config) (i : Inputs) where
  abbrev pub index : ℕ
  index = index_of i.mesh_if_index

  add_path-origin :
      (a : ℕ) (p : MeshPath) (q : Prefix) (x : Route) (db : UnicastRoutes)
      → p.next_hop ≢ c.api.zero_mac
      → find q (add_path c (has_tayga i) index p db) ≡ some x
      → (IsFor c i q (a, p)) ⊎ (find q db ≡ some x)
  unfolding add_path
  add_path-origin a p q x db nz h = elim (find-emplace_cases (mesh_host c p.dst) q _ x _ h) [
    | inl e ↦ inl (nz, inl e)
    | inr f ↦ elim (if-origin (tayga_host c p.dst) q _ x db (has_tayga i) f) [
      | inl e ↦ inl (nz, inr e)
      | inr f ↦ inr f
    ]
  ]

  pub unicast_routes-origin :
      (paths : List (ℕ × MeshPath)) (q : Prefix) (x : Route) (db : UnicastRoutes)
      → find q (unicast_routes c (has_tayga i) index paths db) ≡ some x
      → (Any (IsFor c i q) paths) ⊎ (find q db ≡ some x)
  unfolding unicast_routes
  unicast_routes-origin [] q x db h = inr h
  unicast_routes-origin ((a, p) ∷ paths) q x db h =
      elim (Bool-cases (p.next_hop == c.api.zero_mac)) [
        | inl e ↦ elim (unicast_routes-origin paths q x db (rw e at h)) [
          | inl any ↦ inl (inr any)
          | inr f ↦ inr f
        ]
        | inr e ↦ elim (unicast_routes-origin paths q x _ (rw e at h)) [
          | inl any ↦ inl (inr any)
          | inr f ↦ elim (add_path-origin a p q x db (λ z. absurd (ground (arith, z, e))) f) [
            | inl for ↦ inl (inl for)
            | inr g ↦ inr g
          ]
        ]
      ]

  abbrev pub nat64 : Prefix
  nat64 = net c.api.nat64 96

  -- What the route of the gate makes of the routes of the paths.
  abbrev pub Gated : Option Gate → UnicastRoutes → UnicastRoutes → Type 0
  Gated gate db last =
      ((last ≡ db) × ((gate ≡ none) ⊎ ((has_tayga i && not i.is_gate) ≡ false)))
      ⊎ ((g : Gate) × (p : MeshPath) × (gate ≡ some g)
          × (find g.0 i.mesh_paths ≡ some p)
          × ((has_tayga i && not i.is_gate) ≡ true)
          × (last ≡ emplace nat64 (via c index nat64 p.next_hop) db))

  with_gate :
      (gate : Option Gate) (db last : UnicastRoutes)
      → elim gate [
        | none ↦ some db
        | some g ↦ elim (find g.0 i.mesh_paths) [
          | none ↦ none
          | some p ↦ some (emplace nat64 (via c index nat64 p.next_hop) db)
        ]
      ]
        ≡ some last
      → (has_tayga i && not i.is_gate) ≡ true
      → Gated gate db last
  with_gate none db last h y = inl (sym (some_injective h), inl refl)
  with_gate (some g) db last h y = elim (Option-cases (find g.0 i.mesh_paths)) [
    | inl e ↦ absurd (ground (arith, rw e at h))
    | inr (p, e) ↦ inr (g, p, refl, e, y, sym (some_injective (rw e at h)))
  ]

  pub last_unicast_routes-Gated :
      (gate : Option Gate) (db last : UnicastRoutes)
      → last_unicast_routes c i gate db ≡ some last
      → Gated gate db last
  unfolding last_unicast_routes
  last_unicast_routes-Gated gate db last h = elim (Bool-cases (has_tayga i && not i.is_gate)) [
    | inl e ↦ with_gate gate db last (rw e at h) e
    | inr e ↦ inl (sym (some_injective (rw e at h)), inr e)
  ]

  pub nat64_not_for : (paths : List (ℕ × MeshPath)) → Any (IsFor c i nat64) paths → ⊥
  unfolding mesh_host tayga_host
  nat64_not_for [] any = elim any [ ]
  nat64_not_for ((a, p) ∷ paths) (inl (nz, inl e)) =
      let masks : ◌≡◌ {A = ℕ} 96 128 = ap (λ x. x.mask) e in absurd (omega (arith, masks))
  nat64_not_for ((a, p) ∷ paths) (inl (nz, inr (e, t))) =
      let masks : ◌≡◌ {A = ℕ} 96 128 = ap (λ x. x.mask) e in absurd (omega (arith, masks))
  nat64_not_for ((a, p) ∷ paths) (inr any) = nat64_not_for paths any
