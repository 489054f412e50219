-- ===== src/SyncRoutes/Routes.antt =====
-- routing/SyncRoutes80211s.cpp: the routes that the mesh paths make.
use fbmeshd.Prelude.{
  ℕ, ◌≡◌, ◌≢◌, refl, sym, ap, subst, ◌∙◌, Bool, false, none, some, List, [], ◌∷◌, arith, ◌==◌,
  if◌then◌else◌, nat_eq, All, Bool-cases, inl, inr,
}
use fbmeshd.Prelude.Dict.{find, emplace, find-emplace, contains-find, find-All}
use fbmeshd.Routing.{MeshPath}
use fbmeshd.Rnl.{Prefix, Route, prefix_eq, same_prefix_iff}
use fbmeshd.Rnl.Socket.{UnicastRoutes}
use fbmeshd.SyncRoutes.Hosts.{IsBytes, IsMac, mesh_host_injective, tayga_host-mesh_host}
use fbmeshd.SyncRoutes.{Config, tayga_host, mesh_host, via, add_path, unicast_routes}

-- Each entry of the paths is under its own destination, an address of 48 bits.
abbrev pub Keyed : List (ℕ × MeshPath) → Type 0
Keyed = All (λ e. (e.1.dst ≡ e.0) × IsMac e.0)

found-IsMac :
    (paths : List (ℕ × MeshPath)) (a : ℕ) (p : MeshPath)
    → Keyed paths
    → find a paths ≡ some p
    → IsMac a
found-IsMac paths a p keyed f = (find-All _ a p paths keyed f).1

pub emplace_kept :
    (k q : Prefix) (r x : Route) (db : UnicastRoutes)
    → find q db ≡ some x
    → find q (emplace k r db) ≡ some x
emplace_kept k q r x db h =
    ground (arith, find-emplace k q r db, contains-find k db, same_prefix_iff k q)

pub find-emplace_new :
    (q : Prefix) (r : Route) (db : UnicastRoutes)
    → find q db ≡ none
    → find q (emplace q r db) ≡ some r
find-emplace_new q r db h =
    ground (arith, find-emplace q q r db, contains-find q db, same_prefix_iff q q)

find-emplace_other :
    (k q : Prefix) (r : Route) (db : UnicastRoutes) → k ≢ q → find q (emplace k r db) ≡ find q db
find-emplace_other k q r db h =
    ground (arith, find-emplace k q r db, contains-find k db, same_prefix_iff k q)

module _ (c : Config) (tayga : Bool) (i : ℕ) where
  add_path_kept :
      (p : MeshPath) (q : Prefix) (x : Route) (db : UnicastRoutes)
      → find q db ≡ some x
      → find q (add_path c tayga i p db) ≡ some x
  unfolding add_path
  add_path_kept p q x db h =
      let dest = tayga_host c p.dst in
      let both = emplace_kept dest q (via c i dest p.next_hop) x db h in
      elim (Bool-cases tayga) [
        | inl e ↦ rw e (emplace_kept (mesh_host c p.dst) q _ x _ both)
        | inr e ↦ rw e (emplace_kept (mesh_host c p.dst) q _ x _ h)
      ]

  unicast_routes_kept :
      (paths : List (ℕ × MeshPath)) (q : Prefix) (x : Route) (db : UnicastRoutes)
      → find q db ≡ some x
      → find q (unicast_routes c tayga i paths db) ≡ some x
  unfolding unicast_routes
  unicast_routes_kept [] q x db h = h
  unicast_routes_kept ((a, p) ∷ paths) q x db h = elim (Bool-cases (p.next_hop == c.api.zero_mac)) [
    | inl e ↦ rw e (unicast_routes_kept paths q x db h)
    | inr e ↦ rw e (unicast_routes_kept paths q x _ (add_path_kept p q x db h))
  ]

  with_tayga-mesh_host :
      (folly : IsBytes c.api) (m : ℕ) (p : MeshPath) (db : UnicastRoutes) (r : Route)
      → find (mesh_host c m) (if tayga then emplace (tayga_host c p.dst) r db else db)
        ≡ find (mesh_host c m) db
  with_tayga-mesh_host folly m p db r = elim (Bool-cases tayga) [
    | inl e ↦ rw e (
        find-emplace_other (tayga_host c p.dst) (mesh_host c m) r db
          (tayga_host-mesh_host c folly p.dst m))
    | inr e ↦ rw e refl
  ]

  find-add_path :
      (folly : IsBytes c.api) (m : ℕ) (p : MeshPath) (db : UnicastRoutes)
      → IsMac p.dst
      → IsMac m
      → p.dst ≢ m
      → find (mesh_host c m) (add_path c tayga i p db) ≡ find (mesh_host c m) db
  unfolding add_path
  find-add_path folly m p db px pm h =
      find-emplace_other (mesh_host c p.dst) (mesh_host c m) _ _
        (λ e. h (mesh_host_injective c folly p.dst m px pm e))
      ∙ with_tayga-mesh_host folly m p db _

  find-add_path_same :
      (folly : IsBytes c.api) (p : MeshPath) (db : UnicastRoutes)
      → find (mesh_host c p.dst) db ≡ none
      → find (mesh_host c p.dst) (add_path c tayga i p db)
        ≡ some (via c i (mesh_host c p.dst) p.next_hop)
  unfolding add_path
  find-add_path_same folly p db h =
      find-emplace_new (mesh_host c p.dst) _ _ (with_tayga-mesh_host folly p.dst p db _ ∙ h)

  pub find-unicast_routes :
      (folly : IsBytes c.api) (paths : List (ℕ × MeshPath)) (a : ℕ) (p : MeshPath)
      (db : UnicastRoutes)
      → Keyed paths
      → find a paths ≡ some p
      → p.next_hop ≢ c.api.zero_mac
      → find (mesh_host c a) db ≡ none
      → find (mesh_host c a) (unicast_routes c tayga i paths db)
        ≡ some (via c i (mesh_host c a) p.next_hop)
  unfolding unicast_routes
  find-unicast_routes folly [] a p db keyed f nz h = cc
  find-unicast_routes folly ((b, x) ∷ paths) a p db ((k, mac), keyed) f nz h =
      elim (Bool-cases (b == a)) [
        | inl e ↦
            let same : some x ≡ some p = rw e at f in
            let xp : x ≡ p = cc in
            let xa : x.dst ≡ a = ground (arith, e, k) in
            let pa : p.dst ≡ a = ap (λ (y : MeshPath). y.dst) (sym xp) ∙ xa in
            let other : (x.next_hop == c.api.zero_mac) ≡ false = ground (arith, xp, nz) in
            rw other (
              unicast_routes_kept paths (mesh_host c a) _ _ (
                subst
                  (λ y.
                    find (mesh_host c a) (add_path c tayga i y db)
                    ≡ some (via c i (mesh_host c a) p.next_hop))
                  (sym xp)
                  (subst
                    (λ m.
                      find (mesh_host c m) (add_path c tayga i p db)
                      ≡ some (via c i (mesh_host c m) p.next_hop))
                    pa
                    (find-add_path_same folly p db
                      (subst (λ m. find (mesh_host c m) db ≡ none) (sym pa) h)))))
        | inr e ↦
            let rest : find a paths ≡ some p = rw e at f in
            let ne : x.dst ≢ a = λ y. absurd (ground (arith, e, k, y)) in
            elim (Bool-cases (x.next_hop == c.api.zero_mac)) [
              | inl z ↦ rw z (find-unicast_routes folly paths a p db keyed rest nz h)
              | inr z ↦ rw z (
                  find-unicast_routes folly paths a p _ keyed rest nz (
                    find-add_path folly a x db (subst IsMac (sym k) mac)
                      (found-IsMac paths a p keyed rest) ne
                    ∙ h))
            ]
      ]
