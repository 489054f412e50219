-- ===== src/Routing/Table.antt =====
-- routing/Routing.cpp: the ways in which the handler of a PANN ends, and what each does to the
-- entries of the table.
use fbmeshd.Prelude.{
  ℕ, ◌≡◌, ◌≢◌, inl, inr, true, false, some, List, [], arith, nat_eq, Option-cases, Bool-cases, ◌==◌,
  ==_iff, if◌then◌else◌,
}
use fbmeshd.Prelude.Dict.{find, find-insert, find-emplace, contains-find}
use fbmeshd.Routing.{Pann, Config, Routing, Send, new_mesh_path}
use fbmeshd.Routing.Process.{
  resolve, updated, process_known, hwmp_pann_frame_process, entry, opened, stored, is_dropped,
  accept,
}

-- A frame of a known neighbour about another node, whose target can be reached.
pub record Heard (c : Config) (t0 : ℕ) (stas : List (ℕ × ℕ)) (sa : ℕ) (pann : Pann) (s : Routing)
    : Type 0 where
  pub last_hop : ℕ
  pub da : ℕ
  pub foreign : pann.orig_addr ≢ c.node_addr
  pub peered : find sa stas ≡ some last_hop
  pub resolved : resolve c t0 pann.target_addr s ≡ some da

module _ (c : Config) (t0 t1 : ℕ) (stas : List (ℕ × ℕ)) (sa : ℕ) (pann : Pann) (s : Routing) where
  pub data Outcome (r : Routing × List Send) : Type 0 where
    ignored : r ≡ (s, []) → Outcome r
    dropped :
        (h : Heard c t0 stas sa pann s)
        → is_dropped c t0 t1 sa h.last_hop pann s ≡ true
        → r ≡ (opened c t0 pann s, [])
        → Outcome r
    accepted :
        (h : Heard c t0 stas sa pann s)
        → is_dropped c t0 t1 sa h.last_hop pann s ≡ false
        → r ≡ accept c t0 t1 sa h.da h.last_hop pann s
        → Outcome r

  known-Outcome :
      (h : Heard c t0 stas sa pann s) → Outcome (process_known c t0 t1 sa h.da h.last_hop pann s)
  unfolding process_known
  known-Outcome h = elim (Bool-cases (is_dropped c t0 t1 sa h.last_hop pann s)) [
    | inl e ↦ dropped h e (rw e)
    | inr e ↦ accepted h e (rw e)
  ]

  pub process-Outcome : Outcome (hwmp_pann_frame_process c t0 t1 stas sa pann s)
  unfolding hwmp_pann_frame_process
  process-Outcome = elim (Bool-cases (pann.orig_addr == c.node_addr)) [
    | inl own ↦ ignored (rw own)
    | inr other ↦ elim (Option-cases (find sa stas)) [
      | inl e ↦ ignored (rw (other, e, hwmp_pann_frame_process))
      | inr (last_hop, e) ↦ elim (Option-cases (resolve c t0 pann.target_addr s)) [
        | inl f ↦ ignored (rw (other, e, f, hwmp_pann_frame_process))
        | inr (da, f) ↦
            rw (other, e, f, hwmp_pann_frame_process)
              (known-Outcome (record {
                last_hop = last_hop;
                da = da;
                foreign = λ q. cc ((==_iff pann.orig_addr c.node_addr).1 q);
                peered = e;
                resolved = f;
              }))
      ]
    ]
  ]

  pub accept-mesh_paths :
      (da last_hop : ℕ)
      → (accept c t0 t1 sa da last_hop pann s).0.mesh_paths
        ≡ (stored c t0 t1 sa last_hop pann s).mesh_paths
  unfolding accept
  accept-mesh_paths da last_hop = ground arith

  pub find-opened :
      (j : ℕ)
      → find j (opened c t0 pann s).mesh_paths
        ≡ (if pann.orig_addr == j then some (entry c t0 pann s) else find j s.mesh_paths)
  find-opened j = ground (
    arith,
    find-emplace pann.orig_addr j (new_mesh_path c.mac t0 pann.orig_addr) s.mesh_paths,
    contains-find pann.orig_addr s.mesh_paths,
  )

  pub find-stored :
      (last_hop j : ℕ)
      → find j (stored c t0 t1 sa last_hop pann s).mesh_paths ≡ (
          if pann.orig_addr == j
          then some (updated c t1 sa last_hop pann (entry c t0 pann s))
          else find j s.mesh_paths)
  find-stored last_hop j = ground (
    arith,
    find-opened j,
    find-insert pann.orig_addr j (updated c t1 sa last_hop pann (entry c t0 pann s))
        (opened c t0 pann s).mesh_paths,
  )

  pub heard-process :
      (h : Heard c t0 stas sa pann s)
      → hwmp_pann_frame_process c t0 t1 stas sa pann s
        ≡ process_known c t0 t1 sa h.da h.last_hop pann s
  unfolding hwmp_pann_frame_process
  heard-process h = ground (arith, h.foreign, h.peered, h.resolved)

  pub find-known :
      (da last_hop j : ℕ)
      → find j (process_known c t0 t1 sa da last_hop pann s).0.mesh_paths ≡ (
          if pann.orig_addr == j
          then some (
              if is_dropped c t0 t1 sa last_hop pann s
              then entry c t0 pann s
              else updated c t1 sa last_hop pann (entry c t0 pann s))
          else find j s.mesh_paths)
  unfolding process_known
  find-known da last_hop j =
      ground (arith, find-opened j, find-stored last_hop j, accept-mesh_paths da last_hop)
