-- ===== src/Routing/Gates/Admitted.antt =====
-- routing/Routing.cpp: a gate whose announcement is accepted counts among the best gates, so that the
-- announcement is passed on.
use fbmeshd.Prelude.{
  ℕ, ◌≤◌, ◌<◌, ◌≡◌, ◌≢◌, refl, ap, ◌∙◌, Bool, true, false, none, List, [], ◌∷◌, ◌++◌, arith,
  count_if, All, All-map, nat_eq,
}
use fbmeshd.Prelude.Dict.{find, insert, Unique}
use fbmeshd.Routing.{
  MeshPath, Pann, Config, Routing, add_metric, live_gates, redundancy, is_station_in_top_k_gates,
  expired,
}
use fbmeshd.Routing.Process.{
  rivals, is_redundant, updated, entry, opened, stored, is_dropped, accept, reply, forward,
  forwarded_frame, process_known, hwmp_pann_frame_process,
}
use fbmeshd.Routing.Table.{Heard, heard-process}
use fbmeshd.Routing.Invariant.{IsTable, IsEntry, opened-IsTable}
use fbmeshd.Routing.Gates.{rank, is_pair, IsTop, is_station_in_top_k_gates_iff}

abbrev pub Keyed : List (ℕ × MeshPath) → Type 0
Keyed = All λ e. e.1.dst ≡ e.0

module _ (now orig m : ℕ) where
  -- Without an entry of the originator, the gates before it are rivals.
  rank-le-rivals :
      (paths : List (ℕ × MeshPath))
      → Keyed paths
      → find orig paths ≡ none
      → rank (m, orig) (live_gates now paths) ≤ rivals now orig m paths
  unfolding live_gates
  rank-le-rivals [] k f = omega arith
  rank-le-rivals ((j, p) ∷ paths) k f = ground (arith, rank-le-rivals paths k.1)

  rank-insert :
      (u : MeshPath) (paths : List (ℕ × MeshPath))
      → u.metric ≡ m
      → Unique paths
      → Keyed paths
      → rank (m, orig) (live_gates now (insert orig u paths)) ≤ rivals now orig m paths
  unfolding live_gates
  rank-insert u [] e q k = ground arith
  rank-insert u ((j, p) ∷ paths) e q k =
      ground (arith, rank-insert u paths e q.1 k.1, rank-le-rivals paths k.1)

  counted-insert :
      (u : MeshPath) (paths : List (ℕ × MeshPath))
      → u.metric ≡ m
      → u.is_gate ≡ true
      → expired now u ≡ false
      → 0 < count_if (is_pair (m, orig)) (live_gates now (insert orig u paths))
  unfolding live_gates
  counted-insert u [] e g a = ground arith
  counted-insert u ((j, p) ∷ paths) e g a = ground (arith, counted-insert u paths e g a)

module _ (c : Config) (t0 t1 : ℕ) (stas : List (ℕ × ℕ)) (sa : ℕ) (pann : Pann) (s : Routing) where
  stored-IsTop :
      (last_hop : ℕ)
      → pann.orig_addr ≢ c.node_addr
      → IsTable c s.mesh_paths
      → pann.is_gate ≡ true
      → is_dropped c t0 t1 sa last_hop pann s ≡ false
      → IsTop
          (redundancy s)
          pann.orig_addr
          (live_gates t1 (stored c t0 t1 sa last_hop pann s).mesh_paths)
  unfolding is_redundant updated
  stored-IsTop last_hop foreign t gate kept =
      let (u, a) = opened-IsTable c t0 pann s foreign t in
      let paths = (opened c t0 pann s).mesh_paths in
      let p = updated c t1 sa last_hop pann (entry c t0 pann s) in
      let m = add_metric pann.metric last_hop in
      (
        m,
        counted-insert t1 pann.orig_addr m p paths refl gate (ground arith),
        ground (
          arith,
          rank-insert t1 pann.orig_addr m p paths refl u
              (All-map {P = IsEntry c} (λ e i. i.0) paths a),
        ),
      )

  reply-top :
      (s1 : Routing)
      → is_station_in_top_k_gates t1 pann.orig_addr (reply c sa pann s1).0
        ≡ is_station_in_top_k_gates t1 pann.orig_addr s1
  unfolding reply is_station_in_top_k_gates
  reply-top s1 = ground arith

  stored-top :
      (last_hop : ℕ)
      → pann.orig_addr ≢ c.node_addr
      → IsTable c s.mesh_paths
      → pann.is_gate ≡ true
      → is_dropped c t0 t1 sa last_hop pann s ≡ false
      → is_station_in_top_k_gates t1 pann.orig_addr
          (reply c sa pann (stored c t0 t1 sa last_hop pann s)).0
        ≡ true
  stored-top last_hop foreign t gate kept = rw (reply-top (stored c t0 t1 sa last_hop pann s)) (
      (is_station_in_top_k_gates_iff t1 pann.orig_addr (stored c t0 t1 sa last_hop pann s)).1
        (stored-IsTop last_hop foreign t gate kept))

  forward_of_top :
      (da last_hop : ℕ) (old : Bool) (s1 : Routing)
      → s1.has_callback ≡ true
      → 1 < pann.ttl
      → pann.target_addr ≢ c.node_addr
      → (pann.is_gate ≡ true → is_station_in_top_k_gates t1 pann.orig_addr s1 ≡ true)
      → forward c t1 da last_hop pann old s1 ≡ (da, forwarded_frame last_hop pann) ∷ []
  unfolding forward
  forward_of_top da last_hop old s1 callback alive target top = ground arith

  reply-has_callback : (s1 : Routing) → (reply c sa pann s1).0.has_callback ≡ s1.has_callback
  unfolding reply
  reply-has_callback s1 = ground arith

  accept-forwards :
      (h : Heard c t0 stas sa pann s)
      → IsTable c s.mesh_paths
      → is_dropped c t0 t1 sa h.last_hop pann s ≡ false
      → s.has_callback ≡ true
      → 1 < pann.ttl
      → pann.target_addr ≢ c.node_addr
      → (accept c t0 t1 sa h.da h.last_hop pann s).1
        ≡ (reply c sa pann (stored c t0 t1 sa h.last_hop pann s)).1
          ++ (h.da, forwarded_frame h.last_hop pann) ∷ []
  unfolding accept
  accept-forwards h t kept callback alive target =
      ap (◌++◌ (reply c sa pann (stored c t0 t1 sa h.last_hop pann s)).1) (
        forward_of_top h.da h.last_hop _ _
          (reply-has_callback (stored c t0 t1 sa h.last_hop pann s) ∙ callback) alive target
          λ gate. stored-top h.last_hop h.foreign t gate kept)

  -- Where the table is as the events leave it and a callback for sending is set, every announcement
  -- that a node accepts and that is neither at the end of its life nor meant for
  -- the node is passed on, a gate's like any other: the test that a gate is among the best ones
  -- holds of each gate whose announcement gets that far.
  pub accepted-passed_on :
      (h : Heard c t0 stas sa pann s)
      → IsTable c s.mesh_paths
      → is_dropped c t0 t1 sa h.last_hop pann s ≡ false
      → s.has_callback ≡ true
      → 1 < pann.ttl
      → pann.target_addr ≢ c.node_addr
      → (hwmp_pann_frame_process c t0 t1 stas sa pann s).1
        ≡ (reply c sa pann (stored c t0 t1 sa h.last_hop pann s)).1
          ++ (h.da, forwarded_frame h.last_hop pann) ∷ []
  unfolding process_known
  accepted-passed_on h t kept callback alive target =
      rw (heard-process c t0 t1 stas sa pann s h, kept)
        (accept-forwards h t kept callback alive target)
