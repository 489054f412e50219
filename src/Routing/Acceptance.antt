-- ===== src/Routing/Acceptance.antt =====
-- routing/Routing.cpp: which announcements a node believes.
use fbmeshd.Prelude.{
  ℕ, ◌≤◌, ◌<◌, ◌≡◌, ◌≢◌, subst, ◌⊎◌, inl, inr, refl, not, true, false, Option, none, some, List,
  arith, nat_eq, Bool-cases, ◌==◌, if◌then◌else◌, ltb,
}
use fbmeshd.Prelude.Dict.{find}
use fbmeshd.Routing.{MeshPath, Pann, Config, Routing, Send, new_mesh_path, expired, add_metric}
use fbmeshd.Routing.Process.{
  is_stale, is_redundant, updated, hwmp_pann_frame_process, entry, is_dropped,
}
use fbmeshd.Routing.Table.{
  Heard, Outcome, ignored, dropped, accepted, process-Outcome, accept-mesh_paths, find-opened,
  find-stored, heard-process, find-known,
}

-- What becomes of a live path: its sequence number does not fall, and its next hop changes for a
-- smaller metric only.
abbrev pub Succeeds : MeshPath → Option MeshPath → Type 0
Succeeds p none = ⊥
Succeeds p (some q) = (p.sn ≤ q.sn) × ((q.next_hop ≡ p.next_hop) ⊎ (q.metric < p.metric))

module _ (c : Config) (t0 t1 : ℕ) (stas : List (ℕ × ℕ)) (sa : ℕ) (pann : Pann) (s : Routing) where
  Succeeds-self : (p : MeshPath) → Succeeds p (some p)
  Succeeds-self p = (omega arith, inl refl)

  updated-Succeeds :
      (last_hop : ℕ) (p : MeshPath)
      → expired t1 p ≡ false
      → is_stale t1 sa pann.orig_sn (add_metric pann.metric last_hop) p ≡ false
      → Succeeds p (some (updated c t1 sa last_hop pann p))
  unfolding is_stale updated
  updated-Succeeds last_hop p live fresh = ground arith

  entry-found :
      (j : ℕ) (p : MeshPath)
      → find j s.mesh_paths ≡ some p
      → (pann.orig_addr == j) ≡ true
      → entry c t0 pann s ≡ p
  entry-found j p e same = ground arith

  not_stale :
      (last_hop j : ℕ) (p : MeshPath)
      → find j s.mesh_paths ≡ some p
      → (pann.orig_addr == j) ≡ true
      → is_dropped c t0 t1 sa last_hop pann s ≡ false
      → is_stale t1 sa pann.orig_sn (add_metric pann.metric last_hop) p ≡ false
  not_stale last_hop j p e same d =
      subst (λ x. is_stale t1 sa pann.orig_sn (add_metric pann.metric last_hop) x ≡ false)
        (entry-found j p e same) (ground arith)

  if-Succeeds :
      (j : ℕ) (p : MeshPath) (f : MeshPath → MeshPath)
      → find j s.mesh_paths ≡ some p
      → ((pann.orig_addr == j) ≡ true → Succeeds p (some (f p)))
      → Succeeds p
          (if pann.orig_addr == j then some (f (entry c t0 pann s)) else find j s.mesh_paths)
  if-Succeeds j p f e g = elim (Bool-cases (pann.orig_addr == j)) [
    | inl same ↦ rw (same, entry-found j p e same) (g same)
    | inr other ↦ rw (other, e) (Succeeds-self p)
  ]

  find-Succeeds :
      (r : Routing × List Send) (j : ℕ) (p : MeshPath)
      → find j s.mesh_paths ≡ some p
      → expired t1 p ≡ false
      → Outcome c t0 t1 stas sa pann s r
      → Succeeds p (find j r.0.mesh_paths)
  find-Succeeds r j p e live (ignored q) = rw (q, e) (Succeeds-self p)
  find-Succeeds r j p e live (dropped h d q) =
      rw (q, find-opened c t0 t1 stas sa pann s j)
        (if-Succeeds j p (λ x. x) e (λ _. Succeeds-self p))
  find-Succeeds r j p e live (accepted h d q) =
      rw
        (
          q,
          accept-mesh_paths c t0 t1 stas sa pann s h.da h.last_hop,
          find-stored c t0 t1 stas sa pann s h.last_hop j,
        )
        (if-Succeeds j p (updated c t1 sa h.last_hop pann) e
          λ same. updated-Succeeds h.last_hop p live (not_stale h.last_hop j p e same d))

  -- Of any live path of the table, whatever frame arrives: the path stays in the table, its sequence
  -- number does not fall, and if its next hop changes then its metric gets smaller.
  pub live_path-Succeeds :
      (j : ℕ) (p : MeshPath)
      → find j s.mesh_paths ≡ some p
      → expired t1 p ≡ false
      → Succeeds p (find j (hwmp_pann_frame_process c t0 t1 stas sa pann s).0.mesh_paths)
  live_path-Succeeds j p e live =
      find-Succeeds (hwmp_pann_frame_process c t0 t1 stas sa pann s) j p e live
        (process-Outcome c t0 t1 stas sa pann s)

  first-is_dropped :
      (last_hop : ℕ)
      → find pann.orig_addr s.mesh_paths ≡ none
      → pann.is_gate ≡ false
      → sa ≢ c.mac.zero_mac
      → t0 ≤ t1
      → is_dropped c t0 t1 sa last_hop pann s ≡ not (ltb t0 t1)
  unfolding is_stale is_redundant
  first-is_dropped last_hop absent plain sender order = ground arith

  -- A frame of a known neighbour about a node that the table does not have, whose target can be
  -- reached and which names no gate, makes the path that it announces exactly when the clock has
  -- moved on since the entry was made; if it has not, the frame is dropped, and an entry with no next
  -- hop is left.
  pub first_frame :
      (h : Heard c t0 stas sa pann s)
      → find pann.orig_addr s.mesh_paths ≡ none
      → pann.is_gate ≡ false
      → sa ≢ c.mac.zero_mac
      → t0 ≤ t1
      → find pann.orig_addr (hwmp_pann_frame_process c t0 t1 stas sa pann s).0.mesh_paths
        ≡ some (
            if ltb t0 t1
            then updated c t1 sa h.last_hop pann (new_mesh_path c.mac t0 pann.orig_addr)
            else new_mesh_path c.mac t0 pann.orig_addr)
  first_frame h absent plain sender order =
      rw
        (
          heard-process c t0 t1 stas sa pann s h,
          find-known c t0 t1 stas sa pann s h.da h.last_hop pann.orig_addr,
          first-is_dropped h.last_hop absent plain sender order,
        )
        (ground arith)
