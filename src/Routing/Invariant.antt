-- ===== src/Routing/Invariant.antt =====
-- routing/Routing.cpp: what holds of the routing between two events, in any history of frames,
-- timers and calls.
use fbmeshd.Prelude.{
  ℕ, ◌^◌, ◌<◌, ◌≡◌, ◌≢◌, refl, Bool, true, false, List, [], arith, nat_eq, Option-cases, All, inl,
  inr,
}
use fbmeshd.Prelude.Dict.{
  find, Unique, insert-Unique, emplace-Unique, keep-Unique, insert-All, emplace-All, keep-All,
  find-All,
}
use fbmeshd.Routing.{MeshPath, Pann, Config, Routing, Send, initial, mesh_path_expire_all}
use fbmeshd.Routing.Metrics.{add_metric-lt}
use fbmeshd.Routing.Process.{updated, hwmp_pann_frame_process, entry, opened, stored, accept}
use fbmeshd.Routing.Table.{Outcome, ignored, dropped, accepted, process-Outcome, accept-mesh_paths}
use fbmeshd.Routing.Timers.{
  prepare, on_no_longer_a_gate, on_housekeeping, on_mesh_path_root, set_gateway_status,
  set_send_packet_callback, reset_send_packet_callback,
}

-- An entry stands under its own address, which is not the node's, with fields in their ranges.
abbrev pub IsEntry : Config → ℕ × MeshPath → Type 0
IsEntry c (k, p) =
    (p.dst ≡ k) × (k ≢ c.node_addr) × (p.metric < 2 ^ 32) × (p.hop_count < 256) × (p.sn < 2 ^ 64)

abbrev pub IsTable : Config → List (ℕ × MeshPath) → Type 0
IsTable c paths = Unique paths × All (IsEntry c) paths

-- The flags and the timers: a gate is a root and is not about to stop; a root that is no longer a
-- gate is about to stop; a root has its next announcement scheduled.
pub record IsStatus (s : Routing) : Type 0 where
  pub gate_root : s.is_gate ≡ true → s.is_root ≡ true
  pub gate_stays : s.is_gate ≡ true → s.no_longer_a_gate_timer ≡ false
  pub former_stops : s.is_gate ≡ false → s.is_root ≡ true → s.no_longer_a_gate_timer ≡ true
  pub root_announces : s.is_root ≡ true → s.mesh_path_root_timer ≡ true
  pub keeps_house : s.housekeeping_timer ≡ true
  pub sn_fits : s.sn < 2 ^ 64

pub data Event (s : Routing) : Type 0 where
  receives :
      (t0 t1 : ℕ) (stas : List (ℕ × ℕ)) (sa : ℕ) (pann : Pann) → pann.orig_sn < 2 ^ 64 → Event s
  sets_gateway_status : Bool → Event s
  no_longer_a_gate_fires : s.no_longer_a_gate_timer ≡ true → Event s
  housekeeping_fires : ℕ → s.housekeeping_timer ≡ true → Event s
  mesh_path_root_fires : s.mesh_path_root_timer ≡ true → Event s
  sets_callback resets_callback : Event s

unfoldable pub handle : Config → (s : Routing) → Event s → Routing × List Send
handle c s (receives t0 t1 stas sa pann _) = hwmp_pann_frame_process c t0 t1 stas sa pann s
handle c s (sets_gateway_status b) = set_gateway_status c b s
handle c s (no_longer_a_gate_fires _) = (on_no_longer_a_gate s, [])
handle c s (housekeeping_fires now _) = (on_housekeeping now s, [])
handle c s (mesh_path_root_fires _) = on_mesh_path_root c s
handle c s sets_callback = (set_send_packet_callback s, [])
handle c s resets_callback = (reset_send_packet_callback s, [])

-- The states that come after the start of the event loop.
pub data Reach (c : Config) : Routing → Type 0 where
  starts : (now : ℕ) (s : Routing) → s ≡ (prepare c now initial).0 → Reach c s
  next : {s t : Routing} → Reach c s → (e : Event s) → t ≡ (handle c s e).0 → Reach c t

pub opened-IsTable :
    (c : Config) (t0 : ℕ) (pann : Pann) (s : Routing)
    → pann.orig_addr ≢ c.node_addr
    → IsTable c s.mesh_paths
    → IsTable c (opened c t0 pann s).mesh_paths
opened-IsTable c t0 pann s foreign (u, a) = (
  emplace-Unique pann.orig_addr _ s.mesh_paths u,
  emplace-All (IsEntry c) pann.orig_addr _ s.mesh_paths
      (refl, foreign, omega arith, omega arith, omega arith) a,
)

entry-dst :
    (c : Config) (t0 : ℕ) (pann : Pann) (s : Routing)
    → IsTable c s.mesh_paths
    → (entry c t0 pann s).dst ≡ pann.orig_addr
entry-dst c t0 pann s (u, a) = elim (Option-cases (find pann.orig_addr s.mesh_paths)) [
  | inl e ↦ ground arith
  | inr (p, e) ↦
      let keyed : p.dst ≡ pann.orig_addr =
        (find-All (IsEntry c) pann.orig_addr p s.mesh_paths a e).0 in
      ground arith
]

stored-IsTable :
    (c : Config) (t0 t1 sa last_hop : ℕ) (pann : Pann) (s : Routing)
    → pann.orig_addr ≢ c.node_addr
    → pann.orig_sn < 2 ^ 64
    → IsTable c s.mesh_paths
    → IsTable c (stored c t0 t1 sa last_hop pann s).mesh_paths
unfolding updated
stored-IsTable c t0 t1 sa last_hop pann s foreign fits t =
    let (u, a) = opened-IsTable c t0 pann s foreign t in
    (
      insert-Unique pann.orig_addr _ (opened c t0 pann s).mesh_paths u,
      insert-All (IsEntry c) pann.orig_addr _ (opened c t0 pann s).mesh_paths
          (entry-dst c t0 pann s t, foreign, add_metric-lt pann.metric last_hop, omega arith, fits)
          a,
    )

Outcome-IsTable :
    (c : Config) (t0 t1 : ℕ) (stas : List (ℕ × ℕ)) (sa : ℕ) (pann : Pann) (s : Routing)
    (r : Routing × List Send)
    → pann.orig_sn < 2 ^ 64
    → IsTable c s.mesh_paths
    → Outcome c t0 t1 stas sa pann s r
    → IsTable c r.0.mesh_paths
Outcome-IsTable c t0 t1 stas sa pann s r fits t (ignored q) = rw q t
Outcome-IsTable c t0 t1 stas sa pann s r fits t (dropped h d q) =
    rw q (opened-IsTable c t0 pann s h.foreign t)
Outcome-IsTable c t0 t1 stas sa pann s r fits t (accepted h d q) =
    rw (q, accept-mesh_paths c t0 t1 stas sa pann s h.da h.last_hop)
      (stored-IsTable c t0 t1 sa h.last_hop pann s h.foreign fits t)

expire-IsTable :
    (c : Config) (now : ℕ) (paths : List (ℕ × MeshPath))
    → IsTable c paths
    → IsTable c (mesh_path_expire_all now paths)
unfolding mesh_path_expire_all
expire-IsTable c now paths (u, a) = (keep-Unique _ paths u, keep-All (IsEntry c) _ paths a)

process-IsTable :
    (c : Config) (t0 t1 : ℕ) (stas : List (ℕ × ℕ)) (sa : ℕ) (pann : Pann) (s : Routing)
    → pann.orig_sn < 2 ^ 64
    → IsTable c s.mesh_paths
    → IsTable c (hwmp_pann_frame_process c t0 t1 stas sa pann s).0.mesh_paths
process-IsTable c t0 t1 stas sa pann s fits t =
    Outcome-IsTable c t0 t1 stas sa pann s _ fits t (process-Outcome c t0 t1 stas sa pann s)

accept-IsStatus :
    (c : Config) (t0 t1 sa da last_hop : ℕ) (pann : Pann) (s : Routing)
    → IsStatus s
    → IsStatus (accept c t0 t1 sa da last_hop pann s).0
unfolding accept
accept-IsStatus c t0 t1 sa da last_hop pann s v = ground arith

Outcome-IsStatus :
    (c : Config) (t0 t1 : ℕ) (stas : List (ℕ × ℕ)) (sa : ℕ) (pann : Pann) (s : Routing)
    (r : Routing × List Send)
    → IsStatus s
    → Outcome c t0 t1 stas sa pann s r
    → IsStatus r.0
Outcome-IsStatus c t0 t1 stas sa pann s r v (ignored q) = rw q v
Outcome-IsStatus c t0 t1 stas sa pann s r v (dropped h d q) = rw q (record {
  gate_root = v.gate_root;
  gate_stays = v.gate_stays;
  former_stops = v.former_stops;
  root_announces = v.root_announces;
  keeps_house = v.keeps_house;
  sn_fits = v.sn_fits;
})
Outcome-IsStatus c t0 t1 stas sa pann s r v (accepted h d q) =
    rw q (accept-IsStatus c t0 t1 sa h.da h.last_hop pann s v)

handle-IsStatus : (c : Config) (s : Routing) (e : Event s) → IsStatus s → IsStatus (handle c s e).0
unfolding handle set_gateway_status on_no_longer_a_gate on_housekeeping on_mesh_path_root
    set_send_packet_callback reset_send_packet_callback
handle-IsStatus c s (receives t0 t1 stas sa pann f) v =
    Outcome-IsStatus c t0 t1 stas sa pann s _ v (process-Outcome c t0 t1 stas sa pann s)
handle-IsStatus c s (sets_gateway_status b) v = ground arith
handle-IsStatus c s (no_longer_a_gate_fires h) v = ground arith
handle-IsStatus c s (housekeeping_fires now h) v = ground arith
handle-IsStatus c s (mesh_path_root_fires h) v = ground arith
handle-IsStatus c s sets_callback v = ground arith
handle-IsStatus c s resets_callback v = ground arith

set_gateway_status-mesh_paths :
    (c : Config) (b : Bool) (s : Routing) → (set_gateway_status c b s).0.mesh_paths ≡ s.mesh_paths
unfolding set_gateway_status
set_gateway_status-mesh_paths c b s = ground arith

on_mesh_path_root-mesh_paths :
    (c : Config) (s : Routing) → (on_mesh_path_root c s).0.mesh_paths ≡ s.mesh_paths
unfolding on_mesh_path_root
on_mesh_path_root-mesh_paths c s = ground arith

handle-IsTable :
    (c : Config) (s : Routing) (e : Event s)
    → IsTable c s.mesh_paths
    → IsTable c (handle c s e).0.mesh_paths
unfolding handle on_no_longer_a_gate on_housekeeping set_send_packet_callback
    reset_send_packet_callback
handle-IsTable c s (receives t0 t1 stas sa pann f) t = process-IsTable c t0 t1 stas sa pann s f t
handle-IsTable c s (sets_gateway_status b) t = rw (set_gateway_status-mesh_paths c b s) t
handle-IsTable c s (no_longer_a_gate_fires h) t = t
handle-IsTable c s (housekeeping_fires now h) t = expire-IsTable c now s.mesh_paths t
handle-IsTable c s (mesh_path_root_fires h) t = rw (on_mesh_path_root-mesh_paths c s) t
handle-IsTable c s sets_callback t = t
handle-IsTable c s resets_callback t = t

prepare_sound :
    (c : Config) (now : ℕ)
    → IsTable c (prepare c now initial).0.mesh_paths × IsStatus (prepare c now initial).0
unfolding prepare
prepare_sound c now = ((tt, tt), ground arith)

-- After any history, every entry of the table stands under its own address, once, and never under
-- the node's; its metric, hop count and sequence number fit their fields. A gate is a root that is
-- not about to stop, a former gate that is still a root is about to stop, a root has its next
-- announcement scheduled; the housekeeping timer is always scheduled, and the own sequence number fits 64 bits.
pub Reach-IsTable : (c : Config) {s : Routing} → Reach c s → IsTable c s.mesh_paths × IsStatus s
Reach-IsTable c (starts now s q) = rw q (prepare_sound c now)
Reach-IsTable c (next {s = s} r e q) =
    let (t, v) = Reach-IsTable c r in rw q (handle-IsTable c s e t, handle-IsStatus c s e v)
