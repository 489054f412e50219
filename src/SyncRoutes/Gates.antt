-- ===== src/SyncRoutes/Gates.antt =====
-- routing/SyncRoutes80211s.cpp: the choice of the gate.
use fbmeshd.Prelude.{
  ℕ, Bool, true, false, not, ◌&&◌, Option, none, some, List, [], ◌∷◌, ◌==◌, ltb, if◌then◌else◌,
}
use fbmeshd.Routing.{MeshPath}

-- A gate's address and metric.
abbrev pub Gate : Type 0
Gate = ℕ × ℕ

-- The variables that the loop over the mesh paths changes.
pub record Scan : Type 0 where
  pub current : Option Gate
  pub best : Option Gate
  pub is_current_gate_still_alive : Bool

abbrev pub is_current : Option Gate → ℕ → Bool
is_current none dst = false
is_current (some (d, m)) dst = d == dst

abbrev pub better : Option Gate → ℕ → Bool
better none metric = true
better (some (d, m)) metric = ltb metric m

-- A path that the loop takes for a gate.
unfoldable pub is_live_gate : ℕ → ℕ → MeshPath → Bool
is_live_gate zero_mac now p = not (p.next_hop == zero_mac) && (ltb now p.exp_time && p.is_gate)

unfoldable pub see : Gate → Scan → Scan
see (dst, metric) s =
    let known = is_current s.current dst in
    record {
      current = if known then some (dst, metric) else s.current;
      best = if better s.best metric then some (dst, metric) else s.best;
      is_current_gate_still_alive = if known then true else s.is_current_gate_still_alive;
    }

unfoldable pub scan_path : ℕ → ℕ → MeshPath → Scan → Scan
unfolding is_live_gate see
scan_path zero_mac now p s = if is_live_gate zero_mac now p then see (p.dst, p.metric) s else s

unfoldable pub scan : ℕ → ℕ → List (ℕ × MeshPath) → Scan → Scan
unfolding scan_path
scan zero_mac now [] s = s
scan zero_mac now ((a, p) ∷ paths) s = scan zero_mac now paths (scan_path zero_mac now p s)

-- After the loop. `none` is the use of a best gate that there is not.
abbrev pub settle : Option Gate → Option Gate → Bool → Option (Option Gate)
settle none best alive = some best
settle (some g) best false = some best
settle (some g) none true = none
settle (some (d, m)) (some (e, n)) true = some (if ltb n m then some (e, n) else some (d, m))

unfoldable pub choose : ℕ → ℕ → List (ℕ × MeshPath) → Option Gate → Option (Option Gate)
unfolding scan
choose zero_mac now paths current =
    let s =
      scan zero_mac now paths
        (record { current = current; best = none; is_current_gate_still_alive = false }) in
    settle s.current s.best s.is_current_gate_still_alive
