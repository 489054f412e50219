-- ===== src/Routing/Process.antt =====
-- routing/Routing.cpp: `hwmpPannFrameProcess`. The handler reads the clock several times: `t0` is
-- the reading up to the construction of a new path, and `t1` the later reading that the tests after
-- it see.
use fbmeshd.Prelude.{
  ℕ, ◌+◌, ◌-◌, Bool, false, not, ◌&&◌, ◌||◌, Option, none, some, List, [], ◌++◌, ltb, leb, ◌==◌,
  if◌then◌else◌, count_if, nat_eq,
}
use fbmeshd.Prelude.Dict.{find, insert}
use fbmeshd.Routing.{
  MeshPath, Pann, Config, Routing, Send, u8, u64, expired, redundancy, path_or_new, get_mesh_path,
  tx_pann_frame, add_metric, is_station_in_top_k_gates,
}

-- The neighbour that a frame for the target is sent to; `none` if the frame is discarded because
-- the target is unknown or its path has expired.
unfoldable pub resolve : Config → ℕ → ℕ → Routing → Option ℕ
resolve c t0 target s =
    if c.mac.is_unicast target && not (target == c.node_addr)
    then elim (find target s.mesh_paths) [
      | none ↦ none
      | some p ↦ if expired t0 p then none else some p.next_hop
    ]
    else some target

-- A frame that is ignored because the path it would change is alive and better.
unfoldable pub is_stale : ℕ → ℕ → ℕ → ℕ → MeshPath → Bool
is_stale t1 sa orig_sn new_metric p =
    not (expired t1 p) && (ltb orig_sn p.sn || (not (p.next_hop == sa) && leb p.metric new_metric))

abbrev pub rivals : ℕ → ℕ → ℕ → List (ℕ × MeshPath) → ℕ
rivals t1 orig new_metric =
    count_if
      λ e. not (e.1.dst == orig) && not (expired t1 e.1) && e.1.is_gate && leb e.1.metric new_metric

-- A gate that is ignored because there are enough better ones.
unfoldable pub is_redundant : ℕ → Pann → ℕ → Routing → Bool
is_redundant t1 pann new_metric s =
    pann.is_gate && leb (redundancy s) (rivals t1 pann.orig_addr new_metric s.mesh_paths)

unfoldable pub updated : Config → ℕ → ℕ → ℕ → Pann → MeshPath → MeshPath
updated c t1 sa last_hop pann p = record p {
  sn = pann.orig_sn;
  metric = add_metric pann.metric last_hop;
  next_hop = sa;
  next_hop_metric = last_hop;
  hop_count = u8 (pann.hop_count + 1);
  is_gate = pann.is_gate;
  exp_time = t1 + c.active_path_timeout;
}

abbrev pub reply_frame : Config → Pann → Routing → Pann
reply_frame c pann s = record {
  orig_addr = c.node_addr;
  orig_sn = s.sn;
  hop_count = 0;
  ttl = u8 c.element_ttl;
  target_addr = pann.orig_addr;
  metric = 0;
  is_gate = s.is_gate;
  reply_requested = false;
}

unfoldable pub reply : Config → ℕ → Pann → Routing → Routing × List Send
unfolding tx_pann_frame
reply c sa pann s =
    let s' = record s { sn = u64 (s.sn + 1) } in
    if pann.reply_requested then (s', tx_pann_frame s' sa (reply_frame c pann s')) else (s, [])

abbrev pub forwarded_frame : ℕ → Pann → Pann
forwarded_frame last_hop pann = record pann {
  hop_count = u8 (pann.hop_count + 1);
  ttl = pann.ttl - 1;
  metric = add_metric pann.metric last_hop;
}

unfoldable pub forward : Config → ℕ → ℕ → ℕ → Pann → Bool → Routing → List Send
unfolding tx_pann_frame
forward c t1 da last_hop pann old_has s =
    if leb pann.ttl 1
    then []
    else if not (pann.target_addr == c.node_addr)
        && (not pann.is_gate || old_has || is_station_in_top_k_gates t1 pann.orig_addr s)
    then tx_pann_frame s da (forwarded_frame last_hop pann)
    else []

-- The originator's entry, the table with it, and the table after an update of it.
abbrev pub entry : Config → ℕ → Pann → Routing → MeshPath
entry c t0 pann s = path_or_new c.mac t0 pann.orig_addr s.mesh_paths

abbrev pub opened : Config → ℕ → Pann → Routing → Routing
opened c t0 pann s = record s { mesh_paths = get_mesh_path c.mac t0 pann.orig_addr s.mesh_paths }

abbrev pub stored : Config → ℕ → ℕ → ℕ → ℕ → Pann → Routing → Routing
stored c t0 t1 sa last_hop pann s = record s {
  mesh_paths =
      insert pann.orig_addr (updated c t1 sa last_hop pann (entry c t0 pann s))
        (opened c t0 pann s).mesh_paths;
}

abbrev pub is_dropped : Config → ℕ → ℕ → ℕ → ℕ → Pann → Routing → Bool
is_dropped c t0 t1 sa last_hop pann s =
    let new_metric = add_metric pann.metric last_hop in
    is_stale t1 sa pann.orig_sn new_metric (entry c t0 pann s)
    || is_redundant t1 pann new_metric (opened c t0 pann s)

unfoldable pub accept : Config → ℕ → ℕ → ℕ → ℕ → ℕ → Pann → Routing → Routing × List Send
unfolding updated reply forward
accept c t0 t1 sa da last_hop pann s =
    let (s', replies) = reply c sa pann (stored c t0 t1 sa last_hop pann s) in
    let old_has = is_station_in_top_k_gates t1 pann.orig_addr (opened c t0 pann s) in
    (s', replies ++ forward c t1 da last_hop pann old_has s')

-- The rest of the handler, from `getMeshPath` on.
unfoldable pub process_known : Config → ℕ → ℕ → ℕ → ℕ → ℕ → Pann → Routing → Routing × List Send
unfolding is_stale is_redundant accept
process_known c t0 t1 sa da last_hop pann s =
    if is_dropped c t0 t1 sa last_hop pann s
    then (opened c t0 pann s, [])
    else accept c t0 t1 sa da last_hop pann s

-- `stas` is what the metric manager reports for the neighbours.
unfoldable pub hwmp_pann_frame_process :
    Config → ℕ → ℕ → List (ℕ × ℕ) → ℕ → Pann → Routing → Routing × List Send
unfolding resolve process_known
hwmp_pann_frame_process c t0 t1 stas sa pann s =
    if pann.orig_addr == c.node_addr then (s, []) else elim (find sa stas) [
      | none ↦ (s, [])
      | some last_hop ↦ elim (resolve c t0 pann.target_addr s) [
        | none ↦ (s, [])
        | some da ↦ process_known c t0 t1 sa da last_hop pann s
      ]
    ]
