-- ===== src/Routing/Timers.antt =====
-- routing/Routing.cpp: the timers, the gateway status, and the start of the event loop.
use fbmeshd.Prelude.{ℕ, ◌+◌, Bool, true, false, not, List, [], if◌then◌else◌}
use fbmeshd.Routing.{Pann, Config, Routing, Send, u8, u64, tx_pann_frame, mesh_path_expire_all}

unfoldable pub do_mesh_housekeeping : ℕ → Routing → Routing
unfolding mesh_path_expire_all
do_mesh_housekeeping now s = record s {
  mesh_paths = mesh_path_expire_all now s.mesh_paths;
  housekeeping_timer = true;
}

abbrev pub root_frame : Config → Routing → Pann
root_frame c s = record {
  orig_addr = c.node_addr;
  orig_sn = s.sn;
  hop_count = 0;
  ttl = u8 c.element_ttl;
  target_addr = c.mac.broadcast;
  metric = 0;
  is_gate = s.is_gate;
  reply_requested = true;
}

unfoldable pub do_mesh_path_root : Config → Routing → Routing × List Send
unfolding tx_pann_frame
do_mesh_path_root c s =
    let s' = record s { sn = u64 (s.sn + 1) } in
    if s.is_root
    then (
      record s' { mesh_path_root_timer = true },
      tx_pann_frame s' c.mac.broadcast (root_frame c s'),
    )
    else (s, [])

-- What the constructor runs in the event loop.
unfoldable pub prepare : Config → ℕ → Routing → Routing × List Send
unfolding do_mesh_path_root do_mesh_housekeeping
prepare c now s = let (s', sends) = do_mesh_path_root c s in (do_mesh_housekeeping now s', sends)

-- The callbacks of the one-shot timers.
unfoldable pub on_no_longer_a_gate : Routing → Routing
on_no_longer_a_gate s = record s { no_longer_a_gate_timer = false; is_root = false }

unfoldable pub on_housekeeping : ℕ → Routing → Routing
unfolding do_mesh_housekeeping
on_housekeeping now s = do_mesh_housekeeping now (record s { housekeeping_timer = false })

unfoldable pub on_mesh_path_root : Config → Routing → Routing × List Send
unfolding do_mesh_path_root
on_mesh_path_root c s = do_mesh_path_root c (record s { mesh_path_root_timer = false })

abbrev pub same : Bool → Bool → Bool
same true b = b
same false b = not b

unfoldable pub set_gateway_status : Config → Bool → Routing → Routing × List Send
unfolding do_mesh_path_root
set_gateway_status c is_gate s =
    let s1 = record s { is_gate = is_gate } in
    let s2 = record s1 { no_longer_a_gate_timer = false } in
    if same s.is_gate is_gate
    then (s, [])
    else if is_gate
    then if not s.is_root then do_mesh_path_root c (record s2 { is_root = true }) else (s2, [])
    else (record s1 { no_longer_a_gate_timer = true }, [])

unfoldable pub get_gateway_status : Routing → Bool
get_gateway_status s = s.is_gate

unfoldable pub set_send_packet_callback : Routing → Routing
set_send_packet_callback s = record s { has_callback = true }

unfoldable pub reset_send_packet_callback : Routing → Routing
reset_send_packet_callback s = record s { has_callback = false }
