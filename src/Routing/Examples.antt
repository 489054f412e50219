-- ===== src/Routing/Examples.antt =====
-- routing/Routing.cpp: the theorems at concrete tables and frames. The node is 1; its neighbours are
-- 2 and 3, with link metrics 10 and 20.
use fbmeshd.Prelude.{
  ℕ, ◌≡◌, ◌⊎◌, refl, true, false, not, List, [], ◌∷◌, ◌++◌, arith, nat_eq, ◌==◌, All,
}
use fbmeshd.Prelude.Dict.{find}
use fbmeshd.Routing.{
  MacApi, MeshPath, Pann, Config, Routing, initial, add_metric, is_station_in_top_k_gates,
}
use fbmeshd.Routing.Process.{
  resolve, is_stale, is_redundant, hwmp_pann_frame_process, stored, reply, forwarded_frame,
}
use fbmeshd.Routing.Table.{Heard}
use fbmeshd.Routing.Acceptance.{Succeeds, live_path-Succeeds}
use fbmeshd.Routing.Forwarding.{IsReply, IsForward, process-sends}
use fbmeshd.Routing.Gates.Admitted.{accepted-passed_on}
use fbmeshd.Routing.Timers.{prepare, set_send_packet_callback}
use fbmeshd.Routing.Invariant.{
  IsTable, IsStatus, receives, sets_callback, handle, Reach, starts, next, Reach-IsTable,
}

-- An address is unicast unless it is the broadcast address, in this small world.
abbrev mac : MacApi
mac = record { is_unicast = λ a. not (a == 255); broadcast = 255; zero_mac = 0 }

abbrev config : Config
config = record { mac = mac; node_addr = 1; element_ttl = 32; active_path_timeout = 30000 }

abbrev stas : List (ℕ × ℕ)
stas = (2, 10) ∷ (3, 20) ∷ []

abbrev gate_frame : Pann
gate_frame = record {
  orig_addr = 9;
  orig_sn = 5;
  hop_count = 1;
  ttl = 31;
  target_addr = 255;
  metric = 7;
  is_gate = true;
  reply_requested = true;
}

abbrev plain_frame : Pann
plain_frame = record gate_frame { is_gate = false }

abbrev started : Routing
started = record initial { housekeeping_timer = true; has_callback = true }

abbrev gate_path : MeshPath
gate_path = record {
  dst = 9;
  next_hop = 2;
  sn = 5;
  metric = 17;
  next_hop_metric = 10;
  hop_count = 2;
  exp_time = 30101;
  is_root = false;
  is_gate = true;
}

abbrev informed : Routing
informed = record started { sn = 1; mesh_paths = (9, gate_path) ∷ [] }

-- The frame makes the path, is answered, and is passed on.
gate_frame_processed : hwmp_pann_frame_process config 100 101 stas 2 gate_frame started ≡ (
  informed,
  (
    2,
    record {
      orig_addr = 1;
      orig_sn = 1;
      hop_count = 0;
      ttl = 32;
      target_addr = 9;
      metric = 0;
      is_gate = false;
      reply_requested = false;
    },
  )
      ∷ (255, record gate_frame { hop_count = 2; ttl = 30; metric = 17 })
      ∷ [],
)
unfolding hwmp_pann_frame_process is_station_in_top_k_gates add_metric
gate_frame_processed = refl

heard_gate : Heard config 100 stas 2 gate_frame started
unfolding resolve
heard_gate = record {
  last_hop = 10;
  da = 255;
  foreign = λ e. omega (arith, e);
  peered = refl;
  resolved = refl;
}

heard_plain : Heard config 100 stas 2 plain_frame started
unfolding resolve
heard_plain = record {
  last_hop = 10;
  da = 255;
  foreign = λ e. omega (arith, e);
  peered = refl;
  resolved = refl;
}

Reach-started : Reach config started
unfolding prepare handle set_send_packet_callback
Reach-started = next (starts 0 _ refl) sets_callback refl

Reach-informed : Reach config informed
unfolding handle hwmp_pann_frame_process is_station_in_top_k_gates add_metric
Reach-informed = next Reach-started (receives 100 101 stas 2 gate_frame (omega arith)) refl

-- The neighbour 3 announces the gate too, with a greater metric.
live_path-Succeeds_example :
    Succeeds gate_path
      (find 9 (hwmp_pann_frame_process config 200 201 stas 3 gate_frame informed).0.mesh_paths)
live_path-Succeeds_example =
    live_path-Succeeds config 200 201 stas 3 gate_frame informed 9 gate_path refl refl

process-sends_example :
    All
      (λ m.
        IsReply config 2 gate_frame
          (hwmp_pann_frame_process config 100 101 stas 2 gate_frame started).0
          m
        ⊎ IsForward config 100 stas 2 gate_frame started m)
      (hwmp_pann_frame_process config 100 101 stas 2 gate_frame started).1
process-sends_example = process-sends config 100 101 stas 2 gate_frame started

accepted-passed_on_example :
    (hwmp_pann_frame_process config 100 101 stas 2 gate_frame started).1
    ≡ (reply config 2 gate_frame (stored config 100 101 2 10 gate_frame started)).1
      ++ (255, forwarded_frame 10 gate_frame) ∷ []
unfolding is_stale is_redundant heard_gate
accepted-passed_on_example =
    accepted-passed_on config 100 101 stas 2 gate_frame started heard_gate (tt, tt) refl refl
      (omega arith) (λ e. omega (arith, e))

Reach-IsTable_example : IsTable config informed.mesh_paths × IsStatus informed
Reach-IsTable_example = Reach-IsTable config Reach-informed
