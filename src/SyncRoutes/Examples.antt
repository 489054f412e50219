-- ===== src/SyncRoutes/Examples.antt =====
-- routing/SyncRoutes80211s.cpp: a run with two paths, on addresses of 48 and of 128 bits.
use fbmeshd.Prelude.{
  ℕ, suc, ◌+◌, ◌*◌, ◌/◌, ◌%◌, ◌^◌, ◌≡◌, refl, Bool, true, false, Option, none, some, List, [], ◌∷◌,
  arith, ltb, nat_eq,
}
use fbmeshd.Routing.{MeshPath}
use fbmeshd.Rnl.{route_eq, has_next_hop, next_hop_eq}
use fbmeshd.Rnl.Socket.{NlSock, Socket, empty}
use fbmeshd.Rnl.Addresses.{AddrSock}
use fbmeshd.SyncRoutes.{Bytes6, AddrApi, Config}
use fbmeshd.SyncRoutes.Choice.{Settled, live_gates, choose-Settled}
use fbmeshd.SyncRoutes.Gates.{choose}
use fbmeshd.SyncRoutes.Mirrors.{Mirrors}
use fbmeshd.SyncRoutes.Failing.{Thrown, do_sync_routes-throws}
use fbmeshd.SyncRoutes.Run.{Sync, Inputs, do_sync_routes}

-- The number of some bytes, the lowest first.
number : List ℕ → ℕ
number [] = 0
number (x ∷ xs) = x + 256 * number xs

abbrev bytes_of : ℕ → Bytes6
bytes_of m = record {
  b0 = m % 256;
  b1 = m / 2 ^ 8 % 256;
  b2 = m / 2 ^ 16 % 256;
  b3 = m / 2 ^ 24 % 256;
  b4 = m / 2 ^ 32 % 256;
  b5 = m / 2 ^ 40 % 256;
}

number_of : Bytes6 → ℕ
number_of b = b.b0 + 2 ^ 8 * b.b1 + 2 ^ 16 * b.b2 + 2 ^ 24 * b.b3 + 2 ^ 32 * b.b4 + 2 ^ 40 * b.b5

abbrev api : AddrApi
api = record {
  zero_mac = 0;
  bytes = bytes_of;
  from_binary = number;
  link_local = λ m. m + 1000;
  tayga_v4 = 1;
  default_v4 = 2;
  nat64 = 3;
}

abbrev config : Config
config = record {
  ip = record {
    is_multicast = λ a. false;
    is_link_local = λ a. false;
    is_v6 = λ a. true;
    family = λ a. 10;
  };
  rtnl = record {
    rt_table_main = 254;
    is_cloned = λ f. false;
    rt_scope_universe = 0;
    rt_scope_link = 253;
    rt_scope_nowhere = 255;
    rtn_unicast = 1;
    rtn_blackhole = 6;
    rtn_multicast = 5;
    af_unspec = 0;
    af_inet = 2;
    af_inet6 = 10;
    af_mpls = 28;
  };
  api = api;
  unset = record { addr = 0; mask = 0 };
  node_addr = 5;
}

-- A kernel that counts the calls, and one that refuses a route.
abbrev accepts : NlSock ℕ
accepts = record {
  add_route = λ r k. (suc k, 0);
  delete_route = λ r k. (suc k, 0);
  add_label_route = λ r k. (suc k, 0);
  delete_label_route = λ r k. (suc k, 0);
}

abbrev refuses : NlSock ℕ
refuses = record accepts { add_route = λ r k. (k, 22) }

abbrev addresses : AddrSock ℕ
addresses = record {
  add_if_address = λ a k. (suc k, 0);
  delete_if_address = λ a k. (suc k, 0);
  get_all_if_addresses = λ k. [];
}

abbrev path : ℕ → ℕ → Bool → MeshPath
path dst metric is_gate = record {
  dst = dst;
  next_hop = 8;
  sn = 1;
  metric = metric;
  next_hop_metric = 1;
  hop_count = 1;
  exp_time = 100;
  is_root = is_gate;
  is_gate = is_gate;
}

abbrev paths : List (ℕ × MeshPath)
paths = (7, path 7 40 true) ∷ (8, path 8 10 false) ∷ (9, path 9 30 true) ∷ []

abbrev inputs : Inputs
inputs = record {
  mesh_if_index = some 4;
  tayga_if_index = some 6;
  tayga_if_up = true;
  is_gate = false;
  mesh_paths = paths;
  now = 20;
}

abbrev idle : Sync
idle = record { current_gate = none; is_gate_before_route_sync = true }

abbrev value_or {ℓ} : {A : Type ℓ} → A → Option A → A
value_or a none = a
value_or a (some b) = b

abbrev run : Sync × Socket ℕ
run = value_or (idle, empty 0) (do_sync_routes config accepts addresses ltb inputs idle (empty 0))

throws : do_sync_routes config refuses addresses ltb inputs idle (empty 0) ≡ none
unfolding do_sync_routes number
throws = refl

choose-Settled_example :
    Settled (live_gates 0 20 paths) (some (7, 50)) (choose 0 20 paths (some (7, 50)))
choose-Settled_example = choose-Settled 0 20 paths (some (7, 50))

run_gate : run.0.current_gate ≡ some (9, 30)
unfolding do_sync_routes number route_eq has_next_hop next_hop_eq
run_gate = refl

do_sync_routes-throws_example : Thrown config refuses addresses ltb inputs idle (empty 0)
do_sync_routes-throws_example =
    do_sync_routes-throws config refuses addresses ltb inputs idle (empty 0)
      ((refl, omega arith), ((refl, omega arith), ((refl, omega arith), tt))) throws
