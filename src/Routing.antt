-- ===== src/Routing.antt =====
-- routing/Routing.cpp and routing/Routing.h: the distance-vector protocol of the mesh. This file has
-- the state and the small operations; the children have the handler of a path announcement (PANN),
-- the timers, and the proofs.
--
-- A MAC address is the number that folly compares it by, and a time point is a number. Each handler
-- takes the readings of `steady_clock` that it makes. Frames that the send callback is given are
-- a list of destination and frame.
pub mod Process
pub mod Timers
pub mod Metrics
pub mod Table
pub mod Acceptance
pub mod Forwarding
pub mod Gates
pub mod Invariant
pub mod Wire
mod Examples
use fbmeshd.Prelude.{
  ℕ, zero, suc, ◌+◌, ◌-◌, ◌%◌, ◌^◌, ◌≤◌, ◌<◌, ◌≡◌, refl, Bool, true, false, not, ◌&&◌, ◌||◌, Option,
  none, some, List, [], ◌∷◌, ◌++◌, arith, ltb, leb, ◌==◌, if◌then◌else◌, take, keep, count_if,
  nat_eq,
}
use fbmeshd.Prelude.Dict.{find, contains, emplace, insert}

-- What the protocol uses of folly's `MacAddress`.
pub record MacApi : Type 0 where
  pub is_unicast : ℕ → Bool
  pub broadcast : ℕ
  pub zero_mac : ℕ

pub record MeshPath : Type 0 where
  pub dst : ℕ
  pub next_hop : ℕ
  pub sn : ℕ
  pub metric : ℕ
  pub next_hop_metric : ℕ
  pub hop_count : ℕ
  pub exp_time : ℕ
  pub is_root : Bool
  pub is_gate : Bool

abbrev pub expired : ℕ → MeshPath → Bool
expired now p = ltb p.exp_time now

-- `thrift::MeshPathFramePANN` (if/fbmeshd.thrift).
pub record Pann : Type 0 where
  pub orig_addr : ℕ
  pub orig_sn : ℕ
  pub hop_count : ℕ
  pub ttl : ℕ
  pub target_addr : ℕ
  pub metric : ℕ
  pub is_gate : Bool
  pub reply_requested : Bool

pub record Config : Type 0 where
  pub mac : MacApi
  pub node_addr : ℕ
  pub element_ttl : ℕ
  pub active_path_timeout : ℕ

pub record Routing : Type 0 where
  pub has_callback : Bool
  pub sn : ℕ
  pub is_root : Bool
  pub is_gate : Bool
  pub no_longer_a_gate_timer : Bool
  pub housekeeping_timer : Bool
  pub mesh_path_root_timer : Bool
  pub mesh_paths : List (ℕ × MeshPath)

abbrev pub Send : Type 0
Send = ℕ × Pann

abbrev pub u8 : ℕ → ℕ
u8 n = n % 256

abbrev pub u64 : ℕ → ℕ
u64 n = n % 2 ^ 64

abbrev pub max_metric : ℕ
max_metric = 0xffff_ffff

abbrev pub mesh_path_expire : ℕ
mesh_path_expire = 60000

abbrev pub min_gateway_redundancy : ℕ
min_gateway_redundancy = 2

-- The constructor `Routing`: the timers are made, not scheduled.
abbrev pub initial : Routing
initial = record {
  has_callback = false;
  sn = 0;
  is_root = false;
  is_gate = false;
  no_longer_a_gate_timer = false;
  housekeeping_timer = false;
  mesh_path_root_timer = false;
  mesh_paths = [];
}

-- `MeshPath{dst}` at the time `now`.
abbrev pub new_mesh_path : MacApi → ℕ → ℕ → MeshPath
new_mesh_path mac now dst = record {
  dst = dst;
  next_hop = mac.zero_mac;
  sn = 0;
  metric = 0;
  next_hop_metric = 0;
  hop_count = 0;
  exp_time = now;
  is_root = false;
  is_gate = false;
}

-- The loop of `meshPathExpire`.
unfoldable pub mesh_path_expire_all : ℕ → List (ℕ × MeshPath) → List (ℕ × MeshPath)
mesh_path_expire_all now = keep λ e. not (ltb (e.1.exp_time + mesh_path_expire) now)

-- `getMeshPaths`, from the link metrics that the metric manager reports.
unfoldable pub get_mesh_paths : ℕ → List (ℕ × ℕ) → Routing → List (ℕ × MeshPath)
get_mesh_paths now stas s =
    keep (λ e. not (expired now e.1) && contains e.1.next_hop stas) s.mesh_paths

-- `getMeshPath`: the entry of an address, which is made if there is none, and the new table.
abbrev pub path_or_new : MacApi → ℕ → ℕ → List (ℕ × MeshPath) → MeshPath
path_or_new mac now addr paths = elim (find addr paths) [
  | none ↦ new_mesh_path mac now addr
  | some p ↦ p
]

abbrev pub get_mesh_path : MacApi → ℕ → ℕ → List (ℕ × MeshPath) → List (ℕ × MeshPath)
get_mesh_path mac now addr paths = emplace addr (new_mesh_path mac now addr) paths

-- `txPannFrame`: nothing is sent without a callback.
unfoldable pub tx_pann_frame : Routing → ℕ → Pann → List Send
tx_pann_frame s da frame = if s.has_callback then (da, frame) ∷ [] else []

-- `uint32_t newMetric{origMetric + lastHopMetric}`, set to the maximum if the sum wraps.
unfoldable pub add_metric : ℕ → ℕ → ℕ
add_metric orig last =
    let new_metric = (orig + last) % 2 ^ 32 in
    if ltb new_metric orig then max_metric else new_metric

abbrev pub redundancy : Routing → ℕ
redundancy s = if s.is_gate then min_gateway_redundancy - 1 else min_gateway_redundancy

-- `std::pair`'s order of metric and address, and `std::sort` by it.
abbrev pub before : ℕ × ℕ → ℕ × ℕ → Bool
before (m, a) (n, b) = ltb m n || (m == n && leb a b)

abbrev pub insert_sorted : ℕ × ℕ → List (ℕ × ℕ) → List (ℕ × ℕ)
insert_sorted x [] = x ∷ []
insert_sorted x (y ∷ ys) = if before x y then x ∷ y ∷ ys else y ∷ insert_sorted x ys

abbrev pub sort : List (ℕ × ℕ) → List (ℕ × ℕ)
sort [] = []
sort (x ∷ xs) = insert_sorted x (sort xs)

-- The live gates, as pairs of metric and address.
unfoldable pub live_gates : ℕ → List (ℕ × MeshPath) → List (ℕ × ℕ)
live_gates now [] = []
live_gates now ((a, p) ∷ m) =
    let rest = live_gates now m in
    if not (expired now p) && p.is_gate then (p.metric, a) ∷ rest else rest

abbrev pub holds : ℕ → List (ℕ × ℕ) → Bool
holds mac [] = false
holds mac ((m, a) ∷ xs) = if a == mac then true else holds mac xs

unfoldable pub is_station_in_top_k_gates : ℕ → ℕ → Routing → Bool
unfolding live_gates
is_station_in_top_k_gates now mac s =
    holds mac (take (redundancy s) (sort (live_gates now s.mesh_paths)))
