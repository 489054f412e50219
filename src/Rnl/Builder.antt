-- ===== src/Rnl/Builder.antt =====
-- rnl/NetlinkTypes.cpp: `RouteBuilder` and `NextHopBuilder`. A set of next hops takes a hop once.
use Prim.Native.String.{String}
use fbmeshd.Prelude.{ℕ, Bool, false, Option, none, some, List, [], ◌∷◌, ◌==◌, if◌then◌else◌}
use fbmeshd.Rnl.{Prefix, NextHop, Route, IpApi, has_next_hop}
use fbmeshd.Rnl.Kernel.{Rtnl}

pub record NextHopBuilder : Type 0 where
  pub if_index : Option ℕ
  pub gateway : Option ℕ
  pub weight : ℕ
  pub label_action : Option ℕ
  pub swap_label : Option ℕ
  pub push_labels : Option (List ℕ)

abbrev pub new_next_hop : NextHopBuilder
new_next_hop = record {
  if_index = none;
  gateway = none;
  weight = 0;
  label_action = none;
  swap_label = none;
  push_labels = none;
}

abbrev pub set_if_index : ℕ → NextHopBuilder → NextHopBuilder
set_if_index i b = record b { if_index = some i }

abbrev pub set_gateway : ℕ → NextHopBuilder → NextHopBuilder
set_gateway a b = record b { gateway = some a }

abbrev pub set_weight : ℕ → NextHopBuilder → NextHopBuilder
set_weight w b = record b { weight = w }

abbrev pub set_label_action : ℕ → NextHopBuilder → NextHopBuilder
set_label_action a b = record b { label_action = some a }

abbrev pub set_swap_label : ℕ → NextHopBuilder → NextHopBuilder
set_swap_label l b = record b { swap_label = some l }

abbrev pub set_push_labels : List ℕ → NextHopBuilder → NextHopBuilder
set_push_labels ls b = record b { push_labels = some ls }

-- `NextHopBuilder::getFamily`.
abbrev pub hop_family : IpApi → Rtnl → Option ℕ → ℕ
hop_family ip k none = k.af_unspec
hop_family ip k (some a) = ip.family a

unfoldable pub build_next_hop : IpApi → Rtnl → NextHopBuilder → NextHop
build_next_hop ip k b = record {
  if_index = b.if_index;
  gateway = b.gateway;
  weight = b.weight;
  label_action = b.label_action;
  swap_label = b.swap_label;
  push_labels = b.push_labels;
  family = hop_family ip k b.gateway;
}

pub record RouteBuilder : Type 0 where
  pub route_type : ℕ
  pub route_table : ℕ
  pub protocol_id : ℕ
  pub scope : ℕ
  pub family : ℕ
  pub is_valid : Bool
  pub flags : Option ℕ
  pub priority : Option ℕ
  pub tos : Option ℕ
  pub mtu : Option ℕ
  pub adv_mss : Option ℕ
  pub next_hops : List NextHop
  pub destination : Prefix
  pub route_if_index : Option ℕ
  pub route_if_name : Option String
  pub mpls_label : Option ℕ

abbrev pub default_protocol_id : ℕ
default_protocol_id = 99

-- `RouteBuilder{}`; `unset` is the prefix of a default-constructed network.
abbrev pub new_route : Rtnl → Prefix → RouteBuilder
new_route k unset = record {
  route_type = k.rtn_unicast;
  route_table = k.rt_table_main;
  protocol_id = default_protocol_id;
  scope = k.rt_scope_universe;
  family = k.af_unspec;
  is_valid = false;
  flags = none;
  priority = none;
  tos = none;
  mtu = none;
  adv_mss = none;
  next_hops = [];
  destination = unset;
  route_if_index = none;
  route_if_name = none;
  mpls_label = none;
}

abbrev pub set_destination : IpApi → Prefix → RouteBuilder → RouteBuilder
set_destination ip p b = record b { destination = p; family = ip.family p.addr }

abbrev pub set_mpls_label : Rtnl → ℕ → RouteBuilder → RouteBuilder
set_mpls_label k l b = record b { mpls_label = some l; family = k.af_mpls }

abbrev pub set_type : ℕ → RouteBuilder → RouteBuilder
set_type t b = record b { route_type = t }

abbrev pub set_route_table : ℕ → RouteBuilder → RouteBuilder
set_route_table t b = record b { route_table = t }

abbrev pub set_protocol_id : ℕ → RouteBuilder → RouteBuilder
set_protocol_id p b = record b { protocol_id = p }

abbrev pub set_scope : ℕ → RouteBuilder → RouteBuilder
set_scope s b = record b { scope = s }

abbrev pub set_flags : ℕ → RouteBuilder → RouteBuilder
set_flags f b = record b { flags = some f }

abbrev pub set_priority : ℕ → RouteBuilder → RouteBuilder
set_priority p b = record b { priority = some p }

abbrev pub set_tos : ℕ → RouteBuilder → RouteBuilder
set_tos t b = record b { tos = some t }

abbrev pub set_mtu : ℕ → RouteBuilder → RouteBuilder
set_mtu m b = record b { mtu = some m }

abbrev pub set_adv_mss : ℕ → RouteBuilder → RouteBuilder
set_adv_mss m b = record b { adv_mss = some m }

abbrev pub set_route_if_name : String → RouteBuilder → RouteBuilder
set_route_if_name n b = record b { route_if_name = some n }

abbrev pub set_route_if_index : ℕ → RouteBuilder → RouteBuilder
set_route_if_index i b = record b { route_if_index = some i }

abbrev pub set_valid : Bool → RouteBuilder → RouteBuilder
set_valid v b = record b { is_valid = v }

unfoldable pub add_next_hop : NextHop → RouteBuilder → RouteBuilder
add_next_hop h b = record b {
  next_hops = if has_next_hop h b.next_hops then b.next_hops else h ∷ b.next_hops;
}

-- `reset` leaves the destination, the family, the label and the interface index as they were.
unfoldable pub reset : Rtnl → RouteBuilder → RouteBuilder
reset k b = record b {
  route_type = k.rtn_unicast;
  route_table = k.rt_table_main;
  protocol_id = default_protocol_id;
  scope = k.rt_scope_universe;
  is_valid = false;
  flags = none;
  priority = none;
  tos = none;
  mtu = none;
  adv_mss = none;
  next_hops = [];
  route_if_name = none;
}

-- `Route(builder)`.
unfoldable pub build : RouteBuilder → Route
build b = record {
  destination = b.destination;
  mpls_label = b.mpls_label;
  next_hops = b.next_hops;
  route_type = b.route_type;
  route_table = b.route_table;
  protocol_id = b.protocol_id;
  scope = b.scope;
  is_valid = b.is_valid;
  flags = b.flags;
  priority = b.priority;
  tos = b.tos;
  mtu = b.mtu;
  adv_mss = b.adv_mss;
  route_if_name = b.route_if_name;
  family = b.family;
}

-- The interface of a multicast or link route; `none` is the exception.
unfoldable pub route_interface : RouteBuilder → Option (ℕ × String)
route_interface b = elim b.route_if_index [
  | none ↦ none
  | some i ↦ elim b.route_if_name [ none ↦ none | some n ↦ if i == 0 then none else some (i, n) ]
]

module _ (ip : IpApi) (k : Rtnl) (unset : Prefix) where
  unfoldable pub build_on_interface : ℕ → ℕ → RouteBuilder → ℕ × String → Route
  unfolding build add_next_hop build_next_hop
  build_on_interface scope type b (i, n) = build (
      add_next_hop (build_next_hop ip k (set_if_index i new_next_hop)) (
        set_route_if_name n (
          set_type type (
            set_scope scope (
              set_protocol_id b.protocol_id
                (set_destination ip b.destination (new_route k unset)))))))

  unfoldable pub build_multicast_route : RouteBuilder → Option Route
  unfolding route_interface build_on_interface
  build_multicast_route b = elim (route_interface b) [
    | none ↦ none
    | some x ↦ some (build_on_interface b.scope k.rtn_multicast b x)
  ]

  unfoldable pub build_link_route : RouteBuilder → Option Route
  unfolding route_interface build_on_interface
  build_link_route b = elim (route_interface b) [
    | none ↦ none
    | some x ↦ some (build_on_interface k.rt_scope_link k.rtn_unicast b x)
  ]
