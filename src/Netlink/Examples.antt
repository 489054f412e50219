-- ===== src/Netlink/Examples.antt =====
-- rnl/NetlinkMessage.cpp and rnl/NetlinkRoute.cpp: requests and a route on a concrete socket.
use fbmeshd.Prelude.{
  ℕ, ◌+◌, ◌*◌, ◌/◌, ◌%◌, ◌^◌, ◌≡◌, ◌↔◌, refl, Bool, true, false, Option, none, some, List, [], ◌∷◌,
  ◌++◌, arith, ltb, if◌then◌else◌, length, All, nat_eq,
}
use fbmeshd.Prelude.Int.{pos, negsuc}
use fbmeshd.Rnl.{NextHop, Route, prefix_eq}
use fbmeshd.Rnl.Kernel.{Rtnl}
use fbmeshd.Netlink.{other_type, NetlinkMessage, Answer, status, Socket, new_socket, batch}
use fbmeshd.Netlink.Receive.{Errno, error_message, done_message, Receiver}
use fbmeshd.Netlink.Requests.{success, get_return_status}
use fbmeshd.Netlink.Attributes.{Wire}
use fbmeshd.Netlink.NextHops.{encode_label, decode_label, add_multi_path_nexthop}
use fbmeshd.Netlink.RouteMessage.{
  Message, new_route, add_route, delete_route, add_label_route, delete_label_route,
}
use fbmeshd.Netlink.Order.{messages}
use fbmeshd.Netlink.Steps.{IsWatched}
use fbmeshd.Netlink.Reached.{
  IsShort, Event, adds, receives, serve, starts, next, Reach-IsRunning, timeouts, timeouts_drain,
}
use fbmeshd.Netlink.Places.{requests_of, filed_of}
use fbmeshd.Netlink.Answers.{serve_all, asked}
use fbmeshd.Netlink.Whole.{statuses_of, serve_all-statuses_of}
use fbmeshd.Netlink.Calls.{IsFine, get_return_status_iff}
use fbmeshd.Netlink.Bounds.{IsMade, route_messages-IsMade}
use fbmeshd.Netlink.Layout.{IsWire}
use fbmeshd.Netlink.Space.{HasHops, add_multi_path_nexthop-HasHops}
use fbmeshd.Netlink.Labels.{IsByteOrder, decode_label-encode_label}

abbrev sends : List (ℕ × NetlinkMessage) → Bool
sends iov = true

abbrev request : ℕ → NetlinkMessage
request p = record { promise = p; message_type = other_type }

abbrev errno : Errno
errno = record { eexist = 17; esrch = 3; einval = 22; eaddrnotavail = 99 }

-- A socket with a request in the queue, waiting for a timer.
abbrev waiting : Socket
waiting = record (new_socket 0 7) { msg_queue = request 1 ∷ []; is_timer_scheduled = true }

timeouts_drain_example :
    ((timeouts sends 1 waiting).msg_queue ≡ [])
    × (messages (timeouts sends 1 waiting) ≡ messages waiting ++ waiting.msg_queue)
timeouts_drain_example = timeouts_drain sends 1 waiting (omega arith)

abbrev fresh : Receiver
fresh = record {
  socket = new_socket 0 7;
  route_cache = [];
  link_cache = [];
  address_cache = [];
  neighbor_cache = [];
  has_link_event_cb = true;
  has_addr_event_cb = true;
  has_neighbor_event_cb = true;
  calls = [];
}

-- Two requests, the refusal of the first, and the end of the second.
abbrev events : List Event
events =
    adds (request 1 ∷ request 2 ∷ [])
    ∷ receives (error_message 7 1 (negsuc 21) ∷ done_message 2 ∷ [])
    ∷ []

serve_all-statuses_of_example :
    requests_of 1 (serve_all sends errno events fresh).socket.msg_queue
      + filed_of 1 (serve_all sends errno events fresh).socket.seq_no_map
      + statuses_of 1 (serve_all sends errno events fresh).socket.answers
    ≡ requests_of 1 (asked events)
serve_all-statuses_of_example =
    serve_all-statuses_of sends errno 0 7 1 events fresh refl (omega arith)

abbrev served : Receiver
served = serve sends errno (adds (request 1 ∷ [])) fresh

Reach-IsRunning_example :
    IsWatched served.socket
    × (served.socket.sent ≡ batch 0 (messages served.socket))
    × (served.socket.sequence_number ≡ length served.socket.sent % 2 ^ 32)
    × IsShort served.socket
Reach-IsRunning_example =
    Reach-IsRunning sends errno served (next (starts 0 7 refl) (adds (request 1 ∷ [])))

get_return_status_iff_example :
    (get_return_status (17 ∷ []) (some (status (negsuc 16)) ∷ []) ≡ some success)
    ↔ All (IsFine (17 ∷ [])) (some (status (negsuc 16)) ∷ [])
get_return_status_iff_example = get_return_status_iff (17 ∷ []) (some (status (negsuc 16)) ∷ [])

-- The sizes and macros of a host whose byte order is that of the network.
abbrev wire : Wire
wire = record {
  rta_align = λ n. (n + 3) / 4 * 4;
  rta_length = λ n. 4 + n;
  nlmsg_align = λ n. (n + 3) / 4 * 4;
  nlmsg_length = λ n. 16 + n;
  sizeof_rtattr = 4;
  sizeof_rtnexthop = 8;
  sizeof_rtmsg = 12;
  byte_count = λ a. if ltb a 1000 then 4 else 16;
  htonl = λ n. n;
  ntohl = λ n. n;
  rta_dst = 1;
  rta_priority = 6;
  rta_multipath = 9;
  rta_gateway = 5;
  rta_oif = 4;
  rta_via = 18;
  rta_newdst = 19;
  rta_encap = 22;
  rta_encap_type = 21;
  mpls_iptunnel_dst = 1;
  lwtunnel_encap_mpls = 1;
}

wire-IsWire : IsWire wire
wire-IsWire = record {
  aligns = λ n. refl;
  aligns_message = λ n. refl;
  lengths = λ n. refl;
  of_attribute = refl;
  of_hop = refl;
  of_address = λ a. ground arith;
}

abbrev rtnl : Rtnl
rtnl = record {
  rt_table_main = 254;
  is_cloned = λ f. false;
  rt_scope_universe = 0;
  rt_scope_link = 253;
  rt_scope_nowhere = 255;
  rtn_unicast = 1;
  rtn_blackhole = 6;
  rtn_multicast = 5;
  af_unspec = 0;
  af_inet = 2;
  af_inet6 = 10;
  af_mpls = 28;
}

abbrev hop : Option ℕ → Option (List ℕ) → NextHop
hop action push_labels = record {
  if_index = some 4;
  gateway = some 9;
  weight = 0;
  label_action = action;
  swap_label = none;
  push_labels = push_labels;
  family = 2;
}

abbrev route : ℕ → Route
route family = record {
  destination = record { addr = 40; mask = 24 };
  mpls_label = none;
  next_hops = hop none none ∷ hop (some 0) (some (5 ∷ 6 ∷ [])) ∷ [];
  route_type = 1;
  route_table = 254;
  protocol_id = 98;
  scope = 0;
  is_valid = true;
  flags = none;
  priority = some 10;
  tos = none;
  mtu = none;
  adv_mss = none;
  route_if_name = none;
  family = family;
}

abbrev blank : Message
blank = record {
  nlmsg_len = 0;
  kind = new_route;
  has_create = false;
  has_replace = false;
  rtm_family = 0;
  rtm_dst_len = 0;
  rtm_protocol = 0;
  rtm_type = 0;
  rtm_flags = 0;
  attributes = [];
}

add_multi_path_nexthop-HasHops_example :
    HasHops wire wire-IsWire 2 (add_multi_path_nexthop wire rtnl (route 2))
add_multi_path_nexthop-HasHops_example =
    add_multi_path_nexthop-HasHops wire wire-IsWire rtnl (route 2)

route_messages-IsMade_example :
    IsMade (add_route wire rtnl (route 2) blank)
    × IsMade (delete_route wire rtnl (route 2) blank)
    × IsMade (add_label_route wire rtnl (route 2) blank)
    × IsMade (delete_label_route wire rtnl (route 2) blank)
route_messages-IsMade_example =
    route_messages-IsMade wire rtnl (omega arith) (route 2) blank (omega arith)

abbrev acknowledged : Message → Option Answer
acknowledged m = some (status (pos 0))

abbrev two : List Route
two = route 3 ∷ route 2 ∷ []

order : IsByteOrder wire
order = record { reads_back = λ n h. refl; ors = λ a b. refl }

decode_label-encode_label_example :
    decode_label wire (encode_label wire 100 true) ≡ (if ltb 0xfffff 100 then 0 else 100)
decode_label-encode_label_example = decode_label-encode_label wire order 100 true
