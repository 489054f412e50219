-- ===== src/Netlink/NextHops.antt =====
-- rnl/NetlinkRoute.cpp: the next hops of a route in a message, with the code's own lengths.
use Prim.Native.Nat.{bit_or}
use fbmeshd.Prelude.{
  ℕ, ◌+◌, ◌-◌, ◌*◌, ◌/◌, ◌%◌, ◌^◌, Bool, true, false, ◌||◌, Option, none, some, List, [], ◌∷◌, ◌++◌,
  ◌==◌, ltb, if◌then◌else◌, length,
}
use fbmeshd.Rnl.{Route, NextHop}
use fbmeshd.Rnl.Kernel.{Rtnl}
use fbmeshd.Netlink.Requests.{
  ResultCode, success, no_message_buffer, no_label, no_nexthop_ip, no_loopback_index,
  unknown_label_action, is_success,
}
use fbmeshd.Netlink.Attributes.{
  Wire, max_labels, empty_payload, address, via_address, number, labels, Hop, Rta, with_len,
  add_sub_attributes, push, swap, php, pop_and_lookup,
}

-- The end of a step, by an exception or with a result and what it has made.
abbrev pub Made : Type 0 → Type 0
Made A = Option (ResultCode × A)

-- What follows a sub attribute: without space, the result of the code.
abbrev pub or_no_space : ℕ × Hop → Option (ℕ × Hop) → (ℕ × Hop → Made (ℕ × Hop)) → Made (ℕ × Hop)
or_no_space before none f = some (no_message_buffer, before)
or_no_space before (some r) f = f r

abbrev pub value_or_zero : Option ℕ → ℕ
value_or_zero none = 0
value_or_zero (some n) = n

abbrev pub new_hop : Wire → ℕ → Hop
new_hop w if_index = record {
  rtnh_len = w.sizeof_rtnexthop;
  rtnh_if_index = if_index;
  attributes = [];
}

abbrev pub start : Wire → ℕ → ℕ → ℕ × Hop
start w rta_len i = (rta_len, new_hop w i)

-- The end of a hop, with what its last attribute adds to the hop's length.
abbrev pub ended : Wire → ℕ → ℕ × Hop → Made (ℕ × Hop)
ended w len t = some (success, with_len (len + w.sizeof_rtattr) t)

abbrev pub add_gateway : Wire → ℕ → ℕ × Hop → Made (ℕ × Hop)
add_gateway w via r =
    let len = w.byte_count via in
    or_no_space r (add_sub_attributes w w.rta_gateway (address via) len r) (ended w len)

abbrev pub add_ip_gateway : Wire → Rtnl → Route → Option ℕ → ℕ × Hop → Made (ℕ × Hop)
add_ip_gateway w c route none r =
    if route.route_type == c.rtn_multicast || route.scope == c.rt_scope_link
    then some (success, r)
    else some (no_nexthop_ip, r)
add_ip_gateway w c route (some via) r = add_gateway w via r

unfoldable pub add_ip_nexthop : Wire → Rtnl → ℕ → NextHop → Route → Made (ℕ × Hop)
unfolding add_sub_attributes
add_ip_nexthop w c rta_len path route =
    add_ip_gateway w c route path.gateway (start w rta_len (value_or_zero path.if_index))

-- A label with its place in the stack; one of more than 20 bits is 0.
unfoldable pub encode_label : Wire → ℕ → Bool → ℕ
encode_label w label bos =
    let valid = if ltb 0xfffff label then 0 else label in
    let encoded = w.htonl (valid * 2 ^ 12) in
    if bos then bit_or encoded (w.htonl (2 ^ 8)) else encoded

-- A label read from the kernel.
abbrev pub decode_label : Wire → ℕ → ℕ
decode_label w entry = w.ntohl entry / 2 ^ 12

-- What a step of the code adds to a hop's length: what it has added to the attribute's.
abbrev pub with_grown : ℕ → ℕ × Hop → ℕ × Hop
with_grown before r = with_len (r.0 - before) r

abbrev pub via_len : Rtnl → ℕ → ℕ
via_len c family = if family == c.af_inet then 6 else 18

-- The attribute of the swap label, if there is one.
abbrev pub add_swap_label : Wire → Option ℕ → ℕ × Hop → Option (ℕ × Hop)
add_swap_label w none r = some r
add_swap_label w (some l) r = add_sub_attributes w w.rta_newdst (number (encode_label w l true)) 4 r

-- The attribute of the via, whose gateway has to be there.
abbrev pub add_via : Wire → Rtnl → ℕ → NextHop → Option ℕ → ℕ × Hop → Made (ℕ × Hop)
add_via w c rta_len path none r = none
add_via w c rta_len path (some via) r =
    let len = via_len c path.family in
    let grown = with_grown rta_len r in
    or_no_space grown (add_sub_attributes w w.rta_via (via_address path.family via) len grown)
      (ended w len)

abbrev pub swap_or_php_at : Wire → Rtnl → ℕ → NextHop → Option ℕ → Made (ℕ × Hop)
swap_or_php_at w c rta_len path none = none
swap_or_php_at w c rta_len path (some i) =
    let r = start w rta_len i in
    or_no_space r (add_swap_label w path.swap_label r) (add_via w c rta_len path path.gateway)

unfoldable pub add_swap_or_php_nexthop : Wire → Rtnl → ℕ → NextHop → Made (ℕ × Hop)
unfolding add_sub_attributes encode_label
add_swap_or_php_nexthop w c rta_len path = swap_or_php_at w c rta_len path path.if_index

abbrev pub pop_at : Wire → ℕ → Option ℕ → Made (ℕ × Hop)
pop_at w rta_len none = some (no_loopback_index, start w rta_len 0)
pop_at w rta_len (some i) =
    let r = start w rta_len i in
    or_no_space r (add_sub_attributes w w.rta_oif (number i) 4 r) (ended w 4)

unfoldable pub add_pop_nexthop : Wire → ℕ → NextHop → Made (ℕ × Hop)
unfolding add_sub_attributes
add_pop_nexthop w rta_len path = pop_at w rta_len path.if_index

-- The entries of the labels to push, the last with the bottom of stack.
abbrev pub encode_labels : Wire → List ℕ → List ℕ
encode_labels w [] = []
encode_labels w (l ∷ []) = encode_label w l true ∷ []
encode_labels w (l ∷ k ∷ ls) = encode_label w l false ∷ encode_labels w (k ∷ ls)

-- The gateway after the labels, which has to be there.
abbrev pub push_gateway : Wire → Option ℕ → ℕ × Hop → Made (ℕ × Hop)
push_gateway w none r = some (no_nexthop_ip, r)
push_gateway w (some via) r = add_gateway w via r

-- The type of the encapsulation, and the gateway.
abbrev pub push_type_at : Wire → ℕ → NextHop → ℕ × Hop → Made (ℕ × Hop)
push_type_at w rta_len path t =
    or_no_space t (add_sub_attributes w w.rta_encap_type (number w.lwtunnel_encap_mpls) 2 t)
      (λ u. push_gateway w path.gateway (with_grown rta_len u))

abbrev pub push_labels_at : Wire → ℕ → NextHop → Option (List ℕ) → ℕ × Hop → Made (ℕ × Hop)
push_labels_at w rta_len path none r = some (no_label, r)
push_labels_at w rta_len path (some ls) r =
    let entries = labels (encode_labels w ls) in
    let added =
      or_no_space r (add_sub_attributes w w.mpls_iptunnel_dst entries (length ls * 4) r)
        (push_type_at w rta_len path) in
    if ltb max_labels (length ls) then none else added

abbrev pub push_at : Wire → ℕ → NextHop → Option ℕ → Made (ℕ × Hop)
push_at w rta_len path none = none
push_at w rta_len path (some i) =
    let r = start w rta_len i in
    or_no_space r (add_sub_attributes w w.rta_encap empty_payload 0 r)
      (push_labels_at w rta_len path path.push_labels)

unfoldable pub add_label_nexthop : Wire → ℕ → NextHop → Made (ℕ × Hop)
unfolding add_sub_attributes encode_label
add_label_nexthop w rta_len path = push_at w rta_len path path.if_index

-- The next hop by its label action; that of none is an IP next hop.
abbrev pub by_action : Wire → Rtnl → ℕ → NextHop → Route → Option ℕ → Made (ℕ × Hop)
unfolding add_ip_nexthop add_swap_or_php_nexthop add_pop_nexthop add_label_nexthop
by_action w c rta_len path route none = add_ip_nexthop w c rta_len path route
by_action w c rta_len path route (some action) =
    if action == push
    then add_label_nexthop w rta_len path
    else if action == swap || action == php
    then add_swap_or_php_nexthop w c rta_len path
    else if action == pop_and_lookup
    then add_pop_nexthop w rta_len path
    else some (unknown_label_action, start w rta_len 0)

unfoldable pub add_nexthop : Wire → Rtnl → ℕ → NextHop → Route → Made (ℕ × Hop)
unfolding by_action
add_nexthop w c rta_len path route = by_action w c rta_len path route path.label_action

-- The attribute with one hop more.
abbrev pub with_hop : Rta → ℕ × Hop → Rta
with_hop rta (rta_len, h) = record { rta_len = rta_len; hops = rta.hops ++ h ∷ [] }

-- What follows the hop: nothing after one without success.
abbrev pub after_hop : Rta → Made (ℕ × Hop) → (Rta → Made Rta) → Made Rta
after_hop rta none f = none
after_hop rta (some (result, r)) f =
    let rest = f (with_hop rta r) in
    if is_success result then rest else some (result, with_hop rta r)

-- The space of a hop itself is not tested.
unfoldable pub add_hops : Wire → Rtnl → Route → List NextHop → Rta → Made Rta
unfolding add_nexthop
add_hops w c route [] rta = some (success, rta)
add_hops w c route (path ∷ paths) rta =
    let rta_len = (rta.rta_len + w.sizeof_rtnexthop) % 2 ^ 16 in
    after_hop rta (add_nexthop w c rta_len path route) (λ t. add_hops w c route paths t)

unfoldable pub add_multi_path_nexthop : Wire → Rtnl → Route → Made Rta
unfolding add_hops
add_multi_path_nexthop w c route =
    add_hops w c route route.next_hops (record { rta_len = w.rta_length 0; hops = [] })
