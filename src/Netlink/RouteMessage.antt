-- ===== src/Netlink/RouteMessage.antt =====
-- rnl/NetlinkRoute.cpp: the messages that add and delete a route.
use fbmeshd.Prelude.{
  ℕ, ◌+◌, ◌-◌, Bool, true, false, not, ◌||◌, Option, none, some, List, [], ◌∷◌, ◌++◌, ◌==◌, ltb,
  if◌then◌else◌,
}
use fbmeshd.Rnl.{Route}
use fbmeshd.Rnl.Kernel.{Rtnl}
use fbmeshd.Netlink.Requests.{
  ResultCode, success, no_message_buffer, invalid_address_family, no_label, is_success,
}
use fbmeshd.Netlink.Attributes.{Wire, max_nl_payload_size, Payload, address, number, Hop, Rta}
use fbmeshd.Netlink.NextHops.{Made, encode_label, add_multi_path_nexthop}

-- The type of a message: `RTM_NEWROUTE` or `RTM_DELROUTE`.
pub data Kind : Type 0 where
  new_route : Kind
  del_route : Kind

-- What an attribute of a message holds: as that of a hop, or the next hops.
pub data Content : Type 0 where
  plain : Payload → Content
  multipath : List Hop → Content

pub record Message : Type 0 where
  pub nlmsg_len : ℕ
  pub kind : Kind
  pub has_create : Bool
  pub has_replace : Bool
  pub rtm_family : ℕ
  pub rtm_dst_len : ℕ
  pub rtm_protocol : ℕ
  pub rtm_type : ℕ
  pub rtm_flags : ℕ
  pub attributes : List (ℕ × Content)

abbrev pub is_new : Kind → Bool
is_new new_route = true
is_new del_route = false

abbrev pub flags_or_zero : Option ℕ → ℕ
flags_or_zero none = 0
flags_or_zero (some f) = f

-- `init`, with the route flags 0 that every caller gives, for the two types.
unfoldable pub init : Wire → Rtnl → Kind → Route → Message
init w c kind route = record {
  nlmsg_len = w.nlmsg_length w.sizeof_rtmsg;
  kind = kind;
  has_create = is_new kind;
  has_replace = not (route.route_type == c.rtn_multicast);
  rtm_family = 0;
  rtm_dst_len = 0;
  rtm_protocol = route.protocol_id;
  rtm_type = route.route_type;
  rtm_flags = flags_or_zero route.flags;
  attributes = [];
}

unfoldable pub add_attributes : Wire → ℕ → Content → ℕ → Message → ResultCode × Message
add_attributes w type content len m =
    let end = w.nlmsg_align m.nlmsg_len + w.rta_align (w.rta_length len) in
    if ltb max_nl_payload_size end
    then (no_message_buffer, m)
    else (success, record m { nlmsg_len = end; attributes = m.attributes ++ (type, content) ∷ [] })

-- The payload of the attribute with the next hops, less the header of its own length.
abbrev pub add_payload : Wire → Message → Made Rta → Made Message
add_payload w m none = none
add_payload w m (some (result, rta)) =
    let len = rta.rta_len - w.rta_length 0 in
    if is_success result
    then some (add_attributes w w.rta_multipath (multipath rta.hops) len m)
    else some (result, m)

abbrev pub is_empty {ℓ} : {A : Type ℓ} → List A → Bool
is_empty [] = true
is_empty (x ∷ xs) = false

unfoldable pub add_next_hops : Wire → Rtnl → Route → Message → Made Message
unfolding add_multi_path_nexthop add_attributes
add_next_hops w c route m =
    if is_empty route.next_hops
    then some (success, m)
    else add_payload w m (add_multi_path_nexthop w c route)

-- A step that goes on after success.
abbrev pub and_then : ResultCode × Message → (Message → Made Message) → Made Message
and_then (result, m) f = let rest = f m in if is_success result then rest else some (result, m)

abbrev pub add_priority : Wire → Option ℕ → Message → ResultCode × Message
add_priority w none m = (success, m)
add_priority w (some p) m = add_attributes w w.rta_priority (plain (number p)) 4 m

abbrev pub is_ip : Rtnl → ℕ → Bool
is_ip c family = family == c.af_inet || family == c.af_inet6

module _ (w : Wire) (c : Rtnl) where
  abbrev pub for_prefix : Kind → Route → Message
  for_prefix kind route = record (init w c kind route) {
    rtm_family = route.family;
    rtm_dst_len = route.destination.mask;
  }

  -- The attribute of the destination.
  abbrev pub add_destination : Route → Message → ResultCode × Message
  add_destination route m =
      let a = route.destination.addr in
      add_attributes w w.rta_dst (plain (address a)) (w.byte_count a) m

  unfoldable pub add_route : Route → Message → Made Message
  unfolding init add_attributes add_next_hops
  add_route route m =
      if not (is_ip c route.family)
      then some (invalid_address_family, m)
      else and_then (add_destination route (for_prefix new_route route))
          λ m1. and_then (add_priority w route.priority m1) λ m2. add_next_hops w c route m2

  unfoldable pub delete_route : Route → Message → Made Message
  unfolding init add_attributes
  delete_route route m =
      if not (is_ip c route.family)
      then some (invalid_address_family, m)
      else some (add_destination route (for_prefix del_route route))

  abbrev pub label_size_bits : ℕ
  label_size_bits = 20

  abbrev pub for_label : Kind → Route → Message
  for_label kind route = record (init w c kind route) {
    rtm_family = c.af_mpls;
    rtm_dst_len = label_size_bits;
    rtm_flags = 0;
  }

  abbrev pub add_label : ℕ → Message → ResultCode × Message
  add_label l m = add_attributes w w.rta_dst (plain (number (encode_label w l true))) 4 m

  -- The label's attribute, and what follows it; without a label nothing does.
  abbrev pub with_label : Option ℕ → Message → (Message → Made Message) → Made Message
  with_label none m f = some (no_label, m)
  with_label (some l) m f = and_then (add_label l m) f

  unfoldable pub add_label_route : Route → Message → Made Message
  unfolding init add_attributes add_next_hops
  add_label_route route m =
      let m0 = for_label new_route route in
      let labelled = with_label route.mpls_label m0 (λ m1. add_next_hops w c route m1) in
      if not (route.family == c.af_mpls) then some (invalid_address_family, m0) else labelled

  -- Here the family of the route is not looked at.
  unfoldable pub delete_label_route : Route → Message → Made Message
  unfolding init add_attributes
  delete_label_route route m =
      with_label route.mpls_label (for_label del_route route) (λ m1. some (success, m1))
