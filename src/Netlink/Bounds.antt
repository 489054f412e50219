-- ===== src/Netlink/Bounds.antt =====
-- rnl/NetlinkMessage.cpp and rnl/NetlinkRoute.cpp: a message stays within its buffer.
use fbmeshd.Prelude.{ℕ, ◌≤◌, Bool, true, false, not, Option, none, some, arith, ◌==◌, if◌then◌else◌}
use fbmeshd.Rnl.{Route}
use fbmeshd.Rnl.Kernel.{Rtnl}
use fbmeshd.Netlink.Requests.{ResultCode, success, is_success}
use fbmeshd.Netlink.Attributes.{Wire, max_nl_payload_size, number, address, Rta}
use fbmeshd.Netlink.NextHops.{Made, encode_label, add_multi_path_nexthop}
use fbmeshd.Netlink.RouteMessage.{
  Content, multipath, plain, Message, new_route, del_route, init, add_attributes, add_payload,
  add_next_hops, and_then, add_priority, is_ip, for_prefix, add_destination, add_route,
  delete_route, for_label, add_label, with_label, is_empty, add_label_route, delete_label_route,
}

-- The message of a step is within its buffer.
abbrev pub IsWithin : Message → Type 0
IsWithin m = m.nlmsg_len ≤ max_nl_payload_size

abbrev pub IsMade : Made Message → Type 0
IsMade none = Unit
IsMade (some (result, m)) = IsWithin m

add_attributes-IsWithin :
    (w : Wire) (type : ℕ) (x : Content) (len : ℕ) (m : Message)
    → IsWithin m
    → IsWithin (add_attributes w type x len m).1
unfolding add_attributes
add_attributes-IsWithin w type x len m h = ground (arith, h)

if-IsMade : (b : Bool) (x y : Made Message) → IsMade x → IsMade y → IsMade (if b then x else y)
if-IsMade true x y h k = h
if-IsMade false x y h k = k

and_then-IsMade :
    (r : ResultCode × Message) (f : Message → Made Message)
    → IsWithin r.1
    → ((m : Message) → IsWithin m → IsMade (f m))
    → IsMade (and_then r f)
and_then-IsMade (result, m) f h g = if-IsMade (is_success result) (f m) (some (result, m)) (g m h) h

add_payload-IsMade :
    (w : Wire) (m : Message) (o : Made Rta) → IsWithin m → IsMade (add_payload w m o)
add_payload-IsMade w m none h = tt
add_payload-IsMade w m (some (result, rta)) h =
    if-IsMade (is_success result) _ (some (result, m))
      (add_attributes-IsWithin w w.rta_multipath (multipath rta.hops) _ m h) h

module _ (w : Wire) (c : Rtnl) (fits : w.nlmsg_length w.sizeof_rtmsg ≤ max_nl_payload_size) where
  next_hops-IsMade : (route : Route) (m : Message) → IsWithin m → IsMade (add_next_hops w c route m)
  unfolding add_next_hops
  next_hops-IsMade route m h =
      if-IsMade (is_empty route.next_hops) (some (success, m)) _ h
        (add_payload-IsMade w m (add_multi_path_nexthop w c route) h)

  priority-IsWithin : (o : Option ℕ) (m : Message) → IsWithin m → IsWithin (add_priority w o m).1
  priority-IsWithin none m h = h
  priority-IsWithin (some p) m h = add_attributes-IsWithin w w.rta_priority (plain (number p)) 4 m h

  with_label-IsMade :
      (o : Option ℕ) (m : Message) (f : Message → Made Message)
      → IsWithin m
      → ((t : Message) → IsWithin t → IsMade (f t))
      → IsMade (with_label w c o m f)
  with_label-IsMade none m f h g = h
  with_label-IsMade (some l) m f h g =
      and_then-IsMade (add_label w c l m) f
        (add_attributes-IsWithin w w.rta_dst (plain (number (encode_label w l true))) 4 m h) g

  -- Whatever the route is and whatever result a message for it ends with, the length of the message
  -- is at most that of its buffer, if that of the message before is, and the headers fit into it.
  pub route_messages-IsMade :
      (route : Route) (m : Message)
      → IsWithin m
      → IsMade (add_route w c route m)
        × IsMade (delete_route w c route m)
        × IsMade (add_label_route w c route m)
        × IsMade (delete_label_route w c route m)
  unfolding add_route delete_route add_label_route delete_label_route init
  route_messages-IsMade route m h =
      let dest = λ (t : Message).
        add_attributes-IsWithin w w.rta_dst (plain (address route.destination.addr))
          (w.byte_count route.destination.addr) t in
      let hops = next_hops-IsMade route in
      (
        if-IsMade (not (is_ip c route.family)) _ _ h (
            and_then-IsMade (add_destination w c route (for_prefix w c new_route route)) _
              (dest _ fits)
              (λ t k.
                and_then-IsMade (add_priority w route.priority t) _
                  (priority-IsWithin route.priority t k) hops)),
        if-IsMade (not (is_ip c route.family)) _ _ h (dest _ fits),
        if-IsMade (not (route.family == c.af_mpls)) _ _ fits
            (with_label-IsMade route.mpls_label (for_label w c new_route route) _ fits hops),
        with_label-IsMade route.mpls_label (for_label w c del_route route) _ fits (λ t k. k),
      )
