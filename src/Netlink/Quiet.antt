-- ===== src/Netlink/Quiet.antt =====
-- rnl/NetlinkMessage.cpp: the messages that change no request.
use fbmeshd.Prelude.{
  ℕ, ◌≡◌, refl, sym, subst, Bool, Option, none, some, List, [], ◌∷◌, arith, nat_eq, Bool-cases, inl,
  inr,
}
use fbmeshd.Prelude.Int.{ℤ}
use fbmeshd.Prelude.Dict.{find, is_some}
use fbmeshd.Rnl.{Route}
use fbmeshd.Rnl.Events.{Link, Neighbor}
use fbmeshd.Rnl.Addresses.{IfAddress}
use fbmeshd.Netlink.{
  MessageType, get_all_addrs, add_addr, del_addr, other_type, NetlinkMessage, Socket, increment,
}
use fbmeshd.Netlink.Receive.{
  Receiver, Callback, on_addr, call_if, for_request, dispatch_addr, process_route, process_link,
  process_addr, process_neighbor, Errno, Incoming, route_message, link_message, addr_message,
  neigh_message, error_message, noop, done_message, unknown_message, process_error, process_done,
  process_one, process_message,
}

call_if-socket : (b : Bool) (c : Callback) (r : Receiver) → (call_if b c r).socket ≡ r.socket
call_if-socket b c r = ground arith

pub process_route-socket :
    (seq : ℕ) (x : Route) (r : Receiver) → (process_route seq x r).socket ≡ r.socket
unfolding process_route
process_route-socket seq x r = ground arith

pub process_link-socket :
    (seq : ℕ) (x : Link) (r : Receiver) → (process_link seq x r).socket ≡ r.socket
unfolding process_link
process_link-socket seq x r = ground arith

pub process_neighbor-socket :
    (seq : ℕ) (x : Neighbor) (r : Receiver) → (process_neighbor seq x r).socket ≡ r.socket
unfolding process_neighbor
process_neighbor-socket seq x r = ground arith

for_request-socket :
    (t : MessageType) (x : IfAddress) (r : Receiver) → (for_request t x r).socket ≡ r.socket
for_request-socket get_all_addrs x r = refl
for_request-socket add_addr x r = call_if-socket r.has_addr_event_cb (on_addr x) r
for_request-socket del_addr x r = call_if-socket r.has_addr_event_cb (on_addr x) r
for_request-socket other_type x r = refl

dispatch_addr-socket :
    (o : Option NetlinkMessage) (x : IfAddress) (r : Receiver)
    → (dispatch_addr o x r).socket ≡ r.socket
dispatch_addr-socket none x r = call_if-socket r.has_addr_event_cb (on_addr x) r
dispatch_addr-socket (some m) x r = for_request-socket m.message_type x r

pub process_addr-socket :
    (seq : ℕ) (x : IfAddress) (r : Receiver) → (process_addr seq x r).socket ≡ r.socket
unfolding process_addr
process_addr-socket seq x r =
    let dispatched = dispatch_addr-socket (find seq r.socket.seq_no_map) x r in
    elim (Bool-cases (is_some x.prefix)) [ inl e ↦ rw e dispatched | inr e ↦ rw e refl ]

-- What the handlers of errors, of ends and of unknown messages keep is kept by a whole message.
module _ (sendmsg : List (ℕ × NetlinkMessage) → Bool) (e : Errno) (P : Socket → Type 0)
    (on_error : (port seq : ℕ) (v : ℤ) (s : Socket)
      → P s
      → P (process_error sendmsg e port seq v s))
    (on_done : (seq : ℕ) (s : Socket) → P s → P (process_done sendmsg seq s))
    (on_unknown : (s : Socket) → P s → P (record s { errors = increment s.errors })) where
  process_one-keeps :
      (m : Incoming) (r : Receiver) → P r.socket → P (process_one sendmsg e m r).socket
  unfolding process_one
  process_one-keeps (route_message seq x) r h = subst P (sym (process_route-socket seq x r)) h
  process_one-keeps (link_message seq x) r h = subst P (sym (process_link-socket seq x r)) h
  process_one-keeps (addr_message seq x) r h = subst P (sym (process_addr-socket seq x r)) h
  process_one-keeps (neigh_message seq x) r h = subst P (sym (process_neighbor-socket seq x r)) h
  process_one-keeps (error_message port seq v) r h = on_error port seq v r.socket h
  process_one-keeps noop r h = h
  process_one-keeps (done_message seq) r h = on_done seq r.socket h
  process_one-keeps unknown_message r h = on_unknown r.socket h

  pub process_message-keeps :
      (ms : List Incoming) (r : Receiver) → P r.socket → P (process_message sendmsg e ms r).socket
  unfolding process_message
  process_message-keeps [] r h = h
  process_message-keeps (m ∷ ms) r h =
      process_message-keeps ms (process_one sendmsg e m r) (process_one-keeps m r h)
