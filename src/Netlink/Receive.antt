-- ===== src/Netlink/Receive.antt =====
-- rnl/NetlinkMessage.cpp: the messages that the kernel sends, parsed.
use fbmeshd.Prelude.{
  ℕ, ◌+◌, Bool, not, ◌&&◌, Option, none, some, List, [], ◌∷◌, ◌++◌, ◌==◌, if◌then◌else◌, nat_eq,
}
use fbmeshd.Prelude.Dict.{find, contains, is_some}
use fbmeshd.Prelude.Int.{ℤ, pos, negsuc}
use fbmeshd.Rnl.{Route}
use fbmeshd.Rnl.Events.{Link, Neighbor}
use fbmeshd.Rnl.Addresses.{IfAddress}
use fbmeshd.Netlink.{
  MessageType, get_all_addrs, add_addr, del_addr, other_type, NetlinkMessage, Socket, increment,
  set_return_status_value, process_ack,
}

-- The error numbers that the code names.
pub record Errno : Type 0 where
  pub eexist : ℕ
  pub esrch : ℕ
  pub einval : ℕ
  pub eaddrnotavail : ℕ

-- A message with its sequence number; an error has those of the request that it answers.
pub data Incoming : Type 0 where
  route_message : ℕ → Route → Incoming
  link_message : ℕ → Link → Incoming
  addr_message : ℕ → IfAddress → Incoming
  neigh_message : ℕ → Neighbor → Incoming
  error_message : ℕ → ℕ → ℤ → Incoming
  noop : Incoming
  done_message : ℕ → Incoming
  unknown_message : Incoming

pub data Callback : Type 0 where
  on_link : Link → Callback
  on_addr : IfAddress → Callback
  on_neighbor : Neighbor → Callback

-- The socket with what it keeps of the kernel's messages, which callbacks are set, and their calls.
pub record Receiver : Type 0 where
  pub socket : Socket
  pub route_cache : List Route
  pub link_cache : List Link
  pub address_cache : List IfAddress
  pub neighbor_cache : List Neighbor
  pub has_link_event_cb : Bool
  pub has_addr_event_cb : Bool
  pub has_neighbor_event_cb : Bool
  pub calls : List Callback

abbrev pub abs : ℤ → ℕ
abs (pos n) = n
abs (negsuc n) = n + 1

abbrev pub is_awaited : ℕ → Receiver → Bool
is_awaited seq r = contains seq r.socket.seq_no_map

abbrev pub call_if : Bool → Callback → Receiver → Receiver
call_if b c r = if b then record r { calls = r.calls ++ c ∷ [] } else r

unfoldable pub process_route : ℕ → Route → Receiver → Receiver
process_route seq route r =
    if is_awaited seq r then record r { route_cache = r.route_cache ++ route ∷ [] } else r

unfoldable pub process_link : ℕ → Link → Receiver → Receiver
process_link seq link r =
    if is_awaited seq r
    then record r { link_cache = r.link_cache ++ link ∷ [] }
    else call_if r.has_link_event_cb (on_link link) r

-- What an address does when a request of its number is there.
abbrev pub for_request : MessageType → IfAddress → Receiver → Receiver
for_request get_all_addrs addr r = record r { address_cache = r.address_cache ++ addr ∷ [] }
for_request add_addr addr r = call_if r.has_addr_event_cb (on_addr addr) r
for_request del_addr addr r = call_if r.has_addr_event_cb (on_addr addr) r
for_request other_type addr r = r

abbrev pub dispatch_addr : Option NetlinkMessage → IfAddress → Receiver → Receiver
dispatch_addr none addr r = call_if r.has_addr_event_cb (on_addr addr) r
dispatch_addr (some m) addr r = for_request m.message_type addr r

unfoldable pub process_addr : ℕ → IfAddress → Receiver → Receiver
process_addr seq addr r =
    if not (is_some addr.prefix) then r else dispatch_addr (find seq r.socket.seq_no_map) addr r

unfoldable pub process_neighbor : ℕ → Neighbor → Receiver → Receiver
process_neighbor seq neighbor r =
    if is_awaited seq r
    then record r { neighbor_cache = r.neighbor_cache ++ neighbor ∷ [] }
    else call_if r.has_neighbor_event_cb (on_neighbor neighbor) r

abbrev pub on_socket : (Socket → Socket) → Receiver → Receiver
on_socket f r = record r { socket = f r.socket }

-- The counters of errors and acknowledgements.
unfoldable pub count_ack : Errno → ℤ → Socket → Socket
count_ack e error s =
    let is_error = not (abs error == e.eexist) && not (abs error == 0) in
    record s {
      errors = if is_error then increment s.errors else s.errors;
      acks = if abs error == 0 then increment s.acks else s.acks;
    }

module _ (sendmsg : List (ℕ × NetlinkMessage) → Bool) where
  unfoldable pub process_done : ℕ → Socket → Socket
  unfolding set_return_status_value process_ack
  process_done seq s = set_return_status_value seq (pos 0) (process_ack sendmsg seq s)

module _ (sendmsg : List (ℕ × NetlinkMessage) → Bool) (e : Errno) where
  -- An error of another process, by its port, is passed over.
  unfoldable pub process_error : ℕ → ℕ → ℤ → Socket → Socket
  unfolding set_return_status_value count_ack process_ack
  process_error pid seq error s =
      if not (pid == s.pid)
      then s
      else process_ack sendmsg seq (count_ack e error (set_return_status_value seq error s))

  unfoldable pub process_one : Incoming → Receiver → Receiver
  unfolding process_route process_link process_addr process_neighbor process_error process_done
  process_one (route_message seq route) r = process_route seq route r
  process_one (link_message seq link) r = process_link seq link r
  process_one (addr_message seq addr) r = process_addr seq addr r
  process_one (neigh_message seq neighbor) r = process_neighbor seq neighbor r
  process_one (error_message pid seq error) r = on_socket (process_error pid seq error) r
  process_one noop r = r
  process_one (done_message seq) r = on_socket (process_done sendmsg seq) r
  process_one unknown_message r = on_socket (λ s. record s { errors = increment s.errors }) r

  unfoldable pub process_message : List Incoming → Receiver → Receiver
  unfolding process_one
  process_message [] r = r
  process_message (m ∷ messages) r = process_message messages (process_one m r)
