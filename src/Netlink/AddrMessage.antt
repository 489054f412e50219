-- ===== src/Netlink/AddrMessage.antt =====
-- rnl/NetlinkRoute.cpp and rnl/NetlinkMessage.cpp: the messages that add and delete the address of an
-- interface, and the calls that send them.
use fbmeshd.Prelude.{
  ℕ, ◌+◌, ◌≤◌, Bool, true, false, not, Option, none, some, List, [], ◌∷◌, ◌++◌, arith, ltb,
  if◌then◌else◌, Bool-cases, inl, inr,
}
use fbmeshd.Rnl.{Prefix, IpApi}
use fbmeshd.Rnl.Kernel.{Rtnl}
use fbmeshd.Rnl.Addresses.{IfAddress, get_family}
use fbmeshd.Netlink.{Answer}
use fbmeshd.Netlink.Receive.{Errno}
use fbmeshd.Netlink.Requests.{
  ResultCode, success, fail, no_message_buffer, invalid_address_family, no_ip, is_success,
  get_return_status,
}
use fbmeshd.Netlink.Attributes.{Wire, max_nl_payload_size}
use fbmeshd.Netlink.NextHops.{Made}
use fbmeshd.Netlink.RouteMessage.{is_ip}

-- `RTM_NEWADDR`, `RTM_DELADDR` and `RTM_GETADDR`.
pub data AddrKind : Type 0 where
  new_addr : AddrKind
  del_addr : AddrKind
  get_addr : AddrKind

-- An attribute is its type and the address that it holds.
pub record AddrMessage : Type 0 where
  pub nlmsg_len : ℕ
  pub kind : AddrKind
  pub has_dump : Bool
  pub has_create : Bool
  pub ifa_family : ℕ
  pub ifa_prefixlen : ℕ
  pub ifa_flags : ℕ
  pub ifa_scope : ℕ
  pub ifa_index : ℕ
  pub attributes : List (ℕ × ℕ)

abbrev pub is_get : AddrKind → Bool
is_get get_addr = true
is_get _ = false

abbrev pub is_new_addr : AddrKind → Bool
is_new_addr new_addr = true
is_new_addr _ = false

abbrev pub or_zero : Option ℕ → ℕ
or_zero none = 0
or_zero (some n) = n

-- The types and the size of an address message in the kernel's headers.
pub record AddrWire : Type 0 where
  pub sizeof_ifaddrmsg : ℕ
  pub ifa_address : ℕ
  pub ifa_local : ℕ

module _ (ip : IpApi) (c : Rtnl) (w : Wire) (aw : AddrWire) where
  unfoldable pub init_addr : AddrKind → AddrMessage
  init_addr kind = record {
    nlmsg_len = w.nlmsg_length aw.sizeof_ifaddrmsg;
    kind = kind;
    has_dump = is_get kind;
    has_create = is_new_addr kind;
    ifa_family = 0;
    ifa_prefixlen = 0;
    ifa_flags = 0;
    ifa_scope = 0;
    ifa_index = 0;
    attributes = [];
  }

  -- The header of the message of an address.
  unfoldable pub fill_addr : AddrKind → IfAddress → ℕ → Prefix → AddrMessage
  unfolding init_addr
  fill_addr kind a family p = record (init_addr kind) {
    ifa_family = family;
    ifa_prefixlen = p.mask;
    ifa_flags = or_zero a.flags;
    ifa_scope = or_zero a.scope;
    ifa_index = a.if_index;
  }

  unfoldable pub add_address : ℕ → ℕ → AddrMessage → ResultCode × AddrMessage
  add_address type a m =
      let end = w.nlmsg_align m.nlmsg_len + w.rta_align (w.rta_length (w.byte_count a)) in
      if ltb max_nl_payload_size end
      then (no_message_buffer, m)
      else (success, record m { nlmsg_len = end; attributes = m.attributes ++ (type, a) ∷ [] })

  -- Both attributes of an address; the second only after the first.
  unfoldable pub add_addresses : ℕ → AddrMessage → ResultCode × AddrMessage
  unfolding add_address
  add_addresses a m =
      let (result, m1) = add_address aw.ifa_address a m in
      let rest = add_address aw.ifa_local a m1 in if is_success result then rest else (result, m1)

  -- With a family; `none` of the prefix is its absence.
  abbrev pub with_family :
      AddrKind → IfAddress → ℕ → Option Prefix → AddrMessage → ResultCode × AddrMessage
  with_family kind a family none m =
      (if not (is_ip c family) then invalid_address_family else no_ip, m)
  with_family kind a family (some p) m =
      let made = add_addresses p.addr (fill_addr kind a family p) in
      if not (is_ip c family) then (invalid_address_family, m) else made

  abbrev pub known_family : AddrKind → IfAddress → Option ℕ → AddrMessage → Made AddrMessage
  known_family kind a none m = none
  known_family kind a (some family) m = some (with_family kind a family a.prefix m)

  unfoldable pub add_or_delete_if_address : AddrKind → IfAddress → AddrMessage → Made AddrMessage
  unfolding get_family fill_addr add_addresses
  add_or_delete_if_address kind a m =
      let known = known_family kind a (get_family ip a) m in
      if is_get kind then some (fail, m) else known

  IsShortAddr : AddrMessage → Type 0
  IsShortAddr m = m.nlmsg_len ≤ max_nl_payload_size

  add_address-IsShortAddr :
      (type a : ℕ) (m : AddrMessage) → IsShortAddr m → IsShortAddr (add_address type a m).1
  unfolding add_address IsShortAddr
  add_address-IsShortAddr type a m h = ground (arith, h)

  -- Both attributes are added only if both fit, and the message stays within its buffer either way.
  add_addresses-IsShortAddr :
      (a : ℕ) (m : AddrMessage) → IsShortAddr m → IsShortAddr (add_addresses a m).1
  unfolding add_addresses
  add_addresses-IsShortAddr a m h =
      let first = add_address-IsShortAddr aw.ifa_address a m h in
      elim (Bool-cases (is_success (add_address aw.ifa_address a m).0)) [
        | inl x ↦ rw x (add_address-IsShortAddr aw.ifa_local a _ first)
        | inr x ↦ rw x first
      ]

module _ (ip : IpApi) (c : Rtnl) (w : Wire) (aw : AddrWire) (e : Errno) (new_message : AddrMessage)
    (answer : AddrMessage → Option Answer) where
  abbrev pub send_address : List ℕ → Made AddrMessage → Option ResultCode
  send_address ignored none = none
  send_address ignored (some (result, m)) =
      if is_success result then get_return_status ignored (answer m ∷ []) else some result

  unfoldable pub call_add_if_address : IfAddress → Option ResultCode
  unfolding get_return_status add_or_delete_if_address
  call_add_if_address a =
      send_address (e.eexist ∷ []) (add_or_delete_if_address ip c w aw new_addr a new_message)

  unfoldable pub call_delete_if_address : IfAddress → Option ResultCode
  unfolding get_return_status add_or_delete_if_address
  call_delete_if_address a =
      send_address (e.eaddrnotavail ∷ [])
        (add_or_delete_if_address ip c w aw del_addr a new_message)
