-- ===== src/Netlink/Attributes.antt =====
-- rnl/NetlinkMessage.cpp and rnl/NetlinkRoute.cpp: attributes, and the next hops of a route.
--
-- The bytes of an attribute are its type and its payload; the lengths are those of the code. The
-- macros and sizes of the kernel's headers are a parameter. The own length of an attribute is that of
-- its payload, and so is not kept. `none` is the end by an exception, or
-- by a failed `CHECK`.
use fbmeshd.Prelude.{ℕ, ◌+◌, ◌%◌, ◌^◌, Option, none, some, List, [], ◌∷◌, ◌++◌, ltb, if◌then◌else◌}

pub record Wire : Type 0 where
  pub rta_align : ℕ → ℕ
  pub rta_length : ℕ → ℕ
  pub nlmsg_align : ℕ → ℕ
  pub nlmsg_length : ℕ → ℕ
  pub sizeof_rtattr : ℕ
  pub sizeof_rtnexthop : ℕ
  pub sizeof_rtmsg : ℕ
  pub byte_count : ℕ → ℕ
  pub htonl : ℕ → ℕ
  pub ntohl : ℕ → ℕ
  pub rta_dst : ℕ
  pub rta_priority : ℕ
  pub rta_multipath : ℕ
  pub rta_gateway : ℕ
  pub rta_oif : ℕ
  pub rta_via : ℕ
  pub rta_newdst : ℕ
  pub rta_encap : ℕ
  pub rta_encap_type : ℕ
  pub mpls_iptunnel_dst : ℕ
  pub lwtunnel_encap_mpls : ℕ

abbrev pub max_nl_payload_size : ℕ
max_nl_payload_size = 4096

-- `MplsActionCode` (if/fbmeshd.thrift).
abbrev pub push : ℕ
push = 0

abbrev pub swap : ℕ
swap = 1

abbrev pub php : ℕ
php = 2

abbrev pub pop_and_lookup : ℕ
pop_and_lookup = 3

abbrev pub max_labels : ℕ
max_labels = 16

-- What an attribute holds; an address with its family for a via.
pub data Payload : Type 0 where
  empty_payload : Payload
  address : ℕ → Payload
  via_address : ℕ → ℕ → Payload
  number : ℕ → Payload
  labels : List ℕ → Payload

pub record Hop : Type 0 where
  pub rtnh_len : ℕ
  pub rtnh_if_index : ℕ
  pub attributes : List (ℕ × Payload)

-- The attribute RTA_MULTIPATH while its next hops are added.
pub record Rta : Type 0 where
  pub rta_len : ℕ
  pub hops : List Hop

-- A sub attribute of a hop in the attribute; `none` if there is no space for it. A length has
-- 16 bits.
unfoldable pub add_sub_attributes : Wire → ℕ → Payload → ℕ → ℕ × Hop → Option (ℕ × Hop)
add_sub_attributes w type payload len (rta_len, h) =
    let sub = w.rta_align (w.rta_length len) in
    if ltb max_nl_payload_size (w.rta_align rta_len + sub)
    then none
    else some (
      (w.nlmsg_align rta_len + sub) % 2 ^ 16,
      record h { attributes = h.attributes ++ (type, payload) ∷ [] },
    )

abbrev pub with_len : ℕ → ℕ × Hop → ℕ × Hop
with_len n (rta_len, h) = (rta_len, record h { rtnh_len = h.rtnh_len + n })
