-- ===== src/Rnl.antt =====
-- rnl/NetlinkTypes.cpp: routes and next hops, and when two are equal. The children have
-- rnl/NetlinkSocket.cpp.
--
-- An IP address is a number that stands for its family and its bits; what folly says of it is
-- a parameter. Sets of next hops are lists.
pub mod Kernel
pub mod Builder
pub mod Addresses
pub mod Socket
pub mod Unicast
pub mod Sync
pub mod Mpls
pub mod Multicast
pub mod Link
pub mod Cache
pub mod Events
pub mod Requests
mod Examples
use Prim.Native.String.{String}
pub use text.Mathlib.Text.{◌==◌ as str_eq}
use text.Mathlib.TextEquality.{eq_iff}
use fbmeshd.Prelude.{
  ℕ, zero, suc, ◌+◌, ◌≡◌, ◌↔◌, refl, Bool, true, false, not, ◌&&◌, ◌||◌, Option, none, some, List,
  [], ◌∷◌, arith, ◌==◌, ==_iff, if◌then◌else◌, length, Eq, nat_eq, Bool-cases, inl, inr,
}

pub record IpApi : Type 0 where
  pub is_multicast : ℕ → Bool
  pub is_link_local : ℕ → Bool
  pub is_v6 : ℕ → Bool
  pub family : ℕ → ℕ

pub record Prefix : Type 0 where
  pub addr : ℕ
  pub mask : ℕ

abbrev pub same_prefix : Prefix → Prefix → Bool
same_prefix a b = a.addr == b.addr && a.mask == b.mask

pub same_prefix_iff : (a b : Prefix) → (same_prefix a b ≡ true) ↔ (a ≡ b)
same_prefix_iff a b = ground arith

instance abbrev pub prefix_eq : Eq Prefix
prefix_eq = record { beq = same_prefix; beq_iff = same_prefix_iff }

-- The key of a multicast or link route.
abbrev pub same_key : Prefix × String → Prefix × String → Bool
same_key a b = same_prefix a.0 b.0 && str_eq a.1 b.1

pub same_key_iff : (a b : Prefix × String) → (same_key a b ≡ true) ↔ (a ≡ b)
same_key_iff a b = ground (arith, same_prefix_iff a.0 b.0, eq_iff a.1 b.1)

instance abbrev pub key_eq : Eq (Prefix × String)
key_eq = record { beq = same_key; beq_iff = same_key_iff }

instance abbrev pub string_eq : Eq String
string_eq = record { beq = str_eq; beq_iff = eq_iff }

-- The key of a neighbour: an interface and an address.
abbrev pub same_pair : String × ℕ → String × ℕ → Bool
same_pair a b = str_eq a.0 b.0 && a.1 == b.1

pub same_pair_iff : (a b : String × ℕ) → (same_pair a b ≡ true) ↔ (a ≡ b)
same_pair_iff a b = ground (arith, eq_iff a.0 b.0)

instance abbrev pub pair_eq : Eq (String × ℕ)
pair_eq = record { beq = same_pair; beq_iff = same_pair_iff }

pub record NextHop : Type 0 where
  pub if_index : Option ℕ
  pub gateway : Option ℕ
  pub weight : ℕ
  pub label_action : Option ℕ
  pub swap_label : Option ℕ
  pub push_labels : Option (List ℕ)
  pub family : ℕ

pub record Route : Type 0 where
  pub destination : Prefix
  pub mpls_label : Option ℕ
  pub next_hops : List NextHop
  pub route_type : ℕ
  pub route_table : ℕ
  pub protocol_id : ℕ
  pub scope : ℕ
  pub is_valid : Bool
  pub flags : Option ℕ
  pub priority : Option ℕ
  pub tos : Option ℕ
  pub mtu : Option ℕ
  pub adv_mss : Option ℕ
  pub route_if_name : Option String
  pub family : ℕ

abbrev pub same_bool : Bool → Bool → Bool
same_bool true b = b
same_bool false b = not b

-- `==` of `folly::Optional`.
abbrev pub same_option {ℓ} : {A : Type ℓ} → (A → A → Bool) → Option A → Option A → Bool
same_option eq none none = true
same_option eq none (some b) = false
same_option eq (some a) none = false
same_option eq (some a) (some b) = eq a b

abbrev pub same_list : List ℕ → List ℕ → Bool
same_list [] [] = true
same_list [] (y ∷ ys) = false
same_list (x ∷ xs) [] = false
same_list (x ∷ xs) (y ∷ ys) = x == y && same_list xs ys

unfoldable pub next_hop_eq : NextHop → NextHop → Bool
next_hop_eq a b =
    same_option ◌==◌ a.if_index b.if_index
    && (same_option ◌==◌ a.gateway b.gateway
        && (a.weight == b.weight
            && (same_option ◌==◌ a.label_action b.label_action
                && (same_option ◌==◌ a.swap_label b.swap_label
                    && (same_option same_list a.push_labels b.push_labels
                        && a.family == b.family)))))

-- `count` of the set of next hops, and the loop that looks each up in the other set.
unfoldable pub has_next_hop : NextHop → List NextHop → Bool
has_next_hop a [] = false
has_next_hop a (b ∷ bs) = next_hop_eq a b || has_next_hop a bs

unfoldable pub all_in : List NextHop → List NextHop → Bool
all_in [] bs = true
all_in (a ∷ as') bs = has_next_hop a bs && all_in as' bs

unfoldable pub same_fields : Route → Route → Bool
same_fields a b =
    same_prefix a.destination b.destination
    && (same_option ◌==◌ a.mpls_label b.mpls_label
        && (length a.next_hops == length b.next_hops
            && (a.route_type == b.route_type
                && (a.route_table == b.route_table
                    && (a.protocol_id == b.protocol_id
                        && (a.scope == b.scope
                            && (same_bool a.is_valid b.is_valid
                                && (same_option ◌==◌ a.flags b.flags
                                    && (same_option ◌==◌ a.priority b.priority
                                        && (same_option ◌==◌ a.tos b.tos
                                            && (same_option ◌==◌ a.mtu b.mtu
                                                && (same_option ◌==◌ a.adv_mss b.adv_mss
                                                    && (same_option str_eq a.route_if_name
                                                          b.route_if_name
                                                        && a.family == b.family)))))))))))))

unfoldable pub route_eq : Route → Route → Bool
unfolding same_fields all_in
route_eq a b = if same_fields a b then all_in a.next_hops b.next_hops else false
