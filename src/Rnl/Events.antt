-- ===== src/Rnl/Events.antt =====
-- rnl/NetlinkSocket.cpp: what the events of links, addresses and neighbours do to the caches of
-- links and neighbours, and which of them are passed to the handler. An address event carries a
-- prefix, and an unset address family or state is not modelled.
pub mod Neighbors
use Prim.Native.String.{String}
use fbmeshd.Prelude.{
  ℕ, ◌≡◌, refl, ◌∙◌, Bool, true, false, not, ◌&&◌, ◌||◌, Option, none, some, List, [], ◌∷◌, arith,
  nat_eq, ◌==◌, if◌then◌else◌, keep,
}
use fbmeshd.Prelude.Dict.{
  find, erase, emplace, insert, find-insert, find-erase, find-emplace-erase, beq_refl, retained,
  Unique, find-keep,
}
use fbmeshd.Rnl.{Prefix, prefix_eq, key_eq, same_prefix, str_eq, string_eq, pair_eq}

-- `LinkAttribute` (rnl/NetlinkTypes.h).
pub record LinkAttribute : Type 0 where
  pub is_up : Bool
  pub if_index : ℕ
  pub networks : List Prefix

pub record Link : Type 0 where
  pub link_name : String
  pub link_index : ℕ
  pub link_up : Bool
  pub is_loopback : Bool

pub record IfAddress : Type 0 where
  pub addr_index : ℕ
  pub prefix : Prefix
  pub addr_valid : Bool

pub record Neighbor : Type 0 where
  pub neighbor_index : ℕ
  pub destination : ℕ
  pub is_reachable : Bool

-- `eventFlags_`, one for each type of event.
pub record EventFlags : Type 0 where
  pub link_event : Bool
  pub neigh_event : Bool
  pub addr_event : Bool
  pub route_event : Bool

pub record State : Type 0 where
  pub links : List (String × LinkAttribute)
  pub loopback_if_index : Option ℕ
  pub neighbors : List ((String × ℕ) × Neighbor)
  pub event_flags : EventFlags
  pub has_handler : Bool

-- `NetlinkEventType`, with the sentinel for every value from it on.
pub data EventType : Type 0 where
  link_type : EventType
  neigh_type : EventType
  addr_type : EventType
  route_type : EventType
  max_event_type : EventType

abbrev pub with_flag : EventType → Bool → EventFlags → EventFlags
with_flag link_type b f = record f { link_event = b }
with_flag neigh_type b f = record f { neigh_event = b }
with_flag addr_type b f = record f { addr_event = b }
with_flag route_type b f = record f { route_event = b }
with_flag max_event_type b f = f

unfoldable pub subscribe_event : EventType → State → State
subscribe_event e s = record s { event_flags = with_flag e true s.event_flags }

unfoldable pub unsubscribe_event : EventType → State → State
unsubscribe_event e s = record s { event_flags = with_flag e false s.event_flags }

abbrev pub all_flags : Bool → EventFlags
all_flags b = record { link_event = b; neigh_event = b; addr_event = b; route_event = b }

unfoldable pub subscribe_all_events : State → State
subscribe_all_events s = record s { event_flags = all_flags true }

unfoldable pub unsubscribe_all_events : State → State
unsubscribe_all_events s = record s { event_flags = all_flags false }

unfoldable pub set_event_handler : Bool → State → State
set_event_handler present s = record s { has_handler = present }

unfoldable pub get_loopback_if_index : State → Option ℕ
get_loopback_if_index s = s.loopback_if_index

-- The calls of `handler_->handleEvent`.
pub data Notice : Type 0 where
  link_notice : String → Link → Notice
  addr_notice : String → IfAddress → Notice
  neigh_notice : String → Neighbor → Notice

-- An event that a subscribed handler is told of.
abbrev pub notify : State → Bool → Bool → Notice → List Notice
notify s run_handler flag n = if s.has_handler && run_handler && flag then n ∷ [] else []

-- The loop of `getIfName`: the last link of the index, or no name.
abbrev pub if_name_from : ℕ → String → List (String × LinkAttribute) → String
if_name_from if_index name [] = name
if_name_from if_index name ((n, a) ∷ links) =
    if_name_from if_index (if a.if_index == if_index then n else name) links

unfoldable pub get_if_name : ℕ → State → String
get_if_name if_index s = if_name_from if_index "" s.links

-- `getIfIndex`, with `none` for -1.
unfoldable pub get_if_index : String → State → Option ℕ
get_if_index if_name s = elim (find if_name s.links) [ none ↦ none | some a ↦ some a.if_index ]

-- `links_[ifName]`.
abbrev pub link_or_new : String → List (String × LinkAttribute) → LinkAttribute
link_or_new if_name links = elim (find if_name links) [
  | none ↦ record { is_up = false; if_index = 0; networks = [] }
  | some a ↦ a
]

unfoldable pub remove_neighbor_cache_entries : String → State → State
remove_neighbor_cache_entries if_name s = record s {
  neighbors = keep (λ e. not (str_eq e.0.0 if_name)) s.neighbors;
}

unfoldable pub do_handle_link_event : Link → Bool → State → State × List Notice
unfolding remove_neighbor_cache_entries
do_handle_link_event link run_handler s =
    let attr = record (link_or_new link.link_name s.links) {
      is_up = link.link_up;
      if_index = link.link_index;
    } in
    let s' = record s {
      links = insert link.link_name attr s.links;
      loopback_if_index = if link.is_loopback then some link.link_index else s.loopback_if_index;
    } in
    let cleared = remove_neighbor_cache_entries link.link_name s' in
    (
      if link.link_up then s' else cleared,
      notify s run_handler s.event_flags.link_event (link_notice link.link_name link),
    )

abbrev pub has_network : Prefix → List Prefix → Bool
has_network p [] = false
has_network p (q ∷ qs) = same_prefix q p || has_network p qs

abbrev pub without_network : Prefix → List Prefix → List Prefix
without_network p qs = keep (λ q. not (same_prefix q p)) qs

abbrev pub add_network : Prefix → LinkAttribute → LinkAttribute
add_network p a = if has_network p a.networks then a else record a { networks = p ∷ a.networks }

-- The networks of an interface that is known lose one.
abbrev pub drop_network :
    String → Prefix → List (String × LinkAttribute) → List (String × LinkAttribute)
drop_network if_name p links = elim (find if_name links) [
  | none ↦ links
  | some a ↦ insert if_name (record a { networks = without_network p a.networks }) links
]

unfoldable pub do_handle_addr_event : IfAddress → Bool → State → State × List Notice
unfolding get_if_name
do_handle_addr_event if_addr run_handler s =
    let if_name = get_if_name if_addr.addr_index s in
    let added = insert if_name (add_network if_addr.prefix (link_or_new if_name s.links)) s.links in
    let dropped = drop_network if_name if_addr.prefix s.links in
    (
      record s { links = if if_addr.addr_valid then added else dropped },
      notify s run_handler s.event_flags.addr_event (addr_notice if_name if_addr),
    )

unfoldable pub do_handle_neighbor_event : Neighbor → Bool → State → State × List Notice
unfolding get_if_name
do_handle_neighbor_event n run_handler s =
    let if_name = get_if_name n.neighbor_index s in
    let key : String × ℕ = (if_name, n.destination) in
    let erased = erase key s.neighbors in
    (
      record s { neighbors = if n.is_reachable then emplace key n erased else erased },
      notify s run_handler s.event_flags.neigh_event (neigh_notice if_name n),
    )

-- The kernel's links and addresses, read one after the other with no notice to the handler.
unfoldable pub read_links : List Link → State → State
unfolding do_handle_link_event
read_links [] s = s
read_links (l ∷ ls) s = read_links ls (do_handle_link_event l false s).0

unfoldable pub read_addresses : List IfAddress → State → State
unfolding do_handle_addr_event
read_addresses [] s = s
read_addresses (a ∷ addrs) s = read_addresses addrs (do_handle_addr_event a false s).0

unfoldable pub read_neighbors : List Neighbor → State → State
unfolding do_handle_neighbor_event
read_neighbors [] s = s
read_neighbors (n ∷ ns) s = read_neighbors ns (do_handle_neighbor_event n false s).0

unfoldable pub get_all_links : List Link → List IfAddress → State → State
unfolding read_links read_addresses
get_all_links ls addrs s = read_addresses addrs (read_links ls s)

unfoldable pub get_all_reachable_neighbors :
    List Link → List IfAddress → List Neighbor → State → State
unfolding get_all_links read_neighbors
get_all_reachable_neighbors ls addrs ns s = read_neighbors ns (get_all_links ls addrs s)
