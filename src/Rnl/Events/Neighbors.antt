-- ===== src/Rnl/Events/Neighbors.antt =====
-- rnl/NetlinkSocket.cpp: the cached neighbours after an event.
use Prim.Native.String.{String}
use fbmeshd.Prelude.{
  ℕ, ◌≡◌, ◌∙◌, Bool, false, not, Option, none, some, arith, nat_eq, if◌then◌else◌,
}
use fbmeshd.Prelude.Dict.{find, find-insert, beq_refl, retained, Unique, find-keep}
use fbmeshd.Rnl.{str_eq, string_eq, pair_eq}
use fbmeshd.Rnl.Events.{
  LinkAttribute, Link, State, link_or_new, get_if_index, remove_neighbor_cache_entries,
  do_handle_link_event,
}

retained-not :
    {V : Type 0} (t : String × ℕ → Bool) (key : String × ℕ) (o : Option V)
    → retained (λ e. not (t e.0)) key o ≡ (if t key then none else o)
retained-not t key none = ground arith
retained-not t key (some v) = ground arith

find-remove_neighbor_cache_entries :
    (name : String) (s : State) (key : String × ℕ)
    → Unique s.neighbors
    → find key (remove_neighbor_cache_entries name s).neighbors
      ≡ (if str_eq key.0 name then none else find key s.neighbors)
unfolding remove_neighbor_cache_entries
find-remove_neighbor_cache_entries name s key u =
    find-keep (λ e. not (str_eq e.0.0 name)) key s.neighbors u
    ∙ retained-not (λ k. str_eq k.0 name) key (find key s.neighbors)

-- An event of a link that is down forgets exactly the neighbours of that interface, if no key stands
-- twice among the cached neighbours; and the index of the link is found by its name.
pub do_handle_link_event-down :
    (l : Link) (b : Bool) (s : State) (key : String × ℕ)
    → l.link_up ≡ false
    → Unique s.neighbors
    → (find key (do_handle_link_event l b s).0.neighbors
        ≡ (if str_eq key.0 l.link_name then none else find key s.neighbors))
      × (get_if_index l.link_name (do_handle_link_event l b s).0 ≡ some l.link_index)
unfolding do_handle_link_event get_if_index remove_neighbor_cache_entries
do_handle_link_event-down l b s key down u =
    let attr : LinkAttribute = record (link_or_new l.link_name s.links) {
      is_up = l.link_up;
      if_index = l.link_index;
    } in
    (
      ground (arith, find-remove_neighbor_cache_entries l.link_name s key u),
      ground (arith, find-insert l.link_name l.link_name attr s.links, beq_refl l.link_name),
    )
