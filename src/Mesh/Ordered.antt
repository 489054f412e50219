-- ===== src/Mesh/Ordered.antt =====
-- 802.11s/Nl80211Handler.cpp: the map of the interfaces that the constructor makes is in order.
use fbmeshd.Prelude.{
  ℕ, ◌≡◌, ◌≤◌, ◌<◌, refl, none, List, [], ◌∷◌, arith, ltb, All, Bool-cases, inl, inr, nat_eq,
}
use fbmeshd.Prelude.Dict.{find, Unique}
use fbmeshd.Mesh.Handler.{NetInterface}
use fbmeshd.Mesh.Apply.{emplace_ordered, emplace_all}

abbrev pub Above : ℕ → List (ℕ × NetInterface) → Type 0
Above lo [] = Unit
Above lo ((k, n) ∷ m) = (lo < k) × Above k m

abbrev pub IsAscending : List (ℕ × NetInterface) → Type 0
IsAscending [] = Unit
IsAscending ((k, n) ∷ m) = Above k m

emplace_ordered-Above :
    (lo key : ℕ) (n : NetInterface) (m : List (ℕ × NetInterface))
    → lo < key
    → Above lo m
    → Above lo (emplace_ordered key n m)
unfolding emplace_ordered
emplace_ordered-Above lo key n [] h a = (h, tt)
emplace_ordered-Above lo key n ((k, x) ∷ m) h a = ground (arith, emplace_ordered-Above k key n m)

emplace_ordered-IsAscending :
    (key : ℕ) (n : NetInterface) (m : List (ℕ × NetInterface))
    → IsAscending m
    → IsAscending (emplace_ordered key n m)
unfolding emplace_ordered
emplace_ordered-IsAscending key n [] a = tt
emplace_ordered-IsAscending key n ((k, x) ∷ m) a = ground (arith, emplace_ordered-Above k key n m)

pub emplace_ordered-All :
    (P : ℕ × NetInterface → Type 0) (key : ℕ) (n : NetInterface) (m : List (ℕ × NetInterface))
    → P (key, n)
    → All P m
    → All P (emplace_ordered key n m)
unfolding emplace_ordered
emplace_ordered-All P key n [] h a = (h, tt)
emplace_ordered-All P key n ((k, x) ∷ m) h a = elim (Bool-cases (ltb key k)) [
  | inl lt ↦ rw lt (h, a)
  | inr ge ↦ rw ge (elim (Bool-cases (ltb k key)) [
    | inl gt ↦ rw gt (a.0, emplace_ordered-All P key n m h a.1)
    | inr eq ↦ rw eq a
  ])
]

pub emplace_all-IsAscending : (ns : List NetInterface) → IsAscending (emplace_all ns)
unfolding emplace_all
emplace_all-IsAscending [] = tt
emplace_all-IsAscending (n ∷ ns) =
    emplace_ordered-IsAscending n.phy_index n (emplace_all ns) (emplace_all-IsAscending ns)

find-Above : (lo k : ℕ) (m : List (ℕ × NetInterface)) → Above lo m → k ≤ lo → find k m ≡ none
find-Above lo k [] a h = refl
find-Above lo k ((j, n) ∷ m) a h = ground (arith, find-Above j k m)

Above-Unique : (lo : ℕ) (m : List (ℕ × NetInterface)) → Above lo m → Unique m
Above-Unique lo [] a = tt
Above-Unique lo ((k, n) ∷ m) a = (find-Above k k m a.1 (omega arith), Above-Unique k m a.1)

pub IsAscending-Unique : (m : List (ℕ × NetInterface)) → IsAscending m → Unique m
IsAscending-Unique [] a = tt
IsAscending-Unique ((k, n) ∷ m) a = (find-Above k k m a (omega arith), Above-Unique k m a)
