-- ===== src/Routing/Gates.antt =====
-- routing/Routing.cpp: `isStationInTopKGates` sorts the live gates; here is what it decides.
pub mod Admitted
use fbmeshd.Prelude.{
  ℕ, zero, suc, ◌+◌, ◌≤◌, ◌<◌, ◌≡◌, ◌↔◌, refl, Bool, true, false, not, ◌&&◌, ◌||◌, List, [], ◌∷◌,
  arith, ◌==◌, ==_iff, if◌then◌else◌, take, count_if, All, Bool-cases, inl, inr, subst, sym,
}
use fbmeshd.Routing.{
  Routing, before, insert_sorted, sort, holds, live_gates, redundancy, is_station_in_top_k_gates,
}

abbrev pub is_pair : ℕ × ℕ → ℕ × ℕ → Bool
is_pair (m, a) (n, b) = m == n && a == b

-- How many pairs stand strictly before one.
abbrev pub rank : ℕ × ℕ → List (ℕ × ℕ) → ℕ
rank x = count_if λ y. not (before x y)

-- The gate is among the list, and fewer than k stand before it.
abbrev pub IsTop : ℕ → ℕ → List (ℕ × ℕ) → Type 0
IsTop k mac l = (m : ℕ) × (0 < count_if (is_pair (m, mac)) l) × (rank (m, mac) l < k)

count_if-insert_sorted :
    (p : ℕ × ℕ → Bool) (x : ℕ × ℕ) (l : List (ℕ × ℕ))
    → count_if p (insert_sorted x l) ≡ count_if p (x ∷ l)
count_if-insert_sorted p x [] = refl
count_if-insert_sorted p x (y ∷ l) = ground (arith, count_if-insert_sorted p x l)

count_if-sort : (p : ℕ × ℕ → Bool) (l : List (ℕ × ℕ)) → count_if p (sort l) ≡ count_if p l
count_if-sort p [] = refl
count_if-sort p (x ∷ l) = ground (arith, count_if-insert_sorted p x (sort l), count_if-sort p l)

abbrev AllAfter : ℕ × ℕ → List (ℕ × ℕ) → Type 0
AllAfter x = All λ y. before x y ≡ true

abbrev IsSorted : List (ℕ × ℕ) → Type 0
IsSorted [] = Unit
IsSorted (x ∷ l) = AllAfter x l × IsSorted l

before_trans : (x y z : ℕ × ℕ) → before x y ≡ true → before y z ≡ true → before x z ≡ true
before_trans (m, a) (n, b) (o, c) p q = ground arith

before_total : (x y : ℕ × ℕ) → before x y ≡ false → before y x ≡ true
before_total (m, a) (n, b) p = ground arith

AllAfter-trans : (x y : ℕ × ℕ) (l : List (ℕ × ℕ)) → before x y ≡ true → AllAfter y l → AllAfter x l
AllAfter-trans x y [] p h = tt
AllAfter-trans x y (z ∷ l) p h = (before_trans x y z p h.0, AllAfter-trans x y l p h.1)

insert_sorted-AllAfter :
    (w x : ℕ × ℕ) (l : List (ℕ × ℕ))
    → before w x ≡ true
    → AllAfter w l
    → AllAfter w (insert_sorted x l)
insert_sorted-AllAfter w x [] p h = (p, tt)
insert_sorted-AllAfter w x (y ∷ l) p h = elim (Bool-cases (before x y)) [
  | inl e ↦ rw e (p, h)
  | inr e ↦ rw e (h.0, insert_sorted-AllAfter w x l p h.1)
]

insert_sorted-IsSorted : (x : ℕ × ℕ) (l : List (ℕ × ℕ)) → IsSorted l → IsSorted (insert_sorted x l)
insert_sorted-IsSorted x [] s = (tt, tt)
insert_sorted-IsSorted x (y ∷ l) s = elim (Bool-cases (before x y)) [
  | inl e ↦ rw e ((e, AllAfter-trans x y l e s.0), s)
  | inr e ↦
      rw e (insert_sorted-AllAfter y x l (before_total x y e) s.0, insert_sorted-IsSorted x l s.1)
]

sort-IsSorted : (l : List (ℕ × ℕ)) → IsSorted (sort l)
sort-IsSorted [] = tt
sort-IsSorted (x ∷ l) = insert_sorted-IsSorted x (sort l) (sort-IsSorted l)

rank-head : (x : ℕ × ℕ) (l : List (ℕ × ℕ)) → AllAfter x l → rank x l ≡ 0
rank-head x [] h = refl
rank-head x (y ∷ l) h = ground (arith, rank-head x l h.1)

before_refl : (x : ℕ × ℕ) → before x x ≡ true
before_refl (m, a) = ground arith

AllAfter-counted :
    (x y : ℕ × ℕ) (l : List (ℕ × ℕ)) → AllAfter x l → 0 < count_if (is_pair y) l → before x y ≡ true
AllAfter-counted x y [] h c = absurd (omega arith)
AllAfter-counted (m, a) (n, b) ((o, d) ∷ l) h c = elim (Bool-cases (is_pair (n, b) (o, d))) [
  | inl e ↦ ground arith
  | inr e ↦ AllAfter-counted (m, a) (n, b) l h.1 (rw e at c)
]

head_rank :
    (m a mac k : ℕ) (l : List (ℕ × ℕ))
    → (a == mac) ≡ true
    → AllAfter (m, a) l
    → rank (m, mac) ((m, a) ∷ l) < suc k
head_rank m a mac k l e h =
    subst (λ b. rank (m, b) ((m, a) ∷ l) < suc k) ((==_iff a mac).0 e)
      (ground (arith, rank-head (m, a) l h, before_refl (m, a)))

holds-IsTop :
    (k mac : ℕ) (l : List (ℕ × ℕ)) → IsSorted l → holds mac (take k l) ≡ true → IsTop k mac l
holds-IsTop zero mac l s h = cc
holds-IsTop (suc k) mac [] s h = cc
holds-IsTop (suc k) mac ((m, a) ∷ l) s h = elim (Bool-cases (a == mac)) [
  | inl e ↦ (m, ground arith, head_rank m a mac k l e s.0)
  | inr e ↦ let (n, c, r) = holds-IsTop k mac l s.1 (rw e at h) in (n, ground arith, ground arith)
]

IsTop-holds :
    (k mac : ℕ) (l : List (ℕ × ℕ)) → IsSorted l → IsTop k mac l → holds mac (take k l) ≡ true
IsTop-holds zero mac l s (m, c, r) = absurd (omega arith)
IsTop-holds (suc k) mac [] s (m, c, r) = absurd (omega arith)
IsTop-holds (suc k) mac ((n, a) ∷ l) s (m, c, r) = elim (Bool-cases (a == mac)) [
  | inl e ↦ rw e
  | inr e ↦
      let later : 0 < count_if (is_pair (m, mac)) l = ground arith in
      rw e (
        IsTop-holds k mac l s.1
          (m, later, ground (arith, AllAfter-counted (n, a) (m, mac) l s.0 later)))
]

pub is_station_in_top_k_gates_iff :
    (now mac : ℕ) (s : Routing)
    → (is_station_in_top_k_gates now mac s ≡ true)
      ↔ IsTop (redundancy s) mac (live_gates now s.mesh_paths)
unfolding is_station_in_top_k_gates
is_station_in_top_k_gates_iff now mac s =
    let gates = live_gates now s.mesh_paths in
    let sorted = sort-IsSorted gates in
    (
      λ h.
          let (m, c, r) = holds-IsTop (redundancy s) mac (sort gates) sorted h in
          (
            m,
            rw (count_if-sort (is_pair (m, mac)) gates) at c,
            rw (count_if-sort (λ y. not (before (m, mac) y)) gates) at r,
          ),
      λ (m, c, r). IsTop-holds (redundancy s) mac (sort gates) sorted (
        m,
        rw (count_if-sort (is_pair (m, mac)) gates) c,
        rw (count_if-sort (λ y. not (before (m, mac) y)) gates) r,
      ),
    )
