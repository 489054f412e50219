-- ===== src/Mesh/Places.antt =====
-- 802.11s/Nl80211Handler.cpp: one place in the map of the interfaces.
use fbmeshd.Prelude.{
  ℕ, ◌≡◌, refl, false, none, some, List, [], ◌∷◌, ◌++◌, arith, ◌==◌, All, Bool-cases, inl, inr,
  nat_eq, ==_iff,
}
use fbmeshd.Prelude.Dict.{find, Unique}
use fbmeshd.Mesh.Handler.{NetInterface}
use fbmeshd.Mesh.Links.{adjust}

abbrev pub Absent : ℕ → List (ℕ × NetInterface) → Type 0
Absent key m = All (λ e. (e.0 == key) ≡ false) m

pub adjust-at :
    (key : ℕ) (g : NetInterface → NetInterface) (before after : List (ℕ × NetInterface))
    (n : NetInterface)
    → Absent key before
    → adjust key g (before ++ (key, n) ∷ after) ≡ before ++ (key, g n) ∷ after
unfolding adjust
adjust-at key g [] after n h = rw ((==_iff key key).1 refl)
adjust-at key g ((k, m) ∷ before) after n h = rw h.0 (rw (adjust-at key g before after n h.1))

pub find-at :
    (key : ℕ) (before after : List (ℕ × NetInterface)) (n : NetInterface)
    → Absent key before
    → find key (before ++ (key, n) ∷ after) ≡ some n
find-at key [] after n h = rw ((==_iff key key).1 refl)
find-at key ((k, m) ∷ before) after n h = rw h.0 (find-at key before after n h.1)

find-ne :
    (k key : ℕ) (before after : List (ℕ × NetInterface)) (n : NetInterface)
    → find k (before ++ (key, n) ∷ after) ≡ none
    → (k == key) ≡ false
find-ne k key [] after n h = ground arith
find-ne k key ((j, m) ∷ before) after n h = elim (Bool-cases (j == k)) [
  | inl same ↦ let found : some m ≡ none = rw same at h in cc
  | inr other ↦ find-ne k key before after n (rw other at h)
]

pub Unique-Absent :
    (key : ℕ) (before after : List (ℕ × NetInterface)) (n : NetInterface)
    → Unique (before ++ (key, n) ∷ after)
    → Absent key before
Unique-Absent key [] after n u = tt
Unique-Absent key ((k, m) ∷ before) after n u =
    (find-ne k key before after n u.0, Unique-Absent key before after n u.1)
