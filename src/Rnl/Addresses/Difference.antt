-- ===== src/Rnl/Addresses/Difference.antt =====
-- rnl/NetlinkSocket.cpp: the prefixes that one sorted range has more often than another.
use fbmeshd.Prelude.{
  ℕ, ◌+◌, ◌-◌, ◌≡◌, refl, sym, subst, ap, ◌∙◌, Bool, true, false, List, [], ◌∷◌, arith, Bool-cases,
  inl, inr, All, All-map,
}
use fbmeshd.Rnl.{Prefix, same_prefix, same_prefix_iff}
use fbmeshd.Rnl.Addresses.{set_difference, insert_sorted, sort, prefix_cmp}

abbrev pub as_number : Bool → ℕ
as_number true = 1
as_number false = 0

abbrev pub count : Prefix → List Prefix → ℕ
count q [] = 0
count q (p ∷ ps) = as_number (same_prefix p q) + count q ps

count-insert_sorted :
    (less : ℕ → ℕ → Bool) (q p : Prefix) (ps : List Prefix)
    → count q (insert_sorted less p ps) ≡ as_number (same_prefix p q) + count q ps
count-insert_sorted less q p [] = refl
count-insert_sorted less q p (r ∷ ps) = elim (Bool-cases (prefix_cmp less p r)) [
  | inl before ↦ rw before refl
  | inr after ↦ rw after (omega (arith, count-insert_sorted less q p ps))
]

pub count-sort :
    (less : ℕ → ℕ → Bool) (q : Prefix) (ps : List Prefix) → count q (sort less ps) ≡ count q ps
unfolding sort
count-sort less q [] = refl
count-sort less q (p ∷ ps) =
    omega (arith, count-insert_sorted less q p (sort less ps), count-sort less q ps)

-- The order of addresses is strict and total.
pub record IsOrder (less : ℕ → ℕ → Bool) : Type 0 where
  pub irreflexive : (a : ℕ) → less a a ≡ false
  pub transitive : (a b c : ℕ) → less a b ≡ true → less b c ≡ true → less a c ≡ true
  pub connected : (a b : ℕ) → less a b ≡ false → less b a ≡ false → a ≡ b

module _ (less : ℕ → ℕ → Bool) (order : IsOrder less) where
  cmp_irreflexive : (a : Prefix) → prefix_cmp less a a ≡ false
  cmp_irreflexive a = ground arith

  cmp_transitive :
      (a b c : Prefix)
      → prefix_cmp less a b ≡ true
      → prefix_cmp less b c ≡ true
      → prefix_cmp less a c ≡ true
  cmp_transitive a b c h k =
      ground (arith, order.transitive a.addr b.addr c.addr, order.irreflexive a.addr)

  cmp_connected : (a b : Prefix) → prefix_cmp less a b ≡ false → prefix_cmp less b a ≡ false → a ≡ b
  cmp_connected a b h k = (same_prefix_iff a b).0 (ground (arith, order.connected a.addr b.addr))

  cmp_asymmetric : (a b : Prefix) → prefix_cmp less a b ≡ true → prefix_cmp less b a ≡ false
  cmp_asymmetric a b h = elim (Bool-cases (prefix_cmp less b a)) [
    | inl k ↦ absurd (ground (arith, cmp_transitive a b a h k, cmp_irreflexive a))
    | inr k ↦ k
  ]

  -- If c is not before b and b not before a, then c is not before a.
  cmp_above :
      (a b c : Prefix)
      → prefix_cmp less b a ≡ false
      → prefix_cmp less c b ≡ false
      → prefix_cmp less c a ≡ false
  cmp_above a b c h k = elim (Bool-cases (prefix_cmp less c a)) [
    | inr e ↦ e
    | inl e ↦ elim (Bool-cases (prefix_cmp less a b)) [
      | inl before ↦
          let wrong = cmp_transitive c a b e before in absurd (ground (arith, sym wrong ∙ k))
      | inr equal ↦ subst (λ x. prefix_cmp less c x ≡ false) (sym (cmp_connected a b equal h)) k
    ]
  ]

  abbrev IsAbove : Prefix → List Prefix → Type 0
  IsAbove p ps = All (λ x. prefix_cmp less x p ≡ false) ps

  abbrev IsSorted : List Prefix → Type 0
  IsSorted [] = Unit
  IsSorted (p ∷ ps) = IsAbove p ps × IsSorted ps

  insert_sorted-IsAbove :
      (p q : Prefix) (ps : List Prefix)
      → prefix_cmp less q p ≡ false
      → IsAbove p ps
      → IsAbove p (insert_sorted less q ps)
  insert_sorted-IsAbove p q [] h a = (h, tt)
  insert_sorted-IsAbove p q (r ∷ ps) h a = elim (Bool-cases (prefix_cmp less q r)) [
    | inl e ↦ rw e (h, a)
    | inr e ↦ rw e (a.0, insert_sorted-IsAbove p q ps h a.1)
  ]

  insert_sorted-IsSorted :
      (p : Prefix) (ps : List Prefix) → IsSorted ps → IsSorted (insert_sorted less p ps)
  insert_sorted-IsSorted p [] h = (tt, tt)
  insert_sorted-IsSorted p (q ∷ ps) h = elim (Bool-cases (prefix_cmp less p q)) [
    | inl e ↦
        let back = cmp_asymmetric p q e in
        rw e ((back, All-map (λ x k. cmp_above p q x back k) ps h.0), h)
    | inr e ↦ rw e (insert_sorted-IsAbove q p ps e h.0, insert_sorted-IsSorted p ps h.1)
  ]

  sort-IsSorted : (ps : List Prefix) → IsSorted (sort less ps)
  unfolding sort
  sort-IsSorted [] = tt
  sort-IsSorted (p ∷ ps) = insert_sorted-IsSorted p (sort less ps) (sort-IsSorted ps)

  -- What is before a range does not stand in it.
  count-before :
      (q p : Prefix) (ps : List Prefix) → prefix_cmp less q p ≡ true → IsAbove p ps → count q ps ≡ 0
  count-before q p [] e h = refl
  count-before q p (x ∷ ps) e h = elim (Bool-cases (same_prefix x q)) [
    | inr other ↦ rw other (omega (arith, count-before q p ps e h.1))
    | inl same ↦
        let equal = subst (λ y. prefix_cmp less y p ≡ false) ((same_prefix_iff x q).0 same) h.0 in
        absurd (ground (arith, sym e ∙ equal))
  ]

  count-before_all :
      (q p : Prefix) (ps : List Prefix)
      → prefix_cmp less q p ≡ true
      → IsAbove p ps
      → count q (p ∷ ps) ≡ 0
  count-before_all q p ps e h = count-before q p (p ∷ ps) e (cmp_irreflexive p, h)

  count-set_difference :
      (q : Prefix) (old new : List Prefix)
      → IsSorted old
      → IsSorted new
      → count q (set_difference less old new) ≡ count q old - count q new
  unfolding set_difference
  count-set_difference q [] new h k = omega arith
  count-set_difference q (o ∷ os) [] h k = omega arith
  count-set_difference q (o ∷ os) (n ∷ ns) h k = elim (Bool-cases (prefix_cmp less o n)) [
    | inl e ↦
        let ih = count-set_difference q os (n ∷ ns) h.1 k in
        rw e (elim (Bool-cases (same_prefix o q)) [
          | inl same ↦
              let at : prefix_cmp less q n ≡ true =
                subst (λ x. prefix_cmp less x n ≡ true) ((same_prefix_iff o q).0 same) e in
              omega (arith, ih, count-before_all q n ns at k.0)
          | inr other ↦ rw other (omega (arith, ih))
        ])
    | inr e ↦ elim (Bool-cases (prefix_cmp less n o)) [
      | inl b ↦
          let ih = count-set_difference q (o ∷ os) ns h k.1 in
          rw e (
            rw b (elim (Bool-cases (same_prefix n q)) [
              | inl same ↦
                  let at : prefix_cmp less q o ≡ true =
                    subst (λ x. prefix_cmp less x o ≡ true) ((same_prefix_iff n q).0 same) b in
                  omega (arith, ih, count-before_all q o os at h.0)
              | inr other ↦ rw other (omega (arith, ih))
            ]))
      | inr b ↦
          let ih = count-set_difference q os ns h.1 k.1 in
          let equal = ap (λ x. as_number (same_prefix x q)) (cmp_connected o n e b) in
          rw e (rw b (omega (arith, ih, equal)))
    ]
  ]

  pub count-sorted_difference :
      (q : Prefix) (old new : List Prefix)
      → count q (set_difference less (sort less old) (sort less new)) ≡ count q old - count q new
  count-sorted_difference q old new =
      count-set_difference q (sort less old) (sort less new) (sort-IsSorted old) (sort-IsSorted new)
      ∙ omega (arith, count-sort less q old, count-sort less q new)
