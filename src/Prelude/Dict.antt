-- ===== src/Prelude/Dict.antt =====
-- `std::unordered_map` as an association list. Its order stands for the iteration order, which no
-- theorem relies on. `emplace` keeps a present entry; `insert` is assignment through `operator[]`.
use mathlib.Core.Path.{◌≡◌, refl, sym, subst}
use mathlib.Core.Logic.{inl, inr}
use mathlib.Core.Bool.{Bool, true, false, ◌||◌}
use mathlib.Core.Option.{Option, none, some}
use mathlib.Core.List.{List, [], ◌∷◌}
use native.Mathlib.Omega.{arith}
use fbmeshd.Prelude.Tests.{Eq, Bool-cases, if◌then◌else◌}
use fbmeshd.Prelude.Lists.{keep, All}

abbrev pub is_some {ℓ} : {A : Type ℓ} → Option A → Bool
is_some none = false
is_some (some a) = true

module _ {ℓ κ} {K : Type ℓ} ⦃e : Eq K⦄ {V : Type κ} where
  abbrev pub find : K → List (K × V) → Option V
  find k [] = none
  find k ((j, v) ∷ m) = if e.beq j k then some v else find k m

  abbrev pub contains : K → List (K × V) → Bool
  contains k [] = false
  contains k ((j, v) ∷ m) = if e.beq j k then true else contains k m

  abbrev pub insert : K → V → List (K × V) → List (K × V)
  insert k v [] = (k, v) ∷ []
  insert k v ((j, w) ∷ m) = if e.beq j k then (j, v) ∷ m else (j, w) ∷ insert k v m

  abbrev pub emplace : K → V → List (K × V) → List (K × V)
  emplace k v [] = (k, v) ∷ []
  emplace k v ((j, w) ∷ m) = if e.beq j k then (j, w) ∷ m else (j, w) ∷ emplace k v m

  abbrev pub erase : K → List (K × V) → List (K × V)
  erase k [] = []
  erase k ((j, w) ∷ m) = let rest = erase k m in if e.beq j k then rest else (j, w) ∷ rest

  pub find-insert :
      (k j : K) (v : V) (m : List (K × V))
      → find j (insert k v m) ≡ (if e.beq k j then some v else find j m)
  find-insert k j v [] = refl
  find-insert k j v ((i, w) ∷ m) =
      ground (arith, e.beq_iff k j, e.beq_iff i k, e.beq_iff i j, find-insert k j v m)

  pub find-emplace :
      (k j : K) (v : V) (m : List (K × V))
      → find j (emplace k v m)
        ≡ (if contains k m then find j m else if e.beq k j then some v else find j m)
  find-emplace k j v [] = refl
  find-emplace k j v ((i, w) ∷ m) =
      ground (arith, e.beq_iff k j, e.beq_iff i k, e.beq_iff i j, find-emplace k j v m)

  pub contains-emplace :
      (k j : K) (v : V) (m : List (K × V))
      → contains j (emplace k v m) ≡ (e.beq k j || contains j m)
  contains-emplace k j v [] = ground arith
  contains-emplace k j v ((i, w) ∷ m) =
      ground (arith, e.beq_iff k j, e.beq_iff i k, e.beq_iff i j, contains-emplace k j v m)

  pub contains-find : (k : K) (m : List (K × V)) → contains k m ≡ is_some (find k m)
  contains-find k [] = refl
  contains-find k ((j, w) ∷ m) = ground (arith, contains-find k m)

  pub find-erase :
      (k j : K) (m : List (K × V)) → find j (erase k m) ≡ (if e.beq k j then none else find j m)
  find-erase k j [] = ground arith
  find-erase k j ((i, w) ∷ m) =
      ground (arith, e.beq_iff k j, e.beq_iff i k, e.beq_iff i j, find-erase k j m)

module _ {ℓ κ} {K : Type ℓ} ⦃e : Eq K⦄ {V : Type κ} where
  pub erase_absent : (k : K) (m : List (K × V)) → find k m ≡ none → erase k m ≡ m
  erase_absent k [] h = refl
  erase_absent k ((j, w) ∷ m) h = ground (arith, erase_absent k m)

  pub find-emplace-erase :
      (k j : K) (v : V) (m : List (K × V))
      → find j (emplace k v (erase k m)) ≡ (if e.beq k j then some v else find j m)
  find-emplace-erase k j v m = ground (
    arith,
    find-emplace k j v (erase k m),
    contains-find k (erase k m),
    find-erase k k m,
    find-erase k j m,
    (e.beq_iff k k).1 refl,
  )

  -- No key stands twice.
  abbrev pub Unique : List (K × V) → Type κ
  Unique [] = Unit
  Unique ((k, v) ∷ m) = (find k m ≡ none) × Unique m

  pub insert-Unique : (k : K) (v : V) (m : List (K × V)) → Unique m → Unique (insert k v m)
  insert-Unique k v [] u = (refl, tt)
  insert-Unique k v ((j, w) ∷ m) u =
      ground (arith, insert-Unique k v m u.1, find-insert k j v m, e.beq_iff k j, e.beq_iff j k)

  pub emplace-Unique : (k : K) (v : V) (m : List (K × V)) → Unique m → Unique (emplace k v m)
  emplace-Unique k v [] u = (refl, tt)
  emplace-Unique k v ((j, w) ∷ m) u =
      ground (arith, emplace-Unique k v m u.1, find-emplace k j v m, e.beq_iff k j, e.beq_iff j k)

  abbrev pub retained : (K × V → Bool) → K → Option V → Option V
  retained p k none = none
  retained p k (some v) = if p (k, v) then some v else none

  pub find-keep :
      (p : K × V → Bool) (k : K) (m : List (K × V))
      → Unique m
      → find k (keep p m) ≡ retained p k (find k m)
  find-keep p k [] u = refl
  find-keep p k ((j, w) ∷ m) u = ground (arith, find-keep p k m u.1, e.beq_iff j k)

  pub keep-Unique : (p : K × V → Bool) (m : List (K × V)) → Unique m → Unique (keep p m)
  keep-Unique p [] u = tt
  keep-Unique p ((j, w) ∷ m) u = ground (arith, keep-Unique p m u.1, find-keep p j m u.1)

module _ {ℓ κ ν} {K : Type ℓ} ⦃e : Eq K⦄ {V : Type κ} (P : K × V → Type ν) where
  pub insert-All : (k : K) (v : V) (m : List (K × V)) → P (k, v) → All P m → All P (insert k v m)
  insert-All k v [] p h = (p, tt)
  insert-All k v ((j, w) ∷ m) p h = elim (Bool-cases (e.beq j k)) [
    | inl same ↦ rw same (subst (λ i. P (i, v)) (sym ((e.beq_iff j k).0 same)) p, h.1)
    | inr other ↦ rw other (h.0, insert-All k v m p h.1)
  ]

  pub emplace-All : (k : K) (v : V) (m : List (K × V)) → P (k, v) → All P m → All P (emplace k v m)
  emplace-All k v [] p h = (p, tt)
  emplace-All k v ((j, w) ∷ m) p h = elim (Bool-cases (e.beq j k)) [
    | inl same ↦ rw same h
    | inr other ↦ rw other (h.0, emplace-All k v m p h.1)
  ]

  pub erase-All : (k : K) (m : List (K × V)) → All P m → All P (erase k m)
  erase-All k [] h = tt
  erase-All k ((j, w) ∷ m) h = elim (Bool-cases (e.beq j k)) [
    | inl same ↦ rw same (erase-All k m h.1)
    | inr other ↦ rw other (h.0, erase-All k m h.1)
  ]

  pub keep-All : (t : K × V → Bool) (m : List (K × V)) → All P m → All P (keep t m)
  keep-All t [] h = tt
  keep-All t ((j, w) ∷ m) h = elim (Bool-cases (t (j, w))) [
    | inl yes' ↦ rw yes' (h.0, keep-All t m h.1)
    | inr no' ↦ rw no' (keep-All t m h.1)
  ]

  pub find-All : (k : K) (v : V) (m : List (K × V)) → All P m → find k m ≡ some v → P (k, v)
  find-All k v [] h f = cc
  find-All k v ((j, w) ∷ m) h f = elim (Bool-cases (e.beq j k)) [
    | inl same ↦
        let found : some w ≡ some v = rw same at f in
        let value : w ≡ v = cc in
        subst (λ i. P (i, v)) ((e.beq_iff j k).0 same) (subst (λ x. P (j, x)) value h.0)
    | inr other ↦ find-All k v m h.1 (rw other at f)
  ]

pub beq_refl {ℓ} : {K : Type ℓ} ⦃e : Eq K⦄ (k : K) → e.beq k k ≡ true
beq_refl ⦃e⦄ k = (e.beq_iff k k).1 refl
