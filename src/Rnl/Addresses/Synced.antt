-- ===== src/Rnl/Addresses/Synced.antt =====
-- rnl/NetlinkSocket.cpp: the addresses that a sync leaves on an interface.
use fbmeshd.Prelude.{
  ℕ, ◌≡◌, refl, ap, subst, ◌∙◌, Bool, true, false, not, ◌&&◌, ◌||◌, Option, none, some, List, [],
  ◌∷◌, arith, ◌==◌, if◌then◌else◌, Bool-cases, inl, inr, All,
}
use fbmeshd.Rnl.{Prefix, IpApi, same_prefix}
use fbmeshd.Rnl.Kernel.{Rtnl}
use fbmeshd.Rnl.Addresses.Difference.{as_number, count, IsOrder, count-sorted_difference}
use fbmeshd.Rnl.Addresses.{
  IfAddress, AddrSock, done, build_if_address, prefixes_of, new_prefixes, fits_family, fits_rest,
  set_difference, sort, add_if_address, del_if_address, get_if_addrs, add_all, delete_all,
  sync_read, do_sync_if_address,
}

-- The address is one of the interface, family and scope that are synced.
abbrev pub IsSynced : {K : Type 0} → IpApi → Rtnl → AddrSock K → ℕ → ℕ → ℕ → IfAddress → Type 0
IsSynced ip c nl if_index family scope a =
    (fits_family ip c nl family a ≡ some true) × (fits_rest ip c nl if_index scope a ≡ true)

-- What the kernel is taken to do with the addresses of one interface, family and scope: it lists
-- each address that it has there once, has an address of that interface, family and scope after
-- adding it, has an address no more after deleting it, and keeps the others.
pub record KeepsAddresses {K : Type 0} (ip : IpApi) (c : Rtnl) (nl : AddrSock K)
    (if_index family scope : ℕ) : Type 0 where
  pub present : K → Prefix → Bool
  pub lists : K → List IfAddress
  pub reads : (k : K) → get_if_addrs ip c nl if_index family scope k ≡ some (lists k)
  pub once : (k : K) (q : Prefix) → count q (prefixes_of (lists k)) ≡ as_number (present k q)
  pub adds :
      (a : IfAddress) (p q : Prefix) (k : K)
      → a.prefix ≡ some p
      → IsSynced ip c nl if_index family scope a
      → present (nl.add_if_address a k).0 q ≡ (same_prefix p q || present k q)
  pub deletes :
      (p q : Prefix) (k : K)
      → present (nl.delete_if_address (build_if_address p if_index scope) k).0 q
        ≡ (not (same_prefix p q) && present k q)

abbrev pub listed : Prefix → List Prefix → Bool
listed q [] = false
listed q (p ∷ ps) = same_prefix p q || listed q ps

count-listed : (q : Prefix) (ps : List Prefix) → listed q ps ≡ not (count q ps == 0)
count-listed q [] = refl
count-listed q (p ∷ ps) = ground (arith, count-listed q ps)

module _ {K : Type 0} (ip : IpApi) (c : Rtnl) (nl : AddrSock K) (if_index family scope : ℕ)
    (laws : KeepsAddresses ip c nl if_index family scope) where
  -- The prefixes are those of the addresses.
  abbrev Named : List IfAddress → List Prefix → Type 0
  Named [] [] = Unit
  Named [] (p ∷ ps) = ⊥
  Named (a ∷ addrs) [] = ⊥
  Named (a ∷ addrs) (p ∷ ps) = (a.prefix ≡ some p) × Named addrs ps

  Named-step :
      (a : IfAddress) (addrs : List IfAddress) (ps : List Prefix) (o : Option Prefix)
      (rest : Option (List Prefix))
      → a.prefix ≡ o
      → ((qs : List Prefix) → rest ≡ some qs → Named addrs qs)
      → (if not (a.if_index == if_index) then none else elim o [
        | none ↦ none
        | some p ↦ elim rest [ none ↦ none | some qs ↦ some (p ∷ qs) ]
      ])
        ≡ some ps
      → Named (a ∷ addrs) ps
  Named-step a addrs ps none rest e ih h = absurd (ground arith)
  Named-step a addrs ps (some p) none e ih h = absurd (ground arith)
  Named-step a addrs [] (some p) (some qs) e ih h = absurd (ground arith)
  Named-step a addrs (r ∷ ps) (some p) (some qs) e ih h =
      elim (Bool-cases (a.if_index == if_index)) [
        | inl same ↦
            let h' : some (p ∷ qs) ≡ some (r ∷ ps) = rw same at h in
            let e1 : p ≡ r = cc in
            let e2 : qs ≡ ps = cc in (subst (λ x. a.prefix ≡ some x) e1 e, ih ps (ap some e2))
        | inr other ↦ absurd (ground arith)
      ]

  new_prefixes-Named :
      (addrs : List IfAddress) (ps : List Prefix)
      → new_prefixes if_index addrs ≡ some ps
      → Named addrs ps
  unfolding new_prefixes
  new_prefixes-Named [] [] h = tt
  new_prefixes-Named [] (p ∷ ps) h = absurd (ground arith)
  new_prefixes-Named (a ∷ addrs) ps h =
      Named-step a addrs ps a.prefix (new_prefixes if_index addrs) refl (new_prefixes-Named addrs) h

  present-add_all :
      (addrs : List IfAddress) (ps : List Prefix) (q : Prefix) (k : K)
      → Named addrs ps
      → All (IsSynced ip c nl if_index family scope) addrs
      → laws.present (add_all ip c nl addrs k) q ≡ (listed q ps || laws.present k q)
  unfolding add_all add_if_address
  present-add_all [] [] q k h j = refl
  present-add_all [] (p ∷ ps) q k h j = elim h [ ]
  present-add_all (a ∷ addrs) [] q k h j = elim h [ ]
  present-add_all (a ∷ addrs) (p ∷ ps) q k (e, h) (i, j) =
      ground
        (arith, present-add_all addrs ps q (nl.add_if_address a k).0 h j, laws.adds a p q k e i)

  present-delete_all :
      (ps : List Prefix) (q : Prefix) (k : K)
      → laws.present (delete_all ip c nl if_index scope ps k) q
        ≡ (not (listed q ps) && laws.present k q)
  unfolding delete_all del_if_address build_if_address
  present-delete_all [] q k = refl
  present-delete_all (p ∷ ps) q k = ground (
    arith,
    present-delete_all ps q (nl.delete_if_address (build_if_address p if_index scope) k).0,
    laws.deletes p q k,
  )

  -- A sync of the addresses of an interface, when each address asked for has a prefix and is of the
  -- interface, family and scope that are synced and the order of the addresses is strict and total,
  -- ends with no exception, and the kernel then has there exactly the addresses asked for, if it
  -- does with addresses what `KeepsAddresses` says.
  pub do_sync_if_address-present :
      (less : ℕ → ℕ → Bool) (addrs : List IfAddress) (ps : List Prefix) (k : K)
      → IsOrder less
      → new_prefixes if_index addrs ≡ some ps
      → All (IsSynced ip c nl if_index family scope) addrs
      → ((do_sync_if_address ip c nl less if_index addrs family scope k).1 ≡ done)
        × ((q : Prefix)
            → laws.present (do_sync_if_address ip c nl less if_index addrs family scope k).0 q
              ≡ listed q ps)
  unfolding do_sync_if_address sync_read
  do_sync_if_address-present less addrs ps k order h j =
      let old = prefixes_of (laws.lists k) in
      let gone = set_difference less (sort less old) (sort less ps) in
      let k' = add_all ip c nl addrs k in
      let read = sync_read ip c nl less if_index addrs scope k in
      let synced =
        ap (λ o. read o (get_if_addrs ip c nl if_index family scope k)) h
        ∙ ap (read (some ps)) (laws.reads k) in
      (
        ap (λ r. r.1) synced,
        λ q.
            ap (λ r. laws.present r.0 q) synced
            ∙ ground (
              arith,
              present-delete_all gone q k',
              present-add_all addrs ps q k (new_prefixes-Named addrs ps h) j,
              count-listed q gone,
              count-listed q ps,
              count-sorted_difference less order q old ps,
              laws.once k q,
            ),
      )
