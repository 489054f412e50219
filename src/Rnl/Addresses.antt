-- ===== src/Rnl/Addresses.antt =====
-- rnl/NetlinkSocket.cpp and rnl/NetlinkTypes.cpp: the addresses of an interface, and their sync.
pub mod Difference
pub mod Synced
mod Examples
use fbmeshd.Prelude.{
  ℕ, Bool, true, false, not, ◌&&◌, ◌||◌, ltb, Option, none, some, List, [], ◌∷◌, ◌==◌,
  if◌then◌else◌,
}
use fbmeshd.Rnl.{Prefix, IpApi, same_prefix}
use fbmeshd.Rnl.Kernel.{Rtnl}

pub record IfAddress : Type 0 where
  pub prefix : Option Prefix
  pub if_index : ℕ
  pub is_valid : Bool
  pub scope : Option ℕ
  pub flags : Option ℕ
  pub set_family : Option ℕ

-- `IfAddressBuilder{}.setPrefix(p).setIfIndex(i).setScope(s).build()`.
unfoldable pub build_if_address : Prefix → ℕ → ℕ → IfAddress
build_if_address p i s = record {
  prefix = some p;
  if_index = i;
  is_valid = false;
  scope = some s;
  flags = none;
  set_family = none;
}

-- `getFamily`; `none` is the exception of an address with neither a prefix nor a family.
unfoldable pub get_family : IpApi → IfAddress → Option ℕ
get_family ip a = elim a.prefix [ none ↦ a.set_family | some p ↦ some (ip.family p.addr) ]

-- The kernel's addresses: a request answers with a result code, and 0 is success.
pub record AddrSock (K : Type 0) : Type 0 where
  pub add_if_address : IfAddress → K → K × ℕ
  pub delete_if_address : IfAddress → K → K × ℕ
  pub get_all_if_addresses : K → List IfAddress

pub data Status : Type 0 where
  done : Status
  nl_exception : Status

abbrev pub scope_of : Option ℕ → ℕ
scope_of none = 0
scope_of (some s) = s

-- The prefixes of the addresses that a sync asks for, which are all to be of the interface.
unfoldable pub new_prefixes : ℕ → List IfAddress → Option (List Prefix)
new_prefixes if_index [] = some []
new_prefixes if_index (a ∷ addrs) =
    let rest = new_prefixes if_index addrs in
    if not (a.if_index == if_index) then none else elim a.prefix [
      | none ↦ none
      | some p ↦ elim rest [ none ↦ none | some ps ↦ some (p ∷ ps) ]
    ]

unfoldable pub prefixes_of : List IfAddress → List Prefix
prefixes_of [] = []
prefixes_of (a ∷ addrs) =
    let rest = prefixes_of addrs in elim a.prefix [ none ↦ rest | some p ↦ p ∷ rest ]

-- `PrefixCmp`, and `std::sort` with it; `less` is the order of folly's addresses.
abbrev pub prefix_cmp : (ℕ → ℕ → Bool) → Prefix → Prefix → Bool
prefix_cmp less a b = if not (a.addr == b.addr) then less a.addr b.addr else ltb a.mask b.mask

abbrev pub insert_sorted : (ℕ → ℕ → Bool) → Prefix → List Prefix → List Prefix
insert_sorted less p [] = p ∷ []
insert_sorted less p (q ∷ qs) =
    let rest = insert_sorted less p qs in if prefix_cmp less p q then p ∷ q ∷ qs else q ∷ rest

-- `std::set_difference` with the order of pairs, which is the same: a walk along two ranges, whose
-- result is a difference only if both are sorted.
unfoldable pub set_difference : (ℕ → ℕ → Bool) → List Prefix → List Prefix → List Prefix
set_difference less [] new = []
set_difference less (o ∷ os) [] = o ∷ os
set_difference less (o ∷ os) (n ∷ ns) =
    let kept = set_difference less os (n ∷ ns) in
    let skipped = set_difference less (o ∷ os) ns in
    let matched = set_difference less os ns in
    if prefix_cmp less o n then o ∷ kept else if prefix_cmp less n o then skipped else matched

unfoldable pub sort : (ℕ → ℕ → Bool) → List Prefix → List Prefix
sort less [] = []
sort less (p ∷ ps) = insert_sorted less p (sort less ps)

module _ {K : Type 0} (ip : IpApi) (c : Rtnl) (nl : AddrSock K) where
  unfoldable pub add_if_address : IfAddress → K → K × Status
  add_if_address a k =
      let (k', err) = nl.add_if_address a k in (k', if err == 0 then done else nl_exception)

  -- Without a prefix the kernel is not asked.
  unfoldable pub del_if_address : IfAddress → K → K × Status
  del_if_address a k = elim a.prefix [
    | none ↦ (k, nl_exception)
    | some p ↦
        let (k', err) = nl.delete_if_address a k in (k', if err == 0 then done else nl_exception)
  ]

  -- The tests of `getIfAddrs` on one address; `none` is the exception of `getFamily`.
  unfoldable pub fits_family : ℕ → IfAddress → Option Bool
  unfolding get_family
  fits_family family a =
      if family == c.af_unspec
      then some true
      else elim (get_family ip a) [ none ↦ none | some f ↦ some (family == f) ]

  unfoldable pub fits_rest : ℕ → ℕ → IfAddress → Bool
  fits_rest if_index scope a =
      (scope == c.rt_scope_nowhere || scope == scope_of a.scope) && if_index == a.if_index

  abbrev pub add_if : Bool → Option Prefix → ℕ → ℕ → List IfAddress → List IfAddress
  add_if b none if_index scope rest = rest
  add_if b (some p) if_index scope rest =
      if b then build_if_address p if_index scope ∷ rest else rest

  unfoldable pub collect : ℕ → ℕ → ℕ → List IfAddress → Option (List IfAddress)
  unfolding fits_family fits_rest build_if_address
  collect if_index family scope [] = some []
  collect if_index family scope (a ∷ addrs) =
      let rest = collect if_index family scope addrs in
      elim (fits_family family a) [
        | none ↦ none
        | some b ↦ elim rest [
          | none ↦ none
          | some out ↦ some (add_if (b && fits_rest if_index scope a) a.prefix if_index scope out)
        ]
      ]

  unfoldable pub get_if_addrs : ℕ → ℕ → ℕ → K → Option (List IfAddress)
  unfolding collect
  get_if_addrs if_index family scope k = collect if_index family scope (nl.get_all_if_addresses k)

  -- The calls in a row, whose failures nobody looks at.
  unfoldable pub add_all : List IfAddress → K → K
  unfolding add_if_address
  add_all [] k = k
  add_all (a ∷ addrs) k = add_all addrs (add_if_address a k).0

  unfoldable pub delete_all : ℕ → ℕ → List Prefix → K → K
  unfolding del_if_address build_if_address
  delete_all if_index scope [] k = k
  delete_all if_index scope (p ∷ ps) k =
      delete_all if_index scope ps (del_if_address (build_if_address p if_index scope) k).0

  -- The sync, from the prefixes asked for and the addresses read from the kernel.
  unfoldable pub sync_read :
      (ℕ → ℕ → Bool)
      → ℕ
      → List IfAddress
      → ℕ
      → K
      → Option (List Prefix)
      → Option (List IfAddress)
      → K × Status
  unfolding prefixes_of set_difference sort add_all delete_all
  sync_read less if_index addrs scope k none old = (k, nl_exception)
  sync_read less if_index addrs scope k (some new) none = (k, nl_exception)
  sync_read less if_index addrs scope k (some new) (some old) =
      let gone = set_difference less (sort less (prefixes_of old)) (sort less new) in
      (delete_all if_index scope gone (add_all addrs k), done)

  unfoldable pub do_sync_if_address : (ℕ → ℕ → Bool) → ℕ → List IfAddress → ℕ → ℕ → K → K × Status
  unfolding new_prefixes get_if_addrs sync_read
  do_sync_if_address less if_index addrs family scope k =
      sync_read less if_index addrs scope k (new_prefixes if_index addrs)
        (get_if_addrs if_index family scope k)
