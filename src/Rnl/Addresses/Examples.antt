-- ===== src/Rnl/Addresses/Examples.antt =====
-- rnl/NetlinkSocket.cpp: a sync of addresses, with a kernel that keeps a list of prefixes.
use fbmeshd.Prelude.{
  ◌≡◌, refl, ap, ◌∙◌, true, false, not, ◌&&◌, Option, none, some, List, [], ◌∷◌, arith, ltb,
  if◌then◌else◌,
}
use fbmeshd.Rnl.{Prefix, IpApi, same_prefix, same_prefix_iff}
use fbmeshd.Rnl.Kernel.{Rtnl}
use fbmeshd.Rnl.Addresses.{
  IfAddress, AddrSock, done, build_if_address, get_family, prefixes_of, fits_family, fits_rest,
  collect, get_if_addrs, do_sync_if_address, new_prefixes,
}
use fbmeshd.Rnl.Addresses.Difference.{as_number, count, IsOrder}
use fbmeshd.Rnl.Addresses.Synced.{KeepsAddresses, listed, do_sync_if_address-present}

abbrev ip : IpApi
ip = record {
  is_multicast = λ a. false;
  is_link_local = λ a. false;
  is_v6 = λ a. true;
  family = λ a. 10;
}

abbrev rtnl : Rtnl
rtnl = record {
  rt_table_main = 254;
  is_cloned = λ f. false;
  rt_scope_universe = 0;
  rt_scope_link = 253;
  rt_scope_nowhere = 255;
  rtn_unicast = 1;
  rtn_blackhole = 6;
  rtn_multicast = 5;
  af_unspec = 0;
  af_inet = 2;
  af_inet6 = 10;
  af_mpls = 28;
}

dedup : List Prefix → List Prefix
dedup [] = []
dedup (p ∷ ps) = let rest = dedup ps in if listed p ps then rest else p ∷ rest

without : Prefix → List Prefix → List Prefix
without p [] = []
without p (q ∷ qs) = let rest = without p qs in if same_prefix p q then rest else q ∷ rest

built : List Prefix → List IfAddress
unfolding build_if_address
built [] = []
built (p ∷ ps) = build_if_address p 4 0 ∷ built ps

abbrev prefix_or : Option Prefix → List Prefix → List Prefix
prefix_or none ps = ps
prefix_or (some p) ps = p ∷ ps

abbrev drop_prefix : Option Prefix → List Prefix → List Prefix
drop_prefix none ps = ps
drop_prefix (some p) ps = without p ps

-- A kernel with the one interface 4.
abbrev nl : AddrSock (List Prefix)
unfolding built dedup without
nl = record {
  add_if_address = λ a k. (prefix_or a.prefix k, 0);
  delete_if_address = λ a k. (drop_prefix a.prefix k, 0);
  get_all_if_addresses = λ k. built (dedup k);
}

same_prefix_refl : (p : Prefix) → same_prefix p p ≡ true
same_prefix_refl p = (same_prefix_iff p p).1 refl

listed-same : (p q : Prefix) (ps : List Prefix) → same_prefix p q ≡ true → listed p ps ≡ listed q ps
listed-same p q ps h = ap (λ x. listed x ps) ((same_prefix_iff p q).0 h)

prefixes_of-built : (ps : List Prefix) → prefixes_of (built ps) ≡ ps
unfolding prefixes_of built build_if_address
prefixes_of-built [] = refl
prefixes_of-built (p ∷ ps) = ap (λ l. p ∷ l) (prefixes_of-built ps)

collect-built : (ps : List Prefix) → collect ip rtnl nl 4 10 0 (built ps) ≡ some (built ps)
unfolding collect built fits_family fits_rest get_family build_if_address
collect-built [] = refl
collect-built (p ∷ ps) = rw (collect-built ps) refl

count-dedup : (q : Prefix) (ps : List Prefix) → count q (dedup ps) ≡ as_number (listed q ps)
unfolding dedup
count-dedup q [] = refl
count-dedup q (p ∷ ps) = ground (arith, count-dedup q ps, listed-same p q ps)

listed-without :
    (p q : Prefix) (ps : List Prefix)
    → listed q (without p ps) ≡ (not (same_prefix p q) && listed q ps)
unfolding without
listed-without p q [] = ground arith
listed-without p q (r ∷ ps) =
    ground
      (arith, listed-without p q ps, same_prefix_iff p r, same_prefix_iff r q, same_prefix_iff p q)

keeps : KeepsAddresses ip rtnl nl 4 10 0
unfolding get_if_addrs built dedup without build_if_address
keeps = record {
  present = λ k q. listed q k;
  lists = λ k. built (dedup k);
  reads = λ k. collect-built (dedup k);
  once = λ k q. ap (count q) (prefixes_of-built (dedup k)) ∙ count-dedup q k;
  adds = λ a p q k e i. ap (λ o. listed q (prefix_or o k)) e;
  deletes = λ p q k. listed-without p q k;
}

abbrev asked : Prefix
asked = record { addr = 7; mask = 64 }

abbrev left : Prefix
left = record { addr = 9; mask = 64 }

abbrev request : List IfAddress
unfolding build_if_address
request = build_if_address asked 4 0 ∷ []

ltb-IsOrder : IsOrder ltb
ltb-IsOrder = record {
  irreflexive = λ a. ground arith;
  transitive = λ a b c h k. ground arith;
  connected = λ a b h k. ground arith;
}

do_sync_if_address-present_example :
    ((do_sync_if_address ip rtnl nl ltb 4 request 10 0 (left ∷ [])).1 ≡ done)
    × ((q : Prefix)
        → listed q (do_sync_if_address ip rtnl nl ltb 4 request 10 0 (left ∷ [])).0
          ≡ listed q (asked ∷ []))
unfolding keeps request new_prefixes fits_family fits_rest get_family build_if_address
do_sync_if_address-present_example =
    do_sync_if_address-present ip rtnl nl 4 10 0 keeps ltb request (asked ∷ []) (left ∷ [])
      ltb-IsOrder refl ((refl, refl), tt)
