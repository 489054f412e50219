-- ===== src/Netlink/Space.antt =====
-- rnl/NetlinkRoute.cpp: the attribute of the next hops is as long as its hops.
use fbmeshd.Prelude.{
  ℕ, suc, ◌+◌, ◌%◌, ◌^◌, ◌≡◌, inl, inr, subst, true, none, some, List, [], ◌∷◌, ◌++◌, arith, length,
  length-append, Bool-cases,
}
use fbmeshd.Rnl.{Route, NextHop}
use fbmeshd.Rnl.Kernel.{Rtnl}
use fbmeshd.Netlink.Requests.{is_success}
use fbmeshd.Netlink.Attributes.{Wire, Hop, Rta}
use fbmeshd.Netlink.NextHops.{
  Made, after_hop, add_nexthop, with_hop, add_hops, add_multi_path_nexthop,
}
use fbmeshd.Netlink.Layout.{IsWire, Grows, by_action-Grows}

module _ (w : Wire) (laws : IsWire w) where
  -- The space that some hops take, each up to its alignment.
  abbrev pub space : List Hop → ℕ
  space [] = 0
  space (h ∷ hs) = w.rta_align h.rtnh_len + space hs

  space-append : (hs ks : List Hop) → space (hs ++ ks) ≡ space hs + space ks
  space-append [] ks = omega arith
  space-append (h ∷ hs) ks = omega (arith, space-append hs ks)

  abbrev pub Laid : Rta → Type 0
  Laid rta = rta.rta_len ≡ (w.rta_length 0 + space rta.hops) % 2 ^ 16

  space-four : (hs : List Hop) → space hs % 4 ≡ 0
  space-four [] = omega arith
  space-four (h ∷ hs) = omega (arith, space-four hs, laws.aligns h.rtnh_len)

  Laid-four : (rta : Rta) → Laid rta → rta.rta_len % 4 ≡ 0
  Laid-four rta laid = omega (arith, laid, laws.lengths 0, space-four rta.hops)

  abbrev pub HasHops : ℕ → Made Rta → Type 0
  HasHops n none = Unit
  HasHops n (some (result, rta)) = is_success result ≡ true → Laid rta × (length rta.hops ≡ n)

  after_hop-HasHops :
      (n before : ℕ) (rta : Rta) (o : Made (ℕ × Hop)) (f : Rta → Made Rta)
      → Laid rta
      → before ≡ (rta.rta_len + 8) % 2 ^ 16
      → Grows before o
      → ((t : Rta) → Laid t → length t.hops ≡ suc (length rta.hops) → HasHops n (f t))
      → HasHops n (after_hop rta o f)
  after_hop-HasHops n before rta none f laid eq g h = tt
  after_hop-HasHops n before rta (some (result, (x, k))) f laid eq g h =
      elim (Bool-cases (is_success result)) [
        | inl e ↦
            let (grown, bound) = g e in
            let t = with_hop rta (x, k) in
            let more = space-append rta.hops (k ∷ []) in
            rw e (
              h t (omega (arith, laid, eq, grown, bound, more, laws.aligns k.rtnh_len))
                (omega (arith, length-append rta.hops (k ∷ []))))
        | inr e ↦ rw e (λ s. absurd (ground (arith, s, e)))
      ]

  add_hops-HasHops :
      (c : Rtnl) (route : Route) (paths : List NextHop) (rta : Rta)
      → Laid rta
      → HasHops (length rta.hops + length paths) (add_hops w c route paths rta)
  unfolding add_hops add_nexthop
  add_hops-HasHops c route [] rta laid = λ s. (laid, omega arith)
  add_hops-HasHops c route (path ∷ paths) rta laid =
      let before = (rta.rta_len + w.sizeof_rtnexthop) % 2 ^ 16 in
      let size : before ≡ (rta.rta_len + 8) % 2 ^ 16 = omega (arith, laws.of_hop) in
      let four' : before % 4 ≡ 0 = omega (arith, size, Laid-four rta laid) in
      after_hop-HasHops (length rta.hops + suc (length paths)) before rta
        (add_nexthop w c before path route) _ laid size
        (by_action-Grows w laws c before path route path.label_action four' (omega (arith, size)))
        (λ t laid' more.
          subst (λ n. HasHops n (add_hops w c route paths t)) (omega (arith, more))
            (add_hops-HasHops c route paths t laid'))

  -- When the next hops of a route are added with success, the attribute has one hop for each of
  -- them, and its length is, in 16 bits, that of its header and of the hops, each up to its
  -- alignment: whatever the label actions are, the lengths by which the hops are walked and the
  -- length of the attribute agree. It holds if the kernel's headers are what `IsWire` says.
  pub add_multi_path_nexthop-HasHops :
      (c : Rtnl) (route : Route)
      → HasHops (length route.next_hops) (add_multi_path_nexthop w c route)
  unfolding add_multi_path_nexthop
  add_multi_path_nexthop-HasHops c route =
      let first : Rta = record { rta_len = w.rta_length 0; hops = [] } in
      subst (λ n. HasHops n (add_hops w c route route.next_hops first)) (omega arith)
        (add_hops-HasHops c route route.next_hops first (omega (arith, laws.lengths 0)))
