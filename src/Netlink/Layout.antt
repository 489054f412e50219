-- ===== src/Netlink/Layout.antt =====
-- rnl/NetlinkRoute.cpp: how long the attribute of the next hops is.
use fbmeshd.Prelude.{
  ℕ, ◌+◌, ◌*◌, ◌/◌, ◌%◌, ◌^◌, ◌≤◌, ◌<◌, ◌≡◌, ◌⊎◌, inl, inr, refl, sym, ap, ◌∙◌, Bool, true, false,
  ◌||◌, Option, none, some, List, arith, ◌==◌, ltb, if◌then◌else◌, length, Bool-cases,
  some_injective,
}
use fbmeshd.Rnl.{Route, NextHop}
use fbmeshd.Rnl.Kernel.{Rtnl}
use fbmeshd.Netlink.Requests.{is_success}
use fbmeshd.Netlink.Attributes.{
  Wire, max_nl_payload_size, max_labels, Payload, empty_payload, address, via_address, number,
  labels, Hop, add_sub_attributes, push, swap, php, pop_and_lookup,
}
use fbmeshd.Netlink.NextHops.{
  Made, or_no_space, start, ended, add_ip_gateway, pop_at, swap_or_php_at, push_at, push_type_at,
  by_action, add_ip_nexthop, encode_label, encode_labels, with_grown, via_len, add_swap_label,
  add_via, add_swap_or_php_nexthop, add_pop_nexthop, push_gateway, push_labels_at,
  add_label_nexthop,
}

-- The macros and sizes of the kernel's headers: alignment to 4 bytes, a header of 4 bytes for an
-- attribute and of 8 for a next hop, and addresses of 4 or 16 bytes.
pub record IsWire (w : Wire) : Type 0 where
  pub aligns : (n : ℕ) → w.rta_align n ≡ (n + 3) / 4 * 4
  pub aligns_message : (n : ℕ) → w.nlmsg_align n ≡ (n + 3) / 4 * 4
  pub lengths : (n : ℕ) → w.rta_length n ≡ 4 + n
  pub of_attribute : w.sizeof_rtattr ≡ 4
  pub of_hop : w.sizeof_rtnexthop ≡ 8
  pub of_address : (a : ℕ) → (w.byte_count a ≡ 4) ⊎ (w.byte_count a ≡ 16)

-- A hop, and the attribute's length with it, from the length before: the length has grown by what
-- the hop takes.
abbrev pub Grows : ℕ → Made (ℕ × Hop) → Type 0
Grows before none = Unit
Grows before (some (result, (x, h))) =
    is_success result ≡ true → (x + 8 ≡ before + (h.rtnh_len + 3) / 4 * 4) × (x < 2 ^ 16)

-- A sub attribute of some length.
abbrev Adds : ℕ → ℕ × Hop → ℕ × Hop → Type 0
Adds len (x, h) (y, k) = (y ≡ x + (len + 7) / 4 * 4) × (k.rtnh_len ≡ h.rtnh_len) × (y < 2 ^ 16)

module _ (w : Wire) (laws : IsWire w) where
  sub-Adds :
      (type : ℕ) (payload : Payload) (len : ℕ) (r t : ℕ × Hop)
      → r.0 % 4 ≡ 0
      → add_sub_attributes w type payload len r ≡ some t
      → Adds len r t
  unfolding add_sub_attributes
  sub-Adds type payload len (x, h) (y, k) four e =
      let guard = ltb max_nl_payload_size (w.rta_align x + w.rta_align (w.rta_length len)) in
      elim (Bool-cases guard) [
        | inl full ↦ absurd (ground (arith, rw full at e))
        | inr fits ↦
            let same = some_injective (rw fits at e) in
            let lens = ap (λ (r : ℕ × Hop). r.0) same in
            let hops = ap (λ (r : ℕ × Hop). r.1.rtnh_len) same in
            (
              ground (
                arith,
                lens,
                four,
                fits,
                laws.aligns x,
                laws.aligns_message x,
                laws.aligns (w.rta_length len),
                laws.lengths len,
              ),
              sym hops,
              omega (arith, lens),
            )
      ]

  or_no_space-Grows :
      (before : ℕ) (r : ℕ × Hop) (o : Option (ℕ × Hop)) (f : ℕ × Hop → Made (ℕ × Hop))
      → ((t : ℕ × Hop) → o ≡ some t → Grows before (f t))
      → Grows before (or_no_space r o f)
  or_no_space-Grows before r none f h = λ e. absurd (ground (arith, e))
  or_no_space-Grows before r (some t) f h = h t refl

  sub-Grows :
      (before type : ℕ) (payload : Payload) (len : ℕ) (r : ℕ × Hop) (f : ℕ × Hop → Made (ℕ × Hop))
      → r.0 % 4 ≡ 0
      → ((t : ℕ × Hop) → Adds len r t → Grows before (f t))
      → Grows before (or_no_space r (add_sub_attributes w type payload len r) f)
  sub-Grows before type payload len r f four h =
      or_no_space-Grows before r (add_sub_attributes w type payload len r) f
        (λ t e. h t (sub-Adds type payload len r t four e))

  -- The last attribute of a hop, whose length so far is what it has added.
  last-Grows :
      (before type : ℕ) (payload : Payload) (len : ℕ) (r : ℕ × Hop)
      → r.0 % 4 ≡ 0
      → r.0 + 8 ≡ before + r.1.rtnh_len
      → r.1.rtnh_len % 4 ≡ 0
      → Grows before (or_no_space r (add_sub_attributes w type payload len r) (ended w len))
  last-Grows before type payload len r four eq len4 =
      sub-Grows before type payload len r (ended w len) four
        (λ t (a, b, z) s. (ground (arith, a, b, eq, len4, laws.of_attribute), z))

  ip-Grows :
      (c : Rtnl) (before i : ℕ) (route : Route) (via : Option ℕ)
      → before % 4 ≡ 0
      → before < 2 ^ 16
      → Grows before (add_ip_gateway w c route via (start w before i))
  ip-Grows c before i route none four lt =
      let own : 8 + before ≡ before + (w.sizeof_rtnexthop + 3) / 4 * 4 =
        ground (arith, laws.of_hop) in
      elim (Bool-cases (route.route_type == c.rtn_multicast || route.scope == c.rt_scope_link)) [
        | inl e ↦ rw e (λ s. (omega (arith, own), lt))
        | inr e ↦ rw e (λ s. absurd (ground (arith, s)))
      ]
  ip-Grows c before i route (some via) four lt =
      last-Grows before w.rta_gateway (address via) (w.byte_count via) (start w before i) four
        (omega (arith, laws.of_hop)) (omega (arith, laws.of_hop))

  pop-Grows : (before : ℕ) (i : Option ℕ) → before % 4 ≡ 0 → Grows before (pop_at w before i)
  pop-Grows before none four = λ s. absurd (ground (arith, s))
  pop-Grows before (some i) four =
      last-Grows before w.rta_oif (number i) 4 (start w before i) four (omega (arith, laws.of_hop))
        (omega (arith, laws.of_hop))

  via-Grows :
      (c : Rtnl) (before : ℕ) (path : NextHop) (via : Option ℕ) (r : ℕ × Hop)
      → r.0 % 4 ≡ 0
      → before % 4 ≡ 0
      → before ≤ r.0
      → r.1.rtnh_len ≡ 8
      → Grows before (add_via w c before path via r)
  via-Grows c before path none r four four' le len = tt
  via-Grows c before path (some via) r four four' le len =
      last-Grows before w.rta_via (via_address path.family via) (via_len c path.family)
        (with_grown before r) four (omega (arith, le, len)) (omega (arith, le, len, four, four'))

  labelled-Grows :
      (c : Rtnl) (before : ℕ) (path : NextHop) (i : ℕ) (label : Option ℕ)
      → before % 4 ≡ 0
      → Grows before (
          or_no_space
            (start w before i)
            (add_swap_label w label (start w before i))
            (add_via w c before path path.gateway))
  labelled-Grows c before path i none four =
      via-Grows c before path path.gateway (start w before i) four four (omega arith) laws.of_hop
  labelled-Grows c before path i (some l) four =
      sub-Grows before w.rta_newdst (number (encode_label w l true)) 4 (start w before i) _ four
        (λ t (a, b, z).
          via-Grows c before path path.gateway t (omega (arith, a, four)) four (omega (arith, a))
            (b ∙ laws.of_hop))

  swap-Grows :
      (c : Rtnl) (before : ℕ) (path : NextHop) (i : Option ℕ)
      → before % 4 ≡ 0
      → Grows before (swap_or_php_at w c before path i)
  swap-Grows c before path none four = tt
  swap-Grows c before path (some i) four = labelled-Grows c before path i path.swap_label four

  push_gateway-Grows :
      (before : ℕ) (via : Option ℕ) (u : ℕ × Hop)
      → u.0 % 4 ≡ 0
      → before % 4 ≡ 0
      → before ≤ u.0
      → u.1.rtnh_len ≡ 8
      → Grows before (push_gateway w via (with_grown before u))
  push_gateway-Grows before none u four four' le len = λ s. absurd (ground (arith, s))
  push_gateway-Grows before (some via) u four four' le len =
      last-Grows before w.rta_gateway (address via) (w.byte_count via) (with_grown before u) four
        (omega (arith, le, len)) (omega (arith, le, len, four, four'))

  push_labels-Grows :
      (before : ℕ) (path : NextHop) (ls : Option (List ℕ)) (r : ℕ × Hop)
      → r.0 % 4 ≡ 0
      → before % 4 ≡ 0
      → before ≤ r.0
      → r.1.rtnh_len ≡ 8
      → Grows before (push_labels_at w before path ls r)
  push_labels-Grows before path none r four four' le len = λ s. absurd (ground (arith, s))
  push_labels-Grows before path (some ls) r four four' le len =
      let added =
        sub-Grows before w.mpls_iptunnel_dst (labels (encode_labels w ls)) (length ls * 4) r
          (push_type_at w before path) four
          (λ t (a, b, z).
            sub-Grows before w.rta_encap_type (number w.lwtunnel_encap_mpls) 2 t
              (λ u. push_gateway w path.gateway (with_grown before u)) (omega (arith, a, four))
              (λ u (x, y, z).
                push_gateway-Grows before path.gateway u (omega (arith, a, x, four)) four'
                  (omega (arith, a, x, le)) (y ∙ b ∙ len))) in
      elim (Bool-cases (ltb max_labels (length ls))) [ inl e ↦ rw e tt | inr e ↦ rw e added ]

  push-Grows :
      (before : ℕ) (path : NextHop) (i : Option ℕ)
      → before % 4 ≡ 0
      → Grows before (push_at w before path i)
  push-Grows before path none four = tt
  push-Grows before path (some i) four =
      sub-Grows before w.rta_encap empty_payload 0 (start w before i)
        (push_labels_at w before path path.push_labels) four
        (λ t (a, b, z).
          push_labels-Grows before path path.push_labels t (omega (arith, a, four)) four
            (omega (arith, a)) (b ∙ laws.of_hop))

  if-Grows :
      (before : ℕ) (b : Bool) (x y : Made (ℕ × Hop))
      → Grows before x
      → Grows before y
      → Grows before (if b then x else y)
  if-Grows before true x y h k = h
  if-Grows before false x y h k = k

  pub by_action-Grows :
      (c : Rtnl) (before : ℕ) (path : NextHop) (route : Route) (action : Option ℕ)
      → before % 4 ≡ 0
      → before < 2 ^ 16
      → Grows before (by_action w c before path route action)
  unfolding add_ip_nexthop add_swap_or_php_nexthop add_pop_nexthop add_label_nexthop
  by_action-Grows c before path route none four lt = ip-Grows c before _ route path.gateway four lt
  by_action-Grows c before path route (some action) four lt =
      if-Grows before (action == push) _ _ (push-Grows before path path.if_index four) (
        if-Grows before (action == swap || action == php) _ _
          (swap-Grows c before path path.if_index four)
          (if-Grows before (action == pop_and_lookup) _ _ (pop-Grows before path.if_index four)
            (λ s. absurd (ground (arith, s)))))
