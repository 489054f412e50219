-- ===== src/Mesh/Constructed.antt =====
-- 802.11s/Nl80211Handler.cpp: the state that the constructor leaves.
use fbmeshd.Prelude.{
  ℕ, ◌≡◌, ap, subst, sym, ◌≤◌, refl, ◌∙◌, Bool, true, false, none, some, List, [], ◌∷◌, ◌++◌, arith,
  All, nat_eq,
}
use fbmeshd.Prelude.Dict.{Unique, is_some}
use fbmeshd.Mesh.{Bytes, ok, any-Ensures, equal-Ensures}
use fbmeshd.Mesh.Settings.{Flags, Sizes, validate_configuration, validate_configuration_iff}
use fbmeshd.Mesh.Handler.{
  NetInterface, Nl80211Handler, Driver, World, lift, check, send_and_receive, Yields, Leaves,
  continue-Yields, continue-Leaves, Yields-map, both-Yields,
}
use fbmeshd.Mesh.Links.{lookup_mesh_netif, first_named}
use fbmeshd.Mesh.Wiphy.{populate_netifs}
use fbmeshd.Mesh.Reported.{IsFresh, populate_netifs-Ensures}
use fbmeshd.Mesh.Apply.{
  Parsers, emplace_all, init_nl_sockets, construct, has_group, apply_configuration, is_unset,
  get_nl80211_multicast_groups,
}
use fbmeshd.Mesh.Claims.{IsUsable, Claim, IsConfigured}
use fbmeshd.Mesh.Applied.{apply_configuration-Claim}
use fbmeshd.Mesh.Ordered.{emplace_ordered-All, emplace_all-IsAscending, IsAscending-Unique}

-- No configuration has given the interface a name, and it is under its own phy.
abbrev pub IsNew : ℕ × NetInterface → Type 0
IsNew e = (e.1.maybe_if_name ≡ none) × (e.1.phy_index ≡ e.0)

emplace_all-All : (ns : List NetInterface) → All IsFresh ns → All IsNew (emplace_all ns)
unfolding emplace_all
emplace_all-All [] h = tt
emplace_all-All (n ∷ ns) h =
    emplace_ordered-All IsNew n.phy_index n (emplace_all ns) (h.0.0, refl) (emplace_all-All ns h.1)

first_named-at :
    (key : ℕ) (n : NetInterface) (name : Bytes) (before after : List (ℕ × NetInterface))
    → All IsNew before
    → n.maybe_if_name ≡ some name
    → first_named (before ++ (key, n) ∷ after) ≡ some n
first_named-at key n name [] after h e = rw (ap is_some e)
first_named-at key n name (x ∷ before) after h e =
    rw (ap is_some h.0.0) (first_named-at key n name before after h.1 e)

All-split :
    (P : ℕ × NetInterface → Type 0) (before : List (ℕ × NetInterface)) (x : ℕ × NetInterface)
    (after : List (ℕ × NetInterface))
    → All P (before ++ x ∷ after)
    → All P before × P x × All P after
All-split P [] x after h = (tt, h.0, h.1)
All-split P (b ∷ before) x after h =
    let rest = All-split P before x after h.1 in ((h.0, rest.0), rest.1, rest.2)

-- One interface is the mesh's, with its index's place in the map, and no other has a name.
pub record IsMeshing (p : Parsers) (name : Bytes) (f : Flags) (h : Nl80211Handler) : Type 0 where
  pub before : List (ℕ × NetInterface)
  pub was : NetInterface
  pub netif : NetInterface
  pub after : List (ℕ × NetInterface)
  pub has : h.net_interfaces ≡ before ++ (netif.phy_index, netif) ∷ after
  pub others : All IsNew before × All IsNew after
  pub found : lookup_mesh_netif h.net_interfaces ≡ ok netif
  pub usable : IsUsable f was
  pub configured : IsConfigured p name f was netif
  pub whole :
      (netif.ttl ≡ f.ttl)
      × (netif.element_ttl ≡ f.ttl_element)
      × (netif.max_peer_links ≡ f.max_peer_links)

abbrev Fits : Flags → Type 0
Fits f = (f.ttl ≤ 255) × (f.ttl_element ≤ 255) × (f.max_peer_links ≤ 255)

Claim-IsMeshing :
    (p : Parsers) (name : Bytes) (f : Flags) (m : List (ℕ × NetInterface)) (h : Nl80211Handler)
    → Fits f
    → All IsNew m
    → Claim p name f m h.net_interfaces
    → IsMeshing p name f h
unfolding lookup_mesh_netif
Claim-IsMeshing p name f m h fits new c =
    let (old, this, rest) =
      All-split IsNew c.before (c.key, c.was) c.after (subst (All IsNew) c.had new) in
    let conf = c.configured in
    let place : c.claimed.phy_index ≡ c.key = conf.kept_phy ∙ this.1 in
    record {
      before = c.before;
      was = c.was;
      netif = c.claimed;
      after = c.after;
      has = subst (λ k. h.net_interfaces ≡ c.before ++ (k, c.claimed) ∷ c.after) (sym place) c.has;
      others = (old, rest);
      found =
          rw (c.has, lookup_mesh_netif)
            (rw (first_named-at c.key c.claimed name c.before c.after old conf.if_name));
      usable = c.usable;
      configured = conf;
      whole = (
        omega (arith, conf.lives.0, fits.0),
        omega (arith, conf.lives.1, fits.1),
        omega (arith, conf.peers, fits.2),
      );
    }

module _ {K : Type 0} (d : Driver K) where
  groups-Leaves :
      (name : Bytes) (w : World K)
      → w.handler.interface_name ≡ name
      → Leaves (λ h. h.interface_name ≡ name) (get_nl80211_multicast_groups d w)
  unfolding get_nl80211_multicast_groups
  groups-Leaves name w e =
      continue-Leaves (λ h. h.interface_name ≡ name) (send_and_receive d _ _ _ w) _ e λ _ w1 e1. e1

  init_nl_sockets-Leaves :
      (name : Bytes) (w : World K)
      → w.handler.interface_name ≡ name
      → Leaves (λ h. h.interface_name ≡ name) (init_nl_sockets d w)
  unfolding init_nl_sockets
  init_nl_sockets-Leaves name w e =
      let P = λ (h : Nl80211Handler). h.interface_name ≡ name in
      continue-Leaves P (get_nl80211_multicast_groups d w) _ (groups-Leaves name w e) λ _ w1 e1.
        continue-Leaves P (has_group d (b'm' ∷ b'l' ∷ b'm' ∷ b'e' ∷ []) w1) _ e1 λ _ w2 e2. e2

  populate_netifs-Leaves :
      (sizes : Sizes) (name : Bytes) (w : World K)
      → w.handler.interface_name ≡ name
      → Leaves (λ h. h.interface_name ≡ name) (populate_netifs sizes d w)
  unfolding populate_netifs
  populate_netifs-Leaves sizes name w e = e

  check-Yields : (b : Bool) (w : World K) → Yields (λ _ w'. w' ≡ w) (check b w)
  check-Yields true w = refl
  check-Yields false w = tt

  module _ (sizes : Sizes) (p : Parsers) where
    apply-IsMeshing :
        (name : Bytes) (f : Flags) (w : World K)
        → w.handler.interface_name ≡ name
        → Fits f
        → All IsNew w.handler.net_interfaces
        → Unique w.handler.net_interfaces
        → Yields (λ _ w'. IsMeshing p name f w'.handler) (apply_configuration d p f w)
    apply-IsMeshing name f w e fits new u =
        Yields-map
          (λ _ w'.
            Claim p w.handler.interface_name f w.handler.net_interfaces w'.handler.net_interfaces)
          (λ _ w'. IsMeshing p name f w'.handler) (apply_configuration d p f w)
          (apply_configuration-Claim d p f w u)
          λ _ w' c.
            Claim-IsMeshing p name f w.handler.net_interfaces w'.handler fits new
              (subst (λ s. Claim p s f w.handler.net_interfaces w'.handler.net_interfaces) e c)

    -- A construction that ends without an exception, whatever the driver answers, leaves exactly
    -- one interface with a name, the one that `lookupMeshNetif` finds: it is under its own phy, was
    -- able to mesh on the frequency of the flags, and has its name and the settings of the flags,
    -- the address excepted, with no limit cut off by its narrower type.
    pub construct-Yields :
        (f : Flags) (w : World K)
        → Yields
            (λ _ w'. IsMeshing p w.handler.interface_name f w'.handler)
            (construct d sizes p f w)
    unfolding construct
    construct-Yields f w =
        let name = w.handler.interface_name in
        let Named = λ (h : Nl80211Handler). h.interface_name ≡ name in
        let Q = λ (_ : Unit {0}) (w' : World K). IsMeshing p name f w'.handler in
        let valid = validate_configuration sizes p.stoi name f in
        continue-Yields (λ _ w'. w' ≡ w) Q (check (is_unset w.handler.global_nl_handler) w) _
          (check-Yields (is_unset w.handler.global_nl_handler) w)
          λ _ w1 e1. rw e1 (
            continue-Yields (λ a w'. (valid ≡ ok a) × Named w'.handler) Q (lift valid w) _
              (both-Yields (λ a. valid ≡ ok a) Named (lift valid w) (equal-Ensures valid) refl)
              λ _ w2 h2.
                let accepted = (validate_configuration_iff sizes p.stoi name f).0 h2.0 in
                continue-Yields (λ _ w'. Unit × Named w'.handler) Q (init_nl_sockets d w2) _
                  (both-Yields (λ _. Unit) Named (init_nl_sockets d w2)
                    (any-Ensures (init_nl_sockets d w2).0) (init_nl_sockets-Leaves name w2 h2.1))
                  λ _ w3 h3.
                    continue-Yields (λ ns w'. All IsFresh ns × Named w'.handler) Q
                      (populate_netifs sizes d w3) _
                      (both-Yields (All IsFresh) Named (populate_netifs sizes d w3)
                        (populate_netifs-Ensures sizes d w3)
                        (populate_netifs-Leaves sizes name w3 h3.1))
                      λ ns w4 h4.
                        apply-IsMeshing name f
                          (record w4 {
                            handler = record w4.handler { net_interfaces = emplace_all ns };
                          })
                          h4.1 (accepted.3.1, accepted.4.1, accepted.2) (emplace_all-All ns h4.0)
                          (IsAscending-Unique (emplace_all ns) (emplace_all-IsAscending ns)))
