-- ===== src/Mesh/Joins.antt =====
-- 802.11s/Nl80211Handler.cpp: the message of `joinMesh`; and 802.11s/NetInterface.cpp: the index that
-- `bringLinkUp` gives an interface.
use fbmeshd.Prelude.{
  ℕ, ◌≡◌, refl, sym, ap, ◌∙◌, Bool, true, false, Option, none, some, List, [], ◌∷◌, ◌++◌, nat_eq,
  ◌==◌, some_injective, if◌then◌else◌, Bool-cases, inl, inr,
}
use fbmeshd.Prelude.Int.{ℤ}
use fbmeshd.Prelude.Dict.{find}
use fbmeshd.Mesh.{Bytes, to_unsigned}
use fbmeshd.Mesh.Messages.{MeshParam, MeshSetup}
use fbmeshd.Mesh.Handler.{NetInterface, Driver, World, Yields, continue-Yields, Yields-map}
use fbmeshd.Mesh.Links.{adjust, set_link_flags, with_link, with_name, request_flags, netif_from_phy}
use fbmeshd.Mesh.Join.{
  join_message, join_params, join_setup, threshold_param, rsn_information_elements,
}
use fbmeshd.Mesh.Follows.{settings, with_index, seen_in}
use fbmeshd.Mesh.Served.{IsIn, AreParams, IsSetup, Joins, IsIndexed, IfSuccess, found-Yields}

IsIn-append : {A : Type 0} (a : A) (l r : List A) → IsIn a r → IsIn a (l ++ r)
IsIn-append a [] r h = h
IsIn-append a (x ∷ l) r h = inr (IsIn-append a l r h)

threshold-IsIn :
    (o : Option ℤ) (t : ℤ) (r : List MeshParam)
    → o ≡ some t
    → IsIn (MeshParam.rssi_threshold (to_unsigned 32 t)) (threshold_param o ++ r)
threshold-IsIn none t r e = cc
threshold-IsIn (some u) t r e =
    inl (ap (λ x. MeshParam.rssi_threshold (to_unsigned 32 x)) (sym (some_injective e)))

join_params-AreParams : (n : NetInterface) → AreParams (settings n) (join_params n)
unfolding join_params
join_params-AreParams n =
    let after : (p : MeshParam) (r : List MeshParam)
        → IsIn p r
        → IsIn p (threshold_param n.maybe_rssi_threshold ++ r) =
      λ p r h. IsIn-append p (threshold_param n.maybe_rssi_threshold) r h in
    record {
      threshold = λ t e. threshold-IsIn n.maybe_rssi_threshold t _ e;
      peers = after _ _ (inl refl);
      ttl = after _ _ (inr (inl refl));
      element_ttl = after _ _ (inr (inr (inl refl)));
      timeout = after _ _ (inr (inr (inr (inl refl))));
      interval = after _ _ (inr (inr (inr (inr (inl refl)))));
    }

setup_of : Bool → List MeshSetup
setup_of b =
    MeshSetup.userspace_mpm
    ∷ (if b
        then MeshSetup.userspace_auth
          ∷ MeshSetup.userspace_ampe
          ∷ MeshSetup.auth_protocol 1
          ∷ MeshSetup.setup_ie rsn_information_elements
          ∷ []
        else [])

setup_of-IsSetup : (b : Bool) → IsSetup b (setup_of b)
unfolding setup_of
setup_of-IsSetup true = record {
  peering = inl refl;
  authentication = ((λ _. inr (inl refl)), (λ _. refl));
  encryption = ((λ _. inr (inr (inl refl))), (λ _. refl));
  protocol = λ _. inr (inr (inr (inl refl)));
  elements = λ _. inr (inr (inr (inr (inl refl))));
}
setup_of-IsSetup false = record {
  peering = inl refl;
  authentication = ((λ e. cc), (λ i. elim i [ inl e ↦ cc | inr x ↦ elim x [ ] ]));
  encryption = ((λ e. cc), (λ i. elim i [ inl e ↦ cc | inr x ↦ elim x [ ] ]));
  protocol = λ e. cc;
  elements = λ e. cc;
}

join_setup-IsSetup : (n : NetInterface) → IsSetup n.is_encrypted (join_setup n)
unfolding join_setup setup_of
join_setup-IsSetup n = setup_of-IsSetup n.is_encrypted

pub join_message-Joins :
    (u : Bool) (i : ℕ) (n : NetInterface) → Joins u (settings n) i (join_message u i n)
unfolding join_message
join_message-Joins u i n = record {
  command = refl;
  mesh = inl refl;
  index = inr (inl refl);
  frequency = inr (inr (inl refl));
  width = inr (inr (inr (inl refl)));
  center1 = inr (inr (inr (inr (inl refl))));
  center2 = inr (inr (inr (inr (inr (inl refl)))));
  params = (join_params n, inr (inr (inr (inr (inr (inr (inl refl)))))), join_params-AreParams n);
  setup = λ e. (
    join_setup n,
    rw e (inr (inr (inr (inr (inr (inr (inr (inl refl)))))))),
    join_setup-IsSetup n,
  );
}

find-adjust :
    (g : NetInterface → NetInterface) (key : ℕ) (n : NetInterface) (m : List (ℕ × NetInterface))
    → find key m ≡ some n
    → find key (adjust key g m) ≡ some (g n)
unfolding adjust
find-adjust g key n [] h = cc
find-adjust g key n ((k, x) ∷ m) h = elim (Bool-cases (k == key)) [
  | inl same ↦
      let h' : some x ≡ some n = rw same at h in
      rw same (rw same (ap (λ y. some (g y)) (some_injective h')))
  | inr apart ↦
      let h' : find key m ≡ some n = rw apart at h in rw apart (rw apart (find-adjust g key n m h'))
]

module _ {K : Type 0} (d : Driver K) where
  at_once :
      (key i : ℕ) (name : Bytes) (k : K) (n : NetInterface) (w : World K)
      → find key w.handler.net_interfaces ≡ some (record n { maybe_if_index = some i })
      → n.maybe_if_name ≡ some name
      → d.link_index name k ≡ some i
      → IsIndexed d key w
  at_once key i name k n w e named given x hx =
      let same : with_index (record n { maybe_if_index = some i }) ≡ x =
        some_injective (ap (seen_in with_index) (sym e) ∙ hx) in
      (
        i,
        ap (λ y. y.maybe_if_index) (sym same),
        (name, k, ap (λ y. y.maybe_if_name) (sym same) ∙ named, given),
      )

  request_flags-IsIndexed :
      (key : ℕ) (name : Bytes) (up : Bool) (w : World K)
      → IsIndexed d key w
      → Yields (λ _ w'. IsIndexed d key w') (request_flags d name up w)
  request_flags-IsIndexed key name up w h = elim (Bool-cases (d.has_request w.kernel)) [
    | inl e ↦ rw e h
    | inr e ↦ rw e h
  ]

  with_link-IsIndexed :
      (key : ℕ) (name : Bytes) (up : Bool) (n : NetInterface) (w : World K) (o : Option ℕ)
      → find key w.handler.net_interfaces ≡ some n
      → n.maybe_if_name ≡ some name
      → d.link_index name w.kernel ≡ o
      → Yields (IfSuccess (IsIndexed d key)) (with_link d key name up o w)
  with_link-IsIndexed key name up n w none e named given = λ h. cc
  with_link-IsIndexed key name up n w (some i) e named given =
      let w1 = record w {
        handler = record w.handler {
          net_interfaces =
              adjust key (λ x. record x { maybe_if_index = some i }) w.handler.net_interfaces;
        };
      } in
      Yields-map (λ _ w'. IsIndexed d key w') (IfSuccess (IsIndexed d key))
        (request_flags d name up w1)
        (request_flags-IsIndexed key name up w1 (
          at_once key i name w.kernel n w1
            (find-adjust (λ x. record x { maybe_if_index = some i }) key n w.handler.net_interfaces
              e)
            named given))
        λ s w2 h _. h

  with_name-IsIndexed :
      (key : ℕ) (up : Bool) (n : NetInterface) (w : World K) (o : Option Bytes)
      → find key w.handler.net_interfaces ≡ some n
      → n.maybe_if_name ≡ o
      → Yields (IfSuccess (IsIndexed d key)) (with_name d key o up w)
  with_name-IsIndexed key up n w none e named = λ h. cc
  with_name-IsIndexed key up n w (some name) e named = elim (Bool-cases (d.has_socket w.kernel)) [
    | inl b ↦ rw b (with_link-IsIndexed key name up n w (d.link_index name w.kernel) e named refl)
    | inr b ↦ rw b (λ h. cc)
  ]

  -- Once a link is up, its interface has the index that the kernel gave.
  pub set_link_flags-IsIndexed :
      (key : ℕ) (up : Bool) (w : World K)
      → Yields (IfSuccess (IsIndexed d key)) (set_link_flags d key up w)
  unfolding set_link_flags
  set_link_flags-IsIndexed key up w =
      continue-Yields (λ n w'. (find key w.handler.net_interfaces ≡ some n) × (w' ≡ w))
        (IfSuccess (IsIndexed d key)) (netif_from_phy key w) _
        (found-Yields (find key w.handler.net_interfaces) w)
        λ n w1 h1. rw (h1.1) (with_name-IsIndexed key up n w n.maybe_if_name h1.0 refl)
