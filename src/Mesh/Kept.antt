-- ===== src/Mesh/Kept.antt =====
-- 802.11s/Nl80211Handler.cpp: the calls that make and delete an interface in the kernel.
use fbmeshd.Prelude.{
  ℕ, true, false, none, [], ◌∷◌, ◌==◌, if◌then◌else◌, Bool-cases, inl, inr, nat_eq,
}
use fbmeshd.Mesh.{Bytes, Exception, ok, throw, value}
use fbmeshd.Mesh.Messages.{Command, Attribute}
use fbmeshd.Mesh.Handler.{
  Nl80211Handler, Driver, World, pure, lift, Leaves, continue-Leaves, in_kernel, send_and_receive,
}
use fbmeshd.Mesh.Links.{
  netif_from_phy, delete_interface, create_interface, is_valid, request, mac_attribute,
  on_new_interface,
}

-- The calls to the kernel leave the handler as it is.
module _ {K : Type 0} (d : Driver K) (P : Nl80211Handler → Type 0) where
  pub delete_interface-Leaves :
      (name : Bytes) (w : World K) → P w.handler → Leaves P (delete_interface d name w)
  unfolding delete_interface
  delete_interface-Leaves [] w h = h
  delete_interface-Leaves (c ∷ s) w h = elim (Bool-cases (d.if_nametoindex (c ∷ s) w.kernel == 0)) [
    | inl e ↦ rw e h
    | inr e ↦ rw e h
  ]

  pub create_interface-Leaves :
      (mtu phy : ℕ) (w : World K) → P w.handler → Leaves P (create_interface d mtu phy w)
  unfolding create_interface
  create_interface-Leaves mtu phy w h = continue-Leaves P (netif_from_phy phy w) _ h λ n w1 h1.
      continue-Leaves P (lift (if is_valid n then ok tt else throw Exception.runtime_error) w1) _ h1
        λ _ w2 h2. continue-Leaves P (lift (value n.maybe_if_name) w2) _ h2 λ name w3 h3.
          continue-Leaves P
            (send_and_receive d (on_new_interface d)
              (request Command.new_interface (
                Attribute.wiphy n.phy_index
                ∷ Attribute.ifname name
                ∷ Attribute.iftype 7
                ∷ mac_attribute d n.maybe_mac_address))
              none w3)
            _ h3
            λ address w4 h4.
              continue-Leaves P
                ((if mtu == 1500 then pure tt else in_kernel (d.set_mtu name mtu)) w4) _
                (elim (mtu == 1500)
                  as (λ b. Leaves P ((if b then pure tt else in_kernel (d.set_mtu name mtu)) w4)) [
                    | true ↦ h4
                    | false ↦ h4
                  ])
                λ _ w5 h5. h5
