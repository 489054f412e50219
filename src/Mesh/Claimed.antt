-- ===== src/Mesh/Claimed.antt =====
-- 802.11s/Nl80211Handler.cpp: when `applyConfiguration` ends without an exception.
use mathlib.Core.List.{append_assoc}
use fbmeshd.Prelude.{
  ◌⊎◌, ℕ, ◌≡◌, ◌≢◌, ◌∙◌, refl, sym, subst, true, Option, List, [], ◌∷◌, ◌++◌, arith, All,
  Bool-cases, inl, inr, nat_eq, map,
}
use fbmeshd.Prelude.Int.{ℤ}
use fbmeshd.Prelude.Dict.{Unique}
use fbmeshd.Mesh.{Bytes, ok}
use fbmeshd.Mesh.Csv.{parse_csv_flag}
use fbmeshd.Mesh.Settings.{Flags}
use fbmeshd.Mesh.Handler.{NetInterface, Driver, World, catch, ◌>>◌}
use fbmeshd.Mesh.Wiphy.{any}
use fbmeshd.Mesh.Links.{netif_from_phy, delete_interface, create_interface, is_valid}
use fbmeshd.Mesh.Apply.{
  Parsers, is_usable, width_of_type, configured_mac, set_configuration, make_interface, apply_to,
  apply_configuration,
}
use fbmeshd.Mesh.Places.{Absent, Unique-Absent}
use fbmeshd.Mesh.Claims.{
  IsUsable, is_usable_iff, Claim, Holds, IsConfigured, IsClaimed, netif_from_phy-at,
  set_configuration-Yields,
}
use fbmeshd.Mesh.Applied.{apply_configuration-Claim}
use fbmeshd.Mesh.Softly.{
  Succeeds, Softly, both-Succeeds, continue-Succeeds, continue-Softly, caught-Succeeds,
}
use fbmeshd.Mesh.Answered.{IsAnswering, delete_interface-Softly, create_interface-Softly}

-- The flags whose texts can be read.
pub record IsReadable {K : Type 0} (d : Driver K) (p : Parsers) (f : Flags) : Type 0 where
  pub width : ℕ
  pub groups : List ℤ
  pub mac : Option Bytes
  pub reads_width : width_of_type f.channel_type ≡ ok width
  pub reads_groups : parse_csv_flag p.stoi f.sae_groups ≡ ok groups
  pub reads_mac : configured_mac d p f.mac_address ≡ ok mac

usable-capable : (f : Flags) (n : NetInterface) → is_usable f n ≡ true → n.is_mesh_capable ≡ true
unfolding is_usable
usable-capable f n h = ground arith

module _ {K : Type 0} (d : Driver K) (p : Parsers) (name : Bytes) (f : Flags)
    (answers : IsAnswering d) (reads : IsReadable d p f) (some_name : name ≢ []) where
  module _ (key : ℕ) (before after : List (ℕ × NetInterface)) (h : Absent key before)
      (n : NetInterface) (place : n.phy_index ≡ key) (usable : is_usable f n ≡ true) where
    abbrev Claimed : {A : Type 0} → A → World K → Type 0
    Claimed a w = IsClaimed d p name f key before after h n w.handler

    configured-is_valid : (n' : NetInterface) → IsConfigured p name f n n' → is_valid n' ≡ true
    unfolding is_valid
    configured-is_valid n' c = rw (c.if_name) (c.kept_capable ∙ usable-capable f n usable)

    make_interface-Softly :
        (w : World K) → Claimed tt w → Softly (λ _ _. Unit) (make_interface d p key f w)
    make_interface-Softly w c =
        let n' = c.0 in
        let Kept = λ (w1 : World K). w1.handler ≡ w.handler in
        rw (netif_from_phy-at key before after h n' w c.1) (
          rw (c.2.if_name) (
            continue-Softly (λ _. Kept) (λ _ _. Unit) (delete_interface d name w) _
              (delete_interface-Softly d answers w.handler name w some_name refl)
              λ _ w1 h1.
                let found_again : netif_from_phy n'.phy_index w1 ≡ (ok n', w1) =
                  subst (λ k. netif_from_phy k w1 ≡ (ok n', w1)) (sym (c.2.kept_phy ∙ place))
                    (netif_from_phy-at key before after h n' w1 (rw h1 c.1)) in
                continue-Softly (λ _. Kept) (λ _ _. Unit) (create_interface d f.mtu n'.phy_index w1)
                  _
                  (create_interface-Softly d answers w.handler f.mtu n'.phy_index n' name w1
                    found_again (configured-is_valid n' c.2) c.2.if_name h1)
                  λ _ w2 h2. tt))

    set_configuration-Succeeds :
        (w : World K) → Succeeds (λ _ _. Unit) (set_configuration d p key name f w)
    unfolding set_configuration
    set_configuration-Succeeds w =
        rw (reads.reads_width) (rw (reads.reads_groups) (rw (reads.reads_mac) tt))

    claim_one-Succeeds :
        (w : World K)
        → Holds key before after n w.handler
        → Succeeds
            (λ _ _. Unit)
            ((set_configuration d p key name f >> catch (make_interface d p key f) tt) w)
    claim_one-Succeeds w e =
        continue-Succeeds Claimed (λ _ _. Unit) (set_configuration d p key name f w) _
          (both-Succeeds (λ _ _. Unit) Claimed (set_configuration d p key name f w)
            (set_configuration-Succeeds w)
            (set_configuration-Yields key before after h d p name f n w e))
          λ _ w1 c.
            caught-Succeeds (λ _ _. Unit) (make_interface d p key f w1) tt
              (make_interface-Softly w1 c)

  apply_to-Succeeds :
      (before rest : List (ℕ × NetInterface)) (w : World K)
      → w.handler.net_interfaces ≡ before ++ rest
      → Unique (before ++ rest)
      → All (λ e. e.1.phy_index ≡ e.0) rest
      → any (λ e. is_usable f e.1) rest ≡ true
      → Succeeds (λ _ _. Unit) (apply_to d p (map (λ e. e.0) rest) name f w)
  unfolding apply_to
  apply_to-Succeeds before [] w e u places has = cc
  apply_to-Succeeds before ((key, n) ∷ rest) w e u places has =
      let absent = Unique-Absent key before rest n u in
      rw (netif_from_phy-at key before rest absent n w e) (elim (Bool-cases (is_usable f n)) [
        | inl usable ↦ rw usable (claim_one-Succeeds key before rest absent n places.0 usable w e)
        | inr useless ↦ rw useless (
            let split = append_assoc before ((key, n) ∷ []) rest in
            apply_to-Succeeds (before ++ (key, n) ∷ []) rest w (rw split e) (rw split u) places.1
              (rw useless at has))
      ])

abbrev pub AnyUsable : Flags → List (ℕ × NetInterface) → Type 0
AnyUsable f [] = ⊥
AnyUsable f ((key, n) ∷ m) = IsUsable f n ⊎ AnyUsable f m

AnyUsable-any :
    (f : Flags) (m : List (ℕ × NetInterface)) → AnyUsable f m → any (λ e. is_usable f e.1) m ≡ true
AnyUsable-any f [] h = elim h [ ]
AnyUsable-any f ((key, n) ∷ m) (inl u) = rw ((is_usable_iff f n).1 u)
AnyUsable-any f ((key, n) ∷ m) (inr rest) = let known = AnyUsable-any f m rest in ground arith

-- Where the flags can be read, the interface has a name to get, every answer of the driver ends and
-- that to NEW_INTERFACE has an address, and some interface can mesh, supports the frequency and has
-- no name yet, configuring ends without an exception. The first such interface, by its phy, has then
-- its name and the settings of the flags, the address excepted, and its own phy, bands and
-- frequencies; all others are as they were. It holds where each interface is under its own phy and no phy stands there twice.
pub apply_configuration-Succeeds :
    {K : Type 0} (d : Driver K) (p : Parsers) (f : Flags) (w : World K)
    → IsAnswering d
    → IsReadable d p f
    → w.handler.interface_name ≢ []
    → Unique w.handler.net_interfaces
    → All (λ e. e.1.phy_index ≡ e.0) w.handler.net_interfaces
    → AnyUsable f w.handler.net_interfaces
    → Succeeds
        (λ _ w'.
          Claim p w.handler.interface_name f w.handler.net_interfaces w'.handler.net_interfaces)
        (apply_configuration d p f w)
apply_configuration-Succeeds d p f w answers reads some_name u places has =
    let m = w.handler.net_interfaces in
    both-Succeeds (λ _ _. Unit)
      (λ _ w'. Claim p w.handler.interface_name f m w'.handler.net_interfaces)
      (apply_configuration d p f w)
      (unfold apply_configuration in
        apply_to-Succeeds d p w.handler.interface_name f answers reads some_name [] m w refl u
          places (AnyUsable-any f m has))
      (apply_configuration-Claim d p f w u)
