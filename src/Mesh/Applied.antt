-- ===== src/Mesh/Applied.antt =====
-- 802.11s/Nl80211Handler.cpp: which interface `applyConfiguration` makes the mesh's, and what it
-- leaves alone.
use mathlib.Core.List.{append_assoc}
use fbmeshd.Prelude.{
  arith, All-append, ℕ, ◌≡◌, refl, List, [], ◌∷◌, ◌++◌, All, Bool-cases, inl, inr, nat_eq, map,
}
use fbmeshd.Prelude.Dict.{Unique}
use fbmeshd.Mesh.{Bytes, Exception, Result, ok, throw}
use fbmeshd.Mesh.Settings.{Flags}
use fbmeshd.Mesh.Handler.{NetInterface, Driver, World, lift, Yields, continue, Yields-map}
use fbmeshd.Mesh.Apply.{Parsers, is_usable, apply_to, apply_configuration, tear_down}
use fbmeshd.Mesh.Places.{Unique-Absent}
use fbmeshd.Mesh.Claims.{
  IsUsable, is_usable_iff, Claim, netif_from_phy-at, IsClaimed, claim_one-Yields,
}

throws-Yields :
    {K A B : Type 0} (Q : B → World K → Type 0) (x : Result A × World K) (e : Exception)
    → Yields Q (continue x (λ _. lift (throw e)))
throws-Yields Q (ok a, w) e = tt
throws-Yields Q (throw x, w) e = tt

module _ {K : Type 0} (d : Driver K) (p : Parsers) (name : Bytes) (f : Flags) where
  apply_to-Claim :
      (before rest : List (ℕ × NetInterface)) (w : World K)
      → w.handler.net_interfaces ≡ before ++ rest
      → Unique (before ++ rest)
      → All (λ e. ¬ IsUsable f e.1) before
      → Yields
          (λ _ w'. Claim p name f (before ++ rest) w'.handler.net_interfaces)
          (apply_to d p (map (λ e. e.0) rest) name f w)
  unfolding apply_to
  apply_to-Claim before [] w e u skip = throws-Yields _ (tear_down d w) Exception.runtime_error
  apply_to-Claim before ((key, n) ∷ rest) w e u skip =
      let absent = Unique-Absent key before rest n u in
      rw (netif_from_phy-at key before rest absent n w e) (elim (Bool-cases (is_usable f n)) [
        | inl usable ↦ rw usable (
            Yields-map (λ _ w'. IsClaimed d p name f key before rest absent n w'.handler)
              (λ _ w'. Claim p name f (before ++ (key, n) ∷ rest) w'.handler.net_interfaces) _
              (claim_one-Yields d p name f key before rest absent n w e)
              λ _ w1 c. record {
                before = before;
                key = key;
                was = n;
                claimed = c.0;
                after = rest;
                had = refl;
                has = c.1;
                skipped = skip;
                usable = (is_usable_iff f n).0 usable;
                configured = c.2;
              })
        | inr useless ↦ rw useless (
            let split = append_assoc before ((key, n) ∷ []) rest in
            let next = apply_to-Claim (before ++ (key, n) ∷ []) rest w (rw split e) (rw split u) (
              All-append (λ x. ¬ IsUsable f x.1) before ((key, n) ∷ []) skip
                ((λ u. let known = (is_usable_iff f n).1 u in ground arith), tt)) in
            rw split at next)
      ])

-- Configuring ends only with an exception or with one interface claimed: the first, by its phy, that
-- can mesh, supports the frequency and has no name yet. It gets its name and the settings of
-- the flags, the address excepted, and keeps its phy, bands and frequencies; all others are as they were. It holds where no
-- phy stands twice among the interfaces.
pub apply_configuration-Claim :
    {K : Type 0} (d : Driver K) (p : Parsers) (f : Flags) (w : World K)
    → Unique w.handler.net_interfaces
    → Yields
        (λ _ w'.
          Claim p w.handler.interface_name f w.handler.net_interfaces w'.handler.net_interfaces)
        (apply_configuration d p f w)
unfolding apply_configuration
apply_configuration-Claim d p f w u =
    apply_to-Claim d p w.handler.interface_name f [] w.handler.net_interfaces w refl u tt
