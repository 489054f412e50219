-- ===== src/Mesh/Joined.antt =====
-- 802.11s/Nl80211Handler.cpp: what a successful `joinMeshes` has done.
use fbmeshd.Prelude.{ℕ, List, nat_eq, All}
use fbmeshd.Mesh.Settings.{Sizes}
use fbmeshd.Mesh.Handler.{Driver, World}
use fbmeshd.Mesh.Commands.{KeyLengths}
use fbmeshd.Mesh.Join.{Authsae}
use fbmeshd.Mesh.Follows.{Follows}
use fbmeshd.Mesh.Served.{IsServed, Joins}

module _ {K : Type 0} (d : Driver K) (sizes : Sizes) (lengths : KeyLengths) (a : Authsae K) where
  abbrev Served : List ℕ → World K → World K → Type 0
  Served ks w w' = All (IsServed d w w') ks
